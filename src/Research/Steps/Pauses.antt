-- ===== src/Research/Steps/Pauses.antt =====
-- A request for a pause finds one active node at most.
use mathlib.Core.Logic.{◌≢◌}
use synaptica_web.Prelude.{
  Unique, All-map, ℕ, String, true, Option, none, some, List, [], ◌∷◌, ◌≡◌, refl, keep, All, arith,
  inl, inr, Bool-cases, sym, subst, ◌∙◌,
}
use synaptica_web.Research.{
  Node, Store, RunStatus, NodeStatus, Control, is_active, is_terminal_run_status,
}
use synaptica_web.Research.Requests.{request_pause, pause_with, active_nodes, is_pausing}
use synaptica_web.Research.Steps.{Owner, Stage, starting, Reach}
use synaptica_web.Research.Steps.Updates.{node_ids}
use synaptica_web.Research.Steps.Owned.{owner, IsOwned}
use synaptica_web.Research.Steps.Owned.Reached.{Reach-IsOwned}
use synaptica_web.Research.Steps.Keys.{Reach-KeepsIds}

-- a run as `create_research_run` stores it
pub record IsNew (s : Store) : Type 0 where
  pub status : s.run.status ≡ RunStatus.pending
  pub control : s.run.control ≡ Control.active
  pub nodes : All (λ nd. nd.status ≡ NodeStatus.pending) s.nodes
  pub ids : Unique (node_ids s.nodes)
  pub attempts : s.attempts ≡ []

pub new-IsOwned : (s : Store) → IsNew s → IsOwned none s
new-IsOwned s h = record {
  nodes = All-map _ _ (λ nd e a. ground (arith, e)) s.nodes h.nodes;
  attempts = rw h.attempts tt;
}

-- the active nodes are none or one
abbrev AtMostOne : List Node → Type 0
AtMostOne [] = Unit
AtMostOne (_ ∷ []) = Unit
AtMostOne (_ ∷ _ ∷ _) = ¬ Unit

abbrev active : List Node → List Node
active = keep (λ nd. is_active nd.status)

none_active :
    (n : String) (nodes : List Node)
    → All (λ nd. is_active nd.status ≡ true → nd.node_id ≡ n) nodes
    → All (λ m. n ≢ m) (node_ids nodes)
    → active nodes ≡ []
unfolding keep
none_active n [] h k = refl
none_active n (nd ∷ nodes) h k = ground (arith, h.0, none_active n nodes h.1 k.1, k.0)

one_active :
    (n : String) (nodes : List Node)
    → All (λ nd. is_active nd.status ≡ true → nd.node_id ≡ n) nodes
    → Unique (node_ids nodes)
    → AtMostOne (active nodes)
unfolding keep
one_active n [] h k = tt
one_active n (nd ∷ nodes) h k = elim (Bool-cases (is_active nd.status)) [
  | inl on ↦
      rw
        (on, none_active nd.node_id nodes (All-map _ _ (λ x f a. f a ∙ sym (h.0 on)) nodes h.1) k.0)
        tt
  | inr off ↦ rw off (one_active n nodes h.1 k.1)
]

pause-some :
    (nodes : List Node) (s : Store) → AtMostOne nodes → (v : Store) × (pause_with nodes s ≡ some v)
unfolding pause_with
pause-some [] s h = (_, refl)
pause-some (_ ∷ []) s h = (_, refl)
pause-some (_ ∷ _ ∷ _) s h = absurd (h tt)

owned_by_one :
    (o : Option Owner) (s : Store)
    → IsOwned o s
    → Unique (node_ids s.nodes)
    → AtMostOne (active_nodes s)
owned_by_one none s h k =
    one_active "" s.nodes (All-map _ _ (λ nd f a. absurd ((f a).0 tt)) s.nodes h.nodes) k
owned_by_one (some o) s h k =
    one_active o.node s.nodes (All-map _ _ (λ nd f a. (f a).0) s.nodes h.nodes) k

-- From a new run on, in any order of the steps of its executor and of the requests of its user, a
-- request for a pause is answered: there are never two nodes that run or wait for a review, on which
-- the query of `request_pause_research_run` would raise an exception.
pub request_pause_answers :
    {m : String → ℕ} {s : Store} {todo : List String} {u : Store} {at : Stage}
    → IsNew s
    → Reach m s (starting todo) u at
    → (v : Store) × (request_pause u ≡ some v)
unfolding request_pause
request_pause_answers {s = s} {u = u} {at = at} h r =
    let (v, e) = pause-some (active_nodes u) u (
      owned_by_one (owner at) u (Reach-IsOwned (new-IsOwned s h) r)
        (subst Unique (sym (Reach-KeepsIds r)) h.ids)) in
    elim (Bool-cases (is_terminal_run_status u.run.status)) [
      | inl over ↦ (u, rw over refl)
      | inr alive ↦ elim (Bool-cases (is_pausing u.run.control)) [
        | inl already ↦ (u, rw (alive, already) refl)
        | inr now ↦ (v, rw (alive, now) e)
      ]
    ]
