-- ===== src/Research/Plan/Whole.antt =====
-- The runs that `create_research_run` makes, from their creation to their end.
use synaptica_web.Prelude.{
  ℕ, zero, suc, ◌≤◌, String, Bool, true, false, Option, some, List, [], ◌∷◌, ◌==◌, ◌≡◌, refl, not,
  ◌&&◌, ◌≢◌, eq_iff, any, All, Unique, arith, Option-cases, inl, inr, subst, ◌∙◌, sym,
}
use synaptica_web.Json.{Json, Fields, get, to_int}
use synaptica_web.Research.{Store, count_attempts}
use synaptica_web.Research.Policy.{
  build_run_policy, policy_of, policy_attempts, resolve_max_node_attempts,
}
use synaptica_web.Research.Policy.Readback.{attempts-within}
use synaptica_web.Research.Steps.{starting, finished, Ending, Owner, Reach}
use synaptica_web.Research.Steps.Pauses.{IsNew}
use synaptica_web.Research.Steps.Bounded.{moves, round}
use synaptica_web.Research.Steps.Bounded.Moves.{budget, executor_ends}
use synaptica_web.Research.Steps.Attempts.{top, attempts_bounded}
use synaptica_web.Research.Steps.Settled.Endings.{Covers, Outcome, run-Outcome}
use synaptica_web.Research.Plan.{ResearchMode, DepthMode, build_research_run_profile}
use synaptica_web.Research.Plan.Graph.{PlanNode, plan_nodes}
use synaptica_web.Research.Plan.Create.{
  run_meta, node_parameters, new_node, new_nodes, new_store, create_research_run,
}

-- the order of the plan, which is the only one that its edges allow
abbrev pub plan_schedule : List String
plan_schedule =
    "plan_query" ∷ "gather_evidence" ∷ "curate_sources" ∷ "draft_synthesis"
    ∷ "critique_and_fact_check" ∷ "revise_final_answer" ∷ []

-- a test for distinct names
abbrev differ : List String → Bool
differ [] = true
differ (x ∷ xs) = not (any (λ y. x == y) xs) && differ xs

apart : (x : String) (xs : List String) → any (λ y. x == y) xs ≡ false → All (λ y. x ≢ y) xs
unfolding any
apart x [] h = tt
apart x (y ∷ xs) h = (λ e. ground (arith, eq_iff x y), apart x xs (ground arith))

differ-Unique : (xs : List String) → differ xs ≡ true → Unique xs
differ-Unique [] h = tt
differ-Unique (x ∷ xs) h = (apart x xs (ground arith), differ-Unique xs (ground arith))

plan_schedule-Unique : Unique plan_schedule
unfolding any
plan_schedule-Unique = differ-Unique plan_schedule refl

new_store-IsNew : (rank : PlanNode → List String) (meta : Fields) → IsNew (new_store rank meta)
unfolding new_store new_nodes new_node plan_nodes
new_store-IsNew rank meta = record {
  status = refl;
  control = refl;
  nodes = (refl, (refl, (refl, (refl, (refl, (refl, tt))))));
  ids = plan_schedule-Unique;
  attempts = refl;
}

new_store-Covers :
    (rank : PlanNode → List String) (meta : Fields) → Covers plan_schedule (new_store rank meta)
unfolding new_store new_nodes new_node plan_nodes any
new_store-Covers rank meta = (refl, (refl, (refl, (refl, (refl, (refl, tt))))))

-- a node of the plan is allowed the attempts of the policy
node_attempts :
    (n : ℕ)
    → 1 ≤ n
    → resolve_max_node_attempts (node_parameters (policy_of n)) (policy_of n) ≡ some n
unfolding resolve_max_node_attempts node_parameters policy_of get to_int
node_attempts zero h = absurd (omega arith)
node_attempts (suc n) h = ground arith

budget-least : (m : String → ℕ) → ((k : String) → round (m k) ≤ 15) → budget m plan_schedule ≤ 102
budget-least m h = omega (
  arith,
  h "plan_query",
  h "gather_evidence",
  h "curate_sources",
  h "draft_synthesis",
  h "critique_and_fact_check",
  h "revise_final_answer",
)

round-le : (n : ℕ) → n ≤ 5 → round n ≤ 15
round-le zero h = omega arith
round-le (suc n) h = omega arith

top-le : (n : ℕ) → n ≤ 5 → top n ≤ 5
top-le zero h = omega arith
top-le (suc n) h = h

created-IsNew :
    (rank : PlanNode → List String) (year description : String) (v : Json) (s : Store)
    → create_research_run rank year description v ≡ some s
    → IsNew s × Covers plan_schedule s
unfolding create_research_run
created-IsNew rank year description v s e = elim (Option-cases (build_run_policy v)) [
  | inl bad ↦ ground arith
  | inr (policy, good) ↦
      let meta =
        run_meta (build_research_run_profile year description ResearchMode.auto DepthMode.deep)
          policy in
      subst (λ u. IsNew u × Covers plan_schedule u) (ground arith)
        (new_store-IsNew rank meta, new_store-Covers rank meta)
]

allowed-le :
    (v : Json) (policy : Fields) (k : ℕ)
    → build_run_policy v ≡ some policy
    → resolve_max_node_attempts (node_parameters policy) policy ≡ some k
    → k ≤ 5
unfolding build_run_policy
allowed-le v policy k e r = elim (Option-cases (policy_attempts v)) [
  | inl bad ↦ ground arith
  | inr (n, good) ↦
      let (lo, hi) = attempts-within v n good in
      let made : policy_of n ≡ policy = ground arith in
      let same : some n ≡ some k =
        sym (
          subst (λ q. resolve_max_node_attempts (node_parameters q) q ≡ some n) made
            (node_attempts n lo))
        ∙ r in
      ground (arith, same, hi)
]

-- A run that `create_research_run` makes, executed with the attempts that its policy allows and in the
-- order of its plan, with the requests of its user at any points in between: the executor takes at most
-- 107 steps, no node has more than five attempts, and once it has ended the status of the run and its
-- nodes are settled by how it ended.
pub created_run-Outcome :
    (rank : PlanNode → List String) (year description : String) (v : Json) (s : Store)
    (policy : Fields) (m : String → ℕ)
    → create_research_run rank year description v ≡ some s
    → build_run_policy v ≡ some policy
    → ((k : String) → resolve_max_node_attempts (node_parameters policy) policy ≡ some (m k))
    → {ending : Ending} {o : Option Owner} {u : Store}
    → (r : Reach m s (starting plan_schedule) u (finished ending o))
    → (moves r ≤ 107) × ((k : String) → count_attempts k u.attempts ≤ 5) × Outcome ending u
created_run-Outcome rank year description v s policy m created made resolved {u = u} r =
    let (new, covers) = created-IsNew rank year description v s created in
    (
      omega (arith, executor_ends new.attempts r, budget-least m (λ k. round-le (m k) (few k))),
      λ k. omega (arith, attempts_bounded new plan_schedule-Unique r k, top-le (m k) (few k)),
      run-Outcome new covers r,
    )
  where
    few : (k : String) → m k ≤ 5
    few k = allowed-le v policy (m k) made (resolved k)
