-- ===== src/Research/Steps/Updates.antt =====
-- Updates of rows by their key or by their status: what holds of every row afterwards, and that no
-- row comes, goes or changes its key.
use mathlib.Core.Logic.{◌≢◌}
use synaptica_web.Prelude.{
  String, Bool, true, false, Option, some, List, [], ◌∷◌, ◌==◌, ◌≡◌, refl, find, All, arith, eq_iff,
  Option-cases, Bool-cases, inl, inr, ◌⊎◌,
}
use synaptica_web.Json.{Fields}
use synaptica_web.Research.{
  Node, Attempt, Task, Store, NodeStatus, Control, at_node, at_attempt, at_status, is_idle,
  is_terminal_run_status,
}
use synaptica_web.Research.Policy.{flag, get_run_policy}
use synaptica_web.Research.Requests.{
  request_pause, pause_with, active_nodes, request_cancel, running_attempts, cancel_with,
  request_cancellation, cancel_node, cancel_at_once, cancel_pending_nodes, cancelled_by_user, Poll,
  poll_with, mark_paused, wait_for_control_state,
}
use synaptica_web.Research.Executor.{find_node, create_attempt, create_for}
use synaptica_web.Research.Finish.{finalize_attempt, finalize_rows}
use synaptica_web.Research.Retry.{prepare_retry_candidate, prepare_with}

pub All-at_node {κ} :
    (P Q : Node → Type κ) (n : String) (f : Node → Node)
    → ((nd : Node) → nd.node_id ≡ n → P nd → Q (f nd))
    → ((nd : Node) → nd.node_id ≢ n → P nd → Q nd)
    → (nodes : List Node) → All P nodes
    → All Q (at_node n f nodes)
All-at_node P Q n f hit miss [] h = tt
All-at_node P Q n f hit miss (nd ∷ nodes) (hnd, h) = (
  ground (arith, eq_iff nd.node_id n, hit nd, miss nd, hnd),
  All-at_node P Q n f hit miss nodes h,
)

pub All-at_attempt {κ} :
    (P Q : Attempt → Type κ) (a : String) (f : Attempt → Attempt)
    → ((x : Attempt) → x.attempt_id ≡ a → P x → Q (f x))
    → ((x : Attempt) → x.attempt_id ≢ a → P x → Q x)
    → (xs : List Attempt) → All P xs
    → All Q (at_attempt a f xs)
All-at_attempt P Q a f hit miss [] h = tt
All-at_attempt P Q a f hit miss (x ∷ xs) (hx, h) =
    (ground (arith, eq_iff x.attempt_id a, hit x, miss x, hx), All-at_attempt P Q a f hit miss xs h)

pub All-at_status {κ} :
    (P Q : Node → Type κ) (p : NodeStatus → Bool) (f : Node → Node)
    → ((nd : Node) → p nd.status ≡ true → P nd → Q (f nd))
    → ((nd : Node) → p nd.status ≡ false → P nd → Q nd)
    → (nodes : List Node) → All P nodes
    → All Q (at_status p f nodes)
All-at_status P Q p f hit miss [] h = tt
All-at_status P Q p f hit miss (nd ∷ nodes) (hnd, h) =
    (ground (arith, hit nd, miss nd, hnd), All-at_status P Q p f hit miss nodes h)

-- the keys of the nodes
abbrev pub node_ids : List Node → List String
node_ids [] = []
node_ids (nd ∷ nodes) = nd.node_id ∷ node_ids nodes

pub node_ids-at_node :
    (n : String) (f : Node → Node)
    → ((nd : Node) → (f nd).node_id ≡ nd.node_id)
    → (nodes : List Node) → node_ids (at_node n f nodes) ≡ node_ids nodes
node_ids-at_node n f same [] = refl
node_ids-at_node n f same (nd ∷ nodes) = ground (arith, same nd, node_ids-at_node n f same nodes)

pub node_ids-at_status :
    (p : NodeStatus → Bool) (f : Node → Node)
    → ((nd : Node) → (f nd).node_id ≡ nd.node_id)
    → (nodes : List Node) → node_ids (at_status p f nodes) ≡ node_ids nodes
node_ids-at_status p f same [] = refl
node_ids-at_status p f same (nd ∷ nodes) =
    ground (arith, same nd, node_ids-at_status p f same nodes)

-- a node that is found has the key that it was looked up by
pub find-node_id :
    (n : String) (nd : Node) (nodes : List Node)
    → find (λ x. x.node_id == n) nodes ≡ some nd
    → nd.node_id ≡ n
unfolding find
find-node_id n nd [] h = ground arith
find-node_id n nd (x ∷ nodes) h = ground (arith, eq_iff x.node_id n, find-node_id n nd nodes)

-- what an update for one row makes of the rows, where it does not raise
pub created :
    (n a t : String) (s u : Store)
    → create_attempt n a t s ≡ some u
    → (nd : Node) × (nd.node_id ≡ n) × (u ≡ create_for nd a t s)
unfolding create_attempt
created n a t s u e = elim (Option-cases (find_node n s)) [
  | inl missing ↦ ground arith
  | inr (nd, found) ↦ (nd, find-node_id n nd s.nodes found, ground arith)
]

pub finalized :
    (n a t : String) (result : Fields) (snapshot : Option Task) (c : Bool) (s u : Store)
    → finalize_attempt n a t result snapshot c s ≡ some u
    → (nd : Node) × (nd.node_id ≡ n) × (u ≡ finalize_rows nd a t result snapshot c s)
unfolding finalize_attempt
finalized n a t result snapshot c s u e = elim (Option-cases (find_node n s)) [
  | inl missing ↦ ground arith
  | inr (nd, found) ↦ (nd, find-node_id n nd s.nodes found, ground arith)
]

pub prepared :
    (n error : String) (s u : Store)
    → prepare_retry_candidate n error s ≡ some u
    → (nd : Node) × (r : Bool) × (nd.node_id ≡ n) × (u ≡ prepare_with nd r error s)
unfolding prepare_retry_candidate
prepared n error s u e = elim (Option-cases (find_node n s)) [
  | inl missing ↦ ground arith
  | inr (nd, found) ↦ elim (Option-cases (get_run_policy s.run.meta)) [
    | inl missing ↦ ground arith
    | inr (policy, known) ↦
        (nd, flag "reroute_on_failure" policy, find-node_id n nd s.nodes found, ground arith)
  ]
]

-- a request for a pause does not change the nodes or the attempts
pause_with_rows :
    (active : List Node) (s u : Store)
    → pause_with active s ≡ some u
    → (u.nodes ≡ s.nodes) × (u.attempts ≡ s.attempts)
unfolding pause_with
pause_with_rows [] s u e = ground arith
pause_with_rows (_ ∷ []) s u e = ground arith
pause_with_rows (_ ∷ _ ∷ _) s u e = ground arith

pub paused_rows :
    (s u : Store) → request_pause s ≡ some u → (u.nodes ≡ s.nodes) × (u.attempts ≡ s.attempts)
unfolding request_pause
paused_rows s u e = ground (arith, pause_with_rows (active_nodes s) s u)

-- a cancellation changes idle nodes at most, and no attempt
abbrev pub KeepsRows : Store → Store → Type 0
KeepsRows s u =
    (u.attempts ≡ s.attempts)
    × ((u.nodes ≡ s.nodes) ⊎ (u.nodes ≡ at_status is_idle (cancel_node cancelled_by_user) s.nodes))

cancel_with-KeepsRows : (xs : List Attempt) (s : Store) → KeepsRows s (cancel_with xs s)
unfolding cancel_with cancel_at_once cancel_pending_nodes
cancel_with-KeepsRows [] s = (refl, inr refl)
cancel_with-KeepsRows (_ ∷ _) s = (refl, inl refl)

pub cancel-KeepsRows : (s : Store) → KeepsRows s (request_cancel s)
unfolding request_cancel
cancel-KeepsRows s = elim (Bool-cases (is_terminal_run_status s.run.status)) [
  | inl over ↦ rw over (refl, inl refl)
  | inr alive ↦
      rw alive
        (cancel_with-KeepsRows (running_attempts s) (record s { run = request_cancellation s.run }))
]

-- a wait that sleeps has marked the run as paused
slept_with : (c : Control) (s u : Store) → poll_with c s ≡ Poll.sleep u → u ≡ mark_paused s
unfolding poll_with
slept_with Control.active s u e = ground arith
slept_with Control.pause_requested s u e = ground arith
slept_with Control.paused s u e = ground arith
slept_with Control.cancel_requested s u e = ground arith
slept_with Control.cancelled s u e = ground arith

pub slept : (s u : Store) → wait_for_control_state s ≡ Poll.sleep u → u ≡ mark_paused s
unfolding wait_for_control_state
slept s u e = slept_with s.run.control s u e
