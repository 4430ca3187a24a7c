-- ===== src/Research/Steps/Keys.antt =====
-- No step adds a node, drops one, or changes its id.
use mathlib.Core.Logic.{◌≢◌}
use synaptica_web.Prelude.{
  Unique, ℕ, String, Bool, Option, some, List, [], ◌∷◌, ◌==◌, ◌≡◌, refl, find, All, arith, eq_iff,
  inl, inr, ◌∙◌, ap, sym, subst, Bool-cases,
}
use synaptica_web.Json.{Fields}
use synaptica_web.Research.{Node, Task, Store, is_idle}
use synaptica_web.Research.Requests.{
  request_resume, request_cancel, cancel_pending_nodes, cancel_node, cancelled_by_user, mark_paused,
}
use synaptica_web.Research.Executor.{
  mark_started, mark_completed, mark_failed, mark_cancelled, block_pending_descendants, is_pending,
  create_attempt, create_for, start_node,
}
use synaptica_web.Research.Finish.{
  finalize_attempt, finalize_rows, finish_node, record_attempt_failure, fail_node,
}
use synaptica_web.Research.Retry.{prepare_retry_candidate, prepare_with, retry_node}
use synaptica_web.Research.Steps.{Stage, Step, Reach}
use synaptica_web.Research.Steps.Updates.{
  node_ids, node_ids-at_node, node_ids-at_status, created, finalized, prepared, paused_rows,
  cancel-KeepsRows, slept,
}

none_else {κ} :
    (P : Node → Type κ) (n : String) (nodes : List Node)
    → All (λ m. n ≢ m) (node_ids nodes)
    → All (λ x. x.node_id ≡ n → P x) nodes
none_else P n [] h = tt
none_else P n (x ∷ nodes) h = (λ e. absurd (h.0 (sym e)), none_else P n nodes h.1)

-- the node that is found is the only one of its id
pub All-found {κ} :
    (P : Node → Type κ) (n : String) (nd : Node) (nodes : List Node)
    → Unique (node_ids nodes)
    → find (λ x. x.node_id == n) nodes ≡ some nd
    → P nd
    → All (λ x. x.node_id ≡ n → P x) nodes
unfolding find
All-found P n nd [] u e p = tt
All-found P n nd (x ∷ nodes) u e p = elim (Bool-cases (x.node_id == n)) [
  | inl hit ↦ (
    λ _. subst P (ground arith) p,
    none_else P n nodes
        (subst (λ m. All (λ k. m ≢ k) (node_ids nodes)) ((eq_iff x.node_id n).0 hit) u.0),
  )
  | inr miss ↦
      (λ same. ground (arith, eq_iff x.node_id n), All-found P n nd nodes u.1 (ground arith) p)
]

abbrev pub KeepsIds : Store → Store → Type 0
KeepsIds s u = node_ids u.nodes ≡ node_ids s.nodes

cancel-KeepsIds : (s : Store) → KeepsIds s (request_cancel s)
unfolding cancel_node
cancel-KeepsIds s = elim (cancel-KeepsRows s).1 [
  | inl same ↦ rw same refl
  | inr swept ↦
      rw swept (node_ids-at_status is_idle (cancel_node cancelled_by_user) (λ x. refl) s.nodes)
]

create-KeepsIds : (n a t : String) (s u : Store) → create_attempt n a t s ≡ some u → KeepsIds s u
unfolding create_for start_node
create-KeepsIds n a t s u e =
    let (nd, at, made) = created n a t s u e in rw made (node_ids-at_node _ _ (λ x. refl) s.nodes)

finalize-KeepsIds :
    (n a t : String) (result : Fields) (snapshot : Option Task) (c : Bool) (s u : Store)
    → finalize_attempt n a t result snapshot c s ≡ some u
    → KeepsIds s u
unfolding finalize_rows finish_node
finalize-KeepsIds n a t result snapshot c s u e =
    let (nd, at, made) = finalized n a t result snapshot c s u e in
    rw made (node_ids-at_node _ _ (λ x. refl) s.nodes)

failure-KeepsIds :
    (n a t error : String) (result : Option Fields) (c : Bool) (s : Store)
    → KeepsIds s (record_attempt_failure n a t error result c s)
unfolding record_attempt_failure fail_node
failure-KeepsIds n a t error result c s = node_ids-at_node n _ (λ x. ground arith) s.nodes

retry-KeepsIds :
    (n error : String) (s u : Store) → prepare_retry_candidate n error s ≡ some u → KeepsIds s u
unfolding prepare_with retry_node
retry-KeepsIds n error s u e =
    let (nd, r, at, made) = prepared n error s u e in
    rw made (node_ids-at_node _ _ (λ x. refl) s.nodes)

sleep-KeepsIds : (s : Store) → KeepsIds s (mark_paused s)
unfolding mark_paused
sleep-KeepsIds s = ground arith

resume-KeepsIds : (s : Store) → KeepsIds s (request_resume s)
unfolding request_resume
resume-KeepsIds s = ground arith

start-KeepsIds : (s : Store) → KeepsIds s (mark_started s)
unfolding mark_started
start-KeepsIds s = ground arith

pub Step-KeepsIds : {m : String → ℕ} {s u : Store} {at to : Stage} → Step m s at u to → KeepsIds s u
unfolding mark_completed mark_failed mark_cancelled block_pending_descendants cancel_pending_nodes
    cancel_node
Step-KeepsIds (Step.pause e) = ap node_ids (paused_rows _ _ e).0
Step-KeepsIds Step.resume = resume-KeepsIds _
Step-KeepsIds Step.cancel = cancel-KeepsIds _
Step-KeepsIds Step.start = start-KeepsIds _
Step-KeepsIds (Step.proceed w e) = refl
Step-KeepsIds {s = s} (Step.sleep st' w e) = rw (slept _ _ e) (sleep-KeepsIds s)
Step-KeepsIds (Step.stop st' w e) = refl
Step-KeepsIds (Step.visit e p) = refl
Step-KeepsIds (Step.skip e p) = refl
Step-KeepsIds (Step.visit_cancelled e p) = refl
Step-KeepsIds (Step.create fresh e) = create-KeepsIds _ _ _ _ _ e
Step-KeepsIds (Step.work f) = refl
Step-KeepsIds (Step.succeed result snapshot b e) = finalize-KeepsIds _ _ _ _ _ _ _ _ e
Step-KeepsIds (Step.end_cancelled result snapshot b c e) = finalize-KeepsIds _ _ _ _ _ _ _ _ e
Step-KeepsIds (Step.fail) = failure-KeepsIds _ _ _ _ _ _ _
Step-KeepsIds (Step.retry b e) = retry-KeepsIds _ _ _ _ e
Step-KeepsIds (Step.give_up b) = refl
Step-KeepsIds (Step.crash error w) = refl
Step-KeepsIds Step.complete = refl
Step-KeepsIds Step.overrun = refl
Step-KeepsIds Step.fail_run = refl
Step-KeepsIds {s = s} Step.block = node_ids-at_status is_pending _ (λ x. refl) s.nodes
Step-KeepsIds Step.cancel_run = refl
Step-KeepsIds {s = s} Step.sweep = node_ids-at_status is_idle _ (λ x. refl) s.nodes

pub Reach-KeepsIds :
    {m : String → ℕ} {s : Store} {at to : Stage} {u : Store} → Reach m s at u to → KeepsIds s u
Reach-KeepsIds Reach.here = refl
Reach-KeepsIds (Reach.next r st) = Step-KeepsIds st ∙ Reach-KeepsIds r
