-- ===== src/Research/Steps/Settled/Outcome.antt =====
-- Every step keeps what holds where the executor stands; so a run that has ended has its outcome in
-- its status and in its nodes.
use synaptica_web.Prelude.{
  Unique, ℕ, String, Bool, true, false, Option, some, List, [], ◌∷◌, ◌≡◌, refl, any, All, arith,
  eq_iff, sym, subst,
}
use synaptica_web.Json.{Json, Fields}
use synaptica_web.Research.{
  Run, Node, Task, Store, RunStatus, NodeStatus, is_idle, at_status, at_node,
}
use synaptica_web.Research.Policy.{flag}
use synaptica_web.Research.Requests.{cancel_pending_nodes, cancel_node}
use synaptica_web.Research.Executor.{
  mark_completed, mark_failed, failed_run, mark_cancelled, block_pending_descendants, is_pending,
  create_attempt, create_for, start_node, find_node,
}
use synaptica_web.Research.Finish.{
  finalize_attempt, finalize_rows, finish_node, node_end, record_attempt_failure, fail_node,
}
use synaptica_web.Research.Retry.{prepare_retry_candidate, prepare_with, retry_node}
use synaptica_web.Research.Steps.{
  Owner, Stage, waiting, idle, trying, attempting, judging, failing, blocking, Working, IsWait,
  is_skipped, Step, Reach,
}
use synaptica_web.Research.Steps.Updates.{
  node_ids, All-at_node, created, finalized, prepared, slept,
}
use synaptica_web.Research.Steps.Keys.{All-found, Reach-KeepsIds}
use synaptica_web.Research.Steps.Settled.{is_down, is_done, GoesOn}
use synaptica_web.Research.Steps.Settled.Work.{
  Left, AtStage, pause-IsRequest, resume-IsRequest, cancel-IsRequest, start-IsRequest,
  sleep-IsRequest, request-AtStage,
}

-- an update of the node in work keeps what is left
work-Left :
    (n : String) (todo : List String) (f : Node → Node)
    → ((nd : Node) → (f nd).node_id ≡ nd.node_id)
    → (nodes : List Node) → Left (n ∷ todo) nodes
    → Left (n ∷ todo) (at_node n f nodes)
unfolding any
work-Left n todo f same =
    All-at_node _ _ n f (λ nd e h. ground (arith, same nd, eq_iff nd.node_id n)) (λ nd e h. h)

-- an update that has the node done takes it off the work
done-Left :
    (n : String) (todo : List String) (f : Node → Node)
    → ((nd : Node) → is_done (f nd).status ≡ true)
    → (nodes : List Node) → Left (n ∷ todo) nodes
    → Left todo (at_node n f nodes)
unfolding any
done-Left n todo f done =
    All-at_node _ _ n f (λ nd e h. ground (arith, done nd))
      (λ nd e h. ground (arith, eq_iff nd.node_id n))

create-AtStage :
    (n a t : String) (todo : List String) (s u : Store)
    → create_attempt n a t s ≡ some u
    → AtStage (trying n todo) s
    → AtStage (attempting n a t todo) u
unfolding create_for start_node
create-AtStage n a t todo s u e h =
    let (nd, at, made) = created n a t s u e in
    rw made (refl, rw at (work-Left n todo _ (λ x. refl) s.nodes h.1))

succeed-AtStage :
    (n a t : String) (todo : List String) (result : Fields) (snapshot : Option Task) (c : Bool)
    (s u : Store)
    → flag "success" result ≡ true
    → finalize_attempt n a t result snapshot c s ≡ some u
    → AtStage (attempting n a t todo) s
    → AtStage (idle todo) u
unfolding finalize_rows finish_node
succeed-AtStage n a t todo result snapshot c s u b e h =
    let (nd, at, made) = finalized n a t result snapshot c s u e in
    rw made (h.0, rw at (done-Left n todo _ (λ x. rw b (ended c)) s.nodes h.1))
  where
    ended : (c : Bool) → is_done (node_end c true) ≡ true
    ended true = refl
    ended false = refl

end_cancelled-AtStage :
    (n a t : String) (todo : List String) (result : Fields) (snapshot : Option Task) (c : Bool)
    (s u : Store)
    → finalize_attempt n a t result snapshot c s ≡ some u
    → AtStage (attempting n a t todo) s
    → GoesOn u
unfolding finalize_rows
end_cancelled-AtStage n a t todo result snapshot c s u e h =
    let (nd, at, made) = finalized n a t result snapshot c s u e in rw made h.0

fail-AtStage :
    (n a t error : String) (todo : List String) (result : Option Fields) (s : Store)
    → AtStage (attempting n a t todo) s
    → AtStage (judging n error result todo) (record_attempt_failure n a t error result false s)
unfolding record_attempt_failure fail_node
fail-AtStage n a t error todo result s h = (h.0, work-Left n todo _ (λ x. ground arith) s.nodes h.1)

retry-AtStage :
    (n error : String) (todo : List String) (result : Option Fields) (s u : Store)
    → prepare_retry_candidate n error s ≡ some u
    → AtStage (judging n error result todo) s
    → AtStage (trying n todo) u
unfolding prepare_with retry_node
retry-AtStage n error todo result s u e h =
    let (nd, r, at, made) = prepared n error s u e in
    rw made (h.0, rw at (work-Left n todo _ (λ x. refl) s.nodes h.1))

-- a node that is done needs no more work
skip-Left :
    (n : String) (todo : List String) (nodes : List Node)
    → All (λ x. x.node_id ≡ n → is_done x.status ≡ true) nodes
    → Left (n ∷ todo) nodes
    → Left todo nodes
unfolding any
skip-Left n todo [] d h = tt
skip-Left n todo (x ∷ nodes) d h =
    (ground (arith, d.0, h.0, eq_iff x.node_id n), skip-Left n todo nodes d.1 h.1)

skipped-done : (st : NodeStatus) (r : Option Json) → is_skipped st r ≡ true → is_done st ≡ true
skipped-done NodeStatus.completed r h = refl
skipped-done NodeStatus.pending r h = ground arith
skipped-done NodeStatus.running r h = ground arith
skipped-done NodeStatus.waiting_for_review r h = ground arith
skipped-done NodeStatus.failed r h = ground arith
skipped-done NodeStatus.blocked r h = ground arith
skipped-done NodeStatus.cancelled r h = ground arith

skip-AtStage :
    (n : String) (todo : List String) (nd : Node) (s : Store)
    → Unique (node_ids s.nodes)
    → find_node n s ≡ some nd
    → is_skipped nd.status nd.result ≡ true
    → AtStage (idle (n ∷ todo)) s
    → AtStage (idle todo) s
skip-AtStage n todo nd s k e p h = (
  h.0,
  skip-Left n todo s.nodes
      (All-found (λ x. is_done x.status ≡ true) n nd s.nodes k e
        (skipped-done nd.status nd.result p))
      h.1,
)

failed-down :
    (st : RunStatus) (error : String) (r : Run)
    → r.status ≡ st
    → is_down (failed_run st error r).status ≡ true
unfolding failed_run
failed-down RunStatus.cancelled error r e = rw e refl
failed-down RunStatus.pending error r e = refl
failed-down RunStatus.running error r e = refl
failed-down RunStatus.waiting_for_review error r e = refl
failed-down RunStatus.paused error r e = refl
failed-down RunStatus.completed error r e = refl
failed-down RunStatus.failed error r e = refl

failed-AtStage :
    (error : String) (o : Option Owner) (s : Store)
    → AtStage (failing o error) s
    → AtStage (blocking o) (mark_failed error s)
unfolding mark_failed
failed-AtStage error o s h = failed-down s.run.status error s.run refl

-- an update by status leaves no node with it
cleared :
    (p : NodeStatus → Bool) (f : Node → Node)
    → ((nd : Node) → p (f nd).status ≡ false)
    → (nodes : List Node) → All (λ nd. p nd.status ≡ false) (at_status p f nodes)
cleared p f off [] = tt
cleared p f off (nd ∷ nodes) = (ground (arith, off nd), cleared p f off nodes)

proceed-AtStage : {st st' : Stage} (s : Store) → IsWait st st' → AtStage st s → AtStage st' s
proceed-AtStage s IsWait.wait_of_run h = h
proceed-AtStage s IsWait.wait_of_node h = h

stop-AtStage : {st st' : Stage} (s : Store) → IsWait st st' → AtStage st s → GoesOn s
stop-AtStage s IsWait.wait_of_run h = h.0
stop-AtStage s IsWait.wait_of_node h = h.0

crash-AtStage : {st : Stage} {o : Option Owner} (s : Store) → Working st o → AtStage st s → GoesOn s
crash-AtStage s Working.at_start h = h.0
crash-AtStage s Working.between h = h.0
crash-AtStage s Working.at_node_start h = h.0
crash-AtStage s Working.at_loop_head h = h.0
crash-AtStage s Working.in_attempt h = h.0
crash-AtStage s Working.after_attempt h = h.0

Step-AtStage :
    {m : String → ℕ} {s u : Store} {at to : Stage}
    → Unique (node_ids s.nodes)
    → Step m s at u to
    → AtStage at s
    → AtStage to u
unfolding mark_completed mark_cancelled block_pending_descendants cancel_pending_nodes cancel_node
    any
Step-AtStage {at = at} k (Step.pause e) h = request-AtStage at _ _ (pause-IsRequest _ _ e) h
Step-AtStage {at = at} k Step.resume h = request-AtStage at _ _ (resume-IsRequest _) h
Step-AtStage {at = at} k Step.cancel h = request-AtStage at _ _ (cancel-IsRequest _) h
Step-AtStage {s = s} k (Step.start {todo = todo}) h =
    request-AtStage (waiting todo) s _ (start-IsRequest s) h
Step-AtStage {s = s} k (Step.proceed w e) h = proceed-AtStage s w h
Step-AtStage {s = s} {at = at} k (Step.sleep st' w e) h =
    rw (slept _ _ e) (request-AtStage at s _ (sleep-IsRequest s) h)
Step-AtStage {s = s} k (Step.stop st' w e) h = stop-AtStage s w h
Step-AtStage k (Step.visit e p) h = h
Step-AtStage {s = s} k (Step.skip e p) h = skip-AtStage _ _ _ s k e p h
Step-AtStage k (Step.visit_cancelled e p) h = h.0
Step-AtStage k (Step.create fresh e) h = create-AtStage _ _ _ _ _ _ e h
Step-AtStage k (Step.work f) h = h
Step-AtStage k (Step.succeed result snapshot b e) h =
    succeed-AtStage _ _ _ _ result snapshot _ _ _ b e h
Step-AtStage k (Step.end_cancelled result snapshot b c e) h =
    end_cancelled-AtStage _ _ _ _ result snapshot true _ _ e h
Step-AtStage k Step.fail h = fail-AtStage _ _ _ _ _ _ _ h
Step-AtStage k (Step.retry {result = result} b e) h = retry-AtStage _ _ _ result _ _ e h
Step-AtStage k (Step.give_up b) h = h.0
Step-AtStage {s = s} k (Step.crash error w) h = crash-AtStage s w h
Step-AtStage {s = s} k Step.complete h = (refl, h.1)
Step-AtStage {s = s} k Step.overrun h = (refl, h.1)
Step-AtStage {s = s} k (Step.fail_run {o = o} {error = error}) h = failed-AtStage error o s h
Step-AtStage {s = s} k Step.block h = (h, cleared is_pending _ (λ x. refl) s.nodes)
Step-AtStage k Step.cancel_run h = refl
Step-AtStage {s = s} k Step.sweep h = (h, cleared is_idle _ (λ x. refl) s.nodes)

pub Reach-AtStage :
    {m : String → ℕ} {s : Store} {at to : Stage} {u : Store}
    → Unique (node_ids s.nodes)
    → AtStage at s
    → Reach m s at u to
    → AtStage to u
Reach-AtStage k h Reach.here = h
Reach-AtStage k h (Reach.next r st) =
    Step-AtStage (subst Unique (sym (Reach-KeepsIds r)) k) st (Reach-AtStage k h r)
