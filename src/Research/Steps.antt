-- ===== src/Research/Steps.antt =====
-- shared/research_runs/service.py: a run as its rows change, one transaction at a time. The
-- executor (ResearchRunExecutor.run and execute_node) and the requests of the user take turns in
-- any order; one process has one executor for a run.
pub mod Updates
pub mod Owned
pub mod Keys
pub mod Pauses
pub mod Settled
pub mod Bounded
pub mod Cancels
pub mod Stops
pub mod Overruns
pub mod Diagram
pub mod Reroutes
pub mod Attempts
use synaptica_web.Prelude.{ℕ, String, Bool, true, false, Option, none, some, List, [], ◌∷◌, ◌≡◌}
use synaptica_web.Json.{Json, Fields}
use synaptica_web.Research.{Node, Task, Store, NodeStatus, at_task, count_attempts}
use synaptica_web.Research.Requests.{
  request_pause, request_resume, request_cancel, wait_for_control_state, Poll, or_text,
  cancel_pending_nodes, cancelled_by_user,
}
use synaptica_web.Research.Executor.{
  mark_started, mark_completed, mark_failed, mark_cancelled, block_pending_descendants,
  create_attempt, find_node,
}
use synaptica_web.Research.Finish.{
  has_attempt, finalize_attempt, record_attempt_failure, attempt_was_cancelled, text_at,
}
use synaptica_web.Research.Policy.{flag}
use synaptica_web.Research.Retry.{should_retry_attempt, prepare_retry_candidate}

-- an attempt that the executor works on, or left in the middle
pub record Owner : Type 0 where
  pub node : String
  pub attempt : String

-- how the executor ended
pub data Ending : Type 0 where
  completes fails cancels : Ending
  -- at the time limit of the graph, with the nodes that it had still to execute
  overruns : List String → Ending

-- Where the executor stands. The list is the nodes that the graph has still to execute, in the order
-- in which it does.
pub data Stage : Type 0 where
  -- before `_mark_started`
  starting : List String → Stage
  -- in `_wait_for_control_state`, called by `run`
  waiting : List String → Stage
  -- between two nodes
  idle : List String → Stage
  -- in `_wait_for_control_state`, called for a node
  entering : String → List String → Stage
  -- at the head of the loop of `execute_node`
  trying : String → List String → Stage
  -- after `_create_attempt`: the node, the attempt and its task
  attempting : String → String → String → List String → Stage
  -- after `_record_attempt_failure`: the error and the result that the retry is decided on
  judging : String → String → Option Fields → List String → Stage
  -- in the handlers of `run`: before and after the mark on the run
  failing : Option Owner → String → Stage
  blocking : Option Owner → Stage
  cancelling : String → Stage
  sweeping : String → Stage
  finished : Ending → Option Owner → Stage

-- a stage in which `run` waits for the graph, and the attempt that is under way there
pub data Working : Stage → Option Owner → Type 0 where
  at_start : {todo : List String} → Working (waiting todo) none
  between : {todo : List String} → Working (idle todo) none
  at_node_start : {n : String} {todo : List String} → Working (entering n todo) none
  at_loop_head : {n : String} {todo : List String} → Working (trying n todo) none
  in_attempt :
      {n a t : String} {todo : List String}
      → Working (attempting n a t todo) (some (record { node = n; attempt = a }))
  after_attempt :
      {n e : String} {r : Option Fields} {todo : List String} → Working (judging n e r todo) none

-- a stage that waits, and the one after it
pub data IsWait : Stage → Stage → Type 0 where
  wait_of_run : {todo : List String} → IsWait (waiting todo) (idle todo)
  wait_of_node : {n : String} {todo : List String} → IsWait (entering n todo) (trying n todo)

-- a status that `execute_node` works on
abbrev pub is_to_do : NodeStatus → Option Json → Bool
is_to_do NodeStatus.completed (some _) = false
is_to_do NodeStatus.cancelled _ = false
is_to_do _ _ = true

abbrev pub is_skipped : NodeStatus → Option Json → Bool
is_skipped NodeStatus.completed (some _) = true
is_skipped _ _ = false

-- A transaction of a user, or of the executor. `max_attempts` is what `_resolve_max_node_attempts`
-- answers for a node.
pub data Step (max_attempts : String → ℕ) : Store → Stage → Store → Stage → Type 0 where
  pause : {s u : Store} {st : Stage} → request_pause s ≡ some u → Step max_attempts s st u st
  resume : {s : Store} {st : Stage} → Step max_attempts s st (request_resume s) st
  cancel : {s : Store} {st : Stage} → Step max_attempts s st (request_cancel s) st
  start :
      {s : Store} {todo : List String}
      → Step max_attempts s (starting todo) (mark_started s) (waiting todo)
  proceed :
      {s : Store} {st st' : Stage}
      → IsWait st st'
      → wait_for_control_state s ≡ Poll.proceed
      → Step max_attempts s st s st'
  sleep :
      {s u : Store} {st : Stage} (st' : Stage)
      → IsWait st st'
      → wait_for_control_state s ≡ Poll.sleep u
      → Step max_attempts s st u st
  stop :
      {s : Store} {st : Stage} {reason : String} (st' : Stage)
      → IsWait st st'
      → wait_for_control_state s ≡ Poll.stop reason
      → Step max_attempts s st s (cancelling reason)
  visit :
      {s : Store} {n : String} {todo : List String} {nd : Node}
      → find_node n s ≡ some nd
      → is_to_do nd.status nd.result ≡ true
      → Step max_attempts s (idle (n ∷ todo)) s (entering n todo)
  skip :
      {s : Store} {n : String} {todo : List String} {nd : Node}
      → find_node n s ≡ some nd
      → is_skipped nd.status nd.result ≡ true
      → Step max_attempts s (idle (n ∷ todo)) s (idle todo)
  visit_cancelled :
      {s : Store} {n : String} {todo : List String} {nd : Node}
      → find_node n s ≡ some nd
      → nd.status ≡ NodeStatus.cancelled
      → Step max_attempts s (idle (n ∷ todo)) s (cancelling (or_text nd.error cancelled_by_user))
  -- the ids of an attempt and of its task are drawn by uuid4
  create :
      {s u : Store} {n a t : String} {todo : List String}
      → has_attempt a s ≡ false
      → create_attempt n a t s ≡ some u
      → Step max_attempts s (trying n todo) u (attempting n a t todo)
  -- `execute_microtask` writes to the task
  work :
      {s : Store} {n a t : String} {todo : List String} (f : Task → Task)
      → Step max_attempts s
          (attempting n a t todo)
          (record s { tasks = at_task t f s.tasks })
          (attempting n a t todo)
  succeed :
      {s u : Store} {n a t : String} {todo : List String} (result : Fields) (snapshot : Option Task)
      → flag "success" result ≡ true
      → finalize_attempt n a t result snapshot (attempt_was_cancelled result snapshot) s ≡ some u
      → Step max_attempts s (attempting n a t todo) u (idle todo)
  end_cancelled :
      {s u : Store} {n a t : String} {todo : List String} (result : Fields) (snapshot : Option Task)
      → flag "success" result ≡ false
      → attempt_was_cancelled result snapshot ≡ true
      → finalize_attempt n a t result snapshot true s ≡ some u
      → Step max_attempts s
          (attempting n a t todo)
          u
          (cancelling (or_text (text_at "error" result) cancelled_by_user))
  -- `execute_microtask` answers with a failure, or raises
  fail :
      {s : Store} {n a t error : String} {todo : List String} {result : Option Fields}
      → Step max_attempts s
          (attempting n a t todo)
          (record_attempt_failure n a t error result false s)
          (judging n error result todo)
  retry :
      {s u : Store} {n error : String} {todo : List String} {result : Option Fields}
      → should_retry_attempt (max_attempts n) (count_attempts n s.attempts) result false ≡ true
      → prepare_retry_candidate n error s ≡ some u
      → Step max_attempts s (judging n error result todo) u (trying n todo)
  give_up :
      {s : Store} {n error : String} {todo : List String} {result : Option Fields}
      → should_retry_attempt (max_attempts n) (count_attempts n s.attempts) result false ≡ false
      → Step max_attempts s (judging n error result todo) s (failing none error)
  -- an exception that no handler of `execute_node` sees, such as one of
  -- `_initialize_attempt_runtime`, or of a query for a row
  crash :
      {s : Store} {st : Stage} {o : Option Owner} (error : String)
      → Working st o
      → Step max_attempts s st s (failing o error)
  complete :
      {s : Store} → Step max_attempts s (idle []) (mark_completed s) (finished completes none)
  -- The graph looks at its time limit before it executes a node, and returns there without an
  -- exception; `run` does not look at what it returns.
  overrun :
      {s : Store} {n : String} {todo : List String}
      → Step max_attempts s
          (idle (n ∷ todo))
          (mark_completed s)
          (finished (overruns (n ∷ todo)) none)
  fail_run :
      {s : Store} {o : Option Owner} {error : String}
      → Step max_attempts s (failing o error) (mark_failed error s) (blocking o)
  block :
      {s : Store} {o : Option Owner}
      → Step max_attempts s (blocking o) (block_pending_descendants s) (finished fails o)
  cancel_run :
      {s : Store} {reason : String}
      → Step max_attempts s (cancelling reason) (mark_cancelled reason s) (sweeping reason)
  sweep :
      {s : Store} {reason : String}
      → Step max_attempts s
          (sweeping reason)
          (cancel_pending_nodes reason s)
          (finished cancels none)

pub data Reach (max_attempts : String → ℕ) (s : Store) (st : Stage) : Store → Stage → Type 0 where
  here : Reach max_attempts s st s st
  next :
      {u v : Store} {at to : Stage}
      → Reach max_attempts s st u at
      → Step max_attempts u at v to
      → Reach max_attempts s st v to
