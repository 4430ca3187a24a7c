-- ===== src/Research/Executor.antt =====
-- shared/research_runs/service.py, ResearchRunExecutor: the changes that it makes to the rows of a
-- run. Where a query for one row finds none, the code raises: that is `none` here.
use synaptica_web.Prelude.{
  suc, String, Bool, true, false, Option, none, some, ◌∷◌, ◌==◌, find, if◌then◌else◌,
}
use synaptica_web.Json.{Json, Fields, end}
use synaptica_web.Security.{redact_sensitive_payload}
use synaptica_web.Research.{
  Run, Node, Attempt, Task, Store, RunStatus, NodeStatus, TaskStatus, Control,
  is_terminal_run_status, at_node, at_status, count_attempts,
}
use synaptica_web.Research.Requests.{error_result}
use synaptica_web.Research.Report.{run_result}

-- `_mark_started`
unfoldable pub started_status : Control → RunStatus
started_status Control.paused = RunStatus.paused
started_status _ = RunStatus.running

unfoldable pub mark_started : Store → Store
unfolding is_terminal_run_status started_status
mark_started s =
    if is_terminal_run_status s.run.status
    then s
    else record s { run = record s.run { status = started_status s.run.control } }

-- `_mark_completed`, without the rows of claims and their scores: it does not look at the status
unfoldable pub mark_completed : Store → Store
unfolding run_result
mark_completed s = record s {
  run = record s.run {
    status = RunStatus.completed;
    result = some (redact_sensitive_payload (run_result s));
    error = none;
  };
}

-- the result that stays, or the one for an error
abbrev pub result_or_error : Option Json → String → Fields → Option Json
result_or_error (some v) error meta = some v
result_or_error none error meta = some (error_result error meta)

-- `_mark_failed`
unfoldable pub failed_run : RunStatus → String → Run → Run
unfolding error_result
failed_run RunStatus.cancelled error r = r
failed_run _ error r = record r {
  status = RunStatus.failed;
  error = some error;
  result = result_or_error r.result error r.meta;
}

unfoldable pub mark_failed : String → Store → Store
unfolding failed_run
mark_failed error s = record s { run = failed_run s.run.status error s.run }

-- `_mark_cancelled`
unfoldable pub mark_cancelled : String → Store → Store
unfolding error_result
mark_cancelled error s = record s {
  run = record s.run {
    control = Control.cancelled;
    control_reason = some error;
    status = RunStatus.cancelled;
    error = some error;
    result = result_or_error s.run.result error s.run.meta;
  };
}

-- `_block_pending_descendants`
abbrev pub is_pending : NodeStatus → Bool
is_pending NodeStatus.pending = true
is_pending _ = false

unfoldable pub block_pending_descendants : Store → Store
block_pending_descendants s = record s {
  nodes =
      at_status is_pending
        (λ nd. record nd {
          status = NodeStatus.blocked;
          error = some "Blocked by an upstream node failure";
        })
        s.nodes;
}

abbrev pub find_node : String → Store → Option Node
find_node n s = find (λ nd. nd.node_id == n) s.nodes

-- `_create_attempt`, given the node and the ids that are drawn for the attempt and its task
unfoldable pub new_attempt : Node → String → String → Store → Attempt
new_attempt nd a t s = record {
  attempt_id = a;
  node_id = nd.node_id;
  attempt_number = suc (count_attempts nd.node_id s.attempts);
  status = NodeStatus.running;
  task_id = t;
  payment_id = none;
  agent_id = some nd.assigned_agent_id;
  result = none;
  error = none;
}

unfoldable pub new_task : String → Task
new_task t = record {
  task_id = t;
  status = TaskStatus.in_progress;
  result = none;
  runtime_status = "processing";
  runtime_error = none;
  verification_pending = false;
  decision_reason = none;
  handoff_context = end;
}

unfoldable pub start_node : String → Node → Node
start_node t nd = record nd { status = NodeStatus.running; latest_task_id = some t; error = none }

unfoldable pub create_for : Node → String → String → Store → Store
unfolding new_attempt new_task start_node
create_for nd a t s = record s {
  run = record s.run { status = RunStatus.running };
  nodes = at_node nd.node_id (start_node t) s.nodes;
  attempts = new_attempt nd a t s ∷ s.attempts;
  tasks = new_task t ∷ s.tasks;
}

unfoldable pub create_attempt : String → String → String → Store → Option Store
unfolding create_for
create_attempt n a t s = elim (find_node n s) [ none ↦ none | some nd ↦ some (create_for nd a t s) ]
