-- ===== src/Research/Requests.antt =====
-- shared/research_runs/service.py: request_pause_research_run, request_resume_research_run and
-- request_cancel_research_run, and what the executor makes of the control state.
use synaptica_web.Prelude.{
  String, Bool, true, false, Option, none, some, List, [], ◌∷◌, ◌==◌, find, keep, if◌then◌else◌,
}
use synaptica_web.Json.{Json, Fields, null, str, obj, field, end, get}
use synaptica_web.Research.{
  Run, Node, Attempt, Task, Store, RunStatus, NodeStatus, Control, is_terminal_run_status,
  is_running, is_active, is_idle, at_task, at_status,
}

abbrev pub cancelled_by_user : String
cancelled_by_user = "Cancelled by user"

-- `meta.get(key)` as it is stored again
abbrev pub get_or_null : String → Fields → Json
get_or_null k meta = elim (get k meta) [ none ↦ null | some v ↦ v ]

-- `a or b` of two texts
abbrev pub or_text : Option String → String → String
or_text none d = d
or_text (some s) d = if s == "" then d else s

-- the result of a run that ends with an error
unfoldable pub error_result : String → Fields → Json
error_result error meta = obj (
    field "error" (str error) (
      field "classified_mode" (get_or_null "classified_mode" meta)
        (field "depth_mode" (get_or_null "depth_mode" meta) end)))

abbrev pub is_pausing : Control → Bool
is_pausing Control.pause_requested = true
is_pausing Control.paused = true
is_pausing _ = false

-- `request_pause_research_run`, given the nodes that run or wait for a review; `one_or_none` raises
-- on two of them
unfoldable pub pause_with : List Node → Store → Option Store
pause_with [] s = some (record s {
  run = record s.run {
    control = Control.paused;
    control_reason = some "Pause requested by user";
    status = RunStatus.paused;
  };
})
pause_with (_ ∷ []) s = some (record s {
  run = record s.run {
    control = Control.pause_requested;
    control_reason = some "Pause requested by user";
  };
})
pause_with (_ ∷ _ ∷ _) s = none

abbrev pub active_nodes : Store → List Node
active_nodes s = keep (λ nd. is_active nd.status) s.nodes

-- `request_pause_research_run`; `none` is an exception
unfoldable pub request_pause : Store → Option Store
unfolding is_terminal_run_status pause_with
request_pause s =
    if is_terminal_run_status s.run.status
    then some s
    else if is_pausing s.run.control
    then some s
    else pause_with (active_nodes s) s

-- `request_resume_research_run`
unfoldable pub resumed_status : RunStatus → RunStatus
resumed_status RunStatus.paused = RunStatus.running
resumed_status status = status

unfoldable pub request_resume : Store → Store
unfolding is_terminal_run_status resumed_status
request_resume s = if is_terminal_run_status s.run.status then s else record s {
  run = record s.run {
    control = Control.active;
    control_reason = none;
    status = resumed_status s.run.status;
  };
}

-- the snapshot of the attempt's task says `verification_pending`
unfoldable pub awaits_review : List Task → Attempt → Bool
awaits_review tasks a =
    if a.task_id == "" then false else elim (find (λ t. t.task_id == a.task_id) tasks) [
      | none ↦ false
      | some t ↦ t.verification_pending
    ]

-- `persist_verification_state` and `persist_runtime_status`, with the arguments of a cancellation
unfoldable pub refuse_review : Task → Task
refuse_review t = record t {
  verification_pending = false;
  decision_reason = some cancelled_by_user;
  runtime_status = "cancelled";
  runtime_error = some cancelled_by_user;
}

unfoldable pub cancel_review : Option Attempt → List Task → List Task
unfolding refuse_review
cancel_review none tasks = tasks
cancel_review (some a) tasks =
    if a.task_id == "" then tasks else at_task a.task_id refuse_review tasks

unfoldable pub cancel_node : String → Node → Node
cancel_node reason nd = record nd { status = NodeStatus.cancelled; error = some reason }

-- `_cancel_pending_nodes`, and the same loop of `request_cancel_research_run`
unfoldable pub cancel_pending_nodes : String → Store → Store
unfolding cancel_node
cancel_pending_nodes reason s = record s { nodes = at_status is_idle (cancel_node reason) s.nodes }

-- the part of `request_cancel_research_run` for a run that no attempt is running for
unfoldable pub cancel_at_once : Store → Store
unfolding cancel_pending_nodes error_result
cancel_at_once s = cancel_pending_nodes cancelled_by_user (record s {
  run = record s.run {
    status = RunStatus.cancelled;
    control = Control.cancelled;
    result = some (error_result cancelled_by_user s.run.meta);
    error = some cancelled_by_user;
  };
})

abbrev pub request_cancellation : Run → Run
request_cancellation r = record r {
  control = Control.cancel_requested;
  control_reason = some cancelled_by_user;
}

abbrev pub running_attempts : Store → List Attempt
running_attempts s = keep (λ a. is_running a.status) s.attempts

-- `request_cancel_research_run`, given the attempts that run: the first one that waits for a review
-- has its review refused. Without an attempt there is neither `waiting_attempt` nor
-- `running_attempt`; with one there is one of them.
unfoldable pub cancel_with : List Attempt → Store → Store
unfolding cancel_at_once cancel_review awaits_review
cancel_with [] s = cancel_at_once s
cancel_with (a ∷ rest) s = record s {
  tasks = cancel_review (find (awaits_review s.tasks) (a ∷ rest)) s.tasks;
}

unfoldable pub request_cancel : Store → Store
unfolding is_terminal_run_status cancel_with
request_cancel s =
    if is_terminal_run_status s.run.status
    then s
    else cancel_with (running_attempts s) (record s { run = request_cancellation s.run })

-- `_mark_paused`
unfoldable pub mark_paused : Store → Store
unfolding is_terminal_run_status
mark_paused s =
    if is_terminal_run_status s.run.status
    then s
    else record s { run = record s.run { control = Control.paused; status = RunStatus.paused } }

-- One round of the loop of `_wait_for_control_state`: it returns, sleeps and looks again, or raises
-- a ResearchRunCancelledError.
pub data Poll : Type 0 where
  proceed : Poll
  sleep : Store → Poll
  stop : String → Poll

unfoldable pub poll_with : Control → Store → Poll
unfolding mark_paused
poll_with Control.active s = proceed
poll_with Control.pause_requested s = sleep (mark_paused s)
poll_with Control.paused s = sleep (mark_paused s)
poll_with Control.cancel_requested s = stop (or_text s.run.control_reason cancelled_by_user)
poll_with Control.cancelled s = stop (or_text s.run.control_reason cancelled_by_user)

unfoldable pub wait_for_control_state : Store → Poll
unfolding poll_with
wait_for_control_state s = poll_with s.run.control s
