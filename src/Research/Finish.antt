-- ===== src/Research/Finish.antt =====
-- shared/research_runs/service.py, ResearchRunExecutor: how an attempt ends, and what its ending changes.
use synaptica_web.Prelude.{
  ℕ, String, Bool, true, false, not, ◌&&◌, ◌||◌, Option, none, some, List, [], ◌∷◌, ◌==◌, find, any,
  if◌then◌else◌,
}
use synaptica_web.Text.{codes, lower, equals, occurs_in}
use synaptica_web.Json.{Json, Fields, null, bool, str, obj, field, end, get}
use synaptica_web.Security.{redact_sensitive_payload}
use synaptica_web.Research.{
  Node, Attempt, Task, Decision, Store, NodeStatus, TaskStatus, is_running, at_node, at_attempt,
  at_task,
}
use synaptica_web.Research.Policy.{flag, get_object}
use synaptica_web.Research.Executor.{find_node}

-- `str(payload[key])` where it is a true value; the code stores texts under these keys
abbrev pub text_at : String → Fields → Option String
text_at k fs = elim (get k fs) [ some (str s) ↦ (if s == "" then none else some s) | _ ↦ none ]

-- the first of two that is there
abbrev pub or_else {ℓ} : {A : Type ℓ} → Option A → Option A → Option A
or_else (some a) o = some a
or_else none o = o

-- the handoff context of the snapshot of a task
abbrev pub handoff_of : Option Task → Fields
handoff_of none = end
handoff_of (some t) = t.handoff_context

-- `_extract_payment_id`
unfoldable pub extract_payment_id : Fields → Option Task → Option String
extract_payment_id result snapshot =
    or_else (text_at "payment_id" (get_object "selected_agent" result))
      (text_at "payment_id" (handoff_of snapshot))

-- `_extract_agent_id`
unfoldable pub extract_agent_id : Fields → Option Task → Option String
extract_agent_id result snapshot = or_else (text_at "agent_used" result) (
    or_else (text_at "agent_id" (get_object "selected_agent" result))
      (text_at "agent_id" (handoff_of snapshot)))

abbrev lower_text : Option String → List ℕ
lower_text none = []
lower_text (some s) = lower (codes s)

abbrev snapshot_status : Option Task → Option String
snapshot_status none = none
snapshot_status (some t) = some t.runtime_status

-- `_attempt_was_cancelled`
unfoldable pub attempt_was_cancelled : Fields → Option Task → Bool
unfolding lower equals occurs_in
attempt_was_cancelled result snapshot =
    equals (lower_text (text_at "todo_status" result)) (codes "cancelled")
    || equals (lower_text (snapshot_status snapshot)) (codes "cancelled")
    || occurs_in (codes "cancel") (lower_text (text_at "error" result))

-- how an attempt ends: cancelled, successful or failed
abbrev pub node_end : Bool → Bool → NodeStatus
node_end true success = NodeStatus.cancelled
node_end false true = NodeStatus.completed
node_end false false = NodeStatus.failed

abbrev pub task_end : Bool → Bool → TaskStatus
task_end true success = TaskStatus.cancelled
task_end false true = TaskStatus.completed
task_end false false = TaskStatus.failed

abbrev pub redacted_at : String → Fields → Option Json
redacted_at k fs = elim (get k fs) [ none ↦ some null | some v ↦ some (redact_sensitive_payload v) ]

-- `_persist_attempt_trace_bundle`, the row of VerificationDecision
abbrev pub retry_recommended : Fields → Bool
retry_recommended result =
    flag "retry_recommended" (get_object "verification" result) || flag "retry_recommended" result

unfoldable pub decision_row : String → String → Fields → Bool → Decision
decision_row n a result cancelled = record {
  node_id = n;
  attempt_id = a;
  decision =
      (if cancelled
        then "cancelled"
        else if retry_recommended result
        then "retry_requested"
        else if flag "success" result
        then "approved"
        else "rejected");
  approved = flag "success" result && not cancelled && not (retry_recommended result);
  decision_source =
      (if cancelled
        then "cancellation"
        else if retry_recommended result
        then "strict_quorum"
        else if flag "success" result
        then (if flag "human_approved" result then "human_reviewer" else "auto_verifier")
        else "runtime_failure");
}

-- `_finalize_attempt`, the attempt
unfoldable pub finish_attempt : Node → Option Task → Fields → Bool → Attempt → Attempt
unfolding extract_payment_id extract_agent_id
finish_attempt nd snapshot result cancelled x = record x {
  status = node_end cancelled (flag "success" result);
  payment_id = extract_payment_id result snapshot;
  agent_id = or_else (extract_agent_id result snapshot) (some nd.assigned_agent_id);
  result = some (redact_sensitive_payload (obj result));
  error = (if flag "success" result then none else text_at "error" result);
}

unfoldable pub finish_node : Option Task → Fields → Bool → Node → Node
unfolding extract_payment_id
finish_node snapshot result cancelled nd = record nd {
  status = node_end cancelled (flag "success" result);
  latest_payment_id = extract_payment_id result snapshot;
  result = (if flag "success" result then redacted_at "result" result else none);
  error = (if flag "success" result then none else text_at "error" result);
}

unfoldable pub finish_task : Fields → Bool → Task → Task
finish_task result cancelled t = record t {
  status = task_end cancelled (flag "success" result);
  result =
      (if flag "success" result
        then redacted_at "result" result
        else some (
            obj (
              field "error"
                (elim (get "error" result) [ none ↦ str "Research run node failed" | some v ↦ v ])
                end)));
}

-- `_finalize_attempt`, once the rows are found; `snapshot` is the task as it was loaded before
unfoldable pub finalize_rows : Node → String → String → Fields → Option Task → Bool → Store → Store
unfolding finish_attempt finish_node finish_task decision_row
finalize_rows nd a t result snapshot cancelled s = record s {
  nodes = at_node nd.node_id (finish_node snapshot result cancelled) s.nodes;
  attempts = at_attempt a (finish_attempt nd snapshot result cancelled) s.attempts;
  tasks = at_task t (finish_task result cancelled) s.tasks;
  decisions = decision_row nd.node_id a result cancelled ∷ s.decisions;
}

abbrev pub has_attempt : String → Store → Bool
has_attempt a s = any (λ x. x.attempt_id == a) s.attempts

abbrev pub has_task : String → Store → Bool
has_task t s = any (λ x. x.task_id == t) s.tasks

unfoldable pub finalize_attempt :
    String → String → String → Fields → Option Task → Bool → Store → Option Store
unfolding finalize_rows
finalize_attempt n a t result snapshot cancelled s = elim (find_node n s) [
  | none ↦ none
  | some nd ↦
      if has_attempt a s && has_task t s
      then some (finalize_rows nd a t result snapshot cancelled s)
      else none
]

-- `_record_attempt_failure`: each row is changed only where it still runs
abbrev pub failure_end : Bool → NodeStatus
failure_end cancelled = if cancelled then NodeStatus.cancelled else NodeStatus.failed

abbrev pub or_failure : Option Fields → String → Fields
or_failure (some result) error = result
or_failure none error = field "success" (bool false) (field "error" (str error) end)

unfoldable pub fail_attempt : Option Task → Fields → String → Bool → Attempt → Attempt
unfolding extract_payment_id extract_agent_id
fail_attempt snapshot result error cancelled x =
    if is_running x.status
    then record x {
      status = failure_end cancelled;
      payment_id = extract_payment_id result snapshot;
      agent_id = or_else (extract_agent_id result snapshot) x.agent_id;
      error = some error;
      result = some (redact_sensitive_payload (obj result));
    }
    else x

unfoldable pub fail_node : Option Task → Fields → String → Bool → Node → Node
unfolding extract_payment_id
fail_node snapshot result error cancelled nd =
    if is_running nd.status
    then record nd {
      status = failure_end cancelled;
      latest_payment_id = extract_payment_id result snapshot;
      error = some error;
    }
    else nd

unfoldable pub fail_task : String → Bool → Task → Task
fail_task error cancelled t = elim t.status [
  | TaskStatus.in_progress ↦ record t {
    status = (if cancelled then TaskStatus.cancelled else TaskStatus.failed);
    result = some (obj (field "error" (str error) end));
  }
  | _ ↦ t
]

abbrev pub find_task : String → Store → Option Task
find_task t s = find (λ x. x.task_id == t) s.tasks

abbrev pub has_node : String → Store → Bool
has_node n s = any (λ nd. nd.node_id == n) s.nodes

unfoldable pub record_attempt_failure :
    String → String → String → String → Option Fields → Bool → Store → Store
unfolding fail_attempt fail_node fail_task decision_row
record_attempt_failure n a t error result cancelled s =
    let payload = or_failure result error in
    let snapshot = find_task t s in
    record s {
      nodes = at_node n (fail_node snapshot payload error cancelled) s.nodes;
      attempts = at_attempt a (fail_attempt snapshot payload error cancelled) s.attempts;
      tasks = at_task t (fail_task error cancelled) s.tasks;
      decisions =
          (if has_attempt a s && has_node n s
            then decision_row n a payload cancelled ∷ s.decisions
            else s.decisions);
    }

-- `_derive_attempt_status`
unfoldable pub derive_attempt_status : List Task → Attempt → NodeStatus
unfolding lower equals
derive_attempt_status tasks x =
    if x.task_id == "" then x.status else elim (find (λ t. t.task_id == x.task_id) tasks) [
      | none ↦ x.status
      | some t ↦
          if t.verification_pending
          then NodeStatus.waiting_for_review
          else if equals (lower (codes t.runtime_status)) (codes "cancelled")
          then NodeStatus.cancelled
          else x.status
    ]
