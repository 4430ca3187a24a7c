-- ===== src/Research/Tests.antt =====
-- A run with one node, from its start to its end, and the theorems about runs there.
use mathlib.Core.Logic.{◌≢◌}
use synaptica_web.Prelude.{
  ℕ, ◌+◌, ◌≤◌, String, true, false, pos, none, some, List, [], ◌∷◌, ◌≡◌, refl, find, any, keep, All,
  ltb,
}
use synaptica_web.Text.{
  strip_text, lstrip_text, rstrip_text, lower, equals, occurs_in, starts_with, is_space,
}
use synaptica_web.Json.{Json, Fields, bool, integer, str, obj, field, end, get, to_int}
use synaptica_web.Research.{
  Node, Store, RunStatus, NodeStatus, Control, count_attempts, is_terminal_run_status, is_idle,
}
use synaptica_web.Research.Requests.{
  request_pause, request_resume, request_cancel, wait_for_control_state, poll_with, or_text,
  cancelled_by_user,
}
use synaptica_web.Research.Policy.{
  flag, policy_of, policy_attempts, build_run_policy, get_run_policy, resolve_max_node_attempts,
}
use synaptica_web.Research.Policy.Rounds.{from_payload, merge_rounds_completed, dump_rounds}
use synaptica_web.Research.Policy.Readback.{policy_readback, Above, merge_rounds_largest}
use synaptica_web.Research.Executor.{
  mark_started, started_status, mark_completed, create_attempt, create_for, new_attempt, new_task,
  start_node,
}
use synaptica_web.Research.Finish.{finalize_attempt, finalize_rows, attempt_was_cancelled}
use synaptica_web.Research.Retry.{
  extract_node_candidate_agent_ids, prepare_retry_candidate, prepare_with, retry_node, next_agent,
  used_agents, is_used,
}
use synaptica_web.Research.Steps.{
  starting, waiting, attempting, finished, completes, cancels, Stage, IsWait, Step, Reach,
}
use synaptica_web.Research.Steps.Pauses.{IsNew, request_pause_answers}
use synaptica_web.Research.Steps.Bounded.{moves, steps_left}
use synaptica_web.Research.Steps.Bounded.Moves.{budget, executor_ends}
use synaptica_web.Research.Steps.Settled.Endings.{Covers, waits_while_paused}
use synaptica_web.Research.Steps.Cancels.{late_cancel, cancel_withdrawn}
use synaptica_web.Research.Steps.Reroutes.{retry_reroutes}
use synaptica_web.Research.Steps.Attempts.{top, attempts_bounded}
use synaptica_web.Research.Steps.Stops.{wait_stops, LeavesTo}

abbrev metadata : Fields
metadata = field "policy" (obj (policy_of 2)) end

abbrev plan_node : Node
plan_node = record {
  node_id = "plan_query";
  assigned_agent_id = "planner-1";
  candidate_agent_ids = "planner-1" ∷ " " ∷ " planner-2" ∷ [];
  status = NodeStatus.pending;
  latest_task_id = none;
  latest_payment_id = none;
  result = none;
  error = none;
}

abbrev new_run : Store
new_run = record {
  run = record {
    status = RunStatus.pending;
    control = Control.active;
    control_reason = none;
    meta = metadata;
    result = none;
    error = none;
  };
  nodes = plan_node ∷ [];
  attempts = [];
  tasks = [];
  decisions = [];
}

abbrev schedule : List String
schedule = "plan_query" ∷ []

abbrev allowed : String → ℕ
allowed n = 2

new_run-IsNew : IsNew new_run
new_run-IsNew = record {
  status = refl;
  control = refl;
  nodes = (refl, tt);
  ids = (tt, tt);
  attempts = refl;
}

new_run-Covers : Covers schedule new_run
unfolding any
new_run-Covers = (refl, tt)

abbrev started_run : Store
started_run = record new_run { run = record new_run.run { status = RunStatus.running } }

abbrev busy_run : Store
busy_run = create_for plan_node "attempt-1" "task-1" started_run

abbrev answer : Fields
answer = field "success" (bool true) (field "result" (obj (field "plan" (str "ok") end)) end)

abbrev answered_run : Store
answered_run = finalize_rows plan_node "attempt-1" "task-1" answer none false busy_run

to_wait : Reach allowed new_run (starting schedule) started_run (waiting schedule)
unfolding mark_started is_terminal_run_status started_status
to_wait = Reach.next Reach.here Step.start

to_attempt :
    Reach allowed new_run
      (starting schedule)
      busy_run
      (attempting "plan_query" "attempt-1" "task-1" [])
unfolding wait_for_control_state poll_with find create_attempt any
to_attempt =
    Reach.next
      (Reach.next
        (Reach.next (Reach.next to_wait (Step.proceed IsWait.wait_of_run refl))
          (Step.visit {nd = plan_node} refl refl))
        (Step.proceed IsWait.wait_of_node refl))
      (Step.create refl refl)

to_end :
    Reach allowed new_run
      (starting schedule)
      (mark_completed answered_run)
      (finished completes none)
unfolding finalize_attempt find any get create_for new_attempt new_task start_node
    attempt_was_cancelled lower equals occurs_in starts_with
to_end = Reach.next (Reach.next to_attempt (Step.succeed answer none refl refl)) Step.complete

request_pause_answers_example : (v : Store) × (request_pause busy_run ≡ some v)
request_pause_answers_example = request_pause_answers new_run-IsNew to_attempt

waits_while_paused_example :
    (started_run.run.status ≢ RunStatus.paused) × (started_run.run.status ≢ RunStatus.cancelled)
unfolding wait_for_control_state poll_with
waits_while_paused_example =
    waits_while_paused new_run-IsNew new_run-Covers to_wait IsWait.wait_of_run refl

executor_ends_example :
    moves to_end
      + steps_left allowed (mark_completed answered_run).attempts (finished completes none)
    ≤ 5 + budget allowed schedule
executor_ends_example = executor_ends refl to_end

abbrev called_off : Store
called_off = record started_run {
  run = record started_run.run { control = Control.cancel_requested };
}

wait_stops_example :
    ((u : Store) × (r : Reach allowed called_off (waiting schedule) u (finished cancels none))
      × (moves r ≡ 3)
      × (u.run.status ≡ RunStatus.cancelled)
      × All (λ nd. is_idle nd.status ≡ false) u.nodes)
    × ((v : Store) (next : Stage) (st : Step allowed called_off (waiting schedule) v next)
        → LeavesTo (or_text called_off.run.control_reason cancelled_by_user) st)
wait_stops_example = wait_stops allowed called_off (waiting schedule) _ IsWait.wait_of_run refl

attempts_bounded_example :
    count_attempts "plan_query" (mark_completed answered_run).attempts ≤ top (allowed "plan_query")
attempts_bounded_example = attempts_bounded new_run-IsNew (tt, tt) to_end "plan_query"

late_cancel_example :
    ((request_cancel started_run).run.status ≡ RunStatus.cancelled)
    × (u : Store) × (create_attempt "plan_query" "attempt-1" "task-1" (request_cancel started_run)
        ≡ some u)
    × (u.run.status ≡ RunStatus.running)
    × (u.run.control ≡ Control.cancelled)
unfolding is_terminal_run_status keep find
late_cancel_example =
    late_cancel started_run "plan_query" "attempt-1" "task-1" plan_node refl refl refl

cancel_withdrawn_example :
    ((request_cancel busy_run).run.control ≡ Control.cancel_requested)
    × ((request_resume (request_cancel busy_run)).run.control ≡ Control.active)
    × (u : Store) × (request_pause (request_cancel busy_run) ≡ some u)
    × (u.run.control ≡ Control.pause_requested)
unfolding is_terminal_run_status keep create_for new_attempt start_node
cancel_withdrawn_example =
    cancel_withdrawn busy_run (new_attempt plan_node "attempt-1" "task-1" started_run) []
      (start_node "task-1" plan_node) refl refl refl

retry_reroutes_example :
    All
      (λ x.
        x.node_id ≡ "plan_query"
        → (x.status ≡ NodeStatus.pending)
          × (is_used (used_agents "plan_query" busy_run.attempts) x.assigned_agent_id ≡ false))
      (retry_node "timeout" "planner-2" (start_node "task-1" plan_node) ∷ [])
unfolding create_for new_attempt start_node prepare_retry_candidate prepare_with find any get
    get_run_policy used_agents extract_node_candidate_agent_ids next_agent strip_text lstrip_text
    rstrip_text is_space policy_of
retry_reroutes_example =
    retry_reroutes "plan_query" "timeout" busy_run
      (prepare_with (start_node "task-1" plan_node) true "timeout" busy_run)
      (start_node "task-1" plan_node) (policy_of 2) refl refl refl refl refl

policy_readback_example :
    (n : ℕ) × (1 ≤ n)
    × (n ≤ 5)
    × (get_run_policy (field "policy" (obj (policy_of 3)) end) ≡ some (policy_of 3))
    × (resolve_max_node_attempts end (policy_of 3) ≡ some n)
    × (flag "reroute_on_failure" (policy_of 3) ≡ ltb 1 n)
unfolding build_run_policy policy_attempts to_int
policy_readback_example = policy_readback (integer (pos 3)) (policy_of 3) end refl

abbrev some_rounds : Json
some_rounds = obj (field "evidence_rounds" (integer (pos 2)) end)

abbrev more_rounds : Json
more_rounds = obj (
    field "rounds_completed"
      (obj (field "evidence_rounds" (str "1") (field "critique_rounds" (integer (pos 1)) end))) end)

merge_rounds_largest_example :
    (c : ℕ) × (d : ℕ) × (merge_rounds_completed (some_rounds ∷ more_rounds ∷ [])
      ≡ record { evidence_rounds = pos c; critique_rounds = pos d })
    × Above (λ r. r.evidence_rounds) 0 c (some_rounds ∷ more_rounds ∷ [])
    × Above (λ r. r.critique_rounds) 0 d (some_rounds ∷ more_rounds ∷ [])
    × (from_payload (
          obj (
            field "rounds_completed"
              (dump_rounds (merge_rounds_completed (some_rounds ∷ more_rounds ∷ [])))
              end))
        ≡ merge_rounds_completed (some_rounds ∷ more_rounds ∷ []))
merge_rounds_largest_example = merge_rounds_largest (some_rounds ∷ more_rounds ∷ []) end
