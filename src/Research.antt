-- ===== src/Research.antt =====
-- shared/research_runs/service.py: the rows of a research run, what its user asks of it, and the
-- executor that works through its nodes. Times are left out: nothing here reads them.
pub mod Policy
pub mod Requests
pub mod Executor
pub mod Finish
pub mod Report
pub mod Retry
pub mod Steps
pub mod Evidence
pub mod Plan
mod Tests
use synaptica_web.Prelude.{
  ℕ, suc, String, Bool, true, false, Option, List, [], ◌∷◌, ◌==◌, if◌then◌else◌,
}
use synaptica_web.Json.{Json, Fields}

-- `ResearchRunStatus`
pub data RunStatus : Type 0 where
  pending running waiting_for_review paused completed failed cancelled : RunStatus

-- `ResearchRunNodeStatus`, of nodes and of attempts
pub data NodeStatus : Type 0 where
  pending running waiting_for_review completed failed blocked cancelled : NodeStatus

-- `TaskStatus`
pub data TaskStatus : Type 0 where
  pending assigned in_progress completed failed cancelled : TaskStatus

-- the texts RUN_CONTROL_* that `meta["control_state"]` holds
pub data Control : Type 0 where
  active pause_requested paused cancel_requested cancelled : Control

-- `ResearchRun`. The keys `control_state` and `control_reason` of its column `meta` are fields of
-- their own; `meta` has the other keys.
pub record Run : Type 0 where
  pub status : RunStatus
  pub control : Control
  pub control_reason : Option String
  pub meta : Fields
  pub result : Option Json
  pub error : Option String

-- `ResearchRunNode`; `candidate_agent_ids` is that key of its column `meta`
pub record Node : Type 0 where
  pub node_id : String
  pub assigned_agent_id : String
  pub candidate_agent_ids : List String
  pub status : NodeStatus
  pub latest_task_id : Option String
  pub latest_payment_id : Option String
  pub result : Option Json
  pub error : Option String

-- `ExecutionAttempt`
pub record Attempt : Type 0 where
  pub attempt_id : String
  pub node_id : String
  pub attempt_number : ℕ
  pub status : NodeStatus
  pub task_id : String
  pub payment_id : Option String
  pub agent_id : Option String
  pub result : Option Json
  pub error : Option String

-- `Task`, with the keys of `meta["runtime"]` that are read: `status`, `error`,
-- `verification_pending`, the reason of `verification_decision`, and `current_handoff_context`
pub record Task : Type 0 where
  pub task_id : String
  pub status : TaskStatus
  pub result : Option Json
  pub runtime_status : String
  pub runtime_error : Option String
  pub verification_pending : Bool
  pub decision_reason : Option String
  pub handoff_context : Fields

-- `VerificationDecision`, the columns that are read again
pub record Decision : Type 0 where
  pub node_id : String
  pub attempt_id : String
  pub decision : String
  pub approved : Bool
  pub decision_source : String

-- The rows of one run. Attempts, tasks and decisions are newest first.
pub record Store : Type 0 where
  pub run : Run
  pub nodes : List Node
  pub attempts : List Attempt
  pub tasks : List Task
  pub decisions : List Decision

-- `_is_terminal_run_status`
unfoldable pub is_terminal_run_status : RunStatus → Bool
is_terminal_run_status RunStatus.completed = true
is_terminal_run_status RunStatus.failed = true
is_terminal_run_status RunStatus.cancelled = true
is_terminal_run_status _ = false

abbrev pub is_running : NodeStatus → Bool
is_running NodeStatus.running = true
is_running _ = false

-- a node that a pause waits for
abbrev pub is_active : NodeStatus → Bool
is_active NodeStatus.running = true
is_active NodeStatus.waiting_for_review = true
is_active _ = false

-- a node that has not started
abbrev pub is_idle : NodeStatus → Bool
is_idle NodeStatus.pending = true
is_idle NodeStatus.blocked = true
is_idle _ = false

-- an UPDATE of the rows with a key
abbrev pub at_node : String → (Node → Node) → List Node → List Node
at_node n f [] = []
at_node n f (nd ∷ nodes) = (if nd.node_id == n then f nd else nd) ∷ at_node n f nodes

abbrev pub at_attempt : String → (Attempt → Attempt) → List Attempt → List Attempt
at_attempt a f [] = []
at_attempt a f (x ∷ xs) = (if x.attempt_id == a then f x else x) ∷ at_attempt a f xs

abbrev pub at_task : String → (Task → Task) → List Task → List Task
at_task t f [] = []
at_task t f (x ∷ xs) = (if x.task_id == t then f x else x) ∷ at_task t f xs

-- an UPDATE of the nodes whose status passes a test
abbrev pub at_status : (NodeStatus → Bool) → (Node → Node) → List Node → List Node
at_status p f [] = []
at_status p f (nd ∷ nodes) = (if p nd.status then f nd else nd) ∷ at_status p f nodes

-- the attempts of a node: SELECT COUNT(*)
abbrev pub count_attempts : String → List Attempt → ℕ
count_attempts n [] = 0
count_attempts n (x ∷ xs) =
    let rest = count_attempts n xs in if x.node_id == n then suc rest else rest
