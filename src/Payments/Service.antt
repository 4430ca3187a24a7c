-- ===== src/Payments/Service.antt =====
-- shared/payments/service.py: payment modes, idempotency keys, and state transitions that are made
-- once for each key.
pub mod Stored
pub mod Keeps
use synaptica_web.Prelude.{
  ℕ, String, Bool, true, Option, none, some, List, [], ◌∷◌, ◌++◌, ◌==◌, find, any, if◌then◌else◌,
}
use synaptica_web.Text.{codes, strip, lower}
use synaptica_web.Json.{Json, Fields, null, obj, end, str, field}
use synaptica_web.Security.{payload, assert_no_sensitive_payload, redact_sensitive_payload}
use synaptica_web.Payments.Contracts.{
  PaymentMode, managed, dev_env, offline, to_payment_mode, mode_value, PaymentAction, proposal,
  authorize, release, refund, completed, refunded, same_status, status_value, action_value,
  PaymentActionContext,
}
use synaptica_web.Payments.Errors.{
  Error, integrity_error, payment_mode_error, payment_conflict_error, sensitive_payload_error, ok,
  err, err,
}
use synaptica_web.Payments.Db.{
  Db, Payment, Transition, TransitionState, update, by_payment, by_task,
}
use synaptica_web.Payments.Session.{Env, Action}

-- `result if isinstance(result, dict)`
abbrev pub as_dict : Json → Option Fields
as_dict (obj fs) = some fs
as_dict _ = none

-- `_completed_transition_result`
unfoldable pub completed_transition_result : Option Transition → Option Fields
completed_transition_result none = none
completed_transition_result (some t) = elim t.state [
  | TransitionState.completed ↦ as_dict t.result
  | TransitionState.failed ↦ none
]

-- `get_existing_transition`; the unique constraint leaves at most one row
unfoldable pub get_existing_transition : Db → String → PaymentAction → String → Option Transition
unfolding find
get_existing_transition db payment_id action key =
    find (by_payment payment_id action key) db.transitions

-- `get_existing_transition_by_task`
unfoldable pub get_existing_transition_by_task :
    Db → String → PaymentAction → String → Option Transition
unfolding find
get_existing_transition_by_task db task_id action key =
    find (by_task task_id action key) db.transitions

-- `get_completed_transition_result`
unfoldable pub get_completed_transition_result :
    Db → String → PaymentAction → String → Option Fields
unfolding completed_transition_result get_existing_transition
get_completed_transition_result db payment_id action key =
    completed_transition_result (get_existing_transition db payment_id action key)

-- `get_completed_transition_result_by_task`
unfoldable pub get_completed_transition_result_by_task :
    Db → String → PaymentAction → String → Option Fields
unfolding completed_transition_result get_existing_transition_by_task
get_completed_transition_result_by_task db task_id action key =
    completed_transition_result (get_existing_transition_by_task db task_id action key)

-- `os.getenv(name, "").strip()`, in code points
abbrev pub getenv_stripped : Env → String → List ℕ
getenv_stripped env name = elim (env.getenv name) [ none ↦ [] | some value ↦ strip (codes value) ]

-- `get_payment_mode`; `none` is the ValueError of an unknown mode
unfoldable pub get_payment_mode : Env → Option PaymentMode
unfolding to_payment_mode strip lower
get_payment_mode env = elim (lower (getenv_stripped env "PAYMENT_MODE")) [
  | [] ↦ elim (getenv_stripped env "X402_OFFLINE") [ [] ↦ some managed | c ∷ s ↦ some offline ]
  | c ∷ s ↦ to_payment_mode (c ∷ s)
]

-- `not os.getenv(name)`
abbrev pub is_unset : Env → String → Bool
is_unset env name = elim (env.getenv name) [ none ↦ true | some value ↦ value == "" ]

abbrev pub required_env : List String
required_env =
    "TASK_ESCROW_ADDRESS" ∷ "TASK_ESCROW_MARKETPLACE_TREASURY" ∷ "TASK_ESCROW_OPERATOR_PRIVATE_KEY"
    ∷ []

-- `validate_payment_mode`; the error's text names the mode
unfoldable pub validate_payment_mode : Env → PaymentMode → Option Error
unfolding any
validate_payment_mode env offline = none
validate_payment_mode env managed =
    if any (is_unset env) required_env then some (payment_mode_error "managed") else none
validate_payment_mode env dev_env =
    if any (is_unset env) required_env then some (payment_mode_error "dev_env") else none

-- an optional text in the JSON form of a context
abbrev opt_str : Option String → Json
opt_str none = null
opt_str (some s) = str s

-- `context.model_dump(mode="json")`
unfoldable pub model_dump : PaymentActionContext → Json
model_dump c = obj (
    field "payment_id" (opt_str c.payment_id) (
      field "task_id" (str c.task_id) (
        field "todo_id" (str c.todo_id) (
          field "attempt_id" (str c.attempt_id) (
            field "action" (str (action_value c.action)) (
              field "idempotency_key" (str c.idempotency_key) (
                field "mode" (str (mode_value c.mode)) (
                  field "thread_id" (opt_str c.thread_id)
                    (field "metadata" (obj c.metadata) end)))))))))

-- `ensure_payment_action_context`
unfoldable pub ensure_payment_action_context : PaymentActionContext → Option Error
unfolding model_dump
ensure_payment_action_context c = elim (assert_no_sensitive_payload (model_dump c) payload) [
  | none ↦ none
  | some e ↦ some (sensitive_payload_error e)
]

-- `ensure_no_terminal_conflict`: a settlement is refused when the payment was settled the other way
unfoldable pub ensure_no_terminal_conflict : Payment → PaymentAction → Option Error
ensure_no_terminal_conflict payment proposal = none
ensure_no_terminal_conflict payment authorize = none
ensure_no_terminal_conflict payment release =
    if same_status payment.status refunded
    then some (payment_conflict_error (status_value payment.status))
    else none
ensure_no_terminal_conflict payment refund =
    if same_status payment.status completed
    then some (payment_conflict_error (status_value payment.status))
    else none

-- the new row of `record_transition`
abbrev pub new_transition :
    String → String → PaymentAction → String → TransitionState → Json → Option Error → Transition
new_transition payment_id task_id action key state result error = record {
  payment_id = payment_id;
  task_id = task_id;
  action = action;
  idempotency_key = key;
  state = state;
  result = result;
  error = error;
}

-- the new columns of a row that is there
abbrev pub rewrite_transition : TransitionState → Json → Option Error → Transition → Transition
rewrite_transition state result error t = record t { state = state; result = result; error = error }

-- The rows after `record_transition`. A flush of a new row meets the constraint on (task, action,
-- key), and `none` is its IntegrityError; that on (payment, action, key) holds, as no such row was
-- found.
unfoldable pub transitions_after :
    String
    → String
    → PaymentAction
    → String
    → TransitionState
    → Json
    → Option Error
    → List Transition
    → Option (List Transition)
unfolding find update
transitions_after payment_id task_id action key state result error rows =
    elim (find (by_payment payment_id action key) rows) [
      | some t ↦
          some
            (update (by_payment payment_id action key) (rewrite_transition state result error) rows)
      | none ↦ elim (find (by_task task_id action key) rows) [
        | some t ↦ none
        | none ↦ some (rows ++ new_transition payment_id task_id action key state result error ∷ [])
      ]
    ]

-- `record_transition`; `result or {}` is a dict
unfoldable pub record_transition :
    String
    → String
    → PaymentAction
    → String
    → TransitionState
    → Fields
    → Option Error
    → Action (Unit {0})
unfolding transitions_after
record_transition payment_id task_id action key state result error w =
    elim (transitions_after payment_id task_id action key state
      (redact_sensitive_payload (obj result)) error w.db.transitions) [
        | none ↦ (err integrity_error, w)
        | some rows ↦ (ok tt, record w { db = record w.db { transitions = rows } })
      ]
