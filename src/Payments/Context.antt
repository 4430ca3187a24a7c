-- ===== src/Payments/Context.antt =====
-- `build_idempotency_key` of shared/payments/service.py, and `_build_action_context` of the payment
-- tools of the verifier and of the negotiator.
use Prim.Native.String.{◌++◌ as concat}
use synaptica_web.Prelude.{String, Option, none, some, ◌==◌, if◌then◌else◌}
use synaptica_web.Json.{Fields, end}
use synaptica_web.Payments.Contracts.{
  PaymentMode, PaymentAction, action_value, PaymentActionContext,
}
use synaptica_web.Payments.Errors.{value_error, Result, ok, err}
use synaptica_web.Payments.Session.{Env}
use synaptica_web.Payments.Service.{get_payment_mode}

-- `build_idempotency_key`, whose research run and node are optional
unfoldable pub build_idempotency_key :
    String → String → String → PaymentAction → Option String → Option String → String
build_idempotency_key task_id todo_id attempt_id action run_id node_id =
    key (given run_id) (given node_id)
  where
    joined : String → String → String
    joined a b =
        concat a (
          concat ":" (concat b (concat ":" (concat attempt_id (concat ":" (action_value action))))))

    given : Option String → Option String
    given none = none
    given (some text) = if text == "" then none else some text

    key : Option String → Option String → String
    key (some run) (some node) = joined run node
    key _ _ = joined task_id todo_id

-- the entries of the `action_context` dict that reach the context
pub record ActionPayload : Type 0 where
  pub todo_id : Option String
  pub attempt_id : Option String
  pub idempotency_key : Option String
  pub thread_id : Option String
  pub metadata : Fields

-- `payload.get(key, default)`
abbrev default_to : String → Option String → String
default_to default none = default
default_to default (some text) = text

-- `payload.get("idempotency_key") or …`
abbrev key_or : String → Option String → String
key_or default none = default
key_or default (some text) = if text == "" then default else text

-- `PaymentActionContext.model_validate(payload)`, which requires the todo and the attempt
abbrev validate :
    Option String
    → String
    → PaymentAction
    → PaymentMode
    → ActionPayload
    → String
    → Option String
    → Option String
    → Result PaymentActionContext
validate payment_id task_id action mode payload key (some todo_id) (some attempt_id) = ok (record {
  payment_id = payment_id;
  task_id = task_id;
  todo_id = todo_id;
  attempt_id = attempt_id;
  action = action;
  idempotency_key = key;
  mode = mode;
  thread_id = payload.thread_id;
  metadata = payload.metadata;
})
validate payment_id task_id action mode payload key _ _ = err (value_error "todo_id or attempt_id")

-- `_build_action_context`, once the mode is known
unfoldable pub context_in_mode :
    Option String
    → String
    → PaymentAction
    → PaymentMode
    → Option ActionPayload
    → Result PaymentActionContext
context_in_mode payment_id task_id action mode none = ok (record {
  payment_id = payment_id;
  task_id = task_id;
  todo_id = "todo_0";
  attempt_id = "attempt_0";
  action = action;
  idempotency_key = build_idempotency_key task_id "todo_0" "attempt_0" action none none;
  mode = mode;
  thread_id = none;
  metadata = end;
})
context_in_mode payment_id task_id action mode (some payload) =
    validate payment_id task_id action mode payload
      (key_or
        (build_idempotency_key task_id (default_to "todo_0" payload.todo_id)
          (default_to "attempt_0" payload.attempt_id) action none none)
        payload.idempotency_key)
      payload.todo_id payload.attempt_id

-- `_build_action_context`
unfoldable pub build_action_context :
    Env
    → Option String
    → String
    → PaymentAction
    → Option ActionPayload
    → Result PaymentActionContext
build_action_context env payment_id task_id action payload = elim (get_payment_mode env) [
  | none ↦ err (value_error "PAYMENT_MODE")
  | some mode ↦ context_in_mode payment_id task_id action mode payload
]
