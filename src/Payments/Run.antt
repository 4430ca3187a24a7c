-- ===== src/Payments/Run.antt =====
-- `run_idempotent_payment_action` of shared/payments/service.py: a payment mutation that is run
-- once for a key, with its `try` block and its three handlers.
pub mod Replay
pub mod Attempt
pub mod Safety
pub mod Calls
pub mod Returns
pub mod Conflict
use synaptica_web.Prelude.{String, Option, none, some}
use synaptica_web.Json.{Json, Fields, end}
use synaptica_web.Payments.Contracts.{PaymentActionContext}
use synaptica_web.Payments.Errors.{Error, integrity_error, payment_conflict_error, Result, ok, err}
use synaptica_web.Payments.Db.{Payment, TransitionState, find_payment}
use synaptica_web.Payments.Session.{
  Env, World, Action, pure, raise, gets, asks, or_raise, ◌>>=◌, ◌>>◌, open_session, close_session,
  commit, rollback,
}
use synaptica_web.Payments.Service.{
  as_dict, get_completed_transition_result, validate_payment_mode, ensure_payment_action_context,
  ensure_no_terminal_conflict, record_transition,
}

-- `if error: raise error`
abbrev pub check : Option Error → Action (Unit {0})
check none w = (ok tt, w)
check (some e) w = (err e, w)

-- the payment, or the error that it is not found
unfoldable pub payment_or_raise : String → Action Payment
payment_or_raise payment_id =
    asks (payment_conflict_error "not found") (λ w. find_payment payment_id w.db)

-- `if existing_result is not None: return existing_result`, before the rest of the block
abbrev pub unless_stored : Option Fields → Action Fields → Action Fields
unless_stored (some result) rest w = (ok result, w)
unless_stored none rest w = rest w

module _ (payment_id : String) (context : PaymentActionContext) where
  -- `record_transition` at the action and the key of the context
  abbrev pub record_for_context : TransitionState → Fields → Option Error → Action (Unit {0})
  record_for_context =
      record_transition payment_id context.task_id context.action context.idempotency_key

  -- the stored result of a completed transition at the key of the context
  abbrev pub stored_result : World → Option Fields
  stored_result w =
      get_completed_transition_result w.db payment_id context.action context.idempotency_key

  -- the rest of the `try` block, when no result is stored
  unfoldable pub run_new : Payment → Action Json → Action Fields
  run_new payment runner = do
    check (ensure_no_terminal_conflict payment context.action)
    answer ← runner
    result ← or_raise (payment_conflict_error "runner result") (as_dict answer)
    record_for_context TransitionState.completed result none
    (λ w. (ok tt, commit w))
    pure result

  -- the `try` block
  unfoldable pub try_block : Action Json → Action Fields
  try_block runner = do
    payment ← payment_or_raise payment_id
    existing_result ← gets stored_result
    unless_stored existing_result (run_new payment runner)

  -- `except IntegrityError`
  unfoldable pub on_integrity_error : Action Fields
  on_integrity_error w = let w' = rollback w in or_raise integrity_error (stored_result w') w'

  -- the `failed` transition of `except Exception`, and the `raise` after it
  unfoldable pub record_failure : Error → Option Payment → Action Fields
  record_failure e none = raise e
  record_failure e (some payment) = do
    record_for_context TransitionState.failed end (some e)
    (λ v. (ok tt, commit v))
    raise e

  -- `except Exception`
  unfoldable pub on_exception : Error → Action Fields
  on_exception e w = let w' = rollback w in record_failure e (find_payment payment_id w'.db) w'

  unfoldable pub handle : Result Fields → Action Fields
  handle (ok result) w = (ok result, w)
  handle (err integrity_error) w = on_integrity_error w
  handle (err e) w = on_exception e w

  -- the whole `try` statement, with its `finally: db.close()`
  unfoldable pub run_in_session : Action Json → Action Fields
  run_in_session runner w =
      let (r, w₁) = try_block runner (open_session w) in
      let (r', w₂) = handle r w₁ in (r', close_session w₂)

  -- `run_idempotent_payment_action`
  unfoldable pub run_idempotent_payment_action : Env → Action Json → Action Fields
  run_idempotent_payment_action env runner = do
    check (ensure_payment_action_context context)
    check (validate_payment_mode env context.mode)
    run_in_session runner
