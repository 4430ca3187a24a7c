-- ===== src/Payments/Run/Calls.antt =====
-- `run_idempotent_payment_action` sends no transaction to the escrow contract that its runner does
-- not send.
use synaptica_web.Prelude.{String, ◌≡◌, refl, ◌∙◌, Option, none, some, List, arith}
use synaptica_web.Json.{Json, Fields}
use synaptica_web.Payments.Contracts.{PaymentActionContext}
use synaptica_web.Payments.Errors.{Error, integrity_error, Result, ok, err}
use synaptica_web.Payments.Db.{Payment, TransitionState, find_payment}
use synaptica_web.Payments.Session.{
  ChainCall, Env, World, Action, or_raise, ◌>>◌, commit, rollback, open_session,
}
use synaptica_web.Payments.Session.Leaves.{Leaves, leaves_rules}
use synaptica_web.Payments.Service.{record_transition}
use synaptica_web.Payments.Run.{
  record_failure, payment_or_raise, unless_stored, check, record_for_context, stored_result,
  run_new, try_block, on_integrity_error, on_exception, handle, run_in_session,
  run_idempotent_payment_action,
}

abbrev sent : World → List ChainCall
sent w = w.calls

-- the action sends no transaction to the escrow contract
abbrev pub SendsNothing : {A : Type 0} → Action A → Type 0
SendsNothing m = Leaves sent m

check-SendsNothing : (o : Option Error) → SendsNothing (check o)
check-SendsNothing none = record { at = λ w. refl }
check-SendsNothing (some e) = record { at = λ w. refl }

module _ (payment_id : String) (context : PaymentActionContext) where
  record-SendsNothing :
      (state : TransitionState) (result : Fields) (error : Option Error)
      → SendsNothing (record_for_context payment_id context state result error)
  unfolding record_transition
  record-SendsNothing state result error = record { at = λ w. ground arith }

  committed-SendsNothing :
      {A : Type 0} (m : Action A) → SendsNothing m → SendsNothing ((λ v. (ok tt, commit v)) >> m)
  committed-SendsNothing m h = record { at = λ w. h.at (commit w) }

  payment_or_raise-SendsNothing : SendsNothing (payment_or_raise payment_id)
  unfolding payment_or_raise
  payment_or_raise-SendsNothing = search leaves_rules

  record_failure-SendsNothing :
      (x : Error) (o : Option Payment) → SendsNothing (record_failure payment_id context x o)
  unfolding record_failure
  record_failure-SendsNothing x none = search leaves_rules
  record_failure-SendsNothing x (some payment) =
      search (leaves_rules, record-SendsNothing, committed-SendsNothing)

  on_exception-SendsNothing : (x : Error) → SendsNothing (on_exception payment_id context x)
  unfolding on_exception
  on_exception-SendsNothing x = record {
    at = λ w. (record_failure-SendsNothing x (find_payment payment_id w.committed)).at (rollback w);
  }

  on_integrity_error-SendsNothing : SendsNothing (on_integrity_error payment_id context)
  unfolding on_integrity_error
  on_integrity_error-SendsNothing = record {
    at = λ w. by_stored w (stored_result payment_id context (rollback w));
  }
    where
      by_stored :
          (w : World) (o : Option Fields)
          → (or_raise integrity_error o (rollback w)).1.calls ≡ w.calls
      by_stored w none = refl
      by_stored w (some r) = refl

  handle-SendsNothing : (r : Result Fields) → SendsNothing (handle payment_id context r)
  unfolding handle
  handle-SendsNothing (ok result) = record { at = λ w. refl }
  handle-SendsNothing (err integrity_error) = on_integrity_error-SendsNothing
  handle-SendsNothing (err x) = on_exception-SendsNothing x

  unless_stored-SendsNothing :
      (o : Option Fields) (m : Action Fields) → SendsNothing m → SendsNothing (unless_stored o m)
  unless_stored-SendsNothing none m h = h
  unless_stored-SendsNothing (some r) m h = record { at = λ w. refl }

  run_new-SendsNothing :
      (payment : Payment) (runner : Action Json)
      → SendsNothing runner
      → SendsNothing (run_new payment_id context payment runner)
  unfolding run_new
  run_new-SendsNothing payment runner h =
      search (leaves_rules, check-SendsNothing, record-SendsNothing, committed-SendsNothing) depth 9

  try_block-SendsNothing :
      (runner : Action Json)
      → SendsNothing runner
      → SendsNothing (try_block payment_id context runner)
  unfolding try_block
  try_block-SendsNothing runner h =
      search
        (
          leaves_rules, payment_or_raise-SendsNothing, unless_stored-SendsNothing,
          run_new-SendsNothing,
        )
        depth 7

  run_in_session-SendsNothing :
      (runner : Action Json)
      → SendsNothing runner
      → SendsNothing (run_in_session payment_id context runner)
  unfolding run_in_session
  run_in_session-SendsNothing runner h = record {
    at = λ w.
        let (r, u) = try_block payment_id context runner (open_session w) in
        (handle-SendsNothing r).at u ∙ (try_block-SendsNothing runner h).at (open_session w);
  }

  pub run-SendsNothing :
      (env : Env) (runner : Action Json)
      → SendsNothing runner
      → SendsNothing (run_idempotent_payment_action payment_id context env runner)
  unfolding run_idempotent_payment_action
  run-SendsNothing env runner h =
      search (leaves_rules, check-SendsNothing, run_in_session-SendsNothing)
