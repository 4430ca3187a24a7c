-- ===== src/Payments/Run/Replay.antt =====
-- Idempotency: a payment mutation that has succeeded is not run again under its key.
use synaptica_web.Prelude.{String, ◌≡◌, refl, sym, ◌∙◌, Option, none, some, ◌⊎◌, inl, inr, arith}
use synaptica_web.Json.{Json, Fields, end}
use synaptica_web.Security.{redact_fields}
use synaptica_web.Payments.Contracts.{PaymentActionContext}
use synaptica_web.Payments.Errors.{Error, integrity_error, payment_conflict_error, Result, ok, err}
use synaptica_web.Payments.Db.{Payment, TransitionState, find_payment}
use synaptica_web.Payments.Session.{
  Env, World, Action, or_raise, ◌>>◌, rollback, open_session, close_session, OnOk, OnOk-bind,
  OnOk-eq,
}
use synaptica_web.Payments.Service.{
  as_dict, ensure_payment_action_context, validate_payment_mode, ensure_no_terminal_conflict,
  get_completed_transition_result,
}
use synaptica_web.Payments.Service.Stored.{record_transition-stored}
use synaptica_web.Payments.Run.{
  record_failure, payment_or_raise, unless_stored, check, record_for_context, stored_result,
  run_new, try_block, on_integrity_error, on_exception, handle, run_in_session,
  run_idempotent_payment_action,
}

-- looking the payment up leaves the session as it was opened
pub payment_or_raise_opened :
    (payment_id : String) (w : World) {payment : Payment} {v : World}
    → payment_or_raise payment_id (open_session w) ≡ (ok payment, v)
    → v ≡ open_session w
unfolding payment_or_raise
payment_or_raise_opened payment_id w h = ground arith

module _ (payment_id : String) (context : PaymentActionContext) where
  -- the session that a `try` block leaves holds what a replay returns
  abbrev Stores : Fields → World → Type 0
  Stores result w =
      (get_completed_transition_result w.committed payment_id context.action context.idempotency_key
        ≡ some result)
      ⊎ (get_completed_transition_result w.committed payment_id context.action
            context.idempotency_key
          ≡ some (redact_fields result))

  run_new-Stores :
      (payment : Payment) (runner : Action Json) (w : World)
      → OnOk Stores (run_new payment_id context payment runner w)
  unfolding run_new
  run_new-Stores payment runner w =
      OnOk-bind Stores (check (ensure_no_terminal_conflict payment context.action)) _ w λ _ w₁ _.
        OnOk-bind Stores runner _ w₁ λ answer w₂ _.
          OnOk-bind Stores (or_raise (payment_conflict_error "runner result") (as_dict answer)) _ w₂
            λ r w₃ _.
              OnOk-bind Stores
                (record_for_context payment_id context TransitionState.completed r none) _ w₃
                λ _ w₄ e.
                  inr
                    (record_transition-stored payment_id context.task_id context.action
                      context.idempotency_key TransitionState.completed r none w₃ e).0

  unless_stored-Stores :
      (existing : Option Fields) (rest : Action Fields) (w v : World)
      → v ≡ open_session w
      → stored_result payment_id context v ≡ existing
      → OnOk Stores (rest v)
      → OnOk Stores (unless_stored existing rest v)
  unless_stored-Stores none rest w v opened stored h = h
  unless_stored-Stores (some result) rest w v opened stored h =
      inl (rw opened (rw opened at stored))

  try_block-Stores :
      (runner : Action Json) (w : World)
      → OnOk Stores (try_block payment_id context runner (open_session w))
  unfolding try_block
  try_block-Stores runner w =
      OnOk-bind Stores (payment_or_raise payment_id) _ (open_session w) λ payment v e.
        unless_stored-Stores (stored_result payment_id context v)
          (run_new payment_id context payment runner) w v (payment_or_raise_opened payment_id w e)
          refl (run_new-Stores payment runner v)

  on_integrity_error-Stores : (w : World) → OnOk Stores (on_integrity_error payment_id context w)
  unfolding on_integrity_error
  on_integrity_error-Stores w = stored_or_raise (stored_result payment_id context (rollback w)) refl
    where
      stored_or_raise :
          (o : Option Fields)
          → stored_result payment_id context (rollback w) ≡ o
          → OnOk Stores (or_raise integrity_error o (rollback w))
      stored_or_raise none e = tt
      stored_or_raise (some result) e = inl e

  on_exception-Stores : (x : Error) (w : World) → OnOk Stores (on_exception payment_id context x w)
  unfolding on_exception record_failure
  on_exception-Stores x w = never_returns (find_payment payment_id w.committed)
    where
      never_returns :
          (o : Option Payment) → OnOk Stores (record_failure payment_id context x o (rollback w))
      never_returns none = tt
      never_returns (some payment) =
          OnOk-bind Stores
            (record_for_context payment_id context TransitionState.failed end (some x)) _
            (rollback w) λ _ _ _. tt

  handle-Stores :
      (r : Result Fields × World) → OnOk Stores r → OnOk Stores (handle payment_id context r.0 r.1)
  unfolding handle
  handle-Stores (ok result, w) h = h
  handle-Stores (err integrity_error, w) h = on_integrity_error-Stores w
  handle-Stores (err x, w) h = on_exception-Stores x w

  -- a session that is closed, and holds the result
  abbrev Settled : Fields → World → Type 0
  Settled result w = Stores result w × (w.db ≡ w.committed)

  run_in_session-Settled :
      (runner : Action Json) (w : World) → OnOk Settled (run_in_session payment_id context runner w)
  unfolding run_in_session
  run_in_session-Settled runner w =
      closed
        (handle payment_id context (try_block payment_id context runner (open_session w)).0
          (try_block payment_id context runner (open_session w)).1)
        (handle-Stores (try_block payment_id context runner (open_session w))
          (try_block-Stores runner w))
    where
      closed : (r : Result Fields × World) → OnOk Stores r → OnOk Settled (r.0, close_session r.1)
      closed (ok result, v) h = (h, refl)
      closed (err x, v) h = tt

  pub found_payment :
      (w : World) (payment : Payment)
      → find_payment payment_id w.committed ≡ some payment
      → payment_or_raise payment_id (open_session w) ≡ (ok payment, open_session w)
  unfolding payment_or_raise
  found_payment w payment found = rw found refl

  -- with a stored result the `try` block returns it, whatever the runner
  stored_try_block :
      (runner : Action Json) (w : World) (payment : Payment) (result : Fields)
      → find_payment payment_id w.committed ≡ some payment
      → get_completed_transition_result w.committed payment_id context.action
          context.idempotency_key
        ≡ some result
      → try_block payment_id context runner (open_session w) ≡ (ok result, open_session w)
  unfolding try_block
  stored_try_block runner w payment result found stored =
      rw (found_payment w payment found) (rw stored refl)

  stored_session :
      (runner : Action Json) (w : World) (payment : Payment) (result : Fields)
      → w.db ≡ w.committed
      → find_payment payment_id w.committed ≡ some payment
      → get_completed_transition_result w.committed payment_id context.action
          context.idempotency_key
        ≡ some result
      → run_in_session payment_id context runner w ≡ (ok result, w)
  unfolding run_in_session handle
  stored_session runner w payment result closed found stored =
      rw (stored_try_block runner w payment result found stored)
        (λ i. (ok result, record w { db = sym closed i }))

-- checks that have passed once pass again, with any continuation
pub passed_checks :
    (a b : Option Error) (m : Action Fields) (w : World) {r : Fields} {v : World}
    → (check a >> (check b >> m)) w ≡ (ok r, v)
    → (m w ≡ (ok r, v))
      × ((m' : Action Fields) (w' : World) → (check a >> (check b >> m')) w' ≡ m' w')
passed_checks none none m w h = (h, λ m' w'. refl)
passed_checks none (some e) m w h = absurd (ground arith)
passed_checks (some e) b m w h = absurd (ground arith)

module _ (env : Env) (payment_id : String) (context : PaymentActionContext) where
  -- Once a payment action has returned a result, and while its payment is there, running it again
  -- under the same context returns that result as it is or redacted, with any runner in place of
  -- the first, and changes nothing: no row, no transaction sent to the escrow contract.
  pub run_replay :
      (runner runner' : Action Json) (w w' : World) (result : Fields) (payment : Payment)
      → run_idempotent_payment_action payment_id context env runner w ≡ (ok result, w')
      → find_payment payment_id w'.committed ≡ some payment
      → (r : Fields) × (run_idempotent_payment_action payment_id context env runner' w'
          ≡ (ok r, w'))
        × ((r ≡ result) ⊎ (r ≡ redact_fields result))
  unfolding run_idempotent_payment_action
  run_replay runner runner' w w' result payment h found =
      let (ran, again) =
        passed_checks (ensure_payment_action_context context)
          (validate_payment_mode env context.mode) (run_in_session payment_id context runner) w h in
      let (stores, closed) =
        OnOk-eq (Settled payment_id context) (run_in_session payment_id context runner w) ran
          (run_in_session-Settled payment_id context runner w) in
      let rerun = again (run_in_session payment_id context runner') w' in
      elim stores [
        | inl e ↦ (
          result,
          (rerun ∙ stored_session payment_id context runner' w' payment result closed found e),
          inl refl,
        )
        | inr e ↦ (
          redact_fields result,
          (rerun
              ∙ stored_session payment_id context runner' w' payment (redact_fields result) closed
                  found e),
          inr refl,
        )
      ]
