-- ===== src/Payments/Run/Safety.antt =====
-- Safety of `run_idempotent_payment_action`: completed transitions are never lost, and a run that
-- raises leaves every table but that of transitions as it was.
use synaptica_web.Prelude.{
  String, ◌≡◌, refl, ap, ◌∙◌, subst, Option, none, some, ◌⊎◌, inl, inr, arith,
}
use synaptica_web.Json.{Json, Fields, end}
use synaptica_web.Payments.Contracts.{PaymentActionContext}
use synaptica_web.Payments.Errors.{Error, integrity_error, Result, ok, err}
use synaptica_web.Payments.Db.{Db, Payment, TransitionState, find_payment}
use synaptica_web.Payments.Session.{
  Env, World, Action, or_raise, ◌>>◌, rollback, open_session, close_session, bind_rule,
}
use synaptica_web.Payments.Service.{ensure_payment_action_context, validate_payment_mode}
use synaptica_web.Payments.Service.Keeps.{stored}
use synaptica_web.Payments.Run.{
  record_failure, check, record_for_context, stored_result, try_block, on_integrity_error,
  on_exception, handle, run_in_session, run_idempotent_payment_action,
}
use synaptica_web.Payments.Run.Attempt.{
  IsRunner, KeepsResults, AfterTry, record-KeepsResults, record_raised, try_block-AfterTry,
}

module _ (payment_id : String) (context : PaymentActionContext) (w : World) where
  -- how the `try` statement may end
  abbrev After : Result Fields × World → Type 0
  After (ok result, v) = KeepsResults w.committed.transitions v.committed.transitions
  After (err e, v) =
      KeepsResults w.committed.transitions v.committed.transitions
      × (v.committed ≡ record w.committed { transitions = v.committed.transitions })

  -- a handler that has rolled back, and then only read
  rolled_back : (r : Result Fields) (v : World) → v.committed ≡ w.committed → After (r, v)
  rolled_back (ok result) v same = λ p a k r set. rw same set
  rolled_back (err e) v same = (λ p a k r set. rw same set, rw same refl)

  record_failure-After :
      (x : Error) (o : Option Payment) (u : World)
      → u.db ≡ w.committed
      → u.committed ≡ w.committed
      → ((o ≡ none)
          ⊎ (stored payment_id context.action context.idempotency_key w.committed.transitions
              ≡ none))
      → After (record_failure payment_id context x o u)
  unfolding record_failure
  record_failure-After x none u same kept why = rolled_back (err x) u kept
  record_failure-After x (some payment) u same kept (inl absent) = absurd (ground arith)
  record_failure-After x (some payment) u same kept (inr unset) =
      bind_rule After (record_for_context payment_id context TransitionState.failed end (some x)) _
        u
        (λ _ v e.
          let (keeps, _, frame) =
            record-KeepsResults payment_id context w TransitionState.failed end (some x) u
              (ap (λ (d : Db). d.transitions) same) unset e in
          (keeps, frame ∙ ap (λ (d : Db). record d { transitions = v.db.transitions }) same))
        (λ y v e. rolled_back (err y) v (
          ap (λ (s : World). s.committed)
            (record_raised payment_id context w TransitionState.failed end (some x) u e)
          ∙ kept))

  on_integrity_error-After :
      (u : World) → u.committed ≡ w.committed → After (on_integrity_error payment_id context u)
  unfolding on_integrity_error
  on_integrity_error-After u same = by_stored (stored_result payment_id context (rollback u))
    where
      by_stored : (o : Option Fields) → After (or_raise integrity_error o (rollback u))
      by_stored none = rolled_back (err integrity_error) (rollback u) same
      by_stored (some r) = rolled_back (ok r) (rollback u) same

  on_exception-After :
      (x : Error) (u : World)
      → AfterTry payment_id context w (err x, u)
      → After (on_exception payment_id context x u)
  unfolding on_exception
  on_exception-After x u (same, why) =
      record_failure-After x (find_payment payment_id u.committed) (rollback u) same same
        (rw same why)

  handle-After :
      (r : Result Fields × World)
      → AfterTry payment_id context w r
      → After (handle payment_id context r.0 r.1)
  unfolding handle
  handle-After (ok result, u) h = h
  handle-After (err integrity_error, u) h = on_integrity_error-After u h.0
  handle-After (err x, u) h = on_exception-After x u h

  run_in_session-After :
      (runner : Action Json) → IsRunner runner → After (run_in_session payment_id context runner w)
  unfolding run_in_session
  run_in_session-After runner good =
      closed
        (handle payment_id context (try_block payment_id context runner (open_session w)).0
          (try_block payment_id context runner (open_session w)).1)
        (handle-After (try_block payment_id context runner (open_session w))
          (try_block-AfterTry payment_id context w runner good))
    where
      closed : (r : Result Fields × World) → After r → After (r.0, close_session r.1)
      closed (ok result, v) h = h
      closed (err x, v) h = h

module _ (env : Env) (payment_id : String) (context : PaymentActionContext) where
  run-After :
      (runner : Action Json) (w : World)
      → IsRunner runner
      → After payment_id context w (run_idempotent_payment_action payment_id context env runner w)
  unfolding run_idempotent_payment_action
  run-After runner w good =
      by_checks (ensure_payment_action_context context) (validate_payment_mode env context.mode)
    where
      by_checks :
          (a b : Option Error)
          → After payment_id context w
              ((check a >> (check b >> run_in_session payment_id context runner)) w)
      by_checks none none = run_in_session-After payment_id context w runner good
      by_checks none (some e) = rolled_back payment_id context w (err e) w refl
      by_checks (some e) b = rolled_back payment_id context w (err e) w refl

  -- Whether a payment action returns or raises, every result that was stored under a payment, an
  -- action and a key is stored there still, if the runner leaves the commit and the transitions to
  -- the service.
  pub run-KeepsResults :
      (runner : Action Json) (w : World)
      → IsRunner runner
      → KeepsResults w.committed.transitions
          (run_idempotent_payment_action payment_id context env runner w).1.committed.transitions
  run-KeepsResults runner w good =
      either (run_idempotent_payment_action payment_id context env runner w)
        (run-After runner w good)
    where
      either :
          (r : Result Fields × World)
          → After payment_id context w r
          → KeepsResults w.committed.transitions r.1.committed.transitions
      either (ok result, v) h = h
      either (err e, v) h = h.0

  -- A payment action that raises has changed no committed table but that of transitions, if the
  -- runner leaves the commit and the transitions to the service.
  pub run_failure_rolls_back :
      (runner : Action Json) (w v : World) (e : Error)
      → IsRunner runner
      → run_idempotent_payment_action payment_id context env runner w ≡ (err e, v)
      → v.committed ≡ record w.committed { transitions = v.committed.transitions }
  run_failure_rolls_back runner w v e good h =
      (subst (After payment_id context w) h (run-After runner w good)).1
