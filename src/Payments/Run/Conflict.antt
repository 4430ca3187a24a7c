-- ===== src/Payments/Run/Conflict.antt =====
-- `ensure_no_terminal_conflict` in its place in `run_idempotent_payment_action`: a payment that was
-- settled one way is not settled the other way.
use synaptica_web.Prelude.{
  String, Bool, true, false, ◌≡◌, refl, sym, ap, ◌∙◌, Option, none, some, arith,
}
use synaptica_web.Json.{Json, Fields, end}
use synaptica_web.Payments.Contracts.{
  PaymentAction, PaymentStatus, proposal, authorize, release, refund, completed, refunded,
  PaymentActionContext, status_value,
}
use synaptica_web.Payments.Errors.{Error, integrity_error, payment_conflict_error, Result, ok, err}
use synaptica_web.Payments.Db.{Payment, TransitionState, find_payment}
use synaptica_web.Payments.Session.{
  Env, World, Action, raise, ◌>>◌, rollback, open_session, close_session, bind_rule,
}
use synaptica_web.Payments.Session.Leaves.{Leaves-raise}
use synaptica_web.Payments.Service.{
  ensure_payment_action_context, validate_payment_mode, ensure_no_terminal_conflict,
  get_completed_transition_result,
}
use synaptica_web.Payments.Run.{
  record_failure, check, record_for_context, run_new, try_block, on_exception, handle,
  run_in_session, run_idempotent_payment_action,
}
use synaptica_web.Payments.Run.Replay.{found_payment}
use synaptica_web.Payments.Run.Safety.{run_failure_rolls_back}
use synaptica_web.Payments.Run.Calls.{run-SendsNothing}

-- the settlement goes the other way than the one that the status records
abbrev pub opposes : PaymentAction → PaymentStatus → Bool
opposes release refunded = true
opposes refund completed = true
opposes _ _ = false

opposed_conflict :
    (payment : Payment) (action : PaymentAction)
    → opposes action payment.status ≡ true
    → ensure_no_terminal_conflict payment action
      ≡ some (payment_conflict_error (status_value payment.status))
unfolding ensure_no_terminal_conflict
opposed_conflict payment proposal h = ground arith
opposed_conflict payment authorize h = ground arith
opposed_conflict payment release h = ground arith
opposed_conflict payment refund h = ground arith

-- the action raises
abbrev Raises : {A : Type 0} → Result A × World → Type 0
Raises (ok a, v) = ⊥
Raises (err e, v) = Unit

Raises-shape :
    {A : Type 0} (r : Result A × World) → Raises r → (e : Error) × (v : World) × (r ≡ (err e, v))
Raises-shape (ok a, v) h = absurd h
Raises-shape (err e, v) h = (e, v, refl)

module _ (payment_id : String) (context : PaymentActionContext) where
  record_failure-Raises :
      (x : Error) (o : Option Payment) (w : World)
      → Raises (record_failure payment_id context x o w)
  unfolding record_failure
  record_failure-Raises x none w = tt
  record_failure-Raises x (some payment) w =
      bind_rule Raises (record_for_context payment_id context TransitionState.failed end (some x)) _
        w (λ _ _ _. tt) (λ _ _ _. tt)

  module _ (w : World) (payment : Payment)
      (found : find_payment payment_id w.committed ≡ some payment)
      (unset : get_completed_transition_result w.committed payment_id context.action
          context.idempotency_key
        ≡ none)
      (opposed : opposes context.action payment.status ≡ true) where
    conflict_try_block :
        (runner : Action Json)
        → try_block payment_id context runner (open_session w)
          ≡ (err (payment_conflict_error (status_value payment.status)), open_session w)
    unfolding try_block run_new
    conflict_try_block runner =
        rw (found_payment payment_id context w payment found)
          (rw unset (rw (opposed_conflict payment context.action opposed) refl))

    conflict_session :
        (runner : Action Json)
        → run_in_session payment_id context runner w ≡ (
            let (r, v) =
              on_exception payment_id context
                (payment_conflict_error (status_value payment.status))
                (open_session w) in
            (r, close_session v))
    unfolding run_in_session handle
    conflict_session runner = rw (conflict_try_block runner) refl

    session-Raises : (runner : Action Json) → Raises (run_in_session payment_id context runner w)
    unfolding on_exception
    session-Raises runner = rw (conflict_session runner) (
        closed _ (
          record_failure-Raises (payment_conflict_error (status_value payment.status))
            (find_payment payment_id w.committed) (rollback (open_session w))))
      where
        closed : (r : Result Fields × World) → Raises r → Raises (r.0, close_session r.1)
        closed (ok r, v) h = h
        closed (err e, v) h = h

-- two checks before actions that end alike
checks_alike :
    (a b : Option Error) (m n : Action Fields) (w : World)
    → m w ≡ n w
    → Raises (m w)
    → ((check a >> (check b >> m)) w ≡ (check a >> (check b >> n)) w)
      × Raises ((check a >> (check b >> m)) w)
checks_alike none none m n w same h = (same, h)
checks_alike none (some e) m n w same h = (refl, tt)
checks_alike (some e) b m n w same h = (refl, tt)

module _ (env : Env) (payment_id : String) (context : PaymentActionContext) where
  -- Releasing a refunded payment and refunding a completed one raise, unless a result is stored
  -- under the key: the runner is not called, no transaction goes to the escrow contract, and no
  -- committed table changes but that of transitions.
  pub settled_other_way :
      (runner : Action Json) (w : World) (payment : Payment)
      → find_payment payment_id w.committed ≡ some payment
      → get_completed_transition_result w.committed payment_id context.action
          context.idempotency_key
        ≡ none
      → opposes context.action payment.status ≡ true
      → (e : Error) × (v : World) × (run_idempotent_payment_action payment_id context env runner w
          ≡ (err e, v))
        × (v.calls ≡ w.calls)
        × (v.committed ≡ record w.committed { transitions = v.committed.transitions })
  unfolding run_idempotent_payment_action
  settled_other_way runner w payment found unset opposed =
      let (same, raises) =
        checks_alike (ensure_payment_action_context context)
          (validate_payment_mode env context.mode) (run_in_session payment_id context runner)
          (run_in_session payment_id context idle) w
          (conflict_session payment_id context w payment found unset opposed runner
            ∙ sym (conflict_session payment_id context w payment found unset opposed idle))
          (session-Raises payment_id context w payment found unset opposed runner) in
      let (e, v, ends) = Raises-shape _ raises in
      let idle_ends = sym same ∙ ends in
      (
        e,
        v,
        ends,
        (sym (ap (λ p. p.1.calls) idle_ends)
            ∙ (run-SendsNothing payment_id context env idle (Leaves-raise integrity_error)).at w),
        run_failure_rolls_back env payment_id context idle w v e
            (record { commits = λ _. refl; transitions = λ _. refl }) idle_ends,
      )
    where
      idle : Action Json
      idle = raise integrity_error
