-- ===== src/Payments/Run/Returns.antt =====
-- How `run_idempotent_payment_action` comes to return: by a stored result, or by its runner.
use synaptica_web.Prelude.{
  String, ◌≡◌, refl, ap, ◌∙◌, arith, subst, Option, none, some, ◌⊎◌, inl, inr,
}
use synaptica_web.Json.{Json, Fields, end}
use synaptica_web.Payments.Contracts.{PaymentActionContext}
use synaptica_web.Payments.Errors.{Error, integrity_error, payment_conflict_error, Result, ok, err}
use synaptica_web.Payments.Db.{Payment, TransitionState, find_payment}
use synaptica_web.Payments.Session.{
  Env, World, Action, or_raise, pure, commit, ◌>>=◌, ◌>>◌, rollback, open_session, close_session,
  OnOk, OnOk-eq, OnOk-bind,
}
use synaptica_web.Payments.Service.Stored.{record_transition-stored}
use synaptica_web.Payments.Service.{
  as_dict, ensure_payment_action_context, validate_payment_mode, ensure_no_terminal_conflict,
  get_completed_transition_result,
}
use synaptica_web.Payments.Run.{
  record_failure, payment_or_raise, unless_stored, check, record_for_context, stored_result,
  run_new, try_block, on_integrity_error, on_exception, handle, run_in_session,
  run_idempotent_payment_action,
}
use synaptica_web.Payments.Run.Replay.{payment_or_raise_opened, passed_checks}
use synaptica_web.Payments.Run.Attempt.{IsRunner, AfterTry, try_block-AfterTry, checked}

or_raise-some :
    {A : Type 0} (e : Error) (o : Option A) {a : A} {w u : World}
    → or_raise e o w ≡ (ok a, u)
    → (o ≡ some a) × (u ≡ w)
or_raise-some e none h = absurd (ground arith)
or_raise-some e (some a) h = (ground arith, ground arith)

-- the end of `run_new`
abbrev recorded : String → PaymentActionContext → Json → Action Fields
recorded payment_id context answer = do
  result ← or_raise (payment_conflict_error "runner result") (as_dict answer)
  record_for_context payment_id context TransitionState.completed result none
  (λ w. (ok tt, commit w))
  pure result

module _ (payment_id : String) (context : PaymentActionContext) (runner : Action Json)
    (w : World) where
  -- the result was stored, or the runner has returned it and its tables are committed, all but
  -- that of transitions as they are
  abbrev pub Grounds : Fields → World → Type 0
  Grounds result v =
      (get_completed_transition_result w.committed payment_id context.action context.idempotency_key
        ≡ some result)
      ⊎ ((answer : Json) × (u : World) × (runner (open_session w) ≡ (ok answer, u))
          × (as_dict answer ≡ some result)
          × (v.committed ≡ record u.db { transitions = v.committed.transitions }))

  abbrev Founded : Result Fields × World → Type 0
  Founded r = OnOk Grounds r

  -- what `run_new` does with the answer of the runner
  finish-Founded :
      (answer : Json) (u : World)
      → runner (open_session w) ≡ (ok answer, u)
      → Founded (recorded payment_id context answer u)
  finish-Founded answer u ran =
      OnOk-bind Grounds (or_raise (payment_conflict_error "runner result") (as_dict answer)) _ u
        λ result u₁ e₁.
          OnOk-bind Grounds
            (record_for_context payment_id context TransitionState.completed result none) _ u₁
            λ _ u₂ e₂.
              let (is_dict, same) =
                or_raise-some (payment_conflict_error "runner result") (as_dict answer) e₁ in
              let kept =
                (record_transition-stored payment_id context.task_id context.action
                  context.idempotency_key TransitionState.completed result none u₁ e₂).1 in
              inr (
                answer,
                u,
                ran,
                is_dict,
                ap (λ x. x.db) kept
                    ∙ ap (λ x. record x.db { transitions = u₂.db.transitions }) same,
              )

  run_new-Founded :
      (payment : Payment) → Founded (run_new payment_id context payment runner (open_session w))
  unfolding run_new
  run_new-Founded payment =
      OnOk-bind Grounds (check (ensure_no_terminal_conflict payment context.action)) _
        (open_session w)
        λ _ u₁ e₁. OnOk-bind Grounds runner _ u₁ λ answer u₂ e₂. finish-Founded answer u₂ (
          subst (λ s. runner s ≡ (ok answer, u₂))
            (checked (ensure_no_terminal_conflict payment context.action) e₁) e₂)

  try_block-Founded : Founded (try_block payment_id context runner (open_session w))
  unfolding try_block
  try_block-Founded =
      OnOk-bind Grounds (payment_or_raise payment_id) _ (open_session w) λ payment v e.
        rw (payment_or_raise_opened payment_id w e)
          (by_stored payment (stored_result payment_id context (open_session w)) refl)
    where
      by_stored :
          (payment : Payment) (o : Option Fields)
          → stored_result payment_id context (open_session w) ≡ o
          → Founded (unless_stored o (run_new payment_id context payment runner) (open_session w))
      by_stored payment none e = run_new-Founded payment
      by_stored payment (some r) e = inl e

  on_exception-Founded : (x : Error) (u : World) → Founded (on_exception payment_id context x u)
  unfolding on_exception record_failure
  on_exception-Founded x u = by_payment (find_payment payment_id u.committed)
    where
      by_payment :
          (o : Option Payment) → Founded (record_failure payment_id context x o (rollback u))
      by_payment none = tt
      by_payment (some payment) =
          OnOk-bind Grounds
            (record_for_context payment_id context TransitionState.failed end (some x)) _
            (rollback u) λ _ _ _. tt

  on_integrity_error-Founded :
      (u : World) → u.committed ≡ w.committed → Founded (on_integrity_error payment_id context u)
  unfolding on_integrity_error
  on_integrity_error-Founded u same = by_stored (stored_result payment_id context (rollback u)) refl
    where
      by_stored :
          (o : Option Fields)
          → stored_result payment_id context (rollback u) ≡ o
          → Founded (or_raise integrity_error o (rollback u))
      by_stored none e = tt
      by_stored (some r) e = inl (
          subst
            (λ d.
              get_completed_transition_result d payment_id context.action context.idempotency_key
              ≡ some r)
            same e)

  handle-Founded :
      (r : Result Fields × World)
      → Founded r
      → AfterTry payment_id context w r
      → Founded (handle payment_id context r.0 r.1)
  unfolding handle
  handle-Founded (ok result, u) h a = h
  handle-Founded (err integrity_error, u) h a = on_integrity_error-Founded u a.0
  handle-Founded (err x, u) h a = on_exception-Founded x u

  run_in_session-Founded : IsRunner runner → Founded (run_in_session payment_id context runner w)
  unfolding run_in_session
  run_in_session-Founded good = closed _ (
      handle-Founded (try_block payment_id context runner (open_session w)) try_block-Founded
        (try_block-AfterTry payment_id context w runner good))
    where
      closed : (r : Result Fields × World) → Founded r → Founded (r.0, close_session r.1)
      closed (ok result, v) h = h
      closed (err x, v) h = tt

  -- a run that returned
  pub run_returned :
      (env : Env) {result : Fields} {v : World}
      → IsRunner runner
      → run_idempotent_payment_action payment_id context env runner w ≡ (ok result, v)
      → Grounds result v
  unfolding run_idempotent_payment_action
  run_returned env good h =
      OnOk-eq Grounds _
        (passed_checks (ensure_payment_action_context context)
          (validate_payment_mode env context.mode) (run_in_session payment_id context runner) w h).0
        (run_in_session-Founded good)
