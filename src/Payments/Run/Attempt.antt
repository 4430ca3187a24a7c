-- ===== src/Payments/Run/Attempt.antt =====
-- The `try` block of `run_idempotent_payment_action` (shared/payments/service.py), whether it returns
-- or raises.
use synaptica_web.Prelude.{
  String, ◌≡◌, refl, sym, ap, ◌∙◌, Option, none, some, List, ◌⊎◌, inl, inr, arith, Option-cases,
}
use synaptica_web.Json.{Json, Fields, obj}
use synaptica_web.Security.{redact_sensitive_payload}
use synaptica_web.Payments.Contracts.{PaymentAction, PaymentActionContext}
use synaptica_web.Payments.Errors.{Error, payment_conflict_error, Result, ok, err}
use synaptica_web.Payments.Db.{Payment, Transition, TransitionState, find_payment}
use synaptica_web.Payments.Session.{
  World, Action, pure, or_raise, ◌>>=◌, ◌>>◌, commit, open_session, bind_rule,
}
use synaptica_web.Payments.Service.{
  as_dict, ensure_no_terminal_conflict, record_transition, transitions_after,
  get_completed_transition_result,
}
use synaptica_web.Payments.Service.Keeps.{stored, transitions_after-stored}
use synaptica_web.Payments.Run.Replay.{payment_or_raise_opened}
use synaptica_web.Payments.Run.{
  payment_or_raise, unless_stored, check, record_for_context, stored_result, run_new, try_block,
}

-- What the code asks of a runner: it leaves the commit and the transitions to the service.
pub record IsRunner (runner : Action Json) : Type 0 where
  pub commits : (w : World) → (runner w).1.committed ≡ w.committed
  pub transitions : (w : World) → (runner w).1.db.transitions ≡ w.db.transitions

-- every stored result of the first table is stored in the second
abbrev pub KeepsResults : List Transition → List Transition → Type 0
KeepsResults rows rows' =
    (p : String) (a : PaymentAction) (k : String) (r : Fields)
    → stored p a k rows ≡ some r
    → stored p a k rows' ≡ some r

-- a check leaves the state alone
pub checked : (o : Option Error) {u v : World} {r : Result (Unit {0})} → check o u ≡ (r, v) → v ≡ u
checked none h = sym (ap (λ p. p.1) h)
checked (some e) h = sym (ap (λ p. p.1) h)

-- a part of the state that an action keeps is kept at its end
moved_by :
    {A : Type 0} {B : Type 0} (m : Action A) {u v : World} {r : Result A}
    → m u ≡ (r, v)
    → (part : World → B) → part (m u).1 ≡ part u
    → part v ≡ part u
moved_by m h part kept = sym (ap (λ p. part p.1) h) ∙ kept

module _ (payment_id : String) (context : PaymentActionContext) (w : World) where
  -- how a `try` block that was opened on `w` may end
  abbrev pub AfterTry : Result Fields × World → Type 0
  AfterTry (ok result, v) = KeepsResults w.committed.transitions v.committed.transitions
  AfterTry (err e, v) =
      (v.committed ≡ w.committed)
      × ((find_payment payment_id w.committed ≡ none)
          ⊎ (stored payment_id context.action context.idempotency_key w.committed.transitions
              ≡ none))

  -- `record_transition` under a key that has no completed transition
  pub record-KeepsResults :
      (state : TransitionState) (result : Fields) (error : Option Error) (u : World)
      → u.db.transitions ≡ w.committed.transitions
      → stored payment_id context.action context.idempotency_key w.committed.transitions ≡ none
      → {v : World} → record_for_context payment_id context state result error u ≡ (ok tt, v)
      → KeepsResults w.committed.transitions v.db.transitions
        × (v.committed ≡ u.committed)
        × (v.db ≡ record u.db { transitions = v.db.transitions })
  unfolding record_transition
  record-KeepsResults state result error u same unset {v} h =
      elim (Option-cases (
        transitions_after payment_id context.task_id context.action context.idempotency_key state
          (redact_sensitive_payload (obj result)) error u.db.transitions)) [
            | inl e ↦ absurd (ground arith)
            | inr (rows, e) ↦
                let moved : v ≡ record u { db = record u.db { transitions = rows } } =
                  ground arith in
                (
                  λ p a k r set. rw moved (
                      transitions_after-stored payment_id context.task_id context.action
                        context.idempotency_key p a k u.db.transitions (rw same unset) (rw same set)
                        state (redact_sensitive_payload (obj result)) error e),
                  rw moved refl,
                  rw moved refl,
                )
          ]

  pub record_raised :
      (state : TransitionState) (result : Fields) (error : Option Error) (u : World) {e : Error}
      {v : World}
      → record_for_context payment_id context state result error u ≡ (err e, v)
      → v ≡ u
  unfolding record_transition
  record_raised state result error u h = ground arith

  module _ (runner : Action Json) (good : IsRunner runner)
      (unset : stored payment_id context.action context.idempotency_key w.committed.transitions
        ≡ none) where
    -- the end of the block: the transition is recorded and committed
    finish_new :
        (r : Fields) (u : World)
        → u.db.transitions ≡ w.committed.transitions
        → u.committed ≡ w.committed
        → AfterTry (
            (record_for_context payment_id context TransitionState.completed r none
                >> ((λ v. (ok tt, commit v)) >> pure r))
              u)
    finish_new r u same kept =
        bind_rule AfterTry (record_for_context payment_id context TransitionState.completed r none)
          _ u (λ _ v e. (record-KeepsResults TransitionState.completed r none u same unset e).0)
          (λ x v e. (
            ap (λ (s : World). s.committed) (record_raised TransitionState.completed r none u e)
                ∙ kept,
            inr unset,
          ))

    -- the answer of the runner is a dict, or the block raises
    after_runner :
        (answer : Json) (u : World)
        → u.db.transitions ≡ w.committed.transitions
        → u.committed ≡ w.committed
        → AfterTry (
            (or_raise (payment_conflict_error "runner result") (as_dict answer) >>= λ r.
            record_for_context payment_id context TransitionState.completed r none
            >> ((λ v. (ok tt, commit v)) >> pure r))
              u)
    after_runner answer u same kept = by_dict (as_dict answer)
      where
        by_dict :
            (o : Option Fields)
            → AfterTry (
                (or_raise (payment_conflict_error "runner result") o >>= λ r.
                record_for_context payment_id context TransitionState.completed r none
                >> ((λ v. (ok tt, commit v)) >> pure r))
                  u)
        by_dict none = (kept, inr unset)
        by_dict (some r) = finish_new r u same kept

    run_new-AfterTry :
        (payment : Payment) → AfterTry (run_new payment_id context payment runner (open_session w))
    unfolding run_new
    run_new-AfterTry payment =
        bind_rule AfterTry (check (ensure_no_terminal_conflict payment context.action)) _
          (open_session w)
          (λ _ u₁ e₁.
            let here = checked (ensure_no_terminal_conflict payment context.action) e₁ in
            bind_rule AfterTry runner _ u₁
              (λ answer u₂ e₂.
                after_runner answer u₂
                  (moved_by runner e₂ (λ s. s.db.transitions) (good.transitions u₁)
                    ∙ ap (λ (s : World). s.db.transitions) here)
                  (moved_by runner e₂ (λ s. s.committed) (good.commits u₁)
                    ∙ ap (λ (s : World). s.committed) here))
              (λ x u₂ e₂. (
                moved_by runner e₂ (λ s. s.committed) (good.commits u₁)
                    ∙ ap (λ (s : World). s.committed) here,
                inr unset,
              )))
          (λ x u₁ e₁. (
            ap (λ (s : World). s.committed)
                (checked (ensure_no_terminal_conflict payment context.action) e₁),
            inr unset,
          ))

  not_found :
      (v : World) {x : Error}
      → payment_or_raise payment_id (open_session w) ≡ (err x, v)
      → (v.committed ≡ w.committed) × (find_payment payment_id w.committed ≡ none)
  unfolding payment_or_raise
  not_found v h = by_payment (find_payment payment_id w.committed) refl h
    where
      by_payment :
          (o : Option Payment) {x : Error}
          → find_payment payment_id w.committed ≡ o
          → or_raise (payment_conflict_error "not found") o (open_session w) ≡ (err x, v)
          → (v.committed ≡ w.committed) × (find_payment payment_id w.committed ≡ none)
      by_payment none e k = (sym (ap (λ p. p.1.committed) k), e)
      by_payment (some payment) e k = absurd (ground arith)

  pub try_block-AfterTry :
      (runner : Action Json)
      → IsRunner runner
      → AfterTry (try_block payment_id context runner (open_session w))
  unfolding try_block
  try_block-AfterTry runner good =
      bind_rule AfterTry (payment_or_raise payment_id) _ (open_session w)
        (λ payment v e.
          rw (payment_or_raise_opened payment_id w e)
            (by_stored payment (stored_result payment_id context (open_session w)) refl))
        (λ x v e. let (same, missing) = not_found v e in (same, inl missing))
    where
      by_stored :
          (payment : Payment) (o : Option Fields)
          → stored_result payment_id context (open_session w) ≡ o
          → AfterTry (unless_stored o (run_new payment_id context payment runner) (open_session w))
      by_stored payment none e =
          run_new-AfterTry runner good (unfold get_completed_transition_result in e) payment
      by_stored payment (some r) e = λ p a k r' set. set
