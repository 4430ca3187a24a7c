-- ===== src/Payments/Service/Stored.antt =====
-- What `record_transition` of shared/payments/service.py leaves in the table of transitions.
use synaptica_web.Prelude.{
  String, true, ◌≡◌, refl, Option, none, some, List, find, arith, eq_refl, Option-cases, inl, inr,
}
use synaptica_web.Json.{Json, Fields, obj}
use synaptica_web.Security.{redact_sensitive_payload, redact_fields}
use synaptica_web.Payments.Contracts.{
  PaymentAction, proposal, authorize, release, refund, same_action,
}
use synaptica_web.Payments.Errors.{Error, ok}
use synaptica_web.Payments.Db.{Transition, TransitionState, by_payment}
use synaptica_web.Payments.Db.Find.{find-update_self, find-append_none}
use synaptica_web.Payments.Session.{World}
use synaptica_web.Payments.Service.{
  get_completed_transition_result, record_transition, transitions_after, new_transition,
  rewrite_transition,
}

pub same_action_refl : (a : PaymentAction) → same_action a a ≡ true
same_action_refl proposal = refl
same_action_refl authorize = refl
same_action_refl release = refl
same_action_refl refund = refl

-- what a transition in the given state gives back as its stored result
abbrev pub result_of : TransitionState → Fields → Option Fields
result_of TransitionState.completed result = some (redact_fields result)
result_of TransitionState.failed result = none

module _ (payment_id task_id : String) (action : PaymentAction) (key : String) where
  finds_new :
      (state : TransitionState) (result : Json) (error : Option Error)
      → by_payment payment_id action key
          (new_transition payment_id task_id action key state result error)
        ≡ true
  finds_new state result error = rw (eq_refl payment_id, same_action_refl action, eq_refl key) refl

  found_after :
      (state : TransitionState) (result : Json) (error : Option Error) (rows : List Transition)
      {rows' : List Transition}
      → transitions_after payment_id task_id action key state result error rows ≡ some rows'
      → (t : Transition) × (find (by_payment payment_id action key) rows' ≡ some t)
        × (t.state ≡ state)
        × (t.result ≡ result)
  unfolding transitions_after
  found_after state result error rows h =
      elim (Option-cases (find (by_payment payment_id action key) rows)) [
        | inr (t, e) ↦ (
          rewrite_transition state result error t,
          ground (
            arith,
            find-update_self (by_payment payment_id action key)
                (rewrite_transition state result error) (λ x. refl) rows,
          ),
          refl,
          refl,
        )
        | inl e ↦ (
          new_transition payment_id task_id action key state result error,
          ground (
            arith,
            find-append_none (by_payment payment_id action key) rows
                (new_transition payment_id task_id action key state result error) e,
            finds_new state result error,
          ),
          refl,
          refl,
        )
      ]

  -- A recorded transition is found again under its key, with its result redacted, and nothing
  -- but the table of transitions has changed.
  pub record_transition-stored :
      (state : TransitionState) (result : Fields) (error : Option Error) (w : World) {v : World}
      → record_transition payment_id task_id action key state result error w ≡ (ok tt, v)
      → (get_completed_transition_result v.db payment_id action key ≡ result_of state result)
        × (v ≡ record w { db = record w.db { transitions = v.db.transitions } })
  unfolding record_transition get_completed_transition_result redact_sensitive_payload
  record_transition-stored state result error w {v} h =
      elim (Option-cases (
        transitions_after payment_id task_id action key state
          (redact_sensitive_payload (obj result)) error w.db.transitions)) [
            | inr (rows, e) ↦
                let (t, ft, st, rt) =
                  found_after state (redact_sensitive_payload (obj result)) error w.db.transitions
                    e in
                let same : v ≡ record w { db = record w.db { transitions = rows } } =
                  ground arith in
                (rw same (ground arith), rw same refl)
            | inl e ↦ absurd (ground arith)
          ]
