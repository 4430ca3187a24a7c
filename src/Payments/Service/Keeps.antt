-- ===== src/Payments/Service/Keeps.antt =====
-- A completed transition of shared/payments/service.py stays what it is when another is recorded.
use synaptica_web.Prelude.{
  String, true, false, ◌≡◌, refl, sym, ◌∙◌, Option, none, some, List, [], ◌∷◌, ◌++◌, find, arith,
  eq_iff, Option-cases, Bool-cases, inl, inr,
}
use synaptica_web.Json.{Json, Fields}
use synaptica_web.Payments.Contracts.{
  PaymentAction, proposal, authorize, release, refund, same_action,
}
use synaptica_web.Payments.Errors.{Error}
use synaptica_web.Payments.Db.{Transition, TransitionState, by_payment, update}
use synaptica_web.Payments.Db.Find.{find-update_ne, find-append_some}
use synaptica_web.Payments.Service.{
  completed_transition_result, transitions_after, new_transition, rewrite_transition,
}

pub same_action_eq : (a b : PaymentAction) → same_action a b ≡ true → a ≡ b
same_action_eq proposal proposal h = refl
same_action_eq authorize authorize h = refl
same_action_eq release release h = refl
same_action_eq refund refund h = refl
same_action_eq proposal b h = cc
same_action_eq authorize b h = cc
same_action_eq release b h = cc
same_action_eq refund b h = cc

-- the rows under two keys are the same rows, or none is under both
keys_apart :
    (p p' : String) (a a' : PaymentAction) (k k' : String) (t : Transition)
    → by_payment p a k t ≡ true
    → by_payment p' a' k' t ≡ true
    → (p ≡ p') × (a ≡ a') × (k ≡ k')
keys_apart p p' a a' k k' t h h' = (
  ground (arith, eq_iff t.payment_id p, eq_iff t.payment_id p'),
  sym (same_action_eq t.action a (ground arith)) ∙ same_action_eq t.action a' (ground arith),
  ground (arith, eq_iff t.idempotency_key k, eq_iff t.idempotency_key k'),
)

-- the stored result under a key
abbrev pub stored : String → PaymentAction → String → List Transition → Option Fields
stored p a k rows = completed_transition_result (find (by_payment p a k) rows)

module _ (p task : String) (a : PaymentAction) (k : String) (p' : String) (a' : PaymentAction)
    (k' : String) (rows : List Transition) {r : Fields} (unset : stored p a k rows ≡ none)
    (set : stored p' a' k' rows ≡ some r) where
  same_key_absurd : p ≡ p' → a ≡ a' → k ≡ k' → ⊥
  same_key_absurd ep ea ek =
      let moved : stored p a k rows ≡ stored p' a' k' rows =
        λ i. stored (ep i) (ea i) (ek i) rows in
      let clash : none ≡ some r = sym unset ∙ moved ∙ set in cc clash

  other_row : (t : Transition) → by_payment p a k t ≡ true → by_payment p' a' k' t ≡ false
  other_row t h = elim (Bool-cases (by_payment p' a' k' t)) [
    | inl h' ↦
        let (ep, ea, ek) = keys_apart p p' a a' k k' t h h' in absurd (same_key_absurd ep ea ek)
    | inr h' ↦ h'
  ]

  -- Recording under a key with no completed transition keeps the results under all others.
  pub transitions_after-stored :
      (state : TransitionState) (result : Json) (error : Option Error) {rows' : List Transition}
      → transitions_after p task a k state result error rows ≡ some rows'
      → stored p' a' k' rows' ≡ some r
  unfolding transitions_after
  transitions_after-stored state result error {rows'} h =
      elim (Option-cases (find (by_payment p a k) rows)) [
        | inr (t, e) ↦
            let same : rows'
                ≡ update (by_payment p a k) (rewrite_transition state result error) rows =
              ground arith in
            rw same (
              rw
                (find-update_ne (by_payment p a k) (rewrite_transition state result error)
                  (by_payment p' a' k') other_row other_row rows)
                set)
        | inl e ↦
            let same : rows' ≡ rows ++ new_transition p task a k state result error ∷ [] =
              ground arith in
            rw same (kept (find (by_payment p' a' k') rows) refl set)
      ]
    where
      kept :
          (o : Option Transition)
          → find (by_payment p' a' k') rows ≡ o
          → completed_transition_result o ≡ some r
          → stored p' a' k' (rows ++ new_transition p task a k state result error ∷ []) ≡ some r
      kept none e s = absurd (unfold completed_transition_result in cc s)
      kept (some t) e s = rw (find-append_some (by_payment p' a' k') rows _ t e) s
