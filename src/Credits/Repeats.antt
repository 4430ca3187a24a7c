-- ===== src/Credits/Repeats.antt =====
-- A webhook of api/routes/credits.py that is delivered twice.
use synaptica_web.Prelude.{
  ℕ, ℤ, pos, negsuc, zero, suc, String, Bool, true, false, ◌≡◌, refl, sym, ap, ◌∙◌, Option, none,
  some, arith, Bool-cases, inl, inr, eq_refl, if◌then◌else◌,
}
use synaptica_web.Credits.{Ledger, Answer, answer, raised, http_exception, unhandled, configured}
use synaptica_web.Credits.Webhook.{
  Env, StripeEvent, session_completed, other_event, Construction, constructed, invalid_signature,
  malformed, Purchase, purchase_of, Prepared, is_processed, prepare, commit_prepared,
  commit_and_finish, on_construction, text_or_empty, finish, grant, handle_event, stripe_webhook,
}
use synaptica_web.Credits.Once.{commit_prepared-processed, finish_processed}

-- a delivery that was answered is answered again, and nothing changes
unfoldable Repeats : (Ledger → Answer (Unit {0}) × Ledger) → Ledger → Type 0
Repeats handler l = (handler l).0 ≡ answer tt → handler (handler l).1 ≡ (answer tt, (handler l).1)

-- how a later delivery of an event is verified, and answered
pub data Redelivers (event : StripeEvent) : Construction → Answer (Unit {0}) → Type 0 where
  again : Redelivers event (constructed event) (answer tt)
  refused : Redelivers event invalid_signature (raised (http_exception 400))
  broken : Redelivers event malformed (raised (http_exception 400))

module _ (env : Env) where
  grant-processed :
      (purchase : Purchase) (n : ℕ) (l : Ledger)
      → is_processed purchase.session_id l.transactions ≡ true
      → grant env purchase (pos (suc n)) l ≡ (answer tt, l)
  unfolding grant
  grant-processed purchase n l h = rw h refl

  commit_and_finish_processed :
      (p : Prepared) (l : Ledger)
      → (commit_and_finish env p l).0 ≡ answer tt
      → is_processed p.transaction.stripe_session_id (commit_and_finish env p l).1.transactions
        ≡ true
  commit_and_finish_processed p l h = by_commit env.commit_works (commit_prepared p l) refl h
    where
      run : Bool → Option Ledger → Answer (Unit {0}) × Ledger
      run works o =
          if works
          then (elim o [
            | none ↦ (raised (http_exception 500), l)
            | some committed ↦ (answer tt, finish env p committed)
          ])
          else (raised (http_exception 500), l)

      by_commit :
          (works : Bool) (o : Option Ledger)
          → commit_prepared p l ≡ o
          → (run works o).0 ≡ answer tt
          → is_processed p.transaction.stripe_session_id (run works o).1.transactions ≡ true
      by_commit false o e h = absurd (ground arith)
      by_commit true none e h = absurd (ground arith)
      by_commit true (some committed) e h =
          finish_processed env p p.transaction.stripe_session_id committed
          ∙ commit_prepared-processed p p.transaction.stripe_session_id l e
          ∙ ground (arith, eq_refl p.transaction.stripe_session_id)

  grant-new :
      (purchase : Purchase) (n : ℕ) (l : Ledger)
      → is_processed purchase.session_id l.transactions ≡ false
      → grant env purchase (pos (suc n)) l ≡ commit_and_finish env (prepare purchase (suc n) l) l
  unfolding grant
  grant-new purchase n l h = rw h refl

  grant_zero :
      (purchase : Purchase) (z : ℤ) (l : Ledger)
      → grant env purchase z l ≡ (answer tt, l)
      → Repeats (grant env purchase z) l
  unfolding Repeats
  grant_zero purchase z l same h =
      ap (λ x. grant env purchase z x.1) same ∙ same ∙ sym (ap (λ x. (answer tt, x.1)) same)

  grant-Repeats : (purchase : Purchase) (z : ℤ) (l : Ledger) → Repeats (grant env purchase z) l
  unfolding Repeats grant prepare
  grant-Repeats purchase (negsuc n) l = λ h. refl
  grant-Repeats purchase (pos zero) l = λ h. refl
  grant-Repeats purchase (pos (suc n)) l =
      elim (Bool-cases (is_processed purchase.session_id l.transactions)) [
        | inl e ↦ grant_zero purchase (pos (suc n)) l (grant-processed purchase n l e)
        | inr e ↦
            let new = grant-new purchase n l e in
            λ h.
              ap (λ x. grant env purchase (pos (suc n)) x.1) new
              ∙ grant-processed purchase n (commit_and_finish env (prepare purchase (suc n) l) l).1
                  (commit_and_finish_processed (prepare purchase (suc n) l) l
                    (sym (ap (λ x. x.0) new) ∙ h))
              ∙ sym (ap (λ x. (answer tt, x.1)) new)
      ]

  handle_event-Repeats : (event : StripeEvent) (l : Ledger) → Repeats (handle_event env event) l
  unfolding Repeats handle_event
  handle_event-Repeats other_event l = λ h. refl
  handle_event-Repeats (session_completed session) l = by_purchase (purchase_of session)
    where
      by_purchase :
          (o : Option Purchase)
          → Repeats
              (λ l. elim o [
                | none ↦ (raised unhandled, l)
                | some purchase ↦ grant env purchase purchase.credits l
              ])
              l
      by_purchase none h = absurd (ground arith)
      by_purchase (some purchase) h = grant-Repeats purchase purchase.credits l h

  -- with the two secrets of the environment
  webhook-on_construction :
      (key secret : String) (now : ℕ) (payload : String) (signature : Option String) (l : Ledger)
      → configured env.getenv "STRIPE_SECRET_KEY" "sk_test_YOUR" ≡ answer key
      → configured env.getenv "STRIPE_WEBHOOK_SECRET" "whsec_YOUR" ≡ answer secret
      → stripe_webhook env now payload signature l
        ≡ on_construction env (env.construct_event payload (text_or_empty signature) secret now) l
  unfolding stripe_webhook
  webhook-on_construction key secret now payload signature l k s = ground (arith, k, s)

  redelivered :
      (event : StripeEvent) (c : Construction) (a : Answer (Unit {0})) (l l' : Ledger)
      → handle_event env event l ≡ (answer tt, l')
      → Redelivers event c a
      → on_construction env c l' ≡ (a, l')
  unfolding Repeats
  redelivered event _ _ l l' h again =
      ap (handle_event env event) (sym (ap (λ x. x.1) h))
      ∙ handle_event-Repeats event l (ap (λ x. x.0) h)
      ∙ ap (λ x. (answer tt, x.1)) h
  redelivered event _ _ l l' h refused = refl
  redelivered event _ _ l l' h broken = refl

  -- A webhook of an event was verified and answered with success. A later delivery of that event, with
  -- a payload and a signature of its own, changes nothing: no balance, no transaction, no transfer of
  -- HBAR. It is answered with success where Stripe's check accepts it and yields the same event, and
  -- with 400 where the check refuses it, as it does an old signature.
  pub stripe_webhook_twice :
      (event : StripeEvent) (key secret : String) (now later : ℕ) (payload payload' : String)
      (signature signature' : Option String) (a : Answer (Unit {0})) (l l' : Ledger)
      → configured env.getenv "STRIPE_SECRET_KEY" "sk_test_YOUR" ≡ answer key
      → configured env.getenv "STRIPE_WEBHOOK_SECRET" "whsec_YOUR" ≡ answer secret
      → env.construct_event payload (text_or_empty signature) secret now ≡ constructed event
      → stripe_webhook env now payload signature l ≡ (answer tt, l')
      → Redelivers event (env.construct_event payload' (text_or_empty signature') secret later) a
      → stripe_webhook env later payload' signature' l' ≡ (a, l')
  stripe_webhook_twice event key secret now later payload payload' signature signature' a l l' k s c
        h late =
      webhook-on_construction key secret later payload' signature' l' k s
      ∙ redelivered event (env.construct_event payload' (text_or_empty signature') secret later) a l
          l'
          (sym (ap (λ x. on_construction env x l) c)
            ∙ sym (webhook-on_construction key secret now payload signature l k s)
            ∙ h)
          late
