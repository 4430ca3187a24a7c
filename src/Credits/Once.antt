-- ===== src/Credits/Once.antt =====
-- A checkout session grants its credits once (api/routes/credits.py), however its webhooks, the
-- balance reads and the deductions are interleaved.
use synaptica_web.Prelude.{
  ℕ, String, true, false, ◌||◌, ◌≡◌, refl, ap, ◌∙◌, Option, none, some, List, [], ◌∷◌, ◌++◌, ◌==◌,
  any, arith, Bool-cases, Option-cases, inl, inr, eq_refl,
}
use synaptica_web.Credits.{StripeTransaction, Ledger, get_balance, deduct_credits}
use synaptica_web.Credits.Webhook.{
  Env, Prepared, is_processed, commit_prepared, users_after, complete_transaction, transfer_hbar,
  finish,
}

is_processed-append :
    (id : String) (rows more : List StripeTransaction)
    → is_processed id (rows ++ more) ≡ (is_processed id rows || is_processed id more)
unfolding is_processed any
is_processed-append id [] more = refl
is_processed-append id (row ∷ rows) more = ground (arith, is_processed-append id rows more)

is_processed_complete :
    (id session : String) (outcome : Option String) (rows : List StripeTransaction)
    → is_processed id (complete_transaction session outcome rows) ≡ is_processed id rows
unfolding is_processed any complete_transaction
is_processed_complete id session outcome [] = refl
is_processed_complete id session none (row ∷ rows) =
    ground (arith, is_processed_complete id session none rows)
is_processed_complete id session (some tx) (row ∷ rows) =
    ground (arith, is_processed_complete id session (some tx) rows)

transfer_hbar-transactions :
    (env : Env) (credits : ℕ) (ledger : Ledger)
    → (transfer_hbar env credits ledger).1.transactions ≡ ledger.transactions
unfolding transfer_hbar
transfer_hbar-transactions env credits ledger = ground arith

pub finish_processed :
    (env : Env) (p : Prepared) (id : String) (ledger : Ledger)
    → is_processed id (finish env p ledger).transactions ≡ is_processed id ledger.transactions
unfolding finish
finish_processed env p id ledger =
    is_processed_complete id p.transaction.stripe_session_id (transfer_hbar env p.credits ledger).0
      (transfer_hbar env p.credits ledger).1.transactions
    ∙ ap (is_processed id) (transfer_hbar-transactions env p.credits ledger)

-- a commit adds the row of its transaction, of a session that was not there
commit_prepared-transactions :
    (p : Prepared) (ledger : Ledger) {committed : Ledger}
    → commit_prepared p ledger ≡ some committed
    → (committed.transactions ≡ ledger.transactions ++ p.transaction ∷ [])
      × (is_processed p.transaction.stripe_session_id ledger.transactions ≡ false)
unfolding commit_prepared
commit_prepared-transactions p ledger h =
    elim (Bool-cases (is_processed p.transaction.stripe_session_id ledger.transactions)) [
      | inl e ↦ absurd (ground arith)
      | inr e ↦ elim (Option-cases (users_after p ledger.users)) [
        | inl e' ↦ absurd (ground arith)
        | inr (users, e') ↦ (ground arith, e)
      ]
    ]

-- a commit records its session and forgets none
pub commit_prepared-processed :
    (p : Prepared) (id : String) (ledger : Ledger) {committed : Ledger}
    → commit_prepared p ledger ≡ some committed
    → is_processed id committed.transactions
      ≡ (is_processed id ledger.transactions || (p.transaction.stripe_session_id == id))
unfolding is_processed any
commit_prepared-processed p id ledger {committed} h =
    ap (is_processed id) (commit_prepared-transactions p ledger h).0
    ∙ is_processed-append id ledger.transactions (p.transaction ∷ [])
    ∙ ground arith

-- What one of the handlers may do to what is committed. A delivery may have read its rows from any
-- earlier state.
pub data Step : Ledger → Ledger → Type 0 where
  balance : (user_id : String) {l : Ledger} → Step l (get_balance user_id l).1
  deduct : (user_id : String) (amount : ℕ) {l : Ledger} → Step l (deduct_credits user_id amount l).1
  deliver : (p : Prepared) {l l' : Ledger} → commit_prepared p l ≡ some l' → Step l l'
  complete : (env : Env) (p : Prepared) {l : Ledger} → Step l (finish env p l)

pub data Steps : Ledger → Ledger → Type 0 where
  done : {l : Ledger} → Steps l l
  after : {l l' l'' : Ledger} → Steps l l' → Step l' l'' → Steps l l''

Step-processed :
    (id : String) {l l' : Ledger}
    → Step l l'
    → is_processed id l.transactions ≡ true
    → is_processed id l'.transactions ≡ true
unfolding get_balance deduct_credits
Step-processed id (balance user_id {l}) h = ground (arith, h)
Step-processed id (deduct user_id amount {l}) h = ground (arith, h)
Step-processed id (deliver p {l} e) h = rw (commit_prepared-processed p id l e) (rw h refl)
Step-processed id (complete env p {l}) h = finish_processed env p id l ∙ h

Steps-processed :
    (id : String) {l l' : Ledger}
    → Steps l l'
    → is_processed id l.transactions ≡ true
    → is_processed id l'.transactions ≡ true
Steps-processed id done h = h
Steps-processed id (after steps step) h = Step-processed id step (Steps-processed id steps h)

-- A session grants credits at most once: after one of its deliveries has committed, no other
-- delivery of the session commits, whatever rows it had read before and whatever balance reads,
-- deductions, commits and transfers came in between.
pub commit_prepared_once :
    (p q : Prepared) (l l₁ l₂ : Ledger)
    → commit_prepared p l ≡ some l₁
    → Steps l₁ l₂
    → p.transaction.stripe_session_id ≡ q.transaction.stripe_session_id
    → commit_prepared q l₂ ≡ none
unfolding commit_prepared
commit_prepared_once p q l l₁ l₂ e steps same =
    let recorded : is_processed q.transaction.stripe_session_id l₁.transactions ≡ true = ground (
      arith,
      commit_prepared-processed p q.transaction.stripe_session_id l e,
      same,
      eq_refl q.transaction.stripe_session_id,
    ) in
    rw (Steps-processed q.transaction.stripe_session_id steps recorded) refl
