-- ===== src/Credits/Webhook.antt =====
-- `stripe_webhook` of api/routes/credits.py. What a delivery has read and writes is a value of its
-- own, so that another delivery can commit in between.
use synaptica_web.Prelude.{
  ℕ, ℤ, pos, suc, ◌+◌, String, Bool, true, false, Option, none, some, List, [], ◌∷◌, ◌++◌, ◌==◌,
  any, not, ◌&&◌, if◌then◌else◌,
}
use synaptica_web.Json.{Json, Fields, null, integer, str, get, to_int}
use synaptica_web.Credits.{
  UserCredits, StripeTransaction, pending, completed, Ledger, http_exception, unhandled, Answer,
  answer, raised, default_user_id, find_user, set_balance, new_user, configured,
}

-- the session object of an event
pub record CheckoutSession : Type 0 where
  pub id : String
  pub metadata : Fields
  pub amount_total : Option Json
  pub payment_intent : Option Json

-- an event: a completed session, or another type
pub data StripeEvent : Type 0 where
  session_completed : CheckoutSession → StripeEvent
  other_event : StripeEvent

-- how `stripe.Webhook.construct_event` ends
pub data Construction : Type 0 where
  constructed : StripeEvent → Construction
  invalid_signature malformed : Construction

-- the environment: its variables, Stripe's check of a payload and a signature under the secret at a
-- time (a signature is refused once it is old),
-- whether the Hedera SDK is there, the HBAR amount of a number of credits (none for an exception),
-- a transfer to a wallet (the transaction, or none for an exception), and whether the database takes a commit
pub record Env : Type 0 where
  pub getenv : String → Option String
  pub construct_event : String → String → String → ℕ → Construction
  pub sdk_available : Bool
  pub hbar_amount : ℕ → Option String
  pub transfer : String → String → Option String
  pub commit_works : Bool

-- what the handler reads of a session; `none` is the ValueError of `int`
pub record Purchase : Type 0 where
  pub session_id : String
  pub user_id : String
  pub credits : ℤ
  pub amount_cents : Json
  pub payment_intent : Json

abbrev json_or : Json → Option Json → Json
json_or default none = default
json_or default (some value) = value

abbrev user_or : String → Option Json → String
user_or default (some (str text)) = text
user_or default _ = default

abbrev with_credits : CheckoutSession → Option ℤ → Option Purchase
with_credits session none = none
with_credits session (some credits) = some (record {
  session_id = session.id;
  user_id = user_or default_user_id (get "user_id" session.metadata);
  credits = credits;
  amount_cents = json_or (integer (pos 0)) session.amount_total;
  payment_intent = json_or null session.payment_intent;
})

unfoldable pub purchase_of : CheckoutSession → Option Purchase
purchase_of session =
    with_credits session (to_int (json_or (integer (pos 0)) (get "credits" session.metadata)))

abbrev pub is_session : String → StripeTransaction → Bool
is_session session_id row = row.stripe_session_id == session_id

-- whether the session is recorded
unfoldable pub is_processed : String → List StripeTransaction → Bool
unfolding any
is_processed session_id transactions = any (is_session session_id) transactions

-- the write to the table of credits: a new row, or the value that was worked out from the old one
pub data CreditWrite : Type 0 where
  insert_user : CreditWrite
  write_balance : ℕ → CreditWrite

-- what a delivery commits
pub record Prepared : Type 0 where
  pub user_id : String
  pub credits : ℕ
  pub transaction : StripeTransaction
  pub write : CreditWrite

abbrev write_for : ℕ → Option UserCredits → CreditWrite
write_for credits none = insert_user
write_for credits (some row) = write_balance (row.balance + credits)

-- the transaction row and the change of the balance, from the rows that the session has read
unfoldable pub prepare : Purchase → ℕ → Ledger → Prepared
prepare purchase credits ledger = record {
  user_id = purchase.user_id;
  credits = credits;
  transaction = record {
    user_id = purchase.user_id;
    stripe_session_id = purchase.session_id;
    stripe_payment_intent_id = purchase.payment_intent;
    credits_granted = credits;
    amount_cents = purchase.amount_cents;
    status = pending;
    hedera_tx_id = none;
    failed_transfer = false;
  };
  write = write_for credits (find_user purchase.user_id ledger.users);
}

abbrev pub users_after : Prepared → List UserCredits → Option (List UserCredits)
users_after p users = after p.write
  where
    added : Option UserCredits → Option (List UserCredits)
    added none = some (users ++ new_user p.user_id p.credits ∷ [])
    added (some row) = none

    after : CreditWrite → Option (List UserCredits)
    after insert_user = added (find_user p.user_id users)
    after (write_balance value) = some (set_balance p.user_id value users)

-- `db.commit()` onto what is committed by then: the unique columns are the session of a
-- transaction and the user of a balance, and `none` is a violation
unfoldable pub commit_prepared : Prepared → Ledger → Option Ledger
commit_prepared p ledger =
    if is_processed p.transaction.stripe_session_id ledger.transactions
    then none
    else elim (users_after p ledger.users) [
      | none ↦ none
      | some users ↦ some (record ledger {
        users = users;
        transactions = ledger.transactions ++ p.transaction ∷ [];
      })
    ]

abbrev is_set : Option String → Bool
is_set none = false
is_set (some text) = not (text == "")

-- the transfer, which is counted whether or not the network accepts it
abbrev send_hbar : Env → Option String → String → Ledger → Option String × Ledger
send_hbar env (some wallet) amount ledger = (
  env.transfer wallet amount,
  record ledger { transfers = ledger.transfers ++ (wallet, amount) ∷ [] },
)
send_hbar env none amount ledger = (none, ledger)

-- `_transfer_hbar`; `none` is an exception
unfoldable pub transfer_hbar : Env → ℕ → Ledger → Option String × Ledger
transfer_hbar env credits ledger = elim (env.hbar_amount credits) [
  | none ↦ (none, ledger)
  | some amount ↦
      if not env.sdk_available
      then (some "stub-tx-id", ledger)
      else if is_set (env.getenv "HEDERA_OPERATOR_ACCOUNT_ID")
          && is_set (env.getenv "HEDERA_OPERATOR_PRIVATE_KEY")
          && is_set (env.getenv "HEDERA_USER_WALLET_ADDRESS")
      then send_hbar env (env.getenv "HEDERA_USER_WALLET_ADDRESS") amount ledger
      else (none, ledger)
]

-- the assignment to the columns of the transaction after the transfer
unfoldable pub complete_transaction :
    String → Option String → List StripeTransaction → List StripeTransaction
complete_transaction session_id outcome [] = []
complete_transaction session_id outcome (row ∷ rows) =
    let rest = complete_transaction session_id outcome rows in
    if is_session session_id row then finished outcome ∷ rest else row ∷ rest
  where
    finished : Option String → StripeTransaction
    finished none = record row { status = completed; failed_transfer = true }
    finished (some tx) = record row { status = completed; hedera_tx_id = some tx }

-- the transfer after the commit, and the second commit
unfoldable pub finish : Env → Prepared → Ledger → Ledger
finish env p ledger =
    let (outcome, sent) = transfer_hbar env p.credits ledger in
    record sent {
      transactions = complete_transaction p.transaction.stripe_session_id outcome sent.transactions;
    }

-- a delivery of a new session, on what is committed at its end
abbrev pub commit_and_finish : Env → Prepared → Ledger → Answer (Unit {0}) × Ledger
commit_and_finish env p ledger =
    if env.commit_works
    then (elim (commit_prepared p ledger) [
      | none ↦ (raised (http_exception 500), ledger)
      | some committed ↦ (answer tt, finish env p committed)
    ])
    else (raised (http_exception 500), ledger)

-- a session whose metadata was read
unfoldable pub grant : Env → Purchase → ℤ → Ledger → Answer (Unit {0}) × Ledger
grant env purchase (pos (suc n)) ledger =
    if is_processed purchase.session_id ledger.transactions
    then (answer tt, ledger)
    else commit_and_finish env (prepare purchase (suc n) ledger) ledger
grant env purchase _ ledger = (answer tt, ledger)

-- the handler, once the event is there
unfoldable pub handle_event : Env → StripeEvent → Ledger → Answer (Unit {0}) × Ledger
handle_event env other_event ledger = (answer tt, ledger)
handle_event env (session_completed session) ledger = elim (purchase_of session) [
  | none ↦ (raised unhandled, ledger)
  | some purchase ↦ grant env purchase purchase.credits ledger
]

abbrev pub on_construction : Env → Construction → Ledger → Answer (Unit {0}) × Ledger
on_construction env (constructed event) ledger = handle_event env event ledger
on_construction env invalid_signature ledger = (raised (http_exception 400), ledger)
on_construction env malformed ledger = (raised (http_exception 400), ledger)

abbrev pub text_or_empty : Option String → String
text_or_empty none = ""
text_or_empty (some text) = text

abbrev pub with_secret :
    Env → ℕ → String → Option String → Answer String → Ledger → Answer (Unit {0}) × Ledger
with_secret env now payload signature (raised e) ledger = (raised e, ledger)
with_secret env now payload signature (answer secret) ledger =
    on_construction env (env.construct_event payload (text_or_empty signature) secret now) ledger

-- `stripe_webhook`, at a time
unfoldable pub stripe_webhook :
    Env → ℕ → String → Option String → Ledger → Answer (Unit {0}) × Ledger
stripe_webhook env now payload signature ledger =
    elim (configured env.getenv "STRIPE_SECRET_KEY" "sk_test_YOUR") [
      | raised e ↦ (raised e, ledger)
      | answer key ↦
          with_secret env now payload signature
            (configured env.getenv "STRIPE_WEBHOOK_SECRET" "whsec_YOUR") ledger
    ]
