-- ===== src/Credits.antt =====
-- api/routes/credits.py: the balance of a user, and the credits that a Stripe checkout grants.
pub mod Webhook
pub mod Once
pub mod Repeats
pub mod Balances
pub mod Grants
mod Tests
use mathlib.Core.Option
use synaptica_web.Prelude.{
  ℕ, ◌+◌, ◌-◌, String, Bool, Option, none, some, List, [], ◌∷◌, ◌++◌, ◌==◌, find, any, nat_eq,
  if◌then◌else◌,
}
use synaptica_web.Text.{codes, starts_with}
use synaptica_web.Json.{Json}

-- `UserCredits`. The code starts a balance at a natural number, adds to it, and cuts it at 0.
pub record UserCredits : Type 0 where
  pub user_id : String
  pub balance : ℕ

-- the two texts of `StripeTransaction.status`
pub data TransactionStatus : Type 0 where
  pending completed : TransactionStatus

-- `StripeTransaction`; `failed_transfer` is whether `meta` holds the error of the transfer
pub record StripeTransaction : Type 0 where
  pub user_id : String
  pub stripe_session_id : String
  pub stripe_payment_intent_id : Json
  pub credits_granted : ℕ
  pub amount_cents : Json
  pub status : TransactionStatus
  pub hedera_tx_id : Option String
  pub failed_transfer : Bool

-- what is committed, and the HBAR transfers sent so far: the wallet and the amount of each
pub record Ledger : Type 0 where
  pub users : List UserCredits
  pub transactions : List StripeTransaction
  pub transfers : List (String × String)

-- The exceptions: an HTTPException with its status, or any other, which the server answers with 500.
pub data HttpError : Type 0 where
  http_exception : ℕ → HttpError
  unhandled : HttpError

pub data Answer (A : Type 0) : Type 0 where
  answer : A → Answer A
  raised : HttpError → Answer A

-- `DEFAULT_CREDITS`, `DEFAULT_USER_ID`
abbrev pub default_credits : ℕ
default_credits = 50

abbrev pub default_user_id : String
default_user_id = "default"

-- `CREDIT_TIERS.get(credits)`
unfoldable pub credit_tier : ℕ → Option ℕ
credit_tier credits =
    if nat_eq credits 10
    then some 100
    else if nat_eq credits 50
    then some 400
    else if nat_eq credits 100
    then some 700
    else if nat_eq credits 500
    then some 3000
    else none

abbrev pub is_user : String → UserCredits → Bool
is_user user_id row = row.user_id == user_id

-- the query for a user's row
unfoldable pub find_user : String → List UserCredits → Option UserCredits
unfolding find
find_user user_id users = find (is_user user_id) users

-- `UPDATE … SET balance = value` for the user's row
unfoldable pub set_balance : String → ℕ → List UserCredits → List UserCredits
set_balance user_id value [] = []
set_balance user_id value (row ∷ rows) =
    let rest = set_balance user_id value rows in
    if is_user user_id row then (record row { balance = value }) ∷ rest else row ∷ rest

abbrev pub new_user : String → ℕ → UserCredits
new_user user_id balance = record { user_id = user_id; balance = balance }

-- the balance of a user whose row is there
abbrev pub balance_of : String → List UserCredits → Option ℕ
balance_of user_id users = Option.map (λ (row : UserCredits). row.balance) (find_user user_id users)

-- `get_balance`
unfoldable pub get_balance : String → Ledger → ℕ × Ledger
get_balance user_id ledger = elim (find_user user_id ledger.users) [
  | some row ↦ (row.balance, ledger)
  | none ↦ (
    default_credits,
    record ledger { users = ledger.users ++ new_user user_id default_credits ∷ [] },
  )
]

-- `deduct_credits`, whose amount is at least 1; `max(0, a - b)` is the subtraction of ℕ
unfoldable pub deduct_credits : String → ℕ → Ledger → ℕ × Ledger
deduct_credits user_id amount ledger = elim (find_user user_id ledger.users) [
  | some row ↦ (
    row.balance - amount,
    record ledger { users = set_balance user_id (row.balance - amount) ledger.users },
  )
  | none ↦ (
    default_credits - amount,
    record ledger { users = ledger.users ++ new_user user_id (default_credits - amount) ∷ [] },
  )
]

-- `_stripe_key` and `_webhook_secret`: the variable, unless it is empty or the placeholder
unfoldable pub configured : (String → Option String) → String → String → Answer String
unfolding starts_with
configured getenv name placeholder = elim (getenv name) [
  | none ↦ raised (http_exception 503)
  | some key ↦
      if key == ""
      then raised (http_exception 503)
      else if starts_with (codes placeholder) (codes key)
      then raised (http_exception 503)
      else answer key
]

-- what `create_checkout` passes to Stripe
pub record Checkout : Type 0 where
  pub unit_amount : ℕ
  pub user_id : String
  pub credits : ℕ

-- `create_checkout`; `create_session` is `stripe.checkout.Session.create`, with the URL it gives
unfoldable pub create_checkout :
    (String → Option String) → (Checkout → Option String) → ℕ → String → Answer String
create_checkout getenv create_session credits user_id =
    elim (configured getenv "STRIPE_SECRET_KEY" "sk_test_YOUR") [
      | raised e ↦ raised e
      | answer key ↦ elim (credit_tier credits) [
        | none ↦ raised (http_exception 400)
        | some price ↦
            elim (create_session
              (record { unit_amount = price; user_id = user_id; credits = credits })) [
                | none ↦ raised unhandled
                | some url ↦ answer url
              ]
      ]
    ]
