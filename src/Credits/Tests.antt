-- ===== src/Credits/Tests.antt =====
-- Runs of the credit handlers, and the theorems about them there.
use synaptica_web.Prelude.{
  pos, String, true, false, ◌≡◌, refl, Option, none, some, [], ◌∷◌, ◌==◌, any, find, ltb,
  if◌then◌else◌,
}
use synaptica_web.Text.{starts_with, read_int, strip, read_digits, read_number}
use synaptica_web.Json.{null, str, integer, field, end, get, to_int}
use synaptica_web.Credits.{
  UserCredits, Ledger, Answer, answer, raised, http_exception, find_user, set_balance, balance_of,
  deduct_credits, configured, get_balance,
}
use synaptica_web.Credits.Webhook.{
  Env, CheckoutSession, session_completed, constructed, invalid_signature, Purchase, purchase_of,
  prepare, commit_prepared, is_processed, complete_transaction, transfer_hbar, finish, grant,
  handle_event, stripe_webhook,
}
use synaptica_web.Credits.Once.{done, after, balance, commit_prepared_once}
use synaptica_web.Credits.Repeats.{again, stripe_webhook_twice}
use synaptica_web.Credits.Balances.{deduct_credits-balance}
use synaptica_web.Credits.Grants.{grant-balance, lost_credits}

abbrev checkout : String → CheckoutSession
checkout id = record {
  id = id;
  metadata = field "user_id" (str "ann") (field "credits" (str "10") end);
  amount_total = some (integer (pos 100));
  payment_intent = none;
}

abbrev env : Env
env = record {
  getenv = λ name.
      if name == "STRIPE_SECRET_KEY"
      then some "sk_test_1"
      else if name == "STRIPE_WEBHOOK_SECRET"
      then some "whsec_1"
      else none;
  construct_event = λ payload signature secret now.
      if ltb now 300 then constructed (session_completed (checkout payload)) else invalid_signature;
  sdk_available = false;
  hbar_amount = λ n. some "5.0";
  transfer = λ wallet amount. none;
  commit_works = true;
}

abbrev ann : UserCredits
ann = record { user_id = "ann"; balance = 30 }

abbrev ledger : Ledger
ledger = record { users = ann ∷ []; transactions = []; transfers = [] }

abbrev purchase : String → Purchase
purchase session_id = record {
  session_id = session_id;
  user_id = "ann";
  credits = pos 10;
  amount_cents = integer (pos 100);
  payment_intent = null;
}

abbrev delivered : Answer (Unit {0}) × Ledger
unfolding stripe_webhook configured starts_with handle_event purchase_of to_int read_int strip
    read_number read_digits get grant is_processed any prepare find_user find commit_prepared
    set_balance finish transfer_hbar complete_transaction
delivered = stripe_webhook env 0 "cs_1" (some "sig") ledger

delivers : stripe_webhook env 0 "cs_1" (some "sig") ledger ≡ (answer tt, delivered.1)
unfolding stripe_webhook configured starts_with handle_event purchase_of to_int read_int strip
    read_number read_digits get grant is_processed any prepare find_user find commit_prepared
    set_balance finish transfer_hbar complete_transaction
delivers = refl

stripe_webhook_twice_example :
    stripe_webhook env 200 "cs_1" (some "sig2") delivered.1 ≡ (answer tt, delivered.1)
unfolding configured starts_with
stripe_webhook_twice_example =
    stripe_webhook_twice env (session_completed (checkout "cs_1")) "sk_test_1" "whsec_1" 0 200
      "cs_1" "cs_1" (some "sig") (some "sig2") (answer tt) ledger delivered.1 refl refl refl
      delivers again

late_delivery :
    stripe_webhook env 400 "cs_1" (some "sig") delivered.1
    ≡ (raised (http_exception 400), delivered.1)
unfolding stripe_webhook configured starts_with
late_delivery = refl

balance_test : balance_of "ann" delivered.1.users ≡ some 40
unfolding delivered find_user find
balance_test = refl

abbrev or_same : Ledger → Option Ledger → Ledger
or_same l none = l
or_same l (some l') = l'

abbrev once : Ledger
unfolding prepare commit_prepared is_processed any find_user find set_balance
once = or_same ledger (commit_prepared (prepare (purchase "cs_1") 10 ledger) ledger)

commits : commit_prepared (prepare (purchase "cs_1") 10 ledger) ledger ≡ some once
unfolding prepare commit_prepared is_processed any find_user find set_balance
commits = refl

commit_prepared_once_example :
    commit_prepared (prepare (purchase "cs_1") 10 ledger) (get_balance "ann" once).1 ≡ none
commit_prepared_once_example =
    commit_prepared_once (prepare (purchase "cs_1") 10 ledger) (prepare (purchase "cs_1") 10 ledger)
      ledger once (get_balance "ann" once).1 commits (after done (balance "ann")) refl

deduct_credits-balance_example :
    ((deduct_credits "ann" 40 ledger).0 ≡ 0)
    × (balance_of "bob" (deduct_credits "ann" 40 ledger).1.users ≡ none)
unfolding find_user find
deduct_credits-balance_example = deduct_credits-balance "ann" "bob" 40 ledger

grant-balance_example :
    ((grant env (purchase "cs_1") (pos 10) ledger).0 ≡ answer tt)
    × (balance_of "ann" (grant env (purchase "cs_1") (pos 10) ledger).1.users ≡ some 40)
unfolding is_processed any find_user find
grant-balance_example = grant-balance env (purchase "cs_1") 9 ledger "ann" refl refl

found : find_user "ann" ledger.users ≡ some ann
unfolding find_user find
found = refl

unprocessed : (id : String) → is_processed id ledger.transactions ≡ false
unfolding is_processed any
unprocessed id = refl

lost_credits_example :
    (l₁ l₂ : Ledger) × (commit_prepared (prepare (purchase "cs_1") 10 ledger) ledger ≡ some l₁)
    × (commit_prepared (prepare (purchase "cs_2") 10 ledger) l₁ ≡ some l₂)
    × (balance_of "ann" l₂.users ≡ some 40)
lost_credits_example =
    lost_credits (purchase "cs_1") (purchase "cs_2") 10 10 ann ledger refl refl found
      (unprocessed "cs_1") (unprocessed "cs_2")
