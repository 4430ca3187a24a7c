-- ===== src/Payments/Authorize/Reads.antt =====
-- The steps of `authorize_payment` (agents/negotiator/tools/payment_tools.py) that write no table.
use synaptica_web.Prelude.{String, ◌≡◌, refl, sym, ap, ◌∙◌, List, [], ◌∷◌}
use synaptica_web.Json.{Fields}
use synaptica_web.Payments.Contracts.{PaymentMode, managed, dev_env, offline}
use synaptica_web.Payments.Errors.{Result}
use synaptica_web.Payments.Db.{Db}
use synaptica_web.Payments.Session.{
  Env, World, Action, Delivery, unsent, lost, mined, ChainCall, new_uuid, now,
}
use synaptica_web.Payments.Session.Leaves.{Leaves, leaves_rules}
use synaptica_web.Payments.Messages.{Settled, new_message, build_payment_authorized_message}
use synaptica_web.Payments.Escrow.{TaskEscrowConfig, open_x402, load, deliver, send_transaction}
use synaptica_web.Payments.Escrow.Create.{
  PaymentRequest, resolve_terms, resolve_worker_address, resolve_verifiers, some_verifier,
  resolve_approvals, resolve_fee_configuration, to_wei, create_payment, authorize_with_x402,
}
use synaptica_web.Payments.Receipts.{payment_row, worker_address}
use synaptica_web.Payments.Authorize.{authorization}

-- what the steps before the writes leave alone: the rows, what is committed
abbrev pub session_tables : World → Db × Db
session_tables w = (w.db, w.committed)

abbrev pub Reads : {A : Type 0} → Action A → Type 0
Reads m = Leaves session_tables m

some_verifier-Reads : (verifiers : List String) → Reads (some_verifier verifiers)
some_verifier-Reads [] = record { at = λ w. refl }
some_verifier-Reads (a ∷ rest) = record { at = λ w. refl }

module _ (env : Env) where
  now-Reads : Reads (now env)
  unfolding now
  now-Reads = record { at = λ w. refl }

  new_uuid-Reads : Reads (new_uuid env)
  unfolding new_uuid
  new_uuid-Reads = record { at = λ w. refl }

  open_x402-Reads : Reads (open_x402 env)
  unfolding open_x402 load
  open_x402-Reads = search leaves_rules depth 9

  resolve_terms-Reads :
      (config : TaskEscrowConfig) (request : PaymentRequest)
      → Reads (resolve_terms env config request)
  unfolding resolve_terms resolve_worker_address resolve_verifiers resolve_approvals
      resolve_fee_configuration to_wei
  resolve_terms-Reads config request = search (leaves_rules, some_verifier-Reads) depth 16

  send_transaction-Reads : (call : ChainCall) → Reads (send_transaction env call)
  unfolding send_transaction
  send_transaction-Reads call = record { at = λ w. delivered (env.send_transaction w.calls call) w }
    where
      delivered :
          (d : Delivery) (w : World) → session_tables (deliver d call w).1 ≡ session_tables w
      delivered unsent w = refl
      delivered lost w = refl
      delivered (mined receipt) w = refl

  authorize_with_x402-Reads : (request : PaymentRequest) → Reads (authorize_with_x402 env request)
  unfolding authorize_with_x402 create_payment
  authorize_with_x402-Reads request =
      search (leaves_rules, open_x402-Reads, resolve_terms-Reads, send_transaction-Reads, now-Reads)
        depth 9

  pub authorization-Reads :
      (mode : PaymentMode) (request : PaymentRequest) → Reads (authorization env mode request)
  unfolding authorization
  authorization-Reads offline request = search (leaves_rules, new_uuid-Reads)
  authorization-Reads managed request = authorize_with_x402-Reads request
  authorization-Reads dev_env request = authorize_with_x402-Reads request

  pub worker_address-Reads : (meta : Fields) → Reads (worker_address env meta)
  unfolding worker_address
  worker_address-Reads meta = search leaves_rules

  pub payment_row-Reads : (payment_id : String) → Reads (payment_row payment_id)
  unfolding payment_row
  payment_row-Reads payment_id = search leaves_rules

  pub message-Reads :
      (p : Settled) (from_agent to_agent thread_id tx : String)
      → Reads (build_payment_authorized_message env p from_agent to_agent thread_id tx)
  unfolding build_payment_authorized_message new_message
  message-Reads p from_agent to_agent thread_id tx =
      search (leaves_rules, now-Reads, new_uuid-Reads)

-- a step that leaves the tables alone ends with the tables it began with
pub same_tables :
    {A : Type 0} {m : Action A} {w u : World} {r : Result A}
    → Reads m
    → m w ≡ (r, u)
    → (u.db ≡ w.db) × (u.committed ≡ w.committed)
same_tables {m} {w} kept e =
    let end = sym (ap (λ p. session_tables p.1) e) ∙ kept.at w in
    (ap (λ p. p.0) end, ap (λ p. p.1) end)
