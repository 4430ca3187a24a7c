-- ===== src/Payments/Settle/Chain.antt =====
-- The transactions that a settlement (agents/verifier/tools/payment_tools.py) sends to the escrow
-- contract.
use synaptica_web.Prelude.{
  suc, ℕ, ◌∷◌, some, String, Bool, true, false, ◌≡◌, refl, sym, ap, ◌∙◌, Option, some, List, ◌∷◌,
  suc,
}
use synaptica_web.Json.{Fields, put, str}
use synaptica_web.Payments.Contracts.{PaymentMode, managed, dev_env, offline, PaymentActionContext}
use synaptica_web.Payments.Errors.{Result, ok}
use synaptica_web.Payments.Db.{Db, Transition, Payment, find_payment}
use synaptica_web.Payments.Session.{
  mined, ChainCall, approve_refund, Mined, Env, World, Action, now, ◌>>=◌, bind_rule,
}
use synaptica_web.Payments.Session.Leaves.{Leaves-part}
use synaptica_web.Payments.Service.{get_payment_mode}
use synaptica_web.Payments.Run.Calls.{SendsNothing, run-SendsNothing}
use synaptica_web.Payments.Context.{ActionPayload, build_action_context}
use synaptica_web.Payments.Notify.{Settlement, refused}
use synaptica_web.Payments.Escrow.{
  Receipt, TaskEscrowConfig, open_x402, escrow_key, send_transaction, settle_on_chain,
  settle_with_x402, map_escrow_status_to_payment_status, approval_details, refund_approval,
}
use synaptica_web.Payments.Receipts.{payment_row, worker_address, build_receipt, task_of_payment}
use synaptica_web.Payments.Settle.{action_of, lift, settle_row, settle_runner, settle}
use synaptica_web.Payments.Settle.Frame.{apply_receipt-Quiet, offline_settle_runner-Quiet}
use synaptica_web.Payments.Settle.Guards.{task_committed, context_action}

same_mode : (a b : PaymentMode) → some a ≡ some b → a ≡ b
same_mode a b h = cc

module _ (env : Env) (payment_id : String) (how : Settlement) (payload : Option ActionPayload) where
  -- In offline mode a settlement sends no transaction to the escrow contract.
  pub offline_sends_nothing :
      (w : World)
      → get_payment_mode env ≡ some offline
      → (settle env payment_id how payload w).1.calls ≡ w.calls
  unfolding settle
  offline_sends_nothing w is_offline =
      bind_rule Silent (task_of_payment payment_id) _ w
        (λ task_id u e.
          bind_rule Silent
            (lift (build_action_context env (some payment_id) task_id (action_of how) payload)) _ u
            (λ context u' e'.
              let built =
                context_action env (some payment_id) task_id (action_of how) payload
                  {context = context} (ap (λ (p : Result PaymentActionContext × World). p.0) e') in
              (run-SendsNothing payment_id context env
                  (settle_runner env payment_id context.mode how)
                  (offline_runner context
                    (same_mode context.mode offline (sym built.1 ∙ is_offline)))).at
                u'
              ∙ ap (λ (p : Result PaymentActionContext × World). p.1.calls) (sym e')
              ∙ (task_committed payment_id w e).1)
            (λ x u' e'.
              ap (λ (p : Result PaymentActionContext × World). p.1.calls) (sym e')
              ∙ (task_committed payment_id w e).1))
        (λ x u e. (task_committed payment_id w e).1)
    where
      Silent : Result Fields × World → Type 0
      Silent r = r.1.calls ≡ w.calls

      offline_runner :
          (context : PaymentActionContext)
          → context.mode ≡ offline
          → SendsNothing (settle_runner env payment_id context.mode how)
      offline_runner context e = rw e (
          Leaves-part (λ (p : (Db × List Transition) × List ChainCall). p.1)
            (offline_settle_runner-Quiet env payment_id how))

-- a receipt from the contract
module _ (env : Env) (payment : Payment) (config : TaskEscrowConfig) (receipt : Mined) (status : ℕ)
    (w : World) where
  refund_sent :
      open_x402 env w ≡ (ok config, w)
      → env.send_transaction w.calls (approve_refund (escrow_key payment)) ≡ mined receipt
      → env.get_escrow_status (approve_refund (escrow_key payment) ∷ w.calls) (escrow_key payment)
        ≡ some status
      → (answer : Receipt) × (u : World) × (settle_with_x402 env refund_approval payment w
          ≡ (ok answer, u))
        × (u.calls ≡ approve_refund (escrow_key payment) ∷ w.calls)
  unfolding settle_with_x402 settle_on_chain send_transaction now
  refund_sent opened accepted read = (
    record {
      transaction_id = receipt.transaction_hash;
      status = map_escrow_status_to_payment_status status;
      timestamp = env.utcnow w.ticks;
      metadata = approval_details env refund_approval payment receipt status;
    },
    record w { calls = approve_refund (escrow_key payment) ∷ w.calls; ticks = suc w.ticks },
    rw opened (rw accepted (rw read refl)),
    refl,
  )

-- the modes that settle on the contract
abbrev pub on_chain : PaymentMode → Bool
on_chain offline = false
on_chain _ = true

refund_receipt :
    (env : Env) (mode : PaymentMode) (reason : String) (payment : Payment)
    → on_chain mode ≡ true
    → build_receipt env mode (refused reason) payment ≡ settle_with_x402 env refund_approval payment
unfolding build_receipt
refund_receipt env managed reason payment h = refl
refund_receipt env dev_env reason payment h = refl
refund_receipt env offline reason payment h = cc

bind_step :
    {A B : Type 0} (m : Action A) (f : A → Action B) (w : World) {a : A} {u : World}
    → m w ≡ (ok a, u)
    → (m >>= f) w ≡ f a u
bind_step m f w e = rw e refl

module _ (env : Env) (payment_id : String) where
  -- The runner of a refund has no guard on the status. In a mode that settles on the contract, if
  -- the payment is there, whatever its status is, if it has a worker address and the client can be
  -- set up, and if the transaction is mined and the escrow read, the runner sends one more approval
  -- of a refund.
  pub refund_sends_again :
      (mode : PaymentMode) (reason address : String) (payment : Payment) (config : TaskEscrowConfig)
      (receipt : Mined) (escrow : ℕ) (w : World)
      → on_chain mode ≡ true
      → find_payment payment_id w.db ≡ some payment
      → worker_address env payment.meta w ≡ (ok address, w)
      → open_x402 env w ≡ (ok config, w)
      → env.send_transaction w.calls (approve_refund (escrow_key payment)) ≡ mined receipt
      → env.get_escrow_status (approve_refund (escrow_key payment) ∷ w.calls) (escrow_key payment)
        ≡ some escrow
      → (settle_runner env payment_id mode (refused reason) w).1.calls
        ≡ approve_refund (escrow_key payment) ∷ w.calls
  unfolding settle_runner payment_row settle_row
  refund_sends_again mode reason address payment config receipt escrow w chain found addressed
        opened accepted read =
      let (answer, u, ran, sent) =
        refund_sent env payment config receipt escrow w opened accepted read in
      rw found (
        rw addressed (
          rw (refund_receipt env mode reason payment chain) (
            rw ran (
              ap (λ (p : (Db × List Transition) × List ChainCall). p.1)
                ((apply_receipt-Quiet env payment_id mode (refused reason) payment
                    (put "worker_address" (str address) payment.meta) answer).at
                  u)
              ∙ sent))))
