-- ===== src/Payments/Settle/Frame.antt =====
-- What a settlement leaves alone: the commit, the transitions, every other payment.
use synaptica_web.Prelude.{◌≡◌, refl, String, List, refl, ap}
use synaptica_web.Json.{Fields}
use synaptica_web.Payments.Contracts.{PaymentMode, managed, dev_env, offline, PaymentStatus}
use synaptica_web.Payments.Db.{Db, Payment, Transition}
use synaptica_web.Payments.Session.{
  Delivery, unsent, lost, mined, ChainCall, sends, Env, World, Action, new_uuid, now,
}
use synaptica_web.Payments.Session.Leaves.{Leaves, Leaves-part, leaves_rules}
use synaptica_web.Payments.Run.Attempt.{IsRunner}
use synaptica_web.Payments.Messages.{
  A2AMessage, new_message, build_payment_release_message, build_payment_refund_message,
  publish_message,
}
use synaptica_web.Payments.Notify.{
  Settlement, released, refused, store_payment_notification, build_terminal_message,
  emit_terminal_notification, emit_terminal_payment_notifications,
}
use synaptica_web.Payments.Escrow.{
  Receipt, Approval, open_x402, load, deliver, send_transaction, settle_on_chain, settle_with_x402,
}
use synaptica_web.Payments.Receipts.{
  payment_row, assign, worker_address, offline_receipt, build_receipt,
}
use synaptica_web.Payments.Settle.{apply_receipt, settle_row, settle_runner, rejection_time}

-- what `run_idempotent_payment_action` asks of its runner
abbrev pub service_part : World → Db × List Transition
service_part w = (w.committed, w.db.transitions)

-- and with it what only a transaction to the escrow contract changes
abbrev pub quiet_part : World → (Db × List Transition) × List ChainCall
quiet_part w = (service_part w, w.calls)

abbrev pub Quiet : {A : Type 0} → Action A → Type 0
Quiet m = Leaves quiet_part m

abbrev Serves : {A : Type 0} → Action A → Type 0
Serves m = Leaves service_part m

Quiet-Serves : {A : Type 0} (m : Action A) → Quiet m → Serves m
Quiet-Serves m h = Leaves-part (λ (p : (Db × List Transition) × List ChainCall). p.0) h

module _ (env : Env) where
  now-Quiet : Quiet (now env)
  unfolding now
  now-Quiet = record { at = λ w. refl }

  new_uuid-Quiet : Quiet (new_uuid env)
  unfolding new_uuid
  new_uuid-Quiet = record { at = λ w. refl }

  publish_message-Quiet : (m : A2AMessage) (tags : List String) → Quiet (publish_message env m tags)
  unfolding publish_message
  publish_message-Quiet m tags = record { at = λ w. refl }

  store-Quiet :
      (p : Payment) (m : A2AMessage) (type : String)
      → Quiet (store_payment_notification env p m type)
  unfolding store_payment_notification
  store-Quiet p m type = record { at = λ w. refl }

  sends-Serves : (call : ChainCall) → Serves (sends call)
  sends-Serves call = record { at = λ w. refl }

  assign-Quiet : (payment_id : String) (f : Payment → Payment) → Quiet (assign payment_id f)
  unfolding assign
  assign-Quiet payment_id f = record { at = λ w. refl }

  ruleset steps =
      (leaves_rules, assign-Quiet, now-Quiet, new_uuid-Quiet, publish_message-Quiet, store-Quiet)

  pub open_x402-Quiet : Quiet (open_x402 env)
  unfolding open_x402 load
  open_x402-Quiet = search leaves_rules depth 9

  send_transaction-Serves : (call : ChainCall) → Serves (send_transaction env call)
  unfolding send_transaction
  send_transaction-Serves call = record {
    at = λ w. delivered (env.send_transaction w.calls call) w;
  }
    where
      delivered : (d : Delivery) (w : World) → service_part (deliver d call w).1 ≡ service_part w
      delivered unsent w = refl
      delivered lost w = refl
      delivered (mined receipt) w = refl

  settle_on_chain-Serves :
      (approval : Approval) (payment : Payment) → Serves (settle_on_chain env approval payment)
  unfolding settle_on_chain
  settle_on_chain-Serves approval payment =
      search (leaves_rules, send_transaction-Serves, Quiet-Serves, now-Quiet)

  settle_with_x402-Serves :
      (approval : Approval) (payment : Payment) → Serves (settle_with_x402 env approval payment)
  unfolding settle_with_x402
  settle_with_x402-Serves approval payment =
      search (leaves_rules, Quiet-Serves, open_x402-Quiet, settle_on_chain-Serves)

  offline_receipt-Quiet : (terminal : PaymentStatus) → Quiet (offline_receipt env terminal)
  unfolding offline_receipt
  offline_receipt-Quiet terminal = search steps

  build_receipt-Serves :
      (mode : PaymentMode) (how : Settlement) (payment : Payment)
      → Serves (build_receipt env mode how payment)
  unfolding build_receipt
  build_receipt-Serves offline (released notes) payment = Quiet-Serves _ (offline_receipt-Quiet _)
  build_receipt-Serves offline (refused reason) payment = Quiet-Serves _ (offline_receipt-Quiet _)
  build_receipt-Serves managed (released notes) payment = settle_with_x402-Serves _ payment
  build_receipt-Serves managed (refused reason) payment = settle_with_x402-Serves _ payment
  build_receipt-Serves dev_env (released notes) payment = settle_with_x402-Serves _ payment
  build_receipt-Serves dev_env (refused reason) payment = settle_with_x402-Serves _ payment

  new_message-Quiet :
      (type from_agent to_agent thid : String) (body : Fields)
      → Quiet (new_message env type from_agent to_agent thid body)
  unfolding new_message
  new_message-Quiet type from_agent to_agent thid body = search steps

  build_terminal_message-Quiet :
      (payment : Payment) (verifier recipient thread_id : String) (how : Settlement) (tx : String)
      → Quiet (build_terminal_message env payment verifier recipient thread_id how tx)
  unfolding build_terminal_message build_payment_release_message build_payment_refund_message
  build_terminal_message-Quiet payment verifier recipient thread_id (released notes) tx =
      new_message-Quiet _ _ _ _ _
  build_terminal_message-Quiet payment verifier recipient thread_id (refused reason) tx =
      new_message-Quiet _ _ _ _ _

  emit_terminal_notification-Quiet :
      (payment : Payment) (verifier thread_id : String) (how : Settlement)
      (tx role recipient : String)
      → Quiet (emit_terminal_notification env payment verifier thread_id how tx role recipient)
  unfolding emit_terminal_notification
  emit_terminal_notification-Quiet payment verifier thread_id how tx role recipient =
      search (steps, build_terminal_message-Quiet)

  emit-Quiet :
      (payment : Payment) (verifier thread_id : String) (how : Settlement) (tx : String)
      → Quiet (emit_terminal_payment_notifications env payment verifier thread_id how tx)
  unfolding emit_terminal_payment_notifications
  emit-Quiet payment verifier thread_id how tx = search (steps, emit_terminal_notification-Quiet)

  rejection_time-Quiet : (how : Settlement) → Quiet (rejection_time env how)
  rejection_time-Quiet (released notes) = search steps
  rejection_time-Quiet (refused reason) = search steps

  worker_address-Quiet : (meta : Fields) → Quiet (worker_address env meta)
  unfolding worker_address
  worker_address-Quiet meta = search steps

  payment_row-Quiet : (payment_id : String) → Quiet (payment_row payment_id)
  unfolding payment_row
  payment_row-Quiet payment_id = search steps

  pub apply_receipt-Quiet :
      (payment_id : String) (mode : PaymentMode) (how : Settlement) (payment : Payment)
      (meta : Fields) (receipt : Receipt)
      → Quiet (apply_receipt env payment_id mode how payment meta receipt)
  unfolding apply_receipt
  apply_receipt-Quiet payment_id mode how payment meta receipt =
      search (steps, rejection_time-Quiet, emit-Quiet) depth 9

  settle_row-Serves :
      (payment_id : String) (mode : PaymentMode) (how : Settlement) (payment : Payment)
      → Serves (settle_row env payment_id mode how payment)
  unfolding settle_row
  settle_row-Serves payment_id mode how payment =
      search
        (
          leaves_rules, build_receipt-Serves, Quiet-Serves, worker_address-Quiet,
          apply_receipt-Quiet,
        )
        depth 7

  settle_runner-Serves :
      (payment_id : String) (mode : PaymentMode) (how : Settlement)
      → Serves (settle_runner env payment_id mode how)
  unfolding settle_runner
  settle_runner-Serves payment_id mode how =
      search (leaves_rules, Quiet-Serves, payment_row-Quiet, settle_row-Serves)

  offline_build_receipt-Quiet :
      (how : Settlement) (payment : Payment) → Quiet (build_receipt env offline how payment)
  unfolding build_receipt
  offline_build_receipt-Quiet (released notes) payment = offline_receipt-Quiet _
  offline_build_receipt-Quiet (refused reason) payment = offline_receipt-Quiet _

  offline_settle_row-Quiet :
      (payment_id : String) (how : Settlement) (payment : Payment)
      → Quiet (settle_row env payment_id offline how payment)
  unfolding settle_row
  offline_settle_row-Quiet payment_id how payment =
      search (steps, worker_address-Quiet, offline_build_receipt-Quiet, apply_receipt-Quiet) depth 9

  pub offline_settle_runner-Quiet :
      (payment_id : String) (how : Settlement) → Quiet (settle_runner env payment_id offline how)
  unfolding settle_runner
  offline_settle_runner-Quiet payment_id how =
      search (steps, payment_row-Quiet, offline_settle_row-Quiet)

  -- The runner of a settlement is what `run_idempotent_payment_action` asks for.
  pub settle_runner-IsRunner :
      (payment_id : String) (mode : PaymentMode) (how : Settlement)
      → IsRunner (settle_runner env payment_id mode how)
  settle_runner-IsRunner payment_id mode how = record {
    commits = λ w. ap (λ p. p.0) ((settle_runner-Serves payment_id mode how).at w);
    transitions = λ w. ap (λ p. p.1) ((settle_runner-Serves payment_id mode how).at w);
  }
