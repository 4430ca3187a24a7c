-- ===== src/Payments/Settle.antt =====
-- `release_payment` and `reject_and_refund` of agents/verifier/tools/payment_tools.py.
pub mod Frame
pub mod Guards
pub mod Chain
use synaptica_web.Prelude.{String, Bool, true, false, not, Option, none, some}
use synaptica_web.Json.{Json, Fields, bool, number, str, obj, end, field, put}
use synaptica_web.Payments.Contracts.{
  PaymentMode, mode_value, PaymentAction, release, refund, authorized, refunded, same_status,
  status_value, PaymentActionContext,
}
use synaptica_web.Payments.Errors.{value_error, Result}
use synaptica_web.Payments.Db.{Payment}
use synaptica_web.Payments.Session.{Env, Action, pure, raise_if, now, ◌>>=◌, ◌>>◌}
use synaptica_web.Payments.Run.{run_idempotent_payment_action}
use synaptica_web.Payments.Context.{ActionPayload, build_action_context}
use synaptica_web.Payments.Messages.{A2AMessage, to_dict}
use synaptica_web.Payments.Notify.{
  Settlement, released, refused, emit_terminal_payment_notifications,
}
use synaptica_web.Payments.Escrow.{Receipt}
use synaptica_web.Payments.Receipts.{
  payment_row, assign, task_of_payment, worker_address, thread_of, verifier_of, build_receipt,
  settle_columns, dict_at, set_default, settlement_entries, settlement_messages,
}

-- the action of each tool
abbrev pub action_of : Settlement → PaymentAction
action_of (released notes) = release
action_of (refused reason) = refund

-- the guard of the release; a refund has none
abbrev pub refuses : Settlement → Payment → Bool
refuses (released notes) payment = not (same_status payment.status authorized)
refuses (refused reason) payment = false

-- the clock reading that `rejected_at` takes; a release takes none
abbrev rejection_time : Env → Settlement → Action String
rejection_time env (released notes) = pure ""
rejection_time env (refused reason) = now env

-- the dict that each runner returns
abbrev pub settlement_answer :
    Settlement → Payment → Receipt → PaymentMode → String → A2AMessage → A2AMessage → Json
settlement_answer (released notes) payment receipt mode thread_id payer payee = obj (
    field "success" (bool true) (
      field "payment_id" (str payment.id) (
        field "transaction_id" (str receipt.transaction_id) (
          field "status" (str (status_value receipt.status)) (
            field "amount" (number payment.amount) (
              field "currency" (str payment.currency) (
                field "mode" (str (mode_value mode)) (
                  field "message" (str "Payment released successfully") (
                    field "a2a"
                      (obj (
                        field "thread_id" (str thread_id) (
                          field "release_messages"
                            (obj
                              (field "payer" (to_dict payer) (field "payee" (to_dict payee) end)))
                            end)))
                      end)))))))))
settlement_answer (refused reason) payment receipt mode thread_id payer payee = obj (
    field "success" (bool (same_status receipt.status refunded)) (
      field "payment_id" (str payment.id) (
        field "status" (str (status_value receipt.status)) (
          field "rejection_reason" (str reason) (
            field "mode" (str (mode_value mode)) (
              field "message" (str (refund_message (same_status receipt.status refunded))) (
                field "a2a"
                  (obj (
                    field "thread_id" (str thread_id) (
                      field "refund_messages"
                        (obj (field "payer" (to_dict payer) (field "payee" (to_dict payee) end)))
                        end)))
                  end)))))))
  where
    refund_message : Bool → String
    refund_message true = "Refund approved on-chain"
    refund_message false = "Refund approval recorded"

-- the metadata that the row ends with
abbrev settled_meta :
    Env
    → Settlement
    → Receipt
    → PaymentMode
    → String
    → String
    → A2AMessage
    → A2AMessage
    → Fields
    → Fields
settled_meta env how receipt mode time thread_id payer payee meta =
    let entries =
      put "payment_mode" (str (mode_value mode)) (settlement_entries how receipt time meta) in
    set_default "verifier_agent_id" (verifier_of env meta) (
      put "a2a_messages"
        (obj (settlement_messages how payer payee (dict_at "a2a_messages" entries)))
        (put "a2a_thread_id" (str thread_id) entries))

-- what both runners do with the receipt
unfoldable pub apply_receipt :
    Env → String → PaymentMode → Settlement → Payment → Fields → Receipt → Action Json
apply_receipt env payment_id mode how payment meta receipt = do
  completed_at ← now env
  assign payment_id (settle_columns receipt completed_at)
  time ← rejection_time env how
  (payer, payee) ←
      emit_terminal_payment_notifications env (settle_columns receipt completed_at payment)
        (verifier_of env meta) (thread_of payment meta) how receipt.transaction_id
  assign payment_id λ row. record row {
    meta = settled_meta env how receipt mode time (thread_of payment meta) payer payee meta;
  }
  pure (settlement_answer how payment receipt mode (thread_of payment meta) payer payee)

-- what both runners do once the payment is there and not refused
unfoldable pub settle_row : Env → String → PaymentMode → Settlement → Payment → Action Json
settle_row env payment_id mode how payment = do
  address ← worker_address env payment.meta
  receipt ← build_receipt env mode how payment
  apply_receipt env payment_id mode how payment (put "worker_address" (str address) payment.meta)
      receipt

-- the inner `_runner` of both tools
unfoldable pub settle_runner : Env → String → PaymentMode → Settlement → Action Json
settle_runner env payment_id mode how = do
  payment ← payment_row payment_id
  raise_if (refuses how payment) (value_error "not authorized")
  settle_row env payment_id mode how payment

abbrev pub lift : Result PaymentActionContext → Action PaymentActionContext
lift r w = (r, w)

-- `release_payment` and `reject_and_refund`
unfoldable pub settle : Env → String → Settlement → Option ActionPayload → Action Fields
settle env payment_id how payload = do
  task_id ← task_of_payment payment_id
  context ← lift (build_action_context env (some payment_id) task_id (action_of how) payload)
  run_idempotent_payment_action payment_id context env
      (settle_runner env payment_id context.mode how)

unfoldable pub release_payment : Env → String → String → Option ActionPayload → Action Fields
release_payment env payment_id notes = settle env payment_id (released notes)

unfoldable pub reject_and_refund : Env → String → String → Option ActionPayload → Action Fields
reject_and_refund env payment_id reason = settle env payment_id (refused reason)
