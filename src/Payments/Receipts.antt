-- ===== src/Payments/Receipts.antt =====
-- agents/verifier/tools/payment_tools.py: receipts, and what a settlement writes to the row of its
-- payment.
use Prim.Native.String.{◌++◌ as concat}
use synaptica_web.Prelude.{String, Option, none, some, ◌==◌, if◌then◌else◌}
use synaptica_web.Json.{Json, Fields, str, obj, end, field, get, put}
use synaptica_web.Payments.Contracts.{PaymentMode, offline, PaymentStatus, completed, refunded}
use synaptica_web.Payments.Errors.{value_error, other_error, ok, err}
use synaptica_web.Payments.Db.{Payment, update, has_id, find_payment}
use synaptica_web.Payments.Session.{
  Env, Action, pure, or_raise, asks, modify, now, new_uuid, open_session, close_session, ◌>>=◌,
}
use synaptica_web.Payments.Messages.{A2AMessage, new_thread_id, to_dict}
use synaptica_web.Payments.Notify.{Settlement, released, refused}
use synaptica_web.Payments.Escrow.{
  Receipt, get_text, or_else, settle_with_x402, release_approval, refund_approval,
}

-- `db.query(Payment).filter(Payment.id == payment_id).one()`
unfoldable pub payment_row : String → Action Payment
payment_row payment_id = asks (other_error "NoResultFound") (λ w. find_payment payment_id w.db)

-- assignments to columns of the payment's row
unfoldable pub assign : String → (Payment → Payment) → Action (Unit {0})
assign payment_id f = modify λ db. record db { payments = update (has_id payment_id) f db.payments }

-- the first lookup of both tools, in a session of its own
unfoldable pub task_of_payment : String → Action String
task_of_payment payment_id w =
    let s = open_session w in
    elim (find_payment payment_id s.db) [
      | none ↦ (err (value_error "payment not found"), close_session s)
      | some payment ↦ (ok payment.task_id, close_session s)
    ]

-- `metadata.get("worker_address") or hedera_account_to_evm_address(…)`
unfoldable pub worker_address : Env → Fields → Action String
worker_address env meta = or_raise (value_error "account") (
    if get_text "worker_address" meta == ""
    then env.to_evm_address (get_text "to_hedera_account" meta)
    else some (get_text "worker_address" meta))

-- `metadata.get("a2a_thread_id") or new_thread_id(…)`
abbrev pub thread_of : Payment → Fields → String
thread_of payment meta =
    or_else (get_text "a2a_thread_id" meta) (new_thread_id payment.task_id payment.id)

abbrev verifier_default : Option String → String
verifier_default none = "verifier-agent"
verifier_default (some text) = text

-- `metadata.get("verifier_agent_id") or os.getenv("VERIFIER_AGENT_ID", "verifier-agent")`
abbrev pub verifier_of : Env → Fields → String
verifier_of env meta =
    or_else (get_text "verifier_agent_id" meta) (verifier_default (env.getenv "VERIFIER_AGENT_ID"))

-- the receipt that `_build_receipt` makes up in offline mode; `offline-` and digits of the uuid are
-- the transaction, of which the model keeps the whole uuid
unfoldable pub offline_receipt : Env → PaymentStatus → Action Receipt
offline_receipt env terminal = do
  id ← new_uuid env
  timestamp ← now env
  pure (record {
    transaction_id = concat "offline-" id;
    status = terminal;
    timestamp = timestamp;
    metadata = field "mode" (str "offline") end;
  })

-- `_build_receipt`
unfoldable pub build_receipt : Env → PaymentMode → Settlement → Payment → Action Receipt
build_receipt env offline (released notes) payment = offline_receipt env completed
build_receipt env offline (refused reason) payment = offline_receipt env refunded
build_receipt env mode (released notes) payment = settle_with_x402 env release_approval payment
build_receipt env mode (refused reason) payment = settle_with_x402 env refund_approval payment

-- the columns that a receipt sets
abbrev pub settle_columns : Receipt → String → Payment → Payment
settle_columns receipt time payment = record payment {
  status = receipt.status;
  transaction_id = some receipt.transaction_id;
  completed_at = some time;
}

-- the dict that is stored of a receipt
abbrev pub receipt_entry : Receipt → Json
receipt_entry receipt = obj (
    field "transaction_id" (str receipt.transaction_id)
      (field "timestamp" (str receipt.timestamp) (field "details" (obj receipt.metadata) end)))

-- `dict(metadata.get(key) or {})`
abbrev pub dict_at : String → Fields → Fields
dict_at key meta = fields_of (get key meta)
  where
    fields_of : Option Json → Fields
    fields_of (some (obj fs)) = fs
    fields_of _ = end

-- `metadata.setdefault(key, text)`
abbrev pub set_default : String → String → Fields → Fields
set_default key text meta = elim (get key meta) [
  | some value ↦ meta
  | none ↦ put key (str text) meta
]

-- the names of the entries and of the messages that a settlement leaves in the metadata
abbrev pub settlement_entries : Settlement → Receipt → String → Fields → Fields
settlement_entries (released notes) receipt time meta =
    put "receipt" (receipt_entry receipt) (put "verification_notes" (str notes) meta)
settlement_entries (refused reason) receipt time meta =
    put "refund_receipt" (receipt_entry receipt)
      (put "rejected_at" (str time) (put "rejection_reason" (str reason) meta))

abbrev pub settlement_messages : Settlement → A2AMessage → A2AMessage → Fields → Fields
settlement_messages (released notes) payer payee messages =
    put "payment/released:payee" (to_dict payee)
      (put "payment/released:payer" (to_dict payer) messages)
settlement_messages (refused reason) payer payee messages =
    put "payment/refunded:payee" (to_dict payee)
      (put "payment/refunded:payer" (to_dict payer) messages)
