-- ===== src/Payments/Escrow.antt =====
-- The settlement calls of `X402Payment` (shared/protocols/x402.py) on the TaskEscrow contract. The
-- contract, the RPC node and the signing are the environment's `send_transaction` and
-- `get_escrow_status`; `_task_id_bytes` is one-to-one on the identifiers of tasks, so that an
-- escrow is named by the identifier itself.
pub mod Create
pub mod Bounds
pub mod Funded
use synaptica_web.Prelude.{
  ℕ, ℤ, pos, at_least, not, String, Option, none, some, ◌==◌, nat_eq, if◌then◌else◌,
}
use synaptica_web.Text.{codes, read_int}
use synaptica_web.Json.{Json, Fields, get, str, integer, end, field}
use synaptica_web.Payments.Contracts.{PaymentStatus, authorized, completed, failed, refunded}
use synaptica_web.Payments.Errors.{value_error, other_error}
use synaptica_web.Payments.Db.{Payment}
use synaptica_web.Payments.Session.{
  ChainCall, approve_release, approve_refund, Delivery, unsent, lost, mined, Mined, Env, Action,
  pure, raise, raise_if, or_raise, asks, sends, ◌>>◌, ◌>>=◌, now,
}

-- `PaymentReceipt`, the parts that are read
pub record Receipt : Type 0 where
  pub transaction_id : String
  pub status : PaymentStatus
  pub timestamp : String
  pub metadata : Fields

-- a text, or the empty text, which is as false as a missing entry
abbrev pub text_of : Option Json → String
text_of (some (str s)) = s
text_of _ = ""

-- `metadata.get(key, "")` at a text
unfoldable pub get_text : String → Fields → String
get_text key meta = text_of (get key meta)

-- `a or b` on texts
abbrev pub or_else : String → String → String
or_else a b = if a == "" then b else a

-- the identifier that `_task_id_bytes` hashes
unfoldable pub escrow_key : Payment → String
escrow_key payment = or_else (get_text "task_id" payment.meta) payment.id

-- the texts of os.getenv that `not value` takes for missing
abbrev pub present : Option String → Option String
present none = none
present (some text) = if text == "" then none else some text

-- the inner `require` of `TaskEscrowConfig.load`
abbrev require : Env → String → Action String
require env name = or_raise (value_error name) (present (env.getenv name))

abbrev int_or : ℤ → Option String → Option ℤ
int_or default none = some default
int_or default (some text) = read_int (codes text)

-- `int(os.getenv(name, default) or default)`
abbrev pub env_int : Env → String → ℤ → Action ℤ
env_int env name default = or_raise (value_error name) (int_or default (present (env.getenv name)))

-- `TaskEscrowConfig`, without the key and the address of the node
pub record TaskEscrowConfig : Type 0 where
  pub contract_address : String
  pub marketplace_treasury : String
  pub default_approvals : ℤ
  pub marketplace_fee_bps : ℤ
  pub verifier_fee_bps : ℤ

-- `TaskEscrowConfig.load`
unfoldable pub load : Env → Action TaskEscrowConfig
load env = do
  contract_address ← require env "TASK_ESCROW_ADDRESS"
  marketplace_treasury ← require env "TASK_ESCROW_MARKETPLACE_TREASURY"
  signer_private_key ← require env "TASK_ESCROW_OPERATOR_PRIVATE_KEY"
  default_approvals ← env_int env "TASK_ESCROW_DEFAULT_APPROVALS" (pos 1)
  marketplace_fee_bps ← env_int env "TASK_ESCROW_MARKETPLACE_FEE_BPS" (pos 0)
  verifier_fee_bps ← env_int env "TASK_ESCROW_VERIFIER_FEE_BPS" (pos 0)
  pure (record {
    contract_address = contract_address;
    marketplace_treasury = marketplace_treasury;
    default_approvals = default_approvals;
    marketplace_fee_bps = marketplace_fee_bps;
    verifier_fee_bps = verifier_fee_bps;
  })

abbrev pub checksum : Env → String → Action String
checksum env address = or_raise (other_error "web3") (env.to_checksum_address (str address))

-- `X402Payment(get_hedera_client())`
unfoldable pub open_x402 : Env → Action TaskEscrowConfig
open_x402 env = do
  config ← load env
  raise_if (not env.connects) (other_error "RuntimeError")
  contract_address ← checksum env config.contract_address
  marketplace_treasury ← checksum env config.marketplace_treasury
  pure (record config {
    contract_address = contract_address;
    marketplace_treasury = marketplace_treasury;
    default_approvals = pos (at_least 1 config.default_approvals);
  })

abbrev pub deliver : Delivery → ChainCall → Action Mined
deliver unsent call = raise (other_error "web3")
deliver lost call = do sends call; raise (other_error "web3")
deliver (mined receipt) call = do sends call; pure receipt

-- `_send_transaction`
unfoldable pub send_transaction : Env → ChainCall → Action Mined
send_transaction env call w = deliver (env.send_transaction w.calls call) call w

-- `_map_escrow_status_to_payment_status`
unfoldable pub map_escrow_status_to_payment_status : ℕ → PaymentStatus
map_escrow_status_to_payment_status escrow_status =
    if nat_eq escrow_status 2
    then completed
    else if nat_eq escrow_status 3
    then refunded
    else if nat_eq escrow_status 1
    then authorized
    else failed

-- `_get_escrow_status`, after the transactions sent so far
abbrev pub escrow_status : Env → String → Action ℕ
escrow_status env key = asks (other_error "web3") (λ w. env.get_escrow_status w.calls key)

-- the entries on the A2A thread that end a receipt's metadata
abbrev pub thread_entries : String → Fields → Fields
thread_entries type meta =
    if get_text "a2a_thread_id" meta == ""
    then end
    else field "a2a_thread_id" (str (get_text "a2a_thread_id" meta))
        (field "a2a_message_type" (str type) end)

-- what differs between the two settlements: the function called and the type of the message
pub record Approval : Type 0 where
  pub call : String → ChainCall
  pub message_type : String

abbrev pub release_approval : Approval
release_approval = record { call = approve_release; message_type = "payment/released" }

abbrev pub refund_approval : Approval
refund_approval = record { call = approve_refund; message_type = "payment/refunded" }

-- the metadata of the receipt of a settlement
abbrev pub approval_details : Env → Approval → Payment → Mined → ℕ → Fields
approval_details env approval payment receipt status =
    field "task_id" (str (env.task_id_hex (escrow_key payment))) (
      field "transaction_hash" (str receipt.transaction_hash) (
        field "block_number" receipt.block_number (
          field "gas_used" receipt.gas_used (
            field "escrow_status" (integer (pos status))
              (thread_entries approval.message_type payment.meta)))))

-- `release_payment` and `approve_refund` of `X402Payment`
unfoldable pub settle_on_chain : Env → Approval → Payment → Action Receipt
settle_on_chain env approval payment = do
  receipt ← send_transaction env (approval.call (escrow_key payment))
  status ← escrow_status env (escrow_key payment)
  timestamp ← now env
  pure (record {
    transaction_id = receipt.transaction_hash;
    status = map_escrow_status_to_payment_status status;
    timestamp = timestamp;
    metadata = approval_details env approval payment receipt status;
  })

-- a settlement on the contract, from the construction of its client
unfoldable pub settle_with_x402 : Env → Approval → Payment → Action Receipt
settle_with_x402 env approval payment = do
  config ← open_x402 env
  settle_on_chain env approval payment
