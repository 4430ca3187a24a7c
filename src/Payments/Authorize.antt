-- ===== src/Payments/Authorize.antt =====
-- `authorize_payment` of agents/negotiator/tools/payment_tools.py.
pub mod Reads
pub mod Reopens
use Prim.Native.String.{◌++◌ as concat}
use synaptica_web.Prelude.{String, true, Option, some, [], ◌∷◌}
use synaptica_web.Json.{Json, Fields, bool, str, obj, end, field, put}
use synaptica_web.Payments.Contracts.{
  PaymentMode, managed, dev_env, offline, mode_value, authorize, authorized,
}
use synaptica_web.Payments.Db.{Payment}
use synaptica_web.Payments.Session.{Env, Action, pure, new_uuid, ◌>>=◌, ◌>>◌}
use synaptica_web.Payments.Service.{ensure_payment_action_context}
use synaptica_web.Payments.Run.{check, run_idempotent_payment_action}
use synaptica_web.Payments.Context.{ActionPayload, build_action_context}
use synaptica_web.Payments.Messages.{
  A2AMessage, to_dict, build_payment_authorized_message, publish_message,
}
use synaptica_web.Payments.Notify.{settled}
use synaptica_web.Payments.Escrow.Create.{PaymentRequest, authorize_with_x402}
use synaptica_web.Payments.Receipts.{
  payment_row, assign, task_of_payment, worker_address, thread_of, dict_at,
}
use synaptica_web.Payments.Settle.{lift}

-- the request that is passed to `X402Payment`
abbrev pub payment_request : Payment → String → Fields → PaymentRequest
payment_request payment address meta = record {
  to_account = address;
  amount = payment.amount;
  payment = payment;
  metadata = meta;
}

-- the identifier of the authorization: a made-up one in offline mode, otherwise the transaction that
-- funds the escrow
unfoldable pub authorization : Env → PaymentMode → PaymentRequest → Action String
authorization env offline request = do id ← new_uuid env; pure (concat "offline-" id)
authorization env managed request = authorize_with_x402 env request
authorization env dev_env request = authorize_with_x402 env request

-- the columns that an authorization sets
abbrev pub authorize_columns : String → Payment → Payment
authorize_columns auth_id payment = record payment {
  authorization_id = some auth_id;
  transaction_id = some auth_id;
  status = authorized;
}

-- the metadata that the row ends with
abbrev pub authorized_meta : PaymentMode → String → A2AMessage → Fields → Fields
authorized_meta mode thread_id message meta =
    let moded = put "payment_mode" (str (mode_value mode)) meta in
    put "a2a_messages" (obj (put message.type (to_dict message) (dict_at "a2a_messages" moded)))
      (put "a2a_thread_id" (str thread_id) moded)

-- the dict that the runner returns
abbrev pub authorize_answer : String → String → PaymentMode → String → A2AMessage → Json
authorize_answer payment_id auth_id mode thread_id message = obj (
    field "success" (bool true) (
      field "payment_id" (str payment_id) (
        field "authorization_id" (str auth_id) (
          field "status" (str "authorized") (
            field "mode" (str (mode_value mode)) (
              field "message" (str "Payment authorized. Waiting for verification to release funds.")
                (field "a2a"
                  (obj (
                    field "thread_id" (str thread_id)
                      (field "authorized_message" (to_dict message) end)))
                  end)))))))

-- what the runner does once the authorization is there
unfoldable pub apply_authorization :
    Env → String → PaymentMode → Payment → Fields → String → Action Json
apply_authorization env payment_id mode payment meta auth_id = do
  assign payment_id (authorize_columns auth_id)
  message ←
      build_payment_authorized_message env (settled payment) payment.from_agent_id
        payment.to_agent_id (thread_of payment payment.meta) auth_id
  assign payment_id λ row. record row {
    meta = authorized_meta mode (thread_of payment payment.meta) message meta;
  }
  publish_message env message ("payment" ∷ "authorized" ∷ [])
  pure (authorize_answer payment_id auth_id mode (thread_of payment payment.meta) message)

-- the inner `_runner`
unfoldable pub authorize_runner : Env → String → PaymentMode → Action Json
authorize_runner env payment_id mode = do
  payment ← payment_row payment_id
  address ← worker_address env payment.meta
  auth_id ←
      authorization env mode
        (payment_request payment address (put "worker_address" (str address) payment.meta))
  apply_authorization env payment_id mode payment (put "worker_address" (str address) payment.meta)
      auth_id

-- `authorize_payment`; its `_build_action_context` also checks the context
unfoldable pub authorize_payment : Env → String → Option ActionPayload → Action Fields
authorize_payment env payment_id payload = do
  task_id ← task_of_payment payment_id
  context ← lift (build_action_context env (some payment_id) task_id authorize payload)
  check (ensure_payment_action_context context)
  run_idempotent_payment_action payment_id context env
      (authorize_runner env payment_id context.mode)
