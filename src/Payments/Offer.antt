-- ===== src/Payments/Offer.antt =====
-- What `create_payment_request` of agents/negotiator/tools/payment_tools.py puts in a proposal: the
-- addresses, the metadata, the message of shared/protocols/a2a.py, the row and the result.
use Prim.Native.Char.{code}
use synaptica_web.Prelude.{
  zero, ℤ, pos, exceeds, String, Bool, true, false, Option, none, some, List, [], ◌∷◌, length,
  nat_eq, if◌then◌else◌,
}
use synaptica_web.Text.{codes, strip}
use synaptica_web.Json.{Fields, bool, integer, number, str, arr, obj, end, field, put}
use synaptica_web.Payments.Contracts.{mode_value, pending, PaymentActionContext}
use synaptica_web.Payments.Errors.{value_error}
use synaptica_web.Payments.Db.{Payment}
use synaptica_web.Payments.Session.{Env, Action, pure, or_raise, ◌>>=◌}
use synaptica_web.Payments.Messages.{A2AMessage, new_message, to_dict}
use synaptica_web.Payments.Escrow.Create.{items_of}

-- the arguments of the tool
pub record ProposalRequest : Type 0 where
  pub task_id : String
  pub from_agent_id : String
  pub to_agent_id : String
  pub to_hedera_account : String
  pub amount : String
  pub description : String

abbrev pub is_blank : String → Bool
is_blank text = elim (strip (codes text)) [ [] ↦ true | c ∷ s ↦ false ]

-- `text.split(",")`
unfoldable pub split_commas : String → List String
split_commas String.[] = String.[] ∷ []
split_commas (String.◌∷◌ c s) =
    let rest = split_commas s in if nat_eq (code c) b',' then String.[] ∷ rest else onto rest
  where
    onto : List String → List String
    onto [] = (String.◌∷◌ c String.[]) ∷ []
    onto (t ∷ ts) = (String.◌∷◌ c t) ∷ ts

abbrev pub to_evm : Env → String → Action String
to_evm env account = or_raise (value_error "account") (env.to_evm_address account)

-- the loop of `_normalize_verifier_addresses`; `hedera_account_to_evm_address` strips its argument
-- itself
unfoldable pub evm_addresses : Env → List String → Action (List String)
evm_addresses env [] = pure []
evm_addresses env (item ∷ items) =
    let rest = evm_addresses env items in
    if is_blank item
    then rest
    else (do address ← to_evm env item; addresses ← rest; pure (address ∷ addresses))

-- `os.getenv(name, "")`
abbrev pub getenv_text : Env → String → String
getenv_text env name = text_or_empty (env.getenv name)
  where
    text_or_empty : Option String → String
    text_or_empty none = ""
    text_or_empty (some text) = text

abbrev pub treasury_of : Env → String → Action (Option String)
treasury_of env account =
    if is_blank account then pure none else (do address ← to_evm env account; pure (some address))

abbrev or_treasury : List String → Option String → List String
or_treasury [] (some treasury) = treasury ∷ []
or_treasury addresses _ = addresses

-- `_normalize_verifier_addresses`
unfoldable pub normalize_verifier_addresses : Env → Action (List String × Option String)
normalize_verifier_addresses env = do
  addresses ← evm_addresses env (split_commas (getenv_text env "TASK_ESCROW_DEFAULT_VERIFIERS"))
  treasury ← treasury_of env (getenv_text env "TASK_ESCROW_MARKETPLACE_TREASURY")
  pure (or_treasury addresses treasury, treasury)

-- the approvals are cut to the number of verifiers, where there are any
abbrev pub cut_approvals : ℤ → List String → ℤ
cut_approvals approvals [] = approvals
cut_approvals approvals (a ∷ rest) =
    if exceeds approvals (length (a ∷ rest)) then pos (length (a ∷ rest)) else approvals

-- what the proposal is made of, once it is worked out
pub record Proposal : Type 0 where
  pub payment_id : String
  pub thread_id : String
  pub worker_address : String
  pub verifier_addresses : List String
  pub treasury_address : Option String
  pub approvals_required : ℤ
  pub marketplace_fee_bps : ℤ
  pub verifier_fee_bps : ℤ

abbrev treasury_entry : Option String → Fields
treasury_entry none = end
treasury_entry (some address) = field "marketplace_treasury" (str address) end

-- `metadata`
abbrev pub proposal_meta : ProposalRequest → PaymentActionContext → Proposal → Fields
proposal_meta request context p = field "task_id" (str request.task_id) (
    field "description" (str request.description) (
      field "to_hedera_account" (str request.to_hedera_account) (
        field "worker_account_id" (str request.to_hedera_account) (
          field "worker_address" (str p.worker_address) (
            field "verifier_addresses" (arr (items_of p.verifier_addresses)) (
              field "approvals_required" (integer p.approvals_required) (
                field "marketplace_fee_bps" (integer p.marketplace_fee_bps) (
                  field "verifier_fee_bps" (integer p.verifier_fee_bps) (
                    field "a2a_thread_id" (str p.thread_id) (
                      field "payment_mode" (str (mode_value context.mode)) (
                        field "support_tier" (str "supported") (
                          field "proposal_idempotency_key" (str context.idempotency_key) (
                            field "attempt_id" (str context.attempt_id) (
                              field "todo_id" (str context.todo_id)
                                (treasury_entry p.treasury_address)))))))))))))))

-- `approvals_required or 1`
abbrev one_or_more : ℤ → ℤ
one_or_more (pos zero) = pos 1
one_or_more approvals = approvals

-- `build_payment_proposal_message`
unfoldable pub build_payment_proposal_message : Env → ProposalRequest → Proposal → Action A2AMessage
build_payment_proposal_message env request p =
    new_message env "payment/proposal" request.from_agent_id request.to_agent_id p.thread_id (
      field "payment_id" (str p.payment_id) (
        field "task_id" (str request.task_id) (
          field "amount" (str (env.format_amount request.amount)) (
            field "currency" (str "HBAR") (
              field "from_agent" (str request.from_agent_id) (
                field "to_agent" (str request.to_agent_id) (
                  field "verifier_addresses" (arr (items_of p.verifier_addresses)) (
                    field "approvals_required" (integer (one_or_more p.approvals_required)) (
                      field "marketplace_fee_bps" (integer p.marketplace_fee_bps)
                        (field "verifier_fee_bps" (integer p.verifier_fee_bps) end))))))))))

-- the new row
abbrev pub proposed_payment :
    ProposalRequest → PaymentActionContext → Proposal → A2AMessage → Payment
proposed_payment request context p message = record {
  id = p.payment_id;
  task_id = request.task_id;
  from_agent_id = request.from_agent_id;
  to_agent_id = request.to_agent_id;
  amount = request.amount;
  currency = "HBAR";
  status = pending;
  transaction_id = none;
  authorization_id = none;
  completed_at = none;
  meta =
      put "a2a_messages" (obj (field message.type (to_dict message) end))
        (proposal_meta request context p);
}

-- `result`
abbrev pub proposal_result : ProposalRequest → PaymentActionContext → Proposal → A2AMessage → Fields
proposal_result request context p message = field "success" (bool true) (
    field "payment_id" (str p.payment_id) (
      field "task_id" (str request.task_id) (
        field "from_agent" (str request.from_agent_id) (
          field "to_agent" (str request.to_agent_id) (
            field "amount" (number request.amount) (
              field "currency" (str "HBAR") (
                field "status" (str "pending") (
                  field "description" (str request.description) (
                    field "mode" (str (mode_value context.mode)) (
                      field "a2a"
                        (obj (
                          field "thread_id" (str p.thread_id)
                            (field "proposal_message" (to_dict message) end)))
                        end))))))))))
