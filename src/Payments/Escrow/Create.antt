-- ===== src/Payments/Escrow/Create.antt =====
-- `create_payment` of shared/protocols/x402.py: the terms of a new escrow, and the call that funds
-- it.
use synaptica_web.Prelude.{
  not, ℕ, zero, ℤ, pos, negsuc, ◌+ℤ◌, exceeds, String, Bool, true, false, ◌==◌, Option, none, some,
  List, [], ◌∷◌, ◌++◌, any, length, leb, ltb, nat_eq, if◌then◌else◌,
}
use synaptica_web.Json.{
  Json, Items, Fields, integer, str, arr, obj, nil, cons, end, field, get, to_int, is_truthy,
}
use synaptica_web.Payments.Contracts.{PaymentStatus, authorized, failed}
use synaptica_web.Payments.Errors.{value_error, other_error, ok, err}
use synaptica_web.Payments.Db.{Payment}
use synaptica_web.Payments.Session.{
  Env, Action, EscrowTerms, create_escrow, Mined, pure, or_raise, raise_if, now, ◌>>=◌, ◌>>◌,
}
use synaptica_web.Payments.Escrow.{
  TaskEscrowConfig, Receipt, open_x402, escrow_key, send_transaction, thread_entries,
}

-- `PaymentRequest`, the fields that are read
pub record PaymentRequest : Type 0 where
  pub to_account : String
  pub amount : String
  pub payment : Payment
  pub metadata : Fields

abbrev pub items_list : Items → List Json
items_list nil = []
items_list (cons v xs) = v ∷ items_list xs

abbrev pub key_list : Fields → List Json
key_list end = []
key_list (field k v fs) = str k ∷ key_list fs

abbrev pub characters : String → List Json
characters String.[] = []
characters (String.◌∷◌ c s) = str (String.◌∷◌ c String.[]) ∷ characters s

-- what a `for` loop over a value goes through; `none` is the TypeError
unfoldable pub iterated : Json → Option (List Json)
iterated (arr xs) = some (items_list xs)
iterated (str s) = some (characters s)
iterated (obj fs) = some (key_list fs)
iterated _ = none

abbrev member : String → List String → Bool
member s = any (λ t. t == s)

-- the loop of `_resolve_verifiers`, from the addresses kept so far
unfoldable pub checksum_verifiers : Env → List String → List Json → Option (List String)
unfolding any
checksum_verifiers env kept [] = some kept
checksum_verifiers env kept (address ∷ rest) = elim (env.to_checksum_address address) [
  | none ↦ none
  | some checked ↦
      let skipped = checksum_verifiers env kept rest in
      let added = checksum_verifiers env (kept ++ checked ∷ []) rest in
      if member checked kept then skipped else added
]

-- `metadata.get("verifier_addresses") or []`, or the treasury where that is false
unfoldable pub verifiers_or : String → Option Json → Option (List Json)
unfolding iterated
verifiers_or treasury none = some (str treasury ∷ [])
verifiers_or treasury (some v) = if is_truthy v then iterated v else some (str treasury ∷ [])

-- `raise ValueError` on no verifier
abbrev pub some_verifier : List String → Action (List String)
some_verifier [] w = (err (value_error "verifier"), w)
some_verifier (a ∷ rest) w = (ok (a ∷ rest), w)

-- `_resolve_verifiers`
unfoldable pub resolve_verifiers : Env → TaskEscrowConfig → Fields → Action (List String)
resolve_verifiers env config meta = do
  addresses ←
      or_raise (other_error "TypeError")
        (verifiers_or config.marketplace_treasury (get "verifier_addresses" meta))
  verifiers ← or_raise (other_error "web3") (checksum_verifiers env [] addresses)
  some_verifier verifiers

-- `metadata.get("worker_address") or payment_request.to_account`
abbrev worker_or : String → Option Json → Json
worker_or account none = str account
worker_or account (some v) = if is_truthy v then v else str account

-- `_resolve_worker_address`
unfoldable pub resolve_worker_address : Env → PaymentRequest → Action String
resolve_worker_address env request = do
  worker ← pure (worker_or request.to_account (get "worker_address" request.metadata))
  raise_if (not (is_truthy worker)) (value_error "worker address")
  or_raise (other_error "web3") (env.to_checksum_address worker)

-- the number of approvals, brought between 1 and the number of verifiers
unfoldable pub clamp_approvals : ℕ → ℤ → ℕ
clamp_approvals count (negsuc n) = if leb 1 count then 1 else count
clamp_approvals count (pos zero) = if leb 1 count then 1 else count
clamp_approvals count (pos n) = if leb n count then n else count

-- `metadata.get("approvals_required") or self.default_approvals`
abbrev pub approvals_or : ℤ → Option Json → Json
approvals_or default none = integer default
approvals_or default (some value) = if is_truthy value then value else integer default

-- `_resolve_approvals`
unfoldable pub resolve_approvals : TaskEscrowConfig → Fields → ℕ → Action ℕ
resolve_approvals config meta count = do
  approvals ←
      or_raise (value_error "approvals")
        (to_int (approvals_or config.default_approvals (get "approvals_required" meta)))
  pure (clamp_approvals count approvals)

-- `int(metadata.get(name, default))`
abbrev pub fee : Fields → String → ℤ → Action ℤ
fee meta name default = or_raise (value_error name) (given (get name meta))
  where
    given : Option Json → Option ℤ
    given none = some default
    given (some value) = to_int value

-- `_resolve_fee_configuration`
unfoldable pub resolve_fee_configuration : TaskEscrowConfig → Fields → Action (ℤ × ℤ)
resolve_fee_configuration config meta = do
  marketplace_fee ← fee meta "marketplace_fee_bps" config.marketplace_fee_bps
  verifier_fee ← fee meta "verifier_fee_bps" config.verifier_fee_bps
  raise_if (exceeds (marketplace_fee +ℤ verifier_fee) 10000) (value_error "fees")
  pure (marketplace_fee, verifier_fee)

-- `_to_wei`, after the multiplication; the least value is one tinybar
unfoldable pub check_wei : ℤ → Option ℕ
check_wei (negsuc n) = none
check_wei (pos n) = if nat_eq n 0 then none else if ltb n 10000000000 then none else some n

unfoldable pub to_wei : Env → String → Action ℕ
to_wei env amount = or_raise (value_error "escrow amount") (check_wei (env.wei amount))

-- the terms that `create_payment` works out, in its order
unfoldable pub resolve_terms : Env → TaskEscrowConfig → PaymentRequest → Action EscrowTerms
resolve_terms env config request = do
  worker_address ← resolve_worker_address env request
  verifiers ← resolve_verifiers env config request.metadata
  approvals_required ← resolve_approvals config request.metadata (length verifiers)
  fees ← resolve_fee_configuration config request.metadata
  amount_wei ← to_wei env request.amount
  pure (record {
    worker_address = worker_address;
    verifier_addresses = verifiers;
    approvals_required = approvals_required;
    marketplace_fee_bps = fees.0;
    verifier_fee_bps = fees.1;
    amount_wei = amount_wei;
  })

abbrev pub items_of : List String → Items
items_of [] = nil
items_of (s ∷ ss) = cons (str s) (items_of ss)

-- the metadata of the receipt
abbrev creation_details : Env → PaymentRequest → EscrowTerms → Mined → Fields
creation_details env request terms receipt =
    field "task_id" (str (env.task_id_hex (escrow_key request.payment))) (
      field "transaction_hash" (str receipt.transaction_hash) (
        field "approvals_required" (integer (pos terms.approvals_required)) (
          field "marketplace_fee_bps" (integer terms.marketplace_fee_bps) (
            field "verifier_fee_bps" (integer terms.verifier_fee_bps) (
              field "verifiers" (arr (items_of terms.verifier_addresses)) (
                field "worker_address" (str terms.worker_address) (
                  field "block_number" receipt.block_number (
                    field "gas_used" receipt.gas_used (
                      field "amount_wei" (integer (pos terms.amount_wei))
                        (thread_entries "payment/authorized" request.metadata))))))))))

abbrev pub creation_status : Bool → PaymentStatus
creation_status true = authorized
creation_status false = failed

-- `create_payment`
unfoldable pub create_payment : Env → TaskEscrowConfig → PaymentRequest → Action Receipt
create_payment env config request = do
  terms ← resolve_terms env config request
  receipt ← send_transaction env (create_escrow (escrow_key request.payment) terms)
  timestamp ← now env
  pure (record {
    transaction_id = receipt.transaction_hash;
    status = creation_status receipt.succeeded;
    timestamp = timestamp;
    metadata = creation_details env request terms receipt;
  })

-- `X402Payment(get_hedera_client()).authorize_payment(request)`
unfoldable pub authorize_with_x402 : Env → PaymentRequest → Action String
authorize_with_x402 env request = do
  config ← open_x402 env
  receipt ← create_payment env config request
  pure receipt.transaction_id
