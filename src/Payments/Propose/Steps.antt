-- ===== src/Payments/Propose/Steps.antt =====
-- The steps of `create_payment_request` (agents/negotiator/tools/payment_tools.py) before it writes.
use synaptica_web.Prelude.{
  not, ◌&&◌, pos, Bool, true, false, suc, if◌then◌else◌, String, ◌≡◌, refl, subst, Option, none,
  some, List, [], ◌∷◌,
}
use synaptica_web.Payments.Contracts.{PaymentActionContext}
use synaptica_web.Payments.Errors.{payment_mode_error, value_error, Error}
use synaptica_web.Payments.Db.{Transition}
use synaptica_web.Payments.Session.{Env, World, Action, raise_if, new_uuid, now, OnOk, ◌>>=◌}
use synaptica_web.Payments.Session.Leaves.{
  Leaves, leaves_rules, OnOk-after, Leaves-raise_if, Leaves-or_raise, Leaves-bind, Leaves-pure,
}
use synaptica_web.Payments.Session.Yields.{Yields, Yields-bind, Yields-any, Yields-pure}
use synaptica_web.Payments.Service.{validate_payment_mode}
use synaptica_web.Payments.Run.{check}
use synaptica_web.Payments.Messages.{new_message}
use synaptica_web.Payments.Escrow.{env_int}
use synaptica_web.Payments.Offer.{
  ProposalRequest, Proposal, build_payment_proposal_message, is_blank, to_evm, getenv_text,
  treasury_of, evm_addresses, normalize_verifier_addresses,
}
use synaptica_web.Payments.Propose.{work_out, is_offline}

-- the steps that write no state at all
module _ {C : Type 0} {part : World → C} (env : Env) where
  check-Leaves : (o : Option Error) → Leaves part (check o)
  check-Leaves none = record { at = λ w. refl }
  check-Leaves (some e) = record { at = λ w. refl }

  Leaves-if :
      {A : Type 0} (b : Bool) {m n : Action A}
      → Leaves part m
      → Leaves part n
      → Leaves part (if b then m else n)
  Leaves-if true hm hn = hm
  Leaves-if false hm hn = hn

  evm_addresses-Leaves : (items : List String) → Leaves part (evm_addresses env items)
  unfolding evm_addresses
  evm_addresses-Leaves [] = search leaves_rules
  evm_addresses-Leaves (item ∷ items) = Leaves-if (is_blank item) (evm_addresses-Leaves items) (
      Leaves-bind _ _ (Leaves-or_raise _ _)
        λ address. Leaves-bind _ _ (evm_addresses-Leaves items) λ addresses. Leaves-pure _)

  treasury_of-Leaves : (account : String) → Leaves part (treasury_of env account)
  treasury_of-Leaves account =
      Leaves-if (is_blank account) (search leaves_rules) (search leaves_rules)

  normalize-Leaves : Leaves part (normalize_verifier_addresses env)
  unfolding normalize_verifier_addresses
  normalize-Leaves = search (leaves_rules, evm_addresses-Leaves, treasury_of-Leaves)

-- the next uuid names the payment of the proposal
pub record IsNamed (env : Env) (m : Action Proposal) : Type 0 where
  pub at : (w : World) → OnOk (λ p _. p.payment_id ≡ env.uuid4 w.uuids) (m w)

after-IsNamed :
    {A : Type 0} (env : Env) (m : Action A) (f : A → Action Proposal)
    → Leaves (λ w. w.uuids) m
    → ((a : A) → IsNamed env (f a))
    → IsNamed env (m >>= f)
after-IsNamed env m f kept h = record {
  at = λ w.
      OnOk-after {part = λ x. x.uuids} (λ p _. p.payment_id ≡ env.uuid4 w.uuids) m f w kept
        λ a u same. subst (λ n. OnOk (λ p _. p.payment_id ≡ env.uuid4 n) (f a u)) same ((h a).at u);
}

-- the transitions that the session sees
abbrev pub session_rows : World → List Transition
session_rows w = w.db.transitions

module _ (env : Env) (request : ProposalRequest) (context : PaymentActionContext) where
  uuid-session_rows : Leaves session_rows (new_uuid env)
  unfolding new_uuid
  uuid-session_rows = record { at = λ w. refl }

  now-session_rows : Leaves session_rows (now env)
  unfolding now
  now-session_rows = record { at = λ w. refl }

  pub work_out-session_rows : Leaves session_rows (work_out env request context)
  unfolding work_out
  work_out-session_rows =
      search (leaves_rules, check-Leaves env, normalize-Leaves env, uuid-session_rows) depth 14

  pub message-session_rows :
      (p : Proposal) → Leaves session_rows (build_payment_proposal_message env request p)
  unfolding build_payment_proposal_message new_message
  message-session_rows p = search (leaves_rules, uuid-session_rows, now-session_rows)

  uuid-IsNamed :
      (f : String → Action Proposal)
      → ((id : String) → Yields (λ p. p.payment_id ≡ id) (f id))
      → IsNamed env (new_uuid env >>= f)
  unfolding new_uuid
  uuid-IsNamed f h = record {
    at = λ w. (h (env.uuid4 w.uuids)).at (record w { uuids = suc w.uuids });
  }

  -- the next uuid names the payment
  pub work_out-IsNamed : IsNamed env (work_out env request context)
  unfolding work_out
  work_out-IsNamed =
      after-IsNamed env (check (validate_payment_mode env context.mode)) _ (check-Leaves env _) λ _.
        after-IsNamed env
          (raise_if
            (not (is_offline context.mode) && is_blank (getenv_text env "HEDERA_ACCOUNT_ID"))
            (payment_mode_error "HEDERA_ACCOUNT_ID"))
          _ (Leaves-raise_if _ _)
          λ _.
            after-IsNamed env
              (raise_if (is_blank request.to_hedera_account)
                (value_error "Payee Hedera account is required"))
              _ (Leaves-raise_if _ _)
              λ _.
                after-IsNamed env (to_evm env request.to_hedera_account) _ (Leaves-or_raise _ _)
                  λ address.
                    after-IsNamed env (normalize_verifier_addresses env) _ (normalize-Leaves env)
                      λ verifiers.
                        after-IsNamed env (env_int env "TASK_ESCROW_DEFAULT_APPROVALS" (pos 1)) _
                          (Leaves-or_raise _ _)
                          λ approvals. uuid-IsNamed _ λ id.
                            Yields-bind {Q = λ p. p.payment_id ≡ id}
                              (Yields-any (env_int env "TASK_ESCROW_MARKETPLACE_FEE_BPS" (pos 0)))
                              λ market _.
                                Yields-bind {Q = λ p. p.payment_id ≡ id}
                                  (Yields-any (env_int env "TASK_ESCROW_VERIFIER_FEE_BPS" (pos 0)))
                                  λ verifier _. Yields-pure {P = λ p. p.payment_id ≡ id} refl
