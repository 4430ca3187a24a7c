-- ===== src/Payments/Escrow/Funded.antt =====
-- What `authorize_payment` of `X402Payment` (shared/protocols/x402.py) sends to the escrow contract.
use synaptica_web.Prelude.{String, ◌≡◌, refl, sym, ap, subst, ◌∙◌, List, [], ◌∷◌, arith}
use synaptica_web.Payments.Errors.{Result, ok}
use synaptica_web.Payments.Session.{
  now, Env, World, Action, EscrowTerms, ChainCall, create_escrow, Mined, mined, unsent, lost,
  Delivery, OnOk, OnOk-bind, OnOk-eq,
}
use synaptica_web.Payments.Session.Leaves.{Leaves, leaves_rules}
use synaptica_web.Payments.Session.Yields.{Yields-eq}
use synaptica_web.Payments.Escrow.{
  deliver, load, TaskEscrowConfig, open_x402, escrow_key, send_transaction,
}
use synaptica_web.Payments.Escrow.Create.{
  PaymentRequest, resolve_verifiers, some_verifier, resolve_approvals, resolve_fee_configuration,
  to_wei, resolve_worker_address, resolve_terms, create_payment, authorize_with_x402,
}
use synaptica_web.Payments.Escrow.Bounds.{AreInBounds, resolve_terms-AreInBounds}

-- no transaction is sent
abbrev Silent : {A : Type 0} → Action A → Type 0
Silent m = Leaves (λ w. w.calls) m

some_verifier-Silent : (verifiers : List String) → Silent (some_verifier verifiers)
some_verifier-Silent [] = record { at = λ w. refl }
some_verifier-Silent (a ∷ rest) = record { at = λ w. refl }

module _ (env : Env) where
  open_x402-Silent : Silent (open_x402 env)
  unfolding open_x402 load
  open_x402-Silent = search leaves_rules depth 9

  resolve_terms-Silent :
      (config : TaskEscrowConfig) (request : PaymentRequest)
      → Silent (resolve_terms env config request)
  unfolding resolve_terms resolve_worker_address resolve_verifiers resolve_approvals
      resolve_fee_configuration to_wei
  resolve_terms-Silent config request = search (leaves_rules, some_verifier-Silent) depth 16

  deliver_sent :
      (d : Delivery) (call : ChainCall)
      → (w : World) {receipt : Mined} {u : World} → deliver d call w ≡ (ok receipt, u)
      → u.calls ≡ call ∷ w.calls
  deliver_sent unsent call w h = absurd (ground arith)
  deliver_sent lost call w h = absurd (ground arith)
  deliver_sent (mined m) call w h = ground arith

  -- what an authorization has sent
  abbrev pub Funded : PaymentRequest → List ChainCall → World → Type 0
  Funded request before w =
      (terms : EscrowTerms) × AreInBounds terms
      × (w.calls ≡ create_escrow (escrow_key request.payment) terms ∷ before)

  create_payment-Funded :
      (config : TaskEscrowConfig) (request : PaymentRequest) (w : World)
      → OnOk (λ _ v. Funded request w.calls v) (create_payment env config request w)
  unfolding create_payment send_transaction now
  create_payment-Funded config request w =
      OnOk-bind (λ _ v. Funded request w.calls v) (resolve_terms env config request) _ w
        λ terms u e.
          OnOk-bind (λ _ v. Funded request w.calls v)
            (send_transaction env (create_escrow (escrow_key request.payment) terms)) _ u
            λ receipt u' e'. (
              terms,
              Yields-eq (resolve_terms-AreInBounds env config request) e,
              deliver_sent (env.send_transaction u.calls _) _ u e'
                  ∙ ap (λ cs. create_escrow (escrow_key request.payment) terms ∷ cs)
                      (sym (ap (λ (p : Result EscrowTerms × World). p.1.calls) e)
                        ∙ (resolve_terms-Silent config request).at w),
            )

  -- An authorization that returns has sent one transaction, which funds the escrow of the payment
  -- on terms in bounds: at least one approval and no more than there are verifiers, no verifier
  -- twice, fees of at most the whole amount, and at least one tinybar.
  pub authorize_with_x402-Funded :
      (request : PaymentRequest) (w v : World) (transaction_id : String)
      → authorize_with_x402 env request w ≡ (ok transaction_id, v)
      → Funded request w.calls v
  unfolding authorize_with_x402
  authorize_with_x402-Funded request w v transaction_id h =
      OnOk-eq (λ _ v. Funded request w.calls v) _ h
        (OnOk-bind (λ _ v. Funded request w.calls v) (open_x402 env) _ w
          λ config u e.
            OnOk-bind (λ _ v. Funded request w.calls v) (create_payment env config request) _ u
              λ receipt u' e'.
                subst (λ before. Funded request before u')
                  (sym (ap (λ (p : Result TaskEscrowConfig × World). p.1.calls) e)
                    ∙ open_x402-Silent.at w)
                  (OnOk-eq (λ _ v. Funded request u.calls v) _ e'
                    (create_payment-Funded config request u)))
