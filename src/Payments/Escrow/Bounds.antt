-- ===== src/Payments/Escrow/Bounds.antt =====
-- The terms on which `create_payment` of shared/protocols/x402.py funds an escrow are in bounds.
use synaptica_web.Prelude.{
  ℕ, zero, suc, ℤ, pos, negsuc, ◌+ℤ◌, exceeds, ◌≤◌, String, Bool, false, ◌≡◌, refl, subst, some,
  List, [], ◌∷◌, ◌++◌, any, length, arith, ◌==◌, eq_iff, Bool-cases, inl, inr, Option-cases,
}
use synaptica_web.Json.{Json, Fields, get}
use synaptica_web.Payments.Errors.{value_error, other_error}
use synaptica_web.Payments.Session.{or_raise, Env, EscrowTerms}
use synaptica_web.Payments.Session.Yields.{
  Yields, Yields-bind, Yields-any, Yields-pure, Yields-or_raise, Yields-raise_if,
}
use synaptica_web.Payments.Escrow.{TaskEscrowConfig}
use synaptica_web.Payments.Escrow.Create.{
  PaymentRequest, fee, checksum_verifiers, verifiers_or, resolve_verifiers, some_verifier,
  clamp_approvals, resolve_approvals, resolve_fee_configuration, check_wei, to_wei,
  resolve_worker_address, resolve_terms,
}

-- no text twice
abbrev pub Distinct : List String → Type 0
Distinct [] = Unit
Distinct (x ∷ xs) = (any (λ t. t == x) xs ≡ false) × Distinct xs

any_append :
    (p : String → Bool) (xs ys : List String)
    → any p xs ≡ false
    → any p ys ≡ false
    → any p (xs ++ ys) ≡ false
unfolding any
any_append p [] ys hx hy = hy
any_append p (x ∷ xs) ys hx hy = elim (Bool-cases (p x)) [
  | inl e ↦ absurd (ground arith)
  | inr e ↦ rw e (any_append p xs ys (rw e at hx) hy)
]

Distinct-snoc :
    (x : String) (xs : List String)
    → Distinct xs
    → any (λ t. t == x) xs ≡ false
    → Distinct (xs ++ x ∷ [])
unfolding any
Distinct-snoc x [] d h = (refl, tt)
Distinct-snoc x (y ∷ ys) d h = (
  any_append (λ t. t == y) ys (x ∷ []) d.0 (ground (arith, eq_iff x y, eq_iff y x)),
  Distinct-snoc x ys d.1 (ground arith),
)

checksum_verifiers-Distinct :
    (env : Env) (kept : List String) (addresses : List Json) {verifiers : List String}
    → checksum_verifiers env kept addresses ≡ some verifiers
    → Distinct kept
    → Distinct verifiers
unfolding checksum_verifiers
checksum_verifiers-Distinct env kept [] {verifiers} e d =
    let same : kept ≡ verifiers = ground arith in subst Distinct same d
checksum_verifiers-Distinct env kept (a ∷ rest) e d =
    elim (Option-cases (env.to_checksum_address a)) [
      | inl none_e ↦ absurd (ground arith)
      | inr (checked, some_e) ↦ elim (Bool-cases (any (λ t. t == checked) kept)) [
        | inl seen ↦ checksum_verifiers-Distinct env kept rest (ground arith) d
        | inr fresh ↦
            checksum_verifiers-Distinct env (kept ++ checked ∷ []) rest (ground arith)
              (Distinct-snoc checked kept d fresh)
      ]
    ]

clamp_approvals-bounds :
    (count : ℕ) (approvals : ℤ)
    → 1 ≤ count
    → (1 ≤ clamp_approvals count approvals) × (clamp_approvals count approvals ≤ count)
unfolding clamp_approvals
clamp_approvals-bounds count (negsuc n) h = ground arith
clamp_approvals-bounds count (pos zero) h = ground arith
clamp_approvals-bounds count (pos (suc n)) h = ground arith

check_wei-least : (z : ℤ) {n : ℕ} → check_wei z ≡ some n → 10000000000 ≤ n
unfolding check_wei
check_wei-least (negsuc n) h = absurd (ground arith)
check_wei-least (pos n) h = ground arith

-- what a new escrow keeps to
pub record AreInBounds (terms : EscrowTerms) : Type 0 where
  pub an_approval : 1 ≤ terms.approvals_required
  pub no_more_than_verifiers : terms.approvals_required ≤ length terms.verifier_addresses
  pub distinct_verifiers : Distinct terms.verifier_addresses
  pub fees_within_amount :
      exceeds (terms.marketplace_fee_bps +ℤ terms.verifier_fee_bps) 10000 ≡ false
  pub a_tinybar : 10000000000 ≤ terms.amount_wei

-- fees that do not exceed the amount
abbrev AreFair : (ℤ × ℤ) → Type 0
AreFair fees = exceeds (fees.0 +ℤ fees.1) 10000 ≡ false

-- the verifiers of an escrow
abbrev AreVerifiers : List String → Type 0
AreVerifiers verifiers = Distinct verifiers × (1 ≤ length verifiers)

module _ (env : Env) (config : TaskEscrowConfig) where
  some_verifier-Yields :
      (verifiers : List String) → Distinct verifiers → Yields AreVerifiers (some_verifier verifiers)
  some_verifier-Yields [] d = record { at = λ w. tt }
  some_verifier-Yields (a ∷ rest) d = record { at = λ w. (d, omega arith) }

  resolve_verifiers-Yields :
      (meta : Fields) → Yields AreVerifiers (resolve_verifiers env config meta)
  unfolding resolve_verifiers
  resolve_verifiers-Yields meta =
      Yields-bind {Q = AreVerifiers}
        (Yields-any (
          or_raise (other_error "TypeError")
            (verifiers_or config.marketplace_treasury (get "verifier_addresses" meta))))
        λ addresses _.
          Yields-bind {P = Distinct}
            (Yields-or_raise (other_error "web3") _
              λ verifiers e. checksum_verifiers-Distinct env [] addresses e tt)
            some_verifier-Yields

  resolve_approvals-Yields :
      (meta : Fields) (count : ℕ)
      → 1 ≤ count
      → Yields (λ n. (1 ≤ n) × (n ≤ count)) (resolve_approvals config meta count)
  unfolding resolve_approvals
  resolve_approvals-Yields meta count h =
      Yields-bind (Yields-any _)
        λ approvals _. Yields-pure (clamp_approvals-bounds count approvals h)

  resolve_fee-Yields : (meta : Fields) → Yields AreFair (resolve_fee_configuration config meta)
  unfolding resolve_fee_configuration
  resolve_fee-Yields meta =
      Yields-bind {Q = AreFair}
        (Yields-any (fee meta "marketplace_fee_bps" config.marketplace_fee_bps))
        λ market _.
          Yields-bind {Q = AreFair}
            (Yields-any (fee meta "verifier_fee_bps" config.verifier_fee_bps))
            λ verifier _.
              Yields-bind {Q = AreFair}
                (Yields-raise_if (exceeds (market +ℤ verifier) 10000) (value_error "fees"))
                λ _ fair. Yields-pure {P = AreFair} fair

  to_wei-Yields : (amount : String) → Yields (λ n. 10000000000 ≤ n) (to_wei env amount)
  unfolding to_wei
  to_wei-Yields amount =
      Yields-or_raise (value_error "escrow amount") _ λ n e. check_wei-least (env.wei amount) e

  pub resolve_terms-AreInBounds :
      (request : PaymentRequest) → Yields AreInBounds (resolve_terms env config request)
  unfolding resolve_terms
  resolve_terms-AreInBounds request =
      Yields-bind {Q = AreInBounds} (Yields-any (resolve_worker_address env request)) λ worker _.
        Yields-bind {Q = AreInBounds} (resolve_verifiers-Yields request.metadata) λ verifiers good.
          Yields-bind {Q = AreInBounds}
            (resolve_approvals-Yields request.metadata (length verifiers) good.1)
            λ approvals within.
              Yields-bind {Q = AreInBounds} (resolve_fee-Yields request.metadata) λ fees fair.
                Yields-bind {Q = AreInBounds} (to_wei-Yields request.amount) λ wei least.
                  Yields-pure {P = AreInBounds} (record {
                    an_approval = within.0;
                    no_more_than_verifiers = within.1;
                    distinct_verifiers = good.0;
                    fees_within_amount = fair;
                    a_tinybar = least;
                  })
