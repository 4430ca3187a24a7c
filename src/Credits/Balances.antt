-- ===== src/Credits/Balances.antt =====
-- What the handlers of api/routes/credits.py do to the balance of each user.
use mathlib.Core.Option
use synaptica_web.Prelude.{
  ℕ, ◌-◌, String, Bool, true, false, ◌≡◌, refl, sym, ap, ◌∙◌, Option, none, some, List, [], ◌∷◌,
  ◌++◌, ◌==◌, find, arith, Option-cases, inl, inr, eq_iff, if◌then◌else◌,
}
use synaptica_web.Credits.{
  UserCredits, Ledger, default_credits, find_user, set_balance, balance_of, new_user,
  deduct_credits,
}

abbrev pub given : ℕ → Option ℕ → Option ℕ
given value none = none
given value (some old) = some value

balance_of-set_balance :
    (u user : String) (value : ℕ) (users : List UserCredits)
    → balance_of u (set_balance user value users)
      ≡ (if user == u then given value (balance_of u users) else balance_of u users)
unfolding find_user set_balance find
balance_of-set_balance u user value [] = ground arith
balance_of-set_balance u user value (row ∷ rows) = ground (
  arith,
  balance_of-set_balance u user value rows,
  eq_iff user u,
  eq_iff row.user_id u,
  eq_iff row.user_id user,
)

pub balance_of-append :
    (u user : String) (balance : ℕ) (users : List UserCredits)
    → find_user user users ≡ none
    → balance_of u (users ++ new_user user balance ∷ [])
      ≡ (if user == u then some balance else balance_of u users)
unfolding find_user find
balance_of-append u user balance [] h = ground arith
balance_of-append u user balance (row ∷ rows) h = ground (
  arith,
  balance_of-append u user balance rows,
  eq_iff user u,
  eq_iff row.user_id u,
  eq_iff row.user_id user,
)

-- the balance that a request works from: a user without a row has the default
abbrev pub known_balance : Option ℕ → ℕ
known_balance none = default_credits
known_balance (some balance) = balance

-- a rewritten balance, for a user who has one
pub balance_of-rewritten :
    (u user : String) (value old : ℕ) (users : List UserCredits)
    → balance_of user users ≡ some old
    → balance_of u (set_balance user value users)
      ≡ (if user == u then some value else balance_of u users)
balance_of-rewritten u user value old users h =
    balance_of-set_balance u user value users ∙ by_test (user == u) refl
  where
    by_test :
        (b : Bool)
        → (user == u) ≡ b
        → (if b then given value (balance_of u users) else balance_of u users)
          ≡ (if b then some value else balance_of u users)
    by_test true e = ap (given value) (ap (λ x. balance_of x users) (sym ((eq_iff user u).0 e)) ∙ h)
    by_test false e = refl

module _ (user : String) (amount : ℕ) (l : Ledger) where
  deduct_new :
      find_user user l.users ≡ none
      → deduct_credits user amount l ≡ (
        default_credits - amount,
        record l { users = l.users ++ new_user user (default_credits - amount) ∷ [] },
      )
  unfolding deduct_credits
  deduct_new e = rw (e, deduct_credits) refl

  deduct_known :
      (row : UserCredits)
      → find_user user l.users ≡ some row
      → deduct_credits user amount l ≡ (
        row.balance - amount,
        record l { users = set_balance user (row.balance - amount) l.users },
      )
  unfolding deduct_credits
  deduct_known row e = rw (e, deduct_credits) refl

-- A deduction takes the amount from the user's balance, or what there is of it, starting a new
-- user at the default, answers what is left, and changes no other balance.
pub deduct_credits-balance :
    (user u : String) (amount : ℕ) (l : Ledger)
    → ((deduct_credits user amount l).0 ≡ known_balance (balance_of user l.users) - amount)
      × (balance_of u (deduct_credits user amount l).1.users ≡ (
          if user == u
          then some (known_balance (balance_of user l.users) - amount)
          else balance_of u l.users))
deduct_credits-balance user u amount l = elim (Option-cases (find_user user l.users)) [
  | inl e ↦
      let known : default_credits ≡ known_balance (balance_of user l.users) =
        sym (ap (λ o. known_balance (Option.map (λ (r : UserCredits). r.balance) o)) e) in
      (
        ap (λ p. p.0) (deduct_new user amount l e) ∙ ap (λ k. k - amount) known,
        ap (λ (p : ℕ × Ledger). balance_of u p.1.users) (deduct_new user amount l e)
            ∙ balance_of-append u user (default_credits - amount) l.users e
            ∙ ap (λ k. if user == u then some (k - amount) else balance_of u l.users) known,
      )
  | inr (row, e) ↦
      let there : balance_of user l.users ≡ some row.balance =
        ap (Option.map (λ (r : UserCredits). r.balance)) e in
      let known : row.balance ≡ known_balance (balance_of user l.users) =
        sym (ap known_balance there) in
      (
        ap (λ p. p.0) (deduct_known user amount l row e) ∙ ap (λ k. k - amount) known,
        ap (λ (p : ℕ × Ledger). balance_of u p.1.users) (deduct_known user amount l row e)
            ∙ balance_of-rewritten u user (row.balance - amount) row.balance l.users there
            ∙ ap (λ k. if user == u then some (k - amount) else balance_of u l.users) known,
      )
]
