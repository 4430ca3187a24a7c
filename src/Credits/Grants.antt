-- ===== src/Credits/Grants.antt =====
-- What the webhook of api/routes/credits.py does to the balance of each user.
use mathlib.Core.Option
use synaptica_web.Prelude.{
  ℕ, pos, suc, ◌+◌, String, true, false, ◌≡◌, refl, sym, ap, subst, ◌∙◌, Option, none, some, List,
  [], ◌∷◌, ◌++◌, ◌==◌, arith, Option-cases, inl, inr, eq_refl, if◌then◌else◌,
}
use synaptica_web.Credits.{
  UserCredits, Ledger, Answer, answer, find_user, set_balance, balance_of, new_user,
}
use synaptica_web.Credits.Webhook.{
  Env, Purchase, Prepared, is_processed, prepare, commit_prepared, transfer_hbar, finish, grant,
}
use synaptica_web.Credits.Once.{commit_prepared-processed}
use synaptica_web.Credits.Balances.{balance_of-append, balance_of-rewritten}

-- what a purchase makes of a balance: a user without a row starts at nothing here, and not at the
-- default
abbrev pub credited : ℕ → Option ℕ → ℕ
credited credits none = credits
credited credits (some balance) = balance + credits

transfer_hbar-users :
    (env : Env) (credits : ℕ) (l : Ledger) → (transfer_hbar env credits l).1.users ≡ l.users
unfolding transfer_hbar
transfer_hbar-users env credits l = ground arith

finish-users : (env : Env) (p : Prepared) (l : Ledger) → (finish env p l).users ≡ l.users
unfolding finish
finish-users env p l = transfer_hbar-users env p.credits l

module _ (purchase : Purchase) (credits : ℕ) (l : Ledger) where
  -- a delivery that no other has overtaken
  commit_prepared-balance :
      is_processed purchase.session_id l.transactions ≡ false
      → (l' : Ledger) × (commit_prepared (prepare purchase credits l) l ≡ some l')
        × ((u : String)
            → balance_of u l'.users ≡ (
                if purchase.user_id == u
                then some (credited credits (balance_of purchase.user_id l.users))
                else balance_of u l.users))
  unfolding commit_prepared prepare
  commit_prepared-balance fresh = elim (Option-cases (find_user purchase.user_id l.users)) [
    | inl e ↦ (
      record l {
        users = l.users ++ new_user purchase.user_id credits ∷ [];
        transactions = l.transactions ++ (prepare purchase credits l).transaction ∷ [];
      },
      ground (arith, fresh, e),
      λ u.
          balance_of-append u purchase.user_id credits l.users e
          ∙ ap
              (λ o.
                if purchase.user_id == u
                then some (credited credits (Option.map (λ (r : UserCredits). r.balance) o))
                else balance_of u l.users)
              (sym e),
    )
    | inr (row, e) ↦ (
      record l {
        users = set_balance purchase.user_id (row.balance + credits) l.users;
        transactions = l.transactions ++ (prepare purchase credits l).transaction ∷ [];
      },
      ground (arith, fresh, e),
      λ u.
          balance_of-rewritten u purchase.user_id (row.balance + credits) row.balance l.users
            (ap (Option.map (λ (r : UserCredits). r.balance)) e)
          ∙ ap
              (λ o.
                if purchase.user_id == u
                then some (credited credits (Option.map (λ (r : UserCredits). r.balance) o))
                else balance_of u l.users)
              (sym e),
    )
  ]

module _ (env : Env) where
  granted :
      (purchase : Purchase) (n : ℕ) (l l' : Ledger)
      → is_processed purchase.session_id l.transactions ≡ false
      → env.commit_works ≡ true
      → commit_prepared (prepare purchase (suc n) l) l ≡ some l'
      → grant env purchase (pos (suc n)) l ≡ (answer tt, finish env (prepare purchase (suc n) l) l')
  unfolding grant finish transfer_hbar
  granted purchase n l l' fresh works e = rw fresh (rw works (rw e refl))

  -- A session that is not recorded and has at least one credit adds its credits to the balance of
  -- its user, who has exactly them if there was no row, and changes no other balance, if the
  -- database takes the commit.
  pub grant-balance :
      (purchase : Purchase) (n : ℕ) (l : Ledger) (u : String)
      → is_processed purchase.session_id l.transactions ≡ false
      → env.commit_works ≡ true
      → ((grant env purchase (pos (suc n)) l).0 ≡ answer tt)
        × (balance_of u (grant env purchase (pos (suc n)) l).1.users ≡ (
            if purchase.user_id == u
            then some (credited (suc n) (balance_of purchase.user_id l.users))
            else balance_of u l.users))
  grant-balance purchase n l u fresh works =
      let (l', e, balances) = commit_prepared-balance purchase (suc n) l fresh in
      let same = granted purchase n l l' fresh works e in
      (
        ap (λ x. x.0) same,
        ap (λ (x : Answer (Unit {0}) × Ledger). balance_of u x.1.users) same
            ∙ ap (balance_of u) (finish-users env (prepare purchase (suc n) l) l')
            ∙ balances u,
      )

-- the write of a delivery to a user whose row is there
commit_known :
    (purchase : Purchase) (credits : ℕ) (row : UserCredits) (read l : Ledger)
    → find_user purchase.user_id read.users ≡ some row
    → is_processed purchase.session_id l.transactions ≡ false
    → commit_prepared (prepare purchase credits read) l
      ≡ some (record l {
        users = set_balance purchase.user_id (row.balance + credits) l.users;
        transactions = l.transactions ++ (prepare purchase credits read).transaction ∷ [];
      })
unfolding commit_prepared prepare
commit_known purchase credits row read l e fresh = ground (arith, fresh, e)

-- the balance that was written for the same user
own_balance :
    (u user : String) (value old : ℕ) (users : List UserCredits)
    → user ≡ u
    → balance_of user users ≡ some old
    → balance_of u (set_balance user value users) ≡ some value
own_balance u user value old users same h =
    balance_of-rewritten u user value old users h ∙ rw same (rw (eq_refl u) refl)

-- Two deliveries for one user with a row, of different sessions that are not recorded yet, that
-- have both read the balance before either commits: both commit, and the balance has only the
-- credits of the second.
pub lost_credits :
    (p q : Purchase) (m n : ℕ) (row : UserCredits) (l : Ledger)
    → p.user_id ≡ q.user_id
    → (p.session_id == q.session_id) ≡ false
    → find_user p.user_id l.users ≡ some row
    → is_processed p.session_id l.transactions ≡ false
    → is_processed q.session_id l.transactions ≡ false
    → (l₁ l₂ : Ledger) × (commit_prepared (prepare p m l) l ≡ some l₁)
      × (commit_prepared (prepare q n l) l₁ ≡ some l₂)
      × (balance_of p.user_id l₂.users ≡ some (row.balance + n))
unfolding prepare
lost_credits p q m n row l same differ there fresh fresh' =
    let first = commit_known p m row l l there fresh in
    let unseen : is_processed q.session_id (l.transactions ++ (prepare p m l).transaction ∷ [])
        ≡ false =
      commit_prepared-processed (prepare p m l) q.session_id l first
      ∙ ground (arith, fresh', differ) in
    let written : balance_of q.user_id (set_balance p.user_id (row.balance + m) l.users)
        ≡ some (row.balance + m) =
      own_balance q.user_id p.user_id (row.balance + m) row.balance l.users same
        (ap (Option.map (λ (r : UserCredits). r.balance)) there) in
    (
      _,
      _,
      first,
      commit_known q n row l _ (subst (λ user. find_user user l.users ≡ some row) same there)
          unseen,
      own_balance p.user_id q.user_id (row.balance + n) (row.balance + m) _ (sym same) written,
    )
