-- ===== src/Payments/Db/Find.antt =====
-- What a query finds after a row was rewritten or added.
use synaptica_web.Prelude.{
  Bool, true, false, ◌≡◌, refl, Option, none, some, List, [], ◌∷◌, ◌++◌, find, arith, Bool-cases,
  inl, inr,
}
use synaptica_web.Payments.Db.{update}

abbrev pub map_option {ℓ} : {A : Type ℓ} → (A → A) → Option A → Option A
map_option f none = none
map_option f (some x) = some (f x)

module _ {ℓ} {A : Type ℓ} (p : A → Bool) (f : A → A) where
  -- the row that the rewrite reaches, where the rewrite leaves the tested columns alone
  pub find-update_self :
      ((x : A) → p (f x) ≡ p x) → (xs : List A) → find p (update p f xs) ≡ map_option f (find p xs)
  unfolding find update
  find-update_self keeps [] = refl
  find-update_self keeps (x ∷ xs) = elim (Bool-cases (p x)) [
    | inl e ↦ rw (e, keeps x, e) refl
    | inr e ↦ rw (e, e) (find-update_self keeps xs)
  ]

  -- a query that passes the same rows before and after the rewrite, and none that is rewritten
  pub find-update_ne :
      (q : A → Bool)
      → ((x : A) → p x ≡ true → q x ≡ false)
      → ((x : A) → p x ≡ true → q (f x) ≡ false)
      → (xs : List A) → find q (update p f xs) ≡ find q xs
  unfolding find update
  find-update_ne q before after [] = refl
  find-update_ne q before after (x ∷ xs) = elim (Bool-cases (p x)) [
    | inl e ↦ rw (e, before x e, after x e) refl
    | inr e ↦ rw e (ground (arith, find-update_ne q before after xs))
  ]

module _ {ℓ} {A : Type ℓ} (p : A → Bool) where
  pub find-append_none :
      (xs : List A) (y : A) → find p xs ≡ none → find p (xs ++ y ∷ []) ≡ find p (y ∷ [])
  unfolding find
  find-append_none [] y h = refl
  find-append_none (x ∷ xs) y h = elim (Bool-cases (p x)) [
    | inl e ↦ ground arith
    | inr e ↦ rw e (find-append_none xs y (ground arith))
  ]

  pub find-append_some : (xs ys : List A) (x : A) → find p xs ≡ some x → find p (xs ++ ys) ≡ some x
  unfolding find
  find-append_some [] ys x h = ground arith
  find-append_some (z ∷ xs) ys x h = elim (Bool-cases (p z)) [
    | inl e ↦ rw e (ground arith)
    | inr e ↦ rw e (find-append_some xs ys x (ground arith))
  ]

  -- what is found passes the test
  pub find_sound : (xs : List A) (x : A) → find p xs ≡ some x → p x ≡ true
  unfolding find
  find_sound [] x h = ground arith
  find_sound (z ∷ xs) x h = elim (Bool-cases (p z)) [
    | inl e ↦ ground arith
    | inr e ↦ find_sound xs x (ground arith)
  ]
