-- ===== src/Research/Policy/Readback.antt =====
-- How a policy is read back from where it is stored, and the counts of rounds that some results have.
use synaptica_web.Prelude.{
  ℕ, zero, suc, ◌≤◌, ℤ, pos, negsuc, some, List, [], ◌∷◌, ◌≡◌, refl, arith, ltb, at_least, subst,
  Option-cases, Bool-cases, inl, inr, ◌⊎◌, ◌∙◌, All, any, leb, true,
}
use synaptica_web.Json.{Json, Fields, obj, field, end, get, to_int}
use synaptica_web.Research.Policy.{
  clamp_attempts, policy_attempts, policy_of, build_run_policy, get_run_policy, flag,
  resolve_max_node_attempts,
}
use synaptica_web.Research.Policy.Rounds.{
  Rounds, coerce_rounds, validate_rounds, from_payload, dump_rounds, add_rounds, merge_from,
  merge_rounds_completed,
}

clamp-within : (z : ℤ) → (1 ≤ clamp_attempts z) × (clamp_attempts z ≤ 5)
clamp-within (pos n) = ground arith
clamp-within (negsuc n) = ground arith

pub attempts-within : (v : Json) (n : ℕ) → policy_attempts v ≡ some n → (1 ≤ n) × (n ≤ 5)
unfolding policy_attempts
attempts-within v n e = elim (Option-cases (to_int v)) [
  | inl bad ↦ ground arith
  | inr (z, good) ↦ ground (arith, clamp-within z)
]

pub policy_max : (n : ℕ) → 1 ≤ n → resolve_max_node_attempts end (policy_of n) ≡ some n
unfolding resolve_max_node_attempts policy_of get to_int
policy_max zero h = absurd (omega arith)
policy_max (suc n) h = ground arith

policy_stored :
    (n : ℕ) (meta : Fields)
    → (get_run_policy (field "policy" (obj (policy_of n)) meta) ≡ some (policy_of n))
      × (flag "reroute_on_failure" (policy_of n) ≡ ltb 1 n)
unfolding get_run_policy policy_of get
policy_stored n meta = (refl, refl)

-- A policy that `_build_run_policy` makes allows between one attempt and five: `_get_run_policy` reads
-- it back from the metadata under which it is stored, `_resolve_max_node_attempts` answers with its
-- number of attempts for a node without a parameter of its own, and a retry goes to another agent
-- just where that number is more than one.
pub policy_readback :
    (v : Json) (p meta : Fields)
    → build_run_policy v ≡ some p
    → (n : ℕ) × (1 ≤ n)
      × (n ≤ 5)
      × (get_run_policy (field "policy" (obj p) meta) ≡ some p)
      × (resolve_max_node_attempts end p ≡ some n)
      × (flag "reroute_on_failure" p ≡ ltb 1 n)
unfolding build_run_policy
policy_readback v p meta e = elim (Option-cases (policy_attempts v)) [
  | inl bad ↦ ground arith
  | inr (n, good) ↦
      let (lo, hi) = attempts-within v n good in
      let made : policy_of n ≡ p = ground arith in
      let (stored, reroute) = policy_stored n meta in
      (
        n,
        lo,
        hi,
        subst (λ q. get_run_policy (field "policy" (obj q) meta) ≡ some q) made stored,
        subst (λ q. resolve_max_node_attempts end q ≡ some n) made (policy_max n lo),
        subst (λ q. flag "reroute_on_failure" q ≡ ltb 1 n) made reroute,
      )
]

-- the count of a payload, which is not below 0 in a merge
abbrev pub count : (Rounds → ℤ) → Json → ℕ
count f p = at_least 0 (f (from_payload p))

-- no payload has a larger count, and one has as large a count, or it is the first
abbrev pub Above : (Rounds → ℤ) → ℕ → ℕ → List Json → Type 0
Above f a c payloads =
    (a ≤ c)
    × All (λ p. count f p ≤ c) payloads
    × ((c ≡ a) ⊎ (any (λ p. leb c (count f p)) payloads ≡ true))

larger_of : (a : ℕ) (z : ℤ) → (at_least a z ≡ a) ⊎ (at_least a z ≡ at_least 0 z)
larger_of a (pos n) = elim (Bool-cases (leb a n)) [
  | inl e ↦ inr (ground arith)
  | inr e ↦ inl (ground arith)
]
larger_of a (negsuc n) = inl (ground arith)

at_least-least : (a : ℕ) (z : ℤ) → (a ≤ at_least a z) × (at_least 0 z ≤ at_least a z)
at_least-least a (pos n) = (ground arith, ground arith)
at_least-least a (negsuc n) = (ground arith, ground arith)

Above-cons :
    (f : Rounds → ℤ) (a c : ℕ) (p : Json) (payloads : List Json)
    → Above f (at_least a (f (from_payload p))) c payloads
    → Above f a c (p ∷ payloads)
unfolding any
Above-cons f a c p payloads h =
    let (up, over) = at_least-least a (f (from_payload p)) in
    (omega (arith, up, h.0), (omega (arith, over, h.0), h.1), reached)
  where
    reached : (c ≡ a) ⊎ (any (λ q. leb c (count f q)) (p ∷ payloads) ≡ true)
    reached = elim h.2 [
      | inr later ↦ inr (ground (arith, later))
      | inl e ↦ elim (larger_of a (f (from_payload p))) [
        | inl old ↦ inl (e ∙ old)
        | inr new ↦ inr (ground (arith, e, new))
      ]
    ]

merge_from-Above :
    (a b : ℕ) (payloads : List Json)
    → (c : ℕ) × (d : ℕ) × (merge_from
          (record { evidence_rounds = pos a; critique_rounds = pos b })
          payloads
        ≡ record { evidence_rounds = pos c; critique_rounds = pos d })
      × Above (λ r. r.evidence_rounds) a c payloads
      × Above (λ r. r.critique_rounds) b d payloads
unfolding merge_from add_rounds any
merge_from-Above a b [] = (a, b, refl, (omega arith, tt, inl refl), (omega arith, tt, inl refl))
merge_from-Above a b (p ∷ payloads) =
    let (c, d, e, h, k) =
      merge_from-Above (at_least a (from_payload p).evidence_rounds)
        (at_least b (from_payload p).critique_rounds) payloads in
    (
      c,
      d,
      e,
      Above-cons (λ r. r.evidence_rounds) a c p payloads h,
      Above-cons (λ r. r.critique_rounds) b d p payloads k,
    )

stored :
    (c d : ℕ) (fs : Fields)
    → from_payload (
        obj (
          field "rounds_completed"
            (dump_rounds (record { evidence_rounds = pos c; critique_rounds = pos d }))
            fs))
      ≡ record { evidence_rounds = pos c; critique_rounds = pos d }
unfolding from_payload validate_rounds coerce_rounds dump_rounds get to_int
stored c d fs = ground arith

-- Each of the two counts of rounds that merging some results gives is the largest of the counts of the
-- results, or 0 where they have none above it: no result has a larger one, and it is 0 or that of a
-- result. From where the counts are stored, under `rounds_completed`, they are read back as they were.
pub merge_rounds_largest :
    (payloads : List Json) (fs : Fields)
    → (c : ℕ) × (d : ℕ) × (merge_rounds_completed payloads
        ≡ record { evidence_rounds = pos c; critique_rounds = pos d })
      × Above (λ r. r.evidence_rounds) 0 c payloads
      × Above (λ r. r.critique_rounds) 0 d payloads
      × (from_payload
            (obj (field "rounds_completed" (dump_rounds (merge_rounds_completed payloads)) fs))
          ≡ merge_rounds_completed payloads)
unfolding merge_rounds_completed
merge_rounds_largest payloads fs =
    let (c, d, e, h, k) = merge_from-Above 0 0 payloads in (c, d, e, h, k, rw e (stored c d fs))
