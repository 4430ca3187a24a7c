-- ===== src/Research/Evidence/Keys.antt =====
-- The keys of artifacts, and the order in which artifacts are kept and rise in status.
use mathlib.Core.Logic.{◌≢◌}
use synaptica_web.Prelude.{
  ℕ, ◌≤◌, String, true, false, any, none, List, [], ◌∷◌, ◌++◌, ◌==◌, ◌≡◌, refl, find, All, Unique,
  arith, eq_iff, sym, ap, All-append,
}
use synaptica_web.Research.Evidence.{
  Source, CurationStatus, EvidenceArtifact, Library, artifact_status_rank, with_key,
}
use synaptica_web.Research.Evidence.Upsert.{fill_artifact, keys, is_unique}

abbrev pub rank : EvidenceArtifact → ℕ
rank a = artifact_status_rank a.curation_status

-- the artifacts of before are the first of those of after, and rank no lower
abbrev pub Rises : List EvidenceArtifact → List EvidenceArtifact → Type 0
Rises [] ys = Unit
Rises (a ∷ xs) [] = ¬ Unit
Rises (a ∷ xs) (b ∷ ys) = (rank a ≤ rank b) × Rises xs ys

pub Rises-trans : (xs ys zs : List EvidenceArtifact) → Rises xs ys → Rises ys zs → Rises xs zs
Rises-trans [] ys zs h k = tt
Rises-trans (a ∷ xs) [] zs h k = absurd (h tt)
Rises-trans (a ∷ xs) (b ∷ ys) [] h k = absurd (k tt)
Rises-trans (a ∷ xs) (b ∷ ys) (c ∷ zs) h k = (omega (arith, h.0, k.0), Rises-trans xs ys zs h.1 k.1)

pub Rises-append : (xs ys : List EvidenceArtifact) → Rises xs (xs ++ ys)
Rises-append [] ys = tt
Rises-append (a ∷ xs) ys = (omega arith, Rises-append xs ys)

pub fill-rank :
    (lib : Library) (source : Source) (n : String) (status : CurationStatus) (order : ℕ)
    (a : EvidenceArtifact)
    → rank a ≤ rank (fill_artifact lib source n status order a)
unfolding fill_artifact
fill-rank lib source n status order a = ground arith

-- a key that is not found is not there
pub absent :
    (k : String) (xs : List EvidenceArtifact) → with_key k xs ≡ none → All (λ m. k ≢ m) (keys xs)
unfolding find
absent k [] e = tt
absent k (a ∷ xs) e =
    ((λ same. ground (arith, eq_iff a.artifact_key k)), absent k xs (ground (arith)))

pub keys-append : (xs ys : List EvidenceArtifact) → keys (xs ++ ys) ≡ keys xs ++ keys ys
keys-append [] ys = refl
keys-append (x ∷ xs) ys = ap (λ ks. x.artifact_key ∷ ks) (keys-append xs ys)

pub Unique-snoc :
    (k : String) (ks : List String) → All (λ m. k ≢ m) ks → Unique ks → Unique (ks ++ (k ∷ []))
Unique-snoc k [] h u = (tt, tt)
Unique-snoc k (m ∷ ks) h u =
    (All-append _ ks (k ∷ []) u.0 ((λ e. h.0 (sym e)), tt), Unique-snoc k ks h.1 u.1)

-- a test that finds no key twice
pub is_unique-Unique : (ks : List String) → is_unique ks ≡ true → Unique ks
unfolding is_unique any
is_unique-Unique [] h = tt
is_unique-Unique (k ∷ ks) h = (other k ks (ground arith), is_unique-Unique ks (ground arith))
  where
    other : (k : String) (ks : List String) → any (λ m. m == k) ks ≡ false → All (λ m. k ≢ m) ks
    other k [] h = tt
    other k (m ∷ ks) h = ((λ same. ground (arith, eq_iff m k)), other k ks (ground arith))
