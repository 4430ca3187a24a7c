-- ===== src/Research/Evidence/Merge.antt =====
-- Storing the evidence of a node: what it keeps of the artifacts of before, and where it fails.
use mathlib.Core.List.{append-nil, append_assoc}
use synaptica_web.Prelude.{
  ℕ, String, true, false, none, some, List, [], ◌∷◌, ◌++◌, ◌==◌, ◌≡◌, refl, Unique, arith, ◌&&◌,
  inl, inr, ◌⊎◌, Bool-cases, Option-cases, subst, ap, suc, length, ◌+◌, sym, ◌∙◌, ◌≤◌,
  if◌then◌else◌,
}
use synaptica_web.Research.Evidence.{
  Source, CurationStatus, EvidenceArtifact, Library, Row, Session, opened_rows, opened, Lookup,
  missing, ambiguous, known, find_artifact,
}
use synaptica_web.Research.Evidence.Upsert.{
  new_artifact, fill_artifact, at_key, key_of, upsert_evidence_artifact, upsert_all, NodeResult,
  persist_evidence_artifacts, row_keys, objects, keys, is_unique, flush, store_evidence,
}
use synaptica_web.Research.Evidence.Keys.{
  rank, Rises, Rises-trans, Rises-append, fill-rank, is_unique-Unique,
}

Lookup-cases : (l : Lookup) → (l ≡ missing) ⊎ ((l ≡ ambiguous) ⊎ ((r : Row) × (l ≡ known r)))
Lookup-cases missing = inl refl
Lookup-cases ambiguous = inr (inl refl)
Lookup-cases (known r) = inr (inr (r, refl))

Rises-refl : (xs : List EvidenceArtifact) → Rises xs xs
Rises-refl [] = tt
Rises-refl (x ∷ xs) = (omega arith, Rises-refl xs)

Rises-at_key :
    (k : String) (f : EvidenceArtifact → EvidenceArtifact)
    → ((a : EvidenceArtifact) → rank a ≤ rank (f a))
    → (rows : List Row) → Rises (objects rows) (objects (at_key k f rows))
Rises-at_key k f up [] = tt
Rises-at_key k f up (r ∷ rows) = (ground (arith, up r.artifact), Rises-at_key k f up rows)

-- the objects of the rows are kept and rise, and the new ones stay
abbrev pub Grows : Session → Session → Type 0
Grows s u =
    Rises (objects s.rows) (objects u.rows)
    × (more : List EvidenceArtifact) × (u.added ≡ s.added ++ more)

upsert-Grows :
    (lib : Library) (source : Source) (n : String) (status : CurationStatus) (order : ℕ)
    (s u : Session)
    → upsert_evidence_artifact lib source n status order s ≡ some u
    → Grows s u
unfolding upsert_evidence_artifact
upsert-Grows lib source n status order s u e =
    elim (Lookup-cases (find_artifact lib source s.rows)) [
      | inl gone ↦ subst (Grows s) (ground arith) (added gone)
      | inr (inl both) ↦ ground arith
      | inr (inr (r, there)) ↦ subst (Grows s) (ground arith) (filled r)
    ]
  where
    filled :
        (r : Row)
        → Grows s
            (record s { rows = at_key r.key (fill_artifact lib source n status order) s.rows })
    filled r = (
      Rises-at_key r.key (fill_artifact lib source n status order)
          (fill-rank lib source n status order) s.rows,
      [],
      sym (append-nil s.added),
    )

    row : EvidenceArtifact
    row = fill_artifact lib source n status order (new_artifact (key_of lib source) n)

    added :
        find_artifact lib source s.rows ≡ missing
        → Grows s (record s { added = s.added ++ (row ∷ []) })
    added gone = (Rises-refl (objects s.rows), row ∷ [], refl)

Grows-trans : (s u v : Session) → Grows s u → Grows u v → Grows s v
Grows-trans s u v (h, more, e) (k, rest, d) = (
  Rises-trans (objects s.rows) (objects u.rows) (objects v.rows) h k,
  more ++ rest,
  d ∙ ap (λ xs. xs ++ rest) e ∙ append_assoc s.added more rest,
)

Grows-refl : (s : Session) → Grows s s
Grows-refl s = (Rises-refl (objects s.rows), [], sym (append-nil s.added))

pub upsert_all-Grows :
    (lib : Library) (n : String) (status : CurationStatus) (index : ℕ) (sources : List Source)
    (s u : Session)
    → upsert_all lib n status index sources s ≡ some u
    → Grows s u
unfolding upsert_all
upsert_all-Grows lib n status index [] s u e = subst (Grows s) (ground arith) (Grows-refl s)
upsert_all-Grows lib n status index (source ∷ sources) s u e =
    elim (Option-cases (upsert_evidence_artifact lib source n status index s)) [
      | inl fails ↦ ground arith
      | inr (t, made) ↦
          Grows-trans s t u (upsert-Grows lib source n status index s t made)
            (upsert_all-Grows lib n status (suc index) sources t u (ground arith))
    ]

curate-Grows :
    (lib : Library) (n : String) (r : NodeResult) (s u : Session)
    → (n == "gather_evidence") ≡ false
    → (n == "curate_sources") ≡ true
    → persist_evidence_artifacts lib n r s ≡ some u
    → Grows s u
unfolding persist_evidence_artifacts
curate-Grows lib n r s u g c e =
    elim (Option-cases (upsert_all lib n CurationStatus.cited 1 r.citations s)) [
      | inl fails ↦ ground arith
      | inr (t, cited) ↦
          elim (Option-cases (upsert_all lib n CurationStatus.selected 1 r.sources t)) [
            | inl fails ↦ ground arith
            | inr (v, selected) ↦
                Grows-trans s t u
                  (upsert_all-Grows lib n CurationStatus.cited 1 r.citations s t cited)
                  (Grows-trans t v u
                    (upsert_all-Grows lib n CurationStatus.selected 1 r.sources t v selected)
                    (upsert_all-Grows lib n CurationStatus.filtered (length r.sources + 1)
                      r.filtered_sources v u (ground arith)))
          ]
    ]

persist-Grows :
    (lib : Library) (n : String) (r : NodeResult) (s u : Session)
    → persist_evidence_artifacts lib n r s ≡ some u
    → Grows s u
unfolding persist_evidence_artifacts
persist-Grows lib n r s u e = elim (Bool-cases (n == "gather_evidence")) [
  | inl g ↦ upsert_all-Grows lib n CurationStatus.gathered 1 r.sources s u (ground arith)
  | inr g ↦ elim (Bool-cases (n == "curate_sources")) [
    | inl c ↦ curate-Grows lib n r s u g c e
    | inr c ↦ subst (Grows s) (ground arith) (Grows-refl s)
  ]
]

pub objects-opened : (xs : List EvidenceArtifact) → objects (opened_rows xs) ≡ xs
objects-opened [] = refl
objects-opened (x ∷ xs) = ap (λ ys. x ∷ ys) (objects-opened xs)

-- what a flush leaves
pub flushed :
    (lib : Library) (s : Session) (ys : List EvidenceArtifact)
    → flush lib s ≡ some ys
    → Unique (keys ys) × (ys ≡ objects s.rows ++ s.added)
unfolding flush
flushed lib s ys e =
    let all : List EvidenceArtifact = objects s.rows ++ s.added in
    let (test, same) = passed all e in
    (subst (λ zs. Unique (keys zs)) (sym same) (is_unique-Unique (keys all) test), same)
  where
    passed :
        (all : List EvidenceArtifact)
        → (if is_unique (keys all) && lib.keeps_apart (row_keys s.rows) (keys all)
            then some all
            else none)
          ≡ some ys
        → (is_unique (keys all) ≡ true) × (ys ≡ all)
    passed all e = (ground arith, ground arith)

-- Where the sources and citations of a node are stored without an exception, no two artifacts have
-- one key, every artifact of before is still there, at its place among the first of those of after,
-- and the rank of its status (cited above selected and filtered above gathered) has not fallen.
pub store_evidence-Keeps :
    (lib : Library) (n : String) (r : NodeResult) (xs ys : List EvidenceArtifact)
    → store_evidence lib n r xs ≡ some ys
    → Unique (keys ys) × Rises xs ys
unfolding store_evidence
store_evidence-Keeps lib n r xs ys e =
    elim (Option-cases (persist_evidence_artifacts lib n r (opened xs))) [
      | inl fails ↦ ground arith
      | inr (s, made) ↦
          let (unique, same) = flushed lib s ys (ground arith) in
          let (up, more, grown) = persist-Grows lib n r (opened xs) s made in
          (
            unique,
            subst (Rises xs) (sym same) (
                Rises-trans xs (objects s.rows) (objects s.rows ++ s.added)
                  (subst (λ zs. Rises zs (objects s.rows)) (objects-opened xs) up)
                  (Rises-append (objects s.rows) s.added)),
          )
    ]
