-- ===== src/Research/Evidence/Repeats.antt =====
-- Sources of one key in the result of a node, which the queries of the session do not see.
use synaptica_web.Prelude.{
  ℕ, String, false, Option, none, some, List, [], ◌∷◌, ◌++◌, ◌≡◌, refl, arith, inl, inr,
  Option-cases, ap, suc, any, eq_refl, sym, ◌∙◌,
}
use synaptica_web.Research.Evidence.{
  Source, CurationStatus, EvidenceArtifact, Library, build_fallback_artifact_key, Session,
  opened_rows, opened, missing, find_artifact,
}
use synaptica_web.Research.Evidence.Upsert.{
  or_value, new_artifact, fill_artifact, key_of, upsert_evidence_artifact, upsert_all, NodeResult,
  persist_evidence_artifacts, objects, keys, is_unique, flush, store_evidence,
}
use synaptica_web.Research.Evidence.Merge.{upsert_all-Grows}

-- two artifacts with one key
repeated :
    (xs more : List EvidenceArtifact) (a b : EvidenceArtifact)
    → b.artifact_key ≡ a.artifact_key
    → is_unique (keys (xs ++ (a ∷ b ∷ more))) ≡ false
unfolding is_unique any
repeated [] more a b e = ground (arith, e, eq_refl a.artifact_key)
repeated (x ∷ xs) more a b e = ground (arith, repeated xs more a b e)

or_value-twice : (c : Option String) (d : String) → or_value c (or_value c d) ≡ or_value c d
or_value-twice none d = refl
or_value-twice (some s) d = refl

upsert-missing :
    (lib : Library) (source : Source) (n : String) (status : CurationStatus) (order : ℕ)
    (s : Session)
    → find_artifact lib source s.rows ≡ missing
    → (a : EvidenceArtifact) × (a.artifact_key ≡ key_of lib source)
      × (upsert_evidence_artifact lib source n status order s
          ≡ some (record s { added = s.added ++ (a ∷ []) }))
unfolding upsert_evidence_artifact fill_artifact new_artifact
upsert-missing lib source n status order s gone = (
  fill_artifact lib source n status order (new_artifact (key_of lib source) n),
  or_value-twice source.citation_id (build_fallback_artifact_key lib source),
  ground (arith, gone),
)

upsert_all-step :
    (lib : Library) (source : Source) (sources : List Source) (n : String) (status : CurationStatus)
    (order : ℕ) (s t : Session)
    → upsert_evidence_artifact lib source n status order s ≡ some t
    → upsert_all lib n status order (source ∷ sources) s
      ≡ upsert_all lib n status (suc order) sources t
unfolding upsert_all
upsert_all-step lib source sources n status order s t e =
    ap
      (λ (o : Option Session). elim o [
        | none ↦ none
        | some s' ↦ upsert_all lib n status (suc order) sources s'
      ])
      e

abbrev settled : Library → Option Session → Option (List EvidenceArtifact)
settled lib none = none
settled lib (some s) = flush lib s

gathers :
    (lib : Library) (r : NodeResult) (xs : List EvidenceArtifact)
    → store_evidence lib "gather_evidence" r xs
      ≡ settled lib
          (upsert_all lib "gather_evidence" CurationStatus.gathered 1 r.sources (opened xs))
unfolding store_evidence persist_evidence_artifacts
gathers lib r xs =
    by_end (upsert_all lib "gather_evidence" CurationStatus.gathered 1 r.sources (opened xs))
  where
    by_end : (o : Option Session) → (elim o [ none ↦ none | some s ↦ flush lib s ]) ≡ settled lib o
    by_end none = refl
    by_end (some s) = refl

-- two objects with one key stay in the session
twice-settled :
    (lib : Library) (n : String) (status : CurationStatus) (order : ℕ) (more : List Source)
    (u : Session) (a b : EvidenceArtifact)
    → u.added ≡ a ∷ b ∷ []
    → b.artifact_key ≡ a.artifact_key
    → settled lib (upsert_all lib n status order more u) ≡ none
unfolding flush
twice-settled lib n status order more u a b two both =
    elim (Option-cases (upsert_all lib n status order more u)) [
      | inl fails ↦ rw fails refl
      | inr (v, e) ↦
          let (up, later, grown) = upsert_all-Grows lib n status order more u v e in
          let added : v.added ≡ a ∷ b ∷ later = grown ∙ ap (λ zs. zs ++ later) two in
          rw e (rw added (rw (repeated (objects v.rows) later a b both) refl))
    ]

-- Where the first two sources that gather_evidence finds get one key, and no artifact is found for
-- either, nothing is stored, whatever the other sources are: an exception ends the transaction.
pub repeated_source :
    (lib : Library) (r : NodeResult) (x y : Source) (more : List Source)
    (xs : List EvidenceArtifact)
    → r.sources ≡ x ∷ y ∷ more
    → find_artifact lib x (opened_rows xs) ≡ missing
    → find_artifact lib y (opened_rows xs) ≡ missing
    → key_of lib y ≡ key_of lib x
    → store_evidence lib "gather_evidence" r xs ≡ none
repeated_source lib r x y more xs these gone_x gone_y same =
    let n : String = "gather_evidence" in
    let status : CurationStatus = CurationStatus.gathered in
    let s : Session = opened xs in
    let (a, key_a, first) = upsert-missing lib x n status 1 s gone_x in
    let t : Session = record s { added = a ∷ [] } in
    let (b, key_b, second) = upsert-missing lib y n status 2 t gone_y in
    let u : Session = record s { added = a ∷ b ∷ [] } in
    gathers lib r xs
    ∙ ap (settled lib) (
        ap (λ zs. upsert_all lib n status 1 zs s) these
        ∙ upsert_all-step lib x (y ∷ more) n status 1 s t first
        ∙ upsert_all-step lib y more n status 2 t u second)
    ∙ twice-settled lib n status 3 more u a b refl (key_b ∙ same ∙ sym key_a)
