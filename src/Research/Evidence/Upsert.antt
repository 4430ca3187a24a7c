-- ===== src/Research/Evidence/Upsert.antt =====
-- shared/research_runs/service.py, `_upsert_evidence_artifact` and `_persist_phase2_evidence_artifacts`.
use Prim.Native.String.{compare}
use Prim.Native.Nat.{Ordering}
use synaptica_web.Prelude.{
  ℕ, suc, ◌+◌, String, Bool, true, false, not, ◌&&◌, Option, none, some, List, [], ◌∷◌, ◌++◌, ◌==◌,
  any, leb, length, if◌then◌else◌,
}
use synaptica_web.Research.Finish.{or_else}
use synaptica_web.Research.Evidence.{
  present, Source, CurationStatus, EvidenceArtifact, Library, normalize_source_url,
  build_fallback_artifact_key, artifact_status_rank, Row, Session, opened, find_artifact, missing,
  ambiguous, known,
}

-- `sorted(set(flags) | set(more))`
abbrev insert : String → List String → List String
insert s [] = s ∷ []
insert s (t ∷ ts) =
    let rest = insert s ts in
    elim (compare s t) [ Ordering.lt ↦ s ∷ t ∷ ts | Ordering.eq ↦ t ∷ ts | Ordering.gt ↦ t ∷ rest ]

unfoldable pub merge_flags : List String → List String → List String
merge_flags [] flags = flags
merge_flags (s ∷ more) flags = insert s (merge_flags more flags)

abbrev or_old : Option String → Option String → Option String
or_old = or_else

abbrev pub or_value : Option String → String → String
or_value none old = old
or_value (some s) old = s

abbrev observe : String → List String → List String
observe n nodes = if any (λ m. m == n) nodes then nodes else nodes ++ (n ∷ [])

-- a row of `_upsert_evidence_artifact` before it is filled
unfoldable pub new_artifact : String → String → EvidenceArtifact
new_artifact key node_id = record {
  artifact_key = key;
  citation_id = none;
  artifact_type = "source";
  origin_node_id = node_id;
  last_seen_node_id = node_id;
  order_index = 0;
  curation_status = none;
  title = none;
  url = none;
  normalized_url = none;
  publisher = none;
  published_at = none;
  source_type = none;
  snippet = none;
  display_snippet = none;
  filtered_reason = none;
  relevance_score = none;
  quality_flags = [];
  observed_node_ids = [];
  fallback_key = none;
  placeholder = false;
}

-- what `_upsert_evidence_artifact` makes of the row
unfoldable pub fill_artifact :
    Library → Source → String → CurationStatus → ℕ → EvidenceArtifact → EvidenceArtifact
unfolding build_fallback_artifact_key normalize_source_url artifact_status_rank merge_flags
fill_artifact lib source node_id status order a = record a {
  artifact_key = or_value source.citation_id a.artifact_key;
  citation_id = or_old source.citation_id a.citation_id;
  artifact_type = or_value source.artifact_type a.artifact_type;
  last_seen_node_id = node_id;
  order_index = (if not_lower then order else a.order_index);
  curation_status = (if not_lower then some status else a.curation_status);
  title = or_old source.title a.title;
  url = or_old source.url a.url;
  normalized_url = or_old (present (normalize_source_url lib source.url)) a.normalized_url;
  publisher = or_old source.publisher a.publisher;
  published_at = or_old source.published_at a.published_at;
  source_type = or_old source.source_type a.source_type;
  snippet = or_old source.snippet a.snippet;
  display_snippet = or_old source.display_snippet a.display_snippet;
  filtered_reason = or_old source.filtered_reason a.filtered_reason;
  relevance_score = or_old source.relevance_score a.relevance_score;
  quality_flags = merge_flags source.quality_flags (merge_flags a.quality_flags []);
  observed_node_ids = observe node_id a.observed_node_ids;
  fallback_key = some (build_fallback_artifact_key lib source);
}
  where
    not_lower : Bool
    not_lower = leb (artifact_status_rank a.curation_status) (artifact_status_rank (some status))

-- the assignments to the object of the row with a key
abbrev pub at_key : String → (EvidenceArtifact → EvidenceArtifact) → List Row → List Row
at_key k f [] = []
at_key k f (r ∷ rows) =
    (if r.key == k then (record r { artifact = f r.artifact }) else r) ∷ at_key k f rows

-- the key that a new artifact gets
abbrev pub key_of : Library → Source → String
key_of lib source = or_value source.citation_id (build_fallback_artifact_key lib source)

-- `_upsert_evidence_artifact`; `none` is the exception
unfoldable pub upsert_evidence_artifact :
    Library → Source → String → CurationStatus → ℕ → Session → Option Session
unfolding find_artifact fill_artifact new_artifact build_fallback_artifact_key
upsert_evidence_artifact lib source node_id status order s =
    elim (find_artifact lib source s.rows) [
      | ambiguous ↦ none
      | known r ↦
          some (record s {
            rows = at_key r.key (fill_artifact lib source node_id status order) s.rows;
          })
      | missing ↦ some (record s {
        added =
            s.added
            ++ (fill_artifact lib source node_id status order
                  (new_artifact (key_of lib source) node_id)
                ∷ []);
      })
    ]

-- the loops of `_persist_phase2_evidence_artifacts`
unfoldable pub upsert_all :
    Library → String → CurationStatus → ℕ → List Source → Session → Option Session
unfolding upsert_evidence_artifact
upsert_all lib node_id status index [] s = some s
upsert_all lib node_id status index (source ∷ sources) s =
    elim (upsert_evidence_artifact lib source node_id status index s) [
      | none ↦ none
      | some s' ↦ upsert_all lib node_id status (suc index) sources s'
    ]

-- what `_persist_phase2_evidence_artifacts` reads of the result of a node
pub record NodeResult : Type 0 where
  pub citations : List Source
  pub sources : List Source
  pub filtered_sources : List Source

unfoldable pub persist_evidence_artifacts : Library → String → NodeResult → Session → Option Session
unfolding upsert_all
persist_evidence_artifacts lib node_id result s =
    if node_id == "gather_evidence"
    then upsert_all lib node_id CurationStatus.gathered 1 result.sources s
    else if not (node_id == "curate_sources")
    then some s
    else elim (upsert_all lib node_id CurationStatus.cited 1 result.citations s) [
      | none ↦ none
      | some with_citations ↦
          elim (upsert_all lib node_id CurationStatus.selected 1 result.sources with_citations) [
            | none ↦ none
            | some with_sources ↦
                upsert_all lib node_id CurationStatus.filtered (length result.sources + 1)
                  result.filtered_sources with_sources
          ]
    ]

abbrev pub row_keys : List Row → List String
row_keys [] = []
row_keys (r ∷ rows) = r.key ∷ row_keys rows

abbrev pub objects : List Row → List EvidenceArtifact
objects [] = []
objects (r ∷ rows) = r.artifact ∷ objects rows

abbrev pub keys : List EvidenceArtifact → List String
keys [] = []
keys (a ∷ artifacts) = a.artifact_key ∷ keys artifacts

-- no key twice, as the unique constraint of the table has it
unfoldable pub is_unique : List String → Bool
unfolding any
is_unique [] = true
is_unique (k ∷ ks) = not (any (λ m. m == k) ks) && is_unique ks

-- `db.flush()`, or that of `db.commit()`; `none` is the IntegrityError
unfoldable pub flush : Library → Session → Option (List EvidenceArtifact)
unfolding is_unique
flush lib s =
    let artifacts = objects s.rows ++ s.added in
    if is_unique (keys artifacts) && lib.keeps_apart (row_keys s.rows) (keys artifacts)
    then some artifacts
    else none

-- the evidence of a node, to the commit of `_finalize_attempt`
unfoldable pub store_evidence :
    Library → String → NodeResult → List EvidenceArtifact → Option (List EvidenceArtifact)
unfolding persist_evidence_artifacts flush
store_evidence lib node_id result artifacts =
    elim (persist_evidence_artifacts lib node_id result (opened artifacts)) [
      | none ↦ none
      | some s ↦ flush lib s
    ]
