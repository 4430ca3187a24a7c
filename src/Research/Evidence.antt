-- ===== src/Research/Evidence.antt =====
-- shared/research_runs/service.py: the evidence artifacts of a run, which the sources and citations
-- of its nodes are merged into. The columns `freshness_metadata` and `raw_payload` are left out: they
-- are worked out anew from the source each time.
pub mod Keys
pub mod Merge
pub mod Repeats
pub mod Links
pub mod Scores
mod Tests
pub mod Upsert
use Prim.Native.String.{◌++◌ as concat}
use synaptica_web.Prelude.{
  ℕ, String, Bool, false, not, ◌&&◌, ◌||◌, Option, none, some, List, [], ◌∷◌, ◌==◌, find, keep,
  if◌then◌else◌,
}

-- `ResearchRunSourcePayload`, validated: a text is stripped and not empty. A number is its text.
pub record Source : Type 0 where
  pub citation_id : Option String
  pub artifact_type : Option String
  pub title : Option String
  pub url : Option String
  pub publisher : Option String
  pub published_at : Option String
  pub source_type : Option String
  pub snippet : Option String
  pub display_snippet : Option String
  pub filtered_reason : Option String
  pub relevance_score : Option String
  pub quality_flags : List String

-- the four texts of `EvidenceArtifact.curation_status`
pub data CurationStatus : Type 0 where
  gathered selected filtered cited : CurationStatus

-- `EvidenceArtifact`; the last three are keys of its column `meta`
pub record EvidenceArtifact : Type 0 where
  pub artifact_key : String
  pub citation_id : Option String
  pub artifact_type : String
  pub origin_node_id : String
  pub last_seen_node_id : String
  pub order_index : ℕ
  pub curation_status : Option CurationStatus
  pub title : Option String
  pub url : Option String
  pub normalized_url : Option String
  pub publisher : Option String
  pub published_at : Option String
  pub source_type : Option String
  pub snippet : Option String
  pub display_snippet : Option String
  pub filtered_reason : Option String
  pub relevance_score : Option String
  pub quality_flags : List String
  pub observed_node_ids : List String
  pub fallback_key : Option String
  pub placeholder : Bool

-- the parts of a URL
pub record Url : Type 0 where
  pub scheme : String
  pub netloc : String
  pub path : String
  pub query : String

-- The libraries: urllib, the JSON text of the fields of a source, the first 16 digits of its SHA-1,
-- the methods `lower` and `rstrip("/")` of whole texts, and whether the order in which SQLAlchemy sends
-- the changes of a flush meets no duplicate on the way, from the keys of the rows to those that they get
pub record Library : Type 0 where
  pub urlsplit : String → Url
  pub urlunsplit : Url → String
  pub sorted_query : String → String
  pub fingerprint : Source → String
  pub digest : String → String
  pub lower : String → String
  pub rstrip_slash : String → String
  pub keeps_apart : List String → List String → Bool

-- `_normalize_source_url`
unfoldable pub normalize_url : Library → String → Url → String
normalize_url lib raw parsed =
    if parsed.scheme == "" && parsed.netloc == ""
    then lib.lower raw
    else lib.urlunsplit (record {
      scheme = lib.lower parsed.scheme;
      netloc = lib.lower parsed.netloc;
      path =
          (if parsed.path == "" || parsed.path == "/"
            then parsed.path
            else lib.rstrip_slash parsed.path);
      query = lib.sorted_query parsed.query;
    })

unfoldable pub normalize_source_url : Library → Option String → Option String
unfolding normalize_url
normalize_source_url lib none = none
normalize_source_url lib (some raw) =
    if raw == "" then none else some (normalize_url lib raw (lib.urlsplit raw))

-- `_build_fallback_artifact_key`
abbrev present : Option String → Option String
present none = none
present (some s) = if s == "" then none else some s

unfoldable pub build_fallback_artifact_key : Library → Source → String
unfolding normalize_source_url
build_fallback_artifact_key lib source = elim (present (normalize_source_url lib source.url)) [
  | some url ↦ concat "url:" (lib.digest url)
  | none ↦ concat "artifact:" (lib.digest (lib.fingerprint source))
]

-- `_artifact_status_rank`, one higher, so that no status is 0
unfoldable pub artifact_status_rank : Option CurationStatus → ℕ
artifact_status_rank none = 0
artifact_status_rank (some CurationStatus.gathered) = 1
artifact_status_rank (some CurationStatus.selected) = 2
artifact_status_rank (some CurationStatus.filtered) = 2
artifact_status_rank (some CurationStatus.cited) = 3

abbrev pub with_key : String → List EvidenceArtifact → Option EvidenceArtifact
with_key k artifacts = find (λ a. a.artifact_key == k) artifacts

abbrev pub same_text : Option String → String → Bool
same_text none s = false
same_text (some t) s = t == s

-- A row of the table, which queries look at, and the object of the session for it. `SessionLocal` has
-- `autoflush=False`: what the objects are assigned is not in the table before a flush.
pub record Row : Type 0 where
  pub key : String
  pub normalized_url : Option String
  pub artifact : EvidenceArtifact

-- the session: the rows in the order of their ids, and the objects that `db.add` was given
pub record Session : Type 0 where
  pub rows : List Row
  pub added : List EvidenceArtifact

abbrev pub opened_rows : List EvidenceArtifact → List Row
opened_rows [] = []
opened_rows (a ∷ artifacts) =
    record { key = a.artifact_key; normalized_url = a.normalized_url; artifact = a }
    ∷ opened_rows artifacts

abbrev pub opened : List EvidenceArtifact → Session
opened artifacts = record { rows = opened_rows artifacts; added = [] }

abbrev row_at : String → List Row → Option Row
row_at k rows = find (λ r. r.key == k) rows

abbrev rows_with_url : String → List Row → List Row
rows_with_url u rows = keep (λ r. same_text r.normalized_url u) rows

-- what the three queries find; `one_or_none` raises on two rows
pub data Lookup : Type 0 where
  missing ambiguous : Lookup
  known : Row → Lookup

abbrev one_or_none : List Row → Lookup
one_or_none [] = missing
one_or_none (r ∷ []) = known r
one_or_none (_ ∷ _ ∷ _) = ambiguous

abbrev by_citation : Option String → List Row → Option Row
by_citation none rows = none
by_citation (some c) rows = row_at c rows

abbrev by_url : Option String → Option String → List Row → Lookup
by_url (some c) (some u) rows = one_or_none (rows_with_url u rows)
by_url _ _ rows = missing

unfoldable pub find_artifact : Library → Source → List Row → Lookup
unfolding build_fallback_artifact_key normalize_source_url
find_artifact lib source rows = elim (by_citation source.citation_id rows) [
  | some r ↦ known r
  | none ↦ elim (row_at (build_fallback_artifact_key lib source) rows) [
    | some r ↦ known r
    | none ↦ by_url source.citation_id (present (normalize_source_url lib source.url)) rows
  ]
]
