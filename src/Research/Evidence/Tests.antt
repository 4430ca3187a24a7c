-- ===== src/Research/Evidence/Tests.antt =====
-- Sources, claims and scores on concrete values.
use synaptica_web.Prelude.{
  ◌+◌, ◌≤◌, ◌<◌, String, true, false, ◌||◌, Option, none, some, List, [], ◌∷◌, ◌==◌, ◌≡◌, ◌≢◌, ◌↔◌,
  refl, find, any, keep, Unique, length, leb,
}
use synaptica_web.Research.Evidence.{
  Source, EvidenceArtifact, Library, find_artifact, build_fallback_artifact_key,
  normalize_source_url, normalize_url,
}
use synaptica_web.Research.Evidence.Upsert.{
  keys, flush, is_unique, store_evidence, upsert_all, persist_evidence_artifacts, NodeResult,
  upsert_evidence_artifact, fill_artifact, new_artifact,
}
use synaptica_web.Research.Evidence.Keys.{Rises}
use synaptica_web.Research.Evidence.Merge.{store_evidence-Keeps}
use synaptica_web.Research.Evidence.Repeats.{repeated_source}
use synaptica_web.Research.Evidence.Links.{AnswerClaim, Graph, claim_rows, link_claims}
use synaptica_web.Research.Evidence.Scores.{
  ScoringInput, insufficient_evidence, base_score, is_label, is_first_hand, penalty, raised_score,
  compute_claim_scoring,
}
use synaptica_web.Research.Evidence.Scores.Bounds.{high_confidence, status_insufficient}

abbrev lib : Library
lib = record {
  urlsplit = λ s. record { scheme = "https"; netloc = s; path = "/"; query = "" };
  urlunsplit = λ u. u.netloc;
  sorted_query = λ q. q;
  fingerprint = λ s. "fingerprint";
  digest = λ s. s;
  lower = λ s. s;
  rstrip_slash = λ s. s;
  keeps_apart = λ old new. true;
}

abbrev source : Option String → String → Source
source citation url = record {
  citation_id = citation;
  artifact_type = none;
  title = some "A title";
  url = some url;
  publisher = some "A publisher";
  published_at = none;
  source_type = some "primary";
  snippet = none;
  display_snippet = none;
  filtered_reason = none;
  relevance_score = none;
  quality_flags = [];
}

abbrev gathered_sources : NodeResult
gathered_sources = record {
  citations = [];
  sources = source (some "S1") "a.org" ∷ source none "b.org" ∷ [];
  filtered_sources = [];
}

-- the rows of an optional result
abbrev rows : Option (List EvidenceArtifact) → List EvidenceArtifact
rows none = []
rows (some xs) = xs

abbrev evidence : List EvidenceArtifact
evidence = rows (store_evidence lib "gather_evidence" gathered_sources [])

evidence_keys : keys evidence ≡ "S1" ∷ "url:b.org" ∷ []
unfolding store_evidence persist_evidence_artifacts upsert_all upsert_evidence_artifact
    find_artifact flush is_unique fill_artifact new_artifact build_fallback_artifact_key
    normalize_source_url normalize_url find keep any
evidence_keys = refl

store_evidence-Keeps_example : Unique (keys evidence) × Rises [] evidence
unfolding store_evidence persist_evidence_artifacts upsert_all upsert_evidence_artifact
    find_artifact flush is_unique fill_artifact new_artifact build_fallback_artifact_key
    normalize_source_url normalize_url find keep any
store_evidence-Keeps_example =
    store_evidence-Keeps lib "gather_evidence" gathered_sources [] evidence refl

-- the evidence of some more sources
abbrev gather : List Source → List EvidenceArtifact → Option (List EvidenceArtifact)
gather sources =
    store_evidence lib "gather_evidence"
      (record { citations = []; sources = sources; filtered_sources = [] })

-- A citation takes over the artifact of another one with its URL.
citation_taken_over :
    keys (rows (gather (source (some "S2") "a.org" ∷ []) evidence)) ≡ "S2" ∷ "url:b.org" ∷ []
unfolding store_evidence persist_evidence_artifacts upsert_all upsert_evidence_artifact
    find_artifact flush is_unique fill_artifact new_artifact build_fallback_artifact_key
    normalize_source_url normalize_url find keep any
citation_taken_over = refl

-- Two artifacts with one URL and other keys make a further citation of it an exception.
url_clash :
    gather (source (some "S5") "a.org" ∷ []) (
      rows (
        gather
          (source (some "S4") "a.org" ∷ [])
          (rows (gather (source (some "S2") "a.org" ∷ source none "a.org" ∷ []) []))))
    ≡ none
unfolding store_evidence persist_evidence_artifacts upsert_all upsert_evidence_artifact
    find_artifact flush is_unique fill_artifact new_artifact build_fallback_artifact_key
    normalize_source_url normalize_url find keep any
url_clash = refl

repeated_source_example :
    gather (source (some "S1") "a.org" ∷ source (some "S1") "b.org" ∷ []) [] ≡ none
unfolding find_artifact find keep
repeated_source_example =
    repeated_source lib
      (record {
        citations = [];
        sources = source (some "S1") "a.org" ∷ source (some "S1") "b.org" ∷ [];
        filtered_sources = [];
      })
      (source (some "S1") "a.org") (source (some "S1") "b.org") [] [] refl refl refl refl

abbrev answer_claims : List AnswerClaim
answer_claims =
    record {
      claim_id = "C1";
      claim = "It works";
      confidence = some "high";
      supporting_citation_ids = "S1" ∷ "S9" ∷ "S1" ∷ [];
    }
    ∷ []

abbrev graph : Graph
graph = record {
  claims = claim_rows 1 answer_claims;
  linked = link_claims (claim_rows 1 answer_claims) (record { artifacts = []; links = [] });
}

abbrev scoring_input : ScoringInput
scoring_input = record {
  claim_id = "C1";
  confidence = some "High";
  supporting_citation_ids = "S1" ∷ [];
  artifacts = evidence;
  freshness_required = true;
  stale_support = false;
  uncovered_claim_ids = [];
  critic_findings = [];
}

high_confidence_example :
    let r = compute_claim_scoring scoring_input in
    (r.confidence_score ≤ 950)
    × (r.confidence_score
          + penalty 150 r.has_stale_support
          + penalty 100 r.has_high_severity_critic_findings
        ≡ raised_score
            (base_score scoring_input.confidence)
            (length scoring_input.artifacts)
            (leb 2 r.publisher_count || any is_first_hand scoring_input.artifacts))
    × (800 ≤ r.confidence_score
        → (is_label "high" scoring_input.confidence ≡ true) × (2 ≤ length scoring_input.artifacts))
high_confidence_example = high_confidence scoring_input

status_insufficient_example :
    (compute_claim_scoring scoring_input).contradiction_status ≢ insufficient_evidence
    ↔ (0 < length scoring_input.supporting_citation_ids)
      × (length scoring_input.supporting_citation_ids ≤ length scoring_input.artifacts)
      × (any (λ a. a.placeholder) scoring_input.artifacts ≡ false)
      × (any (λ c. c == scoring_input.claim_id) scoring_input.uncovered_claim_ids ≡ false)
status_insufficient_example = status_insufficient scoring_input
