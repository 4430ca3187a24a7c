-- ===== src/Research/Evidence/Scores.antt =====
-- shared/research_runs/service.py, `_compute_phase2_claim_scoring`. A score is in thousandths: the
-- code rounds to three digits, and each of its summands is a multiple of 0.05.
pub mod Bounds
use synaptica_web.Prelude.{
  ℕ, ◌+◌, ◌-◌, String, Bool, true, false, not, ◌&&◌, ◌||◌, Option, none, some, List, [], ◌∷◌, ◌++◌,
  ◌==◌, any, keep, length, ltb, leb, min, if◌then◌else◌,
}
use synaptica_web.Text.{codes, strip, lower, equals, occurs_in}
use synaptica_web.Research.Evidence.{EvidenceArtifact}

-- a member of `critic_findings`
pub record CriticFinding : Type 0 where
  pub severity : Option String
  pub issue : Option String
  pub recommendation : Option String

-- What the scoring reads of the claim, of the run, and of the artifacts that its links lead to.
-- `stale_support` is whether one of them has `is_fresh` false.
pub record ScoringInput : Type 0 where
  pub claim_id : String
  pub confidence : Option String
  pub supporting_citation_ids : List String
  pub artifacts : List EvidenceArtifact
  pub freshness_required : Bool
  pub stale_support : Bool
  pub uncovered_claim_ids : List String
  pub critic_findings : List CriticFinding

-- PHASE2_CONTRADICTION_STATUS_*
pub data ContradictionStatus : Type 0 where
  insufficient_evidence mixed_evidence no_contradiction : ContradictionStatus

pub record Scoring : Type 0 where
  pub confidence_score : ℕ
  pub contradiction_status : ContradictionStatus
  pub contradiction_reasons : List String
  pub supporting_artifact_count : ℕ
  pub publisher_count : ℕ
  pub has_stale_support : Bool
  pub has_high_severity_critic_findings : Bool

-- `str(value or "").strip().lower()`
abbrev pub plain : Option String → List ℕ
plain none = []
plain (some s) = lower (strip (codes s))

abbrev pub is_label : String → Option String → Bool
is_label name value = equals (plain value) (codes name)

-- `_PHASE2_CONFIDENCE_BASE_SCORES.get(label, 0.50)`
unfoldable pub base_score : Option String → ℕ
unfolding lower strip equals
base_score label =
    if is_label "high" label
    then 850
    else if is_label "medium" label
    then 650
    else if is_label "low" label
    then 400
    else 500

-- the distinct publishers
unfoldable pub publishers : List EvidenceArtifact → List (List ℕ)
unfolding strip equals
publishers [] = []
publishers (a ∷ artifacts) =
    let rest = publishers artifacts in
    elim a.publisher [
      | none ↦ rest
      | some p ↦
          if p == "" || any (equals (strip (codes p))) rest then rest else strip (codes p) ∷ rest
    ]

abbrev pub is_first_hand : EvidenceArtifact → Bool
is_first_hand a = is_label "primary" a.source_type || is_label "academic" a.source_type

abbrev pub is_severe : CriticFinding → Bool
is_severe f = is_label "high" f.severity

abbrev pub bonus : Bool → ℕ
bonus b = if b then 50 else 0

abbrev pub penalty : ℕ → Bool → ℕ
penalty n b = if b then n else 0

-- The confidence of a claim: what is added, and what is taken away. `max(0.0, …)` is the subtraction of
-- ℕ.
unfoldable pub raised_score : ℕ → ℕ → Bool → ℕ
raised_score base support diverse =
    (if leb 2 support then base + 50 else base - 150) + bonus diverse

unfoldable pub confidence_score : ℕ → ℕ → Bool → Bool → Bool → ℕ
unfolding raised_score
confidence_score base support diverse stale severe =
    min 1000 (raised_score base support diverse - penalty 150 stale - penalty 100 severe)

-- `_PHASE2_CONTRADICTION_MARKERS`, sorted
abbrev contradiction_markers : List String
contradiction_markers =
    "conflict" ∷ "contradict" ∷ "counterpoint" ∷ "disputed" ∷ "mixed" ∷ "uncertain" ∷ []

-- `_collect_phase2_marker_hits`
unfoldable pub collect_marker_hits : List (Option String) → List String
unfolding lower strip occurs_in
collect_marker_hits values =
    keep (λ marker. any (λ v. occurs_in (codes marker) (plain v)) values) contradiction_markers

abbrev texts : List String → List (Option String)
texts [] = []
texts (s ∷ ss) = some s ∷ texts ss

abbrev artifact_texts : List EvidenceArtifact → List (Option String)
artifact_texts [] = []
artifact_texts (a ∷ artifacts) =
    a.title ∷ a.snippet ∷ a.display_snippet ∷ a.filtered_reason ∷ texts a.quality_flags
    ++ artifact_texts artifacts

abbrev finding_texts : List CriticFinding → List (Option String)
finding_texts [] = []
finding_texts (f ∷ findings) = f.issue ∷ f.recommendation ∷ finding_texts findings

abbrev pub is_empty {ℓ} : {A : Type ℓ} → List A → Bool
is_empty [] = true
is_empty (_ ∷ _) = false

abbrev pub is_uncovered : ScoringInput → Bool
is_uncovered i = any (λ c. c == i.claim_id) i.uncovered_claim_ids

abbrev pub has_placeholder : ScoringInput → Bool
has_placeholder i = any (λ a. a.placeholder) i.artifacts

-- `has_unresolved_citation_gap`
unfoldable pub has_gap : ScoringInput → Bool
has_gap i =
    is_empty i.artifacts
    || is_empty i.supporting_citation_ids
    || has_placeholder i
    || is_uncovered i
    || ltb (length i.artifacts) (length i.supporting_citation_ids)

abbrev said : Bool → String → List String
said b s = if b then s ∷ [] else []

-- the reasons that name a gap
unfoldable pub gap_reasons : ScoringInput → List String
gap_reasons i =
    said (is_empty i.artifacts)
      "No persisted supporting evidence artifacts are linked to this claim."
    ++ said (is_empty i.supporting_citation_ids) "The claim is missing supporting citation IDs."
    ++ said (has_placeholder i || ltb (length i.artifacts) (length i.supporting_citation_ids))
        "Supporting citations were not fully resolved to persisted evidence artifacts."
    ++ said (is_uncovered i)
        "Research quality checks flagged unresolved citation coverage gaps for this claim."

unfoldable pub contradiction_status : ScoringInput → ContradictionStatus
unfolding has_gap collect_marker_hits
contradiction_status i =
    if has_gap i
    then insufficient_evidence
    else if is_empty (collect_marker_hits (artifact_texts i.artifacts))
        && is_empty (collect_marker_hits (finding_texts i.critic_findings))
    then no_contradiction
    else mixed_evidence

-- The scoring; a reason that lists markers is cut to the markers.
unfoldable pub compute_claim_scoring : ScoringInput → Scoring
unfolding confidence_score contradiction_status base_score publishers gap_reasons has_gap
    collect_marker_hits
compute_claim_scoring i = record {
  confidence_score =
      confidence_score (base_score i.confidence) (length i.artifacts) diverse stale severe;
  contradiction_status = contradiction_status i;
  contradiction_reasons =
      gap_reasons i
      ++ (if has_gap i
          then []
          else collect_marker_hits (artifact_texts i.artifacts)
            ++ collect_marker_hits (finding_texts i.critic_findings));
  supporting_artifact_count = length i.artifacts;
  publisher_count = length (publishers i.artifacts);
  has_stale_support = stale;
  has_high_severity_critic_findings = severe;
}
  where
    diverse : Bool
    diverse = leb 2 (length (publishers i.artifacts)) || any is_first_hand i.artifacts

    stale : Bool
    stale = i.freshness_required && i.stale_support

    severe : Bool
    severe = any is_severe i.critic_findings
