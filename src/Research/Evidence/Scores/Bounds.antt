-- ===== src/Research/Evidence/Scores/Bounds.antt =====
-- What a score and a contradiction status say of a claim.
use synaptica_web.Prelude.{
  ℕ, ◌+◌, ◌≤◌, ◌<◌, String, Bool, true, false, ◌&&◌, ◌||◌, Option, List, [], ◌∷◌, ◌==◌, ◌≡◌, refl,
  any, length, leb, arith, Bool-cases, inl, inr, ◌≢◌, ◌↔◌,
}
use synaptica_web.Research.Evidence.Scores.{
  ScoringInput, insufficient_evidence, base_score, is_label, publishers, is_first_hand, is_severe,
  penalty, raised_score, confidence_score, is_empty, has_gap, contradiction_status,
  compute_claim_scoring,
}

base-cases :
    (label : Option String)
    → (base_score label ≤ 850)
      × (400 ≤ base_score label)
      × (650 < base_score label → is_label "high" label ≡ true)
unfolding base_score
base-cases label = ground arith

score-bounds :
    (base support : ℕ) (diverse stale severe : Bool)
    → base ≤ 850
    → 400 ≤ base
    → (confidence_score base support diverse stale severe ≤ 950)
      × (confidence_score base support diverse stale severe + penalty 150 stale + penalty 100 severe
          ≡ raised_score base support diverse)
      × (800 ≤ confidence_score base support diverse stale severe → (2 ≤ support) × (650 < base))
unfolding confidence_score raised_score
score-bounds base support diverse stale severe hi lo = ground arith

-- A score is 0.95 at most, and neither cut of it to the range from 0 to 1 has an effect: with what stale
-- support (0.15) and severe findings (0.10) take away it is what the label, the number of supporting
-- artifacts and their diversity give. A claim of high confidence (0.8 or more) is labelled high by the
-- answer and has two supporting artifacts or more.
pub high_confidence :
    (i : ScoringInput)
    → let r = compute_claim_scoring i in
      (r.confidence_score ≤ 950)
      × (r.confidence_score
            + penalty 150 r.has_stale_support
            + penalty 100 r.has_high_severity_critic_findings
          ≡ raised_score
              (base_score i.confidence)
              (length i.artifacts)
              (leb 2 r.publisher_count || any is_first_hand i.artifacts))
      × (800 ≤ r.confidence_score
          → (is_label "high" i.confidence ≡ true) × (2 ≤ length i.artifacts))
unfolding compute_claim_scoring
high_confidence i =
    let (hi, lo, label) = base-cases i.confidence in
    let (top, whole, high) =
      score-bounds (base_score i.confidence) (length i.artifacts)
        (leb 2 (length (publishers i.artifacts)) || any is_first_hand i.artifacts)
        (i.freshness_required && i.stale_support) (any is_severe i.critic_findings) hi lo in
    (top, whole, λ h. (label (high h).1, (high h).0))

is_empty-length {ℓ} : {A : Type ℓ} (xs : List A) → is_empty xs ≡ leb (length xs) 0
is_empty-length [] = refl
is_empty-length (x ∷ xs) = ground arith

insufficient-has_gap :
    (i : ScoringInput) → contradiction_status i ≡ insufficient_evidence → has_gap i ≡ true
unfolding contradiction_status
insufficient-has_gap i h = ground arith

gap-insufficient :
    (i : ScoringInput) → has_gap i ≡ true → contradiction_status i ≡ insufficient_evidence
unfolding contradiction_status
gap-insufficient i h = rw h refl

-- The evidence of a claim is not called insufficient just where it has supporting citations, as many
-- supporting artifacts or more, none of them a placeholder, and is not among the claims that are not
-- covered.
pub status_insufficient :
    (i : ScoringInput)
    → (compute_claim_scoring i).contradiction_status ≢ insufficient_evidence
      ↔ (0 < length i.supporting_citation_ids)
        × (length i.supporting_citation_ids ≤ length i.artifacts)
        × (any (λ a. a.placeholder) i.artifacts ≡ false)
        × (any (λ c. c == i.claim_id) i.uncovered_claim_ids ≡ false)
unfolding compute_claim_scoring has_gap
status_insufficient i = (
  λ h. elim (Bool-cases (has_gap i)) [
    | inl gap ↦ absurd (h (gap-insufficient i gap))
    | inr none_left ↦ ground (arith, is_empty-length i.supporting_citation_ids)
  ],
  λ (cites, enough, solid, covered) e.
      let gap = insufficient-has_gap i e in
      ground (arith, is_empty-length i.supporting_citation_ids, is_empty-length i.artifacts),
)
