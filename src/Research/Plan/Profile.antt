-- ===== src/Research/Plan/Profile.antt =====
-- What a profile promises.
use mathlib.Core.Logic.{◌≢◌}
use synaptica_web.Prelude.{ℕ, ◌+◌, ◌≤◌, String, false, ◌≡◌, refl, ltb, arith, ◌↔◌}
use synaptica_web.Research.Plan.{
  ResearchMode, DepthMode, classify_research_mode, mode_of_scores, live_score, score_matches,
  literature_query_hints, build_source_requirements, build_research_run_profile,
}

mode_of_scores-not_auto : (live papers : ℕ) → mode_of_scores live papers ≢ ResearchMode.auto
unfolding mode_of_scores
mode_of_scores-not_auto live papers h = ground arith

classify-not_auto :
    (year description : String) (requested : ResearchMode)
    → classify_research_mode year description requested ≢ ResearchMode.auto
unfolding classify_research_mode
classify-not_auto year description ResearchMode.auto =
    mode_of_scores-not_auto (live_score year description)
      (score_matches description literature_query_hints)
classify-not_auto year description ResearchMode.literature = λ h. ground arith
classify-not_auto year description ResearchMode.live_analysis = λ h. ground arith
classify-not_auto year description ResearchMode.hybrid = λ h. ground arith

-- the thresholds of a mode can be met together, and ask for fresh sources just outside literature
requirements-feasible :
    (mode : ResearchMode) (depth : DepthMode)
    → let r = build_source_requirements mode depth in
      (r.min_academic_or_primary + r.min_fresh_sources ≤ r.total_sources)
      × (ltb 0 r.min_fresh_sources ≡ false ↔ mode ≡ ResearchMode.literature)
unfolding build_source_requirements
requirements-feasible ResearchMode.auto DepthMode.standard = ground arith
requirements-feasible ResearchMode.auto DepthMode.deep = ground arith
requirements-feasible ResearchMode.literature DepthMode.standard = ground arith
requirements-feasible ResearchMode.literature DepthMode.deep = ground arith
requirements-feasible ResearchMode.live_analysis DepthMode.standard = ground arith
requirements-feasible ResearchMode.live_analysis DepthMode.deep = ground arith
requirements-feasible ResearchMode.hybrid DepthMode.standard = ground arith
requirements-feasible ResearchMode.hybrid DepthMode.deep = ground arith

-- Whatever the text of a request, its profile has a mode of its own, not the automatic one, which is
-- the one requested where that is not automatic; its thresholds for academic and for fresh sources can
-- be met together within the number of sources; and fresh evidence is required just in the modes other
-- than literature.
pub profile_promises :
    (year description : String) (mode : ResearchMode) (depth : DepthMode)
    → let p = build_research_run_profile year description mode depth in
      (p.classified_mode ≢ ResearchMode.auto)
      × (mode ≢ ResearchMode.auto → p.classified_mode ≡ mode)
      × (p.source_requirements.min_academic_or_primary + p.source_requirements.min_fresh_sources
          ≤ p.source_requirements.total_sources)
      × (p.freshness_required ≡ false ↔ p.classified_mode ≡ ResearchMode.literature)
unfolding build_research_run_profile classify_research_mode
profile_promises year description mode depth =
    let classified = classify_research_mode year description mode in
    let (fits, fresh) = requirements-feasible classified depth in
    (classify-not_auto year description mode, kept mode, fits, fresh)
  where
    kept :
        (m : ResearchMode) → m ≢ ResearchMode.auto → classify_research_mode year description m ≡ m
    kept ResearchMode.auto h = absurd (h refl)
    kept ResearchMode.literature h = refl
    kept ResearchMode.live_analysis h = refl
    kept ResearchMode.hybrid h = refl
