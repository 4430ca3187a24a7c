-- ===== src/Research/Plan.antt =====
-- shared/research_runs/planner.py: the profile of a request, and the graph of nodes that works on it.
-- The titles, texts and expected formats of the nodes are left out. Time enters as the text of the
-- current year.
pub mod Profile
pub mod Create
pub mod Whole
mod Tests
pub mod Graph
use synaptica_web.Prelude.{
  ℕ, suc, ◌+◌, String, Bool, true, false, ◌&&◌, Option, none, some, List, [], ◌∷◌, any, leb, ltb,
  if◌then◌else◌,
}
use synaptica_web.Text.{codes, strip, lower, occurs_in, is_space}

-- `ResearchMode`
pub data ResearchMode : Type 0 where
  auto literature live_analysis hybrid : ResearchMode

-- `DepthMode`
pub data DepthMode : Type 0 where
  standard deep : DepthMode

-- `SourceRequirements`
pub record SourceRequirements : Type 0 where
  pub total_sources : ℕ
  pub min_academic_or_primary : ℕ
  pub min_fresh_sources : ℕ
  pub freshness_window_days : Option ℕ

-- `RoundsPlan`
pub record RoundsPlan : Type 0 where
  pub evidence_rounds : ℕ
  pub critique_rounds : ℕ

-- `ResearchRunProfile`, without its notes
pub record ResearchRunProfile : Type 0 where
  pub requested_mode : ResearchMode
  pub classified_mode : ResearchMode
  pub depth_mode : DepthMode
  pub freshness_required : Bool
  pub source_requirements : SourceRequirements
  pub rounds_planned : RoundsPlan
  pub scenario_analysis_requested : Bool

-- `_LIVE_QUERY_HINTS`
abbrev live_query_hints : List String
live_query_hints =
    "today" ∷ "current" ∷ "currently" ∷ "latest" ∷ "recent" ∷ "breaking" ∷ "news" ∷ "live"
    ∷ "market" ∷ "markets" ∷ "war" ∷ "ceasefire" ∷ "election" ∷ "tariff" ∷ "sanctions" ∷ "price"
    ∷ "prices" ∷ "stocks" ∷ "oil" ∷ "conflict" ∷ []

-- `_LITERATURE_QUERY_HINTS`
abbrev pub literature_query_hints : List String
literature_query_hints =
    "literature" ∷ "paper" ∷ "papers" ∷ "review" ∷ "survey" ∷ "academic" ∷ "study" ∷ "studies"
    ∷ "journal" ∷ "evidence" ∷ "citation" ∷ "citations" ∷ "meta-analysis" ∷ []

-- `_SCENARIO_HINTS`
abbrev scenario_hints : List String
scenario_hints =
    "scenario" ∷ "forecast" ∷ "predict" ∷ "projection" ∷ "hypothetical" ∷ "would happen" ∷ "what if"
    ∷ []

abbrev year_hints : List String
year_hints = "war" ∷ "latest" ∷ "current" ∷ "today" ∷ "market" ∷ "price" ∷ "conflict" ∷ []

abbrev event_hints : List String
event_hints = "as of" ∷ "what happened" ∷ "why did" ∷ "how did" ∷ []

-- `re.sub(r"\s+", " ", text)`; `after_space` is whether the last character was a space
unfoldable pub squeeze : Bool → List ℕ → List ℕ
unfolding is_space
squeeze after_space [] = []
squeeze after_space (c ∷ s) =
    if is_space c
    then (if after_space then squeeze true s else b' ' ∷ squeeze true s)
    else c ∷ squeeze false s

-- `_normalized_query`
unfoldable pub normalized_query : String → List ℕ
unfolding squeeze strip lower
normalized_query description = lower (strip (squeeze false (codes description)))

-- `_score_matches`
unfoldable pub count_hints : List ℕ → List String → ℕ
unfolding occurs_in
count_hints text [] = 0
count_hints text (hint ∷ hints) =
    let rest = count_hints text hints in if occurs_in (codes hint) text then suc rest else rest

unfoldable pub score_matches : String → List String → ℕ
unfolding count_hints normalized_query
score_matches description hints = count_hints (normalized_query description) hints

abbrev has_hint : String → List String → Bool
has_hint description hints = any (λ h. occurs_in (codes h) (normalized_query description)) hints

-- `_contains_current_year`
unfoldable pub contains_current_year : String → String → Bool
unfolding occurs_in
contains_current_year year description = occurs_in (codes year) (codes description)

-- the score of live hints that `classify_research_mode` adds up
unfoldable pub live_score : String → String → ℕ
unfolding score_matches contains_current_year normalized_query occurs_in
live_score year description =
    score_matches description live_query_hints
    + (if contains_current_year year description && has_hint description year_hints then 2 else 0)
    + (if has_hint description event_hints then 1 else 0)

unfoldable pub mode_of_scores : ℕ → ℕ → ResearchMode
mode_of_scores live papers =
    if leb 2 live && leb 1 papers
    then ResearchMode.hybrid
    else if leb 2 live
    then ResearchMode.live_analysis
    else ResearchMode.literature

-- `classify_research_mode`
unfoldable pub classify_research_mode : String → String → ResearchMode → ResearchMode
unfolding live_score score_matches mode_of_scores
classify_research_mode year description ResearchMode.auto =
    mode_of_scores (live_score year description) (score_matches description literature_query_hints)
classify_research_mode year description requested = requested

-- `_build_source_requirements`
unfoldable pub build_source_requirements : ResearchMode → DepthMode → SourceRequirements
build_source_requirements ResearchMode.literature DepthMode.deep = record {
  total_sources = 30;
  min_academic_or_primary = 15;
  min_fresh_sources = 0;
  freshness_window_days = none;
}
build_source_requirements ResearchMode.literature DepthMode.standard = record {
  total_sources = 15;
  min_academic_or_primary = 8;
  min_fresh_sources = 0;
  freshness_window_days = none;
}
build_source_requirements ResearchMode.live_analysis DepthMode.deep = record {
  total_sources = 20;
  min_academic_or_primary = 0;
  min_fresh_sources = 8;
  freshness_window_days = some 7;
}
build_source_requirements ResearchMode.live_analysis DepthMode.standard = record {
  total_sources = 12;
  min_academic_or_primary = 0;
  min_fresh_sources = 5;
  freshness_window_days = some 7;
}
build_source_requirements _ DepthMode.deep = record {
  total_sources = 30;
  min_academic_or_primary = 10;
  min_fresh_sources = 5;
  freshness_window_days = some 7;
}
build_source_requirements _ DepthMode.standard = record {
  total_sources = 15;
  min_academic_or_primary = 5;
  min_fresh_sources = 3;
  freshness_window_days = some 7;
}

-- `_build_rounds_plan`
unfoldable pub build_rounds_plan : DepthMode → RoundsPlan
build_rounds_plan DepthMode.deep = record { evidence_rounds = 4; critique_rounds = 2 }
build_rounds_plan DepthMode.standard = record { evidence_rounds = 2; critique_rounds = 1 }

-- `build_research_run_profile`
unfoldable pub build_research_run_profile :
    String → String → ResearchMode → DepthMode → ResearchRunProfile
unfolding classify_research_mode build_source_requirements build_rounds_plan normalized_query
    occurs_in
build_research_run_profile year description mode depth = record {
  requested_mode = mode;
  classified_mode = classified;
  depth_mode = depth;
  freshness_required = ltb 0 (build_source_requirements classified depth).min_fresh_sources;
  source_requirements = build_source_requirements classified depth;
  rounds_planned = build_rounds_plan depth;
  scenario_analysis_requested = has_hint description scenario_hints;
}
  where
    classified : ResearchMode
    classified = classify_research_mode year description mode
