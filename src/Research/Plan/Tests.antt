-- ===== src/Research/Plan/Tests.antt =====
-- A run of the plan that its user cancels at once, and requests that are classified.
use synaptica_web.Prelude.{◌+◌, ◌≤◌, String, false, none, List, [], ◌≡◌, ◌≢◌, ◌↔◌, refl, any, keep}
use synaptica_web.Text.{strip, lstrip, lower, is_space, occurs_in, starts_with}
use synaptica_web.Json.{null, get, to_int}
use synaptica_web.Research.{Store, count_attempts, is_terminal_run_status}
use synaptica_web.Research.Policy.{
  policy_of, build_run_policy, policy_attempts, resolve_max_node_attempts,
}
use synaptica_web.Research.Requests.{
  request_cancel, cancel_with, cancel_at_once, cancel_pending_nodes, wait_for_control_state,
  poll_with,
}
use synaptica_web.Research.Executor.{mark_started, started_status, mark_cancelled}
use synaptica_web.Research.Steps.{starting, finished, cancels, IsWait, Step, Reach}
use synaptica_web.Research.Steps.Bounded.{moves}
use synaptica_web.Research.Steps.Settled.Endings.{Outcome}
use synaptica_web.Research.Plan.{
  ResearchMode, DepthMode, classify_research_mode, mode_of_scores, live_score, score_matches,
  count_hints, contains_current_year, normalized_query, squeeze, build_research_run_profile,
}
use synaptica_web.Research.Plan.Graph.{PlanNode}
use synaptica_web.Research.Plan.Profile.{profile_promises}
use synaptica_web.Research.Plan.Create.{run_meta, new_store, node_parameters, create_research_run}
use synaptica_web.Research.Plan.Whole.{plan_schedule, created_run-Outcome}

abbrev no_agents : PlanNode → List String
no_agents n = []

abbrev request : String
request = "What happened to oil prices?"

abbrev created_store : Store
created_store = new_store no_agents (
    run_meta (build_research_run_profile "2025" request ResearchMode.auto DepthMode.deep)
      (policy_of 1))

abbrev cancelled_store : Store
cancelled_store =
    cancel_pending_nodes "Cancelled by user"
      (mark_cancelled "Cancelled by user" (request_cancel (mark_started created_store)))

to_cancelled :
    Reach (λ _. 1) created_store (starting plan_schedule) cancelled_store (finished cancels none)
unfolding mark_started is_terminal_run_status started_status request_cancel cancel_with
    cancel_at_once cancel_pending_nodes wait_for_control_state poll_with keep new_store
to_cancelled =
    Reach.next
      (Reach.next
        (Reach.next (Reach.next (Reach.next Reach.here Step.start) Step.cancel)
          (Step.stop {reason = "Cancelled by user"} _ IsWait.wait_of_run refl))
        Step.cancel_run)
      Step.sweep

created_run-Outcome_example :
    (moves to_cancelled ≤ 107)
    × ((k : String) → count_attempts k cancelled_store.attempts ≤ 5)
    × Outcome cancels cancelled_store
unfolding create_research_run build_run_policy policy_attempts resolve_max_node_attempts
    node_parameters policy_of get to_int
created_run-Outcome_example =
    created_run-Outcome no_agents "2025" request null created_store (policy_of 1) (λ _. 1) refl refl
      (λ k. refl) to_cancelled

profile_promises_example :
    let p = build_research_run_profile "2025" request ResearchMode.auto DepthMode.deep in
    (p.classified_mode ≢ ResearchMode.auto)
    × (ResearchMode.auto ≢ ResearchMode.auto → p.classified_mode ≡ ResearchMode.auto)
    × (p.source_requirements.min_academic_or_primary + p.source_requirements.min_fresh_sources
        ≤ p.source_requirements.total_sources)
    × (p.freshness_required ≡ false ↔ p.classified_mode ≡ ResearchMode.literature)
profile_promises_example = profile_promises "2025" request ResearchMode.auto DepthMode.deep

-- The hints match inside words: `oil` in soil and `war` in hardware.
hint_inside_words :
    classify_research_mode "2025" "Soil sensors and their hardware" ResearchMode.auto
    ≡ ResearchMode.live_analysis
unfolding classify_research_mode mode_of_scores live_score score_matches count_hints
    contains_current_year normalized_query squeeze strip lstrip lower is_space occurs_in starts_with
    any
hint_inside_words = refl
