-- ===== src/Research/Plan/Create.antt =====
-- shared/research_runs/service.py, `create_research_run`: the rows of a new run. The ranking of agents,
-- of shared/research/catalog.py, is an argument.
use synaptica_web.Prelude.{ℕ, pos, String, Option, none, some, List, [], ◌∷◌}
use synaptica_web.Json.{Json, Fields, null, bool, integer, str, obj, field, end}
use synaptica_web.Research.{Node, Store, RunStatus, NodeStatus, Control}
use synaptica_web.Research.Requests.{get_or_null}
use synaptica_web.Research.Policy.{build_run_policy, trace_summary}
use synaptica_web.Research.Policy.Rounds.{dump_rounds}
use synaptica_web.Research.Report.{supported_workflow}
use synaptica_web.Research.Plan.{
  ResearchMode, DepthMode, ResearchRunProfile, build_research_run_profile,
}
use synaptica_web.Research.Plan.Graph.{PlanNode, plan_nodes}

-- the values of the enums
unfoldable pub mode_text : ResearchMode → String
mode_text ResearchMode.auto = "auto"
mode_text ResearchMode.literature = "literature"
mode_text ResearchMode.live_analysis = "live_analysis"
mode_text ResearchMode.hybrid = "hybrid"

unfoldable pub depth_text : DepthMode → String
depth_text DepthMode.standard = "standard"
depth_text DepthMode.deep = "deep"

abbrev number_or_null : Option ℕ → Json
number_or_null none = null
number_or_null (some n) = integer (pos n)

-- the column `meta`, without the keys of the control state and of the session
unfoldable pub run_meta : ResearchRunProfile → Fields → Fields
unfolding mode_text depth_text dump_rounds trace_summary
run_meta p policy = field "workflow" (str supported_workflow) (
    field "research_mode" (str (mode_text p.requested_mode)) (
      field "classified_mode" (str (mode_text p.classified_mode)) (
        field "depth_mode" (str (depth_text p.depth_mode)) (
          field "freshness_required" (bool p.freshness_required) (
            field "source_requirements"
              (obj (
                field "total_sources" (integer (pos p.source_requirements.total_sources)) (
                  field "min_academic_or_primary"
                    (integer (pos p.source_requirements.min_academic_or_primary))
                    (field "min_fresh_sources"
                      (integer (pos p.source_requirements.min_fresh_sources))
                      (field "freshness_window_days"
                        (number_or_null p.source_requirements.freshness_window_days) end)))))
              (field "rounds_planned"
                (obj (
                  field "evidence_rounds" (integer (pos p.rounds_planned.evidence_rounds))
                    (field "critique_rounds" (integer (pos p.rounds_planned.critique_rounds)) end)))
                (field "rounds_completed"
                  (dump_rounds (record { evidence_rounds = pos 0; critique_rounds = pos 0 }))
                  (field "scenario_analysis_requested" (bool p.scenario_analysis_requested) (
                    field "policy" (obj policy)
                      (field "trace_summary" (obj (trace_summary 0 0 0 0)) end))))))))))

-- the keys that `create_research_run` adds to the parameters of a node
unfoldable pub node_parameters : Fields → Fields
node_parameters policy = field "strict_mode" (get_or_null "strict_mode" policy) (
    field "risk_level" (get_or_null "risk_level" policy) (
      field "quorum_policy" (get_or_null "quorum_policy" policy) (
        field "max_node_attempts" (get_or_null "max_node_attempts" policy) (
          field "reroute_on_failure" (get_or_null "reroute_on_failure" policy)
            (field "max_swarm_rounds" (get_or_null "max_swarm_rounds" policy) end)))))

-- the row of a node
abbrev first_or : String → List String → String
first_or default [] = default
first_or default (a ∷ agents) = a

unfoldable pub new_node : (PlanNode → List String) → PlanNode → Node
new_node rank n = record {
  node_id = n.node_id;
  assigned_agent_id = first_or n.assigned_agent_id (rank n);
  candidate_agent_ids = rank n;
  status = NodeStatus.pending;
  latest_task_id = none;
  latest_payment_id = none;
  result = none;
  error = none;
}

unfoldable pub new_nodes : (PlanNode → List String) → List PlanNode → List Node
unfolding new_node
new_nodes rank [] = []
new_nodes rank (n ∷ nodes) = new_node rank n ∷ new_nodes rank nodes

unfoldable pub new_store : (PlanNode → List String) → Fields → Store
unfolding new_nodes plan_nodes
new_store rank meta = record {
  run = record {
    status = RunStatus.pending;
    control = Control.active;
    control_reason = none;
    meta = meta;
    result = none;
    error = none;
  };
  nodes = new_nodes rank plan_nodes;
  attempts = [];
  tasks = [];
  decisions = [];
}

-- `create_research_run`, with the year and the description of the request and the number of attempts
-- that it asks for; `none` is the exception of an invalid number
unfoldable pub create_research_run :
    (PlanNode → List String) → String → String → Json → Option Store
unfolding new_store run_meta build_run_policy build_research_run_profile
create_research_run rank year description max_node_attempts =
    elim (build_run_policy max_node_attempts) [
      | none ↦ none
      | some policy ↦ some (
          new_store rank (
            run_meta (build_research_run_profile year description ResearchMode.auto DepthMode.deep)
              policy))
    ]
