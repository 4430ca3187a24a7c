-- ===== src/Research/Plan/Graph.antt =====
-- shared/research_runs/planner.py: the graph of `build_research_run_plan`.
use synaptica_web.Prelude.{ℕ, String, List, [], ◌∷◌}

-- `ResearchRunPlanNode`; a binding is a parameter and the node whose result it is
pub record PlanNode : Type 0 where
  pub node_id : String
  pub assigned_agent_id : String
  pub execution_order : ℕ
  pub input_bindings : List (String × String)

-- `ResearchRunPlanEdge`
pub record PlanEdge : Type 0 where
  pub from_node_id : String
  pub to_node_id : String

-- the nodes of `build_research_run_plan`
unfoldable pub plan_nodes : List PlanNode
plan_nodes =
    record {
      node_id = "plan_query";
      assigned_agent_id = "problem-framer-001";
      execution_order = 0;
      input_bindings = [];
    }
    ∷ record {
      node_id = "gather_evidence";
      assigned_agent_id = "literature-miner-001";
      execution_order = 1;
      input_bindings = ("query_plan", "plan_query") ∷ [];
    }
    ∷ record {
      node_id = "curate_sources";
      assigned_agent_id = "literature-miner-001";
      execution_order = 2;
      input_bindings = ("query_plan", "plan_query") ∷ ("gathered_evidence", "gather_evidence") ∷ [];
    }
    ∷ record {
      node_id = "draft_synthesis";
      assigned_agent_id = "knowledge-synthesizer-001";
      execution_order = 3;
      input_bindings = ("query_plan", "plan_query") ∷ ("curated_sources", "curate_sources") ∷ [];
    }
    ∷ record {
      node_id = "critique_and_fact_check";
      assigned_agent_id = "knowledge-synthesizer-001";
      execution_order = 4;
      input_bindings =
          ("query_plan", "plan_query")
          ∷ ("curated_sources", "curate_sources")
          ∷ ("draft_synthesis", "draft_synthesis")
          ∷ [];
    }
    ∷ record {
      node_id = "revise_final_answer";
      assigned_agent_id = "knowledge-synthesizer-001";
      execution_order = 5;
      input_bindings =
          ("query_plan", "plan_query")
          ∷ ("curated_sources", "curate_sources")
          ∷ ("draft_synthesis", "draft_synthesis")
          ∷ ("critic_review", "critique_and_fact_check")
          ∷ [];
    }
    ∷ []

-- its edges
unfoldable pub plan_edges : List PlanEdge
plan_edges =
    record { from_node_id = "plan_query"; to_node_id = "gather_evidence" }
    ∷ record { from_node_id = "gather_evidence"; to_node_id = "curate_sources" }
    ∷ record { from_node_id = "curate_sources"; to_node_id = "draft_synthesis" }
    ∷ record { from_node_id = "draft_synthesis"; to_node_id = "critique_and_fact_check" }
    ∷ record { from_node_id = "critique_and_fact_check"; to_node_id = "revise_final_answer" }
    ∷ []
