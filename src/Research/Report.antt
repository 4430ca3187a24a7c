-- ===== src/Research/Report.antt =====
-- shared/research_runs/service.py: the result that `_mark_completed` puts together from the nodes.
use synaptica_web.Prelude.{
  String, Option, none, some, List, [], ◌∷◌, ◌==◌, find, if◌then◌else◌, false,
}
use synaptica_web.Json.{
  Json, Fields, Items, null, bool, str, arr, obj, nil, cons, field, end, get, is_truthy,
}
use synaptica_web.Research.{Node, Store, NodeStatus}
use synaptica_web.Research.Requests.{get_or_null}
use synaptica_web.Research.Policy.Rounds.{merge_rounds_completed, dump_rounds}

-- `_enum_value` of a status
unfoldable pub status_text : NodeStatus → String
status_text NodeStatus.pending = "pending"
status_text NodeStatus.running = "running"
status_text NodeStatus.waiting_for_review = "waiting_for_review"
status_text NodeStatus.completed = "completed"
status_text NodeStatus.failed = "failed"
status_text NodeStatus.blocked = "blocked"
status_text NodeStatus.cancelled = "cancelled"

abbrev pub or_null : Option Json → Json
or_null none = null
or_null (some v) = v

abbrev pub text_or_null : Option String → Json
text_or_null none = null
text_or_null (some s) = str s

-- `x or y` of JSON values
abbrev pub or_json : Json → Json → Json
or_json x y = if is_truthy x then x else y

-- `d.get(key, default) if isinstance(d, dict) else default`
abbrev pub field_or : String → Json → Json → Json
field_or k default (obj fs) = elim (get k fs) [ none ↦ default | some v ↦ v ]
field_or k default _ = default

-- `meta.get(key, default)`
abbrev pub meta_or : String → Json → Fields → Json
meta_or k default fs = field_or k default (obj fs)

-- the result of the first node with an id, null where there is none
unfoldable pub result_of : String → List Node → Json
result_of n nodes = elim (find (λ nd. nd.node_id == n) nodes) [
  | none ↦ null
  | some nd ↦ or_null nd.result
]

-- a member of `node_payloads`; the title of a node is fixed by its id in a plan, and left out
unfoldable pub step_payload : Node → Json
unfolding status_text
step_payload nd = obj (
    field "node_id" (str nd.node_id) (
      field "status" (str (status_text nd.status)) (
        field "assigned_agent_id" (str nd.assigned_agent_id) (
          field "task_id" (text_or_null nd.latest_task_id) (
            field "payment_id" (text_or_null nd.latest_payment_id)
              (field "result" (or_null nd.result) end))))))

unfoldable pub step_payloads : List Node → Items
unfolding step_payload
step_payloads [] = nil
step_payloads (nd ∷ nodes) = cons (step_payload nd) (step_payloads nodes)

-- `SUPPORTED_RESEARCH_RUN_WORKFLOW`
abbrev pub supported_workflow : String
supported_workflow =
    "plan_query -> gather_evidence -> curate_sources -> draft_synthesis -> critique_and_fact_check -> revise_final_answer"

-- what `_mark_completed` reads of the nodes
pub record Findings : Type 0 where
  pub evidence : Json
  pub curated_sources : Json
  pub draft : Json
  pub critique : Json
  pub final_answer : Json

unfoldable pub findings_of : List Node → Findings
unfolding result_of
findings_of nodes = record {
  evidence = result_of "gather_evidence" nodes;
  curated_sources = result_of "curate_sources" nodes;
  draft = result_of "draft_synthesis" nodes;
  critique = result_of "critique_and_fact_check" nodes;
  final_answer = result_of "revise_final_answer" nodes;
}

unfoldable pub rounds_of : Findings → Json
unfolding merge_rounds_completed dump_rounds
rounds_of f = dump_rounds (merge_rounds_completed (f.evidence ∷ f.critique ∷ f.final_answer ∷ []))

-- the keys from `answer` on
unfoldable pub answer_fields : Findings → Fields
answer_fields f = field "answer" (field_or "answer" null f.final_answer) (
    field "answer_markdown"
      (or_json (field_or "answer_markdown" null f.final_answer)
        (field_or "answer" null f.final_answer))
      (field "citations" (field_or "citations" (arr nil) f.final_answer) (
        field "source_summary" (final_or_curated "source_summary") (
          field "freshness_summary" (final_or_curated "freshness_summary") (
            field "quality_summary"
              (or_json (field_or "quality_summary" null f.final_answer)
                (field_or "quality_summary" null f.draft))
              (field "limitations" (field_or "limitations" (arr nil) f.final_answer) (
                field "claims" (field_or "claims" (arr nil) f.final_answer) (
                  field "critic_findings" (field_or "critic_findings" (arr nil) f.critique) (
                    field "filtered_sources"
                      (or_json (field_or "filtered_sources" null f.curated_sources) (arr nil))
                      (field "sources" sources end))))))))))
  where
    final_or_curated : String → Json
    final_or_curated k =
        or_json (field_or k null f.final_answer) (field_or k null f.curated_sources)

    sources : Json
    sources = or_json (final_or_curated "sources") (sources_of f.evidence)
      where
        sources_of : Json → Json
        sources_of (obj fs) = get_or_null "sources" fs
        sources_of _ = arr nil

-- `result`; the id and the template of a run are fixed when it is made, and left out
unfoldable pub run_result : Store → Json
unfolding answer_fields rounds_of findings_of step_payloads result_of
run_result s = obj (
    field "workflow" (meta_or "workflow" (str supported_workflow) meta) (
      field "research_mode" (meta_or "research_mode" (str "auto") meta) (
        field "classified_mode" (meta_or "classified_mode" (str "literature") meta) (
          field "depth_mode" (meta_or "depth_mode" (str "standard") meta) (
            field "freshness_required" (meta_or "freshness_required" (bool false) meta) (
              field "source_requirements"
                (or_json (get_or_null "source_requirements" meta) (obj end))
                (field "rounds_planned" (or_json (get_or_null "rounds_planned" meta) (obj end)) (
                  field "rounds_completed" (rounds_of f) (
                    field "steps" (arr (step_payloads s.nodes)) (
                      field "planning" (result_of "plan_query" s.nodes) (
                        field "evidence" f.evidence (
                          field "curated_sources" f.curated_sources (
                            field "draft" f.draft (
                              field "critique" f.critique
                                (field "report" f.final_answer (answer_fields f))))))))))))))))
  where
    meta : Fields
    meta = s.run.meta

    f : Findings
    f = findings_of s.nodes
