-- ===== src/Research/Retry.antt =====
-- shared/research_runs/service.py: whether a failed attempt is followed by another, and by whom.
use synaptica_web.Prelude.{
  ℕ, String, Bool, true, false, not, ◌||◌, Option, none, some, List, [], ◌∷◌, ◌==◌, find, any, leb,
  ltb, if◌then◌else◌,
}
use synaptica_web.Text.{strip_text}
use synaptica_web.Json.{Fields}
use synaptica_web.Research.{Node, Attempt, Store, NodeStatus, at_node}
use synaptica_web.Research.Policy.{flag, get_run_policy}
use synaptica_web.Research.Executor.{find_node}

-- `_should_retry_attempt`
unfoldable pub should_retry_attempt : ℕ → ℕ → Option Fields → Bool → Bool
should_retry_attempt max_node_attempts completed_attempts result cancelled =
    if cancelled || leb max_node_attempts completed_attempts then false else elim result [
      | none ↦ true
      | some fs ↦ flag "retry_recommended" fs || ltb completed_attempts max_node_attempts
    ]

-- the agents of the attempts of a node, stripped
unfoldable pub used_agents : String → List Attempt → List String
unfolding strip_text
used_agents n [] = []
used_agents n (x ∷ xs) =
    let rest = used_agents n xs in
    if x.node_id == n
    then elim x.agent_id [ none ↦ rest | some a ↦ if a == "" then rest else strip_text a ∷ rest ]
    else rest

abbrev pub is_used : List String → String → Bool
is_used used candidate = any (λ a. a == candidate) used

-- `_extract_node_candidate_agent_ids`
unfoldable pub extract_node_candidate_agent_ids : List String → List String
unfolding strip_text
extract_node_candidate_agent_ids [] = []
extract_node_candidate_agent_ids (c ∷ candidates) =
    let rest = extract_node_candidate_agent_ids candidates in
    let stripped = strip_text c in if stripped == "" then rest else stripped ∷ rest

-- The next agent: the first candidate that is not used, where the policy has a retry go to another;
-- else the agent stays.
unfoldable pub next_agent : Bool → String → List String → List String → String
next_agent reroute assigned candidates used =
    if reroute
    then elim (find (λ c. not (is_used used c)) candidates) [ none ↦ assigned | some c ↦ c ]
    else assigned

unfoldable pub retry_node : String → String → Node → Node
retry_node error agent nd = record nd {
  status = NodeStatus.pending;
  result = none;
  error = some error;
  assigned_agent_id = agent;
}

-- `_prepare_retry_candidate`; `none` is the exception where the node or the policy cannot be read
unfoldable pub prepare_with : Node → Bool → String → Store → Store
unfolding next_agent used_agents extract_node_candidate_agent_ids retry_node
prepare_with nd reroute error s = record s {
  nodes =
      at_node nd.node_id
        (retry_node error (
          next_agent reroute nd.assigned_agent_id
            (extract_node_candidate_agent_ids nd.candidate_agent_ids)
            (used_agents nd.node_id s.attempts)))
        s.nodes;
}

unfoldable pub prepare_retry_candidate : String → String → Store → Option Store
unfolding prepare_with get_run_policy
prepare_retry_candidate n error s = elim (find_node n s) [
  | none ↦ none
  | some nd ↦ elim (get_run_policy s.run.meta) [
    | none ↦ none
    | some policy ↦ some (prepare_with nd (flag "reroute_on_failure" policy) error s)
  ]
]
