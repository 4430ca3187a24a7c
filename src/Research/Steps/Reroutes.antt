-- ===== src/Research/Steps/Reroutes.antt =====
-- A retry goes to an agent that has not tried yet, where there is one.
use synaptica_web.Prelude.{
  String, true, false, not, some, List, [], ◌∷◌, ◌≡◌, refl, find, any, All, arith,
}
use synaptica_web.Json.{Fields}
use synaptica_web.Research.{Node, Store, NodeStatus}
use synaptica_web.Research.Policy.{flag, get_run_policy}
use synaptica_web.Research.Executor.{find_node}
use synaptica_web.Research.Retry.{
  used_agents, extract_node_candidate_agent_ids, is_used, next_agent, retry_node, prepare_with,
  prepare_retry_candidate,
}
use synaptica_web.Research.Steps.Updates.{find-node_id, All-at_node}

next_agent-is_used :
    (assigned : String) (candidates : List String) (used : List String)
    → any (λ c. not (is_used used c)) candidates ≡ true
    → is_used used (next_agent true assigned candidates used) ≡ false
unfolding next_agent any find
next_agent-is_used assigned [] used h = ground arith
next_agent-is_used assigned (c ∷ candidates) used h =
    ground (arith, next_agent-is_used assigned candidates used)

trivial : (nodes : List Node) → All {0, 0} (λ _. Unit) nodes
trivial [] = tt
trivial (nd ∷ nodes) = (tt, trivial nodes)

chosen :
    (n error : String) (s u : Store) (nd : Node) (policy : Fields)
    → find_node n s ≡ some nd
    → get_run_policy s.run.meta ≡ some policy
    → flag "reroute_on_failure" policy ≡ true
    → prepare_retry_candidate n error s ≡ some u
    → u ≡ prepare_with nd true error s
unfolding prepare_retry_candidate
chosen n error s u nd policy found known reroute e = ground arith

-- Where the policy has a retry go to another agent and one of the candidates of the node, stripped
-- and not blank, has not been used in an attempt, the node is PENDING afterwards, and its agent is one that has not been used.
pub retry_reroutes :
    (n error : String) (s u : Store) (nd : Node) (policy : Fields)
    → find_node n s ≡ some nd
    → get_run_policy s.run.meta ≡ some policy
    → flag "reroute_on_failure" policy ≡ true
    → any
        (λ c. not (is_used (used_agents n s.attempts) c))
        (extract_node_candidate_agent_ids nd.candidate_agent_ids)
      ≡ true
    → prepare_retry_candidate n error s ≡ some u
    → All
        (λ x.
          x.node_id ≡ n
          → (x.status ≡ NodeStatus.pending)
            × (is_used (used_agents n s.attempts) x.assigned_agent_id ≡ false))
        u.nodes
unfolding prepare_with retry_node
retry_reroutes n error s u nd policy found known reroute free e =
    rw (chosen n error s u nd policy found known reroute e) (
      rw (find-node_id n nd s.nodes found) (
        All-at_node (λ _. Unit) _ n
          (retry_node error (
            next_agent true nd.assigned_agent_id
              (extract_node_candidate_agent_ids nd.candidate_agent_ids) (used_agents n s.attempts)))
          (λ x same h k. (
            refl,
            next_agent-is_used nd.assigned_agent_id
                (extract_node_candidate_agent_ids nd.candidate_agent_ids) (used_agents n s.attempts)
                free,
          ))
          (λ x other h k. absurd (other k)) s.nodes (trivial s.nodes)))
