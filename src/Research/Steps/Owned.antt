-- ===== src/Research/Steps/Owned.antt =====
-- Only the attempt that the executor works on is running, and only its node: so a pause, which
-- looks for one active node, is never asked about two.
pub mod Reached
use synaptica_web.Prelude.{
  All-map, String, Bool, true, false, Option, none, some, List, ◌≡◌, refl, All, arith, inl, inr,
}
use synaptica_web.Json.{Fields}
use synaptica_web.Research.{
  Node, Attempt, Task, Store, NodeStatus, is_running, is_active, is_idle, at_node, at_attempt,
  at_status,
}
use synaptica_web.Research.Requests.{request_pause, request_cancel, cancel_node, cancelled_by_user}
use synaptica_web.Research.Executor.{create_attempt, create_for, new_attempt, start_node}
use synaptica_web.Research.Finish.{
  finalize_attempt, finalize_rows, finish_node, finish_attempt, node_end, record_attempt_failure,
  fail_node, fail_attempt,
}
use synaptica_web.Research.Policy.{flag}
use synaptica_web.Research.Retry.{prepare_retry_candidate, prepare_with, retry_node}
use synaptica_web.Research.Steps.{Owner, Stage, attempting, failing, blocking, finished}
use synaptica_web.Research.Steps.Updates.{
  All-at_node, All-at_attempt, All-at_status, created, finalized, prepared, paused_rows,
  cancel-KeepsRows,
}

abbrev pub owner : Stage → Option Owner
owner (attempting n a t todo) = some (record { node = n; attempt = a })
owner (failing o error) = o
owner (blocking o) = o
owner (finished e o) = o
owner _ = none

-- the node is the owner's
abbrev pub HoldsNode : Option Owner → String → Type 0
HoldsNode none n = ¬ Unit
HoldsNode (some o) n = n ≡ o.node

abbrev pub HoldsAttempt : Option Owner → String → Type 0
HoldsAttempt none a = ¬ Unit
HoldsAttempt (some o) a = a ≡ o.attempt

abbrev pub NodeOwned : Option Owner → Node → Type 0
NodeOwned o nd = is_active nd.status ≡ true → HoldsNode o nd.node_id × (is_running nd.status ≡ true)

abbrev pub AttemptOwned : Option Owner → Attempt → Type 0
AttemptOwned o x = is_running x.status ≡ true → HoldsAttempt o x.attempt_id

pub record IsOwned (o : Option Owner) (s : Store) : Type 0 where
  pub nodes : All (NodeOwned o) s.nodes
  pub attempts : All (AttemptOwned o) s.attempts

-- an update by status that leaves no node active keeps the owner
quiet_nodes :
    (o : Option Owner) (p : NodeStatus → Bool) (f : Node → Node)
    → ((nd : Node) → is_active (f nd).status ≡ false)
    → (nodes : List Node) → All (NodeOwned o) nodes
    → All (NodeOwned o) (at_status p f nodes)
quiet_nodes o p f off =
    All-at_status (NodeOwned o) (NodeOwned o) p f (λ nd e h a. ground (arith, off nd)) (λ nd e h. h)

-- an update of one node that leaves it inactive keeps the owner
quiet_node :
    (o : Option Owner) (n : String) (f : Node → Node)
    → ((nd : Node) → is_active (f nd).status ≡ false)
    → (nodes : List Node) → All (NodeOwned o) nodes
    → All (NodeOwned o) (at_node n f nodes)
quiet_node o n f off =
    All-at_node (NodeOwned o) (NodeOwned o) n f (λ nd e h a. ground (arith, off nd)) (λ nd e h. h)

-- after an update that stops the owner's node, no node is active
release_nodes :
    (n a : String) (f : Node → Node)
    → ((nd : Node) → is_running nd.status ≡ true → is_active (f nd).status ≡ false)
    → ((nd : Node) → is_active nd.status ≡ false → is_active (f nd).status ≡ false)
    → (nodes : List Node) → All (NodeOwned (some (record { node = n; attempt = a }))) nodes
    → All (NodeOwned none) (at_node n f nodes)
release_nodes n a f off off' =
    All-at_node (NodeOwned (some (record { node = n; attempt = a }))) (NodeOwned none) n f
      (λ nd e h k. ground (arith, off nd, off' nd)) (λ nd e h k. ground (arith, h k))

-- an update that stops the owner's attempt
release_attempts :
    (n a : String) (f : Attempt → Attempt)
    → ((x : Attempt) → is_running (f x).status ≡ false)
    → (xs : List Attempt) → All (AttemptOwned (some (record { node = n; attempt = a }))) xs
    → All (AttemptOwned none) (at_attempt a f xs)
release_attempts n a f off =
    All-at_attempt (AttemptOwned (some (record { node = n; attempt = a }))) (AttemptOwned none) a f
      (λ x e h k. ground (arith, off x)) (λ x e h k. ground (arith, h k))

take_nodes :
    (n a : String) (f : Node → Node)
    → ((nd : Node) → ((f nd).node_id ≡ nd.node_id) × ((f nd).status ≡ NodeStatus.running))
    → (nodes : List Node) → All (NodeOwned none) nodes
    → All (NodeOwned (some (record { node = n; attempt = a }))) (at_node n f nodes)
take_nodes n a f on =
    All-at_node (NodeOwned none) (NodeOwned (some (record { node = n; attempt = a }))) n f
      (λ nd e h k. ground (arith, on nd)) (λ nd e h k. absurd ((h k).0 tt))

create-IsOwned :
    (n a t : String) (s u : Store)
    → create_attempt n a t s ≡ some u
    → IsOwned none s
    → IsOwned (some (record { node = n; attempt = a })) u
unfolding create_for new_attempt start_node
create-IsOwned n a t s u e h =
    let (nd, at, made) = created n a t s u e in
    record {
      nodes = rw made (rw at (take_nodes n a _ (λ x. ground arith) s.nodes h.nodes));
      attempts = rw made (λ k. refl, All-map _ _ (λ x k r. absurd (k r tt)) s.attempts h.attempts);
    }

finalize-IsOwned :
    (n a t : String) (result : Fields) (snapshot : Option Task) (c : Bool) (s u : Store)
    → finalize_attempt n a t result snapshot c s ≡ some u
    → IsOwned (some (record { node = n; attempt = a })) s
    → IsOwned none u
unfolding finalize_rows finish_node finish_attempt
finalize-IsOwned n a t result snapshot c s u e h =
    let (nd, at, made) = finalized n a t result snapshot c s u e in
    record {
      nodes = rw made (
          rw at (
            release_nodes n a _ (λ x k. off c (flag "success" result))
              (λ x k. off c (flag "success" result)) s.nodes h.nodes));
      attempts =
          rw made
            (release_attempts n a _ (λ x. off' c (flag "success" result)) s.attempts h.attempts);
    }
  where
    off : (c b : Bool) → is_active (node_end c b) ≡ false
    off true b = refl
    off false true = refl
    off false false = refl

    off' : (c b : Bool) → is_running (node_end c b) ≡ false
    off' true b = refl
    off' false true = refl
    off' false false = refl

failure-IsOwned :
    (n a t error : String) (result : Option Fields) (c : Bool) (s : Store)
    → IsOwned (some (record { node = n; attempt = a })) s
    → IsOwned none (record_attempt_failure n a t error result c s)
unfolding record_attempt_failure fail_node fail_attempt
failure-IsOwned n a t error result c s h = record {
  nodes = release_nodes n a _ (λ nd k. ground arith) (λ nd k. ground arith) s.nodes h.nodes;
  attempts = release_attempts n a _ (λ x. ground arith) s.attempts h.attempts;
}

retry-IsOwned :
    (n error : String) (s u : Store)
    → prepare_retry_candidate n error s ≡ some u
    → IsOwned none s
    → IsOwned none u
unfolding prepare_with retry_node
retry-IsOwned n error s u e h =
    let (nd, r, at, made) = prepared n error s u e in
    record {
      nodes = rw made (quiet_node none nd.node_id _ (λ x. refl) s.nodes h.nodes);
      attempts = rw made h.attempts;
    }

pause-IsOwned :
    (o : Option Owner) (s u : Store) → request_pause s ≡ some u → IsOwned o s → IsOwned o u
pause-IsOwned o s u e h =
    let (ns, xs) = paused_rows s u e in
    record { nodes = rw ns h.nodes; attempts = rw xs h.attempts }

cancel-IsOwned : (o : Option Owner) (s : Store) → IsOwned o s → IsOwned o (request_cancel s)
unfolding cancel_node
cancel-IsOwned o s h =
    let (xs, ns) = cancel-KeepsRows s in
    record {
      nodes = elim ns [
        | inl same ↦ rw same h.nodes
        | inr swept ↦
            rw swept
              (quiet_nodes o is_idle (cancel_node cancelled_by_user) (λ x. refl) s.nodes h.nodes)
      ];
      attempts = rw xs h.attempts;
    }
