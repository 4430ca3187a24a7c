-- ===== src/Research/Steps/Cancels.antt =====
-- Two orders of requests in which a cancellation is lost.
use synaptica_web.Prelude.{
  String, Bool, false, some, List, [], ◌∷◌, ◌==◌, ◌≡◌, refl, find, arith, if◌then◌else◌, Bool-cases,
  inl, inr,
}
use synaptica_web.Research.{
  Node, Attempt, Store, RunStatus, NodeStatus, Control, is_terminal_run_status, is_idle, at_status,
}
use synaptica_web.Research.Requests.{
  request_cancel, request_cancellation, cancel_with, cancel_at_once, cancel_pending_nodes,
  cancel_node, cancelled_by_user, running_attempts, active_nodes, request_pause, pause_with,
  request_resume,
}
use synaptica_web.Research.Executor.{find_node, create_attempt, create_for}

-- a node is found after an update by status that keeps the ids
find-at_status :
    (n : String) (p : NodeStatus → Bool) (f : Node → Node)
    → ((nd : Node) → (f nd).node_id ≡ nd.node_id)
    → (nodes : List Node) (nd : Node) → find (λ x. x.node_id == n) nodes ≡ some nd
    → (nd' : Node) × (find (λ x. x.node_id == n) (at_status p f nodes) ≡ some nd')
unfolding find
find-at_status n p f same [] nd e = ground arith
find-at_status n p f same (x ∷ nodes) nd e = elim (Bool-cases (x.node_id == n)) [
  | inl hit ↦ ((if p x.status then f x else x), ground (arith, same x))
  | inr miss ↦
      let (nd', e') = find-at_status n p f same nodes nd (ground arith) in
      (nd', ground (arith, same x))
]

-- what a cancellation does in either case
cancel_idle :
    (s : Store)
    → is_terminal_run_status s.run.status ≡ false
    → running_attempts s ≡ []
    → request_cancel s ≡ cancel_at_once (record s { run = request_cancellation s.run })
unfolding request_cancel cancel_with
cancel_idle s alive none_runs = rw (alive, none_runs) refl

cancel_busy :
    (s : Store) (x : Attempt) (xs : List Attempt)
    → is_terminal_run_status s.run.status ≡ false
    → running_attempts s ≡ x ∷ xs
    → request_cancel s ≡ cancel_with (x ∷ xs) (record s { run = request_cancellation s.run })
unfolding request_cancel
cancel_busy s x xs alive runs = rw (alive, runs) refl

-- In a run that has not ended and that no attempt is running for, a cancellation sets the status to
-- CANCELLED; an attempt that the executor then makes, having passed its wait before, sets it to RUNNING
-- again, while the control state stays cancelled.
pub late_cancel :
    (s : Store) (n a t : String) (nd : Node)
    → is_terminal_run_status s.run.status ≡ false
    → running_attempts s ≡ []
    → find_node n s ≡ some nd
    → ((request_cancel s).run.status ≡ RunStatus.cancelled)
      × (u : Store) × (create_attempt n a t (request_cancel s) ≡ some u)
      × (u.run.status ≡ RunStatus.running)
      × (u.run.control ≡ Control.cancelled)
unfolding cancel_at_once cancel_pending_nodes create_attempt create_for cancel_node
late_cancel s n a t nd alive none_runs found =
    let (nd', e) =
      find-at_status n is_idle (cancel_node cancelled_by_user) (λ x. refl) s.nodes nd found in
    let u = create_for nd' a t (cancel_at_once (record s { run = request_cancellation s.run })) in
    rw (cancel_idle s alive none_runs) (refl, u, rw (e, create_attempt) refl, refl, refl)

-- In a run that has not ended and that has one active node and an attempt that is running, a request
-- for a cancellation is withdrawn by a request for a pause, which leaves the control state at
-- pause_requested, and by a request to resume, which leaves it active.
pub cancel_withdrawn :
    (s : Store) (x : Attempt) (xs : List Attempt) (nd : Node)
    → is_terminal_run_status s.run.status ≡ false
    → running_attempts s ≡ x ∷ xs
    → active_nodes s ≡ nd ∷ []
    → ((request_cancel s).run.control ≡ Control.cancel_requested)
      × ((request_resume (request_cancel s)).run.control ≡ Control.active)
      × (u : Store) × (request_pause (request_cancel s) ≡ some u)
      × (u.run.control ≡ Control.pause_requested)
unfolding cancel_with request_resume request_pause pause_with
cancel_withdrawn s x xs nd alive runs active =
    rw (cancel_busy s x xs alive runs) (refl, rw alive refl, paused, rw (alive, active) refl, refl)
  where
    busy : Store
    busy = cancel_with (x ∷ xs) (record s { run = request_cancellation s.run })

    paused : Store
    paused = record busy {
      run = record busy.run {
        control = Control.pause_requested;
        control_reason = some "Pause requested by user";
      };
    }
