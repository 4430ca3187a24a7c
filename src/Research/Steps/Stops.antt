-- ===== src/Research/Steps/Stops.antt =====
-- A cancellation that the executor sees in a wait ends the run.
use synaptica_web.Prelude.{ℕ, String, Bool, true, false, none, List, [], ◌∷◌, ◌≡◌, refl, All, arith}
use synaptica_web.Research.{Node, Store, RunStatus, Control, is_idle, at_status}
use synaptica_web.Research.Requests.{
  wait_for_control_state, poll_with, Poll, or_text, cancelled_by_user, cancel_pending_nodes,
  cancel_node,
}
use synaptica_web.Research.Executor.{mark_cancelled}
use synaptica_web.Research.Steps.{
  waiting, entering, failing, cancelling, Working, Stage, finished, cancels, IsWait, Step, Reach,
}
use synaptica_web.Research.Steps.Bounded.{moves}

-- a control state that ends a wait
abbrev pub is_cancelling : Control → Bool
is_cancelling Control.cancel_requested = true
is_cancelling Control.cancelled = true
is_cancelling _ = false

stops_with :
    (c : Control) (s : Store)
    → is_cancelling c ≡ true
    → poll_with c s ≡ Poll.stop (or_text s.run.control_reason cancelled_by_user)
unfolding poll_with
stops_with Control.cancel_requested s h = refl
stops_with Control.cancelled s h = refl
stops_with Control.active s h = ground arith
stops_with Control.pause_requested s h = ground arith
stops_with Control.paused s h = ground arith

swept :
    (reason : String) (nodes : List Node)
    → All (λ nd. is_idle nd.status ≡ false) (at_status is_idle (cancel_node reason) nodes)
unfolding cancel_node
swept reason [] = tt
swept reason (nd ∷ nodes) = (ground arith, swept reason nodes)

-- A step from a wait is a request of the user, which leaves the executor there, the cancellation, or
-- an exception, and the latter two leave the rows.
abbrev pub LeavesTo :
    String → {m : String → ℕ} {s v : Store} {at next : Stage} → Step m s at v next → Type 0
LeavesTo reason (Step.pause e) = Unit
LeavesTo reason Step.resume = Unit
LeavesTo reason Step.cancel = Unit
LeavesTo reason {s = s} {v = v} {next = next} (Step.stop st' w e) =
    (next ≡ cancelling reason) × (v ≡ s)
LeavesTo reason {s = s} {v = v} {next = next} (Step.crash error w) =
    (next ≡ failing none error) × (v ≡ s)
LeavesTo reason _ = ¬ Unit

leaves_run :
    {m : String → ℕ} {s : Store} {todo : List String} {reason : String}
    → wait_for_control_state s ≡ Poll.stop reason
    → (v : Store) (next : Stage) (st : Step m s (waiting todo) v next) → LeavesTo reason st
leaves_run h v next (Step.pause e) = tt
leaves_run h v next Step.resume = tt
leaves_run h v next Step.cancel = tt
leaves_run h v next (Step.proceed x e) = absurd (ground arith)
leaves_run h v next (Step.sleep st' x e) = absurd (ground arith)
leaves_run h v next (Step.stop st' x e) = (ground arith, refl)
leaves_run h v next (Step.crash error Working.at_start) = (refl, refl)

leaves_node :
    {m : String → ℕ} {s : Store} {n : String} {todo : List String} {reason : String}
    → wait_for_control_state s ≡ Poll.stop reason
    → (v : Store) (next : Stage) (st : Step m s (entering n todo) v next) → LeavesTo reason st
leaves_node h v next (Step.pause e) = tt
leaves_node h v next Step.resume = tt
leaves_node h v next Step.cancel = tt
leaves_node h v next (Step.proceed x e) = absurd (ground arith)
leaves_node h v next (Step.sleep st' x e) = absurd (ground arith)
leaves_node h v next (Step.stop st' x e) = (ground arith, refl)
leaves_node h v next (Step.crash error Working.at_node_start) = (refl, refl)

leaves :
    {m : String → ℕ} {s : Store} {at to : Stage} {reason : String}
    → IsWait at to
    → wait_for_control_state s ≡ Poll.stop reason
    → (v : Store) (next : Stage) (st : Step m s at v next) → LeavesTo reason st
leaves IsWait.wait_of_run h = leaves_run h
leaves IsWait.wait_of_node h = leaves_node h

-- In a wait in which the control state is cancel_requested or cancelled, three steps of the executor
-- lead to its end, with the run CANCELLED and no node PENDING or BLOCKED. Every step from that wait is
-- a request of the user, or the first of those three, or an exception that the wait itself raises: the
-- executor neither goes on to its work nor sleeps.
pub wait_stops :
    (m : String → ℕ) (s : Store) (at to : Stage)
    → IsWait at to
    → is_cancelling s.run.control ≡ true
    → ((u : Store) × (r : Reach m s at u (finished cancels none)) × (moves r ≡ 3)
        × (u.run.status ≡ RunStatus.cancelled)
        × All (λ nd. is_idle nd.status ≡ false) u.nodes)
      × ((v : Store) (next : Stage) (st : Step m s at v next)
          → LeavesTo (or_text s.run.control_reason cancelled_by_user) st)
unfolding wait_for_control_state mark_cancelled cancel_pending_nodes
wait_stops m s at to w h = ((u, r, refl, refl, swept reason s.nodes), leaves w stopped)
  where
    reason : String
    reason = or_text s.run.control_reason cancelled_by_user

    stopped : poll_with s.run.control s ≡ Poll.stop (or_text s.run.control_reason cancelled_by_user)
    stopped = stops_with s.run.control s h

    u : Store
    u = cancel_pending_nodes reason (mark_cancelled reason s)

    r : Reach m s at u (finished cancels none)
    r =
        Reach.next (Reach.next (Reach.next Reach.here (Step.stop to w stopped)) Step.cancel_run)
          Step.sweep
