-- ===== src/Research/Steps/Settled/Endings.antt =====
-- What a user can rely on, whatever the order of the requests and of the executor's steps.
use mathlib.Core.Logic.{◌≢◌}
use synaptica_web.Prelude.{
  All-map, ℕ, String, true, false, Option, List, ◌==◌, ◌≡◌, refl, any, All, arith,
}
use synaptica_web.Research.{Store, RunStatus, NodeStatus, Control, is_idle}
use synaptica_web.Research.Requests.{wait_for_control_state, poll_with, Poll}
use synaptica_web.Research.Steps.{
  Owner, Stage, starting, finished, Ending, completes, fails, cancels, overruns, IsWait, Reach,
}
use synaptica_web.Research.Steps.Pauses.{IsNew}
use synaptica_web.Research.Steps.Settled.{is_down, is_done, goes_on, GoesOn}
use synaptica_web.Research.Steps.Settled.Work.{Left, AtStage}
use synaptica_web.Research.Steps.Settled.Outcome.{Reach-AtStage}

-- the schedule has every node of the run
abbrev pub Covers : List String → Store → Type 0
Covers todo s = All (λ nd. any (λ m. nd.node_id == m) todo ≡ true) s.nodes

new-AtStage : (todo : List String) (s : Store) → IsNew s → Covers todo s → AtStage (starting todo) s
new-AtStage todo s h c = (rw h.status refl, All-map _ _ (λ nd e. rw e refl) s.nodes c)

pub new_run-AtStage :
    {m : String → ℕ} {s : Store} {todo : List String} {at : Stage} {u : Store}
    → IsNew s
    → Covers todo s
    → Reach m s (starting todo) u at
    → AtStage at u
new_run-AtStage {s = s} {todo = todo} h c r = Reach-AtStage h.ids (new-AtStage todo s h c) r

-- how a run and its nodes are left
abbrev pub Outcome : Ending → Store → Type 0
Outcome completes u =
    (u.run.status ≡ RunStatus.completed) × All (λ nd. is_done nd.status ≡ true) u.nodes
Outcome (overruns todo) u = (u.run.status ≡ RunStatus.completed) × Left todo u.nodes
Outcome fails u = (is_down u.run.status ≡ true) × All (λ nd. nd.status ≢ NodeStatus.pending) u.nodes
Outcome cancels u =
    (u.run.status ≡ RunStatus.cancelled) × All (λ nd. is_idle nd.status ≡ false) u.nodes

pub run-Outcome :
    {m : String → ℕ} {s : Store} {todo : List String} {ending : Ending} {o : Option Owner}
    {u : Store}
    → IsNew s
    → Covers todo s
    → Reach m s (starting todo) u (finished ending o)
    → Outcome ending u
run-Outcome {ending = completes} h c r = new_run-AtStage h c r
run-Outcome {ending = overruns todo} h c r = new_run-AtStage h c r
run-Outcome {ending = fails} {u = u} h c r =
    let (down, clear) = new_run-AtStage h c r in
    (down, All-map _ _ (λ nd e k. ground arith) u.nodes clear)
run-Outcome {ending = cancels} h c r = new_run-AtStage h c r

waits-GoesOn : {st st' : Stage} (s : Store) → IsWait st st' → AtStage st s → GoesOn s
waits-GoesOn s IsWait.wait_of_run h = h.0
waits-GoesOn s IsWait.wait_of_node h = h.0

proceeds_if_active :
    (c : Control) (st : RunStatus) (s : Store)
    → goes_on st c ≡ true
    → poll_with c s ≡ Poll.proceed
    → (st ≢ RunStatus.paused) × (st ≢ RunStatus.cancelled)
unfolding poll_with
proceeds_if_active Control.active st s g e = (λ p. ground arith, λ p. ground arith)
proceeds_if_active Control.pause_requested st s g e = ground arith
proceeds_if_active Control.paused st s g e = ground arith
proceeds_if_active Control.cancel_requested st s g e = ground arith
proceeds_if_active Control.cancelled st s g e = ground arith

-- From a new run on, with a schedule that has all of its nodes and in any order of the steps and of
-- the requests of its user: the executor does not pass a wait for the control state while the status
-- of the run is PAUSED or CANCELLED.
pub waits_while_paused :
    {m : String → ℕ} {s : Store} {todo : List String} {at : Stage} {u : Store} {to : Stage}
    → IsNew s
    → Covers todo s
    → Reach m s (starting todo) u at
    → IsWait at to
    → wait_for_control_state u ≡ Poll.proceed
    → (u.run.status ≢ RunStatus.paused) × (u.run.status ≢ RunStatus.cancelled)
unfolding wait_for_control_state
waits_while_paused {u = u} h c r w e =
    proceeds_if_active u.run.control u.run.status u (waits-GoesOn u w (new_run-AtStage h c r)) e
