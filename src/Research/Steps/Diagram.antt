-- ===== src/Research/Steps/Diagram.antt =====
-- The life of a run as the API shows it: a diagram of statuses, and the edges between them.
pub mod Follows
use synaptica_web.Prelude.{String, true, false, ◌≡◌, refl, arith}
use synaptica_web.Research.{Run, Store, RunStatus, Control, is_terminal_run_status}
use synaptica_web.Research.Requests.{resumed_status}
use synaptica_web.Research.Executor.{started_status, failed_run}
use synaptica_web.Research.Steps.Settled.{goes_on}

-- The diagram: an edge for each change of status that somebody may see.
infix 40 ◌⟶◌
pub data ◌⟶◌ : RunStatus → RunStatus → Type 0 where
  stay : {r : RunStatus} → r ⟶ r
  begin : RunStatus.pending ⟶ RunStatus.running
  review : RunStatus.waiting_for_review ⟶ RunStatus.running
  revive : RunStatus.cancelled ⟶ RunStatus.running
  continue : RunStatus.paused ⟶ RunStatus.running
  hold : {r : RunStatus} → is_terminal_run_status r ≡ false → r ⟶ RunStatus.paused
  drop : {r : RunStatus} → is_terminal_run_status r ≡ false → r ⟶ RunStatus.cancelled
  break : {r : RunStatus} → is_terminal_run_status r ≡ false → r ⟶ RunStatus.failed
  achieve : {r : RunStatus} → is_terminal_run_status r ≡ false → r ⟶ RunStatus.completed
  overtake : RunStatus.cancelled ⟶ RunStatus.completed

pub to_running : (r : RunStatus) (c : Control) → goes_on r c ≡ true → r ⟶ RunStatus.running
to_running RunStatus.pending c h = begin
to_running RunStatus.running c h = stay
to_running RunStatus.waiting_for_review c h = review
to_running RunStatus.paused c h = continue
to_running RunStatus.cancelled c h = revive
to_running RunStatus.completed c h = ground arith
to_running RunStatus.failed c h = ground arith

pub to_completed : (r : RunStatus) (c : Control) → goes_on r c ≡ true → r ⟶ RunStatus.completed
unfolding is_terminal_run_status
to_completed RunStatus.pending c h = achieve refl
to_completed RunStatus.running c h = achieve refl
to_completed RunStatus.waiting_for_review c h = achieve refl
to_completed RunStatus.paused c h = achieve refl
to_completed RunStatus.cancelled c h = overtake
to_completed RunStatus.completed c h = ground arith
to_completed RunStatus.failed c h = ground arith

pub to_cancelled : (r : RunStatus) (c : Control) → goes_on r c ≡ true → r ⟶ RunStatus.cancelled
unfolding is_terminal_run_status
to_cancelled RunStatus.pending c h = drop refl
to_cancelled RunStatus.running c h = drop refl
to_cancelled RunStatus.waiting_for_review c h = drop refl
to_cancelled RunStatus.paused c h = drop refl
to_cancelled RunStatus.cancelled c h = stay
to_cancelled RunStatus.completed c h = ground arith
to_cancelled RunStatus.failed c h = ground arith

pub to_failed :
    (r : RunStatus) (c : Control) (error : String) (run : Run)
    → run.status ≡ r
    → goes_on r c ≡ true
    → r ⟶ (failed_run r error run).status
unfolding failed_run is_terminal_run_status
to_failed RunStatus.pending c error run e h = break refl
to_failed RunStatus.running c error run e h = break refl
to_failed RunStatus.waiting_for_review c error run e h = break refl
to_failed RunStatus.paused c error run e h = break refl
to_failed RunStatus.cancelled c error run e h = rw e stay
to_failed RunStatus.completed c error run e h = ground arith
to_failed RunStatus.failed c error run e h = ground arith

open_running : (r : RunStatus) → is_terminal_run_status r ≡ false → r ⟶ RunStatus.running
unfolding is_terminal_run_status
open_running RunStatus.pending h = begin
open_running RunStatus.running h = stay
open_running RunStatus.waiting_for_review h = review
open_running RunStatus.paused h = continue
open_running RunStatus.completed h = ground arith
open_running RunStatus.failed h = ground arith
open_running RunStatus.cancelled h = ground arith

pub to_started :
    (r : RunStatus) (c : Control) → is_terminal_run_status r ≡ false → r ⟶ started_status c
unfolding started_status
to_started r Control.paused h = hold h
to_started r Control.active h = open_running r h
to_started r Control.pause_requested h = open_running r h
to_started r Control.cancel_requested h = open_running r h
to_started r Control.cancelled h = open_running r h

-- a transaction that leaves the status
pub same : (s u : Store) → u.run.status ≡ s.run.status → s.run.status ⟶ u.run.status
same s u e = rw e stay

pub to_resumed : (r : RunStatus) → r ⟶ resumed_status r
unfolding resumed_status
to_resumed RunStatus.pending = stay
to_resumed RunStatus.running = stay
to_resumed RunStatus.waiting_for_review = stay
to_resumed RunStatus.paused = continue
to_resumed RunStatus.completed = stay
to_resumed RunStatus.failed = stay
to_resumed RunStatus.cancelled = stay
