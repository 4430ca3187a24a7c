-- ===== src/Research/Steps/Settled.antt =====
-- What the status of a run says of its nodes, of its control state and of the executor.
pub mod Work
pub mod Outcome
pub mod Endings
use synaptica_web.Prelude.{
  Bool, true, false, some, List, [], ◌∷◌, ◌≡◌, refl, arith, inl, inr, Bool-cases,
}
use synaptica_web.Research.{
  Node, Attempt, Store, RunStatus, NodeStatus, Control, is_terminal_run_status,
}
use synaptica_web.Research.Requests.{
  request_pause, pause_with, active_nodes, request_resume, resumed_status, request_cancel,
  cancel_with, running_attempts, request_cancellation, cancel_at_once, cancel_pending_nodes,
  mark_paused,
}
use synaptica_web.Research.Executor.{mark_started, started_status}

abbrev pub is_down : RunStatus → Bool
is_down RunStatus.failed = true
is_down RunStatus.cancelled = true
is_down _ = false

-- a node that no executor works on again
abbrev pub is_done : NodeStatus → Bool
is_done NodeStatus.completed = true
is_done NodeStatus.cancelled = true
is_done _ = false

-- The run is neither COMPLETED nor FAILED; its control state is not active where its status is
-- PAUSED, and cancelled where that is CANCELLED.
abbrev pub goes_on : RunStatus → Control → Bool
goes_on RunStatus.completed c = false
goes_on RunStatus.failed c = false
goes_on RunStatus.paused Control.active = false
goes_on RunStatus.cancelled Control.cancelled = true
goes_on RunStatus.cancelled _ = false
goes_on _ _ = true

abbrev pub GoesOn : Store → Type 0
GoesOn s = goes_on s.run.status s.run.control ≡ true

requested :
    (st : RunStatus)
    → is_terminal_run_status st ≡ false
    → (goes_on st Control.pause_requested ≡ true)
      × (goes_on st Control.cancel_requested ≡ true)
      × (goes_on (resumed_status st) Control.active ≡ true)
unfolding is_terminal_run_status resumed_status
requested RunStatus.pending h = (refl, refl, refl)
requested RunStatus.running h = (refl, refl, refl)
requested RunStatus.waiting_for_review h = (refl, refl, refl)
requested RunStatus.paused h = (refl, refl, refl)
requested RunStatus.completed h = ground arith
requested RunStatus.failed h = ground arith
requested RunStatus.cancelled h = ground arith

started : (c : Control) → goes_on (started_status c) c ≡ true
unfolding started_status
started Control.active = refl
started Control.pause_requested = refl
started Control.paused = refl
started Control.cancel_requested = refl
started Control.cancelled = refl

-- a request or a wait, on a run that is not over
pause_with-GoesOn :
    (active : List Node) (s u : Store)
    → pause_with active s ≡ some u
    → is_terminal_run_status s.run.status ≡ false
    → GoesOn u
unfolding pause_with
pause_with-GoesOn [] s u e t = ground arith
pause_with-GoesOn (_ ∷ []) s u e t = ground (arith, requested s.run.status t)
pause_with-GoesOn (_ ∷ _ ∷ _) s u e t = ground arith

pub pause-GoesOn : (s u : Store) → request_pause s ≡ some u → GoesOn s → GoesOn u
unfolding request_pause
pause-GoesOn s u e h = ground (arith, pause_with-GoesOn (active_nodes s) s u)

pub resume-GoesOn : (s : Store) → GoesOn s → GoesOn (request_resume s)
unfolding request_resume
resume-GoesOn s h = ground (arith, requested s.run.status)

cancel_with-GoesOn : (xs : List Attempt) (s : Store) → GoesOn s → GoesOn (cancel_with xs s)
unfolding cancel_with cancel_at_once cancel_pending_nodes
cancel_with-GoesOn [] s h = refl
cancel_with-GoesOn (_ ∷ _) s h = h

pub cancel-GoesOn : (s : Store) → GoesOn s → GoesOn (request_cancel s)
unfolding request_cancel
cancel-GoesOn s h = elim (Bool-cases (is_terminal_run_status s.run.status)) [
  | inl over ↦ rw over h
  | inr alive ↦ rw alive (
      cancel_with-GoesOn (running_attempts s) (record s { run = request_cancellation s.run })
        (requested s.run.status alive).1)
]

pub sleep-GoesOn : (s : Store) → GoesOn s → GoesOn (mark_paused s)
unfolding mark_paused
sleep-GoesOn s h = ground arith

pub start-GoesOn : (s : Store) → GoesOn s → GoesOn (mark_started s)
unfolding mark_started
start-GoesOn s h = ground (arith, started s.run.control)

-- requests change nothing once the status is terminal
pub request_pause_over :
    (s u : Store) → is_terminal_run_status s.run.status ≡ true → request_pause s ≡ some u → u ≡ s
unfolding request_pause
request_pause_over s u t e = ground arith

pub request_resume_over :
    (s : Store) → is_terminal_run_status s.run.status ≡ true → request_resume s ≡ s
unfolding request_resume
request_resume_over s t = rw t refl

pub request_cancel_over :
    (s : Store) → is_terminal_run_status s.run.status ≡ true → request_cancel s ≡ s
unfolding request_cancel
request_cancel_over s t = rw t refl
