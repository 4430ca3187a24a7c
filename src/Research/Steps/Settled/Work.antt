-- ===== src/Research/Steps/Settled/Work.antt =====
-- Every node is done or still to be executed, until the executor ends, and how it leaves them.
use synaptica_web.Prelude.{
  String, Bool, true, false, ◌||◌, some, List, ◌∷◌, ◌==◌, ◌≡◌, refl, any, All, arith, ◌⊎◌, inl, inr,
  sym, subst,
}
use synaptica_web.Research.{Node, Store, RunStatus, is_terminal_run_status, is_idle, at_status}
use synaptica_web.Research.Requests.{
  request_pause, request_resume, request_cancel, cancel_node, cancelled_by_user, mark_paused,
}
use synaptica_web.Research.Executor.{mark_started, is_pending}
use synaptica_web.Research.Steps.{
  Stage, starting, waiting, idle, entering, trying, attempting, judging, failing, blocking,
  cancelling, sweeping, finished, completes, fails, cancels, overruns,
}
use synaptica_web.Research.Steps.Updates.{All-at_status, paused_rows, cancel-KeepsRows}
use synaptica_web.Research.Steps.Settled.{
  is_down, is_done, GoesOn, pause-GoesOn, resume-GoesOn, cancel-GoesOn, sleep-GoesOn, start-GoesOn,
  request_pause_over, request_resume_over, request_cancel_over,
}

abbrev pub is_left : List String → Node → Bool
is_left todo nd = any (λ m. nd.node_id == m) todo || is_done nd.status

-- a node that is not done is still to be executed
abbrev pub Left : List String → List Node → Type 0
Left todo nodes = All (λ nd. is_left todo nd ≡ true) nodes

abbrev pub AllDone : List Node → Type 0
AllDone nodes = All (λ nd. is_done nd.status ≡ true) nodes

-- what holds where the executor stands
abbrev pub AtStage : Stage → Store → Type 0
AtStage (starting todo) s = GoesOn s × Left todo s.nodes
AtStage (waiting todo) s = GoesOn s × Left todo s.nodes
AtStage (idle todo) s = GoesOn s × Left todo s.nodes
AtStage (entering n todo) s = GoesOn s × Left (n ∷ todo) s.nodes
AtStage (trying n todo) s = GoesOn s × Left (n ∷ todo) s.nodes
AtStage (attempting n a t todo) s = GoesOn s × Left (n ∷ todo) s.nodes
AtStage (judging n e r todo) s = GoesOn s × Left (n ∷ todo) s.nodes
AtStage (failing o e) s = GoesOn s
AtStage (blocking o) s = is_down s.run.status ≡ true
AtStage (cancelling reason) s = GoesOn s
AtStage (sweeping reason) s = s.run.status ≡ RunStatus.cancelled
AtStage (finished completes o) s = (s.run.status ≡ RunStatus.completed) × AllDone s.nodes
AtStage (finished (overruns todo) o) s = (s.run.status ≡ RunStatus.completed) × Left todo s.nodes
AtStage (finished fails o) s =
    (is_down s.run.status ≡ true) × All (λ nd. is_pending nd.status ≡ false) s.nodes
AtStage (finished cancels o) s =
    (s.run.status ≡ RunStatus.cancelled) × All (λ nd. is_idle nd.status ≡ false) s.nodes

-- A transaction that leaves the nodes, or cancels the idle ones; it keeps a run going, and does
-- nothing to one that is over.
pub record IsRequest (s u : Store) : Type 0 where
  going : GoesOn s → GoesOn u
  over : is_terminal_run_status s.run.status ≡ true → u ≡ s
  rows : (u.nodes ≡ s.nodes) ⊎ (u.nodes ≡ at_status is_idle (cancel_node cancelled_by_user) s.nodes)

pub pause-IsRequest : (s u : Store) → request_pause s ≡ some u → IsRequest s u
pause-IsRequest s u e = record {
  going = pause-GoesOn s u e;
  over = λ t. request_pause_over s u t e;
  rows = inl (paused_rows s u e).0;
}

pub resume-IsRequest : (s : Store) → IsRequest s (request_resume s)
unfolding request_resume
resume-IsRequest s = record {
  going = resume-GoesOn s;
  over = request_resume_over s;
  rows = inl (ground arith);
}

pub cancel-IsRequest : (s : Store) → IsRequest s (request_cancel s)
cancel-IsRequest s = record {
  going = cancel-GoesOn s;
  over = request_cancel_over s;
  rows = (cancel-KeepsRows s).1;
}

pub start-IsRequest : (s : Store) → IsRequest s (mark_started s)
unfolding mark_started
start-IsRequest s = record {
  going = start-GoesOn s;
  over = λ t. rw t refl;
  rows = inl (ground arith);
}

pub sleep-IsRequest : (s : Store) → IsRequest s (mark_paused s)
unfolding mark_paused
sleep-IsRequest s = record {
  going = sleep-GoesOn s;
  over = λ t. rw t refl;
  rows = inl (ground arith);
}

swept-Left :
    (todo : List String) (nodes : List Node)
    → Left todo nodes
    → Left todo (at_status is_idle (cancel_node cancelled_by_user) nodes)
unfolding cancel_node
swept-Left todo =
    All-at_status _ _ is_idle (cancel_node cancelled_by_user) (λ nd e h. ground arith) (λ nd e h. h)

request-Left :
    (todo : List String) (s u : Store) → IsRequest s u → Left todo s.nodes → Left todo u.nodes
request-Left todo s u r h = elim r.rows [
  | inl same ↦ rw same h
  | inr swept ↦ rw swept (swept-Left todo s.nodes h)
]

down-terminal : (st : RunStatus) → is_down st ≡ true → is_terminal_run_status st ≡ true
unfolding is_terminal_run_status
down-terminal RunStatus.failed h = refl
down-terminal RunStatus.cancelled h = refl
down-terminal RunStatus.pending h = ground arith
down-terminal RunStatus.running h = ground arith
down-terminal RunStatus.waiting_for_review h = ground arith
down-terminal RunStatus.paused h = ground arith
down-terminal RunStatus.completed h = ground arith

request_over :
    (st : Stage) (s u : Store)
    → IsRequest s u
    → is_terminal_run_status s.run.status ≡ true
    → AtStage st s
    → AtStage st u
request_over st s u r t h = subst (AtStage st) (sym (r.over t)) h

pub request-AtStage : (st : Stage) (s u : Store) → IsRequest s u → AtStage st s → AtStage st u
unfolding is_terminal_run_status
request-AtStage (starting todo) s u r h = (r.going h.0, request-Left todo s u r h.1)
request-AtStage (waiting todo) s u r h = (r.going h.0, request-Left todo s u r h.1)
request-AtStage (idle todo) s u r h = (r.going h.0, request-Left todo s u r h.1)
request-AtStage (entering n todo) s u r h = (r.going h.0, request-Left (n ∷ todo) s u r h.1)
request-AtStage (trying n todo) s u r h = (r.going h.0, request-Left (n ∷ todo) s u r h.1)
request-AtStage (attempting n a t todo) s u r h = (r.going h.0, request-Left (n ∷ todo) s u r h.1)
request-AtStage (judging n e x todo) s u r h = (r.going h.0, request-Left (n ∷ todo) s u r h.1)
request-AtStage (failing o e) s u r h = r.going h
request-AtStage (blocking o) s u r h = request_over (blocking o) s u r (down-terminal _ h) h
request-AtStage (cancelling reason) s u r h = r.going h
request-AtStage (sweeping reason) s u r h = request_over (sweeping reason) s u r (rw h refl) h
request-AtStage (finished completes o) s u r h =
    request_over (finished completes o) s u r (rw h.0 refl) h
request-AtStage (finished (overruns todo) o) s u r h =
    request_over (finished (overruns todo) o) s u r (rw h.0 refl) h
request-AtStage (finished fails o) s u r h =
    request_over (finished fails o) s u r (down-terminal _ h.0) h
request-AtStage (finished cancels o) s u r h =
    request_over (finished cancels o) s u r (rw h.0 refl) h
