-- ===== src/Research/Steps/Bounded/Moves.antt =====
-- Each step of the executor takes one of the steps that are left.
use synaptica_web.Prelude.{
  ℕ, suc, ◌+◌, ◌-◌, ◌≤◌, ◌<◌, String, Bool, true, false, Option, some, List, [], ◌∷◌, ◌≡◌, refl,
  arith, ap, eq_iff,
}
use synaptica_web.Json.{Fields}
use synaptica_web.Research.{Attempt, Task, Store, count_attempts}
use synaptica_web.Research.Requests.{request_resume, mark_paused}
use synaptica_web.Research.Executor.{
  mark_started, mark_completed, mark_failed, mark_cancelled, create_attempt, create_for,
  new_attempt,
}
use synaptica_web.Research.Finish.{
  finalize_attempt, finalize_rows, finish_attempt, record_attempt_failure, fail_attempt, find_task,
  or_failure,
}
use synaptica_web.Research.Retry.{should_retry_attempt, prepare_retry_candidate, prepare_with}
use synaptica_web.Research.Steps.{
  Owner, Stage, starting, idle, trying, attempting, judging, failing, cancelling, Working, IsWait,
  Step, Reach,
}
use synaptica_web.Research.Steps.Updates.{
  created, finalized, prepared, paused_rows, cancel-KeepsRows, slept,
}
use synaptica_web.Research.Steps.Bounded.{
  round, visits, steps_left, is_move, moves, round_step, round_left, visits_cons,
  count_attempts-at_attempt, visits-at_attempt,
}

-- the steps that are left after `k` of them
abbrev Falls : ℕ → (String → ℕ) → List Attempt → Stage → List Attempt → Stage → Type 0
Falls k m xs at ys to = k + steps_left m ys to ≤ steps_left m xs at

-- a transaction that does not change the attempts
still-Falls : (m : String → ℕ) (st : Stage) (xs ys : List Attempt) → ys ≡ xs → Falls 0 m xs st ys st
still-Falls m st xs ys e = rw e (omega arith)

pub resume_rows : (s : Store) → (request_resume s).attempts ≡ s.attempts
unfolding request_resume
resume_rows s = ground arith

pub start_rows : (s : Store) → (mark_started s).attempts ≡ s.attempts
unfolding mark_started
start_rows s = ground arith

pub sleep_rows : (s : Store) → (mark_paused s).attempts ≡ s.attempts
unfolding mark_paused
sleep_rows s = ground arith

create-Falls :
    (m : String → ℕ) (n a t : String) (todo : List String) (s u : Store)
    → create_attempt n a t s ≡ some u
    → Falls 1 m s.attempts (trying n todo) u.attempts (attempting n a t todo)
unfolding create_for new_attempt
create-Falls m n a t todo s u e =
    let (nd, at, made) = created n a t s u e in
    rw made (
      ground (
        arith,
        at,
        eq_iff nd.node_id n,
        visits_cons m (new_attempt nd a t s) s.attempts todo,
        round_step (m n - count_attempts n s.attempts) (m n - suc (count_attempts n s.attempts)),
      ))

succeed-Falls :
    (m : String → ℕ) (n a t : String) (todo : List String) (result : Fields)
    (snapshot : Option Task) (c : Bool) (s u : Store)
    → finalize_attempt n a t result snapshot c s ≡ some u
    → Falls 1 m s.attempts (attempting n a t todo) u.attempts (idle todo)
unfolding finalize_rows finish_attempt
succeed-Falls m n a t todo result snapshot c s u e =
    let (nd, at, made) = finalized n a t result snapshot c s u e in
    rw made (
      omega (
        arith,
        visits-at_attempt m a (finish_attempt nd snapshot result c) (λ x. refl) s.attempts todo,
      ))

fail-Falls :
    (m : String → ℕ) (n a t error : String) (todo : List String) (result : Option Fields)
    (s : Store)
    → Falls 1 m s.attempts
        (attempting n a t todo)
        (record_attempt_failure n a t error result false s).attempts
        (judging n error result todo)
unfolding record_attempt_failure fail_attempt
fail-Falls m n a t error todo result s =
    rw
      (
        visits-at_attempt m a end_attempt (λ x. ground arith) s.attempts todo,
        count_attempts-at_attempt n a end_attempt (λ x. ground arith) s.attempts,
      )
      (omega arith)
  where
    end_attempt : Attempt → Attempt
    end_attempt = fail_attempt (find_task t s) (or_failure result error) error false

-- a retry has an attempt left
pub retry_left : (k c : ℕ) (r : Option Fields) → should_retry_attempt k c r false ≡ true → c < k
unfolding should_retry_attempt
retry_left k c r e = ground arith

retry-Falls :
    (m : String → ℕ) (n error : String) (todo : List String) (result : Option Fields) (s u : Store)
    → should_retry_attempt (m n) (count_attempts n s.attempts) result false ≡ true
    → prepare_retry_candidate n error s ≡ some u
    → Falls 1 m s.attempts (judging n error result todo) u.attempts (trying n todo)
unfolding prepare_with
retry-Falls m n error todo result s u b e =
    let (nd, r, at, made) = prepared n error s u e in
    rw made (
      omega (
        arith,
        round_left (m n - count_attempts n s.attempts),
        retry_left (m n) (count_attempts n s.attempts) result b,
      ))

crash-Falls :
    (m : String → ℕ) (s : Store) {st : Stage} {o : Option Owner} (error : String)
    → Working st o
    → Falls 1 m s.attempts st s.attempts (failing o error)
crash-Falls m s error Working.at_start = omega arith
crash-Falls m s error Working.between = omega arith
crash-Falls m s error Working.at_node_start = omega arith
crash-Falls m s error Working.at_loop_head = omega arith
crash-Falls m s error Working.in_attempt = omega arith
crash-Falls m s error Working.after_attempt = omega arith

proceed-Falls :
    (m : String → ℕ) (s : Store) {st st' : Stage}
    → IsWait st st'
    → Falls 1 m s.attempts st s.attempts st'
proceed-Falls m s IsWait.wait_of_run = omega arith
proceed-Falls m s IsWait.wait_of_node = omega arith

stop-Falls :
    (m : String → ℕ) (s : Store) {st st' : Stage} (reason : String)
    → IsWait st st'
    → Falls 1 m s.attempts st s.attempts (cancelling reason)
stop-Falls m s reason IsWait.wait_of_run = omega arith
stop-Falls m s reason IsWait.wait_of_node = omega arith

Step-Falls :
    {m : String → ℕ} {s u : Store} {at to : Stage} (st : Step m s at u to)
    → Falls (is_move st) m s.attempts at u.attempts to
unfolding mark_completed mark_failed mark_cancelled
Step-Falls {m = m} {at = at} (Step.pause e) = still-Falls m at _ _ (paused_rows _ _ e).1
Step-Falls {m = m} {s = s} {at = at} Step.resume = still-Falls m at s.attempts _ (resume_rows s)
Step-Falls {m = m} {s = s} {at = at} Step.cancel =
    still-Falls m at s.attempts _ (cancel-KeepsRows s).0
Step-Falls {m = m} {s = s} Step.start = rw (start_rows s) (omega arith)
Step-Falls {m = m} {s = s} (Step.proceed w e) = proceed-Falls m s w
Step-Falls {m = m} {s = s} {at = at} (Step.sleep st' w e) =
    rw (slept _ _ e) (still-Falls m at s.attempts _ (sleep_rows s))
Step-Falls {m = m} {s = s} (Step.stop {reason = reason} st' w e) = stop-Falls m s reason w
Step-Falls (Step.visit e p) = omega arith
Step-Falls (Step.skip e p) = omega arith
Step-Falls (Step.visit_cancelled e p) = omega arith
Step-Falls {m = m} (Step.create fresh e) = create-Falls m _ _ _ _ _ _ e
Step-Falls (Step.work f) = omega arith
Step-Falls {m = m} (Step.succeed result snapshot b e) =
    succeed-Falls m _ _ _ _ result snapshot _ _ _ e
Step-Falls (Step.end_cancelled result snapshot b c e) = omega arith
Step-Falls {m = m} Step.fail = fail-Falls m _ _ _ _ _ _ _
Step-Falls {m = m} (Step.retry {result = result} b e) = retry-Falls m _ _ _ result _ _ b e
Step-Falls (Step.give_up b) = omega arith
Step-Falls {m = m} {s = s} (Step.crash error w) = crash-Falls m s error w
Step-Falls Step.complete = omega arith
Step-Falls Step.overrun = omega arith
Step-Falls Step.fail_run = omega arith
Step-Falls Step.block = omega arith
Step-Falls Step.cancel_run = omega arith
Step-Falls Step.sweep = omega arith

Reach-Falls :
    {m : String → ℕ} {s : Store} {at to : Stage} {u : Store} (r : Reach m s at u to)
    → Falls (moves r) m s.attempts at u.attempts to
Reach-Falls Reach.here = omega arith
Reach-Falls (Reach.next r st) = omega (arith, Step-Falls st, Reach-Falls r)

-- the bound: for each node three steps for every attempt that it may have, one attempt at least, and
-- two more
abbrev pub budget : (String → ℕ) → List String → ℕ
budget m [] = 0
budget m (n ∷ todo) = round (m n) + 2 + budget m todo

visits_new : (m : String → ℕ) (todo : List String) → visits m [] todo ≡ budget m todo
visits_new m [] = refl
visits_new m (n ∷ todo) = omega (arith, visits_new m todo, whole (m n))
  where
    whole : (k : ℕ) → round (k - 0) ≡ round k
    whole k = ap round (omega arith)

-- From a run without attempts on, the executor of a schedule takes at most five steps and the budget
-- of the schedule in all, and they leave it where the bound says. Not counted are the rounds in which
-- it sleeps while the run is paused, the writes of the agents to their tasks, and the requests of the
-- user, which come in any number and order.
pub executor_ends :
    {m : String → ℕ} {s : Store} {todo : List String} {at : Stage} {u : Store}
    → s.attempts ≡ []
    → (r : Reach m s (starting todo) u at)
    → moves r + steps_left m u.attempts at ≤ 5 + budget m todo
executor_ends {m = m} {todo = todo} e r =
    omega (arith, Reach-Falls r, ap (λ xs. visits m xs todo) e, visits_new m todo)
