-- ===== src/Research/Steps/Attempts.antt =====
-- A node has no more attempts than its policy allows.
use mathlib.Core.Logic.{◌≢◌}
use synaptica_web.Prelude.{
  Unique, All-map, ℕ, zero, suc, ◌≤◌, ◌<◌, String, Bool, true, false, Option, some, List, [], ◌∷◌,
  ◌≡◌, refl, All, arith, eq_iff,
}
use synaptica_web.Json.{Fields}
use synaptica_web.Research.{Attempt, Task, Store, count_attempts}
use synaptica_web.Research.Requests.{cancel_pending_nodes}
use synaptica_web.Research.Executor.{
  mark_completed, mark_failed, mark_cancelled, create_attempt, create_for, new_attempt,
  block_pending_descendants,
}
use synaptica_web.Research.Finish.{
  finalize_attempt, finalize_rows, finish_attempt, record_attempt_failure, fail_attempt, find_task,
  or_failure,
}
use synaptica_web.Research.Retry.{should_retry_attempt, prepare_retry_candidate, prepare_with}
use synaptica_web.Research.Steps.{
  Stage, starting, waiting, idle, entering, trying, attempting, judging, IsWait, Step, Reach,
}
use synaptica_web.Research.Steps.Updates.{
  created, finalized, prepared, paused_rows, cancel-KeepsRows, slept,
}
use synaptica_web.Research.Steps.Pauses.{IsNew}
use synaptica_web.Research.Steps.Bounded.{count_attempts-at_attempt}
use synaptica_web.Research.Steps.Bounded.Moves.{resume_rows, start_rows, sleep_rows, retry_left}

-- one attempt at least
abbrev pub top : ℕ → ℕ
top zero = 1
top (suc k) = suc k

top_pos : (k : ℕ) → 0 < top k
top_pos zero = omega arith
top_pos (suc k) = omega arith

below_top : (c k : ℕ) → c < k → c < top k
below_top c zero h = omega arith
below_top c (suc k) h = h

-- the nodes to come have no attempts yet
abbrev Fresh : List Attempt → List String → Type 0
Fresh xs todo = All (λ k. count_attempts k xs ≡ 0) todo × Unique todo

abbrev Within : (String → ℕ) → List Attempt → Type 0
Within m xs = (k : String) → count_attempts k xs ≤ top (m k)

-- the node in work: less than its share before an attempt
abbrev Room : (String → ℕ) → List Attempt → Stage → Type 0
Room m xs (starting todo) = Fresh xs todo
Room m xs (waiting todo) = Fresh xs todo
Room m xs (idle todo) = Fresh xs todo
Room m xs (entering n todo) = Fresh xs (n ∷ todo)
Room m xs (trying n todo) =
    (count_attempts n xs < top (m n)) × Fresh xs todo × All (λ k. n ≢ k) todo
Room m xs (attempting n a t todo) = Fresh xs todo × All (λ k. n ≢ k) todo
Room m xs (judging n e r todo) = Fresh xs todo × All (λ k. n ≢ k) todo
Room m xs _ = Unit

abbrev Share : (String → ℕ) → List Attempt → Stage → Type 0
Share m xs st = Within m xs × Room m xs st

-- attempts that count the same
abbrev SameCount : List Attempt → List Attempt → Type 0
SameCount xs ys = (k : String) → count_attempts k ys ≡ count_attempts k xs

same-Fresh :
    (xs ys : List Attempt) (todo : List String) → SameCount xs ys → Fresh xs todo → Fresh ys todo
same-Fresh xs ys todo same h = (All-map _ _ (λ k e. omega (arith, same k)) todo h.0, h.1)

same-Within : (m : String → ℕ) (xs ys : List Attempt) → SameCount xs ys → Within m xs → Within m ys
same-Within m xs ys same h k = omega (arith, same k, h k)

-- one more attempt of a node that is not among those to come
cons-Fresh :
    (n : String) (x : Attempt) (xs : List Attempt) (todo : List String)
    → x.node_id ≡ n
    → All (λ k. n ≢ k) todo
    → Fresh xs todo
    → Fresh (x ∷ xs) todo
cons-Fresh n x xs [] e away h = h
cons-Fresh n x xs (k ∷ todo) e away h =
    let rest = cons-Fresh n x xs todo e away.1 (h.0.1, h.1.1) in
    ((ground (arith, eq_iff x.node_id k, away.0, h.0.0, e), rest.0), h.1)

create-Share :
    (m : String → ℕ) (n a t : String) (todo : List String) (s u : Store)
    → create_attempt n a t s ≡ some u
    → Share m s.attempts (trying n todo)
    → Share m u.attempts (attempting n a t todo)
unfolding create_for new_attempt
create-Share m n a t todo s u e (within, (room, fresh, away)) =
    let (nd, at, made) = created n a t s u e in
    rw made (
      (λ k. ground (arith, within k, room, eq_iff nd.node_id k, at)),
      (cons-Fresh n (new_attempt nd a t s) s.attempts todo at away fresh, away),
    )

finish-SameCount :
    (n a t : String) (result : Fields) (snapshot : Option Task) (c : Bool) (s u : Store)
    → finalize_attempt n a t result snapshot c s ≡ some u
    → SameCount s.attempts u.attempts
unfolding finalize_rows finish_attempt
finish-SameCount n a t result snapshot c s u e k =
    let (nd, at, made) = finalized n a t result snapshot c s u e in
    rw made
      (count_attempts-at_attempt k a (finish_attempt nd snapshot result c) (λ x. refl) s.attempts)

fail-SameCount :
    (n a t error : String) (result : Option Fields) (s : Store)
    → SameCount s.attempts (record_attempt_failure n a t error result false s).attempts
unfolding record_attempt_failure fail_attempt
fail-SameCount n a t error result s k =
    count_attempts-at_attempt k a
      (fail_attempt (find_task t s) (or_failure result error) error false) (λ x. ground arith)
      s.attempts

retry-Share :
    (m : String → ℕ) (n error : String) (todo : List String) (result : Option Fields) (s u : Store)
    → should_retry_attempt (m n) (count_attempts n s.attempts) result false ≡ true
    → prepare_retry_candidate n error s ≡ some u
    → Share m s.attempts (judging n error result todo)
    → Share m u.attempts (trying n todo)
unfolding prepare_with
retry-Share m n error todo result s u b e (within, (fresh, away)) =
    let (nd, r, at, made) = prepared n error s u e in
    rw made (
      within,
      (
        below_top (count_attempts n s.attempts) (m n)
            (retry_left (m n) (count_attempts n s.attempts) result b),
        fresh,
        away,
      ),
    )

enter-Share :
    (m : String → ℕ) (xs : List Attempt) (n : String) (todo : List String)
    → Share m xs (entering n todo)
    → Share m xs (trying n todo)
enter-Share m xs n todo h =
    (h.0, (omega (arith, h.1.0.0, top_pos (m n)), (h.1.0.1, h.1.1.1), h.1.1.0))

proceed-Share :
    (m : String → ℕ) (xs : List Attempt) {st st' : Stage}
    → IsWait st st'
    → Share m xs st
    → Share m xs st'
proceed-Share m xs IsWait.wait_of_run h = h
proceed-Share m xs (IsWait.wait_of_node {n = n} {todo = todo}) h = enter-Share m xs n todo h

Step-Share :
    {m : String → ℕ} {s u : Store} {at to : Stage}
    → Step m s at u to
    → Share m s.attempts at
    → Share m u.attempts to
unfolding mark_completed mark_failed mark_cancelled block_pending_descendants cancel_pending_nodes
Step-Share {m = m} {at = at} (Step.pause e) h = rw (paused_rows _ _ e).1 h
Step-Share {m = m} {s = s} {at = at} Step.resume h = rw (resume_rows s) h
Step-Share {m = m} {s = s} {at = at} Step.cancel h = rw (cancel-KeepsRows s).0 h
Step-Share {m = m} {s = s} Step.start h = rw (start_rows s) h
Step-Share {m = m} {s = s} (Step.proceed w e) h = proceed-Share m s.attempts w h
Step-Share {m = m} {s = s} {at = at} (Step.sleep st' w e) h = rw (slept _ _ e) (rw (sleep_rows s) h)
Step-Share (Step.stop st' w e) h = (h.0, tt)
Step-Share (Step.visit e p) h = h
Step-Share (Step.skip e p) h = (h.0, (h.1.0.1, h.1.1.1))
Step-Share (Step.visit_cancelled e p) h = (h.0, tt)
Step-Share {m = m} (Step.create fresh e) h = create-Share m _ _ _ _ _ _ e h
Step-Share (Step.work f) h = h
Step-Share {m = m} {s = s} {u = u} (Step.succeed {n = n} {todo = todo} result snapshot b e) h =
    let same = finish-SameCount n _ _ result snapshot _ s u e in
    (same-Within m s.attempts u.attempts same h.0, same-Fresh s.attempts u.attempts todo same h.1.0)
Step-Share {m = m} {s = s} {u = u} (Step.end_cancelled {n = n} result snapshot b c e) h =
    (same-Within m s.attempts u.attempts (finish-SameCount n _ _ result snapshot _ s u e) h.0, tt)
Step-Share {m = m} {s = s} {u = u}
      (Step.fail {n = n} {a = a} {t = t} {error = error} {todo = todo} {result = result}) h =
    let same = fail-SameCount n a t error result s in
    (
      same-Within m s.attempts u.attempts same h.0,
      (same-Fresh s.attempts u.attempts todo same h.1.0, h.1.1),
    )
Step-Share {m = m} (Step.retry {result = result} b e) h = retry-Share m _ _ _ result _ _ b e h
Step-Share (Step.give_up b) h = (h.0, tt)
Step-Share (Step.crash error w) h = (h.0, tt)
Step-Share Step.complete h = (h.0, tt)
Step-Share Step.overrun h = (h.0, tt)
Step-Share Step.fail_run h = (h.0, tt)
Step-Share Step.block h = (h.0, tt)
Step-Share Step.cancel_run h = (h.0, tt)
Step-Share Step.sweep h = (h.0, tt)

Reach-Share :
    {m : String → ℕ} {s : Store} {at to : Stage} {u : Store}
    → Share m s.attempts at
    → Reach m s at u to
    → Share m u.attempts to
Reach-Share h Reach.here = h
Reach-Share h (Reach.next r st) = Step-Share st (Reach-Share h r)

-- From a new run on, with a schedule that has no node twice and in any order of the steps and of the
-- requests of its user: a node never has more attempts than its policy allows, or one where that is
-- none.
pub attempts_bounded :
    {m : String → ℕ} {s : Store} {todo : List String} {at : Stage} {u : Store}
    → IsNew s
    → Unique todo
    → Reach m s (starting todo) u at
    → (n : String) → count_attempts n u.attempts ≤ top (m n)
attempts_bounded {m = m} {s = s} {todo = todo} h once r = (Reach-Share start r).0
  where
    none_yet : (xs : List String) → All (λ k. count_attempts k s.attempts ≡ 0) xs
    none_yet [] = tt
    none_yet (k ∷ xs) = (rw h.attempts refl, none_yet xs)

    start : Share m s.attempts (starting todo)
    start = ((λ k. rw h.attempts (omega arith)), (none_yet todo, once))
