-- ===== src/Research/Steps/Bounded.antt =====
-- The executor ends: its steps, other than the rounds of a wait and what an agent writes to its task,
-- are bounded by the nodes and the attempts that each of them may have.
pub mod Moves
use synaptica_web.Prelude.{
  ℕ, zero, suc, ◌+◌, ◌-◌, ◌*◌, ◌≤◌, ◌<◌, String, List, [], ◌∷◌, ◌≡◌, refl, arith,
}
use synaptica_web.Research.{Attempt, Store, at_attempt, count_attempts}
use synaptica_web.Research.Steps.{
  Stage, starting, waiting, idle, entering, trying, attempting, judging, failing, blocking,
  cancelling, sweeping, finished, Step, Reach,
}

-- the steps of the attempts that a node has left, at the head of the loop
abbrev pub round : ℕ → ℕ
round zero = 3
round (suc left) = 3 * suc left

-- the steps of the nodes to come
abbrev pub visits : (String → ℕ) → List Attempt → List String → ℕ
visits m xs [] = 0
visits m xs (n ∷ todo) = round (m n - count_attempts n xs) + 2 + visits m xs todo

-- the steps from a stage on
abbrev pub steps_left : (String → ℕ) → List Attempt → Stage → ℕ
steps_left m xs (starting todo) = 5 + visits m xs todo
steps_left m xs (waiting todo) = 4 + visits m xs todo
steps_left m xs (idle todo) = 3 + visits m xs todo
steps_left m xs (entering n todo) = 4 + round (m n - count_attempts n xs) + visits m xs todo
steps_left m xs (trying n todo) = 3 + round (m n - count_attempts n xs) + visits m xs todo
steps_left m xs (attempting n a t todo) = 5 + 3 * (m n - count_attempts n xs) + visits m xs todo
steps_left m xs (judging n e r todo) = 4 + 3 * (m n - count_attempts n xs) + visits m xs todo
steps_left m xs (failing o e) = 2
steps_left m xs (blocking o) = 1
steps_left m xs (cancelling reason) = 2
steps_left m xs (sweeping reason) = 1
steps_left m xs (finished e o) = 0

-- a step that the executor takes once: not a request, a round of a wait, or a write to a task
abbrev pub is_move : {m : String → ℕ} {s u : Store} {at to : Stage} → Step m s at u to → ℕ
is_move (Step.pause e) = 0
is_move Step.resume = 0
is_move Step.cancel = 0
is_move (Step.sleep st' w e) = 0
is_move (Step.work f) = 0
is_move _ = 1

abbrev pub moves : {m : String → ℕ} {s : Store} {at to : Stage} {u : Store} → Reach m s at u to → ℕ
moves Reach.here = 0
moves (Reach.next r st) = is_move st + moves r

pub round_mono : (a b : ℕ) → a ≤ b → round a ≤ round b
round_mono zero zero h = omega arith
round_mono zero (suc b) h = omega arith
round_mono (suc a) zero h = omega arith
round_mono (suc a) (suc b) h = omega arith

pub round_pos : (a : ℕ) → 3 ≤ round a
round_pos zero = omega arith
round_pos (suc a) = omega arith

-- one more attempt leaves no more steps
pub visits_cons :
    (m : String → ℕ) (x : Attempt) (xs : List Attempt) (todo : List String)
    → visits m (x ∷ xs) todo ≤ visits m xs todo
visits_cons m x xs [] = omega arith
visits_cons m x xs (n ∷ todo) = ground (
  arith,
  visits_cons m x xs todo,
  round_mono (m n - suc (count_attempts n xs)) (m n - count_attempts n xs),
)

-- an update of attempts does not change how many a node has
pub count_attempts-at_attempt :
    (n a : String) (f : Attempt → Attempt)
    → ((x : Attempt) → (f x).node_id ≡ x.node_id)
    → (xs : List Attempt) → count_attempts n (at_attempt a f xs) ≡ count_attempts n xs
count_attempts-at_attempt n a f same [] = refl
count_attempts-at_attempt n a f same (x ∷ xs) =
    ground (arith, same x, count_attempts-at_attempt n a f same xs)

pub visits-at_attempt :
    (m : String → ℕ) (a : String) (f : Attempt → Attempt)
    → ((x : Attempt) → (f x).node_id ≡ x.node_id)
    → (xs : List Attempt) (todo : List String)
    → visits m (at_attempt a f xs) todo ≡ visits m xs todo
visits-at_attempt m a f same xs [] = refl
visits-at_attempt m a f same xs (n ∷ todo) =
    rw (count_attempts-at_attempt n a f same xs, visits-at_attempt m a f same xs todo) refl

-- one attempt takes three steps
pub round_step : (left rest : ℕ) → rest ≤ left - 1 → 3 * rest + 3 ≤ round left
round_step zero rest h = omega arith
round_step (suc left) rest h = omega arith

pub round_left : (left : ℕ) → 0 < left → round left ≤ 3 * left
round_left zero h = omega arith
round_left (suc left) h = omega arith
