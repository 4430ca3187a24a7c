-- ===== src/Research/Policy/Rounds.antt =====
-- shared/research_runs/payloads/rounds_completed_payload.py and `_merge_rounds_completed` of
-- shared/research_runs/service.py.
use synaptica_web.Prelude.{ℤ, pos, Option, none, some, List, [], ◌∷◌, ◌==◌, at_least, if◌then◌else◌}
use synaptica_web.Json.{Json, Fields, null, str, integer, obj, field, end, get, to_int}

-- `RoundsCompletedPayload`
pub record Rounds : Type 0 where
  pub evidence_rounds : ℤ
  pub critique_rounds : ℤ

abbrev pub or_zero : Option ℤ → ℤ
or_zero none = pos 0
or_zero (some z) = z

-- `_coerce_rounds`
unfoldable pub coerce_rounds : Option Json → ℤ
unfolding to_int
coerce_rounds none = pos 0
coerce_rounds (some null) = pos 0
coerce_rounds (some (str s)) = if s == "" then pos 0 else or_zero (to_int (str s))
coerce_rounds (some v) = or_zero (to_int v)

-- `model_validate`
unfoldable pub validate_rounds : Fields → Rounds
unfolding coerce_rounds
validate_rounds fs = record {
  evidence_rounds = coerce_rounds (get "evidence_rounds" fs);
  critique_rounds = coerce_rounds (get "critique_rounds" fs);
}

-- `from_payload`
unfoldable pub from_payload : Json → Rounds
unfolding validate_rounds
from_payload (obj payload) = elim (get "rounds_completed" payload) [
  | some (obj rounds) ↦ validate_rounds rounds
  | _ ↦ validate_rounds payload
]
from_payload _ = record { evidence_rounds = pos 0; critique_rounds = pos 0 }

-- `model_dump`
unfoldable pub dump_rounds : Rounds → Json
dump_rounds r = obj (
    field "evidence_rounds" (integer r.evidence_rounds)
      (field "critique_rounds" (integer r.critique_rounds) end))

-- max of the count so far and another
abbrev pub larger : ℤ → ℤ → ℤ
larger (pos n) z = pos (at_least n z)
larger a (pos n) = pos n
larger a b = a

-- one round of the loop
unfoldable pub add_rounds : Rounds → Json → Rounds
unfolding from_payload
add_rounds merged payload = record {
  evidence_rounds = larger merged.evidence_rounds (from_payload payload).evidence_rounds;
  critique_rounds = larger merged.critique_rounds (from_payload payload).critique_rounds;
}

unfoldable pub merge_from : Rounds → List Json → Rounds
unfolding add_rounds
merge_from merged [] = merged
merge_from merged (payload ∷ payloads) = merge_from (add_rounds merged payload) payloads

-- `_merge_rounds_completed`, before it is dumped
unfoldable pub merge_rounds_completed : List Json → Rounds
unfolding merge_from
merge_rounds_completed = merge_from (record { evidence_rounds = pos 0; critique_rounds = pos 0 })
