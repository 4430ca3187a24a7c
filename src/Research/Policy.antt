-- ===== src/Research/Policy.antt =====
-- shared/research_runs/service.py: the policy of a run and its small helpers; and
-- shared/research_runs/payloads/rounds_completed_payload.py.
pub mod Rounds
pub mod Readback
use synaptica_web.Prelude.{
  ℕ, ℤ, pos, String, Bool, true, false, not, Option, none, some, List, [], ◌∷◌, ◌==◌, ltb, min, max,
  at_least, exceeds, if◌then◌else◌,
}
use synaptica_web.Text.{codes, strip, lower, equals}
use synaptica_web.Json.{
  Json, Fields, Items, null, bool, integer, str, arr, obj, nil, cons, field, end, get, to_int,
  is_truthy,
}

abbrev pub default_risk_level : String
default_risk_level = "medium"

abbrev pub default_quorum_policy : String
default_quorum_policy = "single_verifier"

-- `DEFAULT_MAX_NODE_ATTEMPTS`
abbrev pub default_max_node_attempts : ℕ
default_max_node_attempts = 1

abbrev pub supported_risk_levels : List String
supported_risk_levels = "low" ∷ "medium" ∷ "high" ∷ []

abbrev pub supported_quorum_policies : List String
supported_quorum_policies = "single_verifier" ∷ "two_of_three" ∷ "three_of_five" ∷ "unanimous" ∷ []

-- the member of a set of names that a text is, once stripped and in lower case
abbrev pub member : List ℕ → List String → Option String
member s [] = none
member s (name ∷ names) = if equals s (codes name) then some name else member s names

-- `_normalize_risk_level`
unfoldable pub normalize_risk_level : Option String → String
unfolding strip lower equals
normalize_risk_level none = default_risk_level
normalize_risk_level (some value) =
    elim (member (lower (strip (codes value))) supported_risk_levels) [
      | none ↦ default_risk_level
      | some level ↦ level
    ]

-- `_default_quorum_policy`
unfoldable pub default_quorum : Bool → String → String
default_quorum strict_mode risk_level =
    if not strict_mode
    then default_quorum_policy
    else if risk_level == "high"
    then "unanimous"
    else "two_of_three"

-- `_normalize_quorum_policy`
unfoldable pub normalize_quorum_policy : Option String → Bool → String → String
unfolding strip lower equals default_quorum
normalize_quorum_policy none strict_mode risk_level = default_quorum strict_mode risk_level
normalize_quorum_policy (some value) strict_mode risk_level =
    elim (member (lower (strip (codes value))) supported_quorum_policies) [
      | none ↦ default_quorum strict_mode risk_level
      | some policy ↦ policy
    ]

-- max(1, min(z, 5))
abbrev pub clamp_attempts : ℤ → ℕ
clamp_attempts z = if exceeds z 5 then 5 else at_least 1 z

-- `max_node_attempts in {None, ""}`
abbrev pub is_missing : Json → Bool
is_missing null = true
is_missing (str s) = s == ""
is_missing _ = false

-- The number of attempts of a policy; `none` is the exception of `int`, and of a list or an object
-- in a set.
unfoldable pub policy_attempts : Json → Option ℕ
unfolding to_int
policy_attempts value =
    if is_missing value
    then some default_max_node_attempts
    else elim (to_int value) [ none ↦ none | some z ↦ some (clamp_attempts z) ]

-- the dictionary of `_build_run_policy`
unfoldable pub policy_of : ℕ → Fields
unfolding normalize_quorum_policy
policy_of attempts = field "strict_mode" (bool false) (
    field "risk_level" (str default_risk_level) (
      field "quorum_policy" (str (normalize_quorum_policy none false default_risk_level)) (
        field "max_node_attempts" (integer (pos attempts)) (
          field "reroute_on_failure" (bool (ltb 1 attempts)) (
            field "max_swarm_rounds" (integer (pos 2))
              (field "escalate_on_dissent" (bool false) end))))))

unfoldable pub build_run_policy : Json → Option Fields
unfolding policy_attempts policy_of
build_run_policy value = elim (policy_attempts value) [ none ↦ none | some n ↦ some (policy_of n) ]

-- the dictionary under a key, empty where there is none
abbrev pub get_object : String → Fields → Fields
get_object k fs = elim (get k fs) [ some (obj gs) ↦ gs | _ ↦ end ]

-- `_get_run_policy`, where `meta["policy"]` is an object or missing
unfoldable pub get_run_policy : Fields → Option Fields
unfolding build_run_policy
get_run_policy meta =
    if is_truthy (obj (get_object "policy" meta))
    then some (get_object "policy" meta)
    else build_run_policy (elim (get "max_node_attempts" meta) [ none ↦ null | some v ↦ v ])

abbrev pub flag : String → Fields → Bool
flag k fs = elim (get k fs) [ none ↦ false | some v ↦ is_truthy v ]

-- `_resolve_max_node_attempts`: the node's parameter, else the policy's, else the default;
-- `none` is the exception of `int`
unfoldable pub resolve_max_node_attempts : Fields → Fields → Option ℕ
unfolding to_int
resolve_max_node_attempts parameters policy =
    if flag "max_node_attempts" parameters
    then attempts_under parameters
    else if flag "max_node_attempts" policy
    then attempts_under policy
    else some default_max_node_attempts
  where
    attempts_under : Fields → Option ℕ
    attempts_under fs = elim (get "max_node_attempts" fs) [
      | none ↦ none
      | some v ↦ elim (to_int v) [ none ↦ none | some z ↦ some (at_least 1 z) ]
    ]

-- `_coerce_string_list`
unfoldable pub coerce_items : Items → List (List ℕ)
unfolding strip
coerce_items nil = []
coerce_items (cons (str s) xs) =
    let rest = coerce_items xs in
    let trimmed = strip (codes s) in elim trimmed [ [] ↦ rest | c ∷ cs ↦ (c ∷ cs) ∷ rest ]
coerce_items (cons _ xs) = coerce_items xs

unfoldable pub coerce_string_list : Json → List (List ℕ)
unfolding coerce_items
coerce_string_list (arr xs) = coerce_items xs
coerce_string_list _ = []

-- `_trace_summary`
unfoldable pub trace_summary : ℕ → ℕ → ℕ → ℕ → Fields
trace_summary decisions handoffs evaluations dissents =
    field "verification_decision_count" (integer (pos decisions)) (
      field "swarm_handoff_count" (integer (pos handoffs)) (
        field "policy_evaluation_count" (integer (pos evaluations))
          (field "unresolved_dissent_count" (integer (pos dissents)) end)))
