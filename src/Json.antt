-- ===== src/Json.antt =====
-- JSON values as the runtime stores and logs them (the `Dict[str, Any]` payloads of
-- shared/runtime and shared/payments). A number
-- with a fraction is kept as its text: nothing computes with it.
use synaptica_web.Prelude.{
  List, [], ◌∷◌, ℕ, zero, pos, true, false, nat_eq, ℤ, String, Bool, Option, none, some, ◌==◌,
  if◌then◌else◌, ◌≡◌, arith, eq_iff,
}
use synaptica_web.Text.{codes, read_int}

mutual
  pub data Json : Type 0 where
    null : Json
    bool : Bool → Json
    integer : ℤ → Json
    number : String → Json
    str : String → Json
    arr : Items → Json
    obj : Fields → Json

  pub data Items : Type 0 where
    nil : Items
    cons : Json → Items → Items

  pub data Fields : Type 0 where
    end : Fields
    field : String → Json → Fields → Fields

-- `d.get(key)`
unfoldable pub get : String → Fields → Option Json
get k end = none
get k (field j v fs) = if j == k then some v else get k fs

-- `d[key] = value`, which keeps the place of a key that is there
unfoldable pub put : String → Json → Fields → Fields
put k v end = field k v end
put k v (field j w fs) = if j == k then field j v fs else field j w (put k v fs)

pub get-put :
    (k j : String) (v : Json) (fs : Fields)
    → get j (put k v fs) ≡ (if k == j then some v else get j fs)
unfolding get put
get-put k j v end = ground arith
get-put k j v (field i w fs) = ground (arith, eq_iff k j, eq_iff i k, eq_iff i j, get-put k j v fs)

-- `int(value)` of a JSON value. A number with a fraction is cut at its point; the texts of numbers
-- with an exponent are refused here.
unfoldable pub to_int : Json → Option ℤ
unfolding read_int
to_int (integer z) = some z
to_int (str s) = read_int (codes s)
to_int (number s) = read_int (whole (codes s))
  where
    whole : List ℕ → List ℕ
    whole [] = []
    whole (c ∷ s) = let rest = whole s in if nat_eq c b'.' then [] else c ∷ rest
to_int (bool true) = some (pos 1)
to_int (bool false) = some (pos 0)
to_int _ = none

-- the truth of a JSON value
abbrev pub is_truthy : Json → Bool
is_truthy null = false
is_truthy (bool b) = b
is_truthy (integer (pos zero)) = false
is_truthy (integer _) = true
is_truthy (number s) = true
is_truthy (str s) = if s == "" then false else true
is_truthy (arr nil) = false
is_truthy (arr _) = true
is_truthy (obj end) = false
is_truthy (obj _) = true
