-- ===== src/Text.antt =====
-- The methods of Python's `str` that the guardrails use, over code points.
use Prim.Native.Char.{code}
use mathlib.Core.List.{reverse}
use mathlib.Core.Option
use synaptica_web.Prelude.{
  ℕ, ◌+◌, ◌*◌, ◌-◌, zero, suc, Option, none, some, ℤ, pos, negsuc, String, Bool, true, false, ◌&&◌,
  ◌||◌, List, [], ◌∷◌, ◌++◌, leb, nat_eq, if◌then◌else◌,
}

-- `String` has its own `[]` and `∷`
abbrev pub codes : String → List ℕ
codes String.[] = []
codes (String.◌∷◌ c s) = code c ∷ codes s

abbrev pub within : ℕ → ℕ → ℕ → Bool
within lo hi c = leb lo c && leb c hi

-- `str.isspace` of one character, which is what `strip` removes
unfoldable pub is_space : ℕ → Bool
is_space c =
    within 9 13 c
    || within 28 32 c
    || nat_eq c 133
    || nat_eq c 160
    || nat_eq c 5760
    || within 8192 8202 c
    || nat_eq c 8232
    || nat_eq c 8233
    || nat_eq c 8239
    || nat_eq c 8287
    || nat_eq c 12288

unfoldable pub lstrip : List ℕ → List ℕ
unfolding is_space
lstrip [] = []
lstrip (c ∷ s) = if is_space c then lstrip s else c ∷ s

-- `str.strip`
unfoldable pub strip : List ℕ → List ℕ
unfolding lstrip
strip s = reverse (lstrip (reverse (lstrip s)))

-- `str.strip` on a text itself
unfoldable pub lstrip_text : String → String
unfolding is_space
lstrip_text String.[] = String.[]
lstrip_text (String.◌∷◌ c s) = if is_space (code c) then lstrip_text s else String.◌∷◌ c s

unfoldable pub rstrip_text : String → String
unfolding is_space
rstrip_text String.[] = String.[]
rstrip_text (String.◌∷◌ c s) =
    let rest = rstrip_text s in
    if is_space (code c) && is_empty rest then String.[] else String.◌∷◌ c rest
  where
    is_empty : String → Bool
    is_empty String.[] = true
    is_empty (String.◌∷◌ d t) = false

unfoldable pub strip_text : String → String
unfolding lstrip_text rstrip_text
strip_text s = rstrip_text (lstrip_text s)

-- `str.lower`, exact on every character whose lower case has an ASCII letter in it: the ASCII
-- capitals, the Kelvin sign, and the dotted capital I (which gives an i and a combining dot).
-- Other characters are left alone: they take part in comparisons with ASCII names only.
unfoldable pub lower : List ℕ → List ℕ
lower [] = []
lower (c ∷ s) =
    (if within 65 90 c
      then (c + 32) ∷ []
      else if nat_eq c 8490
      then 107 ∷ []
      else if nat_eq c 304
      then 105 ∷ 775 ∷ []
      else c ∷ [])
    ++ lower s

unfoldable pub equals : List ℕ → List ℕ → Bool
equals [] [] = true
equals [] (_ ∷ _) = false
equals (_ ∷ _) [] = false
equals (c ∷ s) (d ∷ t) = nat_eq c d && equals s t

unfoldable pub starts_with : List ℕ → List ℕ → Bool
starts_with [] t = true
starts_with (c ∷ s) [] = false
starts_with (c ∷ s) (d ∷ t) = nat_eq c d && starts_with s t

-- `s in t`
unfoldable pub occurs_in : List ℕ → List ℕ → Bool
unfolding starts_with
occurs_in s [] = starts_with s []
occurs_in s (d ∷ t) = starts_with s (d ∷ t) || occurs_in s t

-- `t.endswith(s)`
unfoldable pub ends_with : List ℕ → List ℕ → Bool
unfolding starts_with
ends_with s t = starts_with (reverse s) (reverse t)

-- every character is in the class
unfoldable pub every : (ℕ → Bool) → List ℕ → Bool
every p [] = true
every p (c ∷ s) = p c && every p s

abbrev pub is_digit : ℕ → Bool
is_digit = within b'0' b'9'

abbrev pub is_hex : ℕ → Bool
is_hex c = is_digit c || within b'a' b'f' c || within b'A' b'F' c

-- a row of decimal digits, read after the number so far; `none` where there is another character
unfoldable pub read_digits : ℕ → List ℕ → Option ℕ
read_digits n [] = some n
read_digits n (c ∷ s) =
    let rest = read_digits (n * 10 + (c - b'0')) s in if is_digit c then rest else none

-- at least one digit
unfoldable pub read_number : List ℕ → Option ℕ
unfolding read_digits
read_number [] = none
read_number (c ∷ s) = read_digits 0 (c ∷ s)

abbrev negate : ℕ → ℤ
negate zero = pos zero
negate (suc n) = negsuc n

-- `int(text)`: decimal digits, a sign before them and white space around them; `none` is its
-- ValueError. An underscore between digits, which Python reads too, is refused.
unfoldable pub read_int : List ℕ → Option ℤ
unfolding read_number strip
read_int text = signed (strip text)
  where
    signed : List ℕ → Option ℤ
    signed [] = none
    signed (c ∷ s) =
        if nat_eq c b'-'
        then Option.map negate (read_number s)
        else if nat_eq c b'+'
        then Option.map pos (read_number s)
        else Option.map pos (read_number (c ∷ s))
