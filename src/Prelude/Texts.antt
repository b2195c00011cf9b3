-- ===== src/Prelude/Texts.antt =====
-- What the program asks of texts: prefixes, the text after one, a text within a text, equality up to
-- the case of ASCII letters, and the decimal digits of an integer. A text is its characters in order.
use Prim.Native.String.{String, compare}
use Prim.Native.Char.{Char, code}
use Prim.Native.Nat.{Ordering, ℕ, zero, suc, ◌+◌, ◌/◌, ◌%◌}
use mathlib.Core.Path.{◌≡◌, refl}
use mathlib.Core.Bool.{Bool, true, false, ◌&&◌}
use mathlib.Core.Option.{Option, none, some}
use mathlib.Core.List.{[], ◌∷◌}
use native.Mathlib.Omega.{arith}
use text.Mathlib.Text.{find?}
use hearthdeck.Prelude.Tests.{if◌then◌else◌, ◌==◌, ==_iff, leb, ltb, is_some_and}
use hearthdeck.Prelude.Lists.{get_elem?}
use hearthdeck.Prelude.Int.{ℤ, pos, negsuc}

-- The text that follows a prefix.
unfoldable pub strip_prefix : String → String → Option String
strip_prefix String.[] s = some s
strip_prefix (String.◌∷◌ c p) String.[] = none
strip_prefix (String.◌∷◌ c p) (String.◌∷◌ d s) = if code c == code d then strip_prefix p s else none

abbrev pub ascii_lower : ℕ → ℕ
ascii_lower c = if leb 65 c && leb c 90 then c + 32 else c

-- The text that follows a prefix that is equal up to the case of ASCII letters.
unfoldable pub strip_ignoring_case : String → String → Option String
strip_ignoring_case String.[] s = some s
strip_ignoring_case (String.◌∷◌ c p) String.[] = none
strip_ignoring_case (String.◌∷◌ c p) (String.◌∷◌ d s) =
    if ascii_lower (code c) == ascii_lower (code d) then strip_ignoring_case p s else none

unfoldable pub eq_ignore_ascii_case : String → String → Bool
eq_ignore_ascii_case String.[] String.[] = true
eq_ignore_ascii_case String.[] (String.◌∷◌ d s) = false
eq_ignore_ascii_case (String.◌∷◌ c p) String.[] = false
eq_ignore_ascii_case (String.◌∷◌ c p) (String.◌∷◌ d s) =
    ascii_lower (code c) == ascii_lower (code d) && eq_ignore_ascii_case p s

abbrev pub split_more : Char → Option (String × String) → Option (String × String)
split_more c none = none
split_more c (some (before, after)) = some (String.◌∷◌ c before, after)

-- The texts before and after the first character with a code.
unfoldable pub split_once : ℕ → String → Option (String × String)
split_once k String.[] = none
split_once k (String.◌∷◌ c s) =
    let rest = split_once k s in if code c == k then some ("", s) else split_more c rest

unfoldable pub has_text : String → String → Bool
has_text s t = is_some_and (find? s t) (λ _. true)

abbrev pub append : String → String → String
append String.[] t = t
append (String.◌∷◌ c s) t = String.◌∷◌ c (append s t)

abbrev pub digit : ℕ → String
digit n =
    elim (get_elem? {A = String} ("0" ∷ "1" ∷ "2" ∷ "3" ∷ "4" ∷ "5" ∷ "6" ∷ "7" ∷ "8" ∷ []) n) [
      | none ↦ "9"
      | some d ↦ d
    ]

-- The digits of a number below ten to the power of the fuel.
unfoldable pub digits : ℕ → ℕ → String
digits zero n = ""
digits (suc fuel) n =
    let rest = digits fuel (n / 10) in if ltb n 10 then digit n else append rest (digit (n % 10))

-- Nineteen digits are those of every `i64`.
unfoldable pub to_decimal : ℤ → String
to_decimal (pos n) = digits 19 n
to_decimal (negsuc n) = append "-" (digits 19 (n + 1))

-- The order of Rust's texts and of SQLite's, by the bytes.
abbrev pub leb_text : String → String → Bool
leb_text a b = elim (compare a b) [ Ordering.gt ↦ false | _ ↦ true ]

pub strip_prefix-append : (p s : String) → strip_prefix p (append p s) ≡ some s
unfolding strip_prefix
strip_prefix-append String.[] s = refl
strip_prefix-append (String.◌∷◌ c p) s =
    ground (arith, ==_iff (code c) (code c), strip_prefix-append p s)
