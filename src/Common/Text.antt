-- ===== src/Common/Text.antt =====
-- Python's `str(n)` of a number that is not negative, and `str.lower` on ASCII letters.
use Prim.Native.Char.{Char, code}
use Prim.Native.String.{[], ◌∷◌, char_at}
use Prim.Native.String.{◌++◌ as concat}
use mathlib.Core.List.{List}
use huma_ware.Common.{
  Bool, true, false, ℕ, zero, suc, ◌-◌, ◌/◌, ◌%◌, String, ◌&&◌, ltb, leb, if◌then◌else◌,
}

-- A number has fewer digits than its successor's value, so that is fuel enough.
digits : ℕ → ℕ → String → String
digits zero n tail = tail
digits (suc fuel) n tail =
    let here = char_at "0123456789" (n % 10) ∷ tail in
    let more = digits fuel (n / 10) here in if ltb n 10 then here else more

unfoldable pub str : ℕ → String
unfolding digits
str n = digits (suc n) n ""

lower_char : Char → Char
lower_char c =
    if leb 65 (code c) && leb (code c) 90
    then char_at "abcdefghijklmnopqrstuvwxyz" (code c - 65)
    else c

unfoldable pub lower : String → String
unfolding lower_char
lower [] = []
lower (c ∷ s) = lower_char c ∷ lower s

-- Python's `str` of a Boolean, and `separator.join(parts)`.
abbrev pub str_bool : Bool → String
str_bool true = "True"
str_bool false = "False"

unfoldable pub join : String → List String → String
join separator List.[] = ""
join separator (List.◌∷◌ x List.[]) = x
join separator (List.◌∷◌ x (List.◌∷◌ y xs)) =
    concat x (concat separator (join separator (List.◌∷◌ y xs)))
