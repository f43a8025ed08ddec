-- ===== src/Prelude/Text.antt =====
-- Python's text operations on code points: `strip`, `lower`, `str` and `int` of numbers.
use Prim.Native.Nat.{ℕ, zero, suc, ◌+◌, ◌-◌, ◌*◌, ◌/◌, ◌%◌}
use Prim.Native.Char.{Char, code}
use Prim.Native.String.{String, [], ◌∷◌}
use mathlib.Core.Path.{◌≡◌, refl}
use mathlib.Core.Bool.{Bool, true, false, ◌&&◌, ◌||◌}
use mathlib.Core.Option.{Option, none, some}
use jou_tak_web.Prelude.Tests.{ltb, leb, nat_eq, if◌then◌else◌}

-- The characters that `str.isspace` and so `str.strip()` take for white space.
abbrev pub is_space : ℕ → Bool
is_space c =
    leb 9 c && leb c 13
    || leb 28 c && leb c 32
    || nat_eq c 0x85
    || nat_eq c 0xa0
    || nat_eq c 0x1680
    || leb 0x2000 c && leb c 0x200a
    || nat_eq c 0x2028
    || nat_eq c 0x2029
    || nat_eq c 0x202f
    || nat_eq c 0x205f
    || nat_eq c 0x3000

abbrev pub is_empty : String → Bool
is_empty [] = true
is_empty (c ∷ s) = false

lstrip : String → String
lstrip [] = []
lstrip (c ∷ s) = let rest = lstrip s in if is_space (code c) then rest else c ∷ s

rstrip : String → String
rstrip [] = []
rstrip (c ∷ s) = let rest = rstrip s in if is_empty rest && is_space (code c) then [] else c ∷ rest

-- `value.strip()`
unfoldable pub strip : String → String
unfolding lstrip rstrip
strip s = rstrip (lstrip s)

abbrev char_or : Char → ℕ → String → Char
char_or d i [] = d
char_or d zero (c ∷ s) = c
char_or d (suc i) (c ∷ s) = char_or d i s

lower_char : Char → Char
lower_char c =
    if leb b'A' (code c) && leb (code c) b'Z'
    then char_or c (code c - b'A') "abcdefghijklmnopqrstuvwxyz"
    else if nat_eq (code c) 0x212a
    then char_or c 0 "k"
    else c

-- `value.lower()`, on the ASCII letters and the Kelvin sign. Of all other characters only "İ" is lowered to
-- a text that begins with an ASCII letter, "i", which no word has that the program compares with.
unfoldable pub lower : String → String
unfolding lower_char
lower [] = []
lower (c ∷ s) = lower_char c ∷ lower s

-- The decimal digits of `n` before `acc`; `n` rounds are enough, since each divides by ten.
decimal_from : ℕ → ℕ → String → String
decimal_from zero n acc = acc
decimal_from (suc f) n acc =
    let shown = char_or (Char.char 48 tt) (n % 10) "0123456789" ∷ acc in
    let rest = decimal_from f (n / 10) shown in if ltb n 10 then shown else rest

-- `str(n)`
unfoldable pub decimal : ℕ → String
unfolding decimal_from
decimal n = decimal_from (suc n) n ""

-- Digits with single underscores between them, as `int` accepts them.
digits_from : ℕ → Bool → String → Option ℕ
digits_from acc after [] = if after then some acc else none
digits_from acc after (c ∷ s) =
    let next = digits_from (acc * 10 + (code c - 48)) true s in
    let skip = digits_from acc false s in
    if leb b'0' (code c) && leb (code c) b'9'
    then next
    else if nat_eq (code c) b'_' && after
    then skip
    else none

-- `s.startswith(prefix)`
unfoldable pub has_prefix : String → String → Bool
has_prefix [] s = true
has_prefix (c ∷ p) [] = false
has_prefix (c ∷ p) (d ∷ s) = nat_eq (code c) (code d) && has_prefix p s

abbrev with_sign : Bool → Option ℕ → Option (Bool × ℕ)
with_sign b none = none
with_sign b (some n) = some (b, n)

signed : String → Option (Bool × ℕ)
unfolding digits_from
signed [] = none
signed (c ∷ rest) =
    if nat_eq (code c) b'-'
    then with_sign true (digits_from 0 false rest)
    else if nat_eq (code c) b'+'
    then with_sign false (digits_from 0 false rest)
    else with_sign false (digits_from 0 false (c ∷ rest))

-- `int(s)` of a text of ASCII digits: `none` where it raises `ValueError`, else whether there is a
-- minus sign, and the number behind it.
unfoldable pub int_of_text : String → Option (Bool × ℕ)
unfolding signed strip
int_of_text s = signed (strip s)

text_tests :
    (strip "  Yes\n" ≡ "Yes")
    × (lower "TRUE-x" ≡ "true-x")
    × (decimal 1205 ≡ "1205")
    × (int_of_text " 1_20 " ≡ some (false, 120))
    × (int_of_text "4x" ≡ none)
unfolding strip lower decimal int_of_text
text_tests = (refl, refl, refl, refl, refl)
