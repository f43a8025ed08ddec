-- ===== src/Values.antt =====
-- The scalar Python objects that settings, JSON fields and flag values hold, and `str` of them.
use jou_tak_web.Prelude.{ℕ, zero, suc, String, Bool, true, false, not, Option, none, some, nat_eq}
use jou_tak_web.Prelude.Text.{decimal, int_of_text, lower, strip}

pub data Value : Type 0 where
  null : Value
  bool : Bool → Value
  int : ℕ → Value
  str : String → Value

-- `str(value)`
unfoldable pub shown : Value → String
shown null = "None"
shown (bool true) = "True"
shown (bool false) = "False"
shown (int n) = decimal n
shown (str s) = s

-- `str(value).strip().lower()`
unfoldable pub normalized : Value → String
unfolding shown
normalized v = lower (strip (shown v))

-- `bool(text)`
abbrev pub non_empty : String → Bool
non_empty String.[] = false
non_empty (String.◌∷◌ c r) = true

-- `bool(value)`
abbrev pub truthy : Value → Bool
truthy null = false
truthy (bool b) = b
truthy (int n) = not (nat_eq n 0)
truthy (str s) = non_empty s

-- What `int(value)` gives: a number, a negative one, or an exception.
pub data Parsed : Type 0 where
  number : ℕ → Parsed
  negative : ℕ → Parsed
  raised : Parsed

abbrev parsed : Option (Bool × ℕ) → Parsed
parsed none = raised
parsed (some (true, zero)) = number 0
parsed (some (true, suc n)) = negative (suc n)
parsed (some (false, n)) = number n

-- `int(value)`
unfoldable pub int_of : Value → Parsed
unfolding int_of_text
int_of null = raised
int_of (bool true) = number 1
int_of (bool false) = number 0
int_of (int n) = number n
int_of (str s) = parsed (int_of_text s)
