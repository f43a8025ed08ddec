-- ===== src/Account/Profile.antt =====
-- backend/accounts/services/personalization.py and the checks of single fields in profile.py. The digits
-- that `\d` matches are Unicode's, and are a parameter.
use Prim.Native.Char.{code}
use Prim.Native.String.{count}
use jou_tak_web.Prelude.{
  ℕ, String, Bool, true, false, ◌&&◌, ◌||◌, not, Option, none, some, List, [], ◌∷◌, ◌++◌, leb,
  nat_eq, is_some, if◌then◌else◌,
}
use jou_tak_web.Prelude.Text.{lower, strip, has_prefix}
use jou_tak_web.Values.{non_empty}

-- `UserProfile`, less its owner and the times of its row.
pub record Profile : Type 0 where
  pub vk_username : String
  pub minecraft_nick : String
  pub minecraft_has_license : Option Bool
  pub is_itmo_student : Option Bool
  pub itmo_isu : Option String
  pub completed_at : Option ℕ
  pub personalization_origin : String

-- The row that `get_or_create` makes.
abbrev pub fresh_profile : Profile
fresh_profile = record {
  vk_username = "";
  minecraft_nick = "";
  minecraft_has_license = none;
  is_itmo_student = none;
  itmo_isu = none;
  completed_at = none;
  personalization_origin = "signup";
}

abbrev is_blank : String → Bool
is_blank s = not (non_empty (strip s))

abbrev is_blank_isu : Option String → Bool
is_blank_isu none = true
is_blank_isu (some s) = is_blank s

abbrev pub is_true : Option Bool → Bool
is_true none = false
is_true (some b) = b

abbrev when_missing : Bool → String → List String
when_missing b name = if b then name ∷ [] else []

unfoldable pub missing_personalization_fields : Profile → List String
missing_personalization_fields p =
    when_missing (is_blank p.vk_username) "vk_username"
    ++ when_missing (is_blank p.minecraft_nick) "minecraft_nick"
    ++ when_missing (not (is_some p.minecraft_has_license)) "minecraft_has_license"
    ++ when_missing (not (is_some p.is_itmo_student)) "is_itmo_student"
    ++ when_missing (is_true p.is_itmo_student && is_blank_isu p.itmo_isu) "itmo_isu"

abbrev is_nil : List String → Bool
is_nil [] = true
is_nil (x ∷ xs) = false

unfoldable pub personalization_complete : Profile → Bool × List String
personalization_complete p =
    let missing = missing_personalization_fields p in (is_nil missing, missing)

abbrev pub all_chars : (ℕ → Bool) → String → Bool
all_chars p String.[] = true
all_chars p (String.◌∷◌ c s) = p (code c) && all_chars p s

abbrev is_word_char : ℕ → Bool
is_word_char c =
    leb b'A' c && leb c b'Z'
    || leb b'a' c && leb c b'z'
    || leb b'0' c && leb c b'9'
    || nat_eq c b'_'

abbrev has_count : ℕ → ℕ → String → Bool
has_count low high s = leb low (count s) && leb (count s) high

-- `VK_USERNAME_RE.fullmatch`, `MINECRAFT_NICK_RE.fullmatch` and `ITMO_ISU_RE.fullmatch`
unfoldable pub is_vk_username : String → Bool
is_vk_username s =
    all_chars (λ c. is_word_char c || nat_eq c b'.' || nat_eq c b'-') s && has_count 2 64 s

unfoldable pub is_minecraft_nick : String → Bool
is_minecraft_nick s = all_chars is_word_char s && has_count 3 16 s

unfoldable pub is_itmo_isu : (ℕ → Bool) → String → Bool
is_itmo_isu is_digit s = all_chars is_digit s && has_count 5 20 s

-- `value[len(prefix):]`, where the length of the prefix is at most that of the value.
unfoldable pub without_prefix : String → String → String
without_prefix String.[] s = s
without_prefix (String.◌∷◌ c p) String.[] = String.[]
without_prefix (String.◌∷◌ c p) (String.◌∷◌ d s) = without_prefix p s

unfoldable pub without_first_prefix : List String → String → String
without_first_prefix [] value = value
without_first_prefix (p ∷ ps) value =
    let rest = without_first_prefix ps value in
    if has_prefix p (lower value) then without_prefix p value else rest

-- `value.lstrip(mark)` and `value.strip(mark)`, of one character.
unfoldable pub lstrip_mark : ℕ → String → String
lstrip_mark mark String.[] = String.[]
lstrip_mark mark (String.◌∷◌ c s) =
    let rest = lstrip_mark mark s in if nat_eq (code c) mark then rest else String.◌∷◌ c s

unfoldable pub rstrip_mark : ℕ → String → String
rstrip_mark mark String.[] = String.[]
rstrip_mark mark (String.◌∷◌ c s) =
    let rest = rstrip_mark mark s in
    if not (non_empty rest) && nat_eq (code c) mark then String.[] else String.◌∷◌ c rest

abbrev pub vk_prefixes : List String
vk_prefixes =
    "https://vk.com/" ∷ "http://vk.com/" ∷ "https://m.vk.com/" ∷ "http://m.vk.com/" ∷ "vk.com/"
    ∷ "m.vk.com/" ∷ []

-- `normalize_vk_username`
unfoldable pub normalize_vk_username : String → String
normalize_vk_username raw =
    let named = strip (lstrip_mark b'@' (strip (without_first_prefix vk_prefixes (strip raw)))) in
    rstrip_mark b'/' (lstrip_mark b'/' named)
