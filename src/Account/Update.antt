-- ===== src/Account/Update.antt =====
-- backend/accounts/services/profile.py: the update of a profile. A field that fails its check raises, and the
-- transaction keeps the rows as they were; otherwise the columns in `to_update` are saved.
pub mod Saved
pub mod Valid
use jou_tak_web.Prelude.{
  ℕ, String, Bool, true, false, ◌&&◌, not, Option, none, some, List, [], ◌∷◌, ◌++◌, ltb, member,
  is_some, if◌then◌else◌,
}
use jou_tak_web.Prelude.Text.{strip}
use jou_tak_web.Values.{non_empty}
use jou_tak_web.Account.Profile.{
  Profile, fresh_profile, personalization_complete, normalize_vk_username, is_vk_username,
  is_minecraft_nick, is_itmo_isu,
}
use Prim.Native.String.{count}

-- `raise_field_error`: 422 with the field, and the code of the error.
pub record FieldError : Type 0 where
  pub field : String
  pub code : String

pub data Checked {ℓ} (A : Type ℓ) : Type ℓ where
  fine : A → Checked A
  refused : FieldError → Checked A

abbrev pub and_then {ℓ κ} : {A : Type ℓ} {B : Type κ} → Checked A → (A → Checked B) → Checked B
and_then (fine a) k = k a
and_then (refused e) k = refused e

abbrev invalid : String → FieldError
invalid field = record { field = field; code = "invalid" }

-- The profile in memory, with the names of the columns to save.
abbrev pub Draft : Type 0
Draft = Profile × List String

unfoldable pub apply_vk_username : String → Draft → Checked Draft
apply_vk_username raw (p, to_update) =
    let normalized = normalize_vk_username raw in
    if non_empty normalized && not (is_vk_username normalized)
    then refused (invalid "vk_username")
    else fine (record p { vk_username = normalized }, to_update ++ ("vk_username" ∷ []))

unfoldable pub apply_minecraft_nick : String → Draft → Checked Draft
apply_minecraft_nick raw (p, to_update) =
    let normalized = strip raw in
    if non_empty normalized && not (is_minecraft_nick normalized)
    then refused (invalid "minecraft_nick")
    else fine (record p { minecraft_nick = normalized }, to_update ++ ("minecraft_nick" ∷ []))

unfoldable pub apply_minecraft_has_license : Bool → Draft → Checked Draft
apply_minecraft_has_license b (p, to_update) =
    fine (record p { minecraft_has_license = some b }, to_update ++ ("minecraft_has_license" ∷ []))

unfoldable pub apply_is_itmo_student : Bool → Draft → Checked Draft
apply_is_itmo_student true (p, to_update) =
    fine (record p { is_itmo_student = some true }, to_update ++ ("is_itmo_student" ∷ []))
apply_is_itmo_student false (p, to_update) = fine (
  record p { is_itmo_student = some false; itmo_isu = none },
  (to_update ++ ("is_itmo_student" ∷ [])) ++ ("itmo_isu" ∷ []),
)

abbrev pub is_no_student : Option Bool → Bool
is_no_student none = false
is_no_student (some b) = not b

unfoldable pub apply_itmo_isu : (ℕ → Bool) → String → Draft → Checked Draft
apply_itmo_isu is_digit raw (p, to_update) =
    let normalized = strip raw in
    if is_no_student p.is_itmo_student
    then fine (record p { itmo_isu = none }, to_update ++ ("itmo_isu" ∷ []))
    else if non_empty normalized && not (is_itmo_isu is_digit normalized)
    then refused (invalid "itmo_isu")
    else fine (
      record p { itmo_isu = if non_empty normalized then some normalized else none },
      to_update ++ ("itmo_isu" ∷ []),
    )

-- A field is applied where the caller gives it.
abbrev pub given {ℓ} : {A : Type ℓ} → Option A → (A → Draft → Checked Draft) → Draft → Checked Draft
given none apply d = fine d
given (some a) apply d = apply a d

-- The keyword arguments of `update_profile_fields` on the profile.
pub record Fields : Type 0 where
  pub vk_username : Option String
  pub minecraft_nick : Option String
  pub minecraft_has_license : Option Bool
  pub is_itmo_student : Option Bool
  pub itmo_isu : Option String

unfoldable pub apply_fields : (ℕ → Bool) → Fields → Draft → Checked Draft
unfolding apply_minecraft_has_license
apply_fields is_digit fields d = and_then (given fields.vk_username apply_vk_username d) (λ d1.
    and_then (given fields.minecraft_nick apply_minecraft_nick d1) (λ d2.
      and_then (given fields.minecraft_has_license apply_minecraft_has_license d2) (λ d3.
        and_then (given fields.is_itmo_student apply_is_itmo_student d3)
          (λ d4. given fields.itmo_isu (apply_itmo_isu is_digit) d4))))

unfoldable pub mark_completed : ℕ → Draft → Draft
mark_completed now (p, to_update) =
    if (personalization_complete p).0 && not (is_some p.completed_at)
    then (record p { completed_at = some now }, to_update ++ ("completed_at" ∷ []))
    else (p, to_update)

-- `profile.save(update_fields=...)`: the listed columns of the row are written.
unfoldable pub save_fields : List String → Profile → Profile → Profile
save_fields names p row = record row {
  vk_username = if member "vk_username" names then p.vk_username else row.vk_username;
  minecraft_nick = if member "minecraft_nick" names then p.minecraft_nick else row.minecraft_nick;
  minecraft_has_license =
      if member "minecraft_has_license" names
      then p.minecraft_has_license
      else row.minecraft_has_license;
  is_itmo_student =
      if member "is_itmo_student" names then p.is_itmo_student else row.is_itmo_student;
  itmo_isu = if member "itmo_isu" names then p.itmo_isu else row.itmo_isu;
  completed_at = if member "completed_at" names then p.completed_at else row.completed_at;
}

pub record Names : Type 0 where
  pub first_name : String
  pub last_name : String

abbrev is_too_long : Option ℕ → String → Bool
is_too_long none s = false
is_too_long (some n) s = ltb n (count s)

-- `_normalize_name`; `max_length` is the length that Django's model sets for the column.
unfoldable pub normalize_name : (String → Option ℕ) → String → String → Checked String
normalize_name max_length field raw =
    let normalized = strip raw in
    if is_too_long (max_length field) normalized
    then refused (record { field = field; code = "max_length" })
    else fine normalized

abbrev pub given_name : (String → Option ℕ) → String → Option String → String → Checked String
given_name max_length field none old = fine old
given_name max_length field (some raw) old = normalize_name max_length field raw

unfoldable pub update_name :
    (String → Option ℕ) → Option String → Option String → Names → Checked Names
update_name max_length first last names =
    and_then (given_name max_length "first_name" first names.first_name) (λ f.
      and_then (given_name max_length "last_name" last names.last_name)
        (λ l. fine (record { first_name = f; last_name = l })))

abbrev pub profile_or_fresh : Option Profile → Profile
profile_or_fresh none = fresh_profile
profile_or_fresh (some p) = p

-- What Django and `re` give, as far as the service asks them.
pub record Rules : Type 0 where
  pub max_length : String → Option ℕ
  pub is_digit : ℕ → Bool

-- The account's rows after the update, with the profile in memory that is returned.
unfoldable pub update_profile_fields :
    Rules
    → ℕ
    → Option String
    → Option String
    → Fields
    → Names
    → Option Profile
    → Checked (Names × Profile × Profile)
update_profile_fields rules now first last fields names stored =
    let row = profile_or_fresh stored in
    and_then (update_name rules.max_length first last names) (λ named.
      and_then (apply_fields rules.is_digit fields (row, [])) (λ d.
        let (p, to_update) = mark_completed now d in fine (named, save_fields to_update p row, p)))
