-- ===== src/Features/Preview.antt =====
-- backend/featureflags/services.py: the cookie with a staff user's previews. Django's signing of JSON and the
-- length of a text in UTF-8 are parameters.
pub mod RoundTrip
use jou_tak_web.Prelude.{
  ℕ, String, Bool, true, false, ◌&&◌, ◌||◌, not, Option, none, some, List, [], ◌∷◌, keep_if, map,
  length, ltb, nat_eq, if◌then◌else◌,
}
use jou_tak_web.Prelude.Assoc.{Dict}
use jou_tak_web.Values.{Value, null, int, str, shown, non_empty}
use jou_tak_web.Registry.{Site, is_staff_preview_allowed, is_valid_override_value}
use jou_tak_web.Registry.Validation.{value_eq}
use jou_tak_web.Features.Model.{User}

-- What a signed text holds: an object with these entries, where `null` stands for one that is missing and
-- `none` for overrides that are no object; or any other JSON.
pub data Payload : Type 0 where
  object : (version : Value) (staff_user_id : Value) (overrides : Option (Dict Value)) → Payload
  other : Payload

-- `signing.dumps` and `signing.loads` under the cookie's salt and age; `none` is `BadSignature`.
pub record Signer : Type 0 where
  pub dumps : Payload → String
  pub loads : String → Option Payload
  pub utf8_length : String → ℕ

-- `_can_use_request_overrides`
unfoldable pub can_use_request_overrides : Option User → Bool
can_use_request_overrides none = false
can_use_request_overrides (some u) = u.is_authenticated && u.is_staff

abbrev pub is_allowed : Site → String × Value → Bool
is_allowed site e = is_staff_preview_allowed site e.0 && is_valid_override_value site e.0 e.1

abbrev pub as_text : String × Value → String × String
as_text e = (e.0, shown e.1)

-- `{str(key): str(value) for ... if ...}`; the keys of a dictionary differ.
unfoldable pub validated_overrides : Site → Dict Value → Dict String
validated_overrides site overrides = map as_text (keep_if (is_allowed site) overrides)

abbrev overrides_of : Site → ℕ → Option Payload → Dict String
overrides_of site pk (some (object version owner (some overrides))) =
    if value_eq version (int 1) && value_eq owner (int pk)
    then validated_overrides site overrides
    else []
overrides_of site pk _ = []

abbrev pk_of : Option User → ℕ
pk_of none = 0
pk_of (some u) = u.pk

-- `read_override_cookie`; a cookie that is missing is "".
unfoldable pub read_override_cookie : Site → Signer → String → Option User → Dict String
read_override_cookie site signer raw user =
    if not (non_empty raw) || ltb 4096 (signer.utf8_length raw)
    then []
    else if not (can_use_request_overrides user)
    then []
    else overrides_of site (pk_of user) (signer.loads raw)

pub data PreviewError : Type 0 where
  permission_error unknown_flag_or_value payload_too_large : PreviewError

-- The cookie to set and the overrides in it, or what is raised.
pub data Preview : Type 0 where
  cookie : String → Dict String → Preview
  refused : PreviewError → Preview

abbrev pub text_entry : String × String → String × Value
text_entry e = (e.0, str e.1)

abbrev pub preview_payload : ℕ → Dict String → Payload
preview_payload pk overrides = object (int 1) (int pk) (some (map text_entry overrides))

-- `set_override_cookie`
unfoldable pub set_override_cookie : Site → Signer → User → Dict Value → Preview
set_override_cookie site signer user overrides =
    let validated = validated_overrides site overrides in
    let encoded = signer.dumps (preview_payload user.pk validated) in
    if not (can_use_request_overrides (some user))
    then refused permission_error
    else if not (nat_eq (length validated) (length overrides))
    then refused unknown_flag_or_value
    else if ltb 4096 (signer.utf8_length encoded)
    then refused payload_too_large
    else cookie encoded validated
