-- ===== src/Features/Request.antt =====
-- backend/featureflags/services.py: the context of a request, with its anonymous id.

use Prim.Native.String.{count}
use Prim.Native.Char.{code}
use jou_tak_web.Prelude.{
  ℕ, String, Bool, true, false, ◌&&◌, ◌||◌, Option, none, some, [], ◌∷◌, nat_eq, leb, if◌then◌else◌,
}
use jou_tak_web.Prelude.Assoc.{Dict}
use jou_tak_web.Prelude.Text.{strip}
use jou_tak_web.Values.{Value, str, non_empty}
use jou_tak_web.Registry.{Site}
use jou_tak_web.Features.Model.{User, Context}
use jou_tak_web.Features.Preview.{Signer, read_override_cookie}

-- Django's signing of texts under the salt of the anonymous id; `none` is `BadSignature`.
pub record IdSigner : Type 0 where
  pub dumps_id : String → String
  pub loads_id : String → Option Value

abbrev is_hex : ℕ → Bool
is_hex c = leb b'0' c && leb c b'9' || leb b'a' c && leb c b'f'

abbrev all_hex : String → Bool
all_hex String.[] = true
all_hex (String.◌∷◌ c s) = is_hex (code c) && all_hex s

abbrev line_end : String → String
line_end String.[] = ""
line_end (String.◌∷◌ c String.[]) = if nat_eq (code c) 10 then "" else String.◌∷◌ c ""
line_end (String.◌∷◌ c s) = String.◌∷◌ c (line_end s)

-- `_UUID_HEX_RE.match`, whose `$` allows a newline at the end.
unfoldable pub is_uuid_hex : String → Bool
is_uuid_hex s =
    nat_eq (count s) 32 && all_hex s
    || nat_eq (count s) 33 && nat_eq (count (line_end s)) 32 && all_hex (line_end s)

abbrev pub id_or : String → Option Value → String × Bool
id_or fresh (some (str s)) = if is_uuid_hex s then (s, false) else (fresh, true)
id_or fresh v = (fresh, true)

-- `extract_or_create_anonymous_id` of the cookie, and whether the id is new; `fresh` is `uuid4().hex`.
unfoldable pub extract_or_create_anonymous_id : IdSigner → String → String → String × Bool
unfolding is_uuid_hex
extract_or_create_anonymous_id signer fresh cookie =
    let raw = strip cookie in
    if non_empty raw then id_or fresh (signer.loads_id raw) else (fresh, true)

-- `resolve_optional_user`, by the user of the session token and the request's own.
unfoldable pub resolve_optional_user : Option User → Option User → Option User
resolve_optional_user (some u) own = some u
resolve_optional_user none none = none
resolve_optional_user none (some u) = if u.is_authenticated then some u else none

-- The cookies that `build_context` writes to a response: a new id, and whether the overrides are deleted.
pub record ResponseCookies : Type 0 where
  pub anonymous_id : Option String
  pub deletes_overrides : Bool

abbrev is_nil : Dict String → Bool
is_nil [] = true
is_nil (x ∷ xs) = false

-- `build_context` of a request with the two cookies, and the cookies of its response.
unfoldable pub build_context :
    Site
    → Signer
    → IdSigner
    → (by_token own : Option User) → (fresh id_cookie override_cookie page : String)
    → Context × ResponseCookies
unfolding extract_or_create_anonymous_id resolve_optional_user read_override_cookie
build_context site signer ids by_token own fresh id_cookie override_cookie page =
    let user = resolve_optional_user by_token own in
    let anonymous = extract_or_create_anonymous_id ids fresh id_cookie in
    let overrides = read_override_cookie site signer override_cookie user in
    (
      record {
        user = user;
        anonymous_id = some anonymous.0;
        page = page;
        request_overrides = some overrides;
      },
      record {
        anonymous_id = if anonymous.1 then some (ids.dumps_id anonymous.0) else none;
        deletes_overrides = non_empty override_cookie && is_nil overrides;
      },
    )
