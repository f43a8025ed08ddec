-- ===== src/Sessions/Model.antt =====
-- backend/core/models.py and the rows of the session service. Times are numbers. `UserSession` belongs to
-- allauth and the code asks it for attributes by name, so its attributes are a dictionary.
use jou_tak_web.Prelude.{
  ℕ, String, Bool, true, false, ◌&&◌, Option, none, some, List, ◌==◌, nat_eq, find, if◌then◌else◌,
}
use jou_tak_web.Prelude.Assoc.{Dict}
use jou_tak_web.Prelude.Text.{strip}
use jou_tak_web.Values.{non_empty}

pub data Attr : Type 0 where
  nothing : Attr
  time : ℕ → Attr
  text : String → Attr
  empty_json : Attr

pub record UserSession : Type 0 where
  pub user : ℕ
  pub session_key : String
  pub attributes : Dict Attr

-- `UserSessionMeta`, less the legacy column `session_token`, which its `save` clears.
pub record Meta : Type 0 where
  pub user : ℕ
  pub session_key : String
  pub session_token_digest : Option String
  pub first_seen : ℕ
  pub last_seen : Option ℕ
  pub user_agent : String
  pub ip : Option String
  pub revoked_at : Option ℕ
  pub revoked_reason : Option String

-- `UserSessionToken`
pub record SessionToken : Type 0 where
  pub user : ℕ
  pub session_key : String
  pub refresh_jti : String
  pub revoked_at : Option ℕ

-- `OutstandingToken` of ninja_jwt.
pub record OutstandingToken : Type 0 where
  pub user : ℕ
  pub jti : String

-- A row of `django_session`.
pub record DjangoSession : Type 0 where
  pub session_key : String
  pub expire_date : ℕ

pub record Store : Type 0 where
  pub user_sessions : List UserSession
  pub metas : List Meta
  pub tokens : List SessionToken
  pub outstanding : List OutstandingToken
  pub blacklisted : List OutstandingToken
  pub django_sessions : List DjangoSession

-- What the service reads of a request: `session_key` is "" where the session has none.
pub record Request : Type 0 where
  pub header_token : String
  pub session_key : String
  pub user_agent : String
  pub client_ip : Option String

pub record HttpError : Type 0 where
  pub status : ℕ
  pub detail : String

pub data Result {ℓ} (A : Type ℓ) : Type ℓ where
  ok : A → Result A
  raised : HttpError → Result A

-- `session_token_digest`; `hmac` is the hex digest of `salted_hmac` under the service's salt.
unfoldable pub session_token_digest : (String → String) → String → String
session_token_digest hmac value = let raw = strip value in if non_empty raw then hmac raw else ""

-- `session_token_digest_matches`
unfoldable pub session_token_digest_matches : (String → String) → Option String → String → Bool
session_token_digest_matches hmac none value = false
session_token_digest_matches hmac (some digest) value =
    let candidate = session_token_digest hmac value in
    non_empty digest && non_empty candidate && digest == candidate

abbrev pub is_meta : ℕ → String → Meta → Bool
is_meta user key m = nat_eq m.user user && m.session_key == key

abbrev pub is_user_session : ℕ → String → UserSession → Bool
is_user_session user key us = nat_eq us.user user && us.session_key == key

abbrev pub has_digest : String → Meta → Bool
has_digest digest m = elim m.session_token_digest [ none ↦ false | some d ↦ d == digest ]

abbrev pub is_revoked : Option Meta → Bool
is_revoked none = false
is_revoked (some m) = elim m.revoked_at [ none ↦ false | some at ↦ true ]

abbrev pub session_revoked : HttpError
session_revoked = record { status = 401; detail = "session revoked" }

-- `assert_session_allowed`: by the header's token, then by the session's key.
unfoldable pub assert_session_allowed : (String → String) → Request → Store → Result (Unit {0})
unfolding session_token_digest
assert_session_allowed hmac request st =
    let digest = session_token_digest hmac request.header_token in
    if non_empty digest && is_revoked (find (has_digest digest) st.metas)
    then raised session_revoked
    else if non_empty request.session_key
        && is_revoked (find (λ (m : Meta). m.session_key == request.session_key) st.metas)
    then raised session_revoked
    else ok tt
