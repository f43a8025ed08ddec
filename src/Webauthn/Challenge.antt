-- ===== src/Webauthn/Challenge.antt =====
-- backend/accounts/middleware.py: a challenge is stored in the session with what it is bound to, and consumed
-- once. Times are microseconds, and one call reads the clock once; the time to live is in seconds. SHA-256, the text of a float, fresh tokens
-- and the outcome of saving a session are the platform's, and so parameters or arguments.

use Prim.Native.String.{count, ◌++◌}
use jou_tak_web.Prelude.{
  ℕ, String, Bool, false, ◌&&◌, ◌||◌, Option, none, some, List, ◌==◌, leb, ltb, nat_eq, all,
  if◌then◌else◌,
}
use jou_tak_web.Values.{Value, bool, int, str, null, shown, non_empty}
use jou_tak_web.Admin.Mfa.{PendingState}
use jou_tak_web.Webauthn.Policies.{CeremonyPolicy, admin_surface}
use jou_tak_web.Webauthn.ClientData.{Checked, accepted, rejected, ◌>>◌, require, Members, codes}

-- The dictionary under `_webauthn_challenge`; a missing entry is `null`.
pub record ChallengeMetadata : Type 0 where
  pub version : Value
  pub purpose : Value
  pub issued_at : Value
  pub challenge_digest : Value
  pub session_binding_digest : Value
  pub subject_binding_digest : Value
  pub nonce : Value

-- The dictionary under `account_login`, of a login that waits for its second factor.
pub record AccountLogin : Type 0 where
  pub user_pk : Value
  pub initiated_at : Value

-- The entries of the session that the ceremony reads and writes; `verification` is the library's own state.
pub record BoundarySession : Type 0 where
  pub challenge : Option ChallengeMetadata
  pub binding : Value
  pub admin_pending : Option PendingState
  pub account_login : Option AccountLogin
  pub user_pk : Value
  pub verification : Option Members

-- The hex SHA-256 of a text and of bytes, and `repr` of a float.
pub record Platform : Type 0 where
  pub sha256 : String → String
  pub sha256_bytes : List ℕ → String
  pub show_float : ℕ → String

-- `value == 1`
abbrev pub is_one : Value → Bool
is_one (int n) = nat_eq n 1
is_one (bool b) = b
is_one _ = false

-- `_challenge_ttl` of the setting.
unfoldable pub challenge_ttl : Value → Checked ℕ
challenge_ttl (int n) = do require (ltb 0 n) "challenge_ttl_invalid"; accepted n
challenge_ttl _ = rejected "challenge_ttl_invalid"

abbrev is_hex : ℕ → Bool
is_hex c = leb b'0' c && leb c b'9' || leb b'a' c && leb c b'f'

-- `_is_sha256_digest`
unfoldable pub is_sha256_digest : Value → Bool
is_sha256_digest (str s) = nat_eq (count s) 64 && all is_hex (codes s)
is_sha256_digest _ = false

abbrev pub is_text_of : String → Value → Bool
is_text_of s (str t) = t == s
is_text_of s _ = false

-- The version and the two texts that a binding of the admin surface is made of.
abbrev admin_subject : Value → Value → Value → Option String
admin_subject version (str user_pk) (str flow_id) =
    if is_one version && non_empty user_pk && leb 16 (count flow_id)
    then some ("admin:" ++ user_pk ++ ":" ++ flow_id)
    else none
admin_subject version _ _ = none

-- `admin_subject` reads the fields of a `PendingState` or nothing.
abbrev admin_subject_of : Option PendingState → Option String
admin_subject_of none = none
admin_subject_of (some p) = admin_subject p.version p.user_pk p.flow_id

abbrev authenticated_of : Value → Option String
authenticated_of null = none
authenticated_of v = if non_empty (shown v) then some ("authenticated:" ++ shown v) else none

abbrev seconds_of : Value → Option ℕ
seconds_of (int n) = some n
seconds_of _ = none

-- A stored digest against the expected one.
abbrev pub same_digest : Option String → Value → Bool
same_digest none v = false
same_digest (some d) v = is_sha256_digest v && is_text_of d v

-- `_session_binding_digest`: `token` is the fresh one that `create` stores.
module _ (platform : Platform) where
  abbrev pub binding_digest : Bool → String → Value → Option String × Value
  binding_digest create token (str b) =
      if leb 32 (count b)
      then (some (platform.sha256 b), str b)
      else if create
      then (some (platform.sha256 token), str token)
      else (none, str b)
  binding_digest create token v =
      if create then (some (platform.sha256 token), str token) else (none, v)

  unfoldable pub session_binding_digest :
      Bool → String → BoundarySession → Option String × BoundarySession
  session_binding_digest create token session =
      let digest = binding_digest create token session.binding in
      (digest.0, record session { binding = digest.1 })

  abbrev pending_subject : Value → Value → Option String
  pending_subject (str pk) (int t) =
      if non_empty pk then some ("pending:" ++ pk ++ ":" ++ platform.show_float t) else none
  pending_subject _ _ = none

  abbrev login_subject : Option AccountLogin → Option String
  login_subject none = none
  login_subject (some l) = pending_subject l.user_pk l.initiated_at

  -- `_subject_binding`
  unfoldable pub subject_binding : BoundarySession → CeremonyPolicy → Option String
  unfolding shown
  subject_binding session policy =
      if policy.surface == admin_surface
      then admin_subject_of session.admin_pending
      else if policy.purpose == "account.login"
      then none
      else if policy.purpose == "account.authenticate" || policy.purpose == "account.signup"
      then login_subject session.account_login
      else authenticated_of session.user_pk

  abbrev pub digest_of : Option String → Option String
  digest_of none = none
  digest_of (some b) = some (platform.sha256 b)

  -- `_subject_binding_digest`
  unfoldable pub subject_binding_digest : BoundarySession → CeremonyPolicy → Option String
  subject_binding_digest session policy = digest_of (subject_binding session policy)
