-- ===== src/Webauthn/Boundary.antt =====
-- backend/accounts/middleware.py: `WebAuthnOriginValidationMiddleware`. A request comes with its route and method,
-- the session that the ceremony uses (none, where it has none), and its body as `json.loads` reads it.

use jou_tak_web.Prelude.{
  ℕ, String, Bool, true, false, ◌||◌, not, Option, none, some, [], ◌==◌, if◌then◌else◌,
}
use jou_tak_web.Values.{Value, null, int, str}
use jou_tak_web.Webauthn.Policies.{CeremonyPolicy, admin_surface}
use jou_tak_web.Webauthn.ClientData.{
  Checked, accepted, rejected, crashed, ◌>>=◌, ◌>>◌, require, mapping, Json, Members, get, put, has,
  OriginSetting, items, webauthn_challenge_digest, webauthn_create,
}
use jou_tak_web.Webauthn.Challenge.{
  ChallengeMetadata, BoundarySession, Platform, challenge_ttl, session_binding_digest,
  subject_binding_digest,
}

abbrev options_response_invalid : String
options_response_invalid = "options_response_invalid"

abbrev option_key : CeremonyPolicy → String
option_key policy =
    if policy.expected_type == webauthn_create then "creation_options" else "request_options"

abbrev found : Option Members → Checked Members
found none = rejected options_response_invalid
found (some m) = accepted m

abbrev data_of : Members → Checked Members
data_of payload = mapping options_response_invalid (get "data" payload)

abbrev options_of : CeremonyPolicy → Members → Checked Members
options_of policy payload =
    if policy.surface == admin_surface
    then accepted payload
    else (data_of payload >>= λ d. mapping options_response_invalid (get (option_key policy) d))

-- `_options_payload_and_public_key`, the second component.
unfoldable pub options_public_key : CeremonyPolicy → Option Members → Checked Members
options_public_key policy response = do
  payload ← found response
  options ← options_of policy payload
  mapping options_response_invalid (get "publicKey" options)

abbrev enclosed : String → Members → Members → Members → Members
enclosed key payload fields options =
    put "data" (Json.object (put key (Json.object options) fields)) payload

-- The payload after `public_key` was changed in place.
abbrev with_public_key : CeremonyPolicy → Members → Members → Checked Members
with_public_key policy payload public_key =
    if policy.surface == admin_surface
    then accepted (put "publicKey" (Json.object public_key) payload)
    else do
      fields ← data_of payload
      options ← mapping options_response_invalid (get (option_key policy) fields)
      accepted (
          enclosed (option_key policy) payload fields
            (put "publicKey" (Json.object public_key) options))

abbrev required : Members → Members
required m = put "userVerification" (Json.str "required") m

-- `require_webauthn_user_verification` on the library's state.
unfoldable pub require_webauthn_user_verification : Option Members → Checked Members
require_webauthn_user_verification none = rejected "user_verification_state_invalid"
require_webauthn_user_verification (some state) =
    accepted (put "user_verification" (Json.str "required") state)

-- `_require_passwordless_user_verification`: the session and the payload of the response, both strengthened.
unfoldable pub require_passwordless_user_verification :
    CeremonyPolicy → BoundarySession → Option Members → Checked (BoundarySession × Option Members)
unfolding options_public_key require_webauthn_user_verification
require_passwordless_user_verification policy session response =
    if not (policy.purpose == "account.login") then accepted (session, response) else do
      payload ← found response
      public_key ← options_public_key policy response
      state ← require_webauthn_user_verification session.verification
      stronger ← with_public_key policy payload (required public_key)
      accepted (record session { verification = some state }, some stronger)

abbrev pub optional : Option String → Value
optional none = null
optional (some s) = str s

abbrev pub is_some : Option String → Bool
is_some none = false
is_some (some s) = true

abbrev pub or_missing : Option String → Checked String
or_missing none = rejected "session_binding_missing"
or_missing (some s) = accepted s

abbrev pub or_invalid : Checked String → Checked String
or_invalid (rejected e) = rejected "options_challenge_invalid"
or_invalid c = c

-- `_clear_challenge`
unfoldable pub clear_challenge : (saves : Bool) → BoundarySession → Checked (Unit {0})
clear_challenge saves session = elim session.challenge [
  | none ↦ accepted tt
  | some m ↦ require saves "challenge_session_save_failed"
]

-- `_allowed_origins` of the two settings.
unfoldable pub allowed_origins : OriginSetting → OriginSetting → String → OriginSetting
allowed_origins account admin surface = elim (if surface == admin_surface then admin else account) [
  | items o ↦ items o
  | _ ↦ items []
]

-- `_parse_request_payload`
unfoldable pub parse_request_payload : CeremonyPolicy → Option Json → Checked Json
parse_request_payload policy none = rejected "invalid_request_json"
parse_request_payload policy (some payload) =
    if policy.nested_credential
    then (mapping "invalid_credential_shape" payload >>= λ fields.
        require (has "credential" fields) "invalid_credential_shape"
        >> accepted (get "credential" fields))
    else accepted payload

module _ (platform : Platform) where
  -- The dictionary that `_store_challenge` puts into the session.
  unfoldable pub new_metadata :
      ℕ
      → (nonce : String) → Option String
      → BoundarySession
      → CeremonyPolicy
      → Json
      → Checked ChallengeMetadata
  unfolding subject_binding_digest webauthn_challenge_digest
  new_metadata now nonce session_digest session policy challenge =
      let subject = subject_binding_digest platform session policy in
      do
        binding ← or_missing session_digest
        require (policy.purpose == "account.login" || is_some subject) "subject_binding_missing"
        digest ← or_invalid (webauthn_challenge_digest platform.sha256_bytes challenge)
        accepted (record {
          version = int 1;
          purpose = str policy.purpose;
          issued_at = int now;
          challenge_digest = str digest;
          session_binding_digest = str binding;
          subject_binding_digest = optional subject;
          nonce = str nonce;
        })

  abbrev pub written :
      (saves : Bool)
      → BoundarySession
      → Checked ChallengeMetadata
      → Checked (Unit {0}) × BoundarySession
  written saves session (accepted m) =
      (require saves "challenge_session_save_failed", record session { challenge = some m })
  written saves session (rejected e) = (rejected e, session)
  written saves session crashed = (crashed, session)

  abbrev pub bound_challenge :
      (saves : Bool) (now : ℕ) (token nonce : String)
      → BoundarySession
      → CeremonyPolicy
      → Checked Json
      → Checked (Unit {0}) × BoundarySession
  bound_challenge saves now token nonce session policy (accepted challenge) =
      let bound = session_binding_digest platform true token session in
      written saves bound.1 (new_metadata now nonce bound.0 bound.1 policy challenge)
  bound_challenge saves now token nonce session policy (rejected e) = (rejected e, session)
  bound_challenge saves now token nonce session policy crashed = (crashed, session)

  -- `_store_challenge`, with the fresh `token` and `nonce` of `secrets`.
  unfoldable pub store_challenge :
      (ttl_setting : Value) (now : ℕ) (saves : Bool) (token nonce : String)
      → BoundarySession
      → CeremonyPolicy
      → Option Members
      → Checked (Unit {0}) × BoundarySession
  unfolding challenge_ttl options_public_key session_binding_digest new_metadata
  store_challenge ttl_setting now saves token nonce session policy response =
      let challenge = challenge_ttl ttl_setting >>= λ ttl.
      options_public_key policy response >>= λ public_key. accepted (get "challenge" public_key) in
      bound_challenge saves now token nonce session policy challenge
