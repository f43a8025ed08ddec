-- ===== src/Webauthn/Middleware.antt =====
-- backend/accounts/middleware.py: the two halves of `WebAuthnOriginValidationMiddleware`, before and after the
-- view. A request comes with its route and method, the session that the ceremony uses (none, where it has none),
-- and its body as `json.loads` reads it. The logs are left out.
pub mod Complete
pub mod Stored
pub mod Options
use Prim.Native.String
use jou_tak_web.Prelude.{
  ℕ, String, Bool, true, false, ◌&&◌, ◌||◌, Option, none, some, List, ◌==◌, leb, ltb, if◌then◌else◌,
}
use jou_tak_web.Prelude.Assoc.{lookup}
use jou_tak_web.Values.{Value}
use jou_tak_web.Cache.{Row, DatabaseCache}
use jou_tak_web.Webauthn.Policies.{
  CeremonyPolicy, admin_surface, completion_policies, options_policies,
}
use jou_tak_web.Webauthn.ClientData.{
  Checked, accepted, rejected, crashed, ◌>>=◌, ◌>>◌, require, Json, Members, OriginSetting,
  ClientData, validate_webauthn_client_data,
}
use jou_tak_web.Webauthn.Challenge.{ChallengeMetadata, BoundarySession, Platform, is_text_of}
use jou_tak_web.Webauthn.Consume.{consume_challenge, without_challenge}
use jou_tak_web.Webauthn.Boundary.{
  allowed_origins, parse_request_payload, clear_challenge, require_passwordless_user_verification,
  store_challenge,
}

-- `None` for a request that goes on to its view, the status of a refusal, or an exception.
pub data Reply : Type 0 where
  forwarded failed : Reply
  refused : ℕ → Reply

-- How the failed attempt on the admin surface was counted.
pub data BoundaryAccount : Type 0 where
  no_pending counted limited broken : BoundaryAccount

-- `_register_admin_boundary_failure`, and the refusal where it gives no response.
unfoldable pub refusal : String → BoundaryAccount → Reply
refusal surface limited = refused (if surface == admin_surface then 429 else 400)
refusal surface account = refused 400

-- What the middleware is configured with: the settings, and the parser of JSON.
pub record Config : Type 0 where
  pub platform : Platform
  pub cache : DatabaseCache
  pub parse_json : List ℕ → Option Json
  pub ttl : Value
  pub account_origins : OriginSetting
  pub admin_origins : OriginSetting

-- The response of a view, as far as the middleware looks into it or changes it.
pub record Response : Type 0 where
  pub status : ℕ
  pub payload : Option Members
  pub no_store : Bool

-- `_generic_rejection`
abbrev generic_rejection : Response
generic_rejection = record {
  status = 400;
  payload = some (Members.member "error" (Json.str "Invalid WebAuthn response.") Members.end);
  no_store = false;
}

abbrev reply_of : String → BoundaryAccount → Checked (Unit {0}) → Reply
reply_of surface account (accepted u) = forwarded
reply_of surface account (rejected reason) = refusal surface account
reply_of surface account crashed = failed

abbrev is_for : String → Option CeremonyPolicy → Bool
is_for method none = false
is_for method (some policy) = method == policy.method

abbrev cleared : (saves : Bool) → Option BoundarySession → Checked (Unit {0})
cleared saves none = accepted tt
cleared saves (some session) = clear_challenge saves session

abbrev popped : Option BoundarySession → Option BoundarySession
popped none = none
popped (some session) = some (without_challenge session)

abbrev is_known : Option CeremonyPolicy → Bool
is_known none = false
is_known (some policy) = true

abbrev cache_control : Bool → Checked Response → Checked Response
cache_control webauthn_route (accepted r) =
    accepted (if webauthn_route then record r { no_store = true } else r)
cache_control webauthn_route c = c

module _ (config : Config) where
  -- The checks of a completion behind the consumed challenge.
  unfoldable pub check_client_data :
      CeremonyPolicy → Option Json → ChallengeMetadata → Checked (Unit {0})
  unfolding allowed_origins parse_request_payload validate_webauthn_client_data
  check_client_data policy body metadata = do
    credential ← parse_request_payload policy body
    client_data ←
        validate_webauthn_client_data config.parse_json credential policy.expected_type
          (allowed_origins config.account_origins config.admin_origins policy.surface)
    require
        (is_text_of (config.platform.sha256_bytes client_data.challenge) metadata.challenge_digest)
        "challenge_mismatch"

  -- The `try` block of `process_view`.
  unfoldable pub complete :
      (now : ℕ) (saves : Bool)
      → Option BoundarySession
      → CeremonyPolicy
      → Option Json
      → List Row
      → Checked (Unit {0}) × List Row
  unfolding consume_challenge check_client_data
  complete now saves none policy body rows = (rejected "challenge_session_missing", rows)
  complete now saves (some session) policy body rows =
      let consumed =
        consume_challenge config.platform config.cache config.ttl now saves session policy rows in
      (consumed.0 >>= check_client_data policy body, consumed.1)

  abbrev completed :
      String
      → (now : ℕ) (saves : Bool) → BoundaryAccount
      → Option BoundarySession
      → Option Json
      → List Row
      → Option CeremonyPolicy
      → Reply × Option BoundarySession × List Row
  completed method now saves account session body rows none = (forwarded, session, rows)
  completed method now saves account session body rows (some policy) =
      let result = complete now saves session policy body rows in
      if method == policy.method
      then (reply_of policy.surface account result.0, popped session, result.1)
      else (forwarded, session, rows)

  -- `process_view`: the reply, and the session and the cache that it leaves.
  unfoldable pub process_view :
      (route method : String) (now : ℕ) (saves : Bool)
      → BoundaryAccount
      → Option BoundarySession
      → Option Json
      → List Row
      → Reply × Option BoundarySession × List Row
  unfolding refusal complete clear_challenge
  process_view route method now saves account session body rows =
      if is_for method (lookup route options_policies)
      then (reply_of "" account (cleared saves session), popped session, rows)
      else completed method now saves account session body rows (lookup route completion_policies)

  abbrev bound_response :
      Response
      → Option Members
      → Checked (Unit {0}) × BoundarySession
      → Checked Response × Option BoundarySession
  bound_response r payload (accepted u, session) =
      (accepted (record r { payload = payload }), some session)
  bound_response r payload (rejected e, session) = (accepted generic_rejection, some session)
  bound_response r payload (crashed, session) = (crashed, some session)

  abbrev strengthened :
      (now : ℕ) (saves : Bool) (token nonce : String)
      → CeremonyPolicy
      → Response
      → BoundarySession
      → Checked (BoundarySession × Option Members)
      → Checked Response × Option BoundarySession
  strengthened now saves token nonce policy r session (accepted (stronger, payload)) =
      bound_response r payload
        (store_challenge config.platform config.ttl now saves token nonce stronger policy payload)
  strengthened now saves token nonce policy r session (rejected e) =
      (accepted generic_rejection, some session)
  strengthened now saves token nonce policy r session crashed = (crashed, some session)

  abbrev with_options :
      String
      → (now : ℕ) (saves : Bool) (token nonce : String) → Response
      → Option BoundarySession
      → Option CeremonyPolicy
      → Checked Response × Option BoundarySession
  with_options method now saves token nonce r session none = (accepted r, session)
  with_options method now saves token nonce r none (some policy) =
      if method == policy.method && leb 200 r.status && ltb r.status 300
      then (accepted generic_rejection, none)
      else (accepted r, none)
  with_options method now saves token nonce r (some session) (some policy) =
      let bound =
        strengthened now saves token nonce policy r session
          (require_passwordless_user_verification policy session r.payload) in
      if method == policy.method && leb 200 r.status && ltb r.status 300
      then bound
      else (accepted r, some session)

  -- `__call__` behind the view's response.
  unfoldable pub after_view :
      (route method : String) (now : ℕ) (saves : Bool) (token nonce : String)
      → Response
      → Option BoundarySession
      → Checked Response × Option BoundarySession
  unfolding require_passwordless_user_verification store_challenge
  after_view route method now saves token nonce r session =
      let options = lookup route options_policies in
      let bound = with_options method now saves token nonce r session options in
      (
        cache_control (is_known (lookup route completion_policies) || is_known options) bound.0,
        bound.1,
      )
