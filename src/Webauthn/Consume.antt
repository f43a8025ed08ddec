-- ===== src/Webauthn/Consume.antt =====
-- backend/accounts/middleware.py: `_consume_challenge`. The nonce is claimed in the replay cache, whose backend
-- is that of backend/backend/cache_backends.py.
pub mod Bound
pub mod Replay
use Prim.Native.String
use Prim.Native.String.{count, ◌++◌}
use jou_tak_web.Prelude.{
  ℕ, ◌+◌, ◌*◌, String, Bool, true, false, ◌&&◌, ◌||◌, not, Option, none, some, List, ◌==◌, leb,
  if◌then◌else◌,
}
use jou_tak_web.Values.{Value, bool, int, str, null}
use jou_tak_web.Cache.{second, Row, CacheResult, stored, raised, DatabaseCache, add}
use jou_tak_web.Webauthn.Policies.{CeremonyPolicy}
use jou_tak_web.Webauthn.ClientData.{Checked, accepted, rejected, crashed, ◌>>=◌, ◌>>◌, require}
use jou_tak_web.Webauthn.Challenge.{
  ChallengeMetadata, BoundarySession, Platform, is_one, challenge_ttl, is_sha256_digest, is_text_of,
  same_digest, session_binding_digest, subject_binding_digest,
}

-- `isinstance(issued_at, (int, float))`, and not a Boolean, in microseconds.
abbrev issued_of : Value → Checked ℕ
issued_of (int t) = accepted t
issued_of _ = rejected "challenge_metadata_invalid"

abbrev nonce_of : Value → Checked String
nonce_of (str s) = do
  require (leb 32 (count s) && leb (count s) 256) "challenge_metadata_invalid"
  accepted s
nonce_of _ = rejected "challenge_metadata_invalid"

abbrev is_null : Value → Bool
is_null null = true
is_null _ = false

abbrev pub without_challenge : BoundarySession → BoundarySession
without_challenge session = record session { challenge = none }

module _ (platform : Platform) where
  abbrev pub claim_key : String → String
  claim_key nonce = "webauthn:challenge:claimed:" ++ platform.sha256 nonce

  -- The checks before the claim, which give the time to live and the nonce.
  unfoldable pub claimable :
      Value → ℕ → BoundarySession → Option ChallengeMetadata → Checked (ℕ × String)
  unfolding challenge_ttl session_binding_digest
  claimable ttl_setting now session none = rejected "challenge_metadata_missing"
  claimable ttl_setting now session (some m) = do
    require (is_one m.version) "challenge_metadata_invalid"
    issued ← issued_of m.issued_at
    ttl ← challenge_ttl ttl_setting
    require (leb issued now && leb now (issued + ttl * second)) "challenge_expired"
    require
        (same_digest (session_binding_digest platform false "" session).0 m.session_binding_digest)
        "session_binding_mismatch"
    nonce ← nonce_of m.nonce
    accepted (ttl, nonce)

  abbrev pub subject_holds : BoundarySession → CeremonyPolicy → Value → Bool
  subject_holds session policy v =
      if policy.purpose == "account.login"
      then is_null v
      else same_digest (subject_binding_digest platform session policy) v

  -- The checks after the claim.
  unfoldable pub bound_to :
      BoundarySession → CeremonyPolicy → Option ChallengeMetadata → Checked ChallengeMetadata
  unfolding subject_binding_digest is_sha256_digest
  bound_to session policy none = rejected "challenge_metadata_missing"
  bound_to session policy (some m) = do
    require (is_text_of policy.purpose m.purpose) "challenge_purpose_mismatch"
    require (subject_holds session policy m.subject_binding_digest) "subject_binding_mismatch"
    require (is_sha256_digest m.challenge_digest) "challenge_metadata_invalid"
    accepted m

  abbrev pub claimed :
      Checked ChallengeMetadata → CacheResult × List Row → Checked ChallengeMetadata × List Row
  claimed after (stored true, rows) = (after, rows)
  claimed after (stored false, rows) = (rejected "challenge_replayed", rows)
  claimed after (raised e, rows) = (rejected "challenge_claim_failed", rows)

  module _ (db : DatabaseCache) where
    abbrev pub claim :
        Checked ChallengeMetadata
        → ℕ
        → List Row
        → Checked (ℕ × String)
        → Checked ChallengeMetadata × List Row
    claim after now rows (accepted (ttl, nonce)) =
        claimed after (add db (claim_key nonce) (bool true) ttl now rows)
    claim after now rows (rejected reason) = (rejected reason, rows)
    claim after now rows crashed = (crashed, rows)

    -- `_consume_challenge`, by the session without the challenge, which `saves` if it can be stored.
    unfoldable pub consume_challenge :
        Value
        → ℕ
        → (saves : Bool) → BoundarySession
        → CeremonyPolicy
        → List Row
        → Checked ChallengeMetadata × List Row
    unfolding claimable bound_to add
    consume_challenge ttl_setting now saves session policy rows =
        let popped = without_challenge session in
        if saves
        then claim (bound_to popped policy session.challenge) now rows
            (claimable ttl_setting now popped session.challenge)
        else (rejected "challenge_session_save_failed", rows)
