-- ===== src/Webauthn/Middleware/Options.antt =====
-- A stored challenge can be consumed.
use Prim.Native.String.{count}
use jou_tak_web.Prelude.{
  ℕ, ◌+◌, ◌*◌, ◌≤◌, String, ◌≡◌, refl, sym, ap, ◌∙◌, subst, true, false, ◌&&◌, ◌||◌, Option, some,
  List, ◌==◌, leb,
}
use jou_tak_web.Values.{Value, bool, str}
use jou_tak_web.Cache.{second, Row, stored, DatabaseCache, add}
use jou_tak_web.Webauthn.Policies.{CeremonyPolicy, admin_surface}
use jou_tak_web.Webauthn.ClientData.{Members, accepted}
use jou_tak_web.Webauthn.Challenge.{
  ChallengeMetadata, BoundarySession, Platform, challenge_ttl, is_sha256_digest,
  session_binding_digest, subject_binding, subject_binding_digest,
}
use jou_tak_web.Webauthn.Consume.{
  claim_key, claimable, bound_to, consume_challenge, without_challenge, claim,
}
use jou_tak_web.Webauthn.Boundary.{store_challenge, new_metadata, is_some}
use jou_tak_web.Webauthn.Middleware.Stored.{
  IsPlatform, binding-again, metadata_of, new_metadata-accepted, claimable-stored, bound_to-stored,
  claim-stored, bound_challenge-accepted,
}

module _ (platform : Platform) (laws : IsPlatform platform) where
  module _ (db : DatabaseCache) (ttl_setting : Value) (ttl now t : ℕ) (token nonce : String)
      (policy : CeremonyPolicy) (rows : List Row) where
    consumed-stored :
        (d : String) (raw : List ℕ) (session : BoundarySession)
        → challenge_ttl ttl_setting ≡ accepted ttl
        → now ≤ t
        → t ≤ now + ttl * second
        → (leb 32 (count nonce) && leb (count nonce) 256) ≡ true
        → (policy.purpose == "account.login" && policy.surface == admin_surface) ≡ false
        → (policy.purpose == "account.login"
            || is_some (subject_binding_digest platform (without_challenge session) policy))
          ≡ true
        → (session_binding_digest platform false "" (without_challenge session)).0 ≡ some d
        → is_sha256_digest (str d) ≡ true
        → session.challenge
          ≡ some (
              metadata_of platform laws now nonce d
                (subject_binding_digest platform (without_challenge session) policy)
                (platform.sha256_bytes raw)
                policy.purpose)
        → (add db (claim_key platform nonce) (bool true) ttl t rows).0 ≡ stored true
        → (consume_challenge platform db ttl_setting t true session policy rows).0
          ≡ accepted (
              metadata_of platform laws now nonce d
                (subject_binding_digest platform (without_challenge session) policy)
                (platform.sha256_bytes raw)
                policy.purpose)
    unfolding consume_challenge
    consumed-stored d raw session known from until long account needed binding hex held added =
        let popped = without_challenge session in
        let subject = subject_binding_digest platform popped policy in
        let m =
          metadata_of platform laws now nonce d subject (platform.sha256_bytes raw)
            policy.purpose in
        subst
          (λ c.
            (claim platform db (bound_to platform popped policy c) t rows
              (claimable platform ttl_setting t popped c)).0
            ≡ accepted m)
          (sym held)
          (claim-stored platform laws db (bound_to platform popped policy (some m)) ttl t nonce rows
              (claimable platform ttl_setting t popped (some m))
              (claimable-stored platform laws ttl_setting ttl now t nonce d policy.purpose
                (platform.sha256_bytes raw) subject popped known from until long binding hex)
              added
            ∙ bound_to-stored platform laws now nonce d raw popped policy account needed)

    -- A challenge that was stored for the options of a ceremony is accepted when the ceremony is completed in
    -- the same session within the time to live, as long as the nonce can be claimed in the cache.
    pub store_challenge-consumed :
        (session bound : BoundarySession) (response : Option Members) (u : Unit {0})
        → challenge_ttl ttl_setting ≡ accepted ttl
        → now ≤ t
        → t ≤ now + ttl * second
        → 32 ≤ count token
        → (leb 32 (count nonce) && leb (count nonce) 256) ≡ true
        → (policy.purpose == "account.login" && policy.surface == admin_surface) ≡ false
        → (add db (claim_key platform nonce) (bool true) ttl t rows).0 ≡ stored true
        → store_challenge platform ttl_setting now true token nonce session
            (record policy { method = "GET" })
            response
          ≡ (accepted u, bound)
        → (m : ChallengeMetadata) × (bound.challenge ≡ some m)
          × ((consume_challenge platform db ttl_setting t true bound policy rows).0 ≡ accepted m)
    unfolding store_challenge session_binding_digest subject_binding_digest subject_binding
    store_challenge-consumed session bound response u known from until token_long long account added
          h =
        let options = record policy { method = "GET" } in
        let again = binding-again platform laws token session.binding token_long in
        let kept =
          bound_challenge-accepted platform laws now token nonce session bound options _ u h in
        let created = (session_binding_digest platform true token session).1 in
        let made =
          new_metadata-accepted platform laws now nonce again.0 created options kept.0 kept.1 (
            subst (λ o. new_metadata platform now nonce o created options kept.0 ≡ accepted kept.1)
              again.1 kept.2) in
        let m =
          metadata_of platform laws now nonce again.0
            (subject_binding_digest platform created options) (platform.sha256_bytes made.0)
            policy.purpose in
        let after = record created { challenge = some m } in
        let same : bound ≡ after =
          kept.3 ∙ ap (λ x. record created { challenge = some x }) made.2 in
        (
          m,
          ap (λ b. b.challenge) same,
          subst
              (λ b. (consume_challenge platform db ttl_setting t true b policy rows).0 ≡ accepted m)
              (sym same)
              (consumed-stored again.0 made.0 after known from until long account made.1 again.2
                again.3 refl added),
        )
