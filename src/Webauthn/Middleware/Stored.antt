-- ===== src/Webauthn/Middleware/Stored.antt =====
-- What `_store_challenge` puts into the session, and that the checks of a completion pass on it.
use Prim.Native.String.{count}
use jou_tak_web.Prelude.{
  ℕ, ◌+◌, ◌*◌, ◌≤◌, String, ◌≡◌, refl, sym, ap, ◌∙◌, subst, true, false, ◌&&◌, ◌||◌, Option, none,
  some, List, ◌==◌, leb, arith, eq_iff, Bool-cases, inl, inr,
}
use jou_tak_web.Values.{Value, null, bool, int, str}
use jou_tak_web.Cache.{second, Row, CacheResult, stored, raised, DatabaseCache, add}
use jou_tak_web.Webauthn.Policies.{CeremonyPolicy, admin_surface}
use jou_tak_web.Webauthn.ClientData.{
  Json, Checked, accepted, rejected, crashed, bind-accepted, require-accepted, accepted-injective,
  webauthn_challenge_digest, decode_base64url,
}
use jou_tak_web.Webauthn.Challenge.{
  ChallengeMetadata, BoundarySession, Platform, challenge_ttl, is_sha256_digest, same_digest,
  binding_digest, session_binding_digest, subject_binding, subject_binding_digest, digest_of,
}
use jou_tak_web.Webauthn.Consume.{claim_key, claimable, bound_to, claim, claimed, subject_holds}
use jou_tak_web.Webauthn.Boundary.{
  new_metadata, written, bound_challenge, or_invalid, is_some, optional,
}

-- SHA-256 is written in 64 hex digits.
pub record IsPlatform (platform : Platform) : Type 0 where
  pub hex : (s : String) → is_sha256_digest (str (platform.sha256 s)) ≡ true
  pub hex_bytes : (b : List ℕ) → is_sha256_digest (str (platform.sha256_bytes b)) ≡ true

or_invalid-accepted : (c : Checked String) (x : String) → or_invalid c ≡ accepted x → c ≡ accepted x
or_invalid-accepted (accepted y) x h = h
or_invalid-accepted (rejected e) x h = cc
or_invalid-accepted crashed x h = cc

module _ (platform : Platform) (laws : IsPlatform platform) where
  -- A binding that was created is found again.
  pub binding-again :
      (token : String) (v : Value)
      → 32 ≤ count token
      → (d : String) × ((binding_digest platform true token v).0 ≡ some d)
        × ((binding_digest platform false "" (binding_digest platform true token v).1).0 ≡ some d)
        × (is_sha256_digest (str d) ≡ true)
  binding-again token (str b) long = elim (Bool-cases (leb 32 (count b))) [
    | inl kept ↦ (platform.sha256 b, ground arith, ground arith, laws.hex b)
    | inr short ↦ (platform.sha256 token, ground arith, ground arith, laws.hex token)
  ]
  binding-again token null long = (platform.sha256 token, refl, ground arith, laws.hex token)
  binding-again token (bool b) long = (platform.sha256 token, refl, ground arith, laws.hex token)
  binding-again token (int n) long = (platform.sha256 token, refl, ground arith, laws.hex token)

  written-accepted :
      (session bound : BoundarySession) (c : Checked ChallengeMetadata) (u : Unit {0})
      → written platform true session c ≡ (accepted u, bound)
      → (m : ChallengeMetadata) × (c ≡ accepted m) × (bound ≡ record session { challenge = some m })
  written-accepted session bound (accepted m) u h = (m, refl, sym (ap (λ p. p.1) h))
  written-accepted session bound (rejected e) u h = cc
  written-accepted session bound crashed u h = cc

  -- The stored dictionary, by the digests that it holds.
  abbrev pub metadata_of : ℕ → String → String → Option String → String → String → ChallengeMetadata
  metadata_of now nonce binding subject digest purpose = record {
    version = int 1;
    purpose = str purpose;
    issued_at = int now;
    challenge_digest = str digest;
    session_binding_digest = str binding;
    subject_binding_digest = optional subject;
    nonce = str nonce;
  }

  digest-raw :
      (challenge : Json) (x : String)
      → or_invalid (webauthn_challenge_digest platform.sha256_bytes challenge) ≡ accepted x
      → (raw : List ℕ) × (x ≡ platform.sha256_bytes raw)
  unfolding webauthn_challenge_digest
  digest-raw challenge x h =
      let raw = bind-accepted (decode_base64url challenge) _ x (or_invalid-accepted _ x h) in
      (raw.0, sym (accepted-injective (platform.sha256_bytes raw.0) x raw.2))

  pub new_metadata-accepted :
      (now : ℕ) (nonce d : String) (session : BoundarySession) (policy : CeremonyPolicy)
      (challenge : Json) (m : ChallengeMetadata)
      → new_metadata platform now nonce (some d) session policy challenge ≡ accepted m
      → (raw : List ℕ) × ((policy.purpose == "account.login"
            || is_some (subject_binding_digest platform session policy))
          ≡ true)
        × (m
            ≡ metadata_of now nonce d
                (subject_binding_digest platform session policy)
                (platform.sha256_bytes raw)
                policy.purpose)
  unfolding new_metadata
  new_metadata-accepted now nonce d session policy challenge m h =
      let subject = subject_binding_digest platform session policy in
      let needed =
        require-accepted (policy.purpose == "account.login" || is_some subject)
          "subject_binding_missing" _ m h in
      let digest =
        bind-accepted (or_invalid (webauthn_challenge_digest platform.sha256_bytes challenge)) _ m
          needed.1 in
      let raw = digest-raw challenge digest.0 digest.1 in
      (
        raw.0,
        needed.0,
        sym (accepted-injective _ m digest.2)
            ∙ ap (λ x. metadata_of now nonce d subject x policy.purpose) raw.1,
      )

  -- The checks of a completion pass on what was stored.
  same_digest-hex :
      (d : String) → is_sha256_digest (str d) ≡ true → same_digest (some d) (str d) ≡ true
  same_digest-hex d h = ground (arith, (eq_iff d d).1 refl)

  login-unbound :
      (session : BoundarySession) (policy : CeremonyPolicy)
      → (policy.purpose == "account.login" && policy.surface == admin_surface) ≡ false
      → (policy.purpose == "account.login") ≡ true
      → subject_binding platform session policy ≡ none
  unfolding subject_binding
  login-unbound session policy account login = ground arith

  subject-same :
      (o : Option String)
      → is_some (digest_of platform o) ≡ true
      → same_digest (digest_of platform o) (optional (digest_of platform o)) ≡ true
  subject-same none h = cc
  subject-same (some b) h = same_digest-hex (platform.sha256 b) (laws.hex b)

  subject_holds-stored :
      (session : BoundarySession) (policy : CeremonyPolicy)
      → (policy.purpose == "account.login" && policy.surface == admin_surface) ≡ false
      → (policy.purpose == "account.login"
          || is_some (subject_binding_digest platform session policy))
        ≡ true
      → subject_holds platform session policy
          (optional (subject_binding_digest platform session policy))
        ≡ true
  unfolding subject_binding_digest
  subject_holds-stored session policy account needed =
      elim (Bool-cases (policy.purpose == "account.login")) [
        | inl login ↦ ground (arith, login-unbound session policy account login)
        | inr other ↦ ground (arith, subject-same (subject_binding platform session policy))
      ]

  pub claimable-stored :
      (ttl_setting : Value) (ttl now t : ℕ) (nonce d purpose digest : String)
      (subject : Option String) (session : BoundarySession)
      → challenge_ttl ttl_setting ≡ accepted ttl
      → now ≤ t
      → t ≤ now + ttl * second
      → (leb 32 (count nonce) && leb (count nonce) 256) ≡ true
      → (session_binding_digest platform false "" session).0 ≡ some d
      → is_sha256_digest (str d) ≡ true
      → claimable platform ttl_setting t session
          (some (metadata_of now nonce d subject digest purpose))
        ≡ accepted (ttl, nonce)
  unfolding claimable
  claimable-stored ttl_setting ttl now t nonce d purpose digest subject session known from until
        long binding hex =
      ground (arith, same_digest-hex d hex)

  pub bound_to-stored :
      (now : ℕ) (nonce d : String) (raw : List ℕ) (session : BoundarySession)
      (policy : CeremonyPolicy)
      → (policy.purpose == "account.login" && policy.surface == admin_surface) ≡ false
      → (policy.purpose == "account.login"
          || is_some (subject_binding_digest platform session policy))
        ≡ true
      → bound_to platform session policy (
          some (
            metadata_of now nonce d
              (subject_binding_digest platform session policy)
              (platform.sha256_bytes raw)
              policy.purpose))
        ≡ accepted (
            metadata_of now nonce d
              (subject_binding_digest platform session policy)
              (platform.sha256_bytes raw)
              policy.purpose)
  unfolding bound_to
  bound_to-stored now nonce d raw session policy account needed = ground (
    arith,
    subject_holds-stored session policy account needed,
    laws.hex_bytes raw,
    (eq_iff policy.purpose policy.purpose).1 refl,
  )

  claimed-stored :
      (after : Checked ChallengeMetadata) (r : CacheResult × List Row)
      → r.0 ≡ stored true
      → (claimed platform after r).0 ≡ after
  claimed-stored after (stored true, rows) h = refl
  claimed-stored after (stored false, rows) h = cc
  claimed-stored after (raised e, rows) h = cc

  pub claim-stored :
      (db : DatabaseCache) (after : Checked ChallengeMetadata) (ttl t : ℕ) (nonce : String)
      (rows : List Row) (found : Checked (ℕ × String))
      → found ≡ accepted (ttl, nonce)
      → (add db (claim_key platform nonce) (bool true) ttl t rows).0 ≡ stored true
      → (claim platform db after t rows found).0 ≡ after
  claim-stored db after ttl t nonce rows found is added =
      subst (λ f. (claim platform db after t rows f).0 ≡ after) (sym is)
        (claimed-stored after (add db (claim_key platform nonce) (bool true) ttl t rows) added)

  -- What a successful `_store_challenge` leaves in the session.
  pub bound_challenge-accepted :
      (now : ℕ) (token nonce : String) (session bound : BoundarySession) (policy : CeremonyPolicy)
      (c : Checked Json) (u : Unit {0})
      → bound_challenge platform true now token nonce session policy c ≡ (accepted u, bound)
      → (challenge : Json) × (m : ChallengeMetadata) × (new_metadata platform now nonce
            (session_binding_digest platform true token session).0
            (session_binding_digest platform true token session).1
            policy
            challenge
          ≡ accepted m)
        × (bound ≡ record ((session_binding_digest platform true token session).1) {
          challenge = some m;
        })
  bound_challenge-accepted now token nonce session bound policy (accepted challenge) u h =
      let created = session_binding_digest platform true token session in
      let stored_m =
        written-accepted created.1 bound
          (new_metadata platform now nonce created.0 created.1 policy challenge) u h in
      (challenge, stored_m.0, stored_m.1, stored_m.2)
  bound_challenge-accepted now token nonce session bound policy (rejected e) u h = cc
  bound_challenge-accepted now token nonce session bound policy crashed u h = cc
