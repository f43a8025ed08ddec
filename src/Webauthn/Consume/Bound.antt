-- ===== src/Webauthn/Consume/Bound.antt =====
-- What an accepted challenge was bound to.
use jou_tak_web.Prelude.{
  ℕ, ◌+◌, ◌*◌, ◌≤◌, String, ◌≡◌, refl, sym, subst, ◌∙◌, Bool, true, false, ◌&&◌, Option, none, some,
  List, leb, arith, ap,
}
use jou_tak_web.Values.{Value, bool, int, str, null}
use jou_tak_web.Cache.{second, Row, CacheResult, stored, raised, DatabaseCache, add}
use jou_tak_web.Webauthn.Policies.{CeremonyPolicy}
use jou_tak_web.Webauthn.ClientData.{
  Checked, accepted, rejected, crashed, accepted-injective, bind-accepted, require-accepted,
}
use jou_tak_web.Webauthn.Challenge.{
  ChallengeMetadata, BoundarySession, Platform, is_one, challenge_ttl, is_sha256_digest, is_text_of,
  same_digest, session_binding_digest,
}
use jou_tak_web.Webauthn.Consume.{
  claim_key, claimable, bound_to, consume_challenge, without_challenge, issued_of, nonce_of,
  subject_holds, claim, claimed,
}

issued_of-accepted : (v : Value) (t : ℕ) → issued_of v ≡ accepted t → v ≡ int t
issued_of-accepted null t h = cc
issued_of-accepted (bool b) t h = cc
issued_of-accepted (int n) t h = grind arith
issued_of-accepted (str s) t h = cc

nonce_of-accepted : (v : Value) (s : String) → nonce_of v ≡ accepted s → v ≡ str s
nonce_of-accepted null s h = cc
nonce_of-accepted (bool b) s h = cc
nonce_of-accepted (int n) s h = cc
nonce_of-accepted (str t) s h = grind arith

module _ (platform : Platform) (ttl_setting : Value) (now : ℕ) (session : BoundarySession) where
  -- What the checks before the claim have found out.
  pub record IsFresh (m : ChallengeMetadata) (ttl : ℕ) (nonce : String) : Type 0 where
    pub issued : ℕ
    pub issued_eq : m.issued_at ≡ int issued
    pub ttl_eq : challenge_ttl ttl_setting ≡ accepted ttl
    pub nonce_eq : m.nonce ≡ str nonce
    pub not_before : issued ≤ now
    pub not_after : now ≤ issued + ttl * second
    pub same_session :
        same_digest (session_binding_digest platform false "" session).0 m.session_binding_digest
        ≡ true

  pub claimable-IsFresh :
      (m : ChallengeMetadata) (ttl : ℕ) (nonce : String)
      → claimable platform ttl_setting now session (some m) ≡ accepted (ttl, nonce)
      → IsFresh m ttl nonce
  unfolding claimable
  claimable-IsFresh m ttl nonce h =
      let version = require-accepted (is_one m.version) "challenge_metadata_invalid" _ _ h in
      let issued = bind-accepted (issued_of m.issued_at) _ _ version.1 in
      let given = bind-accepted (challenge_ttl ttl_setting) _ _ issued.2 in
      let age =
        require-accepted (leb issued.0 now && leb now (issued.0 + given.0 * second))
          "challenge_expired" _ _ given.2 in
      let same =
        require-accepted
          (same_digest (session_binding_digest platform false "" session).0
            m.session_binding_digest)
          "session_binding_mismatch" _ _ age.1 in
      let text = bind-accepted (nonce_of m.nonce) _ _ same.1 in
      let found = accepted-injective {A = ℕ × String} (given.0, text.0) (ttl, nonce) text.2 in
      record {
        issued = issued.0;
        issued_eq = issued_of-accepted m.issued_at issued.0 issued.1;
        ttl_eq = given.1 ∙ ap (λ p. accepted p.0) found;
        nonce_eq = nonce_of-accepted m.nonce text.0 text.1 ∙ ap (λ p. str p.1) found;
        not_before = ground (arith, age.0);
        not_after = ground (arith, age.0, ap (λ p. p.0) found);
        same_session = same.0;
      }

  pub bound_to-accepted :
      (policy : CeremonyPolicy) (m result : ChallengeMetadata)
      → bound_to platform session policy (some m) ≡ accepted result
      → (result ≡ m)
        × (is_text_of policy.purpose m.purpose ≡ true)
        × (subject_holds platform session policy m.subject_binding_digest ≡ true)
        × (is_sha256_digest m.challenge_digest ≡ true)
  unfolding bound_to
  bound_to-accepted policy m result h =
      let purpose =
        require-accepted (is_text_of policy.purpose m.purpose) "challenge_purpose_mismatch" _ _ h in
      let subject =
        require-accepted (subject_holds platform session policy m.subject_binding_digest)
          "subject_binding_mismatch" _ _ purpose.1 in
      let digest =
        require-accepted (is_sha256_digest m.challenge_digest) "challenge_metadata_invalid" _ _
          subject.1 in
      (sym (accepted-injective m result digest.1), purpose.0, subject.0, digest.0)

module _ (platform : Platform) (db : DatabaseCache) (now : ℕ) (rows : List Row) where
  claimed-accepted :
      (after : Checked ChallengeMetadata) (r : CacheResult × List Row) (m : ChallengeMetadata)
      (rest : List Row)
      → claimed platform after r ≡ (accepted m, rest)
      → (r ≡ (stored true, rest)) × (after ≡ accepted m)
  claimed-accepted after (stored true, kept) m rest h =
      (ap (λ p. (stored true, p.1)) h, ap (λ p. p.0) h)
  claimed-accepted after (stored false, kept) m rest h = cc
  claimed-accepted after (raised e, kept) m rest h = cc

  -- The claim that an accepted challenge has made.
  pub record IsClaimed (rest : List Row) (found : Checked (ℕ × String)) : Type 0 where
    pub ttl : ℕ
    pub nonce : String
    pub found_eq : found ≡ accepted (ttl, nonce)
    pub added : add db (claim_key platform nonce) (bool true) ttl now rows ≡ (stored true, rest)

  claim-IsClaimed :
      (after : Checked ChallengeMetadata) (found : Checked (ℕ × String)) (m : ChallengeMetadata)
      (rest : List Row)
      → claim platform db after now rows found ≡ (accepted m, rest)
      → IsClaimed rest found × (after ≡ accepted m)
  claim-IsClaimed after (accepted (ttl, nonce)) m rest h =
      let r =
        claimed-accepted after (add db (claim_key platform nonce) (bool true) ttl now rows) m rest
          h in
      (record { ttl = ttl; nonce = nonce; found_eq = refl; added = r.0 }, r.1)
  claim-IsClaimed after (rejected e) m rest h = cc
  claim-IsClaimed after crashed m rest h = cc

  -- What an accepted challenge was found to be: the session held it, it was issued no longer ago than its time
  -- to live, in this session, for this purpose and subject, and its nonce was claimed by this call.
  pub record IsBound (ttl_setting : Value) (session : BoundarySession) (policy : CeremonyPolicy)
      (m : ChallengeMetadata) (rest : List Row) : Type 0 where
    pub held : session.challenge ≡ some m
    pub claim_made :
        IsClaimed rest (claimable platform ttl_setting now (without_challenge session) (some m))
    pub fresh :
        IsFresh platform ttl_setting now
          (without_challenge session)
          m
          (claim_made.ttl)
          (claim_made.nonce)
    pub same_purpose : is_text_of policy.purpose m.purpose ≡ true
    pub same_subject :
        subject_holds platform (without_challenge session) policy m.subject_binding_digest ≡ true
    pub digest_shape : is_sha256_digest m.challenge_digest ≡ true

  consumed-IsBound :
      (ttl_setting : Value) (session : BoundarySession) (policy : CeremonyPolicy)
      (held : Option ChallengeMetadata) (m : ChallengeMetadata) (rest : List Row)
      → session.challenge ≡ held
      → claim platform db
          (bound_to platform (without_challenge session) policy held)
          now
          rows
          (claimable platform ttl_setting now (without_challenge session) held)
        ≡ (accepted m, rest)
      → IsBound ttl_setting session policy m rest
  unfolding claimable bound_to
  consumed-IsBound ttl_setting session policy none m rest eq h = cc
  consumed-IsBound ttl_setting session policy (some held) m rest eq h =
      let popped = without_challenge session in
      let found = claimable platform ttl_setting now popped (some held) in
      let claimed = claim-IsClaimed (bound_to platform popped policy (some held)) found m rest h in
      let bound = bound_to-accepted platform ttl_setting now popped policy held m claimed.1 in
      subst (λ x. IsBound ttl_setting session policy x rest) (sym bound.0)
        (record {
          held = eq;
          claim_made = claimed.0;
          fresh =
              claimable-IsFresh platform ttl_setting now popped held claimed.0.ttl claimed.0.nonce
                claimed.0.found_eq;
          same_purpose = bound.1;
          same_subject = bound.2;
          digest_shape = bound.3;
        })

  -- A challenge that is accepted was in the session, was issued no longer ago than its time to live, in this
  -- session, for this purpose and subject, and its nonce was claimed in the cache by this very call.
  pub consume_challenge-IsBound :
      (ttl_setting : Value) (saves : Bool) (session : BoundarySession) (policy : CeremonyPolicy)
      (m : ChallengeMetadata) (rest : List Row)
      → consume_challenge platform db ttl_setting now saves session policy rows ≡ (accepted m, rest)
      → IsBound ttl_setting session policy m rest
  unfolding consume_challenge
  consume_challenge-IsBound ttl_setting true session policy m rest h =
      consumed-IsBound ttl_setting session policy session.challenge m rest refl h
  consume_challenge-IsBound ttl_setting false session policy m rest h = cc
