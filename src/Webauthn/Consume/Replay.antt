-- ===== src/Webauthn/Consume/Replay.antt =====
-- A challenge is accepted once, whatever happens in between.
use jou_tak_web.Prelude.{
  ℕ, ◌+◌, ◌*◌, ◌/◌, ◌≤◌, String, ◌≡◌, ◌≢◌, sym, ap, ◌∙◌, subst, some-injective, Bool, true, false,
  some, List, ◌==◌, arith,
}
use jou_tak_web.Values.{Value, null, bool, int, str}
use jou_tak_web.Cache.{second, Row, stored, DatabaseCache, add, set}
use jou_tak_web.Cache.Laws.{is_live, IsDatabaseCache, add-keeps, add-stored, set-keeps}
use jou_tak_web.Webauthn.Policies.{CeremonyPolicy}
use jou_tak_web.Webauthn.ClientData.{Checked, accepted, rejected, crashed, accepted-injective}
use jou_tak_web.Webauthn.Challenge.{ChallengeMetadata, BoundarySession, Platform, challenge_ttl}
use jou_tak_web.Webauthn.Consume.{
  claim_key, claimable, bound_to, consume_challenge, claim, without_challenge,
}
use jou_tak_web.Webauthn.Consume.Bound.{IsBound, consume_challenge-IsBound}

-- What may happen to the replay cache after a claim: time passes, completions of any session and route run,
-- and other code reads or adds any key, or sets any key but the claimed one.
pub data Later (platform : Platform) (db : DatabaseCache) (key : String) (now : ℕ) (rows : List Row)
    : ℕ → List Row → Type 0 where
  here : Later platform db key now rows now rows
  waits :
      {t : ℕ} {later : List Row}
      → Later platform db key now rows t later
      → (u : ℕ) → t ≤ u
      → Later platform db key now rows u later
  consumes :
      {t : ℕ} {later : List Row}
      → Later platform db key now rows t later
      → (ttl_setting : Value) (saves : Bool) (session : BoundarySession) (policy : CeremonyPolicy)
      → Later platform db key now rows t
          (consume_challenge platform db ttl_setting t saves session policy later).1
  adds :
      {t : ℕ} {later : List Row}
      → Later platform db key now rows t later
      → (other : String) (v : Value) (timeout : ℕ)
      → Later platform db key now rows t (add db other v timeout t later).1
  reads :
      {t : ℕ} {later : List Row}
      → Later platform db key now rows t later
      → (other : String) → Later platform db key now rows t (db.get other t later).1
  sets :
      {t : ℕ} {later : List Row}
      → Later platform db key now rows t later
      → (other : String) (v : Value) (timeout : ℕ) → (db.make_key other == key) ≡ false
      → Later platform db key now rows t (set db other v timeout t later).1

module _ (platform : Platform) (db : DatabaseCache) (laws : IsDatabaseCache db) where
  claim-keeps :
      (after : Checked ChallengeMetadata) (t at : ℕ) (rows : List Row)
      (found : Checked (ℕ × String)) (key : String)
      → t ≤ at
      → is_live key at rows ≡ true
      → is_live key at (claim platform db after t rows found).1 ≡ true
  claim-keeps after t at rows (accepted (ttl, nonce)) key le h =
      let kept = add-keeps db laws (claim_key platform nonce) (bool true) ttl t rows at key le h in
      ground (arith, kept)
  claim-keeps after t at rows (rejected e) key le h = h
  claim-keeps after t at rows crashed key le h = h

  consume_challenge-keeps :
      (ttl_setting : Value) (t at : ℕ) (saves : Bool) (session : BoundarySession)
      (policy : CeremonyPolicy) (rows : List Row) (key : String)
      → t ≤ at
      → is_live key at rows ≡ true
      → is_live key at (consume_challenge platform db ttl_setting t saves session policy rows).1
        ≡ true
  unfolding consume_challenge
  consume_challenge-keeps ttl_setting t at true session policy rows key le h =
      claim-keeps (bound_to platform (without_challenge session) policy session.challenge) t at rows
        (claimable platform ttl_setting t (without_challenge session) session.challenge) key le h
  consume_challenge-keeps ttl_setting t at false session policy rows key le h = h

  Later-keeps :
      {key : String} {now : ℕ} {rows : List Row} (at : ℕ) {t : ℕ} {later : List Row}
      → Later platform db key now rows t later
      → t ≤ at
      → is_live key at rows ≡ true
      → is_live key at later ≡ true
  Later-keeps at here le h = h
  Later-keeps at (waits l u before) le h = Later-keeps at l (omega arith) h
  Later-keeps {key} at (consumes {t} {later} l ttl_setting saves session policy) le h =
      consume_challenge-keeps ttl_setting t at saves session policy later key le
        (Later-keeps at l le h)
  Later-keeps {key} at (adds {t} {later} l other v timeout) le h =
      add-keeps db laws other v timeout t later at key le (Later-keeps at l le h)
  Later-keeps {key} at (reads {t} {later} l other) le h =
      laws.get_keeps other t at later key le (Later-keeps at l le h)
  Later-keeps {key} at (sets {t} {later} l other v timeout ne) le h =
      set-keeps db laws other v timeout t later at key le ne (Later-keeps at l le h)

  live-claimed :
      {now t : ℕ} {rest later : List Row} (rows : List Row) (nonce : String) (ttl at : ℕ)
      → add db (claim_key platform nonce) (bool true) ttl now rows ≡ (stored true, rest)
      → Later platform db (db.make_key (claim_key platform nonce)) now rest t later
      → t ≤ at
      → 1 ≤ ttl
      → at ≤ (now / second + ttl) * second
      → is_live (db.make_key (claim_key platform nonce)) at later ≡ true
  live-claimed {now} {t} {rest} {later} rows nonce ttl at added l le positive within =
      let key = claim_key platform nonce in
      let lives =
        (add-stored db laws key (bool true) ttl now rows at positive within
          (ap (λ p. p.0) added)).1 in
      Later-keeps at l le (subst (λ p. is_live (db.make_key key) at p.1 ≡ true) added lives)

  unclaimed :
      (t : ℕ) (rows rest : List Row) (nonce : String) (ttl : ℕ)
      → 1 ≤ ttl
      → add db (claim_key platform nonce) (bool true) ttl t rows ≡ (stored true, rest)
      → is_live (db.make_key (claim_key platform nonce)) t rows ≡ false
  unclaimed t rows rest nonce ttl positive added =
      (add-stored db laws (claim_key platform nonce) (bool true) ttl t rows (t / second * second)
        positive (omega arith) (ap (λ p. p.0) added)).0

  same_nonce : (v : Value) (a b : String) → v ≡ str a → v ≡ str b → a ≡ b
  same_nonce v a b l r = grind arith

  same_issue : (v : Value) (a b : ℕ) → v ≡ int a → v ≡ int b → a ≡ b
  same_issue v a b l r = grind arith

  challenge_ttl-positive : (v : Value) (ttl : ℕ) → challenge_ttl v ≡ accepted ttl → 1 ≤ ttl
  unfolding challenge_ttl
  challenge_ttl-positive null ttl h = cc
  challenge_ttl-positive (bool b) ttl h = cc
  challenge_ttl-positive (int n) ttl h = grind arith
  challenge_ttl-positive (str s) ttl h = cc

  -- A challenge that was issued before the second in which it is accepted is not accepted again, while
  -- completions run, keys are read and other keys are written and time passes, whatever copy of the session
  -- brings it back, on whatever route. That Django's part of the cache does what it documents is a
  -- hypothesis.
  pub consume_challenge-once :
      (now t issued : ℕ) (rows rest later final : List Row) (ttl_setting : Value)
      (saves again_saves : Bool) (session copy : BoundarySession)
      (policy other_policy : CeremonyPolicy) (m result : ChallengeMetadata) (nonce : String)
      → consume_challenge platform db ttl_setting now saves session policy rows ≡ (accepted m, rest)
      → m.nonce ≡ str nonce
      → m.issued_at ≡ int issued
      → issued ≤ now / second * second
      → Later platform db (db.make_key (claim_key platform nonce)) now rest t later
      → copy.challenge ≡ some m
      → consume_challenge platform db ttl_setting t again_saves copy other_policy later
        ≢ (accepted result, final)
  consume_challenge-once now t issued rows rest later final ttl_setting saves again_saves session
        copy policy other_policy m result nonce first nonce_eq issued_eq earlier between held
        again =
      let one =
        consume_challenge-IsBound platform db now rows ttl_setting saves session policy m rest
          first in
      let repeated =
        consume_challenge-IsBound platform db t later ttl_setting again_saves copy other_policy
          result final again in
      let same : result ≡ m = some-injective result m (sym repeated.held ∙ held) in
      let two =
        subst (λ x. IsBound platform db t later ttl_setting copy other_policy x final) same
          repeated in
      let ttls =
        accepted-injective one.claim_made.ttl two.claim_made.ttl
          (sym one.fresh.ttl_eq ∙ two.fresh.ttl_eq) in
      let issues = same_issue m.issued_at issued two.fresh.issued issued_eq two.fresh.issued_eq in
      let positive = challenge_ttl-positive ttl_setting one.claim_made.ttl one.fresh.ttl_eq in
      let first_nonce = same_nonce m.nonce one.claim_made.nonce nonce one.fresh.nonce_eq nonce_eq in
      let second_nonce =
        same_nonce m.nonce two.claim_made.nonce nonce two.fresh.nonce_eq nonce_eq in
      let live =
        live-claimed rows nonce one.claim_made.ttl t
          (subst
            (λ n.
              add db (claim_key platform n) (bool true) one.claim_made.ttl now rows
              ≡ (stored true, rest))
            first_nonce one.claim_made.added)
          between (omega arith) positive
          (omega (arith, earlier, two.fresh.not_after, ttls, issues)) in
      let free = unclaimed t later final nonce two.claim_made.ttl (omega (arith, positive, ttls)) (
        subst
          (λ n.
            add db (claim_key platform n) (bool true) two.claim_made.ttl t later
            ≡ (stored true, final))
          second_nonce two.claim_made.added) in
      grind (arith, live, free)
