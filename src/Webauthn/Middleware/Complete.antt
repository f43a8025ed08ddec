-- ===== src/Webauthn/Middleware/Complete.antt =====
-- What a completion that reaches its view has passed.

use jou_tak_web.Prelude.{
  ℕ, String, ◌≡◌, refl, sym, ap, subst, Bool, true, false, Option, none, some, List, [], ◌==◌,
  if-true, if-false, eq_iff, if◌then◌else◌,
}
use jou_tak_web.Prelude.Assoc.{lookup, AllValues, insert, lookup-AllValues}
use jou_tak_web.Values.{Value}
use jou_tak_web.Cache.{Row}
use jou_tak_web.Webauthn.Policies.{
  CeremonyPolicy, admin_surface, completion_policies, options_policies,
}
use jou_tak_web.Webauthn.ClientData.{
  Json, Checked, accepted, rejected, crashed, OriginSetting, text, items, other, ClientData,
  bind-accepted, require-holds, validate_webauthn_client_data,
}
use jou_tak_web.Webauthn.ClientData.Accepted.{IsValid, validate_webauthn_client_data-IsValid}
use jou_tak_web.Webauthn.Challenge.{ChallengeMetadata, BoundarySession, is_text_of}
use jou_tak_web.Webauthn.Consume.{consume_challenge, without_challenge}
use jou_tak_web.Webauthn.Consume.Bound.{IsBound, consume_challenge-IsBound}
use jou_tak_web.Webauthn.Boundary.{allowed_origins, parse_request_payload}
use jou_tak_web.Webauthn.Middleware.{
  Config, check_client_data, complete, process_view, forwarded, BoundaryAccount, is_for, reply_of,
  refusal, popped, completed, no_pending, counted, limited, broken,
}

-- The origins that a surface allows: none for a setting that is no collection.
abbrev pub listed_origins : OriginSetting → List Value
listed_origins (items o) = o
listed_origins s = []

elim_setting :
    (s : OriginSetting) → (elim s [ items o ↦ items o | _ ↦ items [] ]) ≡ items (listed_origins s)
elim_setting (text s) = refl
elim_setting (items o) = refl
elim_setting other = refl

pair_of {ℓ} :
    {A : Type ℓ} (p : Checked A × List Row) (m : A) (rest : List Row)
    → p.0 ≡ accepted m
    → p.1 ≡ rest
    → p ≡ (accepted m, rest)
pair_of p m rest l r = cc

allowed_origins-items :
    (account admin : OriginSetting) (surface : String)
    → allowed_origins account admin surface
      ≡ items (listed_origins (if surface == admin_surface then admin else account))
unfolding allowed_origins
allowed_origins-items account admin surface =
    elim_setting (if surface == admin_surface then admin else account)

module _ (config : Config) where
  -- The client data belongs to the consumed challenge.
  pub record IsChecked (policy : CeremonyPolicy) (body : Option Json) (m : ChallengeMetadata)
      : Type 0 where
    pub credential : Json
    pub credential_eq : parse_request_payload policy body ≡ accepted credential
    pub client_data : ClientData
    pub valid :
        IsValid config.parse_json credential policy.expected_type
          (listed_origins (
            if policy.surface == admin_surface
            then config.admin_origins
            else config.account_origins))
          client_data
    pub same_challenge :
        is_text_of (config.platform.sha256_bytes client_data.challenge) m.challenge_digest ≡ true

  check_client_data-IsChecked :
      (policy : CeremonyPolicy) (body : Option Json) (m : ChallengeMetadata) (u : Unit {0})
      → check_client_data config policy body m ≡ accepted u
      → IsChecked policy body m
  unfolding check_client_data
  check_client_data-IsChecked policy body m u h =
      let payload = bind-accepted (parse_request_payload policy body) _ u h in
      let origins = allowed_origins config.account_origins config.admin_origins policy.surface in
      let checked =
        bind-accepted
          (validate_webauthn_client_data config.parse_json payload.0 policy.expected_type origins) _
          u payload.2 in
      let same =
        require-holds
          (is_text_of (config.platform.sha256_bytes checked.0.challenge) m.challenge_digest)
          "challenge_mismatch" u checked.2 in
      record {
        credential = payload.0;
        credential_eq = payload.1;
        client_data = checked.0;
        valid =
            validate_webauthn_client_data-IsValid config.parse_json payload.0 policy.expected_type _
              checked.0
              (subst
                (λ o.
                  validate_webauthn_client_data config.parse_json payload.0 policy.expected_type o
                  ≡ accepted checked.0)
                (allowed_origins-items config.account_origins config.admin_origins policy.surface)
                checked.1);
        same_challenge = same;
      }

  module _ (now : ℕ) (saves : Bool) (policy : CeremonyPolicy) (body : Option Json)
      (rows rest : List Row) where
    -- What a completion has passed that is accepted.
    pub record IsCompleted (session : BoundarySession) : Type 0 where
      pub metadata : ChallengeMetadata
      pub bound :
          IsBound config.platform config.cache now rows config.ttl session policy metadata rest
      pub checked : IsChecked policy body metadata

    complete-IsCompleted :
        (session : BoundarySession) (u : Unit {0})
        → complete config now saves (some session) policy body rows ≡ (accepted u, rest)
        → IsCompleted session
    unfolding complete
    complete-IsCompleted session u h =
        let consumed =
          consume_challenge config.platform config.cache config.ttl now saves session policy rows in
        let passed =
          bind-accepted consumed.0 (check_client_data config policy body) u (ap (λ p. p.0) h) in
        record {
          metadata = passed.0;
          bound =
              consume_challenge-IsBound config.platform config.cache now rows config.ttl saves
                session policy passed.0 rest
                (pair_of consumed passed.0 rest passed.1 (ap (λ p. p.1) h));
          checked = check_client_data-IsChecked policy body passed.0 u passed.2;
        }

options-get : AllValues (λ p. p.method ≡ "GET") options_policies
unfolding options_policies completion_policies insert
options-get = search

completions-not-get : AllValues (λ p. (p.method == "GET") ≡ false) completion_policies
unfolding completion_policies insert
completions-not-get = search

get_route :
    (method : String) (found : Option CeremonyPolicy)
    → ((p : CeremonyPolicy) → found ≡ some p → p.method ≡ "GET")
    → (method == "GET") ≡ false
    → is_for method found ≡ false
get_route method none gets h = refl
get_route method (some p) gets h = subst (λ m. (method == m) ≡ false) (sym (gets p refl)) h

-- The method of a completion route is none of an options route.
completes-not-options :
    (route method : String) (policy : CeremonyPolicy)
    → lookup route completion_policies ≡ some policy
    → (method == policy.method) ≡ true
    → is_for method (lookup route options_policies) ≡ false
completes-not-options route method policy known is_its =
    let not_get =
      lookup-AllValues (λ p. (p.method == "GET") ≡ false) route completion_policies policy
        completions-not-get known in
    get_route method (lookup route options_policies)
      (λ p h. lookup-AllValues (λ p. p.method ≡ "GET") route options_policies p options-get h)
      (subst (λ m. (m == "GET") ≡ false) (sym ((eq_iff method policy.method).0 is_its)) not_get)

refusal-forwarded {ℓ} :
    {A : Type ℓ} (surface : String) (account : BoundaryAccount)
    → refusal surface account ≡ forwarded
    → A
unfolding refusal
refusal-forwarded surface no_pending h = cc
refusal-forwarded surface counted h = cc
refusal-forwarded surface limited h = cc
refusal-forwarded surface broken h = cc

reply_of-forwarded :
    (surface : String) (account : BoundaryAccount) (c : Checked (Unit {0}))
    → reply_of surface account c ≡ forwarded
    → c ≡ accepted tt
reply_of-forwarded surface account (accepted u) h = refl
reply_of-forwarded surface account (rejected e) h = refusal-forwarded surface account h
reply_of-forwarded surface account crashed h = cc

popped-IsCompleted :
    (config : Config) (now : ℕ) (saves : Bool) (policy : CeremonyPolicy) (body : Option Json)
    (rows rest : List Row) (session left : Option BoundarySession)
    → complete config now saves session policy body rows ≡ (accepted tt, rest)
    → left ≡ popped session
    → (given : BoundarySession) × (session ≡ some given)
      × (left ≡ some (without_challenge given))
      × IsCompleted config now saves policy body rows rest given
unfolding complete
popped-IsCompleted config now saves policy body rows rest none left h l = cc
popped-IsCompleted config now saves policy body rows rest (some given) left h l =
    (given, refl, l, complete-IsCompleted config now saves policy body rows rest given tt h)

-- A completion that is sent in the method of its route and whose view is called came in a session, from
-- which the challenge is gone; that challenge was fresh and bound to the session, purpose and subject, its
-- nonce was claimed by this request, and the client data of the request names the challenge whose digest
-- was stored, the route's type and a listed origin.
pub process_view-IsCompleted :
    (config : Config) (route method : String) (now : ℕ) (saves : Bool) (account : BoundaryAccount)
    (session left : Option BoundarySession) (policy : CeremonyPolicy) (body : Option Json)
    (rows rest : List Row)
    → lookup route completion_policies ≡ some policy
    → (method == policy.method) ≡ true
    → process_view config route method now saves account session body rows ≡ (forwarded, left, rest)
    → (given : BoundarySession) × (session ≡ some given)
      × (left ≡ some (without_challenge given))
      × IsCompleted config now saves policy body rows rest given
unfolding process_view
process_view-IsCompleted config route method now saves account session left policy body rows rest
      known is_its h =
    let handled =
      if-false (is_for method (lookup route options_policies)) _ _ _
        (completes-not-options route method policy known is_its) h in
    let policed =
      subst
        (λ o.
          completed config method now saves account session body rows o ≡ (forwarded, left, rest))
        known handled in
    let result = complete config now saves session policy body rows in
    let run =
      if-true (method == policy.method)
        (reply_of policy.surface account result.0, popped session, result.1)
        (forwarded, session, rows) _ is_its policed in
    let done = reply_of-forwarded policy.surface account result.0 (ap (λ t. t.0) run) in
    popped-IsCompleted config now saves policy body rows rest session left
      (pair_of result tt rest done (ap (λ t. t.2) run)) (sym (ap (λ t. t.1) run))
