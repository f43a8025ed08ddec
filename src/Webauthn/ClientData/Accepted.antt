-- ===== src/Webauthn/ClientData/Accepted.antt =====
-- What client data says that was accepted.

use jou_tak_web.Prelude.{
  ℕ, String, ◌≡◌, sym, ap, ◌∙◌, subst, Bool, true, false, ◌&&◌, ◌||◌, not, Option, List, ◌==◌, all,
  eq_iff, if◌then◌else◌,
}
use jou_tak_web.Values.{Value, non_empty}
use jou_tak_web.Webauthn.ClientData.{
  Json, Members, Checked, accepted, crashed, bind-accepted, require-accepted, accepted-injective,
  get, has, items, is_nil, is_text, is_type, is_listed, origins_of, challenge_of, origin_in,
  same_origin, decode_base64url, parse_client_data, validate_webauthn_client_data, ClientData,
  webauthn_create, webauthn_get,
}

is_type-eq : (t : String) (j : Json) → is_type t j ≡ true → j ≡ Json.str t
is_type-eq t (Json.str s) h = ap Json.str ((eq_iff s t).0 h)
is_type-eq t Json.null h = cc
is_type-eq t (Json.bool b) h = cc
is_type-eq t Json.number h = cc
is_type-eq t Json.array h = cc
is_type-eq t (Json.object m) h = cc

origin_in-accepted :
    (origins : List Value) (j : Json) (s : String)
    → origin_in origins j ≡ accepted s
    → (j ≡ Json.str s) × (is_listed s origins ≡ true)
origin_in-accepted origins (Json.str t) s h =
    let listed = require-accepted (is_listed t origins) "origin_not_allowed" _ _ h in
    let same = accepted-injective t s listed.1 in
    (ap Json.str same, subst (λ x. is_listed x origins ≡ true) same listed.0)
origin_in-accepted origins Json.null s h = cc
origin_in-accepted origins (Json.bool b) s h = cc
origin_in-accepted origins Json.number s h = cc
origin_in-accepted origins Json.array s h = cc
origin_in-accepted origins (Json.object m) s h = cc

-- The object that the client signed agrees with what was expected.
pub record IsValid (parse_json : List ℕ → Option Json) (credential : Json) (expected_type : String)
    (origins : List Value) (c : ClientData) : Type 0 where
  pub signed : Members
  pub parsed : parse_client_data parse_json credential ≡ accepted signed
  pub type_eq : get "type" signed ≡ Json.str expected_type
  pub origin_eq : get "origin" signed ≡ Json.str c.origin
  pub listed : is_listed c.origin origins ≡ true
  pub challenge_eq : decode_base64url (get "challenge" signed) ≡ accepted c.challenge
  pub not_cross : same_origin (has "crossOrigin" signed) (get "crossOrigin" signed) ≡ accepted tt

challenge_of-decoded :
    (j k : Json) (raw : List ℕ)
    → challenge_of j ≡ accepted k
    → decode_base64url k ≡ accepted raw
    → decode_base64url j ≡ accepted raw
challenge_of-decoded (Json.str s) k raw h d =
    let filled = require-accepted (non_empty s) "missing_challenge" _ _ h in
    ap decode_base64url (accepted-injective (Json.str s) k filled.1) ∙ d
challenge_of-decoded Json.null k raw h d = cc
challenge_of-decoded (Json.bool b) k raw h d = cc
challenge_of-decoded Json.number k raw h d = cc
challenge_of-decoded Json.array k raw h d = cc
challenge_of-decoded (Json.object m) k raw h d = cc

unknown-accepted {ℓ} :
    {A : Type ℓ} (b : Bool) (m : Checked A) (a : A)
    → (if b then crashed else m) ≡ accepted a
    → m ≡ accepted a
unknown-accepted true m a h = cc
unknown-accepted false m a h = h

-- Client data that is accepted is what the client signed: of the expected type, from a listed origin that is
-- not another's frame, and for the challenge that is given back.
pub validate_webauthn_client_data-IsValid :
    (parse_json : List ℕ → Option Json) (credential : Json) (expected_type : String)
    (origins : List Value) (c : ClientData)
    → validate_webauthn_client_data parse_json credential expected_type (items origins) ≡ accepted c
    → IsValid parse_json credential expected_type origins c
unfolding validate_webauthn_client_data
validate_webauthn_client_data-IsValid parse_json credential expected_type origins c h =
    let known =
      unknown-accepted (not (expected_type == webauthn_create || expected_type == webauthn_get)) _ c
        h in
    let all_origins = bind-accepted (origins_of (items origins)) _ c known in
    let policy =
      require-accepted (not (is_nil origins) && all is_text origins) "origin_policy_not_configured"
        _ _ all_origins.1 in
    let parsed = bind-accepted (parse_client_data parse_json credential) _ c all_origins.2 in
    let typed =
      require-accepted (is_type expected_type (get "type" parsed.0)) "unexpected_client_data_type" _
        c parsed.2 in
    let challenge = bind-accepted (challenge_of (get "challenge" parsed.0)) _ c typed.1 in
    let raw = bind-accepted (decode_base64url challenge.0) _ c challenge.2 in
    let origin = bind-accepted (origin_in all_origins.0 (get "origin" parsed.0)) _ c raw.2 in
    let cross =
      bind-accepted (same_origin (has "crossOrigin" parsed.0) (get "crossOrigin" parsed.0)) _ c
        origin.2 in
    let listed = origin_in-accepted all_origins.0 (get "origin" parsed.0) origin.0 origin.1 in
    let same =
      accepted-injective
        (record { ceremony_type = expected_type; challenge = raw.0; origin = origin.0 }) c
        cross.2 in
    let same_origins = accepted-injective origins all_origins.0 policy.1 in
    record {
      signed = parsed.0;
      parsed = parsed.1;
      type_eq = is_type-eq expected_type (get "type" parsed.0) typed.0;
      origin_eq = listed.0 ∙ ap (λ x. Json.str x.origin) same;
      listed =
          subst (λ x. is_listed x.origin origins ≡ true) same
            (subst (λ o. is_listed origin.0 o ≡ true) (sym same_origins) listed.1);
      challenge_eq =
          challenge_of-decoded (get "challenge" parsed.0) challenge.0 c.challenge challenge.1
            (raw.1 ∙ ap (λ x. accepted x.challenge) same);
      not_cross = cross.1;
    }
