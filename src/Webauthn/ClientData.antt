-- ===== src/Webauthn/ClientData.antt =====
-- backend/accounts/webauthn.py: the check of the signed client data. `json.loads` of UTF-8 bytes is the
-- standard library's parser, and a parameter here.
pub mod Bytes
pub mod Accepted
use Prim.Native.Char.{code}
use Prim.Native.String
use Prim.Native.String.{count}
use jou_tak_web.Prelude.{
  ℕ, ◌+◌, ◌-◌, ◌*◌, ◌/◌, ◌%◌, String, Bool, true, false, ◌&&◌, ◌||◌, not, Option, none, some, List,
  [], ◌∷◌, ◌==◌, all, any, leb, arith, ◌≡◌, refl, nat_eq, if◌then◌else◌,
}
use jou_tak_web.Values.{Value, non_empty}

-- JSON, as far as the code looks into it: a number is no more than one.
mutual
  pub data Json : Type 0 where
    null : Json
    bool : Bool → Json
    number : Json
    str : String → Json
    array : Json
    object : Members → Json

  pub data Members : Type 0 where
    end : Members
    member : String → Json → Members → Members

-- `d.get(key)`
unfoldable pub get : String → Members → Json
get key end = Json.null
get key (Members.member name value rest) =
    let later = get key rest in if name == key then value else later

-- `d[key] = value`
unfoldable pub put : String → Json → Members → Members
put key value end = Members.member key value end
put key value (Members.member name old rest) =
    let others = Members.member name old (put key value rest) in
    if name == key then Members.member name value rest else others

-- `key in d`
unfoldable pub has : String → Members → Bool
has key end = false
has key (Members.member name value rest) = name == key || has key rest

-- What a check gives: a value, a `WebAuthnClientDataError` by its reason, or a `ValueError`.
pub data Checked {ℓ} (A : Type ℓ) : Type ℓ where
  accepted : A → Checked A
  rejected : String → Checked A
  crashed : Checked A

infixl 5 ◌>>=◌ ◌>>◌
abbrev pub ◌>>=◌ {ℓ κ} : {A : Type ℓ} {B : Type κ} → Checked A → (A → Checked B) → Checked B
accepted a >>= k = k a
rejected e >>= k = rejected e
crashed >>= k = crashed

abbrev pub ◌>>◌ {ℓ} : {B : Type ℓ} → Checked (Unit {0}) → Checked B → Checked B
m >> k = m >>= λ _. k

-- `if not b: _reject(reason)`
abbrev pub require : Bool → String → Checked (Unit {0})
require true reason = accepted tt
require false reason = rejected reason

pub accepted-injective {ℓ} : {A : Type ℓ} (a b : A) → Checked.accepted a ≡ accepted b → a ≡ b
accepted-injective a b h = grind arith

-- What was bound before an accepted value was accepted too.
pub bind-accepted {ℓ κ} :
    {A : Type ℓ} {B : Type κ} (m : Checked A) (k : A → Checked B) (b : B)
    → (m >>= k) ≡ accepted b
    → (a : A) × (m ≡ accepted a) × (k a ≡ accepted b)
bind-accepted (accepted a) k b h = (a, refl, h)
bind-accepted (rejected e) k b h = cc
bind-accepted crashed k b h = cc

pub require-accepted {κ} :
    {B : Type κ} (test : Bool) (reason : String) (k : Checked B) (b : B)
    → (require test reason >> k) ≡ accepted b
    → (test ≡ true) × (k ≡ accepted b)
require-accepted true reason k b h = (refl, h)
require-accepted false reason k b h = cc

pub require-holds :
    (test : Bool) (reason : String) (u : Unit {0}) → require test reason ≡ accepted u → test ≡ true
require-holds true reason u h = refl
require-holds false reason u h = cc

-- A character of `_BASE64URL_RE`, and its six bits.
unfoldable pub is_base64url : ℕ → Bool
is_base64url c =
    leb b'A' c && leb c b'Z'
    || leb b'a' c && leb c b'z'
    || leb b'0' c && leb c b'9'
    || nat_eq c b'_'
    || nat_eq c b'-'

unfoldable pub sextet : ℕ → ℕ
sextet c =
    if leb b'A' c && leb c b'Z'
    then c - 65
    else if leb b'a' c && leb c b'z'
    then c - 71
    else if leb b'0' c && leb c b'9'
    then c + 4
    else if nat_eq c b'-'
    then 62
    else 63

abbrev pub codes : String → List ℕ
codes String.[] = []
codes (String.◌∷◌ c s) = code c ∷ codes s

unfoldable pub sextets : List ℕ → List ℕ
sextets [] = []
sextets (c ∷ cs) = sextet c ∷ sextets cs

-- `base64.b64decode` of padded text: four characters are three bytes, and the bits that a shorter group has
-- over are dropped.
unfoldable pub bytes_of : List ℕ → List ℕ
bytes_of [] = []
bytes_of (a ∷ []) = []
bytes_of (a ∷ b ∷ []) = (a * 4 + b / 16) ∷ []
bytes_of (a ∷ b ∷ c ∷ []) = (a * 4 + b / 16) ∷ (b % 16 * 16 + c / 4) ∷ []
bytes_of (a ∷ b ∷ c ∷ d ∷ rest) =
    (a * 4 + b / 16) ∷ (b % 16 * 16 + c / 4) ∷ (c % 4 * 64 + d) ∷ bytes_of rest

abbrev decoded : String → Checked (List ℕ)
decoded s = do
  require (non_empty s) "missing_client_data"
  require (all is_base64url (codes s) && not (nat_eq (count s % 4) 1))
      "invalid_client_data_encoding"
  accepted (bytes_of (sextets (codes s)))

-- `_decode_base64url`
unfoldable pub decode_base64url : Json → Checked (List ℕ)
decode_base64url (Json.str s) = decoded s
decode_base64url _ = rejected "missing_client_data"

abbrev pub mapping : String → Json → Checked Members
mapping reason (Json.object m) = accepted m
mapping reason _ = rejected reason

abbrev loaded : Option Json → Checked Members
loaded none = rejected "invalid_client_data_json"
loaded (some j) = mapping "invalid_client_data_json" j

-- A setting that lists origins: a text, a collection, or anything else.
pub data OriginSetting : Type 0 where
  text : String → OriginSetting
  items : List Value → OriginSetting
  other : OriginSetting

abbrev pub is_text : Value → Bool
is_text (Value.str s) = true
is_text _ = false

abbrev pub is_listed : String → List Value → Bool
is_listed s origins = any (λ (v : Value). elim v [ Value.str t ↦ t == s | _ ↦ false ]) origins

abbrev is_nil : List Value → Bool
is_nil [] = true
is_nil (x ∷ xs) = false

abbrev pub origins_of : OriginSetting → Checked (List Value)
origins_of (text s) = rejected "origin_policy_not_configured"
origins_of other = rejected "origin_policy_not_configured"
origins_of (items origins) = do
  require (not (is_nil origins) && all is_text origins) "origin_policy_not_configured"
  accepted origins

abbrev challenge_of : Json → Checked Json
challenge_of (Json.str s) = do require (non_empty s) "missing_challenge"; accepted (Json.str s)
challenge_of _ = rejected "missing_challenge"

abbrev origin_in : List Value → Json → Checked String
origin_in origins (Json.str s) = do require (is_listed s origins) "origin_not_allowed"; accepted s
origin_in origins _ = rejected "origin_not_allowed"

-- `crossOrigin` is `False` where the object does not have it.
abbrev same_origin : Bool → Json → Checked (Unit {0})
same_origin false j = accepted tt
same_origin true (Json.bool b) = require (not b) "cross_origin_not_allowed"
same_origin true _ = rejected "invalid_cross_origin_flag"

abbrev pub webauthn_create : String
webauthn_create = "webauthn.create"

abbrev pub webauthn_get : String
webauthn_get = "webauthn.get"

-- `ValidatedWebAuthnClientData`
pub record ClientData : Type 0 where
  pub ceremony_type : String
  pub challenge : List ℕ
  pub origin : String

abbrev is_type : String → Json → Bool
is_type t (Json.str s) = s == t
is_type t _ = false

module _ (parse_json : List ℕ → Option Json) where
  -- `_parse_client_data`
  unfoldable pub parse_client_data : Json → Checked Members
  parse_client_data credential = do
    fields ← mapping "invalid_credential_shape" credential
    response ← mapping "invalid_credential_shape" (get "response" fields)
    raw ← decode_base64url (get "clientDataJSON" response)
    loaded (parse_json raw)

  -- `validate_webauthn_client_data`
  unfoldable pub validate_webauthn_client_data : Json → String → OriginSetting → Checked ClientData
  unfolding parse_client_data
  validate_webauthn_client_data credential expected_type allowed_origins =
      if not (expected_type == webauthn_create || expected_type == webauthn_get)
      then crashed
      else do
        origins ← origins_of allowed_origins
        client_data ← parse_client_data credential
        require (is_type expected_type (get "type" client_data)) "unexpected_client_data_type"
        challenge ← challenge_of (get "challenge" client_data)
        challenge_bytes ← decode_base64url challenge
        origin ← origin_in origins (get "origin" client_data)
        same_origin (has "crossOrigin" client_data) (get "crossOrigin" client_data)
        accepted
            (record { ceremony_type = expected_type; challenge = challenge_bytes; origin = origin })

-- `webauthn_challenge_digest`; `digest` is the hex SHA-256 of bytes.
unfoldable pub webauthn_challenge_digest : (List ℕ → String) → Json → Checked String
webauthn_challenge_digest digest encoded = do raw ← decode_base64url encoded; accepted (digest raw)
