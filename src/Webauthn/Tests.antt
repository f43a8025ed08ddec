-- ===== src/Webauthn/Tests.antt =====
-- Runs of a ceremony on a toy platform, and the checks at them.

use jou_tak_web.Prelude.{
  ℕ, ◌+◌, ◌≤◌, String, ◌≡◌, ◌≢◌, refl, Bool, true, false, Option, none, some, List, [], ◌∷◌, arith,
  ◌⊎◌,
}
use jou_tak_web.Values.{null, bool, int, str}
use jou_tak_web.Cache.{Row, add}
use jou_tak_web.Cache.Tests.{table_cache, table_cache-IsDatabaseCache}
use jou_tak_web.Webauthn.Policies.{CeremonyPolicy, completion_policies}
use jou_tak_web.Webauthn.ClientData.{
  Json, Members, Checked, accepted, rejected, items, decode_base64url,
}
use jou_tak_web.Webauthn.ClientData.Bytes.{is_encoded, IsDecoded, decode_base64url_bounds}
use jou_tak_web.Webauthn.Challenge.{ChallengeMetadata, BoundarySession, Platform}
use jou_tak_web.Webauthn.Consume.{claim_key, consume_challenge, without_challenge}
use jou_tak_web.Webauthn.Consume.Replay.{here, waits, consume_challenge-once}
use jou_tak_web.Webauthn.Boundary.{store_challenge}
use jou_tak_web.Webauthn.Middleware.{Config, process_view, counted}
use jou_tak_web.Webauthn.Middleware.Complete.{IsCompleted, process_view-IsCompleted}
use jou_tak_web.Webauthn.Middleware.Options.{store_challenge-consumed}
use jou_tak_web.Webauthn.Middleware.Stored.{IsPlatform}

decode_base64url_bounds_example :
    ((s : String) × (bytes : List ℕ) × (Json.str "-_8B" ≡ Json.str s)
      × (is_encoded (Json.str "-_8B") ≡ true)
      × IsDecoded s bytes)
    ⊎ (is_encoded (Json.str "-_8B") ≡ false)
      × (reason : String) × (decode_base64url (Json.str "-_8B") ≡ rejected reason)
decode_base64url_bounds_example = decode_base64url_bounds (Json.str "-_8B")

abbrev digest : String
digest = "0123456789abcdef0123456789abcdef0123456789abcdef0123456789abcdef"

abbrev toy : Platform
toy = record { sha256 = λ s. digest; sha256_bytes = λ b. digest; show_float = λ n. "0.0" }

toy-IsPlatform : IsPlatform toy
unfolding jou_tak_web.Webauthn.Challenge.is_sha256_digest
toy-IsPlatform = record { hex = λ s. refl; hex_bytes = λ b. refl }

abbrev token : String
token = "abcdefghijklmnopqrstuvwxyzABCDEFGH"

abbrev empty_session : BoundarySession
empty_session = record {
  challenge = none;
  binding = str token;
  admin_pending = none;
  account_login = none;
  user_pk = null;
  verification = none;
}

abbrev login_policy : CeremonyPolicy
login_policy = record {
  method = "POST";
  expected_type = "webauthn.get";
  surface = "account";
  nested_credential = true;
  purpose = "account.login";
}

abbrev issued : ChallengeMetadata
issued = record {
  version = int 1;
  purpose = str "account.login";
  issued_at = int 100250000;
  challenge_digest = str digest;
  session_binding_digest = str digest;
  subject_binding_digest = null;
  nonce = str token;
}

abbrev waiting : BoundarySession
waiting = record empty_session { challenge = some issued }

abbrev single : String → Json → Members
single key value = Members.member key value Members.end

abbrev options_response : Members
options_response = single "data" (
    Json.object (
      single "request_options"
        (Json.object (single "publicKey" (Json.object (single "challenge" (Json.str "AAAA")))))))

store_challenge-consumed_example :
    (m : ChallengeMetadata) × (waiting.challenge ≡ some m)
    × ((consume_challenge toy table_cache (int 60) 130500000 true waiting login_policy []).0
        ≡ accepted m)
unfolding jou_tak_web.Webauthn.Challenge.challenge_ttl add store_challenge
    jou_tak_web.Webauthn.ClientData.get decode_base64url
    jou_tak_web.Webauthn.ClientData.is_base64url jou_tak_web.Webauthn.Challenge.subject_binding
store_challenge-consumed_example =
    store_challenge-consumed toy toy-IsPlatform table_cache (int 60) 60 100250000 130500000 token
      token login_policy [] empty_session waiting (some options_response) tt refl (omega arith)
      (omega arith) (omega arith) refl refl refl refl

abbrev claimed_rows : List Row
claimed_rows = record { cache_key = claim_key toy token; value = bool true; expires = 190 } ∷ []

consume_challenge-once_example :
    consume_challenge toy table_cache (int 60) 160000000 true waiting login_policy claimed_rows
    ≢ (accepted issued, [])
unfolding consume_challenge
consume_challenge-once_example =
    consume_challenge-once toy table_cache table_cache-IsDatabaseCache 130500000 160000000 100250000
      [] claimed_rows claimed_rows [] (int 60) true true waiting waiting login_policy login_policy
      issued issued token refl refl refl (omega arith) (waits here 160000000 (omega arith)) refl

-- A challenge that was issued in the second in which it was accepted, and two copies of it that come back
-- in the last tenth of its time to live: the cache's `get` deletes the claim, and the second copy passes.
abbrev late : ChallengeMetadata
late = record issued { issued_at = int 130200000 }

abbrev copy : BoundarySession
copy = record waiting { challenge = some late }

abbrev consumed_at : ℕ → List Row → Checked ChallengeMetadata × List Row
consumed_at now rows = consume_challenge toy table_cache (int 60) now true copy login_policy rows

same_second :
    (consumed_at 130500000 [] ≡ (accepted late, claimed_rows))
    × (consumed_at 190100000 claimed_rows ≡ (rejected "challenge_claim_failed", []))
    × ((consumed_at 190100000 []).0 ≡ accepted late)
unfolding consume_challenge
same_second = (refl, refl, refl)

abbrev signed : Members
signed =
    Members.member "type" (Json.str "webauthn.get") (
      Members.member "challenge" (Json.str "AAAA") (single "origin" (Json.str "https://joutak.ru")))

abbrev toy_config : Config
toy_config = record {
  platform = toy;
  cache = table_cache;
  parse_json = λ raw. some (Json.object signed);
  ttl = int 60;
  account_origins = items (str "https://joutak.ru" ∷ []);
  admin_origins = items [];
}

abbrev body : Option Json
body = some (
    Json.object (
      single "credential" (
        Json.object (single "response" (Json.object (single "clientDataJSON" (Json.str "AAAA")))))))

process_view-IsCompleted_example :
    (given : BoundarySession) × (some waiting ≡ some given)
    × (some empty_session ≡ some (without_challenge given))
    × IsCompleted toy_config 130500000 true login_policy body [] claimed_rows given
unfolding jou_tak_web.Prelude.Assoc.lookup completion_policies jou_tak_web.Prelude.Assoc.insert
    process_view jou_tak_web.Webauthn.Policies.options_policies jou_tak_web.Webauthn.ClientData.has
    jou_tak_web.Webauthn.ClientData.get decode_base64url
    jou_tak_web.Webauthn.ClientData.is_base64url
process_view-IsCompleted_example =
    process_view-IsCompleted toy_config "headless:browser:mfa:login_webauthn" "POST" 130500000 true
      counted (some waiting) (some empty_session) login_policy body [] claimed_rows refl refl refl
