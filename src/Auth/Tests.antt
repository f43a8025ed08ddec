-- ===== src/Auth/Tests.antt =====
-- A session that is refreshed, asked again with the old token, and logged out.

use jou_tak_web.Prelude.{
  ℕ, String, ◌≡◌, ◌≢◌, refl, sym, ◌∙◌, some-injective, Bool, true, false, ◌&&◌, not, none, some,
  List, [], ◌∷◌, ◌==◌, any, nat_eq, if◌then◌else◌,
}
use jou_tak_web.Sessions.Model.{Meta, SessionToken, Store, Request, ok, raised}
use jou_tak_web.Sessions.Revoke.{Effects}
use jou_tak_web.Auth.{
  Account, Tokens, Claims, Pair, refresh_pair, logout_current, logout_key, unauthorized, with_jti,
}
use jou_tak_web.Auth.Outcome.{IsRefreshed, logout_current-refused}
use jou_tak_web.Auth.Rotation.{IsTokens, here, logs_out, refresh_pair-once}

abbrev hmac : String → String
hmac s = s

abbrev effects : Effects
effects = record { end = λ us rows. rows; logout = λ request live. (request, live) }

-- A token's text is its identifier here.
abbrev tokens : Tokens
tokens = record {
  accepts = λ token black.
      if any (with_jti token) black then none else some (record { jti = token; user_id = 7 });
  remember = λ user jti rows. record { user = user; jti = jti } ∷ rows;
}

said : (blocked : Bool) (x c : Claims) → (if blocked then none else some x) ≡ some c → c ≡ x
said true x c h = cc
said false x c h = sym (some-injective x c h)

tokens-IsTokens : IsTokens tokens
tokens-IsTokens = record {
  same_claims = λ token black later c d h k.
      said (any (with_jti token) black) (record { jti = token; user_id = 7 }) c h
      ∙ sym (said (any (with_jti token) later) (record { jti = token; user_id = 7 }) d k);
}

abbrev users : List Account
users = record { pk = 7; is_active = true } ∷ []

abbrev phone : Meta
phone = record {
  user = 7;
  session_key = "phone";
  session_token_digest = some "header";
  first_seen = 1;
  last_seen = none;
  user_agent = "";
  ip = none;
  revoked_at = none;
  revoked_reason = none;
}

abbrev token_row : String → SessionToken
token_row jti = record { user = 7; session_key = "phone"; refresh_jti = jti; revoked_at = none }

abbrev store : Store
store = record {
  user_sessions = [];
  metas = phone ∷ [];
  tokens = token_row "j1" ∷ [];
  outstanding = record { user = 7; jti = "j1" } ∷ [];
  blacklisted = [];
  django_sessions = [];
}

abbrev refreshed : Store
refreshed = record store {
  tokens = token_row "j2" ∷ [];
  outstanding = record { user = 7; jti = "j2" } ∷ record { user = 7; jti = "j1" } ∷ [];
  blacklisted = record { user = 7; jti = "j1" } ∷ [];
}

abbrev request : Request
request = record {
  header_token = "header";
  session_key = "phone";
  user_agent = "";
  client_ip = none;
}

abbrev pair : String → Pair
pair jti = record { jti = jti; access = "access"; refresh = jti }

refreshes_once :
    refresh_pair hmac tokens users request "j1" "" (pair "j2") store ≡ ok (pair "j2", refreshed)
unfolding refresh_pair jou_tak_web.Prelude.Text.strip
refreshes_once = refl

refused_twice :
    refresh_pair hmac tokens users request "j1" "" (pair "j3") refreshed
    ≡ raised (unauthorized "invalid refresh")
unfolding refresh_pair
refused_twice = refl

refresh_pair-once_example :
    refresh_pair hmac tokens users request "j1" ""
      (pair "j3")
      (logout_current hmac effects request (some 7) 9 refreshed).1
    ≢ ok (pair "j3", store)
refresh_pair-once_example =
    refresh_pair-once hmac tokens effects users users request request "j1" "" (pair "j2")
      (pair "j2") (pair "j3") (pair "j3") (record { jti = "j1"; user_id = 7 }) store refreshed
      (logout_current hmac effects request (some 7) 9 refreshed).1 store tokens-IsTokens (refl, tt)
      refl refl refreshes_once (logs_out here request (some 7) 9)

abbrev laptop : Meta
laptop = record phone { session_key = "laptop"; session_token_digest = some "other" }

abbrev two_sessions : Store
two_sessions = record store {
  metas = phone ∷ laptop ∷ [];
  tokens = token_row "j1" ∷ record (token_row "l1") { session_key = "laptop" } ∷ [];
}

abbrev from_laptop : Request
from_laptop = record {
  header_token = "other";
  session_key = "laptop";
  user_agent = "";
  client_ip = none;
}

abbrev after_logout : Store
after_logout = (logout_current hmac effects from_laptop (some 7) 9 two_sessions).1

abbrev after_refresh : Store
after_refresh = record after_logout {
  tokens =
      token_row "j2" ∷ record (token_row "l1") { session_key = "laptop"; revoked_at = some 9 } ∷ [];
  outstanding = record { user = 7; jti = "j2" } ∷ record { user = 7; jti = "j1" } ∷ [];
  blacklisted = record { user = 7; jti = "j1" } ∷ [];
}

logout_current-refused_example :
    (d : IsRefreshed hmac tokens users request "j1" ""
      (pair "j2")
      after_logout
      (pair "j2")
      after_refresh)
    × ((nat_eq d.user.pk 7
          && d.mapping.session_key == logout_key hmac 7 from_laptop two_sessions.metas)
        ≡ false)
unfolding refresh_pair logout_current jou_tak_web.Prelude.Text.strip
logout_current-refused_example =
    logout_current-refused hmac effects from_laptop 7 9 two_sessions tokens users request "j1" ""
      (pair "j2") (pair "j2") after_refresh refl refl
