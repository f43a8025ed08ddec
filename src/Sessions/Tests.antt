-- ===== src/Sessions/Tests.antt =====
-- Revocations on a concrete store.
use mathlib.Core.List.{Memᴰ}
use jou_tak_web.Prelude.{
  is_some, ◌||◌, String, ◌≡◌, ◌≢◌, refl, true, false, none, some, [], ◌∷◌, find, any, member, arith,
  eq_iff,
}
use jou_tak_web.Prelude.Assoc.{lookup, insert}
use jou_tak_web.Prelude.Text.{lower, strip}
use jou_tak_web.Sessions.Model.{
  Meta, SessionToken, OutstandingToken, Store, Request, ok, raised, session_token_digest, is_meta,
  is_user_session, is_revoked, session_revoked, assert_session_allowed,
}
use jou_tak_web.Sessions.Touch.{
  Library, touch, get_or_create_meta, save_meta, update_meta_last_seen, sync_user_session_row,
  user_session_create_defaults, apply_user_session_meta, apply_user_session_timestamps,
}
use jou_tak_web.Prelude.{◌⊎◌}
use jou_tak_web.Sessions.Revoke.{
  revoke_single, Effects, RevokeSessionsIn, BulkOut, is_open_token, same_token,
  blacklist_session_tokens, revoke_meta, revoke_session_key, kill_django_session, revoke_each,
  insert_sorted, sorted_set, session_keys_of, candidate_session_keys, revoke_bulk,
  resolve_current_session_key, validate_revoke_bulk_scope,
}
use jou_tak_web.Sessions.Revoke.Outcome.{revoke_single-cases}
use jou_tak_web.Sessions.Revoke.Single.{
  revoke_session_key_lem, revoke_session_key-blacklisted, assert_session_allowed-revoked,
}
use jou_tak_web.Sessions.Revoke.Bulk.{revoke_bulk-current, revoke_bulk-others}

-- Library code that ends a session drops its rows, and whose digest is the value itself.
abbrev effects : Effects
effects = record {
  end = λ us rows. ([], rows.1);
  logout = λ request live. (record request { session_key = "" }, live);
}

abbrev library : Library
library = record { hmac = λ value. value; field_names = "ip" ∷ []; create = λ attrs. attrs }

abbrev laptop_meta : Meta
laptop_meta = record {
  user = 7;
  session_key = "laptop";
  session_token_digest = none;
  first_seen = 10;
  last_seen = some 20;
  user_agent = "Firefox";
  ip = none;
  revoked_at = none;
  revoked_reason = none;
}

abbrev phone_meta : Meta
phone_meta = record laptop_meta { session_key = "phone" }

abbrev phone_token : SessionToken
phone_token = record { user = 7; session_key = "phone"; refresh_jti = "j1"; revoked_at = none }

abbrev phone_refresh : OutstandingToken
phone_refresh = record { user = 7; jti = "j1" }

abbrev store : Store
store = record {
  user_sessions = [];
  metas = laptop_meta ∷ phone_meta ∷ [];
  tokens = phone_token ∷ [];
  outstanding = phone_refresh ∷ [];
  blacklisted = [];
  django_sessions = [];
}

abbrev from_laptop : Request
from_laptop = record {
  header_token = "";
  session_key = "laptop";
  user_agent = "Firefox";
  client_ip = none;
}

abbrev from_phone : Request
from_phone = record from_laptop { session_key = "phone" }

abbrev phone_revoked : Store
phone_revoked = (revoke_session_key effects from_laptop 7 "phone" "manual" 30 store).1

revoke_session_key_lem_example :
    (is_revoked (find (is_meta 7 "phone") phone_revoked.metas) ≡ true)
    × (any (is_open_token 7 "phone") phone_revoked.tokens ≡ false)
    × (find (is_meta 7 "laptop") phone_revoked.metas ≡ find (is_meta 7 "laptop") store.metas)
revoke_session_key_lem_example =
    revoke_session_key_lem effects from_laptop 7 "phone" "manual" 30 store 7 "laptop" refl

revoke_session_key-blacklisted_example :
    any (same_token phone_refresh) phone_revoked.blacklisted ≡ true
revoke_session_key-blacklisted_example =
    revoke_session_key-blacklisted effects from_laptop 7 "phone" "manual" 30 store phone_token
      phone_refresh (Memᴰ.head refl) refl refl

assert_session_allowed-revoked_example :
    assert_session_allowed library.hmac from_phone phone_revoked ≡ raised session_revoked
assert_session_allowed-revoked_example =
    assert_session_allowed-revoked library.hmac effects from_laptop from_phone 7 "phone" "manual" 30
      store refl refl refl

abbrev all_others : RevokeSessionsIn
all_others = record { ids = []; all_except_current = true; reason = none }

abbrev bulk_answer : BulkOut
bulk_answer = record {
  reason = "bulk_except_current";
  current = "laptop";
  report = record { revoked_ids = "phone" ∷ []; skipped_ids = [] };
}

bulk_run : (revoke_bulk library effects 7 30 all_others from_laptop store).0 ≡ ok bulk_answer
unfolding revoke_bulk assert_session_allowed session_token_digest touch get_or_create_meta save_meta
    update_meta_last_seen sync_user_session_row user_session_create_defaults apply_user_session_meta
    apply_user_session_timestamps blacklist_session_tokens revoke_meta revoke_session_key
    kill_django_session revoke_each insert_sorted sorted_set candidate_session_keys
    resolve_current_session_key validate_revoke_bulk_scope lower strip lookup insert
bulk_run = refl

revoke_bulk-current_example :
    (member "laptop" ("phone" ∷ []) ≡ false)
    × (find
          (is_meta 7 "laptop")
          (revoke_bulk library effects 7 30 all_others from_laptop store).2.metas
        ≡ find (is_meta 7 "laptop") (touch library from_laptop 7 30 15 store).metas)
revoke_bulk-current_example =
    revoke_bulk-current library effects 7 30 all_others from_laptop store bulk_answer bulk_run refl

phone_is_listed :
    member "phone" (session_keys_of 7 (touch library from_laptop 7 30 15 store)) ≡ true
unfolding session_token_digest touch get_or_create_meta save_meta update_meta_last_seen
    sync_user_session_row user_session_create_defaults apply_user_session_meta
    apply_user_session_timestamps lower strip lookup insert
phone_is_listed = refl

phone_is_other : ◌≢◌ {A = String} "phone" "laptop"
phone_is_other = ground (arith, eq_iff "phone" "laptop")

revoke_bulk-others_example :
    is_revoked (
      find
        (is_meta 7 "phone")
        (revoke_bulk library effects 7 30 all_others from_laptop store).2.metas)
    ≡ true
revoke_bulk-others_example =
    revoke_bulk-others library effects 7 30 all_others from_laptop store bulk_answer bulk_run
      "phone" refl phone_is_other refl phone_is_listed

laptop_is_allowed : assert_session_allowed library.hmac from_laptop store ≡ ok tt
unfolding assert_session_allowed session_token_digest strip
laptop_is_allowed = refl

revoke_single-cases_example :
    (is_some
          (find (is_user_session 7 "phone") (touch library from_laptop 7 30 15 store).user_sessions)
        ≡ false)
      × (is_some (find (is_meta 7 "phone") (touch library from_laptop 7 30 15 store).metas) ≡ false)
      × ((revoke_single library effects 7 30 "phone" (some "Lost") from_laptop store).0
          ≡ raised (record { status = 404; detail = "session not found" }))
      × ((revoke_single library effects 7 30 "phone" (some "Lost") from_laptop store).2
          ≡ touch library from_laptop 7 30 15 store)
    ⊎ ((is_some (
            find
              (is_user_session 7 "phone")
              (touch library from_laptop 7 30 15 store).user_sessions)
          || is_some (find (is_meta 7 "phone") (touch library from_laptop 7 30 15 store).metas))
        ≡ true)
      × ((revoke_single library effects 7 30 "phone" (some "Lost") from_laptop store).0 ≡ ok "lost")
      × (is_revoked (
            find
              (is_meta 7 "phone")
              (revoke_single library effects 7 30 "phone" (some "Lost") from_laptop store).2.metas)
          ≡ true)
      × (any
            (is_open_token 7 "phone")
            (revoke_single library effects 7 30 "phone" (some "Lost") from_laptop store).2.tokens
          ≡ false)
unfolding lower
revoke_single-cases_example =
    revoke_single-cases library effects 7 30 "phone" (some "Lost") from_laptop store
      laptop_is_allowed
