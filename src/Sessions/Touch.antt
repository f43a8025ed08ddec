-- ===== src/Sessions/Touch.antt =====
-- `touch` of backend/accounts/services/sessions.py: the rows of the session in use are made or refreshed.
-- The fields of allauth's `UserSession` and its constructor are parameters.
use jou_tak_web.Prelude.{
  ℕ, ◌+◌, String, Bool, true, false, ◌&&◌, ◌||◌, not, Option, none, some, List, [], ◌∷◌, leb,
  member, keep_if, is_some, if◌then◌else◌,
}
use jou_tak_web.Prelude.Assoc.{Dict, lookup, insert}
use jou_tak_web.Values.{non_empty}
use jou_tak_web.Sessions.Model.{
  Attr, nothing, time, text, empty_json, UserSession, Meta, Store, Request, session_token_digest,
  is_meta, is_user_session,
}

abbrev pub unknown_ip_fallback : String
unknown_ip_fallback = "0.0.0.0"

-- `bool(getattr(us, name, None))`
abbrev pub truthy_attr : Option Attr → Bool
truthy_attr none = false
truthy_attr (some nothing) = false
truthy_attr (some (time t)) = true
truthy_attr (some (text s)) = non_empty s
truthy_attr (some empty_json) = false

abbrev optional_text : String → Option String
optional_text s = if non_empty s then some s else none

abbrev fresh_meta : ℕ → String → String → ℕ → Meta
fresh_meta user key digest now = record {
  user = user;
  session_key = key;
  session_token_digest = optional_text digest;
  first_seen = now;
  last_seen = none;
  user_agent = "";
  ip = none;
  revoked_at = none;
  revoked_reason = none;
}

-- `get_or_create` of the meta row: the row, and the table with it.
unfoldable pub get_or_create_meta : Meta → List Meta → Meta × List Meta
get_or_create_meta fresh [] = (fresh, fresh ∷ [])
get_or_create_meta fresh (m ∷ rows) =
    let rest = get_or_create_meta fresh rows in
    if is_meta fresh.user fresh.session_key m then (m, m ∷ rows) else (rest.0, m ∷ rest.1)

-- Writes the row back: the row with its user and key is replaced.
unfoldable pub save_meta : Meta → List Meta → List Meta
save_meta m [] = []
save_meta m (n ∷ rows) = if is_meta m.user m.session_key n then m ∷ rows else n ∷ save_meta m rows

abbrev with_digest : String → Meta → Meta
with_digest digest m =
    if non_empty digest && not (elim m.session_token_digest [ none ↦ false | some d ↦ non_empty d ])
    then record m { session_token_digest = some digest }
    else m

abbrev is_stale : ℕ → ℕ → Option ℕ → Bool
is_stale throttle now none = true
is_stale throttle now (some seen) = leb (seen + throttle) now

abbrev ip_or : Option String → Option String → Option String
ip_or none other = other
ip_or (some ip) other = if non_empty ip then some ip else other

-- `_update_meta_last_seen`; `user_agent` is cut to 512 characters by the caller's `_ua`.
unfoldable pub update_meta_last_seen : Request → String → ℕ → ℕ → Meta → Meta
update_meta_last_seen request digest now throttle m =
    let named = with_digest digest m in
    if is_stale throttle now named.last_seen
    then record named {
      last_seen = some now;
      user_agent = if non_empty named.user_agent then named.user_agent else request.user_agent;
      ip = ip_or named.ip request.client_ip;
    }
    else named

abbrev ip_or_unknown : Option String → String
ip_or_unknown none = unknown_ip_fallback
ip_or_unknown (some ip) = if non_empty ip then ip else unknown_ip_fallback

-- `_user_session_create_defaults`
unfoldable pub user_session_create_defaults : List String → Meta → ℕ → Dict Attr
user_session_create_defaults field_names m now =
    keep_if (λ (e : String × Attr). member e.0 field_names)
      (("ip", text (ip_or_unknown m.ip))
        ∷ ("user_agent", text m.user_agent)
        ∷ ("data", empty_json)
        ∷ ("last_seen_at", time now)
        ∷ [])

-- `setattr` where `hasattr` holds.
abbrev set_existing : String → Attr → Dict Attr → Dict Attr
set_existing name value attrs =
    if is_some (lookup name attrs) then insert name value attrs else attrs

abbrev set_missing : String → Attr → Dict Attr → Dict Attr
set_missing name value attrs =
    if is_some (lookup name attrs) && not (truthy_attr (lookup name attrs))
    then insert name value attrs
    else attrs

abbrev seen_at : ℕ → Dict Attr → Dict Attr
seen_at now attrs =
    set_existing "last_seen_at" (time now)
      (set_existing "updated_at" (time now) (set_existing "last_seen" (time now) attrs))

-- `_apply_user_session_timestamps`
unfoldable pub apply_user_session_timestamps : ℕ → Bool → Dict Attr → Dict Attr
apply_user_session_timestamps now created attrs =
    let seen = seen_at now attrs in
    if created
    then set_existing "created" (time now) (set_existing "started_at" (time now) seen)
    else seen

-- `_apply_user_session_meta`: `ip`, or where there is no such attribute to fill, `ip_address`.
unfoldable pub apply_user_session_meta : Meta → Dict Attr → Dict Attr
apply_user_session_meta m attrs =
    let agent = set_missing "user_agent" (text m.user_agent) attrs in
    if is_some (lookup "ip" agent) && not (truthy_attr (lookup "ip" agent))
    then insert "ip" (text (ip_or_unknown m.ip)) agent
    else set_missing "ip_address" (text (ip_or_unknown m.ip)) agent

abbrev refreshed : ℕ → Bool → Meta → UserSession → UserSession
refreshed now created m us = record us {
  attributes = apply_user_session_meta m (apply_user_session_timestamps now created us.attributes);
}

-- `_sync_user_session_row`: `get_or_create`, then the row is refreshed and saved.
unfoldable pub sync_user_session_row :
    (Dict Attr → Dict Attr)
    → List String
    → ℕ
    → String
    → Meta
    → ℕ
    → List UserSession
    → List UserSession
unfolding user_session_create_defaults apply_user_session_meta apply_user_session_timestamps
sync_user_session_row create field_names user key m now [] =
    refreshed now true m (record {
      user = user;
      session_key = key;
      attributes = create (user_session_create_defaults field_names m now);
    })
    ∷ []
sync_user_session_row create field_names user key m now (us ∷ rows) =
    if is_user_session user key us
    then refreshed now false m us ∷ rows
    else us ∷ sync_user_session_row create field_names user key m now rows

-- allauth and Django, as far as the service calls them.
pub record Library : Type 0 where
  pub hmac : String → String
  pub field_names : List String
  pub create : Dict Attr → Dict Attr

abbrev key_or_token : Request → String
key_or_token request =
    if non_empty request.session_key then request.session_key else request.header_token

-- `touch`, of a user who is logged in; `throttle_seconds` is 15 where no caller gives another.
unfoldable pub touch : Library → Request → ℕ → ℕ → ℕ → Store → Store
unfolding get_or_create_meta save_meta update_meta_last_seen sync_user_session_row
touch lib request user now throttle st =
    if not (non_empty request.header_token || non_empty request.session_key)
    then st
    else let digest = session_token_digest lib.hmac request.header_token in
      let (found, metas) =
        get_or_create_meta (fresh_meta user (key_or_token request) digest now) st.metas in
      let m = update_meta_last_seen request digest now throttle found in
      let touched = record st { metas = save_meta m metas } in
      if non_empty request.session_key
      then record touched {
        user_sessions =
            sync_user_session_row lib.create lib.field_names user request.session_key m now
              st.user_sessions;
      }
      else touched
