-- ===== src/Sessions/Revoke.antt =====
-- Revocation in backend/accounts/services/sessions.py: one session, or several at once. What allauth's
-- `UserSession.end()` and Django's `logout` do to their own rows are parameters; by their types they
-- touch neither the meta rows nor the token rows.
pub mod Single
pub mod Bulk
pub mod Outcome
use Prim.Native.String.{compare}
use Prim.Native.Nat.{Ordering}
use jou_tak_web.Prelude.{
  ℕ, String, Bool, true, false, ◌&&◌, ◌||◌, not, Option, none, some, List, [], ◌∷◌, ◌++◌, ◌==◌,
  nat_eq, find, any, member, keep_if, is_some, map, length, if◌then◌else◌,
}
use jou_tak_web.Prelude.Text.{lower}
use jou_tak_web.Values.{non_empty}
use jou_tak_web.Sessions.Model.{
  UserSession, Meta, SessionToken, OutstandingToken, DjangoSession, Store, Request, HttpError,
  Result, ok, raised, session_token_digest, is_meta, is_user_session, has_digest, is_revoked,
  assert_session_allowed,
}
use jou_tak_web.Sessions.Touch.{Library, touch}

-- The rows that allauth and Django change when a session ends.
pub record Effects : Type 0 where
  pub end :
      UserSession → List UserSession × List DjangoSession → List UserSession × List DjangoSession
  pub logout : Request → List DjangoSession → Request × List DjangoSession

abbrev pub has_jti : ℕ → String → OutstandingToken → Bool
has_jti user jti t = nat_eq t.user user && t.jti == jti

abbrev pub same_token : OutstandingToken → OutstandingToken → Bool
same_token t u = nat_eq t.user u.user && t.jti == u.jti

abbrev pub add_token : Option OutstandingToken → List OutstandingToken → List OutstandingToken
add_token none black = black
add_token (some t) black = if any (same_token t) black then black else t ∷ black

abbrev pub is_open_token : ℕ → String → SessionToken → Bool
is_open_token user key t = nat_eq t.user user && t.session_key == key && not (is_some t.revoked_at)

-- `_blacklist_session_tokens`: the loop over the open tokens of the session, in the table's order.
unfoldable pub blacklist_session_tokens :
    ℕ
    → String
    → ℕ
    → List OutstandingToken
    → List SessionToken
    → List OutstandingToken
    → List SessionToken × List OutstandingToken
blacklist_session_tokens user key now outstanding [] black = ([], black)
blacklist_session_tokens user key now outstanding (t ∷ rows) black =
    let open_token = is_open_token user key t in
    let rest = blacklist_session_tokens user key now outstanding rows (
      if open_token
      then add_token (find (has_jti user t.refresh_jti) outstanding) black
      else black) in
    ((if open_token then record t { revoked_at = some now } else t) ∷ rest.0, rest.1)

abbrev revoked_meta : ℕ → String → Meta → Meta
revoked_meta now reason m = record m { revoked_at = some now; revoked_reason = some reason }

abbrev fresh_revoked : ℕ → String → String → ℕ → Meta
fresh_revoked user key reason now = record {
  user = user;
  session_key = key;
  session_token_digest = none;
  first_seen = now;
  last_seen = none;
  user_agent = "";
  ip = none;
  revoked_at = some now;
  revoked_reason = some reason;
}

-- `UserSessionMeta.objects.update_or_create` with the time and the reason.
unfoldable pub revoke_meta : ℕ → String → String → ℕ → List Meta → List Meta
revoke_meta user key reason now [] = fresh_revoked user key reason now ∷ []
revoke_meta user key reason now (m ∷ rows) =
    if is_meta user key m
    then revoked_meta now reason m ∷ rows
    else m ∷ revoke_meta user key reason now rows

abbrev ended : Effects → Option UserSession → Store → Store
ended fx none st = st
ended fx (some us) st =
    let (rows, live) = fx.end us (st.user_sessions, st.django_sessions) in
    record st { user_sessions = rows; django_sessions = live }

abbrev pub logged_out : Effects → Request → Store → Request × Store
logged_out fx request st =
    let (request', live) = fx.logout request st.django_sessions in
    (request', record st { django_sessions = live })

abbrev is_owned : ℕ → String → Store → Bool
is_owned user key st =
    any (is_user_session user key) st.user_sessions || any (is_meta user key) st.metas

abbrev without_session : String → List DjangoSession → List DjangoSession
without_session key = keep_if (λ (s : DjangoSession). not (s.session_key == key))

-- `_kill_django_session`
unfoldable pub kill_django_session : Effects → Request → String → ℕ → Store → Request × Store
kill_django_session fx request key user st =
    if not (is_owned user key st)
    then (request, st)
    else let killed = record st { django_sessions = without_session key st.django_sessions } in
      if request.session_key == key then logged_out fx request killed else (request, killed)

abbrev revoked_rows : ℕ → String → String → ℕ → Store → Store
revoked_rows user key reason now st =
    let (tokens, black) =
      blacklist_session_tokens user key now st.outstanding st.tokens st.blacklisted in
    record st {
      metas = revoke_meta user key reason now st.metas;
      tokens = tokens;
      blacklisted = black;
    }

-- `_revoke_session_key`
unfoldable pub revoke_session_key :
    Effects → Request → ℕ → String → String → ℕ → Store → Request × Store
unfolding kill_django_session revoke_meta blacklist_session_tokens
revoke_session_key fx request user key reason now st =
    let us = find (is_user_session user key) st.user_sessions in
    let revoked = revoked_rows user key reason now (ended fx us st) in
    if request.session_key == key
    then logged_out fx request revoked
    else if not (is_some us)
    then kill_django_session fx request key user revoked
    else (request, revoked)

-- A text put into a sorted list, once.
unfoldable pub insert_sorted : String → List String → List String
insert_sorted k [] = k ∷ []
insert_sorted k (x ∷ xs) =
    let rest = insert_sorted k xs in
    elim (compare k x) [ Ordering.lt ↦ k ∷ x ∷ xs | Ordering.eq ↦ x ∷ xs | Ordering.gt ↦ x ∷ rest ]

-- `sorted(set(keys))`
unfoldable pub sorted_set : List String → List String
unfolding insert_sorted
sorted_set [] = []
sorted_set (k ∷ ks) = insert_sorted k (sorted_set ks)

abbrev pub session_keys_of : ℕ → Store → List String
session_keys_of user st =
    map (λ (us : UserSession). us.session_key)
      (keep_if (λ (us : UserSession). nat_eq us.user user) st.user_sessions)
    ++ map (λ (m : Meta). m.session_key) (keep_if (λ (m : Meta). nat_eq m.user user) st.metas)

abbrev is_wanted : List String → Bool → String → String → Bool
is_wanted [] all_except_current current key =
    if all_except_current && non_empty current then not (key == current) else true
is_wanted (i ∷ ids) all_except_current current key = member key (i ∷ ids)

-- `_candidate_session_keys`
unfoldable pub candidate_session_keys : ℕ → List String → Bool → String → Store → List String
unfolding sorted_set
candidate_session_keys user ids all_except_current current st = sorted_set (
    keep_if (λ k. is_wanted ids all_except_current current k && non_empty k)
      (session_keys_of user st))

abbrev key_of : Option Meta → String
key_of none = ""
key_of (some m) = m.session_key

-- `_resolve_current_session_key`
unfoldable pub resolve_current_session_key : (String → String) → Request → ℕ → Store → String
unfolding session_token_digest
resolve_current_session_key hmac request user st =
    let digest = session_token_digest hmac request.header_token in
    if non_empty request.session_key
    then request.session_key
    else if non_empty digest
    then key_of (find (λ (m : Meta). nat_eq m.user user && has_digest digest m) st.metas)
    else ""

pub record RevokeSessionsIn : Type 0 where
  pub ids : List String
  pub all_except_current : Bool
  pub reason : Option String

abbrev is_nil : List String → Bool
is_nil [] = true
is_nil (x ∷ xs) = false

-- `_validate_revoke_bulk_scope`
unfoldable pub validate_revoke_bulk_scope : List String → Bool → Option HttpError
validate_revoke_bulk_scope ids all_except_current =
    if not (is_nil ids) && all_except_current
    then some (record { status = 400; detail = "Use either ids or all_except_current, not both" })
    else if is_nil ids && not all_except_current
    then some
        (record { status = 400; detail = "Either ids or all_except_current=true is required" })
    else none

-- The two lists of the answer, in the order in which the loop fills them.
pub record Report : Type 0 where
  pub revoked_ids : List String
  pub skipped_ids : List String

abbrev is_already_revoked : ℕ → String → Store → Bool
is_already_revoked user key st =
    is_revoked (find (is_meta user key) st.metas)
    && not (is_some (find (is_user_session user key) st.user_sessions))

abbrev pub skipped : String → Report × Request × Store → Report × Request × Store
skipped key r = (record (r.0) { skipped_ids = key ∷ r.0.skipped_ids }, r.1, r.2)

abbrev pub revoked : String → Report × Request × Store → Report × Request × Store
revoked key r = (record (r.0) { revoked_ids = key ∷ r.0.revoked_ids }, r.1, r.2)

-- The loop of `revoke_bulk`.
unfoldable pub revoke_each :
    Effects → ℕ → String → ℕ → List String → Request → Store → Report × Request × Store
revoke_each fx user reason now [] request st =
    (record { revoked_ids = []; skipped_ids = [] }, request, st)
revoke_each fx user reason now (key ∷ keys) request st =
    let rest = revoke_each fx user reason now keys in
    if is_already_revoked user key st
    then skipped key (rest request st)
    else (let after = revoke_session_key fx request user key reason now st in
        revoked key (rest after.0 after.1))

-- The answer of `revoke_bulk`, less its constant `ok` and the count, which is a length.
pub record BulkOut : Type 0 where
  pub reason : String
  pub current : String
  pub report : Report

abbrev pub reason_or : String → Option String → String
reason_or default none = default
reason_or default (some r) = if non_empty r then r else default

abbrev bulk_of : String → String → Report × Request × Store → Result BulkOut × Request × Store
bulk_of reason current (report, request, st) =
    (ok (record { reason = reason; current = current; report = report }), request, st)

abbrev not_resolvable : HttpError
not_resolvable = record {
  status = 409;
  detail = "current session is not resolvable for bulk revoke";
}

module _ (lib : Library) (fx : Effects) (user now : ℕ) where
  abbrev pub bulk_touched : RevokeSessionsIn → Request → Store → Result BulkOut × Request × Store
  bulk_touched payload request st =
      let current = resolve_current_session_key lib.hmac request user st in
      let reason = lower (reason_or "bulk_except_current" payload.reason) in
      let keys = candidate_session_keys user payload.ids payload.all_except_current current st in
      elim (validate_revoke_bulk_scope payload.ids payload.all_except_current) [
        | some e ↦ (raised e, request, st)
        | none ↦
            if payload.all_except_current && not (non_empty current)
            then (raised not_resolvable, request, st)
            else bulk_of reason current (revoke_each fx user reason now keys request st)
      ]

  -- `revoke_bulk`, of the user who is logged in.
  unfoldable pub revoke_bulk : RevokeSessionsIn → Request → Store → Result BulkOut × Request × Store
  revoke_bulk payload request st = elim (assert_session_allowed lib.hmac request st) [
    | raised e ↦ (raised e, request, st)
    | ok _ ↦ bulk_touched payload request (touch lib request user now 15 st)
  ]

  abbrev not_found : HttpError
  not_found = record { status = 404; detail = "session not found" }

  abbrev single_touched : String → Option String → Request → Store → Result String × Request × Store
  single_touched sid reason request st =
      let why = lower (reason_or "manual" reason) in
      if not (is_some (find (is_user_session user sid) st.user_sessions))
        && not (is_some (find (is_meta user sid) st.metas))
      then (raised not_found, request, st)
      else (let (request', st') = revoke_session_key fx request user sid why now st in
          (ok why, request', st'))

  -- `revoke_single`; the result is `revoked_reason`, beside the given id and time.
  unfoldable pub revoke_single :
      String → Option String → Request → Store → Result String × Request × Store
  revoke_single sid reason request st = elim (assert_session_allowed lib.hmac request st) [
    | raised e ↦ (raised e, request, st)
    | ok _ ↦ single_touched sid reason request (touch lib request user now 15 st)
  ]
