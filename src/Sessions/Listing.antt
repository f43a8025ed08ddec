-- ===== src/Sessions/Listing.antt =====
-- The listing of backend/accounts/services/sessions.py: `_compose_row`, `_merge_rows` and `list`. Which rows
-- allauth's `purge_and_list` gives is a parameter. A row of allauth is asked for its attributes by name.
pub mod Complete
mod Tests
use jou_tak_web.Prelude.{
  ℕ, String, Bool, true, false, ◌&&◌, ◌||◌, not, Option, none, some, List, [], ◌∷◌, ◌++◌, map, ◌==◌,
  find, nat_eq, keep_if, is_some, if◌then◌else◌,
}
use jou_tak_web.Prelude.Assoc.{Dict, lookup, insert}
use jou_tak_web.Values.{non_empty}
use jou_tak_web.Sessions.Model.{
  Attr, nothing, time, text, UserSession, Meta, DjangoSession, Store, Request,
  session_token_digest_matches,
}
use jou_tak_web.Sessions.Touch.{truthy_attr}
use jou_tak_web.Sessions.Revoke.{sorted_set}

-- `SessionRowOut`
pub record SessionRow : Type 0 where
  pub id : String
  pub user_agent : Attr
  pub ip : Attr
  pub created : Attr
  pub last_seen : Attr
  pub expires : Option ℕ
  pub current : Bool
  pub revoked : Bool
  pub revoked_reason : Attr
  pub revoked_at : Attr

abbrev or_nothing : Option Attr → Attr
or_nothing none = nothing
or_nothing (some a) = a

-- `getattr(us, name, None) if us else None`
abbrev attr : Option UserSession → String → Attr
attr none name = nothing
attr (some us) name = or_nothing (lookup name us.attributes)

-- `a or b`
infixr 30 ◌or◌
abbrev ◌or◌ : Attr → Attr → Attr
a or b = if truthy_attr (some a) then a else b

abbrev of_time : Option ℕ → Attr
of_time none = nothing
of_time (some t) = time t

abbrev of_text : Option String → Attr
of_text none = nothing
of_text (some s) = text s

abbrev of_meta : Option Meta → (Meta → Attr) → Attr
of_meta none read = nothing
of_meta (some m) read = read m

abbrev pub is_session : String → DjangoSession → Bool
is_session key s = s.session_key == key

abbrev expiry : Option DjangoSession → Option ℕ
expiry none = none
expiry (some s) = some s.expire_date

abbrev matches_token : (String → String) → String → Option Meta → Bool
matches_token hmac token none = false
matches_token hmac token (some m) =
    non_empty token && session_token_digest_matches hmac m.session_token_digest token

-- `{row.session_key: row for row in rows if row.session_key}`
unfoldable pub by_key {ℓ} : {A : Type ℓ} → (A → String) → List A → Dict A → Dict A
by_key key [] rows = rows
by_key key (a ∷ as_) rows =
    by_key key as_ (if non_empty (key a) then insert (key a) a rows else rows)

abbrev pub keys {ℓ} : {A : Type ℓ} → Dict A → List String
keys rows = map (λ e. e.0) rows

module _ (hmac : String → String) (request : Request) (django_sessions : List DjangoSession) where
  -- `_compose_row` of the rows under the key, one of which is there.
  unfoldable pub compose_row : String → Option UserSession → Option Meta → SessionRow
  unfolding session_token_digest_matches
  compose_row key us m =
      let alive = find (is_session key) django_sessions in
      let created =
        attr us "created"
        or attr us "started_at"
        or attr us "login_time"
        or of_meta m (λ row. time row.first_seen) in
      let revoked_at =
        attr us "ended_at" or attr us "revoked_at" or of_meta m (λ row. of_time row.revoked_at) in
      record {
        id = key;
        user_agent = attr us "user_agent" or of_meta m (λ row. text row.user_agent);
        ip = attr us "ip" or attr us "ip_address" or of_meta m (λ row. of_text row.ip);
        created = created;
        last_seen =
            attr us "last_seen"
            or attr us "updated_at"
            or of_meta m (λ row. of_time row.last_seen)
            or created;
        expires = expiry alive;
        current = key == request.session_key || matches_token hmac request.header_token m;
        revoked = truthy_attr (some revoked_at) || not (is_some alive);
        revoked_reason =
            attr us "ended_reason"
            or attr us "revoked_reason"
            or of_meta m (λ row. of_text row.revoked_reason);
        revoked_at = revoked_at;
      }

  -- `_merge_rows`
  unfoldable pub merge_rows : List UserSession → List Meta → List SessionRow
  unfolding compose_row by_key sorted_set
  merge_rows us_list meta_list =
      let by_key_us = by_key (λ (u : UserSession). u.session_key) us_list [] in
      let by_key_meta = by_key (λ (m : Meta). m.session_key) meta_list [] in
      map (λ k. compose_row k (lookup k by_key_us) (lookup k by_key_meta))
        (sorted_set (keys by_key_us ++ keys by_key_meta))

-- `list`
unfoldable pub list_sessions :
    (String → String)
    → (ℕ → List UserSession → List UserSession)
    → Request
    → ℕ
    → Store
    → List SessionRow
unfolding merge_rows
list_sessions hmac purge_and_list request user st =
    merge_rows hmac request st.django_sessions (purge_and_list user st.user_sessions)
      (keep_if (λ (m : Meta). nat_eq m.user user) st.metas)
