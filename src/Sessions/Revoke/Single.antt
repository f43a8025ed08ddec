-- ===== src/Sessions/Revoke/Single.antt =====
-- What the revocation of one session does to the rows of the account, and of every other one.
use mathlib.Core.List.{Memᴰ}
use jou_tak_web.Prelude.{
  ℕ, String, ◌≡◌, refl, true, false, ◌&&◌, Bool, Option, none, some, List, [], ◌∷◌, arith, find,
  any, Bool-cases, inl, inr, eq_iff, nat_eq, ◌==◌,
}
use jou_tak_web.Values.{non_empty}
use jou_tak_web.Sessions.Model.{
  Meta, SessionToken, OutstandingToken, Store, Request, raised, is_meta, is_revoked,
  session_revoked, assert_session_allowed,
}
use jou_tak_web.Sessions.Revoke.{
  Effects, is_open_token, has_jti, same_token, add_token, blacklist_session_tokens, revoke_meta,
  revoke_session_key,
}

module _ (user : ℕ) (key reason : String) (now : ℕ) where
  pub find-revoke_meta_self :
      (rows : List Meta)
      → is_revoked (find (is_meta user key) (revoke_meta user key reason now rows)) ≡ true
  unfolding revoke_meta
  find-revoke_meta_self [] = ground (arith, eq_iff key key)
  find-revoke_meta_self (m ∷ rows) = ground (arith, find-revoke_meta_self rows)

  -- A search that no row of this user and key passes is not changed.
  pub find-revoke_meta_other :
      (user' : ℕ) (key' : String) (rows : List Meta)
      → nat_eq user user' && key == key' ≡ false
      → find (is_meta user' key') (revoke_meta user key reason now rows)
        ≡ find (is_meta user' key') rows
  unfolding revoke_meta
  find-revoke_meta_other user' key' [] ne = ground arith
  find-revoke_meta_other user' key' (m ∷ rows) ne = ground (
    arith,
    find-revoke_meta_other user' key' rows ne,
    eq_iff m.session_key key,
    eq_iff m.session_key key',
    eq_iff key key',
  )

  pub blacklist-closed :
      (outstanding : List OutstandingToken) (rows : List SessionToken)
      (black : List OutstandingToken)
      → any
          (is_open_token user key)
          (blacklist_session_tokens user key now outstanding rows black).0
        ≡ false
  unfolding blacklist_session_tokens
  blacklist-closed outstanding [] black = refl
  blacklist-closed outstanding (t ∷ rows) black = ground (
    arith,
    blacklist-closed outstanding rows black,
    blacklist-closed outstanding rows
        (add_token (find (has_jti user t.refresh_jti) outstanding) black),
  )

  -- A row of the table stays, or was open and is closed now.
  add_token-keeps :
      (t : OutstandingToken) (o : Option OutstandingToken) (black : List OutstandingToken)
      → any (same_token t) black ≡ true
      → any (same_token t) (add_token o black) ≡ true
  add_token-keeps t o black h = ground arith

  blacklist-keeps :
      (outstanding : List OutstandingToken) (rows : List SessionToken)
      (black : List OutstandingToken) (b : OutstandingToken)
      → any (same_token b) black ≡ true
      → any (same_token b) (blacklist_session_tokens user key now outstanding rows black).1 ≡ true
  unfolding blacklist_session_tokens
  blacklist-keeps outstanding [] black b h = h
  blacklist-keeps outstanding (t ∷ rows) black b h =
      let o = find (has_jti user t.refresh_jti) outstanding in
      elim (Bool-cases (is_open_token user key t)) [
        | inl opened ↦
            rw opened
              (blacklist-keeps outstanding rows (add_token o black) b (add_token-keeps b o black h))
        | inr closed ↦ rw closed (blacklist-keeps outstanding rows black b h)
      ]

  add_token_self :
      (o : OutstandingToken) (black : List OutstandingToken)
      → any (same_token o) (add_token (some o) black) ≡ true
  add_token_self o black = ground (arith, eq_iff o.jti o.jti)

  blacklist-found :
      (outstanding : List OutstandingToken) (rows : List SessionToken)
      (black : List OutstandingToken) (t : SessionToken) (o : OutstandingToken)
      → Memᴰ t rows
      → is_open_token user key t ≡ true
      → find (has_jti user t.refresh_jti) outstanding ≡ some o
      → any (same_token o) (blacklist_session_tokens user key now outstanding rows black).1 ≡ true
  unfolding blacklist_session_tokens
  blacklist-found outstanding [] black t o mem opened found = elim mem [ ]
  blacklist-found outstanding (s ∷ rows) black t o (Memᴰ.head e) opened found = rw (← e) (
      rw (opened, found)
        (blacklist-keeps outstanding rows (add_token (some o) black) o (add_token_self o black)))
  blacklist-found outstanding (s ∷ rows) black t o (Memᴰ.tail mem) opened found =
      blacklist-found outstanding rows _ t o mem opened found

  module _ (fx : Effects) (request : Request) (st : Store) where
    pub metas-revoke_session_key :
        (revoke_session_key fx request user key reason now st).1.metas
        ≡ revoke_meta user key reason now st.metas
    unfolding revoke_session_key
    metas-revoke_session_key = ground arith

    pub tokens-revoke_session_key :
        (revoke_session_key fx request user key reason now st).1.tokens
        ≡ (blacklist_session_tokens user key now st.outstanding st.tokens st.blacklisted).0
    unfolding revoke_session_key
    tokens-revoke_session_key = ground arith

    blacklisted-revoke_session_key :
        (revoke_session_key fx request user key reason now st).1.blacklisted
        ≡ (blacklist_session_tokens user key now st.outstanding st.tokens st.blacklisted).1
    unfolding revoke_session_key
    blacklisted-revoke_session_key = ground arith

-- Revoking a session marks its meta row as revoked, leaves no token of it open, and leaves the meta row
-- of every other user or key as it was.
pub revoke_session_key_lem :
    (fx : Effects) (request : Request) (user : ℕ) (key reason : String) (now : ℕ) (st : Store)
    (user' : ℕ) (key' : String)
    → nat_eq user user' && key == key' ≡ false
    → (is_revoked
          (find (is_meta user key) (revoke_session_key fx request user key reason now st).1.metas)
        ≡ true)
      × (any
            (is_open_token user key)
            (revoke_session_key fx request user key reason now st).1.tokens
          ≡ false)
      × (find (is_meta user' key') (revoke_session_key fx request user key reason now st).1.metas
          ≡ find (is_meta user' key') st.metas)
revoke_session_key_lem fx request user key reason now st user' key' ne = (
  rw (metas-revoke_session_key user key reason now fx request st)
      (find-revoke_meta_self user key reason now st.metas),
  rw (tokens-revoke_session_key user key reason now fx request st)
      (blacklist-closed user key reason now st.outstanding st.tokens st.blacklisted),
  rw (metas-revoke_session_key user key reason now fx request st)
      (find-revoke_meta_other user key reason now user' key' st.metas ne),
)

-- Revoking a session blacklists the outstanding refresh token behind each open token row of it.
pub revoke_session_key-blacklisted :
    (fx : Effects) (request : Request) (user : ℕ) (key reason : String) (now : ℕ) (st : Store)
    (t : SessionToken) (o : OutstandingToken)
    → Memᴰ t st.tokens
    → is_open_token user key t ≡ true
    → find (has_jti user t.refresh_jti) st.outstanding ≡ some o
    → any (same_token o) (revoke_session_key fx request user key reason now st).1.blacklisted ≡ true
revoke_session_key-blacklisted fx request user key reason now st t o mem opened found =
    rw (blacklisted-revoke_session_key user key reason now fx request st) (
      blacklist-found user key reason now st.outstanding st.tokens st.blacklisted t o mem opened
        found)

abbrev has_key : String → Meta → Bool
has_key key m = m.session_key == key

-- The row, if there is one, is the user's.
abbrev is_owner : ℕ → Option Meta → Bool
is_owner user none = true
is_owner user (some m) = nat_eq m.user user

find-key_revoked :
    (user : ℕ) (key reason : String) (now : ℕ) (rows : List Meta)
    → is_owner user (find (has_key key) rows) ≡ true
    → is_revoked (find (has_key key) (revoke_meta user key reason now rows)) ≡ true
unfolding revoke_meta
find-key_revoked user key reason now [] h = ground (arith, eq_iff key key)
find-key_revoked user key reason now (m ∷ rows) h =
    ground (arith, find-key_revoked user key reason now rows)

-- After a session is revoked, every request that comes with its key is refused with 401, whatever header
-- token it carries, if the first meta row with the key was the user's own or there was none.
pub assert_session_allowed-revoked :
    (hmac : String → String) (fx : Effects) (request later : Request) (user : ℕ)
    (key reason : String) (now : ℕ) (st : Store)
    → is_owner user (find (has_key key) st.metas) ≡ true
    → later.session_key ≡ key
    → non_empty key ≡ true
    → assert_session_allowed hmac later (revoke_session_key fx request user key reason now st).1
      ≡ raised session_revoked
unfolding assert_session_allowed
assert_session_allowed-revoked hmac fx request later user key reason now st own same full =
    rw (metas-revoke_session_key user key reason now fx request st, same)
      (ground (arith, find-key_revoked user key reason now st.metas own))
