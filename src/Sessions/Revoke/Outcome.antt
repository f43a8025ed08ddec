-- ===== src/Sessions/Revoke/Outcome.antt =====
-- The answers of `revoke_single`.
use jou_tak_web.Prelude.{
  ℕ, String, Bool, ◌≡◌, refl, arith, ◌⊎◌, inl, inr, true, false, ◌&&◌, ◌||◌, not, Option, find, any,
  is_some, Bool-cases,
}
use jou_tak_web.Prelude.Text.{lower}
use jou_tak_web.Sessions.Model.{
  Store, Request, ok, raised, is_meta, is_user_session, is_revoked, assert_session_allowed,
}
use jou_tak_web.Sessions.Touch.{Library, touch}
use jou_tak_web.Sessions.Revoke.{
  Effects, is_open_token, reason_or, revoke_session_key, revoke_single,
}
use jou_tak_web.Sessions.Revoke.Single.{
  metas-revoke_session_key, tokens-revoke_session_key, find-revoke_meta_self, blacklist-closed,
}

abbrev is_unknown : ℕ → String → Store → Bool
is_unknown user sid st =
    not (is_some (find (is_user_session user sid) st.user_sessions))
    && not (is_some (find (is_meta user sid) st.metas))

module _ (lib : Library) (fx : Effects) (user now : ℕ) (sid : String) (reason : Option String)
    (request : Request) (st : Store)
    (allowed : assert_session_allowed lib.hmac request st ≡ ok tt) where
  revoke_single-missing :
      is_unknown user sid (touch lib request user now 15 st) ≡ true
      → revoke_single lib fx user now sid reason request st ≡ (
        raised (record { status = 404; detail = "session not found" }),
        request,
        touch lib request user now 15 st,
      )
  unfolding revoke_single
  revoke_single-missing missing = ground arith

  revoke_single-there :
      is_unknown user sid (touch lib request user now 15 st) ≡ false
      → revoke_single lib fx user now sid reason request st ≡ (
        ok (lower (reason_or "manual" reason)),
        (revoke_session_key fx request user sid
            (lower (reason_or "manual" reason))
            now
            (touch lib request user now 15 st)).0,
        (revoke_session_key fx request user sid
            (lower (reason_or "manual" reason))
            now
            (touch lib request user now 15 st)).1,
      )
  unfolding revoke_single
  revoke_single-there there = ground arith

-- `revoke_single`, where the request is not of a revoked session: if the user has neither a session nor a
-- meta row of that key in the tables that `touch` left, it answers 404 and leaves those tables; if one of
-- the two is there, it answers with the reason, in lower case, the meta row of the session is revoked and
-- none of its tokens is open.
pub revoke_single-cases :
    (lib : Library) (fx : Effects) (user now : ℕ) (sid : String) (reason : Option String)
    (request : Request) (st : Store)
    → assert_session_allowed lib.hmac request st ≡ ok tt
    → (is_some (find (is_user_session user sid) (touch lib request user now 15 st).user_sessions)
          ≡ false)
        × (is_some (find (is_meta user sid) (touch lib request user now 15 st).metas) ≡ false)
        × ((revoke_single lib fx user now sid reason request st).0
            ≡ raised (record { status = 404; detail = "session not found" }))
        × ((revoke_single lib fx user now sid reason request st).2
            ≡ touch lib request user now 15 st)
      ⊎ ((is_some (find (is_user_session user sid) (touch lib request user now 15 st).user_sessions)
            || is_some (find (is_meta user sid) (touch lib request user now 15 st).metas))
          ≡ true)
        × ((revoke_single lib fx user now sid reason request st).0
            ≡ ok (lower (reason_or "manual" reason)))
        × (is_revoked (
              find (is_meta user sid) (revoke_single lib fx user now sid reason request st).2.metas)
            ≡ true)
        × (any
              (is_open_token user sid)
              (revoke_single lib fx user now sid reason request st).2.tokens
            ≡ false)
revoke_single-cases lib fx user now sid reason request st allowed =
    let touched = touch lib request user now 15 st in
    let why = lower (reason_or "manual" reason) in
    elim (Bool-cases (is_unknown user sid touched)) [
      | inl missing ↦
          rw (revoke_single-missing lib fx user now sid reason request st allowed missing)
            (inl (ground (arith, missing), ground (arith, missing), refl, refl))
      | inr there ↦ rw (revoke_single-there lib fx user now sid reason request st allowed there) (
          inr (
            ground (arith, there),
            refl,
            rw (metas-revoke_session_key user sid why now fx request touched)
                (find-revoke_meta_self user sid why now touched.metas),
            rw (tokens-revoke_session_key user sid why now fx request touched) (
                blacklist-closed user sid why now touched.outstanding touched.tokens
                  touched.blacklisted),
          ))
    ]
