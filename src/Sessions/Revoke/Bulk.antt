-- ===== src/Sessions/Revoke/Bulk.antt =====
-- The revocation of several sessions at once: which are revoked, and that the current one is not.
use text.Mathlib.TextEquality.{path_by_compare}
use jou_tak_web.Prelude.{
  ℕ, String, ◌≡◌, ◌≢◌, refl, ◌∙◌, ap, true, false, ◌&&◌, ◌||◌, not, Bool, none, List, [], ◌∷◌,
  arith, find, member, keep_if, Bool-cases, inl, inr, eq_iff, ◌==◌,
}
use jou_tak_web.Prelude.Text.{lower}
use jou_tak_web.Values.{non_empty}
use jou_tak_web.Sessions.Model.{Store, Request, ok, is_meta, is_revoked}
use jou_tak_web.Sessions.Touch.{Library, touch}
use jou_tak_web.Sessions.Revoke.{
  Effects, RevokeSessionsIn, BulkOut, Report, revoke_session_key, revoke_each, insert_sorted,
  sorted_set, session_keys_of, is_wanted, candidate_session_keys, is_already_revoked, revoke_bulk,
  resolve_current_session_key, validate_revoke_bulk_scope, reason_or,
}
use jou_tak_web.Sessions.Revoke.Single.{
  metas-revoke_session_key, find-revoke_meta_self, find-revoke_meta_other,
}

member-insert_sorted :
    (k x : String) (xs : List String) → member k (insert_sorted x xs) ≡ (k == x || member k xs)
unfolding insert_sorted
member-insert_sorted k x [] = refl
member-insert_sorted k x (y ∷ ys) =
    ground (arith, member-insert_sorted k x ys, path_by_compare x y, eq_iff k x, eq_iff k y)

pub member-sorted_set : (k : String) (xs : List String) → member k (sorted_set xs) ≡ member k xs
unfolding sorted_set
member-sorted_set k [] = refl
member-sorted_set k (x ∷ xs) =
    member-insert_sorted k x (sorted_set xs) ∙ ap (λ b. k == x || b) (member-sorted_set k xs)

member-keep_if :
    (p : String → Bool) (k : String) (xs : List String)
    → member k (keep_if p xs) ≡ (p k && member k xs)
member-keep_if p k [] = ground arith
member-keep_if p k (x ∷ xs) = ground (arith, member-keep_if p k xs, eq_iff k x)

-- The keys that `revoke_bulk` goes through.
member-candidate_session_keys :
    (user : ℕ) (ids : List String) (all : Bool) (current k : String) (st : Store)
    → member k (candidate_session_keys user ids all current st)
      ≡ (is_wanted ids all current k && non_empty k && member k (session_keys_of user st))
unfolding candidate_session_keys
member-candidate_session_keys user ids all current k st =
    let wanted = λ (key : String). is_wanted ids all current key && non_empty key in
    member-sorted_set k (keep_if wanted (session_keys_of user st))
    ∙ member-keep_if wanted k (session_keys_of user st)

module _ (fx : Effects) (user : ℕ) (reason : String) (now : ℕ) where
  -- A revoked row stays revoked, whatever else is revoked.
  revoke_session_key-keeps :
      (request : Request) (key k : String) (st : Store)
      → is_revoked (find (is_meta user k) st.metas) ≡ true
      → is_revoked
          (find (is_meta user k) (revoke_session_key fx request user key reason now st).1.metas)
        ≡ true
  revoke_session_key-keeps request key k st h =
      rw (metas-revoke_session_key user key reason now fx request st)
        (elim (Bool-cases (key == k)) [
          | inl same ↦
              rw (← (eq_iff key k).0 same) (find-revoke_meta_self user key reason now st.metas)
          | inr other ↦
              rw
                (find-revoke_meta_other user key reason now user k st.metas (ground (arith, other)))
                h
        ])

  revoke_each-keeps :
      (keys : List String) (request : Request) (k : String) (st : Store)
      → is_revoked (find (is_meta user k) st.metas) ≡ true
      → is_revoked (find (is_meta user k) (revoke_each fx user reason now keys request st).2.metas)
        ≡ true
  unfolding revoke_each
  revoke_each-keeps [] request k st h = h
  revoke_each-keeps (key ∷ keys) request k st h =
      elim (Bool-cases (is_already_revoked user key st)) [
        | inl old ↦ rw old (revoke_each-keeps keys request k st h)
        | inr new ↦
            rw new (revoke_each-keeps keys _ k _ (revoke_session_key-keeps request key k st h))
      ]

  -- Every key of the list is revoked in the end.
  revoke_each-revoked :
      (keys : List String) (request : Request) (k : String) (st : Store)
      → member k keys ≡ true
      → is_revoked (find (is_meta user k) (revoke_each fx user reason now keys request st).2.metas)
        ≡ true
  unfolding revoke_each
  revoke_each-revoked [] request k st m = cc
  revoke_each-revoked (key ∷ keys) request k st m =
      elim (Bool-cases (is_already_revoked user key st)) [
        | inl old ↦ rw old (elim (Bool-cases (k == key)) [
          | inl same ↦
              revoke_each-keeps keys request k st (rw ((eq_iff k key).0 same) (ground arith))
          | inr other ↦ revoke_each-revoked keys request k st (ground arith)
        ])
        | inr new ↦ rw new (elim (Bool-cases (k == key)) [
          | inl same ↦ revoke_each-keeps keys _ k _ (
              rw ((eq_iff k key).0 same, metas-revoke_session_key user key reason now fx request st)
                (find-revoke_meta_self user key reason now st.metas))
          | inr other ↦ revoke_each-revoked keys _ k _ (ground arith)
        ])
      ]

  -- A key that is not in the list keeps its row, and is in neither list of the answer.
  revoke_each-frame :
      (keys : List String) (request : Request) (k : String) (st : Store)
      → member k keys ≡ false
      → (find (is_meta user k) (revoke_each fx user reason now keys request st).2.metas
          ≡ find (is_meta user k) st.metas)
        × (member k (revoke_each fx user reason now keys request st).0.revoked_ids ≡ false)
  unfolding revoke_each
  revoke_each-frame [] request k st m = (refl, refl)
  revoke_each-frame (key ∷ keys) request k st m =
      elim (Bool-cases (is_already_revoked user key st)) [
        | inl old ↦ rw old (revoke_each-frame keys request k st (ground arith))
        | inr new ↦
            let after = revoke_session_key fx request user key reason now st in
            let ih = revoke_each-frame keys after.0 k after.1 (ground arith) in
            let same =
              find-revoke_meta_other user key reason now user k st.metas
                (ground (arith, eq_iff key k, eq_iff k key)) in
            rw new (
              ih.0
                  ∙ ap (find (is_meta user k))
                      (metas-revoke_session_key user key reason now fx request st)
                  ∙ same,
              ground (arith, ih.1),
            )
      ]

wanted_all :
    (ids : List String) (all : Bool) (current k : String)
    → validate_revoke_bulk_scope ids all ≡ none
    → all ≡ true
    → (all && not (non_empty current)) ≡ false
    → is_wanted ids all current k ≡ not (k == current)
unfolding validate_revoke_bulk_scope
wanted_all [] all current k v a f = ground arith
wanted_all (i ∷ ids) all current k v a f = ground arith

module _ (lib : Library) (fx : Effects) (user now : ℕ) (payload : RevokeSessionsIn)
    (request : Request) (st : Store) (out : BulkOut)
    (succeeded : (revoke_bulk lib fx user now payload request st).0 ≡ ok out) where
  abbrev touched : Store
  touched = touch lib request user now 15 st

  abbrev current : String
  current = resolve_current_session_key lib.hmac request user touched

  abbrev keys : List String
  keys = candidate_session_keys user payload.ids payload.all_except_current current touched

  abbrev loop : Report × Request × Store
  loop =
      revoke_each fx user (lower (reason_or "bulk_except_current" payload.reason)) now keys request
        touched

  -- A run that succeeds went through the loop.
  ran :
      (out.current ≡ current)
      × (out.report ≡ loop.0)
      × ((revoke_bulk lib fx user now payload request st).2 ≡ loop.2)
      × (validate_revoke_bulk_scope payload.ids payload.all_except_current ≡ none)
      × ((payload.all_except_current && not (non_empty current)) ≡ false)
  unfolding revoke_bulk
  ran = (ground arith, ground arith, ground arith, ground arith, ground arith)

  -- The keys of the user's other sessions are wanted, and the current one is not.
  scope :
      payload.all_except_current ≡ true
      → (member out.current keys ≡ false)
        × ((k : String)
            → k ≢ out.current
            → non_empty k ≡ true
            → member k (session_keys_of user touched) ≡ true
            → member k keys ≡ true)
  scope all =
      let (same_key, same_report, same_store, valid, resolved) = ran in
      let wanted = λ (k : String).
        wanted_all payload.ids payload.all_except_current current k valid all resolved in
      let listed = λ (k : String).
        member-candidate_session_keys user payload.ids payload.all_except_current current k
          touched in
      (
        rw same_key (ground (arith, listed current, wanted current, eq_iff current current)),
        λ k ne full m. ground (arith, listed k, wanted k, eq_iff k current, same_key),
      )

  -- When `revoke_bulk` is asked for all sessions but the current one and succeeds, the current session is
  -- not among the revoked ids of the answer, and its meta row stays as `touch` left it.
  pub revoke_bulk-current :
      payload.all_except_current ≡ true
      → (member out.current out.report.revoked_ids ≡ false)
        × (find (is_meta user out.current) (revoke_bulk lib fx user now payload request st).2.metas
            ≡ find (is_meta user out.current) touched.metas)
  revoke_bulk-current all =
      let (same_key, same_report, same_store, valid, resolved) = ran in
      let frame =
        revoke_each-frame fx user (lower (reason_or "bulk_except_current" payload.reason)) now keys
          request out.current touched (scope all).0 in
      rw (same_report, same_store) (frame.1, frame.0)

  -- When `revoke_bulk` is asked for all sessions but the current one and succeeds, the meta row of every
  -- other session that the user has after `touch` is revoked, where the session's key is not empty.
  pub revoke_bulk-others :
      (k : String)
      → payload.all_except_current ≡ true
      → k ≢ out.current
      → non_empty k ≡ true
      → member k (session_keys_of user touched) ≡ true
      → is_revoked (find (is_meta user k) (revoke_bulk lib fx user now payload request st).2.metas)
        ≡ true
  revoke_bulk-others k all ne full m =
      let (same_key, same_report, same_store, valid, resolved) = ran in
      rw same_store (
        revoke_each-revoked fx user (lower (reason_or "bulk_except_current" payload.reason)) now
          keys request k touched ((scope all).1 k ne full m))
