-- ===== src/Cache/Laws.antt =====
-- What callers rely on: a live row survives every operation on another key, and a key is added once.
use jou_tak_web.Prelude.{
  ℕ, ◌+◌, ◌*◌, ◌/◌, ◌≤◌, String, ◌≡◌, refl, Bool, true, false, ◌&&◌, not, List, [], ◌∷◌, ◌==◌, any,
  leb, arith, ◌||◌,
}
use jou_tak_web.Values.{Value}
use jou_tak_web.Cache.{second, Row, stored, DatabaseCache, purge, cull, can_store, add, set}

-- Some row holds the key at the time.
abbrev pub is_live : String → ℕ → List Row → Bool
is_live key at rows = any (λ (r : Row). r.cache_key == key && leb at (r.expires * second)) rows

-- What Django documents of `DatabaseCache`, whatever its `_cull` deletes. "add" stores nothing under a key
-- that is live and that `_cull` leaves. What is stored with a positive timeout lives for it, counted from
-- the second of the clock. A live row that `_cull` leaves stays, but for the one under the key that is set;
-- and `get` deletes no live row.
pub record IsDatabaseCache (db : DatabaseCache) : Type 0 where
  pub add_live :
      (evict : ℕ → List Row → List Row) (key : String) (v : Value) (timeout now : ℕ)
      (rows : List Row)
      → is_live key now rows ≡ true
      → is_live key now (evict (now / second) rows) ≡ true
      → (db.base_set evict true key v timeout now rows).0 ≡ false
  pub lives :
      (evict : ℕ → List Row → List Row) (adds : Bool) (key : String) (v : Value)
      (timeout now at : ℕ) (rows : List Row)
      → 1 ≤ timeout
      → (db.base_set evict adds key v timeout now rows).0 ≡ true
      → at ≤ (now / second + timeout) * second
      → is_live key at (db.base_set evict adds key v timeout now rows).1 ≡ true
  pub keeps :
      (evict : ℕ → List Row → List Row) (adds : Bool) (key : String) (v : Value)
      (timeout now at : ℕ) (rows : List Row) (other : String)
      → now ≤ at
      → (adds || not (key == other)) ≡ true
      → is_live other at rows ≡ true
      → is_live other at (evict (now / second) rows) ≡ true
      → is_live other at (db.base_set evict adds key v timeout now rows).1 ≡ true
  pub get_keeps :
      (key : String) (now at : ℕ) (rows : List Row) (other : String)
      → now ≤ at
      → is_live other at rows ≡ true
      → is_live other at (db.get key now rows).1 ≡ true

is_live-cull :
    (key : String) (now at : ℕ) (rows : List Row)
    → now ≤ at
    → is_live key at rows ≡ true
    → is_live key at (cull (now / second) rows) ≡ true
unfolding cull
is_live-cull key now at [] le h = h
is_live-cull key now at (r ∷ rows) le h = ground (arith, is_live-cull key now at rows le)

is_live-purge :
    (key : String) (now at : ℕ) (rows : List Row)
    → now ≤ at
    → is_live key at rows ≡ true
    → is_live key at (purge (now / second) rows) ≡ true
is_live-purge key now at [] le h = h
is_live-purge key now at (r ∷ rows) le h = ground (arith, is_live-purge key now at rows le)

is_live-can_store :
    (max_entries : ℕ) (own key : String) (now at : ℕ) (rows : List Row)
    → now ≤ at
    → is_live key at rows ≡ true
    → is_live key at (can_store max_entries own now rows).1 ≡ true
unfolding can_store
is_live-can_store max_entries own key now at rows le h =
    ground (arith, is_live-purge key now at rows le h)

module _ (db : DatabaseCache) (laws : IsDatabaseCache db) (key : String) (v : Value)
    (timeout now : ℕ) (rows : List Row) where
  base-keeps :
      (at : ℕ) (other : String) (adds : Bool) (kept : List Row)
      → now ≤ at
      → (adds || not (db.make_key key == other)) ≡ true
      → is_live other at kept ≡ true
      → is_live other at (db.base_set cull adds (db.make_key key) v timeout now kept).1 ≡ true
  base-keeps at other adds kept le h live =
      laws.keeps cull adds (db.make_key key) v timeout now at kept other le h live
        (is_live-cull other now at kept le live)

  -- Whatever `add` answers, a live row stays.
  pub add-keeps :
      (at : ℕ) (other : String)
      → now ≤ at
      → is_live other at rows ≡ true
      → is_live other at (add db key v timeout now rows).1 ≡ true
  unfolding add
  add-keeps at other le h =
      let room = can_store db.max_entries (db.make_key key) now rows in
      let kept = is_live-can_store db.max_entries (db.make_key key) other now at rows le h in
      let based = base-keeps at other true room.1 le refl kept in
      ground (
        arith,
        kept,
        based,
        laws.get_keeps key now at (db.base_set cull true (db.make_key key) v timeout now room.1).1
            other le based,
      )

  add_live-cull :
      (kept : List Row)
      → is_live (db.make_key key) now kept ≡ true
      → (db.base_set cull true (db.make_key key) v timeout now kept).0 ≡ false
  add_live-cull kept live =
      laws.add_live cull (db.make_key key) v timeout now kept live
        (is_live-cull (db.make_key key) now now kept (omega arith) live)

  -- `add` answers `True` only for a key that is not live, and the key lives for the timeout, counted from
  -- the second of the clock.
  pub add-stored :
      (at : ℕ)
      → 1 ≤ timeout
      → at ≤ (now / second + timeout) * second
      → (add db key v timeout now rows).0 ≡ stored true
      → (is_live (db.make_key key) now rows ≡ false)
        × (is_live (db.make_key key) at (add db key v timeout now rows).1 ≡ true)
  unfolding add
  add-stored at positive le h =
      let physical = db.make_key key in
      let room = can_store db.max_entries physical now rows in
      let kept = is_live-can_store db.max_entries physical physical now now rows (omega arith) in
      (
        ground (arith, kept, add_live-cull room.1),
        ground (arith, laws.lives cull true physical v timeout now at room.1 positive),
      )

  pub set-keeps :
      (at : ℕ) (other : String)
      → now ≤ at
      → (db.make_key key == other) ≡ false
      → is_live other at rows ≡ true
      → is_live other at (set db key v timeout now rows).1 ≡ true
  unfolding set
  set-keeps at other le ne h =
      let room = can_store db.max_entries (db.make_key key) now rows in
      let kept = is_live-can_store db.max_entries (db.make_key key) other now at rows le h in
      ground (arith, kept, base-keeps at other false room.1 le (ground (arith, ne)) kept)

  -- Neither `add` nor `set` of a key ends the life of another key, whatever they answer and however full
  -- the cache is, at whatever later time that life ends. That Django's part of the cache does what it
  -- documents is a hypothesis.
  pub add-set-keeps :
      (at : ℕ) (other : String)
      → now ≤ at
      → (db.make_key key == other) ≡ false
      → is_live other at rows ≡ true
      → (is_live other at (add db key v timeout now rows).1 ≡ true)
        × (is_live other at (set db key v timeout now rows).1 ≡ true)
  add-set-keeps at other le ne h = (add-keeps at other le h, set-keeps at other le ne h)
