-- ===== src/Cache.antt =====
-- backend/backend/cache_backends.py: the database cache of the security state, which never evicts a live row.
-- The table operations of Django's `DatabaseCache` are parameters; `base_set` is given the backend's own
-- `_cull`, which it calls on a table that is too full. The clock counts microseconds, one call reads it once,
-- and a row expires at a whole second.
pub mod Laws
pub mod Tests
use jou_tak_web.Prelude.{
  ℕ, ◌/◌, String, Bool, true, false, ◌&&◌, not, Option, none, some, List, ◌==◌, any, keep_if,
  length, ltb, leb, if◌then◌else◌,
}
use jou_tak_web.Values.{Value}

-- The microseconds of a second.
abbrev pub second : ℕ
second = 1000000

-- A row of the cache's table, by its physical key; it expires at the second `expires`.
pub record Row : Type 0 where
  pub cache_key : String
  pub value : Value
  pub expires : ℕ

pub data CacheError : Type 0 where
  capacity_error write_error : CacheError

pub data CacheResult : Type 0 where
  stored : Bool → CacheResult
  raised : CacheError → CacheResult

-- Django's part: the physical key; `_base_set` with its mode "add" or "set", which calls `_cull` with the
-- second; and `get` with the rows it leaves, since it deletes an expired row (the outer `none` where it
-- raises, the inner one for a missing key).
pub record DatabaseCache : Type 0 where
  pub max_entries : ℕ
  pub make_key : String → String
  pub base_set :
      (ℕ → List Row → List Row)
      → (adds : Bool) → String
      → Value
      → (timeout now : ℕ) → List Row
      → Bool × List Row
  pub get : String → (now : ℕ) → List Row → Option (Option Value) × List Row

abbrev pub has_key : String → Row → Bool
has_key key r = r.cache_key == key

-- `DELETE ... WHERE expires < now`, of a second.
abbrev pub purge : (now : ℕ) → List Row → List Row
purge now rows = keep_if (λ (r : Row). not (ltb r.expires now)) rows

-- `_cull`
unfoldable pub cull : ℕ → List Row → List Row
cull now rows = purge now rows

-- `_can_store`, which purges the rows that are expired at the second before it counts.
unfoldable pub can_store : ℕ → String → ℕ → List Row → Bool × List Row
can_store max_entries key now rows =
    if any (has_key key) rows
    then (true, rows)
    else (let live = purge (now / second) rows in (ltb (length live) max_entries, live))

abbrev verified : Option (Option Value) → CacheResult
verified none = raised write_error
verified (some none) = raised write_error
verified (some (some v)) = stored false

module _ (db : DatabaseCache) where
  abbrev added : String → ℕ → Bool × List Row → CacheResult × List Row
  added key now (true, rows) = (stored true, rows)
  added key now (false, rows) = let found = db.get key now rows in (verified found.0, found.1)

  -- `add`
  unfoldable pub add : String → Value → ℕ → ℕ → List Row → CacheResult × List Row
  unfolding can_store
  add key value timeout now rows =
      let physical = db.make_key key in
      let room = can_store db.max_entries physical now rows in
      if room.0
      then added key now (db.base_set cull true physical value timeout now room.1)
      else (raised capacity_error, room.1)

  abbrev was_set : Bool × List Row → CacheResult × List Row
  was_set (true, rows) = (stored true, rows)
  was_set (false, rows) = (raised write_error, rows)

  -- `set`
  unfoldable pub set : String → Value → ℕ → ℕ → List Row → CacheResult × List Row
  unfolding can_store
  set key value timeout now rows =
      let physical = db.make_key key in
      let room = can_store db.max_entries physical now rows in
      if room.0
      then was_set (db.base_set cull false physical value timeout now room.1)
      else (raised capacity_error, room.1)
