-- ===== src/Cache/Tests.antt =====
-- A table that keeps each key's rows, and a run of the cache on it.
use jou_tak_web.Prelude.{
  ℕ, ◌+◌, ◌*◌, ◌/◌, ◌≤◌, String, ◌≡◌, refl, Bool, true, false, ◌&&◌, not, keep_if, any, ltb, length,
  Option, none, some, List, [], ◌∷◌, ◌==◌, leb, arith, eq_iff, if◌then◌else◌, find,
}
use jou_tak_web.Values.{Value, bool, int}
use jou_tak_web.Cache.{second, Row, DatabaseCache, add, set}
use jou_tak_web.Cache.Laws.{is_live, IsDatabaseCache, add-set-keeps}

abbrev is_taken : String → ℕ → List Row → Bool
is_taken key now rows = any (λ (r : Row). r.cache_key == key && leb (now / second) r.expires) rows

-- The eviction runs on a table of more than three rows.
abbrev swept : (ℕ → List Row → List Row) → ℕ → List Row → List Row
swept evict now rows = if ltb 3 (length rows) then evict (now / second) rows else rows

abbrev table_set :
    (ℕ → List Row → List Row) → Bool → String → Value → ℕ → ℕ → List Row → Bool × List Row
table_set evict adds key v timeout now rows =
    let left = swept evict now rows in
    if adds && is_taken key now left
    then (false, left)
    else (true, record { cache_key = key; value = v; expires = now / second + timeout } ∷ left)

abbrev unexpired : String → ℕ → List Row → List Row
unexpired key now rows =
    keep_if (λ (r : Row). not (r.cache_key == key && ltb (r.expires * second) now)) rows

abbrev value_of : Option Row → Option Value
value_of none = none
value_of (some r) = some r.value

abbrev pub table_cache : DatabaseCache
table_cache = record {
  max_entries = 3;
  make_key = λ key. key;
  base_set = table_set;
  get = λ key now rows. (
    some (value_of (find (λ (r : Row). r.cache_key == key) (unexpired key now rows))),
    unexpired key now rows,
  );
}

is_taken-live :
    (key : String) (now : ℕ) (rows : List Row)
    → is_live key now rows ≡ true
    → is_taken key now rows ≡ true
is_taken-live key now [] h = h
is_taken-live key now (r ∷ rows) h = ground (arith, is_taken-live key now rows)

is_live-unexpired :
    (key other : String) (now at : ℕ) (rows : List Row)
    → now ≤ at
    → is_live other at rows ≡ true
    → is_live other at (unexpired key now rows) ≡ true
is_live-unexpired key other now at [] le h = h
is_live-unexpired key other now at (r ∷ rows) le h =
    ground (arith, is_live-unexpired key other now at rows le)

is_live-swept :
    (evict : ℕ → List Row → List Row) (key : String) (now at : ℕ) (rows : List Row)
    → is_live key at rows ≡ true
    → is_live key at (evict (now / second) rows) ≡ true
    → is_live key at (swept evict now rows) ≡ true
is_live-swept evict key now at rows h k = ground arith

pub table_cache-IsDatabaseCache : IsDatabaseCache table_cache
table_cache-IsDatabaseCache = record {
  add_live = λ evict key v timeout now rows h k. ground (
    arith,
    is_taken-live key now (swept evict now rows) (is_live-swept evict key now now rows h k),
  );
  lives = λ evict adds key v timeout now at rows positive h le.
      ground (arith, h, le, (eq_iff key key).1 refl);
  keeps = λ evict adds key v timeout now at rows other le ne h k.
      ground (arith, is_live-swept evict other now at rows h k);
  get_keeps = λ key now at rows other le h. is_live-unexpired key other now at rows le h;
}

-- A full table, with an expired row, at 30.5 seconds.
abbrev rows : List Row
rows =
    record { cache_key = "rate"; value = int 2; expires = 50 }
    ∷ record { cache_key = "old"; value = int 1; expires = 10 }
    ∷ record { cache_key = "nonce"; value = bool true; expires = 20 }
    ∷ record { cache_key = "gone"; value = bool true; expires = 15 }
    ∷ []

add-set-keeps_example :
    (is_live "rate" 40000000 (add table_cache "nonce" (bool true) 20 30500000 rows).1 ≡ true)
    × (is_live "rate" 40000000 (set table_cache "nonce" (bool true) 20 30500000 rows).1 ≡ true)
add-set-keeps_example =
    add-set-keeps table_cache table_cache-IsDatabaseCache "nonce" (bool true) 20 30500000 rows
      40000000 "rate" (omega arith) refl refl
