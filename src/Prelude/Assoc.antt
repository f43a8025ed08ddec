-- ===== src/Prelude/Assoc.antt =====
-- Dictionaries with text keys, in the order in which the keys came in.
use mathlib.Core.Path.{◌≡◌, refl, subst}
use mathlib.Core.Bool.{Bool, true, false}
use mathlib.Core.List.{List, [], ◌∷◌}
use mathlib.Core.Option.{Option, none, some}
use native.Mathlib.Omega.{arith}
use Prim.Native.String.{String}
use text.Mathlib.Text.{◌==◌}
use text.Mathlib.TextEquality.{eq_iff}
use jou_tak_web.Prelude.Tests.{if◌then◌else◌, some-injective}

abbrev pub Dict {ℓ} : Type ℓ → Type ℓ
Dict V = List (String × V)

-- `d[key] = value`: the entry of the key is replaced where it stands, a new one is the last.
unfoldable pub insert {ℓ} : {V : Type ℓ} → String → V → Dict V → Dict V
insert key value [] = (key, value) ∷ []
insert key value (entry ∷ entries) =
    let others = entry ∷ insert key value entries in
    if key == entry.0 then (entry.0, value) ∷ entries else others

-- `d.get(key)`
unfoldable pub lookup {ℓ} : {V : Type ℓ} → String → Dict V → Option V
lookup key [] = none
lookup key (entry ∷ entries) =
    let later = lookup key entries in if entry.0 == key then some entry.1 else later

-- A key that was written reads the new value, every other key what it read before.
pub lookup-insert {ℓ} :
    {V : Type ℓ} (written read : String) (value : V) (entries : Dict V)
    → lookup read (insert written value entries)
      ≡ (if written == read then some value else lookup read entries)
unfolding insert lookup
lookup-insert written read value [] = refl
lookup-insert written read value (entry ∷ entries) =
    let ih = lookup-insert written read value entries in
    ground (arith, ih, eq_iff written entry.0, eq_iff entry.0 read, eq_iff written read)

first {ℓ κ} :
    {V : Type ℓ} (P : V → Type κ) (test : Bool) (here : V) (later : Option V) (value : V)
    → P here
    → (later ≡ some value → P value)
    → (if test then some here else later) ≡ some value
    → P value
first P true here later value holds rest h = subst P (some-injective here value h) holds
first P false here later value holds rest h = rest h

-- What holds of all the values holds of one that is looked up.
abbrev pub AllValues {ℓ κ} : {V : Type ℓ} → (V → Type κ) → Dict V → Type κ
AllValues P [] = Unit
AllValues P (entry ∷ entries) = P entry.1 × AllValues P entries

pub lookup-AllValues {ℓ κ} :
    {V : Type ℓ} (P : V → Type κ) (key : String) (entries : Dict V) (value : V)
    → AllValues P entries
    → lookup key entries ≡ some value
    → P value
unfolding lookup
lookup-AllValues P key [] value all h = cc
lookup-AllValues P key (entry ∷ entries) value all h =
    first P (entry.0 == key) entry.1 (lookup key entries) value all.0
      (λ later. lookup-AllValues P key entries value all.1 later) h
