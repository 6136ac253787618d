-- ===== src/Prelude/Maps.antt =====
-- Go's `map[string]string` as an association list. The program never depends on the order of
-- iteration over a map.
use Prim.Native.String.{String}
use mathlib.Core.Path.{◌≡◌, refl}
use mathlib.Core.Bool.{Bool, true, false}
use mathlib.Core.Option.{Option, none, some}
use mathlib.Core.List.{List, [], ◌∷◌}
use native.Mathlib.Omega.{arith}
use text.Mathlib.Text.{◌==◌}
use text.Mathlib.TextEquality.{eq_iff}
use iapetos.Prelude.Tests.{if◌then◌else◌, Bool-cases}
use mathlib.Core.Logic.{inl, inr}

abbrev pub StringMap : Type 0
StringMap = List (String × String)

unfoldable pub lookup : String → StringMap → Option String
lookup key [] = none
lookup key (entry ∷ rest) = if entry.0 == key then some entry.1 else lookup key rest

-- `m[key] = value`
unfoldable pub insert : String → String → StringMap → StringMap
insert key value [] = (key, value) ∷ []
insert key value (entry ∷ rest) =
    let inserted = insert key value rest in
    if entry.0 == key then (key, value) ∷ rest else entry ∷ inserted

-- `_, ok := m[k]`
abbrev pub contains : String → StringMap → Bool
contains k m = elim (lookup k m) [ none ↦ false | some _ ↦ true ]

-- `m[k]`, which is the empty string where the key is missing.
abbrev pub value_at : String → StringMap → String
value_at k m = elim (lookup k m) [ none ↦ "" | some v ↦ v ]

-- A map that may be nil; reading a nil map finds nothing.
abbrev pub or_empty : Option StringMap → StringMap
or_empty none = []
or_empty (some m) = m

pub lookup-insert :
    (key other value : String) (m : StringMap)
    → lookup other (insert key value m) ≡ (if key == other then some value else lookup other m)
unfolding lookup insert
lookup-insert key other value [] = refl
lookup-insert key other value (entry ∷ rest) = elim (Bool-cases (entry.0 == key)) [
  | inl same ↦
      let e : entry.0 ≡ key = ground (arith, eq_iff entry.0 key, same) in ground (arith, same, e)
  | inr different ↦ ground (
    arith,
    different,
    eq_iff key other,
    eq_iff entry.0 key,
    eq_iff entry.0 other,
    lookup-insert key other value rest,
  )
]

pub lookup-insert_self :
    (key value : String) (m : StringMap) → lookup key (insert key value m) ≡ some value
lookup-insert_self key value m = ground (arith, lookup-insert key key value m, eq_iff key key)
