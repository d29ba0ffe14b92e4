-- ===== src/Prelude/Assoc.antt =====
-- Go's maps, as association lists. A map of the program never holds a key twice; a loop over a map
-- runs in the order of the list, where Go leaves the order open.
use Prim.Native.Nat.{◌+◌}
use mathlib.Core.Path.{◌≡◌, refl}
use mathlib.Core.Option.{Option, none, some}
use mathlib.Core.List.{List, [], ◌∷◌}
use native.Mathlib.Omega.{arith}
use elp.Prelude.Tests.{if◌then◌else◌}
use elp.Prelude.Lists.{length}
use elp.Prelude.Eq.{Comparable, ◌==◌, beq_refl}

abbrev pub Map {ℓ κ} : Type ℓ → Type κ → Type (ℓ ⊔ κ)
Map K V = List (K × V)

module _ {ℓ κ} {K : Type ℓ} {V : Type κ} ⦃e : Comparable K⦄ where
  -- `m[key]`, with the `ok` of its second result.
  unfoldable pub lookup : K → Map K V → Option V
  lookup key [] = none
  lookup key ((first, val) ∷ rest) =
      let later = lookup key rest in if first == key then some val else later

  -- `m[key] = val`
  unfoldable pub insert : K → V → Map K V → Map K V
  insert key val [] = (key, val) ∷ []
  insert key val ((first, old) ∷ rest) =
      let kept = (first, old) ∷ insert key val rest in
      if first == key then (key, val) ∷ rest else kept

  -- `delete(m, k)`
  unfoldable pub delete : K → Map K V → Map K V
  delete k [] = []
  delete k ((j, w) ∷ m) = let rest = delete k m in if j == k then rest else (j, w) ∷ rest

  pub lookup-delete :
      (k j : K) (m : Map K V) → lookup j (delete k m) ≡ (if k == j then none else lookup j m)
  unfolding lookup delete
  lookup-delete k j [] = ground arith
  lookup-delete k j ((i, w) ∷ m) =
      ground (arith, e.equal_iff k j, e.equal_iff i k, e.equal_iff i j, lookup-delete k j m)

  -- An insertion is seen at its own key, and only there.
  pub lookup-insert :
      (key other : K) (val : V) (table : Map K V)
      → lookup other (insert key val table)
        ≡ (if key == other then some val else lookup other table)
  unfolding insert lookup
  lookup-insert key other val [] = refl
  lookup-insert key other val ((first, old) ∷ rest) =
      let inner = lookup-insert key other val rest in
      ground (arith, inner, e.equal_iff first other, e.equal_iff first key, e.equal_iff key other)

  pub length-insert_new :
      (k : K) (v : V) (m : Map K V) → lookup k m ≡ none → length (insert k v m) ≡ length m + 1
  unfolding lookup insert
  length-insert_new k v [] h = refl
  length-insert_new k v ((j, w) ∷ m) h = ground (arith, length-insert_new k v m)

  pub lookup-insert_self : (k : K) (v : V) (m : Map K V) → lookup k (insert k v m) ≡ some v
  lookup-insert_self k v m = simp (lookup-insert, beq_refl)

-- No key stands twice.
abbrev pub Distinct {ℓ κ} : {K : Type ℓ} {V : Type κ} ⦃e : Comparable K⦄ → Map K V → Type κ
Distinct [] = Unit
Distinct ((k, v) ∷ m) = (lookup k m ≡ none) × Distinct m

module _ {ℓ κ} {K : Type ℓ} {V : Type κ} ⦃e : Comparable K⦄ where
  pub Distinct-insert : (k : K) (v : V) (m : Map K V) → Distinct m → Distinct (insert k v m)
  unfolding insert lookup
  Distinct-insert k v [] h = (refl, tt)
  Distinct-insert k v ((j, w) ∷ m) h =
      ground (arith, e.equal_iff j k, e.equal_iff k j, lookup-insert k j v m, Distinct-insert k v m)

  pub Distinct-delete : (k : K) (m : Map K V) → Distinct m → Distinct (delete k m)
  unfolding delete
  Distinct-delete k [] h = tt
  Distinct-delete k ((j, w) ∷ m) h =
      ground (arith, e.equal_iff k j, lookup-delete k j m, Distinct-delete k m)

pub ruleset map_laws = (lookup-insert, lookup-delete)
