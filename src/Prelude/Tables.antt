-- ===== src/Prelude/Tables.antt =====
-- `HashMap<u64, V>` and `HashMap<c_int, V>` of the Rust standard library as an association list: the
-- order of its entries is not observed by the model.
use Prim.Native.Nat.{ℕ}
use mathlib.Core.Path.{◌≡◌, refl, ap, ◌∙◌}
use mathlib.Core.List.{List, [], ◌∷◌}
use mathlib.Core.Option.{Option, none, some}
use native.Mathlib.Omega.{arith}
use pdn_libax.Prelude.Lists.{All}
use pdn_libax.Prelude.Tests.{◌==◌, if◌then◌else◌}

abbrev pub Table {ℓ} : Type ℓ → Type ℓ
Table V = List (ℕ × V)

module _ {ℓ} {V : Type ℓ} where
  -- `get`
  unfoldable pub lookup : ℕ → Table V → Option V
  lookup key [] = none
  lookup key (e ∷ m) = if e.0 == key then some e.1 else lookup key m

  unfoldable pub remove : ℕ → Table V → Table V
  remove key [] = []
  remove key (e ∷ m) = if e.0 == key then remove key m else e ∷ remove key m

  unfoldable pub insert : ℕ → V → Table V → Table V
  unfolding remove
  insert key value m = (key, value) ∷ remove key m

  -- A loop over `values_mut`.
  unfoldable pub map_values : (V → V) → Table V → Table V
  map_values f [] = []
  map_values f ((j, w) ∷ m) = (j, f w) ∷ map_values f m

  -- `if let Some(v) = map.get_mut(&k) { *v = f(v) }`
  unfoldable pub adjust : ℕ → (V → V) → Table V → Table V
  adjust k f [] = []
  adjust k f ((j, w) ∷ m) = if j == k then (j, f w) ∷ m else (j, w) ∷ adjust k f m

  abbrev pub map_some : (V → V) → Option V → Option V
  map_some f none = none
  map_some f (some v) = some (f v)

  pub lookup-remove :
      (k j : ℕ) (m : Table V) → lookup j (remove k m) ≡ (if k == j then none else lookup j m)
  unfolding lookup remove
  lookup-remove k j [] = ground arith
  lookup-remove k j (e ∷ m) = ground (arith, lookup-remove k j m)

  pub lookup-insert :
      (k j : ℕ) (v : V) (m : Table V)
      → lookup j (insert k v m) ≡ (if k == j then some v else lookup j m)
  unfolding lookup insert
  lookup-insert k j v m = ground (arith, lookup-remove k j m)

  pub lookup-map_values :
      (f : V → V) (j : ℕ) (m : Table V) → lookup j (map_values f m) ≡ map_some f (lookup j m)
  unfolding lookup map_values
  lookup-map_values f j [] = refl
  lookup-map_values f j ((i, w) ∷ m) = ground (arith, lookup-map_values f j m)

  pub lookup-adjust :
      (k j : ℕ) (f : V → V) (m : Table V)
      → lookup j (adjust k f m) ≡ (if k == j then map_some f (lookup j m) else lookup j m)
  unfolding lookup adjust
  lookup-adjust k j f [] = ground arith
  lookup-adjust k j f ((i, w) ∷ m) = ground (arith, lookup-adjust k j f m)

  -- No key stands twice, as in every `HashMap`.
  abbrev pub Unique : Table V → Type ℓ
  Unique [] = Unit
  Unique (e ∷ m) = (lookup e.0 m ≡ none) × Unique m

  pub remove-Unique : (k : ℕ) (m : Table V) → Unique m → Unique (remove k m)
  unfolding remove
  remove-Unique k [] u = tt
  remove-Unique k (e ∷ m) u = ground (arith, lookup-remove k e.0 m, remove-Unique k m u.1)

  pub insert-Unique : (k : ℕ) (v : V) (m : Table V) → Unique m → Unique (insert k v m)
  unfolding insert
  insert-Unique k v m u = (ground (arith, lookup-remove k k m), remove-Unique k m u)

  pub adjust-Unique : (k : ℕ) (f : V → V) (m : Table V) → Unique m → Unique (adjust k f m)
  unfolding adjust
  adjust-Unique k f [] u = tt
  adjust-Unique k f ((j, w) ∷ m) u = ground (arith, lookup-adjust k j f m, adjust-Unique k f m u.1)

  pub map_values-Unique : (f : V → V) (m : Table V) → Unique m → Unique (map_values f m)
  unfolding map_values
  map_values-Unique f [] u = tt
  map_values-Unique f ((j, w) ∷ m) u =
      (lookup-map_values f j m ∙ ap (map_some f) u.0, map_values-Unique f m u.1)

  -- A property of every value.
  module _ {κ} (P : V → Type κ) where
    abbrev Holds : ℕ × V → Type κ
    Holds e = P e.1

    pub adjust-All :
        (k : ℕ) (f : V → V) (m : Table V)
        → ((v : V) → P v → P (f v))
        → All Holds m
        → All Holds (adjust k f m)
    unfolding adjust
    adjust-All k f [] keeps all = tt
    adjust-All k f ((j, w) ∷ m) keeps all =
        ground (arith, keeps w all.0, adjust-All k f m keeps all.1)

    pub remove-All : (k : ℕ) (m : Table V) → All Holds m → All Holds (remove k m)
    unfolding remove
    remove-All k [] all = tt
    remove-All k (e ∷ m) all = ground (arith, remove-All k m all.1)

    pub map_values-All :
        (f : V → V) (m : Table V)
        → ((v : V) → P v → P (f v))
        → All Holds m
        → All Holds (map_values f m)
    unfolding map_values
    map_values-All f [] keeps all = tt
    map_values-All f ((j, w) ∷ m) keeps all = (keeps w all.0, map_values-All f m keeps all.1)
