-- ===== src/Prelude/Map.antt =====
-- A storage map as an association list. `insert` puts the new entry in front of a list without the
-- key: the order of the entries of a storage map is not observed by the pallets.
use Prim.Native.Nat.{ℕ, ◌+◌}
use mathlib.Core.Path.{◌≡◌, refl}
use mathlib.Core.Logic.{ite}
use mathlib.Core.Bool.{Bool, true, false, not, ◌&&◌, ◌||◌}
use mathlib.Core.Option.{Option, none, some}
use mathlib.Core.List.{List, [], ◌∷◌}
use native.Mathlib.Omega.{arith}
use native.Mathlib.Decide.{ℕ_discrete}
use hackathon_parity_eu.Prelude.Tests.{is_some, if◌then◌else◌}

-- A type of keys: equality is decided.
pub record Key {ℓ} (K : Type ℓ) : Type ℓ where
  pub dec_eq : Discrete K

abbrev pub StorageMap : Type 0 → Type 0 → Type 0
StorageMap K V = List (K × V)

module _ {K V : Type 0} ⦃key : Key K⦄ where
  abbrev pub lookup : K → StorageMap K V → Option V
  lookup k [] = none
  lookup k ((j, v) ∷ m) = ite (key.dec_eq k j) (some v) (lookup k m)

  abbrev pub contains_key : K → StorageMap K V → Bool
  contains_key k m = is_some (lookup k m)

  abbrev pub remove : K → StorageMap K V → StorageMap K V
  remove k [] = []
  remove k ((j, v) ∷ m) = ite (key.dec_eq k j) (remove k m) ((j, v) ∷ remove k m)

  abbrev pub insert : K → V → StorageMap K V → StorageMap K V
  insert k v m = (k, v) ∷ remove k m

  pub lookup-remove :
      (j k : K) (m : StorageMap K V)
      → lookup j (remove k m) ≡ ite (key.dec_eq j k) none (lookup j m)
  lookup-remove j k [] = ground arith
  lookup-remove j k ((i, v) ∷ m) = ground (arith, lookup-remove j k m)

  pub lookup-insert :
      (j k : K) (v : V) (m : StorageMap K V)
      → lookup j (insert k v m) ≡ ite (key.dec_eq j k) (some v) (lookup j m)
  lookup-insert j k v m = ground (arith, lookup-remove j k m)

  -- The lookups of a map that is known by an equation.
  pub lookup_after_insert :
      (j k : K) (v : V) (m m' : StorageMap K V)
      → m' ≡ insert k v m
      → lookup j m' ≡ ite (key.dec_eq j k) (some v) (lookup j m)
  lookup_after_insert j k v m m' e = rw e (lookup-insert j k v m)

  pub lookup_after_move :
      (j i k : K) (v : V) (m m' : StorageMap K V)
      → m' ≡ insert k v (remove i m)
      → lookup j m' ≡ ite (key.dec_eq j k) (some v) (ite (key.dec_eq j i) none (lookup j m))
  lookup_after_move j i k v m m' e =
      rw e (ground (arith, lookup-insert j k v (remove i m), lookup-remove j i m))

-- The Boolean equality of keys, and of the list of keys.
module _ {ℓ} {K : Type ℓ} ⦃key : Key K⦄ where
  abbrev pub beq : K → K → Bool
  beq a b = ite (key.dec_eq a b) true false

  abbrev pub elem : K → List K → Bool
  elem k [] = false
  elem k (x ∷ xs) = beq k x || elem k xs

module _ {K V : Type 0} ⦃key : Key K⦄ where
  pub contains_key-remove :
      (j k : K) (m : StorageMap K V)
      → contains_key j (remove k m) ≡ (not (beq j k) && contains_key j m)
  contains_key-remove j k m = ground (arith, lookup-remove j k m)

  pub contains_key-insert :
      (j k : K) (v : V) (m : StorageMap K V)
      → contains_key j (insert k v m) ≡ (beq j k || contains_key j m)
  contains_key-insert j k v m = ground (arith, lookup-insert j k v m)

-- Maps whose keys are distinct, and the number of their keys that pass a test.
module _ {K V : Type 0} ⦃key : Key K⦄ where
  abbrev pub Distinct : StorageMap K V → Type 0
  Distinct [] = Unit
  Distinct ((k, v) ∷ m) = (lookup k m ≡ none) × Distinct m

  pub remove-Distinct : (k : K) (m : StorageMap K V) → Distinct m → Distinct (remove k m)
  remove-Distinct k [] d = tt
  remove-Distinct k ((j, v) ∷ m) d = ground (arith, lookup-remove j k m, remove-Distinct k m d.1)

  pub insert-Distinct : (k : K) (v : V) (m : StorageMap K V) → Distinct m → Distinct (insert k v m)
  insert-Distinct k v m d = ground (arith, lookup-remove k k m, remove-Distinct k m d)

  abbrev pub count_keys : (K → Bool) → StorageMap K V → ℕ
  count_keys test [] = 0
  count_keys test ((k, v) ∷ m) = (if test k then 1 else 0) + count_keys test m

  remove_absent : (k : K) (m : StorageMap K V) → lookup k m ≡ none → remove k m ≡ m
  remove_absent k [] h = refl
  remove_absent k ((j, v) ∷ m) h = ground (arith, remove_absent k m)

  pub count_keys-remove :
      (test : K → Bool) (k : K) (m : StorageMap K V)
      → Distinct m
      → count_keys test (remove k m) + (if contains_key k m && test k then 1 else 0)
        ≡ count_keys test m
  count_keys-remove test k [] d = ground arith
  count_keys-remove test k ((j, v) ∷ m) d =
      ground (arith, count_keys-remove test k m d.1, remove_absent k m)

  pub count_keys-insert :
      (test : K → Bool) (k : K) (v : V) (m : StorageMap K V)
      → lookup k m ≡ none
      → count_keys test (insert k v m) ≡ (if test k then 1 else 0) + count_keys test m
  count_keys-insert test k v m h = ground (arith, remove_absent k m)

instance abbrev pub nat_key : Key ℕ
nat_key = record { dec_eq = ℕ_discrete }

unfoldable pub nat_pair_discrete : Discrete (ℕ × ℕ)
nat_pair_discrete = hlevel ℕ_discrete

instance abbrev pub nat_pair_key : Key (ℕ × ℕ)
nat_pair_key = record { dec_eq = nat_pair_discrete }
