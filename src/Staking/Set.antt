-- ===== src/Staking/Set.antt =====
-- `OrderedSet` of pallets/parachain-staking/src/set.rs, a vector that is kept sorted. An element is
-- compared by the number that `Ord.key` gives: an account id is one number, most significant byte
-- first, and a bond compares by its owner.
pub mod Laws
use Prim.Native.Nat.{compare}
use hackathon_parity_eu.Prelude.{
  ℕ, Bool, true, false, ltb, ◌==◌, if◌then◌else◌, List, [], ◌∷◌, length, ok, err,
}
use hackathon_parity_eu.Staking.Search.{binary_search_by, insert_at, remove_at, sort_by}

pub record Ord (A : Type 0) : Type 0 where
  pub key : A → ℕ

instance abbrev pub nat_ord : Ord ℕ
nat_ord = record { key = λ n. n }

pub record OrderedSet (A : Type 0) : Type 0 where
  pub elements : List A

module _ {A : Type 0} ⦃o : Ord A⦄ where
  pub new : OrderedSet A
  new = record { elements = [] }

  -- `Vec::dedup`: of consecutive equal elements the first stays.
  dedup_after : A → List A → List A
  dedup_after x [] = []
  dedup_after x (y ∷ ys) = if o.key x == o.key y then dedup_after x ys else y ∷ dedup_after y ys

  dedup : List A → List A
  unfolding dedup_after
  dedup [] = []
  dedup (x ∷ xs) = x ∷ dedup_after x xs

  unfoldable pub from_sorted_set : List A → OrderedSet A
  from_sorted_set v = record { elements = v }

  unfoldable pub from : List A → OrderedSet A
  unfolding dedup sort_by from_sorted_set
  from v = from_sorted_set (dedup (sort_by (λ a b. ltb (o.key a) (o.key b)) v))

  unfoldable pub insert : A → OrderedSet A → OrderedSet A × Bool
  insert value s = elim (binary_search_by (λ x. compare (o.key x) (o.key value)) s.elements) [
    | ok i ↦ (s, false)
    | err i ↦ (record { elements = insert_at i value s.elements }, true)
  ]

  unfoldable pub remove : A → OrderedSet A → OrderedSet A × Bool
  remove value s = elim (binary_search_by (λ x. compare (o.key x) (o.key value)) s.elements) [
    | ok i ↦ (record { elements = remove_at i s.elements }, true)
    | err i ↦ (s, false)
  ]

  unfoldable pub contains : A → OrderedSet A → Bool
  contains value s = elim (binary_search_by (λ x. compare (o.key x) (o.key value)) s.elements) [
    | ok i ↦ true
    | err i ↦ false
  ]

  pub clear : OrderedSet A → OrderedSet A
  clear s = record { elements = [] }

  unfoldable pub len : OrderedSet A → ℕ
  len s = length s.elements
