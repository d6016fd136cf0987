-- ===== src/Staking/Bond.antt =====
-- `Bond`, `Delegations` and `CapacityStatus` of pallets/parachain-staking/src/types.rs, with the
-- arithmetic of balances (`u128`) and of counts and rounds (`u32`).
pub mod Sorted
use Prim.Native.Nat.{Ordering, compare}
use hackathon_parity_eu.Prelude.{
  ℕ, zero, suc, ◌+◌, ◌-◌, ◌^◌, min, Bool, ltb, leb, ◌==◌, if◌then◌else◌, Option, none, some, List,
  [], ◌∷◌, ◌++◌, length, get_elem?, ok, err,
}
use hackathon_parity_eu.Staking.Search.{binary_search_by, insert_at, sort_by}
use hackathon_parity_eu.Staking.Set.{Ord}

-- `saturating_add` of `u128` and of `u32`; `saturating_sub` of both is `-`, which stops at 0.
unfoldable pub saturating_add : ℕ → ℕ → ℕ
saturating_add a b = min (a + b) (2 ^ 128 - 1)

unfoldable pub saturating_add_u32 : ℕ → ℕ → ℕ
saturating_add_u32 a b = min (a + b) (2 ^ 32 - 1)

pub record Bond : Type 0 where
  pub owner : ℕ
  pub amount : ℕ

-- A bond is ordered and compared by its owner alone.
instance abbrev pub bond_ord : Ord Bond
bond_ord = record { key = λ b. b.owner }

-- `Bond::from_owner`
unfoldable pub from_owner : ℕ → Bond
from_owner owner = record { owner = owner; amount = 0 }

pub data CapacityStatus : Type 0 where
  full empty partial : CapacityStatus

abbrev pub is_full : CapacityStatus → Bool
is_full full = Bool.true
is_full _ = Bool.false

abbrev pub is_empty : CapacityStatus → Bool
is_empty empty = Bool.true
is_empty _ = Bool.false

pub record Delegations : Type 0 where
  pub delegations : List Bond
  pub total : ℕ

-- `Delegations::default`
abbrev pub no_delegations : Delegations
no_delegations = record { delegations = []; total = 0 }

unfoldable pub sort_greatest_to_least : Delegations → Delegations
sort_greatest_to_least d = record d {
  delegations = sort_by (λ a b. ltb b.amount a.amount) d.delegations;
}

abbrev pub last : List Bond → Option Bond
last [] = none
last (x ∷ []) = some x
last (x ∷ y ∷ ys) = last (y ∷ ys)

abbrev pub first : List Bond → Option Bond
first [] = none
first (x ∷ xs) = some x

-- The loop after a match at an index: from `new_index` on, behind the bonds of the same amount. The
-- list is what stands from `new_index` on.
after_equal : Bond → List Bond → List Bond
after_equal d [] = d ∷ []
after_equal d (x ∷ xs) = if x.amount == d.amount then x ∷ after_equal d xs else d ∷ x ∷ xs

-- The insertion behind a match at index `i`.
insert_after : ℕ → Bond → List Bond → List Bond
unfolding after_equal
insert_after i d [] = d ∷ []
insert_after zero d (x ∷ xs) = x ∷ after_equal d xs
insert_after (suc i) d (x ∷ xs) = x ∷ insert_after i d xs

insert_found : Bond → List Bond → List Bond
unfolding insert_after
insert_found d xs = elim (binary_search_by (λ x. compare d.amount x.amount) xs) [
  | ok i ↦ insert_after i d xs
  | err i ↦ insert_at i d xs
]

-- The insertion, with the early return on a last bond of the same amount.
unfoldable pub insert_bond : Bond → List Bond → List Bond
unfolding insert_found
insert_bond d xs = elim (last xs) [
  | none ↦ insert_found d xs
  | some l ↦ if l.amount == d.amount then xs ++ d ∷ [] else insert_found d xs
]

unfoldable pub insert_sorted_greatest_to_least : Bond → Delegations → Delegations
unfolding insert_bond
insert_sorted_greatest_to_least d ds = record {
  delegations = insert_bond d ds.delegations;
  total = saturating_add ds.total d.amount;
}

-- `top_capacity` and `bottom_capacity`, by the limit that each reads.
unfoldable pub capacity : ℕ → Delegations → CapacityStatus
capacity limit ds =
    if leb limit (length ds.delegations)
    then full
    else if length ds.delegations == 0
    then empty
    else partial

abbrev amount_of : Option Bond → ℕ
amount_of none = 0
amount_of (some b) = b.amount

unfoldable pub lowest_delegation_amount : Delegations → ℕ
lowest_delegation_amount ds = amount_of (last ds.delegations)

unfoldable pub highest_delegation_amount : Delegations → ℕ
highest_delegation_amount ds = amount_of (first ds.delegations)
