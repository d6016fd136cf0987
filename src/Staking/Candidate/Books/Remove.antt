-- ===== src/Staking/Candidate/Books/Remove.antt =====
-- `rm_delegation_if_exists` of pallets/parachain-staking/src/types.rs: the candidate's books after it.
use hackathon_parity_eu.Prelude.{
  ℕ, suc, ◌+◌, ◌-◌, ◌≤◌, ◌≡◌, refl, none, some, List, [], ◌∷◌, length, nat_key, All, arith,
}
use hackathon_parity_eu.Staking.Bond.{Bond, Delegations}
use hackathon_parity_eu.Staking.Bond.Sorted.{IsDescending, sum_amounts}
use hackathon_parity_eu.Staking.Delegator.{bond_of, without}
use hackathon_parity_eu.Staking.Candidate.Books.{IsAccounted}

-- No owner has two bonds.
abbrev pub OwnersDistinct : List Bond → Type 0
OwnersDistinct [] = Unit
OwnersDistinct (x ∷ xs) = (bond_of x.owner xs ≡ none) × OwnersDistinct xs

pub without-absent : (owner : ℕ) (xs : List Bond) → bond_of owner xs ≡ none → without owner xs ≡ xs
unfolding bond_of without
without-absent owner [] h = refl
without-absent owner (x ∷ xs) h = ground (arith, without-absent owner xs)

pub without-sum :
    (owner n : ℕ) (xs : List Bond)
    → OwnersDistinct xs
    → bond_of owner xs ≡ some n
    → (sum_amounts (without owner xs) + n ≡ sum_amounts xs)
      × (suc (length (without owner xs)) ≡ length xs)
unfolding bond_of without sum_amounts
without-sum owner n [] d h = absurd (cc)
without-sum owner n (x ∷ xs) d h =
    ground (arith, without-sum owner n xs d.1, without-absent x.owner xs d.0)

without-All :
    (m owner : ℕ) (xs : List Bond)
    → All (λ (y : Bond). y.amount ≤ m) xs
    → All (λ (y : Bond). y.amount ≤ m) (without owner xs)
unfolding without
without-All m owner [] a = tt
without-All m owner (x ∷ xs) a = ground (arith, without-All m owner xs a.1)

without-IsDescending :
    (owner : ℕ) (xs : List Bond) → IsDescending xs → IsDescending (without owner xs)
unfolding without
without-IsDescending owner [] s = tt
without-IsDescending owner (x ∷ xs) s =
    ground (arith, without-IsDescending owner xs s.1, without-All x.amount owner xs s.0)

pub without-IsAccounted :
    (owner n : ℕ) (d : Delegations)
    → IsAccounted d
    → OwnersDistinct d.delegations
    → bond_of owner d.delegations ≡ some n
    → IsAccounted (record { delegations = without owner d.delegations; total = d.total - n })
      × (suc (length (without owner d.delegations)) ≡ length d.delegations)
      × (n ≤ d.total)
without-IsAccounted owner n d a distinct h =
    let (sum, len) = without-sum owner n d.delegations distinct h in
    let total = a.summed in
    (
      record {
        descending = without-IsDescending owner d.delegations a.descending;
        summed = omega arith;
      },
      len,
      omega arith,
    )
