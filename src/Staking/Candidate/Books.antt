-- ===== src/Staking/Candidate/Books.antt =====
-- What a candidate keeps of its delegations, `CandidateMetadata` of
-- pallets/parachain-staking/src/types.rs, against the stored delegations.
pub mod Bottom
pub mod Top
pub mod Remove
pub mod Stale
use hackathon_parity_eu.Prelude.{
  ℕ, zero, suc, ◌+◌, ◌-◌, ◌≤◌, ◌<◌, ◌≡◌, refl, ◌^◌, true, false, Bool, Option, none, some, List, [],
  ◌∷◌, length, lookup, nat_key, All, min, arith, if◌then◌else◌, leb, Option-cases, inl, inr, subst,
}
use hackathon_parity_eu.Staking.Bond.{
  Bond, Delegations, last, capacity, saturating_add, lowest_delegation_amount,
  highest_delegation_amount, insert_sorted_greatest_to_least,
}
use hackathon_parity_eu.Staking.Bond.Sorted.{
  IsDescending, sum_amounts, place, sum_amounts-place, length-place,
  insert_sorted_greatest_to_least_lem,
}
use hackathon_parity_eu.Staking.Pallet.{Config, CandidateMetadata, Storage}
use hackathon_parity_eu.Staking.Candidate.Add.{pop}
use hackathon_parity_eu.Staking.Candidate.Remove.{pop_first}

-- Sorted from the greatest to the least, with the sum of the amounts for a total.
pub record IsAccounted (d : Delegations) : Type 0 where
  pub descending : IsDescending d.delegations
  pub summed : d.total ≡ sum_amounts d.delegations

module _ (c : Config) where
  pub record TopBooks (m : CandidateMetadata) (top : Delegations) : Type 0 where
    pub accounted : IsAccounted top
    pub counted : m.total_counted ≡ m.bond + top.total
    pub lowest : m.lowest_top_delegation_amount ≡ lowest_delegation_amount top
    pub capacity_known : m.top_capacity ≡ capacity c.max_top_delegations_per_candidate top
    pub within : length top.delegations ≤ c.max_top_delegations_per_candidate

  pub record BottomBooks (m : CandidateMetadata) (bottom : Delegations) : Type 0 where
    pub accounted : IsAccounted bottom
    pub lowest : m.lowest_bottom_delegation_amount ≡ lowest_delegation_amount bottom
    pub highest : m.highest_bottom_delegation_amount ≡ highest_delegation_amount bottom
    pub capacity_known : m.bottom_capacity ≡ capacity c.max_bottom_delegations_per_candidate bottom
    pub within : length bottom.delegations ≤ c.max_bottom_delegations_per_candidate

saturating_add-small : (a b : ℕ) → a + b ≤ 2 ^ 128 - 1 → saturating_add a b ≡ a + b
unfolding saturating_add
saturating_add-small a b h = omega arith

-- An insertion keeps the account, where the total fits a balance.
pub insert_sorted-IsAccounted :
    (b : Bond) (d : Delegations)
    → IsAccounted d
    → d.total + b.amount ≤ 2 ^ 128 - 1
    → IsAccounted (insert_sorted_greatest_to_least b d)
      × ((insert_sorted_greatest_to_least b d).total ≡ d.total + b.amount)
      × (length (insert_sorted_greatest_to_least b d).delegations ≡ suc (length d.delegations))
insert_sorted-IsAccounted b d a small =
    let (e, sorted) = insert_sorted_greatest_to_least_lem b d a.descending in
    let t = saturating_add-small d.total b.amount small in
    let n = sum_amounts-place b d.delegations in
    let k = length-place b d.delegations in
    rw e (record { descending = sorted; summed = omega (arith, t, n, a.summed) }, t, k)

-- The list without its last bond.
pub pop-sum :
    (l : Bond) (ys xs : List Bond)
    → pop xs ≡ some (l, ys)
    → (last xs ≡ some l)
      × (sum_amounts ys + l.amount ≡ sum_amounts xs)
      × (suc (length ys) ≡ length xs)
unfolding pop sum_amounts
pop-sum l ys [] e = absurd (cc)
pop-sum l ys (x ∷ []) e = ground arith
pop-sum l ys (x ∷ y ∷ zs) e = elim (Option-cases (pop (y ∷ zs))) [
  | inl gone ↦ absurd (ground arith)
  | inr ((l', ws), e') ↦ ground (arith, e', pop-sum l' ws (y ∷ zs) e')
]

pop-All :
    (P : Bond → Type 0) (l : Bond) (ys xs : List Bond) → pop xs ≡ some (l, ys) → All P xs → All P ys
unfolding pop
pop-All P l ys [] e a = absurd (cc)
pop-All P l ys (x ∷ xs) e a = elim (Option-cases (pop xs)) [
  | inl gone ↦ let same : [] ≡ ys = ground arith in subst (All P) same tt
  | inr ((l', ws), e') ↦
      let same : x ∷ ws ≡ ys = ground arith in subst (All P) same (a.0, pop-All P l' ws xs e' a.1)
]

pub pop-IsDescending :
    (l : Bond) (ys xs : List Bond) → pop xs ≡ some (l, ys) → IsDescending xs → IsDescending ys
unfolding pop
pop-IsDescending l ys [] e s = absurd (cc)
pop-IsDescending l ys (x ∷ xs) e s = elim (Option-cases (pop xs)) [
  | inl gone ↦ let same : [] ≡ ys = ground arith in subst IsDescending same tt
  | inr ((l', ws), e') ↦
      let same : x ∷ ws ≡ ys = ground arith in
      subst IsDescending same (
        pop-All (λ (y : Bond). y.amount ≤ x.amount) l' ws xs e' s.0,
        pop-IsDescending l' ws xs e' s.1,
      )
]

-- What is left of an accounted list without its last bond.
pub pop-IsAccounted :
    (l : Bond) (ys : List Bond) (d : Delegations)
    → pop d.delegations ≡ some (l, ys)
    → IsAccounted d
    → IsAccounted (record { delegations = ys; total = d.total - l.amount })
      × (lowest_delegation_amount d ≡ l.amount)
      × (suc (length ys) ≡ length d.delegations)
      × (l.amount ≤ d.total)
unfolding lowest_delegation_amount
pop-IsAccounted l ys d e a =
    let (found, sum, len) = pop-sum l ys d.delegations e in
    let total = a.summed in
    (
      record {
        descending = pop-IsDescending l ys d.delegations e a.descending;
        summed = omega arith;
      },
      ground (arith, found),
      len,
      omega arith,
    )
