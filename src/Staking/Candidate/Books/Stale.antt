-- ===== src/Staking/Candidate/Books/Stale.antt =====
-- `decrease_bottom_delegation` of pallets/parachain-staking/src/types.rs and the total of the bottom.
use hackathon_parity_eu.Prelude.{
  ℕ, ◌+◌, ◌-◌, ◌≤◌, ◌≡◌, refl, false, none, some, List, [], ◌∷◌, lookup, insert, nat_key, arith, ok,
}
use hackathon_parity_eu.Staking.Bond.{Bond, Delegations, sort_greatest_to_least}
use hackathon_parity_eu.Staking.Bond.Sorted.{sum_amounts, sort_by-sum}
use hackathon_parity_eu.Staking.Pallet.{Config, CandidateMetadata, Storage}
use hackathon_parity_eu.Staking.Delegator.{bond_of, adjusted}
use hackathon_parity_eu.Staking.Candidate.{reset_bottom_data}
use hackathon_parity_eu.Staking.Candidate.Increase.{with_amounts}
use hackathon_parity_eu.Staking.Candidate.Decrease.{decrease_bottom_delegation}
use hackathon_parity_eu.Staking.Candidate.Books.Remove.{OwnersDistinct}

adjusted-absent :
    (f : ℕ → ℕ) (owner : ℕ) (xs : List Bond) → bond_of owner xs ≡ none → adjusted f owner xs ≡ xs
unfolding bond_of adjusted
adjusted-absent f owner [] h = refl
adjusted-absent f owner (x ∷ xs) h = ground (arith, adjusted-absent f owner xs)

adjusted-sum :
    (owner less n : ℕ) (xs : List Bond)
    → OwnersDistinct xs
    → bond_of owner xs ≡ some n
    → less ≤ n
    → sum_amounts (adjusted (λ k. k - less) owner xs) + less ≡ sum_amounts xs
unfolding bond_of adjusted sum_amounts
adjusted-sum owner less n [] d h le = absurd (cc)
adjusted-sum owner less n (x ∷ xs) d h le =
    ground (arith, adjusted-sum owner less n xs d.1, adjusted-absent (λ k. k - less) x.owner xs d.0)

module _ (c : Config) where
  -- A decrease of a bottom delegation succeeds and stores a total that no longer is the sum: it stays as
  -- it was, while the amounts lose the decrease. This holds where the total was the sum, no delegator
  -- stands twice in the bottom, and the decrease is at most the delegation.
  pub decrease_bottom_delegation-stale :
      (candidate delegator less n : ℕ) (m : CandidateMetadata) (bottom : Delegations)
      (s : Storage c)
      → lookup candidate s.bottom_delegations ≡ some bottom
      → bottom.total ≡ sum_amounts bottom.delegations
      → OwnersDistinct bottom.delegations
      → bond_of delegator bottom.delegations ≡ some n
      → less ≤ n
      → (m' : CandidateMetadata) × (s' : Storage c) × (bottom' : Delegations)
        × (decrease_bottom_delegation c candidate delegator less m s ≡ ok ((m', false), s'))
        × (lookup candidate s'.bottom_delegations ≡ some bottom')
        × (bottom'.total ≡ bottom.total)
        × (sum_amounts bottom'.delegations + less ≡ bottom'.total)
  unfolding decrease_bottom_delegation with_amounts sort_greatest_to_least
  decrease_bottom_delegation-stale candidate delegator less n m bottom s found summed distinct e
        le =
      let bottom' : Delegations = with_amounts (λ k. k - less) delegator bottom.total bottom in
      (
        reset_bottom_data c bottom' m,
        record s { bottom_delegations = insert candidate bottom' s.bottom_delegations },
        bottom',
        ground (arith, found, e),
        ground arith,
        refl,
        omega (
          arith,
          sort_by-sum (adjusted (λ k. k - less) delegator bottom.delegations),
          adjusted-sum delegator less n bottom.delegations distinct e le,
        ),
      )
