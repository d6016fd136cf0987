-- ===== src/Staking/Candidate/Decrease.antt =====
-- `decrease_delegation` of `CandidateMetadata` in pallets/parachain-staking/src/types.rs, and what it
-- calls.
use hackathon_parity_eu.Prelude.{
  ℕ, ◌-◌, Bool, false, not, ◌&&◌, ltb, leb, ◌==◌, if◌then◌else◌, is_some, List, [], ◌∷◌, lookup,
  nat_key, pure, ensure, ok_or, gets, ◌>>=◌, ◌>>◌,
}
use hackathon_parity_eu.Staking.Bond.{
  Bond, is_full, is_empty, Delegations, insert_sorted_greatest_to_least,
}
use hackathon_parity_eu.Staking.Pallet.{
  Config, error, candidate_dne, delegation_dne, CandidateMetadata, Action, expect,
}
use hackathon_parity_eu.Staking.Delegator.{bond_of, without}
use hackathon_parity_eu.Staking.Candidate.{reset_top_data, reset_bottom_data}
use hackathon_parity_eu.Staking.Candidate.Add.{put_top, put_bottom, get_bottom}
use hackathon_parity_eu.Staking.Candidate.Remove.{pop_first, or_if_dne, is_delegation_dne}
use hackathon_parity_eu.Staking.Candidate.Increase.{with_amounts}

-- The total, lowered by each bond of the delegator that the filter drops.
unfoldable pub total_without : ℕ → ℕ → List Bond → ℕ
total_without delegator total [] = total
total_without delegator total (x ∷ xs) =
    total_without delegator (if x.owner == delegator then total - x.amount else total) xs

module _ (c : Config) where
  -- The delegation changes places with the highest of the bottom. The top delegations are given back.
  unfoldable pub swap_with_bottom :
      ℕ → ℕ → ℕ → Delegations → CandidateMetadata → Action c (Delegations × CandidateMetadata)
  unfolding bond_of without total_without pop_first
  swap_with_bottom candidate delegator less top m = do
    amount ← ok_or (bond_of delegator top.delegations) (error delegation_dne)
    let top' : Delegations = record {
      delegations = without delegator top.delegations;
      total = total_without delegator top.total top.delegations;
    }
    bottom ← get_bottom c candidate
    (highest, rest) ← expect (pop_first bottom.delegations)
    let bottom' =
        insert_sorted_greatest_to_least (record { owner = delegator; amount = amount - less })
          (record { delegations = rest; total = bottom.total - highest.amount })
    put_bottom c candidate bottom'
    pure (insert_sorted_greatest_to_least highest top', reset_bottom_data c bottom' m)

  unfoldable pub lower_in_top : ℕ → ℕ → Delegations → Action c Delegations
  unfolding with_amounts bond_of
  lower_in_top delegator less top = do
    ensure (is_some (bond_of delegator top.delegations)) (error delegation_dne)
    pure (with_amounts (λ n. n - less) delegator (top.total - less) top)

  unfoldable pub decrease_top_delegation :
      ℕ → ℕ → ℕ → ℕ → CandidateMetadata → Action c (CandidateMetadata × Bool)
  unfolding swap_with_bottom lower_in_top
  decrease_top_delegation candidate delegator bond less m = do
    let bond_after_less_than_highest_bottom = ltb (bond - less) m.highest_bottom_delegation_amount
    let full_top_and_nonempty_bottom = is_full m.top_capacity && not (is_empty m.bottom_capacity)
    let leaves_top = bond_after_less_than_highest_bottom && full_top_and_nonempty_bottom
    found ← gets (λ s. lookup candidate s.top_delegations)
    top ← ok_or found (error candidate_dne)
    (top', m') ←
        (if leaves_top
          then swap_with_bottom candidate delegator less top m
          else (do top' ← lower_in_top delegator less top; pure (top', m)))
    m'' ← reset_top_data c candidate top' m'
    put_top c candidate top'
    pure (m'', not leaves_top)

  -- The total of the bottom delegations stays as it was.
  unfoldable pub decrease_bottom_delegation :
      ℕ → ℕ → ℕ → CandidateMetadata → Action c (CandidateMetadata × Bool)
  unfolding with_amounts bond_of
  decrease_bottom_delegation candidate delegator less m = do
    bottom ← get_bottom c candidate
    ensure (is_some (bond_of delegator bottom.delegations)) (error delegation_dne)
    let bottom' = with_amounts (λ n. n - less) delegator bottom.total bottom
    put_bottom c candidate bottom'
    pure (reset_bottom_data c bottom' m, false)

  unfoldable pub decrease_delegation :
      ℕ → ℕ → ℕ → ℕ → CandidateMetadata → Action c (CandidateMetadata × Bool)
  unfolding decrease_top_delegation decrease_bottom_delegation is_delegation_dne
  decrease_delegation candidate delegator bond less m =
      let lowest_top_eq_highest_bottom =
        m.lowest_top_delegation_amount == m.highest_bottom_delegation_amount in
      let bond_geq_lowest_top = leb m.lowest_top_delegation_amount bond in
      if bond_geq_lowest_top && not lowest_top_eq_highest_bottom
      then decrease_top_delegation candidate delegator bond less m
      else if bond_geq_lowest_top && lowest_top_eq_highest_bottom
      then or_if_dne c (decrease_top_delegation candidate delegator bond less m)
          (decrease_bottom_delegation candidate delegator less m)
      else decrease_bottom_delegation candidate delegator less m
