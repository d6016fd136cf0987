-- ===== src/Staking/Candidate/Increase.antt =====
-- `increase_delegation` of `CandidateMetadata` in pallets/parachain-staking/src/types.rs, and what it
-- calls.
use hackathon_parity_eu.Prelude.{
  ℕ, ◌-◌, Bool, true, not, ◌&&◌, ltb, leb, ◌==◌, if◌then◌else◌, is_some, lookup, nat_key, pure,
  ensure, ok_or, gets, ◌>>=◌, ◌>>◌,
}
use hackathon_parity_eu.Staking.Bond.{
  is_full, capacity, Delegations, saturating_add, insert_sorted_greatest_to_least,
  sort_greatest_to_least,
}
use hackathon_parity_eu.Staking.Pallet.{
  Config, error, candidate_dne, delegation_dne, CandidateMetadata, Action, expect,
}
use hackathon_parity_eu.Staking.Delegator.{bond_of, without, adjusted}
use hackathon_parity_eu.Staking.Candidate.{reset_top_data, reset_bottom_data}
use hackathon_parity_eu.Staking.Candidate.Add.{pop, put_top, put_bottom, get_top}
use hackathon_parity_eu.Staking.Candidate.Remove.{or_if_dne, is_delegation_dne}

-- The amounts of a delegator changed, by `iter().map(...)`, the total given, and the list sorted.
unfoldable pub with_amounts : (ℕ → ℕ) → ℕ → ℕ → Delegations → Delegations
unfolding adjusted
with_amounts f delegator total d =
    sort_greatest_to_least
      (record { delegations = adjusted f delegator d.delegations; total = total })

module _ (c : Config) where
  unfoldable pub increase_top_delegation :
      ℕ → ℕ → ℕ → CandidateMetadata → Action c (CandidateMetadata × Bool)
  unfolding with_amounts
  increase_top_delegation candidate delegator more m = do
    top ← get_top c candidate
    ensure (is_some (bond_of delegator top.delegations)) (error delegation_dne)
    let top' =
        with_amounts (λ n. saturating_add n more) delegator (saturating_add top.total more) top
    m' ← reset_top_data c candidate top' m
    put_top c candidate top'
    pure (m', true)

  -- A full top gives its lowest delegation to the bottom.
  unfoldable pub make_room : Delegations → Delegations → Action c (Delegations × Delegations)
  unfolding pop
  make_room top bottom =
      if is_full (capacity c.max_top_delegations_per_candidate top)
      then (do
        (new_bottom, rest) ← expect (pop top.delegations)
        pure (
          record { delegations = rest; total = top.total - new_bottom.amount },
          insert_sorted_greatest_to_least new_bottom bottom,
        ))
      else pure (top, bottom)

  -- The delegation moves from the bottom to the top. The bottom delegations are given back.
  unfoldable pub raise_from_bottom :
      ℕ → ℕ → ℕ → ℕ → Delegations → CandidateMetadata → Action c (Delegations × CandidateMetadata)
  unfolding make_room bond_of without
  raise_from_bottom candidate delegator bond more bottom m = do
    amount ← ok_or (bond_of delegator bottom.delegations) (error delegation_dne)
    let bottom' : Delegations = record {
      delegations = without delegator bottom.delegations;
      total = bottom.total - bond;
    }
    top ← get_top c candidate
    (top', bottom'') ← make_room top bottom'
    let top'' =
        insert_sorted_greatest_to_least
          (record { owner = delegator; amount = saturating_add amount more }) top'
    m' ← reset_top_data c candidate top'' m
    put_top c candidate top''
    pure (bottom'', m')

  unfoldable pub raise_in_bottom : ℕ → ℕ → Delegations → Action c Delegations
  unfolding with_amounts bond_of
  raise_in_bottom delegator more bottom = do
    ensure (is_some (bond_of delegator bottom.delegations)) (error delegation_dne)
    pure (
        with_amounts (λ n. saturating_add n more) delegator (saturating_add bottom.total more)
          bottom)

  unfoldable pub increase_bottom_delegation :
      ℕ → ℕ → ℕ → ℕ → CandidateMetadata → Action c (CandidateMetadata × Bool)
  unfolding raise_from_bottom raise_in_bottom
  increase_bottom_delegation candidate delegator bond more m = do
    found ← gets (λ s. lookup candidate s.bottom_delegations)
    bottom ← ok_or found (error candidate_dne)
    let in_top_after = ltb m.lowest_top_delegation_amount (saturating_add bond more)
    (bottom', m') ←
        (if in_top_after
          then raise_from_bottom candidate delegator bond more bottom m
          else (do bottom' ← raise_in_bottom delegator more bottom; pure (bottom', m)))
    put_bottom c candidate bottom'
    pure (reset_bottom_data c bottom' m', in_top_after)

  unfoldable pub increase_delegation :
      ℕ → ℕ → ℕ → ℕ → CandidateMetadata → Action c (CandidateMetadata × Bool)
  unfolding increase_top_delegation increase_bottom_delegation is_delegation_dne
  increase_delegation candidate delegator bond more m =
      let lowest_top_eq_highest_bottom =
        m.lowest_top_delegation_amount == m.highest_bottom_delegation_amount in
      let bond_geq_lowest_top = leb m.lowest_top_delegation_amount bond in
      if bond_geq_lowest_top && not lowest_top_eq_highest_bottom
      then increase_top_delegation candidate delegator more m
      else if bond_geq_lowest_top && lowest_top_eq_highest_bottom
      then or_if_dne c (increase_top_delegation candidate delegator more m)
          (increase_bottom_delegation candidate delegator bond more m)
      else increase_bottom_delegation candidate delegator bond more m
