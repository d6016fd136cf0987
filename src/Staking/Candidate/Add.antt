-- ===== src/Staking/Candidate/Add.antt =====
-- `add_delegation` of pallets/parachain-staking/src/types.rs, and what it calls.
use hackathon_parity_eu.Prelude.{
  ℕ, ◌-◌, Bool, true, false, not, ltb, ◌==◌, if◌then◌else◌, Option, none, some, is_some, List, [],
  ◌∷◌, length, lookup, insert, remove, nat_key, pure, ensure, gets, modify, only_if, ◌>>=◌, ◌>>◌,
}
use hackathon_parity_eu.Staking.Set as Set
use hackathon_parity_eu.Staking.Bond.{
  Bond, bond_ord, is_full, Delegations, saturating_add_u32, insert_sorted_greatest_to_least,
}
use hackathon_parity_eu.Staking.Pallet.{
  Config, error, cannot_delegate_less_than_or_equal_to_lowest_bottom_when_full, CandidateMetadata,
  DelegatorAdded, added_to_top, added_to_bottom, Action, deposit_event, expect, delegation_kicked,
  delegator_left,
}
use hackathon_parity_eu.Staking.Delegator.{rm_delegation, delegation_remove_request_with_state}
use hackathon_parity_eu.Staking.Candidate.{reset_top_data, reset_bottom_data}

-- `Vec::pop`: the last bond and the others.
unfoldable pub pop : List Bond → Option (Bond × List Bond)
pop [] = none
pop (x ∷ xs) = elim (pop xs) [ none ↦ some (x, []) | some (l, ys) ↦ some (l, x ∷ ys) ]

module _ (c : Config) where
  abbrev pub put_top : ℕ → Delegations → Action c (Unit {0})
  put_top candidate d =
      modify (λ s. record s { top_delegations = insert candidate d s.top_delegations })

  abbrev pub put_bottom : ℕ → Delegations → Action c (Unit {0})
  put_bottom candidate d =
      modify (λ s. record s { bottom_delegations = insert candidate d s.bottom_delegations })

  abbrev pub get_top : ℕ → Action c Delegations
  get_top candidate = do found ← gets (λ s. lookup candidate s.top_delegations); expect found

  abbrev pub get_bottom : ℕ → Action c Delegations
  get_bottom candidate = do found ← gets (λ s. lookup candidate s.bottom_delegations); expect found

  -- The lowest bottom delegation leaves its delegator.
  unfoldable pub kick : ℕ → Bond → Action c (Unit {0})
  unfolding rm_delegation delegation_remove_request_with_state
  kick candidate lowest = do
    found ← gets (λ s. lookup lowest.owner s.delegator_state)
    state ← expect found
    (state', remaining) ← rm_delegation c candidate state
    state'' ← delegation_remove_request_with_state c candidate lowest.owner state'
    deposit_event (delegation_kicked lowest.owner candidate lowest.amount)
    if Set.len state.delegations == 1
        then (do
          modify (λ s. record s { delegator_state = remove lowest.owner s.delegator_state })
          deposit_event (delegator_left lowest.owner lowest.amount))
        else modify
            (λ s. record s { delegator_state = insert lowest.owner state'' s.delegator_state })

  -- A full list of bottom delegations without its lowest.
  unfoldable pub kick_lowest : ℕ → Delegations → Action c Delegations
  unfolding pop kick
  kick_lowest candidate bottom = do
    (lowest, rest) ← expect (pop bottom.delegations)
    kick candidate lowest
    pure (record { delegations = rest; total = bottom.total - lowest.amount })

  unfoldable pub add_bottom_delegation :
      Bool → ℕ → Bond → CandidateMetadata → Action c CandidateMetadata
  unfolding kick_lowest
  add_bottom_delegation bumped_from_top candidate delegation m = do
    bottom ← get_bottom candidate
    let at_limit = length bottom.delegations == c.max_bottom_delegations_per_candidate
    bottom' ← (if at_limit then kick_lowest candidate bottom else pure bottom)
    let increase_delegation_count = (if at_limit then false else not bumped_from_top)
    let count =
        (if increase_delegation_count
          then saturating_add_u32 m.delegation_count 1
          else m.delegation_count)
    let bottom'' = insert_sorted_greatest_to_least delegation bottom'
    put_bottom candidate bottom''
    pure (reset_bottom_data c bottom'' (record m { delegation_count = count }))

  -- The top delegations and the metadata after the lowest top delegation has been bumped to the
  -- bottom, and the amount of a bottom delegation that was kicked.
  unfoldable pub bump_lowest_top :
      ℕ → Delegations → CandidateMetadata → Action c (Delegations × CandidateMetadata × Option ℕ)
  unfolding pop add_bottom_delegation
  bump_lowest_top candidate top m = do
    (new_bottom, rest) ← expect (pop top.delegations)
    m' ← add_bottom_delegation true candidate new_bottom m
    let less_total_staked =
        (if is_full m.bottom_capacity then some m.lowest_bottom_delegation_amount else none)
    pure (
      record { delegations = rest; total = top.total - new_bottom.amount },
      m',
      less_total_staked,
    )

  unfoldable pub add_top_delegation :
      ℕ → Bond → CandidateMetadata → Action c (CandidateMetadata × Option ℕ)
  unfolding bump_lowest_top
  add_top_delegation candidate delegation m = do
    top ← get_top candidate
    (top', m', less_total_staked) ←
        (if length top.delegations == c.max_top_delegations_per_candidate
          then bump_lowest_top candidate top m
          else pure (top, m, none))
    let top'' = insert_sorted_greatest_to_least delegation top'
    m'' ← reset_top_data c candidate top'' m'
    let count =
        (if is_some less_total_staked
          then m''.delegation_count
          else saturating_add_u32 m''.delegation_count 1)
    put_top candidate top''
    pure (record m'' { delegation_count = count }, less_total_staked)

  -- A delegation below the lowest of a full top.
  unfoldable pub add_below_top :
      ℕ → Bond → CandidateMetadata → Action c (CandidateMetadata × DelegatorAdded × Option ℕ)
  unfolding add_bottom_delegation
  add_below_top candidate delegation m = do
    only_if (is_full m.bottom_capacity) (
        ensure (ltb m.lowest_bottom_delegation_amount delegation.amount)
          (error cannot_delegate_less_than_or_equal_to_lowest_bottom_when_full))
    let less_total_staked =
        (if is_full m.bottom_capacity then some m.lowest_bottom_delegation_amount else none)
    m' ← add_bottom_delegation false candidate delegation m
    pure (m', added_to_bottom, less_total_staked)

  -- The metadata, the place of the delegation, and the amount of a delegation that was kicked.
  unfoldable pub add_delegation :
      ℕ → Bond → CandidateMetadata → Action c (CandidateMetadata × DelegatorAdded × Option ℕ)
  unfolding add_top_delegation add_below_top
  add_delegation candidate delegation m =
      if is_full m.top_capacity
      then (if ltb m.lowest_top_delegation_amount delegation.amount
          then (do
            (m', less_total_staked) ← add_top_delegation candidate delegation m
            pure (m', added_to_top m'.total_counted, less_total_staked))
          else add_below_top candidate delegation m)
      else (do
        (m', less_total_staked) ← add_top_delegation candidate delegation m
        pure (m', added_to_top m'.total_counted, none))
