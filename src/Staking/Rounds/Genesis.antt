-- ===== src/Staking/Rounds/Genesis.antt =====
-- The genesis of pallets/parachain-staking/src/lib.rs, and `initialize_pallet`, which starts the pallet
-- on a running chain.
use hackathon_parity_eu.Prelude.{
  ℕ, Bool, true, false, not, ◌&&◌, leb, ◌==◌, if◌then◌else◌, List, [], ◌∷◌, length, lookup, insert,
  contains_key, elem, StorageMap, nat_key, ok, err, pure, ensure, gets, modify, ◌>>=◌, ◌>>◌,
}
use hackathon_parity_eu.Staking.Bond.{saturating_add_u32}
use hackathon_parity_eu.Staking.Inflation.{InflationInfo}
use hackathon_parity_eu.Staking.Pallet.{
  Config, panic, error, signed, insufficient_balance, pallet_already_initialized,
  not_enough_collators_for_pallet_init, Storage, Action, deposit_event, new_round,
}
use hackathon_parity_eu.Staking.Delegator.{or_default, get_delegator_stakable_free_balance}
use hackathon_parity_eu.Staking.Candidate.{get_collator_stakable_free_balance}
use hackathon_parity_eu.Staking.Calls.{join_candidates}
use hackathon_parity_eu.Staking.Calls.Delegate.{delegate}
use hackathon_parity_eu.Staking.Rounds.{select_top_candidates}

module _ (c : Config) where
  -- What `join_candidates` leaves of the other pallet where it fails: its one write before an error.
  abbrev pub whitelist_after : ℕ → ℕ → Storage c → c.whitelist.Store
  whitelist_after who bond s =
      if not (contains_key who s.candidate_info)
        && (not (contains_key who s.delegator_state)
            && (elem who (c.whitelist.candidates s.whitelist)
                && leb c.min_whitelist_candidate_stk bond))
      then or_default s.whitelist (c.whitelist.leave_intent who s.whitelist)
      else s.whitelist

  -- `join_candidates` with a warning for an error. Whether it joined.
  unfoldable pub try_join : ℕ → ℕ → ℕ → Action c Bool
  try_join who bond count s = elim (join_candidates c (signed who) bond count s) [
    | ok (u, s') ↦ ok (true, s')
    | err e ↦ ok (false, record s { whitelist = whitelist_after who bond s })
  ]

  -- `delegate` with a warning for an error. Whether it delegated.
  unfoldable pub try_delegate : ℕ → ℕ → ℕ → ℕ → ℕ → Action c Bool
  try_delegate delegator target amount cd_count dd_count s =
      elim (delegate c (signed delegator) target amount cd_count dd_count s) [
        | ok (u, s') ↦ ok (true, s')
        | err e ↦ elim e [ panic ↦ err panic | _ ↦ ok (false, s) ]
      ]

  -- The count grows by one before the call and by one after it, unless it fails.
  unfoldable pub build_candidates : List (ℕ × ℕ) → ℕ → Action c (Unit {0})
  unfolding get_collator_stakable_free_balance try_join
  build_candidates [] count = pure tt
  build_candidates ((candidate, balance) ∷ rest) count = do
    free ← gets (get_collator_stakable_free_balance c candidate)
    ensure (leb balance free) panic
    joined ← try_join candidate balance (saturating_add_u32 count 1)
    let count' = saturating_add_u32 count 1
    build_candidates rest (if joined then saturating_add_u32 count' 1 else count')

  abbrev pub count_of : ℕ → StorageMap ℕ ℕ → ℕ
  count_of who counts = or_default 0 (lookup who counts)

  abbrev pub counted_once_more : ℕ → StorageMap ℕ ℕ → StorageMap ℕ ℕ
  counted_once_more who counts = insert who (saturating_add_u32 (count_of who counts) 1) counts

  -- With the counts of the delegators of a candidate and of the delegations of a delegator.
  unfoldable pub build_delegations :
      List (ℕ × ℕ × ℕ) → StorageMap ℕ ℕ → StorageMap ℕ ℕ → Action c (Unit {0})
  unfolding get_delegator_stakable_free_balance try_delegate
  build_delegations [] delegators delegations = pure tt
  build_delegations ((delegator, target, balance) ∷ rest) delegators delegations = do
    free ← gets (get_delegator_stakable_free_balance c delegator)
    ensure (leb balance free) panic
    delegated ←
        try_delegate delegator target balance (count_of target delegators)
          (count_of delegator delegations)
    let delegators' = if delegated then counted_once_more target delegators else delegators
    let delegations' = if delegated then counted_once_more delegator delegations else delegations
    build_delegations rest delegators' delegations'

  -- The end of both: the settings, the first selection and round 1.
  unfoldable pub first_round : ℕ → Action c (Unit {0})
  unfolding select_top_candidates
  first_round starting_block = do
    modify (λ s. record s { collator_commission = c.default_collator_commission })
    modify (λ s. record s {
      parachain_bond_info = record {
        account = c.zero_account;
        percent = c.default_parachain_bond_reserve_percent;
      };
    })
    modify (λ s. record s { total_selected = c.min_selected_candidates })
    (collators, delegations, staked) ← select_top_candidates c 1
    modify (λ s. record s {
      round = record { current = 1; first = starting_block; length = c.default_blocks_per_round };
    })
    modify (λ s. record s { staked = insert 1 s.total s.staked })
    deposit_event (new_round starting_block 1 collators staked)

  -- `GenesisConfig::build`
  unfoldable pub build : InflationInfo → List (ℕ × ℕ) → List (ℕ × ℕ × ℕ) → Action c (Unit {0})
  unfolding build_candidates build_delegations first_round
  build inflation candidates delegations = do
    modify (λ s. record s { inflation_config = inflation })
    build_candidates candidates 0
    build_delegations delegations [] []
    first_round 0

  unfoldable pub initialize_candidates : List ℕ → ℕ → Action c (Unit {0})
  unfolding try_join
  initialize_candidates [] count = pure tt
  initialize_candidates (candidate ∷ rest) count = do
    reserved ← gets (λ s. c.currency.reserved_balance candidate s.ledger)
    ensure (leb c.min_whitelist_candidate_stk reserved) (error insufficient_balance)
    joined ← try_join candidate c.min_whitelist_candidate_stk count
    initialize_candidates rest (if joined then saturating_add_u32 count 1 else count)

  -- With the storage version of the chain before the call; the write of the version is left out.
  unfoldable pub initialize_pallet : ℕ → ℕ → List ℕ → InflationInfo → Action c (Unit {0})
  unfolding initialize_candidates first_round
  initialize_pallet on_chain_version starting_block candidates inflation = do
    ensure (on_chain_version == 0) (error pallet_already_initialized)
    ensure (leb c.min_selected_candidates (length candidates))
        (error not_enough_collators_for_pallet_init)
    modify (λ s. record s { inflation_config = inflation })
    initialize_candidates candidates 0
    first_round starting_block
