-- ===== src/Staking/Candidate/Remove.antt =====
-- `rm_delegation_if_exists` of pallets/parachain-staking/src/types.rs, and what it calls.
use hackathon_parity_eu.Prelude.{
  ℕ, ◌-◌, Bool, true, false, not, ◌&&◌, ◌||◌, leb, ◌==◌, if◌then◌else◌, Option, none, some, List,
  [], ◌∷◌, ok, err, pure, ok_or, ◌>>=◌, ◌>>◌,
}
use hackathon_parity_eu.Staking.Bond.{
  Bond, is_full, is_empty, Delegations, insert_sorted_greatest_to_least,
}
use hackathon_parity_eu.Staking.Pallet.{
  Config, Fault, error, delegation_dne, CandidateMetadata, Action, expect,
}
use hackathon_parity_eu.Staking.Delegator.{bond_of, without}
use hackathon_parity_eu.Staking.Candidate.{reset_top_data, reset_bottom_data}
use hackathon_parity_eu.Staking.Candidate.Add.{put_top, put_bottom, get_top, get_bottom}

-- `Vec::remove(0)`, which panics on an empty vector.
unfoldable pub pop_first : List Bond → Option (Bond × List Bond)
pop_first [] = none
pop_first (x ∷ xs) = some (x, xs)

-- `result == Err(delegation_dne_err)`
unfoldable pub is_delegation_dne : Fault → Bool
is_delegation_dne (error delegation_dne) = true
is_delegation_dne _ = false

module _ (c : Config) where
  -- The second action where the first returns `DelegationDNE`, which it does before any write.
  abbrev pub or_if_dne : {A : Type 0} → Action c A → Action c A → Action c A
  or_if_dne first second s = elim (first s) [
    | ok r ↦ ok r
    | err e ↦ if is_delegation_dne e then second s else err e
  ]

  -- The bonds without the delegator's, and the total without its amount.
  unfoldable pub take_out : ℕ → Delegations → Action c Delegations
  unfolding bond_of without
  take_out delegator d = do
    actual_amount ← ok_or (bond_of delegator d.delegations) (error delegation_dne)
    pure (record { delegations = without delegator d.delegations; total = d.total - actual_amount })

  -- The highest bottom delegation moves to the given top delegations.
  unfoldable pub bump_highest_bottom :
      ℕ → Delegations → CandidateMetadata → Action c (Delegations × CandidateMetadata)
  unfolding pop_first
  bump_highest_bottom candidate top m = do
    bottom ← get_bottom c candidate
    (highest, rest) ← expect (pop_first bottom.delegations)
    let bottom' : Delegations = record { delegations = rest; total = bottom.total - highest.amount }
    put_bottom c candidate bottom'
    pure (insert_sorted_greatest_to_least highest top, reset_bottom_data c bottom' m)

  -- The metadata, and the flag that the source returns.
  unfoldable pub rm_top_delegation : ℕ → ℕ → CandidateMetadata → Action c (CandidateMetadata × Bool)
  unfolding take_out bump_highest_bottom
  rm_top_delegation candidate delegator m = do
    top ← get_top c candidate
    top' ← take_out delegator top
    (top'', m') ←
        (if is_empty m.bottom_capacity
          then pure (top', m)
          else bump_highest_bottom candidate top' m)
    m'' ← reset_top_data c candidate top'' m'
    put_top c candidate top''
    pure (
      record m'' { delegation_count = m''.delegation_count - 1 },
      m.total_counted == m''.total_counted,
    )

  unfoldable pub rm_bottom_delegation :
      ℕ → ℕ → CandidateMetadata → Action c (CandidateMetadata × Bool)
  unfolding take_out
  rm_bottom_delegation candidate delegator m = do
    bottom ← get_bottom c candidate
    bottom' ← take_out delegator bottom
    put_bottom c candidate bottom'
    let m' = reset_bottom_data c bottom' m
    pure (record m' { delegation_count = m'.delegation_count - 1 }, false)

  unfoldable pub rm_delegation_if_exists :
      ℕ → ℕ → ℕ → CandidateMetadata → Action c (CandidateMetadata × Bool)
  unfolding rm_top_delegation rm_bottom_delegation is_delegation_dne
  rm_delegation_if_exists candidate delegator amount m =
      let amount_geq_lowest_top = leb m.lowest_top_delegation_amount amount in
      let lowest_top_eq_highest_bottom =
        m.lowest_top_delegation_amount == m.highest_bottom_delegation_amount in
      if not (is_full m.top_capacity) || (amount_geq_lowest_top && not lowest_top_eq_highest_bottom)
      then rm_top_delegation candidate delegator m
      else if amount_geq_lowest_top && lowest_top_eq_highest_bottom
      then or_if_dne (rm_top_delegation candidate delegator m)
          (rm_bottom_delegation candidate delegator m)
      else rm_bottom_delegation candidate delegator m
