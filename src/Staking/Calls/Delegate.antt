-- ===== src/Staking/Calls/Delegate.antt =====
-- pallets/parachain-staking/src/lib.rs: the calls of delegators, with `increase_delegation` of
-- `Delegator` in src/types.rs.
use hackathon_parity_eu.Prelude.{
  ℕ, ◌-◌, not, ◌&&◌, ltb, leb, ◌==◌, Option, none, some, lookup, contains_key, nat_key, pure,
  ensure, ok_or, gets, modify, only_if, ◌>>=◌, ◌>>◌,
}
use hackathon_parity_eu.Staking.Set as Set
use hackathon_parity_eu.Staking.Bond.{bond_ord, saturating_add}
use hackathon_parity_eu.Staking.Pallet.{
  Origin, Config, error, delegation_dne, candidate_exists, insufficient_balance,
  delegator_bond_below_min, delegation_below_min, exceed_max_delegations_per_delegator,
  already_delegated_candidate, too_low_delegation_count_to_delegate,
  too_low_candidate_delegation_count_to_delegate, pending_delegation_revoke, Delegator, Action,
  deposit_event, delegation_increased, delegation,
}
use hackathon_parity_eu.Staking.Delegator.{
  get_bond_amount, new, add_delegation, increase, adjust_bond_lock,
  get_delegator_stakable_free_balance, delegation_request_revoke_exists,
}
use hackathon_parity_eu.Staking.Candidate.{is_active, update_active}
use hackathon_parity_eu.Staking.Candidate.Add as Add
use hackathon_parity_eu.Staking.Candidate.Increase as Increase
use hackathon_parity_eu.Staking.Requests.{
  adjust_first, get_state, put_state, delegation_schedule_revoke, delegation_schedule_bond_decrease,
  delegation_cancel_request, delegation_execute_scheduled_request,
}
use hackathon_parity_eu.Staking.Requests.Exit.{
  delegator_schedule_revoke_all, delegator_cancel_scheduled_revoke_all,
  delegator_execute_scheduled_revoke_all,
}
use hackathon_parity_eu.Staking.Calls.{ensure_signed, get_candidate, put_candidate, signer}

module _ (c : Config) where
  -- A delegation after the first one.
  unfoldable pub delegate_again : ℕ → ℕ → ℕ → Delegator → Action c Delegator
  unfolding add_delegation
  delegate_again candidate amount delegation_count state = do
    ensure (leb c.min_delegation amount) (error delegation_below_min)
    ensure (leb (Set.len state.delegations) delegation_count)
        (error too_low_delegation_count_to_delegate)
    ensure (ltb (Set.len state.delegations) c.max_delegations_per_delegator)
        (error exceed_max_delegations_per_delegator)
    let (state', added) = add_delegation (record { owner = candidate; amount = amount }) state
    ensure added (error already_delegated_candidate)
    pure state'

  unfoldable pub delegate_first : ℕ → ℕ → ℕ → Action c Delegator
  delegate_first delegator candidate amount = do
    ensure (leb c.min_delegator_stk amount) (error delegator_bond_below_min)
    is_candidate ← gets (λ s. contains_key delegator s.candidate_info)
    ensure (not is_candidate) (error candidate_exists)
    pure (new delegator candidate amount)

  abbrev net_increase : ℕ → Option ℕ → ℕ
  net_increase amount none = amount
  net_increase amount (some less) = amount - less

  unfoldable pub delegate : Origin → ℕ → ℕ → ℕ → ℕ → Action c (Unit {0})
  unfolding signer get_delegator_stakable_free_balance delegate_again delegate_first
      adjust_bond_lock
  delegate origin candidate amount candidate_delegation_count delegation_count = do
    delegator ← ensure_signed c origin
    free ← gets (get_delegator_stakable_free_balance c delegator)
    ensure (leb amount free) (error insufficient_balance)
    found ← gets (λ s. lookup delegator s.delegator_state)
    state ← elim found [
      | some d ↦ delegate_again candidate amount delegation_count d
      | none ↦ delegate_first delegator candidate amount
    ]
    m ← get_candidate c candidate
    ensure (leb m.delegation_count candidate_delegation_count)
        (error too_low_candidate_delegation_count_to_delegate)
    (m', delegator_position, less_total_staked) ←
        Add.add_delegation c candidate (record { owner = delegator; amount = amount }) m
    adjust_bond_lock c (increase amount) state
    modify
        (λ s. record s { total = saturating_add s.total (net_increase amount less_total_staked) })
    put_candidate c candidate m'
    put_state c delegator state
    deposit_event (delegation delegator amount candidate delegator_position)

  -- `increase_delegation` of the delegator's state.
  unfoldable pub increase_delegation : ℕ → ℕ → Delegator → Action c (Unit {0})
  unfolding get_bond_amount adjust_first adjust_bond_lock is_active update_active
  increase_delegation candidate more d = do
    before_amount ← ok_or (get_bond_amount candidate d) (error delegation_dne)
    let d' = record d {
      delegations =
          Set.from_sorted_set
            (adjust_first (λ n. saturating_add n more) candidate d.delegations.elements);
      total = saturating_add d.total more;
    }
    adjust_bond_lock c (increase more) d'
    m ← get_candidate c candidate
    (m', in_top) ← Increase.increase_delegation c candidate d.id before_amount more m
    only_if (is_active m' && not (m.total_counted == m'.total_counted))
        (update_active c candidate m'.total_counted)
    put_candidate c candidate m'
    modify (λ s. record s { total = saturating_add s.total more })
    put_state c d.id d'
    deposit_event (delegation_increased d.id candidate more in_top)

  unfoldable pub delegator_bond_more : Origin → ℕ → ℕ → Action c (Unit {0})
  unfolding signer delegation_request_revoke_exists increase_delegation
  delegator_bond_more origin candidate more = do
    delegator ← ensure_signed c origin
    revoked ← gets (delegation_request_revoke_exists c candidate delegator)
    ensure (not revoked) (error pending_delegation_revoke)
    state ← get_state c delegator
    increase_delegation candidate more state

  unfoldable pub schedule_leave_delegators : Origin → Action c (Unit {0})
  unfolding signer
  schedule_leave_delegators origin = do
    delegator ← ensure_signed c origin
    delegator_schedule_revoke_all c delegator

  unfoldable pub execute_leave_delegators : Origin → ℕ → ℕ → Action c (Unit {0})
  unfolding signer
  execute_leave_delegators origin delegator delegation_count = do
    caller ← ensure_signed c origin
    delegator_execute_scheduled_revoke_all c delegator delegation_count

  unfoldable pub cancel_leave_delegators : Origin → Action c (Unit {0})
  unfolding signer
  cancel_leave_delegators origin = do
    delegator ← ensure_signed c origin
    delegator_cancel_scheduled_revoke_all c delegator

  unfoldable pub schedule_revoke_delegation : Origin → ℕ → Action c (Unit {0})
  unfolding signer
  schedule_revoke_delegation origin collator = do
    delegator ← ensure_signed c origin
    delegation_schedule_revoke c collator delegator

  unfoldable pub schedule_delegator_bond_less : Origin → ℕ → ℕ → Action c (Unit {0})
  unfolding signer
  schedule_delegator_bond_less origin candidate less = do
    delegator ← ensure_signed c origin
    delegation_schedule_bond_decrease c candidate delegator less

  unfoldable pub execute_delegation_request : Origin → ℕ → ℕ → Action c (Unit {0})
  unfolding signer
  execute_delegation_request origin delegator candidate = do
    caller ← ensure_signed c origin
    delegation_execute_scheduled_request c candidate delegator

  unfoldable pub cancel_delegation_request : Origin → ℕ → Action c (Unit {0})
  unfolding signer
  cancel_delegation_request origin candidate = do
    delegator ← ensure_signed c origin
    delegation_cancel_request c candidate delegator
