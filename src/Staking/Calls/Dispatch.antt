-- ===== src/Staking/Calls/Dispatch.antt =====
-- The calls of pallets/parachain-staking/src/lib.rs as extrinsics.
use hackathon_parity_eu.Prelude.{ℕ, settle}
use hackathon_parity_eu.Staking.Inflation.{Range}
use hackathon_parity_eu.Staking.Pallet.{Config, Origin, Storage}
use hackathon_parity_eu.Staking.Calls.{
  join_candidates, schedule_leave_candidates, execute_leave_candidates, cancel_leave_candidates,
  leave_pool, rejoin_pool, candidate_bond_more, schedule_candidate_bond_less,
  execute_candidate_bond_less, cancel_candidate_bond_less,
}
use hackathon_parity_eu.Staking.Calls.Delegate.{
  delegate, delegator_bond_more, schedule_leave_delegators, execute_leave_delegators,
  cancel_leave_delegators, schedule_revoke_delegation, schedule_delegator_bond_less,
  execute_delegation_request, cancel_delegation_request,
}
use hackathon_parity_eu.Staking.Calls.Settings.{
  set_staking_expectations, set_inflation, set_parachain_bond_account,
  set_parachain_bond_reserve_percent, set_total_selected, set_collator_commission,
  set_blocks_per_round,
}

-- `pallet::Call`
pub data Extrinsic : Type 0 where
  join : ℕ → ℕ → Extrinsic
  schedule_leave : ℕ → Extrinsic
  execute_leave : ℕ → ℕ → Extrinsic
  cancel_leave : ℕ → Extrinsic
  call_go_offline call_go_online : Extrinsic
  call_bond_more schedule_less execute_less : ℕ → Extrinsic
  cancel_less : Extrinsic
  expectations inflation : Range → Extrinsic
  bond_account reserve_percent selected commission blocks : ℕ → Extrinsic
  delegate_to : ℕ → ℕ → ℕ → ℕ → Extrinsic
  delegator_more schedule_lower execute_request : ℕ → ℕ → Extrinsic
  schedule_exit cancel_exit : Extrinsic
  execute_exit : ℕ → ℕ → Extrinsic
  schedule_revoke cancel_request : ℕ → Extrinsic

module _ (c : Config) where
  -- An extrinsic that fails leaves the storage as it was.
  unfoldable pub dispatch : Origin → Extrinsic → Storage c → Storage c
  dispatch o (join bond count) s = settle s (join_candidates c o bond count s)
  dispatch o (schedule_leave count) s = settle s (schedule_leave_candidates c o count s)
  dispatch o (execute_leave who count) s = settle s (execute_leave_candidates c o who count s)
  dispatch o (cancel_leave count) s = settle s (cancel_leave_candidates c o count s)
  dispatch o call_go_offline s = settle s (leave_pool c o s)
  dispatch o call_go_online s = settle s (rejoin_pool c o s)
  dispatch o (call_bond_more more) s = settle s (candidate_bond_more c o more s)
  dispatch o (schedule_less less) s = settle s (schedule_candidate_bond_less c o less s)
  dispatch o (execute_less who) s = settle s (execute_candidate_bond_less c o who s)
  dispatch o cancel_less s = settle s (cancel_candidate_bond_less c o s)
  dispatch o (expectations r) s = settle s (set_staking_expectations c o r s)
  dispatch o (inflation r) s = settle s (set_inflation c o r s)
  dispatch o (bond_account n) s = settle s (set_parachain_bond_account c o n s)
  dispatch o (reserve_percent n) s = settle s (set_parachain_bond_reserve_percent c o n s)
  dispatch o (selected n) s = settle s (set_total_selected c o n s)
  dispatch o (commission n) s = settle s (set_collator_commission c o n s)
  dispatch o (blocks n) s = settle s (set_blocks_per_round c o n s)
  dispatch o (delegate_to who amount count own) s = settle s (delegate c o who amount count own s)
  dispatch o (delegator_more who more) s = settle s (delegator_bond_more c o who more s)
  dispatch o (schedule_lower who less) s = settle s (schedule_delegator_bond_less c o who less s)
  dispatch o (execute_request who of) s = settle s (execute_delegation_request c o who of s)
  dispatch o schedule_exit s = settle s (schedule_leave_delegators c o s)
  dispatch o cancel_exit s = settle s (cancel_leave_delegators c o s)
  dispatch o (execute_exit who count) s = settle s (execute_leave_delegators c o who count s)
  dispatch o (schedule_revoke who) s = settle s (schedule_revoke_delegation c o who s)
  dispatch o (cancel_request who) s = settle s (cancel_delegation_request c o who s)
