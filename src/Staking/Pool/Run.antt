-- ===== src/Staking/Pool/Run.antt =====
-- The candidate pool of pallets/parachain-staking/src/lib.rs over sequences of extrinsics.
use hackathon_parity_eu.Prelude.{
  ℕ, ◌≡◌, refl, List, [], ◌∷◌, Result, ok, err, settle, arith, lookup, nat_key, Option-cases, inl,
  inr,
}
use hackathon_parity_eu.Staking.Pallet.{Config, Origin, Storage, Fault}
use hackathon_parity_eu.Staking.Requests.{
  delegation_schedule_revoke, delegation_schedule_bond_decrease, delegation_cancel_request,
}
use hackathon_parity_eu.Staking.Calls.{signer}
use hackathon_parity_eu.Staking.Calls.Delegate.{
  delegator_bond_more, schedule_leave_delegators, execute_leave_delegators, cancel_leave_delegators,
  schedule_revoke_delegation, schedule_delegator_bond_less, execute_delegation_request,
  cancel_delegation_request,
}
use hackathon_parity_eu.Staking.Calls.Settings.{
  set_staking_expectations, set_inflation, set_parachain_bond_account,
  set_parachain_bond_reserve_percent, set_total_selected, set_collator_commission,
  set_blocks_per_round,
}
use hackathon_parity_eu.Staking.Calls.Dispatch.{
  Extrinsic, dispatch, join, schedule_leave, execute_leave, cancel_leave, call_go_offline,
  call_go_online, call_bond_more, schedule_less, execute_less, cancel_less, delegate_to,
  delegator_more, schedule_lower, execute_request, schedule_exit, cancel_exit, execute_exit,
  schedule_revoke, cancel_request, expectations, inflation, bond_account, reserve_percent, selected,
  commission, blocks,
}
use hackathon_parity_eu.Staking.Pool.{IsPooled, PoolSame, same-IsPooled}
use hackathon_parity_eu.Staking.Pool.Candidates.{
  leave_pool-IsPooled, rejoin_pool-IsPooled, schedule_leave_candidates-IsPooled,
  cancel_leave_candidates-IsPooled, schedule_candidate_bond_less-IsPooled,
  cancel_candidate_bond_less-IsPooled, candidate_bond_more-IsPooled,
  execute_candidate_bond_less-IsPooled, join_candidates-IsPooled, execute_leave_candidates-IsPooled,
}
use hackathon_parity_eu.Staking.Pool.Delegators.{delegate-IsPooled, increase_delegation-IsPooled}
use hackathon_parity_eu.Staking.Pool.Exits.{
  schedule_revoke_all-Same, cancel_revoke_all-Same, execute_revoke_all-IsPooled,
  execute_request-IsPooled,
}
use hackathon_parity_eu.Staking.Rounds.{on_initialize, on_finalize}
use hackathon_parity_eu.Staking.Rounds.Chain.{
  Start, Moment, extrinsic, block_starts, block_ends, start, advance, run,
}
use hackathon_parity_eu.Staking.Pool.Blocks.{on_initialize-Same, on_finalize-Same}
use hackathon_parity_eu.Staking.Pool.Genesis.{empty-IsPooled, start-IsPooled}

module _ (c : Config) where
  settle-IsPooled :
      (s : Storage c) (r : Result Fault (Unit {0} × Storage c))
      → IsPooled c s
      → ((s' : Storage c) → r ≡ ok (tt, s') → IsPooled c s')
      → IsPooled c (settle s r)
  settle-IsPooled s (ok (tt, s')) v f = f s' refl
  settle-IsPooled s (err e) v f = v

  same_settle :
      (s : Storage c) (r : Result Fault (Unit {0} × Storage c))
      → IsPooled c s
      → ((s' : Storage c) → r ≡ ok (tt, s') → PoolSame c s s')
      → IsPooled c (settle s r)
  same_settle s r v f = settle-IsPooled s r v (λ s' h. same-IsPooled c s s' v (f s' h).0 (f s' h).1)

  delegator_bond_more-IsPooled :
      (o : Origin) (who more : ℕ) (s s' : Storage c)
      → IsPooled c s
      → delegator_bond_more c o who more s ≡ ok (tt, s')
      → IsPooled c s'
  unfolding delegator_bond_more
  delegator_bond_more-IsPooled o who more s s' v h = elim (Option-cases (signer o)) [
    | inl gone ↦ absurd (ground arith)
    | inr (delegator, e) ↦ elim (Option-cases (lookup delegator s.delegator_state)) [
      | inl gone ↦ absurd (ground arith)
      | inr (d, found) ↦ increase_delegation-IsPooled c who more d s s' v (ground arith)
    ]
  ]

  execute_delegation_request-IsPooled :
      (o : Origin) (delegator who : ℕ) (s s' : Storage c)
      → IsPooled c s
      → execute_delegation_request c o delegator who s ≡ ok (tt, s')
      → IsPooled c s'
  unfolding execute_delegation_request
  execute_delegation_request-IsPooled o delegator who s s' v h =
      execute_request-IsPooled c who delegator s s' v (ground arith)

  execute_leave_delegators-IsPooled :
      (o : Origin) (delegator count : ℕ) (s s' : Storage c)
      → IsPooled c s
      → execute_leave_delegators c o delegator count s ≡ ok (tt, s')
      → IsPooled c s'
  unfolding execute_leave_delegators
  execute_leave_delegators-IsPooled o delegator count s s' v h =
      execute_revoke_all-IsPooled c delegator count s s' v (ground arith)

  schedule_leave_delegators-Same :
      (o : Origin) (s s' : Storage c)
      → schedule_leave_delegators c o s ≡ ok (tt, s')
      → PoolSame c s s'
  unfolding schedule_leave_delegators
  schedule_leave_delegators-Same o s s' h = elim (Option-cases (signer o)) [
    | inl gone ↦ absurd (ground arith)
    | inr (who, e) ↦ schedule_revoke_all-Same c who s s' (ground arith)
  ]

  cancel_leave_delegators-Same :
      (o : Origin) (s s' : Storage c)
      → cancel_leave_delegators c o s ≡ ok (tt, s')
      → PoolSame c s s'
  unfolding cancel_leave_delegators
  cancel_leave_delegators-Same o s s' h = elim (Option-cases (signer o)) [
    | inl gone ↦ absurd (ground arith)
    | inr (who, e) ↦ cancel_revoke_all-Same c who s s' (ground arith)
  ]

  dispatch-IsPooled :
      (o : Origin) (x : Extrinsic) (s : Storage c) → IsPooled c s → IsPooled c (dispatch c o x s)
  unfolding dispatch set_staking_expectations set_inflation set_parachain_bond_account
      set_parachain_bond_reserve_percent set_total_selected set_collator_commission
      set_blocks_per_round schedule_delegator_bond_less schedule_revoke_delegation
      cancel_delegation_request delegation_schedule_revoke delegation_schedule_bond_decrease
      delegation_cancel_request
  dispatch-IsPooled o (join bond count) s v =
      settle-IsPooled s _ v (λ s' h. join_candidates-IsPooled c o bond count s s' v h)
  dispatch-IsPooled o (schedule_leave count) s v =
      settle-IsPooled s _ v (λ s' h. schedule_leave_candidates-IsPooled c o count s s' v h)
  dispatch-IsPooled o (execute_leave who count) s v =
      settle-IsPooled s _ v (λ s' h. execute_leave_candidates-IsPooled c o who count s s' v h)
  dispatch-IsPooled o (cancel_leave count) s v =
      settle-IsPooled s _ v (λ s' h. cancel_leave_candidates-IsPooled c o count s s' v h)
  dispatch-IsPooled o call_go_offline s v =
      settle-IsPooled s _ v (λ s' h. leave_pool-IsPooled c o s s' v h)
  dispatch-IsPooled o call_go_online s v =
      settle-IsPooled s _ v (λ s' h. rejoin_pool-IsPooled c o s s' v h)
  dispatch-IsPooled o (call_bond_more more) s v =
      settle-IsPooled s _ v (λ s' h. candidate_bond_more-IsPooled c o more s s' v h)
  dispatch-IsPooled o (schedule_less less) s v =
      settle-IsPooled s _ v (λ s' h. schedule_candidate_bond_less-IsPooled c o less s s' v h)
  dispatch-IsPooled o (execute_less who) s v =
      settle-IsPooled s _ v (λ s' h. execute_candidate_bond_less-IsPooled c o who s s' v h)
  dispatch-IsPooled o cancel_less s v =
      settle-IsPooled s _ v (λ s' h. cancel_candidate_bond_less-IsPooled c o s s' v h)
  dispatch-IsPooled o (expectations r) s v =
      same_settle s (set_staking_expectations c o r s) v (λ s' h. (ground arith, ground arith))
  dispatch-IsPooled o (inflation r) s v =
      same_settle s (set_inflation c o r s) v (λ s' h. (ground arith, ground arith))
  dispatch-IsPooled o (bond_account n) s v =
      same_settle s (set_parachain_bond_account c o n s) v (λ s' h. (ground arith, ground arith))
  dispatch-IsPooled o (reserve_percent n) s v =
      same_settle s (set_parachain_bond_reserve_percent c o n s) v
        (λ s' h. (ground arith, ground arith))
  dispatch-IsPooled o (selected n) s v =
      same_settle s (set_total_selected c o n s) v (λ s' h. (ground arith, ground arith))
  dispatch-IsPooled o (commission n) s v =
      same_settle s (set_collator_commission c o n s) v (λ s' h. (ground arith, ground arith))
  dispatch-IsPooled o (blocks n) s v =
      same_settle s (set_blocks_per_round c o n s) v (λ s' h. (ground arith, ground arith))
  dispatch-IsPooled o (delegate_to who amount count own) s v =
      settle-IsPooled s _ v (λ s' h. delegate-IsPooled c o who amount count own s s' v h)
  dispatch-IsPooled o (delegator_more who more) s v =
      settle-IsPooled s _ v (λ s' h. delegator_bond_more-IsPooled o who more s s' v h)
  dispatch-IsPooled o (schedule_lower who less) s v =
      same_settle s (schedule_delegator_bond_less c o who less s) v
        (λ s' h. (ground arith, ground arith))
  dispatch-IsPooled o (execute_request who of) s v =
      settle-IsPooled s _ v (λ s' h. execute_delegation_request-IsPooled o who of s s' v h)
  dispatch-IsPooled o schedule_exit s v =
      same_settle s (schedule_leave_delegators c o s) v
        (λ s' h. schedule_leave_delegators-Same o s s' h)
  dispatch-IsPooled o cancel_exit s v =
      same_settle s (cancel_leave_delegators c o s) v
        (λ s' h. cancel_leave_delegators-Same o s s' h)
  dispatch-IsPooled o (execute_exit who count) s v =
      settle-IsPooled s _ v (λ s' h. execute_leave_delegators-IsPooled o who count s s' v h)
  dispatch-IsPooled o (schedule_revoke who) s v =
      same_settle s (schedule_revoke_delegation c o who s) v (λ s' h. (ground arith, ground arith))
  dispatch-IsPooled o (cancel_request who) s v =
      same_settle s (cancel_delegation_request c o who s) v (λ s' h. (ground arith, ground arith))

  advance-IsPooled : (x : Moment) (s : Storage c) → IsPooled c s → IsPooled c (advance c x s)
  unfolding advance
  advance-IsPooled (extrinsic o x) s v = dispatch-IsPooled o x s v
  advance-IsPooled (block_starts n) s v =
      same_settle s (on_initialize c n s) v (λ s' h. on_initialize-Same c n s s' h)
  advance-IsPooled (block_ends author) s v =
      same_settle s (on_finalize c author s) v (λ s' h. on_finalize-Same c author s s' h)

  run-IsPooled : (xs : List Moment) (s : Storage c) → IsPooled c s → IsPooled c (run c xs s)
  unfolding run
  run-IsPooled [] s v = v
  run-IsPooled (x ∷ xs) s v = run-IsPooled xs (advance c x s) (advance-IsPooled x s v)

  -- From a start of the pallet with no candidate stored, by the genesis or by `initialize_pallet`, and
  -- after any sequence of extrinsics and of hooks of blocks, whatever their origins and arguments, the
  -- candidate pool is sorted by owner and holds just the active candidates, each with its counted total.
  pub start-run-IsPooled :
      (st : Start) (xs : List Moment) (s s' : Storage c)
      → s.candidate_pool ≡ record { elements = [] }
      → s.candidate_info ≡ []
      → start c st s ≡ ok (tt, s')
      → IsPooled c (run c xs s')
  start-run-IsPooled st xs s s' pool info h =
      run-IsPooled xs s' (start-IsPooled c st s s' (empty-IsPooled c s pool info) h)
