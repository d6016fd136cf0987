-- ===== src/Staking/Requests.antt =====
-- pallets/parachain-staking/src/delegation_requests.rs: requests to revoke or to decrease a delegation,
-- and `delegator_leaves_candidate` of src/lib.rs.
pub mod Exit
pub mod Laws
use hackathon_parity_eu.Prelude.{
  ℕ, ◌+◌, ◌-◌, ◌%◌, ◌^◌, Bool, true, false, not, ltb, leb, ◌==◌, if◌then◌else◌, Option, none, some,
  List, [], ◌∷◌, ◌++◌, lookup, insert, remove, nat_key, Result, ok, err, pure, fail, ensure, ok_or,
  gets, modify, only_if, ◌>>=◌, ◌>>◌,
}
use hackathon_parity_eu.Staking.Set as Set
use hackathon_parity_eu.Staking.Bond.{Bond, bond_ord, saturating_add, saturating_add_u32}
use hackathon_parity_eu.Staking.Pallet.{
  Config, error, delegator_dne, candidate_dne, delegation_dne, delegator_bond_below_min,
  delegation_below_min, pending_delegation_request_dne, pending_delegation_request_already_exists,
  pending_delegation_request_not_due_yet, Delegator, DelegationAction, revoke, decrease,
  ScheduledRequest, Storage, Action, deposit_event, delegator_left_candidate,
  delegation_revocation_scheduled, delegation_decrease_scheduled, cancelled_delegation_request,
  delegation_revoked, delegator_left, delegation_decreased,
}
use hackathon_parity_eu.Staking.Delegator.{
  get_bond_amount, amount, take_request, has_request, cancel_request_with_state, total_sub_if,
  rm_delegation, requests_of, put_requests,
}
use hackathon_parity_eu.Staking.Candidate.Remove.{rm_delegation_if_exists}
use hackathon_parity_eu.Staking.Candidate.Decrease.{decrease_delegation}

-- The first bond with the owner, its amount changed.
unfoldable pub adjust_first : (ℕ → ℕ) → ℕ → List Bond → List Bond
adjust_first f owner [] = []
adjust_first f owner (x ∷ xs) =
    if x.owner == owner then record x { amount = f x.amount } ∷ xs else x ∷ adjust_first f owner xs

module _ (c : Config) where
  abbrev pub get_state : ℕ → Action c Delegator
  get_state delegator = do
    found ← gets (λ s. lookup delegator s.delegator_state)
    ok_or found (error delegator_dne)

  abbrev pub put_state : ℕ → Delegator → Action c (Unit {0})
  put_state delegator d =
      modify (λ s. record s { delegator_state = insert delegator d s.delegator_state })

  abbrev pub remove_state : ℕ → Action c (Unit {0})
  remove_state delegator =
      modify (λ s. record s { delegator_state = remove delegator s.delegator_state })

  unfoldable pub delegator_leaves_candidate : ℕ → ℕ → ℕ → Action c (Unit {0})
  delegator_leaves_candidate candidate delegator n = do
    found ← gets (λ s. lookup candidate s.candidate_info)
    m ← ok_or found (error candidate_dne)
    (m', changed) ← rm_delegation_if_exists c candidate delegator n m
    modify (λ s. record s { total = s.total - n })
    modify (λ s. record s { candidate_info = insert candidate m' s.candidate_info })
    deposit_event (delegator_left_candidate delegator candidate n m'.total_counted)

  unfoldable pub delegation_schedule_revoke : ℕ → ℕ → Action c (Unit {0})
  unfolding get_bond_amount has_request requests_of
  delegation_schedule_revoke collator delegator = do
    state ← get_state delegator
    requests ← gets (requests_of c collator)
    ensure (not (has_request delegator requests)) (error pending_delegation_request_already_exists)
    bonded_amount ← ok_or (get_bond_amount collator state) (error delegation_dne)
    now ← gets (λ s. s.round.current)
    let due = saturating_add_u32 now c.revoke_delegation_delay
    put_requests c collator (
        requests
        ++ record { delegator = delegator; when_executable = due; action = revoke bonded_amount }
          ∷ [])
    put_state delegator
        (record state { less_total = saturating_add state.less_total bonded_amount })
    deposit_event (delegation_revocation_scheduled now delegator collator due)

  -- The request waits for `RevokeDelegationDelay`, as a revocation does.
  unfoldable pub delegation_schedule_bond_decrease : ℕ → ℕ → ℕ → Action c (Unit {0})
  unfolding get_bond_amount has_request requests_of
  delegation_schedule_bond_decrease collator delegator decrease_amount = do
    state ← get_state delegator
    requests ← gets (requests_of c collator)
    ensure (not (has_request delegator requests)) (error pending_delegation_request_already_exists)
    bonded_amount ← ok_or (get_bond_amount collator state) (error delegation_dne)
    ensure (ltb decrease_amount bonded_amount) (error delegator_bond_below_min)
    ensure (leb c.min_delegation (bonded_amount - decrease_amount)) (error delegation_below_min)
    let net_total = state.total - state.less_total
    let max_subtracted_amount = net_total - c.min_delegator_stk
    ensure (leb decrease_amount max_subtracted_amount) (error delegator_bond_below_min)
    now ← gets (λ s. s.round.current)
    let due = saturating_add_u32 now c.revoke_delegation_delay
    put_requests c collator (
        requests
        ++ record {
          delegator = delegator;
          when_executable = due;
          action = decrease decrease_amount;
        }
          ∷ [])
    put_state delegator
        (record state { less_total = saturating_add state.less_total decrease_amount })
    deposit_event (delegation_decrease_scheduled delegator collator decrease_amount due)

  unfoldable pub delegation_cancel_request : ℕ → ℕ → Action c (Unit {0})
  unfolding cancel_request_with_state requests_of
  delegation_cancel_request collator delegator = do
    state ← get_state delegator
    requests ← gets (requests_of c collator)
    (r, state', rest) ←
        ok_or (cancel_request_with_state delegator state requests)
          (error pending_delegation_request_dne)
    put_requests c collator rest
    put_state delegator state'
    deposit_event (cancelled_delegation_request delegator r.when_executable r.action collator)

  unfoldable pub execute_revoke :
      ℕ → ℕ → ℕ → List ScheduledRequest → Delegator → Action c (Unit {0})
  unfolding rm_delegation
  execute_revoke collator delegator n rest state = do
    let leaving = Set.len state.delegations == 1
    only_if (not leaving)
        (ensure (leb n (state.total - c.min_delegator_stk)) (error delegator_bond_below_min))
    (state', remaining) ←
        rm_delegation c collator (record state { less_total = state.less_total - n })
    delegator_leaves_candidate collator delegator n
    deposit_event (delegation_revoked delegator collator n)
    put_requests c collator rest
    if leaving
        then (do remove_state delegator; deposit_event (delegator_left delegator n))
        else put_state delegator state'

  -- The condition of `total_sub_if`.
  abbrev pub check_total : ℕ → Action c (Unit {0})
  check_total new_total = do
    ensure (leb c.min_delegation new_total) (error delegation_below_min)
    ensure (leb c.min_delegator_stk new_total) (error delegator_bond_below_min)

  unfoldable pub execute_decrease :
      ℕ → ℕ → ℕ → List ScheduledRequest → Delegator → Action c (Unit {0})
  unfolding get_bond_amount adjust_first total_sub_if
  execute_decrease collator delegator n rest state = do
    amount_before ← ok_or (get_bond_amount collator state) (error delegation_dne)
    ensure (ltb n amount_before) (error delegation_below_min)
    found ← gets (λ s. lookup collator s.candidate_info)
    m ← ok_or found (error candidate_dne)
    state' ← total_sub_if c n check_total (record state {
      less_total = state.less_total - n;
      delegations =
          Set.from_sorted_set (adjust_first (λ b. b - n) collator state.delegations.elements);
    })
    (m', in_top) ← decrease_delegation c collator delegator amount_before n m
    modify (λ s. record s { candidate_info = insert collator m' s.candidate_info })
    modify (λ s. record s { total = s.total - n })
    put_requests c collator rest
    put_state delegator state'
    deposit_event (delegation_decreased delegator collator n in_top)

  unfoldable pub delegation_execute_scheduled_request : ℕ → ℕ → Action c (Unit {0})
  unfolding take_request requests_of execute_revoke execute_decrease
  delegation_execute_scheduled_request collator delegator = do
    state ← get_state delegator
    requests ← gets (requests_of c collator)
    (request, rest) ← ok_or (take_request delegator requests) (error pending_delegation_request_dne)
    now ← gets (λ s. s.round.current)
    ensure (leb request.when_executable now) (error pending_delegation_request_not_due_yet)
    elim request.action [
      | revoke n ↦ execute_revoke collator delegator n rest state
      | decrease n ↦ execute_decrease collator delegator n rest state
    ]
