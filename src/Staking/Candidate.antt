-- ===== src/Staking/Candidate.antt =====
-- `CandidateMetadata` of pallets/parachain-staking/src/types.rs: the candidate's status, its own bond,
-- and what it keeps of its delegations. An operation takes the metadata and gives them back.
pub mod Add
pub mod Remove
pub mod Increase
pub mod Decrease
pub mod Books
use hackathon_parity_eu.Prelude.{
  ℕ, ◌+◌, ◌-◌, ◌%◌, ◌^◌, Bool, true, false, not, ◌&&◌, ltb, leb, ◌==◌, if◌then◌else◌, Option, none,
  some, is_some, lookup, nat_key, ok, err, pure, fail, ensure, ok_or, gets, modify, only_if, ◌>>=◌,
  ◌>>◌,
}
use hackathon_parity_eu.Staking.Set as Set
use hackathon_parity_eu.Staking.Bond.{
  bond_ord, from_owner, saturating_add, CapacityStatus, Delegations, capacity,
  lowest_delegation_amount, highest_delegation_amount,
}
use hackathon_parity_eu.Staking.Pallet.{
  collator_lock, Config, Fault, error, candidate_already_leaving, candidate_cannot_leave_yet,
  candidate_not_leaving, insufficient_balance, pending_candidate_request_already_exists,
  candidate_bond_below_min, pending_candidate_requests_dne, pending_candidate_request_not_due_yet,
  CollatorStatus, CandidateMetadata, CandidateBondLessRequest, Storage, Action, deposit_event,
  candidate_bonded_more, candidate_bonded_less, cancelled_candidate_bond_less,
}
use hackathon_parity_eu.Staking.Delegator.{on_ledger}

unfoldable pub new : ℕ → CandidateMetadata
new bond = record {
  bond = bond;
  delegation_count = 0;
  total_counted = bond;
  lowest_top_delegation_amount = 0;
  highest_bottom_delegation_amount = 0;
  lowest_bottom_delegation_amount = 0;
  top_capacity = CapacityStatus.empty;
  bottom_capacity = CapacityStatus.empty;
  request = none;
  status = CollatorStatus.active;
}

abbrev active_status : CollatorStatus → Bool
active_status CollatorStatus.active = true
active_status CollatorStatus.idle = false
active_status (CollatorStatus.leaving r) = false

abbrev leaving_status : CollatorStatus → Bool
leaving_status CollatorStatus.active = false
leaving_status CollatorStatus.idle = false
leaving_status (CollatorStatus.leaving r) = true

unfoldable pub is_active : CandidateMetadata → Bool
is_active m = active_status m.status

unfoldable pub is_leaving : CandidateMetadata → Bool
is_leaving m = leaving_status m.status

unfoldable pub go_offline : CandidateMetadata → CandidateMetadata
go_offline m = record m { status = CollatorStatus.idle }

unfoldable pub go_online : CandidateMetadata → CandidateMetadata
go_online m = record m { status = CollatorStatus.active }

module _ (c : Config) where
  -- `lib.rs`, `update_active`
  unfoldable pub update_active : ℕ → ℕ → Action c (Unit {0})
  update_active candidate total = modify (λ s. record s {
    candidate_pool =
        (Set.insert (record { owner = candidate; amount = total })
          (Set.remove (from_owner candidate) s.candidate_pool).0).0;
  })

  -- The metadata, the current round and the round in which the candidate may leave. The sum of rounds
  -- wraps.
  unfoldable pub schedule_leave : CandidateMetadata → Action c (CandidateMetadata × ℕ × ℕ)
  unfolding is_leaving
  schedule_leave m = do
    ensure (not (is_leaving m)) (error candidate_already_leaving)
    now ← gets (λ s. s.round.current)
    let when = (now + c.leave_candidates_delay) % 2 ^ 32
    pure (record m { status = CollatorStatus.leaving when }, now, when)

  abbrev leave_round : CollatorStatus → Option ℕ
  leave_round CollatorStatus.active = none
  leave_round CollatorStatus.idle = none
  leave_round (CollatorStatus.leaving when) = some when

  unfoldable pub can_leave : CandidateMetadata → Action c (Unit {0})
  can_leave m = do
    when ← ok_or (leave_round m.status) (error candidate_not_leaving)
    now ← gets (λ s. s.round.current)
    ensure (leb when now) (error candidate_cannot_leave_yet)

  -- `lib.rs`, `get_collator_stakable_free_balance`
  unfoldable pub get_collator_stakable_free_balance : ℕ → Storage c → ℕ
  get_collator_stakable_free_balance acc s = elim (lookup acc s.candidate_info) [
    | none ↦ c.currency.free_balance acc s.ledger
    | some info ↦ c.currency.free_balance acc s.ledger - info.bond
  ]

  unfoldable pub bond_more : ℕ → ℕ → CandidateMetadata → Action c CandidateMetadata
  unfolding get_collator_stakable_free_balance
  bond_more who more m = do
    free ← gets (get_collator_stakable_free_balance who)
    ensure (leb more free) (error insufficient_balance)
    modify (λ s. record s { total = saturating_add s.total more })
    let m' = record m { bond = saturating_add m.bond more }
    on_ledger c (c.currency.set_lock collator_lock who m'.bond)
    let m'' = record m' { total_counted = saturating_add m'.total_counted more }
    deposit_event (candidate_bonded_more who more m''.bond)
    pure m''

  -- The metadata and the round in which the request is due.
  unfoldable pub schedule_bond_less : ℕ → CandidateMetadata → Action c (CandidateMetadata × ℕ)
  schedule_bond_less less m = do
    ensure (not (is_some m.request)) (error pending_candidate_request_already_exists)
    ensure (ltb less m.bond) (error candidate_bond_below_min)
    ensure (leb c.min_candidate_stk (m.bond - less)) (error candidate_bond_below_min)
    now ← gets (λ s. s.round.current)
    let when_executable = (now + c.candidate_bond_less_delay) % 2 ^ 32
    let request = some (record { amount = less; when_executable = when_executable })
    pure (record m { request = request }, when_executable)

  unfoldable pub execute_bond_less : ℕ → CandidateMetadata → Action c CandidateMetadata
  unfolding is_active update_active
  execute_bond_less who m = do
    request ← ok_or m.request (error pending_candidate_requests_dne)
    now ← gets (λ s. s.round.current)
    ensure (leb request.when_executable now) (error pending_candidate_request_not_due_yet)
    modify (λ s. record s { total = s.total - request.amount })
    let m' = record m { bond = m.bond - request.amount }
    on_ledger c (c.currency.set_lock collator_lock who m'.bond)
    let m'' = record m' { total_counted = m'.total_counted - request.amount; request = none }
    only_if (is_active m'') (update_active who m''.total_counted)
    deposit_event (candidate_bonded_less who request.amount m'.bond)
    pure m''

  unfoldable pub cancel_bond_less : ℕ → CandidateMetadata → Action c CandidateMetadata
  cancel_bond_less who m = do
    request ← ok_or m.request (error pending_candidate_requests_dne)
    deposit_event (cancelled_candidate_bond_less who request.amount request.when_executable)
    pure (record m { request = none })

  unfoldable pub reset_top_data : ℕ → Delegations → CandidateMetadata → Action c CandidateMetadata
  unfolding is_active update_active
  reset_top_data candidate top m = do
    let m' = record m {
      lowest_top_delegation_amount = lowest_delegation_amount top;
      top_capacity = capacity c.max_top_delegations_per_candidate top;
      total_counted = saturating_add m.bond top.total;
    }
    only_if (not (m.total_counted == m'.total_counted) && is_active m')
        (update_active candidate m'.total_counted)
    pure m'

  unfoldable pub reset_bottom_data : Delegations → CandidateMetadata → CandidateMetadata
  reset_bottom_data bottom m = record m {
    lowest_bottom_delegation_amount = lowest_delegation_amount bottom;
    highest_bottom_delegation_amount = highest_delegation_amount bottom;
    bottom_capacity = capacity c.max_bottom_delegations_per_candidate bottom;
  }
