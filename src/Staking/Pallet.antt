-- ===== src/Staking/Pallet.antt =====
-- The configuration, storage, events and errors of pallets/parachain-staking/src/lib.rs, and the
-- records of src/types.rs and src/delegation_requests.rs that it stores.
use hackathon_parity_eu.Prelude.{
  ℕ, Bool, Option, List, StorageMap, Call, modify, ok_or, ◌++◌, ◌∷◌, [],
}
use hackathon_parity_eu.Staking.Set.{OrderedSet}
use hackathon_parity_eu.Staking.Bond.{Bond, Delegations, CapacityStatus}
use hackathon_parity_eu.Staking.Inflation.{Range, InflationInfo, FixedPoint}

-- `COLLATOR_LOCK_ID` and `DELEGATOR_LOCK_ID`
pub data LockId : Type 0 where
  collator_lock delegator_lock : LockId

-- The currency of the runtime. `deposit_into_existing` fails (`none`) or gives the value deposited.
pub record Currency : Type 1 where
  pub Ledger : Type 0
  pub free_balance : ℕ → Ledger → ℕ
  pub reserved_balance : ℕ → Ledger → ℕ
  pub total_issuance : Ledger → ℕ
  pub set_lock : LockId → ℕ → ℕ → Ledger → Ledger
  pub remove_lock : LockId → ℕ → Ledger → Ledger
  pub deposit_into_existing : ℕ → ℕ → Ledger → Option (ℕ × Ledger)

-- What the pallet calls of pallets/collator-selection: the candidates, and `leave_intent`, which
-- fails (`none`) or gives the next state.
pub record Whitelist : Type 1 where
  pub Store : Type 0
  pub candidates : Store → List ℕ
  pub leave_intent : ℕ → Store → Option Store

pub data Origin : Type 0 where
  root : Origin
  signed : ℕ → Origin
  custom : ℕ → Origin

-- The runtime's choices. `perbill_mul` is `Perbill * Balance`, `perbill_from_rational` is
-- `Perbill::from_rational`, `percent_mul` is `Percent * Balance`.
pub record Config : Type 1 where
  pub currency : Currency
  pub whitelist : Whitelist
  pub fixed : FixedPoint
  pub perbill_mul : ℕ → ℕ → ℕ
  pub perbill_from_rational : ℕ → ℕ → ℕ
  pub percent_mul : ℕ → ℕ → ℕ
  pub monetary_governance_origin : Origin → Bool
  pub min_blocks_per_round : ℕ
  pub default_blocks_per_round : ℕ
  pub leave_candidates_delay : ℕ
  pub candidate_bond_less_delay : ℕ
  pub leave_delegators_delay : ℕ
  pub revoke_delegation_delay : ℕ
  pub delegation_bond_less_delay : ℕ
  pub reward_payment_delay : ℕ
  pub min_selected_candidates : ℕ
  pub max_top_delegations_per_candidate : ℕ
  pub max_bottom_delegations_per_candidate : ℕ
  pub max_delegations_per_delegator : ℕ
  pub default_collator_commission : ℕ
  pub default_parachain_bond_reserve_percent : ℕ
  pub min_collator_stk : ℕ
  pub min_candidate_stk : ℕ
  pub min_whitelist_candidate_stk : ℕ
  pub min_delegation : ℕ
  pub min_delegator_stk : ℕ
  pub zero_account : ℕ

pub data Error : Type 0 where
  delegator_dne candidate_dne delegation_dne delegator_exists candidate_exists : Error
  candidate_bond_below_min insufficient_balance delegator_bond_below_min : Error
  delegation_below_min already_offline already_active delegator_already_leaving : Error
  delegator_not_leaving delegator_cannot_leave_yet candidate_already_leaving : Error
  candidate_not_leaving candidate_cannot_leave_yet cannot_go_online_if_leaving : Error
  exceed_max_delegations_per_delegator already_delegated_candidate invalid_schedule : Error
  cannot_set_below_min round_length_must_be_at_least_total_selected_collators : Error
  no_writing_same_value too_low_candidate_count_weight_hint_join_candidates : Error
  too_low_candidate_count_weight_hint_cancel_leave_candidates : Error
  too_low_candidate_count_to_leave_candidates too_low_delegation_count_to_delegate : Error
  too_low_candidate_delegation_count_to_delegate : Error
  too_low_candidate_delegation_count_to_leave_candidates : Error
  too_low_delegation_count_to_leave_delegators pending_candidate_requests_dne : Error
  pending_candidate_request_already_exists pending_candidate_request_not_due_yet : Error
  pending_delegation_request_dne pending_delegation_request_already_exists : Error
  pending_delegation_request_not_due_yet : Error
  cannot_delegate_less_than_or_equal_to_lowest_bottom_when_full : Error
  pending_delegation_revoke pallet_already_initialized : Error
  not_enough_collators_for_pallet_init invalid_state : Error

-- An error that is returned, `DispatchError::BadOrigin`, `DispatchError::Other`, and a panic.
pub data Fault : Type 0 where
  error : Error → Fault
  bad_origin other panic : Fault

pub data CollatorStatus : Type 0 where
  active idle : CollatorStatus
  leaving : ℕ → CollatorStatus

pub record CandidateBondLessRequest : Type 0 where
  pub amount : ℕ
  pub when_executable : ℕ

pub record CandidateMetadata : Type 0 where
  pub bond : ℕ
  pub delegation_count : ℕ
  pub total_counted : ℕ
  pub lowest_top_delegation_amount : ℕ
  pub highest_bottom_delegation_amount : ℕ
  pub lowest_bottom_delegation_amount : ℕ
  pub top_capacity : CapacityStatus
  pub bottom_capacity : CapacityStatus
  pub request : Option CandidateBondLessRequest
  pub status : CollatorStatus

pub data DelegatorStatus : Type 0 where
  active : DelegatorStatus
  leaving : ℕ → DelegatorStatus

pub record Delegator : Type 0 where
  pub id : ℕ
  pub delegations : OrderedSet Bond
  pub total : ℕ
  pub less_total : ℕ
  pub status : DelegatorStatus

pub data DelegationAction : Type 0 where
  revoke decrease : ℕ → DelegationAction

pub record ScheduledRequest : Type 0 where
  pub delegator : ℕ
  pub when_executable : ℕ
  pub action : DelegationAction

pub data DelegatorAdded : Type 0 where
  added_to_top : ℕ → DelegatorAdded
  added_to_bottom : DelegatorAdded

pub record CollatorSnapshot : Type 0 where
  pub bond : ℕ
  pub delegations : List Bond
  pub total : ℕ

pub record DelayedPayout : Type 0 where
  pub round_issuance : ℕ
  pub total_staking_reward : ℕ
  pub collator_commission : ℕ

pub record RoundInfo : Type 0 where
  pub current : ℕ
  pub first : ℕ
  pub length : ℕ

pub record ParachainBondConfig : Type 0 where
  pub account : ℕ
  pub percent : ℕ

-- The arguments stand in the order of the source's fields.
pub data Event : Type 0 where
  new_round : ℕ → ℕ → ℕ → ℕ → Event
  joined_collator_candidates collator_chosen candidate_bond_less_requested : ℕ → ℕ → ℕ → Event
  candidate_bonded_more candidate_bonded_less : ℕ → ℕ → ℕ → Event
  candidate_went_offline candidate_back_online : ℕ → Event
  candidate_scheduled_exit : ℕ → ℕ → ℕ → Event
  cancelled_candidate_exit : ℕ → Event
  cancelled_candidate_bond_less candidate_left : ℕ → ℕ → ℕ → Event
  delegation_decrease_scheduled : ℕ → ℕ → ℕ → ℕ → Event
  delegation_increased delegation_decreased : ℕ → ℕ → ℕ → Bool → Event
  delegator_exit_scheduled : ℕ → ℕ → ℕ → Event
  delegation_revocation_scheduled : ℕ → ℕ → ℕ → ℕ → Event
  delegator_left : ℕ → ℕ → Event
  delegation_revoked delegation_kicked : ℕ → ℕ → ℕ → Event
  delegator_exit_cancelled : ℕ → Event
  cancelled_delegation_request : ℕ → ℕ → DelegationAction → ℕ → Event
  delegation : ℕ → ℕ → ℕ → DelegatorAdded → Event
  delegator_left_candidate : ℕ → ℕ → ℕ → ℕ → Event
  rewarded reserved_for_parachain_bond parachain_bond_account_set : ℕ → ℕ → Event
  parachain_bond_reserve_percent_set : ℕ → ℕ → Event
  inflation_set : Range → Range → Event
  stake_expectations_set : Range → Event
  total_selected_set collator_commission_set : ℕ → ℕ → Event
  blocks_per_round_set : ℕ → ℕ → ℕ → ℕ → Range → Event

pub record Storage (c : Config) : Type 0 where
  pub collator_commission : ℕ
  pub total_selected : ℕ
  pub parachain_bond_info : ParachainBondConfig
  pub round : RoundInfo
  pub delegator_state : StorageMap ℕ Delegator
  pub candidate_info : StorageMap ℕ CandidateMetadata
  pub delegation_scheduled_requests : StorageMap ℕ (List ScheduledRequest)
  pub top_delegations : StorageMap ℕ Delegations
  pub bottom_delegations : StorageMap ℕ Delegations
  pub selected_candidates : List ℕ
  pub total : ℕ
  pub candidate_pool : OrderedSet Bond
  pub at_stake : StorageMap (ℕ × ℕ) CollatorSnapshot
  pub delayed_payouts : StorageMap ℕ DelayedPayout
  pub staked : StorageMap ℕ ℕ
  pub inflation_config : InflationInfo
  pub points : StorageMap ℕ ℕ
  pub awarded_pts : StorageMap (ℕ × ℕ) ℕ
  pub ledger : c.currency.Ledger
  pub whitelist : c.whitelist.Store
  pub events : List Event

abbrev pub Action : Config → Type 0 → Type 0
Action c A = Call (Storage c) Fault A

module _ {c : Config} where
  abbrev pub deposit_event : Event → Action c (Unit {0})
  deposit_event e = modify (λ s. record s { events = s.events ++ e ∷ [] })

  -- `expect`
  abbrev pub expect : {A : Type 0} → Option A → Action c A
  expect o = ok_or o panic
