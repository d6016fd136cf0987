-- ===== src/Staking/Calls.antt =====
-- pallets/parachain-staking/src/lib.rs: the calls of collator candidates.
pub mod Delegate
pub mod Settings
pub mod Dispatch
use hackathon_parity_eu.Prelude.{
  ℕ, ◌+◌, ◌-◌, Bool, true, false, not, leb, ◌==◌, if◌then◌else◌, Option, none, some, is_some, List,
  [], ◌∷◌, lookup, insert, remove, contains_key, elem, nat_key, Result, ok, err, pure, fail, ensure,
  ok_or, gets, modify, only_if, for_each, ◌>>=◌, ◌>>◌,
}
use hackathon_parity_eu.Staking.Set as Set
use hackathon_parity_eu.Staking.Bond.{
  Bond, bond_ord, from_owner, saturating_add, Delegations, no_delegations,
}
use hackathon_parity_eu.Staking.Pallet.{
  collator_lock, delegator_lock, Origin, root, signed, custom, Config, error, bad_origin,
  candidate_dne, delegator_exists, candidate_exists, candidate_bond_below_min, insufficient_balance,
  already_offline, already_active, candidate_not_leaving, candidate_cannot_leave_yet,
  cannot_go_online_if_leaving, too_low_candidate_count_weight_hint_join_candidates,
  too_low_candidate_count_weight_hint_cancel_leave_candidates,
  too_low_candidate_count_to_leave_candidates,
  too_low_candidate_delegation_count_to_leave_candidates, invalid_state, CandidateMetadata, Storage,
  Action, deposit_event, joined_collator_candidates, candidate_scheduled_exit, candidate_left,
  cancelled_candidate_exit, candidate_went_offline, candidate_back_online,
  candidate_bond_less_requested,
}
use hackathon_parity_eu.Staking.Delegator.{
  on_ledger, rm_delegation, delegation_remove_request_with_state,
}
use hackathon_parity_eu.Staking.Candidate.{
  new, is_active, is_leaving, go_offline, go_online, update_active, schedule_leave, can_leave,
  get_collator_stakable_free_balance, bond_more, schedule_bond_less, execute_bond_less,
  cancel_bond_less,
}

-- `ensure_signed`
unfoldable pub signer : Origin → Option ℕ
signer root = none
signer (signed who) = some who
signer (custom n) = none

module _ (c : Config) where
  abbrev pub ensure_signed : Origin → Action c ℕ
  ensure_signed origin = ok_or (signer origin) bad_origin

  abbrev pub get_candidate : ℕ → Action c CandidateMetadata
  get_candidate who = do
    found ← gets (λ s. lookup who s.candidate_info)
    ok_or found (error candidate_dne)

  abbrev pub put_candidate : ℕ → CandidateMetadata → Action c (Unit {0})
  put_candidate who m = modify (λ s. record s { candidate_info = insert who m s.candidate_info })

  abbrev put_pool : Set.OrderedSet Bond → Action c (Unit {0})
  put_pool pool = modify (λ s. record s { candidate_pool = pool })

  abbrev is_whitelisted : ℕ → Storage c → Bool
  is_whitelisted who s = elem who (c.whitelist.candidates s.whitelist)

  -- A candidate of the other collator pallet leaves it, at a lower minimum.
  unfoldable pub leave_whitelist : ℕ → ℕ → Action c (Unit {0})
  leave_whitelist who bond = do
    ensure (leb c.min_whitelist_candidate_stk bond) (error candidate_bond_below_min)
    left ← gets (λ s. c.whitelist.leave_intent who s.whitelist)
    store ← ok_or left (error candidate_cannot_leave_yet)
    modify (λ s. record s { whitelist = store })
    still ← gets (is_whitelisted who)
    ensure (not still) (error candidate_exists)

  unfoldable pub join_candidates : Origin → ℕ → ℕ → Action c (Unit {0})
  unfolding leave_whitelist signer get_collator_stakable_free_balance
  join_candidates origin bond candidate_count = do
    acc ← ensure_signed origin
    candidate ← gets (λ s. contains_key acc s.candidate_info)
    ensure (not candidate) (error candidate_exists)
    delegator ← gets (λ s. contains_key acc s.delegator_state)
    ensure (not delegator) (error delegator_exists)
    whitelisted ← gets (is_whitelisted acc)
    (if whitelisted
        then leave_whitelist acc bond
        else ensure (leb c.min_candidate_stk bond) (error candidate_bond_below_min))
    pool ← gets (λ s. s.candidate_pool)
    ensure (leb (Set.len pool) candidate_count)
        (error too_low_candidate_count_weight_hint_join_candidates)
    let (pool', inserted) = Set.insert (record { owner = acc; amount = bond }) pool
    ensure inserted (error candidate_exists)
    free ← gets (get_collator_stakable_free_balance c acc)
    ensure (leb bond free) (error insufficient_balance)
    on_ledger c (c.currency.set_lock collator_lock acc bond)
    put_candidate acc (new bond)
    modify (λ s. record s { top_delegations = insert acc no_delegations s.top_delegations })
    modify (λ s. record s { bottom_delegations = insert acc no_delegations s.bottom_delegations })
    put_pool pool'
    new_total ← gets (λ s. saturating_add s.total bond)
    modify (λ s. record s { total = new_total })
    deposit_event (joined_collator_candidates acc bond new_total)

  unfoldable pub schedule_leave_candidates : Origin → ℕ → Action c (Unit {0})
  unfolding signer schedule_leave
  schedule_leave_candidates origin candidate_count = do
    collator ← ensure_signed origin
    m ← get_candidate collator
    (m', now, due) ← schedule_leave c m
    pool ← gets (λ s. s.candidate_pool)
    ensure (leb (Set.len pool) candidate_count) (error too_low_candidate_count_to_leave_candidates)
    let (pool', removed) = Set.remove (from_owner collator) pool
    only_if removed (put_pool pool')
    put_candidate collator m'
    deposit_event (candidate_scheduled_exit now collator due)

  unfoldable pub return_stake : ℕ → Bond → Action c (Unit {0})
  unfolding rm_delegation delegation_remove_request_with_state
  return_stake candidate bond = do
    found ← gets (λ s. lookup bond.owner s.delegator_state)
    delegator ← ok_or found (error invalid_state)
    (delegator', remaining) ← rm_delegation c candidate delegator
    elim remaining [
      | none ↦ on_ledger c (c.currency.remove_lock delegator_lock bond.owner)
      | some n ↦ do
        delegator'' ← delegation_remove_request_with_state c candidate bond.owner delegator'
        if n == 0
            then (do
              modify (λ s. record s { delegator_state = remove bond.owner s.delegator_state })
              on_ledger c (c.currency.remove_lock delegator_lock bond.owner))
            else modify (λ s. record s {
              delegator_state = insert bond.owner delegator'' s.delegator_state;
            })
    ]

  unfoldable pub execute_leave_candidates : Origin → ℕ → ℕ → Action c (Unit {0})
  unfolding signer can_leave return_stake
  execute_leave_candidates origin candidate candidate_delegation_count = do
    caller ← ensure_signed origin
    m ← get_candidate candidate
    ensure (leb m.delegation_count candidate_delegation_count)
        (error too_low_candidate_delegation_count_to_leave_candidates)
    can_leave c m
    found_top ← gets (λ s. lookup candidate s.top_delegations)
    top ← ok_or found_top (error invalid_state)
    modify (λ s. record s { top_delegations = remove candidate s.top_delegations })
    for_each (return_stake candidate) top.delegations
    found_bottom ← gets (λ s. lookup candidate s.bottom_delegations)
    bottom ← ok_or found_bottom (error invalid_state)
    modify (λ s. record s { bottom_delegations = remove candidate s.bottom_delegations })
    for_each (return_stake candidate) bottom.delegations
    let total_backing = saturating_add (saturating_add m.bond top.total) bottom.total
    on_ledger c (c.currency.remove_lock collator_lock candidate)
    modify (λ s. record s {
      candidate_info = remove candidate s.candidate_info;
      delegation_scheduled_requests = remove candidate s.delegation_scheduled_requests;
      top_delegations = remove candidate s.top_delegations;
      bottom_delegations = remove candidate s.bottom_delegations;
    })
    new_total_staked ← gets (λ s. s.total - total_backing)
    modify (λ s. record s { total = new_total_staked })
    deposit_event (candidate_left candidate total_backing new_total_staked)

  unfoldable pub cancel_leave_candidates : Origin → ℕ → Action c (Unit {0})
  unfolding signer is_leaving go_online
  cancel_leave_candidates origin candidate_count = do
    collator ← ensure_signed origin
    m ← get_candidate collator
    ensure (is_leaving m) (error candidate_not_leaving)
    pool ← gets (λ s. s.candidate_pool)
    ensure (leb (Set.len pool) candidate_count)
        (error too_low_candidate_count_weight_hint_cancel_leave_candidates)
    let (pool', inserted) = Set.insert (record { owner = collator; amount = m.total_counted }) pool
    ensure inserted (error already_active)
    put_pool pool'
    put_candidate collator (go_online m)
    deposit_event (cancelled_candidate_exit collator)

  -- The call `go_offline`.
  unfoldable pub leave_pool : Origin → Action c (Unit {0})
  unfolding signer is_active go_offline
  leave_pool origin = do
    collator ← ensure_signed origin
    m ← get_candidate collator
    ensure (is_active m) (error already_offline)
    pool ← gets (λ s. s.candidate_pool)
    let (pool', removed) = Set.remove (from_owner collator) pool
    only_if removed (put_pool pool')
    put_candidate collator (go_offline m)
    deposit_event (candidate_went_offline collator)

  -- The call `go_online`.
  unfoldable pub rejoin_pool : Origin → Action c (Unit {0})
  unfolding signer is_active is_leaving go_online
  rejoin_pool origin = do
    collator ← ensure_signed origin
    m ← get_candidate collator
    ensure (not (is_active m)) (error already_active)
    ensure (not (is_leaving m)) (error cannot_go_online_if_leaving)
    pool ← gets (λ s. s.candidate_pool)
    let (pool', inserted) = Set.insert (record { owner = collator; amount = m.total_counted }) pool
    ensure inserted (error already_active)
    put_pool pool'
    put_candidate collator (go_online m)
    deposit_event (candidate_back_online collator)

  unfoldable pub candidate_bond_more : Origin → ℕ → Action c (Unit {0})
  unfolding signer bond_more is_active update_active
  candidate_bond_more origin more = do
    collator ← ensure_signed origin
    m ← get_candidate collator
    m' ← bond_more c collator more m
    put_candidate collator m'
    only_if (is_active m') (update_active c collator m'.total_counted)

  unfoldable pub schedule_candidate_bond_less : Origin → ℕ → Action c (Unit {0})
  unfolding signer schedule_bond_less
  schedule_candidate_bond_less origin less = do
    collator ← ensure_signed origin
    m ← get_candidate collator
    (m', due) ← schedule_bond_less c less m
    put_candidate collator m'
    deposit_event (candidate_bond_less_requested collator less due)

  unfoldable pub execute_candidate_bond_less : Origin → ℕ → Action c (Unit {0})
  unfolding signer execute_bond_less
  execute_candidate_bond_less origin candidate = do
    caller ← ensure_signed origin
    m ← get_candidate candidate
    m' ← execute_bond_less c candidate m
    put_candidate candidate m'

  unfoldable pub cancel_candidate_bond_less : Origin → Action c (Unit {0})
  unfolding signer cancel_bond_less
  cancel_candidate_bond_less origin = do
    collator ← ensure_signed origin
    m ← get_candidate collator
    m' ← cancel_bond_less c collator m
    put_candidate collator m'
