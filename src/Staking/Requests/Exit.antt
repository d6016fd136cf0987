-- ===== src/Staking/Requests/Exit.antt =====
-- pallets/parachain-staking/src/delegation_requests.rs: a delegator's requests to revoke all of its
-- delegations.
use hackathon_parity_eu.Prelude.{
  ℕ, ◌+◌, Bool, true, false, not, ◌&&◌, leb, ◌==◌, if◌then◌else◌, Option, none, some, List, [], ◌∷◌,
  ◌++◌, ok, err, pure, ensure, ok_or, gets, for_each, ◌>>=◌, ◌>>◌,
}
use hackathon_parity_eu.Staking.Set as Set
use hackathon_parity_eu.Staking.Bond.{Bond, bond_ord, saturating_add, saturating_add_u32}
use hackathon_parity_eu.Staking.Pallet.{
  Config, error, panic, delegator_already_leaving, delegator_not_leaving,
  delegator_cannot_leave_yet, too_low_delegation_count_to_leave_delegators, DelegatorStatus,
  Delegator, revoke, ScheduledRequest, Storage, Action, deposit_event, delegator_exit_scheduled,
  delegator_exit_cancelled, delegator_left,
}
use hackathon_parity_eu.Staking.Delegator.{
  is_revoke, has_revoke, cancel_request_with_state, total_sub, requests_of, put_requests,
  delegation_remove_request_with_state,
}
use hackathon_parity_eu.Staking.Requests.{
  get_state, put_state, remove_state, delegator_leaves_candidate,
}

abbrev pub Updates : Type 0
Updates = List (ℕ × List ScheduledRequest)

-- The first revocation of the delegator, and the list without it.
unfoldable pub take_revoke :
    ℕ → List ScheduledRequest → Option (ScheduledRequest × List ScheduledRequest)
unfolding is_revoke
take_revoke delegator [] = none
take_revoke delegator (r ∷ rs) =
    if r.delegator == delegator && is_revoke r.action
    then some (r, rs)
    else elim (take_revoke delegator rs) [ none ↦ none | some (q, qs) ↦ some (q, r ∷ qs) ]

-- The request to insert: a revocation that was cancelled, or a new one; and whether it is an old one.
revoke_again : ℕ → ℕ → ℕ → Option ScheduledRequest → ScheduledRequest × Bool
unfolding is_revoke
revoke_again delegator due bonded none =
    (record { delegator = delegator; when_executable = due; action = revoke bonded }, false)
revoke_again delegator due bonded (some r) =
    if is_revoke r.action
    then (r, true)
    else (record { delegator = delegator; when_executable = due; action = revoke bonded }, false)

-- `cancel_request_with_state` where there may be no request.
abbrev cancelled :
    ℕ
    → Delegator
    → List ScheduledRequest
    → Option ScheduledRequest × Delegator × List ScheduledRequest
cancelled delegator state requests = elim (cancel_request_with_state delegator state requests) [
  | none ↦ (none, state, requests)
  | some (r, state', rest) ↦ (some r, state', rest)
]

unfoldable pub leaving_status : DelegatorStatus → Option ℕ
leaving_status DelegatorStatus.active = none
leaving_status (DelegatorStatus.leaving r) = some r

module _ (c : Config) where
  -- The loop over the delegations: the new state, the lists to store, and the number of old revocations.
  unfoldable pub schedule_each :
      Storage c → ℕ → ℕ → List Bond → Delegator → Updates → ℕ → Delegator × Updates × ℕ
  unfolding revoke_again cancel_request_with_state requests_of
  schedule_each s delegator due [] state updates count = (state, updates, count)
  schedule_each s delegator due (b ∷ bs) state updates count =
      let (request, state', rest) = cancelled delegator state (requests_of c b.owner s) in
      let (again, old) = revoke_again delegator due b.amount request in
      schedule_each s delegator due bs
        (record state' { less_total = saturating_add state'.less_total b.amount })
        (updates ++ (b.owner, rest ++ again ∷ []) ∷ []) (if old then count + 1 else count)

  abbrev pub put_all : Updates → Action c (Unit {0})
  put_all = for_each (λ (u : ℕ × List ScheduledRequest). put_requests c u.0 u.1)

  unfoldable pub delegator_schedule_revoke_all : ℕ → Action c (Unit {0})
  unfolding leaving_status schedule_each
  delegator_schedule_revoke_all delegator = do
    old ← get_state c delegator
    now ← gets (λ s. s.round.current)
    let due = saturating_add_u32 now c.leave_delegators_delay
    state ← elim (leaving_status old.status) [
      | none ↦ pure old
      | some r ↦ do
        let active = record old { status = DelegatorStatus.active }
        put_state c delegator active
        pure active
    ]
    (state', updates, existing_revoke_count) ←
        gets (λ s. schedule_each s delegator due state.delegations.elements state [] 0)
    ensure (not (existing_revoke_count == Set.len state'.delegations))
        (error delegator_already_leaving)
    put_all updates
    put_state c delegator state'
    deposit_event (delegator_exit_scheduled now delegator due)

  -- Every delegation has a revocation of the delegator.
  all_have_revoke : Storage c → ℕ → List Bond → Bool
  unfolding has_revoke requests_of
  all_have_revoke s delegator [] = true
  all_have_revoke s delegator (b ∷ bs) =
      has_revoke delegator (requests_of c b.owner s) && all_have_revoke s delegator bs

  unfoldable pub cancel_each : Storage c → ℕ → List Bond → Delegator → Updates → Delegator × Updates
  unfolding cancel_request_with_state requests_of
  cancel_each s delegator [] state updates = (state, updates)
  cancel_each s delegator (b ∷ bs) state updates =
      let (request, state', rest) = cancelled delegator state (requests_of c b.owner s) in
      cancel_each s delegator bs state' (updates ++ (b.owner, rest) ∷ [])

  unfoldable pub delegator_cancel_scheduled_revoke_all : ℕ → Action c (Unit {0})
  unfolding leaving_status all_have_revoke cancel_each
  delegator_cancel_scheduled_revoke_all delegator = do
    state ← get_state c delegator
    elim (leaving_status state.status) [
      | some r ↦ do
        put_state c delegator (record state { status = DelegatorStatus.active })
        deposit_event (delegator_exit_cancelled delegator)
      | none ↦ do
        revoked ← gets (λ s. all_have_revoke s delegator state.delegations.elements)
        ensure revoked (error delegator_not_leaving)
        (state', updates) ← gets (λ s. cancel_each s delegator state.delegations.elements state [])
        put_all updates
        put_state c delegator state'
        deposit_event (delegator_exit_cancelled delegator)
    ]

  -- An error is logged and dropped; it is returned before any write.
  abbrev pub logged : Action c (Unit {0}) → Action c (Unit {0})
  logged m s = elim (m s) [ ok r ↦ ok r | err e ↦ elim e [ panic ↦ err panic | _ ↦ ok (tt, s) ] ]

  unfoldable pub leave_each : ℕ → List Bond → Delegator → Action c Delegator
  unfolding delegator_leaves_candidate delegation_remove_request_with_state
  leave_each delegator [] state = pure state
  leave_each delegator (b ∷ bs) state = do
    logged (delegator_leaves_candidate c b.owner delegator b.amount)
    state' ← delegation_remove_request_with_state c b.owner delegator state
    leave_each delegator bs state'

  -- The requests that are left at each collator, where every delegation has a revocation that is due.
  unfoldable pub validate_each : ℕ → ℕ → List Bond → Action c (List (Bond × List ScheduledRequest))
  unfolding take_revoke requests_of
  validate_each delegator now [] = pure []
  validate_each delegator now (b ∷ bs) = do
    requests ← gets (requests_of c b.owner)
    (request, rest) ← ok_or (take_revoke delegator requests) (error delegator_not_leaving)
    ensure (leb request.when_executable now) (error delegator_cannot_leave_yet)
    others ← validate_each delegator now bs
    pure ((b, rest) ∷ others)

  abbrev pub updates_of : List (Bond × List ScheduledRequest) → Updates
  updates_of [] = []
  updates_of ((b, rest) ∷ others) = (b.owner, rest) ∷ updates_of others

  unfoldable pub delegator_execute_scheduled_revoke_all : ℕ → ℕ → Action c (Unit {0})
  unfolding leaving_status leave_each validate_each delegator_leaves_candidate total_sub
  delegator_execute_scheduled_revoke_all delegator delegation_count = do
    state ← get_state c delegator
    ensure (leb (Set.len state.delegations) delegation_count)
        (error too_low_delegation_count_to_leave_delegators)
    now ← gets (λ s. s.round.current)
    elim (leaving_status state.status) [
      | some due ↦ do
        ensure (leb due now) (error delegator_cannot_leave_yet)
        state' ← leave_each delegator state.delegations.elements state
        remove_state c delegator
        deposit_event (delegator_left delegator state'.total)
      | none ↦ do
        validated ← validate_each delegator now state.delegations.elements
        for_each
            (λ (v : Bond × List ScheduledRequest).
              logged (delegator_leaves_candidate c v.0.owner delegator v.0.amount))
            validated
        state' ← total_sub c state.total state
        put_all (updates_of validated)
        deposit_event (delegator_left delegator state.total)
        remove_state c delegator
    ]
