-- ===== src/Staking/Requests/Laws.antt =====
-- pallets/parachain-staking/src/delegation_requests.rs: what scheduling and cancelling a request do to
-- the requests and to the delegator.
use hackathon_parity_eu.Prelude.{
  ℕ, ◌+◌, ◌-◌, ◌≤◌, ◌<◌, ◌≡◌, refl, sym, subst, true, false, some, List, [], ◌∷◌, ◌++◌, inl, inr,
  Option-cases, lookup, insert, nat_key, Result, ok, err, lookup-remove, lookup_after_insert, arith,
  ◌^◌,
}
use hackathon_parity_eu.Staking.Bond.{saturating_add, saturating_add_u32}
use hackathon_parity_eu.Staking.Pallet.{
  Config, Storage, Fault, Delegator, revoke, decrease, ScheduledRequest, error,
  cancelled_delegation_request, pending_delegation_request_already_exists,
  pending_delegation_request_not_due_yet,
}
use hackathon_parity_eu.Staking.Delegator.{
  amount, take_request, has_request, requests_of, or_default, get_bond_amount,
}
use hackathon_parity_eu.Staking.Requests.{
  delegation_schedule_revoke, delegation_schedule_bond_decrease, delegation_cancel_request,
  delegation_execute_scheduled_request,
}

saturating_add-small : (a b : ℕ) → a + b ≤ 2 ^ 128 - 1 → saturating_add a b ≡ a + b
unfolding saturating_add
saturating_add-small a b h = omega arith

has_request-append :
    (r : ScheduledRequest) (rs : List ScheduledRequest)
    → has_request r.delegator (rs ++ r ∷ []) ≡ true
unfolding has_request
has_request-append r [] = ground arith
has_request-append r (q ∷ qs) = ground (arith, has_request-append r qs)

-- A request that was appended where the delegator had none is the one that is taken.
take_request-append :
    (r : ScheduledRequest) (rs : List ScheduledRequest)
    → has_request r.delegator rs ≡ false
    → take_request r.delegator (rs ++ r ∷ []) ≡ some (r, rs)
unfolding take_request has_request
take_request-append r [] h = ground arith
take_request-append r (q ∷ qs) h = ground (arith, take_request-append r qs)

abbrev pub bonded : ℕ → Delegator → ℕ
bonded collator state = or_default 0 (get_bond_amount collator state)

-- What a call that schedules a request asks for.
pub data Wish : Type 0 where
  leave : Wish
  lower : ℕ → Wish

module _ (c : Config) where
  -- `delegation_schedule_revoke` or `delegation_schedule_bond_decrease`
  unfoldable pub schedule : Wish → ℕ → ℕ → Storage c → Result Fault (Unit {0} × Storage c)
  schedule leave = delegation_schedule_revoke c
  schedule (lower n) =
      λ collator delegator. delegation_schedule_bond_decrease c collator delegator n

  -- The request stands at the end of the collator's list, and its amount among what the delegator is
  -- about to lose.
  abbrev pub Schedules : ℕ → ℕ → Delegator → ScheduledRequest → Storage c → Storage c → Type 0
  Schedules collator delegator state r s s' =
      (lookup delegator s.delegator_state ≡ some state)
      × (has_request delegator (requests_of c collator s) ≡ false)
      × (r.delegator ≡ delegator)
      × (r.when_executable ≡ saturating_add_u32 s.round.current c.revoke_delegation_delay)
      × (s'.delegation_scheduled_requests
          ≡ insert collator (requests_of c collator s ++ r ∷ []) s.delegation_scheduled_requests)
      × (s'.delegator_state
          ≡ insert delegator
              (record state { less_total = saturating_add state.less_total (amount r.action) })
              s.delegator_state)

  schedule_revoke-Schedules :
      (collator delegator : ℕ) (s s' : Storage c)
      → delegation_schedule_revoke c collator delegator s ≡ ok (tt, s')
      → (state : Delegator) × (r : ScheduledRequest) × Schedules collator delegator state r s s'
        × (amount r.action ≤ bonded collator state)
  unfolding delegation_schedule_revoke amount
  schedule_revoke-Schedules collator delegator s s' h =
      elim (Option-cases (lookup delegator s.delegator_state)) [
        | inl e ↦ absurd (ground arith)
        | inr (state, e) ↦ elim (Option-cases (get_bond_amount collator state)) [
          | inl b ↦ absurd (ground arith)
          | inr (n, b) ↦ (
            state,
            record {
              delegator = delegator;
              when_executable = saturating_add_u32 s.round.current c.revoke_delegation_delay;
              action = revoke n;
            },
            (e, ground arith, refl, refl, ground arith, ground arith),
            ground arith,
          )
        ]
      ]

  schedule_bond_decrease-Schedules :
      (collator delegator n : ℕ) (s s' : Storage c)
      → delegation_schedule_bond_decrease c collator delegator n s ≡ ok (tt, s')
      → (state : Delegator) × (r : ScheduledRequest) × Schedules collator delegator state r s s'
        × (amount r.action ≤ bonded collator state)
  unfolding delegation_schedule_bond_decrease amount
  schedule_bond_decrease-Schedules collator delegator n s s' h =
      elim (Option-cases (lookup delegator s.delegator_state)) [
        | inl e ↦ absurd (ground arith)
        | inr (state, e) ↦ elim (Option-cases (get_bond_amount collator state)) [
          | inl b ↦ absurd (ground arith)
          | inr (m, b) ↦ (
            state,
            record {
              delegator = delegator;
              when_executable = saturating_add_u32 s.round.current c.revoke_delegation_delay;
              action = decrease n;
            },
            (e, ground arith, refl, refl, ground arith, ground arith),
            ground arith,
          )
        ]
      ]

  schedule-Schedules :
      (w : Wish) (collator delegator : ℕ) (s s' : Storage c)
      → schedule w collator delegator s ≡ ok (tt, s')
      → (state : Delegator) × (r : ScheduledRequest) × Schedules collator delegator state r s s'
        × (amount r.action ≤ bonded collator state)
  unfolding schedule
  schedule-Schedules leave collator delegator s s' h =
      schedule_revoke-Schedules collator delegator s s' h
  schedule-Schedules (lower n) collator delegator s s' h =
      schedule_bond_decrease-Schedules collator delegator n s s' h

  requests_after :
      (collator : ℕ) (list : List ScheduledRequest) (s s' : Storage c)
      → s'.delegation_scheduled_requests ≡ insert collator list s.delegation_scheduled_requests
      → requests_of c collator s' ≡ list
  unfolding requests_of
  requests_after collator list s s' e = ground (
    arith,
    lookup_after_insert collator collator list s.delegation_scheduled_requests
        s'.delegation_scheduled_requests e,
  )

  cancel-as :
      (collator delegator : ℕ) (state : Delegator) (r : ScheduledRequest) (s s' : Storage c)
      → Schedules collator delegator state r s s'
      → state.less_total + amount r.action ≤ 2 ^ 128 - 1
      → (s'' : Storage c) × (delegation_cancel_request c collator delegator s' ≡ ok (tt, s''))
        × ((k : ℕ) → requests_of c k s'' ≡ requests_of c k s)
        × ((k : ℕ) → lookup k s''.delegator_state ≡ lookup k s.delegator_state)
  unfolding delegation_cancel_request
  cancel-as collator delegator state r s s' (found, none_yet, own, due, reqs, states) small =
      let old : List ScheduledRequest = requests_of c collator s in
      let list : List ScheduledRequest = old ++ r ∷ [] in
      let e1 : lookup collator s'.delegation_scheduled_requests ≡ some list = ground (
        arith,
        lookup_after_insert collator collator list s.delegation_scheduled_requests
            s'.delegation_scheduled_requests reqs,
      ) in
      let e2 : take_request delegator list ≡ some (r, old) =
        subst (λ d. take_request d list ≡ some (r, old)) own
          (take_request-append r old (subst (λ d. has_request d old ≡ false) (sym own) none_yet)) in
      let after : Delegator = record state { less_total = state.less_total + amount r.action } in
      let e3 : lookup delegator s'.delegator_state ≡ some after = ground (
        arith,
        saturating_add-small state.less_total (amount r.action) small,
        lookup_after_insert delegator delegator
            (record state { less_total = saturating_add state.less_total (amount r.action) })
            s.delegator_state s'.delegator_state states,
      ) in
      (
        record s' {
          delegation_scheduled_requests = insert collator old s'.delegation_scheduled_requests;
          delegator_state = insert delegator state s'.delegator_state;
          events =
              s'.events
              ++ cancelled_delegation_request delegator r.when_executable r.action collator ∷ [];
        },
        ground (arith, e1, e2, e3),
        λ k. ground (
          arith,
          lookup-remove k collator s'.delegation_scheduled_requests,
          lookup_after_insert k collator list s.delegation_scheduled_requests
              s'.delegation_scheduled_requests reqs,
        ),
        λ k. ground (
          arith,
          lookup-remove k delegator s'.delegator_state,
          lookup_after_insert k delegator
              (record state { less_total = saturating_add state.less_total (amount r.action) })
              s.delegator_state s'.delegator_state states,
        ),
      )

  -- A request that was scheduled, a revocation or a decrease, can be cancelled at once by its delegator;
  -- that leaves every collator's requests and every delegator as they were before, where what the
  -- delegator is about to lose fits a balance.
  pub cancel-schedule :
      (w : Wish) (collator delegator n : ℕ) (state : Delegator) (s s' : Storage c)
      → schedule w collator delegator s ≡ ok (tt, s')
      → lookup delegator s.delegator_state ≡ some state
      → get_bond_amount collator state ≡ some n
      → state.less_total + n ≤ 2 ^ 128 - 1
      → (s'' : Storage c) × (delegation_cancel_request c collator delegator s' ≡ ok (tt, s''))
        × ((k : ℕ) → requests_of c k s'' ≡ requests_of c k s)
        × ((k : ℕ) → lookup k s''.delegator_state ≡ lookup k s.delegator_state)
  cancel-schedule w collator delegator n state s s' h e b small =
      let (state', r, laws, le) = schedule-Schedules w collator delegator s s' h in
      let same : state ≡ state' = cc (e, laws.0) in
      cancel-as collator delegator state r s s'
        (subst (λ d. Schedules collator delegator d r s s') (sym same) laws)
        (ground (arith, same, le))

  -- A delegator with a request towards a collator cannot schedule another.
  schedule-exists :
      (w : Wish) (collator delegator : ℕ) (state : Delegator) (s : Storage c)
      → lookup delegator s.delegator_state ≡ some state
      → has_request delegator (requests_of c collator s) ≡ true
      → schedule w collator delegator s ≡ err (error pending_delegation_request_already_exists)
  unfolding schedule delegation_schedule_revoke delegation_schedule_bond_decrease
  schedule-exists leave collator delegator state s e h = ground arith
  schedule-exists (lower n) collator delegator state s e h = ground arith

  execute-not_due :
      (collator delegator : ℕ) (state : Delegator) (r : ScheduledRequest)
      (rest : List ScheduledRequest) (s : Storage c)
      → lookup delegator s.delegator_state ≡ some state
      → take_request delegator (requests_of c collator s) ≡ some (r, rest)
      → s.round.current < r.when_executable
      → delegation_execute_scheduled_request c collator delegator s
        ≡ err (error pending_delegation_request_not_due_yet)
  unfolding delegation_execute_scheduled_request
  execute-not_due collator delegator state r rest s e t h = ground arith

  schedule-round :
      (w : Wish) (collator delegator : ℕ) (s s' : Storage c)
      → schedule w collator delegator s ≡ ok (tt, s')
      → s'.round.current ≡ s.round.current
  unfolding schedule delegation_schedule_revoke delegation_schedule_bond_decrease
  schedule-round leave collator delegator s s' h = ground arith
  schedule-round (lower n) collator delegator s s' h = ground arith

  -- A request that was scheduled, a revocation or a decrease, stands behind the collator's earlier
  -- requests and is due `RevokeDelegationDelay` rounds later. Where that is a later round, the request
  -- cannot be executed in the same round, and no other can be scheduled for the same delegation.
  pub schedule-waits :
      (w w' : Wish) (collator delegator : ℕ) (s s' : Storage c)
      → schedule w collator delegator s ≡ ok (tt, s')
      → s.round.current < saturating_add_u32 s.round.current c.revoke_delegation_delay
      → (r : ScheduledRequest) × (requests_of c collator s' ≡ requests_of c collator s ++ r ∷ [])
        × (r.delegator ≡ delegator)
        × (r.when_executable ≡ saturating_add_u32 s.round.current c.revoke_delegation_delay)
        × (schedule w' collator delegator s'
            ≡ err (error pending_delegation_request_already_exists))
        × (delegation_execute_scheduled_request c collator delegator s'
            ≡ err (error pending_delegation_request_not_due_yet))
  schedule-waits w w' collator delegator s s' h later =
      let (state, r, laws, le) = schedule-Schedules w collator delegator s s' h in
      let (e, none_yet, own, due, reqs, states) = laws in
      let old : List ScheduledRequest = requests_of c collator s in
      let list : requests_of c collator s' ≡ old ++ r ∷ [] =
        requests_after collator (old ++ r ∷ []) s s' reqs in
      let after : Delegator = record state {
        less_total = saturating_add state.less_total (amount r.action);
      } in
      let e' : lookup delegator s'.delegator_state ≡ some after = ground (
        arith,
        lookup_after_insert delegator delegator after s.delegator_state s'.delegator_state states,
      ) in
      (
        r,
        list,
        own,
        due,
        schedule-exists w' collator delegator after s' e' (
            rw list
              (subst (λ d. has_request d (old ++ r ∷ []) ≡ true) own (has_request-append r old))),
        execute-not_due collator delegator after r old s' e'
            (rw list (
              subst (λ d. take_request d (old ++ r ∷ []) ≡ some (r, old)) own
                (take_request-append r old
                  (subst (λ d. has_request d old ≡ false) (sym own) none_yet))))
            (omega (arith, schedule-round w collator delegator s s' h)),
      )
