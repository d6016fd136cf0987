-- ===== src/Staking/Pool/Exits.antt =====
-- The exit of a delegator, pallets/parachain-staking/src/delegation_requests.rs, and the candidate pool.
use hackathon_parity_eu.Prelude.{
  ℕ, ◌≡◌, refl, lookup, nat_key, ok, arith, Option-cases, Result-cases, inl, inr, List, [], ◌∷◌,
  for_each, bind-ok, insert, ◌⊎◌,
}
use hackathon_parity_eu.Staking.Bond.{Bond, bond_ord, saturating_add_u32}
use hackathon_parity_eu.Staking.Pallet.{
  Config, Storage, Delegator, ScheduledRequest, Action, DelegatorStatus, DelegationAction, revoke,
  decrease,
}
use hackathon_parity_eu.Staking.Delegator.{
  total_sub, adjust_bond_lock, check_increase, take_request, requests_of,
  delegation_remove_request_with_state, put_requests,
}
use hackathon_parity_eu.Staking.Requests.{
  delegator_leaves_candidate, delegation_execute_scheduled_request,
}
use hackathon_parity_eu.Staking.Requests.Exit.{
  Updates, leaving_status, put_all, updates_of, logged, leave_each, validate_each, schedule_each,
  cancel_each, delegator_schedule_revoke_all, delegator_cancel_scheduled_revoke_all,
  delegator_execute_scheduled_revoke_all,
}
use hackathon_parity_eu.Staking.Pool.{IsPooled, PoolSame, same-IsPooled, for_each-PoolSame}
use hackathon_parity_eu.Staking.Pool.Delegators.{
  delegator_leaves_candidate-IsPooled, execute_revoke-IsPooled, execute_decrease-IsPooled,
}

action_cases : (a : DelegationAction) → ((n : ℕ) × (a ≡ revoke n)) ⊎ ((n : ℕ) × (a ≡ decrease n))
action_cases (revoke n) = inl (n, refl)
action_cases (decrease n) = inr (n, refl)

module _ (c : Config) where
  for_each-IsPooled :
      {A : Type 0} (body : A → Action c (Unit {0})) (xs : List A) (s s' : Storage c)
      → ((x : A) (t t' : Storage c) → IsPooled c t → body x t ≡ ok (tt, t') → IsPooled c t')
      → IsPooled c s
      → for_each body xs s ≡ ok (tt, s')
      → IsPooled c s'
  for_each-IsPooled body [] s s' keep v h = same-IsPooled c s s' v (ground arith) (ground arith)
  for_each-IsPooled body (x ∷ xs) s s' keep v h =
      let (u, s₁, e, rest) = bind-ok (body x) (λ u. for_each body xs) s tt s' h in
      for_each-IsPooled body xs s₁ s' keep (keep x s s₁ v e) rest

  logged-IsPooled :
      (m : Action c (Unit {0})) (s s' : Storage c)
      → ((t : Storage c) → m s ≡ ok (tt, t) → IsPooled c t)
      → IsPooled c s
      → logged c m s ≡ ok (tt, s')
      → IsPooled c s'
  logged-IsPooled m s s' keep v h = elim (Result-cases (m s)) [
    | inl ((u, t), e) ↦ same-IsPooled c t s' (keep t (ground arith)) (ground arith) (ground arith)
    | inr (f, e) ↦ same-IsPooled c s s' v (ground arith) (ground arith)
  ]

  leave-IsPooled :
      (who delegator n : ℕ) (s s' : Storage c)
      → IsPooled c s
      → logged c (delegator_leaves_candidate c who delegator n) s ≡ ok (tt, s')
      → IsPooled c s'
  leave-IsPooled who delegator n s s' v h =
      logged-IsPooled (delegator_leaves_candidate c who delegator n) s s'
        (λ t e. delegator_leaves_candidate-IsPooled c who delegator n s t v e) v h

  put_all-PoolSame :
      (updates : Updates) (s s' : Storage c) → put_all c updates s ≡ ok (tt, s') → PoolSame c s s'
  put_all-PoolSame updates s s' h =
      for_each-PoolSame c (λ (u : ℕ × List ScheduledRequest). put_requests c u.0 u.1) updates s s'
        (λ x t t' e. (ground arith, ground arith)) h

  remove_request-Same :
      (who delegator : ℕ) (d d' : Delegator) (s s' : Storage c)
      → delegation_remove_request_with_state c who delegator d s ≡ ok (d', s')
      → PoolSame c s s'
  unfolding delegation_remove_request_with_state
  remove_request-Same who delegator d d' s s' h = ground arith

  leave_each-IsPooled :
      (delegator : ℕ) (bs : List Bond) (d d' : Delegator) (s s' : Storage c)
      → IsPooled c s
      → leave_each c delegator bs d s ≡ ok (d', s')
      → IsPooled c s'
  unfolding leave_each
  leave_each-IsPooled delegator [] d d' s s' v h =
      same-IsPooled c s s' v (ground arith) (ground arith)
  leave_each-IsPooled delegator (b ∷ bs) d d' s s' v h =
      elim (Result-cases (logged c (delegator_leaves_candidate c b.owner delegator b.amount) s)) [
        | inr (f, failed) ↦ absurd (ground arith)
        | inl ((u, s₁), e) ↦
            let v₁ = leave-IsPooled b.owner delegator b.amount s s₁ v (ground arith) in
            elim (Result-cases (delegation_remove_request_with_state c b.owner delegator d s₁)) [
              | inr (f, failed) ↦ absurd (ground arith)
              | inl ((d₂, s₂), e₂) ↦
                  let (pool, info) = remove_request-Same b.owner delegator d d₂ s₁ s₂ e₂ in
                  leave_each-IsPooled delegator bs d₂ d' s₂ s' (same-IsPooled c s₁ s₂ v₁ pool info)
                    (ground arith)
            ]
      ]

  validate_each-Same :
      (delegator now : ℕ) (bs : List Bond) (out : List (Bond × List ScheduledRequest))
      (s s' : Storage c)
      → validate_each c delegator now bs s ≡ ok (out, s')
      → s ≡ s'
  unfolding validate_each
  validate_each-Same delegator now [] out s s' h = ground arith
  validate_each-Same delegator now (b ∷ bs) out s s' h =
      elim (Result-cases (validate_each c delegator now bs s)) [
        | inr (f, failed) ↦ absurd (ground arith)
        | inl ((o, s₁), e) ↦ ground (arith, validate_each-Same delegator now bs o s s₁ e)
      ]

  total_sub-Same :
      (n : ℕ) (d d' : Delegator) (s s' : Storage c)
      → total_sub c n d s ≡ ok (d', s')
      → PoolSame c s s'
  unfolding total_sub adjust_bond_lock check_increase
  total_sub-Same n d d' s s' h = ground arith

  pub schedule_revoke_all-Same :
      (delegator : ℕ) (s s' : Storage c)
      → delegator_schedule_revoke_all c delegator s ≡ ok (tt, s')
      → PoolSame c s s'
  unfolding delegator_schedule_revoke_all
  schedule_revoke_all-Same delegator s s' h =
      elim (Option-cases (lookup delegator s.delegator_state)) [
        | inl gone ↦ absurd (ground arith)
        | inr (old, found) ↦
            let due = saturating_add_u32 s.round.current c.leave_delegators_delay in
            elim (Option-cases (leaving_status old.status)) [
              | inl none_yet ↦
                  let r = schedule_each c s delegator due old.delegations.elements old [] 0 in
                  elim (Result-cases (put_all c r.1 s)) [
                    | inr (f, failed) ↦ absurd (ground arith)
                    | inl ((u, s₁), e) ↦ ground (arith, put_all-PoolSame r.1 s s₁)
                  ]
              | inr (due_old, leaving) ↦
                  let active : Delegator = record old { status = DelegatorStatus.active } in
                  let s₀ : Storage c = record s {
                    delegator_state = insert delegator active s.delegator_state;
                  } in
                  let r =
                    schedule_each c s₀ delegator due active.delegations.elements active [] 0 in
                  elim (Result-cases (put_all c r.1 s₀)) [
                    | inr (f, failed) ↦ absurd (ground arith)
                    | inl ((u, s₁), e) ↦ ground (arith, put_all-PoolSame r.1 s₀ s₁)
                  ]
            ]
      ]

  pub cancel_revoke_all-Same :
      (delegator : ℕ) (s s' : Storage c)
      → delegator_cancel_scheduled_revoke_all c delegator s ≡ ok (tt, s')
      → PoolSame c s s'
  unfolding delegator_cancel_scheduled_revoke_all
  cancel_revoke_all-Same delegator s s' h =
      elim (Option-cases (lookup delegator s.delegator_state)) [
        | inl gone ↦ absurd (ground arith)
        | inr (old, found) ↦ elim (Option-cases (leaving_status old.status)) [
          | inl none_yet ↦
              let r = cancel_each c s delegator old.delegations.elements old [] in
              elim (Result-cases (put_all c r.1 s)) [
                | inr (f, failed) ↦ absurd (ground arith)
                | inl ((u, s₁), e) ↦ ground (arith, put_all-PoolSame r.1 s s₁)
              ]
          | inr (due_old, leaving) ↦ ground arith
        ]
      ]

  pub execute_revoke_all-IsPooled :
      (delegator count : ℕ) (s s' : Storage c)
      → IsPooled c s
      → delegator_execute_scheduled_revoke_all c delegator count s ≡ ok (tt, s')
      → IsPooled c s'
  unfolding delegator_execute_scheduled_revoke_all
  execute_revoke_all-IsPooled delegator count s s' v h =
      elim (Option-cases (lookup delegator s.delegator_state)) [
        | inl gone ↦ absurd (ground arith)
        | inr (d, found) ↦ elim (Option-cases (leaving_status d.status)) [
          | inr (due, leaving) ↦
              elim (Result-cases (leave_each c delegator d.delegations.elements d s)) [
                | inr (f, failed) ↦ absurd (ground arith)
                | inl ((d', s₁), e) ↦
                    same-IsPooled c s₁ s'
                      (leave_each-IsPooled delegator d.delegations.elements d d' s s₁ v e)
                      (ground arith) (ground arith)
              ]
          | inl new_way ↦
              elim (Result-cases
                (validate_each c delegator s.round.current d.delegations.elements s)) [
                  | inr (f, failed) ↦ absurd (ground arith)
                  | inl ((vs, s₁), e) ↦
                      let still =
                        validate_each-Same delegator s.round.current d.delegations.elements vs s s₁
                          e in
                      let body : Bond × List ScheduledRequest → Action c (Unit {0}) = λ x.
                        logged c (delegator_leaves_candidate c x.0.owner delegator x.0.amount) in
                      elim (Result-cases (for_each body vs s)) [
                        | inr (f, failed) ↦ absurd (ground arith)
                        | inl ((u, s₂), e₂) ↦
                            let v₂ =
                              for_each-IsPooled body vs s s₂
                                (λ x t t' w k.
                                  leave-IsPooled x.0.owner delegator x.0.amount t t' w k)
                                v e₂ in
                            elim (Result-cases (total_sub c d.total d s₂)) [
                              | inr (f, failed) ↦ absurd (ground arith)
                              | inl ((d', s₃), e₃) ↦
                                  elim (Result-cases (put_all c (updates_of c vs) s₃)) [
                                    | inr (f, failed) ↦ absurd (ground arith)
                                    | inl ((u', s₄), e₄) ↦
                                        same-IsPooled c s₂ s' v₂
                                          (ground (
                                            arith,
                                            total_sub-Same d.total d d' s₂ s₃ e₃,
                                            put_all-PoolSame (updates_of c vs) s₃ s₄,
                                          ))
                                          (ground (
                                            arith,
                                            total_sub-Same d.total d d' s₂ s₃ e₃,
                                            put_all-PoolSame (updates_of c vs) s₃ s₄,
                                          ))
                                  ]
                            ]
                      ]
                ]
        ]
      ]

  pub execute_request-IsPooled :
      (who delegator : ℕ) (s s' : Storage c)
      → IsPooled c s
      → delegation_execute_scheduled_request c who delegator s ≡ ok (tt, s')
      → IsPooled c s'
  unfolding delegation_execute_scheduled_request
  execute_request-IsPooled who delegator s s' v h =
      elim (Option-cases (lookup delegator s.delegator_state)) [
        | inl gone ↦ absurd (ground arith)
        | inr (d, found) ↦ elim (Option-cases (take_request delegator (requests_of c who s))) [
          | inl gone ↦ absurd (ground arith)
          | inr ((r, rest), taken) ↦ elim (action_cases r.action) [
            | inl (n, e) ↦ execute_revoke-IsPooled c who delegator n rest d s s' v (ground arith)
            | inr (n, e) ↦ execute_decrease-IsPooled c who delegator n rest d s s' v (ground arith)
          ]
        ]
      ]
