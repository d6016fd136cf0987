-- ===== src/Staking/Pool/Delegators.antt =====
-- The delegators' calls of pallets/parachain-staking/src/lib.rs and the candidate pool.
use hackathon_parity_eu.Prelude.{
  ℕ, ◌-◌, ◌≡◌, not, ◌==◌, ◌&&◌, Option, some, lookup, nat_key, ok, arith, Option-cases, Bool-cases,
  Result-cases, inl, inr, List,
}
use hackathon_parity_eu.Staking.Set as Set
use hackathon_parity_eu.Staking.Bond.{Bond, bond_ord, saturating_add}
use hackathon_parity_eu.Staking.Pallet.{
  Config, CandidateMetadata, Storage, Origin, Delegator, ScheduledRequest,
}
use hackathon_parity_eu.Staking.Delegator.{
  get_bond_amount, total_sub, total_sub_if, adjust_bond_lock, check_increase, increase,
  rm_delegation,
}
use hackathon_parity_eu.Staking.Candidate.{is_active, update_active}
use hackathon_parity_eu.Staking.Candidate.Add as Add
use hackathon_parity_eu.Staking.Candidate.Increase as Increase
use hackathon_parity_eu.Staking.Candidate.Remove.{rm_delegation_if_exists}
use hackathon_parity_eu.Staking.Candidate.Decrease.{decrease_delegation}
use hackathon_parity_eu.Staking.Requests.{
  delegator_leaves_candidate, execute_revoke, execute_decrease, adjust_first, check_total,
}
use hackathon_parity_eu.Staking.Calls.{signer}
use hackathon_parity_eu.Staking.Calls.Delegate.{
  delegate, delegate_again, delegate_first, increase_delegation,
}
use hackathon_parity_eu.Staking.Pool.{IsPooled, PoolSame, put-IsPooled, same-IsPooled}
use hackathon_parity_eu.Staking.Pool.Delegations.{
  PoolAt, trans-PoolStep, update_active-PoolStep, add_delegation-PoolStep,
}
use hackathon_parity_eu.Staking.Pool.Changes.{
  rm_delegation_if_exists-PoolStep, increase_delegation-PoolStep, decrease_delegation-PoolStep,
}

module _ (c : Config) where
  stored-PoolAt :
      (who : ℕ) (m : CandidateMetadata) (s : Storage c)
      → IsPooled c s
      → lookup who s.candidate_info ≡ some m
      → PoolAt c who m s
  stored-PoolAt who m s v found = (v.sorted, ground (arith, v.entries who))

  -- Changes of other parts of the storage, before.
  before-IsPooled : (s s' : Storage c) → IsPooled c s → PoolSame c s s' → IsPooled c s'
  before-IsPooled s s' v (pool, info) = same-IsPooled c s s' v pool info

  pub delegator_leaves_candidate-IsPooled :
      (who delegator n : ℕ) (s s' : Storage c)
      → IsPooled c s
      → delegator_leaves_candidate c who delegator n s ≡ ok (tt, s')
      → IsPooled c s'
  unfolding delegator_leaves_candidate
  delegator_leaves_candidate-IsPooled who delegator n s s' v h =
      elim (Option-cases (lookup who s.candidate_info)) [
        | inl gone ↦ absurd (ground arith)
        | inr (m, found) ↦ elim (Result-cases (rm_delegation_if_exists c who delegator n m s)) [
          | inr (f, failed) ↦ absurd (ground arith)
          | inl (((m', flag), s₁), e) ↦
              put-IsPooled c who m m' s s₁ s' v
                (rm_delegation_if_exists-PoolStep c who delegator n m m' flag s s₁
                  (stored-PoolAt who m s v found) e)
                (ground arith) (ground arith)
        ]
      ]

  rm_delegation-Same :
      (who : ℕ) (d d' : Delegator) (remaining : Option ℕ) (s s' : Storage c)
      → rm_delegation c who d s ≡ ok ((d', remaining), s')
      → PoolSame c s s'
  unfolding rm_delegation total_sub adjust_bond_lock check_increase
  rm_delegation-Same who d d' remaining s s' h = ground arith

  pub execute_revoke-IsPooled :
      (who delegator n : ℕ) (rest : List ScheduledRequest) (state : Delegator) (s s' : Storage c)
      → IsPooled c s
      → execute_revoke c who delegator n rest state s ≡ ok (tt, s')
      → IsPooled c s'
  unfolding execute_revoke
  execute_revoke-IsPooled who delegator n rest state s s' v h =
      let less : Delegator = record state { less_total = state.less_total - n } in
      elim (Result-cases (rm_delegation c who less s)) [
        | inr (f, failed) ↦ absurd (ground arith)
        | inl (((state', remaining), s₁), e) ↦
            let same = rm_delegation-Same who less state' remaining s s₁ e in
            let v₁ = before-IsPooled s s₁ v same in
            elim (Result-cases (delegator_leaves_candidate c who delegator n s₁)) [
              | inr (f, failed) ↦ absurd (ground arith)
              | inl ((u, s₂), e₂) ↦
                  let v₂ = delegator_leaves_candidate-IsPooled who delegator n s₁ s₂ v₁ e₂ in
                  same-IsPooled c s₂ s' v₂ (ground arith) (ground arith)
            ]
      ]

  total_sub_if-Same :
      (n : ℕ) (d d' : Delegator) (s s' : Storage c)
      → total_sub_if c n (check_total c) d s ≡ ok (d', s')
      → PoolSame c s s'
  unfolding total_sub_if adjust_bond_lock check_increase
  total_sub_if-Same n d d' s s' h = ground arith

  pub execute_decrease-IsPooled :
      (who delegator n : ℕ) (rest : List ScheduledRequest) (state : Delegator) (s s' : Storage c)
      → IsPooled c s
      → execute_decrease c who delegator n rest state s ≡ ok (tt, s')
      → IsPooled c s'
  unfolding execute_decrease
  execute_decrease-IsPooled who delegator n rest state s s' v h =
      let less : Delegator = record state {
        less_total = state.less_total - n;
        delegations =
            Set.from_sorted_set (adjust_first (λ b. b - n) who state.delegations.elements);
      } in
      elim (Option-cases (get_bond_amount who state)) [
        | inl gone ↦ absurd (ground arith)
        | inr (before, b) ↦ elim (Option-cases (lookup who s.candidate_info)) [
          | inl gone ↦ absurd (ground arith)
          | inr (m, found) ↦ elim (Result-cases (total_sub_if c n (check_total c) less s)) [
            | inr (f, failed) ↦ absurd (ground arith)
            | inl ((state', s₁), e) ↦
                let same = total_sub_if-Same n less state' s s₁ e in
                let v₁ = before-IsPooled s s₁ v same in
                let found₁ : lookup who s₁.candidate_info ≡ some m = ground arith in
                elim (Result-cases (decrease_delegation c who delegator before n m s₁)) [
                  | inr (f, failed) ↦ absurd (ground arith)
                  | inl (((m', flag), s₂), e₂) ↦
                      put-IsPooled c who m m' s₁ s₂ s' v₁
                        (decrease_delegation-PoolStep c who delegator before n m m' flag s₁ s₂
                          (stored-PoolAt who m s₁ v₁ found₁) e₂)
                        (ground arith) (ground arith)
                ]
          ]
        ]
      ]

  pub delegate-IsPooled :
      (o : Origin) (who amount count own : ℕ) (s s' : Storage c)
      → IsPooled c s
      → delegate c o who amount count own s ≡ ok (tt, s')
      → IsPooled c s'
  unfolding delegate delegate_again delegate_first adjust_bond_lock check_increase
  delegate-IsPooled o who amount count own s s' v h = elim (Option-cases (signer o)) [
    | inl gone ↦ absurd (ground arith)
    | inr (delegator, e) ↦ elim (Option-cases (lookup who s.candidate_info)) [
      | inl gone ↦ absurd (ground arith)
      | inr (m, found) ↦
          let d : Bond = record { owner = delegator; amount = amount } in
          elim (Result-cases (Add.add_delegation c who d m s)) [
            | inr (f, failed) ↦ absurd (ground arith)
            | inl (((m', added, less), s₁), e₁) ↦
                put-IsPooled c who m m' s s₁ s' v
                  (add_delegation-PoolStep c who d m m' added less s s₁
                    (stored-PoolAt who m s v found) e₁)
                  (ground arith) (ground arith)
          ]
    ]
  ]

  adjust_bond_lock-Same :
      (n : ℕ) (d : Delegator) (s s' : Storage c)
      → adjust_bond_lock c (increase n) d s ≡ ok (tt, s')
      → PoolSame c s s'
  unfolding adjust_bond_lock check_increase
  adjust_bond_lock-Same n d s s' h = ground arith

  -- `increase_delegation` of the delegator's state.
  pub increase_delegation-IsPooled :
      (who more : ℕ) (d : Delegator) (s s' : Storage c)
      → IsPooled c s
      → increase_delegation c who more d s ≡ ok (tt, s')
      → IsPooled c s'
  unfolding increase_delegation
  increase_delegation-IsPooled who more d s s' v h =
      let d' : Delegator = record d {
        delegations =
            Set.from_sorted_set
              (adjust_first (λ n. saturating_add n more) who d.delegations.elements);
        total = saturating_add d.total more;
      } in
      elim (Option-cases (get_bond_amount who d)) [
        | inl gone ↦ absurd (ground arith)
        | inr (before, b) ↦ elim (Result-cases (adjust_bond_lock c (increase more) d' s)) [
          | inr (f, failed) ↦ absurd (ground arith)
          | inl ((u, s₁), e) ↦
              let v₁ = before-IsPooled s s₁ v (adjust_bond_lock-Same more d' s s₁ e) in
              elim (Option-cases (lookup who s₁.candidate_info)) [
                | inl gone ↦ absurd (ground arith)
                | inr (m, found) ↦
                    elim (Result-cases (Increase.increase_delegation c who d.id before more m s₁)) [
                      | inr (f, failed) ↦ absurd (ground arith)
                      | inl (((m', in_top), s₂), e₂) ↦
                          let p =
                            increase_delegation-PoolStep c who d.id before more m m' in_top s₁ s₂
                              (stored-PoolAt who m s₁ v₁ found) e₂ in
                          elim (Bool-cases
                            (is_active m' && not (m.total_counted == m'.total_counted))) [
                              | inr still ↦
                                  put-IsPooled c who m m' s₁ s₂ s' v₁ p (ground arith)
                                    (ground arith)
                              | inl changed ↦
                                  elim (Result-cases (update_active c who m'.total_counted s₂)) [
                                    | inr (f, failed) ↦ absurd (ground arith)
                                    | inl ((u', s₃), e₃) ↦
                                        let q =
                                          update_active-PoolStep c who m' m' s₂ s₃ p.sorted
                                            (ground arith) e₃ in
                                        put-IsPooled c who m m' s₁ s₃ s' v₁
                                          (trans-PoolStep c who m m' m' s₁ s₂ s₃ p q) (ground arith)
                                          (ground arith)
                                  ]
                            ]
                    ]
              ]
        ]
      ]
