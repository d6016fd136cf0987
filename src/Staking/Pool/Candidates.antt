-- ===== src/Staking/Pool/Candidates.antt =====
-- The candidates' calls of pallets/parachain-staking/src/lib.rs and the candidate pool.
use hackathon_parity_eu.Prelude.{
  ℕ, ◌+◌, ◌-◌, ◌%◌, ◌^◌, ◌≡◌, refl, none, some, lookup, nat_key, ok, arith, Option-cases,
  Result-cases, inl, inr, remove, for_each,
}
use hackathon_parity_eu.Staking.Bond.{Bond, bond_ord, saturating_add}
use hackathon_parity_eu.Staking.Pallet.{Config, CandidateMetadata, Storage, Origin, CollatorStatus}
use hackathon_parity_eu.Staking.Candidate.{new, is_active, go_offline, go_online, update_active}
use hackathon_parity_eu.Staking.Calls.{
  signer, leave_pool, rejoin_pool, schedule_leave_candidates, cancel_leave_candidates,
  schedule_candidate_bond_less, cancel_candidate_bond_less, candidate_bond_more, join_candidates,
  execute_candidate_bond_less, execute_leave_candidates, return_stake,
}
use hackathon_parity_eu.Staking.Pool.{
  IsPooled, removed-IsPooled, inserted-IsPooled, stored-IsPooled, updated-IsPooled,
  forgotten-IsPooled, PoolSame, for_each-PoolSame,
}

module _ (c : Config) where
  pub leave_pool-IsPooled :
      (o : Origin) (s s' : Storage c)
      → IsPooled c s
      → leave_pool c o s ≡ ok (tt, s')
      → IsPooled c s'
  unfolding leave_pool
  leave_pool-IsPooled o s s' v h = elim (Option-cases (signer o)) [
    | inl gone ↦ absurd (ground arith)
    | inr (who, e) ↦ elim (Option-cases (lookup who s.candidate_info)) [
      | inl gone ↦ absurd (ground arith)
      | inr (m, found) ↦
          removed-IsPooled c who (go_offline m) s s' v (ground arith) (ground arith) (ground arith)
    ]
  ]

  pub rejoin_pool-IsPooled :
      (o : Origin) (s s' : Storage c)
      → IsPooled c s
      → rejoin_pool c o s ≡ ok (tt, s')
      → IsPooled c s'
  unfolding rejoin_pool
  rejoin_pool-IsPooled o s s' v h = elim (Option-cases (signer o)) [
    | inl gone ↦ absurd (ground arith)
    | inr (who, e) ↦ elim (Option-cases (lookup who s.candidate_info)) [
      | inl gone ↦ absurd (ground arith)
      | inr (m, found) ↦
          inserted-IsPooled c who (go_online m) s s' v (ground arith) (ground arith) (ground arith)
            (ground arith)
    ]
  ]

  pub schedule_leave_candidates-IsPooled :
      (o : Origin) (count : ℕ) (s s' : Storage c)
      → IsPooled c s
      → schedule_leave_candidates c o count s ≡ ok (tt, s')
      → IsPooled c s'
  unfolding schedule_leave_candidates is_active
  schedule_leave_candidates-IsPooled o count s s' v h = elim (Option-cases (signer o)) [
    | inl gone ↦ absurd (ground arith)
    | inr (who, e) ↦ elim (Option-cases (lookup who s.candidate_info)) [
      | inl gone ↦ absurd (ground arith)
      | inr (m, found) ↦
          removed-IsPooled c who
            (record m {
              status =
                  CollatorStatus.leaving ((s.round.current + c.leave_candidates_delay) % 2 ^ 32);
            })
            s s' v (ground arith) (ground arith) (ground arith)
    ]
  ]

  pub cancel_leave_candidates-IsPooled :
      (o : Origin) (count : ℕ) (s s' : Storage c)
      → IsPooled c s
      → cancel_leave_candidates c o count s ≡ ok (tt, s')
      → IsPooled c s'
  unfolding cancel_leave_candidates is_active
  cancel_leave_candidates-IsPooled o count s s' v h = elim (Option-cases (signer o)) [
    | inl gone ↦ absurd (ground arith)
    | inr (who, e) ↦ elim (Option-cases (lookup who s.candidate_info)) [
      | inl gone ↦ absurd (ground arith)
      | inr (m, found) ↦
          inserted-IsPooled c who (go_online m) s s' v (ground arith) (ground arith) (ground arith)
            (ground arith)
    ]
  ]

  pub schedule_candidate_bond_less-IsPooled :
      (o : Origin) (less : ℕ) (s s' : Storage c)
      → IsPooled c s
      → schedule_candidate_bond_less c o less s ≡ ok (tt, s')
      → IsPooled c s'
  unfolding schedule_candidate_bond_less
  schedule_candidate_bond_less-IsPooled o less s s' v h = elim (Option-cases (signer o)) [
    | inl gone ↦ absurd (ground arith)
    | inr (who, e) ↦ elim (Option-cases (lookup who s.candidate_info)) [
      | inl gone ↦ absurd (ground arith)
      | inr (m, found) ↦
          stored-IsPooled c who m
            (record m {
              request = some (record {
                amount = less;
                when_executable = (s.round.current + c.candidate_bond_less_delay) % 2 ^ 32;
              });
            })
            s s' v found refl refl (ground arith) (ground arith)
    ]
  ]

  pub cancel_candidate_bond_less-IsPooled :
      (o : Origin) (s s' : Storage c)
      → IsPooled c s
      → cancel_candidate_bond_less c o s ≡ ok (tt, s')
      → IsPooled c s'
  unfolding cancel_candidate_bond_less
  cancel_candidate_bond_less-IsPooled o s s' v h = elim (Option-cases (signer o)) [
    | inl gone ↦ absurd (ground arith)
    | inr (who, e) ↦ elim (Option-cases (lookup who s.candidate_info)) [
      | inl gone ↦ absurd (ground arith)
      | inr (m, found) ↦
          stored-IsPooled c who m (record m { request = none }) s s' v found refl refl
            (ground arith) (ground arith)
    ]
  ]

  pub candidate_bond_more-IsPooled :
      (o : Origin) (more : ℕ) (s s' : Storage c)
      → IsPooled c s
      → candidate_bond_more c o more s ≡ ok (tt, s')
      → IsPooled c s'
  unfolding candidate_bond_more update_active
  candidate_bond_more-IsPooled o more s s' v h = elim (Option-cases (signer o)) [
    | inl gone ↦ absurd (ground arith)
    | inr (who, e) ↦ elim (Option-cases (lookup who s.candidate_info)) [
      | inl gone ↦ absurd (ground arith)
      | inr (m, found) ↦
          let m' : CandidateMetadata = record m {
            bond = saturating_add m.bond more;
            total_counted = saturating_add m.total_counted more;
          } in
          updated-IsPooled c who m m' s s' v found refl (ground arith) (ground arith)
    ]
  ]

  pub execute_candidate_bond_less-IsPooled :
      (o : Origin) (who : ℕ) (s s' : Storage c)
      → IsPooled c s
      → execute_candidate_bond_less c o who s ≡ ok (tt, s')
      → IsPooled c s'
  unfolding execute_candidate_bond_less update_active
  execute_candidate_bond_less-IsPooled o who s s' v h =
      elim (Option-cases (lookup who s.candidate_info)) [
        | inl gone ↦ absurd (ground arith)
        | inr (m, found) ↦ elim (Option-cases m.request) [
          | inl gone ↦ absurd (ground arith)
          | inr (r, asked) ↦
              updated-IsPooled c who m
                (record m {
                  bond = m.bond - r.amount;
                  total_counted = m.total_counted - r.amount;
                  request = none;
                })
                s s' v found refl (ground arith) (ground arith)
        ]
      ]

  pub join_candidates-IsPooled :
      (o : Origin) (bond count : ℕ) (s s' : Storage c)
      → IsPooled c s
      → join_candidates c o bond count s ≡ ok (tt, s')
      → IsPooled c s'
  unfolding join_candidates new is_active
  join_candidates-IsPooled o bond count s s' v h = elim (Option-cases (signer o)) [
    | inl gone ↦ absurd (ground arith)
    | inr (who, e) ↦
        inserted-IsPooled c who (new bond) s s' v (ground arith) (ground arith) (ground arith)
          (ground arith)
  ]

  return_stake-PoolSame :
      (candidate : ℕ) (b : Bond) (s s' : Storage c)
      → return_stake c candidate b s ≡ ok (tt, s')
      → PoolSame c s s'
  unfolding return_stake
  return_stake-PoolSame candidate b s s' h = (ground arith, ground arith)

  pub execute_leave_candidates-IsPooled :
      (o : Origin) (who count : ℕ) (s s' : Storage c)
      → IsPooled c s
      → execute_leave_candidates c o who count s ≡ ok (tt, s')
      → IsPooled c s'
  unfolding execute_leave_candidates is_active
  execute_leave_candidates-IsPooled o who count s s' v h =
      elim (Option-cases (lookup who s.candidate_info)) [
        | inl gone ↦ absurd (ground arith)
        | inr (m, found) ↦ elim (Option-cases (lookup who s.top_delegations)) [
          | inl gone ↦ absurd (ground arith)
          | inr (top, found_top) ↦
              let s₁ = record s { top_delegations = remove who s.top_delegations } in
              elim (Result-cases (for_each (return_stake c who) top.delegations s₁)) [
                | inr (f, failed) ↦ absurd (ground arith)
                | inl ((u, s₂), e₂) ↦ elim (Option-cases (lookup who s₂.bottom_delegations)) [
                  | inl gone ↦ absurd (ground arith)
                  | inr (bottom, found_bottom) ↦
                      let s₃ = record s₂ {
                        bottom_delegations = remove who s₂.bottom_delegations;
                      } in
                      elim (Result-cases (for_each (return_stake c who) bottom.delegations s₃)) [
                        | inr (f, failed) ↦ absurd (ground arith)
                        | inl ((u', s₄), e₄) ↦
                            let keep = return_stake-PoolSame who in
                            let (p₂, q₂) =
                              for_each-PoolSame c (return_stake c who) top.delegations s₁ s₂ keep
                                e₂ in
                            let (p₄, q₄) =
                              for_each-PoolSame c (return_stake c who) bottom.delegations s₃ s₄ keep
                                e₄ in
                            forgotten-IsPooled c who m s s' v found (ground arith) (ground arith)
                              (ground arith)
                      ]
                ]
              ]
        ]
      ]
