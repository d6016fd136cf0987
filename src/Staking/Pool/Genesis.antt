-- ===== src/Staking/Pool/Genesis.antt =====
-- The start of pallets/parachain-staking/src/lib.rs and the candidate pool.
use hackathon_parity_eu.Prelude.{
  ℕ, ◌≡◌, refl, sym, subst, Bool, if◌then◌else◌, List, [], ◌∷◌, StorageMap, nat_key, ok, arith,
  Result-cases, inl, inr,
}
use hackathon_parity_eu.Staking.Set.Laws.{IsSorted}
use hackathon_parity_eu.Staking.Bond.{bond_ord, saturating_add_u32}
use hackathon_parity_eu.Staking.Inflation.{InflationInfo}
use hackathon_parity_eu.Staking.Pallet.{Config, signed, Storage}
use hackathon_parity_eu.Staking.Calls.{join_candidates}
use hackathon_parity_eu.Staking.Calls.Delegate.{delegate}
use hackathon_parity_eu.Staking.Rounds.{select_top_candidates}
use hackathon_parity_eu.Staking.Rounds.Genesis.{
  try_join, try_delegate, build_candidates, build_delegations, counted_once_more, count_of,
  first_round, build, initialize_candidates, initialize_pallet,
}
use hackathon_parity_eu.Staking.Rounds.Chain.{Start, genesis, upgrade, start}
use hackathon_parity_eu.Staking.Pool.{IsPooled, PoolSame, same-IsPooled}
use hackathon_parity_eu.Staking.Pool.Candidates.{join_candidates-IsPooled}
use hackathon_parity_eu.Staking.Pool.Delegators.{delegate-IsPooled}
use hackathon_parity_eu.Staking.Pool.Blocks.{select_top_candidates-Same}

module _ (c : Config) where
  pub empty-IsPooled :
      (s : Storage c)
      → s.candidate_pool ≡ record { elements = [] }
      → s.candidate_info ≡ []
      → IsPooled c s
  empty-IsPooled s pool info = record {
    sorted = subst IsSorted (sym pool) tt;
    entries = λ k. ground (arith, pool, info);
  }

  try_join-IsPooled :
      (who bond count : ℕ) (joined : Bool) (s s' : Storage c)
      → IsPooled c s
      → try_join c who bond count s ≡ ok (joined, s')
      → IsPooled c s'
  unfolding try_join
  try_join-IsPooled who bond count joined s s' v h =
      elim (Result-cases (join_candidates c (signed who) bond count s)) [
        | inl ((u, s₁), e) ↦
            join_candidates-IsPooled c (signed who) bond count s s' v (ground arith)
        | inr (f, e) ↦ same-IsPooled c s s' v (ground arith) (ground arith)
      ]

  try_delegate-IsPooled :
      (who target n count own : ℕ) (delegated : Bool) (s s' : Storage c)
      → IsPooled c s
      → try_delegate c who target n count own s ≡ ok (delegated, s')
      → IsPooled c s'
  unfolding try_delegate
  try_delegate-IsPooled who target n count own delegated s s' v h =
      elim (Result-cases (delegate c (signed who) target n count own s)) [
        | inl ((u, s₁), e) ↦
            delegate-IsPooled c (signed who) target n count own s s' v (ground arith)
        | inr (f, e) ↦ same-IsPooled c s s' v (ground arith) (ground arith)
      ]

  build_candidates-IsPooled :
      (xs : List (ℕ × ℕ)) (count : ℕ) (s s' : Storage c)
      → IsPooled c s
      → build_candidates c xs count s ≡ ok (tt, s')
      → IsPooled c s'
  unfolding build_candidates
  build_candidates-IsPooled [] count s s' v h = same-IsPooled c s s' v (ground arith) (ground arith)
  build_candidates-IsPooled ((who, n) ∷ xs) count s s' v h =
      elim (Result-cases (try_join c who n (saturating_add_u32 count 1) s)) [
        | inr (f, failed) ↦ absurd (ground arith)
        | inl ((joined, s₁), e) ↦
            build_candidates-IsPooled xs
              (if joined
                then saturating_add_u32 (saturating_add_u32 count 1) 1
                else saturating_add_u32 count 1)
              s₁ s' (try_join-IsPooled who n (saturating_add_u32 count 1) joined s s₁ v e)
              (ground arith)
      ]

  build_delegations-IsPooled :
      (xs : List (ℕ × ℕ × ℕ)) (ds ns : StorageMap ℕ ℕ) (s s' : Storage c)
      → IsPooled c s
      → build_delegations c xs ds ns s ≡ ok (tt, s')
      → IsPooled c s'
  unfolding build_delegations
  build_delegations-IsPooled [] ds ns s s' v h =
      same-IsPooled c s s' v (ground arith) (ground arith)
  build_delegations-IsPooled ((who, target, n) ∷ xs) ds ns s s' v h =
      let cd = count_of c target ds in
      let dd = count_of c who ns in
      elim (Result-cases (try_delegate c who target n cd dd s)) [
        | inr (f, failed) ↦ absurd (ground arith)
        | inl ((delegated, s₁), e) ↦
            build_delegations-IsPooled xs (if delegated then counted_once_more c target ds else ds)
              (if delegated then counted_once_more c who ns else ns) s₁ s'
              (try_delegate-IsPooled who target n cd dd delegated s s₁ v e) (ground arith)
      ]

  initialize_candidates-IsPooled :
      (xs : List ℕ) (count : ℕ) (s s' : Storage c)
      → IsPooled c s
      → initialize_candidates c xs count s ≡ ok (tt, s')
      → IsPooled c s'
  unfolding initialize_candidates
  initialize_candidates-IsPooled [] count s s' v h =
      same-IsPooled c s s' v (ground arith) (ground arith)
  initialize_candidates-IsPooled (who ∷ xs) count s s' v h =
      elim (Result-cases (try_join c who c.min_whitelist_candidate_stk count s)) [
        | inr (f, failed) ↦ absurd (ground arith)
        | inl ((joined, s₁), e) ↦
            initialize_candidates-IsPooled xs (if joined then saturating_add_u32 count 1 else count)
              s₁ s' (try_join-IsPooled who c.min_whitelist_candidate_stk count joined s s₁ v e)
              (ground arith)
      ]

  first_round-Same :
      (block : ℕ) (s s' : Storage c) → first_round c block s ≡ ok (tt, s') → PoolSame c s s'
  unfolding first_round
  first_round-Same block s s' h =
      let s₀ : Storage c = record s {
        collator_commission = c.default_collator_commission;
        parachain_bond_info = record {
          account = c.zero_account;
          percent = c.default_parachain_bond_reserve_percent;
        };
        total_selected = c.min_selected_candidates;
      } in
      elim (Result-cases (select_top_candidates c 1 s₀)) [
        | inr (f, failed) ↦ absurd (ground arith)
        | inl ((counts, s₁), e) ↦
            let (p, q) = select_top_candidates-Same c 1 counts s₀ s₁ e in
            (ground (arith, p), ground (arith, q))
      ]

  first_round-IsPooled :
      (block : ℕ) (s s' : Storage c)
      → IsPooled c s
      → first_round c block s ≡ ok (tt, s')
      → IsPooled c s'
  first_round-IsPooled block s s' v h =
      let (p, q) = first_round-Same block s s' h in same-IsPooled c s s' v p q

  build-IsPooled :
      (inflation : InflationInfo) (candidates : List (ℕ × ℕ)) (delegations : List (ℕ × ℕ × ℕ))
      (s s' : Storage c)
      → IsPooled c s
      → build c inflation candidates delegations s ≡ ok (tt, s')
      → IsPooled c s'
  unfolding build
  build-IsPooled inflation candidates delegations s s' v h =
      let s₀ : Storage c = record s { inflation_config = inflation } in
      let v₀ = same-IsPooled c s s₀ v refl refl in
      elim (Result-cases (build_candidates c candidates 0 s₀)) [
        | inr (f, failed) ↦ absurd (ground arith)
        | inl ((u, s₁), e) ↦
            let v₁ = build_candidates-IsPooled candidates 0 s₀ s₁ v₀ (ground arith) in
            elim (Result-cases (build_delegations c delegations [] [] s₁)) [
              | inr (f, failed) ↦ absurd (ground arith)
              | inl ((u', s₂), e₂) ↦
                  first_round-IsPooled 0 s₂ s'
                    (build_delegations-IsPooled delegations [] [] s₁ s₂ v₁ (ground arith))
                    (ground arith)
            ]
      ]

  initialize_pallet-IsPooled :
      (version block : ℕ) (candidates : List ℕ) (inflation : InflationInfo) (s s' : Storage c)
      → IsPooled c s
      → initialize_pallet c version block candidates inflation s ≡ ok (tt, s')
      → IsPooled c s'
  unfolding initialize_pallet
  initialize_pallet-IsPooled version block candidates inflation s s' v h =
      let s₀ : Storage c = record s { inflation_config = inflation } in
      let v₀ = same-IsPooled c s s₀ v refl refl in
      elim (Result-cases (initialize_candidates c candidates 0 s₀)) [
        | inr (f, failed) ↦ absurd (ground arith)
        | inl ((u, s₁), e) ↦
            first_round-IsPooled block s₁ s'
              (initialize_candidates-IsPooled candidates 0 s₀ s₁ v₀ (ground arith)) (ground arith)
      ]

  pub start-IsPooled :
      (st : Start) (s s' : Storage c) → IsPooled c s → start c st s ≡ ok (tt, s') → IsPooled c s'
  unfolding start
  start-IsPooled (genesis inflation candidates delegations) s s' v h =
      build-IsPooled inflation candidates delegations s s' v h
  start-IsPooled (upgrade version block candidates inflation) s s' v h =
      initialize_pallet-IsPooled version block candidates inflation s s' v h
