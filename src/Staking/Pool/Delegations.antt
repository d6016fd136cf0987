-- ===== src/Staking/Pool/Delegations.antt =====
-- The changes of a candidate's delegations, pallets/parachain-staking/src/types.rs, and the candidate
-- pool.
use hackathon_parity_eu.Prelude.{
  ℕ, ◌≡◌, refl, sym, ◌∙◌, subst, ap, Bool, true, false, not, ◌==◌, ◌&&◌, Option, lookup, nat_key,
  length, ltb, ok, arith, Bool-cases, Option-cases, Result-cases, inl, inr,
}
use hackathon_parity_eu.Staking.Set.Laws.{IsSorted, get}
use hackathon_parity_eu.Staking.Bond.{
  Bond, bond_ord, is_full, Delegations, insert_sorted_greatest_to_least,
}
use hackathon_parity_eu.Staking.Pallet.{Config, CandidateMetadata, Storage, DelegatorAdded}
use hackathon_parity_eu.Staking.Candidate.{
  is_active, update_active, reset_top_data, reset_bottom_data,
}
use hackathon_parity_eu.Staking.Candidate.Add.{
  add_bottom_delegation, bump_lowest_top, add_top_delegation, add_below_top, add_delegation,
}
use hackathon_parity_eu.Staking.Pool.{entry, PoolStep, update_active-get, PoolSame}

module _ (c : Config) where
  -- The pool is sorted and holds the candidate as its metadata say.
  abbrev pub PoolAt : ℕ → CandidateMetadata → Storage c → Type 0
  PoolAt who m s = IsSorted s.candidate_pool × (get who s.candidate_pool ≡ entry who m)

  -- What the pool reads of the metadata.
  abbrev pub SameEntry : CandidateMetadata → CandidateMetadata → Type 0
  SameEntry m m' = (m'.status ≡ m.status) × (m'.total_counted ≡ m.total_counted)

  pub keep-PoolStep :
      (who : ℕ) (m m' : CandidateMetadata) (s s' : Storage c)
      → PoolAt who m s
      → SameEntry m m'
      → PoolSame c s s'
      → PoolStep c who m m' s s'
  unfolding is_active
  keep-PoolStep who m m' s s' (sorted, here) (status, total) (pool, info) = record {
    sorted = subst IsSorted (sym pool) sorted;
    here = ground arith;
    others = λ k h. ground arith;
    info = info;
  }

  pub after-PoolAt :
      {who : ℕ} {m m' : CandidateMetadata} {s s' : Storage c}
      → PoolStep c who m m' s s'
      → PoolAt who m' s'
  after-PoolAt p = (p.sorted, p.here)

  pub trans-PoolStep :
      (who : ℕ) (m m₁ m₂ : CandidateMetadata) (s s₁ s₂ : Storage c)
      → PoolStep c who m m₁ s s₁
      → PoolStep c who m₁ m₂ s₁ s₂
      → PoolStep c who m m₂ s s₂
  trans-PoolStep who m m₁ m₂ s s₁ s₂ p q = record {
    sorted = q.sorted;
    here = q.here;
    others = λ k h. q.others k h ∙ p.others k h;
    info = q.info ∙ p.info;
  }

  -- An update with the metadata's own total.
  pub update_active-PoolStep :
      (who : ℕ) (m m' : CandidateMetadata) (s s' : Storage c)
      → IsSorted s.candidate_pool
      → is_active m' ≡ true
      → update_active c who m'.total_counted s ≡ ok (tt, s')
      → PoolStep c who m m' s s'
  update_active-PoolStep who m m' s s' sorted active h =
      let (sorted', gets, info) = update_active-get c who m'.total_counted s s' sorted h in
      record {
        sorted = sorted';
        here = ground (arith, gets who);
        others = λ k h. ground (arith, gets k);
        info = info;
      }

  pub reset_top-PoolStep :
      (who : ℕ) (top : Delegations) (m m' : CandidateMetadata) (s s' : Storage c)
      → PoolAt who m s
      → reset_top_data c who top m s ≡ ok (m', s')
      → PoolStep c who m m' s s'
  unfolding reset_top_data is_active
  reset_top-PoolStep who top m m' s s' at h =
      elim (Bool-cases (not (m.total_counted == m'.total_counted) && is_active m')) [
        | inl changed ↦ update_active-PoolStep who m m' s s' at.0 (ground arith) (ground arith)
        | inr same ↦
            let pool : s'.candidate_pool ≡ s.candidate_pool = ground arith in
            let info : s'.candidate_info ≡ s.candidate_info = ground arith in
            record {
              sorted = subst IsSorted (sym pool) at.0;
              here = ground (arith, pool, at.1);
              others = λ k h. ap (get k) pool;
              info = info;
            }
      ]

  bump_lowest_top-Same :
      (who : ℕ) (top top' : Delegations) (m m' : CandidateMetadata) (less : Option ℕ)
      (s s' : Storage c)
      → bump_lowest_top c who top m s ≡ ok ((top', m', less), s')
      → SameEntry m m' × PoolSame c s s'
  unfolding bump_lowest_top reset_bottom_data
  bump_lowest_top-Same who top top' m m' less s s' h = ground arith

  -- A change that ends with `reset_top_data` and a write of the top delegations.
  pub reset_top_end :
      (who : ℕ) (top : Delegations) (m m₁ m' : CandidateMetadata) (s s₁ s' : Storage c)
      → PoolAt who m s
      → SameEntry m m₁
      → PoolSame c s s₁
      → (m₂ : CandidateMetadata) (s₂ : Storage c) → reset_top_data c who top m₁ s₁ ≡ ok (m₂, s₂)
      → SameEntry m₂ m'
      → PoolSame c s₂ s'
      → PoolStep c who m m' s s'
  reset_top_end who top m m₁ m' s s₁ s' at same pool m₂ s₂ e same' pool' =
      let p = keep-PoolStep who m m₁ s s₁ at same pool in
      let q = reset_top-PoolStep who top m₁ m₂ s₁ s₂ (after-PoolAt p) e in
      let r = keep-PoolStep who m₂ m' s₂ s' (after-PoolAt q) same' pool' in
      trans-PoolStep who m m₁ m' s s₁ s' p (trans-PoolStep who m₁ m₂ m' s₁ s₂ s' q r)

  add_top-PoolStep :
      (who : ℕ) (d : Bond) (m m' : CandidateMetadata) (less : Option ℕ) (s s' : Storage c)
      → PoolAt who m s
      → add_top_delegation c who d m s ≡ ok ((m', less), s')
      → PoolStep c who m m' s s'
  unfolding add_top_delegation
  add_top-PoolStep who d m m' less s s' at h = elim (Option-cases (lookup who s.top_delegations)) [
    | inl gone ↦ absurd (ground arith)
    | inr (top, found) ↦
        elim (Bool-cases (length top.delegations == c.max_top_delegations_per_candidate)) [
          | inl full ↦ elim (Result-cases (bump_lowest_top c who top m s)) [
            | inr (f, failed) ↦ absurd (ground arith)
            | inl (((t₁, m₁, l₁), s₁), e) ↦
                let (same, pool) = bump_lowest_top-Same who top t₁ m m₁ l₁ s s₁ e in
                let t' : Delegations = insert_sorted_greatest_to_least d t₁ in
                elim (Result-cases (reset_top_data c who t' m₁ s₁)) [
                  | inr (f, failed) ↦ absurd (ground arith)
                  | inl ((m₂, s₂), reset) ↦
                      reset_top_end who t' m m₁ m' s s₁ s' at same pool m₂ s₂ reset (ground arith)
                        (ground arith)
                ]
          ]
          | inr room ↦
              let t' : Delegations = insert_sorted_greatest_to_least d top in
              elim (Result-cases (reset_top_data c who t' m s)) [
                | inr (f, failed) ↦ absurd (ground arith)
                | inl ((m₂, s₂), reset) ↦
                    reset_top_end who t' m m m' s s s' at (refl, refl) (refl, refl) m₂ s₂ reset
                      (ground arith) (ground arith)
              ]
        ]
  ]

  add_bottom-Same :
      (bumped : Bool) (who : ℕ) (d : Bond) (m m' : CandidateMetadata) (s s' : Storage c)
      → add_bottom_delegation c bumped who d m s ≡ ok (m', s')
      → SameEntry m m' × PoolSame c s s'
  unfolding add_bottom_delegation reset_bottom_data
  add_bottom-Same bumped who d m m' s s' h = ground arith

  pub add_delegation-PoolStep :
      (who : ℕ) (d : Bond) (m m' : CandidateMetadata) (added : DelegatorAdded) (less : Option ℕ)
      (s s' : Storage c)
      → PoolAt who m s
      → add_delegation c who d m s ≡ ok ((m', added, less), s')
      → PoolStep c who m m' s s'
  unfolding add_delegation add_below_top
  add_delegation-PoolStep who d m m' added less s s' at h =
      elim (Bool-cases
        (is_full m.top_capacity && not (ltb m.lowest_top_delegation_amount d.amount))) [
          | inl below ↦ elim (Result-cases (add_bottom_delegation c false who d m s)) [
            | inr (f, failed) ↦ absurd (ground arith)
            | inl ((m₁, s₁), e) ↦
                let (same, pool) = add_bottom-Same false who d m m₁ s s₁ e in
                keep-PoolStep who m m' s s' at (ground arith) (ground arith)
          ]
          | inr top ↦ elim (Result-cases (add_top_delegation c who d m s)) [
            | inr (f, failed) ↦ absurd (ground arith)
            | inl (((m₁, l₁), s₁), e) ↦
                let p = add_top-PoolStep who d m m₁ l₁ s s₁ at e in
                let em : m₁ ≡ m' = ground arith in
                let es : s₁ ≡ s' = ground arith in
                subst (λ x. PoolStep c who m x s s') em (subst (λ x. PoolStep c who m m₁ s x) es p)
          ]
        ]
