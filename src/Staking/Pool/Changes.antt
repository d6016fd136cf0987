-- ===== src/Staking/Pool/Changes.antt =====
-- The increases, decreases and removals of delegations, pallets/parachain-staking/src/types.rs, and the
-- candidate pool.
use hackathon_parity_eu.Prelude.{
  ℕ, ◌-◌, ◌≡◌, refl, sym, ◌∙◌, ◌⊎◌, Bool, not, ◌&&◌, lookup, nat_key, ltb, Result, ok, arith,
  Bool-cases, Option-cases, Result-cases, inl, inr,
}
use hackathon_parity_eu.Staking.Bond.{
  is_full, is_empty, Delegations, insert_sorted_greatest_to_least, saturating_add,
}
use hackathon_parity_eu.Staking.Pallet.{Config, CandidateMetadata, Storage, Action, Fault}
use hackathon_parity_eu.Staking.Delegator.{bond_of, without}
use hackathon_parity_eu.Staking.Candidate.{reset_top_data, reset_bottom_data}
use hackathon_parity_eu.Staking.Candidate.Remove.{
  or_if_dne, is_delegation_dne, take_out, bump_highest_bottom, rm_top_delegation,
  rm_bottom_delegation, rm_delegation_if_exists,
}
use hackathon_parity_eu.Staking.Candidate.Increase.{
  with_amounts, increase_top_delegation, make_room, raise_from_bottom, raise_in_bottom,
  increase_bottom_delegation, increase_delegation,
}
use hackathon_parity_eu.Staking.Candidate.Decrease.{
  swap_with_bottom, lower_in_top, decrease_top_delegation, decrease_bottom_delegation,
  decrease_delegation,
}
use hackathon_parity_eu.Staking.Pool.{PoolStep, PoolSame}
use hackathon_parity_eu.Staking.Pool.Delegations.{
  PoolAt, SameEntry, keep-PoolStep, trans-PoolStep, after-PoolAt, reset_top_end,
}

module _ (c : Config) where
  bump_highest_bottom-Same :
      (who : ℕ) (top top' : Delegations) (m m' : CandidateMetadata) (s s' : Storage c)
      → bump_highest_bottom c who top m s ≡ ok ((top', m'), s')
      → SameEntry c m m' × PoolSame c s s'
  unfolding bump_highest_bottom reset_bottom_data
  bump_highest_bottom-Same who top top' m m' s s' h = ground arith

  rm_top-PoolStep :
      (who delegator : ℕ) (m m' : CandidateMetadata) (flag : Bool) (s s' : Storage c)
      → PoolAt c who m s
      → rm_top_delegation c who delegator m s ≡ ok ((m', flag), s')
      → PoolStep c who m m' s s'
  unfolding rm_top_delegation take_out
  rm_top-PoolStep who delegator m m' flag s s' at h =
      elim (Option-cases (lookup who s.top_delegations)) [
        | inl gone ↦ absurd (ground arith)
        | inr (top, found) ↦ elim (Result-cases (take_out c delegator top s)) [
          | inr (f, failed) ↦ absurd (ground arith)
          | inl ((t₀, s₀), taken) ↦ elim (Bool-cases (is_empty m.bottom_capacity)) [
            | inl empty ↦ elim (Result-cases (reset_top_data c who t₀ m s)) [
              | inr (f, failed) ↦ absurd (ground arith)
              | inl ((m₂, s₂), reset) ↦
                  reset_top_end c who t₀ m m m' s s s' at (refl, refl) (refl, refl) m₂ s₂ reset
                    (ground arith) (ground arith)
            ]
            | inr more ↦ elim (Result-cases (bump_highest_bottom c who t₀ m s)) [
              | inr (f, failed) ↦ absurd (ground arith)
              | inl (((t₁, m₁), s₁), e) ↦
                  let (same, pool) = bump_highest_bottom-Same who t₀ t₁ m m₁ s s₁ e in
                  elim (Result-cases (reset_top_data c who t₁ m₁ s₁)) [
                    | inr (f, failed) ↦ absurd (ground arith)
                    | inl ((m₂, s₂), reset) ↦
                        reset_top_end c who t₁ m m₁ m' s s₁ s' at same pool m₂ s₂ reset
                          (ground arith) (ground arith)
                  ]
            ]
          ]
        ]
      ]

  rm_bottom-Same :
      (who delegator : ℕ) (m m' : CandidateMetadata) (flag : Bool) (s s' : Storage c)
      → rm_bottom_delegation c who delegator m s ≡ ok ((m', flag), s')
      → SameEntry c m m' × PoolSame c s s'
  unfolding rm_bottom_delegation reset_bottom_data
  rm_bottom-Same who delegator m m' flag s s' h = ground arith

  increase_top-PoolStep :
      (who delegator more : ℕ) (m m' : CandidateMetadata) (flag : Bool) (s s' : Storage c)
      → PoolAt c who m s
      → increase_top_delegation c who delegator more m s ≡ ok ((m', flag), s')
      → PoolStep c who m m' s s'
  unfolding increase_top_delegation
  increase_top-PoolStep who delegator more m m' flag s s' at h =
      elim (Option-cases (lookup who s.top_delegations)) [
        | inl gone ↦ absurd (ground arith)
        | inr (top, found) ↦
            let top' : Delegations =
              with_amounts (λ n. saturating_add n more) delegator (saturating_add top.total more)
                top in
            elim (Result-cases (reset_top_data c who top' m s)) [
              | inr (f, failed) ↦ absurd (ground arith)
              | inl ((m₂, s₂), reset) ↦
                  reset_top_end c who top' m m m' s s s' at (refl, refl) (refl, refl) m₂ s₂ reset
                    (ground arith) (ground arith)
            ]
      ]

  make_room-same :
      (top bottom top' bottom' : Delegations) (s s' : Storage c)
      → make_room c top bottom s ≡ ok ((top', bottom'), s')
      → s ≡ s'
  unfolding make_room
  make_room-same top bottom top' bottom' s s' h = ground arith

  raise_from_bottom-PoolStep :
      (who delegator bond more : ℕ) (bottom bottom' : Delegations) (m m' : CandidateMetadata)
      (s s' : Storage c)
      → PoolAt c who m s
      → raise_from_bottom c who delegator bond more bottom m s ≡ ok ((bottom', m'), s')
      → PoolStep c who m m' s s'
  unfolding raise_from_bottom
  raise_from_bottom-PoolStep who delegator bond more bottom bottom' m m' s s' at h =
      elim (Option-cases (bond_of delegator bottom.delegations)) [
        | inl gone ↦ absurd (ground arith)
        | inr (n, e) ↦ elim (Option-cases (lookup who s.top_delegations)) [
          | inl gone ↦ absurd (ground arith)
          | inr (top, found) ↦
              let b₀ : Delegations = record {
                delegations = without delegator bottom.delegations;
                total = bottom.total - bond;
              } in
              elim (Result-cases (make_room c top b₀ s)) [
                | inr (f, failed) ↦ absurd (ground arith)
                | inl (((t₁, b₁), s₁), room) ↦
                    let still : s ≡ s₁ = make_room-same top b₀ t₁ b₁ s s₁ room in
                    let t₂ : Delegations =
                      insert_sorted_greatest_to_least
                        (record { owner = delegator; amount = saturating_add n more }) t₁ in
                    elim (Result-cases (reset_top_data c who t₂ m s₁)) [
                      | inr (f, failed) ↦ absurd (ground arith)
                      | inl ((m₂, s₂), reset) ↦
                          reset_top_end c who t₂ m m m' s s₁ s' at (refl, refl)
                            (ground arith, ground arith) m₂ s₂ reset (ground arith) (ground arith)
                    ]
              ]
        ]
      ]

  decrease_bottom-Same :
      (who delegator less : ℕ) (m m' : CandidateMetadata) (flag : Bool) (s s' : Storage c)
      → decrease_bottom_delegation c who delegator less m s ≡ ok ((m', flag), s')
      → SameEntry c m m' × PoolSame c s s'
  unfolding decrease_bottom_delegation reset_bottom_data
  decrease_bottom-Same who delegator less m m' flag s s' h = ground arith

  swap_with_bottom-Same :
      (who delegator less : ℕ) (top top' : Delegations) (m m' : CandidateMetadata)
      (s s' : Storage c)
      → swap_with_bottom c who delegator less top m s ≡ ok ((top', m'), s')
      → SameEntry c m m' × PoolSame c s s'
  unfolding swap_with_bottom reset_bottom_data
  swap_with_bottom-Same who delegator less top top' m m' s s' h = ground arith

  increase_bottom-PoolStep :
      (who delegator bond more : ℕ) (m m' : CandidateMetadata) (flag : Bool) (s s' : Storage c)
      → PoolAt c who m s
      → increase_bottom_delegation c who delegator bond more m s ≡ ok ((m', flag), s')
      → PoolStep c who m m' s s'
  unfolding increase_bottom_delegation reset_bottom_data raise_in_bottom
  increase_bottom-PoolStep who delegator bond more m m' flag s s' at h =
      elim (Option-cases (lookup who s.bottom_delegations)) [
        | inl gone ↦ absurd (ground arith)
        | inr (bottom, found) ↦
            elim (Bool-cases (ltb m.lowest_top_delegation_amount (saturating_add bond more))) [
              | inr stays ↦ keep-PoolStep c who m m' s s' at (ground arith) (ground arith)
              | inl moves ↦
                  elim (Result-cases (raise_from_bottom c who delegator bond more bottom m s)) [
                    | inr (f, failed) ↦ absurd (ground arith)
                    | inl (((b₁, m₁), s₁), e) ↦
                        let p =
                          raise_from_bottom-PoolStep who delegator bond more bottom b₁ m m₁ s s₁ at
                            e in
                        let q =
                          keep-PoolStep c who m₁ m' s₁ s' (after-PoolAt c p) (ground arith)
                            (ground arith) in
                        trans-PoolStep c who m m₁ m' s s₁ s' p q
                  ]
            ]
      ]

  decrease_top-PoolStep :
      (who delegator bond less : ℕ) (m m' : CandidateMetadata) (flag : Bool) (s s' : Storage c)
      → PoolAt c who m s
      → decrease_top_delegation c who delegator bond less m s ≡ ok ((m', flag), s')
      → PoolStep c who m m' s s'
  unfolding decrease_top_delegation lower_in_top
  decrease_top-PoolStep who delegator bond less m m' flag s s' at h =
      elim (Option-cases (lookup who s.top_delegations)) [
        | inl gone ↦ absurd (ground arith)
        | inr (top, found) ↦
            elim (Bool-cases (
              ltb (bond - less) m.highest_bottom_delegation_amount
              && (is_full m.top_capacity && not (is_empty m.bottom_capacity)))) [
                | inl leaves ↦ elim (Result-cases (swap_with_bottom c who delegator less top m s)) [
                  | inr (f, failed) ↦ absurd (ground arith)
                  | inl (((t₁, m₁), s₁), e) ↦
                      let (same, pool) =
                        swap_with_bottom-Same who delegator less top t₁ m m₁ s s₁ e in
                      elim (Result-cases (reset_top_data c who t₁ m₁ s₁)) [
                        | inr (f, failed) ↦ absurd (ground arith)
                        | inl ((m₂, s₂), reset) ↦
                            reset_top_end c who t₁ m m₁ m' s s₁ s' at same pool m₂ s₂ reset
                              (ground arith) (ground arith)
                      ]
                ]
                | inr stays ↦
                    let t₁ : Delegations =
                      with_amounts (λ n. n - less) delegator (top.total - less) top in
                    elim (Result-cases (reset_top_data c who t₁ m s)) [
                      | inr (f, failed) ↦ absurd (ground arith)
                      | inl ((m₂, s₂), reset) ↦
                          reset_top_end c who t₁ m m m' s s s' at (refl, refl) (refl, refl) m₂ s₂
                            reset (ground arith) (ground arith)
                    ]
              ]
      ]

  -- The result is the first action's or the second's.
  abbrev OneOf :
      Action c (CandidateMetadata × Bool)
      → Action c (CandidateMetadata × Bool)
      → Storage c
      → Result Fault ((CandidateMetadata × Bool) × Storage c)
      → Type 0
  OneOf first second s r = (r ≡ first s) ⊎ (r ≡ second s)

  or_if_dne-OneOf :
      (first second : Action c (CandidateMetadata × Bool)) (s : Storage c)
      → OneOf first second s (or_if_dne c first second s)
  unfolding is_delegation_dne
  or_if_dne-OneOf first second s = elim (Result-cases (first s)) [
    | inl (r, e) ↦ inl (ground arith)
    | inr (f, e) ↦ ground arith
  ]

  OneOf-PoolStep :
      (who : ℕ) (m m' : CandidateMetadata) (flag : Bool) (s s' : Storage c)
      (first second : Action c (CandidateMetadata × Bool))
      (r : Result Fault ((CandidateMetadata × Bool) × Storage c))
      → (first s ≡ ok ((m', flag), s') → PoolStep c who m m' s s')
      → (second s ≡ ok ((m', flag), s') → PoolStep c who m m' s s')
      → OneOf first second s r
      → r ≡ ok ((m', flag), s')
      → PoolStep c who m m' s s'
  OneOf-PoolStep who m m' flag s s' first second r f g (inl e) h = f (sym e ∙ h)
  OneOf-PoolStep who m m' flag s s' first second r f g (inr e) h = g (sym e ∙ h)

  pub rm_delegation_if_exists-PoolStep :
      (who delegator amount : ℕ) (m m' : CandidateMetadata) (flag : Bool) (s s' : Storage c)
      → PoolAt c who m s
      → rm_delegation_if_exists c who delegator amount m s ≡ ok ((m', flag), s')
      → PoolStep c who m m' s s'
  unfolding rm_delegation_if_exists
  rm_delegation_if_exists-PoolStep who delegator amount m m' flag s s' at h =
      OneOf-PoolStep who m m' flag s s' (rm_top_delegation c who delegator m)
        (rm_bottom_delegation c who delegator m)
        (rm_delegation_if_exists c who delegator amount m s)
        (rm_top-PoolStep who delegator m m' flag s s' at)
        (λ e.
          let (same, pool) = rm_bottom-Same who delegator m m' flag s s' e in
          keep-PoolStep c who m m' s s' at same pool)
        (ground (
          arith,
          or_if_dne-OneOf (rm_top_delegation c who delegator m)
              (rm_bottom_delegation c who delegator m) s,
        ))
        h

  pub increase_delegation-PoolStep :
      (who delegator bond more : ℕ) (m m' : CandidateMetadata) (flag : Bool) (s s' : Storage c)
      → PoolAt c who m s
      → increase_delegation c who delegator bond more m s ≡ ok ((m', flag), s')
      → PoolStep c who m m' s s'
  unfolding increase_delegation
  increase_delegation-PoolStep who delegator bond more m m' flag s s' at h =
      OneOf-PoolStep who m m' flag s s' (increase_top_delegation c who delegator more m)
        (increase_bottom_delegation c who delegator bond more m)
        (increase_delegation c who delegator bond more m s)
        (increase_top-PoolStep who delegator more m m' flag s s' at)
        (increase_bottom-PoolStep who delegator bond more m m' flag s s' at)
        (ground (
          arith,
          or_if_dne-OneOf (increase_top_delegation c who delegator more m)
              (increase_bottom_delegation c who delegator bond more m) s,
        ))
        h

  pub decrease_delegation-PoolStep :
      (who delegator bond less : ℕ) (m m' : CandidateMetadata) (flag : Bool) (s s' : Storage c)
      → PoolAt c who m s
      → decrease_delegation c who delegator bond less m s ≡ ok ((m', flag), s')
      → PoolStep c who m m' s s'
  unfolding decrease_delegation
  decrease_delegation-PoolStep who delegator bond less m m' flag s s' at h =
      OneOf-PoolStep who m m' flag s s' (decrease_top_delegation c who delegator bond less m)
        (decrease_bottom_delegation c who delegator less m)
        (decrease_delegation c who delegator bond less m s)
        (decrease_top-PoolStep who delegator bond less m m' flag s s' at)
        (λ e.
          let (same, pool) = decrease_bottom-Same who delegator less m m' flag s s' e in
          keep-PoolStep c who m m' s s' at same pool)
        (ground (
          arith,
          or_if_dne-OneOf (decrease_top_delegation c who delegator bond less m)
              (decrease_bottom_delegation c who delegator less m) s,
        ))
        h
