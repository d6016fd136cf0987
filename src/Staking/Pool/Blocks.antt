-- ===== src/Staking/Pool/Blocks.antt =====
-- The start of a round and the payouts, pallets/parachain-staking/src/lib.rs, and the candidate pool.
use hackathon_parity_eu.Prelude.{
  ℕ, ◌-◌, ◌==◌, not, ◌≡◌, refl, ◌∙◌, Option, lookup, nat_key, nat_pair_key, ok, arith, Option-cases,
  Bool-cases, Result-cases, inl, inr, List, [], ◌∷◌, ◌++◌, ◌⊎◌, for_each, insert, remove, ◌>>=◌,
}
use hackathon_parity_eu.Staking.Bond.{Bond, saturating_add, saturating_add_u32}
use hackathon_parity_eu.Staking.Pallet.{
  Config, Storage, Action, CollatorSnapshot, DelayedPayout, RoundInfo, expect, deposit_event,
  collator_chosen,
}
use hackathon_parity_eu.Staking.Delegator.{or_default}
use hackathon_parity_eu.Staking.Rounds.{
  get_rewardable_delegators, copy_snapshots, select_previous, select_each, select_top_candidates,
  compute_top_candidates, iter_prefix, prepare_payout, prepare_staking_payouts, mint,
  pay_delegators, pay_snapshot, pay_next, pay_one_collator_reward, handle_delayed_payouts,
  start_round, on_initialize, on_finalize, should_update, update,
}
use hackathon_parity_eu.Staking.Pool.{PoolSame, for_each-PoolSame}

list_cases : {A : Type 0} (xs : List A) → (xs ≡ []) ⊎ ((y : A) × (ys : List A) × (xs ≡ y ∷ ys))
list_cases [] = inl refl
list_cases (y ∷ ys) = inr (y, ys, refl)

module _ (c : Config) where
  trans-PoolSame : (s s₁ s₂ : Storage c) → PoolSame c s s₁ → PoolSame c s₁ s₂ → PoolSame c s s₂
  trans-PoolSame s s₁ s₂ (p, q) (p', q') = (p' ∙ p, q' ∙ q)

  copy_snapshots-Same :
      (now : ℕ) (xs : List (ℕ × CollatorSnapshot)) (n out : ℕ × ℕ × ℕ) (s s' : Storage c)
      → copy_snapshots c now xs n s ≡ ok (out, s')
      → PoolSame c s s'
  unfolding copy_snapshots
  copy_snapshots-Same now [] n out s s' h = ground arith
  copy_snapshots-Same now ((a, snapshot) ∷ xs) (n₀, n₁, n₂) out s s' h =
      copy_snapshots-Same now xs _ out (record s { at_stake = insert (now, a) snapshot s.at_stake })
        s' h

  rewardable-Same :
      (collator : ℕ) (out : List Bond × ℕ) (s s' : Storage c)
      → get_rewardable_delegators c collator s ≡ ok (out, s')
      → PoolSame c s s'
  unfolding get_rewardable_delegators
  rewardable-Same collator out s s' h = ground arith

  select_each-Same :
      (now : ℕ) (xs : List ℕ) (n out : ℕ × ℕ × ℕ) (s s' : Storage c)
      → select_each c now xs n s ≡ ok (out, s')
      → PoolSame c s s'
  unfolding select_each
  select_each-Same now [] n out s s' h = ground arith
  select_each-Same now (a ∷ xs) (n₀, n₁, n₂) out s s' h =
      elim (Option-cases (lookup a s.candidate_info)) [
        | inl gone ↦ absurd (ground arith)
        | inr (m, found) ↦ elim (Result-cases (get_rewardable_delegators c a s)) [
          | inr (f, failed) ↦ absurd (ground arith)
          | inl (((ds, uncounted), s₁), e) ↦
              let same = rewardable-Same a (ds, uncounted) s s₁ e in
              let s₂ : Storage c = record s₁ {
                at_stake =
                    insert (now, a)
                      (record {
                        bond = m.bond;
                        delegations = ds;
                        total = m.total_counted - uncounted;
                      })
                      s₁.at_stake;
                events = s₁.events ++ collator_chosen now a m.total_counted ∷ [];
              } in
              trans-PoolSame s s₁ s' same (
                select_each-Same now xs
                  (
                    saturating_add_u32 n₀ 1,
                    saturating_add_u32 n₁ m.delegation_count,
                    saturating_add n₂ m.total_counted,
                  )
                  out s₂ s' (ground arith))
        ]
      ]

  select_previous-Same :
      (now : ℕ) (out : ℕ × ℕ × ℕ) (s s' : Storage c)
      → select_previous c now s ≡ ok (out, s')
      → PoolSame c s s'
  unfolding select_previous
  select_previous-Same now out s s' h =
      let snapshots = iter_prefix (now - 1) s.at_stake in
      elim (Result-cases (copy_snapshots c now snapshots (0, 0, 0) s)) [
        | inr (f, failed) ↦ absurd (ground arith)
        | inl ((counts, s₁), e) ↦
            let body : ℕ → Action c (Unit {0}) = λ candidate. (do
              snapshot ← expect (lookup candidate snapshots)
              deposit_event (collator_chosen now candidate snapshot.total)) in
            elim (Result-cases (for_each body s₁.selected_candidates s₁)) [
              | inr (f, failed) ↦ absurd (ground arith)
              | inl ((u, s₂), e₂) ↦
                  let q =
                    for_each-PoolSame c body s₁.selected_candidates s₁ s₂
                      (λ x t t' k. (ground arith, ground arith)) e₂ in
                  trans-PoolSame s s₁ s' (copy_snapshots-Same now snapshots (0, 0, 0) counts s s₁ e)
                    (ground arith)
            ]
      ]

  pub select_top_candidates-Same :
      (now : ℕ) (out : ℕ × ℕ × ℕ) (s s' : Storage c)
      → select_top_candidates c now s ≡ ok (out, s')
      → PoolSame c s s'
  unfolding select_top_candidates
  select_top_candidates-Same now out s s' h = elim (list_cases (compute_top_candidates c s)) [
    | inl e ↦ select_previous-Same now out s s' (ground arith)
    | inr (a, rest, e) ↦ elim (Result-cases (select_each c now (a ∷ rest) (0, 0, 0) s)) [
      | inr (f, failed) ↦ absurd (ground arith)
      | inl ((counts, s₁), e₁) ↦
          trans-PoolSame s s₁ s' (select_each-Same now (a ∷ rest) (0, 0, 0) counts s s₁ e₁)
            (ground arith, ground arith)
    ]
  ]

  prepare-Same :
      (now : ℕ) (s s' : Storage c) → prepare_staking_payouts c now s ≡ ok (tt, s') → PoolSame c s s'
  unfolding prepare_staking_payouts prepare_payout
  prepare-Same now s s' h = ground arith

  mint-Same : (n who : ℕ) (s s' : Storage c) → mint c n who s ≡ ok (tt, s') → PoolSame c s s'
  unfolding mint
  mint-Same n who s s' h = ground arith

  pay_delegators-Same :
      (total due : ℕ) (bs : List Bond) (s s' : Storage c)
      → pay_delegators c total due bs s ≡ ok (tt, s')
      → PoolSame c s s'
  unfolding pay_delegators
  pay_delegators-Same total due [] s s' h = ground arith
  pay_delegators-Same total due (b ∷ bs) s s' h =
      let n = c.perbill_mul (c.perbill_from_rational b.amount total) due in
      elim (Bool-cases (not (n == 0))) [
        | inr zero ↦ pay_delegators-Same total due bs s s' (ground arith)
        | inl some_due ↦ elim (Result-cases (mint c n b.owner s)) [
          | inr (f, failed) ↦ absurd (ground arith)
          | inl ((u, s₁), e) ↦
              trans-PoolSame s s₁ s' (mint-Same n b.owner s s₁ e)
                (pay_delegators-Same total due bs s₁ s' (ground arith))
        ]
      ]

  pay_snapshot-Same :
      (collator total_paid pct issuance : ℕ) (snapshot : CollatorSnapshot) (s s' : Storage c)
      → pay_snapshot c collator total_paid pct issuance snapshot s ≡ ok (tt, s')
      → PoolSame c s s'
  unfolding pay_snapshot
  pay_snapshot-Same collator total_paid pct issuance snapshot s s' h =
      elim (list_cases snapshot.delegations) [
        | inl e ↦ mint-Same total_paid collator s s' (ground arith)
        | inr (b, bs, e) ↦
            let commission = c.perbill_mul pct issuance in
            let due = total_paid - commission in
            let n =
              saturating_add
                (c.perbill_mul (c.perbill_from_rational snapshot.bond snapshot.total) due)
                commission in
            elim (Result-cases (mint c n collator s)) [
              | inr (f, failed) ↦ absurd (ground arith)
              | inl ((u, s₁), e₁) ↦
                  trans-PoolSame s s₁ s' (mint-Same n collator s s₁ e₁)
                    (pay_delegators-Same snapshot.total due (b ∷ bs) s₁ s' (ground arith))
            ]
      ]

  pay_next-Same :
      (round : ℕ) (payout : DelayedPayout) (points : ℕ) (xs : List (ℕ × ℕ)) (out : Option (ℕ × ℕ))
      (s s' : Storage c)
      → pay_next c round payout points xs s ≡ ok (out, s')
      → PoolSame c s s'
  unfolding pay_next
  pay_next-Same round payout points [] out s s' h = ground arith
  pay_next-Same round payout points ((who, pts) ∷ xs) out s s' h =
      let pct = c.perbill_from_rational pts points in
      let paid = c.perbill_mul pct payout.total_staking_reward in
      let snapshot : CollatorSnapshot =
        or_default (record { bond = 0; delegations = []; total = 0 })
          (lookup (round, who) s.at_stake) in
      let issuance = c.perbill_mul payout.collator_commission payout.round_issuance in
      let s₁ : Storage c = record s {
        awarded_pts = remove (round, who) s.awarded_pts;
        at_stake = remove (round, who) s.at_stake;
      } in
      elim (Result-cases (pay_snapshot c who paid pct issuance snapshot s₁)) [
        | inr (f, failed) ↦ absurd (ground arith)
        | inl ((u, s₂), e) ↦
            trans-PoolSame s s₂ s'
              (pay_snapshot-Same who paid pct issuance snapshot s₁ s₂ (ground arith))
              (ground arith, ground arith)
      ]

  payouts-Same :
      (now : ℕ) (s s' : Storage c) → handle_delayed_payouts c now s ≡ ok (tt, s') → PoolSame c s s'
  unfolding handle_delayed_payouts pay_one_collator_reward
  payouts-Same now s s' h =
      let round = now - c.reward_payment_delay in
      elim (Option-cases (lookup round s.delayed_payouts)) [
        | inl none_due ↦ ground arith
        | inr (payout, found) ↦
            let points = or_default 0 (lookup round s.points) in
            let xs = iter_prefix round s.awarded_pts in
            elim (Result-cases (pay_next c round payout points xs s)) [
              | inr (f, failed) ↦ ground arith
              | inl ((out, s₁), e) ↦ ground (arith, pay_next-Same round payout points xs out s s₁ e)
            ]
      ]

  start_round-Same :
      (r : RoundInfo) (s s' : Storage c) → start_round c r s ≡ ok (tt, s') → PoolSame c s s'
  unfolding start_round
  start_round-Same r s s' h = elim (Result-cases (prepare_staking_payouts c r.current s)) [
    | inr (f, failed) ↦ absurd (ground arith)
    | inl ((u, s₁), e) ↦ elim (Result-cases (select_top_candidates c r.current s₁)) [
      | inr (f, failed) ↦ absurd (ground arith)
      | inl ((counts, s₂), e₂) ↦
          trans-PoolSame s s₁ s' (prepare-Same r.current s s₁ (ground arith)) (
            trans-PoolSame s₁ s₂ s' (select_top_candidates-Same r.current counts s₁ s₂ e₂)
              (ground arith, ground arith))
    ]
  ]

  pub on_initialize-Same :
      (n : ℕ) (s s' : Storage c) → on_initialize c n s ≡ ok (tt, s') → PoolSame c s s'
  unfolding on_initialize
  on_initialize-Same n s s' h = elim (Bool-cases (should_update n s.round)) [
    | inr same ↦ payouts-Same s.round.current s s' (ground arith)
    | inl starts ↦ elim (Result-cases (start_round c (update n s.round) s)) [
      | inr (f, failed) ↦ absurd (ground arith)
      | inl ((u, s₁), e) ↦
          trans-PoolSame s s₁ s' (start_round-Same (update n s.round) s s₁ (ground arith))
            (payouts-Same (update n s.round).current s₁ s' (ground arith))
    ]
  ]

  pub on_finalize-Same :
      (author : ℕ) (s s' : Storage c) → on_finalize c author s ≡ ok (tt, s') → PoolSame c s s'
  unfolding on_finalize
  on_finalize-Same author s s' h = ground arith
