-- ===== src/Staking/Rounds.antt =====
-- pallets/parachain-staking/src/lib.rs: rounds, the selection of collators, and rewards. Weights are
-- left out, and the handlers of payouts and of new rounds, which return a weight alone.
pub mod Selection
pub mod Stake
pub mod Points
pub mod Genesis
pub mod Chain
use hackathon_parity_eu.Prelude.{
  ℕ, ◌+◌, ◌-◌, ◌%◌, ◌^◌, Bool, true, false, not, ltb, leb, ◌==◌, if◌then◌else◌, Option, none, some,
  List, [], ◌∷◌, length, take, lookup, insert, remove, StorageMap, nat_key, nat_pair_key, Result,
  ok, err, pure, gets, modify, only_if, for_each, ◌>>=◌, ◌>>◌,
}
use mathlib.Core.List.{reverse}
use hackathon_parity_eu.Staking.Search.{sort_by}
use hackathon_parity_eu.Staking.Set as Set
use hackathon_parity_eu.Staking.Bond.{Bond, saturating_add, saturating_add_u32}
use hackathon_parity_eu.Staking.Inflation.{Range}
use hackathon_parity_eu.Staking.Pallet.{
  Config, DelegationAction, revoke, decrease, ScheduledRequest, CollatorSnapshot, DelayedPayout,
  RoundInfo, Storage, Action, deposit_event, expect, new_round, collator_chosen, rewarded,
  reserved_for_parachain_bond,
}
use hackathon_parity_eu.Staking.Delegator.{or_default, requests_of}

-- `RoundInfo::should_update`; a difference of block numbers wraps.
unfoldable pub should_update : ℕ → RoundInfo → Bool
should_update now r = leb r.length ((now + 2 ^ 32 - r.first) % 2 ^ 32)

unfoldable pub update : ℕ → RoundInfo → RoundInfo
update now r = record r { current = saturating_add_u32 r.current 1; first = now }

-- The entries of one round in a double map, in the order of the storage.
abbrev pub iter_prefix : {V : Type 0} → ℕ → StorageMap (ℕ × ℕ) V → List (ℕ × V)
iter_prefix round [] = []
iter_prefix round (((r, account), v) ∷ m) =
    if r == round then (account, v) ∷ iter_prefix round m else iter_prefix round m

-- The action of the last request of a delegator.
unfoldable pub action_of : ℕ → List ScheduledRequest → Option DelegationAction
action_of delegator [] = none
action_of delegator (r ∷ rs) = elim (action_of delegator rs) [
  | some a ↦ some a
  | none ↦ if r.delegator == delegator then some r.action else none
]

-- The bond that counts for rewards, and the stake that does not count.
unfoldable pub rewardable : List ScheduledRequest → Bond → Bond × ℕ
unfolding action_of
rewardable requests b = elim (action_of b.owner requests) [
  | none ↦ (b, 0)
  | some a ↦ elim a [
    | revoke n ↦ (record b { amount = 0 }, b.amount)
    | decrease n ↦ (record b { amount = b.amount - n }, n)
  ]
]

-- The loop of `get_rewardable_delegators`, with the uncounted stake so far.
unfoldable pub rewardable_loop : List ScheduledRequest → List Bond → ℕ → List Bond × ℕ
unfolding rewardable
rewardable_loop requests [] uncounted = ([], uncounted)
rewardable_loop requests (b ∷ bs) uncounted =
    let (b', n) = rewardable requests b in
    let (bs', uncounted') = rewardable_loop requests bs (saturating_add uncounted n) in
    (b' ∷ bs', uncounted')

-- `filter(|x| x.amount >= min_stk)`
unfoldable pub at_least : ℕ → List Bond → List Bond
at_least min_stk [] = []
at_least min_stk (b ∷ bs) =
    if leb min_stk b.amount then b ∷ at_least min_stk bs else at_least min_stk bs

abbrev pub owners : List Bond → List ℕ
owners [] = []
owners (b ∷ bs) = b.owner ∷ owners bs

-- `compute_top_candidates`: from the pool's bonds, the number to select and the minimum.
unfoldable pub top_candidates : ℕ → ℕ → List Bond → List ℕ
unfolding at_least
top_candidates top_n min_stk pool =
    sort_by ltb (
      owners
        (at_least min_stk (take top_n (reverse (sort_by (λ a b. ltb a.amount b.amount) pool)))))

module _ (c : Config) where
  unfoldable pub compute_top_candidates : Storage c → List ℕ
  unfolding top_candidates
  compute_top_candidates s =
      top_candidates s.total_selected c.min_collator_stk s.candidate_pool.elements

  -- The rewardable delegations of a candidate and the uncounted stake.
  unfoldable pub get_rewardable_delegators : ℕ → Action c (List Bond × ℕ)
  unfolding requests_of rewardable_loop
  get_rewardable_delegators collator = do
    requests ← gets (requests_of c collator)
    found ← gets (λ s. lookup collator s.top_delegations)
    top ← expect found
    pure (rewardable_loop requests top.delegations 0)

  abbrev put_at_stake : ℕ → ℕ → CollatorSnapshot → Action c (Unit {0})
  put_at_stake now account snapshot =
      modify (λ s. record s { at_stake = insert (now, account) snapshot s.at_stake })

  -- The snapshots of the previous round are taken over.
  unfoldable pub copy_snapshots : ℕ → List (ℕ × CollatorSnapshot) → ℕ × ℕ × ℕ → Action c (ℕ × ℕ × ℕ)
  copy_snapshots now [] counts = pure counts
  copy_snapshots now ((account, snapshot) ∷ rest) (collators, delegations, total) = do
    put_at_stake now account snapshot
    copy_snapshots now rest (
      saturating_add_u32 collators 1,
      saturating_add_u32 delegations (length snapshot.delegations),
      saturating_add total snapshot.total,
    )

  unfoldable pub select_previous : ℕ → Action c (ℕ × ℕ × ℕ)
  unfolding copy_snapshots
  select_previous now = do
    snapshots ← gets (λ s. iter_prefix (now - 1) s.at_stake)
    counts ← copy_snapshots now snapshots (0, 0, 0)
    selected ← gets (λ s. s.selected_candidates)
    for_each
        (λ candidate. do
          snapshot ← expect (lookup candidate snapshots)
          deposit_event (collator_chosen now candidate snapshot.total))
        selected
    pure counts

  -- The snapshot of each collator that is selected.
  unfoldable pub select_each : ℕ → List ℕ → ℕ × ℕ × ℕ → Action c (ℕ × ℕ × ℕ)
  unfolding get_rewardable_delegators
  select_each now [] counts = pure counts
  select_each now (account ∷ rest) (collators, delegations, total) = do
    found ← gets (λ s. lookup account s.candidate_info)
    m ← expect found
    (rewardable_delegations, uncounted_stake) ← get_rewardable_delegators account
    put_at_stake now account (record {
      bond = m.bond;
      delegations = rewardable_delegations;
      total = m.total_counted - uncounted_stake;
    })
    deposit_event (collator_chosen now account m.total_counted)
    select_each now rest (
      saturating_add_u32 collators 1,
      saturating_add_u32 delegations m.delegation_count,
      saturating_add total m.total_counted,
    )

  -- The number of collators, the number of delegations and the total staked.
  unfoldable pub select_top_candidates : ℕ → Action c (ℕ × ℕ × ℕ)
  unfolding compute_top_candidates select_previous select_each
  select_top_candidates now = do
    collators ← gets compute_top_candidates
    elim collators [
      | [] ↦ select_previous now
      | account ∷ rest ↦ do
        counts ← select_each now (account ∷ rest) (0, 0, 0)
        modify (λ s. record s { selected_candidates = account ∷ rest })
        pure counts
    ]

  -- `compute_issuance`, with `round_issuance_range` of src/inflation.rs.
  unfoldable pub compute_issuance : ℕ → Storage c → ℕ
  compute_issuance staked s =
      let config = s.inflation_config in
      let circulating = c.currency.total_issuance s.ledger in
      if ltb staked config.expect.min
      then c.perbill_mul config.round.min circulating
      else if ltb config.expect.max staked
      then c.perbill_mul config.round.max circulating
      else c.perbill_mul config.round.ideal circulating

  -- `deposit_into_existing`: the value deposited, or none.
  abbrev pub deposit_into : ℕ → ℕ → Action c (Option ℕ)
  deposit_into account n s = elim (c.currency.deposit_into_existing account n s.ledger) [
    | none ↦ ok (none, s)
    | some (paid, ledger) ↦ ok (some paid, record s { ledger = ledger })
  ]

  unfoldable pub prepare_payout : ℕ → Action c (Unit {0})
  unfolding compute_issuance
  prepare_payout round_to_payout = do
    total_staked ← gets (λ s. or_default 0 (lookup round_to_payout s.staked))
    modify (λ s. record s { staked = remove round_to_payout s.staked })
    total_issuance ← gets (compute_issuance total_staked)
    bond_config ← gets (λ s. s.parachain_bond_info)
    paid ← deposit_into bond_config.account (c.percent_mul bond_config.percent total_issuance)
    left_issuance ← elim paid [
      | none ↦ pure total_issuance
      | some n ↦ do
        deposit_event (reserved_for_parachain_bond bond_config.account n)
        pure (total_issuance - n)
    ]
    commission ← gets (λ s. s.collator_commission)
    modify (λ s. record s {
      delayed_payouts =
          insert round_to_payout
            (record {
              round_issuance = total_issuance;
              total_staking_reward = left_issuance;
              collator_commission = commission;
            })
            s.delayed_payouts;
    })

  unfoldable pub prepare_staking_payouts : ℕ → Action c (Unit {0})
  unfolding prepare_payout
  prepare_staking_payouts now =
      let delay = c.reward_payment_delay in
      only_if (ltb delay now) (do
        total_points ← gets (λ s. or_default 0 (lookup (now - delay) s.points))
        only_if (not (total_points == 0)) (prepare_payout (now - delay)))

  unfoldable pub mint : ℕ → ℕ → Action c (Unit {0})
  mint n account = do
    paid ← deposit_into account n
    elim paid [ none ↦ pure tt | some amount ↦ deposit_event (rewarded account amount) ]

  -- The due portions of the delegators.
  unfoldable pub pay_delegators : ℕ → ℕ → List Bond → Action c (Unit {0})
  unfolding mint
  pay_delegators total amt_due [] = pure tt
  pay_delegators total amt_due (b ∷ bs) = do
    let due = c.perbill_mul (c.perbill_from_rational b.amount total) amt_due
    only_if (not (due == 0)) (mint due b.owner)
    pay_delegators total amt_due bs

  unfoldable pub pay_snapshot : ℕ → ℕ → ℕ → ℕ → CollatorSnapshot → Action c (Unit {0})
  unfolding mint pay_delegators
  pay_snapshot collator total_paid pct_due collator_issuance snapshot = elim snapshot.delegations [
    | [] ↦ mint total_paid collator
    | b ∷ bs ↦ do
      let collator_pct = c.perbill_from_rational snapshot.bond snapshot.total
      let commission = c.perbill_mul pct_due collator_issuance
      let amt_due = total_paid - commission
      mint (saturating_add (c.perbill_mul collator_pct amt_due) commission) collator
      pay_delegators snapshot.total amt_due (b ∷ bs)
  ]

  unfoldable pub pay_next : ℕ → DelayedPayout → ℕ → List (ℕ × ℕ) → Action c (Option (ℕ × ℕ))
  unfolding pay_snapshot
  pay_next round payout total_points [] = pure none
  pay_next round payout total_points ((collator, pts) ∷ rest) = do
    modify (λ s. record s { awarded_pts = remove (round, collator) s.awarded_pts })
    let pct_due = c.perbill_from_rational pts total_points
    let total_paid = c.perbill_mul pct_due payout.total_staking_reward
    snapshot ← gets (λ s.
        or_default (record { bond = 0; delegations = []; total = 0 })
          (lookup (round, collator) s.at_stake))
    modify (λ s. record s { at_stake = remove (round, collator) s.at_stake })
    pay_snapshot collator total_paid pct_due
        (c.perbill_mul payout.collator_commission payout.round_issuance) snapshot
    pure (some (collator, total_paid))

  -- The collator that was paid with the total paid, or none where the round is done.
  unfoldable pub pay_one_collator_reward : ℕ → DelayedPayout → Action c (Option (ℕ × ℕ))
  unfolding pay_next
  pay_one_collator_reward round payout = do
    total_points ← gets (λ s. or_default 0 (lookup round s.points))
    if total_points == 0 then pure none else (do
      entries ← gets (λ s. iter_prefix round s.awarded_pts)
      pay_next round payout total_points entries)

  unfoldable pub handle_delayed_payouts : ℕ → Action c (Unit {0})
  unfolding pay_one_collator_reward
  handle_delayed_payouts now =
      let round = now - c.reward_payment_delay in
      only_if (leb c.reward_payment_delay now) (do
        found ← gets (λ s. lookup round s.delayed_payouts)
        elim found [
          | none ↦ pure tt
          | some payout ↦ do
            paid ← pay_one_collator_reward round payout
            elim paid [
              | some p ↦ pure tt
              | none ↦ modify (λ s. record s {
                delayed_payouts = remove round s.delayed_payouts;
                points = remove round s.points;
              })
            ]
        ])

  unfoldable pub start_round : RoundInfo → Action c (Unit {0})
  unfolding prepare_staking_payouts select_top_candidates
  start_round round = do
    prepare_staking_payouts round.current
    (collator_count, delegation_count, total_staked) ← select_top_candidates round.current
    modify (λ s. record s { round = round })
    modify (λ s. record s { staked = insert round.current s.total s.staked })
    deposit_event (new_round round.first round.current collator_count total_staked)

  unfoldable pub on_initialize : ℕ → Action c (Unit {0})
  unfolding should_update update start_round handle_delayed_payouts
  on_initialize n = do
    old ← gets (λ s. s.round)
    let starts = should_update n old
    let round = (if starts then update n old else old)
    only_if starts (start_round round)
    handle_delayed_payouts round.current

  -- `award_points_to_block_author`, with the author of the block.
  unfoldable pub on_finalize : ℕ → Action c (Unit {0})
  on_finalize author = modify (λ s.
      let now = s.round.current in
      record s {
        awarded_pts =
            insert (now, author)
              (saturating_add_u32 (or_default 0 (lookup (now, author) s.awarded_pts)) 20)
              s.awarded_pts;
        points = insert now (saturating_add_u32 (or_default 0 (lookup now s.points)) 20) s.points;
      })
