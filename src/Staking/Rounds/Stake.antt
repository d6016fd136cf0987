-- ===== src/Staking/Rounds/Stake.antt =====
-- `get_rewardable_delegators` of pallets/parachain-staking/src/lib.rs: which stake counts for rewards.
use hackathon_parity_eu.Prelude.{
  ℕ, ◌+◌, ◌-◌, ◌≤◌, ◌≡◌, refl, ◌^◌, Option, none, some, List, [], ◌∷◌, All, min, arith,
}
use hackathon_parity_eu.Staking.Bond.{Bond, saturating_add}
use hackathon_parity_eu.Staking.Bond.Sorted.{sum_amounts}
use hackathon_parity_eu.Staking.Pallet.{DelegationAction, revoke, decrease, ScheduledRequest}
use hackathon_parity_eu.Staking.Rounds.{action_of, rewardable, rewardable_loop}

abbrev pub decreases : Option DelegationAction → ℕ
decreases none = 0
decreases (some (revoke n)) = 0
decreases (some (decrease n)) = n

-- A pending decrease is at most the delegation.
abbrev pub Fits : List ScheduledRequest → Bond → Type 0
Fits requests b = decreases (action_of b.owner requests) ≤ b.amount

rewardable-sum :
    (requests : List ScheduledRequest) (b : Bond)
    → Fits requests b
    → (rewardable requests b).0.amount + (rewardable requests b).1 ≡ b.amount
unfolding rewardable
rewardable-sum requests b h = ground arith

-- Where no pending decrease exceeds its delegation and the stake fits a balance, what counts for rewards
-- and what does not make up the whole stake of the delegations.
pub rewardable_loop_lem :
    (requests : List ScheduledRequest) (bs : List Bond) (uncounted : ℕ)
    → All (Fits requests) bs
    → sum_amounts bs + uncounted ≤ 2 ^ 128 - 1
    → sum_amounts (rewardable_loop requests bs uncounted).0
        + (rewardable_loop requests bs uncounted).1
      ≡ sum_amounts bs + uncounted
unfolding rewardable_loop saturating_add sum_amounts
rewardable_loop_lem requests [] uncounted fits small = refl
rewardable_loop_lem requests (b ∷ bs) uncounted fits small =
    let n : ℕ = (rewardable requests b).1 in
    let one = rewardable-sum requests b fits.0 in
    let e : min (uncounted + n) (2 ^ 128 - 1) ≡ uncounted + n = omega arith in
    let rest = rewardable_loop_lem requests bs (uncounted + n) fits.1 (omega arith) in
    rw e (omega arith)
