-- ===== src/Staking/Rounds/Chain.antt =====
-- pallets/parachain-staking/src/lib.rs over the blocks of a chain: its start, then extrinsics and the
-- hooks of blocks.
use hackathon_parity_eu.Prelude.{ℕ, List, [], ◌∷◌, settle}
use hackathon_parity_eu.Staking.Inflation.{InflationInfo}
use hackathon_parity_eu.Staking.Pallet.{Config, Origin, Storage, Action}
use hackathon_parity_eu.Staking.Calls.Dispatch.{Extrinsic, dispatch}
use hackathon_parity_eu.Staking.Rounds.{on_initialize, on_finalize}
use hackathon_parity_eu.Staking.Rounds.Genesis.{build, initialize_pallet}

-- The two ways to start the pallet.
pub data Start : Type 0 where
  genesis : InflationInfo → List (ℕ × ℕ) → List (ℕ × ℕ × ℕ) → Start
  upgrade : ℕ → ℕ → List ℕ → InflationInfo → Start

-- What changes the storage after the start. A block starts with its number and ends with its author.
pub data Moment : Type 0 where
  extrinsic : Origin → Extrinsic → Moment
  block_starts block_ends : ℕ → Moment

module _ (c : Config) where
  unfoldable pub start : Start → Action c (Unit {0})
  start (genesis inflation candidates delegations) = build c inflation candidates delegations
  start (upgrade version block candidates inflation) =
      initialize_pallet c version block candidates inflation

  unfoldable pub advance : Moment → Storage c → Storage c
  advance (extrinsic o x) s = dispatch c o x s
  advance (block_starts n) s = settle s (on_initialize c n s)
  advance (block_ends author) s = settle s (on_finalize c author s)

  unfoldable pub run : List Moment → Storage c → Storage c
  run [] s = s
  run (x ∷ xs) s = run xs (advance x s)
