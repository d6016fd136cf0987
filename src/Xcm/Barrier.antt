-- ===== src/Xcm/Barrier.antt =====
-- `AllowTopLevelPaidExecutionDescendOriginFirst` of primitives/manta/src/xcm.rs.
pub mod Order
pub mod Examples
use hackathon_parity_eu.Prelude.{
  ℕ, Bool, true, false, Option, none, some, List, [], ◌∷◌, leb, if◌then◌else◌,
}

pub data WeightLimit : Type 0 where
  unlimited : WeightLimit
  limited : ℕ → WeightLimit

-- What the instructions of a message carry: interior locations, lists of assets, one asset, and the
-- instructions that the barrier does not tell apart.
pub record Payload : Type 1 where
  pub Junctions : Type 0
  pub MultiAssets : Type 0
  pub MultiAsset : Type 0
  pub Other : Type 0

-- The barrier tells three instructions apart, and changes only the limit of the third.
pub data Instruction (p : Payload) : Type 0 where
  descend_origin : p.Junctions → Instruction p
  withdraw_asset : p.MultiAssets → Instruction p
  buy_execution : p.MultiAsset → WeightLimit → Instruction p
  other : p.Other → Instruction p

module _ (p : Payload) where
  -- The third step: the new instruction, if the limit covers the weight.
  pub limit_execution : ℕ → Instruction p → Option (Instruction p)
  limit_execution max_weight (buy_execution fees (limited weight)) =
      if leb max_weight weight then some (buy_execution fees (limited max_weight)) else none
  limit_execution max_weight (buy_execution fees unlimited) =
      some (buy_execution fees (limited max_weight))
  limit_execution max_weight (descend_origin junctions) = none
  limit_execution max_weight (withdraw_asset assets) = none
  limit_execution max_weight (other instruction) = none

  -- The message with the weight limit that the barrier sets, or none if it refuses; the first argument
  -- is whether the origin is an allowed one.
  pub should_execute : Bool → List (Instruction p) → ℕ → Option (List (Instruction p))
  unfolding limit_execution
  should_execute true (descend_origin junctions ∷ withdraw_asset assets ∷ i ∷ rest) max_weight =
      elim (limit_execution max_weight i) [
        | none ↦ none
        | some i' ↦ some (descend_origin junctions ∷ withdraw_asset assets ∷ i' ∷ rest)
      ]
  should_execute _ _ max_weight = none
