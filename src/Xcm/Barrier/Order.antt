-- ===== src/Xcm/Barrier/Order.antt =====
-- The barrier of primitives/manta/src/xcm.rs: the messages that it lets through.
use hackathon_parity_eu.Prelude.{
  ℕ, ◌≡◌, ◌≤◌, refl, Bool, true, some, List, ◌∷◌, leb, arith, leb→le, Bool-cases, inl, inr,
}
use hackathon_parity_eu.Xcm.Barrier.{
  WeightLimit, unlimited, limited, Payload, Instruction, descend_origin, withdraw_asset,
  buy_execution, limit_execution, should_execute,
}

-- That a limit covers a weight.
abbrev pub Covers : WeightLimit → ℕ → Type 0
Covers unlimited max_weight = Unit
Covers (limited weight) max_weight = max_weight ≤ weight

module _ (p : Payload) where
  -- The barrier lets a message through only from an allowed origin, and only if it begins with
  -- `DescendOrigin`, `WithdrawAsset` and a `BuyExecution` whose limit covers the weight; it then sets
  -- that limit to the weight, and changes nothing else of the message: neither the origin to descend
  -- to, nor the assets, nor the fees, nor what follows.
  pub should_execute-Covers :
      (allowed : Bool) (message message' : List (Instruction p)) (max_weight : ℕ)
      → should_execute p allowed message max_weight ≡ some message'
      → (junctions : p.Junctions) × (assets : p.MultiAssets) × (fees : p.MultiAsset)
        × (limit : WeightLimit) × (rest : List (Instruction p)) × (allowed ≡ true)
        × Covers limit max_weight
        × (message
            ≡ descend_origin junctions ∷ withdraw_asset assets ∷ buy_execution fees limit ∷ rest)
        × (message'
            ≡ descend_origin junctions
              ∷ withdraw_asset assets
              ∷ buy_execution fees (limited max_weight)
              ∷ rest)
  unfolding should_execute limit_execution
  should_execute-Covers true
        (descend_origin j ∷ withdraw_asset a ∷ buy_execution f unlimited ∷ rest) m' w h =
      (j, a, f, unlimited, rest, refl, tt, refl, ground arith)
  should_execute-Covers true
        (descend_origin j ∷ withdraw_asset a ∷ buy_execution f (limited n) ∷ rest) m' w h =
      elim (Bool-cases (leb w n)) [
        | inl e ↦ (j, a, f, limited n, rest, refl, leb→le w n e, refl, ground arith)
        | inr e ↦ absurd (ground arith)
      ]
  should_execute-Covers allowed message m' w h = absurd (ground arith)
