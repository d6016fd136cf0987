-- ===== src/Xcm/Barrier/Examples.antt =====
-- The barrier of primitives/manta/src/xcm.rs at concrete messages.
use hackathon_parity_eu.Prelude.{ℕ, ◌≡◌, refl, true, none, List, [], ◌∷◌}
use hackathon_parity_eu.Xcm.Barrier.{
  WeightLimit, limited, Payload, Instruction, descend_origin, withdraw_asset, other, buy_execution,
  limit_execution, should_execute,
}
use hackathon_parity_eu.Xcm.Barrier.Order.{Covers, should_execute-Covers}

abbrev numbers : Payload
numbers = record { Junctions = ℕ; MultiAssets = ℕ; MultiAsset = ℕ; Other = ℕ }

abbrev message : ℕ → List (Instruction numbers)
message n = descend_origin 1 ∷ withdraw_asset 2 ∷ buy_execution 3 (limited n) ∷ other 4 ∷ []

low_limit_test : should_execute numbers true (message 5) 6 ≡ none
unfolding should_execute limit_execution
low_limit_test = refl

should_execute-Covers_example :
    (junctions : ℕ) × (assets : ℕ) × (fees : ℕ) × (limit : WeightLimit) × (rest : List
      (Instruction numbers))
    × (true ≡ true)
    × Covers limit 6
    × (message 9
        ≡ descend_origin junctions ∷ withdraw_asset assets ∷ buy_execution fees limit ∷ rest)
    × (message 6
        ≡ descend_origin junctions ∷ withdraw_asset assets ∷ buy_execution fees (limited 6) ∷ rest)
unfolding should_execute limit_execution
should_execute-Covers_example = should_execute-Covers numbers true (message 9) (message 6) 6 refl
