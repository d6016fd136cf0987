-- ===== src/Xcm/Trader/Examples.antt =====
-- The trader of primitives/manta/src/xcm.rs at concrete payments.
use hackathon_parity_eu.Prelude.{
  ℕ, ◌+◌, ◌-◌, ◌≡◌, ◌≢◌, ◌⊎◌, min, refl, ◌&&◌, some, none, leb, ◌==◌, if◌then◌else◌, nat_key, arith,
  ok,
}
use hackathon_parity_eu.Xcm.Trader.{
  Market, Trader, new, cost, new_asset, add_weight, cache_asset, charge, buy_weight, refund_weight,
  saturating_add, drop,
}
use hackathon_parity_eu.Xcm.Trader.Weights.{
  Pays, buy_weight-Pays, buy_weight-twice, refund_weight-drop,
}

-- A payment is an amount of one asset; a unit of weight costs 100.
abbrev market : Market
market = record {
  Location = ℕ;
  location_key = nat_key;
  Payment = ℕ × ℕ;
  first_asset = λ p. some (some p.0);
  checked_sub = λ p id n. if p.0 == id && leb n p.1 then some (p.0, p.1 - n) else none;
  asset_id = λ l. some l;
  units_per_second = λ id. some 1000;
  weight_per_second = 10;
}

abbrev bought : Trader market
bought = record { weight = 10; refund_cache = some (7, 500, 1000) }

bought_test : buy_weight market 5 (7, 800) (new market) ≡ ok ((7, 300), bought)
unfolding buy_weight charge cost new new_asset add_weight cache_asset saturating_add
bought_test = refl

buy_weight-Pays_example :
    (id : ℕ) × (units : ℕ) × (asset_id : ℕ) × (market.first_asset (7, 800) ≡ some (some id))
    × (market.asset_id id ≡ some asset_id)
    × (market.units_per_second asset_id ≡ some units)
    × (((cost market units 5 ≡ 0) × ((◌≡◌ {A = ℕ × ℕ} (7, 300) (7, 800))) × (bought ≡ new market))
        ⊎ ((cost market units 5 ≢ 0)
            × Pays market 5 (7, 800) (7, 300) id units (new market) bought))
buy_weight-Pays_example = buy_weight-Pays market 5 (7, 800) (7, 300) (new market) bought bought_test

buy_weight-twice_example :
    (market.checked_sub (7, 800) 7 (cost market 1000 5) ≡ some (7, 300))
    × (bought.weight ≡ 5 + 5)
    × ((refund_weight market (5 + 5) bought).0 ≡ some (7, cost market 1000 (5 + 5)))
unfolding cost
buy_weight-twice_example =
    buy_weight-twice market 5 (7, 800) (7, 300) 7 1000 7 bought (ground arith) refl refl refl
      (λ e. absurd (omega (arith, e))) bought_test

refund_weight-drop_example :
    (back : ℕ) × (left : ℕ) × ((refund_weight market 3 bought).0 ≡ some (7, back))
    × (drop market (refund_weight market 3 bought).1 ≡ some (7, left))
    × (back + left ≡ 500)
    × ((refund_weight market 3 bought).1.weight + min 3 10 ≡ 10)
unfolding cost
refund_weight-drop_example = refund_weight-drop market 3 7 500 1000 bought refl (ground arith)
