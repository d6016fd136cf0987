-- ===== src/Xcm/Trader.antt =====
-- `FirstAssetTrader` of primitives/manta/src/xcm.rs: the weight that a message buys.
pub mod Weights
pub mod Examples
use hackathon_parity_eu.Prelude.{
  ℕ, ◌+◌, ◌-◌, ◌*◌, ◌/◌, ◌%◌, ◌^◌, min, Bool, true, false, Option, none, some, Key, beq, Call, pure,
  modify, ok_or, ◌>>=◌, ◌>>◌, ◌==◌,
}

-- The assets of a message and the registry of the chain: the location of the first fungible asset of a
-- payment (`some none` if it is not concrete), the payment less an amount of an asset, the id of a
-- location, the units per second of an asset, and Substrate's weight of a second.
pub record Market : Type 1 where
  pub Location : Type 0
  pub location_key : Key Location
  pub Payment : Type 0
  pub first_asset : Payment → Option (Option Location)
  pub checked_sub : Payment → Location → ℕ → Option Payment
  pub asset_id : Location → Option ℕ
  pub units_per_second : ℕ → Option ℕ
  pub weight_per_second : ℕ

pub data TraderError : Type 0 where
  too_expensive : TraderError

pub saturating_add : ℕ → ℕ → ℕ → ℕ
saturating_add width a b = min (a + b) (2 ^ width - 1)

module _ (m : Market) where
  instance abbrev location_key : Key m.Location
  location_key = m.location_key

  -- `weight`, and `refund_cache`: the location, the amount and the units per second of one asset.
  pub record Trader : Type 0 where
    pub weight : ℕ
    pub refund_cache : Option (m.Location × ℕ × ℕ)

  pub new : Trader
  new = record { weight = 0; refund_cache = none }

  -- The cost of a weight; the product wraps around at 128 bits.
  pub cost : ℕ → ℕ → ℕ
  cost units weight = (units * weight % 2 ^ 128) / m.weight_per_second

  -- The new refund cache after a payment, if the trader can refund the asset.
  pub new_asset : m.Location → ℕ → ℕ → Option (m.Location × ℕ × ℕ) → Option (m.Location × ℕ × ℕ)
  unfolding saturating_add
  new_asset id amount units none = some (id, amount, units)
  new_asset id amount units (some (prev_id, prev_amount, prev_units)) = elim (beq prev_id id) [
    | true ↦ some (id, saturating_add 128 prev_amount amount, prev_units)
    | false ↦ none
  ]

  pub add_weight : ℕ → Trader → Trader
  unfolding saturating_add
  add_weight weight t = record t { weight = saturating_add 64 t.weight weight }

  pub cache_asset : ℕ → Option (m.Location × ℕ × ℕ) → Trader → Trader
  unfolding add_weight
  cache_asset weight none t = t
  cache_asset weight (some asset) t = record (add_weight weight t) { refund_cache = some asset }

  -- The payment of an amount above zero.
  pub charge : ℕ → m.Payment → m.Location → ℕ → ℕ → Call Trader TraderError m.Payment
  unfolding add_weight cache_asset new_asset
  charge weight payment id units amount = do
    unused ← ok_or (m.checked_sub payment id amount) too_expensive
    modify (add_weight weight)
    modify λ t. cache_asset weight (new_asset id amount units t.refund_cache) t
    pure unused

  abbrev charge_or_skip :
      Bool → m.Payment → Call Trader TraderError m.Payment → Call Trader TraderError m.Payment
  charge_or_skip true payment call t = pure payment t
  charge_or_skip false payment call t = call t

  pub buy_weight : ℕ → m.Payment → Call Trader TraderError m.Payment
  unfolding charge cost
  buy_weight weight payment = do
    first ← ok_or (m.first_asset payment) too_expensive
    id ← ok_or first too_expensive
    asset_id ← ok_or (m.asset_id id) too_expensive
    units ← ok_or (m.units_per_second asset_id) too_expensive
    charge_or_skip (cost units weight == 0) payment
        (charge weight payment id units (cost units weight))

  -- The asset that is given back, with the trader.
  pub refund_weight : ℕ → Trader → Option (m.Location × ℕ) × Trader
  unfolding cost
  refund_weight weight t = elim t.refund_cache [
    | none ↦ (none, t)
    | some (id, prev_amount, units) ↦
        let back = min weight t.weight in
        let amount = cost units back in
        (
          some (id, amount),
          record {
            weight = t.weight - back;
            refund_cache = some (id, prev_amount - amount, units);
          },
        )
  ]

  -- `drop`: the revenue that is left with the chain.
  pub drop : Trader → Option (m.Location × ℕ)
  drop t = elim t.refund_cache [ none ↦ none | some (id, amount, units) ↦ some (id, amount) ]
