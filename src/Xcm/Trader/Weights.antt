-- ===== src/Xcm/Trader/Weights.antt =====
-- `FirstAssetTrader`: what a purchase of weight takes, and what a refund gives back.
use hackathon_parity_eu.Prelude.{
  ℕ, ◌+◌, ◌-◌, ◌^◌, ◌<◌, ◌≤◌, min, ◌≡◌, ◌≢◌, false, none, some, ok, arith, ◌==◌, Option-cases,
  Bool-cases, inl, inr, ◌⊎◌, ap, ◌∙◌,
}
use hackathon_parity_eu.Xcm.Trader.{
  Market, Trader, new, cost, new_asset, add_weight, cache_asset, charge, buy_weight, refund_weight,
  saturating_add, drop,
}

module _ (m : Market) where
  abbrev Charges : ℕ → m.Payment → m.Payment → m.Location → ℕ → Trader m → Trader m → Type 0
  Charges weight payment unused id units t t' =
      (m.checked_sub payment id (cost m units weight) ≡ some unused)
      × (t'
          ≡ cache_asset m weight (new_asset m id (cost m units weight) units t.refund_cache)
              (add_weight m weight t))

  charge-Charges :
      (weight : ℕ) (payment unused : m.Payment) (id : m.Location) (units : ℕ) (t t' : Trader m)
      → charge m weight payment id units (cost m units weight) t ≡ ok (unused, t')
      → Charges weight payment unused id units t t'
  unfolding charge add_weight
  charge-Charges weight payment unused id units t t' h =
      elim (Option-cases (m.checked_sub payment id (cost m units weight))) [
        | inl e ↦ absurd (ground arith)
        | inr (left, e) ↦ (ground arith, ground arith)
      ]

  -- The weight after one purchase of a weight, a `u64`.
  abbrev pub more_weight : ℕ → ℕ → ℕ
  more_weight weight old = min (old + weight) (2 ^ 64 - 1)

  -- What a purchase that is not free does to the trader. Where nothing is cached the amount is cached with
  -- its price; where the same asset is cached the amount is added to it and the first price stays; and
  -- both count the weight twice. Where another asset is cached it stays, and the weight counts once.
  abbrev pub Caches : ℕ → m.Location → ℕ → ℕ → Trader m → Trader m → Type 0
  Caches weight id units amount t t' =
      ((t.refund_cache ≡ none)
        × (t'.refund_cache ≡ some (id, amount, units))
        × (t'.weight ≡ more_weight weight (more_weight weight t.weight)))
      ⊎ (((prev_amount : ℕ) × (prev_units : ℕ) × (t.refund_cache
              ≡ some (id, prev_amount, prev_units))
            × (t'.refund_cache ≡ some (id, min (prev_amount + amount) (2 ^ 128 - 1), prev_units))
            × (t'.weight ≡ more_weight weight (more_weight weight t.weight)))
          ⊎ ((prev_id : m.Location) × (prev_amount : ℕ) × (prev_units : ℕ) × (prev_id ≢ id)
              × (t.refund_cache ≡ some (prev_id, prev_amount, prev_units))
              × (t'.refund_cache ≡ t.refund_cache)
              × (t'.weight ≡ more_weight weight t.weight)))

  cache-Caches :
      (weight amount units : ℕ) (id : m.Location) (t t' : Trader m)
      → t'
        ≡ cache_asset m weight (new_asset m id amount units t.refund_cache) (add_weight m weight t)
      → Caches weight id units amount t t'
  unfolding cache_asset new_asset add_weight saturating_add
  cache-Caches weight amount units id t t' h = elim (Option-cases t.refund_cache) [
    | inl e ↦ inl (e, ground arith, ground arith)
    | inr ((prev_id, prev_amount, prev_units), e) ↦ elim (m.location_key.dec_eq prev_id id) [
      | yes same ↦ inr (inl (prev_amount, prev_units, ground arith, ground arith, ground arith))
      | no other ↦
          inr (inr (prev_id, prev_amount, prev_units, other, e, ground arith, ground arith))
    ]
  ]

  abbrev pub Pays : ℕ → m.Payment → m.Payment → m.Location → ℕ → Trader m → Trader m → Type 0
  Pays weight payment unused id units t t' =
      (m.checked_sub payment id (cost m units weight) ≡ some unused)
      × Caches weight id units (cost m units weight) t t'

  -- A successful purchase is in the first asset of the payment, which has a location, an id and a price.
  -- It is free, and changes nothing, if the cost of the weight rounds to zero; otherwise it takes
  -- exactly that cost from the payment. The trader then caches the asset if it caches none, adds to it if
  -- it caches the same, at the first price, and keeps what it has if it caches another; and it counts the
  -- weight, a second time where the asset of the payment is the one that it caches.
  pub buy_weight-Pays :
      (weight : ℕ) (payment unused : m.Payment) (t t' : Trader m)
      → buy_weight m weight payment t ≡ ok (unused, t')
      → (id : m.Location) × (units : ℕ) × (asset_id : ℕ) × (m.first_asset payment ≡ some (some id))
        × (m.asset_id id ≡ some asset_id)
        × (m.units_per_second asset_id ≡ some units)
        × (((cost m units weight ≡ 0) × (unused ≡ payment) × (t' ≡ t))
            ⊎ ((cost m units weight ≢ 0) × Pays weight payment unused id units t t'))
  unfolding buy_weight
  buy_weight-Pays weight payment unused t t' h = elim (Option-cases (m.first_asset payment)) [
    | inl e ↦ absurd (ground arith)
    | inr (none, e) ↦ absurd (ground arith)
    | inr (some id, e) ↦ elim (Option-cases (m.asset_id id)) [
      | inl e₁ ↦ absurd (ground arith)
      | inr (asset_id, e₁) ↦ elim (Option-cases (m.units_per_second asset_id)) [
        | inl e₂ ↦ absurd (ground arith)
        | inr (units, e₂) ↦ elim (Bool-cases (cost m units weight == 0)) [
          | inl z ↦ (id, units, asset_id, e, e₁, e₂, inl (ground arith, ground arith, ground arith))
          | inr z ↦ (
            id,
            units,
            asset_id,
            e,
            e₁,
            e₂,
            inr (
              ground arith,
              let (taken, cached) =
                    charge-Charges weight payment unused id units t t' (ground arith) in
                  (taken, cache-Caches weight (cost m units weight) units id t t' cached),
            ),
          )
        ]
      ]
    ]
  ]

  first_cache :
      (weight units amount : ℕ) (id : m.Location)
      → weight + weight < 2 ^ 64
      → cache_asset m weight
          (new_asset m id amount units (new m).refund_cache)
          (add_weight m weight (new m))
        ≡ record { weight = weight + weight; refund_cache = some (id, amount, units) }
  unfolding cache_asset new_asset add_weight new saturating_add
  first_cache weight units amount id small = ground arith

  refund_weight-cached :
      (weight units amount : ℕ) (id : m.Location)
      → (refund_weight m weight
          (record { weight = weight; refund_cache = some (id, amount, units) })).0
        ≡ some (id, cost m units weight)
  unfolding refund_weight
  refund_weight-cached weight units amount id =
      let e : min weight weight ≡ weight = ground arith in rw e

  -- A first purchase that is not free counts its weight twice: a refund of twice the weight then gives
  -- back the cost of twice the weight, where the cost of the weight was paid.
  pub buy_weight-twice :
      (weight : ℕ) (payment unused : m.Payment) (id : m.Location) (units asset_id : ℕ)
      (t : Trader m)
      → weight + weight < 2 ^ 64
      → m.first_asset payment ≡ some (some id)
      → m.asset_id id ≡ some asset_id
      → m.units_per_second asset_id ≡ some units
      → cost m units weight ≢ 0
      → buy_weight m weight payment (new m) ≡ ok (unused, t)
      → (m.checked_sub payment id (cost m units weight) ≡ some unused)
        × (t.weight ≡ weight + weight)
        × ((refund_weight m (weight + weight) t).0 ≡ some (id, cost m units (weight + weight)))
  unfolding buy_weight
  buy_weight-twice weight payment unused id units asset_id t small e e₁ e₂ paid h =
      let z : (cost m units weight == 0) ≡ false = ground arith in
      let charged : charge m weight payment id units (cost m units weight) (new m)
          ≡ ok (unused, t) =
        ground arith in
      let (taken, cached) = charge-Charges weight payment unused id units (new m) t charged in
      let whole = cached ∙ first_cache weight units (cost m units weight) id small in
      (
        taken,
        ap (λ u. u.weight) whole,
        ap (λ u. (refund_weight m (weight + weight) u).0) whole
            ∙ refund_weight-cached (weight + weight) units (cost m units weight) id,
      )

  -- A refund of no more than was paid splits it: what is given back and the revenue that is left when
  -- the trader is dropped make up what was cached, and the weight goes down by the refunded weight.
  pub refund_weight-drop :
      (weight : ℕ) (id : m.Location) (paid units : ℕ) (t : Trader m)
      → t.refund_cache ≡ some (id, paid, units)
      → cost m units (min weight t.weight) ≤ paid
      → (back : ℕ) × (left : ℕ) × ((refund_weight m weight t).0 ≡ some (id, back))
        × (drop m (refund_weight m weight t).1 ≡ some (id, left))
        × (back + left ≡ paid)
        × ((refund_weight m weight t).1.weight + min weight t.weight ≡ t.weight)
  unfolding refund_weight drop
  refund_weight-drop weight id paid units t e h = (
    cost m units (min weight t.weight),
    paid - cost m units (min weight t.weight),
    ground arith,
    ground arith,
    omega arith,
    ground arith,
  )
