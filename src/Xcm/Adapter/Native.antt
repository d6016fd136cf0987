-- ===== src/Xcm/Adapter/Native.antt =====
-- `MultiAssetAdapter`: an asset of a message reaches one pallet of balances.
use hackathon_parity_eu.Prelude.{
  ℕ, ◌≡◌, true, ◌==◌, some, ok, arith, Option-cases, Result-cases, inl, inr, ◌⊎◌,
}
use hackathon_parity_eu.Assets.Ledger.{
  Pallets, Balances, deposit_minting_with_check, withdraw_burning, allow_death,
}
use hackathon_parity_eu.Assets.Ledger.Routing.{apply, apply-routes, deposit_with_check, withdraw}
use hackathon_parity_eu.Xcm.Adapter.{
  Converters, MultiAsset, matches_fungible, match_asset, match_asset_and_location, deposit_asset,
  withdraw_asset,
}

module _ (p : Pallets) (v : Converters p) where
  deposit_asset-match_asset :
      (asset : MultiAsset v.Location) (location : v.Location) (s s' : Balances p)
      → deposit_asset p v asset location s ≡ ok (tt, s')
      → (who : p.AccountId) × (id : ℕ) × (amount : ℕ) × (v.account_of location ≡ some who)
        × (match_asset p v asset ≡ some (id, amount))
        × (deposit_minting_with_check p id who amount true s ≡ ok (tt, s'))
  unfolding deposit_asset match_asset_and_location
  deposit_asset-match_asset asset location s s' h = elim (Option-cases (v.account_of location)) [
    | inl e ↦ absurd (ground arith)
    | inr (who, e) ↦ elim (Option-cases (match_asset p v asset)) [
      | inl e₁ ↦ absurd (ground arith)
      | inr ((id, amount), e₁) ↦
          elim (Result-cases (deposit_minting_with_check p id who amount true s)) [
            | inr r ↦ absurd (ground (arith, r.1))
            | inl ((u, s₁), e₂) ↦ (who, id, amount, e, e₁, ground arith)
          ]
    ]
  ]

  withdraw_asset-match_asset :
      (asset taken : MultiAsset v.Location) (location : v.Location) (s s' : Balances p)
      → withdraw_asset p v asset location s ≡ ok (taken, s')
      → (who : p.AccountId) × (id : ℕ) × (amount : ℕ) × (match_asset p v asset ≡ some (id, amount))
        × (withdraw_burning p id who amount allow_death s ≡ ok (tt, s'))
        × (taken ≡ asset)
  unfolding withdraw_asset match_asset_and_location
  withdraw_asset-match_asset asset taken location s s' h =
      elim (Option-cases (v.account_of location)) [
        | inl e ↦ absurd (ground arith)
        | inr (who, e) ↦ elim (Option-cases (match_asset p v asset)) [
          | inl e₁ ↦ absurd (ground arith)
          | inr ((id, amount), e₁) ↦
              elim (Result-cases (withdraw_burning p id who amount allow_death s)) [
                | inr r ↦ absurd (ground (arith, r.1))
                | inl ((u, s₁), e₂) ↦ (who, id, amount, e₁, ground arith, ground arith)
              ]
        ]
      ]

  match_asset-native :
      (asset : MultiAsset v.Location) (n id amount : ℕ)
      → matches_fungible p v asset ≡ some n
      → match_asset p v asset ≡ some (id, amount)
      → (id == p.native_asset_id) ≡ true
  unfolding match_asset
  match_asset-native asset n id amount e h = ground arith

  -- A successful deposit or withdrawal, by a message, of an asset that matches the native one leaves the
  -- pallet of the other assets as it was, whatever the matcher of those says of the asset.
  pub native_asset-routes :
      (asset taken : MultiAsset v.Location) (location : v.Location) (n : ℕ) (s s' : Balances p)
      → matches_fungible p v asset ≡ some n
      → (deposit_asset p v asset location s ≡ ok (tt, s'))
        ⊎ (withdraw_asset p v asset location s ≡ ok (taken, s'))
      → s'.non_native ≡ s.non_native
  unfolding apply
  native_asset-routes asset taken location n s s' native (inl deposited) =
      let (who, id, amount, e, m, done) = deposit_asset-match_asset asset location s s' deposited in
      (apply-routes p id (deposit_with_check who amount true) s s' done).0
        (match_asset-native asset n id amount native m)
  native_asset-routes asset taken location n s s' native (inr withdrawn) =
      let (who, id, amount, m, done, same) =
        withdraw_asset-match_asset asset taken location s s' withdrawn in
      (apply-routes p id (withdraw who amount allow_death) s s' done).0
        (match_asset-native asset n id amount native m)
