-- ===== src/Xcm/Adapter/Examples.antt =====
-- The adapter of primitives/manta/src/xcm.rs at concrete assets.
use hackathon_parity_eu.Prelude.{ℕ, ◌≡◌, ◌==◌, refl, some, [], ◌∷◌, ok, inr, nat_key, ℕ_discrete}
use hackathon_parity_eu.Assets.Ledger.{
  Balances, from_deposit, ensure_valid, deposit_minting_with_check, can_withdraw, withdraw_burning,
}
use hackathon_parity_eu.MantaPay.Sample.Chain.{banks}
use hackathon_parity_eu.Xcm.Adapter.{
  Converters, MultiAsset, concrete_fungible, matches_fungible, match_asset,
  match_asset_and_location, deposit_asset, withdraw_asset,
}
use hackathon_parity_eu.Xcm.Adapter.Native.{native_asset-routes}

-- Location 0 is here and 5 the chain's own; every other location is an account, and 8 an asset.
abbrev places : Converters banks
places = record {
  Location = ℕ;
  location_key = nat_key;
  self_location = 5;
  is_here = λ l. l == 0;
  account_of = λ l. some l;
  balance_bound = 1000;
  matches_fungibles = λ a. some (8, 3);
}

abbrev coins : MultiAsset ℕ
coins = concrete_fungible 5 40

abbrev empty : Balances banks
empty = record { native = []; non_native = [] }

abbrev deposited : Balances banks
deposited = record { native = (2, 40) ∷ []; non_native = [] }

abbrev withdrawn : Balances banks
withdrawn = record { native = (2, 0) ∷ []; non_native = [] }

deposit_test : deposit_asset banks places coins 2 empty ≡ ok (tt, deposited)
unfolding deposit_asset match_asset_and_location match_asset matches_fungible
    deposit_minting_with_check from_deposit ensure_valid ℕ_discrete
deposit_test = refl

withdraw_test : withdraw_asset banks places coins 2 deposited ≡ ok (coins, withdrawn)
unfolding withdraw_asset match_asset_and_location match_asset matches_fungible withdraw_burning
    can_withdraw ensure_valid ℕ_discrete
withdraw_test = refl

native_asset-routes_example : withdrawn.non_native ≡ deposited.non_native
unfolding matches_fungible ℕ_discrete
native_asset-routes_example =
    native_asset-routes banks places coins coins 2 40 deposited withdrawn refl (inr withdraw_test)
