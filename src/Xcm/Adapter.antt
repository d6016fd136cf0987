-- ===== src/Xcm/Adapter.antt =====
-- `IsNativeConcrete` and `MultiAssetAdapter` of primitives/manta/src/xcm.rs: the assets of a message as
-- assets of the chain's ledger.
pub mod Native
pub mod Examples
use hackathon_parity_eu.Prelude.{
  ℕ, Bool, true, false, ◌||◌, ◌==◌, Option, none, some, Key, beq, ltb, Result, ok, err, Call, pure,
  fail, ok_or, ◌>>=◌, ◌>>◌, if◌then◌else◌,
}
use hackathon_parity_eu.Assets.Ledger.{
  Pallets, Balances, LedgerError, deposit_minting_with_check, withdraw_burning, allow_death,
}

pub data XcmError : Type 0 where
  failed_location_conversion unknown_asset failed_deposit failed_burn : XcmError

-- A concrete fungible asset of a message, or any other.
pub data MultiAsset (Location : Type 0) : Type 0 where
  concrete_fungible : Location → ℕ → MultiAsset Location
  other : MultiAsset Location

-- The locations, their accounts, and the matcher of the non-native assets.
pub record Converters (p : Pallets) : Type 1 where
  pub Location : Type 0
  pub location_key : Key Location
  pub self_location : Location
  pub is_here : Location → Bool
  pub account_of : Location → Option p.AccountId
  pub balance_bound : ℕ
  pub matches_fungibles : MultiAsset Location → Option (ℕ × ℕ)

module _ (p : Pallets) (v : Converters p) where
  instance abbrev location_key : Key v.Location
  location_key = v.location_key

  -- `IsNativeConcrete::matches_fungible`; a balance is below a bound.
  pub matches_fungible : MultiAsset v.Location → Option ℕ
  matches_fungible other = none
  matches_fungible (concrete_fungible location amount) =
      if beq location v.self_location || v.is_here location
      then (if ltb amount v.balance_bound then some amount else none)
      else none

  -- The asset id and the amount of an asset.
  pub match_asset : MultiAsset v.Location → Option (ℕ × ℕ)
  unfolding matches_fungible
  match_asset asset = elim (matches_fungible asset) [
    | some amount ↦ some (p.native_asset_id, amount)
    | none ↦ v.matches_fungibles asset
  ]

  pub match_asset_and_location :
      MultiAsset v.Location → v.Location → Call (Balances p) XcmError (ℕ × p.AccountId × ℕ)
  unfolding match_asset
  match_asset_and_location asset location = do
    receiver ← ok_or (v.account_of location) failed_location_conversion
    (asset_id, amount) ← ok_or (match_asset asset) unknown_asset
    pure (asset_id, receiver, amount)

  -- `.map_err(|_| e)`
  abbrev pub failing :
      {A : Type 0} → XcmError → Call (Balances p) (LedgerError p) A → Call (Balances p) XcmError A
  failing e call s = elim (call s) [ ok r ↦ ok r | err e' ↦ err e ]

  pub deposit_asset : MultiAsset v.Location → v.Location → Call (Balances p) XcmError (Unit {0})
  unfolding match_asset_and_location
  deposit_asset asset location = do
    (asset_id, who, amount) ← match_asset_and_location asset location
    failing failed_deposit (deposit_minting_with_check p asset_id who amount true)

  pub withdraw_asset :
      MultiAsset v.Location → v.Location → Call (Balances p) XcmError (MultiAsset v.Location)
  unfolding match_asset_and_location
  withdraw_asset asset location = do
    (asset_id, who, amount) ← match_asset_and_location asset location
    failing failed_burn (withdraw_burning p asset_id who amount allow_death)
    pure asset
