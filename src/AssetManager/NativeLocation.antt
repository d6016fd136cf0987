-- ===== src/AssetManager/NativeLocation.antt =====
-- The native asset's location in pallets/asset-manager, under `update_asset_location`.
use hackathon_parity_eu.Prelude.{
  ℕ, ◌≡◌, ◌≢◌, none, some, Key, lookup, remove, arith, nat_key, ok, lookup-remove,
}
use hackathon_parity_eu.AssetManager.Pallet.{Config, Storage}
use hackathon_parity_eu.AssetManager.{update_asset_location}

module _ (c : Config) where
  instance abbrev location_key : Key c.Location
  location_key = c.location_key

  -- An update of another asset that `register_asset` has put at the native asset's location takes
  -- the native asset's entry away: its location maps to no id any more, and the native asset
  -- itself still has that location.
  pub update_asset_location-loses_native :
      (o : c.Origin) (id : ℕ) (l : c.Location) (s s' : Storage c)
      → lookup id s.asset_id_location ≡ some c.native_asset_location
      → lookup c.native_asset_location s.location_asset_id ≡ some c.native_asset_id
      → id ≢ c.native_asset_id
      → update_asset_location c o id l s ≡ ok (tt, s')
      → (lookup c.native_asset_location s'.location_asset_id ≡ none)
        × (lookup c.native_asset_id s'.asset_id_location
            ≡ lookup c.native_asset_id s.asset_id_location)
  unfolding update_asset_location
  update_asset_location-loses_native o id l s s' here native other h = ground (
    arith,
    lookup-remove c.native_asset_location l (remove c.native_asset_location s.location_asset_id),
    lookup-remove c.native_asset_location c.native_asset_location s.location_asset_id,
    lookup-remove c.native_asset_id id s.asset_id_location,
  )
