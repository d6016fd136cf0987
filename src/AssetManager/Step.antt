-- ===== src/AssetManager/Step.antt =====
-- What an extrinsic of pallets/asset-manager does to the location maps, as a step relation.
use hackathon_parity_eu.Prelude.{
  ℕ, ◌+◌, ◌≡◌, refl, Option, none, some, Key, StorageMap, lookup, insert, remove, arith, nat_key,
  ok, Option-cases, inl, inr,
}
use hackathon_parity_eu.AssetManager.Pallet.{Config, Storage}
use hackathon_parity_eu.AssetManager.{
  register_asset, force_register_asset, update_asset_location, force_update_asset_metadata,
  set_units_per_second, force_mint_asset, set_min_xcm_fee, increased, decreased, para_id_of,
}

-- The counts after an asset has come to a location, or has left it.
abbrev pub enter : Option ℕ → StorageMap ℕ ℕ → StorageMap ℕ ℕ
enter none counts = counts
enter (some para_id) counts = increased para_id counts

abbrev pub leave : Option ℕ → StorageMap ℕ ℕ → StorageMap ℕ ℕ
leave none counts = counts
leave (some para_id) counts = decreased para_id counts

module _ (c : Config) where
  instance abbrev location_key : Key c.Location
  location_key = c.location_key

  -- The fields that an invariant of the locations reads.
  pub record Same (s s' : Storage c) : Type 0 where
    pub same_location : s'.asset_id_location ≡ s.asset_id_location
    pub same_asset_id : s'.location_asset_id ≡ s.location_asset_id
    pub same_next : s'.next_asset_id ≡ s.next_asset_id
    pub same_counts : s'.allowed_dest_para_ids ≡ s.allowed_dest_para_ids

  pub data Step (s s' : Storage c) : Type 0 where
    keeps : Same s s' → Step s s'
    -- `register_asset`: a new id at the native asset's location, which stays the native asset's.
    adds_native :
        s'.asset_id_location ≡ insert s.next_asset_id c.native_asset_location s.asset_id_location
        → s'.location_asset_id ≡ s.location_asset_id
        → s'.next_asset_id ≡ s.next_asset_id + 1
        → s'.allowed_dest_para_ids ≡ s.allowed_dest_para_ids
        → Step s s'
    -- `force_register_asset`: a new id at a new location.
    adds :
        (l : c.Location)
        → lookup l s.location_asset_id ≡ none
        → s'.asset_id_location ≡ insert s.next_asset_id l s.asset_id_location
        → s'.location_asset_id ≡ insert l s.next_asset_id s.location_asset_id
        → s'.next_asset_id ≡ s.next_asset_id + 1
        → s'.allowed_dest_para_ids ≡ enter (para_id_of c l) s.allowed_dest_para_ids
        → Step s s'
    -- `update_asset_location`: an asset goes from one location to a new one.
    moves :
        (id : ℕ) (old l : c.Location)
        → lookup id s.asset_id_location ≡ some old
        → lookup l s.location_asset_id ≡ none
        → s'.asset_id_location ≡ insert id l s.asset_id_location
        → s'.location_asset_id ≡ insert l id (remove old s.location_asset_id)
        → s'.next_asset_id ≡ s.next_asset_id
        → s'.allowed_dest_para_ids
          ≡ enter (para_id_of c l) (leave (para_id_of c old) s.allowed_dest_para_ids)
        → Step s s'

  pub keeps_all : (s : Storage c) → Step s s
  keeps_all s =
      keeps (record {
        same_location = refl;
        same_asset_id = refl;
        same_next = refl;
        same_counts = refl;
      })

  pub update_asset_location-Step :
      (o : c.Origin) (id : ℕ) (l : c.Location) (s s' : Storage c)
      → update_asset_location c o id l s ≡ ok (tt, s')
      → Step s s'
  unfolding update_asset_location
  update_asset_location-Step o id l s s' h = elim (Option-cases (lookup id s.asset_id_location)) [
    | inl unknown ↦ absurd (ground arith)
    | inr (old, found) ↦
        moves id old l found (ground arith) (ground arith) (ground arith) (ground arith)
          (ground arith)
  ]

  pub register_asset-Step :
      (o : c.Origin) (a : c.AccountId) (m : c.Metadata) (s s' : Storage c)
      → register_asset c o a m s ≡ ok (tt, s')
      → Step s s'
  unfolding register_asset
  register_asset-Step o a m s s' h =
      adds_native (ground arith) (ground arith) (ground arith) (ground arith)

  pub force_register_asset-Step :
      (o : c.Origin) (l : c.Location) (m : c.Metadata) (s s' : Storage c)
      → force_register_asset c o l m s ≡ ok (tt, s')
      → Step s s'
  unfolding force_register_asset
  force_register_asset-Step o l m s s' h =
      adds l (ground arith) (ground arith) (ground arith) (ground arith) (ground arith)

  pub force_update_asset_metadata-Same :
      (o : c.Origin) (id : ℕ) (m : c.Metadata) (s s' : Storage c)
      → force_update_asset_metadata c o id m s ≡ ok (tt, s')
      → Same s s'
  unfolding force_update_asset_metadata
  force_update_asset_metadata-Same o id m s s' h = ground arith

  pub set_units_per_second-Same :
      (o : c.Origin) (id units : ℕ) (s s' : Storage c)
      → set_units_per_second c o id units s ≡ ok (tt, s')
      → Same s s'
  unfolding set_units_per_second
  set_units_per_second-Same o id units s s' h = ground arith

  pub force_mint_asset-Same :
      (o : c.Origin) (id : ℕ) (a : c.AccountId) (amount : ℕ) (s s' : Storage c)
      → force_mint_asset c o id a amount s ≡ ok (tt, s')
      → Same s s'
  unfolding force_mint_asset
  force_mint_asset-Same o id a amount s s' h = ground arith

  pub set_min_xcm_fee-Same :
      (o : c.Origin) (l : c.Location) (fee : ℕ) (s s' : Storage c)
      → set_min_xcm_fee c o l fee s ≡ ok (tt, s')
      → Same s s'
  unfolding set_min_xcm_fee
  set_min_xcm_fee-Same o l fee s s' h = ground arith
