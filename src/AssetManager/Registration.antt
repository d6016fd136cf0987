-- ===== src/AssetManager/Registration.antt =====
-- Registrations in pallets/asset-manager: what `register_asset` and `force_mint_asset` do.
use hackathon_parity_eu.Prelude.{
  ℕ, ◌+◌, ◌<◌, ◌≡◌, true, none, some, Key, lookup, contains_key, arith, nat_key, ok, err,
  lookup-remove, Option-cases, ite, ℕ_discrete, inl, inr,
}
use hackathon_parity_eu.AssetManager.Pallet.{Config, Storage, error_creating_asset}
use hackathon_parity_eu.AssetManager.{register_asset, force_mint_asset}
use hackathon_parity_eu.AssetManager.Invariant.{IsConsistent}

module _ (c : Config) where
  instance abbrev location_key : Key c.Location
  location_key = c.location_key

  instance abbrev identifier_key : Key c.Identifier
  identifier_key = c.identifier_key

  lookup-fresh :
      (s : Storage c) → IsConsistent c s → lookup s.next_asset_id s.asset_id_location ≡ none
  lookup-fresh s v = elim (Option-cases (lookup s.next_asset_id s.asset_id_location)) [
    | inl e ↦ e
    | inr (l, e) ↦ absurd (ground (arith, v.fresh s.next_asset_id l))
  ]

  -- In a consistent storage a successful `register_asset` gives an unregistered identifier the next
  -- id, which no asset had, puts the metadata and the native asset's location under that id, and
  -- leaves the identifiers, the metadata and the locations of all others as they were.
  pub register_asset-fresh :
      (o : c.Origin) (a : c.AccountId) (m : c.Metadata) (s s' : Storage c) (i : c.Identifier)
      (id : ℕ)
      → IsConsistent c s
      → register_asset c o a m s ≡ ok (tt, s')
      → (lookup (c.into_identifier m) s.registered_asset_id ≡ none)
        × (lookup s.next_asset_id s.asset_id_location ≡ none)
        × (lookup i s'.registered_asset_id
            ≡ ite
                (identifier_key.dec_eq i (c.into_identifier m))
                (some s.next_asset_id)
                (lookup i s.registered_asset_id))
        × (lookup id s'.asset_id_metadata
            ≡ ite (ℕ_discrete id s.next_asset_id) (some m) (lookup id s.asset_id_metadata))
        × (lookup id s'.asset_id_location
            ≡ ite
                (ℕ_discrete id s.next_asset_id)
                (some c.native_asset_location)
                (lookup id s.asset_id_location))
  unfolding register_asset
  register_asset-fresh o a m s s' i id v h = (
    ground arith,
    lookup-fresh s v,
    ground (arith, lookup-remove i (c.into_identifier m) s.registered_asset_id),
    ground (arith, lookup-remove id s.next_asset_id s.asset_id_metadata),
    ground (arith, lookup-remove id s.next_asset_id s.asset_id_location),
  )

  -- A registered identifier cannot be registered again: with a signed origin and an id to give, the
  -- call fails with `ErrorCreatingAsset`, whatever the asset registry answers.
  pub register_asset_twice :
      (o : c.Origin) (a : c.AccountId) (m : c.Metadata) (s : Storage c)
      → contains_key (c.into_identifier m) s.registered_asset_id ≡ true
      → c.is_signed o ≡ true
      → s.next_asset_id + 1 < c.asset_id_bound
      → register_asset c o a m s ≡ err error_creating_asset
  unfolding register_asset
  register_asset_twice o a m s known signed room = ground arith

  -- A successful mint is of a known asset, goes through the ledger once, with the supply allowed to
  -- grow, and leaves every registration as it was.
  pub force_mint_asset-known :
      (o : c.Origin) (id : ℕ) (a : c.AccountId) (amount : ℕ) (s s' : Storage c)
      → force_mint_asset c o id a amount s ≡ ok (tt, s')
      → (c.modifier_origin o ≡ true)
        × (contains_key id s.asset_id_location ≡ true)
        × (c.deposit_minting_with_check id a amount true s.registry ≡ some s'.registry)
        × (s'.asset_id_location ≡ s.asset_id_location)
        × (s'.location_asset_id ≡ s.location_asset_id)
        × (s'.registered_asset_id ≡ s.registered_asset_id)
        × (s'.next_asset_id ≡ s.next_asset_id)
  unfolding force_mint_asset
  force_mint_asset-known o id a amount s s' h = ground arith
