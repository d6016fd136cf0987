-- ===== src/AssetManager.antt =====
-- pallets/asset-manager/src/lib.rs: the registry of cross-chain assets.
-- The runtime's choices, the asset registry behind the pallet and the `xcm` types are the record
-- `Config`. An asset id and a balance are natural numbers, a para id too; counts are `u32`.
pub mod Pallet
pub mod Step
pub mod Dispatch
pub mod Invariant
pub mod NativeLocation
pub mod ParaCount
pub mod Destinations
pub mod Registration
mod Examples
use hackathon_parity_eu.Prelude.{
  ℕ, ◌+◌, ◌-◌, ◌%◌, ◌^◌, Bool, true, false, not, Option, none, some, List, [], ◌∷◌, ◌++◌, Key,
  StorageMap, lookup, insert, remove, contains_key, nat_key, ok, err, pure, ensure, ok_or, gets,
  modify, ◌>>=◌, ◌>>◌, ltb, leb, ◌==◌, if◌then◌else◌,
}
use hackathon_parity_eu.AssetManager.Pallet.{
  Junction, parachain, account_id32, account_key20, other, Config, Error, Event, Storage, Action,
  location_already_exists, error_creating_asset, update_non_existent_asset,
  cannot_update_native_asset_metadata, mint_error, bad_origin, overflow, registry_error,
  asset_registered, asset_location_updated, asset_metadata_updated, units_per_second_updated,
  asset_minted, min_xcm_fee_updated,
}

-- The counts with one more asset at the para id, a `u32`.
pub increased : ℕ → StorageMap ℕ ℕ → StorageMap ℕ ℕ
increased para_id counts = elim (lookup para_id counts) [
  | none ↦ insert para_id 1 counts
  | some count ↦ insert para_id ((count + 1) % 2 ^ 32) counts
]

-- The counts with one asset less: the entry is removed at `None` or at most one, else lowered.
pub decreased : ℕ → StorageMap ℕ ℕ → StorageMap ℕ ℕ
decreased para_id counts = elim (lookup para_id counts) [
  | none ↦ remove para_id counts
  | some count ↦ if leb count 1 then remove para_id counts else insert para_id (count - 1) counts
]

module _ (c : Config) where
  open c use {
    Origin, AccountId, Location, MultiLocation, Metadata, Identifier, Registry, is_signed,
    modifier_origin, into_multilocation, from_multilocation, parents, interior, into_identifier,
    asset_id_bound, native_asset_id, native_asset_location, native_asset_metadata, create_asset,
    force_create_asset, force_update_metadata, deposit_minting_with_check,
  }

  instance abbrev location_key : Key c.Location
  location_key = c.location_key

  instance abbrev identifier_key : Key c.Identifier
  identifier_key = c.identifier_key

  -- `GenesisConfig::build`, over the empty storage.
  pub build : ℕ → Registry → Storage c
  build start_id registry = record {
    asset_id_location = insert native_asset_id native_asset_location [];
    location_asset_id = insert native_asset_location native_asset_id [];
    asset_id_metadata = insert native_asset_id native_asset_metadata [];
    registered_asset_id = [];
    next_asset_id = start_id;
    units_per_second = [];
    min_xcm_fee = [];
    allowed_dest_para_ids = [];
    registry = registry;
    events = [];
  }

  abbrev pub deposit_event : Event c → Action c (Unit {0})
  deposit_event e = modify λ s. record s { events = s.events ++ e ∷ [] }

  pub next_asset_id_and_increment : Action c ℕ
  next_asset_id_and_increment = do
    id ← gets (λ s. s.next_asset_id)
    ensure (ltb (id + 1) asset_id_bound) overflow
    modify λ s. record s { next_asset_id = id + 1 }
    pure id

  abbrev first_parachain : List Junction → Option ℕ
  first_parachain [] = none
  first_parachain (parachain para_id ∷ js) = some para_id
  first_parachain (account_id32 ∷ js) = none
  first_parachain (account_key20 ∷ js) = none
  first_parachain (other ∷ js) = none

  pub para_id_from_multilocation : Option MultiLocation → Option ℕ
  para_id_from_multilocation none = none
  para_id_from_multilocation (some location) = first_parachain (interior location)

  -- The para id of an asset's location.
  pub para_id_of : Location → Option ℕ
  unfolding para_id_from_multilocation
  para_id_of location = para_id_from_multilocation (into_multilocation location)

  pub increase_count_of_associated_assets : ℕ → Action c (Unit {0})
  increase_count_of_associated_assets para_id s =
      ok (tt, record s { allowed_dest_para_ids = increased para_id s.allowed_dest_para_ids })

  pub increase_if_para : Option ℕ → Action c (Unit {0})
  unfolding increase_count_of_associated_assets
  increase_if_para none = pure tt
  increase_if_para (some para_id) = increase_count_of_associated_assets para_id

  -- The registry call of an extrinsic, its error mapped to `e`.
  abbrev pub call_registry : (Registry → Option Registry) → Error → Action c (Unit {0})
  call_registry call e s = elim (call s.registry) [
    | none ↦ err e
    | some registry ↦ ok (tt, record s { registry = registry })
  ]

  pub register_asset : Origin → AccountId → Metadata → Action c (Unit {0})
  unfolding next_asset_id_and_increment
  register_asset o admin metadata = do
    ensure (is_signed o) bad_origin
    asset_id ← next_asset_id_and_increment
    call_registry (create_asset o asset_id admin metadata) error_creating_asset
    modify λ s. record s {
      asset_id_location = insert asset_id native_asset_location s.asset_id_location;
      asset_id_metadata = insert asset_id metadata s.asset_id_metadata;
    }
    registered ← gets (λ s. contains_key (into_identifier metadata) s.registered_asset_id)
    ensure (not registered) error_creating_asset
    modify λ s. record s {
      registered_asset_id = insert (into_identifier metadata) asset_id s.registered_asset_id;
    }
    deposit_event (asset_registered asset_id native_asset_location metadata)

  pub force_register_asset : Origin → Location → Metadata → Action c (Unit {0})
  unfolding next_asset_id_and_increment increase_if_para
  force_register_asset o location metadata = do
    ensure (modifier_origin o) bad_origin
    taken ← gets (λ s. contains_key location s.location_asset_id)
    ensure (not taken) location_already_exists
    asset_id ← next_asset_id_and_increment
    call_registry (force_create_asset asset_id metadata) error_creating_asset
    modify λ s. record s {
      asset_id_location = insert asset_id location s.asset_id_location;
      asset_id_metadata = insert asset_id metadata s.asset_id_metadata;
      location_asset_id = insert location asset_id s.location_asset_id;
    }
    increase_if_para (para_id_of location)
    deposit_event (asset_registered asset_id location metadata)

  decrease_count_of_associated_assets : ℕ → Action c (Unit {0})
  decrease_count_of_associated_assets para_id s =
      ok (tt, record s { allowed_dest_para_ids = decreased para_id s.allowed_dest_para_ids })

  pub decrease_if_para : Option ℕ → Action c (Unit {0})
  unfolding decrease_count_of_associated_assets
  decrease_if_para none = pure tt
  decrease_if_para (some para_id) = decrease_count_of_associated_assets para_id

  pub update_asset_location : Origin → ℕ → Location → Action c (Unit {0})
  unfolding increase_if_para decrease_if_para
  update_asset_location o asset_id location = do
    ensure (modifier_origin o) bad_origin
    known ← gets (λ s. contains_key asset_id s.asset_id_location)
    ensure known update_non_existent_asset
    taken ← gets (λ s. contains_key location s.location_asset_id)
    ensure (not taken) location_already_exists
    found ← gets (λ s. lookup asset_id s.asset_id_location)
    old_location ← ok_or found update_non_existent_asset
    modify λ s. record s {
      location_asset_id = insert location asset_id (remove old_location s.location_asset_id);
      asset_id_location = insert asset_id location s.asset_id_location;
    }
    decrease_if_para (para_id_of old_location)
    increase_if_para (para_id_of location)
    deposit_event (asset_location_updated asset_id location)

  pub force_update_asset_metadata : Origin → ℕ → Metadata → Action c (Unit {0})
  force_update_asset_metadata o asset_id metadata = do
    ensure (modifier_origin o) bad_origin
    ensure (not (asset_id == native_asset_id)) cannot_update_native_asset_metadata
    known ← gets (λ s. contains_key asset_id s.asset_id_location)
    ensure known update_non_existent_asset
    call_registry (force_update_metadata asset_id metadata) registry_error
    modify λ s. record s { asset_id_metadata = insert asset_id metadata s.asset_id_metadata }
    deposit_event (asset_metadata_updated asset_id metadata)

  pub set_units_per_second : Origin → ℕ → ℕ → Action c (Unit {0})
  set_units_per_second o asset_id units = do
    ensure (modifier_origin o) bad_origin
    known ← gets (λ s. contains_key asset_id s.asset_id_location)
    ensure known update_non_existent_asset
    modify λ s. record s { units_per_second = insert asset_id units s.units_per_second }
    deposit_event (units_per_second_updated asset_id units)

  pub force_mint_asset : Origin → ℕ → AccountId → ℕ → Action c (Unit {0})
  force_mint_asset o asset_id beneficiary amount = do
    ensure (modifier_origin o) bad_origin
    known ← gets (λ s. contains_key asset_id s.asset_id_location)
    ensure known update_non_existent_asset
    call_registry (deposit_minting_with_check asset_id beneficiary amount true) mint_error
    deposit_event (asset_minted asset_id beneficiary amount)

  pub set_min_xcm_fee : Origin → Location → ℕ → Action c (Unit {0})
  set_min_xcm_fee o reserve_chain fee = do
    ensure (modifier_origin o) bad_origin
    modify λ s. record s { min_xcm_fee = insert reserve_chain fee s.min_xcm_fee }
    deposit_event (min_xcm_fee_updated reserve_chain fee)

  -- The interior of a supported destination.
  abbrev allowed_interior : List Junction → Storage c → Bool
  allowed_interior (account_id32 ∷ []) s = true
  allowed_interior (parachain para_id ∷ account_id32 ∷ []) s =
      contains_key para_id s.allowed_dest_para_ids
  allowed_interior (parachain para_id ∷ account_key20 ∷ []) s =
      contains_key para_id s.allowed_dest_para_ids
  allowed_interior _ s = false

  -- `Contains<MultiLocation>`: the destination is supported.
  pub contains : MultiLocation → Storage c → Bool
  contains location s =
      if not (parents location == 1) then false else allowed_interior (interior location) s

  -- `GetByKey<MultiLocation, Option<u128>>`, and the getters of the traits of `primitives`.
  pub get_min_xcm_fee : MultiLocation → Storage c → Option ℕ
  get_min_xcm_fee location s = lookup (from_multilocation location) s.min_xcm_fee

  pub location_of : ℕ → Storage c → Option Location
  location_of asset_id s = lookup asset_id s.asset_id_location

  pub asset_id_of : Location → Storage c → Option ℕ
  asset_id_of location s = lookup location s.location_asset_id

  pub get_metadata : ℕ → Storage c → Option Metadata
  get_metadata asset_id s = lookup asset_id s.asset_id_metadata
