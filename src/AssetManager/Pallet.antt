-- ===== src/AssetManager/Pallet.antt =====
-- The configuration, storage, events and errors of pallets/asset-manager/src/lib.rs.
use hackathon_parity_eu.Prelude.{ℕ, Bool, Option, List, StorageMap, Key, Call}

-- The junctions that the pallet's patterns tell apart; `other` stands for the rest of the `xcm`
-- crate's type.
pub data Junction : Type 0 where
  parachain : ℕ → Junction
  account_id32 account_key20 other : Junction

-- `Registry` is the state of the asset registry and of the fungible ledger (runtime pallets). Their
-- operations fail (`none`) or give the next state. `asset_id_bound` is 2 ^ w for a w-bit asset id.
-- A multilocation is seen through its parents and the list of its interior junctions.
pub record Config : Type 1 where
  pub Origin : Type 0
  pub AccountId : Type 0
  pub Location : Type 0
  pub MultiLocation : Type 0
  pub Metadata : Type 0
  pub Identifier : Type 0
  pub Registry : Type 0
  pub location_key : Key Location
  pub identifier_key : Key Identifier
  pub is_signed : Origin → Bool
  pub modifier_origin : Origin → Bool
  pub into_multilocation : Location → Option MultiLocation
  pub from_multilocation : MultiLocation → Location
  pub parents : MultiLocation → ℕ
  pub interior : MultiLocation → List Junction
  pub into_identifier : Metadata → Identifier
  pub asset_id_bound : ℕ
  pub start_non_native_asset_id : ℕ
  pub native_asset_id : ℕ
  pub native_asset_location : Location
  pub native_asset_metadata : Metadata
  pub create_asset : Origin → ℕ → AccountId → Metadata → Registry → Option Registry
  pub force_create_asset : ℕ → Metadata → Registry → Option Registry
  pub force_update_metadata : ℕ → Metadata → Registry → Option Registry
  pub deposit_minting_with_check : ℕ → AccountId → ℕ → Bool → Registry → Option Registry

-- `overflow` is `ArithmeticError::Overflow`, `registry_error` an error that the registry returns.
pub data Error : Type 0 where
  location_already_exists error_creating_asset update_non_existent_asset : Error
  cannot_update_native_asset_metadata asset_already_registered mint_error : Error
  update_para_id_error bad_origin overflow registry_error : Error

pub data Event (c : Config) : Type 0 where
  asset_registered : ℕ → c.Location → c.Metadata → Event c
  asset_location_updated : ℕ → c.Location → Event c
  asset_metadata_updated : ℕ → c.Metadata → Event c
  units_per_second_updated : ℕ → ℕ → Event c
  asset_minted : ℕ → c.AccountId → ℕ → Event c
  min_xcm_fee_updated : c.Location → ℕ → Event c

pub record Storage (c : Config) : Type 0 where
  pub asset_id_location : StorageMap ℕ c.Location
  pub location_asset_id : StorageMap c.Location ℕ
  pub asset_id_metadata : StorageMap ℕ c.Metadata
  pub registered_asset_id : StorageMap c.Identifier ℕ
  pub next_asset_id : ℕ
  pub units_per_second : StorageMap ℕ ℕ
  pub min_xcm_fee : StorageMap c.Location ℕ
  pub allowed_dest_para_ids : StorageMap ℕ ℕ
  pub registry : c.Registry
  pub events : List (Event c)

abbrev pub Action : Config → Type 0 → Type 0
Action c A = Call (Storage c) Error A
