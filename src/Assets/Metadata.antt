-- ===== src/Assets/Metadata.antt =====
-- The metadata of assets of primitives/manta/src/assets.rs: `AssetStorageMetadata`, what the storage
-- keeps of it, `AssetIdMapping`, and their implementations of `IsFungible`.
use hackathon_parity_eu.Prelude.{ℕ, ◌≡◌, refl, Bool, true, false, Option, none, some, Bytes}

pub record FungibleAssetStorageMetadata : Type 0 where
  pub name : Bytes
  pub symbol : Bytes
  pub decimals : ℕ
  pub is_frozen : Bool

pub record AssetRegistryMetadata (B A : Type 0) : Type 0 where
  pub metadata : FungibleAssetStorageMetadata
  pub asset_id : A
  pub min_balance : B
  pub is_sufficient : Bool

pub record NonFungibleAssetStorageMetadata (C I AC : Type 0) : Type 0 where
  pub name : Bytes
  pub info : Bytes
  pub collection_id : C
  pub item_id : I
  pub origin_owner : AC
  pub origin_zkaddress : Bytes

pub data AssetStorageMetadata (B A C I AC : Type 0) : Type 0 where
  fungible : AssetRegistryMetadata B A → AssetStorageMetadata B A C I AC
  non_fungible : NonFungibleAssetStorageMetadata C I AC → AssetStorageMetadata B A C I AC
  sbt : NonFungibleAssetStorageMetadata C I AC → AssetStorageMetadata B A C I AC

pub data AssetIdMapping (A C I AC : Type 0) : Type 0 where
  fungible : A → AssetIdMapping A C I AC
  non_fungible : C → I → AssetIdMapping A C I AC
  sbt : C → I → Bytes → AC → AssetIdMapping A C I AC

-- The trait `IsFungible`, at a value.
pub record IsFungible (A C I AC : Type 0) : Type 0 where
  pub is_fungible : Bool
  pub is_non_fungible : Bool
  pub get_fungible_id : Option A
  pub get_non_fungible_id : Option (C × I)
  pub get_origin_zkaddress : Option Bytes
  pub get_origin_account : Option AC

module _ {A C I AC : Type 0} where
  pub mapping_view : AssetIdMapping A C I AC → IsFungible A C I AC
  mapping_view (AssetIdMapping.fungible asset_id) = record {
    is_fungible = true;
    is_non_fungible = false;
    get_fungible_id = some asset_id;
    get_non_fungible_id = none;
    get_origin_zkaddress = none;
    get_origin_account = none;
  }
  mapping_view (AssetIdMapping.non_fungible collection_id item_id) = record {
    is_fungible = false;
    is_non_fungible = true;
    get_fungible_id = none;
    get_non_fungible_id = some (collection_id, item_id);
    get_origin_zkaddress = none;
    get_origin_account = none;
  }
  mapping_view (AssetIdMapping.sbt collection_id item_id origin_zk_address account_id) = record {
    is_fungible = false;
    is_non_fungible = false;
    get_fungible_id = none;
    get_non_fungible_id = some (collection_id, item_id);
    get_origin_zkaddress = some origin_zk_address;
    get_origin_account = some account_id;
  }

module _ {B A C I AC : Type 0} where
  -- `impl From<AssetStorageMetadata> for AssetIdMapping`
  pub from_metadata : AssetStorageMetadata B A C I AC → AssetIdMapping A C I AC
  from_metadata (AssetStorageMetadata.fungible meta) = AssetIdMapping.fungible meta.asset_id
  from_metadata (AssetStorageMetadata.non_fungible meta) =
      AssetIdMapping.non_fungible meta.collection_id meta.item_id
  from_metadata (AssetStorageMetadata.sbt meta) =
      AssetIdMapping.sbt meta.collection_id meta.item_id meta.origin_zkaddress meta.origin_owner

  unfoldable pub metadata_view : AssetStorageMetadata B A C I AC → IsFungible A C I AC
  metadata_view (AssetStorageMetadata.fungible meta) = record {
    is_fungible = true;
    is_non_fungible = false;
    get_fungible_id = some meta.asset_id;
    get_non_fungible_id = none;
    get_origin_zkaddress = none;
    get_origin_account = none;
  }
  metadata_view (AssetStorageMetadata.non_fungible meta) = record {
    is_fungible = false;
    is_non_fungible = true;
    get_fungible_id = none;
    get_non_fungible_id = some (meta.collection_id, meta.item_id);
    get_origin_zkaddress = none;
    get_origin_account = none;
  }
  metadata_view (AssetStorageMetadata.sbt meta) = record {
    is_fungible = false;
    is_non_fungible = false;
    get_fungible_id = none;
    get_non_fungible_id = some (meta.collection_id, meta.item_id);
    get_origin_zkaddress = some meta.origin_zkaddress;
    get_origin_account = some meta.origin_owner;
  }

  -- The identifier that the registry keeps of an asset answers every question of `IsFungible` as the
  -- asset's full metadata do.
  pub mapping_view-from_metadata :
      (m : AssetStorageMetadata B A C I AC) → mapping_view (from_metadata m) ≡ metadata_view m
  unfolding mapping_view metadata_view from_metadata
  mapping_view-from_metadata (AssetStorageMetadata.fungible meta) = refl
  mapping_view-from_metadata (AssetStorageMetadata.non_fungible meta) = refl
  mapping_view-from_metadata (AssetStorageMetadata.sbt meta) = refl
