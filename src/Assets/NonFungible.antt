-- ===== src/Assets/NonFungible.antt =====
-- `NonFungibleAsset` of primitives/manta/src/nft.rs: the ledger of items, over the pallet that holds them.
use hackathon_parity_eu.Prelude.{ℕ, Option, some, Call}
use hackathon_parity_eu.Assets.Ledger.{
  FungibleLedgerError, map_err, invalid_mint, invalid_transfer, invalid_burn,
}

-- The pallet of the items, by collection and item.
pub record Items (AccountId D : Type 0) : Type 1 where
  pub Store : Type 0
  pub mint_into : ℕ → ℕ → AccountId → Call Store D (Unit {0})
  pub owner_of : ℕ → ℕ → Store → Option AccountId
  pub transfer : ℕ → ℕ → AccountId → Call Store D (Unit {0})
  pub burn : ℕ → ℕ → Option AccountId → Call Store D (Unit {0})

module _ {AccountId D : Type 0} (q : Items AccountId D) where
  abbrev pub ItemCall : Type 0 → Type 0
  ItemCall A = Call q.Store (FungibleLedgerError ℕ ℕ D) A

  pub deposit_minting : ℕ → ℕ → AccountId → ItemCall (Unit {0})
  deposit_minting collection_id asset_id account =
      map_err invalid_mint (q.mint_into collection_id asset_id account)

  unfoldable pub owner : ℕ → ℕ → q.Store → Option AccountId
  owner collection_id asset_id s = q.owner_of collection_id asset_id s

  unfoldable pub transfer : ℕ → ℕ → AccountId → ItemCall (Unit {0})
  transfer collection_id asset_id destination =
      map_err invalid_transfer (q.transfer collection_id asset_id destination)

  pub withdraw_burning : ℕ → ℕ → AccountId → ItemCall (Unit {0})
  withdraw_burning collection_id asset_id who =
      map_err invalid_burn (q.burn collection_id asset_id (some who))
