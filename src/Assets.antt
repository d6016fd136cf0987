-- ===== src/Assets.antt =====
-- primitives/manta/src/assets.rs and src/nft.rs: the types of assets, and the ledgers over the pallets
-- that hold the balances and the items.
pub mod Metadata
pub mod Ledger
pub mod NonFungible
