-- ===== src/MantaPay.antt =====
-- pallets/manta-pay: the private payments.
pub mod Pallet
pub mod AssetId
pub mod Ledger
pub mod Pull
pub mod Post
pub mod Errors
pub mod Transfer
pub mod Extrinsics
pub mod Sample
