-- ===== src/Xcm.antt =====
-- primitives/manta/src/xcm.rs: what a message of another chain may do with assets.
pub mod Trader
pub mod Barrier
pub mod Adapter
