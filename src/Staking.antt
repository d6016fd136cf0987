-- ===== src/Staking.antt =====
-- pallets/parachain-staking: candidates, delegations and their requests, rounds and rewards.
pub mod Search
pub mod Set
pub mod Bond
pub mod Inflation
pub mod Pallet
pub mod Delegator
pub mod Candidate
pub mod Requests
pub mod Calls
pub mod Pool
pub mod Rounds
pub mod Sample
mod Examples
