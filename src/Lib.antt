-- ===== src/Lib.antt =====
-- Verification of the zkNFT chain: its pallets and primitives, src/zkNFT in the repository.
--
-- The program's parts. The runtime is a parachain whose own pallets are tx-pause (the blocking of
-- calls), asset-manager (the registry of assets), manta-pay (private payments), parachain-staking
-- and collator-selection. primitives/manta holds the types of assets and the ledgers that manta-pay
-- and asset-manager use. A user's call passes the filter of tx-pause, reaches a pallet, and is
-- rolled back on an error. manta-pay asks the registry for the metadata of an asset, moves the
-- public balances by the ledgers of primitives, and keeps UTXOs and nullifiers itself; a wallet
-- pulls those in chunks. parachain-staking keeps the candidates with their delegations, selects the
-- collators of each round from a sorted pool of the active candidates, and pays rewards; its hooks
-- run at the start and at the end of each block.
--
-- Correspondence. Each file names the source that it models in its first line.
--   Prelude: numbers, lists, byte strings, storage maps, and calls that fail and roll back.
--   TxPause: src/zkNFT/pallets/tx-pause/src/lib.rs, one definition per call and helper
--     (`pause_pallets`, `ensure_can_pause`, ...); the loops are `pause_each`, `pause_pallet` and
--     `pause_calls`. `PausedTransactions` is the field `paused_transactions`. `Safety.run` is a
--     sequence of extrinsics, `filter_contains` is `PausedTransactionFilter::contains`.
--   AssetManager: src/zkNFT/pallets/asset-manager/src/lib.rs. The storage items are the fields of
--     `Storage`; `Dispatch.run` is a sequence of extrinsics from the genesis `build`. The asset
--     registry below is the state `Registry` of the configuration.
--   Assets: src/zkNFT/primitives/manta/src/assets.rs and nft.rs. `Metadata` has the metadata and
--     `IsFungible`; `Ledger` is `NativeAndNonNative` over two pallets of balances; `NonFungible` is
--     `NonFungibleAsset`.
--   MantaPay: src/zkNFT/pallets/manta-pay/src. `Pallet` has the storage (lib.rs), `Ledger` is
--     ledger.rs, `Pull` and `AssetId` are those parts of impl_pay.rs, `Post` is the encoded posts of
--     types.rs, `Errors` is errors.rs, `Transfer.Fungible` and `Transfer.NonFungible` are
--     ledgers/ftledger.rs and ledgers/nftledger.rs, `Extrinsics` has the calls of lib.rs and
--     `post_transaction` of impl_pay.rs. `Sample` is an instance of the crates for the examples.
--   Staking: src/zkNFT/pallets/parachain-staking/src. `Set` is set.rs, over the binary search of
--     `Search`; `Inflation` is inflation.rs; `Pallet` has the storage, the events and the errors of
--     lib.rs; `Bond`, `Delegator` and `Candidate` are types.rs, the last with a child for each of
--     `add_delegation`, `rm_delegation_if_exists`, `increase_delegation` and `decrease_delegation`;
--     `Requests` is delegation_requests.rs; `Calls` has the calls of lib.rs (`go_offline` is
--     `leave_pool` and `go_online` is `rejoin_pool`), and `Rounds` its hooks, the selection, the
--     rewards, the genesis and `initialize_pallet`. A method that mutates its receiver gives back the
--     new one. `Rounds.Chain` is a chain of blocks: a start, extrinsics and hooks. `Candidate.Books`,
--     `Requests.Laws` and `Pool` have the proofs.
--   Xcm: src/zkNFT/primitives/manta/src/xcm.rs. `Trader` is `FirstAssetTrader`, `Adapter` is
--     `IsNativeConcrete` and `MultiAssetAdapter`, `Barrier` is
--     `AllowTopLevelPaidExecutionDescendOriginFirst`.
--
-- Parameters. The configuration traits are records (`Config`, `Pallets`, `Items`, `Runtime`),
-- and so are the XCM types (`Market`, `Converters`, `Payload`), the currency, the other collator
-- pallet and the fixed-point numbers of parachain-staking (`Currency`, `Whitelist`, `FixedPoint`;
-- the products of `Perbill` and `Percent` are functions of its `Config`) and the crates of the protocol: `Crypto` and
-- `Codecs` have the types, the codecs (`none` is a codec error), the Merkle tree of a shard and
-- the checksummed parameters. `TransferPost::post` of the crate is the parameter `post_with` of
-- the calls, given the ledger that the code gives it. Laws of this code are named hypotheses:
-- `AreLossless` (a codec decodes what it encodes), `Moves` (a transfer of balances that keeps the
-- sender alive moves the amount) and `Gives` (a transfer of an item gives it to its account).
--
-- Conventions. A call is a function from the storage to an error or a result with the new storage;
-- `settle` rolls back. A panic is an error of its own (`panicked` in TxPause, `panic` in MantaPay).
-- A storage map is an association list without order. Counts of assets are `u32` with the
-- wrap-around written out, indices of nullifiers `u64` likewise. The asset id of asset-manager has a
-- bound from its type. Weights are modelled where a call returns one.
--
-- Bounds. All loops are over lists or over a number of rounds that the code fixes, so no fuel is
-- needed, but for the conversion of `TransferPostError` to `Error`, which calls itself: its model
-- takes a bound on its calls, one is enough for every error but an unexpected one, and no bound is
-- enough for that, and for the binary search, whose fuel is one more than the length of the list,
-- more than the length of any range that it searches. The end of a range of indices of the pulls
-- wraps around at 64 bits. Balances, counts and rounds of parachain-staking saturate at 128 and at 32
-- bits, as the source has it. Weights saturate at
-- 64 bits, and the product of a price and a weight wraps around at 128 bits, as in a release build.
--
-- Of parachain-staking the weights are left out, with the handlers of payouts and of new rounds that
-- return a weight alone, the storage version, and the deprecated types. What fails in the genesis is
-- logged and skipped; a call there is not rolled back, so the whitelist keeps the one write that
-- `join_candidates` makes before an error.
--
-- Not modelled: collator-selection, the reserves and the collection of fees
-- of primitives/manta/src/xcm.rs, and the asset registry of runtime/dolphin, which are separate
-- components; weights, benchmarks, mocks, tests, migrations, the node, the RPC glue, the SDK and
-- the front-end, which are data, glue, or I/O.
mod Prelude
pub mod TxPause
pub mod AssetManager
pub mod Assets
pub mod MantaPay
pub mod Staking
pub mod Xcm
