-- ===== src/MantaPay/Transfer/NonFungible.antt =====
-- `NFTTransferLedger` of pallets/manta-pay/src/ledgers/nftledger.rs.
pub mod Ownership
use hackathon_parity_eu.Prelude.{
  ℕ, Bytes, Option, none, some, List, [], ◌∷◌, Result, ok, err, Call, pure, for_each, ok_or, ◌>>=◌,
  ◌>>◌,
}
use hackathon_parity_eu.Assets.Metadata.{metadata_view}
use hackathon_parity_eu.Assets.NonFungible.{transfer}
use hackathon_parity_eu.MantaPay.AssetId.{to_le_bytes}
use hackathon_parity_eu.MantaPay.Transfer.{
  Runtime, TransferShape, Fault, panic, error, expect, expect_ok, expected, AccountId,
  PreprocessedEvent, World, LedgerAction, on_items, PostingKey, get_metadata, first_account,
  check_proof, InvalidAccount,
}

module _ (r : Runtime) where
  pub check_source_accounts :
      r.crypto.Fp
      → List (AccountId r × ℕ)
      → Call (World r) (Fault (InvalidAccount r)) (List (AccountId r × ℕ))
  check_source_accounts asset_id sources = pure sources

  pub check_sink_accounts :
      r.crypto.Fp
      → List (AccountId r × ℕ)
      → Call (World r) (Fault (InvalidAccount r)) (List (AccountId r × ℕ))
  check_sink_accounts asset_id sinks = pure sinks

  pub is_valid : PostingKey r → LedgerAction r (PreprocessedEvent r)
  is_valid posting_key = do
    shape ← expect posting_key.shape
    (verifying_context, event) ← elim shape as (λ _. LedgerAction r (Bytes × PreprocessedEvent r)) [
      | TransferShape.to_private ↦ do
        context ← expect r.get_to_private
        asset_id ← expect posting_key.asset_id
        id ← expect (r.crypto.fp_encode asset_id)
        (account_id, value) ← first_account r posting_key.sources
        pure (
          context,
          PreprocessedEvent.to_private (record { id = id; value = to_le_bytes 16 value })
              account_id,
        )
      | TransferShape.private_transfer ↦ do
        context ← expect r.get_private_transfer
        pure (context, PreprocessedEvent.private_transfer)
      | TransferShape.to_public ↦ do
        context ← expect r.get_to_public
        asset_id ← expect posting_key.asset_id
        id ← expect (r.crypto.fp_encode asset_id)
        (account_id, value) ← first_account r posting_key.sinks
        pure (
          context,
          PreprocessedEvent.to_public (record { id = id; value = to_le_bytes 16 value }) account_id,
        )
    ]
    check_proof r posting_key verifying_context event

  -- `get_metadata(..).expect(..)` and `get_non_fungible_id().expect(..)`.
  abbrev pub item_of : {E : Type 0} → r.crypto.Fp → Call (World r) (Fault E) (ℕ × ℕ)
  item_of asset_id = do
    metadata ← expect_ok (get_metadata r asset_id)
    expect (metadata_view metadata).get_non_fungible_id

  pub update_public_balances :
      r.crypto.Fp → List (AccountId r × ℕ) → List (AccountId r × ℕ) → LedgerAction r (Unit {0})
  update_public_balances asset_id sources sinks = do
    (collection_id, item_id) ← item_of asset_id
    for_each (λ _. expected (on_items r (transfer r.items collection_id item_id r.account_id)))
        sources
    for_each
        (λ (account_id, deposit).
          expected (on_items r (transfer r.items collection_id item_id account_id)))
        sinks
