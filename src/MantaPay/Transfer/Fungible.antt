-- ===== src/MantaPay/Transfer/Fungible.antt =====
-- `FTTransferLedger` of pallets/manta-pay/src/ledgers/ftledger.rs.
pub mod Pool
pub mod Panics
use hackathon_parity_eu.Prelude.{
  ℕ, Bytes, Bool, true, false, Option, none, some, List, [], ◌∷◌, Result, ok, err, Call, pure, fail,
  ok_or, for_each, ◌>>=◌, ◌>>◌,
}
use hackathon_parity_eu.Assets.Metadata.{metadata_view}
use hackathon_parity_eu.Assets.Ledger.{can_withdraw, can_deposit, transfer, keep_alive}
use hackathon_parity_eu.MantaPay.AssetId.{to_le_bytes}
use hackathon_parity_eu.MantaPay.Errors.{
  checksum_error, fp_encode_error, invalid_transfer_shape, unknown_asset,
}
use hackathon_parity_eu.MantaPay.Transfer.{
  Runtime, TransferShape, Fault, panic, error, expect, expect_ok, expected, AccountId,
  PreprocessedEvent, World, LedgerAction, on_balances, PostingKey, get_metadata, first_account,
  check_proof, InvalidAccount, check_accounts, is_ok,
}

module _ (r : Runtime) where
  -- `get_metadata(..).expect(..)` and `get_fungible_id().expect(..)`.
  abbrev pub fungible_id : {E : Type 0} → r.crypto.Fp → Call (World r) (Fault E) ℕ
  fungible_id asset_id = do
    metadata ← expect_ok (get_metadata r asset_id)
    expect (metadata_view metadata).get_fungible_id

  pub check_source_accounts :
      r.crypto.Fp
      → List (AccountId r × ℕ)
      → Call (World r) (Fault (InvalidAccount r)) (List (AccountId r × ℕ))
  check_source_accounts asset_id sources = do
    id ← fungible_id asset_id
    check_accounts r asset_id
        (λ account_id withdraw b.
          is_ok r (can_withdraw r.pallets id account_id withdraw keep_alive b))
        sources

  pub check_sink_accounts :
      r.crypto.Fp
      → List (AccountId r × ℕ)
      → Call (World r) (Fault (InvalidAccount r)) (List (AccountId r × ℕ))
  check_sink_accounts asset_id sinks = do
    id ← fungible_id asset_id
    check_accounts r asset_id
        (λ account_id deposit b. is_ok r (can_deposit r.pallets id account_id deposit false b))
        sinks

  pub is_valid : PostingKey r → LedgerAction r (PreprocessedEvent r)
  is_valid posting_key = do
    shape ← ok_or posting_key.shape (error invalid_transfer_shape)
    (verifying_context, event) ← elim shape as (λ _. LedgerAction r (Bytes × PreprocessedEvent r)) [
      | TransferShape.to_private ↦ do
        asset_id ← ok_or posting_key.asset_id (error unknown_asset)
        id ← ok_or (r.crypto.fp_encode asset_id) (error fp_encode_error)
        context ← ok_or r.get_to_private (error checksum_error)
        (account_id, value) ← first_account r posting_key.sources
        pure (
          context,
          PreprocessedEvent.to_private (record { id = id; value = to_le_bytes 16 value })
              account_id,
        )
      | TransferShape.private_transfer ↦ do
        context ← ok_or r.get_private_transfer (error checksum_error)
        pure (context, PreprocessedEvent.private_transfer)
      | TransferShape.to_public ↦ do
        asset_id ← ok_or posting_key.asset_id (error unknown_asset)
        id ← ok_or (r.crypto.fp_encode asset_id) (error fp_encode_error)
        context ← ok_or r.get_to_public (error checksum_error)
        (account_id, value) ← first_account r posting_key.sinks
        pure (
          context,
          PreprocessedEvent.to_public (record { id = id; value = to_le_bytes 16 value }) account_id,
        )
    ]
    check_proof r posting_key verifying_context event

  unfoldable pub update_public_balances :
      r.crypto.Fp → List (AccountId r × ℕ) → List (AccountId r × ℕ) → LedgerAction r (Unit {0})
  update_public_balances asset_id sources sinks = do
    id ← fungible_id asset_id
    for_each
        (λ (account_id, withdraw).
          expected
            (on_balances r (transfer r.pallets id account_id r.account_id withdraw keep_alive)))
        sources
    for_each
        (λ (account_id, deposit).
          expected
            (on_balances r (transfer r.pallets id r.account_id account_id deposit keep_alive)))
        sinks
