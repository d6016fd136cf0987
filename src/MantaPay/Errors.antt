-- ===== src/MantaPay/Errors.antt =====
-- pallets/manta-pay/src/errors.rs: the errors of the ledgers, of the posting of a transfer, and of the
-- pallet, with the conversions between them.
pub mod Examples
use hackathon_parity_eu.Prelude.{
  ℕ, zero, suc, ◌≡◌, refl, Bool, true, false, Option, none, some, is_some, arith,
}
use hackathon_parity_eu.Assets.Ledger.{FungibleLedgerError}
use hackathon_parity_eu.MantaPay.Pallet.{SenderLedgerError, ReceiverLedgerError}

-- `SenderPostError` and `ReceiverPostError` of the `manta-accounting` crate.
pub data SenderPostError : Type 0 where
  asset_spent invalid_utxo_accumulator_output : SenderPostError
  unexpected_error : SenderLedgerError → SenderPostError

pub data ReceiverPostError : Type 0 where
  asset_registered : ReceiverPostError
  unexpected_error : ReceiverLedgerError → ReceiverPostError

-- `I`, `B` and `D` are the types in an error of the fungible ledger.
pub data TransferLedgerError (I B D : Type 0) : Type 0 where
  checksum_error verifying_context_decode_error fp_encode_error : TransferLedgerError I B D
  unknown_asset invalid_transfer_shape proof_system_error : TransferLedgerError I B D
  invalid_proof : TransferLedgerError I B D
  fungible_ledger_error : FungibleLedgerError I B D → TransferLedgerError I B D
  sender_ledger_error : SenderLedgerError → TransferLedgerError I B D
  receiver_ledger_error : ReceiverLedgerError → TransferLedgerError I B D

-- `TransferPostError` of the `manta-accounting` crate, at the errors of the pallet.
pub data TransferPostError (I B D : Type 0) : Type 0 where
  invalid_shape invalid_authorization_signature : TransferPostError I B D
  invalid_source_account invalid_sink_account : TransferPostError I B D
  sender : SenderPostError → TransferPostError I B D
  receiver : ReceiverPostError → TransferPostError I B D
  duplicate_mint duplicate_spend invalid_proof : TransferPostError I B D
  unexpected_error : TransferLedgerError I B D → TransferPostError I B D

-- The errors of the pallet.
pub data Error : Type 0 where
  uninitialized_supply balance_low private_transfer_not_allowed : Error
  private_transfer_account_not_match : Error
  zero_transfer invalid_serialized_form invalid_asset_id invalid_shape : Error
  invalid_authorization_signature asset_spent invalid_utxo_accumulator_output : Error
  asset_registered duplicate_spend duplicate_register invalid_proof : Error
  invalid_source_account invalid_sink_account : Error
  public_update_invalid_asset_id public_update_below_minimum public_update_cannot_create : Error
  public_update_unknown_asset public_update_overflow public_update_cannot_withdraw : Error
  public_update_invalid_mint public_update_invalid_burn public_update_invalid_transfer : Error
  internal_ledger_error encode_error : Error
  private_transfer_zk_address_not_exist private_transfer_zk_address_not_match : Error
  private_transfer_account_not_exist : Error

pub from_sender_ledger_error : SenderLedgerError → SenderPostError
from_sender_ledger_error SenderLedgerError.asset_spent = SenderPostError.asset_spent
from_sender_ledger_error SenderLedgerError.invalid_utxo_accumulator_output =
    SenderPostError.invalid_utxo_accumulator_output
from_sender_ledger_error SenderLedgerError.fp_encode_error =
    SenderPostError.unexpected_error SenderLedgerError.fp_encode_error
from_sender_ledger_error SenderLedgerError.outgoing_note_decode_error =
    SenderPostError.unexpected_error SenderLedgerError.outgoing_note_decode_error

pub from_receiver_ledger_error : ReceiverLedgerError → ReceiverPostError
from_receiver_ledger_error ReceiverLedgerError.asset_registered = ReceiverPostError.asset_registered
from_receiver_ledger_error value = ReceiverPostError.unexpected_error value

pub from_sender_post_error : SenderPostError → Error
from_sender_post_error SenderPostError.asset_spent = Error.asset_spent
from_sender_post_error SenderPostError.invalid_utxo_accumulator_output =
    Error.invalid_utxo_accumulator_output
from_sender_post_error (SenderPostError.unexpected_error e) = internal_ledger_error

pub from_receiver_post_error : ReceiverPostError → Error
from_receiver_post_error ReceiverPostError.asset_registered = Error.asset_registered
from_receiver_post_error (ReceiverPostError.unexpected_error e) = internal_ledger_error

module _ {I B D : Type 0} where
  pub from_fungible_ledger_error : FungibleLedgerError I B D → Error
  from_fungible_ledger_error (FungibleLedgerError.invalid_asset_id i) =
      public_update_invalid_asset_id
  from_fungible_ledger_error FungibleLedgerError.below_minimum = public_update_below_minimum
  from_fungible_ledger_error FungibleLedgerError.cannot_create = public_update_cannot_create
  from_fungible_ledger_error FungibleLedgerError.unknown_asset = public_update_unknown_asset
  from_fungible_ledger_error FungibleLedgerError.overflow = public_update_overflow
  from_fungible_ledger_error (FungibleLedgerError.cannot_withdraw_more_than b) =
      public_update_cannot_withdraw
  from_fungible_ledger_error (FungibleLedgerError.invalid_mint d) = public_update_invalid_mint
  from_fungible_ledger_error (FungibleLedgerError.invalid_burn d) = public_update_invalid_burn
  from_fungible_ledger_error (FungibleLedgerError.invalid_transfer d) =
      public_update_invalid_transfer
  from_fungible_ledger_error FungibleLedgerError.encode_error = Error.encode_error

  -- `impl From<TransferLedgerError> for TransferPostError`
  pub from_transfer_ledger_error : TransferLedgerError I B D → TransferPostError I B D
  from_transfer_ledger_error TransferLedgerError.invalid_proof = TransferPostError.invalid_proof
  from_transfer_ledger_error invalid_transfer_shape = TransferPostError.invalid_shape
  from_transfer_ledger_error (sender_ledger_error e) = sender (from_sender_ledger_error e)
  from_transfer_ledger_error (receiver_ledger_error e) = receiver (from_receiver_ledger_error e)
  from_transfer_ledger_error TransferLedgerError.unknown_asset = TransferPostError.invalid_proof
  from_transfer_ledger_error value = TransferPostError.unexpected_error value

  -- `impl From<TransferPostError> for Error`, with at most so many calls of itself: its last arm
  -- converts the same error again.
  pub from_transfer_post_error : ℕ → TransferPostError I B D → Option Error
  from_transfer_post_error zero e = none
  from_transfer_post_error (suc n) TransferPostError.invalid_shape = some Error.invalid_shape
  from_transfer_post_error (suc n) TransferPostError.invalid_authorization_signature =
      some Error.invalid_authorization_signature
  from_transfer_post_error (suc n) TransferPostError.invalid_source_account =
      some Error.invalid_source_account
  from_transfer_post_error (suc n) TransferPostError.invalid_sink_account =
      some Error.invalid_sink_account
  from_transfer_post_error (suc n) (sender e) = some (from_sender_post_error e)
  from_transfer_post_error (suc n) (receiver e) = some (from_receiver_post_error e)
  from_transfer_post_error (suc n) duplicate_mint = some duplicate_register
  from_transfer_post_error (suc n) TransferPostError.duplicate_spend = some Error.duplicate_spend
  from_transfer_post_error (suc n) TransferPostError.invalid_proof = some Error.invalid_proof
  from_transfer_post_error (suc n) (TransferPostError.unexpected_error e) =
      from_transfer_post_error n (TransferPostError.unexpected_error e)

  abbrev pub is_unexpected : TransferPostError I B D → Bool
  is_unexpected (TransferPostError.unexpected_error e) = true
  is_unexpected e = false

  -- The conversion of an unexpected error never returns, however many calls of itself it may make.
  pub from_transfer_post_error-unexpected :
      (n : ℕ) (e : TransferLedgerError I B D)
      → from_transfer_post_error n (TransferPostError.unexpected_error e) ≡ none
  unfolding from_transfer_post_error
  from_transfer_post_error-unexpected zero e = refl
  from_transfer_post_error-unexpected (suc n) e = from_transfer_post_error-unexpected n e

  -- Any other error of a post is converted without a further call, and to the same error of the pallet
  -- with any bound on the calls.
  pub from_transfer_post_error-expected :
      (n : ℕ) (e : TransferPostError I B D)
      → is_unexpected e ≡ false
      → (is_some (from_transfer_post_error 1 e) ≡ true)
        × (from_transfer_post_error (suc n) e ≡ from_transfer_post_error 1 e)
  unfolding from_transfer_post_error
  from_transfer_post_error-expected n TransferPostError.invalid_shape h = (refl, refl)
  from_transfer_post_error-expected n TransferPostError.invalid_authorization_signature h =
      (refl, refl)
  from_transfer_post_error-expected n TransferPostError.invalid_source_account h = (refl, refl)
  from_transfer_post_error-expected n TransferPostError.invalid_sink_account h = (refl, refl)
  from_transfer_post_error-expected n (TransferPostError.sender e) h = (refl, refl)
  from_transfer_post_error-expected n (TransferPostError.receiver e) h = (refl, refl)
  from_transfer_post_error-expected n TransferPostError.duplicate_mint h = (refl, refl)
  from_transfer_post_error-expected n TransferPostError.duplicate_spend h = (refl, refl)
  from_transfer_post_error-expected n TransferPostError.invalid_proof h = (refl, refl)
  from_transfer_post_error-expected n (TransferPostError.unexpected_error e) h =
      absurd (ground (arith, h))
