-- ===== src/MantaPay/Errors/Examples.antt =====
-- The conversions of errors of pallets/manta-pay at concrete inputs.
use hackathon_parity_eu.Prelude.{ℕ, ◌≡◌, refl, none, some}
use hackathon_parity_eu.MantaPay.Pallet.{SenderLedgerError}
use hackathon_parity_eu.MantaPay.Errors.{
  Error, TransferPostError, checksum_error, sender_ledger_error, from_transfer_ledger_error,
  from_transfer_post_error, from_sender_ledger_error, from_sender_post_error,
  from_transfer_post_error-unexpected, SenderPostError,
}

abbrev double_spend : TransferPostError ℕ ℕ ℕ
double_spend = TransferPostError.sender SenderPostError.asset_spent

double_spend_test :
    from_transfer_post_error 1 (
      from_transfer_ledger_error {I = ℕ} {B = ℕ} {D = ℕ}
        (sender_ledger_error SenderLedgerError.asset_spent))
    ≡ some Error.asset_spent
unfolding from_transfer_post_error from_transfer_ledger_error from_sender_ledger_error
    from_sender_post_error
double_spend_test = refl

from_transfer_post_error-unexpected_example :
    from_transfer_post_error {I = ℕ} {B = ℕ} {D = ℕ} 1000
      (TransferPostError.unexpected_error checksum_error)
    ≡ none
from_transfer_post_error-unexpected_example =
    from_transfer_post_error-unexpected 1000 checksum_error
