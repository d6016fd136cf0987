-- ===== src/MantaPay/Extrinsics.antt =====
-- The calls of pallets/manta-pay/src/lib.rs, and `post_transaction` of src/impl_pay.rs.
pub mod Shapes
pub mod PublicTransfer
pub mod Examples
use hackathon_parity_eu.Prelude.{
  ℕ, zero, suc, Bytes, Bool, true, false, ◌&&◌, Option, none, some, List, [], ◌∷◌, ◌++◌, Result, ok,
  err, Call, pure, fail, gets, modify, ensure, ok_or, for_each, ◌>>=◌, ◌>>◌, ltb, ◌==◌, length, beq,
  bytes_key, Key,
}
use hackathon_parity_eu.Assets.Metadata.{metadata_view}
use hackathon_parity_eu.Assets.Ledger.{keep_alive}
use hackathon_parity_eu.Assets.NonFungible.{owner}
use hackathon_parity_eu.MantaPay.Pallet.{Crypto, Nullifier, Storage}
use hackathon_parity_eu.MantaPay.AssetId.{id_from_field, from_le_bytes}
use hackathon_parity_eu.MantaPay.Ledger.{
  SenderAction, ReceiverAction, Posting, is_unspent, has_matching_utxo_accumulator_output,
  spend_all, is_not_registered, register_all,
}
use hackathon_parity_eu.MantaPay.Post.{TransferPost, RawTransferPost, transfer_post_decode, Asset}
use hackathon_parity_eu.MantaPay.Errors.{
  Error, TransferPostError, from_transfer_post_error, from_fungible_ledger_error,
  invalid_serialized_form, zero_transfer, private_transfer_zk_address_not_exist,
  private_transfer_zk_address_not_match, private_transfer_account_not_exist,
  public_update_invalid_mint, public_update_unknown_asset, public_update_invalid_transfer,
}
use hackathon_parity_eu.MantaPay.Transfer.{
  Runtime, Fault, panic, error, AccountId, LedgerAction, PreprocessedEvent, Event, convert, World,
  on_balances, on_items, PostingKey, InvalidAccount,
}
use hackathon_parity_eu.MantaPay.Transfer.Fungible as Ft
use hackathon_parity_eu.MantaPay.Transfer.NonFungible as Nft
use hackathon_parity_eu.Assets.Ledger as Balance
use hackathon_parity_eu.Assets.NonFungible as Item

pub data AssetType : Type 0 where
  ft nft sbt pft : AssetType

pub data DispatchError : Type 0 where
  bad_origin : DispatchError
  pallet_error : Error → DispatchError

abbrev pub is_empty : {A : Type 0} → List A → Bool
is_empty [] = true
is_empty (x ∷ xs) = false

module _ (r : Runtime) where
  -- What the crate is given of a ledger when it posts a transfer.
  pub record TransferLedger : Type 0 where
    pub is_unspent : Nullifier r.crypto → SenderAction r.crypto (Nullifier r.crypto)
    pub has_matching_utxo_accumulator_output : r.crypto.Fp → SenderAction r.crypto r.crypto.Fp
    pub spend_all : List (Nullifier r.crypto) → SenderAction r.crypto (Unit {0})
    pub is_not_registered : r.crypto.RawUtxo → ReceiverAction r.crypto r.crypto.RawUtxo
    pub register_all : List (Posting r.crypto) → ReceiverAction r.crypto (Unit {0})
    pub check_source_accounts :
        r.crypto.Fp
        → List (AccountId r × ℕ)
        → Call (World r) (Fault (InvalidAccount r)) (List (AccountId r × ℕ))
    pub check_sink_accounts :
        r.crypto.Fp
        → List (AccountId r × ℕ)
        → Call (World r) (Fault (InvalidAccount r)) (List (AccountId r × ℕ))
    pub is_valid : PostingKey r → LedgerAction r (PreprocessedEvent r)
    pub update_public_balances :
        r.crypto.Fp → List (AccountId r × ℕ) → List (AccountId r × ℕ) → LedgerAction r (Unit {0})

  pub ft_transfer_ledger : TransferLedger
  ft_transfer_ledger = record {
    is_unspent = is_unspent r.crypto;
    has_matching_utxo_accumulator_output = has_matching_utxo_accumulator_output r.crypto;
    spend_all = spend_all r.crypto;
    is_not_registered = is_not_registered r.crypto;
    register_all = register_all r.crypto;
    check_source_accounts = Ft.check_source_accounts r;
    check_sink_accounts = Ft.check_sink_accounts r;
    is_valid = Ft.is_valid r;
    update_public_balances = Ft.update_public_balances r;
  }

  pub nft_transfer_ledger : TransferLedger
  nft_transfer_ledger = record {
    is_unspent = is_unspent r.crypto;
    has_matching_utxo_accumulator_output = has_matching_utxo_accumulator_output r.crypto;
    spend_all = spend_all r.crypto;
    is_not_registered = is_not_registered r.crypto;
    register_all = register_all r.crypto;
    check_source_accounts = Nft.check_source_accounts r;
    check_sink_accounts = Nft.check_sink_accounts r;
    is_valid = Nft.is_valid r;
    update_public_balances = Nft.update_public_balances r;
  }

  -- The shapes of a post that the calls ask for.
  abbrev pub to_private_shape : TransferPost r.crypto → Bool
  to_private_shape post =
      length post.sources == 1
      && is_empty post.sender_posts
      && length post.receiver_posts == 1
      && is_empty post.sinks

  abbrev pub to_public_shape : TransferPost r.crypto → Bool
  to_public_shape post =
      is_empty post.sources
      && length post.sender_posts == 2
      && length post.receiver_posts == 1
      && length post.sinks == 1

  abbrev pub private_shape : TransferPost r.crypto → Bool
  private_shape post =
      is_empty post.sources
      && length post.sender_posts == 2
      && length post.receiver_posts == 2
      && is_empty post.sinks

  abbrev pub PostError : Type 0
  PostError = TransferPostError ℕ ℕ r.pallets.DispatchError

  abbrev pub Dispatch : Type 0 → Type 0
  Dispatch A = Call (World r) (Fault DispatchError) A

  abbrev pub refuse : Error → Fault DispatchError
  refuse e = error (pallet_error e)

  abbrev pub ensure_signed : Option (AccountId r) → Dispatch (AccountId r)
  ensure_signed origin = ok_or origin (error bad_origin)

  abbrev pub deposit_event : Event r → Dispatch (Unit {0})
  deposit_event event = modify λ w. record w { events = w.events ++ event ∷ [] }

  -- `.map_err(Error::from)`: a conversion that does not return overflows the stack, which is a panic.
  abbrev pub into_error : PostError → Fault DispatchError
  into_error e = elim (from_transfer_post_error 1 e) [ none ↦ panic | some e' ↦ refuse e' ]

  abbrev pub posted : {A : Type 0} → Call (World r) (Fault PostError) A → Dispatch A
  posted m w = elim (m w) [
    | ok a ↦ ok a
    | err panic ↦ err panic
    | err (error e) ↦ err (into_error e)
  ]

  abbrev pub balance_error :
      {A : Type 0} → Call (World r) (Balance.LedgerError r.pallets) A → Dispatch A
  balance_error m w = elim (m w) [
    | ok a ↦ ok a
    | err e ↦ err (refuse (from_fungible_ledger_error e))
  ]

  abbrev pub either : {A : Type 0} → Bool → Dispatch A → Dispatch A → Dispatch A
  either true m n w = m w
  either false m n w = n w

  -- `TransferPost::post` of the crate, on the ledger that it is given.
  module _
      (post_with : TransferLedger
        → AssetType
        → RawTransferPost r.crypto r.codecs
        → List (AccountId r)
        → List (AccountId r)
        → Call (World r) (Fault PostError) (PreprocessedEvent r)) where
    pub ledger_of : AssetType → TransferLedger
    ledger_of ft = ft_transfer_ledger
    ledger_of pft = ft_transfer_ledger
    ledger_of nft = nft_transfer_ledger
    ledger_of sbt = nft_transfer_ledger

    pub post_transaction :
        Option (AccountId r)
        → List (AccountId r)
        → List (AccountId r)
        → TransferPost r.crypto
        → AssetType
        → Dispatch (Unit {0})
    post_transaction origin sources sinks post asset_type = do
      transfer_post ←
          ok_or (transfer_post_decode r.crypto r.codecs post) (refuse invalid_serialized_form)
      event ← posted (post_with (ledger_of asset_type) asset_type transfer_post sources sinks)
      deposit_event (convert r event origin)

    abbrev pub ensure_positive : Bytes → Dispatch (Unit {0})
    ensure_positive value = ensure (ltb 0 (from_le_bytes value)) (refuse zero_transfer)

    pub to_private : Option (AccountId r) → AssetType → TransferPost r.crypto → Dispatch (Unit {0})
    to_private origin asset_type post = do
      account ← ensure_signed origin
      ensure (to_private_shape post) (refuse Error.invalid_shape)
      for_each ensure_positive post.sources
      post_transaction none (account ∷ []) [] post asset_type

    pub to_public : Option (AccountId r) → AssetType → TransferPost r.crypto → Dispatch (Unit {0})
    to_public origin asset_type post = do
      account ← ensure_signed origin
      ensure (to_public_shape post) (refuse Error.invalid_shape)
      for_each ensure_positive post.sinks
      post_transaction none [] (account ∷ []) post asset_type

    pub private_transfer :
        Option (AccountId r) → AssetType → TransferPost r.crypto → Dispatch (Unit {0})
    private_transfer origin asset_type post = do
      account ← ensure_signed origin
      ensure (private_shape post) (refuse Error.invalid_shape)
      post_transaction (some account) [] [] post asset_type

    pub private_transfer_asset :
        Option (AccountId r) → ℕ → AssetType → Bytes → TransferPost r.crypto → Dispatch (Unit {0})
    private_transfer_asset origin asset_id asset_type origin_zk_address post = do
      account ← ensure_signed origin
      ensure (private_shape post) (refuse Error.invalid_shape)
      metadata ← ok_or (r.get_metadata asset_id) (refuse public_update_invalid_mint)
      zk_address ←
          ok_or (metadata_view metadata).get_origin_zkaddress
            (refuse private_transfer_zk_address_not_exist)
      ensure (beq origin_zk_address zk_address) (refuse private_transfer_zk_address_not_match)
      origin_account ←
          ok_or (metadata_view metadata).get_origin_account
            (refuse private_transfer_account_not_exist)
      post_transaction (some account) [] [] post asset_type

  pub public_transfer : Option (AccountId r) → Asset → AccountId r → Dispatch (Unit {0})
  public_transfer origin asset sink = do
    account ← ensure_signed origin
    id ← ok_or (id_from_field asset.id) (refuse Error.invalid_asset_id)
    metadata ← ok_or (r.get_metadata id) (refuse public_update_unknown_asset)
    either (metadata_view metadata).is_fungible
        (do
          balance_error (
              on_balances r
                (Balance.transfer r.pallets id account sink (from_le_bytes asset.value) keep_alive))
          deposit_event (Event.transfer asset account sink))
        (do
          (collection_id, item_id) ←
              ok_or (metadata_view metadata).get_non_fungible_id
                (refuse public_update_unknown_asset)
          item_owner ← gets (λ w. owner r.items collection_id item_id w.items)
          holder ← ok_or item_owner (refuse public_update_unknown_asset)
          ensure (beq ⦃key = r.account_key⦄ holder account) (refuse public_update_invalid_transfer)
          balance_error (on_items r (Item.transfer r.items collection_id item_id sink))
          deposit_event (Event.transfer asset account sink))
