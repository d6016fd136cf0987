-- ===== src/MantaPay/Transfer.antt =====
-- pallets/manta-pay/src/ledgers and `get_metadata` of src/impl_pay.rs: the public side of a transfer,
-- by the ledgers of fungible and of non-fungible assets.
pub mod Fungible
pub mod NonFungible
pub mod Examples
use hackathon_parity_eu.Prelude.{
  ℕ, Bool, true, false, Option, none, some, List, [], ◌∷◌, Bytes, Key, Result, ok, err, Call, pure,
  fail, gets, ensure, ok_or, ◌>>=◌, ◌>>◌,
}
use hackathon_parity_eu.Assets.Metadata.{AssetStorageMetadata, metadata_view}
use hackathon_parity_eu.Assets.Ledger.{Pallets, Balances, FungibleLedgerError, map_err}
use hackathon_parity_eu.Assets.NonFungible.{Items}
use hackathon_parity_eu.MantaPay.Pallet.{Crypto, Storage}
use hackathon_parity_eu.MantaPay.AssetId.{id_from_field}
use hackathon_parity_eu.MantaPay.Post.{Codecs, Asset}
use hackathon_parity_eu.MantaPay.Errors.{
  TransferLedgerError, verifying_context_decode_error, proof_system_error, invalid_proof,
}

pub data TransferShape : Type 0 where
  to_private private_transfer to_public : TransferShape

-- The runtime around the pallet: the crates, the pallets of balances and items, the asset registry, the
-- verifying contexts, and the check of a proof.
pub record Runtime : Type 1 where
  pub crypto : Crypto
  pub codecs : Codecs crypto
  pub pallets : Pallets
  pub account_key : Key pallets.AccountId
  pub items : Items pallets.AccountId pallets.DispatchError
  -- `AssetRegistry::get_metadata`
  pub get_metadata : ℕ → Option (AssetStorageMetadata ℕ ℕ ℕ ℕ pallets.AccountId)
  pub account_id : pallets.AccountId
  pub VerifyingContext : Type 0
  pub get_to_private : Option Bytes
  pub get_private_transfer : Option Bytes
  pub get_to_public : Option Bytes
  pub decode_verifying_context : Bytes → Option VerifyingContext

-- A panic, and an error that is returned.
pub data Fault (E : Type 0) : Type 0 where
  panic : Fault E
  error : E → Fault E

-- `expect`, of an option and of a result.
abbrev pub expect : {S E A : Type 0} → Option A → Call S (Fault E) A
expect o = ok_or o panic

abbrev pub expect_ok : {S E F A : Type 0} → Result F A → Call S (Fault E) A
expect_ok (ok a) = pure a
expect_ok (err e) = fail panic

-- An error that `?` passes on after a conversion, and one that `expect` meets.
abbrev pub returned : {S E F A : Type 0} → (E → F) → Call S E A → Call S (Fault F) A
returned f m s = elim (m s) [ ok r ↦ ok r | err e ↦ err (error (f e)) ]

abbrev pub expected : {S E F A : Type 0} → Call S E A → Call S (Fault F) A
expected m s = elim (m s) [ ok r ↦ ok r | err e ↦ err panic ]

module _ (r : Runtime) where
  abbrev pub AccountId : Type 0
  AccountId = r.pallets.AccountId

  abbrev pub Metadata : Type 0
  Metadata = AssetStorageMetadata ℕ ℕ ℕ ℕ AccountId

  abbrev pub LedgerError : Type 0
  LedgerError = TransferLedgerError ℕ ℕ r.pallets.DispatchError

  pub data PreprocessedEvent : Type 0 where
    to_private : Asset → AccountId → PreprocessedEvent
    private_transfer : PreprocessedEvent
    to_public : Asset → AccountId → PreprocessedEvent

  pub data Event : Type 0 where
    to_private : Asset → AccountId → Event
    to_public : Asset → AccountId → Event
    private_transfer : Option AccountId → Event
    transfer : Asset → AccountId → AccountId → Event

  -- `PreprocessedEvent::convert`
  unfoldable pub convert : PreprocessedEvent → Option AccountId → Event
  convert (PreprocessedEvent.to_private asset source) origin = Event.to_private asset source
  convert PreprocessedEvent.private_transfer origin = Event.private_transfer origin
  convert (PreprocessedEvent.to_public asset sink) origin = Event.to_public asset sink

  -- The storage that an extrinsic of the pallet changes.
  pub record World : Type 0 where
    pub pay : Storage r.crypto
    pub balances : Balances r.pallets
    pub items : r.items.Store
    pub events : List Event

  abbrev pub LedgerAction : Type 0 → Type 0
  LedgerAction A = Call World (Fault LedgerError) A

  abbrev pub on_balances : {E A : Type 0} → Call (Balances r.pallets) E A → Call World E A
  on_balances m w = elim (m w.balances) [
    | ok (a, b) ↦ ok (a, record w { balances = b })
    | err e ↦ err e
  ]

  abbrev pub on_items : {E A : Type 0} → Call r.items.Store E A → Call World E A
  on_items m w = elim (m w.items) [ ok (a, b) ↦ ok (a, record w { items = b }) | err e ↦ err e ]

  -- `TransferPostingKeyRef`, of the crate, with the shape that it has and the check of its proof.
  pub record PostingKey : Type 0 where
    pub asset_id : Option r.crypto.Fp
    pub sources : List (AccountId × ℕ)
    pub sinks : List (AccountId × ℕ)
    pub shape : Option TransferShape
    pub has_valid_proof : r.VerifyingContext → Option Bool

  -- `Pallet::get_metadata`
  unfoldable pub get_metadata :
      r.crypto.Fp → Result (FungibleLedgerError ℕ ℕ r.pallets.DispatchError) Metadata
  get_metadata asset_id = elim (r.crypto.fp_encode asset_id) [
    | none ↦ err FungibleLedgerError.encode_error
    | some field ↦ elim (id_from_field field) [
      | none ↦ err FungibleLedgerError.unknown_asset
      | some id ↦ elim (r.get_metadata id) [
        | none ↦ err FungibleLedgerError.unknown_asset
        | some metadata ↦ ok metadata
      ]
    ]
  ]

  -- `Asset::new(asset_id, asset_value_encode(value))`, at the first of the accounts; the index panics.
  abbrev pub first_account : List (AccountId × ℕ) → LedgerAction (AccountId × ℕ)
  first_account [] = fail panic
  first_account (a ∷ rest) = pure a

  -- An account that a check refuses: `InvalidSourceAccount` and `InvalidSinkAccount`.
  pub record InvalidAccount : Type 0 where
    pub account_id : AccountId
    pub asset_id : r.crypto.Fp
    pub amount : ℕ

  -- A check of every account in turn, up to the first that fails.
  abbrev pub check_accounts :
      r.crypto.Fp
      → (AccountId → ℕ → Balances r.pallets → Bool)
      → List (AccountId × ℕ)
      → Call World (Fault InvalidAccount) (List (AccountId × ℕ))
  check_accounts asset_id accepts [] = pure []
  check_accounts asset_id accepts ((account_id, amount) ∷ accounts) = do
    accepted ← gets (λ w. accepts account_id amount w.balances)
    ensure accepted
        (error (record { account_id = account_id; asset_id = asset_id; amount = amount }))
    rest ← check_accounts asset_id accepts accounts
    pure ((account_id, amount) ∷ rest)

  abbrev pub is_ok : {E A : Type 0} → Result E A → Bool
  is_ok (ok a) = true
  is_ok (err e) = false

  -- The end of `is_valid`, which the two ledgers share.
  pub check_proof : PostingKey → Bytes → PreprocessedEvent → LedgerAction PreprocessedEvent
  check_proof posting_key verifying_context event = do
    context ←
        ok_or (r.decode_verifying_context verifying_context) (error verifying_context_decode_error)
    verification ← ok_or (posting_key.has_valid_proof context) (error proof_system_error)
    ensure verification (error invalid_proof)
    pure event
