-- ===== src/MantaPay/Pallet.antt =====
-- The storage of pallets/manta-pay/src/lib.rs, the errors of src/errors.rs, and what the pallet takes
-- from the `manta-pay` crates: the record `Crypto`.
use hackathon_parity_eu.Prelude.{ℕ, Option, StorageMap, Key, Bytes}

-- The types of the protocol, their codecs (`none` is a codec error) and the Merkle tree of a shard.
-- `merkle_insert` gives the new root, leaf digest and path, or `none` when the tree is full.
pub record Crypto : Type 1 where
  pub Fp : Type 0
  pub RawUtxo : Type 0
  pub Utxo : Type 0
  pub utxo_key : Key Utxo
  pub RawNote : Type 0
  pub FullIncomingNote : Type 0
  pub RawOutgoingNote : Type 0
  pub OutgoingNote : Type 0
  pub RawPath : Type 0
  pub CurrentPath : Type 0
  pub UtxoAccumulatorModel : Type 0
  pub UtxoAccumulatorItemHash : Type 0
  pub fp_encode : Fp → Option Bytes
  pub fp_decode : Bytes → Option Fp
  pub utxo_try_from : RawUtxo → Option Utxo
  pub note_try_from : RawNote → Option FullIncomingNote
  pub outgoing_note_try_from : RawOutgoingNote → Option OutgoingNote
  pub path_decode : CurrentPath → Option RawPath
  pub path_encode : RawPath → Option CurrentPath
  pub default_path : CurrentPath
  pub leaf_index : RawPath → ℕ
  pub get_utxo_accumulator_model : Option Bytes
  pub decode_utxo_accumulator_model : Bytes → Option UtxoAccumulatorModel
  pub get_utxo_accumulator_item_hash : Option Bytes
  pub decode_utxo_accumulator_item_hash : Bytes → Option UtxoAccumulatorItemHash
  pub item_hash : UtxoAccumulatorItemHash → RawUtxo → Fp
  pub tree_index : Fp → ℕ
  pub merkle_insert :
      UtxoAccumulatorModel → Option Fp → RawPath → Fp → Option (Fp × Option Fp × RawPath)

-- The errors of the ledgers, without the codec errors that they carry.
pub data SenderLedgerError : Type 0 where
  fp_encode_error outgoing_note_decode_error asset_spent : SenderLedgerError
  invalid_utxo_accumulator_output : SenderLedgerError

pub data ReceiverLedgerError : Type 0 where
  utxo_decode_error checksum_error mt_parameters_decode_error : ReceiverLedgerError
  utxo_accumulator_item_hash_decode_error merkle_tree_capacity_error : ReceiverLedgerError
  fp_encode_error fp_decode_error path_decode_error full_note_decode_error : ReceiverLedgerError
  asset_registered : ReceiverLedgerError

module _ (k : Crypto) where
  -- `config::Nullifier`.
  pub record Nullifier : Type 0 where
    pub commitment : k.Fp
    pub outgoing_note : k.RawOutgoingNote

  -- `UtxoMerkleTreePath`.
  pub record UtxoMerkleTreePath : Type 0 where
    pub leaf_digest : Option Bytes
    pub current_path : k.CurrentPath

  pub record Storage : Type 0 where
    pub utxo_set : StorageMap k.Utxo (Unit {0})
    pub shards : StorageMap (ℕ × ℕ) (k.Utxo × k.FullIncomingNote)
    pub shard_trees : StorageMap ℕ UtxoMerkleTreePath
    pub utxo_accumulator_outputs : StorageMap Bytes (Unit {0})
    pub nullifier_commitment_set : StorageMap Bytes (Unit {0})
    pub nullifier_set_insertion_order : StorageMap ℕ (Bytes × k.OutgoingNote)
    pub nullifier_set_size : ℕ
