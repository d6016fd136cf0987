-- ===== src/MantaPay/Sample.antt =====
-- A small instance of the crates that pallets/manta-pay builds on, for the examples: numbers for the
-- types of the protocol, and a tree that counts its leaves.
pub mod Chain
use hackathon_parity_eu.Prelude.{
  ℕ, ◌+◌, ◌%◌, Option, none, some, [], ◌∷◌, Bytes, nat_key, replicate,
}
use hackathon_parity_eu.MantaPay.Pallet.{Crypto, Storage}

abbrev pub field : ℕ → Bytes
field n = n ∷ replicate 31 0

abbrev pub first_byte : Bytes → Option ℕ
first_byte [] = none
first_byte (b ∷ bs) = some b

abbrev pub numbers : Crypto
numbers = record {
  Fp = ℕ;
  RawUtxo = ℕ;
  Utxo = ℕ;
  utxo_key = nat_key;
  RawNote = ℕ;
  FullIncomingNote = ℕ;
  RawOutgoingNote = ℕ;
  OutgoingNote = ℕ;
  RawPath = ℕ;
  CurrentPath = ℕ;
  UtxoAccumulatorModel = ℕ;
  UtxoAccumulatorItemHash = ℕ;
  fp_encode = λ n. some (field n);
  fp_decode = first_byte;
  utxo_try_from = λ u. some u;
  note_try_from = λ n. some n;
  outgoing_note_try_from = λ n. some n;
  path_decode = λ p. some p;
  path_encode = λ p. some p;
  default_path = 0;
  leaf_index = λ p. p;
  get_utxo_accumulator_model = some (0 ∷ []);
  decode_utxo_accumulator_model = first_byte;
  get_utxo_accumulator_item_hash = some (0 ∷ []);
  decode_utxo_accumulator_item_hash = first_byte;
  item_hash = λ h u. u;
  tree_index = λ n. n % 256;
  merkle_insert = λ m leaf path item. some (item, some item, path + 1);
}

abbrev pub empty : Storage numbers
empty = record {
  utxo_set = [];
  shards = [];
  shard_trees = [];
  utxo_accumulator_outputs = [];
  nullifier_commitment_set = [];
  nullifier_set_insertion_order = [];
  nullifier_set_size = 0;
}
