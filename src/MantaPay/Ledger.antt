-- ===== src/MantaPay/Ledger.antt =====
-- pallets/manta-pay/src/ledger.rs, `ProxyLedger`: the checks and the updates of nullifiers and UTXOs.
pub mod Spend
pub mod Register
pub mod Examples
use hackathon_parity_eu.Prelude.{
  ℕ, zero, suc, ◌+◌, ◌%◌, ◌^◌, Bool, true, false, not, ◌||◌, Option, none, some, List, [], ◌∷◌,
  ◌++◌, map, StorageMap, Key, Bytes, lookup, insert, contains_key, beq, bytes_key, nat_key,
  nat_pair_key, Call, pure, gets, modify, ensure, ok_or, ◌>>=◌, ◌>>◌, for_each, replicate, ltb, leb,
  ◌==◌, if◌then◌else◌,
}
use hackathon_parity_eu.MantaPay.Pallet.{
  Crypto, SenderLedgerError, ReceiverLedgerError, Nullifier, UtxoMerkleTreePath, Storage,
  outgoing_note_decode_error, asset_spent, invalid_utxo_accumulator_output, utxo_decode_error,
  checksum_error, mt_parameters_decode_error, utxo_accumulator_item_hash_decode_error,
  merkle_tree_capacity_error, fp_decode_error, path_decode_error, full_note_decode_error,
  asset_registered,
}

-- Rust's stable `sort_by_key`, at a key that is a number, as an insertion sort.
module _ {ℓ} {A : Type ℓ} (key : A → ℕ) where
  pub insert_sorted : A → List A → List A
  insert_sorted a [] = a ∷ []
  insert_sorted a (b ∷ bs) = if leb (key a) (key b) then a ∷ b ∷ bs else b ∷ insert_sorted a bs

  pub sort_by_key : List A → List A
  unfolding insert_sorted
  sort_by_key [] = []
  sort_by_key (a ∷ bs) = insert_sorted a (sort_by_key bs)

module _ (k : Crypto) where
  instance abbrev utxo_key : Key k.Utxo
  utxo_key = k.utxo_key

  abbrev pub SenderAction : Type 0 → Type 0
  SenderAction A = Call (Storage k) SenderLedgerError A

  abbrev pub ReceiverAction : Type 0 → Type 0
  ReceiverAction A = Call (Storage k) ReceiverLedgerError A

  pub is_unspent : Nullifier k → SenderAction (Nullifier k)
  is_unspent nullifier = do
    commitment ← ok_or (k.fp_encode nullifier.commitment) SenderLedgerError.fp_encode_error
    spent ← gets (λ s. contains_key commitment s.nullifier_commitment_set)
    ensure (not spent) asset_spent
    pure nullifier

  pub has_matching_utxo_accumulator_output : k.Fp → SenderAction k.Fp
  has_matching_utxo_accumulator_output output = do
    accumulator_output ← ok_or (k.fp_encode output) SenderLedgerError.fp_encode_error
    known ← gets (λ s. contains_key accumulator_output s.utxo_accumulator_outputs)
    ensure (beq accumulator_output (replicate 32 0) || known) invalid_utxo_accumulator_output
    pure output

  -- The loop of `spend_all`; its result is the number of nullifiers.
  pub spend_loop : ℕ → ℕ → List (Nullifier k) → SenderAction ℕ
  spend_loop index i [] = pure i
  spend_loop index i (nullifier ∷ nullifiers) = do
    commitment ← ok_or (k.fp_encode nullifier.commitment) SenderLedgerError.fp_encode_error
    modify
        λ s. record s { nullifier_commitment_set = insert commitment tt s.nullifier_commitment_set }
    note ← ok_or (k.outgoing_note_try_from nullifier.outgoing_note) outgoing_note_decode_error
    modify λ s. record s {
      nullifier_set_insertion_order =
          insert ((index + i) % 2 ^ 64) (commitment, note) s.nullifier_set_insertion_order;
    }
    spend_loop index (i + 1) nullifiers

  pub spend_all : List (Nullifier k) → SenderAction (Unit {0})
  spend_all nullifiers = do
    index ← gets (λ s. s.nullifier_set_size)
    i ← spend_loop index 0 nullifiers
    modify λ s. if i == 0 then s else record s { nullifier_set_size = (index + i) % 2 ^ 64 }

  pub is_not_registered : k.RawUtxo → ReceiverAction k.RawUtxo
  is_not_registered utxo = do
    stored ← ok_or (k.utxo_try_from utxo) utxo_decode_error
    registered ← gets (λ s. contains_key stored s.utxo_set)
    ensure (not registered) asset_registered
    pure utxo

  abbrev pub Posting : Type 0
  Posting = k.RawUtxo × k.RawNote

  -- `shard_insertions`: the sorted postings, pushed one by one on the list of the last shard.
  abbrev pub Groups : Type 0
  Groups = List (ℕ × List Posting)

  pub push_last : ℕ → Posting → Groups → Groups
  push_last shard posting [] = (shard, posting ∷ []) ∷ []
  push_last shard posting ((index, pairs) ∷ []) =
      if shard == index
      then (index, pairs ++ posting ∷ []) ∷ []
      else (index, pairs) ∷ (shard, posting ∷ []) ∷ []
  push_last shard posting (group ∷ next ∷ groups) = group ∷ push_last shard posting (next ∷ groups)

  pub group_by_shard : List (ℕ × Posting) → Groups → Groups
  unfolding push_last
  group_by_shard [] groups = groups
  group_by_shard ((shard, posting) ∷ rest) groups =
      group_by_shard rest (push_last shard posting groups)

  -- What the loop over the insertions of a shard carries: `next_root`, `leaf_digest` and
  -- `current_path`.
  abbrev pub TreeState : Type 0
  TreeState = Option k.Fp × Option k.Fp × k.RawPath

  module _ (model : k.UtxoAccumulatorModel) (hash : k.UtxoAccumulatorItemHash) where
    pub insert_loop : ℕ → List Posting → TreeState → ReceiverAction TreeState
    insert_loop shard [] st = pure st
    insert_loop shard ((utxo, note) ∷ insertions) (next_root, leaf_digest, current_path) = do
      (root, digest, path) ←
          ok_or (k.merkle_insert model leaf_digest current_path (k.item_hash hash utxo))
            merkle_tree_capacity_error
      stored ← ok_or (k.utxo_try_from utxo) utxo_decode_error
      modify λ s. record s { utxo_set = insert stored tt s.utxo_set }
      full_note ← ok_or (k.note_try_from note) full_note_decode_error
      modify
          λ s. record s { shards = insert (shard, k.leaf_index path) (stored, full_note) s.shards }
      insert_loop shard insertions (some root, digest, path)

    pub tree_or_default : Option (UtxoMerkleTreePath k) → UtxoMerkleTreePath k
    tree_or_default none = record { leaf_digest = none; current_path = k.default_path }
    tree_or_default (some tree) = tree

    pub decode_digest : Option Bytes → ReceiverAction (Option k.Fp)
    decode_digest none = pure none
    decode_digest (some x) = ok_or (k.fp_decode x) fp_decode_error >>= λ fp. pure (some fp)

    pub encode_digest : Option k.Fp → ReceiverAction (Option Bytes)
    encode_digest none = pure none
    encode_digest (some fp) =
        ok_or (k.fp_encode fp) ReceiverLedgerError.fp_encode_error >>= λ x. pure (some x)

    pub save_root : ℕ → UtxoMerkleTreePath k → Option k.Fp → ReceiverAction (Unit {0})
    save_root shard tree none = pure tt
    save_root shard tree (some root) = do
      modify λ s. record s { shard_trees = insert shard tree s.shard_trees }
      output ← ok_or (k.fp_encode root) ReceiverLedgerError.fp_encode_error
      modify
          λ s. record s { utxo_accumulator_outputs = insert output tt s.utxo_accumulator_outputs }

    -- The body of the loop over `shard_insertions`.
    pub insert_group : ℕ × List Posting → ReceiverAction (Unit {0})
    insert_group (shard, insertions) = do
      tree ← gets (λ s. tree_or_default (lookup shard s.shard_trees))
      current_path ← ok_or (k.path_decode tree.current_path) path_decode_error
      leaf_digest ← decode_digest tree.leaf_digest
      (next_root, digest, path) ← insert_loop shard insertions (none, leaf_digest, current_path)
      saved_path ← ok_or (k.path_encode path) path_decode_error
      saved_digest ← encode_digest digest
      save_root shard (record { leaf_digest = saved_digest; current_path = saved_path }) next_root

    pub insert_groups : Groups → ReceiverAction (Unit {0})
    insert_groups [] = pure tt
    insert_groups (group ∷ groups) = insert_group group >> insert_groups groups

    pub with_shard : Posting → ℕ × Posting
    with_shard (utxo, note) = (k.tree_index (k.item_hash hash utxo), (utxo, note))

  pub register_all : List Posting → ReceiverAction (Unit {0})
  unfolding with_shard
  register_all postings = do
    model_bytes ← ok_or k.get_utxo_accumulator_model checksum_error
    model ← ok_or (k.decode_utxo_accumulator_model model_bytes) mt_parameters_decode_error
    hash_bytes ← ok_or k.get_utxo_accumulator_item_hash checksum_error
    hash ←
        ok_or (k.decode_utxo_accumulator_item_hash hash_bytes)
          utxo_accumulator_item_hash_decode_error
    insert_groups model hash
        (group_by_shard (sort_by_key (λ e. e.0) (map (with_shard model hash) postings)) [])
