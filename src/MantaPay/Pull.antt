-- ===== src/MantaPay/Pull.antt =====
-- pallets/manta-pay/src/impl_pay.rs, `pull_receivers`, `pull_senders` and `pull_ledger_diff`: what a
-- wallet reads from the ledger. The maps of receivers and of senders are the parameters. The end
-- of a range of indices wraps around at 64 bits, and a range that ends before it starts is empty; a
-- shard index is its place in the list of 256 receiver indices.
pub mod Exact
pub mod Receivers
pub mod Examples
use hackathon_parity_eu.Prelude.{
  ℕ, zero, suc, ◌+◌, ◌-◌, ◌%◌, ◌^◌, Bool, true, false, ◌&&◌, ◌||◌, Option, none, some, List, [],
  ◌∷◌, ◌++◌, StorageMap, lookup, contains_key, nat_key, nat_pair_key, ltb, ◌==◌, if◌then◌else◌,
}

-- `PULL_MAX_RECEIVER_UPDATE_SIZE` and `PULL_MAX_SENDER_UPDATE_SIZE`.
abbrev pub pull_max_receiver_update_size : ℕ
pull_max_receiver_update_size = 32768

abbrev pub pull_max_sender_update_size : ℕ
pull_max_sender_update_size = 32768

module _ {R : Type 0} (shards : StorageMap (ℕ × ℕ) R) where
  -- The loop over the indices of a shard: `rounds` are left, `idx` is the next one and `end` is
  -- `max_receiver_index`.
  shard_loop : ℕ → ℕ → ℕ → ℕ → ℕ → List R → ℕ → Bool × List R × ℕ
  shard_loop zero shard idx end max_update receivers pulled =
      (contains_key (shard, end) shards, receivers, pulled)
  shard_loop (suc rounds) shard idx end max_update receivers pulled =
      let rest = λ (next : R).
        shard_loop rounds shard (idx + 1) end max_update (receivers ++ next ∷ []) (pulled + 1) in
      if pulled == max_update
      then (contains_key (shard, idx) shards, receivers, pulled)
      else elim (lookup (shard, idx) shards) [
        | some next ↦ rest next
        | none ↦ (false, receivers, pulled)
      ]

  -- The result is the flag, with the new `receivers` and `receivers_pulled`.
  pub pull_receivers_for_shard : ℕ → ℕ → ℕ → List R → ℕ → Bool × List R × ℕ
  unfolding shard_loop
  pull_receivers_for_shard shard receiver_index max_update receivers pulled =
      let max_receiver_index = (receiver_index + max_update) % 2 ^ 64 in
      shard_loop (max_receiver_index - receiver_index) shard receiver_index max_receiver_index
        max_update receivers pulled

  -- The loop over the shards, from the shard `shard` on.
  pub shards_loop : List ℕ → ℕ → ℕ → Bool → List R → ℕ → Bool × List R
  shards_loop [] shard max_update more receivers pulled = (more, receivers)
  shards_loop (utxo_index ∷ indices) shard max_update more receivers pulled =
      let (found, receivers', pulled') =
        pull_receivers_for_shard shard utxo_index max_update receivers pulled in
      let more' = more || found in
      let rest = shards_loop indices (shard + 1) max_update more' receivers' pulled' in
      if pulled' == max_update && more' then (more', receivers') else rest

  pub pull_receivers : List ℕ → ℕ → Bool × List R
  unfolding shards_loop
  pull_receivers receiver_indices max_update_request =
      let max_update =
        (if ltb pull_max_receiver_update_size max_update_request
          then pull_max_receiver_update_size
          else max_update_request) in
      shards_loop receiver_indices 0 max_update false [] 0

module _ {N : Type 0} (order : StorageMap ℕ N) where
  -- The loop over the sender indices: `rounds` are left, `idx` is the next one and `end` is
  -- `max_sender_index`.
  senders_loop : ℕ → ℕ → ℕ → List N → Bool × List N
  senders_loop zero idx end senders = (contains_key end order, senders)
  senders_loop (suc rounds) idx end senders = elim (lookup idx order) [
    | some next ↦ senders_loop rounds (idx + 1) end (senders ++ next ∷ [])
    | none ↦ (false, senders)
  ]

  pub pull_senders : ℕ → ℕ → Bool × List N
  unfolding senders_loop
  pull_senders sender_index max_update_request =
      let max_sender_index =
        (if ltb pull_max_sender_update_size max_update_request
          then (sender_index + pull_max_sender_update_size) % 2 ^ 64
          else (sender_index + max_update_request) % 2 ^ 64) in
      senders_loop (max_sender_index - sender_index) sender_index max_sender_index []

-- `PullResponse`, over the entries; `leaf_indices` are those of the 256 shard trees.
pub record PullResponse (R N : Type 0) : Type 0 where
  pub should_continue : Bool
  pub receivers : List R
  pub senders : List N
  pub senders_receivers_total : ℕ

sum : List ℕ → ℕ
sum [] = 0
sum (n ∷ ns) = n + sum ns

module _ {R N : Type 0} (shards : StorageMap (ℕ × ℕ) R) (order : StorageMap ℕ N) where
  pub pull_ledger_diff : List ℕ → ℕ → List ℕ → ℕ → ℕ → ℕ → PullResponse R N
  unfolding sum
  pull_ledger_diff leaf_indices nullifier_set_size receiver_index sender_index max_receivers
        max_senders =
      let (more_receivers, receivers) = pull_receivers shards receiver_index max_receivers in
      let (more_senders, senders) = pull_senders order sender_index max_senders in
      record {
        should_continue = more_receivers || more_senders;
        receivers = receivers;
        senders = senders;
        senders_receivers_total = sum leaf_indices + nullifier_set_size;
      }
