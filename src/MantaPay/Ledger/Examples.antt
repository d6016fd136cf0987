-- ===== src/MantaPay/Ledger/Examples.antt =====
-- Tests of the ledger of pallets/manta-pay, and the properties at concrete inputs.
use hackathon_parity_eu.Prelude.{
  ◌+◌, ◌≡◌, refl, arith, ◌||◌, some, List, [], ◌∷◌, ok, err, contains_key, length, bytes_key,
  nat_key, bytes_discrete, ℕ_discrete, nat_pair_discrete,
}
use hackathon_parity_eu.MantaPay.Pallet.{Nullifier, Storage, asset_spent, asset_registered}
use hackathon_parity_eu.MantaPay.Sample.{numbers, empty, field}
use hackathon_parity_eu.MantaPay.Ledger.{
  spend_all, spend_loop, is_unspent, register_all, insert_groups, insert_group, insert_loop,
  tree_or_default, decode_digest, encode_digest, save_root, group_by_shard, push_last, sort_by_key,
  insert_sorted, with_shard, is_not_registered, Posting,
}
use hackathon_parity_eu.MantaPay.Ledger.Spend.{nullifier_at, spend_all-IsDense, spend_all-once}
use hackathon_parity_eu.MantaPay.Ledger.Register.{
  posts, any, register_all-registered, register_all-once,
}
use hackathon_parity_eu.MantaPay.Pull.Exact.{IsDense}

abbrev coins : List (Nullifier numbers)
coins =
    record { commitment = 7; outgoing_note = 1 } ∷ record { commitment = 9; outgoing_note = 2 } ∷ []

abbrev more_coins : List (Nullifier numbers)
more_coins = record { commitment = 11; outgoing_note = 3 } ∷ []

abbrev after_coins : Storage numbers
after_coins = record empty {
  nullifier_commitment_set = (field 9, tt) ∷ (field 7, tt) ∷ [];
  nullifier_set_insertion_order = (1, (field 9, 2)) ∷ (0, (field 7, 1)) ∷ [];
  nullifier_set_size = 2;
}

after_coins_test : spend_all numbers coins empty ≡ ok (tt, after_coins)
unfolding spend_all spend_loop bytes_discrete ℕ_discrete
after_coins_test = refl

abbrev after_more : Storage numbers
after_more = record empty {
  nullifier_commitment_set = (field 11, tt) ∷ (field 9, tt) ∷ (field 7, tt) ∷ [];
  nullifier_set_insertion_order = (2, (field 11, 3)) ∷ (1, (field 9, 2)) ∷ (0, (field 7, 1)) ∷ [];
  nullifier_set_size = 3;
}

after_more_test : spend_all numbers more_coins after_coins ≡ ok (tt, after_more)
unfolding spend_all spend_loop bytes_discrete ℕ_discrete
after_more_test = refl

spend_all-once_example :
    is_unspent numbers (record { commitment = 9; outgoing_note = 5 }) after_more ≡ err asset_spent
unfolding bytes_discrete ℕ_discrete
spend_all-once_example =
    spend_all-once numbers (record { commitment = 9; outgoing_note = 5 }) (field 9) coins more_coins
      empty after_coins after_more refl refl after_coins_test after_more_test

coins-IsDense : IsDense (nullifier_at numbers after_coins) 2
coins-IsDense i = ground arith

spend_all-IsDense_example :
    (after_more.nullifier_set_size ≡ after_coins.nullifier_set_size + length more_coins)
    × IsDense (nullifier_at numbers after_more) after_more.nullifier_set_size
spend_all-IsDense_example =
    spend_all-IsDense numbers more_coins after_coins after_more after_more_test (ground arith)
      coins-IsDense

abbrev postings : List (Posting numbers)
postings = (7, 1) ∷ (263, 2) ∷ (5, 3) ∷ []

-- UTXOs 7 and 263 go to one shard, in this order, after UTXO 5 of a lower shard.
abbrev registered : Storage numbers
registered = record empty {
  utxo_set = (263, tt) ∷ (7, tt) ∷ (5, tt) ∷ [];
  shards = ((7, 2), (263, 2)) ∷ ((7, 1), (7, 1)) ∷ ((5, 1), (5, 3)) ∷ [];
  shard_trees =
      (7, record { leaf_digest = some (field 263); current_path = 2 })
      ∷ (5, record { leaf_digest = some (field 5); current_path = 1 })
      ∷ [];
  utxo_accumulator_outputs = (field 263, tt) ∷ (field 5, tt) ∷ [];
}

registered_test : register_all numbers postings empty ≡ ok (tt, registered)
unfolding register_all insert_groups insert_group insert_loop tree_or_default decode_digest
    encode_digest save_root group_by_shard push_last sort_by_key insert_sorted with_shard
    bytes_discrete ℕ_discrete nat_pair_discrete
registered_test = refl

abbrev registered_twice : Storage numbers
registered_twice = record registered {
  utxo_set = (6, tt) ∷ registered.utxo_set;
  shards = ((6, 1), (6, 9)) ∷ registered.shards;
  shard_trees =
      (6, record { leaf_digest = some (field 6); current_path = 1 }) ∷ registered.shard_trees;
  utxo_accumulator_outputs = (field 6, tt) ∷ registered.utxo_accumulator_outputs;
}

registered_twice_test : register_all numbers ((6, 9) ∷ []) registered ≡ ok (tt, registered_twice)
unfolding register_all insert_groups insert_group insert_loop tree_or_default decode_digest
    encode_digest save_root group_by_shard push_last sort_by_key insert_sorted with_shard
    bytes_discrete ℕ_discrete nat_pair_discrete
registered_twice_test = refl

register_all-registered_example :
    contains_key 263 registered.utxo_set
    ≡ (any (posts numbers 263) postings || contains_key 263 empty.utxo_set)
register_all-registered_example =
    register_all-registered numbers 263 postings empty registered registered_test

register_all-once_example : is_not_registered numbers 263 registered_twice ≡ err asset_registered
unfolding ℕ_discrete
register_all-once_example =
    register_all-once numbers 263 263 postings ((6, 9) ∷ []) empty registered registered_twice refl
      refl registered_test registered_twice_test
