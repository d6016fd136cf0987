-- ===== src/MantaPay/Pull/Examples.antt =====
-- The pulls of pallets/manta-pay at concrete inputs.
use hackathon_parity_eu.Prelude.{
  ℕ, ◌-◌, ◌^◌, ◌≡◌, refl, arith, true, [], ◌∷◌, StorageMap, lookup, min, ltb, length, take, nat_key,
  nat_pair_key, ℕ_discrete, nat_pair_discrete, if◌then◌else◌, ◌==◌,
}
use hackathon_parity_eu.MantaPay.Pull.{
  pull_senders, senders_loop, pull_receivers, pull_receivers_for_shard, shards_loop, shard_loop,
  pull_max_sender_update_size, pull_max_receiver_update_size,
}
use hackathon_parity_eu.MantaPay.Pull.Exact.{entries_from, pull_senders_lem}
use hackathon_parity_eu.MantaPay.Pull.Receivers.{receivers_from, AreDense, pull_receivers_lem}

abbrev order : StorageMap ℕ ℕ
order = (2, 30) ∷ (1, 20) ∷ (0, 10) ∷ []

pull_senders_test : pull_senders order 1 1 ≡ (true, 20 ∷ [])
unfolding pull_senders senders_loop ℕ_discrete
pull_senders_test = refl

pull_senders_lem_example : pull_senders order 1 5 ≡ (
  ltb (min 5 pull_max_sender_update_size) (length (entries_from (λ i. lookup i order) 3 1)),
  take (min 5 pull_max_sender_update_size) (entries_from (λ i. lookup i order) 3 1),
)
pull_senders_lem_example = pull_senders_lem order 3 1 5 (λ i. ground arith) (omega arith)

abbrev shards : StorageMap (ℕ × ℕ) ℕ
shards = ((0, 0), 10) ∷ ((1, 0), 20) ∷ ((1, 1), 21) ∷ []

abbrev sizes : ℕ → ℕ
sizes shard = if shard == 0 then 1 else if shard == 1 then 2 else 0

pull_receivers_test : pull_receivers shards (0 ∷ 0 ∷ []) 2 ≡ (true, 10 ∷ 20 ∷ [])
unfolding pull_receivers pull_receivers_for_shard shards_loop shard_loop nat_pair_discrete
    ℕ_discrete
pull_receivers_test = refl

shards-AreDense : AreDense shards sizes
shards-AreDense shard i = ground arith

pull_receivers_lem_example : pull_receivers shards (0 ∷ 0 ∷ []) 2 ≡ (
  ltb (min 2 pull_max_receiver_update_size) (length (receivers_from shards sizes (0 ∷ 0 ∷ []) 0)),
  take (min 2 pull_max_receiver_update_size) (receivers_from shards sizes (0 ∷ 0 ∷ []) 0),
)
pull_receivers_lem_example =
    pull_receivers_lem shards sizes (0 ∷ 0 ∷ []) 2 shards-AreDense (omega arith, (omega arith, tt))

-- The end of the range wraps around to 1, where there is an entry.
wrapped_test : pull_senders order (2 ^ 64 - 1) 2 ≡ (true, [])
unfolding pull_senders senders_loop ℕ_discrete
wrapped_test = refl
