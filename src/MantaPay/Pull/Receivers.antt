-- ===== src/MantaPay/Pull/Receivers.antt =====
-- `pull_receivers` of pallets/manta-pay returns exactly the first receivers that a wallet lacks.
use hackathon_parity_eu.Prelude.{
  ℕ, zero, suc, ◌+◌, ◌-◌, ◌%◌, ◌^◌, ◌<◌, ◌≤◌, All, min, ◌≡◌, refl, subst, Bool, true, false, ◌&&◌,
  Option, List, [], ◌∷◌, ◌++◌, StorageMap, lookup, nat_pair_key, ltb, ◌==◌, if◌then◌else◌, arith,
  length, take, Bool-cases, inl, inr, length-append, take-append_le, take-append_ge, take_all,
}
use mathlib.Core.List.{append-nil, append_assoc}
use hackathon_parity_eu.MantaPay.Pull.{
  shard_loop, pull_receivers_for_shard, shards_loop, pull_receivers, pull_max_receiver_update_size,
}
use hackathon_parity_eu.MantaPay.Pull.Exact.{IsDense, entries_from, entries_from-cases}

module _ {R : Type 0} (shards : StorageMap (ℕ × ℕ) R) (size : ℕ → ℕ) where
  abbrev receiver : ℕ → ℕ → Option R
  receiver shard i = lookup (shard, i) shards

  -- All receivers from the given index of each shard on, shard by shard.
  pub receivers_from : List ℕ → ℕ → List R
  receivers_from [] shard = []
  receivers_from (i ∷ is) shard =
      entries_from (receiver shard) (size shard) i ++ receivers_from is (shard + 1)

  abbrev pub AreDense : Type 0
  AreDense = (shard : ℕ) → IsDense (receiver shard) (size shard)

  shard_loop_lem :
      (rounds shard i end max_update : ℕ) (acc : List R) (pulled k : ℕ)
      → AreDense
      → i + rounds ≡ end
      → pulled + k ≡ max_update
      → k ≤ rounds
      → let all = entries_from (receiver shard) (size shard) i in
        shard_loop shards rounds shard i end max_update acc pulled
        ≡ (ltb k (length all), acc ++ take k all, pulled + min k (length all))
  unfolding shard_loop
  shard_loop_lem zero shard i end max_update acc pulled (suc k) d at e h = elim h [ ]
  shard_loop_lem zero shard i end max_update acc pulled zero d at e h =
      let same : end ≡ i = omega arith in
      elim (entries_from-cases (receiver shard) (size shard) i (d shard)) [
        | inl (v, e', f) ↦ rw (f, same) (ground (arith, append-nil acc))
        | inr (e', f) ↦ rw (f, same) (ground (arith, append-nil acc))
      ]
  shard_loop_lem (suc rounds) shard i end max_update acc pulled zero d at e h =
      elim (entries_from-cases (receiver shard) (size shard) i (d shard)) [
        | inl (v, e', f) ↦ rw f (ground (arith, append-nil acc))
        | inr (e', f) ↦ rw f (ground (arith, append-nil acc))
      ]
  shard_loop_lem (suc rounds) shard i end max_update acc pulled (suc k) d at e h =
      elim (entries_from-cases (receiver shard) (size shard) i (d shard)) [
        | inl (v, e', f) ↦
            let rest = entries_from (receiver shard) (size shard) (i + 1) in
            rw f (
              ground (
                arith,
                shard_loop_lem rounds shard (i + 1) end max_update (acc ++ v ∷ []) (pulled + 1) k d
                    (omega arith) (omega arith) (omega arith),
                append_assoc acc (v ∷ []) (take k rest),
              ))
        | inr (e', f) ↦ rw f (ground (arith, append-nil acc))
      ]

  -- No index passes 2 ^ 64 over a number of entries.
  abbrev pub Fit : ℕ → List ℕ → Type 0
  Fit n = All (λ i. i + n < 2 ^ 64)

  pull_receivers_for_shard_lem :
      (shard i max_update : ℕ) (acc : List R) (pulled k : ℕ)
      → AreDense
      → i + max_update < 2 ^ 64
      → pulled + k ≡ max_update
      → let all = entries_from (receiver shard) (size shard) i in
        pull_receivers_for_shard shards shard i max_update acc pulled
        ≡ (ltb k (length all), acc ++ take k all, pulled + min k (length all))
  unfolding pull_receivers_for_shard
  pull_receivers_for_shard_lem shard i max_update acc pulled k d small e =
      let e₁ : (i + max_update) % 2 ^ 64 ≡ i + max_update = omega arith in
      let e₂ : i + max_update - i ≡ max_update = omega arith in
      rw (e₁, e₂)
        (shard_loop_lem max_update shard i (i + max_update) max_update acc pulled k d refl e
          (omega arith))

  -- One round of the loop over the shards, with what the shard has given.
  shards_loop-cons :
      (is : List ℕ) (i shard max_update : ℕ) (acc receivers : List R) (pulled pulled' : ℕ)
      (found : Bool)
      → pull_receivers_for_shard shards shard i max_update acc pulled ≡ (found, receivers, pulled')
      → shards_loop shards (i ∷ is) shard max_update false acc pulled ≡ (
          if pulled' == max_update && found
          then (found, receivers)
          else shards_loop shards is (shard + 1) max_update found receivers pulled')
  unfolding shards_loop
  shards_loop-cons is i shard max_update acc receivers pulled pulled' found e = rw e

  receivers_from-cons :
      (i shard : ℕ) (is : List ℕ)
      → receivers_from (i ∷ is) shard
        ≡ entries_from (receiver shard) (size shard) i ++ receivers_from is (shard + 1)
  unfolding receivers_from
  receivers_from-cons i shard is = refl

  shards_loop_lem :
      (is : List ℕ) (shard max_update : ℕ) (acc : List R) (pulled k : ℕ)
      → AreDense
      → Fit max_update is
      → pulled + k ≡ max_update
      → shards_loop shards is shard max_update false acc pulled
        ≡ (ltb k (length (receivers_from is shard)), acc ++ take k (receivers_from is shard))
  shards_loop_lem [] shard max_update acc pulled k d fit e =
      let nothing : take {A = R} k [] ≡ [] = take_all k [] (omega arith) in
      unfold shards_loop receivers_from in rw nothing (ground (arith, append-nil acc))
  shards_loop_lem (i ∷ is) shard max_update acc pulled k d fit e =
      let here = entries_from (receiver shard) (size shard) i in
      let rest = receivers_from is (shard + 1) in
      let one = pull_receivers_for_shard_lem shard i max_update acc pulled k d fit.0 e in
      let loop = shards_loop-cons is i shard max_update acc _ pulled _ _ one in
      elim (Bool-cases (ltb k (length here))) [
        | inl more ↦
            let full : (pulled + min k (length here) == max_update) ≡ true = ground arith in
            rw (loop, receivers_from-cons i shard is, full, more)
              (ground (arith, take-append_le k here rest, length-append here rest))
        | inr done ↦
            rw (loop, receivers_from-cons i shard is, done)
              (ground (
                arith,
                shards_loop_lem is (shard + 1) max_update (acc ++ take k here)
                    (pulled + min k (length here)) (k - length here) d fit.1,
                take-append_ge k here rest,
                take_all k here,
                length-append here rest,
                append_assoc acc here (take (k - length here) rest),
              ))
      ]

  abbrev max_of : ℕ → ℕ
  max_of request =
      if ltb pull_max_receiver_update_size request then pull_max_receiver_update_size else request

  -- With the entries of each shard at the indices below its size, and indices that stay below 2 ^ 64 over
  -- the entries asked for, `pull_receivers` returns the first entries from the given indices on, shard
  -- by shard, up to the request and the limit, and its flag tells exactly whether more are left.
  pub pull_receivers_lem :
      (receiver_indices : List ℕ) (request : ℕ)
      → AreDense
      → All (λ i. i + min request pull_max_receiver_update_size < 2 ^ 64) receiver_indices
      → let all = receivers_from receiver_indices 0 in
        let m = min request pull_max_receiver_update_size in
        pull_receivers shards receiver_indices request ≡ (ltb m (length all), take m all)
  unfolding pull_receivers
  pull_receivers_lem receiver_indices request d fit =
      let m = min request pull_max_receiver_update_size in
      let all = receivers_from receiver_indices 0 in
      let e : m ≡ max_of request = ground arith in
      subst
        (λ n. shards_loop shards receiver_indices 0 n false [] 0 ≡ (ltb m (length all), take m all))
        e (shards_loop_lem receiver_indices 0 m [] 0 m d fit (omega arith))
