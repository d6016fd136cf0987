-- ===== src/MantaPay/Pull/Exact.antt =====
-- The pull functions of pallets/manta-pay return exactly the first entries that a wallet lacks.
use hackathon_parity_eu.Prelude.{
  ℕ, zero, suc, ◌+◌, ◌-◌, ◌%◌, ◌^◌, ◌<◌, ◌≤◌, min, ◌≡◌, ◌⊎◌, Option, none, some, List, [], ◌∷◌,
  ◌++◌, StorageMap, lookup, nat_key, nat_pair_key, ltb, if◌then◌else◌, arith, length, take, is_some,
  Option-cases, inl, inr,
}
use mathlib.Core.List.{append-nil, append_assoc}
use hackathon_parity_eu.MantaPay.Pull.{senders_loop, pull_senders, pull_max_sender_update_size}

module _ {V : Type 0} where
  -- The entries are those at the indices below the size.
  abbrev pub IsDense : (ℕ → Option V) → ℕ → Type 0
  IsDense get size = (i : ℕ) → is_some (get i) ≡ ltb i size

  -- The first `n` entries from an index on, as far as they are there.
  pub entries : (ℕ → Option V) → ℕ → ℕ → List V
  entries get zero i = []
  entries get (suc n) i = elim (get i) [ none ↦ [] | some v ↦ v ∷ entries get n (i + 1) ]

  -- All entries from an index on.
  pub entries_from : (ℕ → Option V) → ℕ → ℕ → List V
  unfolding entries
  entries_from get size i = entries get (size - i) i

  entries_from-end : (get : ℕ → Option V) (size i : ℕ) → size ≤ i → entries_from get size i ≡ []
  unfolding entries_from
  entries_from-end get size i h = let e : size - i ≡ 0 = omega arith in rw e

  entries_from-step :
      (get : ℕ → Option V) (size i : ℕ) (v : V)
      → i < size
      → get i ≡ some v
      → entries_from get size i ≡ v ∷ entries_from get size (i + 1)
  unfolding entries_from
  entries_from-step get size i v h e =
      let n : size - i ≡ suc (size - (i + 1)) = omega arith in rw n (rw (e, entries))

  -- An index has an entry, which comes first, or nothing is left from it on.
  pub entries_from-cases :
      (get : ℕ → Option V) (size i : ℕ)
      → IsDense get size
      → ((v : V) × (get i ≡ some v) × (entries_from get size i ≡ v ∷ entries_from get size (i + 1)))
        ⊎ ((get i ≡ none) × (entries_from get size i ≡ []))
  entries_from-cases get size i d = elim (Option-cases (get i)) [
    | inl e ↦ inr (e, entries_from-end get size i (ground (arith, d i)))
    | inr (v, e) ↦ inl (v, e, entries_from-step get size i v (ground (arith, d i)) e)
  ]

module _ {N : Type 0} (order : StorageMap ℕ N) (size : ℕ) where
  abbrev sender : ℕ → Option N
  sender i = lookup i order

  senders_loop_lem :
      (rounds i end : ℕ) (acc : List N)
      → IsDense sender size
      → i + rounds ≡ end
      → senders_loop order rounds i end acc ≡ (
        ltb rounds (length (entries_from sender size i)),
        acc ++ take rounds (entries_from sender size i),
      )
  unfolding senders_loop
  senders_loop_lem zero i end acc d at =
      let same : end ≡ i = omega arith in
      elim (entries_from-cases sender size i d) [
        | inl (v, e, f) ↦ rw (f, same) (ground (arith, append-nil acc))
        | inr (e, f) ↦ rw (f, same) (ground (arith, append-nil acc))
      ]
  senders_loop_lem (suc rounds) i end acc d at = elim (entries_from-cases sender size i d) [
    | inl (v, e, f) ↦
        rw (f, e, senders_loop)
          (ground (
            arith,
            senders_loop_lem rounds (i + 1) end (acc ++ v ∷ []) d (omega arith),
            append_assoc acc (v ∷ []) (take rounds (entries_from sender size (i + 1))),
          ))
    | inr (e, f) ↦ rw (f, e, senders_loop) (ground (arith, append-nil acc))
  ]

  abbrev end_of : ℕ → ℕ → ℕ
  end_of i request =
      if ltb pull_max_sender_update_size request
      then (i + pull_max_sender_update_size) % 2 ^ 64
      else (i + request) % 2 ^ 64

  end_of-small :
      (i request : ℕ)
      → i + min request pull_max_sender_update_size < 2 ^ 64
      → end_of i request ≡ i + min request pull_max_sender_update_size
  end_of-small i request small = ground arith

  -- With the entries of the nullifier set at the indices below its size, and an index that stays below
  -- 2 ^ 64 over the entries asked for, `pull_senders` returns the first entries from the given index on,
  -- up to the request and the limit, and its flag tells exactly whether more are left.
  pub pull_senders_lem :
      (sender_index request : ℕ)
      → IsDense sender size
      → sender_index + min request pull_max_sender_update_size < 2 ^ 64
      → let all = entries_from sender size sender_index in
        let m = min request pull_max_sender_update_size in
        pull_senders order sender_index request ≡ (ltb m (length all), take m all)
  unfolding pull_senders
  pull_senders_lem sender_index request d small =
      let m = min request pull_max_sender_update_size in
      let e : end_of sender_index request ≡ sender_index + m =
        end_of-small sender_index request small in
      let n : sender_index + m - sender_index ≡ m = omega arith in
      rw (e, n) (senders_loop_lem m sender_index (sender_index + m) [] d (omega arith))
