-- ===== src/MantaPay/Ledger/Spend.antt =====
-- `spend_all` of pallets/manta-pay/src/ledger.rs over successive batches, and the order of the nullifiers,
-- which only grows.
-- `spend_all` of pallets/manta-pay/src/ledger.rs over successive batches, and the order of the nullifiers,
-- which only grows.
use hackathon_parity_eu.Prelude.{
  ℕ, ◌+◌, ◌%◌, ◌^◌, ◌<◌, ◌≤◌, ◌≡◌, subst, sym, StorageMap, true, ◌||◌, Option, none, some, List, [],
  ◌∷◌, Bytes, lookup, insert, contains_key, elem, bytes_key, nat_key, arith, length, ok, err, ltb,
  ◌==◌, if◌then◌else◌, Option-cases, inl, inr, contains_key-insert, is_some, lookup-remove,
  Result-cases,
}
use hackathon_parity_eu.MantaPay.Pallet.{Crypto, Nullifier, Storage, asset_spent}
use hackathon_parity_eu.MantaPay.Ledger.{is_unspent, spend_loop, spend_all}
use hackathon_parity_eu.MantaPay.Pull.Exact.{IsDense}

insert-IsDense :
    {V : Type 0} (m : StorageMap ℕ V) (v : V) (at : ℕ)
    → IsDense (λ i. lookup i m) at
    → IsDense (λ i. lookup i (insert at v m)) (at + 1)
insert-IsDense m v at d i = ground (arith, d i, lookup-remove i at m)

module _ (k : Crypto) where
  -- The commitments of the nullifiers that have an encoding.
  abbrev pub commitments : List (Nullifier k) → List Bytes
  commitments [] = []
  commitments (n ∷ ns) = elim (k.fp_encode n.commitment) [
    | none ↦ commitments ns
    | some c ↦ c ∷ commitments ns
  ]

  abbrev recorded : Storage k → Bytes → k.OutgoingNote → ℕ → Storage k
  recorded s c note at = record s {
    nullifier_commitment_set = insert c tt s.nullifier_commitment_set;
    nullifier_set_insertion_order = insert (at % 2 ^ 64) (c, note) s.nullifier_set_insertion_order;
  }

  spend_loop-step :
      (index i : ℕ) (n : Nullifier k) (ns : List (Nullifier k)) (s s' : Storage k) (j : ℕ)
      → spend_loop k index i (n ∷ ns) s ≡ ok (j, s')
      → (c : Bytes) × (note : k.OutgoingNote) × (k.fp_encode n.commitment ≡ some c)
        × (k.outgoing_note_try_from n.outgoing_note ≡ some note)
        × (spend_loop k index (i + 1) ns (recorded s c note (index + i)) ≡ ok (j, s'))
  unfolding spend_loop
  spend_loop-step index i n ns s s' j h = elim (Option-cases (k.fp_encode n.commitment)) [
    | inl e ↦ absurd (ground arith)
    | inr (c, e) ↦ elim (Option-cases (k.outgoing_note_try_from n.outgoing_note)) [
      | inl e' ↦ absurd (ground arith)
      | inr (note, e') ↦ (c, note, e, e', ground arith)
    ]
  ]

  spend_loop-count :
      (index i : ℕ) (ns : List (Nullifier k)) (s s' : Storage k) (j : ℕ)
      → spend_loop k index i ns s ≡ ok (j, s')
      → j ≡ i + length ns
  spend_loop-count index i [] s s' j h = unfold spend_loop in ground arith
  spend_loop-count index i (n ∷ ns) s s' j h =
      let (c, note, ec, en, rest) = spend_loop-step index i n ns s s' j h in
      omega (arith, spend_loop-count index (i + 1) ns (recorded s c note (index + i)) s' j rest)

  commitments-cons :
      (n : Nullifier k) (ns : List (Nullifier k)) (c : Bytes)
      → k.fp_encode n.commitment ≡ some c
      → commitments (n ∷ ns) ≡ c ∷ commitments ns
  commitments-cons n ns c e = rw (e, commitments)

  -- The set after the loop holds the commitments of the nullifiers, with those of before.
  spend_loop-spent :
      (x : Bytes) (index i : ℕ) (ns : List (Nullifier k)) (s s' : Storage k) (j : ℕ)
      → spend_loop k index i ns s ≡ ok (j, s')
      → contains_key x s'.nullifier_commitment_set
        ≡ (elem x (commitments ns) || contains_key x s.nullifier_commitment_set)
  spend_loop-spent x index i [] s s' j h = unfold spend_loop in ground arith
  spend_loop-spent x index i (n ∷ ns) s s' j h =
      let (c, note, ec, en, rest) = spend_loop-step index i n ns s s' j h in
      rw (commitments-cons n ns c ec) (
        ground (
          arith,
          spend_loop-spent x index (i + 1) ns (recorded s c note (index + i)) s' j rest,
          contains_key-insert x c tt s.nullifier_commitment_set,
        ))

  abbrev pub nullifier_at : Storage k → ℕ → Option (Bytes × k.OutgoingNote)
  nullifier_at s i = lookup i s.nullifier_set_insertion_order

  recorded-IsDense :
      (s : Storage k) (c : Bytes) (note : k.OutgoingNote) (at : ℕ)
      → at < 2 ^ 64
      → IsDense (nullifier_at s) at
      → IsDense (nullifier_at (recorded s c note at)) (at + 1)
  recorded-IsDense s c note at small d i =
      let e : at % 2 ^ 64 ≡ at = omega arith in
      subst
        (λ a.
          is_some (lookup i (insert a (c, note) s.nullifier_set_insertion_order)) ≡ ltb i (at + 1))
        (sym e) (insert-IsDense s.nullifier_set_insertion_order (c, note) at d i)

  spend_loop-IsDense :
      (index i : ℕ) (ns : List (Nullifier k)) (s s' : Storage k) (j : ℕ)
      → spend_loop k index i ns s ≡ ok (j, s')
      → index + i + length ns ≤ 2 ^ 64
      → IsDense (nullifier_at s) (index + i)
      → IsDense (nullifier_at s') (index + j)
  spend_loop-IsDense index i [] s s' j h small d = unfold spend_loop in λ x. ground (arith, d x)
  spend_loop-IsDense index i (n ∷ ns) s s' j h small d =
      let (c, note, ec, en, rest) = spend_loop-step index i n ns s s' j h in
      let e : index + i + 1 ≡ index + (i + 1) = omega arith in
      spend_loop-IsDense index (i + 1) ns (recorded s c note (index + i)) s' j rest (omega arith) (
        subst (IsDense (nullifier_at (recorded s c note (index + i)))) e
          (recorded-IsDense s c note (index + i) (omega arith) d))

  abbrev sized : Storage k → ℕ → ℕ → Storage k
  sized s index j = if j == 0 then s else record s { nullifier_set_size = (index + j) % 2 ^ 64 }

  spend_all-step :
      (ns : List (Nullifier k)) (s s' : Storage k)
      → spend_all k ns s ≡ ok (tt, s')
      → (j : ℕ) × (s₁ : Storage k) × (spend_loop k s.nullifier_set_size 0 ns s ≡ ok (j, s₁))
        × (sized s₁ s.nullifier_set_size j ≡ s')
  unfolding spend_all
  spend_all-step ns s s' h = elim (Result-cases (spend_loop k s.nullifier_set_size 0 ns s)) [
    | inl ((j, s₁), e) ↦ (j, s₁, e, ground arith)
    | inr (error, e) ↦ absurd (ground arith)
  ]

  sized_spent :
      (s : Storage k) (index j : ℕ)
      → (sized s index j).nullifier_commitment_set ≡ s.nullifier_commitment_set
  sized_spent s index j = ground arith

  sized_order :
      (s : Storage k) (index j : ℕ)
      → (sized s index j).nullifier_set_insertion_order ≡ s.nullifier_set_insertion_order
  sized_order s index j = ground arith

  sized_size :
      (s : Storage k) (index j : ℕ)
      → s.nullifier_set_size ≡ index
      → index + j < 2 ^ 64
      → (sized s index j).nullifier_set_size ≡ index + j
  sized_size s index j e small = ground arith

  spend_loop_size :
      (index i : ℕ) (ns : List (Nullifier k)) (s s' : Storage k) (j : ℕ)
      → spend_loop k index i ns s ≡ ok (j, s')
      → s'.nullifier_set_size ≡ s.nullifier_set_size
  spend_loop_size index i [] s s' j h = unfold spend_loop in ground arith
  spend_loop_size index i (n ∷ ns) s s' j h =
      let (c, note, ec, en, rest) = spend_loop-step index i n ns s s' j h in
      spend_loop_size index (i + 1) ns (recorded s c note (index + i)) s' j rest

  -- A successful `spend_all` puts the commitments of its nullifiers into the set, and takes none out:
  -- a commitment is spent afterwards exactly if it was, or is one of theirs.
  pub spend_all-spent :
      (x : Bytes) (ns : List (Nullifier k)) (s s' : Storage k)
      → spend_all k ns s ≡ ok (tt, s')
      → contains_key x s'.nullifier_commitment_set
        ≡ (elem x (commitments ns) || contains_key x s.nullifier_commitment_set)
  spend_all-spent x ns s s' h =
      let (j, s₁, e, e') = spend_all-step ns s s' h in
      subst
        (λ m.
          contains_key x m.nullifier_commitment_set
          ≡ (elem x (commitments ns) || contains_key x s.nullifier_commitment_set))
        e'
        (rw (sized_spent s₁ s.nullifier_set_size j)
          (spend_loop-spent x s.nullifier_set_size 0 ns s s₁ j e))

  -- A successful `spend_all` appends to the order of the nullifiers: with the entries at the indices
  -- below the size, and room below 2 ^ 64, the size grows by their number, and again the entries are
  -- those below the size.
  pub spend_all-IsDense :
      (ns : List (Nullifier k)) (s s' : Storage k)
      → spend_all k ns s ≡ ok (tt, s')
      → s.nullifier_set_size + length ns < 2 ^ 64
      → IsDense (nullifier_at s) s.nullifier_set_size
      → (s'.nullifier_set_size ≡ s.nullifier_set_size + length ns)
        × IsDense (nullifier_at s') s'.nullifier_set_size
  spend_all-IsDense ns s s' h small d =
      let (j, s₁, e, e') = spend_all-step ns s s' h in
      let count : j ≡ length ns =
        omega (arith, spend_loop-count s.nullifier_set_size 0 ns s s₁ j e) in
      let start : s.nullifier_set_size + 0 ≡ s.nullifier_set_size = omega arith in
      let order : IsDense (nullifier_at s₁) (s.nullifier_set_size + j) =
        spend_loop-IsDense s.nullifier_set_size 0 ns s s₁ j e (omega arith)
          (subst (IsDense (nullifier_at s)) (sym start) d) in
      let size =
        sized_size s₁ s.nullifier_set_size j (spend_loop_size s.nullifier_set_size 0 ns s s₁ j e)
          (omega arith) in
      subst
        (λ m.
          (m.nullifier_set_size ≡ s.nullifier_set_size + length ns)
          × IsDense (nullifier_at m) m.nullifier_set_size)
        e' (omega arith, rw (sized_order s₁ s.nullifier_set_size j, size) order)

  -- A spent nullifier stays spent: after a successful `spend_all` and a further successful one,
  -- `is_unspent` refuses with `asset_spent` each nullifier whose commitment is among those of the first.
  pub spend_all-once :
      (n : Nullifier k) (c : Bytes) (ns later : List (Nullifier k)) (s s₁ s₂ : Storage k)
      → k.fp_encode n.commitment ≡ some c
      → elem c (commitments ns) ≡ true
      → spend_all k ns s ≡ ok (tt, s₁)
      → spend_all k later s₁ ≡ ok (tt, s₂)
      → is_unspent k n s₂ ≡ err asset_spent
  unfolding is_unspent
  spend_all-once n c ns later s s₁ s₂ e listed first second =
      ground (arith, spend_all-spent c ns s s₁ first, spend_all-spent c later s₁ s₂ second)
