-- ===== src/MantaPay/Ledger/Register.antt =====
-- `register_all` of pallets/manta-pay/src/ledger.rs: what it adds to the set of UTXOs.
use hackathon_parity_eu.Prelude.{
  Bytes, ℕ, ◌≡◌, refl, sym, ◌∙◌, Bool, true, false, ◌||◌, Option, none, some, List, [], ◌∷◌, ◌++◌,
  map, inl, inr, Key, insert, contains_key, beq, arith, ok, err, Option-cases, Result-cases,
  contains_key-insert, lookup, nat_key, nat_pair_key, bytes_key,
}
use hackathon_parity_eu.MantaPay.Pallet.{Crypto, Storage, UtxoMerkleTreePath, asset_registered}
use hackathon_parity_eu.MantaPay.Ledger.{
  insert_sorted, sort_by_key, push_last, group_by_shard, insert_loop, insert_group, insert_groups,
  tree_or_default, decode_digest, encode_digest, save_root, with_shard, register_all,
  is_not_registered, Posting, Groups, TreeState,
}

-- Whether an element of the list satisfies the test.
abbrev pub any : {A : Type 0} → (A → Bool) → List A → Bool
any f [] = false
any f (a ∷ xs) = f a || any f xs

any-append :
    {A : Type 0} (f : A → Bool) (xs ys : List A) → any f (xs ++ ys) ≡ (any f xs || any f ys)
any-append f [] ys = refl
any-append f (x ∷ xs) ys = ground (arith, any-append f xs ys)

any-map :
    {A B : Type 0} (f : B → Bool) (g : A → B) (xs : List A)
    → any f (map g xs) ≡ any (λ a. f (g a)) xs
any-map f g [] = refl
any-map f g (x ∷ xs) = ground (arith, any-map f g xs)

any-insert_sorted :
    {A : Type 0} (key : A → ℕ) (f : A → Bool) (a : A) (bs : List A)
    → any f (insert_sorted key a bs) ≡ (f a || any f bs)
unfolding insert_sorted
any-insert_sorted key f a [] = refl
any-insert_sorted key f a (b ∷ bs) = ground (arith, any-insert_sorted key f a bs)

any-sort_by_key :
    {A : Type 0} (key : A → ℕ) (f : A → Bool) (bs : List A) → any f (sort_by_key key bs) ≡ any f bs
unfolding sort_by_key
any-sort_by_key key f [] = refl
any-sort_by_key key f (b ∷ bs) =
    ground (arith, any-insert_sorted key f b (sort_by_key key bs), any-sort_by_key key f bs)

module _ (k : Crypto) where
  instance abbrev utxo_key : Key k.Utxo
  utxo_key = k.utxo_key

  abbrev any_group : (Posting k → Bool) → Groups k → Bool
  any_group f [] = false
  any_group f ((shard, ps) ∷ groups) = any f ps || any_group f groups

  any_group-push_last :
      (f : Posting k → Bool) (shard : ℕ) (p : Posting k) (gs : Groups k)
      → any_group f (push_last k shard p gs) ≡ (any_group f gs || f p)
  unfolding push_last
  any_group-push_last f shard p [] = ground arith
  any_group-push_last f shard p ((index, pairs) ∷ []) = ground (arith, any-append f pairs (p ∷ []))
  any_group-push_last f shard p (g ∷ g' ∷ gs) =
      ground (arith, any_group-push_last f shard p (g' ∷ gs))

  any_group-group_by_shard :
      (f : Posting k → Bool) (xs : List (ℕ × Posting k)) (gs : Groups k)
      → any_group f (group_by_shard k xs gs) ≡ (any_group f gs || any (λ e. f e.1) xs)
  unfolding group_by_shard
  any_group-group_by_shard f [] gs = ground arith
  any_group-group_by_shard f ((shard, p) ∷ xs) gs = ground (
    arith,
    any_group-group_by_shard f xs (push_last k shard p gs),
    any_group-push_last f shard p gs,
  )

  -- Whether the UTXO of a posting is `x`.
  abbrev pub posts : k.Utxo → Posting k → Bool
  posts x (utxo, note) = elim (k.utxo_try_from utxo) [ none ↦ false | some y ↦ beq x y ]

  module _ (model : k.UtxoAccumulatorModel) (hash : k.UtxoAccumulatorItemHash) where
    abbrev registered : Storage k → k.Utxo → ℕ → k.RawPath → k.FullIncomingNote → Storage k
    registered s y shard path note = record s {
      utxo_set = insert y tt s.utxo_set;
      shards = insert (shard, k.leaf_index path) (y, note) s.shards;
    }

    insert_loop-step :
        (shard : ℕ) (p : Posting k) (ps : List (Posting k)) (st st' : TreeState k)
        (s s' : Storage k)
        → insert_loop k model hash shard (p ∷ ps) st s ≡ ok (st', s')
        → (y : k.Utxo) × (path : k.RawPath) × (note : k.FullIncomingNote) × (next : TreeState k)
          × (k.utxo_try_from p.0 ≡ some y)
          × (insert_loop k model hash shard ps next (registered s y shard path note) ≡ ok (st', s'))
    unfolding insert_loop
    insert_loop-step shard (utxo, note) ps (r, d, path) st' s s' h =
        elim (Option-cases (k.merkle_insert model d path (k.item_hash hash utxo))) [
          | inl e ↦ absurd (ground arith)
          | inr ((r', d', path'), e) ↦ elim (Option-cases (k.utxo_try_from utxo)) [
            | inl e' ↦ absurd (ground arith)
            | inr (y, e') ↦ elim (Option-cases (k.note_try_from note)) [
              | inl e'' ↦ absurd (ground arith)
              | inr (n, e'') ↦ (y, path', n, (some r', d', path'), e', ground arith)
            ]
          ]
        ]

    insert_loop-registered :
        (x : k.Utxo) (shard : ℕ) (ps : List (Posting k)) (st st' : TreeState k) (s s' : Storage k)
        → insert_loop k model hash shard ps st s ≡ ok (st', s')
        → contains_key x s'.utxo_set ≡ (any (posts x) ps || contains_key x s.utxo_set)
    insert_loop-registered x shard [] st st' s s' h = unfold insert_loop in ground arith
    insert_loop-registered x shard (p ∷ ps) st st' s s' h =
        let (y, path, note, next, e, rest) = insert_loop-step shard p ps st st' s s' h in
        ground (
          arith,
          insert_loop-registered x shard ps next st' (registered s y shard path note) s' rest,
          contains_key-insert x y tt s.utxo_set,
        )

    save_root_utxo_set :
        (shard : ℕ) (tree : UtxoMerkleTreePath k) (root : Option k.Fp) (s s' : Storage k)
        → save_root k model hash shard tree root s ≡ ok (tt, s')
        → s'.utxo_set ≡ s.utxo_set
    unfolding save_root
    save_root_utxo_set shard tree none s s' h = ground arith
    save_root_utxo_set shard tree (some root) s s' h = elim (Option-cases (k.fp_encode root)) [
      | inl e ↦ absurd (ground arith)
      | inr (output, e) ↦ ground arith
    ]

    decode_digest_same :
        (o : Option Bytes) (d : Option k.Fp) (s s' : Storage k)
        → decode_digest k model hash o s ≡ ok (d, s')
        → s' ≡ s
    unfolding decode_digest
    decode_digest_same none d s s' h = ground arith
    decode_digest_same (some x) d s s' h = elim (Option-cases (k.fp_decode x)) [
      | inl e ↦ absurd (ground arith)
      | inr (fp, e) ↦ ground arith
    ]

    encode_digest_same :
        (o : Option k.Fp) (d : Option Bytes) (s s' : Storage k)
        → encode_digest k model hash o s ≡ ok (d, s')
        → s' ≡ s
    unfolding encode_digest
    encode_digest_same none d s s' h = ground arith
    encode_digest_same (some x) d s s' h = elim (Option-cases (k.fp_encode x)) [
      | inl e ↦ absurd (ground arith)
      | inr (fp, e) ↦ ground arith
    ]

    insert_group-step :
        (shard : ℕ) (ps : List (Posting k)) (s s' : Storage k)
        → insert_group k model hash (shard, ps) s ≡ ok (tt, s')
        → (st : TreeState k) × (r : Option k.Fp) × (d : Option k.Fp) × (path : k.RawPath)
          × (s₁ : Storage k) × (tree : UtxoMerkleTreePath k) × (insert_loop k model hash shard ps st
                s
              ≡ ok ((r, d, path), s₁))
          × (save_root k model hash shard tree r s₁ ≡ ok (tt, s'))
    unfolding insert_group
    insert_group-step shard ps s s' h =
        let tree = tree_or_default k model hash (lookup shard s.shard_trees) in
        elim (Option-cases (k.path_decode tree.current_path)) [
          | inl e ↦ absurd (ground arith)
          | inr (path, e) ↦ elim (Result-cases (decode_digest k model hash tree.leaf_digest s)) [
            | inr (error, e₁) ↦ absurd (ground arith)
            | inl ((d, s₀), e₁) ↦
                let same : s₀ ≡ s = decode_digest_same tree.leaf_digest d s s₀ e₁ in
                elim (Result-cases (insert_loop k model hash shard ps (none, d, path) s)) [
                  | inr (error, e₂) ↦ absurd (ground arith)
                  | inl (((r, d', path'), s₁), e₂) ↦ elim (Option-cases (k.path_encode path')) [
                    | inl e₃ ↦ absurd (ground arith)
                    | inr (saved, e₃) ↦ elim (Result-cases (encode_digest k model hash d' s₁)) [
                      | inr (error, e₄) ↦ absurd (ground arith)
                      | inl ((digest, s₂), e₄) ↦
                          let same' : s₂ ≡ s₁ = encode_digest_same d' digest s₁ s₂ e₄ in
                          (
                            (none, d, path),
                            r,
                            d',
                            path',
                            s₁,
                            record { leaf_digest = digest; current_path = saved },
                            e₂,
                            ground arith,
                          )
                    ]
                  ]
                ]
          ]
        ]

    insert_group-registered :
        (x : k.Utxo) (group : ℕ × List (Posting k)) (s s' : Storage k)
        → insert_group k model hash group s ≡ ok (tt, s')
        → contains_key x s'.utxo_set ≡ (any (posts x) group.1 || contains_key x s.utxo_set)
    insert_group-registered x (shard, ps) s s' h =
        let (st, r, d, path, s₁, tree, inserted, saved) = insert_group-step shard ps s s' h in
        rw (save_root_utxo_set shard tree r s₁ s' saved)
          (insert_loop-registered x shard ps st (r, d, path) s s₁ inserted)

    insert_groups-registered :
        (x : k.Utxo) (groups : Groups k) (s s' : Storage k)
        → insert_groups k model hash groups s ≡ ok (tt, s')
        → contains_key x s'.utxo_set ≡ (any_group (posts x) groups || contains_key x s.utxo_set)
    unfolding insert_groups
    insert_groups-registered x [] s s' h = ground arith
    insert_groups-registered x (group ∷ groups) s s' h =
        elim (Result-cases (insert_group k model hash group s)) [
          | inr (error, e) ↦ absurd (ground arith)
          | inl ((u, s₁), e) ↦ ground (
            arith,
            insert_group-registered x group s s₁ e,
            insert_groups-registered x groups s₁ s' (ground arith),
          )
        ]

    any-with_shard :
        (x : k.Utxo) (ps : List (Posting k))
        → any (λ e. posts x e.1) (map (with_shard k model hash) ps) ≡ any (posts x) ps
    unfolding with_shard
    any-with_shard x [] = refl
    any-with_shard x (p ∷ ps) = ground (arith, any-with_shard x ps)

  abbrev groups_of :
      k.UtxoAccumulatorModel → k.UtxoAccumulatorItemHash → List (Posting k) → Groups k
  groups_of model hash ps =
      group_by_shard k (sort_by_key (λ e. e.0) (map (with_shard k model hash) ps)) []

  any_group-groups_of :
      (model : k.UtxoAccumulatorModel) (hash : k.UtxoAccumulatorItemHash) (x : k.Utxo)
      (ps : List (Posting k))
      → any_group (posts x) (groups_of model hash ps) ≡ any (posts x) ps
  any_group-groups_of model hash x ps =
      any_group-group_by_shard (posts x) (sort_by_key (λ e. e.0) (map (with_shard k model hash) ps))
        []
      ∙ any-sort_by_key (λ e. e.0) (λ e. posts x e.1) (map (with_shard k model hash) ps)
      ∙ any-with_shard model hash x ps

  register_all-step :
      (ps : List (Posting k)) (s s' : Storage k)
      → register_all k ps s ≡ ok (tt, s')
      → (model : k.UtxoAccumulatorModel) × (hash : k.UtxoAccumulatorItemHash) × (insert_groups k
            model hash
            (groups_of model hash ps)
            s
          ≡ ok (tt, s'))
  unfolding register_all
  register_all-step ps s s' h = elim (Option-cases k.get_utxo_accumulator_model) [
    | inl e ↦ absurd (ground arith)
    | inr (m, e) ↦ elim (Option-cases (k.decode_utxo_accumulator_model m)) [
      | inl e₁ ↦ absurd (ground arith)
      | inr (model, e₁) ↦ elim (Option-cases k.get_utxo_accumulator_item_hash) [
        | inl e₂ ↦ absurd (ground arith)
        | inr (b, e₂) ↦ elim (Option-cases (k.decode_utxo_accumulator_item_hash b)) [
          | inl e₃ ↦ absurd (ground arith)
          | inr (hash, e₃) ↦ (model, hash, ground arith)
        ]
      ]
    ]
  ]

  -- A successful `register_all` puts the UTXOs of its postings into the set, whatever the shards they
  -- are sorted and grouped into, and takes none out.
  pub register_all-registered :
      (x : k.Utxo) (ps : List (Posting k)) (s s' : Storage k)
      → register_all k ps s ≡ ok (tt, s')
      → contains_key x s'.utxo_set ≡ (any (posts x) ps || contains_key x s.utxo_set)
  register_all-registered x ps s s' h =
      let (model, hash, inserted) = register_all-step ps s s' h in
      rw (sym (any_group-groups_of model hash x ps))
        (insert_groups-registered model hash x (groups_of model hash ps) s s' inserted)

  -- A registered UTXO stays registered: after a successful `register_all` and a further successful one,
  -- `is_not_registered` refuses with `asset_registered` each UTXO that the first posted.
  pub register_all-once :
      (u : k.RawUtxo) (x : k.Utxo) (ps later : List (Posting k)) (s s₁ s₂ : Storage k)
      → k.utxo_try_from u ≡ some x
      → any (posts x) ps ≡ true
      → register_all k ps s ≡ ok (tt, s₁)
      → register_all k later s₁ ≡ ok (tt, s₂)
      → is_not_registered k u s₂ ≡ err asset_registered
  unfolding is_not_registered
  register_all-once u x ps later s s₁ s₂ e listed first second =
      ground (
        arith,
        register_all-registered x ps s s₁ first,
        register_all-registered x later s₁ s₂ second,
      )
