-- ===== src/TxPause/Pallets.antt =====
-- Whole pallets in pallets/tx-pause: `pause_pallets` and `unpause_pallets`.
use hackathon_parity_eu.Prelude.{
  ℕ, refl, Bool, true, false, ◌&&◌, Option, none, some, List, [], ◌∷◌, map, arith, Bytes, is_utf8,
  elem, bytes_key, bytes_pair_key, Option-cases, ltb, length, inl, inr,
}
use hackathon_parity_eu.TxPause.{
  Config, Storage, ensure_can_pause, pause_pallet, unpause_pallet, pause_each, pause_pallets,
  unpause_each, unpause_pallets,
}
use hackathon_parity_eu.TxPause.Filter.{
  pallet_pairs, calls_or_none, can_pause, Blocks, Frees, elem-append, bind-Blocks, bind-Frees,
  pause_calls-Blocks, unpause_calls-Frees,
}

-- The pallet has fewer calls than the limit (and is a pallet of the runtime).
abbrev pub few_calls : Config → Option (List Bytes) → Bool
few_calls c none = false
few_calls c (some fs) = ltb (length fs) c.max_call_names

abbrev pub pallets_can_pause : Config → List Bytes → Bool
pallets_can_pause c [] = true
pallets_can_pause c (p ∷ ps) =
    (can_pause c p && few_calls c (c.get_call_names p)) && pallets_can_pause c ps

abbrev pub known : Option (List Bytes) → Bool
known none = false
known (some _) = true

abbrev pub pallets_known : Config → List Bytes → Bool
pallets_known c [] = true
pallets_known c (p ∷ ps) = (is_utf8 p && known (c.get_call_names p)) && pallets_known c ps

module _ (c : Config) (k : Bytes × Bytes) where
  pause_pallet-Blocks :
      (p : Bytes) (n : ℕ) (s : Storage)
      → Blocks k
          (can_pause c p && few_calls c (c.get_call_names p))
          (elem k (map (λ f. (p, f)) (calls_or_none (c.get_call_names p))))
          s
          (pause_pallet c p n s)
  unfolding pause_pallet ensure_can_pause
  pause_pallet-Blocks p n s = elim (Option-cases (c.get_call_names p)) [
    | inl unknown ↦ rw (unknown, pause_pallet) (ground arith)
    | inr (fs, e) ↦ rw (e, pause_pallet) (ground (arith, pause_calls-Blocks k p fs n s))
  ]

  pause_each-Blocks :
      (ps : List Bytes) (n : ℕ) (s : Storage)
      → Blocks k (pallets_can_pause c ps) (elem k (pallet_pairs c ps)) s (pause_each c ps n s)
  unfolding pause_each
  pause_each-Blocks [] n s = (refl, refl)
  pause_each-Blocks (p ∷ ps) n s = rw elem-append (
      bind-Blocks k _ _ _ _ s (pause_pallet c p n s) _ (pause_pallet-Blocks p n s)
        (λ n' s'. pause_each-Blocks ps n' s'))

  -- `pause_pallets` succeeds exactly if the origin may pause and every named pallet may be paused,
  -- is known and has fewer calls than the limit; then it has blocked all their calls, and no other.
  pub pause_pallets-Blocks :
      (o : c.Origin) (ps : List Bytes) (s : Storage)
      → Blocks k
          (c.pause_origin o && pallets_can_pause c ps)
          (elem k (pallet_pairs c ps))
          s
          (pause_pallets c o ps s)
  unfolding pause_pallets
  pause_pallets-Blocks o ps s = ground (arith, pause_each-Blocks ps 0 s)

  unpause_pallet-Frees :
      (p : Bytes) (n : ℕ) (s : Storage)
      → Frees k
          (is_utf8 p && known (c.get_call_names p))
          (elem k (map (λ f. (p, f)) (calls_or_none (c.get_call_names p))))
          s
          (unpause_pallet c p n s)
  unfolding unpause_pallet
  unpause_pallet-Frees p n s = elim (Option-cases (c.get_call_names p)) [
    | inl unknown ↦ rw (unknown, unpause_pallet) (ground arith)
    | inr (fs, e) ↦ rw (e, unpause_pallet) (ground (arith, unpause_calls-Frees k p fs n s))
  ]

  unpause_each-Frees :
      (ps : List Bytes) (n : ℕ) (s : Storage)
      → Frees k (pallets_known c ps) (elem k (pallet_pairs c ps)) s (unpause_each c ps n s)
  unfolding unpause_each
  unpause_each-Frees [] n s = (refl, refl)
  unpause_each-Frees (p ∷ ps) n s = rw elem-append (
      bind-Frees k _ _ _ _ s (unpause_pallet c p n s) _ (unpause_pallet-Frees p n s)
        (λ n' s'. unpause_each-Frees ps n' s'))

  -- `unpause_pallets` succeeds exactly if the origin may unpause and every name is that of a pallet;
  -- then it has let through all the calls of the named pallets, and no other.
  pub unpause_pallets-Frees :
      (o : c.Origin) (ps : List Bytes) (s : Storage)
      → Frees k
          (c.unpause_origin o && pallets_known c ps)
          (elem k (pallet_pairs c ps))
          s
          (unpause_pallets c o ps s)
  unfolding unpause_pallets
  unpause_pallets-Frees o ps s = ground (arith, unpause_each-Frees ps 0 s)
