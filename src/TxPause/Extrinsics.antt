-- ===== src/TxPause/Extrinsics.antt =====
-- The extrinsics of pallets/tx-pause: when each succeeds, and which calls it blocks or lets through.
use hackathon_parity_eu.Prelude.{
  ◌≡◌, refl, Bool, true, false, ◌&&◌, List, [], ◌∷◌, map, arith, Bytes, beq, elem, bytes_key,
  bytes_pair_key, for_each,
}
use hackathon_parity_eu.TxPause.{
  Config, Storage, ensure_can_pause, pause_transaction, unpause_transaction, pause_listed,
  pause_transactions, unpause_listed, unpause_transactions,
}
use hackathon_parity_eu.TxPause.Filter.{
  pairs, can_pause, all_can_pause, names, Blocks, Frees, elem-append, bind-Blocks, bind-Frees,
  pause_one-Blocks, unpause_one-Frees, pause_all-Blocks, unpause_all-Frees,
}

pub and_true : (a b : Bool) → b ≡ true → (a && b) ≡ a
and_true a b h = ground arith

module _ (c : Config) (k : Bytes × Bytes) where
  pub ensure_can_pause-Blocks :
      (p : Bytes) (s : Storage) → Blocks k (can_pause c p) false s (ensure_can_pause c p s)
  unfolding ensure_can_pause
  ensure_can_pause-Blocks p s = ground arith

  pause_listed-Blocks :
      (p : Bytes) (fs : List Bytes) (s : Storage)
      → Blocks k
          (can_pause c p && true)
          (elem k (map (λ f. (p, f)) fs))
          s
          (pause_listed c (p, fs) s)
  unfolding pause_listed
  pause_listed-Blocks p fs s =
      bind-Blocks k (can_pause c p) true false _ s (ensure_can_pause c p s) _
        (ensure_can_pause-Blocks p s) (λ _ s'. pause_all-Blocks k p fs s')

  pause_all_listed-Blocks :
      (listed : List (Bytes × List Bytes)) (s : Storage)
      → Blocks k
          (all_can_pause c (names listed))
          (elem k (pairs listed))
          s
          (for_each (pause_listed c) listed s)
  pause_all_listed-Blocks [] s = (refl, refl)
  pause_all_listed-Blocks ((p, fs) ∷ listed) s = rw elem-append (
      rw (and_true (can_pause c p) true refl) at (
        bind-Blocks k (can_pause c p && true) _ _ _ s (pause_listed c (p, fs) s) _
          (pause_listed-Blocks p fs s) (λ _ s'. pause_all_listed-Blocks listed s')))

  -- `pause_transaction` succeeds exactly if the origin may pause and the pallet may be paused, and
  -- then it has blocked the one call that it names and no other.
  pub pause_transaction-Blocks :
      (o : c.Origin) (p f : Bytes) (s : Storage)
      → Blocks k (c.pause_origin o && can_pause c p) (beq k (p, f)) s (pause_transaction c o p f s)
  unfolding pause_transaction ensure_can_pause
  pause_transaction-Blocks o p f s = ground (arith, pause_one-Blocks k p f true s)

  -- `pause_transactions` succeeds exactly if the origin may pause and every listed pallet may be
  -- paused, and then it has blocked the calls that it names and no other.
  pub pause_transactions-Blocks :
      (o : c.Origin) (listed : List (Bytes × List Bytes)) (s : Storage)
      → Blocks k
          (c.pause_origin o && all_can_pause c (names listed))
          (elem k (pairs listed))
          s
          (pause_transactions c o listed s)
  unfolding pause_transactions
  pause_transactions-Blocks o listed s = ground (arith, pause_all_listed-Blocks listed s)

  -- `unpause_transaction` succeeds exactly if the origin may unpause, and then it has let through
  -- the one call that it names and no other.
  pub unpause_transaction-Frees :
      (o : c.Origin) (p f : Bytes) (s : Storage)
      → Frees k (c.unpause_origin o) (beq k (p, f)) s (unpause_transaction c o p f s)
  unfolding unpause_transaction
  unpause_transaction-Frees o p f s = ground (arith, unpause_one-Frees k p f s)

  unpause_all_listed-Frees :
      (listed : List (Bytes × List Bytes)) (s : Storage)
      → Frees k true (elem k (pairs listed)) s (for_each (unpause_listed c) listed s)
  unfolding unpause_listed
  unpause_all_listed-Frees [] s = (refl, refl)
  unpause_all_listed-Frees ((p, fs) ∷ listed) s = rw elem-append (
      bind-Frees k true true _ _ s (unpause_listed c (p, fs) s) _ (unpause_all-Frees k p fs s)
        (λ _ s'. unpause_all_listed-Frees listed s'))

  -- `unpause_transactions` succeeds exactly if the origin may unpause, and then it has let through
  -- the calls that it names and no other.
  pub unpause_transactions-Frees :
      (o : c.Origin) (listed : List (Bytes × List Bytes)) (s : Storage)
      → Frees k (c.unpause_origin o) (elem k (pairs listed)) s (unpause_transactions c o listed s)
  unfolding unpause_transactions
  unpause_transactions-Frees o listed s = ground (arith, unpause_all_listed-Frees listed s)
