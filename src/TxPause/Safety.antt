-- ===== src/TxPause/Safety.antt =====
-- The pallets that pallets/tx-pause must not pause, over any sequence of extrinsics.
use hackathon_parity_eu.Prelude.{
  ◌≡◌, Bool, true, List, [], ◌∷◌, map, arith, Bytes, beq, elem, Result, ok, err, settle, bytes_key,
  bytes_pair_key,
}
use hackathon_parity_eu.TxPause.{
  Config, Error, Storage, pause_transaction, unpause_transaction, pause_transactions,
  unpause_transactions, pause_pallets, unpause_pallets, filter_contains,
}
use hackathon_parity_eu.TxPause.Filter.{
  pairs, pallet_pairs, calls_or_none, can_pause, all_can_pause, names, Blocks, Frees, elem-append,
}
use hackathon_parity_eu.TxPause.Extrinsics.{
  pause_transaction-Blocks, pause_transactions-Blocks, unpause_transaction-Frees,
  unpause_transactions-Frees,
}
use hackathon_parity_eu.TxPause.Pallets.{
  pallets_can_pause, pause_pallets-Blocks, unpause_pallets-Frees,
}

-- `pallet::Call`, each with the origin that it is dispatched with.
pub data Extrinsic (c : Config) : Type 0 where
  pause_one unpause_one : c.Origin → Bytes → Bytes → Extrinsic c
  pause_some unpause_some : c.Origin → List (Bytes × List Bytes) → Extrinsic c
  pause_whole unpause_whole : c.Origin → List Bytes → Extrinsic c

-- `#[transactional]`: an extrinsic that fails leaves the storage as it was.
pub dispatch : (c : Config) → Extrinsic c → Storage → Storage
dispatch c (pause_one o p f) s = settle s (pause_transaction c o p f s)
dispatch c (unpause_one o p f) s = settle s (unpause_transaction c o p f s)
dispatch c (pause_some o listed) s = settle s (pause_transactions c o listed s)
dispatch c (unpause_some o listed) s = settle s (unpause_transactions c o listed s)
dispatch c (pause_whole o ps) s = settle s (pause_pallets c o ps s)
dispatch c (unpause_whole o ps) s = settle s (unpause_pallets c o ps s)

pub run : (c : Config) → List (Extrinsic c) → Storage → Storage
run c [] s = s
run c (x ∷ xs) s = run c xs (dispatch c x s)

-- Every call that the filter blocks is one of a pallet that may be paused.
abbrev pub IsSafe : Config → Storage → Type 0
IsSafe c s = (p f : Bytes) → filter_contains (p, f) s ≡ true → can_pause c p ≡ true

elem-pairs :
    (p f q : Bytes) (gs : List Bytes)
    → elem {K = Bytes × Bytes} (p, f) (map (λ g. (q, g)) gs) ≡ true
    → p ≡ q
elem-pairs p f q [] h = cc
elem-pairs p f q (g ∷ gs) h = ground (arith, elem-pairs p f q gs)

module _ (c : Config) (p f : Bytes) where
  all_can_pause-elem :
      (listed : List (Bytes × List Bytes))
      → all_can_pause c (names listed) ≡ true
      → elem (p, f) (pairs listed) ≡ true
      → can_pause c p ≡ true
  all_can_pause-elem [] a h = cc
  all_can_pause-elem ((q, gs) ∷ listed) a h = ground (
    arith,
    elem-append (p, f) (map (λ g. (q, g)) gs) (pairs listed),
    elem-pairs p f q gs,
    all_can_pause-elem listed,
  )

  pallets_can_pause-elem :
      (ps : List Bytes)
      → pallets_can_pause c ps ≡ true
      → elem (p, f) (pallet_pairs c ps) ≡ true
      → can_pause c p ≡ true
  pallets_can_pause-elem [] a h = cc
  pallets_can_pause-elem (q ∷ ps) a h =
      let gs = calls_or_none (c.get_call_names q) in
      ground (
        arith,
        elem-append (p, f) (map (λ g. (q, g)) gs) (pallet_pairs c ps),
        elem-pairs p f q gs,
        pallets_can_pause-elem ps,
      )

module _ (c : Config) where
  Blocks-IsSafe :
      {A : Type 0} (s : Storage) (r : Result Error (A × Storage)) (allowed : Bool)
      (hit : Bytes × Bytes → Bool)
      → ((p f : Bytes) → Blocks (p, f) allowed (hit (p, f)) s r)
      → ((p f : Bytes) → allowed ≡ true → hit (p, f) ≡ true → can_pause c p ≡ true)
      → IsSafe c s
      → IsSafe c (settle s r)
  unfolding filter_contains
  Blocks-IsSafe s (ok (a, s')) allowed hit b may safe p f h =
      ground (arith, b p f, may p f, safe p f)
  Blocks-IsSafe s (err e) allowed hit b may safe p f h = safe p f h

  Frees-IsSafe :
      {A : Type 0} (s : Storage) (r : Result Error (A × Storage)) (allowed : Bool)
      (hit : Bytes × Bytes → Bool)
      → ((p f : Bytes) → Frees (p, f) allowed (hit (p, f)) s r)
      → IsSafe c s
      → IsSafe c (settle s r)
  unfolding filter_contains
  Frees-IsSafe s (ok (a, s')) allowed hit b safe p f h = ground (arith, b p f, safe p f)
  Frees-IsSafe s (err e) allowed hit b safe p f h = safe p f h

  dispatch-IsSafe : (x : Extrinsic c) (s : Storage) → IsSafe c s → IsSafe c (dispatch c x s)
  unfolding dispatch
  dispatch-IsSafe (pause_one o q g) s safe =
      Blocks-IsSafe s _ _ (λ k. beq k (q, g)) (λ p f. pause_transaction-Blocks c (p, f) o q g s)
        (λ p f a h. ground arith) safe
  dispatch-IsSafe (unpause_one o q g) s safe =
      Frees-IsSafe s _ _ (λ k. beq k (q, g)) (λ p f. unpause_transaction-Frees c (p, f) o q g s)
        safe
  dispatch-IsSafe (pause_some o listed) s safe =
      Blocks-IsSafe s _ _ (λ k. elem k (pairs listed))
        (λ p f. pause_transactions-Blocks c (p, f) o listed s)
        (λ p f a h. ground (arith, all_can_pause-elem c p f listed)) safe
  dispatch-IsSafe (unpause_some o listed) s safe =
      Frees-IsSafe s _ _ (λ k. elem k (pairs listed))
        (λ p f. unpause_transactions-Frees c (p, f) o listed s) safe
  dispatch-IsSafe (pause_whole o ps) s safe =
      Blocks-IsSafe s _ _ (λ k. elem k (pallet_pairs c ps))
        (λ p f. pause_pallets-Blocks c (p, f) o ps s)
        (λ p f a h. ground (arith, pallets_can_pause-elem c p f ps)) safe
  dispatch-IsSafe (unpause_whole o ps) s safe =
      Frees-IsSafe s _ _ (λ k. elem k (pallet_pairs c ps))
        (λ p f. unpause_pallets-Frees c (p, f) o ps s) safe

  -- If only calls of pallets that may be paused are blocked, that stays so over any sequence of
  -- extrinsics, whatever their origins and arguments: no call of the pallet itself, of a
  -- non-pausable pallet or of an ill-formed name is ever blocked.
  pub run-IsSafe : (xs : List (Extrinsic c)) (s : Storage) → IsSafe c s → IsSafe c (run c xs s)
  unfolding run
  run-IsSafe [] s safe = safe
  run-IsSafe (x ∷ xs) s safe = run-IsSafe xs (dispatch c x s) (dispatch-IsSafe x s safe)
