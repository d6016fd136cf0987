-- ===== src/TxPause.antt =====
-- pallets/tx-pause/src/lib.rs: the pallet that pauses the calls of other pallets.
-- The runtime's choices are the record `Config`; a call metadata is the pair of its two names.
pub mod Filter
pub mod Extrinsics
pub mod Pallets
pub mod Safety
mod Examples
use hackathon_parity_eu.Prelude.{
  ℕ, suc, ◌+◌, ◌-◌, ◌*◌, ◌^◌, min, Bool, true, false, not, Option, none, some, List, [], ◌∷◌, ◌++◌,
  Bytes, is_utf8, StorageMap, lookup, insert, remove, contains_key, beq, Result, ok, err, Call,
  pure, fail, ensure, ◌>>=◌, ◌>>◌, for_each, settle, ltb, length, if◌then◌else◌, bytes_key,
  bytes_pair_key,
}

-- What the runtime configures, and what the runtime macro generates: `get_call_names` panics
-- (`none`) at a name that is no pallet's.
pub record Config : Type 1 where
  pub Origin : Type 0
  pub pause_origin : Origin → Bool
  pub unpause_origin : Origin → Bool
  pub non_pausable : Bytes → Bool
  pub max_call_names : ℕ
  pub name : Bytes
  pub get_call_names : Bytes → Option (List Bytes)
  pub pause_weight : ℕ

pub data Error : Type 0 where
  bad_origin cannot_pause invalid_character too_many_calls panicked : Error

pub data Event : Type 0 where
  transaction_paused : Bytes → Bytes → Event
  transaction_unpaused : Bytes → Bytes → Event
  pallet_paused : Bytes → Event
  pallet_unpaused : Bytes → Event

pub record Storage : Type 0 where
  pub paused_transactions : StorageMap (Bytes × Bytes) (Unit {0})
  pub events : List Event

abbrev pub Action : Type 0 → Type 0
Action A = Call Storage Error A

pub deposit_event : Event → Action (Unit {0})
deposit_event e s = ok (tt, record s { events = s.events ++ e ∷ [] })

-- `Weight` is a `u64`.
saturating_mul : ℕ → ℕ → ℕ
saturating_mul a b = min (a * b) (2 ^ 64 - 1)

pub pause_one : Bytes → Bytes → Bool → Action (Unit {0})
unfolding deposit_event
pause_one p f deposit s = elim (lookup (p, f) s.paused_transactions) [
  | none ↦
      let s' = record s { paused_transactions = insert (p, f) tt s.paused_transactions } in
      if deposit then deposit_event (transaction_paused p f) s' else ok (tt, s')
  | some _ ↦ ok (tt, s)
]

pub unpause_one : Bytes → Bytes → Action (Unit {0})
unfolding deposit_event
unpause_one p f s =
    let s' = record s { paused_transactions = remove (p, f) s.paused_transactions } in
    elim (lookup (p, f) s.paused_transactions) [
      | none ↦ ok (tt, s')
      | some _ ↦ deposit_event (transaction_unpaused p f) s'
    ]

-- `PausedTransactions::<T>::take`, with its result dropped.
pub take_paused : Bytes → Bytes → Action (Unit {0})
take_paused p f s = ok (tt, record s { paused_transactions = remove (p, f) s.paused_transactions })

-- The inner loops of `pause_pallets` and `unpause_pallets`, with the running `sum`.
pub pause_calls : Bytes → List Bytes → ℕ → Action ℕ
pause_calls p [] sum = pure sum
pause_calls p (f ∷ fs) sum = pause_one p f false >> pause_calls p fs (sum + 1)

pub unpause_calls : Bytes → List Bytes → ℕ → Action ℕ
unfolding take_paused
unpause_calls p [] sum = pure sum
unpause_calls p (f ∷ fs) sum = take_paused p f >> unpause_calls p fs (sum + 1)

abbrev pub or_panic : {A : Type 0} → Option A → Action A
or_panic none = fail panicked
or_panic (some a) = pure a

module _ (c : Config) where
  open c use {
    Origin, pause_origin, unpause_origin, non_pausable, max_call_names, name, get_call_names,
    pause_weight,
  }

  pub ensure_can_pause : Bytes → Action (Unit {0})
  ensure_can_pause p = do
    ensure (is_utf8 p) invalid_character
    ensure (not (beq p name)) cannot_pause
    ensure (not (non_pausable p)) cannot_pause

  pub pause_transaction : Origin → Bytes → Bytes → Action (Unit {0})
  pause_transaction o p f = do
    ensure (pause_origin o) bad_origin
    ensure_can_pause p
    pause_one p f true

  pub unpause_transaction : Origin → Bytes → Bytes → Action (Unit {0})
  unpause_transaction o p f = do ensure (unpause_origin o) bad_origin; unpause_one p f

  pub pause_listed : Bytes × List Bytes → Action (Unit {0})
  pause_listed (p, fs) = ensure_can_pause p >> for_each (λ f. pause_one p f true) fs

  pub pause_transactions : Origin → List (Bytes × List Bytes) → Action (Unit {0})
  unfolding pause_listed
  pause_transactions o listed = do ensure (pause_origin o) bad_origin; for_each pause_listed listed

  pub unpause_listed : Bytes × List Bytes → Action (Unit {0})
  unpause_listed (p, fs) = for_each (unpause_one p) fs

  pub unpause_transactions : Origin → List (Bytes × List Bytes) → Action (Unit {0})
  unfolding unpause_listed
  unpause_transactions o listed = do
    ensure (unpause_origin o) bad_origin
    for_each unpause_listed listed

  -- The bodies of the loops of `pause_pallets` and `unpause_pallets`, with the running `sum`.
  pub pause_pallet : Bytes → ℕ → Action ℕ
  unfolding deposit_event
  pause_pallet p sum = do
    ensure_can_pause p
    ensure (is_utf8 p) invalid_character
    fs ← or_panic (get_call_names p)
    ensure (ltb (length fs) max_call_names) too_many_calls
    sum' ← pause_calls p fs sum
    deposit_event (pallet_paused p)
    pure sum'

  pub pause_each : List Bytes → ℕ → Action ℕ
  pause_each [] sum = pure sum
  pause_each (p ∷ ps) sum = pause_pallet p sum >>= λ sum'. pause_each ps sum'

  -- The result is the weight that the call is charged.
  pub pause_pallets : Origin → List Bytes → Action ℕ
  unfolding saturating_mul
  pause_pallets o ps = do
    ensure (pause_origin o) bad_origin
    sum ← pause_each ps 0
    pure (saturating_mul pause_weight sum)

  pub unpause_pallet : Bytes → ℕ → Action ℕ
  unfolding deposit_event
  unpause_pallet p sum = do
    ensure (is_utf8 p) invalid_character
    fs ← or_panic (get_call_names p)
    sum' ← unpause_calls p fs sum
    deposit_event (pallet_unpaused p)
    pure sum'

  pub unpause_each : List Bytes → ℕ → Action ℕ
  unpause_each [] sum = pure sum
  unpause_each (p ∷ ps) sum = unpause_pallet p sum >>= λ sum'. unpause_each ps sum'

  pub unpause_pallets : Origin → List Bytes → Action ℕ
  unfolding saturating_mul
  unpause_pallets o ps = do
    ensure (unpause_origin o) bad_origin
    sum ← unpause_each ps 0
    pure (saturating_mul pause_weight sum)

-- `PausedTransactionFilter::contains`, at the metadata of a call.
pub filter_contains : Bytes × Bytes → Storage → Bool
filter_contains (p, f) s = contains_key (p, f) s.paused_transactions
