-- ===== src/TxPause/Filter.antt =====
-- What each extrinsic of pallets/tx-pause does to the filter of paused calls, for every call.
use hackathon_parity_eu.Prelude.{
  ℕ, ◌+◌, ◌≡◌, refl, Bool, true, false, not, ◌&&◌, ◌||◌, Option, none, some, List, [], ◌∷◌, ◌++◌,
  map, arith, Bytes, is_utf8, contains_key, beq, elem, Result, ok, err, ◌>>=◌, for_each, bytes_key,
  bytes_pair_key, contains_key-insert, contains_key-remove,
}
use hackathon_parity_eu.TxPause.{
  Config, Error, Storage, Action, pause_one, unpause_one, take_paused, pause_calls, unpause_calls,
}

-- The calls that a request names one by one.
abbrev pub pairs : List (Bytes × List Bytes) → List (Bytes × Bytes)
pairs [] = []
pairs ((p, fs) ∷ listed) = map (λ f. (p, f)) fs ++ pairs listed

-- All the calls of the pallets of a request.
abbrev pub calls_or_none : Option (List Bytes) → List Bytes
calls_or_none none = []
calls_or_none (some fs) = fs

abbrev pub pallet_pairs : Config → List Bytes → List (Bytes × Bytes)
pallet_pairs c [] = []
pallet_pairs c (p ∷ ps) =
    map (λ f. (p, f)) (calls_or_none (c.get_call_names p)) ++ pallet_pairs c ps

pub elem-append :
    (k : Bytes × Bytes) (xs ys : List (Bytes × Bytes))
    → elem k (xs ++ ys) ≡ (elem k xs || elem k ys)
elem-append k [] ys = refl
elem-append k (x ∷ xs) ys = ground (arith, elem-append k xs ys)

-- A pallet may be paused.
abbrev pub can_pause : Config → Bytes → Bool
can_pause c p = is_utf8 p && (not (beq p c.name) && not (c.non_pausable p))

abbrev pub all_can_pause : Config → List Bytes → Bool
all_can_pause c [] = true
all_can_pause c (p ∷ ps) = can_pause c p && all_can_pause c ps

abbrev pub names : List (Bytes × List Bytes) → List Bytes
names [] = []
names ((p, fs) ∷ listed) = p ∷ names listed

module _ (k : Bytes × Bytes) where
  -- The call succeeds exactly if it is allowed; then it has blocked the calls that `hit` tells, and
  -- no other.
  abbrev pub Blocks : {A : Type 0} → Bool → Bool → Storage → Result Error (A × Storage) → Type 0
  Blocks allowed hit s (ok (_, s')) =
      (allowed ≡ true)
      × (contains_key k s'.paused_transactions ≡ (hit || contains_key k s.paused_transactions))
  Blocks allowed hit s (err e) = allowed ≡ false

  -- The same for calls that are let through.
  abbrev pub Frees : {A : Type 0} → Bool → Bool → Storage → Result Error (A × Storage) → Type 0
  Frees allowed hit s (ok (_, s')) =
      (allowed ≡ true)
      × (contains_key k s'.paused_transactions ≡ (not hit && contains_key k s.paused_transactions))
  Frees allowed hit s (err e) = allowed ≡ false

  pub bind-Blocks :
      {A B : Type 0} (a₁ a₂ h₁ h₂ : Bool) (s : Storage) (r : Result Error (A × Storage))
      (f : A → Action B)
      → Blocks a₁ h₁ s r
      → ((a : A) (s' : Storage) → Blocks a₂ h₂ s' (f a s'))
      → Blocks (a₁ && a₂) (h₁ || h₂) s (((λ _. r) >>= f) s)
  bind-Blocks a₁ a₂ h₁ h₂ s (ok (a, s')) f h g = ground (arith, g a s')
  bind-Blocks a₁ a₂ h₁ h₂ s (err e) f h g = ground arith

  pub bind-Frees :
      {A B : Type 0} (a₁ a₂ h₁ h₂ : Bool) (s : Storage) (r : Result Error (A × Storage))
      (f : A → Action B)
      → Frees a₁ h₁ s r
      → ((a : A) (s' : Storage) → Frees a₂ h₂ s' (f a s'))
      → Frees (a₁ && a₂) (h₁ || h₂) s (((λ _. r) >>= f) s)
  bind-Frees a₁ a₂ h₁ h₂ s (ok (a, s')) f h g = ground (arith, g a s')
  bind-Frees a₁ a₂ h₁ h₂ s (err e) f h g = ground arith

  pub pause_one-Blocks :
      (p f : Bytes) (d : Bool) (s : Storage) → Blocks true (beq k (p, f)) s (pause_one p f d s)
  unfolding pause_one
  pause_one-Blocks p f d s = ground (arith, contains_key-insert k (p, f) tt s.paused_transactions)

  pub unpause_one-Frees :
      (p f : Bytes) (s : Storage) → Frees true (beq k (p, f)) s (unpause_one p f s)
  unfolding unpause_one
  unpause_one-Frees p f s = ground (arith, contains_key-remove k (p, f) s.paused_transactions)

  pub pause_all-Blocks :
      (p : Bytes) (fs : List Bytes) (s : Storage)
      → Blocks true (elem k (map (λ f. (p, f)) fs)) s (for_each (λ f. pause_one p f true) fs s)
  pause_all-Blocks p [] s = (refl, refl)
  pause_all-Blocks p (f ∷ fs) s =
      bind-Blocks true true _ _ s (pause_one p f true s) _ (pause_one-Blocks p f true s)
        (λ _ s'. pause_all-Blocks p fs s')

  pub pause_calls-Blocks :
      (p : Bytes) (fs : List Bytes) (n : ℕ) (s : Storage)
      → Blocks true (elem k (map (λ f. (p, f)) fs)) s (pause_calls p fs n s)
  unfolding pause_calls
  pause_calls-Blocks p [] n s = (refl, refl)
  pause_calls-Blocks p (f ∷ fs) n s =
      bind-Blocks true true _ _ s (pause_one p f false s) _ (pause_one-Blocks p f false s)
        (λ _ s'. pause_calls-Blocks p fs (n + 1) s')

  pub unpause_all-Frees :
      (p : Bytes) (fs : List Bytes) (s : Storage)
      → Frees true (elem k (map (λ f. (p, f)) fs)) s (for_each (unpause_one p) fs s)
  unpause_all-Frees p [] s = (refl, refl)
  unpause_all-Frees p (f ∷ fs) s =
      bind-Frees true true _ _ s (unpause_one p f s) _ (unpause_one-Frees p f s)
        (λ _ s'. unpause_all-Frees p fs s')

  pub unpause_calls-Frees :
      (p : Bytes) (fs : List Bytes) (n : ℕ) (s : Storage)
      → Frees true (elem k (map (λ f. (p, f)) fs)) s (unpause_calls p fs n s)
  unfolding unpause_calls
  unpause_calls-Frees p [] n s = (refl, refl)
  unpause_calls-Frees p (f ∷ fs) n s =
      bind-Frees true true _ _ s (take_paused p f s) _
        (refl, contains_key-remove k (p, f) s.paused_transactions)
        (λ _ s'. unpause_calls-Frees p fs (n + 1) s')
