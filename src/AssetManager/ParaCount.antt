-- ===== src/AssetManager/ParaCount.antt =====
-- `AllowedDestParaIds` of pallets/asset-manager counts the registered locations of each para id. The
-- location of the native asset is registered by the genesis, which counts nothing.
use hackathon_parity_eu.Prelude.{
  ℕ, ◌+◌, ◌-◌, ◌^◌, ◌<◌, ◌≡◌, ◌≢◌, refl, Bool, not, ◌&&◌, Option, some, none, List, [], ◌∷◌, Key,
  StorageMap, lookup, insert, remove, arith, nat_key, ◌==◌, if◌then◌else◌, beq, Distinct,
  insert-Distinct, remove-Distinct, count_keys, count_keys-insert, count_keys-remove, lookup-remove,
  lookup_after_insert, lookup_after_move,
}
use hackathon_parity_eu.AssetManager.Pallet.{Config, Storage}
use hackathon_parity_eu.AssetManager.{build, increased, decreased, para_id_of}
use hackathon_parity_eu.AssetManager.Step.{Step, keeps, adds_native, adds, moves, enter, leave}
use hackathon_parity_eu.AssetManager.Dispatch.{Extrinsic, dispatch, run, dispatch-Step}
use hackathon_parity_eu.AssetManager.Invariant.{IsConsistent, Step-IsConsistent}

-- The entry of a count: none for zero.
abbrev pub counted : ℕ → Option ℕ
counted n = if n == 0 then none else some n

lookup-increased :
    (p q n : ℕ) (m : StorageMap ℕ ℕ)
    → lookup p m ≡ counted n
    → n < 2 ^ 32 - 1
    → lookup p (increased q m) ≡ counted (n + (if q == p then 1 else 0))
unfolding increased
lookup-increased p q n m h small = ground (arith, lookup-remove p q m)

lookup-decreased :
    (p q n : ℕ) (m : StorageMap ℕ ℕ)
    → lookup p m ≡ counted n
    → lookup p (decreased q m) ≡ counted (n - (if q == p then 1 else 0))
unfolding decreased
lookup-decreased p q n m h = ground (arith, lookup-remove p q m)

-- The change of the count of `p` that the para id of a location makes.
abbrev hits : ℕ → Option ℕ → ℕ
hits p none = 0
hits p (some q) = if q == p then 1 else 0

lookup-enter :
    (p : ℕ) (o : Option ℕ) (n : ℕ) (m : StorageMap ℕ ℕ)
    → lookup p m ≡ counted n
    → n < 2 ^ 32 - 1
    → lookup p (enter o m) ≡ counted (n + hits p o)
lookup-enter p none n m h small = ground arith
lookup-enter p (some q) n m h small = lookup-increased p q n m h small

lookup-leave :
    (p : ℕ) (o : Option ℕ) (n : ℕ) (m : StorageMap ℕ ℕ)
    → lookup p m ≡ counted n
    → lookup p (leave o m) ≡ counted (n - hits p o)
lookup-leave p none n m h = ground arith
lookup-leave p (some q) n m h = lookup-decreased p q n m h

module _ (c : Config) where
  instance abbrev location_key : Key c.Location
  location_key = c.location_key

  -- The locations of the para id, the native asset's aside.
  abbrev pub at : ℕ → c.Location → Bool
  at p l = hits p (para_id_of c l) == 1 && not (beq l c.native_asset_location)

  -- Every para id has as its entry the number of the registered locations in it, the native asset's
  -- aside, and none for zero.
  pub record IsCounted (s : Storage c) : Type 0 where
    pub distinct : Distinct s.location_asset_id
    pub native : lookup c.native_asset_location s.location_asset_id ≡ some c.native_asset_id
    pub counts :
        (p : ℕ) → lookup p s.allowed_dest_para_ids ≡ counted (count_keys (at p) s.location_asset_id)

  -- There is room for one more location, in a `u32`.
  abbrev HasRoom : Storage c → Type 0
  HasRoom s = (p : ℕ) → count_keys (at p) s.location_asset_id < 2 ^ 32 - 1

  -- No asset leaves the native asset's location.
  abbrev Stays : Storage c → Storage c → Type 0
  Stays s s' =
      (id : ℕ)
      → lookup id s.asset_id_location ≡ some c.native_asset_location
      → lookup id s'.asset_id_location ≡ some c.native_asset_location

  hits-at :
      (p : ℕ) (l : c.Location)
      → l ≢ c.native_asset_location
      → hits p (para_id_of c l) ≡ (if at p l then 1 else 0)
  hits-at p l ne = ground arith

  free-ne-native :
      (s : Storage c) (l : c.Location)
      → IsCounted s
      → lookup l s.location_asset_id ≡ none
      → l ≢ c.native_asset_location
  free-ne-native s l v free e = ground (arith, v.native)

  adds-counts :
      (s s' : Storage c) (l : c.Location) (id p : ℕ)
      → IsCounted s
      → HasRoom s
      → lookup l s.location_asset_id ≡ none
      → s'.location_asset_id ≡ insert l id s.location_asset_id
      → s'.allowed_dest_para_ids ≡ enter (para_id_of c l) s.allowed_dest_para_ids
      → lookup p s'.allowed_dest_para_ids ≡ counted (count_keys (at p) s'.location_asset_id)
  adds-counts s s' l id p v room free e₁ e₂ =
      let n = count_keys (at p) s.location_asset_id in
      rw (e₁, e₂, count_keys-insert (at p) l id s.location_asset_id free)
        (ground (
          arith,
          lookup-enter p (para_id_of c l) n s.allowed_dest_para_ids (v.counts p) (room p),
          hits-at p l (free-ne-native s l v free),
        ))

  moves-counts :
      (s s' : Storage c) (old l : c.Location) (id p : ℕ)
      → IsConsistent c s
      → IsCounted s
      → HasRoom s
      → lookup id s.asset_id_location ≡ some old
      → old ≢ c.native_asset_location
      → lookup l s.location_asset_id ≡ none
      → s'.location_asset_id ≡ insert l id (remove old s.location_asset_id)
      → s'.allowed_dest_para_ids
        ≡ enter (para_id_of c l) (leave (para_id_of c old) s.allowed_dest_para_ids)
      → lookup p s'.allowed_dest_para_ids ≡ counted (count_keys (at p) s'.location_asset_id)
  moves-counts s s' old l id p w v room found ne free e₁ e₂ =
      let m = count_keys (at p) (remove old s.location_asset_id) in
      let n = count_keys (at p) s.location_asset_id in
      let there : lookup old s.location_asset_id ≡ some id = w.forth id old found ne in
      let gone : m + (if at p old then 1 else 0) ≡ n =
        ground (arith, count_keys-remove (at p) old s.location_asset_id v.distinct) in
      let small : m < 2 ^ 32 - 1 = ground (arith, room p) in
      let still_free : lookup l (remove old s.location_asset_id) ≡ none =
        ground (arith, lookup-remove l old s.location_asset_id) in
      let left_counts : lookup p (leave (para_id_of c old) s.allowed_dest_para_ids) ≡ counted m =
        ground (
          arith,
          lookup-leave p (para_id_of c old) n s.allowed_dest_para_ids (v.counts p),
          hits-at p old ne,
        ) in
      rw (e₁, e₂, count_keys-insert (at p) l id (remove old s.location_asset_id) still_free)
        (ground (
          arith,
          lookup-enter p (para_id_of c l) m (leave (para_id_of c old) s.allowed_dest_para_ids)
              left_counts small,
          hits-at p l (free-ne-native s l v free),
        ))

  moves-from_native :
      (s s' : Storage c) (old l : c.Location) (id : ℕ)
      → IsCounted s
      → Stays s s'
      → lookup id s.asset_id_location ≡ some old
      → lookup l s.location_asset_id ≡ none
      → s'.asset_id_location ≡ insert id l s.asset_id_location
      → old ≢ c.native_asset_location
  moves-from_native s s' old l id v stays found free e₁ e =
      ground (arith, stays id, free-ne-native s l v free, lookup_after_insert id id l _ _ e₁)

  Step-IsCounted :
      {s s' : Storage c}
      → Step c s s'
      → IsConsistent c s
      → Stays s s'
      → HasRoom s
      → IsCounted s
      → IsCounted s'
  Step-IsCounted {s} {s'} (keeps k) w ordinary room v = record {
    distinct = rw k.same_asset_id v.distinct;
    native = rw k.same_asset_id v.native;
    counts = λ p. rw (k.same_asset_id, k.same_counts) (v.counts p);
  }
  Step-IsCounted {s} {s'} (adds_native e₁ e₂ e₃ e₄) w ordinary room v = record {
    distinct = rw e₂ v.distinct;
    native = rw e₂ v.native;
    counts = λ p. rw (e₂, e₄) (v.counts p);
  }
  Step-IsCounted {s} {s'} (adds l free e₁ e₂ e₃ e₄) w ordinary room v = record {
    distinct = rw e₂ (insert-Distinct l s.next_asset_id s.location_asset_id v.distinct);
    native =
        ground
          (arith, v.native, lookup_after_insert c.native_asset_location l s.next_asset_id _ _ e₂);
    counts = λ p. adds-counts s s' l s.next_asset_id p v room free e₂ e₄;
  }
  Step-IsCounted {s} {s'} (moves id old l found free e₁ e₂ e₃ e₄) w ordinary room v =
      let ne : old ≢ c.native_asset_location =
        λ e. moves-from_native s s' old l id v ordinary found free e₁ e in
      record {
        distinct = rw e₂ (
            insert-Distinct l id (remove old s.location_asset_id)
              (remove-Distinct old s.location_asset_id v.distinct));
        native =
            ground (arith, v.native, lookup_after_move c.native_asset_location old l id _ _ e₂);
        counts = λ p. moves-counts s s' old l id p w v room found ne free e₂ e₄;
      }

  -- Along the run no asset leaves the native asset's location, and the counts stay below 2 ^ 32 - 1.
  abbrev pub IsOrdinary : List (Extrinsic c) → Storage c → Type 0
  IsOrdinary [] s = Unit
  IsOrdinary (x ∷ xs) s = Stays s (dispatch c x s) × HasRoom s × IsOrdinary xs (dispatch c x s)

  -- In a consistent storage whose counts are right they stay right over a run of extrinsics that
  -- moves no asset away from the native asset's location and leaves room in the counts: the entry
  -- of each para id is the number of the registered locations in it other than the native asset's, and
  -- absent where there is none.
  pub run-IsCounted :
      (xs : List (Extrinsic c)) (s : Storage c)
      → IsConsistent c s
      → IsCounted s
      → IsOrdinary xs s
      → IsCounted (run c xs s)
  unfolding run
  run-IsCounted [] s w v o = v
  run-IsCounted (x ∷ xs) s w v o =
      let st = dispatch-Step c x s in
      run-IsCounted xs (dispatch c x s) (Step-IsConsistent c st w) (Step-IsCounted st w o.0 o.1 v)
        o.2

  pub build-IsCounted : (start : ℕ) (r : c.Registry) → IsCounted (build c start r)
  unfolding build
  build-IsCounted start r = record {
    distinct = (refl, tt);
    native = ground arith;
    counts = λ p. ground arith;
  }
