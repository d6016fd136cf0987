-- ===== src/AssetManager/Invariant.antt =====
-- The two location maps of pallets/asset-manager agree.
use hackathon_parity_eu.Prelude.{
  ℕ, ◌<◌, ◌≡◌, ◌≢◌, some, List, [], ◌∷◌, Key, lookup, arith, nat_key, lookup_after_insert,
  lookup_after_move,
}
use hackathon_parity_eu.AssetManager.Pallet.{Config, Storage}
use hackathon_parity_eu.AssetManager.{build}
use hackathon_parity_eu.AssetManager.Step.{Step, keeps, adds_native, adds, moves}
use hackathon_parity_eu.AssetManager.Dispatch.{Extrinsic, dispatch, run, dispatch-Step}

module _ (c : Config) where
  instance abbrev location_key : Key c.Location
  location_key = c.location_key

  -- Ids are handed out in order; an id that a location maps to has that location; and an asset away
  -- from the native asset's location is found there.
  pub record IsConsistent (s : Storage c) : Type 0 where
    pub fresh :
        (id : ℕ) (l : c.Location) → lookup id s.asset_id_location ≡ some l → id < s.next_asset_id
    pub back :
        (l : c.Location) (id : ℕ)
        → lookup l s.location_asset_id ≡ some id
        → lookup id s.asset_id_location ≡ some l
    pub forth :
        (id : ℕ) (l : c.Location)
        → lookup id s.asset_id_location ≡ some l
        → l ≢ c.native_asset_location
        → lookup l s.location_asset_id ≡ some id

  pub Step-IsConsistent : {s s' : Storage c} → Step c s s' → IsConsistent s → IsConsistent s'
  Step-IsConsistent {s} {s'} (keeps k) v = record {
    fresh = λ id l h. ground (arith, v.fresh id l);
    back = λ l id h. ground (arith, v.back l id);
    forth = λ id l h ne. ground (arith, v.forth id l);
  }
  Step-IsConsistent {s} {s'} (adds_native e₁ e₂ e₃ e₄) v =
      let after =
        λ (id : ℕ). lookup_after_insert id s.next_asset_id c.native_asset_location _ _ e₁ in
      record {
        fresh = λ id l h. ground (arith, v.fresh id l, after id);
        back = λ l id h. ground (arith, v.back l id, v.fresh id l, after id);
        forth = λ id l h ne. ground (arith, v.forth id l, after id);
      }
  Step-IsConsistent {s} {s'} (adds k free e₁ e₂ e₃ e₄) v =
      let after = λ (id : ℕ). lookup_after_insert id s.next_asset_id k _ _ e₁ in
      let after_at = λ (l : c.Location). lookup_after_insert l k s.next_asset_id _ _ e₂ in
      record {
        fresh = λ id l h. ground (arith, v.fresh id l, after id);
        back = λ l id h. ground (arith, v.back l id, v.fresh id l, after id, after_at l);
        forth = λ id l h ne. ground (arith, v.forth id l, after id, after_at l);
      }
  Step-IsConsistent {s} {s'} (moves i old k found free e₁ e₂ e₃ e₄) v =
      let after = λ (id : ℕ). lookup_after_insert id i k _ _ e₁ in
      let after_at = λ (l : c.Location). lookup_after_move l old k i _ _ e₂ in
      record {
        fresh = λ id l h. ground (arith, v.fresh id l, v.fresh i old, after id);
        back = λ l id h. ground (arith, v.back l id, after id, after_at l);
        forth = λ id l h ne. ground (arith, v.forth id l, v.forth i old, after id, after_at l);
      }

  -- From a consistent storage every sequence of extrinsics leads to a consistent storage.
  pub run-IsConsistent :
      (xs : List (Extrinsic c)) (s : Storage c) → IsConsistent s → IsConsistent (run c xs s)
  unfolding run
  run-IsConsistent [] s v = v
  run-IsConsistent (x ∷ xs) s v =
      run-IsConsistent xs (dispatch c x s) (Step-IsConsistent (dispatch-Step c x s) v)

  pub build-IsConsistent :
      (start : ℕ) (r : c.Registry) → c.native_asset_id < start → IsConsistent (build c start r)
  unfolding build
  build-IsConsistent start r h = record {
    fresh = λ id l e. ground arith;
    back = λ l id e. ground arith;
    forth = λ id l e ne. ground arith;
  }

  -- From the genesis, whose first free id is above the native asset's, every sequence of extrinsics
  -- keeps the two location maps consistent: an id is below the next free id, the location map is
  -- inverted by the id map, and so is the id map away from the native asset's location.
  pub run-build-IsConsistent :
      (xs : List (Extrinsic c)) (start : ℕ) (r : c.Registry)
      → c.native_asset_id < start
      → IsConsistent (run c xs (build c start r))
  run-build-IsConsistent xs start r h = run-IsConsistent xs _ (build-IsConsistent start r h)
