-- ===== src/AssetManager/Examples.antt =====
-- Tests of pallets/asset-manager, and the properties at concrete inputs.
use hackathon_parity_eu.Prelude.{
  ℕ, ◌+◌, ◌≡◌, refl, Bool, true, false, none, some, List, [], ◌∷◌, arith, lookup, nat_key,
  ℕ_discrete, ◌==◌, if◌then◌else◌,
}
use hackathon_parity_eu.AssetManager.Pallet.{Config, Storage, parachain, account_id32}
use hackathon_parity_eu.AssetManager.{
  build, register_asset, force_register_asset, update_asset_location, increased, decreased,
  para_id_of,
}
use hackathon_parity_eu.AssetManager.Dispatch.{
  Extrinsic, register, force_register, update_location, mint, run, dispatch,
}
use hackathon_parity_eu.AssetManager.Invariant.{
  IsConsistent, build-IsConsistent, run-build-IsConsistent,
}
use hackathon_parity_eu.AssetManager.NativeLocation.{update_asset_location-loses_native}
use hackathon_parity_eu.AssetManager.ParaCount.{IsCounted, build-IsCounted, run-IsCounted}
use hackathon_parity_eu.AssetManager.Registration.{register_asset-fresh}

-- Location 0 is the native asset's; a location n above 0 is on the chain n.
abbrev dolphin : Config
dolphin = record {
  Origin = Bool;
  AccountId = ℕ;
  Location = ℕ;
  MultiLocation = ℕ;
  Metadata = ℕ;
  Identifier = ℕ;
  Registry = ℕ;
  location_key = nat_key;
  identifier_key = nat_key;
  is_signed = λ o. true;
  modifier_origin = λ o. o;
  into_multilocation = λ l. some l;
  from_multilocation = λ l. l;
  parents = λ l. 1;
  interior = λ l. if l == 0 then [] else parachain l ∷ account_id32 ∷ [];
  into_identifier = λ m. m;
  asset_id_bound = 1000;
  start_non_native_asset_id = 8;
  native_asset_id = 1;
  native_asset_location = 0;
  native_asset_metadata = 0;
  create_asset = λ o id a m r. some (r + 1);
  force_create_asset = λ id m r. some (r + 1);
  force_update_metadata = λ id m r. some r;
  deposit_minting_with_check = λ id a n b r. some (r + n);
}

abbrev genesis : Storage dolphin
genesis = build dolphin 8 0

abbrev calls : List (Extrinsic dolphin)
calls =
    register false 5 7
    ∷ force_register true 2000 3
    ∷ update_location true 9 2001
    ∷ force_register false 2002 4
    ∷ []

after-calls :
    let s = run dolphin calls genesis in
    (s.next_asset_id ≡ 10)
    × (s.location_asset_id ≡ (2001, 9) ∷ (0, 1) ∷ [])
    × (s.allowed_dest_para_ids ≡ (2001, 1) ∷ [])
unfolding run dispatch build register_asset force_register_asset update_asset_location increased
    decreased para_id_of ℕ_discrete
after-calls = (refl, refl, refl)

run-build-IsConsistent_example : IsConsistent dolphin (run dolphin calls (build dolphin 8 0))
run-build-IsConsistent_example = run-build-IsConsistent dolphin calls 8 0 (omega arith)

-- `register_asset` puts the asset 8 at location 0; its update takes location 0 from the native asset.
abbrev one_registered : Storage dolphin
one_registered = run dolphin (register false 5 7 ∷ []) genesis

update_asset_location-loses_native_example :
    let s' = run dolphin (update_location true 8 2001 ∷ []) one_registered in
    (lookup 0 s'.location_asset_id ≡ none)
    × (lookup 1 s'.asset_id_location ≡ lookup 1 one_registered.asset_id_location)
unfolding run dispatch build register_asset update_asset_location increased decreased para_id_of
    ℕ_discrete
update_asset_location-loses_native_example =
    update_asset_location-loses_native dolphin true 8 2001 one_registered
      (run dolphin (update_location true 8 2001 ∷ []) one_registered) refl refl (omega arith) refl

abbrev placed : Storage dolphin
placed = run dolphin (force_register true 2000 3 ∷ []) genesis

placed-IsCounted : IsCounted dolphin placed
unfolding run dispatch build force_register_asset increased para_id_of ℕ_discrete
placed-IsCounted =
    run-IsCounted dolphin (force_register true 2000 3 ∷ []) genesis
      (build-IsConsistent dolphin 8 0 (omega arith)) (build-IsCounted dolphin 8 0)
      (λ id h. ground arith, λ p. ground arith, tt)

run-IsCounted_example : IsCounted dolphin placed
unfolding run dispatch build force_register_asset increased para_id_of ℕ_discrete
run-IsCounted_example =
    run-IsCounted dolphin (force_register true 2000 3 ∷ []) genesis
      (build-IsConsistent dolphin 8 0 (omega arith)) (build-IsCounted dolphin 8 0)
      (λ id h. ground arith, λ p. ground arith, tt)

register_asset-fresh_example :
    let s' = run dolphin (register false 5 7 ∷ []) genesis in
    (lookup 7 genesis.registered_asset_id ≡ none)
    × (lookup 8 genesis.asset_id_location ≡ none)
    × (lookup 7 s'.registered_asset_id ≡ some 8)
    × (lookup 1 s'.asset_id_metadata ≡ some 0)
    × (lookup 1 s'.asset_id_location ≡ some 0)
unfolding run dispatch build register_asset ℕ_discrete
register_asset-fresh_example =
    register_asset-fresh dolphin false 5 7 genesis (run dolphin (register false 5 7 ∷ []) genesis) 7
      1 (build-IsConsistent dolphin 8 0 (omega arith)) refl

abbrev minted : Storage dolphin
minted = run dolphin (mint true 1 5 100 ∷ []) genesis
