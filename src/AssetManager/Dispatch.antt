-- ===== src/AssetManager/Dispatch.antt =====
-- The calls of pallets/asset-manager: every dispatch is a step of the location maps.
use hackathon_parity_eu.Prelude.{ℕ, List, [], ◌∷◌, settle, settle_cases}
use hackathon_parity_eu.AssetManager.Pallet.{Config, Storage}
use hackathon_parity_eu.AssetManager.{
  register_asset, force_register_asset, update_asset_location, force_update_asset_metadata,
  set_units_per_second, force_mint_asset, set_min_xcm_fee,
}
use hackathon_parity_eu.AssetManager.Step.{
  Step, keeps, keeps_all, register_asset-Step, force_register_asset-Step,
  update_asset_location-Step, force_update_asset_metadata-Same, set_units_per_second-Same,
  force_mint_asset-Same, set_min_xcm_fee-Same,
}

-- `pallet::Call`, each with the origin that it is dispatched with.
pub data Extrinsic (c : Config) : Type 0 where
  register : c.Origin → c.AccountId → c.Metadata → Extrinsic c
  force_register : c.Origin → c.Location → c.Metadata → Extrinsic c
  update_location : c.Origin → ℕ → c.Location → Extrinsic c
  update_metadata : c.Origin → ℕ → c.Metadata → Extrinsic c
  set_units : c.Origin → ℕ → ℕ → Extrinsic c
  mint : c.Origin → ℕ → c.AccountId → ℕ → Extrinsic c
  set_fee : c.Origin → c.Location → ℕ → Extrinsic c

module _ (c : Config) where
  -- `#[transactional]`: an extrinsic that fails leaves the storage as it was.
  unfoldable pub dispatch : Extrinsic c → Storage c → Storage c
  dispatch (register o a m) s = settle s (register_asset c o a m s)
  dispatch (force_register o l m) s = settle s (force_register_asset c o l m s)
  dispatch (update_location o id l) s = settle s (update_asset_location c o id l s)
  dispatch (update_metadata o id m) s = settle s (force_update_asset_metadata c o id m s)
  dispatch (set_units o id units) s = settle s (set_units_per_second c o id units s)
  dispatch (mint o id a amount) s = settle s (force_mint_asset c o id a amount s)
  dispatch (set_fee o l fee) s = settle s (set_min_xcm_fee c o l fee s)

  unfoldable pub run : List (Extrinsic c) → Storage c → Storage c
  run [] s = s
  run (x ∷ xs) s = run xs (dispatch x s)

  -- Every dispatch of an extrinsic, of any origin and outcome, is a step: it keeps the location
  -- maps, the next id and the counts, or it is one of the three changes.
  pub dispatch-Step : (x : Extrinsic c) (s : Storage c) → Step c s (dispatch x s)
  unfolding dispatch
  dispatch-Step (register o a m) s =
      settle_cases (Step c s) s _ (keeps_all c s) (λ _ s'. register_asset-Step c o a m s s')
  dispatch-Step (force_register o l m) s =
      settle_cases (Step c s) s _ (keeps_all c s) (λ _ s'. force_register_asset-Step c o l m s s')
  dispatch-Step (update_location o id l) s =
      settle_cases (Step c s) s _ (keeps_all c s) (λ _ s'. update_asset_location-Step c o id l s s')
  dispatch-Step (update_metadata o id m) s =
      settle_cases (Step c s) s _ (keeps_all c s)
        (λ _ s' e. keeps (force_update_asset_metadata-Same c o id m s s' e))
  dispatch-Step (set_units o id units) s =
      settle_cases (Step c s) s _ (keeps_all c s)
        (λ _ s' e. keeps (set_units_per_second-Same c o id units s s' e))
  dispatch-Step (mint o id a amount) s =
      settle_cases (Step c s) s _ (keeps_all c s)
        (λ _ s' e. keeps (force_mint_asset-Same c o id a amount s s' e))
  dispatch-Step (set_fee o l fee) s =
      settle_cases (Step c s) s _ (keeps_all c s)
        (λ _ s' e. keeps (set_min_xcm_fee-Same c o l fee s s' e))
