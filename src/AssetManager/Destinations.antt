-- ===== src/AssetManager/Destinations.antt =====
-- The destinations that pallets/asset-manager supports, by `Contains<MultiLocation>`.
use hackathon_parity_eu.Prelude.{ℕ, ◌≡◌, ◌⊎◌, not, ◌&&◌, Key, [], ◌∷◌, arith, ◌==◌, count_keys}
use hackathon_parity_eu.AssetManager.Pallet.{
  Config, Storage, Junction, parachain, account_id32, account_key20,
}
use hackathon_parity_eu.AssetManager.{contains}
use hackathon_parity_eu.AssetManager.ParaCount.{IsCounted, at}

module _ (c : Config) where
  instance abbrev location_key : Key c.Location
  location_key = c.location_key

  -- With the right counts, an account on a sibling chain is a supported destination exactly if its
  -- location has one parent and some registered location is on that chain.
  pub contains-sibling :
      (s : Storage c) (m : c.MultiLocation) (p : ℕ) (account : Junction)
      → IsCounted c s
      → (account ≡ account_id32) ⊎ (account ≡ account_key20)
      → c.interior m ≡ parachain p ∷ account ∷ []
      → contains c m s ≡ (c.parents m == 1 && not (count_keys (at c p) s.location_asset_id == 0))
  unfolding contains
  contains-sibling s m p account v kind e = ground (arith, v.counts p)
