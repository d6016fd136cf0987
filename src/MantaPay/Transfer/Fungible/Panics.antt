-- ===== src/MantaPay/Transfer/Fungible/Panics.antt =====
-- `FTTransferLedger`: what its `expect`s meet.
use hackathon_parity_eu.Prelude.{ℕ, ◌≡◌, none, List, ok, err, arith, Result-cases, inl, inr}
use hackathon_parity_eu.Assets.Metadata.{metadata_view}
use hackathon_parity_eu.MantaPay.Transfer.{Runtime, AccountId, World, panic, get_metadata, Metadata}
use hackathon_parity_eu.MantaPay.Transfer.Fungible.{
  check_source_accounts, check_sink_accounts, update_public_balances,
}

module _ (r : Runtime) where
  -- The checks of the accounts and the update of the balances panic, whatever the accounts, at an asset
  -- that the registry does not know or that has no fungible id.
  pub fungible_id-panic :
      (asset_id : r.crypto.Fp) (sources sinks : List (AccountId r × ℕ)) (w : World r)
      → ((meta : Metadata r)
          → get_metadata r asset_id ≡ ok meta
          → (metadata_view meta).get_fungible_id ≡ none)
      → (check_source_accounts r asset_id sources w ≡ err panic)
        × (check_sink_accounts r asset_id sinks w ≡ err panic)
        × (update_public_balances r asset_id sources sinks w ≡ err panic)
  unfolding check_source_accounts check_sink_accounts update_public_balances
  fungible_id-panic asset_id sources sinks w unknown =
      elim (Result-cases (get_metadata r asset_id)) [
        | inl (meta, e) ↦ ground (arith, unknown meta e)
        | inr (fault, e) ↦ ground (arith, e)
      ]
