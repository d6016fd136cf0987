-- ===== src/MantaPay/Transfer/Examples.antt =====
-- The public side of transfers of pallets/manta-pay at concrete inputs.
use hackathon_parity_eu.Prelude.{
  ℕ, lookup-insert, ◌+◌, ◌≡◌, refl, arith, none, some, [], ◌∷◌, ok, err, nat_key, nat_pair_key,
  ℕ_discrete, nat_pair_discrete, bytes_discrete,
}
use hackathon_parity_eu.Assets.Metadata.{metadata_view}
use hackathon_parity_eu.Assets.Ledger.{transfer, ensure_valid}
use hackathon_parity_eu.Assets.NonFungible.{owner}
use hackathon_parity_eu.MantaPay.AssetId.{id_from_field, to_le_bytes, from_le_bytes}
use hackathon_parity_eu.MantaPay.Sample.Chain.{gallery, chain, start, bank_moves}
use hackathon_parity_eu.MantaPay.Transfer.{World, Metadata, panic, get_metadata}
use hackathon_parity_eu.MantaPay.Transfer.Fungible.{
  check_source_accounts, check_sink_accounts, update_public_balances,
}
use hackathon_parity_eu.MantaPay.Transfer.Fungible.Pool.{pool, total, update_public_balances-pool}
use hackathon_parity_eu.MantaPay.Transfer.Fungible.Panics.{fungible_id-panic}
use hackathon_parity_eu.MantaPay.Transfer.NonFungible as Nft
use hackathon_parity_eu.MantaPay.Transfer.NonFungible.Ownership.{
  Gives, update_public_balances-any_source,
}

-- Account 1 pays 30 of its 100 of asset 8 to the pallet.
abbrev paid : World chain
paid = record start {
  balances = record { native = []; non_native = ((8, 0), 30) ∷ ((8, 1), 70) ∷ [] };
}

paid_test : update_public_balances chain 8 ((1, 30) ∷ []) [] start ≡ ok (tt, paid)
unfolding update_public_balances get_metadata id_from_field to_le_bytes from_le_bytes metadata_view
    transfer ensure_valid bytes_discrete ℕ_discrete nat_pair_discrete
paid_test = refl

update_public_balances-pool_example :
    pool chain bank_moves 8 paid + total {A = ℕ} []
    ≡ pool chain bank_moves 8 start + total {A = ℕ} ((1, 30) ∷ [])
unfolding get_metadata id_from_field to_le_bytes from_le_bytes metadata_view bytes_discrete
    ℕ_discrete
update_public_balances-pool_example =
    update_public_balances-pool chain bank_moves 8 8 ((1, 30) ∷ []) [] start paid
      ((λ e. absurd (omega (arith, e))), tt) tt refl paid_test

no_metadata :
    (meta : Metadata chain)
    → get_metadata chain 99 ≡ ok meta
    → (metadata_view meta).get_fungible_id ≡ none
unfolding get_metadata id_from_field to_le_bytes from_le_bytes bytes_discrete ℕ_discrete
no_metadata meta h = absurd (ground arith)

-- A private deposit of the unregistered asset 99 panics.
fungible_id-panic_example :
    (check_source_accounts chain 99 ((1, 30) ∷ []) start ≡ err panic)
    × (check_sink_accounts chain 99 [] start ≡ err panic)
    × (update_public_balances chain 99 ((1, 30) ∷ []) [] start ≡ err panic)
fungible_id-panic_example = fungible_id-panic chain 99 ((1, 30) ∷ []) [] start no_metadata

gallery-Gives : Gives gallery
gallery-Gives c i a s s' h = elim (nat_pair_discrete (c, i) (c, i)) [
  | yes e ↦ ground (arith, lookup-insert {K = ℕ × ℕ} (c, i) (c, i) a s)
  | no ne ↦ absurd (ne refl)
]

-- Account 2 deposits the item of account 1.
update_public_balances-any_source_example :
    (Nft.check_source_accounts chain 9 ((2, 1) ∷ []) start ≡ ok ((2, 1) ∷ [], start))
    × (w' : World chain) × (Nft.update_public_balances chain 9 ((2, 1) ∷ []) [] start ≡ ok (tt, w'))
    × (owner gallery 3 4 w'.items ≡ some 0)
unfolding get_metadata id_from_field bytes_discrete ℕ_discrete metadata_view nat_pair_discrete
update_public_balances-any_source_example =
    update_public_balances-any_source chain 9 2 1 3 4 start (((3, 4), 0) ∷ []) gallery-Gives refl
      refl
