-- ===== src/MantaPay/Transfer/NonFungible/Ownership.antt =====
-- `NFTTransferLedger`: whose items a transfer may take.
use hackathon_parity_eu.Prelude.{ℕ, ◌≡◌, refl, some, [], ◌∷◌, ok, arith}
use hackathon_parity_eu.Assets.NonFungible.{Items, owner, transfer}
use hackathon_parity_eu.MantaPay.Transfer.{Runtime, AccountId, World, LedgerError}
use hackathon_parity_eu.MantaPay.Transfer.NonFungible.{
  check_source_accounts, item_of, update_public_balances,
}

-- What the pallet of the items says of a transfer: the item then belongs to the account.
abbrev pub Gives : {AccountId D : Type 0} → Items AccountId D → Type 0
Gives {AccountId} q =
    (collection_id item_id : ℕ) (a : AccountId) (s s' : q.Store)
    → q.transfer collection_id item_id a s ≡ ok (tt, s')
    → q.owner_of collection_id item_id s' ≡ some a

module _ (r : Runtime) where
  -- The ledger of non-fungible assets takes the item of a transfer to the pallet whichever account
  -- stands as its one source, and whoever holds the item: the check of the accounts refuses none, and
  -- the update of the balances succeeds and leaves the item to the pallet's account. This holds where
  -- the asset id is that of an item which the pallet of the items can transfer, and a transfer there
  -- gives the item to its account.
  pub update_public_balances-any_source :
      (asset_id : r.crypto.Fp) (source : AccountId r) (value collection_id item_id : ℕ)
      (w : World r) (items : r.items.Store)
      → Gives r.items
      → item_of r {E = LedgerError r} asset_id w ≡ ok ((collection_id, item_id), w)
      → r.items.transfer collection_id item_id r.account_id w.items ≡ ok (tt, items)
      → (check_source_accounts r asset_id ((source, value) ∷ []) w ≡ ok ((source, value) ∷ [], w))
        × (w' : World r) × (update_public_balances r asset_id ((source, value) ∷ []) [] w
            ≡ ok (tt, w'))
        × (owner r.items collection_id item_id w'.items ≡ some r.account_id)
  unfolding check_source_accounts update_public_balances owner transfer
  update_public_balances-any_source asset_id source value collection_id item_id w items gives known
        moved =
      (
        refl,
        record w { items = items },
        ground (arith, known, moved),
        gives collection_id item_id r.account_id w.items items moved,
      )
