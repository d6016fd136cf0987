-- ===== src/MantaPay/Extrinsics/PublicTransfer.antt =====
-- `public_transfer` of pallets/manta-pay/src/lib.rs: who may move what.
use hackathon_parity_eu.Prelude.{
  ℕ, ◌≡◌, true, false, some, [], ◌∷◌, ◌++◌, ok, arith, Bool-cases, Option-cases, Result-cases, inl,
  inr, beq, Key,
}
use hackathon_parity_eu.Assets.Metadata.{metadata_view}
use hackathon_parity_eu.Assets.Ledger as Balance
use hackathon_parity_eu.Assets.Ledger.{keep_alive}
use hackathon_parity_eu.Assets.NonFungible as Item
use hackathon_parity_eu.MantaPay.AssetId.{id_from_field, from_le_bytes}
use hackathon_parity_eu.MantaPay.Post.{Asset}
use hackathon_parity_eu.MantaPay.Transfer.{Runtime, AccountId, World, Metadata, Event}
use hackathon_parity_eu.MantaPay.Extrinsics.{public_transfer}

module _ (r : Runtime) where
  instance abbrev account_key : Key (AccountId r)
  account_key = r.account_key

  beq→eq : (x y : AccountId r) → beq x y ≡ true → x ≡ y
  beq→eq x y h = ground arith

  -- That the account holds the item of the asset.
  abbrev pub Holds : AccountId r → Metadata r → World r → Type 0
  Holds a meta w =
      (c : ℕ) × (i : ℕ) × ((metadata_view meta).get_non_fungible_id ≡ some (c, i))
      × (Item.owner r.items c i w.items ≡ some a)

  -- A public transfer that succeeds is of an asset that the registry knows, and of an item only if the
  -- signer holds it; it leaves the private storage as it was, and adds the one event of the transfer.
  pub public_transfer-Holds :
      (a sink : AccountId r) (asset : Asset) (w w' : World r)
      → public_transfer r (some a) asset sink w ≡ ok (tt, w')
      → (id : ℕ) × (meta : Metadata r) × (id_from_field asset.id ≡ some id)
        × (r.get_metadata id ≡ some meta)
        × ((metadata_view meta).is_fungible ≡ false → Holds a meta w)
        × (w'.pay ≡ w.pay)
        × (w'.events ≡ w.events ++ Event.transfer asset a sink ∷ [])
  unfolding public_transfer
  public_transfer-Holds a sink asset w w' h = elim (Option-cases (id_from_field asset.id)) [
    | inl e ↦ absurd (ground arith)
    | inr (id, e) ↦ elim (Option-cases (r.get_metadata id)) [
      | inl e₁ ↦ absurd (ground arith)
      | inr (meta, e₁) ↦ elim (Bool-cases (metadata_view meta).is_fungible) [
        | inl f ↦
            elim (Result-cases (
              Balance.transfer r.pallets id a sink (from_le_bytes asset.value) keep_alive
                w.balances)) [
                  | inr (error, e₂) ↦ absurd (ground arith)
                  | inl ((u, b), e₂) ↦
                      (id, meta, e, e₁, λ g. absurd (ground arith), ground arith, ground arith)
                ]
        | inr f ↦ elim (Option-cases (metadata_view meta).get_non_fungible_id) [
          | inl e₂ ↦ absurd (ground arith)
          | inr ((c, i), e₂) ↦ elim (Option-cases (Item.owner r.items c i w.items)) [
            | inl e₃ ↦ absurd (ground arith)
            | inr (holder, e₃) ↦ elim (Bool-cases (beq holder a)) [
              | inr e₄ ↦ absurd (ground arith)
              | inl e₄ ↦ elim (Result-cases (Item.transfer r.items c i sink w.items)) [
                | inr (error, e₅) ↦ absurd (ground arith)
                | inl ((u, b), e₅) ↦ (
                  id,
                  meta,
                  e,
                  e₁,
                  λ _. (c, i, e₂, ground (arith, beq→eq holder a e₄)),
                  ground arith,
                  ground arith,
                )
              ]
            ]
          ]
        ]
      ]
    ]
  ]
