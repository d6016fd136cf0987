-- ===== src/MantaPay/Transfer/Fungible/Pool.antt =====
-- `FTTransferLedger::update_public_balances`: the pool of the pallet's account.
use hackathon_parity_eu.Prelude.{
  ℕ, ◌+◌, ◌≡◌, ◌≢◌, sym, List, [], ◌∷◌, ok, for_each, ◌>>◌, arith, All, Result-cases, inl, inr,
  bind-ok, bind-step, ◌∙◌,
}
use hackathon_parity_eu.Assets.Ledger.{keep_alive, transfer}
use hackathon_parity_eu.Assets.Ledger.Moves.{Moves, balance, transfer-balance}
use hackathon_parity_eu.MantaPay.Transfer.{
  Runtime, AccountId, World, LedgerError, LedgerAction, on_balances, expected,
}
use hackathon_parity_eu.MantaPay.Transfer.Fungible.{fungible_id, update_public_balances}

abbrev pub total : {A : Type 0} → List (A × ℕ) → ℕ
total [] = 0
total ((a, n) ∷ rest) = n + total rest

module _ (r : Runtime) (m : Moves r.pallets) where
  abbrev pub pool : ℕ → World r → ℕ
  pool id w = balance r.pallets m id r.account_id w.balances

  abbrev pay_in : ℕ → AccountId r × ℕ → LedgerAction r (Unit {0})
  pay_in id (account_id, withdraw) =
      expected (on_balances r (transfer r.pallets id account_id r.account_id withdraw keep_alive))

  abbrev pay_out : ℕ → AccountId r × ℕ → LedgerAction r (Unit {0})
  pay_out id (account_id, deposit) =
      expected (on_balances r (transfer r.pallets id r.account_id account_id deposit keep_alive))

  pay_in-pool :
      (id : ℕ) (a : AccountId r × ℕ) (w w' : World r)
      → a.0 ≢ r.account_id
      → pay_in id a w ≡ ok (tt, w')
      → pool id w' ≡ pool id w + a.1
  pay_in-pool id (a, n) w w' distinct h =
      elim (Result-cases (transfer r.pallets id a r.account_id n keep_alive w.balances)) [
        | inl ((u, b), e) ↦
            ground (arith, transfer-balance r.pallets m id a r.account_id n w.balances b distinct e)
        | inr (error, e) ↦ absurd (ground arith)
      ]

  pay_out-pool :
      (id : ℕ) (a : AccountId r × ℕ) (w w' : World r)
      → a.0 ≢ r.account_id
      → pay_out id a w ≡ ok (tt, w')
      → pool id w ≡ pool id w' + a.1
  pay_out-pool id (a, n) w w' distinct h =
      elim (Result-cases (transfer r.pallets id r.account_id a n keep_alive w.balances)) [
        | inl ((u, b), e) ↦ ground (
          arith,
          transfer-balance r.pallets m id r.account_id a n w.balances b
              (λ same. distinct (sym same)) e,
        )
        | inr (error, e) ↦ absurd (ground arith)
      ]

  abbrev AreUsers : List (AccountId r × ℕ) → Type 0
  AreUsers = All (λ a. a.0 ≢ r.account_id)

  all_in-pool :
      (id : ℕ) (sources : List (AccountId r × ℕ)) (w w' : World r)
      → AreUsers sources
      → for_each (pay_in id) sources w ≡ ok (tt, w')
      → pool id w' ≡ pool id w + total sources
  all_in-pool id [] w w' users h = ground arith
  all_in-pool id (a ∷ sources) w w' users h =
      let (u, w₁, first, rest) =
        bind-ok (pay_in id a) (λ _. for_each (pay_in id) sources) w tt w' h in
      omega (arith, pay_in-pool id a w w₁ users.0 first, all_in-pool id sources w₁ w' users.1 rest)

  all_out-pool :
      (id : ℕ) (sinks : List (AccountId r × ℕ)) (w w' : World r)
      → AreUsers sinks
      → for_each (pay_out id) sinks w ≡ ok (tt, w')
      → pool id w ≡ pool id w' + total sinks
  all_out-pool id [] w w' users h = ground arith
  all_out-pool id (a ∷ sinks) w w' users h =
      let (u, w₁, first, rest) =
        bind-ok (pay_out id a) (λ _. for_each (pay_out id) sinks) w tt w' h in
      omega (arith, pay_out-pool id a w w₁ users.0 first, all_out-pool id sinks w₁ w' users.1 rest)

  -- The pool backs the private assets: a successful update of the public balances of an asset with a
  -- fungible id, at accounts other than the pallet's own, changes the pallet's balance of the asset by
  -- what the sources pay in less what the sinks take out, if a transfer of the pallets of balances that
  -- keeps the sender alive moves the amount from the one account to the other.
  pub update_public_balances-pool :
      (asset_id : r.crypto.Fp) (id : ℕ) (sources sinks : List (AccountId r × ℕ)) (w w' : World r)
      → All (λ a. a.0 ≢ r.account_id) sources
      → All (λ a. a.0 ≢ r.account_id) sinks
      → fungible_id r {E = LedgerError r} asset_id w ≡ ok (id, w)
      → update_public_balances r asset_id sources sinks w ≡ ok (tt, w')
      → pool id w' + total sinks ≡ pool id w + total sources
  unfolding update_public_balances
  update_public_balances-pool asset_id id sources sinks w w' givers takers known h =
      let both =
        sym (
          bind-step (fungible_id r asset_id)
            (λ i. for_each (pay_in i) sources >> for_each (pay_out i) sinks) w id w known)
        ∙ h in
      let (u, w₁, paid, taken) =
        bind-ok (for_each (pay_in id) sources) (λ _. for_each (pay_out id) sinks) w tt w' both in
      omega
        (arith, all_in-pool id sources w w₁ givers paid, all_out-pool id sinks w₁ w' takers taken)
