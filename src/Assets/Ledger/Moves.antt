-- ===== src/Assets/Ledger/Moves.antt =====
-- `NativeAndNonNative::transfer`: what it does to the balances of its two accounts.
use hackathon_parity_eu.Prelude.{
  ℕ, ◌+◌, ◌≡◌, ◌≢◌, ◌==◌, true, false, ok, arith, Bool-cases, Result-cases, inl, inr,
}
use hackathon_parity_eu.Assets.Ledger.{Pallets, Balances, keep_alive, transfer}
use hackathon_parity_eu.Assets.Ledger.Routing.{ensure_valid_cases}

-- What the pallets of balances say of a transfer between two accounts that keeps the sender alive: it
-- moves the amount. Where the sender may die they may sweep its dust too, and nothing is said.
pub record Moves (p : Pallets) : Type 0 where
  pub native_balance : p.AccountId → p.Native → ℕ
  pub asset_balance : ℕ → p.AccountId → p.NonNative → ℕ
  pub native_moves :
      (a b : p.AccountId) (amount : ℕ) (s s' : p.Native)
      → a ≢ b
      → p.native_transfer a b amount keep_alive s ≡ ok (tt, s')
      → (native_balance a s ≡ native_balance a s' + amount)
        × (native_balance b s' ≡ native_balance b s + amount)
  pub asset_moves :
      (id : ℕ) (a b : p.AccountId) (amount n : ℕ) (s s' : p.NonNative)
      → a ≢ b
      → p.transfer id a b amount true s ≡ ok (n, s')
      → (asset_balance id a s ≡ asset_balance id a s' + amount)
        × (asset_balance id b s' ≡ asset_balance id b s + amount)

module _ (p : Pallets) (m : Moves p) where
  pub balance : ℕ → p.AccountId → Balances p → ℕ
  balance id a s = elim (id == p.native_asset_id) [
    | true ↦ m.native_balance a s.native
    | false ↦ m.asset_balance id a s.non_native
  ]

  -- A successful transfer of an asset between two accounts that keeps the sender alive takes the amount
  -- from the first and gives it to the second, if the pallets of the balances do so.
  pub transfer-balance :
      (id : ℕ) (a b : p.AccountId) (amount : ℕ) (s s' : Balances p)
      → a ≢ b
      → transfer p id a b amount keep_alive s ≡ ok (tt, s')
      → (balance id a s ≡ balance id a s' + amount) × (balance id b s' ≡ balance id b s + amount)
  unfolding transfer balance
  transfer-balance id a b amount s s' distinct h = elim (ensure_valid_cases p id s) [
    | inr e ↦ absurd (ground arith)
    | inl e ↦ elim (Bool-cases (id == p.native_asset_id)) [
      | inl n ↦ elim (Result-cases (p.native_transfer a b amount keep_alive s.native)) [
        | inl ((u, t), e') ↦ ground (arith, m.native_moves a b amount s.native t distinct e')
        | inr (error, e') ↦ absurd (ground arith)
      ]
      | inr n ↦ elim (Result-cases (p.transfer id a b amount true s.non_native)) [
        | inl ((u, t), e') ↦
            ground (arith, m.asset_moves id a b amount u s.non_native t distinct e')
        | inr (error, e') ↦ absurd (ground arith)
      ]
    ]
  ]
