-- ===== src/Assets/Ledger/Routing.antt =====
-- `NativeAndNonNative`: what a change of the balances reaches, and what it refuses.
use hackathon_parity_eu.Prelude.{
  ℕ, ◌≡◌, ◌<◌, refl, Bool, true, false, ◌||◌, ok, err, ◌>>◌, ◌⊎◌, leb, ◌==◌, arith, Bool-cases,
  Result-cases, inl, inr, sym, ◌∙◌, subst, bind-ok, if◌then◌else◌,
}
use hackathon_parity_eu.Assets.Ledger.{
  Pallets, Balances, ExistenceRequirement, FungibleLedgerError, invalid_asset_id,
  cannot_withdraw_more_than, LedgerCall, LedgerError, is_keep_alive, ensure_valid, can_deposit,
  deposit_minting, deposit_minting_with_check, transfer, can_withdraw, withdraw_burning,
  from_deposit, DepositConsequence, below_minimum, cannot_create, unknown_asset, overflow, success,
}

module _ (p : Pallets) where
  -- A change of the balances, with its arguments.
  pub data Change : Type 0 where
    deposit : p.AccountId → ℕ → Change
    deposit_with_check : p.AccountId → ℕ → Bool → Change
    move : p.AccountId → p.AccountId → ℕ → ExistenceRequirement → Change
    withdraw : p.AccountId → ℕ → ExistenceRequirement → Change

  unfoldable pub apply : ℕ → Change → LedgerCall p (Unit {0})
  apply id (deposit account amount) = deposit_minting p id account amount
  apply id (deposit_with_check account amount increase) =
      deposit_minting_with_check p id account amount increase
  apply id (move source destination amount requirement) =
      transfer p id source destination amount requirement
  apply id (withdraw who amount requirement) = withdraw_burning p id who amount requirement

  -- A change of an asset that is neither native nor at or above the first non-native id is refused
  -- with `invalid_asset_id`.
  pub apply-invalid :
      (id : ℕ) (c : Change) (s : Balances p)
      → (id == p.native_asset_id) ≡ false
      → id < p.start_non_native_asset_id
      → apply id c s ≡ err (invalid_asset_id id)
  unfolding apply ensure_valid deposit_minting deposit_minting_with_check transfer withdraw_burning
  apply-invalid id (deposit account amount) s n h = ground arith
  apply-invalid id (deposit_with_check account amount increase) s n h = ground arith
  apply-invalid id (move source destination amount requirement) s n h = ground arith
  apply-invalid id (withdraw who amount requirement) s n h = ground arith

  from_deposit_cases :
      (c : DepositConsequence) (s : Balances p)
      → (from_deposit p c s ≡ ok (tt, s))
        ⊎ ((e : LedgerError p) × ((s' : Balances p) → from_deposit p c s' ≡ err e))
  unfolding from_deposit
  from_deposit_cases below_minimum s = inr (FungibleLedgerError.below_minimum, λ _. refl)
  from_deposit_cases cannot_create s = inr (FungibleLedgerError.cannot_create, λ _. refl)
  from_deposit_cases overflow s = inr (FungibleLedgerError.overflow, λ _. refl)
  from_deposit_cases unknown_asset s = inr (FungibleLedgerError.unknown_asset, λ _. refl)
  from_deposit_cases success s = inl refl

  pub ensure_valid_cases :
      (id : ℕ) (s : Balances p)
      → (ensure_valid p id s ≡ ok (id, s)) ⊎ (ensure_valid p id s ≡ err (invalid_asset_id id))
  unfolding ensure_valid
  ensure_valid_cases id s =
      elim (Bool-cases (leb p.start_non_native_asset_id id || id == p.native_asset_id)) [
        | inl e ↦ inl (ground arith)
        | inr e ↦ inr (ground arith)
      ]

  -- A deposit with a check has the result of the check followed by the deposit, errors included.
  pub deposit_minting_with_check-can_deposit :
      (id : ℕ) (account : p.AccountId) (amount : ℕ) (increase : Bool) (s : Balances p)
      → deposit_minting_with_check p id account amount increase s
        ≡ (can_deposit p id account amount increase >> deposit_minting p id account amount) s
  unfolding deposit_minting_with_check can_deposit deposit_minting
  deposit_minting_with_check-can_deposit id account amount increase s =
      elim (ensure_valid_cases id s) [
        | inr e ↦ ground arith
        | inl e ↦ elim (Bool-cases (id == p.native_asset_id)) [
          | inl n ↦
              elim (from_deposit_cases (p.native_can_deposit account amount false s.native) s) [
                | inl f ↦ ground arith
                | inr (error, f) ↦ ground (arith, f s)
              ]
          | inr n ↦
              elim (from_deposit_cases (p.can_deposit id account amount increase s.non_native) s) [
                | inl f ↦ ground arith
                | inr (error, f) ↦ ground (arith, f s)
              ]
        ]
      ]

  -- What a success may have changed, by whether the asset is the native one.
  abbrev Routes : ℕ → Balances p → Balances p → Type 0
  Routes id s s' =
      ((id == p.native_asset_id) ≡ true → s'.non_native ≡ s.non_native)
      × ((id == p.native_asset_id) ≡ false → s'.native ≡ s.native)

  deposit_minting-Routes :
      (id : ℕ) (account : p.AccountId) (amount : ℕ) (s s' : Balances p)
      → deposit_minting p id account amount s ≡ ok (tt, s')
      → Routes id s s'
  unfolding deposit_minting
  deposit_minting-Routes id account amount s s' h = elim (ensure_valid_cases id s) [
    | inr e ↦ absurd (ground arith)
    | inl e ↦ elim (Bool-cases (id == p.native_asset_id)) [
      | inl n ↦ ground arith
      | inr n ↦ elim (Result-cases (p.mint_into id account amount s.non_native)) [
        | inl r ↦ ground (arith, r.1)
        | inr r ↦ ground (arith, r.1)
      ]
    ]
  ]

  can_deposit_same :
      (id : ℕ) (account : p.AccountId) (amount : ℕ) (increase : Bool) (i : ℕ) (s s' : Balances p)
      → can_deposit p id account amount increase s ≡ ok (i, s')
      → s' ≡ s
  unfolding can_deposit
  can_deposit_same id account amount increase i s s' h = elim (ensure_valid_cases id s) [
    | inr e ↦ absurd (ground arith)
    | inl e ↦ elim (Bool-cases (id == p.native_asset_id)) [
      | inl n ↦ elim (from_deposit_cases (p.native_can_deposit account amount false s.native) s) [
        | inl f ↦ ground arith
        | inr (error, f) ↦ absurd (ground (arith, f s))
      ]
      | inr n ↦
          elim (from_deposit_cases (p.can_deposit id account amount increase s.non_native) s) [
            | inl f ↦ ground arith
            | inr (error, f) ↦ absurd (ground (arith, f s))
          ]
    ]
  ]

  deposit_minting_with_check-Routes :
      (id : ℕ) (account : p.AccountId) (amount : ℕ) (increase : Bool) (s s' : Balances p)
      → deposit_minting_with_check p id account amount increase s ≡ ok (tt, s')
      → Routes id s s'
  deposit_minting_with_check-Routes id account amount increase s s' h =
      let both = sym (deposit_minting_with_check-can_deposit id account amount increase s) ∙ h in
      let (i, s₁, checked, deposited) =
        bind-ok (can_deposit p id account amount increase)
          (λ _. deposit_minting p id account amount) s tt s' both in
      deposit_minting-Routes id account amount s s' (
        subst (λ m. deposit_minting p id account amount m ≡ ok (tt, s'))
          (can_deposit_same id account amount increase i s s₁ checked) deposited)

  transfer-Routes :
      (id : ℕ) (source destination : p.AccountId) (amount : ℕ) (requirement : ExistenceRequirement)
      (s s' : Balances p)
      → transfer p id source destination amount requirement s ≡ ok (tt, s')
      → Routes id s s'
  unfolding transfer
  transfer-Routes id source destination amount requirement s s' h = elim (ensure_valid_cases id s) [
    | inr e ↦ absurd (ground arith)
    | inl e ↦ elim (Bool-cases (id == p.native_asset_id)) [
      | inl n ↦
          elim (Result-cases (p.native_transfer source destination amount requirement s.native)) [
            | inl r ↦ ground (arith, r.1)
            | inr r ↦ absurd (ground (arith, r.1))
          ]
      | inr n ↦
          let alive = is_keep_alive p requirement in
          elim (Result-cases (p.transfer id source destination amount alive s.non_native)) [
            | inl r ↦ ground (arith, r.1)
            | inr r ↦ absurd (ground (arith, r.1))
          ]
    ]
  ]

  -- What an account can spend of an asset.
  pub reducible : ℕ → p.AccountId → ExistenceRequirement → Balances p → ℕ
  reducible id who requirement s = elim (id == p.native_asset_id) [
    | true ↦ p.native_reducible_balance who (is_keep_alive p requirement) s.native
    | false ↦ p.reducible_balance id who (is_keep_alive p requirement) s.non_native
  ]

  -- The test of a withdrawal changes no balance: for a valid id it gives the id back if the amount is
  -- at most what the account can spend of the asset, and otherwise refuses with that bound.
  pub can_withdraw-reducible :
      (id : ℕ) (who : p.AccountId) (amount : ℕ) (requirement : ExistenceRequirement)
      (s : Balances p)
      → ensure_valid p id s ≡ ok (id, s)
      → can_withdraw p id who amount requirement s ≡ (
          if leb amount (reducible id who requirement s)
          then ok (id, s)
          else err (cannot_withdraw_more_than (reducible id who requirement s)))
  unfolding can_withdraw reducible
  can_withdraw-reducible id who amount requirement s e =
      elim (Bool-cases (id == p.native_asset_id)) [ inl n ↦ ground arith | inr n ↦ ground arith ]

  withdraw_burning-Routes :
      (id : ℕ) (who : p.AccountId) (amount : ℕ) (requirement : ExistenceRequirement)
      (s s' : Balances p)
      → withdraw_burning p id who amount requirement s ≡ ok (tt, s')
      → Routes id s s'
  unfolding withdraw_burning
  withdraw_burning-Routes id who amount requirement s s' h = elim (ensure_valid_cases id s) [
    | inr e ↦ absurd (ground arith)
    | inl e ↦ elim (Bool-cases (leb amount (reducible id who requirement s))) [
      | inr l ↦ absurd (ground (arith, can_withdraw-reducible id who amount requirement s e))
      | inl l ↦
          let able : can_withdraw p id who amount requirement s ≡ ok (id, s) =
            ground (arith, can_withdraw-reducible id who amount requirement s e) in
          elim (Bool-cases (id == p.native_asset_id)) [
            | inl n ↦ elim (Result-cases (p.native_withdraw who amount requirement s.native)) [
              | inl r ↦ ground (arith, r.1)
              | inr r ↦ absurd (ground (arith, r.1))
            ]
            | inr n ↦ elim (Result-cases (p.burn_from id who amount s.non_native)) [
              | inl r ↦ ground (arith, r.1)
              | inr r ↦ absurd (ground (arith, r.1))
            ]
          ]
    ]
  ]

  -- A successful deposit, checked deposit, transfer or withdrawal of the native asset leaves the pallet
  -- of the other assets as it was, and one of another asset leaves the native currency as it was.
  pub apply-routes :
      (id : ℕ) (c : Change) (s s' : Balances p)
      → apply id c s ≡ ok (tt, s')
      → ((id == p.native_asset_id) ≡ true → s'.non_native ≡ s.non_native)
        × ((id == p.native_asset_id) ≡ false → s'.native ≡ s.native)
  unfolding apply
  apply-routes id (deposit account amount) s s' h = deposit_minting-Routes id account amount s s' h
  apply-routes id (deposit_with_check account amount increase) s s' h =
      deposit_minting_with_check-Routes id account amount increase s s' h
  apply-routes id (move source destination amount requirement) s s' h =
      transfer-Routes id source destination amount requirement s s' h
  apply-routes id (withdraw who amount requirement) s s' h =
      withdraw_burning-Routes id who amount requirement s s' h
