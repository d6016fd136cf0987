-- ===== src/Assets/Ledger.antt =====
-- `FungibleLedgerError` and `NativeAndNonNative` of primitives/manta/src/assets.rs: one ledger over the
-- native currency and the pallet of the other assets.
pub mod Routing
pub mod Moves
pub mod Examples
use hackathon_parity_eu.Prelude.{
  ℕ, Bool, true, false, ◌||◌, Option, none, some, Result, ok, err, Call, pure, fail, gets, ensure,
  ◌>>=◌, ◌>>◌, ltb, leb, ◌==◌,
}

pub data DepositConsequence : Type 0 where
  below_minimum cannot_create overflow unknown_asset success : DepositConsequence

pub data ExistenceRequirement : Type 0 where
  keep_alive allow_death : ExistenceRequirement

pub data FungibleLedgerError (I B D : Type 0) : Type 0 where
  invalid_asset_id : I → FungibleLedgerError I B D
  below_minimum cannot_create unknown_asset overflow : FungibleLedgerError I B D
  cannot_withdraw_more_than : B → FungibleLedgerError I B D
  invalid_mint invalid_burn invalid_transfer : D → FungibleLedgerError I B D
  encode_error : FungibleLedgerError I B D

-- `map_err`, on a call.
abbrev pub map_err : {S E F A : Type 0} → (E → F) → Call S E A → Call S F A
map_err f m s = elim (m s) [ ok r ↦ ok r | err e ↦ err (f e) ]

-- The pallets below: the native currency (`Native`) and the other assets (`NonNative`), each with its
-- own storage; asset ids and balances are unsigned integers, and an account is any type.
pub record Pallets : Type 1 where
  pub AccountId : Type 0
  pub DispatchError : Type 0
  pub Native : Type 0
  pub NonNative : Type 0
  pub start_non_native_asset_id : ℕ
  pub native_asset_id : ℕ
  pub native_can_deposit : AccountId → ℕ → Bool → Native → DepositConsequence
  pub native_deposit_creating : AccountId → ℕ → Native → Native
  pub native_transfer :
      AccountId → AccountId → ℕ → ExistenceRequirement → Call Native DispatchError (Unit {0})
  pub native_reducible_balance : AccountId → Bool → Native → ℕ
  pub native_withdraw : AccountId → ℕ → ExistenceRequirement → Call Native DispatchError (Unit {0})
  pub can_deposit : ℕ → AccountId → ℕ → Bool → NonNative → DepositConsequence
  pub mint_into : ℕ → AccountId → ℕ → Call NonNative DispatchError (Unit {0})
  pub transfer : ℕ → AccountId → AccountId → ℕ → Bool → Call NonNative DispatchError ℕ
  pub reducible_balance : ℕ → AccountId → Bool → NonNative → ℕ
  pub burn_from : ℕ → AccountId → ℕ → Call NonNative DispatchError ℕ

module _ (p : Pallets) where
  -- The balances: the storage of the two pallets.
  pub record Balances : Type 0 where
    pub native : p.Native
    pub non_native : p.NonNative

  abbrev pub LedgerError : Type 0
  LedgerError = FungibleLedgerError ℕ ℕ p.DispatchError

  abbrev pub LedgerCall : Type 0 → Type 0
  LedgerCall A = Call Balances LedgerError A

  -- A call of one of the pallets, on the storage of both.
  abbrev pub on_native : {E A : Type 0} → Call p.Native E A → Call Balances E A
  on_native m s = elim (m s.native) [ ok (a, n) ↦ ok (a, record s { native = n }) | err e ↦ err e ]

  abbrev pub on_non_native : {E A : Type 0} → Call p.NonNative E A → Call Balances E A
  on_non_native m s = elim (m s.non_native) [
    | ok (a, n) ↦ ok (a, record s { non_native = n })
    | err e ↦ err e
  ]

  abbrev pub when_native :
      {E A : Type 0} → Bool → Call Balances E A → Call Balances E A → Call Balances E A
  when_native true m n s = m s
  when_native false m n s = n s

  unfoldable pub from_deposit : DepositConsequence → LedgerCall (Unit {0})
  from_deposit DepositConsequence.below_minimum = fail FungibleLedgerError.below_minimum
  from_deposit DepositConsequence.cannot_create = fail FungibleLedgerError.cannot_create
  from_deposit DepositConsequence.overflow = fail FungibleLedgerError.overflow
  from_deposit DepositConsequence.unknown_asset = fail FungibleLedgerError.unknown_asset
  from_deposit success = pure tt

  unfoldable pub ensure_valid : ℕ → LedgerCall ℕ
  ensure_valid asset_id =
      ensure (leb p.start_non_native_asset_id asset_id || asset_id == p.native_asset_id)
        (invalid_asset_id asset_id)
      >> pure asset_id

  pub can_deposit : ℕ → p.AccountId → ℕ → Bool → LedgerCall ℕ
  can_deposit asset_id account amount can_increase_total_supply = do
    id ← ensure_valid asset_id
    consequence ← gets (λ s. elim (id == p.native_asset_id) [
      | true ↦ p.native_can_deposit account amount false s.native
      | false ↦ p.can_deposit id account amount can_increase_total_supply s.non_native
    ])
    from_deposit consequence
    pure id

  pub deposit_minting : ℕ → p.AccountId → ℕ → LedgerCall (Unit {0})
  deposit_minting asset_id account amount = do
    id ← ensure_valid asset_id
    when_native (id == p.native_asset_id)
        (λ s. ok (tt, record s { native = p.native_deposit_creating account amount s.native }))
        (map_err invalid_mint (on_non_native (p.mint_into id account amount)))

  unfoldable pub deposit_minting_with_check : ℕ → p.AccountId → ℕ → Bool → LedgerCall (Unit {0})
  deposit_minting_with_check asset_id account amount can_increase_total_supply = do
    id ← ensure_valid asset_id
    when_native (id == p.native_asset_id)
        (do
          consequence ← gets (λ s. p.native_can_deposit account amount false s.native)
          from_deposit consequence
          (λ s. ok (tt, record s { native = p.native_deposit_creating account amount s.native })))
        (do
          consequence ←
              gets (λ s. p.can_deposit id account amount can_increase_total_supply s.non_native)
          from_deposit consequence
          map_err invalid_mint (on_non_native (p.mint_into id account amount)))

  abbrev pub is_keep_alive : ExistenceRequirement → Bool
  is_keep_alive keep_alive = true
  is_keep_alive allow_death = false

  unfoldable pub transfer :
      ℕ → p.AccountId → p.AccountId → ℕ → ExistenceRequirement → LedgerCall (Unit {0})
  transfer asset_id source destination amount existence_requirement = do
    id ← ensure_valid asset_id
    map_err invalid_transfer (
        when_native (id == p.native_asset_id)
          (on_native (p.native_transfer source destination amount existence_requirement))
          (on_non_native
              (p.transfer id source destination amount (is_keep_alive existence_requirement))
            >>= λ _. pure tt))

  unfoldable pub can_withdraw : ℕ → p.AccountId → ℕ → ExistenceRequirement → LedgerCall ℕ
  can_withdraw asset_id account amount existence_requirement = do
    id ← ensure_valid asset_id
    reducible_amount ← gets (λ s. elim (id == p.native_asset_id) [
      | true ↦ p.native_reducible_balance account (is_keep_alive existence_requirement) s.native
      | false ↦ p.reducible_balance id account (is_keep_alive existence_requirement) s.non_native
    ])
    ensure (leb amount reducible_amount) (cannot_withdraw_more_than reducible_amount)
    pure id

  unfoldable pub withdraw_burning :
      ℕ → p.AccountId → ℕ → ExistenceRequirement → LedgerCall (Unit {0})
  withdraw_burning asset_id who amount existence_requirement = do
    valid ← ensure_valid asset_id
    id ← can_withdraw valid who amount existence_requirement
    map_err invalid_burn (
        when_native (id == p.native_asset_id)
          (on_native (p.native_withdraw who amount existence_requirement))
          (on_non_native (p.burn_from id who amount) >>= λ _. pure tt))
