-- ===== src/Assets/Ledger/Examples.antt =====
-- The ledgers of primitives/manta at concrete inputs.
use hackathon_parity_eu.Prelude.{
  ℕ, ◌+◌, ◌-◌, ◌≡◌, ◌==◌, leb, refl, Bool, true, false, Call, ok, err, if◌then◌else◌, ◌>>◌,
}
use hackathon_parity_eu.Assets.Ledger.{
  Pallets, Balances, keep_alive, success, ensure_valid, deposit_minting, deposit_minting_with_check,
  can_deposit, transfer,
}
use hackathon_parity_eu.Assets.Ledger.Routing.{
  move, apply, apply-routes, deposit_minting_with_check-can_deposit,
}

abbrev held : Bool → ℕ × ℕ → ℕ
held true m = m.0
held false m = m.1

abbrev pay : Bool → Bool → ℕ → Call (ℕ × ℕ) ℕ (Unit {0})
pay true false n (x, y) = if leb n x then ok (tt, (x - n, y + n)) else err 0
pay false true n (x, y) = if leb n y then ok (tt, (x + n, y - n)) else err 0
pay true true n m = ok (tt, m)
pay false false n m = ok (tt, m)

-- Two pallets that each hold the balance of one account, 1, and a pot, 0.
abbrev pots : Pallets
pots = record {
  AccountId = Bool;
  DispatchError = ℕ;
  Native = ℕ × ℕ;
  NonNative = ℕ × ℕ;
  start_non_native_asset_id = 8;
  native_asset_id = 1;
  native_can_deposit = λ a n b m. success;
  native_deposit_creating = λ a n m. if a then (m.0 + n, m.1) else (m.0, m.1 + n);
  native_transfer = λ a b n req m. pay a b n m;
  native_reducible_balance = λ a alive m. if a then m.0 else m.1;
  native_withdraw = λ a n req m. err 0;
  can_deposit = λ id a n b m. success;
  mint_into = λ id a n m. if a then ok (tt, (m.0 + n, m.1)) else ok (tt, (m.0, m.1 + n));
  transfer = λ id a b n alive m. elim (pay a b n m) [ ok r ↦ ok (n, r.1) | err e ↦ err e ];
  reducible_balance = λ id a alive m. if a then m.0 else m.1;
  burn_from = λ id a n m. err 0;
}

abbrev start : Balances pots
start = record { native = (50, 0); non_native = (100, 0) }

abbrev moved : Balances pots
moved = record { native = (50, 0); non_native = (70, 30) }

moved_test : transfer pots 8 true false 30 keep_alive start ≡ ok (tt, moved)
unfolding transfer ensure_valid
moved_test = refl

apply-routes_example :
    ((8 == 1) ≡ true → moved.non_native ≡ start.non_native)
    × ((8 == 1) ≡ false → moved.native ≡ start.native)
unfolding apply
apply-routes_example = apply-routes pots 8 (move true false 30 keep_alive) start moved moved_test

deposit_minting_with_check-can_deposit_example :
    deposit_minting_with_check pots 8 true 5 true start
    ≡ (can_deposit pots 8 true 5 true >> deposit_minting pots 8 true 5) start
deposit_minting_with_check-can_deposit_example =
    deposit_minting_with_check-can_deposit pots 8 true 5 true start
