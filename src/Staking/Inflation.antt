-- ===== src/Staking/Inflation.antt =====
-- pallets/parachain-staking/src/inflation.rs: ranges, and inflation per year and per round. A
-- `Perbill` is its number of billionths. The fixed-point numbers of the `substrate_fixed` crate are a
-- parameter.
use hackathon_parity_eu.Prelude.{ℕ, ◌/◌, Bool, true, false, ◌&&◌, leb, ◌==◌, Option, none, some}

-- `SECONDS_PER_YEAR`, and `SECONDS_PER_BLOCK` of primitives/manta/src/constants.rs.
abbrev seconds_per_year : ℕ
seconds_per_year = 31557600

abbrev seconds_per_block : ℕ
seconds_per_block = 12

abbrev pub blocks_per_year : ℕ
blocks_per_year = seconds_per_year / seconds_per_block

pub record Range : Type 0 where
  pub min : ℕ
  pub ideal : ℕ
  pub max : ℕ

unfoldable pub is_valid : Range → Bool
is_valid r = leb r.ideal r.max && leb r.min r.ideal

-- `PartialEq for Range`
unfoldable pub range_eq : Range → Range → Bool
range_eq a b = a.min == b.min && a.ideal == b.ideal && a.max == b.max

-- `From<T> for Range<T>`
pub range_from : ℕ → Range
range_from other = record { min = other; ideal = other; max = other }

-- `I64F64`: `none` where the crate panics, or where `pow` returns an error.
pub record FixedPoint : Type 1 where
  pub Fixed : Type 0
  pub from_num : ℕ → Option Fixed
  pub div : Fixed → Fixed → Option Fixed
  pub add : Fixed → Fixed → Option Fixed
  pub sub : Fixed → Fixed → Option Fixed
  pub mul : Fixed → Fixed → Option Fixed
  pub pow : Fixed → Fixed → Option Fixed
  pub ceil_to_num : Fixed → Option ℕ

infixl 5 ◌>>=◌
abbrev ◌>>=◌ : {A B : Type 0} → Option A → (A → Option B) → Option B
none >>= f = none
some a >>= f = f a

abbrev accuracy : ℕ
accuracy = 1000000000

-- `Perbill::from_parts`, which caps at one.
abbrev from_parts : ℕ → ℕ
from_parts parts = elim (leb parts accuracy) [ true ↦ parts | false ↦ accuracy ]

pub record InflationInfo : Type 0 where
  pub expect : Range
  pub annual : Range
  pub round : Range

module _ (f : FixedPoint) where
  -- The closure `annual_to_round` of `perbill_annual_to_perbill_round`.
  unfoldable pub annual_to_round : f.Fixed → ℕ → Option ℕ
  annual_to_round exponent annual = do
    one ← f.from_num 1
    parts ← f.from_num annual
    all ← f.from_num accuracy
    x ← f.div parts all
    base ← f.add one x
    y ← f.pow base exponent
    over ← f.sub y one
    scaled ← f.mul over all
    n ← f.ceil_to_num scaled
    some (from_parts n)

  unfoldable pub perbill_annual_to_perbill_round : Range → ℕ → Option Range
  unfolding annual_to_round
  perbill_annual_to_perbill_round annual rounds_per_year = do
    one ← f.from_num 1
    rounds ← f.from_num rounds_per_year
    exponent ← f.div one rounds
    low ← annual_to_round exponent annual.min
    ideal ← annual_to_round exponent annual.ideal
    high ← annual_to_round exponent annual.max
    some (record { min = low; ideal = ideal; max = high })

  -- A division of `u32`, which panics at 0.
  abbrev periods : ℕ → Option ℕ
  periods length = elim (length == 0) [ true ↦ none | false ↦ some (blocks_per_year / length) ]

  -- `set_round_from_annual`, at the length of a round.
  unfoldable pub set_round_from_annual : ℕ → Range → InflationInfo → Option InflationInfo
  unfolding perbill_annual_to_perbill_round
  set_round_from_annual length annual info = do
    n ← periods length
    round ← perbill_annual_to_perbill_round annual n
    some (record info { round = round })

  unfoldable pub reset_round : ℕ → InflationInfo → Option InflationInfo
  unfolding perbill_annual_to_perbill_round
  reset_round new_length info = do
    n ← periods new_length
    round ← perbill_annual_to_perbill_round info.annual n
    some (record info { round = round })

unfoldable pub set_expectations : Range → InflationInfo → InflationInfo
set_expectations expect info = record info { expect = expect }
