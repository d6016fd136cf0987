-- ===== src/Staking/Calls/Settings.antt =====
-- pallets/parachain-staking/src/lib.rs: the calls that set the pallet's parameters.
use hackathon_parity_eu.Prelude.{
  ℕ, Bool, true, false, not, leb, ◌==◌, ensure, gets, modify, ◌>>=◌, ◌>>◌,
}
use hackathon_parity_eu.Staking.Inflation.{
  Range, is_valid, range_eq, set_round_from_annual, reset_round, set_expectations,
}
use hackathon_parity_eu.Staking.Pallet.{
  Origin, root, signed, custom, Config, error, bad_origin, invalid_schedule, no_writing_same_value,
  cannot_set_below_min, round_length_must_be_at_least_total_selected_collators, Action,
  deposit_event, expect, stake_expectations_set, inflation_set, parachain_bond_account_set,
  parachain_bond_reserve_percent_set, total_selected_set, collator_commission_set,
  blocks_per_round_set,
}

unfoldable pub is_root : Origin → Bool
is_root root = true
is_root (signed who) = false
is_root (custom n) = false

module _ (c : Config) where
  abbrev ensure_governance : Origin → Action c (Unit {0})
  ensure_governance origin = ensure (c.monetary_governance_origin origin) bad_origin

  abbrev ensure_root : Origin → Action c (Unit {0})
  ensure_root origin = ensure (is_root origin) bad_origin

  unfoldable pub set_staking_expectations : Origin → Range → Action c (Unit {0})
  unfolding is_valid range_eq set_expectations
  set_staking_expectations origin expectations = do
    ensure_governance origin
    ensure (is_valid expectations) (error invalid_schedule)
    config ← gets (λ s. s.inflation_config)
    ensure (not (range_eq config.expect expectations)) (error no_writing_same_value)
    let config' = set_expectations expectations config
    deposit_event (stake_expectations_set config'.expect)
    modify (λ s. record s { inflation_config = config' })

  unfoldable pub set_inflation : Origin → Range → Action c (Unit {0})
  unfolding is_valid range_eq set_round_from_annual
  set_inflation origin schedule = do
    ensure_governance origin
    ensure (is_valid schedule) (error invalid_schedule)
    config ← gets (λ s. s.inflation_config)
    ensure (not (range_eq config.annual schedule)) (error no_writing_same_value)
    length ← gets (λ s. s.round.length)
    config' ←
        expect (set_round_from_annual c.fixed length schedule (record config { annual = schedule }))
    deposit_event (inflation_set config'.annual config'.round)
    modify (λ s. record s { inflation_config = config' })

  unfoldable pub set_parachain_bond_account : Origin → ℕ → Action c (Unit {0})
  set_parachain_bond_account origin account = do
    ensure_governance origin
    old ← gets (λ s. s.parachain_bond_info)
    ensure (not (old.account == account)) (error no_writing_same_value)
    modify (λ s. record s { parachain_bond_info = record old { account = account } })
    deposit_event (parachain_bond_account_set old.account account)

  unfoldable pub set_parachain_bond_reserve_percent : Origin → ℕ → Action c (Unit {0})
  set_parachain_bond_reserve_percent origin percent = do
    ensure_governance origin
    old ← gets (λ s. s.parachain_bond_info)
    ensure (not (old.percent == percent)) (error no_writing_same_value)
    modify (λ s. record s { parachain_bond_info = record old { percent = percent } })
    deposit_event (parachain_bond_reserve_percent_set old.percent percent)

  unfoldable pub set_total_selected : Origin → ℕ → Action c (Unit {0})
  unfolding is_root
  set_total_selected origin n = do
    ensure_root origin
    ensure (leb c.min_selected_candidates n) (error cannot_set_below_min)
    old ← gets (λ s. s.total_selected)
    ensure (not (old == n)) (error no_writing_same_value)
    length ← gets (λ s. s.round.length)
    ensure (leb n length) (error round_length_must_be_at_least_total_selected_collators)
    modify (λ s. record s { total_selected = n })
    deposit_event (total_selected_set old n)

  unfoldable pub set_collator_commission : Origin → ℕ → Action c (Unit {0})
  unfolding is_root
  set_collator_commission origin n = do
    ensure_root origin
    old ← gets (λ s. s.collator_commission)
    ensure (not (old == n)) (error no_writing_same_value)
    modify (λ s. record s { collator_commission = n })
    deposit_event (collator_commission_set old n)

  unfoldable pub set_blocks_per_round : Origin → ℕ → Action c (Unit {0})
  unfolding is_root reset_round
  set_blocks_per_round origin n = do
    ensure_root origin
    ensure (leb c.min_blocks_per_round n) (error cannot_set_below_min)
    round ← gets (λ s. s.round)
    ensure (not (round.length == n)) (error no_writing_same_value)
    selected ← gets (λ s. s.total_selected)
    ensure (leb selected n) (error round_length_must_be_at_least_total_selected_collators)
    config ← gets (λ s. s.inflation_config)
    config' ← expect (reset_round c.fixed n config)
    modify (λ s. record s { round = record round { length = n } })
    deposit_event (blocks_per_round_set round.current round.first round.length n config'.round)
    modify (λ s. record s { inflation_config = config' })
