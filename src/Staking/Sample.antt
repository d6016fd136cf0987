-- ===== src/Staking/Sample.antt =====
-- A runtime and storages for the examples of pallets/parachain-staking.
use hackathon_parity_eu.Prelude.{
  ℕ, ◌+◌, ◌*◌, ◌/◌, true, false, none, some, [], ◌∷◌, lookup, insert, StorageMap, nat_key,
}
use hackathon_parity_eu.Staking.Bond.{Bond, full, partial, Delegations}
use hackathon_parity_eu.Staking.Inflation.{InflationInfo, FixedPoint}
use hackathon_parity_eu.Staking.Pallet.{
  Currency, Whitelist, Config, root, CandidateMetadata, CollatorStatus, Storage,
}
use hackathon_parity_eu.Staking.Delegator.{or_default}

-- The balances of the accounts; locks are not kept.
abbrev balances : Currency
balances = record {
  Ledger = StorageMap ℕ ℕ;
  free_balance = λ who l. or_default 0 (lookup who l);
  reserved_balance = λ who l. 0;
  total_issuance = λ l. 1000000;
  set_lock = λ id who n l. l;
  remove_lock = λ id who l. l;
  deposit_into_existing = λ who n l. some (n, insert who (or_default 0 (lookup who l) + n) l);
}

abbrev nobody : Whitelist
nobody = record { Store = Unit {0}; candidates = λ s. []; leave_intent = λ who s. none }

abbrev whole_numbers : FixedPoint
whole_numbers = record {
  Fixed = ℕ;
  from_num = λ n. some n;
  div = λ a b. some 0;
  add = λ a b. some (a + b);
  sub = λ a b. some 0;
  mul = λ a b. some (a * b);
  pow = λ a b. some 1;
  ceil_to_num = λ n. some n;
}

-- Two delegations at the top and two at the bottom.
abbrev pub runtime : Config
runtime = record {
  currency = balances;
  whitelist = nobody;
  fixed = whole_numbers;
  perbill_mul = λ p n. p * n / 1000000000;
  perbill_from_rational = λ a b. a * 1000000000 / b;
  percent_mul = λ p n. p * n / 100;
  monetary_governance_origin = λ o. elim o [ root ↦ true | _ ↦ false ];
  min_blocks_per_round = 3;
  default_blocks_per_round = 5;
  leave_candidates_delay = 2;
  candidate_bond_less_delay = 2;
  leave_delegators_delay = 2;
  revoke_delegation_delay = 2;
  delegation_bond_less_delay = 3;
  reward_payment_delay = 2;
  min_selected_candidates = 1;
  max_top_delegations_per_candidate = 2;
  max_bottom_delegations_per_candidate = 2;
  max_delegations_per_delegator = 4;
  default_collator_commission = 100000000;
  default_parachain_bond_reserve_percent = 30;
  min_collator_stk = 10;
  min_candidate_stk = 10;
  min_whitelist_candidate_stk = 5;
  min_delegation = 3;
  min_delegator_stk = 5;
  zero_account = 0;
}

abbrev pub rates : InflationInfo
rates = record {
  expect = record { min = 700; ideal = 800; max = 900 };
  annual = record { min = 1; ideal = 2; max = 3 };
  round = record { min = 1; ideal = 2; max = 3 };
}

-- Before the genesis: accounts 1 and 2 have 1000 each, 7 and 8 have 100 each.
abbrev pub fresh : Storage runtime
fresh = record {
  collator_commission = 0;
  total_selected = 0;
  parachain_bond_info = record { account = 0; percent = 0 };
  round = record { current = 0; first = 0; length = 0 };
  delegator_state = [];
  candidate_info = [];
  delegation_scheduled_requests = [];
  top_delegations = [];
  bottom_delegations = [];
  selected_candidates = [];
  total = 0;
  candidate_pool = record { elements = [] };
  at_stake = [];
  delayed_payouts = [];
  staked = [];
  inflation_config = rates;
  points = [];
  awarded_pts = [];
  ledger = (1, 1000) ∷ (2, 1000) ∷ (7, 100) ∷ (8, 100) ∷ [];
  whitelist = tt;
  events = [];
}

abbrev pub bond_of_7 : Bond
bond_of_7 = record { owner = 7; amount = 30 }

abbrev pub bond_of_8 : Bond
bond_of_8 = record { owner = 8; amount = 20 }

abbrev pub bond_of_9 : Bond
bond_of_9 = record { owner = 9; amount = 10 }

-- The top is full and the bottom is not.
abbrev pub top : Delegations
top = record { delegations = bond_of_7 ∷ bond_of_8 ∷ []; total = 50 }

abbrev pub bottom : Delegations
bottom = record { delegations = bond_of_9 ∷ []; total = 10 }

abbrev pub candidate_1 : CandidateMetadata
candidate_1 = record {
  bond = 100;
  delegation_count = 3;
  total_counted = 150;
  lowest_top_delegation_amount = 20;
  highest_bottom_delegation_amount = 10;
  lowest_bottom_delegation_amount = 10;
  top_capacity = full;
  bottom_capacity = partial;
  request = none;
  status = CollatorStatus.active;
}

abbrev pub delegated : Storage runtime
delegated = record fresh {
  candidate_info = (1, candidate_1) ∷ [];
  top_delegations = (1, top) ∷ [];
  bottom_delegations = (1, bottom) ∷ [];
  candidate_pool = record { elements = record { owner = 1; amount = 150 } ∷ [] };
  total = 160;
  round = record { current = 4; first = 20; length = 5 };
}
