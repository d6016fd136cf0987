-- ===== src/Staking/Delegator.antt =====
-- `Delegator` of pallets/parachain-staking/src/types.rs, and what `lib.rs` and `delegation_requests.rs`
-- read and remove of a delegator's requests.
use hackathon_parity_eu.Prelude.{
  ℕ, ◌-◌, Bool, true, false, ◌&&◌, ◌||◌, leb, ◌==◌, if◌then◌else◌, Option, none, some, List, [],
  ◌∷◌, lookup, insert, nat_key, ok, err, pure, ensure, gets, modify, ◌>>=◌, ◌>>◌,
}
use hackathon_parity_eu.Staking.Set as Set
use hackathon_parity_eu.Staking.Set.{OrderedSet}
use hackathon_parity_eu.Staking.Bond.{Bond, bond_ord, saturating_add}
use hackathon_parity_eu.Staking.Pallet.{
  delegator_lock, Config, insufficient_balance, error, other, panic, DelegatorStatus, Delegator,
  DelegationAction, revoke, ScheduledRequest, Storage, Action,
}

-- The amount of the last bond with the owner.
unfoldable pub bond_of : ℕ → List Bond → Option ℕ
bond_of owner [] = none
bond_of owner (x ∷ xs) = elim (bond_of owner xs) [
  | some a ↦ some a
  | none ↦ if x.owner == owner then some x.amount else none
]

-- The bonds of all other owners.
unfoldable pub without : ℕ → List Bond → List Bond
without owner [] = []
without owner (x ∷ xs) = if x.owner == owner then without owner xs else x ∷ without owner xs

-- The bonds with the amounts of the owner changed.
unfoldable pub adjusted : (ℕ → ℕ) → ℕ → List Bond → List Bond
adjusted f owner [] = []
adjusted f owner (x ∷ xs) =
    (if x.owner == owner then record x { amount = f x.amount } else x) ∷ adjusted f owner xs

-- `get_bond_amount`: the amount of the first bond with the owner.
first_bond_of : ℕ → List Bond → Option ℕ
first_bond_of owner [] = none
first_bond_of owner (x ∷ xs) = if x.owner == owner then some x.amount else first_bond_of owner xs

unfoldable pub get_bond_amount : ℕ → Delegator → Option ℕ
unfolding first_bond_of
get_bond_amount collator d = first_bond_of collator d.delegations.elements

unfoldable pub new : ℕ → ℕ → ℕ → Delegator
new id collator amount = record {
  id = id;
  delegations = Set.from (record { owner = collator; amount = amount } ∷ []);
  total = amount;
  less_total = 0;
  status = DelegatorStatus.active;
}

pub default_with_total : ℕ → ℕ → Delegator
default_with_total id amount = record {
  id = id;
  delegations = Set.from [];
  total = amount;
  less_total = 0;
  status = DelegatorStatus.active;
}

pub is_active : Delegator → Bool
is_active d = elim d.status [ DelegatorStatus.active ↦ true | DelegatorStatus.leaving r ↦ false ]

unfoldable pub add_delegation : Bond → Delegator → Delegator × Bool
add_delegation bond d =
    let (delegations, inserted) = Set.insert bond d.delegations in
    if inserted
    then (record d { delegations = delegations; total = saturating_add d.total bond.amount }, true)
    else (d, false)

-- `BondAdjust`
pub data BondAdjust : Type 0 where
  increase : ℕ → BondAdjust
  decrease : BondAdjust

-- `DelegationAction::amount`
unfoldable pub amount : DelegationAction → ℕ
amount (revoke n) = n
amount (DelegationAction.decrease n) = n

unfoldable pub is_revoke : DelegationAction → Bool
is_revoke (revoke n) = true
is_revoke (DelegationAction.decrease n) = false

-- `ValueQuery`: a collator without an entry has no requests.
abbrev pub or_default {ℓ} : {A : Type ℓ} → A → Option A → A
or_default a none = a
or_default a (some b) = b

-- `iter().position(...)` with `remove`: the first request of the delegator, and the list without it.
unfoldable pub take_request :
    ℕ → List ScheduledRequest → Option (ScheduledRequest × List ScheduledRequest)
take_request delegator [] = none
take_request delegator (r ∷ rs) =
    if r.delegator == delegator
    then some (r, rs)
    else elim (take_request delegator rs) [ none ↦ none | some (q, qs) ↦ some (q, r ∷ qs) ]

-- `iter().any(|req| req.delegator == delegator)`
unfoldable pub has_request : ℕ → List ScheduledRequest → Bool
has_request delegator [] = false
has_request delegator (r ∷ rs) = r.delegator == delegator || has_request delegator rs

unfoldable pub has_revoke : ℕ → List ScheduledRequest → Bool
unfolding is_revoke
has_revoke delegator [] = false
has_revoke delegator (r ∷ rs) =
    (r.delegator == delegator && is_revoke r.action) || has_revoke delegator rs

-- The new state, the remaining requests and the request that was cancelled.
unfoldable pub cancel_request_with_state :
    ℕ
    → Delegator
    → List ScheduledRequest
    → Option (ScheduledRequest × Delegator × List ScheduledRequest)
unfolding amount take_request
cancel_request_with_state delegator state requests = elim (take_request delegator requests) [
  | none ↦ none
  | some (r, rest) ↦
      some (r, record state { less_total = state.less_total - amount r.action }, rest)
]

module _ (c : Config) where
  unfoldable pub get_delegator_stakable_free_balance : ℕ → Storage c → ℕ
  get_delegator_stakable_free_balance acc s = elim (lookup acc s.delegator_state) [
    | none ↦ c.currency.free_balance acc s.ledger
    | some d ↦ c.currency.free_balance acc s.ledger - d.total
  ]

  abbrev pub on_ledger : (c.currency.Ledger → c.currency.Ledger) → Action c (Unit {0})
  on_ledger f = modify (λ s. record s { ledger = f s.ledger })

  -- What an increase asks for.
  unfoldable pub check_increase : BondAdjust → Delegator → Action c (Unit {0})
  unfolding get_delegator_stakable_free_balance
  check_increase BondAdjust.decrease d = pure tt
  check_increase (increase n) d = do
    free ← gets (get_delegator_stakable_free_balance d.id)
    ensure (leb n free) (error insufficient_balance)
    ensure (leb n d.total) other

  unfoldable pub adjust_bond_lock : BondAdjust → Delegator → Action c (Unit {0})
  unfolding check_increase
  adjust_bond_lock adjust d = do
    check_increase adjust d
    on_ledger (
        if d.total == 0
        then c.currency.remove_lock delegator_lock d.id
        else c.currency.set_lock delegator_lock d.id d.total)

  unfoldable pub total_sub_if : ℕ → (ℕ → Action c (Unit {0})) → Delegator → Action c Delegator
  unfolding adjust_bond_lock
  total_sub_if n check d = do
    check (d.total - n)
    let d' = record d { total = d.total - n }
    adjust_bond_lock BondAdjust.decrease d'
    pure d'

  unfoldable pub total_add : ℕ → Delegator → Action c Delegator
  unfolding adjust_bond_lock
  total_add n d = do
    let d' = record d { total = saturating_add d.total n }
    adjust_bond_lock (increase n) d'
    pure d'

  unfoldable pub total_sub : ℕ → Delegator → Action c Delegator
  unfolding adjust_bond_lock
  total_sub n d = do
    let d' = record d { total = d.total - n }
    adjust_bond_lock BondAdjust.decrease d'
    pure d'

  -- An error that `expect` meets.
  abbrev pub expected : {A : Type 0} → Action c A → Action c A
  expected m s = elim (m s) [ ok r ↦ ok r | err e ↦ err panic ]

  -- The new state and the remaining balance; no balance without a delegation to the collator.
  unfoldable pub rm_delegation : ℕ → Delegator → Action c (Delegator × Option ℕ)
  unfolding bond_of without total_sub
  rm_delegation collator d = elim (bond_of collator d.delegations.elements) [
    | none ↦ pure (d, none)
    | some n ↦ do
      let d' = record d { delegations = Set.from (without collator d.delegations.elements) }
      d'' ← expected (total_sub n d')
      pure (d'', some d''.total)
  ]

  unfoldable pub requests_of : ℕ → Storage c → List ScheduledRequest
  requests_of collator s = or_default [] (lookup collator s.delegation_scheduled_requests)

  abbrev pub put_requests : ℕ → List ScheduledRequest → Action c (Unit {0})
  put_requests collator rs = modify (λ s. record s {
    delegation_scheduled_requests = insert collator rs s.delegation_scheduled_requests;
  })

  unfoldable pub delegation_remove_request_with_state : ℕ → ℕ → Delegator → Action c Delegator
  unfolding cancel_request_with_state requests_of
  delegation_remove_request_with_state collator delegator state = do
    requests ← gets (requests_of collator)
    elim (cancel_request_with_state delegator state requests) [
      | none ↦ pure state
      | some (r, state', rest) ↦ do put_requests collator rest; pure state'
    ]

  unfoldable pub delegation_request_exists : ℕ → ℕ → Storage c → Bool
  unfolding has_request requests_of
  delegation_request_exists collator delegator s = has_request delegator (requests_of collator s)

  unfoldable pub delegation_request_revoke_exists : ℕ → ℕ → Storage c → Bool
  unfolding has_revoke requests_of
  delegation_request_revoke_exists collator delegator s =
      has_revoke delegator (requests_of collator s)
