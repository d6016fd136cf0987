-- ===== src/Staking/Examples.antt =====
-- Tests of pallets/parachain-staking, and the properties at concrete inputs.
use hackathon_parity_eu.Prelude.{
  ℕ, ◌+◌, ◌≡◌, ◌≤◌, refl, false, List, [], ◌∷◌, none, some, ok, err, settle, lookup, length,
  nat_key, ℕ_discrete, nat_pair_discrete, arith, ◌++◌, ◌⊎◌,
}
use hackathon_parity_eu.Staking.Set as Set
use hackathon_parity_eu.Staking.Set.{nat_ord}
use hackathon_parity_eu.Staking.Set.Laws.{InsertLaw, RemoveLaw, operations-Refine}
use hackathon_parity_eu.Staking.Search.{Answers, binary_search_by, insert_at}
use hackathon_parity_eu.Staking.Bond.{
  Bond, bond_ord, Delegations, full, partial, empty, saturating_add_u32, sort_greatest_to_least,
  lowest_delegation_amount, highest_delegation_amount, capacity, insert_sorted_greatest_to_least,
  saturating_add,
}
use hackathon_parity_eu.Staking.Bond.Sorted.{
  IsDescending, place, insert_sorted_greatest_to_least_lem, sum_amounts,
}
use hackathon_parity_eu.Staking.Pallet.{
  CandidateMetadata, Storage, added_to_top, Delegator, DelegatorStatus, ScheduledRequest, decrease,
  error, signed, pending_delegation_request_already_exists, pending_delegation_request_not_due_yet,
}
use hackathon_parity_eu.Staking.Delegator.{bond_of, get_bond_amount, requests_of}
use hackathon_parity_eu.Staking.Candidate.Remove.{rm_delegation_if_exists}
use hackathon_parity_eu.Staking.Candidate.Decrease.{decrease_bottom_delegation}
use hackathon_parity_eu.Staking.Candidate.Books.Stale.{decrease_bottom_delegation-stale}
use hackathon_parity_eu.Staking.Requests.{
  delegation_cancel_request, delegation_execute_scheduled_request, delegation_schedule_revoke,
}
use hackathon_parity_eu.Staking.Requests.Laws.{
  schedule, leave, lower, cancel-schedule, schedule-waits,
}
use hackathon_parity_eu.Staking.Calls.Dispatch.{delegate_to, call_go_offline}
use hackathon_parity_eu.Staking.Rounds.{top_candidates}
use hackathon_parity_eu.Staking.Rounds.Selection.{In, top_candidates_lem}
use hackathon_parity_eu.Staking.Rounds.Chain.{
  Start, genesis, extrinsic, block_starts, block_ends, start, run,
}
use hackathon_parity_eu.Staking.Pool.{IsPooled}
use hackathon_parity_eu.Staking.Pool.Run.{start-run-IsPooled}
use hackathon_parity_eu.Staking.Search as Search
use hackathon_parity_eu.Staking.Bond as Bond
use hackathon_parity_eu.Staking.Candidate as Candidate
use hackathon_parity_eu.Staking.Delegator as Delegator
use hackathon_parity_eu.Staking.Calls as Calls
use hackathon_parity_eu.Staking.Calls.Delegate as Delegate
use hackathon_parity_eu.Staking.Rounds.Genesis as Genesis
use hackathon_parity_eu.Staking.Candidate.Add as Add
use hackathon_parity_eu.Staking.Candidate.Books.Top.{BooksAfter, add_delegation-Books}
use hackathon_parity_eu.Staking.Candidate.Books.{TopBooks, BottomBooks}
use hackathon_parity_eu.Staking.Sample.{
  runtime, rates, fresh, delegated, top, bottom, bond_of_9, candidate_1,
}
use hackathon_parity_eu.Staking.Candidate.{reset_top_data, reset_bottom_data}

operations-Refine_example :
    InsertLaw {A = ℕ} 5
      (record { elements = 2 ∷ 9 ∷ [] })
      (Set.insert 5 (record { elements = 2 ∷ 9 ∷ [] }))
    × RemoveLaw {A = ℕ} 5
        (record { elements = 2 ∷ 9 ∷ [] })
        (Set.remove 5 (record { elements = 2 ∷ 9 ∷ [] }))
    × (Set.contains {A = ℕ} 5 (record { elements = 2 ∷ 9 ∷ [] }) ≡ false)
operations-Refine_example =
    operations-Refine {A = ℕ} 5 (record { elements = 2 ∷ 9 ∷ [] }) (ground arith)

insert_sorted_greatest_to_least_lem_example :
    (insert_sorted_greatest_to_least bond_of_9 top
      ≡ record { delegations = place bond_of_9 top.delegations; total = saturating_add 50 10 })
    × IsDescending (place bond_of_9 top.delegations)
insert_sorted_greatest_to_least_lem_example =
    insert_sorted_greatest_to_least_lem bond_of_9 top (ground arith)

top_books : TopBooks runtime candidate_1 top
unfolding sum_amounts lowest_delegation_amount capacity
top_books = record {
  accounted = record { descending = ground arith; summed = refl };
  counted = refl;
  lowest = refl;
  capacity_known = refl;
  within = ground arith;
}

bottom_books : BottomBooks runtime candidate_1 bottom
unfolding sum_amounts lowest_delegation_amount highest_delegation_amount capacity
bottom_books = record {
  accounted = record { descending = ground arith; summed = refl };
  lowest = refl;
  highest = refl;
  capacity_known = refl;
  within = ground arith;
}

abbrev bond_of_10 : Bond
bond_of_10 = record { owner = 10; amount = 25 }

-- Account 10 takes the place of account 8 in the full top, and account 8 goes to the bottom.
abbrev candidate_1_added : CandidateMetadata
candidate_1_added = record candidate_1 {
  delegation_count = 4;
  total_counted = 155;
  lowest_top_delegation_amount = 25;
  highest_bottom_delegation_amount = 20;
  bottom_capacity = full;
}

abbrev delegated_more : Storage runtime
delegated_more = settle delegated (Add.add_delegation runtime 1 bond_of_10 candidate_1 delegated)

added :
    Add.add_delegation runtime 1 bond_of_10 candidate_1 delegated
    ≡ ok ((candidate_1_added, added_to_top 155, none), delegated_more)
unfolding Add.add_delegation ℕ_discrete reset_top_data reset_bottom_data saturating_add
    insert_sorted_greatest_to_least saturating_add_u32 lowest_delegation_amount
    highest_delegation_amount capacity binary_search_by insert_at
added = refl

add_delegation-Books_example : BooksAfter runtime 1 25 0 top bottom candidate_1_added delegated_more
unfolding ℕ_discrete
add_delegation-Books_example =
    add_delegation-Books runtime 1 bond_of_10 candidate_1 top bottom delegated refl refl top_books
      bottom_books (ground arith) candidate_1_added (added_to_top 155) none delegated_more added

-- The removal of account 8 takes account 9 up from the bottom.
abbrev candidate_1_removed : CandidateMetadata
candidate_1_removed = record candidate_1 {
  delegation_count = 2;
  total_counted = 140;
  lowest_top_delegation_amount = 10;
  highest_bottom_delegation_amount = 0;
  lowest_bottom_delegation_amount = 0;
  bottom_capacity = empty;
}

abbrev delegated_less : Storage runtime
delegated_less = settle delegated (rm_delegation_if_exists runtime 1 8 20 candidate_1 delegated)

decrease_bottom_delegation-stale_example :
    (m' : CandidateMetadata) × (s' : Storage runtime) × (bottom' : Delegations)
    × (decrease_bottom_delegation runtime 1 9 4 candidate_1 delegated ≡ ok ((m', false), s'))
    × (lookup 1 s'.bottom_delegations ≡ some bottom')
    × (bottom'.total ≡ 10)
    × (sum_amounts bottom'.delegations + 4 ≡ bottom'.total)
unfolding ℕ_discrete bond_of sum_amounts
decrease_bottom_delegation-stale_example =
    decrease_bottom_delegation-stale runtime 1 9 4 10 candidate_1 bottom delegated refl refl
      (ground arith) refl (ground arith)

abbrev delegator_7 : Delegator
delegator_7 = record {
  id = 7;
  delegations = record { elements = record { owner = 1; amount = 30 } ∷ [] };
  total = 30;
  less_total = 0;
  status = DelegatorStatus.active;
}

abbrev with_7 : Storage runtime
with_7 = record delegated { delegator_state = (7, delegator_7) ∷ [] }

abbrev revoking : Storage runtime
revoking = settle with_7 (schedule runtime leave 1 7 with_7)

revoke_scheduled : schedule runtime leave 1 7 with_7 ≡ ok (tt, revoking)
unfolding schedule delegation_schedule_revoke ℕ_discrete
revoke_scheduled = refl

cancel-schedule_example :
    (s'' : Storage runtime) × (delegation_cancel_request runtime 1 7 revoking ≡ ok (tt, s''))
    × ((k : ℕ) → requests_of runtime k s'' ≡ requests_of runtime k with_7)
    × ((k : ℕ) → lookup k s''.delegator_state ≡ lookup k with_7.delegator_state)
unfolding ℕ_discrete get_bond_amount
cancel-schedule_example =
    cancel-schedule runtime leave 1 7 30 delegator_7 with_7 revoking revoke_scheduled refl refl
      (ground arith)

schedule-waits_example :
    (r : ScheduledRequest) × (requests_of runtime 1 revoking
      ≡ requests_of runtime 1 with_7 ++ r ∷ [])
    × (r.delegator ≡ 7)
    × (r.when_executable ≡ saturating_add_u32 4 2)
    × (schedule runtime (lower 3) 1 7 revoking
        ≡ err (error pending_delegation_request_already_exists))
    × (delegation_execute_scheduled_request runtime 1 7 revoking
        ≡ err (error pending_delegation_request_not_due_yet))
unfolding saturating_add_u32
schedule-waits_example =
    schedule-waits runtime leave (lower 3) 1 7 with_7 revoking revoke_scheduled (ground arith)

abbrev pool : List Bond
pool = record { owner = 1; amount = 150 } ∷ record { owner = 2; amount = 90 } ∷ []

top_candidates_lem_example :
    (length (top_candidates 1 10 pool) ≤ 1)
    × ((k : ℕ)
        → In k (top_candidates 1 10 pool)
        → (b : Bond) × In b pool × (b.owner ≡ k) × (10 ≤ b.amount))
    × ((b : Bond)
        → In b pool
        → 10 ≤ b.amount
        → In b.owner (top_candidates 1 10 pool)
          ⊎ ((length (top_candidates 1 10 pool) ≡ 1)
              × ((k : ℕ)
                  → In k (top_candidates 1 10 pool)
                  → (d : Bond) × In d pool × (d.owner ≡ k) × (b.amount ≤ d.amount))))
top_candidates_lem_example = top_candidates_lem 1 10 pool

abbrev lowering : List ScheduledRequest
lowering = record { delegator = 7; when_executable = 6; action = decrease 4 } ∷ []

abbrev first_state : Start
first_state = genesis rates ((1, 100) ∷ (2, 50) ∷ []) ((7, 1, 30) ∷ [])

abbrev started : Storage runtime
started = settle fresh (start runtime first_state fresh)

started_ok : start runtime first_state fresh ≡ ok (tt, started)
unfolding start Genesis.build ℕ_discrete Calls.join_candidates Set.len saturating_add_u32 Set.insert
    binary_search_by insert_at Delegate.delegate Candidate.new Add.add_delegation
    Candidate.reset_top_data saturating_add insert_sorted_greatest_to_least Delegator.new
    Search.sort_by Set.remove nat_pair_discrete capacity lowest_delegation_amount
    highest_delegation_amount Bond.from_owner Search.remove_at
started_ok = refl

start-run-IsPooled_example : IsPooled runtime (
    run runtime
      (block_ends 1
        ∷ extrinsic (signed 8) (delegate_to 1 20 5 5)
        ∷ extrinsic (signed 2) call_go_offline
        ∷ block_starts 5
        ∷ [])
      started)
start-run-IsPooled_example =
    start-run-IsPooled runtime first_state
      (block_ends 1
        ∷ extrinsic (signed 8) (delegate_to 1 20 5 5)
        ∷ extrinsic (signed 2) call_go_offline
        ∷ block_starts 5
        ∷ [])
      fresh started refl refl started_ok
