-- ===== src/Staking/Bond/Sorted.antt =====
-- `insert_sorted_greatest_to_least` and `sort_greatest_to_least` of
-- pallets/parachain-staking/src/types.rs on delegations sorted from the greatest to the least.
use Prim.Native.Nat.{Ordering, compare}
use hackathon_parity_eu.Prelude.{
  ℕ, zero, suc, ◌+◌, ◌≤◌, ◌≡◌, refl, sym, ltb, leb, ◌==◌, if◌then◌else◌, Bool, some, List, [], ◌∷◌,
  ◌++◌, length, get_elem?, All, Result, ok, err, arith, Bool-cases, Option-cases, inl, inr,
}
use hackathon_parity_eu.Staking.Search.{
  binary_search_by, insert_at, insert_by, sort_by, Answers, Splits, Ordered,
  binary_search_by-Answers,
}
use hackathon_parity_eu.Staking.Bond.{
  Bond, Delegations, last, after_equal, insert_after, insert_found, insert_bond,
  insert_sorted_greatest_to_least, sort_greatest_to_least, saturating_add,
}

abbrev pub IsDescending : List Bond → Type 0
IsDescending [] = Unit
IsDescending (x ∷ xs) = All (λ y. y.amount ≤ x.amount) xs × IsDescending xs

-- The reference: behind every bond of at least the amount.
unfoldable pub place : Bond → List Bond → List Bond
place d [] = d ∷ []
place d (x ∷ xs) = if leb d.amount x.amount then x ∷ place d xs else d ∷ x ∷ xs

unfoldable pub sum_amounts : List Bond → ℕ
sum_amounts [] = 0
sum_amounts (x ∷ xs) = x.amount + sum_amounts xs

abbrev cmp : Bond → Bond → Ordering
cmp d x = compare d.amount x.amount

All-le_trans :
    (m n : ℕ) (xs : List Bond) → m ≤ n → All (λ y. y.amount ≤ m) xs → All (λ y. y.amount ≤ n) xs
All-le_trans m n [] h a = tt
All-le_trans m n (x ∷ xs) h a = (omega arith, All-le_trans m n xs h a.1)

All-place :
    (n : ℕ) (d : Bond) (xs : List Bond)
    → d.amount ≤ n
    → All (λ y. y.amount ≤ n) xs
    → All (λ y. y.amount ≤ n) (place d xs)
unfolding place
All-place n d [] h a = (h, tt)
All-place n d (x ∷ xs) h a = ground (arith, All-place n d xs h a.1)

pub place-IsDescending : (d : Bond) (xs : List Bond) → IsDescending xs → IsDescending (place d xs)
unfolding place
place-IsDescending d [] s = (tt, tt)
place-IsDescending d (x ∷ xs) s =
    ground (
      arith,
      place-IsDescending d xs s.1,
      All-place x.amount d xs,
      All-le_trans x.amount d.amount xs,
    )

pub sum_amounts-place :
    (d : Bond) (xs : List Bond) → sum_amounts (place d xs) ≡ d.amount + sum_amounts xs
unfolding place sum_amounts
sum_amounts-place d [] = refl
sum_amounts-place d (x ∷ xs) = ground (arith, sum_amounts-place d xs)

pub length-place : (d : Bond) (xs : List Bond) → length (place d xs) ≡ suc (length xs)
unfolding place
length-place d [] = refl
length-place d (x ∷ xs) = ground (arith, length-place d xs)

get_elem?-le :
    (n i : ℕ) (y : Bond) (xs : List Bond)
    → All (λ b. b.amount ≤ n) xs
    → get_elem? xs i ≡ some y
    → y.amount ≤ n
get_elem?-le n i y [] a e = absurd (cc)
get_elem?-le n zero y (x ∷ xs) a e = ground arith
get_elem?-le n (suc i) y (x ∷ xs) a e = get_elem?-le n i y xs a.1 e

amount_mono :
    (i j : ℕ) (x y : Bond) (xs : List Bond)
    → IsDescending xs
    → i ≤ j
    → get_elem? xs i ≡ some x
    → get_elem? xs j ≡ some y
    → y.amount ≤ x.amount
amount_mono i j x y [] s le ex ey = absurd (cc)
amount_mono zero zero x y (z ∷ zs) s le ex ey = ground arith
amount_mono zero (suc j) x y (z ∷ zs) s le ex ey =
    ground (arith, get_elem?-le z.amount j y zs s.0 ey)
amount_mono (suc i) zero x y (z ∷ zs) s le ex ey = absurd (omega arith)
amount_mono (suc i) (suc j) x y (z ∷ zs) s le ex ey = amount_mono i j x y zs s.1 (omega arith) ex ey

IsDescending-Ordered : (d : Bond) (xs : List Bond) → IsDescending xs → Ordered (cmp d) xs
IsDescending-Ordered d xs s i j x y le ex ey = (
  λ h. ground (arith, amount_mono i j x y xs s le ex ey),
  λ h. ground (arith, amount_mono i j x y xs s le ex ey),
)

after_equal-place :
    (d : Bond) (xs : List Bond) → All (λ y. y.amount ≤ d.amount) xs → after_equal d xs ≡ place d xs
unfolding after_equal place
after_equal-place d [] a = refl
after_equal-place d (x ∷ xs) a = ground (arith, after_equal-place d xs a.1)

insert_after-place :
    (i : ℕ) (d x : Bond) (xs : List Bond)
    → IsDescending xs
    → get_elem? xs i ≡ some x
    → x.amount ≡ d.amount
    → insert_after i d xs ≡ place d xs
unfolding insert_after place
insert_after-place i d x [] s e h = refl
insert_after-place zero d x (y ∷ ys) s e h =
    ground (arith, after_equal-place d ys, All-le_trans y.amount d.amount ys)
insert_after-place (suc i) d x (y ∷ ys) s e h =
    ground (arith, insert_after-place i d x ys s.1 e h, get_elem?-le y.amount i x ys s.0 e)

place-above :
    (d : Bond) (xs : List Bond) → All (λ x. cmp d x ≡ Ordering.gt) xs → place d xs ≡ d ∷ xs
unfolding place
place-above d [] a = refl
place-above d (x ∷ xs) a = ground arith

insert_at-place :
    (i : ℕ) (d : Bond) (xs : List Bond) → Splits (cmp d) xs i → insert_at i d xs ≡ place d xs
unfolding insert_at place
insert_at-place zero d xs s = sym (place-above d xs s.2)
insert_at-place (suc i) d [] s = absurd (omega arith)
insert_at-place (suc i) d (x ∷ xs) s =
    ground (arith, insert_at-place i d xs (omega arith, s.1.1, s.2))

insert_as :
    (d : Bond) (xs : List Bond) (r : Result ℕ ℕ)
    → IsDescending xs
    → Answers (cmp d) xs r
    → (elim r [ ok i ↦ insert_after i d xs | err i ↦ insert_at i d xs ]) ≡ place d xs
insert_as d xs (ok i) s (x, e, h) = insert_after-place i d x xs s e (ground arith)
insert_as d xs (err i) s h = insert_at-place i d xs h

insert_found-place : (d : Bond) (xs : List Bond) → IsDescending xs → insert_found d xs ≡ place d xs
unfolding insert_found
insert_found-place d xs s =
    insert_as d xs (binary_search_by (cmp d) xs) s
      (binary_search_by-Answers (cmp d) xs (IsDescending-Ordered d xs s))

last-le :
    (l x : Bond) (xs : List Bond)
    → IsDescending (x ∷ xs)
    → last (x ∷ xs) ≡ some l
    → l.amount ≤ x.amount
last-le l x [] s e = ground arith
last-le l x (y ∷ ys) s e = ground (arith, last-le l y ys s.1 e)

last-place :
    (d l : Bond) (xs : List Bond)
    → IsDescending xs
    → last xs ≡ some l
    → l.amount ≡ d.amount
    → xs ++ d ∷ [] ≡ place d xs
unfolding place
last-place d l [] s e h = absurd (cc)
last-place d l (x ∷ []) s e h = ground arith
last-place d l (x ∷ y ∷ ys) s e h =
    let before : d.amount ≤ x.amount = ground (arith, last-le l x (y ∷ ys) s e) in
    let rest : (y ∷ ys) ++ d ∷ [] ≡ place d (y ∷ ys) = last-place d l (y ∷ ys) s.1 e h in
    ground (arith, before, rest)

insert_bond-place : (d : Bond) (xs : List Bond) → IsDescending xs → insert_bond d xs ≡ place d xs
unfolding insert_bond
insert_bond-place d xs s = elim (Option-cases (last xs)) [
  | inl e ↦ rw (e, insert_bond) (insert_found-place d xs s)
  | inr (l, e) ↦ elim (Bool-cases (l.amount == d.amount)) [
    | inl same ↦ rw (e, insert_bond) (rw same (last-place d l xs s e (ground arith)))
    | inr other ↦ rw (e, insert_bond) (rw other (insert_found-place d xs s))
  ]
]

-- On delegations sorted from the greatest to the least, the insertion puts the new delegation behind
-- all of at least its amount and before all smaller ones, which keeps the list sorted; it adds the
-- amount to the total.
pub insert_sorted_greatest_to_least_lem :
    (d : Bond) (ds : Delegations)
    → IsDescending ds.delegations
    → (insert_sorted_greatest_to_least d ds
        ≡ record { delegations = place d ds.delegations; total = saturating_add ds.total d.amount })
      × IsDescending (place d ds.delegations)
unfolding insert_sorted_greatest_to_least
insert_sorted_greatest_to_least_lem d ds s =
    (rw (insert_bond-place d ds.delegations s), place-IsDescending d ds.delegations s)

abbrev less : Bond → Bond → Bool
less a b = ltb b.amount a.amount

abbrev pub with_amount : ℕ → List Bond → List Bond
with_amount n [] = []
with_amount n (x ∷ xs) = if x.amount == n then x ∷ with_amount n xs else with_amount n xs

All-insert_by :
    (n : ℕ) (d : Bond) (xs : List Bond)
    → d.amount ≤ n
    → All (λ y. y.amount ≤ n) xs
    → All (λ y. y.amount ≤ n) (insert_by less d xs)
unfolding insert_by
All-insert_by n d [] h a = (h, tt)
All-insert_by n d (x ∷ xs) h a = ground (arith, All-insert_by n d xs h a.1)

insert_by-IsDescending :
    (d : Bond) (xs : List Bond) → IsDescending xs → IsDescending (insert_by less d xs)
unfolding insert_by
insert_by-IsDescending d [] s = (tt, tt)
insert_by-IsDescending d (x ∷ xs) s = ground (
  arith,
  insert_by-IsDescending d xs s.1,
  All-insert_by x.amount d xs,
  All-le_trans x.amount d.amount xs,
)

insert_by-with_amount :
    (n : ℕ) (d : Bond) (xs : List Bond)
    → with_amount n (insert_by less d xs) ≡ with_amount n (d ∷ xs)
unfolding insert_by
insert_by-with_amount n d [] = refl
insert_by-with_amount n d (x ∷ xs) = ground (arith, insert_by-with_amount n d xs)

sorted : (xs : List Bond) → IsDescending (sort_by less xs)
unfolding sort_by
sorted [] = tt
sorted (x ∷ xs) = insert_by-IsDescending x (sort_by less xs) (sorted xs)

stable : (n : ℕ) (xs : List Bond) → with_amount n (sort_by less xs) ≡ with_amount n xs
unfolding sort_by
stable n [] = refl
stable n (x ∷ xs) = ground (arith, insert_by-with_amount n x (sort_by less xs), stable n xs)

-- The sort puts the delegations from the greatest to the least and keeps the order of those of one
-- amount; it loses none, adds none, and leaves the total.
pub sort_greatest_to_least_lem :
    (ds : Delegations)
    → IsDescending (sort_greatest_to_least ds).delegations
      × ((sort_greatest_to_least ds).total ≡ ds.total)
      × ((n : ℕ)
          → with_amount n (sort_greatest_to_least ds).delegations ≡ with_amount n ds.delegations)
unfolding sort_greatest_to_least
sort_greatest_to_least_lem ds = (sorted ds.delegations, refl, λ n. stable n ds.delegations)

insert_by-sum :
    (d : Bond) (xs : List Bond) → sum_amounts (insert_by less d xs) ≡ d.amount + sum_amounts xs
unfolding insert_by sum_amounts
insert_by-sum d [] = refl
insert_by-sum d (x ∷ xs) = ground (arith, insert_by-sum d xs)

pub sort_by-sum : (xs : List Bond) → sum_amounts (sort_by less xs) ≡ sum_amounts xs
unfolding sort_by sum_amounts
sort_by-sum [] = refl
sort_by-sum (x ∷ xs) = omega (arith, insert_by-sum x (sort_by less xs), sort_by-sum xs)
