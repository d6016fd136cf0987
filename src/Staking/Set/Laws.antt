-- ===== src/Staking/Set/Laws.antt =====
-- The operations of pallets/parachain-staking/src/set.rs against the finite map that a set stands
-- for: from the key of an element to the element.
use Prim.Native.Nat.{Ordering, compare}
use hackathon_parity_eu.Prelude.{
  ℕ, zero, suc, ◌≤◌, ◌<◌, ◌≡◌, refl, sym, subst, Bool, true, false, not, ◌&&◌, is_some, ◌==◌,
  if◌then◌else◌, Option, none, some, List, [], ◌∷◌, get_elem?, All, Result, ok, err, arith,
}
use hackathon_parity_eu.Staking.Search.{
  binary_search_by, insert_at, remove_at, Answers, Splits, Ordered, binary_search_by-Answers,
}
use hackathon_parity_eu.Staking.Set.{Ord, OrderedSet, insert, remove, contains}

module _ {A : Type 0} ⦃o : Ord A⦄ where
  abbrev cmp : A → A → Ordering
  cmp v x = compare (o.key x) (o.key v)

  -- The keys ascend strictly.
  abbrev pub IsAscending : List A → Type 0
  IsAscending [] = Unit
  IsAscending (x ∷ xs) = All (λ y. o.key x < o.key y) xs × IsAscending xs

  abbrev pub IsSorted : OrderedSet A → Type 0
  IsSorted s = IsAscending s.elements

  -- The element with a key.
  abbrev pub find : ℕ → List A → Option A
  find k [] = none
  find k (x ∷ xs) = if o.key x == k then some x else find k xs

  abbrev pub get : ℕ → OrderedSet A → Option A
  get k s = find k s.elements

  All-get_elem? :
      (P : A → Type 0) (i : ℕ) (x : A) (xs : List A) → All P xs → get_elem? xs i ≡ some x → P x
  All-get_elem? P i x [] a e = absurd (cc)
  All-get_elem? P zero x (y ∷ ys) a e = subst P (cc) a.0
  All-get_elem? P (suc i) x (y ∷ ys) a e = All-get_elem? P i x ys a.1 e

  All-insert_at :
      (P : A → Type 0) (i : ℕ) (v : A) (xs : List A) → P v → All P xs → All P (insert_at i v xs)
  unfolding insert_at
  All-insert_at P zero v xs p a = (p, a)
  All-insert_at P (suc i) v [] p a = (p, tt)
  All-insert_at P (suc i) v (x ∷ xs) p a = (a.0, All-insert_at P i v xs p a.1)

  All-remove_at : (P : A → Type 0) (i : ℕ) (xs : List A) → All P xs → All P (remove_at i xs)
  unfolding remove_at
  All-remove_at P i [] a = tt
  All-remove_at P zero (x ∷ xs) a = a.1
  All-remove_at P (suc i) (x ∷ xs) a = (a.0, All-remove_at P i xs a.1)

  key_mono :
      (i j : ℕ) (x y : A) (xs : List A)
      → IsAscending xs
      → i ≤ j
      → get_elem? xs i ≡ some x
      → get_elem? xs j ≡ some y
      → o.key x ≤ o.key y
  key_mono i j x y [] a le ex ey = absurd (cc)
  key_mono zero zero x y (z ∷ zs) a le ex ey = let e : x ≡ y = cc in rw e (omega arith)
  key_mono zero (suc j) x y (z ∷ zs) a le ex ey =
      let lt : o.key z < o.key y = All-get_elem? (λ w. o.key z < o.key w) j y zs a.0 ey in
      let e : z ≡ x = cc in rw (sym e) (omega arith)
  key_mono (suc i) zero x y (z ∷ zs) a le ex ey = absurd (omega arith)
  key_mono (suc i) (suc j) x y (z ∷ zs) a le ex ey = key_mono i j x y zs a.1 (omega arith) ex ey

  IsAscending-Ordered : (v : A) (xs : List A) → IsAscending xs → Ordered (cmp v) xs
  IsAscending-Ordered v xs a i j x y le ex ey = (
    λ h. ground (arith, key_mono i j x y xs a le ex ey),
    λ h. ground (arith, key_mono i j x y xs a le ex ey),
  )

  pub find-get_elem? :
      (i : ℕ) (x : A) (xs : List A)
      → IsAscending xs
      → get_elem? xs i ≡ some x
      → find (o.key x) xs ≡ some x
  find-get_elem? i x [] a e = absurd (cc)
  find-get_elem? zero x (y ∷ ys) a e = ground arith
  find-get_elem? (suc i) x (y ∷ ys) a e =
      let lt : o.key y < o.key x = All-get_elem? (λ w. o.key y < o.key w) i x ys a.0 e in
      ground (arith, find-get_elem? i x ys a.1 e)

  find-above : (k : ℕ) (xs : List A) → All (λ y. k < o.key y) xs → find k xs ≡ none
  find-above k [] a = refl
  find-above k (x ∷ xs) a = ground (arith, find-above k xs a.1)

  find-remove_at :
      (k i : ℕ) (x : A) (xs : List A)
      → IsAscending xs
      → get_elem? xs i ≡ some x
      → find k (remove_at i xs) ≡ (if k == o.key x then none else find k xs)
  unfolding remove_at
  find-remove_at k i x [] a e = absurd (cc)
  find-remove_at k zero x (y ∷ ys) a e = ground (arith, find-above (o.key y) ys a.0)
  find-remove_at k (suc i) x (y ∷ ys) a e =
      let lt : o.key y < o.key x = All-get_elem? (λ w. o.key y < o.key w) i x ys a.0 e in
      ground (arith, find-remove_at k i x ys a.1 e)

  IsAscending-remove_at : (i : ℕ) (xs : List A) → IsAscending xs → IsAscending (remove_at i xs)
  unfolding remove_at
  IsAscending-remove_at i [] a = tt
  IsAscending-remove_at zero (x ∷ xs) a = a.1
  IsAscending-remove_at (suc i) (x ∷ xs) a =
      (All-remove_at (λ y. o.key x < o.key y) i xs a.0, IsAscending-remove_at i xs a.1)

  find-Splits : (i : ℕ) (v : A) (xs : List A) → Splits (cmp v) xs i → find (o.key v) xs ≡ none
  find-Splits i v [] s = refl
  find-Splits zero v (x ∷ xs) s = ground (arith, find-Splits zero v xs (omega arith, tt, s.2.1))
  find-Splits (suc i) v (x ∷ xs) s = ground (arith, find-Splits i v xs (omega arith, s.1.1, s.2))

  find-insert_at :
      (k i : ℕ) (v : A) (xs : List A)
      → Splits (cmp v) xs i
      → find k (insert_at i v xs) ≡ (if k == o.key v then some v else find k xs)
  unfolding insert_at
  find-insert_at k zero v xs s = ground arith
  find-insert_at k (suc i) v [] s = absurd (omega arith)
  find-insert_at k (suc i) v (x ∷ xs) s =
      ground (arith, find-insert_at k i v xs (omega arith, s.1.1, s.2))

  All-gt :
      (k : ℕ) (xs : List A)
      → All (λ y. compare (o.key y) k ≡ Ordering.gt) xs
      → All (λ y. k < o.key y) xs
  All-gt k [] a = tt
  All-gt k (x ∷ xs) a = (ground arith, All-gt k xs a.1)

  IsAscending-insert_at :
      (i : ℕ) (v : A) (xs : List A)
      → Splits (cmp v) xs i
      → IsAscending xs
      → IsAscending (insert_at i v xs)
  unfolding insert_at
  IsAscending-insert_at zero v [] s a = (tt, tt)
  IsAscending-insert_at zero v (x ∷ xs) s a = (All-gt (o.key v) (x ∷ xs) s.2, a)
  IsAscending-insert_at (suc i) v [] s a = (tt, tt)
  IsAscending-insert_at (suc i) v (x ∷ xs) s a = (
    All-insert_at (λ y. o.key x < o.key y) i v xs (ground arith) a.0,
    IsAscending-insert_at i v xs (omega arith, s.1.1, s.2) a.1,
  )

  -- What an operation on a sorted set does, at every key.
  abbrev pub InsertLaw : A → OrderedSet A → OrderedSet A × Bool → Type 0
  InsertLaw v s r =
      IsSorted r.0
      × (r.1 ≡ not (is_some (get (o.key v) s)))
      × ((k : ℕ)
          → get k r.0 ≡ (if k == o.key v && not (is_some (get k s)) then some v else get k s))

  abbrev pub RemoveLaw : A → OrderedSet A → OrderedSet A × Bool → Type 0
  RemoveLaw v s r =
      IsSorted r.0
      × (r.1 ≡ is_some (get (o.key v) s))
      × ((k : ℕ) → get k r.0 ≡ (if k == o.key v then none else get k s))

  module _ (v : A) (s : OrderedSet A) (a : IsSorted s) where
    found :
        (i : ℕ) (x : A)
        → get_elem? s.elements i ≡ some x
        → cmp v x ≡ Ordering.eq
        → (o.key x ≡ o.key v) × (get (o.key v) s ≡ some x)
    found i x e h =
        let same : o.key x ≡ o.key v = ground arith in
        (same, rw (sym same) (find-get_elem? i x s.elements a e))

    insert_as :
        (r : Result ℕ ℕ)
        → Answers (cmp v) s.elements r
        → InsertLaw v s (elim r [
          | ok i ↦ (s, false)
          | err i ↦ (record { elements = insert_at i v s.elements }, true)
        ])
    insert_as (ok i) (x, e, h) =
        (a, ground (arith, found i x e h), λ k. ground (arith, found i x e h))
    insert_as (err i) h = (
      IsAscending-insert_at i v s.elements h a,
      ground (arith, find-Splits i v s.elements h),
      λ k. ground (arith, find-Splits i v s.elements h, find-insert_at k i v s.elements h),
    )

    remove_as :
        (r : Result ℕ ℕ)
        → Answers (cmp v) s.elements r
        → RemoveLaw v s (elim r [
          | ok i ↦ (record { elements = remove_at i s.elements }, true)
          | err i ↦ (s, false)
        ])
    remove_as (ok i) (x, e, h) = (
      IsAscending-remove_at i s.elements a,
      ground (arith, found i x e h),
      λ k. ground (arith, found i x e h, find-remove_at k i x s.elements a e),
    )
    remove_as (err i) h = (
      a,
      ground (arith, find-Splits i v s.elements h),
      λ k. ground (arith, find-Splits i v s.elements h),
    )

    contains_as :
        (r : Result ℕ ℕ)
        → Answers (cmp v) s.elements r
        → (elim r [ ok i ↦ true | err i ↦ false ]) ≡ is_some (get (o.key v) s)
    contains_as (ok i) (x, e, h) = ground (arith, found i x e h)
    contains_as (err i) h = ground (arith, find-Splits i v s.elements h)

    answer : Answers (cmp v) s.elements (binary_search_by (cmp v) s.elements)
    answer = binary_search_by-Answers (cmp v) s.elements (IsAscending-Ordered v s.elements a)

    pub insert_lem : InsertLaw v s (insert v s)
    unfolding insert
    insert_lem = insert_as (binary_search_by (cmp v) s.elements) answer

    pub remove_lem : RemoveLaw v s (remove v s)
    unfolding remove
    remove_lem = remove_as (binary_search_by (cmp v) s.elements) answer

    pub contains_lem : contains v s ≡ is_some (get (o.key v) s)
    unfolding contains
    contains_lem = contains_as (binary_search_by (cmp v) s.elements) answer

  -- A removal that finds nothing changes nothing.
  pub remove_absent : (v : A) (s : OrderedSet A) → (remove v s).1 ≡ false → (remove v s).0 ≡ s
  unfolding remove
  remove_absent v s h = ground arith

  -- A sorted set stands for a finite map from keys to elements, and each operation does to the map what
  -- it should: `insert` enters the element unless its key is there, and says whether it did; `remove`
  -- takes out what the key has, and says whether there was anything; `contains` says whether the key is
  -- there. The set stays sorted.
  pub operations-Refine :
      (v : A) (s : OrderedSet A)
      → IsSorted s
      → InsertLaw v s (insert v s)
        × RemoveLaw v s (remove v s)
        × (contains v s ≡ is_some (get (o.key v) s))
  operations-Refine v s a = (insert_lem v s a, remove_lem v s a, contains_lem v s a)
