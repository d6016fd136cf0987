-- ===== src/Staking/Rounds/Selection.antt =====
-- `compute_top_candidates` and `get_rewardable_delegators` of pallets/parachain-staking/src/lib.rs:
-- which candidates are selected, and which stake counts.
use hackathon_parity_eu.Prelude.{
  ℕ, zero, suc, ◌≤◌, ◌<◌, ◌≡◌, refl, sym, subst, ◌∙◌, ap, Bool, ltb, List, [], ◌∷◌, ◌++◌, length,
  take, drop, All, ◌⊎◌, inl, inr, arith, length-take, take-append-drop,
}
use mathlib.Core.List.{reverse, reverse-cons}
use hackathon_parity_eu.Staking.Search.{insert_by, sort_by}
use hackathon_parity_eu.Staking.Bond.{Bond}
use hackathon_parity_eu.Staking.Rounds.{at_least, owners, top_candidates}

abbrev pub In : {A : Type 0} → A → List A → Type 0
In a [] = ⊥
In a (x ∷ xs) = (a ≡ x) ⊎ In a xs

module _ {A : Type 0} (less : A → A → Bool) where
  In-insert_by : (a b : A) (xs : List A) → In a (insert_by less b xs) → (a ≡ b) ⊎ In a xs
  unfolding insert_by
  In-insert_by a b [] i = i
  In-insert_by a b (x ∷ xs) i = ground (arith, In-insert_by a b xs)

  insert_by-In : (a b : A) (xs : List A) → (a ≡ b) ⊎ In a xs → In a (insert_by less b xs)
  unfolding insert_by
  insert_by-In a b [] i = i
  insert_by-In a b (x ∷ xs) i = ground (arith, insert_by-In a b xs)

  In-sort_by : (a : A) (xs : List A) → In a (sort_by less xs) → In a xs
  unfolding sort_by
  In-sort_by a [] i = i
  In-sort_by a (x ∷ xs) i = ground (arith, In-insert_by a x (sort_by less xs), In-sort_by a xs)

  sort_by-In : (a : A) (xs : List A) → In a xs → In a (sort_by less xs)
  unfolding sort_by
  sort_by-In a [] i = i
  sort_by-In a (x ∷ xs) i = ground (arith, insert_by-In a x (sort_by less xs), sort_by-In a xs)

  length-insert_by : (b : A) (xs : List A) → length (insert_by less b xs) ≡ suc (length xs)
  unfolding insert_by
  length-insert_by b [] = refl
  length-insert_by b (x ∷ xs) = ground (arith, length-insert_by b xs)

  length-sort_by : (xs : List A) → length (sort_by less xs) ≡ length xs
  unfolding sort_by
  length-sort_by [] = refl
  length-sort_by (x ∷ xs) = ground (arith, length-insert_by x (sort_by less xs), length-sort_by xs)

module _ {A : Type 0} where
  In-append : (a : A) (xs ys : List A) → In a (xs ++ ys) → In a xs ⊎ In a ys
  In-append a [] ys i = inr i
  In-append a (x ∷ xs) ys i = ground (arith, In-append a xs ys)

  append-In : (a : A) (xs ys : List A) → In a xs ⊎ In a ys → In a (xs ++ ys)
  append-In a [] ys i = ground arith
  append-In a (x ∷ xs) ys i = ground (arith, append-In a xs ys)

  In-reverse : (a : A) (xs : List A) → In a (reverse xs) → In a xs
  In-reverse a [] i = i
  In-reverse a (x ∷ xs) i =
      elim (In-append a (reverse xs) (x ∷ []) (subst (In a) (reverse-cons x xs) i)) [
        | inl j ↦ inr (In-reverse a xs j)
        | inr j ↦ ground arith
      ]

  reverse-In : (a : A) (xs : List A) → In a xs → In a (reverse xs)
  reverse-In a [] i = i
  reverse-In a (x ∷ xs) i = subst (In a) (sym (reverse-cons x xs)) (elim i [
    | inl e ↦ append-In a (reverse xs) (x ∷ []) (inr (inl e))
    | inr j ↦ append-In a (reverse xs) (x ∷ []) (inl (reverse-In a xs j))
  ])

  In-take : (a : A) (n : ℕ) (xs : List A) → In a (take n xs) → In a xs
  In-take a zero xs i = absurd i
  In-take a (suc n) [] i = i
  In-take a (suc n) (x ∷ xs) i = ground (arith, In-take a n xs)

  In-drop : (a : A) (n : ℕ) (xs : List A) → In a (drop n xs) → n < length xs
  In-drop a zero [] i = absurd i
  In-drop a (suc n) [] i = absurd i
  In-drop a zero (x ∷ xs) i = omega arith
  In-drop a (suc n) (x ∷ xs) i = omega (arith, In-drop a n xs i)

  drop-In : (n : ℕ) (a : A) (xs : List A) → In a (drop n xs) → In a xs
  drop-In zero a xs i = i
  drop-In (suc n) a [] i = i
  drop-In (suc n) a (x ∷ xs) i = inr (drop-In n a xs i)

  All-In : (P : A → Type 0) (xs : List A) (a : A) → All P xs → In a xs → P a
  All-In P [] a h i = absurd i
  All-In P (x ∷ xs) a h (inl e) = subst P (sym e) h.0
  All-In P (x ∷ xs) a h (inr i) = All-In P xs a h.1 i

  All-append : (P : A → Type 0) (xs ys : List A) → All P xs → All P ys → All P (xs ++ ys)
  All-append P [] ys h g = g
  All-append P (x ∷ xs) ys h g = (h.0, All-append P xs ys h.1 g)

abbrev less : Bond → Bond → Bool
less a b = ltb a.amount b.amount

abbrev IsRising : List Bond → Type 0
IsRising [] = Unit
IsRising (x ∷ xs) = All (λ (y : Bond). x.amount ≤ y.amount) xs × IsRising xs

abbrev IsFalling : List Bond → Type 0
IsFalling [] = Unit
IsFalling (x ∷ xs) = All (λ (y : Bond). y.amount ≤ x.amount) xs × IsFalling xs

All-weaken :
    (m n : ℕ) (xs : List Bond)
    → m ≤ n
    → All (λ (y : Bond). n ≤ y.amount) xs
    → All (λ (y : Bond). m ≤ y.amount) xs
All-weaken m n [] h a = tt
All-weaken m n (x ∷ xs) h a = (omega arith, All-weaken m n xs h a.1)

All-insert_by :
    (n : ℕ) (b : Bond) (xs : List Bond)
    → n ≤ b.amount
    → All (λ (y : Bond). n ≤ y.amount) xs
    → All (λ (y : Bond). n ≤ y.amount) (insert_by less b xs)
unfolding insert_by
All-insert_by n b [] h a = (h, tt)
All-insert_by n b (x ∷ xs) h a = ground (arith, All-insert_by n b xs h a.1)

insert_by-IsRising : (b : Bond) (xs : List Bond) → IsRising xs → IsRising (insert_by less b xs)
unfolding insert_by
insert_by-IsRising b [] s = (tt, tt)
insert_by-IsRising b (x ∷ xs) s = ground (
  arith,
  insert_by-IsRising b xs s.1,
  All-insert_by x.amount b xs,
  All-weaken b.amount x.amount xs,
)

sort_by-IsRising : (xs : List Bond) → IsRising (sort_by less xs)
unfolding sort_by
sort_by-IsRising [] = tt
sort_by-IsRising (x ∷ xs) = insert_by-IsRising x (sort_by less xs) (sort_by-IsRising xs)

IsFalling-append :
    (b : Bond) (xs : List Bond)
    → IsFalling xs
    → ((d : Bond) → In d xs → b.amount ≤ d.amount)
    → IsFalling (xs ++ b ∷ [])
IsFalling-append b [] s h = (tt, tt)
IsFalling-append b (x ∷ xs) s h = (
  All-append (λ (y : Bond). y.amount ≤ x.amount) xs (b ∷ []) s.0 (h x (inl refl), tt),
  IsFalling-append b xs s.1 (λ d i. h d (inr i)),
)

reverse-IsFalling : (xs : List Bond) → IsRising xs → IsFalling (reverse xs)
reverse-IsFalling [] s = tt
reverse-IsFalling (x ∷ xs) s = subst IsFalling (sym (reverse-cons x xs)) (
    IsFalling-append x (reverse xs) (reverse-IsFalling xs s.1)
      (λ d i. All-In (λ (y : Bond). x.amount ≤ y.amount) xs d s.0 (In-reverse d xs i)))

-- What is dropped lies below what is taken.
take-above-drop :
    (n : ℕ) (b : Bond) (xs : List Bond)
    → IsFalling xs
    → In b (drop n xs)
    → All (λ (y : Bond). b.amount ≤ y.amount) (take n xs)
take-above-drop zero b xs s i = tt
take-above-drop (suc n) b [] s i = tt
take-above-drop (suc n) b (x ∷ xs) s i = (
  All-In (λ (y : Bond). y.amount ≤ x.amount) xs b s.0 (drop-In n b xs i),
  take-above-drop n b xs s.1 i,
)

In-at_least : (m : ℕ) (b : Bond) (xs : List Bond) → In b (at_least m xs) → In b xs × (m ≤ b.amount)
unfolding at_least
In-at_least m b [] i = absurd i
In-at_least m b (x ∷ xs) i = ground (arith, In-at_least m b xs)

at_least-In : (m : ℕ) (b : Bond) (xs : List Bond) → m ≤ b.amount → In b xs → In b (at_least m xs)
unfolding at_least
at_least-In m b [] h i = i
at_least-In m b (x ∷ xs) h i = ground (arith, at_least-In m b xs h)

at_least-All : (m : ℕ) (xs : List Bond) → All (λ (y : Bond). m ≤ y.amount) xs → at_least m xs ≡ xs
unfolding at_least
at_least-All m [] a = refl
at_least-All m (x ∷ xs) a = ground (arith, at_least-All m xs a.1)

length-at_least : (m : ℕ) (xs : List Bond) → length (at_least m xs) ≤ length xs
unfolding at_least
length-at_least m [] = omega arith
length-at_least m (x ∷ xs) = ground (arith, length-at_least m xs)

length-owners : (xs : List Bond) → length (owners xs) ≡ length xs
length-owners [] = refl
length-owners (x ∷ xs) = ap suc (length-owners xs)

In-owners : (k : ℕ) (xs : List Bond) → In k (owners xs) → (b : Bond) × In b xs × (b.owner ≡ k)
In-owners k [] i = absurd i
In-owners k (x ∷ xs) (inl e) = (x, inl refl, sym e)
In-owners k (x ∷ xs) (inr i) = let (b, j, e) = In-owners k xs i in (b, inr j, e)

owners-In : (b : Bond) (xs : List Bond) → In b xs → In b.owner (owners xs)
owners-In b [] i = i
owners-In b (x ∷ xs) i = ground (arith, owners-In b xs)

module _ (top_n min_stk : ℕ) (pool : List Bond) where
  abbrev ranked : List Bond
  ranked = reverse (sort_by less pool)

  abbrev taken : List Bond
  taken = take top_n ranked

  ranked-In : (b : Bond) → In b pool → In b ranked
  ranked-In b i = reverse-In b (sort_by less pool) (sort_by-In less b pool i)

  In-ranked : (b : Bond) → In b ranked → In b pool
  In-ranked b i = In-sort_by less b pool (In-reverse b (sort_by less pool) i)

  ranked-IsFalling : IsFalling ranked
  ranked-IsFalling = reverse-IsFalling (sort_by less pool) (sort_by-IsRising pool)

  length-selected : length (top_candidates top_n min_stk pool) ≡ length (at_least min_stk taken)
  unfolding top_candidates
  length-selected =
      length-sort_by ltb (owners (at_least min_stk taken)) ∙ length-owners (at_least min_stk taken)

  selected-taken :
      (k : ℕ)
      → In k (top_candidates top_n min_stk pool)
      → (b : Bond) × In b taken × (b.owner ≡ k) × (min_stk ≤ b.amount)
  unfolding top_candidates
  selected-taken k i =
      let (b, j, e) =
        In-owners k (at_least min_stk taken)
          (In-sort_by ltb k (owners (at_least min_stk taken)) i) in
      let (j', le) = In-at_least min_stk b taken j in (b, j', e, le)

  taken-selected :
      (b : Bond) → min_stk ≤ b.amount → In b taken → In b.owner (top_candidates top_n min_stk pool)
  unfolding top_candidates
  taken-selected b h i =
      sort_by-In ltb b.owner (owners (at_least min_stk taken))
        (owners-In b (at_least min_stk taken) (at_least-In min_stk b taken h i))

  -- The candidates selected are at most the number asked for, and each has a bond of the pool of at
  -- least the minimum. A bond of the pool of at least the minimum is selected, unless the number asked
  -- for is selected, each by a bond that is no smaller.
  pub top_candidates_lem :
      (length (top_candidates top_n min_stk pool) ≤ top_n)
      × ((k : ℕ)
          → In k (top_candidates top_n min_stk pool)
          → (b : Bond) × In b pool × (b.owner ≡ k) × (min_stk ≤ b.amount))
      × ((b : Bond)
          → In b pool
          → min_stk ≤ b.amount
          → In b.owner (top_candidates top_n min_stk pool)
            ⊎ ((length (top_candidates top_n min_stk pool) ≡ top_n)
                × ((k : ℕ)
                    → In k (top_candidates top_n min_stk pool)
                    → (d : Bond) × In d pool × (d.owner ≡ k) × (b.amount ≤ d.amount))))
  top_candidates_lem = (
    omega (arith, length-selected, length-at_least min_stk taken, length-take top_n ranked),
    λ k i.
        let (b, j, e, le) = selected-taken k i in
        (b, In-ranked b (In-take b top_n ranked j), e, le),
    λ b i h.
        elim (In-append b taken (drop top_n ranked)
          (subst (In b) (sym (take-append-drop top_n ranked)) (ranked-In b i))) [
            | inl j ↦ inl (taken-selected b h j)
            | inr j ↦
                let above = take-above-drop top_n b ranked ranked-IsFalling j in
                let all = at_least-All min_stk taken (All-weaken min_stk b.amount taken h above) in
                inr (
                  omega (
                    arith,
                    length-selected,
                    ap (length {A = Bond}) all,
                    length-take top_n ranked,
                    In-drop b top_n ranked j,
                  ),
                  λ k ki.
                      let (d, dj, e, le) = selected-taken k ki in
                      (
                        d,
                        In-ranked d (In-take d top_n ranked dj),
                        e,
                        All-In (λ (y : Bond). b.amount ≤ y.amount) taken d above dj,
                      ),
                )
          ],
  )
