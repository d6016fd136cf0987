-- ===== src/Staking/Search.antt =====
-- The standard library's searches and sorts of a slice, as pallets/parachain-staking uses them.
use Prim.Native.Nat.{Ordering}
use hackathon_parity_eu.Prelude.{
  ℕ, zero, suc, ◌+◌, ◌-◌, ◌/◌, ◌≤◌, ◌<◌, ◌≡◌, refl, Bool, true, false, ltb, if◌then◌else◌, none,
  some, List, [], ◌∷◌, length, get_elem?, take, drop, All, Result, ok, err, inl, inr, Bool-cases,
  ◌⊎◌, arith,
}

cmp-cases : (o : Ordering) → (o ≡ Ordering.lt) ⊎ ((o ≡ Ordering.eq) ⊎ (o ≡ Ordering.gt))
cmp-cases Ordering.lt = inl refl
cmp-cases Ordering.eq = inr (inl refl)
cmp-cases Ordering.gt = inr (inr refl)

module _ {A : Type 0} where
  -- `slice::binary_search_by`: `ok` with the index of a match, else `err` with the place to insert.
  search : (A → Ordering) → List A → ℕ → ℕ → ℕ → Result ℕ ℕ
  search cmp xs zero left right = err left
  search cmp xs (suc fuel) left right = elim (ltb left right) [
    | false ↦ err left
    | true ↦ elim (get_elem? xs (left + (right - left) / 2)) [
      | none ↦ err left
      | some x ↦ elim (cmp x) [
        | Ordering.lt ↦ search cmp xs fuel (suc (left + (right - left) / 2)) right
        | Ordering.eq ↦ ok (left + (right - left) / 2)
        | Ordering.gt ↦ search cmp xs fuel left (left + (right - left) / 2)
      ]
    ]
  ]

  unfoldable pub binary_search_by : (A → Ordering) → List A → Result ℕ ℕ
  unfolding search
  binary_search_by cmp xs = search cmp xs (suc (length xs)) 0 (length xs)

  -- `Vec::insert`, at an index that is at most the length.
  unfoldable pub insert_at : ℕ → A → List A → List A
  insert_at zero a xs = a ∷ xs
  insert_at (suc i) a [] = a ∷ []
  insert_at (suc i) a (x ∷ xs) = x ∷ insert_at i a xs

  -- `Vec::remove`, at an index below the length.
  unfoldable pub remove_at : ℕ → List A → List A
  remove_at i [] = []
  remove_at zero (x ∷ xs) = xs
  remove_at (suc i) (x ∷ xs) = x ∷ remove_at i xs

  -- One step of a stable sort: behind the elements that are strictly smaller.
  unfoldable pub insert_by : (A → A → Bool) → A → List A → List A
  insert_by less a [] = a ∷ []
  insert_by less a (x ∷ xs) = if less x a then x ∷ insert_by less a xs else a ∷ x ∷ xs

  -- `slice::sort_by`, which is stable.
  unfoldable pub sort_by : (A → A → Bool) → List A → List A
  unfolding insert_by
  sort_by less [] = []
  sort_by less (x ∷ xs) = insert_by less x (sort_by less xs)

  -- All elements before the index compare as smaller, all others as greater.
  abbrev pub Splits : (A → Ordering) → List A → ℕ → Type 0
  Splits cmp xs i =
      (i ≤ length xs)
      × All (λ x. cmp x ≡ Ordering.lt) (take i xs)
      × All (λ x. cmp x ≡ Ordering.gt) (drop i xs)

  -- What the search answers.
  abbrev pub Answers : (A → Ordering) → List A → Result ℕ ℕ → Type 0
  Answers cmp xs (ok i) = (x : A) × (get_elem? xs i ≡ some x) × (cmp x ≡ Ordering.eq)
  Answers cmp xs (err i) = Splits cmp xs i

  -- Smaller elements stand before matches, and matches before greater ones.
  abbrev pub Ordered : (A → Ordering) → List A → Type 0
  Ordered cmp xs =
      (i j : ℕ) (x y : A)
      → i ≤ j
      → get_elem? xs i ≡ some x
      → get_elem? xs j ≡ some y
      → (cmp y ≡ Ordering.lt → cmp x ≡ Ordering.lt) × (cmp x ≡ Ordering.gt → cmp y ≡ Ordering.gt)

  All-take :
      {P : A → Type 0} (i : ℕ) (xs : List A)
      → ((j : ℕ) (x : A) → j < i → get_elem? xs j ≡ some x → P x)
      → All P (take i xs)
  All-take zero xs h = tt
  All-take (suc i) [] h = tt
  All-take (suc i) (x ∷ xs) h =
      (h 0 x (omega arith) refl, All-take i xs (λ j y p e. h (suc j) y (omega arith) e))

  All-drop :
      {P : A → Type 0} (i : ℕ) (xs : List A)
      → ((j : ℕ) (x : A) → i ≤ j → get_elem? xs j ≡ some x → P x)
      → All P (drop i xs)
  All-drop zero [] h = tt
  All-drop zero (x ∷ xs) h =
      (h 0 x (omega arith) refl, All-drop zero xs (λ j y p e. h (suc j) y (omega arith) e))
  All-drop (suc i) [] h = tt
  All-drop (suc i) (x ∷ xs) h = All-drop i xs (λ j y p e. h (suc j) y (omega arith) e)

  get_elem?-outside : (xs : List A) (i : ℕ) → length xs ≤ i → get_elem? xs i ≡ none
  get_elem?-outside [] i h = refl
  get_elem?-outside (x ∷ xs) zero h = absurd (omega arith)
  get_elem?-outside (x ∷ xs) (suc i) h = get_elem?-outside xs i (omega arith)

  get_elem?-inside : (xs : List A) (i : ℕ) → i < length xs → (x : A) × (get_elem? xs i ≡ some x)
  get_elem?-inside [] i h = absurd (omega arith)
  get_elem?-inside (x ∷ xs) zero h = (x, refl)
  get_elem?-inside (x ∷ xs) (suc i) h = get_elem?-inside xs i (omega arith)

  module _ (cmp : A → Ordering) (xs : List A) (ordered : Ordered cmp xs) where
    search-Answers :
        (fuel left right : ℕ)
        → left ≤ right
        → right ≤ length xs
        → right - left < fuel
        → ((j : ℕ) (x : A) → j < left → get_elem? xs j ≡ some x → cmp x ≡ Ordering.lt)
        → ((j : ℕ) (x : A) → right ≤ j → get_elem? xs j ≡ some x → cmp x ≡ Ordering.gt)
        → Answers cmp xs (search cmp xs fuel left right)
    unfolding search
    search-Answers zero left right lr rn enough below above = absurd (omega arith)
    search-Answers (suc fuel) left right lr rn enough below above =
        elim (Bool-cases (ltb left right)) [
          | inr over ↦
              rw (over, search)
                (
                  omega arith,
                  All-take left xs below,
                  All-drop left xs (λ j x p e. above j x (ground arith) e),
                )
          | inl more ↦
              let mid : ℕ = left + (right - left) / 2 in
              let inside : (left ≤ mid) × (mid < right) = ground arith in
              let (x, e) = get_elem?-inside xs mid (omega arith) in
              rw (more, search)
                (rw (e, search)
                  (elim (cmp-cases (cmp x)) [
                    | inl lt ↦
                        rw (lt, search)
                          (search-Answers fuel (suc mid) right (omega arith) rn (omega arith)
                            (λ j y p ey. (ordered j mid y x (omega arith) ey e).0 lt) above)
                    | inr (inl eq) ↦ rw (eq, search) (x, e, eq)
                    | inr (inr gt) ↦
                        rw (gt, search)
                          (search-Answers fuel left mid (omega arith) (omega arith) (omega arith)
                            below (λ j y p ey. (ordered mid j x y p e ey).1 gt))
                  ]))
        ]

    -- On an ordered list the search gives a match, or the place between smaller and greater.
    pub binary_search_by-Answers : Answers cmp xs (binary_search_by cmp xs)
    unfolding binary_search_by
    binary_search_by-Answers =
        search-Answers (suc (length xs)) 0 (length xs) (omega arith) (omega arith) (omega arith)
          (λ j x p e. absurd (omega arith)) (λ j x p e. absurd (cc (get_elem?-outside xs j p, e)))
