-- ===== src/Staking/Candidate/Books/Top.antt =====
-- `add_delegation` of pallets/parachain-staking/src/types.rs: the candidate's books after it.
use hackathon_parity_eu.Prelude.{
  ℕ, ◌+◌, ◌-◌, ◌≤◌, ◌≡◌, refl, sym, ◌∙◌, subst, ◌^◌, true, false, ◌==◌, leb, ltb, if◌then◌else◌,
  Option, none, some, length, lookup, insert, nat_key, arith, ok, Option-cases, Bool-cases,
  Result-cases, inl, inr, lookup_after_insert,
}
use hackathon_parity_eu.Staking.Bond.{
  Bond, Delegations, is_full, capacity, lowest_delegation_amount, saturating_add,
  saturating_add_u32, insert_sorted_greatest_to_least,
}
use hackathon_parity_eu.Staking.Pallet.{Config, CandidateMetadata, Storage, DelegatorAdded}
use hackathon_parity_eu.Staking.Candidate.{reset_top_data}
use hackathon_parity_eu.Staking.Candidate.Add.{
  pop, add_bottom_delegation, add_top_delegation, add_below_top, add_delegation,
}
use hackathon_parity_eu.Staking.Candidate.Books.{
  IsAccounted, TopBooks, BottomBooks, saturating_add-small, insert_sorted-IsAccounted,
  pop-IsAccounted,
}
use hackathon_parity_eu.Staking.Candidate.Books.Bottom.{
  Keeps-TopBooks, kicked, add_bottom_delegation-BottomAfter,
}

pub is_full-capacity :
    (limit : ℕ) (d : Delegations) → is_full (capacity limit d) ≡ leb limit (length d.delegations)
unfolding capacity
is_full-capacity limit d = ground arith

abbrev pub or_zero : Option ℕ → ℕ
or_zero none = 0
or_zero (some n) = n

module _ (c : Config) where
  -- The metadata after `reset_top_data`, and a count.
  abbrev pub top_reset : ℕ → Delegations → CandidateMetadata → CandidateMetadata
  top_reset count top m = record m {
    lowest_top_delegation_amount = lowest_delegation_amount top;
    top_capacity = capacity c.max_top_delegations_per_candidate top;
    total_counted = saturating_add m.bond top.total;
    delegation_count = count;
  }

  pub top_reset-Books :
      (count : ℕ) (top bottom : Delegations) (m : CandidateMetadata)
      → IsAccounted top
      → length top.delegations ≤ c.max_top_delegations_per_candidate
      → m.bond + top.total ≤ 2 ^ 128 - 1
      → BottomBooks c m bottom
      → TopBooks c (top_reset count top m) top × BottomBooks c (top_reset count top m) bottom
  top_reset-Books count top bottom m a within small b = (
    record {
      accounted = a;
      counted = saturating_add-small m.bond top.total small;
      lowest = refl;
      capacity_known = refl;
      within = within;
    },
    record {
      accounted = b.accounted;
      lowest = b.lowest;
      highest = b.highest;
      capacity_known = b.capacity_known;
      within = b.within;
    },
  )

  -- The books of both lists, and what the two totals lose and gain.
  abbrev pub BooksAfter :
      ℕ → ℕ → ℕ → Delegations → Delegations → CandidateMetadata → Storage c → Type 0
  BooksAfter candidate amount lost top bottom m' s' =
      (top' : Delegations) × (bottom' : Delegations) × (lookup candidate s'.top_delegations
        ≡ some top')
      × (lookup candidate s'.bottom_delegations ≡ some bottom')
      × TopBooks c m' top'
      × BottomBooks c m' bottom'
      × (top'.total + bottom'.total + lost ≡ top.total + bottom.total + amount)

  module _ (candidate : ℕ) (d : Bond) (m : CandidateMetadata) (top bottom : Delegations)
      (s : Storage c) (found_top : lookup candidate s.top_delegations ≡ some top)
      (found_bottom : lookup candidate s.bottom_delegations ≡ some bottom)
      (top_books : TopBooks c m top) (bottom_books : BottomBooks c m bottom)
      (small : m.bond + top.total + bottom.total + d.amount ≤ 2 ^ 128 - 1) where
    -- A full bottom, as the candidate knows it, is one at its limit.
    kicked-known :
        kicked c bottom
        ≡ (if is_full m.bottom_capacity then m.lowest_bottom_delegation_amount else 0)
    kicked-known = ground (
      arith,
      bottom_books.lowest,
      bottom_books.capacity_known,
      bottom_books.within,
      is_full-capacity c.max_bottom_delegations_per_candidate bottom,
    )

    add_with_room :
        (m' : CandidateMetadata) (less : Option ℕ) (s' : Storage c)
        → (length top.delegations == c.max_top_delegations_per_candidate) ≡ false
        → add_top_delegation c candidate d m s ≡ ok ((m', less), s')
        → (less ≡ none) × BooksAfter candidate d.amount 0 top bottom m' s'
    unfolding add_top_delegation reset_top_data
    add_with_room m' less s' room h =
        let (a, t, len) = insert_sorted-IsAccounted d top top_books.accounted (omega arith) in
        let within = top_books.within in
        let t' : Delegations = insert_sorted_greatest_to_least d top in
        let count : ℕ = saturating_add_u32 m.delegation_count 1 in
        let (tb, bb) =
          top_reset-Books count t' bottom m a (ground (arith, within, len, room)) (omega arith)
            bottom_books in
        let em : m' ≡ top_reset count t' m = ground arith in
        let es : s'.top_delegations ≡ insert candidate t' s.top_delegations = ground arith in
        let eb : s'.bottom_delegations ≡ s.bottom_delegations = ground arith in
        (
          ground arith,
          (
            t',
            bottom,
            ground (
              arith,
              lookup_after_insert candidate candidate t' s.top_delegations s'.top_delegations es,
            ),
            rw eb found_bottom,
            subst (λ x. TopBooks c x t') (sym em) tb,
            subst (λ x. BottomBooks c x bottom) (sym em) bb,
            omega arith,
          ),
        )

    add_when_full :
        (m' : CandidateMetadata) (less : Option ℕ) (s' : Storage c)
        → (length top.delegations == c.max_top_delegations_per_candidate) ≡ true
        → add_top_delegation c candidate d m s ≡ ok ((m', less), s')
        → (or_zero less ≡ kicked c bottom)
          × BooksAfter candidate d.amount (kicked c bottom) top bottom m' s'
    unfolding add_top_delegation reset_top_data
    add_when_full m' less s' full h = elim (Option-cases (pop top.delegations)) [
      | inl gone ↦ absurd (ground arith)
      | inr ((l, rest), e) ↦ elim (Result-cases (add_bottom_delegation c true candidate l m s)) [
        | inr (f, failed) ↦ absurd (ground arith)
        | inl ((m₁, s₁), added) ↦
            let (base, low, len, le) = pop-IsAccounted l rest top e top_books.accounted in
            let (b', found_b, bb, moved, keeps, same_top, same_pool) =
              add_bottom_delegation-BottomAfter c true candidate l m m₁ bottom s s₁ found_bottom
                bottom_books (omega arith) added in
            let bond = keeps.kept_bond in
            let left : Delegations = record { delegations = rest; total = top.total - l.amount } in
            let (a, t, len') = insert_sorted-IsAccounted d left base (omega arith) in
            let within = top_books.within in
            let t' : Delegations = insert_sorted_greatest_to_least d left in
            let count : ℕ = m'.delegation_count in
            let (tb, bb') =
              top_reset-Books count t' b' m₁ a (ground (arith, within, len, len')) (omega arith)
                bb in
            let em : m' ≡ top_reset count t' m₁ = ground arith in
            let es : s'.top_delegations ≡ insert candidate t' s₁.top_delegations = ground arith in
            let eb : s'.bottom_delegations ≡ s₁.bottom_delegations = ground arith in
            (
              ground (arith, kicked-known),
              (
                t',
                b',
                ground (
                  arith,
                  lookup_after_insert candidate candidate t' s₁.top_delegations s'.top_delegations
                      es,
                ),
                rw eb found_b,
                subst (λ x. TopBooks c x t') (sym em) tb,
                subst (λ x. BottomBooks c x b') (sym em) bb',
                omega arith,
              ),
            )
      ]
    ]

    add_below :
        (m' : CandidateMetadata) (added : DelegatorAdded) (less : Option ℕ) (s' : Storage c)
        → add_below_top c candidate d m s ≡ ok ((m', added, less), s')
        → (or_zero less ≡ kicked c bottom)
          × BooksAfter candidate d.amount (kicked c bottom) top bottom m' s'
    unfolding add_below_top
    add_below m' added less s' h =
        elim (Result-cases (add_bottom_delegation c false candidate d m s)) [
          | inr (f, failed) ↦ absurd (ground arith)
          | inl ((m₁, s₁), e) ↦
              let (b', found_b, bb, moved, keeps, same_top, same_pool) =
                add_bottom_delegation-BottomAfter c false candidate d m m₁ bottom s s₁ found_bottom
                  bottom_books (omega arith) e in
              let em : m₁ ≡ m' = ground arith in
              let es : s₁ ≡ s' = ground arith in
              let kept = Keeps-TopBooks c m m₁ top keeps top_books in
              (
                ground (arith, kicked-known),
                (
                  top,
                  b',
                  rw (sym es, same_top) found_top,
                  rw (sym es) found_b,
                  subst (λ x. TopBooks c x top) em kept,
                  subst (λ x. BottomBooks c x b') em bb,
                  omega arith,
                ),
              )
        ]

    top_full-known :
        is_full m.top_capacity ≡ (length top.delegations == c.max_top_delegations_per_candidate)
    top_full-known = ground (
      arith,
      top_books.capacity_known,
      top_books.within,
      is_full-capacity c.max_top_delegations_per_candidate top,
    )

    -- Where the candidate's books agree with its stored top and bottom delegations, and the stake fits a
    -- balance, `add_delegation` that succeeds leaves books that agree with what it stores: both lists
    -- sorted from the greatest to the least and within their limits, their totals the sums, the counted
    -- total the bond with the top. The two totals gain the new amount and lose what is reported as taken
    -- from the total staked.
    pub add_delegation-Books :
        (m' : CandidateMetadata) (added : DelegatorAdded) (less : Option ℕ) (s' : Storage c)
        → add_delegation c candidate d m s ≡ ok ((m', added, less), s')
        → BooksAfter candidate d.amount (or_zero less) top bottom m' s'
    unfolding add_delegation
    add_delegation-Books m' added less s' h = elim (Bool-cases (is_full m.top_capacity)) [
      | inl full ↦ elim (Bool-cases (ltb m.lowest_top_delegation_amount d.amount)) [
        | inl above ↦
            let at_limit = sym top_full-known ∙ full in
            let (e, books) = add_when_full m' less s' at_limit (ground (arith, full, above)) in
            subst (λ n. BooksAfter candidate d.amount n top bottom m' s') (sym e) books
        | inr below ↦
            let (e, books) = add_below m' added less s' (ground (arith, full, below)) in
            subst (λ n. BooksAfter candidate d.amount n top bottom m' s') (sym e) books
      ]
      | inr room ↦ elim (Result-cases (add_top_delegation c candidate d m s)) [
        | inr (f, failed) ↦ absurd (ground arith)
        | inl (((m₁, l₁), s₁), e) ↦
            let (no_loss, books) = add_with_room m₁ l₁ s₁ (sym top_full-known ∙ room) e in
            let em : m₁ ≡ m' = ground arith in
            let es : s₁ ≡ s' = ground arith in
            let el : 0 ≡ or_zero less = ground arith in
            subst (λ x. BooksAfter candidate d.amount (or_zero less) top bottom x s') em
              (subst (λ x. BooksAfter candidate d.amount (or_zero less) top bottom m₁ x) es
                (subst (λ n. BooksAfter candidate d.amount n top bottom m₁ s₁) el books))
      ]
    ]
