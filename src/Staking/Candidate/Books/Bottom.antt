-- ===== src/Staking/Candidate/Books/Bottom.antt =====
-- `add_bottom_delegation` of pallets/parachain-staking/src/types.rs: the books of the bottom after it.
use hackathon_parity_eu.Prelude.{
  ℕ, ◌+◌, ◌-◌, ◌≤◌, ◌≡◌, refl, ◌^◌, true, false, not, Bool, ◌==◌, if◌then◌else◌, some, length,
  lookup, insert, nat_key, arith, ok, Option-cases, Bool-cases, Result-cases, inl, inr,
  lookup_after_insert, subst, sym, ◌∙◌,
}
use hackathon_parity_eu.Staking.Bond.{
  Bond, Delegations, lowest_delegation_amount, saturating_add_u32, insert_sorted_greatest_to_least,
}
use hackathon_parity_eu.Staking.Pallet.{Config, CandidateMetadata, Storage}
use hackathon_parity_eu.Staking.Candidate.{reset_bottom_data}
use hackathon_parity_eu.Staking.Candidate.Add.{pop, kick, add_bottom_delegation}
use hackathon_parity_eu.Staking.Candidate.Books.{
  IsAccounted, TopBooks, BottomBooks, insert_sorted-IsAccounted, pop-IsAccounted,
}

module _ (c : Config) where
  -- The storage of the candidates' side is as it was.
  pub record Same (s s' : Storage c) : Type 0 where
    pub same_top : s'.top_delegations ≡ s.top_delegations
    pub same_bottom : s'.bottom_delegations ≡ s.bottom_delegations
    pub same_pool : s'.candidate_pool ≡ s.candidate_pool
    pub same_info : s'.candidate_info ≡ s.candidate_info
    pub same_total : s'.total ≡ s.total

  kick-Same :
      (candidate : ℕ) (lowest : Bond) (s s' : Storage c)
      → kick c candidate lowest s ≡ ok (tt, s')
      → Same s s'
  unfolding kick
  kick-Same candidate lowest s s' h = ground arith

  -- What the candidate keeps beside the bottom and the count.
  pub record Keeps (m m' : CandidateMetadata) : Type 0 where
    pub kept_bond : m'.bond ≡ m.bond
    pub kept_total : m'.total_counted ≡ m.total_counted
    pub kept_lowest : m'.lowest_top_delegation_amount ≡ m.lowest_top_delegation_amount
    pub kept_capacity : m'.top_capacity ≡ m.top_capacity
    pub kept_status : m'.status ≡ m.status

  -- The books of the top do not read the rest.
  pub Keeps-TopBooks :
      (m m' : CandidateMetadata) (top : Delegations)
      → Keeps m m'
      → TopBooks c m top
      → TopBooks c m' top
  Keeps-TopBooks m m' top keeps books = record {
    accounted = books.accounted;
    counted = omega (arith, keeps.kept_total, keeps.kept_bond, books.counted);
    lowest = keeps.kept_lowest ∙ books.lowest;
    capacity_known = keeps.kept_capacity ∙ books.capacity_known;
    within = books.within;
  }

  module _ (m : CandidateMetadata) (count : ℕ) (d : Delegations) where
    abbrev pub reset : CandidateMetadata
    reset = reset_bottom_data c d (record m { delegation_count = count })

    pub reset-BottomBooks :
        IsAccounted d
        → length d.delegations ≤ c.max_bottom_delegations_per_candidate
        → BottomBooks c reset d × Keeps m reset
    unfolding reset_bottom_data
    reset-BottomBooks a h = (
      record { accounted = a; lowest = refl; highest = refl; capacity_known = refl; within = h },
      record {
        kept_bond = refl;
        kept_total = refl;
        kept_lowest = refl;
        kept_capacity = refl;
        kept_status = refl;
      },
    )

  -- What a full bottom loses.
  abbrev pub kicked : Delegations → ℕ
  kicked bottom =
      if length bottom.delegations == c.max_bottom_delegations_per_candidate
      then lowest_delegation_amount bottom
      else 0

  -- The books after a bottom delegation has been added.
  abbrev pub BottomAfter :
      ℕ → ℕ → Delegations → CandidateMetadata → Storage c → CandidateMetadata → Storage c → Type 0
  BottomAfter candidate amount bottom m s m' s' =
      (bottom' : Delegations) × (lookup candidate s'.bottom_delegations ≡ some bottom')
      × BottomBooks c m' bottom'
      × (bottom'.total + kicked bottom ≡ bottom.total + amount)
      × Keeps m m'
      × (s'.top_delegations ≡ s.top_delegations)
      × (s'.candidate_pool ≡ s.candidate_pool)

  module _ (bumped : Bool) (candidate : ℕ) (d : Bond) (m m' : CandidateMetadata)
      (bottom : Delegations) (s s' : Storage c)
      (found : lookup candidate s.bottom_delegations ≡ some bottom) (books : BottomBooks c m bottom)
      (small : bottom.total + d.amount ≤ 2 ^ 128 - 1)
      (h : add_bottom_delegation c bumped candidate d m s ≡ ok (m', s')) where
    add_with_room :
        (length bottom.delegations == c.max_bottom_delegations_per_candidate) ≡ false
        → BottomAfter candidate d.amount bottom m s m' s'
    unfolding add_bottom_delegation
    add_with_room room =
        let (a, t, len) = insert_sorted-IsAccounted d bottom books.accounted small in
        let within = books.within in
        let count : ℕ =
          (if not bumped then saturating_add_u32 m.delegation_count 1 else m.delegation_count) in
        let b' : Delegations = insert_sorted_greatest_to_least d bottom in
        let (bb, keeps) = reset-BottomBooks m count b' a (ground (arith, within, len, room)) in
        let em : m' ≡ reset m count b' = ground arith in
        (
          b',
          ground (
            arith,
            lookup_after_insert candidate candidate b' s.bottom_delegations s'.bottom_delegations,
          ),
          subst (λ x. BottomBooks c x b') (sym em) bb,
          ground (arith, t, room),
          subst (λ x. Keeps m x) (sym em) keeps,
          ground arith,
          ground arith,
        )

    add_when_full :
        (length bottom.delegations == c.max_bottom_delegations_per_candidate) ≡ true
        → BottomAfter candidate d.amount bottom m s m' s'
    unfolding add_bottom_delegation
    add_when_full full = elim (Option-cases (pop bottom.delegations)) [
      | inl gone ↦ absurd (ground arith)
      | inr ((l, rest), e) ↦ elim (Result-cases (kick c candidate l s)) [
        | inr (f, failed) ↦ absurd (ground arith)
        | inl ((u, s₁), kicked_lowest) ↦
            let (base, low, len, le) = pop-IsAccounted l rest bottom e books.accounted in
            let same = kick-Same candidate l s s₁ kicked_lowest in
            let left : Delegations = record {
              delegations = rest;
              total = bottom.total - l.amount;
            } in
            let (a, t, len') = insert_sorted-IsAccounted d left base (omega arith) in
            let b' : Delegations = insert_sorted_greatest_to_least d left in
            let within = books.within in
            let (bb, keeps) =
              reset-BottomBooks m m.delegation_count b' a (ground (arith, within, len, len')) in
            let em : m' ≡ reset m m.delegation_count b' = ground arith in
            let es : s'.bottom_delegations ≡ insert candidate b' s₁.bottom_delegations =
              ground arith in
            (
              b',
              ground (
                arith,
                lookup_after_insert candidate candidate b' s₁.bottom_delegations
                    s'.bottom_delegations es,
              ),
              subst (λ x. BottomBooks c x b') (sym em) bb,
              ground (arith, t, full, low, le),
              subst (λ x. Keeps m x) (sym em) keeps,
              ground (arith, same.same_top),
              ground (arith, same.same_pool),
            )
      ]
    ]

    -- An addition to the bottom keeps its books; the amount that a full bottom loses leaves its total.
    pub add_bottom_delegation-BottomAfter : BottomAfter candidate d.amount bottom m s m' s'
    add_bottom_delegation-BottomAfter =
        elim (Bool-cases (length bottom.delegations == c.max_bottom_delegations_per_candidate)) [
          | inl full ↦ add_when_full full
          | inr room ↦ add_with_room room
        ]
