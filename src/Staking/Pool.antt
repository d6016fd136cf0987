-- ===== src/Staking/Pool.antt =====
-- The candidate pool of pallets/parachain-staking/src/lib.rs against the candidates' metadata.
pub mod Candidates
pub mod Delegations
pub mod Changes
pub mod Delegators
pub mod Exits
pub mod Blocks
pub mod Genesis
pub mod Run
use hackathon_parity_eu.Prelude.{
  ℕ, ◌≡◌, refl, sym, ◌∙◌, Bool, true, false, not, ◌==◌, ◌&&◌, if◌then◌else◌, Option, none, some,
  is_some, lookup, insert, nat_key, ok, err, arith, lookup-insert, lookup-remove, subst, ite,
  ℕ_discrete, Option-cases, Bool-cases, inl, inr, List, [], ◌∷◌, for_each, bind-ok, remove,
}
use hackathon_parity_eu.Staking.Set as Set
use hackathon_parity_eu.Staking.Set.Laws.{IsSorted, get, insert_lem, remove_lem, remove_absent}
use hackathon_parity_eu.Staking.Bond.{Bond, bond_ord, from_owner}
use hackathon_parity_eu.Staking.Pallet.{Config, CandidateMetadata, Storage, Fault, Action}
use hackathon_parity_eu.Staking.Candidate.{is_active, update_active}

-- What the pool holds of a candidate: its counted total while it is active.
abbrev pub entry : ℕ → CandidateMetadata → Option Bond
entry who m = if is_active m then some (record { owner = who; amount = m.total_counted }) else none

abbrev pub entry? : ℕ → Option CandidateMetadata → Option Bond
entry? who none = none
entry? who (some m) = entry who m

module _ (c : Config) where
  -- The pool holds the active candidates, each with its counted total, and nothing else.
  pub record IsPooled (s : Storage c) : Type 0 where
    pub sorted : IsSorted s.candidate_pool
    pub entries : (k : ℕ) → get k s.candidate_pool ≡ entry? k (lookup k s.candidate_info)

  -- A change of one candidate's metadata with the pool: what the pool holds of it follows, and the rest
  -- of the pool and the stored metadata stay.
  pub record PoolStep (who : ℕ) (m m' : CandidateMetadata) (s s' : Storage c) : Type 0 where
    pub sorted : IsSorted s'.candidate_pool
    pub here : get who s'.candidate_pool ≡ entry who m'
    pub others : (k : ℕ) → (k == who) ≡ false → get k s'.candidate_pool ≡ get k s.candidate_pool
    pub info : s'.candidate_info ≡ s.candidate_info

  pub update_active-get :
      (who total : ℕ) (s s' : Storage c)
      → IsSorted s.candidate_pool
      → update_active c who total s ≡ ok (tt, s')
      → IsSorted s'.candidate_pool
        × ((k : ℕ)
            → get k s'.candidate_pool ≡ (
                if k == who
                then some (record { owner = who; amount = total })
                else get k s.candidate_pool))
        × (s'.candidate_info ≡ s.candidate_info)
  unfolding update_active from_owner
  update_active-get who total s s' a h =
      let b : Bond = record { owner = who; amount = total } in
      let (sorted₁, flag₁, get₁) = remove_lem (from_owner who) s.candidate_pool a in
      let p₁ = (Set.remove (from_owner who) s.candidate_pool).0 in
      let (sorted₂, flag₂, get₂) = insert_lem b p₁ sorted₁ in
      let e : s'.candidate_pool ≡ (Set.insert b p₁).0 = ground arith in
      (subst IsSorted (sym e) sorted₂, λ k. ground (arith, e, get₁ k, get₂ k), ground arith)

  -- The metadata are stored after the change.
  pub put-IsPooled :
      (who : ℕ) (m m' : CandidateMetadata) (s s' s'' : Storage c)
      → IsPooled s
      → PoolStep who m m' s s'
      → s''.candidate_pool ≡ s'.candidate_pool
      → s''.candidate_info ≡ insert who m' s'.candidate_info
      → IsPooled s''
  put-IsPooled who m m' s s' s'' v step pool info = record {
    sorted = subst IsSorted (sym pool) step.sorted;
    entries = λ k. ground (
      arith,
      pool,
      info,
      step.info,
      step.here,
      step.others k,
      v.entries k,
      lookup-remove k who s.candidate_info,
    );
  }

  pub same-IsPooled :
      (s s' : Storage c)
      → IsPooled s
      → s'.candidate_pool ≡ s.candidate_pool
      → s'.candidate_info ≡ s.candidate_info
      → IsPooled s'
  same-IsPooled s s' v pool info = record {
    sorted = subst IsSorted (sym pool) v.sorted;
    entries = λ k. ground (arith, pool, info, v.entries k);
  }

  -- The candidate leaves the pool and is stored as not active.
  pub removed-IsPooled :
      (who : ℕ) (m' : CandidateMetadata) (s s' : Storage c)
      → IsPooled s
      → is_active m' ≡ false
      → s'.candidate_pool ≡ (
          let r = Set.remove (from_owner who) s.candidate_pool in
          if r.1 then r.0 else s.candidate_pool)
      → s'.candidate_info ≡ insert who m' s.candidate_info
      → IsPooled s'
  unfolding from_owner
  removed-IsPooled who m' s s' v idle pool info =
      let (sorted, flag, gets) = remove_lem (from_owner who) s.candidate_pool v.sorted in
      let r = Set.remove (from_owner who) s.candidate_pool in
      let e : s'.candidate_pool ≡ r.0 =
        ground (arith, remove_absent (from_owner who) s.candidate_pool) in
      record {
        sorted = subst IsSorted (sym e) sorted;
        entries =
            λ k. ground (arith, e, info, gets k, v.entries k, lookup-remove k who s.candidate_info);
      }

  -- The candidate joins the pool and is stored as active.
  pub inserted-IsPooled :
      (who : ℕ) (m' : CandidateMetadata) (s s' : Storage c)
      → IsPooled s
      → is_active m' ≡ true
      → (Set.insert (record { owner = who; amount = m'.total_counted }) s.candidate_pool).1 ≡ true
      → s'.candidate_pool
        ≡ (Set.insert (record { owner = who; amount = m'.total_counted }) s.candidate_pool).0
      → s'.candidate_info ≡ insert who m' s.candidate_info
      → IsPooled s'
  inserted-IsPooled who m' s s' v active inserted pool info =
      let b : Bond = record { owner = who; amount = m'.total_counted } in
      let (sorted, flag, gets) = insert_lem b s.candidate_pool v.sorted in
      record {
        sorted = subst IsSorted (sym pool) sorted;
        entries = λ k. ground (
          arith,
          pool,
          info,
          flag,
          inserted,
          gets k,
          v.entries k,
          lookup-remove k who s.candidate_info,
        );
      }

  -- The metadata change in nothing that the pool holds.
  pub stored-IsPooled :
      (who : ℕ) (m m' : CandidateMetadata) (s s' : Storage c)
      → IsPooled s
      → lookup who s.candidate_info ≡ some m
      → m'.status ≡ m.status
      → m'.total_counted ≡ m.total_counted
      → s'.candidate_pool ≡ s.candidate_pool
      → s'.candidate_info ≡ insert who m' s.candidate_info
      → IsPooled s'
  unfolding is_active
  stored-IsPooled who m m' s s' v found status total pool info = record {
    sorted = subst IsSorted (sym pool) v.sorted;
    entries = λ k. ground (
      arith,
      pool,
      info,
      found,
      status,
      total,
      v.entries k,
      lookup-remove k who s.candidate_info,
    );
  }

  -- The pool follows the candidate's new total while it is active.
  pub updated-IsPooled :
      (who : ℕ) (m m' : CandidateMetadata) (s s' : Storage c)
      → IsPooled s
      → lookup who s.candidate_info ≡ some m
      → m'.status ≡ m.status
      → s'.candidate_pool ≡ (
          if is_active m'
          then (Set.insert
              (record { owner = who; amount = m'.total_counted })
              (Set.remove (from_owner who) s.candidate_pool).0).0
          else s.candidate_pool)
      → s'.candidate_info ≡ insert who m' s.candidate_info
      → IsPooled s'
  unfolding is_active from_owner
  updated-IsPooled who m m' s s' v found status pool info =
      let b : Bond = record { owner = who; amount = m'.total_counted } in
      let (sorted₁, flag₁, get₁) = remove_lem (from_owner who) s.candidate_pool v.sorted in
      let p₁ = (Set.remove (from_owner who) s.candidate_pool).0 in
      let (sorted₂, flag₂, get₂) = insert_lem b p₁ sorted₁ in
      elim (Bool-cases (is_active m')) [
        | inl active ↦
            let e : s'.candidate_pool ≡ (Set.insert b p₁).0 = ground (arith, active) in
            record {
              sorted = subst IsSorted (sym e) sorted₂;
              entries = λ k. ground (
                arith,
                e,
                info,
                active,
                get₁ k,
                get₂ k,
                v.entries k,
                lookup-remove k who s.candidate_info,
              );
            }
        | inr idle ↦
            let e : s'.candidate_pool ≡ s.candidate_pool = ground (arith, idle) in
            record {
              sorted = subst IsSorted (sym e) v.sorted;
              entries = λ k. ground (
                arith,
                e,
                info,
                idle,
                found,
                status,
                v.entries k,
                lookup-remove k who s.candidate_info,
              );
            }
      ]

  -- A candidate that is not active is forgotten.
  pub forgotten-IsPooled :
      (who : ℕ) (m : CandidateMetadata) (s s' : Storage c)
      → IsPooled s
      → lookup who s.candidate_info ≡ some m
      → is_active m ≡ false
      → s'.candidate_pool ≡ s.candidate_pool
      → s'.candidate_info ≡ remove who s.candidate_info
      → IsPooled s'
  forgotten-IsPooled who m s s' v found idle pool info = record {
    sorted = subst IsSorted (sym pool) v.sorted;
    entries = λ k.
        ground (arith, pool, info, found, idle, v.entries k, lookup-remove k who s.candidate_info);
  }

  -- The pool and the metadata are as they were.
  abbrev pub PoolSame : Storage c → Storage c → Type 0
  PoolSame s s' = (s'.candidate_pool ≡ s.candidate_pool) × (s'.candidate_info ≡ s.candidate_info)

  pub for_each-PoolSame :
      {A : Type 0} (body : A → Action c (Unit {0})) (xs : List A) (s s' : Storage c)
      → ((x : A) (t t' : Storage c) → body x t ≡ ok (tt, t') → PoolSame t t')
      → for_each body xs s ≡ ok (tt, s')
      → PoolSame s s'
  for_each-PoolSame body [] s s' keep h = (ground arith, ground arith)
  for_each-PoolSame body (x ∷ xs) s s' keep h =
      let (u, s₁, e, rest) = bind-ok (body x) (λ u. for_each body xs) s tt s' h in
      let (p, q) = keep x s s₁ e in
      let (p', q') = for_each-PoolSame body xs s₁ s' keep rest in (p' ∙ p, q' ∙ q)
