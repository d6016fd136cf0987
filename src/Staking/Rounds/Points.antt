-- ===== src/Staking/Rounds/Points.antt =====
-- The points of block authors, pallets/parachain-staking/src/lib.rs.
use hackathon_parity_eu.Prelude.{
  ℕ, suc, ◌≡◌, ◌==◌, if◌then◌else◌, List, [], ◌∷◌, ◌&&◌, lookup, nat_key, nat_pair_key,
}
use hackathon_parity_eu.Staking.Bond.{saturating_add_u32}
use hackathon_parity_eu.Staking.Pallet.{Config, Storage}
use hackathon_parity_eu.Staking.Delegator.{or_default}

-- How many of the blocks an author made.
abbrev pub made_by : ℕ → List ℕ → ℕ
made_by author [] = 0
made_by author (x ∷ xs) = if x == author then suc (made_by author xs) else made_by author xs

module _ (c : Config) where
  abbrev pub points_of : ℕ → Storage c → ℕ
  points_of round s = or_default 0 (lookup round s.points)

  abbrev pub awarded_to : ℕ → ℕ → Storage c → ℕ
  awarded_to round author s = or_default 0 (lookup (round, author) s.awarded_pts)

  abbrev Finalized : ℕ → Storage c → Storage c → Type 0
  Finalized x s s' =
      (s'.round ≡ s.round)
      × ((r : ℕ)
          → points_of r s' ≡ (
              if r == s.round.current
              then saturating_add_u32 (points_of r s) 20
              else points_of r s))
      × ((r a : ℕ)
          → awarded_to r a s' ≡ (
              if (r == s.round.current) && (a == x)
              then saturating_add_u32 (awarded_to r a s) 20
              else awarded_to r a s))
