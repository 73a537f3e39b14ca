-- ===== src/Manager/Setup/Pairs.antt =====
-- Aggregation in pairs: what MPIAggType::Split makes of the ranks of a job.
use lsmio.Base.{
  ℕ, zero, suc, ◌+◌, ◌*◌, ◌/◌, ◌%◌, ◌<◌, ◌≡◌, ap, ◌∙◌, true, ◌&&◌, some, arith, ltb, ◌==◌, ==_iff,
  if_cases, if◌then◌else◌,
}
use lsmio.Config.{split, LsmioConfig}
use lsmio.Manager.{is_open_local, is_serve_local}
use lsmio.Manager.Setup.{Place, Mpi, Role, role_of, group_of, in_groups, agg_colour, manager_of}
use lsmio.Manager.Setup.Paths.{role_of-shared}

-- How many of the ranks below `n` have the colour.
unfoldable pub members : (ℕ → ℕ) → ℕ → ℕ → ℕ
members colour c zero = 0
members colour c (suc n) = (if colour n == c then 1 else 0) + members colour c n

-- MPI_Comm_split: a group is the ranks of one colour, in the order of the keys.
abbrev pub IsRankOrdered : Mpi → Type 0
IsRankOrdered mpi =
    (colour : ℕ → ℕ) (p : Place)
    → p.rank < p.size
    → mpi.split_colour colour p ≡ record {
      rank = members colour (colour p.rank) p.rank;
      size = members colour (colour p.rank) p.size;
    }

-- How many of the ranks 2 c and 2 c + 1 are below `n`.
abbrev of_pair : ℕ → ℕ → ℕ
of_pair c n = if ltb n (2 * c + 1) then 0 else if ltb n (2 * c + 2) then 1 else 2

members-of_pair : (c n : ℕ) → members agg_colour c n ≡ of_pair c n
unfolding members agg_colour
members-of_pair c zero = ground arith
members-of_pair c (suc n) =
    if_cases (λ m. m + members agg_colour c n ≡ of_pair c (suc n)) (n / 2 == c) 1 0
      (λ e. ground (arith, members-of_pair c n, (==_iff (n / 2) c).0 e))
      (λ e. ground (arith, members-of_pair c n, ==_iff (n / 2) c))

module _ (mpi : Mpi) (ordered : IsRankOrdered mpi) (config : LsmioConfig)
    (pairs : config.mpi_agg_type ≡ split) (p : Place) (below : p.rank < p.size)
    (many : 1 < p.size) where
  group_of-split :
      group_of mpi config.mpi_agg_type p
      ≡ record { rank = p.rank % 2; size = of_pair (p.rank / 2) p.size }
  unfolding group_of agg_colour
  group_of-split =
      ap (λ a. group_of mpi a p) pairs
      ∙ ordered agg_colour p below
      ∙ cc (members-of_pair (p.rank / 2) p.rank, members-of_pair (p.rank / 2) p.size, rank_in_pair)
    where
      rank_in_pair : of_pair (p.rank / 2) p.rank ≡ p.rank % 2
      rank_in_pair = ground arith

  -- If MPI_Comm_split orders the ranks of a colour by their world ranks, then in split mode a
  -- rank of a job of several ranks opens a store exactly if its world rank is even, and serves
  -- another rank exactly if the next rank exists as well.
  pub role_of-split :
      let m = manager_of config (role_of mpi config (some p)) in
      (is_open_local m ≡ (p.rank % 2 == 0))
      × (is_serve_local m ≡ ((p.rank % 2 == 0) && ltb (p.rank + 1) p.size))
  unfolding manager_of is_open_local is_serve_local
  role_of-split = (
    ap (λ r. is_open_local (manager_of config r)) same,
    ap (λ r. is_serve_local (manager_of config r)) same ∙ ground arith,
  )
    where
      role_with : Place → Role
      role_with g = record {
        is_shared = true;
        is_shared_split = in_groups config.mpi_agg_type;
        world_rank = p.rank;
        agg = g;
      }

      same :
          role_of mpi config (some p)
          ≡ role_with (record { rank = p.rank % 2; size = of_pair (p.rank / 2) p.size })
      same = role_of-shared mpi config p many ∙ ap role_with group_of-split
