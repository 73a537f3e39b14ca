-- ===== src/Manager/Setup/Paths.antt =====
-- No two ranks of a job open the same store.
use mathlib.Core.List.{append_cancel_right}
use lsmio.Base.{
  ℕ, ◌<◌, ◌≡◌, ◌≢◌, refl, sym, ap, ◌∙◌, Bool, true, false, none, some, [], ◌∷◌, ◌++◌, arith, Bytes,
  codes, to_string, to_string-injective, if◌then◌else◌,
}
use lsmio.Config.{MpiAggType, shared, entire, entire_serial, split, StorageType, LsmioConfig}
use lsmio.Native.FilePool.{join, slash_end}
use lsmio.Native.FilePool.Names.{join-injective}
use lsmio.Manager.{is_open_local}
use lsmio.Manager.Setup.{
  Place, Mpi, Role, role_of, group_of, in_groups, has_own_dir, db_dir_of, path_in, manager_of,
  Running, init, init_world, start_role, mpi_comm, world_of, agg_infix,
}

path_in-dir :
    (c : ℕ) (d e name : Bytes) → path_in (c ∷ d) name ≡ path_in (c ∷ e) name → (c ∷ d) ≡ (c ∷ e)
unfolding path_in
path_in-dir c d e name q = append_cancel_right (c ∷ d) (c ∷ e) (b'/' ∷ name) q

own_dir-injective :
    (dir name : Bytes) (i j : ℕ)
    → path_in (join (join dir agg_infix) (to_string i)) name
      ≡ path_in (join (join dir agg_infix) (to_string j)) name
    → i ≡ j
unfolding join
own_dir-injective [] name i j e =
    to_string-injective i j (join-injective (codes "agg") _ _ (path_in-dir _ _ _ name e))
own_dir-injective (c ∷ dir) name i j e =
    to_string-injective i j
      (join-injective ((c ∷ slash_end c dir) ++ agg_infix) _ _ (path_in-dir _ _ _ name e))

given_only_if : (b : Bool) (x w : StorageType) → (if b then some x else none) ≡ some w → b ≡ true
given_only_if true x w e = refl
given_only_if false x w e = ground (arith, e)

module _ (mpi : Mpi) (config : LsmioConfig) where
  abbrev pub shared_role : Place → Role
  shared_role p = record {
    is_shared = true;
    is_shared_split = in_groups config.mpi_agg_type;
    world_rank = p.rank;
    agg = group_of mpi config.mpi_agg_type p;
  }

  pub role_of-shared : (p : Place) → 1 < p.size → role_of mpi config (some p) ≡ shared_role p
  unfolding role_of
  role_of-shared p many = ground arith

  module _ (name dir : Bytes) where
    abbrev path_for : Place → Bytes
    path_for p = path_in (db_dir_of config (shared_role p) dir) name

    -- In groups, each rank has a directory.
    grouped_path :
        (p : Place)
        → in_groups config.mpi_agg_type ≡ true
        → config.disable_agg_dir_structure ≡ false
        → path_for p ≡ path_in (join (join dir agg_infix) (to_string p.rank)) name
    unfolding db_dir_of
    grouped_path p grouped own =
        ap (λ b. path_in (if b then join (join dir agg_infix) (to_string p.rank) else dir) name)
          (has_dir p grouped own)
      where
        has_dir :
            (p : Place)
            → in_groups config.mpi_agg_type ≡ true
            → config.disable_agg_dir_structure ≡ false
            → has_own_dir config (shared_role p) ≡ true
        has_dir p grouped own = ground arith

    opens : Place → Bool
    opens p = is_open_local (manager_of config (shared_role p))

    -- Without groups, only rank 0 opens a store.
    world_opens : (p : Place) → group_of mpi config.mpi_agg_type p ≡ p → opens p ≡ true → p.rank ≡ 0
    unfolding opens is_open_local manager_of
    world_opens p whole o = ground (arith, ap (λ (g : Place). g.rank) whole)

    paths_distinct :
        (p q : Place)
        → config.disable_agg_dir_structure ≡ false
        → p.rank ≢ q.rank
        → opens p ≡ true
        → opens q ≡ true
        → path_for p ≢ path_for q
    unfolding group_of in_groups
    paths_distinct p q own differ op oq same = go config.mpi_agg_type refl
      where
        grouped : in_groups config.mpi_agg_type ≡ true → ⊥
        grouped g = differ (
            own_dir-injective dir name p.rank q.rank
              (sym (grouped_path p g own) ∙ same ∙ grouped_path q g own))

        whole : ((r : Place) → group_of mpi config.mpi_agg_type r ≡ r) → ⊥
        whole w = differ (world_opens p (w p) op ∙ sym (world_opens q (w q) oq))

        go : (a : MpiAggType) → config.mpi_agg_type ≡ a → ⊥
        go shared e = grouped (ap in_groups e)
        go split e = grouped (ap in_groups e)
        go entire e = whole (λ r. ap (λ a. group_of mpi a r) e)
        go entire_serial e = whole (λ r. ap (λ a. group_of mpi a r) e)

-- With the directory structure not disabled: if two different ranks of a job of several ranks
-- both initialize a manager that opens a store, with the same name and directory, then their
-- stores have different paths, in every aggregation mode and for every placement that MPI
-- chooses.
pub init-distinct :
    (mpi : Mpi) (config : LsmioConfig) (p q : Place) (name dir : Bytes) (r s : Running)
    (t u : StorageType)
    → config.disable_agg_dir_structure ≡ false
    → 1 < p.size
    → 1 < q.size
    → p.rank ≢ q.rank
    → init mpi config (mpi_comm p) name dir ≡ some r
    → init mpi config (mpi_comm q) name dir ≡ some s
    → r.store ≡ some t
    → s.store ≡ some u
    → r.db_path ≢ s.db_path
unfolding init init_world world_of start_role opens
init-distinct mpi config p q name dir r s t u own many_p many_q differ er es st su e =
    paths_distinct mpi config name dir p q own differ (opened p r t er' st) (opened q s u es' su)
      (path_of_start p r er' ∙ e ∙ sym (path_of_start q s es'))
  where
    begun : Place → Running
    begun x = start_role config (shared_role mpi config x) name dir

    er' : begun p ≡ r
    er' =
        ap (λ role. start_role config role name dir) (sym (role_of-shared mpi config p many_p)) ∙ cc

    es' : begun q ≡ s
    es' =
        ap (λ role. start_role config role name dir) (sym (role_of-shared mpi config q many_q)) ∙ cc

    path_of_start :
        (x : Place) (v : Running) → begun x ≡ v → path_for mpi config name dir x ≡ v.db_path
    path_of_start x v b = ap (λ (v : Running). v.db_path) b

    opened :
        (x : Place) (v : Running) (w : StorageType)
        → begun x ≡ v
        → v.store ≡ some w
        → opens mpi config name dir x ≡ true
    opened x v w b o = given_only_if _ _ w (ap (λ (v : Running). v.store) b ∙ o)
