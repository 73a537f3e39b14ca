-- ===== src/Native/Sstable/Read.antt =====
-- Lookups in the list of tables: which files they depend on.
use lsmio.Base.{
  ◌≡◌, refl, false, some, List, [], ◌∷◌, arith, Bytes, beq, All, lookup, insert, lookup-insert,
  or_else,
}
use lsmio.Native.FilePool.{Disk}
use lsmio.Native.Sstable.Format.Table.{table_get}
use lsmio.Native.Sstable.{L0Index, node_get, nodes_get}

-- The file of a path is none of the nodes'.
abbrev pub IsUnused : Bytes → List L0Index → Type 0
IsUnused path = All (λ node. beq path node.path ≡ false)

-- A node reads its own file.
pub node_get-table_get :
    (disk : Disk) (node : L0Index) (file k : Bytes)
    → lookup node.path disk ≡ some file
    → node_get disk node k ≡ table_get file node.offsets k
unfolding node_get table_get
node_get-table_get disk node file k e = ground arith

node_get-insert :
    (disk : Disk) (path file k : Bytes) (node : L0Index)
    → beq path node.path ≡ false
    → node_get (insert path file disk) node k ≡ node_get disk node k
unfolding node_get
node_get-insert disk path file k node h = ground (arith, lookup-insert path node.path file disk)

-- Writing a file that no node uses changes no lookup.
pub nodes_get-insert :
    (disk : Disk) (path file k : Bytes) (nodes : List L0Index)
    → IsUnused path nodes
    → nodes_get (insert path file disk) nodes k ≡ nodes_get disk nodes k
unfolding nodes_get
nodes_get-insert disk path file k [] h = refl
nodes_get-insert disk path file k (node ∷ older) h =
    ground (
      arith,
      node_get-insert disk path file k node h.0,
      nodes_get-insert disk path file k older h.1,
    )

pub nodes_get-cons :
    (disk : Disk) (k : Bytes) (node : L0Index) (older : List L0Index)
    → nodes_get disk (node ∷ older) k ≡ or_else (node_get disk node k) (nodes_get disk older k)
unfolding nodes_get
nodes_get-cons disk k node older = ground arith
