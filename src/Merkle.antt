-- ===== src/Merkle.antt =====
-- asp/src/merkle.ts, publisher/src/merkle.ts and the replay of sdk/src/prove/asp-client.ts.
-- Poseidon over two field elements is a parameter `H`. The shifts of the source are powers of two,
-- as they are for every depth up to 30 (the tree has depth 20).
pub mod Sparse
pub mod Paths
pub mod Binding
pub mod Tests
use opauque_stellar.Base.{
  ℕ, zero, suc, ◌+◌, ◌-◌, ◌*◌, ◌/◌, ◌%◌, ◌^◌, Bool, true, false, Option, none, some, List, [], ◌∷◌,
  ◌++◌, length, get_or, leb, ltb, ◌==◌, if◌then◌else◌,
}

abbrev pub tree_depth : ℕ
tree_depth = 20

pub data Insert : Type 0 where
  inserted : List ℕ → ℕ → Insert
  tree_full : Insert

-- MerkleTree.insert: the new leaves and the index of the leaf.
unfoldable pub insert : ℕ → List ℕ → ℕ → Insert
insert depth leaves leaf =
    if leb (2 ^ depth) (length leaves)
    then tree_full
    else inserted (leaves ++ leaf ∷ []) (length leaves)

pub record Proof : Type 0 where
  pub path_elements : List ℕ
  pub path_indices : List ℕ
  pub root : ℕ

pub data Replay : Type 0 where
  accepted length_mismatch wrong_levels wrong_root : Replay

-- cur ^ 1
pub sibling : ℕ → ℕ
sibling cur = if cur % 2 == 0 then cur + 1 else cur - 1

-- The direction bits of the loop of `proof`: cur & 1, then cur >>= 1.
pub directions : ℕ → ℕ → List ℕ
directions zero cur = []
directions (suc left) cur = (cur % 2) ∷ directions left (cur / 2)

module _ (H : ℕ → ℕ → ℕ) where
  -- The constructor's table of empty subtrees.
  unfoldable pub zero_at : ℕ → ℕ
  zero_at zero = 0
  zero_at (suc i) = H (zero_at i) (zero_at i)

  unfoldable pub root_from : List ℕ → ℕ → ℕ → ℕ
  root_from leaves start zero =
      if leb (length leaves) start then zero_at 0 else get_or leaves start 0
  root_from leaves start (suc level) =
      let left = root_from leaves start level in
      let right = root_from leaves (start + 2 ^ level) level in
      if leb (length leaves) start then zero_at (suc level) else H left right

  unfoldable pub root : List ℕ → ℕ → ℕ
  root leaves depth = root_from leaves 0 depth

  pub node : List ℕ → ℕ → ℕ → ℕ
  node leaves index level = root_from leaves (index * 2 ^ level) level

  -- The loop of `proof`, from `level` on for the `left` levels that remain.
  pub path_from : List ℕ → ℕ → ℕ → ℕ → List ℕ
  path_from leaves zero level cur = []
  path_from leaves (suc left) level cur =
      node leaves (sibling cur) level ∷ path_from leaves left (suc level) (cur / 2)

  -- MerkleTree.proof: `none` is the thrown "out of bounds".
  pub proof : ℕ → List ℕ → ℕ → Option Proof
  proof depth leaves index =
      if leb (length leaves) index
      then none
      else some (record {
        path_elements = path_from leaves depth 0 index;
        path_indices = directions depth index;
        root = root leaves depth;
      })

  -- The loop of assertAspInclusionMatchesRoot; it reads the two lists at one index.
  pub fold_path : ℕ → List ℕ → List ℕ → ℕ
  fold_path computed [] indices = computed
  fold_path computed (e ∷ elements) [] = fold_path (H computed e) elements []
  fold_path computed (e ∷ elements) (i ∷ indices) =
      fold_path (if i == 1 then H e computed else H computed e) elements indices

  pub assert_inclusion : ℕ → ℕ → List ℕ → List ℕ → ℕ → Replay
  assert_inclusion levels label elements indices claimed =
      if length elements == length indices
      then (if length elements == levels
          then (if fold_path label elements indices == claimed then accepted else wrong_root)
          else wrong_levels)
      else length_mismatch

  -- An independent description: the full binary tree over the leaves, empty positions holding 0.
  pub full_root : (ℕ → ℕ) → ℕ → ℕ → ℕ
  full_root leaf start zero = leaf start
  full_root leaf start (suc level) =
      H (full_root leaf start level) (full_root leaf (start + 2 ^ level) level)
