-- ===== src/Asp/Dataset.antt =====
-- asp/src/set.ts and computeDatasetHash of asp/src/publish.ts. Poseidon over two field elements is
-- the parameter `H`, SHA-256 over bytes the parameter `sha256`.
pub mod Laws
use opauque_stellar.Base.{
  ℕ, zero, suc, ◌/◌, ◌%◌, ◌^◌, Text, List, [], ◌∷◌, ◌++◌, length, Option, none, some,
}
use opauque_stellar.Base.Exec.{Result, ok, err}
use opauque_stellar.Asp.Types.{SetManifest}
use opauque_stellar.Merkle.{tree_depth, insert, Insert, inserted, tree_full, root, proof, Proof}

-- What a tick may throw: a failed call of the chain, `tree full`, and BigInt of a hole.
pub data Error : Type 0 where
  chain_failed overfull not_a_number : Error

pub record AssociationSet : Type 0 where
  pub scope : ℕ
  pub indices : List ℕ
  pub labels : List ℕ

unfoldable pub create : ℕ → AssociationSet
create scope = record { scope = scope; indices = []; labels = [] }

-- Poseidon(scope, depositIndex)
unfoldable pub compute_label : (ℕ → ℕ → ℕ) → ℕ → ℕ → ℕ
compute_label H scope index = H scope index

abbrev with_leaf : AssociationSet → ℕ → ℕ → Insert → Result Error AssociationSet
with_leaf s index label (inserted leaves _) =
    ok (record s { indices = s.indices ++ index ∷ []; labels = leaves })
with_leaf s index label tree_full = err overfull

-- AssociationSet.add; the tree's leaves are the labels.
unfoldable pub add : (ℕ → ℕ → ℕ) → AssociationSet → ℕ → Result Error AssociationSet
unfolding compute_label
add H s index =
    let label = compute_label H s.scope index in
    with_leaf s index label (insert tree_depth s.labels label)

abbrev add_rest :
    (AssociationSet → Result Error AssociationSet)
    → Result Error AssociationSet
    → Result Error AssociationSet
add_rest f (ok s) = f s
add_rest f (err e) = err e

-- for (const idx of approvedIndices) set.add(idx)
unfoldable pub add_all : (ℕ → ℕ → ℕ) → List ℕ → AssociationSet → Result Error AssociationSet
unfolding add
add_all H [] s = ok s
add_all H (i ∷ is) s = add_rest (add_all H is) (add H s i)

unfoldable pub root_of : (ℕ → ℕ → ℕ) → AssociationSet → ℕ
root_of H s = root H s.labels tree_depth

unfoldable pub proof_of : (ℕ → ℕ → ℕ) → AssociationSet → ℕ → Option Proof
proof_of H s leaf_index = proof H tree_depth s.labels leaf_index

unfoldable pub manifest : (ℕ → ℕ → ℕ) → AssociationSet → Text → Text → SetManifest
unfolding root_of
manifest H s pool_id generated_at = record {
  pool_id = pool_id;
  root = root_of H s;
  version = length s.labels;
  levels = tree_depth;
  labels = s.labels;
  indices = s.indices;
  generated_at = generated_at;
}

-- The low `k` bytes of a number, the highest first.
unfoldable pub be_bytes : ℕ → ℕ → List ℕ
be_bytes zero v = []
be_bytes (suc k) v = be_bytes k (v / 256) ++ (v % 256) ∷ []

unfoldable pub leaf_bytes : List ℕ → List ℕ
unfolding be_bytes
leaf_bytes [] = []
leaf_bytes (l ∷ ls) = be_bytes 32 l ++ leaf_bytes ls

-- What computeDatasetHash feeds to SHA-256.
unfoldable pub dataset_preimage : ℕ → List ℕ → List ℕ
unfolding leaf_bytes
dataset_preimage root labels =
    be_bytes 4 (length labels % 2 ^ 32) ++ (be_bytes 32 root ++ leaf_bytes labels)

unfoldable pub compute_dataset_hash : (List ℕ → ℕ) → ℕ → List ℕ → ℕ
unfolding dataset_preimage
compute_dataset_hash sha256 root labels = sha256 (dataset_preimage root labels)
