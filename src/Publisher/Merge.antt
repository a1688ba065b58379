-- ===== src/Publisher/Merge.antt =====
-- mergeLeaves of publisher/src/engine.ts.
pub mod Laws
use opauque_stellar.Base.{
  ℕ, ◌+◌, Text, Bool, true, false, ◌||◌, Option, none, some, List, [], ◌∷◌, ◌++◌, map, any, same,
  if◌then◌else◌,
}
use opauque_stellar.Base.Dict.{get, set}
use opauque_stellar.Publisher.Types.{LeafCommitment}

-- The two indexes and what the loop collects.
pub record Merging : Type 0 where
  pub by_id : List (Text × LeafCommitment)
  pub by_leaf : List Text
  pub accepted_ids : List Text
  pub accepted_leaves : List LeafCommitment
  pub duplicate_resubmissions : ℕ
  pub identity_collisions : List LeafCommitment

pub has_text : Text → List Text → Bool
has_text t ts = any (λ u. same u t) ts

-- The loop that indexes the existing leaves.
pub index_existing : List LeafCommitment → Merging → Merging
index_existing [] m = m
index_existing (l ∷ ls) m =
    index_existing ls (record m { by_id = set l.id l m.by_id; by_leaf = l.leaf ∷ m.by_leaf })

pub accept_leaf : LeafCommitment → Merging → Merging
accept_leaf l m = record m {
  by_id = set l.id l m.by_id;
  by_leaf = l.leaf ∷ m.by_leaf;
  accepted_ids = m.accepted_ids ++ l.id ∷ [];
  accepted_leaves = m.accepted_leaves ++ l ∷ [];
}

pub collide : LeafCommitment → Merging → Merging
collide l m = record m { identity_collisions = m.identity_collisions ++ l ∷ [] }

-- The body of the loop on the incoming leaves.
pub merge_with : Option LeafCommitment → LeafCommitment → Merging → Merging
unfolding accept_leaf collide has_text
merge_with none l m = if has_text l.leaf m.by_leaf then collide l m else accept_leaf l m
merge_with (some known) l m =
    if same known.leaf l.leaf
    then record m { duplicate_resubmissions = m.duplicate_resubmissions + 1 }
    else collide l m

pub merge_one : LeafCommitment → Merging → Merging
unfolding merge_with
merge_one l m = merge_with (get l.id m.by_id) l m

pub merge_all : List LeafCommitment → Merging → Merging
unfolding merge_one
merge_all [] m = m
merge_all (l ∷ ls) m = merge_all ls (merge_one l m)

pub record Merged : Type 0 where
  pub leaves : List LeafCommitment
  pub accepted_ids : List Text
  pub duplicate_resubmissions : ℕ
  pub identity_collisions : List LeafCommitment

abbrev no_merge : Merging
no_merge = record {
  by_id = [];
  by_leaf = [];
  accepted_ids = [];
  accepted_leaves = [];
  duplicate_resubmissions = 0;
  identity_collisions = [];
}

unfoldable pub merge_leaves : List LeafCommitment → List LeafCommitment → Merged
unfolding index_existing merge_all
merge_leaves existing incoming =
    let m = merge_all incoming (index_existing existing no_merge) in
    record {
      leaves = existing ++ m.accepted_leaves;
      accepted_ids = m.accepted_ids;
      duplicate_resubmissions = m.duplicate_resubmissions;
      identity_collisions = m.identity_collisions;
    }
