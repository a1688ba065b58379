-- ===== src/Publisher/Merge/Laws.antt =====
-- The merged leaves: append-only, one leaf to an id and one id to a leaf, and every incoming leaf
-- accounted for.
use mathlib.Core.List.{append-nil, append_assoc}
use opauque_stellar.Base.{
  ℕ, ◌+◌, ◌≡◌, inl, inr, refl, sym, ap, ◌∙◌, Text, true, false, none, List, [], ◌∷◌, ◌++◌, length,
  length-append, map, same, same→eq, same_refl, if◌then◌else◌, arith, Bool-cases, Option-cases, All,
  All-append,
}
use opauque_stellar.Base.Dict.{get, set, get-set}
use opauque_stellar.Publisher.Types.{LeafCommitment}
use opauque_stellar.Publisher.Merge.{
  Merging, has_text, index_existing, accept_leaf, collide, merge_with, merge_one, merge_all,
  merge_leaves, no_merge,
}

abbrev pub ids : List LeafCommitment → List Text
ids = map (λ l. l.id)

abbrev pub leaf_values : List LeafCommitment → List Text
leaf_values = map (λ l. l.leaf)

-- No text twice.
abbrev pub Unique : List Text → Type 0
Unique [] = Unit
Unique (t ∷ ts) = (has_text t ts ≡ false) × Unique ts

has_text-append :
    (t : Text) (xs ys : List Text)
    → has_text t (xs ++ ys) ≡ (if has_text t xs then true else has_text t ys)
unfolding has_text
has_text-append t [] ys = refl
has_text-append t (x ∷ xs) ys = ground (arith, has_text-append t xs ys)

Unique-append :
    (xs : List Text) (t : Text) → Unique xs → has_text t xs ≡ false → Unique (xs ++ t ∷ [])
unfolding has_text
Unique-append [] t u h = (refl, tt)
Unique-append (x ∷ xs) t u h = ground (
  arith,
  Unique-append xs t u.1,
  has_text-append x xs (t ∷ []),
  same→eq x t,
  same→eq t x,
  same_refl x,
  same_refl t,
)

-- The indexes know exactly the leaves so far: the existing ones and those accepted.
pub record Knows (known : List LeafCommitment) (m : Merging) : Type 0 where
  pub knows_id : (t : Text) → get t m.by_id ≡ none → has_text t (ids known) ≡ false
  pub knows_leaf :
      (t : Text) → has_text t m.by_leaf ≡ false → has_text t (leaf_values known) ≡ false

map-snoc :
    {A B : Type 0} (f : A → B) (xs : List A) (x : A) → map f (xs ++ x ∷ []) ≡ map f xs ++ f x ∷ []
map-snoc f [] x = refl
map-snoc f (y ∷ ys) x = ap (◌∷◌ (f y)) (map-snoc f ys x)

has_id-snoc :
    (t : Text) (ls : List LeafCommitment) (l : LeafCommitment)
    → has_text t (ids (ls ++ l ∷ [])) ≡ (if has_text t (ids ls) then true else same l.id t)
unfolding has_text
has_id-snoc t [] l = ground arith
has_id-snoc t (x ∷ ls) l = ground (arith, has_id-snoc t ls l)

has_leaf-snoc :
    (t : Text) (ls : List LeafCommitment) (l : LeafCommitment)
    → has_text t (leaf_values (ls ++ l ∷ []))
      ≡ (if has_text t (leaf_values ls) then true else same l.leaf t)
unfolding has_text
has_leaf-snoc t [] l = ground arith
has_leaf-snoc t (x ∷ ls) l = ground (arith, has_leaf-snoc t ls l)

knows_more :
    (known : List LeafCommitment) (l : LeafCommitment) (by_id : List (Text × LeafCommitment))
    (t : Text)
    → (get t by_id ≡ none → has_text t (ids known) ≡ false)
    → get t (set l.id l by_id) ≡ none
    → has_text t (ids (known ++ l ∷ [])) ≡ false
knows_more known l by_id t k e = ground (arith, has_id-snoc t known l, get-set l.id t l by_id)

knows_more_leaf :
    (known : List LeafCommitment) (l : LeafCommitment) (by_leaf : List Text) (t : Text)
    → (has_text t by_leaf ≡ false → has_text t (leaf_values known) ≡ false)
    → has_text t (l.leaf ∷ by_leaf) ≡ false
    → has_text t (leaf_values (known ++ l ∷ [])) ≡ false
unfolding has_text
knows_more_leaf known l by_leaf t k e = ground (arith, has_leaf-snoc t known l)

Knows-index :
    (ls known : List LeafCommitment) (m : Merging)
    → Knows known m
    → Knows (known ++ ls) (index_existing ls m)
unfolding index_existing
Knows-index [] known m k = rw (append-nil known) k
Knows-index (l ∷ ls) known m k = rw (← append_assoc known (l ∷ []) ls) (
    Knows-index ls (known ++ l ∷ [])
      (record m { by_id = set l.id l m.by_id; by_leaf = l.leaf ∷ m.by_leaf })
      (record {
        knows_id = λ t e. knows_more known l m.by_id t (k.knows_id t) e;
        knows_leaf = λ t e. knows_more_leaf known l m.by_leaf t (k.knows_leaf t) e;
      }))

-- Nothing is in the tree twice.
pub record IsInjective (ls : List LeafCommitment) : Type 0 where
  pub unique_ids : Unique (ids ls)
  pub unique_leaves : Unique (leaf_values ls)

IsInjective-snoc :
    (ls : List LeafCommitment) (l : LeafCommitment)
    → IsInjective ls
    → has_text l.id (ids ls) ≡ false
    → has_text l.leaf (leaf_values ls) ≡ false
    → IsInjective (ls ++ l ∷ [])
IsInjective-snoc ls l v hi hl = record {
  unique_ids = rw (map-snoc (λ x. x.id) ls l) (Unique-append (ids ls) l.id v.unique_ids hi);
  unique_leaves =
      rw (map-snoc (λ x. x.leaf) ls l) (Unique-append (leaf_values ls) l.leaf v.unique_leaves hl);
}

-- The loop's invariant, over the existing leaves `old`.
pub record Sound (old : List LeafCommitment) (m : Merging) : Type 0 where
  pub knows : Knows (old ++ m.accepted_leaves) m
  pub injective : IsInjective (old ++ m.accepted_leaves)
  pub named : m.accepted_ids ≡ ids m.accepted_leaves

accept-Sound :
    (old : List LeafCommitment) (l : LeafCommitment) (m : Merging)
    → Sound old m
    → get l.id m.by_id ≡ none
    → has_text l.leaf m.by_leaf ≡ false
    → Sound old (accept_leaf l m)
unfolding accept_leaf
accept-Sound old l m v hi hl = record {
  knows = rw (← append_assoc old m.accepted_leaves (l ∷ [])) (record {
    knows_id = λ t e. knows_more (old ++ m.accepted_leaves) l m.by_id t (v.knows.knows_id t) e;
    knows_leaf =
        λ t e. knows_more_leaf (old ++ m.accepted_leaves) l m.by_leaf t (v.knows.knows_leaf t) e;
  });
  injective = rw (← append_assoc old m.accepted_leaves (l ∷ [])) (
      IsInjective-snoc (old ++ m.accepted_leaves) l v.injective (v.knows.knows_id l.id hi)
        (v.knows.knows_leaf l.leaf hl));
  named =
      ap (λ (ts : List Text). ts ++ l.id ∷ []) v.named
      ∙ sym (map-snoc (λ x. x.id) m.accepted_leaves l);
}

collide-Sound :
    (old : List LeafCommitment) (l : LeafCommitment) (m : Merging)
    → Sound old m
    → Sound old (collide l m)
unfolding collide
collide-Sound old l m v = record {
  knows = record { knows_id = v.knows.knows_id; knows_leaf = v.knows.knows_leaf };
  injective = v.injective;
  named = v.named;
}

merge_one-Sound :
    (old : List LeafCommitment) (l : LeafCommitment) (m : Merging)
    → Sound old m
    → Sound old (merge_one l m)
unfolding merge_one merge_with
merge_one-Sound old l m v = elim (Option-cases (get l.id m.by_id)) [
  | inl e ↦
      rw (e, merge_with)
        (elim (Bool-cases (has_text l.leaf m.by_leaf)) [
          | inl c ↦ rw c (collide-Sound old l m v)
          | inr f ↦ rw f (accept-Sound old l m v e f)
        ])
  | inr (known, e) ↦
      rw (e, merge_with)
        (elim (Bool-cases (same known.leaf l.leaf)) [
          | inl c ↦ rw c (record {
            knows = record { knows_id = v.knows.knows_id; knows_leaf = v.knows.knows_leaf };
            injective = v.injective;
            named = v.named;
          })
          | inr f ↦ rw f (collide-Sound old l m v)
        ])
]

merge_all-Sound :
    (old ls : List LeafCommitment) (m : Merging) → Sound old m → Sound old (merge_all ls m)
unfolding merge_all
merge_all-Sound old [] m v = v
merge_all-Sound old (l ∷ ls) m v =
    merge_all-Sound old ls (merge_one l m) (merge_one-Sound old l m v)

index-rest :
    (ls : List LeafCommitment) (m : Merging)
    → ((index_existing ls m).accepted_leaves ≡ m.accepted_leaves)
      × ((index_existing ls m).accepted_ids ≡ m.accepted_ids)
      × ((index_existing ls m).duplicate_resubmissions ≡ m.duplicate_resubmissions)
      × ((index_existing ls m).identity_collisions ≡ m.identity_collisions)
unfolding index_existing
index-rest [] m = (refl, refl, refl, refl)
index-rest (l ∷ ls) m = index-rest ls _

-- Each incoming leaf adds one to one of the three.
abbrev counted : Merging → ℕ
counted m = length m.accepted_leaves + m.duplicate_resubmissions + length m.identity_collisions

merge_one-counted : (l : LeafCommitment) (m : Merging) → counted (merge_one l m) ≡ counted m + 1
unfolding merge_one merge_with accept_leaf collide
merge_one-counted l m =
    ground (
      arith,
      length-append m.accepted_leaves (l ∷ []),
      length-append m.identity_collisions (l ∷ []),
    )

merge_all-counted :
    (ls : List LeafCommitment) (m : Merging) → counted (merge_all ls m) ≡ counted m + length ls
unfolding merge_all
merge_all-counted [] m = omega arith
merge_all-counted (l ∷ ls) m =
    omega (arith, merge_one-counted l m, merge_all-counted ls (merge_one l m))

start-Sound :
    (old : List LeafCommitment) → IsInjective old → Sound old (index_existing old no_merge)
start-Sound old v =
    let (accepted, named, _, _) = index-rest old no_merge in
    let all : old ++ (index_existing old no_merge).accepted_leaves ≡ old =
      rw accepted (append-nil old) in
    record {
      knows = rw all (
          Knows-index old [] no_merge (record {
            knows_id = λ t e. unfold has_text in refl;
            knows_leaf = λ t e. unfold has_text in refl;
          }));
      injective = rw all v;
      named = rw (named, accepted) refl;
    }

-- Merging keeps ids and leaf values free of repetitions, whatever comes in; the existing leaves keep
-- their places and the accepted ones stand behind them, under the ids that are returned; and every
-- incoming leaf is accepted, a resubmission, or a collision.
pub merge_leaves-appends :
    (existing incoming : List LeafCommitment)
    → IsInjective existing
    → IsInjective (merge_leaves existing incoming).leaves
      × (new : List LeafCommitment) × ((merge_leaves existing incoming).leaves ≡ existing ++ new)
      × ((merge_leaves existing incoming).accepted_ids ≡ ids new)
      × (length new
            + (merge_leaves existing incoming).duplicate_resubmissions
            + length (merge_leaves existing incoming).identity_collisions
          ≡ length incoming)
unfolding merge_leaves
merge_leaves-appends existing incoming v =
    let m = index_existing existing no_merge in
    let s = merge_all-Sound existing incoming m (start-Sound existing v) in
    let (accepted, named, resubmitted, collisions) = index-rest existing no_merge in
    (
      s.injective,
      (merge_all incoming m).accepted_leaves,
      refl,
      s.named,
      omega (
        arith,
        merge_all-counted incoming m,
        ap length accepted,
        resubmitted,
        ap length collisions,
      ),
    )

-- What holds of all leaves on both sides holds of all merged ones.
merge_all-All :
    (P : LeafCommitment → Type 0) (ls : List LeafCommitment) (m : Merging)
    → All P ls
    → All P m.accepted_leaves
    → All P (merge_all ls m).accepted_leaves
unfolding merge_all
merge_all-All P [] m h k = k
merge_all-All P (l ∷ ls) m h k = merge_all-All P ls (merge_one l m) h.1 (merge_one-All l m h.0 k)
  where
    merge_one-All :
        (x : LeafCommitment) (n : Merging)
        → P x
        → All P n.accepted_leaves
        → All P (merge_one x n).accepted_leaves
    merge_one-All x n p q =
        unfold merge_one merge_with accept_leaf collide in
        ground (arith, All-append P n.accepted_leaves (x ∷ []))

pub merge_leaves-All :
    (P : LeafCommitment → Type 0) (existing incoming : List LeafCommitment)
    → All P existing
    → All P incoming
    → All P (merge_leaves existing incoming).leaves
unfolding merge_leaves
merge_leaves-All P existing incoming h k =
    All-append P existing (merge_all incoming (index_existing existing no_merge)).accepted_leaves h
      (merge_all-All P incoming (index_existing existing no_merge) k
        (rw (index-rest existing no_merge).0 tt))

-- A list with leaves left out.
pub data Without : List LeafCommitment → List LeafCommitment → Type 0 where
  none_left : Without [] []
  kept :
      {xs ys : List LeafCommitment} (x : LeafCommitment) → Without xs ys → Without (x ∷ xs) (x ∷ ys)
  dropped : {xs ys : List LeafCommitment} (x : LeafCommitment) → Without xs ys → Without xs (x ∷ ys)

Without-fresh :
    (f : LeafCommitment → Text) (t : Text) (xs ys : List LeafCommitment)
    → Without xs ys
    → has_text t (map f ys) ≡ false
    → has_text t (map f xs) ≡ false
unfolding has_text
Without-fresh f t _ _ none_left h = h
Without-fresh f t _ _ (kept {xs} {ys} x w) h = ground (arith, Without-fresh f t xs ys w)
Without-fresh f t _ _ (dropped {xs} {ys} x w) h = ground (arith, Without-fresh f t xs ys w)

Without-Unique :
    (f : LeafCommitment → Text) (xs ys : List LeafCommitment)
    → Without xs ys
    → Unique (map f ys)
    → Unique (map f xs)
Without-Unique f _ _ none_left u = tt
Without-Unique f _ _ (kept {xs} {ys} x w) u =
    (Without-fresh f (f x) xs ys w u.0, Without-Unique f xs ys w u.1)
Without-Unique f _ _ (dropped {xs} {ys} x w) u = Without-Unique f xs ys w u.1

pub Without-IsInjective :
    {xs ys : List LeafCommitment} → Without xs ys → IsInjective ys → IsInjective xs
Without-IsInjective {xs} {ys} w v = record {
  unique_ids = Without-Unique (λ l. l.id) xs ys w v.unique_ids;
  unique_leaves = Without-Unique (λ l. l.leaf) xs ys w v.unique_leaves;
}
