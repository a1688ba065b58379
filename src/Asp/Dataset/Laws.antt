-- ===== src/Asp/Dataset/Laws.antt =====
-- The association set behind the approved indices, and what a dataset hash binds.
use native.Mathlib.Nat.{pow-suc}
use mathlib.Core.List.{append-nil, append_assoc}
use opauque_stellar.Base.{
  ℕ, zero, suc, ◌+◌, ◌*◌, ◌/◌, ◌%◌, ◌^◌, ◌≤◌, ◌<◌, ◌≡◌, refl, sym, ap, ◌∙◌, List, [], ◌∷◌, ◌++◌,
  map, length, length-append, arith, lt→leb_false, le→leb, dec_lt, All, ap₂,
}
use opauque_stellar.Base.Exec.{ok, err}
use opauque_stellar.Merkle.{insert, tree_depth}
use opauque_stellar.Asp.Dataset.{
  overfull, AssociationSet, create, compute_label, add, add_all, be_bytes, leaf_bytes,
  dataset_preimage,
}

abbrev pub extended : (ℕ → ℕ → ℕ) → List ℕ → AssociationSet → AssociationSet
extended H is s = record s {
  indices = s.indices ++ is;
  labels = s.labels ++ map (compute_label H s.scope) is;
}

add-room :
    (H : ℕ → ℕ → ℕ) (s : AssociationSet) (i : ℕ)
    → length s.labels < 2 ^ tree_depth
    → add H s i ≡ ok (extended H (i ∷ []) s)
unfolding add insert
add-room H s i h = rw (lt→leb_false _ _ h)

add-full :
    (H : ℕ → ℕ → ℕ) (s : AssociationSet) (i : ℕ)
    → 2 ^ tree_depth ≤ length s.labels
    → add H s i ≡ err overfull
unfolding add insert
add-full H s i h = rw (le→leb _ _ h)

extended-twice :
    (H : ℕ → ℕ → ℕ) (i : ℕ) (is : List ℕ) (s : AssociationSet)
    → extended H is (extended H (i ∷ []) s) ≡ extended H (i ∷ is) s
extended-twice H i is s = λ k. record {
  scope = s.scope;
  indices = append_assoc s.indices (i ∷ []) is k;
  labels =
      append_assoc s.labels (compute_label H s.scope i ∷ []) (map (compute_label H s.scope) is) k;
}

extended-none : (H : ℕ → ℕ → ℕ) (s : AssociationSet) → extended H [] s ≡ s
extended-none H s = λ k. record {
  scope = s.scope;
  indices = append-nil s.indices k;
  labels = append-nil s.labels k;
}

-- A set with room for the indices takes them all, in their order, each with its label.
pub add_all-room :
    (H : ℕ → ℕ → ℕ) (is : List ℕ) (s : AssociationSet)
    → length s.labels + length is ≤ 2 ^ tree_depth
    → add_all H is s ≡ ok (extended H is s)
unfolding add_all
add_all-room H [] s h = ap ok (sym (extended-none H s))
add_all-room H (i ∷ is) s h = rw (add-room H s i (omega arith)) (
    add_all-room H is (extended H (i ∷ []) s)
      (omega (arith, length-append s.labels (compute_label H s.scope i ∷ [])))
    ∙ ap ok (extended-twice H i is s))

-- Otherwise it throws.
pub add_all-full :
    (H : ℕ → ℕ → ℕ) (is : List ℕ) (s : AssociationSet)
    → length s.labels ≤ 2 ^ tree_depth
    → 2 ^ tree_depth < length s.labels + length is
    → add_all H is s ≡ err overfull
unfolding add_all
add_all-full H [] s f h = absurd (omega arith)
add_all-full H (i ∷ is) s f h = elim (dec_lt (length s.labels) (2 ^ tree_depth)) [
  | yes room ↦ rw (add-room H s i room) (
      add_all-full H is (extended H (i ∷ []) s)
        (omega (arith, length-append s.labels (compute_label H s.scope i ∷ [])))
        (omega (arith, length-append s.labels (compute_label H s.scope i ∷ []))))
  | no full ↦ rw (add-full H s i (omega arith)) refl
]

-- be_bytes is injective below its capacity, on lists whose parts have fixed lengths.
length-be_bytes : (k v : ℕ) → length (be_bytes k v) ≡ k
unfolding be_bytes
length-be_bytes zero v = refl
length-be_bytes (suc k) v =
    omega
      (arith, length-append (be_bytes k (v / 256)) ((v % 256) ∷ []), length-be_bytes k (v / 256))

append-injective :
    {A : Type 0} (xs ys us vs : List A)
    → length xs ≡ length us
    → xs ++ ys ≡ us ++ vs
    → (xs ≡ us) × (ys ≡ vs)
append-injective [] ys [] vs l e = (refl, e)
append-injective [] ys (u ∷ us) vs l e = absurd (omega arith)
append-injective (x ∷ xs) ys [] vs l e = absurd (omega arith)
append-injective (x ∷ xs) ys (u ∷ us) vs l e =
    let r = append-injective xs ys us vs (omega arith) (cc) in (cc (r.0), r.1)

be_bytes-injective : (k v w : ℕ) → v < 256 ^ k → w < 256 ^ k → be_bytes k v ≡ be_bytes k w → v ≡ w
unfolding be_bytes
be_bytes-injective zero v w hv hw e = omega arith
be_bytes-injective (suc k) v w hv hw e =
    let hv' : v < 256 ^ k * 256 = rw (← pow-suc 256 k) hv in
    let hw' : w < 256 ^ k * 256 = rw (← pow-suc 256 k) hw in
    let (hi, lo) =
      append-injective (be_bytes k (v / 256)) ((v % 256) ∷ []) (be_bytes k (w / 256))
        ((w % 256) ∷ []) (omega (arith, length-be_bytes k (v / 256), length-be_bytes k (w / 256)))
        e in
    let low : v % 256 ≡ w % 256 = cc lo in
    let high : v / 256 ≡ w / 256 =
      be_bytes-injective k (v / 256) (w / 256) (omega arith) (omega arith) hi in
    omega arith

-- A field element, as every root and label is.
abbrev pub IsWord : ℕ → Type 0
IsWord v = v < 256 ^ 32

leaf_bytes-injective :
    (xs ys : List ℕ)
    → length xs ≡ length ys
    → All IsWord xs
    → All IsWord ys
    → leaf_bytes xs ≡ leaf_bytes ys
    → xs ≡ ys
unfolding leaf_bytes
leaf_bytes-injective [] [] l hx hy e = refl
leaf_bytes-injective [] (y ∷ ys) l hx hy e = absurd (omega arith)
leaf_bytes-injective (x ∷ xs) [] l hx hy e = absurd (omega arith)
leaf_bytes-injective (x ∷ xs) (y ∷ ys) l hx hy e =
    let (h, t) =
      append-injective (be_bytes 32 x) (leaf_bytes xs) (be_bytes 32 y) (leaf_bytes ys)
        (length-be_bytes 32 x ∙ sym (length-be_bytes 32 y)) e in
    ap₂ ◌∷◌ (be_bytes-injective 32 x y hx.0 hy.0 h)
      (leaf_bytes-injective xs ys (omega arith) hx.1 hy.1 t)

-- Two datasets with the same bytes under SHA-256 are one: the same root and the same labels in the
-- same order, for roots and labels of 32 bytes and fewer than 2 ^ 32 labels.
pub dataset_preimage-injective :
    (r q : ℕ) (xs ys : List ℕ)
    → IsWord r
    → IsWord q
    → All IsWord xs
    → All IsWord ys
    → length xs < 2 ^ 32
    → length ys < 2 ^ 32
    → dataset_preimage r xs ≡ dataset_preimage q ys
    → (r ≡ q) × (xs ≡ ys)
unfolding dataset_preimage
dataset_preimage-injective r q xs ys hr hq hx hy lx ly e =
    let (counts, rest) =
      append-injective (be_bytes 4 (length xs % 2 ^ 32)) (be_bytes 32 r ++ leaf_bytes xs)
        (be_bytes 4 (length ys % 2 ^ 32)) (be_bytes 32 q ++ leaf_bytes ys)
        (length-be_bytes 4 (length xs % 2 ^ 32) ∙ sym (length-be_bytes 4 (length ys % 2 ^ 32))) e in
    let (roots, leaves) =
      append-injective (be_bytes 32 r) (leaf_bytes xs) (be_bytes 32 q) (leaf_bytes ys)
        (length-be_bytes 32 r ∙ sym (length-be_bytes 32 q)) rest in
    let size : length xs % 2 ^ 32 ≡ length ys % 2 ^ 32 =
      be_bytes-injective 4 (length xs % 2 ^ 32) (length ys % 2 ^ 32) (omega arith) (omega arith)
        counts in
    (be_bytes-injective 32 r q hr hq roots, leaf_bytes-injective xs ys (omega arith) hx hy leaves)

-- The leaves of the set that a tick builds are the labels of its indices, in their order.
pub add_all-labels :
    (H : ℕ → ℕ → ℕ) (scope : ℕ) (is : List ℕ) (t : AssociationSet)
    → add_all H is (create scope) ≡ ok t
    → t.labels ≡ map (compute_label H scope) is
unfolding create
add_all-labels H scope is t e = elim (dec_lt (2 ^ tree_depth) (length is)) [
  | yes full ↦ cc (add_all-full H is (create scope) (omega arith) (omega arith))
  | no room ↦ cc (add_all-room H is (create scope) (omega arith))
]
