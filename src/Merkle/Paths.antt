-- ===== src/Merkle/Paths.antt =====
-- An inclusion path replays to the root (`proof`, `assertAspInclusionMatchesRoot`).
use native.Mathlib.Nat.{pow-suc, zero-mul, add-zero, zero-add}
use opauque_stellar.Base.{
  ℕ, zero, suc, ◌+◌, ◌-◌, ◌*◌, ◌/◌, ◌%◌, ◌^◌, ◌≤◌, ◌<◌, ◌≡◌, ◌⊎◌, refl, ap, ◌∙◌, List, [], ◌∷◌,
  arith, length, length-append, ◌++◌, get_or, leb, lt→leb_false, Bool-cases, leb→le, inl, inr, ◌==◌,
  if◌then◌else◌, some, none, ==_refl, not-leb→lt,
}
use opauque_stellar.Merkle.{
  insert, inserted, sibling, root_from, node, path_from, directions, fold_path, root, Proof, proof,
  assert_inclusion, accepted,
}

even_start : (cur h : ℕ) → cur % 2 ≡ 0 → cur / 2 * (h * 2) ≡ cur * h
even_start cur h e =
    let d : cur ≡ cur / 2 * 2 = omega arith in omega (arith, ap (λ (t : ℕ). t * h) d)

odd_start : (cur h : ℕ) → cur % 2 ≡ 1 → cur / 2 * (h * 2) ≡ (cur - 1) * h
odd_start cur h e =
    let d : cur - 1 ≡ cur / 2 * 2 = omega arith in omega (arith, ap (λ (t : ℕ). t * h) d)

next_start : (cur h : ℕ) → (cur + 1) * h ≡ cur * h + h
next_start cur h = omega arith

last_start : (cur h : ℕ) → cur % 2 ≡ 1 → (cur - 1) * h + h ≡ cur * h
last_start cur h e =
    let d : cur - 1 + 1 ≡ cur = omega arith in omega (arith, ap (λ (t : ℕ). t * h) d)

parity : (cur : ℕ) → (cur % 2 ≡ 0) ⊎ (cur % 2 ≡ 1)
parity cur = omega arith

parent_inside : {n : ℕ} (cur level : ℕ) → cur * 2 ^ level < n → cur / 2 * 2 ^ suc level < n
parent_inside cur level h = rw (pow-suc 2 level) (elim (parity cur) [
  | inl e ↦ omega (arith, even_start cur (2 ^ level) e)
  | inr e ↦ omega (arith, odd_start cur (2 ^ level) e, last_start cur (2 ^ level) e)
])

parent_below : (cur left : ℕ) → cur < 2 ^ suc left → cur / 2 < 2 ^ left
parent_below cur left h = let e : cur < 2 ^ left * 2 = rw (← pow-suc 2 left) h in omega arith

length-directions : (left cur : ℕ) → length (directions left cur) ≡ left
unfolding directions
length-directions zero cur = refl
length-directions (suc left) cur = ap suc (length-directions left (cur / 2))

get_or-append : (xs : List ℕ) (x : ℕ) → get_or (xs ++ x ∷ []) (length xs) 0 ≡ x
get_or-append [] x = refl
get_or-append (y ∷ ys) x = get_or-append ys x

inserted-facts :
    (depth leaf index : ℕ) (leaves leaves' : List ℕ)
    → insert depth leaves leaf ≡ inserted leaves' index
    → (length leaves' ≤ 2 ^ depth) × (index < length leaves') × (get_or leaves' index 0 ≡ leaf)
unfolding insert
inserted-facts depth leaf index leaves leaves' h =
    ground (arith, length-append leaves (leaf ∷ []), get_or-append leaves leaf)

module _ (H : ℕ → ℕ → ℕ) where
  inner :
      (leaves : List ℕ) (start level : ℕ)
      → start < length leaves
      → root_from H leaves start (suc level)
        ≡ H (root_from H leaves start level) (root_from H leaves (start + 2 ^ level) level)
  unfolding root_from
  inner leaves start level h = rw (lt→leb_false _ _ h)

  abbrev combine : ℕ → ℕ → ℕ → ℕ
  combine direction computed e = if direction == 1 then H e computed else H computed e

  -- A node and its sibling, in the order of the direction bit, hash to their parent.
  node-parent :
      (leaves : List ℕ) (cur level : ℕ)
      → cur * 2 ^ level < length leaves
      → combine (cur % 2) (node H leaves cur level) (node H leaves (sibling cur) level)
        ≡ node H leaves (cur / 2) (suc level)
  unfolding node sibling
  node-parent leaves cur level h = elim (parity cur) [
    | inl e ↦ rw (
      e,
      pow-suc 2 level,
      even_start cur (2 ^ level) e,
      next_start cur (2 ^ level),
      inner leaves (cur * 2 ^ level) level h,
    )
    | inr e ↦
        rw (e, pow-suc 2 level, odd_start cur (2 ^ level) e)
          (rw (
            inner leaves ((cur - 1) * 2 ^ level) level
                (omega (arith, last_start cur (2 ^ level) e)),
            last_start cur (2 ^ level) e,
          ))
  ]

  replay_from :
      (leaves : List ℕ) (left level cur : ℕ)
      → cur * 2 ^ level < length leaves
      → cur < 2 ^ left
      → fold_path H
          (node H leaves cur level)
          (path_from H leaves left level cur)
          (directions left cur)
        ≡ root H leaves (level + left)
  unfolding fold_path path_from directions node root
  replay_from leaves zero level cur h b =
      let e : cur ≡ 0 = omega arith in rw (e, zero-mul, add-zero) refl
  replay_from leaves (suc left) level cur h b = rw (node-parent leaves cur level h) (
      replay_from leaves left (suc level) (cur / 2) (parent_inside cur level h)
        (parent_below cur left b)
      ∙ ap (root H leaves) (omega arith))

  length-path_from :
      (leaves : List ℕ) (left level cur : ℕ) → length (path_from H leaves left level cur) ≡ left
  unfolding path_from
  length-path_from leaves zero level cur = refl
  length-path_from leaves (suc left) level cur =
      ap suc (length-path_from leaves left (suc level) (cur / 2))

  leaf_node :
      (leaves : List ℕ) (index : ℕ)
      → index < length leaves
      → get_or leaves index 0 ≡ node H leaves index 0
  unfolding node root_from
  leaf_node leaves index h =
      let e : index * 2 ^ 0 ≡ index = omega arith in rw e (rw (lt→leb_false _ _ h) refl)

  replayed :
      (depth : ℕ) (leaves : List ℕ) (index : ℕ)
      → length leaves ≤ 2 ^ depth
      → index < length leaves
      → assert_inclusion H depth
          (get_or leaves index 0)
          (path_from H leaves depth 0 index)
          (directions depth index)
          (root H leaves depth)
        ≡ accepted
  unfolding assert_inclusion
  replayed depth leaves index fits h = rw (
    length-path_from leaves depth 0 index,
    length-directions depth index,
    ==_refl depth,
    leaf_node leaves index h,
    replay_from leaves depth 0 index (omega arith) (omega arith),
    zero-add,
    ==_refl (root H leaves depth),
  )

  -- Of a tree that is not overfull, `proof` succeeds at exactly the indices of its leaves, and what
  -- it returns is accepted by the client's replay, for the leaf at that index and the tree's root.
  pub proof-accepted :
      (depth : ℕ) (leaves : List ℕ) (index : ℕ)
      → length leaves ≤ 2 ^ depth
      → ((index < length leaves)
          × (p : Proof) × (proof H depth leaves index ≡ some p)
          × (p.root ≡ root H leaves depth)
          × (assert_inclusion H depth (get_or leaves index 0) p.path_elements p.path_indices p.root
              ≡ accepted))
        ⊎ ((length leaves ≤ index) × (proof H depth leaves index ≡ none))
  unfolding proof
  proof-accepted depth leaves index fits = elim (Bool-cases (leb (length leaves) index)) [
    | inl out ↦ inr (leb→le _ _ out, rw out)
    | inr inside ↦ inl (
      not-leb→lt _ _ inside,
      record {
        path_elements = path_from H leaves depth 0 index;
        path_indices = directions depth index;
        root = root H leaves depth;
      },
      rw inside,
      refl,
      replayed depth leaves index fits (not-leb→lt _ _ inside),
    )
  ]

  -- A leaf that `insert` accepts gets an index at which `proof` succeeds, and the client accepts
  -- that proof for the leaf and the root of the new tree.
  pub insert-proof :
      (depth : ℕ) (leaves leaves' : List ℕ) (leaf index : ℕ)
      → insert depth leaves leaf ≡ inserted leaves' index
      → (p : Proof) × (proof H depth leaves' index ≡ some p)
        × (p.root ≡ root H leaves' depth)
        × (assert_inclusion H depth leaf p.path_elements p.path_indices p.root ≡ accepted)
  insert-proof depth leaves leaves' leaf index h =
      let (fits, inside, leaf_at) = inserted-facts depth leaf index leaves leaves' h in
      elim (proof-accepted depth leaves' index fits) [
        | inl (_, p, e, r, a) ↦ (p, e, r, rw leaf_at at a)
        | inr (out, _) ↦ absurd (omega arith)
      ]
