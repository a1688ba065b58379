-- ===== src/Merkle/Sparse.antt =====
-- The sparse recursion of `rootFrom` against the full tree.

use opauque_stellar.Base.{
  ℕ, zero, suc, ◌+◌, ◌^◌, ◌≤◌, ◌≡◌, refl, ap₂, List, [], ◌∷◌, arith, length, get_or, leb,
  Bool-cases, leb→le, inl, inr,
}
use opauque_stellar.Merkle.{zero_at, root_from, full_root}

get_or_out : (xs : List ℕ) (i : ℕ) → length xs ≤ i → get_or xs i 0 ≡ 0
get_or_out [] i h = refl
get_or_out (x ∷ xs) zero h = absurd (omega arith)
get_or_out (x ∷ xs) (suc i) h = get_or_out xs i (omega arith)

module _ (H : ℕ → ℕ → ℕ) where
  empty_subtree :
      (leaves : List ℕ) (start level : ℕ)
      → length leaves ≤ start
      → full_root H (λ i. get_or leaves i 0) start level ≡ zero_at H level
  unfolding full_root zero_at
  empty_subtree leaves start zero h = get_or_out leaves start h
  empty_subtree leaves start (suc level) h =
      ap₂ H (empty_subtree leaves start level h)
        (empty_subtree leaves (start + 2 ^ level) level (omega arith))

  -- The shortcut for empty subtrees changes nothing: every node of the sparse tree is the node of
  -- the full tree in which every position past the leaves holds 0.
  pub root_from-full_root :
      (leaves : List ℕ) (start level : ℕ)
      → root_from H leaves start level ≡ full_root H (λ i. get_or leaves i 0) start level
  unfolding root_from full_root zero_at
  root_from-full_root leaves start zero = ground (arith, get_or_out leaves start)
  root_from-full_root leaves start (suc level) = elim (Bool-cases (leb (length leaves) start)) [
    | inl out ↦ rw (out) (ground (arith, empty_subtree leaves start (suc level) (leb→le _ _ out)))
    | inr inside ↦ rw (inside) (
        ap₂ H (root_from-full_root leaves start level)
          (root_from-full_root leaves (start + 2 ^ level) level))
  ]
