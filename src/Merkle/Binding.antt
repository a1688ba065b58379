-- ===== src/Merkle/Binding.antt =====
-- With a hash that has no collisions a root binds the leaves below it.
use opauque_stellar.Base.{
  ℕ, zero, suc, ◌+◌, ◌*◌, ◌^◌, ◌≤◌, ◌<◌, ◌≡◌, sym, ap, ap₂, subst, ◌∙◌, List, [], ◌∷◌, arith,
  length, get_or, ◌==◌, if◌then◌else◌, Bool-cases, Bool, inl, inr,
}
use opauque_stellar.Merkle.{full_root, root_from, root, fold_path, assert_inclusion, accepted}
use opauque_stellar.Merkle.Sparse.{root_from-full_root}
use native.Mathlib.Decide.{dec_lt}
use native.Mathlib.Nat.{pow-suc, add-zero}

-- No two pairs of field elements hash alike.
abbrev pub CollisionFree : (ℕ → ℕ → ℕ) → Type 0
CollisionFree H = (a b c d : ℕ) → H a b ≡ H c d → (a ≡ c) × (b ≡ d)

-- The leaf position that a list of direction bits leads to.
abbrev pub position : List ℕ → ℕ
position [] = 0
position (i ∷ indices) = (if i == 1 then 1 else 0) + position indices * 2

split_right : (start level i : ℕ) → i < start + 2 ^ suc level → i < start + 2 ^ level + 2 ^ level
split_right start level i h =
    let e : i < start + 2 ^ level * 2 = rw (← pow-suc 2 level) h in omega arith

position_start : (b p h : ℕ) → (b + p * 2) * h ≡ p * (h * 2) + b * h
position_start b p h = omega arith

module _ (H : ℕ → ℕ → ℕ) (free : CollisionFree H) where
  full_root-injective :
      (f g : ℕ → ℕ) (start level : ℕ)
      → full_root H f start level ≡ full_root H g start level
      → (i : ℕ) → start ≤ i
      → i < start + 2 ^ level
      → f i ≡ g i
  unfolding full_root
  full_root-injective f g start zero e i lo hi = let d : start ≡ i = omega arith in rw (← d) e
  full_root-injective f g start (suc level) e i lo hi = elim (dec_lt i (start + 2 ^ level)) [
    | yes left ↦ full_root-injective f g start level (free _ _ _ _ e).0 i lo left
    | no right ↦
        full_root-injective f g (start + 2 ^ level) level (free _ _ _ _ e).1 i (omega arith)
          (split_right start level i hi)
  ]

  -- Two trees with one root have the same leaf at every position below the capacity; a position
  -- past the leaves counts as holding 0.
  pub root-injective :
      (depth : ℕ) (xs ys : List ℕ)
      → root H xs depth ≡ root H ys depth
      → (i : ℕ) → i < 2 ^ depth
      → get_or xs i 0 ≡ get_or ys i 0
  unfolding root
  root-injective depth xs ys e i h =
      full_root-injective (λ j. get_or xs j 0) (λ j. get_or ys j 0) 0 depth
        (sym (root_from-full_root H xs 0 depth) ∙ e ∙ root_from-full_root H ys 0 depth) i
        (omega arith) (omega arith)

  fold_path-binds :
      (f : ℕ → ℕ) (elements indices : List ℕ) (level y : ℕ)
      → length elements ≡ length indices
      → fold_path H y elements indices ≡ full_root H f 0 (level + length elements)
      → y ≡ full_root H f (position indices * 2 ^ level) level
  unfolding fold_path full_root
  fold_path-binds f [] [] level y l e = e ∙ ap₂ (full_root H f) (omega arith) (add-zero level)
  fold_path-binds f [] (i ∷ is) level y l e = absurd (omega arith)
  fold_path-binds f (x ∷ xs) [] level y l e = absurd (omega arith)
  fold_path-binds f (x ∷ xs) (i ∷ is) level y l e = elim (Bool-cases (i == 1)) [
    | inl r ↦
        let up : H x y ≡ full_root H f (position is * 2 ^ suc level) (suc level) =
          fold_path-binds f xs is (suc level) (H x y) (omega arith) (
            subst
              (λ (b : Bool).
                fold_path H (if b then H x y else H y x) xs is
                ≡ full_root H f 0 (level + suc (length xs)))
              r e
            ∙ ap (full_root H f 0) (omega arith)) in
        rw r (
          (free _ _ _ _ up).1
          ∙ ap (λ (s : ℕ). full_root H f s level)
              (rw (pow-suc 2 level) (omega (arith, position_start 1 (position is) (2 ^ level)))))
    | inr r ↦
        let up : H y x ≡ full_root H f (position is * 2 ^ suc level) (suc level) =
          fold_path-binds f xs is (suc level) (H y x) (omega arith) (
            subst
              (λ (b : Bool).
                fold_path H (if b then H x y else H y x) xs is
                ≡ full_root H f 0 (level + suc (length xs)))
              r e
            ∙ ap (full_root H f 0) (omega arith)) in
        rw r (
          (free _ _ _ _ up).0
          ∙ ap (λ (s : ℕ). full_root H f s level)
              (rw (pow-suc 2 level) (omega (arith, position_start 0 (position is) (2 ^ level)))))
  ]

  accepted-checks :
      (levels label claimed : ℕ) (elements indices : List ℕ)
      → assert_inclusion H levels label elements indices claimed ≡ accepted
      → (length elements ≡ length indices)
        × (length elements ≡ levels)
        × (fold_path H label elements indices ≡ claimed)
  unfolding assert_inclusion
  accepted-checks levels label claimed elements indices h = ground arith

  -- A client that accepts an inclusion proof for the root of a tree, whatever path it was served,
  -- has a label that is the leaf at the position that the direction bits spell, or 0 where that
  -- position is empty.
  pub assert_inclusion_sound :
      (depth label : ℕ) (elements indices leaves : List ℕ)
      → assert_inclusion H depth label elements indices (root H leaves depth) ≡ accepted
      → label ≡ get_or leaves (position indices) 0
  unfolding root full_root
  assert_inclusion_sound depth label elements indices leaves h =
      let c : (length elements ≡ length indices)
          × (length elements ≡ depth)
          × (fold_path H label elements indices ≡ root_from H leaves 0 depth) =
        accepted-checks depth label (root_from H leaves 0 depth) elements indices h in
      fold_path-binds (λ j. get_or leaves j 0) elements indices 0 label c.0
        (c.2
          ∙ root_from-full_root H leaves 0 depth
          ∙ ap (full_root H (λ j. get_or leaves j 0) 0) (omega (arith, c.1)))
      ∙ ap (λ (j : ℕ). get_or leaves j 0) (omega arith)
