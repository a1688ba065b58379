-- ===== src/Merkle/Tests.antt =====
-- Runs of the Merkle code, and its theorems at concrete trees.
use native.Mathlib.Decide.{dec_lt}
use opauque_stellar.Base.{
  ℕ, ◌+◌, ◌*◌, ◌≤◌, ◌<◌, ◌≡◌, ◌⊎◌, refl, ap, List, [], ◌∷◌, arith, get_or, some, none,
}
use opauque_stellar.Merkle.{
  root, root_from, full_root, insert, inserted, tree_full, proof, Proof, assert_inclusion, accepted,
  wrong_root, fold_path, zero_at,
}
use opauque_stellar.Merkle.Sparse.{root_from-full_root}
use opauque_stellar.Merkle.Paths.{proof-accepted, insert-proof}
use opauque_stellar.Merkle.Binding.{CollisionFree, root-injective, assert_inclusion_sound, position}

-- A pairing function in the place of Poseidon: (a + b)² + a.
abbrev pair : ℕ → ℕ → ℕ
pair a b = (a + b) * (a + b) + a

square_gap : (s t : ℕ) → s < t → s * s + s < t * t
square_gap s t h = grind arith

pair-sum : (a b c d : ℕ) → pair a b ≡ pair c d → a + b ≡ c + d
pair-sum a b c d e = elim (dec_lt (a + b) (c + d)) [
  | yes h ↦ absurd (omega (arith, square_gap (a + b) (c + d) h))
  | no h ↦ elim (dec_lt (c + d) (a + b)) [
    | yes k ↦ absurd (omega (arith, square_gap (c + d) (a + b) k))
    | no k ↦ omega arith
  ]
]

pair-CollisionFree : CollisionFree pair
pair-CollisionFree a b c d e =
    let s : a + b ≡ c + d = pair-sum a b c d e in
    let q : (a + b) * (a + b) ≡ (c + d) * (c + d) = ap (λ (t : ℕ). t * t) s in
    (omega arith, omega arith)

abbrev three : List ℕ
three = 5 ∷ 7 ∷ 9 ∷ []

full_tree_full : insert 1 (5 ∷ 7 ∷ []) 9 ≡ tree_full
unfolding insert
full_tree_full = refl

wrong_sibling : assert_inclusion pair 2 7 (6 ∷ 0 ∷ []) (1 ∷ 0 ∷ []) (root pair three 2) ≡ wrong_root
unfolding assert_inclusion root root_from fold_path zero_at
wrong_sibling = refl

root_from-full_root_example : root_from pair three 2 1 ≡ full_root pair (λ i. get_or three i 0) 2 1
root_from-full_root_example = root_from-full_root pair three 2 1

proof-accepted_example :
    ((2 < 3)
      × (p : Proof) × (proof pair 2 three 2 ≡ some p)
      × (p.root ≡ root pair three 2)
      × (assert_inclusion pair 2 9 p.path_elements p.path_indices p.root ≡ accepted))
    ⊎ ((3 ≤ 2) × (proof pair 2 three 2 ≡ none))
proof-accepted_example = proof-accepted pair 2 three 2 (omega arith)

insert-proof_example :
    (p : Proof) × (proof pair 2 three 2 ≡ some p)
    × (p.root ≡ root pair three 2)
    × (assert_inclusion pair 2 9 p.path_elements p.path_indices p.root ≡ accepted)
unfolding insert
insert-proof_example = insert-proof pair 2 (5 ∷ 7 ∷ []) three 9 2 appended
  where
    appended : insert 2 (5 ∷ 7 ∷ []) 9 ≡ inserted three 2
    appended = refl

root-injective_example : get_or three 1 0 ≡ get_or (5 ∷ 7 ∷ 9 ∷ 0 ∷ []) 1 0
unfolding root root_from zero_at
root-injective_example =
    root-injective pair pair-CollisionFree 2 three (5 ∷ 7 ∷ 9 ∷ 0 ∷ []) padded 1 (omega arith)
  where
    padded : root pair three 2 ≡ root pair (5 ∷ 7 ∷ 9 ∷ 0 ∷ []) 2
    padded = refl

assert_inclusion_sound_example : ◌≡◌ {A = ℕ} 7 (get_or three (position (1 ∷ 0 ∷ [])) 0)
unfolding assert_inclusion root root_from zero_at fold_path
assert_inclusion_sound_example =
    assert_inclusion_sound pair pair-CollisionFree 2 7 (5 ∷ pair 9 0 ∷ []) (1 ∷ 0 ∷ []) three
      replays
  where
    replays :
        assert_inclusion pair 2 7 (5 ∷ pair 9 0 ∷ []) (1 ∷ 0 ∷ []) (root pair three 2) ≡ accepted
    replays = refl
