-- ===== src/Frontend/NoteStore/Laws.antt =====
-- frontend/src/store/poolNoteStore.ts: what adding, marking and importing notes do.
use mathlib.Core.List.{append-nil}
use opauque_stellar.Base.{
  ℕ, ◌≡◌, refl, ap, ap₂, ◌∙◌, Text, same, same_refl, Bool, true, false, ◌&&◌, not, Option, none,
  some, List, [], ◌∷◌, ◌++◌, map, keep, ==_refl, if◌then◌else◌, arith,
}
use opauque_stellar.Frontend.NoteStore.{
  PoolNote, PoolNoteState, enriched, is_same_note, is_marked, is_blank, or_empty, add_note,
  mark_spent, get_for_cluster, is_visible,
}

module _ {ℓ} {A : Type ℓ} where
  keep-append : (p : A → Bool) (xs ys : List A) → keep p (xs ++ ys) ≡ keep p xs ++ keep p ys
  keep-append p [] ys = refl
  keep-append p (x ∷ xs) ys = ground (arith, keep-append p xs ys)

  keep-not : (p : A → Bool) (xs : List A) → keep p (keep (λ x. not (p x)) xs) ≡ []
  keep-not p [] = refl
  keep-not p (x ∷ xs) = ground (arith, keep-not p xs)

  keep_twice : (p : A → Bool) (xs : List A) → keep p (keep p xs) ≡ keep p xs
  keep_twice p [] = refl
  keep_twice p (x ∷ xs) = ground (arith, keep_twice p xs)

is_same_note_refl : (e : PoolNote) → is_same_note e e ≡ true
is_same_note_refl e =
    rw
      (
        same_refl e.cluster,
        same_refl (or_empty e.pool_id),
        ==_refl e.leaf_index,
        same_refl (or_empty e.account),
      )
      refl

keep_alone : {A : Type 0} (p : A → Bool) (e : A) → p e ≡ true → keep p (e ∷ []) ≡ e ∷ []
keep_alone p e h = rw h refl

drop_alone : {A : Type 0} (p : A → Bool) (e : A) → p e ≡ true → keep (λ x. not (p x)) (e ∷ []) ≡ []
drop_alone p e h = rw h refl

append_nil : {A : Type 0} (xs ys : List A) → ys ≡ [] → xs ++ ys ≡ xs
append_nil xs ys e = rw e (append-nil xs)

-- After a note was added it is the only one of its deposit under its account, and all others are as
-- they were and in their order.
pub add_note_lem :
    (note : PoolNote) (s : PoolNoteState)
    → let e = enriched s.active_account note in
      let after = (add_note note s).notes in
      (keep (is_same_note e) after ≡ e ∷ [])
      × (keep (λ n. not (is_same_note e n)) after ≡ keep (λ n. not (is_same_note e n)) s.notes)
unfolding add_note
add_note_lem note s =
    let e = enriched s.active_account note in
    let others = keep (λ n. not (is_same_note e n)) s.notes in
    let h = is_same_note_refl e in
    (
      keep-append (is_same_note e) others (e ∷ [])
          ∙ ap₂ ◌++◌ (keep-not (is_same_note e) s.notes) (keep_alone (is_same_note e) e h),
      keep-append (λ n. not (is_same_note e n)) others (e ∷ [])
          ∙ append_nil _ _ (drop_alone (is_same_note e) e h)
          ∙ keep_twice (λ n. not (is_same_note e n)) s.notes,
    )

is_marked_blank :
    (cluster : Text) (pool_id : Option Text) (leaf_index c : ℕ) (a : Text) (n : PoolNote)
    → is_blank n.account ≡ true
    → is_marked cluster pool_id leaf_index (some (c ∷ a)) n ≡ false
is_marked_blank cluster pool_id leaf_index c a n h = ground (arith, blank_account n.account h)
  where
    blank_account : (o : Option Text) → is_blank o ≡ true → same (or_empty o) (c ∷ a) ≡ false
    blank_account none h = refl
    blank_account (some []) h = refl
    blank_account (some (d ∷ s)) h = absurd cc

module _ (cluster : Text) (pool_id : Option Text) (leaf_index c : ℕ) (a : Text) where
  marked : PoolNote → PoolNote
  marked n =
      if is_marked cluster pool_id leaf_index (some (c ∷ a)) n then record n { spent = true } else n

  marked-is_blank :
      (ns : List PoolNote)
      → keep (λ n. is_blank n.account) (map marked ns) ≡ keep (λ n. is_blank n.account) ns
  unfolding marked
  marked-is_blank [] = refl
  marked-is_blank (n ∷ ns) =
      ground (arith, is_marked_blank cluster pool_id leaf_index c a n, marked-is_blank ns)

-- The notes without an account among those listed for an account are all of the cluster.
listed_blank :
    (cluster : Text) (c : ℕ) (a : Text) (ns : List PoolNote)
    → keep
        (λ n. is_blank n.account)
        (keep (λ n. same n.cluster cluster && is_visible (some (c ∷ a)) n) ns)
      ≡ keep (λ n. same n.cluster cluster) (keep (λ n. is_blank n.account) ns)
listed_blank cluster c a [] = refl
listed_blank cluster c a (n ∷ ns) = ground (arith, listed_blank cluster c a ns)

-- Marking a deposit spent while an account is active leaves every note without an account as it is,
-- the note of that deposit too, although such notes are listed for the account: of the notes that
-- getForCluster gives then for a cluster, those without an account are all the ones of that cluster
-- that were in the store, unchanged.
pub mark_spent-legacy :
    (cluster : Text) (pool_id : Option Text) (leaf_index c : ℕ) (a listed : Text)
    (s : PoolNoteState)
    → s.active_account ≡ some (c ∷ a)
    → let after = mark_spent cluster pool_id leaf_index s in
      let before = keep (λ n. is_blank n.account) s.notes in
      (keep (λ n. is_blank n.account) after.notes ≡ before)
      × (keep (λ n. is_blank n.account) (get_for_cluster listed after)
          ≡ keep (λ n. same n.cluster listed) before)
unfolding mark_spent get_for_cluster marked
mark_spent-legacy cluster pool_id leaf_index c a listed s h =
    let same_blank = marked-is_blank cluster pool_id leaf_index c a s.notes in
    (
      rw h same_blank,
      rw h (
          listed_blank listed c a (map (marked cluster pool_id leaf_index c a) s.notes)
          ∙ ap (keep (λ n. same n.cluster listed)) same_blank),
    )
