-- ===== src/Frontend/PoolSweep/Kept.antt =====
-- sweepStealthIntoPool of frontend/src/lib/poolSweep.ts: which deposits have a note when a sweep ends.
use mathlib.Core.List.{append-nil, append_assoc}
use opauque_stellar.Base.{
  ℕ, zero, suc, ◌≡◌, refl, sym, ap, ◌∙◌, ◌⊎◌, inl, inr, Text, true, false, arith, ◌||◌, not, Option,
  none, some, List, [], ◌∷◌, ◌++◌, map, All, length, ltb, ◌==◌, Bool-cases,
}
use opauque_stellar.Base.Exec.{
  Result, ok, err, Exec, lift, pure, attempt-Ends, ◌>>=◌, Ends, bind-Ends,
}
use opauque_stellar.Base.Numerals.{to_text}
use opauque_stellar.Frontend.NoteStore.{PoolNote, PoolNoteState, add_note}
use opauque_stellar.Frontend.PoolSweep.{
  Chain, Sweep, PoolConfig, PoolSweepPlan, PoolSweepResult, ChunkOpts, add_to_store, be32, to_hex32,
  is_index_race, on_world, run_world, submit, after_failure, submit_once, with_index, min_deposit,
  deposit_from, deposit_chunk, stored, swept, deposit_all, sweep_stealth_into_pool,
}

-- A deposit that the pool has taken.
pub record Landed : Type 0 where
  pub value : ℕ
  pub commitment : List ℕ
  pub index : ℕ

abbrev pub Matches : PoolNote → Landed → Type 0
Matches n d =
    (n.value ≡ to_text d.value)
    × (n.leaf_index ≡ d.index)
    × (c : ℕ) × (n.commitment ≡ to_hex32 c)
    × (d.commitment ≡ be32 c)

pub add_all : List PoolNote → PoolNoteState → PoolNoteState
add_all [] s = s
add_all (n ∷ ns) s = add_all ns (add_note n s)

module _ {W : Type 0} (chain : Chain W) (landed : W → List Landed) where
  -- `landed` has the deposits that the pool has taken, or may still take as they are on their way.
  -- Reading and drawing secrets deposit nothing. A submission that returns has put in its deposit. One
  -- that fails has put it in or not, where the answer may be lost; if its error is an index race it
  -- has not.
  abbrev pub IsFaithful : Type 0
  IsFaithful =
      ((w : W) → landed (chain.fetch_next_leaf_index w).1 ≡ landed w)
      × ((w : W) → landed (chain.new_note_secrets w).1 ≡ landed w)
      × ((value : ℕ) (commitment : List ℕ) (index : ℕ) (w : W)
          → let r = chain.deposit value commitment index w in
            ((hash : Text) × (r.0 ≡ ok hash)
              × (landed r.1
                  ≡ landed w
                    ++ record { value = value; commitment = commitment; index = index } ∷ []))
            ⊎ ((e : Text) × (r.0 ≡ err e)
                × ((landed r.1 ≡ landed w)
                    ⊎ ((is_index_race e ≡ false)
                        × (landed r.1
                            ≡ landed w
                              ++ record { value = value; commitment = commitment; index = index }
                                ∷ [])))))

  abbrev Unmoved : Sweep W → Sweep W → Type 0
  Unmoved s t = (t.store ≡ s.store) × (landed t.world ≡ landed s.world)

  -- Nothing is put in when an error is thrown, or one deposit at an error that is no index race.
  abbrev pub Lost : Text → List Landed → Type 0
  Lost e lost = (lost ≡ []) ⊎ (d : Landed) × (lost ≡ d ∷ []) × (is_index_race e ≡ false)

  abbrev Stopped : Sweep W → Text → Sweep W → Type 0
  Stopped s e t =
      (t.store ≡ s.store)
      × (lost : List Landed) × (landed t.world ≡ landed s.world ++ lost)
      × Lost e lost

  -- One deposit is in and its note is handed back, or an error is thrown.
  abbrev Chunk : Sweep W → Result Text (Text × PoolNote) → Sweep W → Type 0
  Chunk s (ok (hash, n)) t =
      (t.store ≡ s.store) × (d : Landed) × (landed t.world ≡ landed s.world ++ d ∷ []) × Matches n d
  Chunk s (err e) t = Stopped s e t

  Chunk-Unmoved :
      (s t u : Sweep W) (r : Result Text (Text × PoolNote))
      → Unmoved s t
      → Chunk t r u
      → Chunk s r u
  Chunk-Unmoved s t u (ok (hash, n)) (a, b) (c, d, l, m) =
      (c ∙ a, d, l ∙ ap (λ x. x ++ d ∷ []) b, m)
  Chunk-Unmoved s t u (err e) (a, b) (c, lost, l, m) = (c ∙ a, lost, l ∙ ap (λ x. x ++ lost) b, m)

  Stopped-Unmoved : (s : Sweep W) (e : Text) (t : Sweep W) → Unmoved s t → Stopped s e t
  Stopped-Unmoved s e t (a, b) = (a, [], b ∙ sym (append-nil (landed s.world)), inl refl)

  -- At an index race nothing was put in.
  Unmoved-race :
      (s : Sweep W) (e : Text) (t : Sweep W) → is_index_race e ≡ true → Stopped s e t → Unmoved s t
  Unmoved-race s e t race (a, lost, l, inl none_lost) =
      (a, l ∙ ap (λ x. landed s.world ++ x) none_lost ∙ append-nil (landed s.world))
  Unmoved-race s e t race (a, lost, l, inr (d, one, no_race)) = absurd cc

  submit-Chunk :
      IsFaithful
      → (opts : ChunkOpts) (leaf_index : ℕ) (secrets : ℕ × ℕ) (s : Sweep W)
      → Ends (Chunk s) (submit chain opts leaf_index secrets s)
  submit-Chunk (_, _, faithful) opts leaf_index secrets s =
      let c = chain.derive_commitment opts.value opts.scope leaf_index secrets.0 secrets.1 in
      elim (faithful opts.value (be32 c) leaf_index s.world) [
        | inl (hash, e, l) ↦ rw e (
          refl,
          record { value = opts.value; commitment = be32 c; index = leaf_index },
          l,
          (refl, refl, c, refl, refl),
        )
        | inr (x, e, inl l) ↦ rw e (Stopped-Unmoved s x _ (refl, l))
        | inr (x, e, inr (no_race, l)) ↦ rw e (refl, _, l, inr (_, refl, no_race))
      ]

  submit_once-Chunk :
      IsFaithful
      → (n : ℕ) (again : Exec Text (Sweep W) (Text × PoolNote)) (opts : ChunkOpts) (i : ℕ)
        (k : ℕ × ℕ)
      → ((t : Sweep W) → Ends (Chunk t) (again t))
      → (s : Sweep W) → Ends (Chunk s) (submit_once chain n again opts i k s)
  submit_once-Chunk faithful n again opts i k h s =
      attempt-Ends (Chunk s) (Chunk s) (submit chain opts i k) (after_failure chain n again) s
        (submit-Chunk faithful opts i k s) (λ a t c. c)
        (λ e t c. elim (Bool-cases (not (is_index_race e) || n == 2)) [
          | inl stop ↦ rw stop c
          | inr retry ↦
              rw retry (Chunk-Unmoved s t _ _ (Unmoved-race s e t (ground (arith, retry)) c) (h t))
        ])

  with_index-Chunk :
      IsFaithful
      → (n : ℕ) (again : Exec Text (Sweep W) (Text × PoolNote)) (opts : ChunkOpts) (i : ℕ)
      → ((t : Sweep W) → Ends (Chunk t) (again t))
      → (s : Sweep W) → Ends (Chunk s) (with_index chain n again opts i s)
  with_index-Chunk faithful n again opts i h s =
      bind-Ends (Chunk s) (λ r t. Unmoved s t) (run_world chain.new_note_secrets)
        (submit_once chain n again opts i) s (refl, faithful.1 s.world)
        (λ k t u. Chunk-Unmoved s t _ _ u (submit_once-Chunk faithful n again opts i k h t))
        (λ e t u. Stopped-Unmoved s e t u)

  deposit_from-Chunk :
      IsFaithful
      → (left n : ℕ) (opts : ChunkOpts) (s : Sweep W)
      → Ends (Chunk s) (deposit_from chain left n opts s)
  unfolding deposit_from
  deposit_from-Chunk faithful zero n opts s = Stopped-Unmoved s _ s (refl, refl)
  deposit_from-Chunk faithful (suc left) n opts s =
      bind-Ends (Chunk s) (λ r t. Unmoved s t) (on_world chain.fetch_next_leaf_index)
        (with_index chain n (deposit_from chain left (suc n) opts) opts) s
        (refl, faithful.0 s.world)
        (λ i t u. Chunk-Unmoved s t _ _ u (
          with_index-Chunk faithful n (deposit_from chain left (suc n) opts) opts i
            (deposit_from-Chunk faithful left (suc n) opts) t))
        (λ e t u. Stopped-Unmoved s e t u)

  -- A run that returns has made as many deposits as it has hashes, and none is lost.
  abbrev pub Enough : ℕ → List (PoolNote × Landed) → List Landed → Result Text (List Text) → Type 0
  Enough n made lost (ok hashes) = (length made ≡ n) × (length hashes ≡ n) × (lost ≡ [])
  Enough n made lost (err e) = Lost e lost

  -- The deposits that a run has put in, each with the note that went into the store for it, and
  -- behind them those without a note.
  abbrev pub Kept : List (PoolNote × Landed) → List Landed → Sweep W → Sweep W → Type 0
  Kept made lost s t =
      (t.store ≡ add_all (map (λ m. m.0) made) s.store)
      × (landed t.world ≡ landed s.world ++ (map (λ m. m.1) made ++ lost))
      × All (λ m. Matches m.0 m.1) made

  abbrev pub Swept : ℕ → Sweep W → Result Text (List Text) → Sweep W → Type 0
  Swept n s r t =
      (made : List (PoolNote × Landed)) × (lost : List Landed) × Kept made lost s t
      × Enough n made lost r

  -- A note stored before the rest is the first of those that the run has kept.
  Kept-cons :
      (n : PoolNote) (d : Landed) (made : List (PoolNote × Landed)) (lost : List Landed)
      (s t u : Sweep W)
      → t.store ≡ s.store
      → landed t.world ≡ landed s.world ++ d ∷ []
      → Matches n d
      → Kept made lost (add_to_store n t) u
      → Kept ((n, d) ∷ made) lost s u
  unfolding add_all
  Kept-cons n d made lost s t u e l m (a, b, c) = (
    a ∙ ap (λ x. add_all (map (λ p. p.0) made) (add_note n x)) e,
    b ∙ ap (λ x. x ++ (map (λ p. p.1) made ++ lost)) l ∙ append_assoc (landed s.world) (d ∷ []) _,
    (m, c),
  )

  consed-Swept :
      (n : ℕ) (note : PoolNote) (d : Landed) (hash : Text) (s t : Sweep W)
      (r : Result Text (List Text)) (u : Sweep W)
      → t.store ≡ s.store
      → landed t.world ≡ landed s.world ++ d ∷ []
      → Matches note d
      → Swept n (add_to_store note t) r u
      → Ends (Swept (suc n) s) ((lift r >>= λ hashes. pure (hash ∷ hashes)) u)
  consed-Swept n note d hash s t (ok hashes) u e l m (made, lost, k, a) = (
    (note, d) ∷ made,
    lost,
    Kept-cons note d made lost s t u e l m k,
    (ap suc a.0, ap suc a.1, a.2),
  )
  consed-Swept n note d hash s t (err x) u e l m (made, lost, k, a) =
      ((note, d) ∷ made, lost, Kept-cons note d made lost s t u e l m k, a)

  stored-Swept :
      (n : ℕ) (rest : Exec Text (Sweep W) (List Text)) (s t : Sweep W) (r : Text × PoolNote)
      → Chunk s (ok r) t
      → ((u : Sweep W) → Ends (Swept n u) (rest u))
      → Ends (Swept (suc n) s) (stored chain rest r t)
  stored-Swept n rest s t (hash, note) (e, d, l, m) h =
      consed-Swept n note d hash s t (rest (add_to_store note t)).0 (rest (add_to_store note t)).1 e
        l m (h (add_to_store note t))

  Kept-none : (s : Sweep W) → Kept [] [] s s
  unfolding add_all
  Kept-none s = (refl, sym (append-nil (landed s.world)), tt)

  deposit_all-Swept :
      IsFaithful
      → (n : ℕ) (opts : ChunkOpts) (s : Sweep W) → Ends (Swept n s) (deposit_all chain n opts s)
  unfolding deposit_all deposit_chunk add_all
  deposit_all-Swept faithful zero opts s = ([], [], Kept-none s, (refl, refl, refl))
  deposit_all-Swept faithful (suc n) opts s =
      bind-Ends (Swept (suc n) s) (Chunk s) (deposit_from chain 3 0 opts)
        (stored chain (deposit_all chain n opts)) s (deposit_from-Chunk faithful 3 0 opts s)
        (λ r t c.
          stored-Swept n (deposit_all chain n opts) s t r c (deposit_all-Swept faithful n opts))
        (λ e t c. ([], c.1, (c.0, c.2, tt), c.3))

  -- What a sweep has done when it ends, with its result or with an error.
  abbrev pub EnoughResult :
      List (PoolNote × Landed) → List Landed → Result Text PoolSweepResult → Type 0
  EnoughResult made lost (ok r) =
      (length made ≡ r.notes_added) × (length r.hashes ≡ r.notes_added) × (lost ≡ [])
  EnoughResult made lost (err e) = Lost e lost

  abbrev pub Ended : Sweep W → Result Text PoolSweepResult → Sweep W → Type 0
  Ended s r t =
      (made : List (PoolNote × Landed)) × (lost : List Landed) × Kept made lost s t
      × EnoughResult made lost r

  -- Whether a sweep returns or is broken off by an error at any chunk, the deposits that the pool has
  -- taken from it, or may still take, are matched one by one, in order, by the notes that were put
  -- into the store, but for one last deposit at most. If the sweep returns, all have their notes, as
  -- many as it reports, and as many hashes; a deposit without a note is that of a submission whose
  -- error is no index race and is what the sweep throws. This holds where a submission that returns
  -- has put in its deposit and one that fails with an index race has not.
  pub sweep_stealth_into_pool-Ended :
      IsFaithful
      → (cfg : Option PoolConfig) (cluster : Text) (plan : PoolSweepPlan) (s : Sweep W)
      → Ends (Ended s) (sweep_stealth_into_pool chain cfg cluster plan s)
  unfolding sweep_stealth_into_pool
  sweep_stealth_into_pool-Ended faithful none cluster plan s = ([], [], Kept-none s, inl refl)
  sweep_stealth_into_pool-Ended faithful (some cfg) cluster plan s =
      elim (Bool-cases (ltb plan.chunk_count 1 || ltb plan.chunk min_deposit)) [
        | inl small ↦ rw small ([], [], Kept-none s, inl refl)
        | inr fits ↦ rw fits (
            bind-Ends (Ended s) (Swept plan.chunk_count s)
              (deposit_all chain plan.chunk_count (opts_of cfg)) (swept chain plan) s
              (deposit_all-Swept faithful plan.chunk_count (opts_of cfg) s) (λ hashes t h. h)
              (λ e t h. h))
      ]
    where
      opts_of : PoolConfig → ChunkOpts
      opts_of c = record {
        value = plan.chunk;
        scope = c.scope;
        pool_id = c.pool_id;
        cluster = cluster;
      }
