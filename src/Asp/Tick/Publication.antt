-- ===== src/Asp/Tick/Publication.antt =====
-- The tick against the chain: what is published is the root of the durable approved indices.
use opauque_stellar.Base.{
  ℕ, ◌≡◌, ◌⊎◌, inl, inr, refl, sym, ap, subst, ◌∙◌, Text, Bool, true, false, ◌||◌, Option, none,
  some, List, [], ◌∷◌, map, length, arith, ◌==◌, leb, ◌&&◌, if◌then◌else◌, Bool-cases, Option-cases,
}
use opauque_stellar.Base.Dict.{get, set, get-set_self}
use opauque_stellar.Base.Exec.{Exec, IfOk, Ends, bind-IfOk, IfOk-map, IfOk-const, lift-IfOk, ◌>>=◌}
use opauque_stellar.Asp.Types.{SetManifest, Deposit, PoolState}
use opauque_stellar.Asp.Dataset.{
  Error, AssociationSet, manifest, create, add_all, root_of, compute_label,
}
use opauque_stellar.Asp.Dataset.Laws.{add_all-labels}
use opauque_stellar.Merkle.{root, tree_depth}
use opauque_stellar.Asp.Tick.Verdicts.{screen-append}
use opauque_stellar.Asp.Tick.{
  StateApi, ChainAdapter, TickConfig, World, Screening, call, confirmed_deposits, load_state,
  save_state, screen, reorg_check, publish, write_manifest, note_publication, state_tree_step,
  publish_state_root, post_if_new, absorb, leaf_values, insert_all, state_tree_with, halt, finish,
  run_pool_tick, result_of, init_state, same_root, is_nil,
}

same_root→eq : (r : ℕ) (q : Option ℕ) → same_root r q ≡ true → q ≡ some r
unfolding same_root
same_root→eq r none h = cc
same_root→eq r (some q) h = ground arith

is_nil→eq : {A : Type 0} (xs : List A) → is_nil xs ≡ true → xs ≡ []
unfolding is_nil
is_nil→eq [] h = refl
is_nil→eq (x ∷ xs) h = cc

map-nil : {A B : Type 0} (f : A → B) (xs : List A) → map f xs ≡ [] → xs ≡ []
map-nil f [] e = refl
map-nil f (x ∷ xs) e = cc

or-split : (a b : Bool) → (a || b) ≡ true → (a ≡ true) ⊎ (b ≡ true)
or-split true b h = inl refl
or-split false b h = inr h

module _ {W : Type 0} (view : W → Option ℕ) where
  -- A call that leaves the published root alone.
  abbrev pub Keeps : {A : Type 0} → Exec Error W A → Type 0
  Keeps m = (w : W) → Ends (IfOk (λ a w'. view w' ≡ view w)) (m w)

  -- The published ASP root of the chain: reading it gives it, posting a root makes it that root, and
  -- no other call changes it.
  pub record HasRoot (adapter : ChainAdapter W) : Type 0 where
    pub deposits_keep : (after : Option ℕ) (ledger : ℕ) → Keeps (adapter.read_deposits after ledger)
    pub ledger_keeps : Keeps adapter.latest_ledger
    pub read_root :
        (w : W)
        → Ends (IfOk (λ r w'. (r ≡ view w) × (view w' ≡ view w))) (adapter.current_asp_root w)
    pub post_root :
        (r h : ℕ) (w : W) → Ends (IfOk (λ u w'. view w' ≡ some r)) (adapter.post_asp_root r h w)
    pub leaves_keep :
        (api : StateApi W)
        → adapter.state_api ≡ some api
        → (from : ℕ) → Keeps (api.read_state_leaves from)
    pub state_root_keeps :
        (api : StateApi W) → adapter.state_api ≡ some api → Keeps api.current_state_root
    pub post_state_keeps :
        (api : StateApi W)
        → adapter.state_api ≡ some api
        → (r h : ℕ) → Keeps (api.post_state_root r h)

  -- Neither the published root nor the store changes.
  abbrev Quiet : World W → World W → Type 0
  Quiet s t = (view t.chain ≡ view s.chain) × (t.store ≡ s.store)

  Quiet-trans : (s t u : World W) → Quiet s t → Quiet t u → Quiet s u
  Quiet-trans s t u p q = (q.0 ∙ p.0, q.1 ∙ p.1)

  call-Quiet :
      {A : Type 0} (m : Exec Error W A) (s : World W)
      → Keeps m
      → Ends (IfOk (λ a t. Quiet s t)) (call m s)
  call-Quiet m s k =
      IfOk-map (λ a w'. view w' ≡ view s.chain) (λ a t. Quiet s t) (m s.chain).0 (m s.chain).1
        (record s { chain = (m s.chain).1 }) (λ a e. (e, refl)) (k s.chain)

  -- A call that keeps the root, and what comes after it.
  call-then :
      {A B : Type 0} (Q : B → World W → Type 0) (m : Exec Error W A)
      (f : A → Exec Error (World W) B) (s : World W)
      → Keeps m
      → ((a : A) (t : World W) → Quiet s t → Ends (IfOk Q) (f a t))
      → Ends (IfOk Q) ((call m >>= f) s)
  call-then Q m f s k h = bind-IfOk Q (λ a t. Quiet s t) (call m) f s (call-Quiet m s k) h

  module _ (cfg : TickConfig W) (honest : HasRoot cfg.adapter) where
    confirmed-Quiet :
        (ds : List Deposit) (s : World W)
        → Ends (IfOk (λ a t. Quiet s t)) (confirmed_deposits cfg.adapter ds cfg.confirmations s)
    unfolding confirmed_deposits
    confirmed-Quiet ds s = elim (Bool-cases (leb cfg.confirmations 1 || is_nil ds)) [
      | inl now ↦ rw now (refl, refl)
      | inr later ↦ rw later (
          call-then (λ a t. Quiet s t) cfg.adapter.latest_ledger _ s honest.ledger_keeps
            (λ a t q. q))
    ]

    reorg-Quiet : (last : ℕ) (ds : List Deposit) (s : World W) → Quiet s (reorg_check last ds s).1
    unfolding reorg_check
    reorg-Quiet last ds s = ground arith

    module _ (api : StateApi W) (has : cfg.adapter.state_api ≡ some api) where
      post_if_new-Quiet :
          (count : ℕ) (values : List ℕ) (local : ℕ) (on_chain : Option ℕ) (s t : World W)
          → Quiet s t
          → Ends (IfOk (λ a u. Quiet s u)) (post_if_new cfg api count values local on_chain t)
      unfolding post_if_new
      post_if_new-Quiet count values local on_chain s t q =
          elim (Bool-cases (same_root local on_chain)) [
            | inl same ↦ rw same q
            | inr differs ↦ rw differs (
                call-then (λ a u. Quiet s u) (api.post_state_root _ _) _ t
                  (honest.post_state_keeps api has _ _) (λ a u p. Quiet-trans s t u q p))
          ]

      publish_state-Quiet :
          (count : ℕ) (leaves : List (Option ℕ)) (s : World W)
          → Ends (IfOk (λ a t. Quiet s t)) (publish_state_root cfg api count leaves s)
      unfolding publish_state_root
      publish_state-Quiet count leaves s = elim (Bool-cases (count == 0 && is_nil leaves)) [
        | inl empty ↦ rw empty (refl, refl)
        | inr some_leaf ↦ rw some_leaf (
            lift-IfOk (λ a t. Quiet s t) (leaf_values leaves) _ s
              λ values _.
                lift-IfOk (λ a t. Quiet s t) (insert_all values []) _ s
                  λ tree _.
                    call-then (λ a t. Quiet s t) api.current_state_root _ s
                      (honest.state_root_keeps api has)
                      (λ on_chain t q.
                        post_if_new-Quiet (length leaves) values (root cfg.poseidon tree tree_depth)
                          on_chain s t q))
      ]

      state_tree_with-Quiet :
          (st : PoolState) (s : World W)
          → Ends
              (IfOk (λ a t.
                Quiet s t
                × (a.0.pool_id ≡ st.pool_id)
                × (a.0.approved_indices ≡ st.approved_indices)))
              (state_tree_with cfg st api s)
      unfolding state_tree_with
      state_tree_with-Quiet st s =
          call-then _ (api.read_state_leaves st.state_event_cursor) _ s
            (honest.leaves_keep api has st.state_event_cursor)
            λ snapshot t q.
              bind-IfOk _ (λ a u. Quiet t u) (publish_state_root cfg api snapshot.event_count _) _ t
                (publish_state-Quiet snapshot.event_count _ t)
                (λ tree u p. unfold absorb in (Quiet-trans s t u q p, refl, refl))

    state_tree-Quiet :
        (st : PoolState) (s : World W)
        → Ends
            (IfOk (λ a t.
              Quiet s t
              × (a.0.pool_id ≡ st.pool_id)
              × (a.0.approved_indices ≡ st.approved_indices)))
            (state_tree_step cfg st s)
    unfolding state_tree_step
    state_tree-Quiet st s = elim (Option-cases cfg.adapter.state_api) [
      | inl e ↦ rw (e, state_tree_step) ((refl, refl), refl, refl)
      | inr (api, e) ↦ rw (e, state_tree_step) (state_tree_with-Quiet api e st s)
    ]

    written_same :
        (m : SetManifest) (s : World W)
        → ((write_manifest cfg m s).store ≡ s.store) × ((write_manifest cfg m s).chain ≡ s.chain)
    unfolding write_manifest
    written_same m s = ground arith

    noted_same :
        (r l : ℕ) (s : World W)
        → ((note_publication cfg r l s).store ≡ s.store)
          × ((note_publication cfg r l s).chain ≡ s.chain)
    unfolding note_publication
    noted_same r l s = ground arith

    post-outcome :
        (r h : ℕ) (s : World W)
        → Ends
            (IfOk (λ u t. (t.store ≡ s.store) × (view t.chain ≡ some r)))
            (call (cfg.adapter.post_asp_root r h) s)
    post-outcome r h s =
        IfOk-map (λ u w'. view w' ≡ some r) _ (cfg.adapter.post_asp_root r h s.chain).0
          (cfg.adapter.post_asp_root r h s.chain).1
          (record s { chain = (cfg.adapter.post_asp_root r h s.chain).1 }) (λ u e. (refl, e))
          (honest.post_root r h s.chain)

    publish-outcome :
        (aset : AssociationSet) (st : PoolState) (on_chain : Option ℕ) (s : World W)
        → Ends
            (IfOk (λ b t.
              (t.store ≡ s.store)
              × (((b ≡ true) × (view t.chain ≡ some (root_of cfg.poseidon aset)))
                  ⊎ (b ≡ false)
                    × (view t.chain ≡ view s.chain)
                    × ((is_nil aset.labels || same_root (root_of cfg.poseidon aset) on_chain)
                        ≡ true))))
            (publish cfg aset st on_chain s)
    unfolding publish
    publish-outcome aset st on_chain s =
        elim (Bool-cases (is_nil aset.labels || same_root (root_of cfg.poseidon aset) on_chain)) [
          | inl same ↦ rw same (refl, inr (refl, refl, refl))
          | inr differs ↦ rw differs (
              bind-IfOk _
                (λ u t. (t.store ≡ s.store) × (view t.chain ≡ some (root_of cfg.poseidon aset)))
                (call (cfg.adapter.post_asp_root (root_of cfg.poseidon aset) _)) _
                (write_manifest cfg (manifest cfg.poseidon aset cfg.pool_id cfg.now) s)
                (subst
                  (λ (st' : List (Text × PoolState)).
                    Ends
                      (IfOk (λ u t.
                        (t.store ≡ st') × (view t.chain ≡ some (root_of cfg.poseidon aset))))
                      (call (cfg.adapter.post_asp_root (root_of cfg.poseidon aset) _)
                        (write_manifest cfg (manifest cfg.poseidon aset cfg.pool_id cfg.now) s)))
                  (written_same (manifest cfg.poseidon aset cfg.pool_id cfg.now) s).0
                  (post-outcome _ _
                    (write_manifest cfg (manifest cfg.poseidon aset cfg.pool_id cfg.now) s)))
                λ u t (e, v).
                  let (same, still) = noted_same (root_of cfg.poseidon aset) st.last_ledger t in
                  (same ∙ e, inl (refl, ap view still ∙ v)))
        ]

    -- The state that the store holds for the pool, and the root over its approved indices.
    abbrev pub Stored : ℕ → World W → Type 0
    Stored local t =
        (st : PoolState) × (get cfg.pool_id t.store ≡ some st)
        × (local
            ≡ root cfg.poseidon (map (compute_label cfg.poseidon cfg.scope) st.approved_indices)
                tree_depth)
        × ((st.approved_indices ≡ []) ⊎ (view t.chain ≡ some local))

    read-outcome :
        (s : World W)
        → Ends (IfOk (λ r t. (r ≡ view s.chain) × Quiet s t)) (call cfg.adapter.current_asp_root s)
    read-outcome s =
        IfOk-map (λ r w'. (r ≡ view s.chain) × (view w' ≡ view s.chain)) _
          (cfg.adapter.current_asp_root s.chain).0 (cfg.adapter.current_asp_root s.chain).1
          (record s { chain = (cfg.adapter.current_asp_root s.chain).1 })
          (λ r e. (e.0, (e.1, refl))) (honest.read_root s.chain)

    -- What the step of publication leaves: nothing to publish, or the local root on the chain.
    published-root :
        (aset : AssociationSet) (b : Bool) (on_chain : Option ℕ) (s t : World W)
        → on_chain ≡ view s.chain
        → ((b ≡ true) × (view t.chain ≡ some (root_of cfg.poseidon aset)))
          ⊎ (b ≡ false)
            × (view t.chain ≡ view s.chain)
            × ((is_nil aset.labels || same_root (root_of cfg.poseidon aset) on_chain) ≡ true)
        → (aset.labels ≡ []) ⊎ (view t.chain ≡ some (root_of cfg.poseidon aset))
    published-root aset b on_chain s t o (inl (_, e)) = inr e
    published-root aset b on_chain s t o (inr (_, e, h)) =
        elim (or-split (is_nil aset.labels) _ h) [
          | inl n ↦ inl (is_nil→eq aset.labels n)
          | inr m ↦ inr (e ∙ sym o ∙ same_root→eq (root_of cfg.poseidon aset) on_chain m)
        ]

    saved-Stored :
        (aset : AssociationSet) (st : PoolState) (t : World W)
        → st.pool_id ≡ cfg.pool_id
        → aset.labels ≡ map (compute_label cfg.poseidon cfg.scope) st.approved_indices
        → (aset.labels ≡ []) ⊎ (view t.chain ≡ some (root_of cfg.poseidon aset))
        → Stored (root_of cfg.poseidon aset) (record t { store = set st.pool_id st t.store })
    unfolding root_of
    saved-Stored aset st t k l r = (
      st,
      rw (← k) (get-set_self st.pool_id st t.store),
      ap (λ (ls : List ℕ). root cfg.poseidon ls tree_depth) l,
      elim r [
        | inl e ↦
            inl (map-nil (compute_label cfg.poseidon cfg.scope) st.approved_indices (sym l ∙ e))
        | inr e ↦ inr e
      ],
    )

    finish-Stored :
        (a : Screening) (aset : AssociationSet) (s : World W)
        → a.state.pool_id ≡ cfg.pool_id
        → aset.labels ≡ map (compute_label cfg.poseidon cfg.scope) a.state.approved_indices
        → Ends
            (IfOk (λ r t. (r.halted_for_reorg ≡ false) × Stored r.local_root t))
            (finish cfg a aset s)
    unfolding finish save_state result_of
    finish-Stored a aset s k l =
        bind-IfOk _ (λ r t. (r ≡ view s.chain) × Quiet s t) (call cfg.adapter.current_asp_root) _ s
          (read-outcome s)
          λ on_chain t (o, q).
            bind-IfOk _ _ (publish cfg aset a.state on_chain) _ t
              (publish-outcome aset a.state on_chain t)
              λ b u (e, p).
                bind-IfOk _ _ (state_tree_step cfg a.state) _ u (state_tree-Quiet a.state u)
                  λ (st, tree) v (r, k', l'). (
                    refl,
                    saved-Stored aset st v (k' ∙ k)
                        (l ∙ ap (map (compute_label cfg.poseidon cfg.scope)) (sym l'))
                        (later v u r (published-root aset b on_chain t u (o ∙ sym q.0) p)),
                  )
      where
        later :
            (v u : World W)
            → Quiet u v
            → (aset.labels ≡ []) ⊎ (view u.chain ≡ some (root_of cfg.poseidon aset))
            → (aset.labels ≡ []) ⊎ (view v.chain ≡ some (root_of cfg.poseidon aset))
        later v u r (inl e) = inl e
        later v u r (inr e) = inr (r.0 ∙ e)

    halt-Quiet :
        (a : Screening) (local : ℕ) (s : World W)
        → Ends
            (IfOk (λ r t. (r.halted_for_reorg ≡ true) × (view t.chain ≡ view s.chain)))
            (halt cfg a local s)
    unfolding halt save_state result_of
    halt-Quiet a local s =
        bind-IfOk _ _ (call cfg.adapter.current_asp_root) _ (save_state a.state s).1
          (read-outcome (save_state a.state s).1) λ r t (_, q). (refl, q.0)

    -- The store keeps the pool's state under the state's own name.
    abbrev pub IsKeyed : World W → Type 0
    IsKeyed s = (st : PoolState) → get cfg.pool_id s.store ≡ some st → st.pool_id ≡ cfg.pool_id

    load-pool_id : (s : World W) → IsKeyed s → (load_state cfg s).pool_id ≡ cfg.pool_id
    unfolding load_state init_state
    load-pool_id s k = elim (Option-cases (get cfg.pool_id s.store)) [
      | inl e ↦ rw (e, load_state) refl
      | inr (st, e) ↦ rw (e, load_state) (k st e)
    ]

    -- A tick that returns has either halted at the reorg guard and left the published root alone, or
    -- the stored state is the one whose root it reports: the root of the tree over the labels of the
    -- approved indices, in their order, and unless nothing is approved yet, that root is the published
    -- one. So a tick repairs whatever an earlier crash left on the chain.
    pub run_pool_tick-reconciles :
        (s : World W)
        → IsKeyed s
        → Ends
            (IfOk (λ r t.
              ((r.halted_for_reorg ≡ true) × (view t.chain ≡ view s.chain))
              ⊎ (r.halted_for_reorg ≡ false) × Stored r.local_root t))
            (run_pool_tick cfg s)
    unfolding run_pool_tick
    run_pool_tick-reconciles s keyed =
        bind-IfOk _ (λ ds t. Quiet s t) (call (cfg.adapter.read_deposits _ _)) _ s
          (call-Quiet (cfg.adapter.read_deposits _ _) s (honest.deposits_keep _ _))
          λ read t q.
            bind-IfOk _ (λ ds u. Quiet t u) (confirmed_deposits cfg.adapter read cfg.confirmations)
              _ t (confirmed-Quiet read t)
              λ ds u p.
                lift-IfOk _
                  (add_all cfg.poseidon (after ds).state.approved_indices (create cfg.scope)) _ u
                  λ aset e.
                    bind-IfOk _ (λ h v. Quiet u v) (reorg_check (after ds).state.last_ledger ds) _ u
                      (IfOk-const (Quiet u) (reorg_check (after ds).state.last_ledger ds u).0
                        (reorg_check (after ds).state.last_ledger ds u).1
                        (reorg-Quiet (after ds).state.last_ledger ds u))
                      λ h v r.
                        after_guard (after ds) aset v h (r.0 ∙ p.0 ∙ q.0)
                          ((screen-append cfg.screener cfg.now ds (load_state cfg s)).3
                            ∙ load-pool_id s keyed)
                          (add_all-labels cfg.poseidon cfg.scope (after ds).state.approved_indices
                            aset e)
      where
        after : List Deposit → Screening
        after ds = screen cfg.screener cfg.now ds (load_state cfg s)

        after_guard :
            (a : Screening) (aset : AssociationSet) (v : World W) (h : Bool)
            → view v.chain ≡ view s.chain
            → a.state.pool_id ≡ cfg.pool_id
            → aset.labels ≡ map (compute_label cfg.poseidon cfg.scope) a.state.approved_indices
            → Ends
                (IfOk (λ r t.
                  ((r.halted_for_reorg ≡ true) × (view t.chain ≡ view s.chain))
                  ⊎ (r.halted_for_reorg ≡ false) × Stored r.local_root t))
                ((if h then halt cfg a (root_of cfg.poseidon aset) else finish cfg a aset) v)
        after_guard a aset v true e k l =
            IfOk-map _ _ (halt cfg a (root_of cfg.poseidon aset) v).0
              (halt cfg a (root_of cfg.poseidon aset) v).1
              (halt cfg a (root_of cfg.poseidon aset) v).1 (λ r (f, g). inl (f, g ∙ e))
              (halt-Quiet a (root_of cfg.poseidon aset) v)
        after_guard a aset v false e k l =
            IfOk-map _ _ (finish cfg a aset v).0 (finish cfg a aset v).1 (finish cfg a aset v).1
              (λ r f. inr f) (finish-Stored a aset v k l)
