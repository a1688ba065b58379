-- ===== src/Publisher/Tick/Laws.antt =====
-- What a publisher tick leaves in the store and on the chain.
use opauque_stellar.Base.{
  ℕ, ◌≡◌, ◌⊎◌, inl, inr, refl, sym, ap, subst, ◌∙◌, Text, Bool, true, false, not, ◌&&◌, Option,
  none, some, List, [], ◌∷◌, length, All, arith, ltb, Bool-cases,
}
use opauque_stellar.Base.Exec.{ok, Exec, IfOk, Ends, bind-IfOk, IfOk-map, lift-IfOk}
use opauque_stellar.Publisher.Types.{LeafCommitment, PublisherState, OnChainAttestation}
use opauque_stellar.Publisher.Merge.{Merged, merge_leaves}
use opauque_stellar.Publisher.Merge.Laws.{
  IsInjective, merge_leaves-appends, merge_leaves-All, Without, none_left, kept, dropped,
  Without-IsInjective,
}
use opauque_stellar.Publisher.Store.{MemoryStore, save, read_inbox, archive_inbox}
use opauque_stellar.Publisher.Tick.{
  Error, ChainAdapter, PublisherTickConfig, World, PublisherTickResult, is_active, call,
  is_valid_leaf, valid_leaves, load_state, take_inbox, count_merge, settle_store, note_post,
  write_root_manifest, skip, same_root, post_if_new, publish_merged, run_publisher_tick, result_of,
  cons_if, leaf_texts, min_leaves,
}

same_root→eq : (r : ℕ) (q : Option ℕ) → same_root r q ≡ true → q ≡ some r
unfolding same_root
same_root→eq r none h = cc
same_root→eq r (some q) h = ground arith

module _ {W : Type 0} (root : W → Option ℕ) (attested : W → Text → Option OnChainAttestation)
    (height : W → ℕ) where
  -- The calls of the adapter: reading a root, an attestation or the height gives that of the chain
  -- and changes none of them; posting a root makes it the root and leaves the attestations alone.
  abbrev pub Still : W → W → Type 0
  Still w w' = (root w' ≡ root w) × (attested w' ≡ attested w)

  pub record IsFaithful (adapter : ChainAdapter W) : Type 0 where
    pub reads_root :
        (w : W) → Ends (IfOk (λ r w'. (r ≡ root w) × Still w w')) (adapter.current_root w)
    pub reads_height :
        (w : W) → Ends (IfOk (λ h w'. (h ≡ height w) × Still w w')) (adapter.current_ledger w)
    pub reads_attestation :
        (uid : Text) (w : W)
        → Ends (IfOk (λ a w'. (a ≡ attested w uid) × Still w w')) (adapter.get_attestation uid w)
    pub posts_root :
        (r h : ℕ) (w : W)
        → Ends
            (IfOk (λ p w'. (root w' ≡ some r) × (attested w' ≡ attested w)))
            (adapter.post_root r h w)

  module _ (cfg : PublisherTickConfig W) (faithful : IsFaithful cfg.adapter) where
    -- A leaf whose attestation, as the chain has it, is there, not revoked, not expired at the height,
    -- of the leaf's schema, and signed for by its holder.
    abbrev pub IsActive : W → ℕ → LeafCommitment → Type 0
    IsActive w h l = is_active cfg.verify_holder h l (attested w l.attestation_uid) ≡ true

    -- Neither the chain's facts nor the store change.
    abbrev Quiet : World W → World W → Type 0
    Quiet s t = Still s.chain t.chain × (t.store ≡ s.store)

    Quiet-trans : (s t u : World W) → Quiet s t → Quiet t u → Quiet s u
    Quiet-trans s t u p q = ((q.0.0 ∙ p.0.0, q.0.1 ∙ p.0.1), q.1 ∙ p.1)

    call-Quiet :
        {A : Type 0} (P : A → Type 0) (m : Exec Error W A) (s : World W)
        → Ends (IfOk (λ a w'. P a × Still s.chain w')) (m s.chain)
        → Ends (IfOk (λ a t. P a × Quiet s t)) (call m s)
    call-Quiet P m s h =
        IfOk-map (λ a w'. P a × Still s.chain w') _ (m s.chain).0 (m s.chain).1
          (record s { chain = (m s.chain).1 }) (λ a e. (e.0, (e.1, refl))) h

    valid_leaf :
        (h : ℕ) (l : LeafCommitment) (s : World W)
        → Ends
            (IfOk (λ b t.
              (b ≡ is_active cfg.verify_holder h l (attested s.chain l.attestation_uid))
              × Quiet s t))
            (is_valid_leaf cfg h l s)
    unfolding is_valid_leaf
    valid_leaf h l s =
        bind-IfOk _ _ (call (cfg.adapter.get_attestation l.attestation_uid)) _ s
          (call-Quiet (λ a. a ≡ attested s.chain l.attestation_uid)
            (cfg.adapter.get_attestation l.attestation_uid) s
            (faithful.reads_attestation l.attestation_uid s.chain))
          λ a t (e, q). (ap (is_active cfg.verify_holder h l) e, q)

    -- Who is active depends on the chain only through its attestations.
    All-moved :
        (w w' : W) (h : ℕ) (ls : List LeafCommitment)
        → attested w' ≡ attested w
        → All (IsActive w' h) ls
        → All (IsActive w h) ls
    All-moved w w' h ls e =
        subst
          (λ (f : Text → Option OnChainAttestation).
            All (λ x. is_active cfg.verify_holder h x (f x.attestation_uid) ≡ true) ls)
          e

    cons_if-outcome :
        (b : Bool) (w : W) (h : ℕ) (l : LeafCommitment) (ls rest : List LeafCommitment)
        → b ≡ is_active cfg.verify_holder h l (attested w l.attestation_uid)
        → All (IsActive w h) rest
        → Without rest ls
        → All (IsActive w h) (cons_if b l rest) × Without (cons_if b l rest) (l ∷ ls)
    cons_if-outcome true w h l ls rest e a o = ((sym e, a), kept l o)
    cons_if-outcome false w h l ls rest e a o = (a, dropped l o)

    valid_leaves-outcome :
        (h : ℕ) (ls : List LeafCommitment) (s : World W)
        → Ends
            (IfOk (λ out t. (All (IsActive s.chain h) out × Without out ls) × Quiet s t))
            (valid_leaves cfg h ls s)
    unfolding valid_leaves
    valid_leaves-outcome h [] s = ((tt, none_left), ((refl, refl), refl))
    valid_leaves-outcome h (l ∷ ls) s =
        bind-IfOk _ _ (is_valid_leaf cfg h l) _ s (valid_leaf h l s) λ b t (e, q).
          bind-IfOk _ _ (valid_leaves cfg h ls) _ t (valid_leaves-outcome h ls t)
            λ rest u ((a, o), r). (
              cons_if-outcome b s.chain h l ls rest e (All-moved s.chain t.chain h rest q.0.1 a) o,
              Quiet-trans s t u q r,
            )

    -- The end of a tick: the stored leaves are active and injective, and the published root is either
    -- as before, with too few leaves, or that of the stored leaves.
    abbrev pub Published : ℕ → World W → PublisherTickResult → World W → Type 0
    Published h s r t =
        (st : PublisherState) × (t.store.state ≡ some st)
        × All (IsActive s.chain h) st.leaves
        × IsInjective st.leaves
        × (((r.local_root ≡ none) × (root t.chain ≡ root s.chain))
            ⊎ (local : ℕ) × (cfg.build_root (leaf_texts st.leaves) ≡ ok local)
              × (r.local_root ≡ some local)
              × (root t.chain ≡ some local))

    settled :
        (p : PublisherState) (processed : List Text) (s : World W)
        → ((settle_store p processed s).store.state ≡ some p)
          × ((settle_store p processed s).chain ≡ s.chain)
    unfolding settle_store archive_inbox save
    settled p processed s = (refl, refl)

    read-root :
        (s : World W)
        → Ends (IfOk (λ r t. (r ≡ root s.chain) × Quiet s t)) (call cfg.adapter.current_root s)
    read-root s =
        call-Quiet (λ r. r ≡ root s.chain) cfg.adapter.current_root s (faithful.reads_root s.chain)

    module _ (h : ℕ) (s : World W) (state : PublisherState) (merged : Merged)
        (processed : List Text) (active : All (IsActive s.chain h) merged.leaves)
        (injective : IsInjective merged.leaves) where
      skip-Published :
          (t : World W)
          → root t.chain ≡ root s.chain
          → Ends (IfOk (Published h s)) (skip cfg state merged processed t)
      unfolding skip settle_store archive_inbox save
      skip-Published t e =
          bind-IfOk _ _ (call cfg.adapter.current_root) _ (settle_store _ processed t) (read-root _)
            λ r u (_, q).
              (_, ap (λ (m : MemoryStore). m.state) q.1, active, injective, inl (refl, q.0.0 ∙ e))

      posted :
          (r hash : ℕ) (t : World W)
          → Ends (IfOk (λ p u. root u.chain ≡ some r)) (call (cfg.adapter.post_root r hash) t)
      posted r hash t =
          IfOk-map (λ p w'. (root w' ≡ some r) × (attested w' ≡ attested t.chain)) _
            (cfg.adapter.post_root r hash t.chain).0 (cfg.adapter.post_root r hash t.chain).1
            (record t { chain = (cfg.adapter.post_root r hash t.chain).1 }) (λ p e. e.0)
            (faithful.posts_root r hash t.chain)

      post-Published :
          (local : ℕ) (on_chain : Option ℕ) (t : World W)
          → cfg.build_root (leaf_texts merged.leaves) ≡ ok local
          → on_chain ≡ root t.chain
          → Ends (IfOk (Published h s)) (post_if_new cfg state merged processed local on_chain t)
      unfolding post_if_new settle_store archive_inbox save note_post result_of
      post-Published local on_chain t b e = elim (Bool-cases (same_root local on_chain)) [
        | inl same_now ↦ rw same_now (
          _,
          refl,
          active,
          injective,
          inr (local, b, refl, sym e ∙ same_root→eq local on_chain same_now),
        )
        | inr differs ↦ rw differs (
            bind-IfOk _ _ (call (cfg.adapter.post_root local _)) _
              (write_root_manifest cfg local _ t)
              (posted local _ (write_root_manifest cfg local _ t))
              λ p u f. (_, refl, active, injective, inr (local, b, refl, f)))
      ]

      publish_merged-Published :
          (pruned : Bool) (t : World W)
          → root t.chain ≡ root s.chain
          → Ends (IfOk (Published h s)) (publish_merged cfg state merged pruned processed t)
      unfolding publish_merged
      publish_merged-Published pruned t e =
          elim (Bool-cases (ltb (length merged.leaves) (min_leaves cfg) && not pruned)) [
            | inl few ↦ rw few (skip-Published t e)
            | inr enough ↦ rw enough (
                lift-IfOk _ (cfg.build_root (leaf_texts merged.leaves)) _ t λ local b.
                  bind-IfOk _ _ (call cfg.adapter.current_root) _ t (read-root t)
                    λ on_chain u (o, q). post-Published local on_chain u b (o ∙ sym q.0.0))
          ]

    merged_leaves :
        (w : W) (h : ℕ) (old active eligible : List LeafCommitment)
        → IsInjective old
        → Without active old
        → All (IsActive w h) active
        → All (IsActive w h) eligible
        → All (IsActive w h) (merge_leaves active eligible).leaves
          × IsInjective (merge_leaves active eligible).leaves
    merged_leaves w h old active eligible v o a b = (
      merge_leaves-All (IsActive w h) active eligible a b,
      (merge_leaves-appends active eligible (Without-IsInjective o v)).0,
    )

    -- The last part of a tick, after two passes over the attestations.
    finish :
        (s t u x : World W) (g : ℕ) (active eligible : List LeafCommitment) (processed : List Text)
        → IsInjective (load_state cfg s).leaves
        → Without active (load_state cfg s).leaves
        → g ≡ height s.chain
        → Still s.chain t.chain
        → Still t.chain u.chain
        → Still u.chain x.chain
        → All (IsActive t.chain g) active
        → All (IsActive u.chain g) eligible
        → (pruned : Bool)
        → Ends (IfOk (Published (height s.chain) s)) (
            publish_merged cfg
              (load_state cfg s)
              (merge_leaves active eligible)
              pruned
              processed
              (count_merge (merge_leaves active eligible) x))
    unfolding count_merge
    finish s t u x g active eligible processed v o e q r p a b pruned =
        let a' = All-moved s.chain t.chain g active q.1 a in
        let b' = All-moved s.chain u.chain g eligible (r.1 ∙ q.1) b in
        let both = merged_leaves s.chain g (load_state cfg s).leaves active eligible v o a' b' in
        publish_merged-Published (height s.chain) s (load_state cfg s)
          (merge_leaves active eligible) processed
          (subst (λ h. All (IsActive s.chain h) (merge_leaves active eligible).leaves) e both.0)
          both.1 pruned (count_merge (merge_leaves active eligible) x) (p.0 ∙ r.0 ∙ q.0)

    -- After a tick that returns, every stored leaf has an attestation that the chain shows as neither
    -- revoked nor expired at the height that was read, of the leaf's schema and signed for by its
    -- holder; no id and no leaf value is stored twice; and the published root is that of the stored
    -- leaves, or as before when the tick reports no local root.
    pub run_publisher_tick-Published :
        (s : World W)
        → IsInjective (load_state cfg s).leaves
        → Ends (IfOk (Published (height s.chain) s)) (run_publisher_tick cfg s)
    unfolding run_publisher_tick take_inbox
    run_publisher_tick-Published s v =
        bind-IfOk _ _ (call cfg.adapter.current_ledger) _ (take_inbox cfg s).1
          (call-Quiet (λ g. g ≡ height s.chain) cfg.adapter.current_ledger (take_inbox cfg s).1
            (faithful.reads_height s.chain))
          λ g t (e, q).
            bind-IfOk _ _ (valid_leaves cfg g (load_state cfg s).leaves) _ t
              (valid_leaves-outcome g (load_state cfg s).leaves t)
              λ active u ((a, o), r).
                bind-IfOk _ _ (valid_leaves cfg g (read_inbox cfg.validate cfg.now s.store).0) _ u
                  (valid_leaves-outcome g (read_inbox cfg.validate cfg.now s.store).0 u)
                  λ eligible x ((b, _), p).
                    finish s t u x g active eligible _ v o e q.0 r.0 p.0 a b _
