-- ===== src/Relayer/Reconciler/Laws.antt =====
-- What a report counts, and what a check on boot removes.
use opauque_stellar.Base.{
  ℕ, ◌+◌, ◌≡◌, inl, inr, ◌∙◌, refl, sym, ap, Text, Bool, true, false, ◌&&◌, not, Option, none, some,
  List, [], ◌∷◌, length, keep, same, to_lower, Bool-cases, arith,
}
use opauque_stellar.Base.Dict.{get, get-delete}
use opauque_stellar.Base.Exec.{Result, ok, err, Exec}
use opauque_stellar.Relayer.Types.{OnChainJob, JobLedgerEntry}
use opauque_stellar.Relayer.Ledger.{JobLedger, all, remove, hydrate_ledger}
use opauque_stellar.Relayer.Reconciler.{
  JobReconciliationResult, PayoutReconciler, is_clean, is_discrepancy, is_not_found, is_null,
  classify, check_all, report_of, reconcile, drop_stale, drop_if, verify_on_boot,
}

-- A lookup that returned and found no job.
abbrev pub is_absent : Result Text (Option OnChainJob) → Bool
is_absent (ok none) = true
is_absent (ok (some j)) = not j.exists
is_absent (err e) = false

counts :
    (rs : List JobReconciliationResult)
    → length (keep is_clean rs) + length (keep is_discrepancy rs) + length (keep is_not_found rs)
      ≡ length rs
counts [] = refl
counts (r ∷ rs) = ground (arith, counts rs)

classify-absent :
    (e : JobLedgerEntry) (o : Result Text (Option OnChainJob))
    → is_not_found (classify e o) ≡ is_absent o
unfolding classify
classify-absent e (err x) = refl
classify-absent e (ok none) = refl
classify-absent e (ok (some j)) = ground arith

classify-job_id :
    (e : JobLedgerEntry) (o : Result Text (Option OnChainJob)) → (classify e o).job_id ≡ e.job_id
unfolding classify
classify-job_id e (err x) = refl
classify-job_id e (ok none) = refl
classify-job_id e (ok (some j)) = ground arith

-- No result about the key says that the job was not found.
abbrev NoneMissing : Text → List JobReconciliationResult → Type 0
NoneMissing k [] = Unit
NoneMissing k (r ∷ rs) =
    (same (to_lower r.job_id) k ≡ true → is_not_found r ≡ false) × NoneMissing k rs

NoneMissing-keep :
    (k : Text) (p : JobReconciliationResult → Bool) (rs : List JobReconciliationResult)
    → NoneMissing k rs
    → NoneMissing k (keep p rs)
NoneMissing-keep k p [] h = tt
NoneMissing-keep k p (r ∷ rs) h = ground (arith, NoneMissing-keep k p rs h.1)

drop_if-get :
    (k j : Text) (b : Bool) (l : JobLedger)
    → (b ≡ true → same (to_lower j) k ≡ false)
    → get k (drop_if b j l).entries ≡ get k l.entries
unfolding remove
drop_if-get k j true l h = rw (get-delete (to_lower j) k l.entries, h refl) refl
drop_if-get k j false l h = refl

not-same :
    (k : Text) (r : JobReconciliationResult)
    → (same (to_lower r.job_id) k ≡ true → is_not_found r ≡ false)
    → (is_not_found r && is_null r.on_chain_status) ≡ true
    → same (to_lower r.job_id) k ≡ false
not-same k r h b = elim (Bool-cases (same (to_lower r.job_id) k)) [
  | inl t ↦ ground (arith, h t)
  | inr f ↦ f
]

drop_stale-get :
    (k : Text) (rs : List JobReconciliationResult) (l : JobLedger)
    → NoneMissing k rs
    → get k (drop_stale rs l).entries ≡ get k l.entries
unfolding drop_stale
drop_stale-get k [] l h = refl
drop_stale-get k (r ∷ rs) l h =
    drop_stale-get k rs (drop_if (is_not_found r && is_null r.on_chain_status) r.job_id l) h.1
    ∙ drop_if-get k r.job_id (is_not_found r && is_null r.on_chain_status) l (not-same k r h.0)

module _ {W : Type 0} (get_job : Text → Exec Text W (Option OnChainJob)) where
  length-check_all :
      (es : List JobLedgerEntry) (w : W) → length (check_all get_job es w).0 ≡ length es
  unfolding check_all
  length-check_all [] w = refl
  length-check_all (e ∷ es) w = omega (arith, length-check_all es (get_job e.job_id w).1)

  -- Every entry of the ledger is counted in exactly one of a report's three counts.
  pub reconcile-counts :
      (now : ℕ) (s : PayoutReconciler W)
      → (reconcile get_job now s).0.clean_count
          + (reconcile get_job now s).0.discrepancy_count
          + (reconcile get_job now s).0.not_found_count
        ≡ (reconcile get_job now s).0.total_checked
  unfolding reconcile report_of
  reconcile-counts now s =
      counts (check_all get_job (all s.ledger) s.chain).0 ∙ length-check_all (all s.ledger) s.chain

  module _ (k : Text)
      (present : (j : Text) (w : W)
        → same (to_lower j) k ≡ true
        → is_absent (get_job j w).0 ≡ false) where
    check_all-NoneMissing :
        (es : List JobLedgerEntry) (w : W) → NoneMissing k (check_all get_job es w).0
    unfolding check_all
    check_all-NoneMissing [] w = tt
    check_all-NoneMissing (e ∷ es) w = (
      λ h.
          classify-absent e (get_job e.job_id w).0
          ∙ present e.job_id w
              (ap (λ j. same (to_lower j) k) (sym (classify-job_id e (get_job e.job_id w).0)) ∙ h),
      check_all-NoneMissing es (get_job e.job_id w).1,
    )

    -- A check on boot keeps the ledger's entry of a job, and adds none for it, if no lookup of the job
    -- returns that there is no such job: a lookup that throws removes nothing.
    pub verify_on_boot-keeps :
        (now : ℕ) (s : PayoutReconciler W)
        → get k (verify_on_boot get_job now s).1.ledger.entries
          ≡ get k (hydrate_ledger s.ledger).entries
    unfolding verify_on_boot reconcile report_of
    verify_on_boot-keeps now s = drop_stale-get k _ (hydrate_ledger s.ledger) (
        NoneMissing-keep k (λ r. not (is_clean r)) _
          (check_all-NoneMissing (all (hydrate_ledger s.ledger)) s.chain))
