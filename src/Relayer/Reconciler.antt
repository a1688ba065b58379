-- ===== src/Relayer/Reconciler.antt =====
-- PayoutReconciler of relayer/src/reconciler.ts. A result leaves out its free-text detail; `get_job`
-- is the adapter's, on a chain state `W`.
pub mod Laws
use opauque_stellar.Base.{
  ℕ, ◌+◌, Text, Bool, true, false, ◌&&◌, not, Option, none, some, List, [], ◌∷◌, ◌++◌, map, length,
  keep, ◌==◌, min, max, if◌then◌else◌, to_lower,
}
use opauque_stellar.Base.Exec.{Result, ok, err, Exec}
use opauque_stellar.Relayer.Types.{JobStatus, OnChainJob, JobLedgerEntry}
use opauque_stellar.Relayer.Ledger.{JobLedger, all, remove, hydrate_ledger}

pub data Outcome : Type 0 where
  clean discrepancy not_found : Outcome

-- What is known of the job's status: nothing on-chain, an error, or a status.
pub data OnChainStatus : Type 0 where
  null unknown : OnChainStatus
  status : JobStatus → OnChainStatus

pub record JobReconciliationResult : Type 0 where
  pub job_id : Text
  pub outcome : Outcome
  pub expected_fee : ℕ
  pub on_chain_fee : Option ℕ
  pub on_chain_status : OnChainStatus
  pub submitted_tx : Text

pub data Summary : Type 0 where
  all_clean discrepancies_found : Summary

pub record ReconciliationReport : Type 0 where
  pub run_at : ℕ
  pub covered_range : Option (ℕ × ℕ)
  pub total_checked : ℕ
  pub clean_count : ℕ
  pub discrepancy_count : ℕ
  pub not_found_count : ℕ
  pub summary : Summary
  pub discrepancies : List JobReconciliationResult

pub record PayoutReconciler (W : Type 0) : Type 0 where
  pub chain : W
  pub ledger : JobLedger
  pub last_report : Option ReconciliationReport
  pub run_count : ℕ

abbrev is_clean : JobReconciliationResult → Bool
is_clean r = elim r.outcome [ Outcome.clean ↦ true | _ ↦ false ]

abbrev is_discrepancy : JobReconciliationResult → Bool
is_discrepancy r = elim r.outcome [ Outcome.discrepancy ↦ true | _ ↦ false ]

abbrev pub is_not_found : JobReconciliationResult → Bool
is_not_found r = elim r.outcome [ Outcome.not_found ↦ true | _ ↦ false ]

abbrev was_submitted : JobStatus → Bool
was_submitted JobStatus.submitted = true
was_submitted _ = false

-- The entry against what the lookup gave: an error is no absence.
pub classify : JobLedgerEntry → Result Text (Option OnChainJob) → JobReconciliationResult
classify e (err message) = record {
  job_id = e.job_id;
  outcome = Outcome.discrepancy;
  expected_fee = e.expected_fee;
  on_chain_fee = none;
  on_chain_status = unknown;
  submitted_tx = e.submitted_tx;
}
classify e (ok none) = record {
  job_id = e.job_id;
  outcome = Outcome.not_found;
  expected_fee = e.expected_fee;
  on_chain_fee = none;
  on_chain_status = null;
  submitted_tx = e.submitted_tx;
}
classify e (ok (some j)) =
    if not j.exists
    then record {
      job_id = e.job_id;
      outcome = Outcome.not_found;
      expected_fee = e.expected_fee;
      on_chain_fee = none;
      on_chain_status = null;
      submitted_tx = e.submitted_tx;
    }
    else record {
      job_id = e.job_id;
      outcome =
          if j.fee == e.expected_fee && was_submitted j.status
          then Outcome.clean
          else Outcome.discrepancy;
      expected_fee = e.expected_fee;
      on_chain_fee = some j.fee;
      on_chain_status = status j.status;
      submitted_tx = e.submitted_tx;
    }

-- The least and the greatest time of submission.
abbrev range_from : ℕ → ℕ → List JobLedgerEntry → ℕ × ℕ
range_from lo hi [] = (lo, hi)
range_from lo hi (e ∷ es) = range_from (min lo e.submitted_at) (max hi e.submitted_at) es

pub covered : List JobLedgerEntry → Option (ℕ × ℕ)
covered [] = none
covered (e ∷ es) = some (range_from e.submitted_at e.submitted_at es)

abbrev summarise : List JobReconciliationResult → Summary
summarise [] = all_clean
summarise (r ∷ rs) = discrepancies_found

pub report_of : ℕ → List JobLedgerEntry → List JobReconciliationResult → ReconciliationReport
unfolding covered
report_of now entries results = record {
  run_at = now;
  covered_range = covered entries;
  total_checked = length entries;
  clean_count = length (keep is_clean results);
  discrepancy_count = length (keep is_discrepancy results);
  not_found_count = length (keep is_not_found results);
  summary = summarise (keep (λ r. not (is_clean r)) results);
  discrepancies = keep (λ r. not (is_clean r)) results;
}

abbrev is_null : OnChainStatus → Bool
is_null null = true
is_null _ = false

abbrev pub drop_if : Bool → Text → JobLedger → JobLedger
drop_if true job_id l = remove job_id l
drop_if false job_id l = l

-- The loop of verifyOnBoot over the report's discrepancies.
pub drop_stale : List JobReconciliationResult → JobLedger → JobLedger
drop_stale [] l = l
drop_stale (r ∷ rs) l =
    drop_stale rs (drop_if (is_not_found r && is_null r.on_chain_status) r.job_id l)

module _ {W : Type 0} (get_job : Text → Exec Text W (Option OnChainJob)) where
  -- The loop over the ledger's entries.
  pub check_all : List JobLedgerEntry → W → List JobReconciliationResult × W
  unfolding classify
  check_all [] w = ([], w)
  check_all (e ∷ es) w =
      let rest = check_all es (get_job e.job_id w).1 in
      (classify e (get_job e.job_id w).0 ∷ rest.0, rest.1)

  pub reconcile : ℕ → PayoutReconciler W → ReconciliationReport × PayoutReconciler W
  unfolding check_all report_of
  reconcile now s =
      let results = check_all (all s.ledger) s.chain in
      let report = report_of now (all s.ledger) results.0 in
      (
        report,
        record s { chain = results.1; last_report = some report; run_count = s.run_count + 1 },
      )

  pub verify_on_boot : ℕ → PayoutReconciler W → ReconciliationReport × PayoutReconciler W
  unfolding reconcile drop_stale
  verify_on_boot now s =
      let checked = reconcile now (record s { ledger = hydrate_ledger s.ledger }) in
      (checked.0, record checked.1 { ledger = drop_stale checked.0.discrepancies checked.1.ledger })
