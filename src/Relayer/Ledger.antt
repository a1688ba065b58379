-- ===== src/Relayer/Ledger.antt =====
-- JobLedger of relayer/src/reconciler.ts over MemoryLedgerStore of store.ts, whose calls do not
-- fail. `store` is absent for a ledger with no store; one never saved to holds `none`.
use opauque_stellar.Base.{
  Text, Bool, true, Option, none, some, List, [], ◌∷◌, if◌then◌else◌, to_lower,
}
use opauque_stellar.Base.Dict.{set, delete, values}
use opauque_stellar.Relayer.Types.{JobLedgerEntry}

pub record JobLedger : Type 0 where
  pub entries : List (Text × JobLedgerEntry)
  pub loaded : Bool
  pub store : Option (Option (List JobLedgerEntry))

abbrev pub all : JobLedger → List JobLedgerEntry
all l = values l.entries

abbrev saved_by :
    JobLedger → Option (Option (List JobLedgerEntry)) → Option (Option (List JobLedgerEntry))
saved_by l none = none
saved_by l (some old) = some (some (all l))

abbrev pub persist_ledger : JobLedger → JobLedger
persist_ledger l = record l { store = saved_by l l.store }

unfoldable pub record_entry : JobLedgerEntry → JobLedger → JobLedger
record_entry e l = persist_ledger (record l { entries = set (to_lower e.job_id) e l.entries })

unfoldable pub remove : Text → JobLedger → JobLedger
remove job_id l = persist_ledger (record l { entries = delete (to_lower job_id) l.entries })

abbrev set_all : List JobLedgerEntry → List (Text × JobLedgerEntry) → List (Text × JobLedgerEntry)
set_all [] m = m
set_all (e ∷ es) m = set_all es (set (to_lower e.job_id) e m)

abbrev hydrate_from : Option (Option (List JobLedgerEntry)) → JobLedger → JobLedger
hydrate_from none l = l
hydrate_from (some none) l = record l { loaded = true }
hydrate_from (some (some es)) l = record l { loaded = true; entries = set_all es l.entries }

unfoldable pub hydrate_ledger : JobLedger → JobLedger
hydrate_ledger l = if l.loaded then l else hydrate_from l.store l
