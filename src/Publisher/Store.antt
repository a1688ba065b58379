-- ===== src/Publisher/Store.antt =====
-- MemoryStore of publisher/src/store.ts. `validate` stands for validateLeafCommitment on a stored
-- leaf (Validate has it on raw objects), which gives the errors of a bad one.
pub mod Laws
use opauque_stellar.Base.{
  ℕ, ◌+◌, ◌≡◌, Text, Bool, true, false, not, Option, none, some, List, [], ◌∷◌, ◌++◌, length, keep,
  any, leb, same, if◌then◌else◌,
}
use opauque_stellar.Base.Exec.{Result, ok, err}
use opauque_stellar.Publisher.Types.{LeafCommitment, PublisherState}

pub record QuarantinedFile : Type 0 where
  pub filename : Text
  pub errors : List Text
  pub quarantined_at : Text

pub record MemoryStore : Type 0 where
  pub state : Option PublisherState
  pub max_inbox_size : ℕ
  pub inbox : List LeafCommitment
  pub archived : List Text
  pub quarantined : List QuarantinedFile

abbrev pub default_max_inbox_size : ℕ
default_max_inbox_size = 10000

unfoldable pub new_store : Option ℕ → MemoryStore
new_store max = record {
  state = none;
  max_inbox_size = elim max [ none ↦ default_max_inbox_size | some n ↦ n ];
  inbox = [];
  archived = [];
  quarantined = [];
}

unfoldable pub save : PublisherState → MemoryStore → MemoryStore
save p s = record s { state = some p }

unfoldable pub inbox_size : MemoryStore → ℕ
inbox_size s = length s.inbox

unfoldable pub quarantine_file : Text → List Text → Text → MemoryStore → MemoryStore
quarantine_file name errors at s = record s {
  quarantined =
      s.quarantined ++ record { filename = name; errors = errors; quarantined_at = at } ∷ [];
}

-- What one item of the inbox does: a valid one is kept in its canonical form.
abbrev read_item :
    Text
    → LeafCommitment
    → Result (List Text) LeafCommitment
    → List LeafCommitment × MemoryStore
    → List LeafCommitment × MemoryStore
read_item now item (ok c) (valid, s) = (valid ++ c ∷ [], s)
read_item now item (err errors) (valid, s) = (valid, quarantine_file item.id errors now s)

abbrev read_items :
    (LeafCommitment → Result (List Text) LeafCommitment)
    → Text
    → List LeafCommitment
    → List LeafCommitment × MemoryStore
    → List LeafCommitment × MemoryStore
read_items validate now [] r = r
read_items validate now (l ∷ ls) r = read_items validate now ls (read_item now l (validate l) r)

unfoldable pub read_inbox :
    (LeafCommitment → Result (List Text) LeafCommitment)
    → Text
    → MemoryStore
    → List LeafCommitment × MemoryStore
unfolding quarantine_file
read_inbox validate now s =
    let r = read_items validate now s.inbox ([], s) in (r.0, record r.1 { inbox = r.0 })

-- The answer is false when the inbox is full.
unfoldable pub write_inbox : LeafCommitment → MemoryStore → Bool × MemoryStore
write_inbox l s =
    if leb s.max_inbox_size (length s.inbox)
    then (false, s)
    else (true, record s { inbox = s.inbox ++ l ∷ [] })

-- ids.includes(id)
unfoldable pub includes : List Text → Text → Bool
includes ids t = any (λ u. same u t) ids

unfoldable pub archive_inbox : List Text → MemoryStore → MemoryStore
unfolding includes
archive_inbox ids s = record s {
  archived = s.archived ++ ids;
  inbox = keep (λ l. not (includes ids l.id)) s.inbox;
}
