-- ===== src/Publisher/Store/Laws.antt =====
-- The bound of the inbox.
use opauque_stellar.Base.{
  ◌≤◌, ◌≡◌, false, length, length-append, leb, inl, inr, ◌∷◌, [], Bool-cases, leb→le, not-leb→lt,
  arith,
}
use opauque_stellar.Publisher.Types.{LeafCommitment}
use opauque_stellar.Publisher.Store.{MemoryStore, write_inbox}

-- An inbox within its greatest size stays within it when a leaf is written, and the leaf is refused
-- only by an inbox of that size.
pub write_inbox-bound :
    (l : LeafCommitment) (s : MemoryStore)
    → length s.inbox ≤ s.max_inbox_size
    → (length (write_inbox l s).1.inbox ≤ s.max_inbox_size)
      × ((write_inbox l s).0 ≡ false → length s.inbox ≡ s.max_inbox_size)
unfolding write_inbox
write_inbox-bound l s h = elim (Bool-cases (leb s.max_inbox_size (length s.inbox))) [
  | inl e ↦ rw e (h, λ x. omega (arith, leb→le s.max_inbox_size (length s.inbox) e))
  | inr e ↦ rw e (
    omega (arith, length-append s.inbox (l ∷ []), not-leb→lt s.max_inbox_size (length s.inbox) e),
    λ x. absurd cc,
  )
]
