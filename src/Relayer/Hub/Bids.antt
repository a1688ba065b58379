-- ===== src/Relayer/Hub/Bids.antt =====
-- The bids for a job are by different operators.
use opauque_stellar.Base.{
  ℕ, ◌≡◌, inl, inr, refl, sym, subst, Text, Bool, false, Option, none, some, List, [], ◌∷◌, ◌++◌,
  any, same, same→eq, same_refl, to_lower, Bool-cases, arith,
}
use opauque_stellar.Base.Dict.{get, set, delete, get-set, get-delete}
use opauque_stellar.Relayer.Types.{RelayerBid, BidEntry}
use opauque_stellar.Relayer.Hub.{
  RelayerHub, RelayerMessage, advert, bid, payload, outcome, heartbeat, assign, receive,
  remember_bid, remember_assignment, record_outcome, record_heartbeat, bids_for, with_bid, or_nil,
}

abbrev has_bid : Text → List BidEntry → Bool
has_bid operator = any (λ b. same b.bid.operator operator)

abbrev pub IsDistinct : List BidEntry → Type 0
IsDistinct [] = Unit
IsDistinct (b ∷ bs) = (has_bid b.bid.operator bs ≡ false) × IsDistinct bs

-- Under every job, each operator has bid at most once.
abbrev pub HasOneBid : List (Text × List BidEntry) → Type 0
HasOneBid m = (k : Text) (bs : List BidEntry) → get k m ≡ some bs → IsDistinct bs

same-sym : (a b : Text) → same a b ≡ false → same b a ≡ false
same-sym a b h = ground (arith, same→eq b a, same_refl a)

has_bid-append :
    (t : Text) (b : BidEntry) (bs : List BidEntry)
    → has_bid t bs ≡ false
    → same b.bid.operator t ≡ false
    → has_bid t (bs ++ b ∷ []) ≡ false
has_bid-append t b [] h n = rw n refl
has_bid-append t b (c ∷ bs) h n = ground (arith, has_bid-append t b bs)

IsDistinct-append :
    (b : BidEntry) (bs : List BidEntry)
    → has_bid b.bid.operator bs ≡ false
    → IsDistinct bs
    → IsDistinct (bs ++ b ∷ [])
IsDistinct-append b [] h d = (refl, tt)
IsDistinct-append b (c ∷ bs) h d = elim (Bool-cases (same c.bid.operator b.bid.operator)) [
  | inl t ↦ absurd (ground arith)
  | inr f ↦ (
    has_bid-append c.bid.operator b bs d.0 (same-sym c.bid.operator b.bid.operator f),
    IsDistinct-append b bs (ground arith) d.1,
  )
]

HasOneBid-set :
    (k : Text) (bs : List BidEntry) (m : List (Text × List BidEntry))
    → IsDistinct bs
    → HasOneBid m
    → HasOneBid (set k bs m)
HasOneBid-set k bs m d h j cs e = elim (Bool-cases (same k j)) [
  | inl t ↦ subst IsDistinct (ground (arith, get-set k j bs m)) d
  | inr f ↦ h j cs (ground (arith, get-set k j bs m))
]

HasOneBid-delete :
    (k : Text) (m : List (Text × List BidEntry)) → HasOneBid m → HasOneBid (delete k m)
HasOneBid-delete k m h j cs e = elim (Bool-cases (same k j)) [
  | inl t ↦ absurd (ground (arith, get-delete k j m))
  | inr f ↦ h j cs (ground (arith, get-delete k j m))
]

old_bids :
    (o : Option (List BidEntry))
    → ((bs : List BidEntry) → o ≡ some bs → IsDistinct bs)
    → IsDistinct (or_nil o)
old_bids none h = tt
old_bids (some bs) h = h bs refl

with_bid-HasOneBid :
    (now : ℕ) (b : RelayerBid) (bs : List BidEntry) (m : List (Text × List BidEntry))
    → IsDistinct bs
    → HasOneBid m
    → HasOneBid (with_bid now b bs m)
with_bid-HasOneBid now b bs m d h = elim (Bool-cases (has_bid b.operator bs)) [
  | inl t ↦ rw t h
  | inr f ↦ rw f (
      HasOneBid-set (to_lower b.job_id) _ m
        (IsDistinct-append (record { bid = b; added_at = now }) bs f d) h)
]

assign-bids :
    (now : ℕ) (k : Text) (o : Option BidEntry) (h : RelayerHub) → (assign now k o h).bids ≡ h.bids
assign-bids now k none h = refl
assign-bids now k (some b) h = refl

-- Whatever message arrives, each operator has bid at most once for a job if that was so before.
pub receive-HasOneBid :
    (now : ℕ) (message : RelayerMessage) (h : RelayerHub)
    → HasOneBid h.bids
    → HasOneBid (receive now message h).bids
unfolding receive remember_bid record_outcome record_heartbeat remember_assignment bids_for
receive-HasOneBid now advert h i = i
receive-HasOneBid now (bid b) h i =
    with_bid-HasOneBid now b (or_nil (get (to_lower b.job_id) h.bids)) h.bids
      (old_bids (get (to_lower b.job_id) h.bids) (i (to_lower b.job_id))) i
receive-HasOneBid now (payload p) h i = subst HasOneBid (sym (assign-bids now _ _ h)) i
receive-HasOneBid now (outcome job_id operator result) h i =
    HasOneBid-delete (to_lower job_id) h.bids i
receive-HasOneBid now (heartbeat operator) h i = i
