-- ===== src/Frontend/PoolSweep/Submitted/Messages.antt =====
-- The messages of frontend/src/lib/stellar.ts that name a transaction are no index race to
-- frontend/src/lib/poolSweep.ts, whatever the hash.
use opauque_stellar.Base.{
  ℕ, ◌≡◌, refl, ap, ap₂, ◌∙◌, inl, inr, Bool-cases, Text, codes, to_lower, Bool, true, false, ◌&&◌,
  ◌||◌, [], ◌∷◌, ◌++◌, leb, ◌==◌, arith, every,
}
use opauque_stellar.Base.Strings.{contains, starts_with, to_lower-append}
use opauque_stellar.Frontend.Submission.{
  TxStatus, not_found, success, failed, with_status, timed_out, tx_failed,
}
use opauque_stellar.Frontend.PoolSweep.{is_index_race}

abbrev pub is_hex : ℕ → Bool
is_hex c = (leb b'0' c && leb c b'9') || (leb b'a' c && leb c b'f')

abbrev race : Text → Bool
race s = contains (codes "indexmismatch") s || contains (codes "contracterror") s

hex-parts :
    (c : ℕ) (h : Text) → every is_hex (c ∷ h) ≡ true → (is_hex c ≡ true) × (every is_hex h ≡ true)
hex-parts c h e = elim (Bool-cases (is_hex c)) [
  | inl t ↦ (t, rw t at e)
  | inr f ↦ absurd (cc (rw f at e))
]

-- No hexadecimal digit is the first letter of the one message or the second of the other.
no_digit : (c : ℕ) → is_hex c ≡ true → ((b'i' == c) ≡ false) × ((b'o' == c) ≡ false)
no_digit c e = (ground (arith, e), ground (arith, e))

skip_index :
    (h r : Text)
    → every is_hex h ≡ true
    → contains (codes "indexmismatch") (h ++ r) ≡ contains (codes "indexmismatch") r
skip_index [] r e = refl
skip_index (c ∷ h) r e =
    let parts = hex-parts c h e in rw (no_digit c parts.0).0 (skip_index h r parts.1)

-- The second letter of the message does not follow.
not_second :
    (c d : ℕ) (r : Text)
    → (b'o' == d) ≡ false
    → starts_with (codes "contracterror") (c ∷ d ∷ r) ≡ false
not_second c d r n = elim (Bool-cases (b'c' == c)) [ inl t ↦ rw (t, n) refl | inr f ↦ rw f refl ]

skip_contract :
    (h : Text) (d : ℕ) (r : Text)
    → every is_hex h ≡ true
    → (b'o' == d) ≡ false
    → contains (codes "contracterror") (h ++ d ∷ r) ≡ contains (codes "contracterror") (d ∷ r)
skip_contract [] d r e n = refl
skip_contract (c ∷ []) d r e n = rw (not_second c d r n) refl
skip_contract (c ∷ b ∷ h) d r e n =
    let parts = hex-parts c (b ∷ h) e in
    let next = hex-parts b h parts.1 in
    rw (not_second c b (h ++ d ∷ r) (no_digit b next.0).1) (skip_contract (b ∷ h) d r parts.1 n)

race-hash :
    (h : Text) (d : ℕ) (r : Text)
    → every is_hex h ≡ true
    → (b'o' == d) ≡ false
    → race (h ++ d ∷ r) ≡ race (d ∷ r)
race-hash h d r e n = ap₂ ◌||◌ (skip_index h (d ∷ r) e) (skip_contract h d r e n)

lowered : (a h b : Text) → to_lower (a ++ (h ++ b)) ≡ to_lower a ++ (to_lower h ++ to_lower b)
lowered a h b = to_lower-append a (h ++ b) ∙ ap (λ x. to_lower a ++ x) (to_lower-append h b)

pub timed_out-race :
    (hash : Text) → every is_hex (to_lower hash) ≡ true → is_index_race (timed_out hash) ≡ false
unfolding is_index_race to_lower
timed_out-race hash e =
    ap race (lowered (codes "Transaction polling timed out after 60000ms. Hash: ") hash _)
    ∙ race-hash (to_lower hash) b'.' (to_lower (codes " Check status manually or retry later.")) e
        refl

pub tx_failed-race :
    (status : TxStatus) (hash : Text)
    → every is_hex (to_lower hash) ≡ true
    → is_index_race (tx_failed status hash) ≡ false
unfolding is_index_race to_lower
tx_failed-race not_found hash e =
    ap race (lowered (with_status not_found) hash _) ∙ race-hash (to_lower hash) b')' [] e refl
tx_failed-race success hash e =
    ap race (lowered (with_status success) hash _) ∙ race-hash (to_lower hash) b')' [] e refl
tx_failed-race failed hash e =
    ap race (lowered (with_status failed) hash _) ∙ race-hash (to_lower hash) b')' [] e refl
