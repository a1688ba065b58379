-- ===== src/Frontend/ProofLimiter/Laws.antt =====
-- recordRetry of frontend/src/lib/proofRateLimiter.ts: how many retries any window lets through.
use mathlib.Core.List.{append-nil, append_assoc}
use opauque_stellar.Base.{
  ℕ, ◌+◌, ◌≤◌, ◌<◌, ◌≡◌, refl, ap, sym, ◌∙◌, inl, inr, Bool, ◌&&◌, List, [], ◌∷◌, ◌++◌, keep,
  length, length-append, ltb, leb, if◌then◌else◌, arith, Bool-cases,
}
use opauque_stellar.Base.Exec.{Result, ok, err}
use opauque_stellar.Frontend.ProofLimiter.{
  ProofRateLimitConfig, ProofRateLimiter, LimitError, new_limiter, is_recent, recent, record_retry,
}

keep-append : (p : ℕ → Bool) (xs ys : List ℕ) → keep p (xs ++ ys) ≡ keep p xs ++ keep p ys
keep-append p [] ys = refl
keep-append p (x ∷ xs) ys = ground (arith, keep-append p xs ys)

-- A later filter makes an earlier one redundant.
keep_later :
    (w now later : ℕ) (xs : List ℕ)
    → now ≤ later
    → keep (is_recent w later) (keep (is_recent w now) xs) ≡ keep (is_recent w later) xs
keep_later w now later [] h = refl
keep_later w now later (x ∷ xs) h = ground (arith, keep_later w now later xs h)

-- How many of the times lie in the window that starts at `t`.
abbrev pub count_in : ℕ → ℕ → List ℕ → ℕ
count_in w t xs = length (keep (λ x. leb t x && ltb x (t + w)) xs)

count_in-le :
    (w t now : ℕ) (xs : List ℕ) → now < t + w → count_in w t xs ≤ length (keep (is_recent w now) xs)
count_in-le w t now [] h = omega arith
count_in-le w t now (x ∷ xs) h = ground (arith, count_in-le w t now xs h)

count_in-append :
    (w t now : ℕ) (xs : List ℕ)
    → count_in w t (xs ++ now ∷ [])
      ≡ count_in w t xs + (if leb t now && ltb now (t + w) then 1 else 0)
count_in-append w t now xs =
    ap length (keep-append _ xs (now ∷ []))
    ∙ length-append (keep (λ x. leb t x && ltb x (t + w)) xs) _
    ∙ ap (λ n. count_in w t xs + n) (ground arith)

-- The times at which a retry was let through, when one is tried at each of the times.
abbrev pub admit : ℕ → Result LimitError (Unit {0}) → List ℕ
admit now (ok _) = now ∷ []
admit now (err e) = []

unfoldable pub admitted : List ℕ → ProofRateLimiter → List ℕ
admitted [] l = []
admitted (now ∷ times) l =
    let (r, after) = record_retry now l in admit now r ++ admitted times after

abbrev pub Ascending : ℕ → List ℕ → Type 0
Ascending from [] = Unit
Ascending from (now ∷ times) = (from ≤ now) × Ascending now times

-- From `last` on, the limiter sees of its retries what it would see of all that it let through.
abbrev Sees : ℕ → List ℕ → ProofRateLimiter → Type 0
Sees last seen l =
    (now : ℕ)
    → last ≤ now
    → keep (is_recent l.config.retry_window_ms now) l.retries
      ≡ keep (is_recent l.config.retry_window_ms now) seen

abbrev Within : ProofRateLimitConfig → List ℕ → Type 0
Within c seen = (t : ℕ) → count_in c.retry_window_ms t seen ≤ c.max_retries_per_session

-- A retry that is let through leaves every window within the bound.
Within-admit :
    (c : ProofRateLimitConfig) (now : ℕ) (seen : List ℕ)
    → length (keep (is_recent c.retry_window_ms now) seen) < c.max_retries_per_session
    → Within c seen
    → Within c (seen ++ now ∷ [])
Within-admit c now seen h w t = elim (Bool-cases (leb t now && ltb now (t + c.retry_window_ms))) [
  | inl inside ↦
      rw (count_in-append c.retry_window_ms t now seen, inside)
        (omega (arith, h, count_in-le c.retry_window_ms t now seen (ground (arith, inside))))
  | inr outside ↦ rw (count_in-append c.retry_window_ms t now seen, outside) (omega (arith, w t))
]

admitted-Within :
    (times : List ℕ) (last : ℕ) (seen : List ℕ) (l : ProofRateLimiter)
    → Ascending last times
    → Sees last seen l
    → Within l.config seen
    → Within l.config (seen ++ admitted times l)
unfolding admitted record_retry
admitted-Within [] last seen l a s w = rw (append-nil seen) w
admitted-Within (now ∷ times) last seen l (le, a) s w =
    elim (Bool-cases (leb l.config.max_retries_per_session (length (recent now l)))) [
      | inl full ↦ rw full (
          admitted-Within times now seen (record l { retries = recent now l }) a
            (λ later h. keep_later _ now later l.retries h ∙ s later (le_trans le h)) w)
      | inr room ↦
          rw
            (
              room,
              ← append_assoc seen (now ∷ [])
                  (admitted times (record l { retries = recent now l ++ now ∷ [] })),
            )
            (admitted-Within times now (seen ++ now ∷ [])
              (record l { retries = recent now l ++ now ∷ [] }) a
              (λ later h.
                keep-append _ (recent now l) (now ∷ [])
                ∙ ap (λ xs. xs ++ keep (is_recent l.config.retry_window_ms later) (now ∷ []))
                    (keep_later _ now later l.retries h ∙ s later (le_trans le h))
                ∙ sym (keep-append _ seen (now ∷ [])))
              (Within-admit l.config now seen (ground (arith, room, ap length (s now le))) w))
    ]
  where
    le_trans : {a b c : ℕ} → a ≤ b → b ≤ c → a ≤ c
    le_trans p q = omega arith

-- However often retries are tried, at times that do not go back, no window of the configured length
-- sees more of them let through than the configured number.
pub admitted_lem :
    (config : ProofRateLimitConfig) (times : List ℕ) (t : ℕ)
    → Ascending 0 times
    → count_in config.retry_window_ms t (admitted times (new_limiter config))
      ≤ config.max_retries_per_session
unfolding new_limiter
admitted_lem config times t a =
    admitted-Within times 0 [] (new_limiter config) a (λ now h. refl) (λ u. omega arith) t
