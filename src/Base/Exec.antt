-- ===== src/Base/Exec.antt =====
-- Code that changes a state and may throw: what was changed before a throw stays changed.
use mathlib.Core.Path.{◌≡◌, refl}
use mathlib.Core.Logic.{◌⊎◌, inl, inr}

pub data Result {ℓ κ} (E : Type ℓ) (A : Type κ) : Type (ℓ ⊔ κ) where
  ok : A → Result E A
  err : E → Result E A

abbrev pub Exec : Type 0 → Type 0 → Type 0 → Type 0
Exec E S A = S → Result E A × S

module _ {E S A : Type 0} where
  abbrev pub pure : A → Exec E S A
  pure a s = (ok a, s)

  abbrev pub throw : E → Exec E S A
  throw e s = (err e, s)

  abbrev pub lift : Result E A → Exec E S A
  lift r s = (r, s)

  abbrev pub gets : (S → A) → Exec E S A
  gets f s = (ok (f s), s)

abbrev pub modify : {E S : Type 0} → (S → S) → Exec E S (Unit {0})
modify f s = (ok tt, f s)

module _ {E S A B : Type 0} where
  abbrev pub continue : Result E A → (A → Exec E S B) → Exec E S B
  continue (ok a) f s = f a s
  continue (err e) f s = (err e, s)

  infixl 5 ◌>>=◌ ◌>>◌
  abbrev pub ◌>>=◌ : Exec E S A → (A → Exec E S B) → Exec E S B
  ◌>>=◌ m f s = continue (m s).0 f (m s).1

  abbrev pub ◌>>◌ : Exec E S A → Exec E S B → Exec E S B
  m >> n = m >>= λ _. n

pub Result-cases :
    {E A : Type 0} (r : Result E A) → ((a : A) × (r ≡ ok a)) ⊎ ((e : E) × (r ≡ err e))
Result-cases (ok a) = inl (a, refl)
Result-cases (err e) = inr (e, refl)

-- What holds of the outcome and the state that a run ends with.
abbrev pub Ends {κ} : {E S A : Type 0} → (Result E A → S → Type κ) → Result E A × S → Type κ
Ends Q p = Q p.0 p.1

-- What holds of the value and the state if the run returns.
abbrev pub IfOk {κ} : {E S A : Type 0} → (A → S → Type κ) → Result E A → S → Type κ
IfOk Q (ok a) s = Q a s
IfOk Q (err e) s = Unit

module _ {κ μ} {E S A B : Type 0} where
  continue-Ends :
      (Q : Result E B → S → Type κ) (R : Result E A → S → Type μ) (r : Result E A)
      (f : A → Exec E S B) (s : S)
      → R r s
      → ((a : A) (t : S) → R (ok a) t → Ends Q (f a t))
      → ((e : E) (t : S) → R (err e) t → Q (err e) t)
      → Ends Q (continue r f s)
  continue-Ends Q R (ok a) f s h onok onerr = onok a s h
  continue-Ends Q R (err e) f s h onok onerr = onerr e s h

  -- The rule for two steps in a row.
  pub bind-Ends :
      (Q : Result E B → S → Type κ) (R : Result E A → S → Type μ) (m : Exec E S A)
      (f : A → Exec E S B) (s : S)
      → Ends R (m s)
      → ((a : A) (t : S) → R (ok a) t → Ends Q (f a t))
      → ((e : E) (t : S) → R (err e) t → Q (err e) t)
      → Ends Q ((m >>= f) s)
  bind-Ends Q R m f s = continue-Ends Q R (m s).0 f (m s).1

  -- The same where only a run that returns matters.
  pub bind-IfOk :
      (Q : B → S → Type κ) (R : A → S → Type μ) (m : Exec E S A) (f : A → Exec E S B) (s : S)
      → Ends (IfOk R) (m s)
      → ((a : A) (t : S) → R a t → Ends (IfOk Q) (f a t))
      → Ends (IfOk Q) ((m >>= f) s)
  bind-IfOk Q R m f s h k = bind-Ends (IfOk Q) (IfOk R) m f s h k (λ e t _. tt)

pub IfOk-map {κ μ} :
    {E S T A : Type 0} (Q : A → S → Type κ) (R : A → T → Type μ) (r : Result E A) (s : S) (t : T)
    → ((a : A) → Q a s → R a t)
    → IfOk Q r s
    → IfOk R r t
IfOk-map Q R (ok a) s t f h = f a h
IfOk-map Q R (err e) s t f h = tt

pub lift-IfOk {κ} :
    {E S A B : Type 0} (Q : B → S → Type κ) (r : Result E A) (f : A → Exec E S B) (s : S)
    → ((a : A) → r ≡ ok a → Ends (IfOk Q) (f a s))
    → Ends (IfOk Q) ((lift r >>= f) s)
lift-IfOk Q (ok a) f s h = h a refl
lift-IfOk Q (err e) f s h = tt

pub IfOk-const {κ} :
    {E S A : Type 0} (Q : S → Type κ) (r : Result E A) (s : S) → Q s → IfOk (λ a t. Q t) r s
IfOk-const Q (ok a) s h = h
IfOk-const Q (err e) s h = tt

-- try m catch h
abbrev pub attempt : {E S A : Type 0} → Exec E S A → (E → Exec E S A) → Exec E S A
attempt m h s = elim (m s).0 [ ok a ↦ (ok a, (m s).1) | err e ↦ h e (m s).1 ]

pub caught-Ends :
    {E S A : Type 0} (Q R : Result E A → S → Type 0) (r : Result E A) (h : E → Exec E S A) (t : S)
    → R r t
    → ((a : A) (t : S) → R (ok a) t → Q (ok a) t)
    → ((e : E) (t : S) → R (err e) t → Ends Q (h e t))
    → Ends Q (elim r [ ok a ↦ (ok a, t) | err e ↦ h e t ])
caught-Ends Q R (ok a) h t p onok onerr = onok a t p
caught-Ends Q R (err e) h t p onok onerr = onerr e t p

pub attempt-Ends :
    {E S A : Type 0} (Q R : Result E A → S → Type 0) (m : Exec E S A) (h : E → Exec E S A) (s : S)
    → Ends R (m s)
    → ((a : A) (t : S) → R (ok a) t → Q (ok a) t)
    → ((e : E) (t : S) → R (err e) t → Ends Q (h e t))
    → Ends Q (attempt m h s)
attempt-Ends Q R m h s = caught-Ends Q R (m s).0 h (m s).1
