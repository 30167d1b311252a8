-- ===== src/Base/Exec.antt =====
-- `async fn f(&mut self) -> Result<T, E>`: a function of the state that returns an outcome and the
-- new state. What was written before an error stays written, so the state comes back beside it.
use mathlib.Core.Path.{◌≡◌, refl}
use mathlib.Core.Option.{Option, none, some}

-- `stuck` stands for a call that is still running when the fuel of its loops is used up.
pub data Outcome {ℓ} (E A : Type ℓ) : Type ℓ where
  ok : A → Outcome E A
  err : E → Outcome E A
  panic : Outcome E A
  stuck : Outcome E A

abbrev pub Exec {ℓ} : Type ℓ → Type ℓ → Type ℓ → Type ℓ
Exec E S A = S → Outcome E A × S

module _ {ℓ} {E S A : Type ℓ} where
  abbrev pub pure : A → Exec E S A
  pure a s = (ok a, s)

  abbrev pub fail : E → Exec E S A
  fail e s = (err e, s)

  abbrev pub abort : Exec E S A
  abort s = (panic, s)

  abbrev pub gets : (S → A) → Exec E S A
  gets f s = (ok (f s), s)

  abbrev pub lift : Outcome E A → Exec E S A
  lift r s = (r, s)

abbrev pub modify {ℓ} : {E S : Type ℓ} → (S → S) → Exec E S Unit
modify f s = (ok tt, f s)

module _ {ℓ} {E S A B : Type ℓ} where
  abbrev pub continue : Outcome E A × S → (A → Exec E S B) → Outcome E B × S
  continue (ok a, s) f = f a s
  continue (err e, s) f = (err e, s)
  continue (panic, s) f = (panic, s)
  continue (stuck, s) f = (stuck, s)

  infixl 5 ◌>>=◌ ◌>>◌
  abbrev pub ◌>>=◌ : Exec E S A → (A → Exec E S B) → Exec E S B
  ◌>>=◌ m f s = continue (m s) f

  abbrev pub ◌>>◌ : Exec E S A → Exec E S B → Exec E S B
  m >> k = m >>= λ _. k

  -- A run that returns has run both parts to their ends.
  pub bind-eq-ok :
      (m : Exec E S A) (f : A → Exec E S B) (s : S) {b : B} {u : S}
      → (m >>= f) s ≡ (ok b, u)
      → (a : A) × (t : S) × (m s ≡ (ok a, t)) × (f a t ≡ (ok b, u))
  bind-eq-ok m f s {b} {u} h = split (m s) refl h
    where
      split :
          (r : Outcome E A × S)
          → m s ≡ r
          → continue r f ≡ (ok b, u)
          → (a : A) × (t : S) × (m s ≡ (ok a, t)) × (f a t ≡ (ok b, u))
      split (ok a, t) e h = (a, t, e, h)
      split (err _, t) e h = absurd (cc)
      split (panic, t) e h = absurd (cc)
      split (stuck, t) e h = absurd (cc)

-- `if let Ok(a) = m`: an error is dropped, and what was written before it stays.
abbrev pub succeeded {ℓ} : {E S A : Type ℓ} → Outcome E A × S → Outcome E (Option A) × S
succeeded (ok a, s) = (ok (some a), s)
succeeded (err e, s) = (ok none, s)
succeeded (panic, s) = (panic, s)
succeeded (stuck, s) = (stuck, s)

abbrev pub attempt {ℓ} : {E S A : Type ℓ} → Exec E S A → Exec E S (Option A)
attempt m s = succeeded (m s)

pub succeeded_state {ℓ} : {E S A : Type ℓ} (r : Outcome E A × S) → (succeeded r).1 ≡ r.1
succeeded_state (ok a, s) = refl
succeeded_state (err e, s) = refl
succeeded_state (panic, s) = refl
succeeded_state (stuck, s) = refl

pub continue_keeps {ℓ κ} :
    {E S A B : Type ℓ} (P : S → Type κ) (r : Outcome E A × S) (f : A → Exec E S B)
    → P r.1
    → ((a : A) (s : S) → P s → P (f a s).1)
    → P (continue r f).1
continue_keeps P (ok a, s) f h k = k a s h
continue_keeps P (err e, s) f h k = h
continue_keeps P (panic, s) f h k = h
continue_keeps P (stuck, s) f h k = h

-- Between two calls `P` holds, and behind the second one, or where the first one fails, `Q`.
pub continue_reaches {ℓ κ} :
    {E S A B : Type ℓ} (P Q : S → Type κ) (r : Outcome E A × S) (f : A → Exec E S B)
    → P r.1
    → ((s : S) → P s → Q s)
    → ((a : A) (s : S) → P s → Q (f a s).1)
    → Q (continue r f).1
continue_reaches P Q (ok a, s) f h w k = k a s h
continue_reaches P Q (err e, s) f h w k = w s h
continue_reaches P Q (panic, s) f h w k = w s h
continue_reaches P Q (stuck, s) f h w k = w s h
