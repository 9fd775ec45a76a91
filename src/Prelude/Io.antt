-- ===== src/Prelude/Io.antt =====
-- Effectful code: a function of the world that returns a result and the world after it. What was
-- done before an error stays done.
use mathlib.Core.Path.{◌≡◌, refl}
use anti_entropator.Prelude.Texts.{Text}
use anti_entropator.Prelude.Results.{Error, Result, ok, err, with_context}

abbrev pub Io : Type 0 → Type 0 → Type 0
Io World A = World → Result A × World

module _ {World : Type 0} where
  abbrev pub pure : {A : Type 0} → A → Io World A
  pure a w = (ok a, w)

  abbrev pub fail : {A : Type 0} → Error → Io World A
  fail e w = (err e, w)

  abbrev pub lift : {A : Type 0} → Result A → Io World A
  lift r w = (r, w)

  abbrev continue : {A B : Type 0} → Result A → (A → Io World B) → Io World B
  continue (ok a) f w = f a w
  continue (err e) f w = (err e, w)

  infixl 5 ◌>>=◌ ◌>>◌
  abbrev pub ◌>>=◌ : {A B : Type 0} → Io World A → (A → Io World B) → Io World B
  ◌>>=◌ m f w = continue (m w).0 f (m w).1

  abbrev pub ◌>>◌ : {A B : Type 0} → Io World A → Io World B → Io World B
  m >> n = m >>= λ _. n

  abbrev pub with_context_io : {A : Type 0} → Text → Io World A → Io World A
  with_context_io c m w = (with_context c (m w).0, (m w).1)

module _ {World A B : Type 0} (P : Result B → World → Type 0) (f : A → Io World B) where
  continue_cases :
      (w : World) (r : Result A)
      → ((e : Error) → r ≡ err e → P (err e) w)
      → ((a : A) → r ≡ ok a → P (f a w).0 (f a w).1)
      → P (continue r f w).0 (continue r f w).1
  continue_cases w (ok a) bad good = good a refl
  continue_cases w (err e) bad good = bad e refl

  -- What holds where the first call fails, and after the rest where it does not, holds of the whole.
  pub bind_cases :
      (m : Io World A) (w : World)
      → ((e : Error) → (m w).0 ≡ err e → P (err e) (m w).1)
      → ((a : A) → (m w).0 ≡ ok a → P (f a (m w).1).0 (f a (m w).1).1)
      → P ((m >>= f) w).0 ((m >>= f) w).1
  bind_cases m w bad good = continue_cases (m w).1 (m w).0 bad good
