-- ===== src/Prelude/Results.antt =====
-- `anyhow::Result` and the errors that the program raises or passes on.
use mathlib.Core.Bool.{Bool, true, false}
use mathlib.Core.Option.{Option}
use Prim.Native.Nat.{ℕ}
use anti_entropator.Prelude.Texts.{Text}

-- upload.rs `SourceChanged`
pub record SourceChanged : Type 0 where
  pub expected_hash : Text
  pub actual_hash : Option Text
  pub expected_len : ℕ
  pub actual_len : ℕ

-- upload.rs `IntegrityMismatch`
pub record IntegrityMismatch : Type 0 where
  pub key : Text
  pub field : Text
  pub stored : Text
  pub expected : Text

-- An `anyhow::Error`: a message (of this program or of a library), one of the typed errors that
-- callers look for, or a context around another error.
pub data Error : Type 0 where
  message : Text → Error
  context : Text → Error → Error
  source_changed : SourceChanged → Error
  integrity_mismatch : IntegrityMismatch → Error
  non_utf8_path : Text → Error

pub data Result {ℓ} (A : Type ℓ) : Type ℓ where
  ok : A → Result A
  err : Error → Result A

infixl 5 ◌>>=◌
abbrev pub ◌>>=◌ {ℓ κ} : {A : Type ℓ} {B : Type κ} → Result A → (A → Result B) → Result B
r >>= next = elim r [ ok value ↦ next value | err e ↦ err e ]

-- `.context(…)` and `.with_context(…)`
abbrev pub with_context {ℓ} : {A : Type ℓ} → Text → Result A → Result A
with_context c (ok a) = ok a
with_context c (err e) = err (context c e)

-- `e.is::<SourceChanged>()`: `anyhow` looks through the contexts.
unfoldable pub is_source_changed : Error → Bool
is_source_changed (source_changed s) = true
is_source_changed (context c e) = is_source_changed e
is_source_changed _ = false
