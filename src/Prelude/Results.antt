-- ===== src/Prelude/Results.antt =====
-- What a call comes back with: a value, an error of the source's `Error` enums, or a panic.

use mathlib.Core.Option.{Option, none, some}

-- rsfu/src/buffer/errors.rs. (`ErrRTCP` wraps an error of another crate and is never built here.)
pub data Error : Type 0 where
  err_packet_not_found err_buffer_too_small err_packet_too_old err_rtx_packet : Error
  err_short_packet err_nil_packet err_io_eof : Error

-- `panic`: an index or a slice out of range, or an `unwrap` of `None`.
pub data Outcome {ℓ} (A : Type ℓ) : Type ℓ where
  ok : A → Outcome A
  err : Error → Outcome A
  panic : Outcome A

infixl 5 ◌>>=◌
abbrev pub ◌>>=◌ {ℓ κ} : {A : Type ℓ} {B : Type κ} → Outcome A → (A → Outcome B) → Outcome B
ok a >>= f = f a
err e >>= f = err e
panic >>= f = panic

-- A chain of steps that may go out of range.
infixl 5 ◌and_then◌
abbrev pub ◌and_then◌ {ℓ κ} : {A : Type ℓ} {B : Type κ} → Option A → (A → Option B) → Option B
none and_then f = none
some a and_then f = f a
