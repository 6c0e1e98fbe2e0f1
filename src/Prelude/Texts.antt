-- ===== src/Prelude/Texts.antt =====
-- Rust's `==` on `String`.
use Prim.Native.String.{String}
use mathlib.Core.Path.{◌≡◌, refl}
use mathlib.Core.Logic.{◌≢◌, ◌⊎◌, inl, inr}
use mathlib.Core.Bool.{Bool, true, false}
use native.Mathlib.Omega.{arith}
use text.Mathlib.Text
use text.Mathlib.TextEquality.{eq_iff}
use rsfu.Prelude.Tests.{Bool-cases}

unfoldable pub same : String → String → Bool
same s t = Text.◌==◌ s t

pub same_self : (s : String) → same s s ≡ true
unfolding same
same_self s = (eq_iff s s).1 refl

pub same-cases : (s t : String) → ((same s t ≡ true) × (s ≡ t)) ⊎ ((same s t ≡ false) × (s ≢ t))
unfolding same
same-cases s t = elim (Bool-cases (Text.◌==◌ s t)) [
  | inl e ↦ inl (e, (eq_iff s t).0 e)
  | inr e ↦ inr (e, λ p. absurd (differ (Text.◌==◌ s t) e ((eq_iff s t).1 p)))
]
  where
    differ : (b : Bool) → b ≡ false → b ≡ true → ⊥
    differ b f t = ground arith
