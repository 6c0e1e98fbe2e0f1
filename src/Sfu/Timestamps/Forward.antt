-- ===== src/Sfu/Timestamps/Forward.antt =====
-- How far a timestamp lies ahead.
use rsfu.Prelude.{ℕ, ◌+◌, ◌%◌, ◌^◌, ◌<◌, ◌≡◌, inl, inr, true, false, arith, Bool-cases}
use rsfu.Sfu.Timestamps.{
  is_timestamp_wrap_around, is_later_timestamp, fast_forward_timestamp_amount,
}

wrap_around_once :
    (t u : ℕ) → is_timestamp_wrap_around t u ≡ true → is_timestamp_wrap_around u t ≡ false
unfolding is_timestamp_wrap_around
wrap_around_once t u e = ground arith

-- Of two `u32` timestamps where the newest is later than the reference, the amount is what leads from
-- the reference to the newest, modulo 2 ^ 32; and the reference is not also later than the newest.
pub fast_forward_timestamp_amount-is_later_timestamp :
    (newest reference : ℕ)
    → newest < 2 ^ 32
    → reference < 2 ^ 32
    → is_later_timestamp newest reference ≡ true
    → ((reference + fast_forward_timestamp_amount newest reference) % 2 ^ 32 ≡ newest)
      × (is_later_timestamp reference newest ≡ false)
unfolding is_later_timestamp fast_forward_timestamp_amount
fast_forward_timestamp_amount-is_later_timestamp newest reference h k later =
    elim (Bool-cases (is_timestamp_wrap_around newest reference)) [
      | inl e ↦ let e' = wrap_around_once newest reference e in ground (arith, e, e')
      | inr e ↦ elim (Bool-cases (is_timestamp_wrap_around reference newest)) [
        | inl e' ↦ ground (arith, e, e')
        | inr e' ↦ ground (arith, e, e')
      ]
    ]
