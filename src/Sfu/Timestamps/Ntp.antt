-- ===== src/Sfu/Timestamps/Ntp.antt =====
-- A time that is written as an NTP time and read back.
use rsfu.Prelude.{
  ℕ, ◌+◌, ◌-◌, ◌*◌, ◌/◌, ◌%◌, ◌^◌, ◌≤◌, ◌<◌, ◌≡◌, inl, inr, arith, leb, if◌then◌else◌, bit_and,
  Bool-cases,
}
use rsfu.Prelude.Bits.{bit_or-field}
use rsfu.Prelude.Masks.{bit_and-low_ones}
use rsfu.Sfu.Timestamps.{to_ntp_time, ntp_to_millis_since_epoch}

-- The fraction of a second, in units of 2 ^ -32 seconds, is the nearest to the nanoseconds.
rounded_near :
    (r : ℕ)
    → r < 1000000000
    → (f : ℕ) × ((if leb 500000000 (r * 2 ^ 32 % 2 ^ 64 % 1000000000)
          then r * 2 ^ 32 % 2 ^ 64 / 1000000000 + 1
          else r * 2 ^ 32 % 2 ^ 64 / 1000000000)
        ≡ f)
      × (r * 2 ^ 32 ≤ f * 1000000000 + 500000000)
      × (f * 1000000000 ≤ r * 2 ^ 32 + 500000000)
rounded_near r h = elim (Bool-cases (leb 500000000 (r * 2 ^ 32 % 2 ^ 64 % 1000000000))) [
  | inl e ↦ (r * 2 ^ 32 % 2 ^ 64 / 1000000000 + 1, rw e, ground arith, ground arith)
  | inr e ↦ (r * 2 ^ 32 % 2 ^ 64 / 1000000000, rw e, ground arith, ground arith)
]

to_ntp_time-field :
    (sec r : ℕ)
    → sec < 2 ^ 32
    → r < 1000000000
    → (f : ℕ) × (to_ntp_time (sec * 1000000000 + r) ≡ sec * 2 ^ 32 + f)
      × (r * 2 ^ 32 ≤ f * 1000000000 + 500000000)
      × (f * 1000000000 ≤ r * 2 ^ 32 + 500000000)
unfolding to_ntp_time
to_ntp_time-field sec r h k =
    let whole : (sec * 1000000000 + r) % 2 ^ 64 ≡ sec * 1000000000 + r = omega arith in
    let secs : (sec * 1000000000 + r) / 1000000000 ≡ sec = omega arith in
    let rest : sec * 1000000000 + r - sec * 1000000000 ≡ r = omega arith in
    let shifted : sec * 2 ^ 32 % 2 ^ 64 ≡ sec * 2 ^ 32 = omega arith in
    let (f, e, low, high) = rounded_near r k in
    (f, rw (whole, secs, rest, e, shifted) (bit_or-field 32 sec f (omega arith)), low, high)

-- For a time of `sec` seconds and `r` nanoseconds since the epoch, where the seconds fit 32 bits:
-- writing it as an NTP time and reading that back in milliseconds gives the time's milliseconds, or
-- one less.
pub ntp_to_millis_since_epoch-to_ntp_time :
    (sec r : ℕ)
    → sec < 2 ^ 32
    → r < 1000000000
    → (ntp_to_millis_since_epoch (to_ntp_time (sec * 1000000000 + r)) ≤ sec * 1000 + r / 1000000)
      × (sec * 1000 + r / 1000000
          ≤ ntp_to_millis_since_epoch (to_ntp_time (sec * 1000000000 + r)) + 1)
unfolding ntp_to_millis_since_epoch
ntp_to_millis_since_epoch-to_ntp_time sec r h k =
    let (f, e, low, high) = to_ntp_time-field sec r h k in
    let mask = bit_and-low_ones 32 sec f (omega arith) in
    let read : (bit_and (sec * 2 ^ 32 + f) 0xFFFFFFFF * 1000 % 2 ^ 64 / 2 ^ 32
            + (sec * 2 ^ 32 + f) / 2 ^ 32 * 1000)
          % 2 ^ 64
        ≡ f * 1000 / 2 ^ 32 + sec * 1000 =
      omega (arith, mask) in
    rw (e, read) (omega arith, omega arith)
