-- ===== src/Sfu/Timestamps.antt =====
-- rsfu/src/buffer/buffer.rs, `is_timestamp_wrap_around` and `is_later_timestamp`; and
-- rsfu/src/sfu/helpers.rs, the NTP times and `fast_forward_timestamp_amount`. A time since the epoch is
-- the number of its nanoseconds.
pub mod Ntp
pub mod Forward
mod Tests
use rsfu.Prelude.{
  ℕ, ◌+◌, ◌-◌, ◌*◌, ◌/◌, ◌%◌, ◌^◌, Bool, true, false, ◌&&◌, ltb, leb, ◌==◌, if◌then◌else◌, bit_and,
  bit_or,
}

unfoldable pub is_timestamp_wrap_around : ℕ → ℕ → Bool
is_timestamp_wrap_around timestamp1 timestamp2 =
    bit_and timestamp1 0xC000000 == 0 && bit_and timestamp2 0xC000000 == 0xC000000

unfoldable pub is_later_timestamp : ℕ → ℕ → Bool
is_later_timestamp timestamp1 timestamp2 =
    if ltb timestamp2 timestamp1
    then (if is_timestamp_wrap_around timestamp2 timestamp1 then false else true)
    else if is_timestamp_wrap_around timestamp1 timestamp2
    then true
    else false

unfoldable pub fast_forward_timestamp_amount : ℕ → ℕ → ℕ
fast_forward_timestamp_amount newest reference =
    if is_timestamp_wrap_around newest reference
    then (newest + 2 ^ 32 - reference) % 2 ^ 32
    else if ltb newest reference
    then 0
    else newest - reference

-- The product and the sums are of `u64`, and wrap.
unfoldable pub ntp_to_millis_since_epoch : ℕ → ℕ
ntp_to_millis_since_epoch ntp =
    (bit_and ntp 0xFFFFFFFF * 1000 % 2 ^ 64 / 2 ^ 32 + ntp / 2 ^ 32 * 1000) % 2 ^ 64

unfoldable pub to_ntp_time : ℕ → ℕ
to_ntp_time nanos =
    let nsec = nanos % 2 ^ 64 in
    let sec = nsec / 1000000000 in
    let part = (nsec - sec * 1000000000) * 2 ^ 32 % 2 ^ 64 in
    let frac = part / 1000000000 in
    let rounded = if leb 500000000 (part % 1000000000) then frac + 1 else frac in
    bit_or (sec * 2 ^ 32 % 2 ^ 64) rounded
