-- ===== src/Stream.antt =====
-- rsfu/src/stats/stream.rs, `Stream::update_stats`: what has been received since the last call. `Stats`
-- is from rsfu/src/buffer/buffer.rs; its two floating point numbers are passed on, and of any type.
pub mod Totals
mod Tests
use rsfu.Prelude.{ℕ, ◌+◌, ◌-◌, ◌%◌, ◌^◌, Bool, true, false, if◌then◌else◌}

pub record Stats (F : Type 0) : Type 0 where
  pub last_expected : ℕ
  pub last_received : ℕ
  pub lost_rate : F
  pub packet_count : ℕ
  pub jitter : F
  pub total_byte : ℕ

pub record StreamStats (F : Type 0) : Type 0 where
  pub has_stas : Bool
  pub last_stats : Stats F
  pub diff_stats : Stats F

-- The differences of `u32` and `u64` wrap.
abbrev pub sub_u32 : ℕ → ℕ → ℕ
sub_u32 a b = (a + 2 ^ 32 - b) % 2 ^ 32

abbrev pub sub_u64 : ℕ → ℕ → ℕ
sub_u64 a b = (a + 2 ^ 64 - b) % 2 ^ 64

-- The field `last_expected` is written twice, the second time with the difference of `last_received`.
unfoldable pub differences : {F : Type 0} → Stats F → Stats F → Stats F → Stats F
differences diff last stats =
    let expected = record diff { last_expected = sub_u32 stats.last_expected last.last_expected } in
    record expected {
      last_expected = sub_u32 stats.last_received last.last_received;
      packet_count = sub_u32 stats.packet_count last.packet_count;
      total_byte = sub_u64 stats.total_byte last.total_byte;
    }

unfoldable pub update_stats :
    {F : Type 0} → StreamStats F → Stats F → StreamStats F × (Bool × Stats F)
update_stats s stats =
    let diff = if s.has_stas then differences s.diff_stats s.last_stats stats else s.diff_stats in
    (record { has_stas = true; last_stats = stats; diff_stats = diff }, (s.has_stas, diff))
