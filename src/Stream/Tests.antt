-- ===== src/Stream/Tests.antt =====
-- Counters of a stream, and a second call at them.
use rsfu.Prelude.{ℕ, ◌≡◌, refl, true}
use rsfu.Stream.{Stats, StreamStats, update_stats, differences}

-- The floating point numbers are not looked at.
abbrev at : ℕ → ℕ → Stats ℕ
at packets bytes = record {
  last_expected = 0;
  last_received = 0;
  lost_rate = 0;
  packet_count = packets;
  jitter = 0;
  total_byte = bytes;
}

abbrev begun : StreamStats ℕ
begun = record { has_stas = true; last_stats = at 10 1000; diff_stats = at 0 0 }

second_call : (update_stats begun (at 15 1600)).1.1 ≡ at 5 600
unfolding update_stats differences
second_call = refl
