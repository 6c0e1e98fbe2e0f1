-- ===== src/Stream/Totals.antt =====
-- The differences that `update_stats` reports, added up.
use rsfu.Prelude.{ℕ, ◌+◌, ◌%◌, ◌^◌, ◌<◌, ◌≡◌, true, List, [], ◌∷◌, arith, if◌then◌else◌}
use rsfu.Stream.{Stats, StreamStats, differences, update_stats}

module _ {F : Type 0} where
  abbrev pub update_all : StreamStats F → List (Stats F) → StreamStats F
  update_all s [] = s
  update_all s (stats ∷ rest) = update_all (update_stats s stats).0 rest

  -- The differences of the bytes and of the packets, over the calls that report any.
  abbrev pub reported : StreamStats F → List (Stats F) → ℕ × ℕ
  reported s [] = (0, 0)
  reported s (stats ∷ rest) =
      let (s', (has, diff)) = update_stats s stats in
      let (bytes, packets) = reported s' rest in
      if has then (diff.total_byte + bytes, diff.packet_count + packets) else (bytes, packets)

  -- The counters fit their integers.
  abbrev pub AreCounters : List (Stats F) → Type 0
  AreCounters [] = Unit {0}
  AreCounters (stats ∷ rest) =
      (stats.total_byte < 2 ^ 64) × (stats.packet_count < 2 ^ 32) × AreCounters rest

  -- A state after a first call.
  abbrev pub begun : Stats F → Stats F → StreamStats F
  begun last diff = record { has_stas = true; last_stats = last; diff_stats = diff }

  -- From a state after a first call, and over any further calls, the differences of the bytes that are
  -- reported add up to the change of the counter from the first to the last, modulo 2 ^ 64; those of
  -- the packets modulo 2 ^ 32.
  pub update_all-reported :
      (last diff : Stats F) (all : List (Stats F))
      → last.total_byte < 2 ^ 64
      → last.packet_count < 2 ^ 32
      → AreCounters all
      → let s = begun last diff in
        let end = (update_all s all).last_stats in
        ((last.total_byte + (reported s all).0) % 2 ^ 64 ≡ end.total_byte)
        × ((last.packet_count + (reported s all).1) % 2 ^ 32 ≡ end.packet_count)
  unfolding update_stats differences
  update_all-reported last diff [] b p c = (omega arith, omega arith)
  update_all-reported last diff (stats ∷ rest) b p (b', p', c) =
      let (bytes, packets) = update_all-reported stats (differences diff last stats) rest b' p' c in
      (omega (arith, bytes), omega (arith, packets))
