-- ===== src/Buffer/Feedback/Reports.antt =====
-- The loss that a reception report tells.
use rsfu.Prelude.{
  ℕ, ◌+◌, ◌-◌, ◌*◌, ◌/◌, ◌%◌, ◌^◌, ◌≤◌, ◌<◌, ◌≡◌, refl, ap, ◌∙◌, false, not, ◌&&◌, arith, ltb, ◌==◌,
  if◌then◌else◌, bit_or, inl, inr, Bool-cases, sym,
}
use rsfu.Prelude.Bits.{bit_or-field}
use native.Mathlib.Nat.{mul-div_cancel_left, div-lt_iff_lt-mul, zero-div}
use rsfu.Rtp.{sub_u32}
use rsfu.Buffer.State.{Buffer}
use rsfu.Buffer.Feedback.{Floats, build_reception_report}

abbrev share : ℕ → ℕ → ℕ
share lost interval =
    if not (interval == 0) && ltb 0 lost then lost * 2 ^ 8 % 2 ^ 32 / interval % 2 ^ 8 else 0

share_lem :
    (lost interval : ℕ)
    → 0 < interval
    → interval < 2 ^ 24
    → lost ≤ interval
    → share lost interval ≡ (if lost == interval then 0 else 256 * lost / interval)
share_lem lost interval pos short h =
    let some_expected : (interval == 0) ≡ false = ground arith in
    let small : lost * 2 ^ 8 % 2 ^ 32 ≡ lost * 256 = omega arith in
    elim (Bool-cases (lost == interval)) [
      | inl e ↦
          let same : lost ≡ interval = ground (arith, e) in
          let whole : lost * 256 / interval ≡ 256 =
            ap (λ n. n * 256 / interval) same ∙ mul-div_cancel_left 256 pos in
          rw (e, some_expected, small, whole) (ground arith)
      | inr e ↦
          let few : lost < interval = ground (arith, e) in
          let below : 256 * lost / interval < 256 = (div-lt_iff_lt-mul pos).1 (omega arith) in
          let turned : lost * 256 ≡ 256 * lost = omega arith in
          elim (Bool-cases (ltb 0 lost)) [
            | inl l ↦ rw (e, some_expected, l, small, turned) (omega (arith, below))
            | inr l ↦
                let none_lost : lost ≡ 0 = ground (arith, l) in
                rw (e, some_expected, l, none_lost) (sym (zero-div interval))
          ]
    ]

module _ {F : Type 0} (f : Floats F) where
  -- The buffer is in cycle `c`, its first number came in cycle 0, and of the packets expected since the
  -- last report none was received twice: the report tells the highest number with its cycle, all that
  -- were expected but never received, and the share of the interval that was lost in units of 1 / 256,
  -- rounded down; but an interval that was lost whole is reported as no loss. The next interval begins
  -- here.
  pub build_reception_report_lem :
      (b : Buffer F) (c now expected lost interval : ℕ)
      → b.cycles ≡ c * 2 ^ 16
      → b.max_seq_no < 2 ^ 16
      → expected + b.base_sn ≡ c * 2 ^ 16 + b.max_seq_no + 1
      → expected < 2 ^ 32
      → 0 < b.stats.packet_count
      → 0 < interval
      → interval < 2 ^ 24
      → b.stats.last_expected + interval ≡ expected
      → lost ≤ interval
      → b.stats.last_received + (interval - lost) ≡ b.stats.packet_count
      → let (b', report) = build_reception_report f b now in
        (report.last_sequence_number ≡ c * 2 ^ 16 + b.max_seq_no)
        × (report.total_lost ≡ expected - b.stats.packet_count)
        × (report.fraction_lost ≡ (if lost == interval then 0 else 256 * lost / interval))
        × (b'.stats.last_expected ≡ expected)
        × (b'.stats.last_received ≡ b.stats.packet_count)
  unfolding build_reception_report
  build_reception_report_lem b c now expected lost interval cycle hm ex he some_came pos short since
        hl got =
      let highest : bit_or b.cycles b.max_seq_no ≡ c * 2 ^ 16 + b.max_seq_no =
        ap (λ n. bit_or n b.max_seq_no) cycle ∙ bit_or-field 16 c b.max_seq_no hm in
      let n = (sub_u32 (c * 2 ^ 16 + b.max_seq_no) b.base_sn + 1) % 2 ^ 32 in
      let wanted : n ≡ expected = omega arith in
      let i : sub_u32 expected b.stats.last_expected ≡ interval = omega arith in
      let r : sub_u32 b.stats.packet_count b.stats.last_received ≡ interval - lost = omega arith in
      let l : sub_u32 interval (interval - lost) ≡ lost = omega arith in
      (
        highest,
        rw (highest, wanted) (ground arith),
        rw (highest, wanted, i, r, l) (share_lem lost interval pos short hl),
        rw (highest, wanted) refl,
        refl,
      )
