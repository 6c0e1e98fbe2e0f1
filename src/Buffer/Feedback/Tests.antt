-- ===== src/Buffer/Feedback/Tests.antt =====
-- A report on 37 packets of which 7 were lost.
use rsfu.Prelude.{ℕ, ◌≡◌, refl, arith, false}
use rsfu.Buffer.State.{Buffer, new}
use rsfu.Buffer.Feedback.{Floats, build_reception_report}
use rsfu.Buffer.Feedback.Reports.{build_reception_report_lem}

-- Whole numbers in the place of floating point ones.
abbrev whole : Floats ℕ
whole = record {
  transit = λ _ _ _. 0;
  as_u32 = λ n. n;
  next_jitter = λ j _ _. j;
  loss = λ _ _. 0;
  is_low = λ _. false;
  is_high = λ _. false;
  raised = λ n. n;
  lowered = λ n _. n;
}

abbrev counted : Buffer ℕ
counted = record (new 0 7) {
  cycles = 65536;
  max_seq_no = 100;
  base_sn = 65500;
  stats = record (new 0 7).stats { packet_count = 130; last_expected = 100; last_received = 100 };
}

build_reception_report_lem_example :
    let (b', report) = build_reception_report whole counted 5 in
    (report.last_sequence_number ≡ 65636)
    × (report.total_lost ≡ 7)
    × (report.fraction_lost ≡ 48)
    × (b'.stats.last_expected ≡ 137)
    × (b'.stats.last_received ≡ 130)
build_reception_report_lem_example =
    build_reception_report_lem whole counted 1 5 137 7 37 refl (omega arith) refl (omega arith)
      (omega arith) (omega arith) (omega arith) refl (omega arith) refl
