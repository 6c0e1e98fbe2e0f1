-- ===== src/Buffer/Feedback.antt =====
-- rsfu/src/buffer/buffer.rs: what a buffer tells the sender (`build_nack_packet`,
-- `build_remb_packet`, `build_reception_report`, `set_sender_report_data`). The clock's nanoseconds
-- are an argument. The delay of a reception report is written with integers, as its numbers are small
-- enough for `f32` and `f64` to hold them.
pub mod Reports
mod Tests
use rsfu.Prelude.{
  ℕ, ◌+◌, ◌-◌, ◌*◌, ◌/◌, ◌%◌, ◌^◌, Bool, true, false, not, ◌&&◌, Option, none, some, List, [], ◌∷◌,
  ◌++◌, ltb, ◌==◌, if◌then◌else◌, bit_or,
}
use rsfu.Prelude.Int.{ℤ, pos, negsuc, pos_part, neg_part}
use rsfu.Buffer.Nack.{NackPair, pairs}
use rsfu.Rtp.{Rtcp, transport_layer_nack, picture_loss_indication, sub_u32}
use rsfu.Buffer.State.{Buffer}

-- The expressions of the file that work with floating point numbers.
pub record Floats (F : Type 0) : Type 0 where
  -- `arrival_time / 1e6 * (clock_rate / 1e3) - timestamp`, and that `as u32`
  pub transit : ℤ → ℕ → ℕ → F
  pub as_u32 : F → ℕ
  -- `jitter + (|transit - last_transit| - jitter) / 16`
  pub next_jitter : F → F → ℕ → F
  -- `lost_interval / expected_interval`
  pub loss : ℕ → ℕ → F
  -- `lost_rate < 0.02` and `lost_rate > 0.1`
  pub is_low : F → Bool
  pub is_high : F → Bool
  -- `(br * 1.09) as u64` and `(br * (1.0 - 0.5 * lost_rate)) as u64`
  pub raised : ℕ → ℕ
  pub lowered : ℕ → F → ℕ

pub record ReceptionReport : Type 0 where
  pub ssrc : ℕ
  pub fraction_lost : ℕ
  pub total_lost : ℕ
  pub last_sequence_number : ℕ
  pub jitter : ℕ
  pub last_sender_report : ℕ
  pub delay : ℕ

-- `delay_ms` in units of 1 / 65536 seconds.
abbrev pub delay_of : ℕ → ℕ
delay_of delay_ms = bit_or (delay_ms / 1000 * 2 ^ 16) (delay_ms % 1000 * 65536 / 1000)

-- `as u32` of an `i64`.
abbrev pub low_u32 : ℤ → ℕ
low_u32 (pos n) = n % 2 ^ 32
low_u32 (negsuc n) = 2 ^ 32 - 1 - n % 2 ^ 32

abbrev pub nack_packets : ℕ → Option (List NackPair) → List Rtcp
nack_packets ssrc none = []
nack_packets ssrc (some []) = []
nack_packets ssrc (some (p ∷ ps)) = transport_layer_nack ssrc (p ∷ ps) ∷ []

module _ {F : Type 0} where
  unfoldable pub build_nack_packet : Buffer F → Buffer F × List Rtcp
  build_nack_packet b = elim b.nacker [
    | none ↦ (b, [])
    | some q ↦
        let (q', nacks, ask_key_frame) = pairs q (bit_or b.cycles b.max_seq_no) in
        let pli = if ask_key_frame then picture_loss_indication 0 b.media_ssrc ∷ [] else [] in
        (record b { nacker = some q' }, nack_packets b.media_ssrc nacks ++ pli)
  ]

  module _ (f : Floats F) where
    -- The bit rate and the stream that it is for.
    unfoldable pub build_remb_packet : Buffer F → Buffer F × (ℕ × ℕ)
    build_remb_packet b =
        let br = if f.is_low b.stats.lost_rate then f.raised b.bitrate + 2000 else b.bitrate in
        let br = if f.is_high b.stats.lost_rate then f.lowered br b.stats.lost_rate else br in
        let br = if ltb b.max_bitrate br then b.max_bitrate else br in
        let br = if ltb br 100000 then 100000 else br in
        (record b { stats = record b.stats { total_byte = 0 } }, (br, b.media_ssrc))

    unfoldable pub build_reception_report : Buffer F → ℕ → Buffer F × ReceptionReport
    build_reception_report b now =
        let ext_max_seq = bit_or b.cycles b.max_seq_no in
        let expected = (sub_u32 ext_max_seq b.base_sn + 1) % 2 ^ 32 in
        let count = b.stats.packet_count in
        let lost = if ltb count expected && not (count == 0) then expected - count else 0 in
        let expected_interval = sub_u32 expected b.stats.last_expected in
        let received_interval = sub_u32 count b.stats.last_received in
        let lost_interval = sub_u32 expected_interval received_interval in
        let frac_lost =
          if not (expected_interval == 0) && ltb 0 lost_interval
          then lost_interval * 2 ^ 8 % 2 ^ 32 / expected_interval % 2 ^ 8
          else 0 in
        let delay_ms = sub_u32 now (low_u32 b.last_sr_recv) / 1000000 in
        let dlsr =
          if pos_part b.last_sr_recv + neg_part b.last_sr_recv == 0 then 0 else delay_of delay_ms in
        (
          record b {
            stats = record b.stats {
              last_expected = expected;
              last_received = count;
              lost_rate = f.loss lost_interval expected_interval;
            };
          },
          record {
            ssrc = b.media_ssrc;
            fraction_lost = frac_lost;
            total_lost = lost;
            last_sequence_number = ext_max_seq;
            jitter = f.as_u32 b.stats.jitter;
            last_sender_report = b.last_srrtp_time / 2 ^ 16;
            delay = dlsr;
          },
        )

  unfoldable pub set_sender_report_data : Buffer F → ℕ → ℕ → ℕ → Buffer F
  set_sender_report_data b rtp_time ntp_time now = record b {
    last_srrtp_time = rtp_time;
    last_srntp_time = ntp_time;
    last_sr_recv = pos now;
  }

  abbrev pub get_sender_report_data : Buffer F → ℕ × ℕ × ℤ
  get_sender_report_data b = (b.last_srrtp_time, b.last_srntp_time, b.last_sr_recv)
