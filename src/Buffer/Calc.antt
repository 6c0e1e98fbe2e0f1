-- ===== src/Buffer/Calc.antt =====
-- rsfu/src/buffer/buffer.rs, `AtomicBuffer::calc`: a packet arrives. The callbacks that it makes are
-- the events of its result, in their order. It panics where an index is out of range.
pub mod Arrivals
pub mod Keeps
use rsfu.Prelude.{
  ℕ, ◌+◌, ◌-◌, ◌*◌, ◌/◌, ◌%◌, ◌^◌, Bool, true, false, not, ◌&&◌, ◌||◌, Option, none, some, List, [],
  ◌∷◌, ◌++◌, String, ltb, ◌==◌, if◌then◌else◌, length, drop, Outcome, ok, err, panic, ◌>>=◌,
}
use rsfu.Prelude.Int.{ℤ, pos, negsuc, ◌-ℤ◌, ltb_ℤ, pos_part, neg_part}
use rsfu.Prelude.Bytes.{decode16}
use rsfu.Prelude.Texts.{same}
use rsfu.Buffer.Bucket.{Bucket, add_packet}
use rsfu.Buffer.Vp8
use rsfu.Buffer.Vp8.{done, failed, panicked}
use rsfu.Buffer.H264.{is_h264_keyframe}
use rsfu.Sfu.Timestamps.{is_later_timestamp}
use rsfu.Rtp.{Packet, default_packet, RtpCrate, Rtcp}
use rsfu.Buffer.State.{Buffer, ExtPacket, note_sequence}
use rsfu.Buffer.Feedback.{Floats, build_nack_packet}

-- The callbacks that `calc` makes.
pub data Event : Type 0 where
  transport_wide_cc : ℕ → ℤ → Bool → Event
  audio_level_of : ℕ → Event
  feedback : List Rtcp → Event

abbrev pub report_delta : ℕ
report_delta = 1000000000

abbrev pub is_zero_ℤ : ℤ → Bool
is_zero_ℤ n = pos_part n + neg_part n == 0

-- `buff[0..2]` of an extension that has them.
abbrev pub first_u16 : List ℕ → ℕ
first_u16 ext = elim (decode16 ext) [ none ↦ 0 | some n ↦ n ]

module _ {F : Type 0} (rtp : RtpCrate) (f : Floats F) where
  -- The packet as it stands in the bucket; with no packet `calc` returns here.
  unfoldable pub kept : Buffer F → Bucket × Outcome (List ℕ) → Outcome (Buffer F × Option Packet)
  kept b (bucket, ok bytes) = ok (record b { bucket = some bucket }, rtp.unmarshal bytes)
  kept b (bucket, err _) = ok (record b { bucket = some bucket }, none)
  kept b (bucket, panic) = panic

  unfoldable pub put : Buffer F → List ℕ → ℕ → Option Bucket → Outcome (Buffer F × Option Packet)
  put b pkt sn none = ok (b, some default_packet)
  put b pkt sn (some bucket) = kept b (add_packet bucket pkt sn (sn == b.max_seq_no))

  unfoldable pub count : Buffer F → List ℕ → Buffer F
  count b pkt = record b {
    stats = record b.stats {
      total_byte = (b.stats.total_byte + length pkt) % 2 ^ 64;
      packet_count = (b.stats.packet_count + 1) % 2 ^ 32;
    };
    bitrate_helper = (b.bitrate_helper + length pkt) % 2 ^ 64;
  }

  -- What the codec's payload says; with `none` `calc` returns here.
  unfoldable pub extend : Buffer F → ℕ → Packet → ℤ → Outcome (Option ExtPacket)
  extend b sn packet arrival_time =
      let ep : ExtPacket = record {
        head = sn == b.max_seq_no;
        cycle = b.cycles;
        arrival = arrival_time;
        packet = packet;
        key_frame = false;
        payload = Vp8.default;
      } in
      if same b.mime "video/vp8"
      then (elim (Vp8.unmarshal packet.payload Vp8.default) [
        | done _ v ↦ ok (some (record ep { key_frame = v.is_key_frame; payload = v }))
        | failed _ _ ↦ ok none
        | panicked _ ↦ panic
      ])
      else if same b.mime "video/h264"
      then (elim (is_h264_keyframe packet.payload) [
        | none ↦ panic
        | some r ↦ r >>= λ key. ok (some (record ep { key_frame = key }))
      ])
      else ok (some ep)

  -- The first 25 packets.
  unfoldable pub probe : Buffer F → ℕ → ExtPacket → Buffer F
  probe b sn ep =
      if ltb b.min_packet_probe 25
      then record b {
        base_sn = if ltb sn b.base_sn then sn else b.base_sn;
        max_temporal_layer =
            if same b.mime "video/vp8" && ltb b.max_temporal_layer ep.payload.tid
            then ep.payload.tid
            else b.max_temporal_layer;
        min_packet_probe = b.min_packet_probe + 1;
      }
      else b

  unfoldable pub enqueue : Buffer F → ExtPacket → Buffer F
  enqueue b ep = record b { ext_packets = b.ext_packets ++ ep ∷ [] }

  unfoldable pub note_timestamp : Buffer F → Packet → ℤ → Buffer F
  note_timestamp b packet arrival_time =
      if is_zero_ℤ b.latest_timestamp_time
        || is_later_timestamp packet.header.timestamp b.latest_timestamp
      then record b {
        latest_timestamp = packet.header.timestamp;
        latest_timestamp_time = arrival_time;
      }
      else b

  unfoldable pub note_jitter : Buffer F → Packet → ℤ → Buffer F
  note_jitter b packet arrival_time =
      let transit = f.transit arrival_time b.clock_rate packet.header.timestamp in
      let jitter =
        if b.last_transit == 0
        then b.stats.jitter
        else f.next_jitter b.stats.jitter transit b.last_transit in
      record b { stats = record b.stats { jitter = jitter }; last_transit = f.as_u32 transit }

  unfoldable pub twcc_events : Buffer F → Packet → ℤ → List Event
  twcc_events b packet arrival_time =
      if b.twcc && b.on_transport_wide_cc_handler
      then (elim (rtp.get_extension packet.header b.twcc_ext) [
        | none ↦ []
        | some ext ↦
            if ltb 1 (length ext)
            then transport_wide_cc (first_u16 ext) arrival_time packet.header.marker ∷ []
            else []
      ])
      else []

  unfoldable pub audio_events : Buffer F → Packet → List Event
  audio_events b packet =
      if b.audio_level && b.on_audio_level_handler
      then (elim (rtp.get_extension packet.header b.audio_ext) [
        | none ↦ []
        | some ext ↦ elim (rtp.audio_level ext) [
          | none ↦ []
          | some level ↦ audio_level_of level ∷ []
        ]
      ])
      else []

  unfoldable pub ask : Buffer F → Buffer F × List Event
  ask b = elim b.nacker [
    | none ↦ (b, [])
    | some _ ↦
        let (b', rv) = build_nack_packet b in
        (b', if b.on_feedback_callback_handler then feedback rv ∷ [] else [])
  ]

  -- The bit rate is told once for every second of packets.
  unfoldable pub measure : Buffer F → ℤ → Buffer F
  unfolding ◌-ℤ◌
  measure b arrival_time =
      let diff = arrival_time -ℤ b.last_report in
      if ltb_ℤ diff (pos report_delta) then b else record b {
        bitrate = 8 * b.bitrate_helper * report_delta % 2 ^ 64 / pos_part diff;
        last_report = arrival_time;
        bitrate_helper = 0;
      }

  -- From the packet's number in the queue to the end.
  unfoldable pub finish : Buffer F → ℕ → Packet → ExtPacket → ℤ → Buffer F × List Event
  finish b sn packet ep arrival_time =
      let b = enqueue (probe b sn ep) ep in
      let b = note_jitter (note_timestamp b packet arrival_time) packet arrival_time in
      let (b', asked) = ask b in
      (
        measure b' arrival_time,
        twcc_events b packet arrival_time ++ (audio_events b packet ++ asked),
      )

  unfoldable pub digest : Buffer F → List ℕ → ℕ → Packet → ℤ → Outcome (Buffer F × List Event)
  digest b pkt sn packet arrival_time =
      let b = count b pkt in
      extend b sn packet arrival_time >>= λ e. elim e [
        | none ↦ ok (b, [])
        | some ep ↦ ok (finish b sn packet ep arrival_time)
      ]

  unfoldable pub proceed :
      List ℕ → ℕ → ℤ → Buffer F × Option Packet → Outcome (Buffer F × List Event)
  proceed pkt sn arrival_time (b, none) = ok (b, [])
  proceed pkt sn arrival_time (b, some packet) = digest b pkt sn packet arrival_time

  unfoldable pub calc_sn : Buffer F → List ℕ → ℕ → ℤ → Outcome (Buffer F × List Event)
  calc_sn b pkt sn arrival_time =
      let b = note_sequence b sn arrival_time in
      put b pkt sn b.bucket >>= proceed pkt sn arrival_time

  unfoldable pub calc : Buffer F → List ℕ → ℤ → Outcome (Buffer F × List Event)
  calc b pkt arrival_time = elim (decode16 (drop 2 pkt)) [
    | none ↦ panic
    | some sn ↦ calc_sn b pkt sn arrival_time
  ]
