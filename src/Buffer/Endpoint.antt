-- ===== src/Buffer/Endpoint.antt =====
-- rsfu/src/buffer/buffer.rs: the ends of an `AtomicBuffer`, with its lock (`bind`, `write`,
-- `read_extended`, `read`, `get_packet`, `get_rtcp`). The lock is not reentrant: a call that takes it
-- while it is held by the same task never goes on.
pub mod Binding
pub mod Queue
mod Tests
use text.Mathlib.Text
use rsfu.Prelude.{Awaited, done, blocked, locked, await}
use rsfu.Prelude.{
  ℕ, ◌+◌, ◌-◌, ◌%◌, ◌^◌, Bool, true, false, not, ◌&&◌, Option, none, some, List, [], ◌∷◌, ◌++◌,
  String, ltb, ◌==◌, if◌then◌else◌, length, get_elem?, Outcome, ok, err, panic, ◌>>=◌, err_io_eof,
  err_buffer_too_small,
}
use rsfu.Prelude.Int.{ℤ, pos}
use rsfu.Prelude.Texts.{same}
use rsfu.Buffer.Bucket
use rsfu.Buffer.Nack
use rsfu.Rtp.{RtpCrate}
use rsfu.Buffer.State.{Buffer, ExtPacket, PendingPacket, CodecType, unspecified, audio, video}
use rsfu.Buffer.Feedback.{Floats, ReceptionReport, build_reception_report, build_remb_packet}
use rsfu.Buffer.Calc.{Event, calc}

-- The codec and the header extensions of `RTCRtpParameters`, and the names that the webrtc crates give.
pub record CodecParameters : Type 0 where
  pub mime_type : String
  pub clock_rate : ℕ
  pub rtcp_feedback : List String

pub record HeaderExtension : Type 0 where
  pub uri : String
  pub id : ℕ

pub record WebrtcNames : Type 0 where
  pub transport_cc_uri : String
  pub audio_level_uri : String
  pub goog_remb : String
  pub transport_cc : String
  pub nack : String
  pub to_lowercase : String → String

pub data Poll (F : Type 0) : Type 0 where
  eof : Poll F
  got : ExtPacket → Buffer F → Poll F
  waits : Poll F

module _ {F : Type 0} where
  -- One round of the loop in `read_extended`; where it waits it sleeps for 10 milliseconds.
  unfoldable pub poll : Buffer F → Poll F
  poll b =
      if b.closed
      then eof
      else elim b.ext_packets [ [] ↦ waits | p ∷ ps ↦ got p (record b { ext_packets = ps }) ]

  -- `out` is the caller's buffer. The index of the next packet to read is not moved.
  unfoldable pub read : Buffer F → List ℕ → Outcome (List ℕ × ℕ)
  read b out =
      if b.closed then err err_io_eof else elim (get_elem? b.pending_packets b.last_packet_read) [
        | none ↦ ok (out, 0)
        | some p ↦
            if ltb (length out) (length p.packet)
            then err err_buffer_too_small
            else if length out == length p.packet
            then ok (p.packet, length p.packet)
            else panic
      ]

  -- It changes nothing: the buffer does not become closed.
  unfoldable pub close : Buffer F → Outcome (Buffer F)
  close b = ok b

  abbrev pub on_close : Buffer F → Buffer F
  on_close b = record b { on_close_handler = true }

  abbrev pub on_transport_wide_cc : Buffer F → Buffer F
  on_transport_wide_cc b = record b { on_transport_wide_cc_handler = true }

  abbrev pub on_feedback_callback : Buffer F → Buffer F
  on_feedback_callback b = record b { on_feedback_callback_handler = true }

  abbrev pub on_audio_level : Buffer F → Buffer F
  on_audio_level b = record b { on_audio_level_handler = true }

  unfoldable pub get_packet : Buffer F → List ℕ → ℕ → Outcome (List ℕ × ℕ)
  get_packet b out sn =
      if b.closed
      then err err_io_eof
      else elim b.bucket [ none ↦ ok (out, 0) | some bucket ↦ Bucket.get_packet bucket out sn ]

-- The first extension with the URI.
unfoldable pub find_twcc : WebrtcNames → ℕ → List HeaderExtension → ℕ
find_twcc names twcc_ext [] = twcc_ext
find_twcc names twcc_ext (e ∷ es) =
    let rest = find_twcc names twcc_ext es in
    if same e.uri names.transport_cc_uri then e.id % 2 ^ 8 else rest

module _ (names : WebrtcNames) {F : Type 0} where
  unfoldable pub use_feedback : Buffer F → List String → Buffer F
  use_feedback b [] = b
  use_feedback b (t ∷ ts) =
      use_feedback
        (if same t names.goog_remb
          then record b { remb = true }
          else if same t names.transport_cc
          then record b { twcc = true }
          else if same t names.nack
          then record b { nack = true; nacker = some Nack.new }
          else b)
        ts

  unfoldable pub use_audio_level : Buffer F → List HeaderExtension → Buffer F
  use_audio_level b [] = b
  use_audio_level b (e ∷ es) =
      use_audio_level
        (if same e.uri names.audio_level_uri
          then record b { audio_level = true; audio_ext = e.id % 2 ^ 8 }
          else b)
        es

  unfoldable pub use_codec : Buffer F → CodecParameters → List HeaderExtension → Buffer F
  use_codec b codec extensions = elim b.codec_type [
    | video ↦ use_feedback b codec.rtcp_feedback
    | audio ↦ use_audio_level b extensions
    | unspecified ↦ b
  ]

  unfoldable pub use_mime : Buffer F → Buffer F
  use_mime b =
      if Text.starts_with b.mime "audio/"
      then record b { codec_type = audio; bucket = some (Bucket.new b.audio_pool_len) }
      else if Text.starts_with b.mime "video/"
      then record b { codec_type = video; bucket = some (Bucket.new b.video_pool_len) }
      else record b { codec_type = unspecified }

  -- `bind` up to the packets that came before it.
  unfoldable pub configure : Buffer F → CodecParameters → List HeaderExtension → ℕ → Buffer F
  configure b codec extensions max_bitrate =
      let b = use_mime (record b {
        clock_rate = codec.clock_rate;
        max_bitrate = max_bitrate;
        mime = names.to_lowercase codec.mime_type;
      }) in
      use_codec (record b { twcc_ext = find_twcc names b.twcc_ext extensions }) codec extensions

module _ {F : Type 0} (rtp : RtpCrate) (f : Floats F) where
  unfoldable pub write : Buffer F → List ℕ → ℕ → Outcome (Buffer F × List Event)
  write b pkt now =
      if not b.bound
      then ok (
        record b {
          pending_packets = b.pending_packets ++ record { arrival_time = now; packet = pkt } ∷ [];
        },
        [],
      )
      else calc rtp f b pkt (pos now)

  -- The packets that came before `bind`, through `calc`, which takes the lock.
  unfoldable pub replay :
      Bool → Buffer F → List PendingPacket → List Event → Awaited (Outcome (Buffer F × List Event))
  replay held b [] events = done (ok (b, events))
  replay held b (p ∷ ps) events =
      await (locked held (calc rtp f b p.packet (pos p.arrival_time))) λ o. elim o [
        | ok r ↦ replay held r.0 ps (events ++ r.1)
        | err e ↦ done (err e)
        | panic ↦ done panic
      ]

  unfoldable pub bind :
      WebrtcNames
      → Buffer F
      → CodecParameters
      → List HeaderExtension
      → ℕ
      → Awaited (Outcome (Buffer F × List Event))
  bind names b codec extensions max_bitrate =
      let b = configure names b codec extensions max_bitrate in
      await (replay true b b.pending_packets [])
        λ o. done (o >>= λ r. ok (record r.0 { pending_packets = []; bound = true }, r.1))

  -- The lock is held while the report is built.
  unfoldable pub get_rtcp : Buffer F → ℕ → Awaited (Buffer F × ReceptionReport × Option (ℕ × ℕ))
  get_rtcp b now = await (locked true (build_reception_report f b now)) λ r.
      if b.remb && not b.twcc
      then await (locked true (build_remb_packet f r.0)) (λ r'. done (r'.0, r.1, some r'.1))
      else done (r.0, r.1, none)
