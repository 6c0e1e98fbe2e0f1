-- ===== src/Sfu/DownTrack/Feedback.antt =====
-- rsfu/src/sfu/down_track_internal.rs: `bind`, `unbind`, and what a subscriber's RTCP packets come to
-- (`handle_rtcp`). The packets are the crate's `unmarshal` of the bytes; of its error nothing is made.
use text.Mathlib.Text
use mathlib.Core.Option
use rsfu.Prelude.{
  ℕ, Bool, true, false, not, ◌||◌, Option, none, some, List, [], ◌∷◌, ◌++◌, String, ltb, ◌==◌,
  if◌then◌else◌, Outcome, ok, ◌>>=◌,
}
use rsfu.Buffer.Nack.{NackPair}
use rsfu.Sfu.Codecs.{codec_parameters_fuzzy_search}
use rsfu.Sfu.Sequencer
use rsfu.Sfu.Sequencer.{Sequencer, get_seq_no_pairs}
use rsfu.Sfu.DownTrack.{Codec, Captured, DownTrackInternal, DownTrack}

-- What the packets that arrive are, as far as they are told apart. The bit rate is that of the packet
-- `as u64`.
pub data Incoming : Type 0 where
  picture_loss_indication full_intra_request : ℕ → ℕ → Incoming
  receiver_estimated_maximum_bitrate : ℕ → Incoming
  receiver_report : List ℕ → Incoming
  transport_layer_nack : List NackPair → Incoming
  other : Incoming

pub record Handled : Type 0 where
  pub sequencer : Sequencer
  pub fwd_pkts : List Incoming
  pub pli_once : Bool
  pub fir_once : Bool
  pub max_rate_packet_loss : ℕ
  pub expected_min_bitrate : ℕ

unfoldable pub worst : ℕ → List ℕ → ℕ
worst loss [] = loss
worst loss (fraction_lost ∷ rs) =
    worst (if loss == 0 || ltb loss fraction_lost then fraction_lost else loss) rs

module _ (packet_list : NackPair → List ℕ) (now : ℕ) where
  -- The packets that are found are dropped.
  unfoldable pub look_up : Sequencer → List NackPair → Outcome Sequencer
  look_up s [] = ok s
  look_up s (pair ∷ pairs) = get_seq_no_pairs s now (packet_list pair) >>= λ r. look_up r.0 pairs

  module _ (last_ssrc ssrc : ℕ) where
    unfoldable pub handle_packet : Handled → Incoming → Outcome Handled
    handle_packet h (picture_loss_indication _ _) = ok (
        if h.pli_once
        then record h {
          fwd_pkts = h.fwd_pkts ++ picture_loss_indication ssrc last_ssrc ∷ [];
          pli_once = false;
        }
        else h)
    handle_packet h (full_intra_request _ _) = ok (
        if h.fir_once
        then record h {
          fwd_pkts = h.fwd_pkts ++ full_intra_request ssrc last_ssrc ∷ [];
          fir_once = false;
        }
        else h)
    handle_packet h (receiver_estimated_maximum_bitrate bitrate) = ok (
        if h.expected_min_bitrate == 0 || ltb bitrate h.expected_min_bitrate
        then record h { expected_min_bitrate = bitrate }
        else h)
    handle_packet h (receiver_report reports) =
        ok (record h { max_rate_packet_loss = worst h.max_rate_packet_loss reports })
    handle_packet h (transport_layer_nack nacks) =
        look_up h.sequencer nacks >>= λ s. ok (record h { sequencer = s })
    handle_packet h other = ok h

    unfoldable pub handle_packets : Handled → List Incoming → Outcome Handled
    handle_packets h [] = ok h
    handle_packets h (p ∷ ps) = handle_packet h p >>= λ h'. handle_packets h' ps

  -- The sequencer afterwards and the packets sent to the receiver; with none of these it is not called.
  unfoldable pub handle_rtcp :
      Captured → Option (List Incoming) → Sequencer → Outcome (Sequencer × List Incoming)
  handle_rtcp c pkts s = if not c.enabled then ok (s, []) else elim pkts [
    | none ↦ ok (s, [])
    | some ps ↦
        if c.last_ssrc == 0
        then ok (s, [])
        else handle_packets c.last_ssrc c.ssrc
            (record {
              sequencer = s;
              fwd_pkts = [];
              pli_once = true;
              fir_once = true;
              max_rate_packet_loss = 0;
              expected_min_bitrate = 0;
            })
            ps
          >>= λ h. ok (h.sequencer, h.fwd_pkts)
  ]

  -- The callback that the track has: it works with what it captured.
  unfoldable pub answer :
      DownTrack → Option (List Incoming) → Option Captured → Outcome (DownTrack × List Incoming)
  answer d pkts none = ok (d, [])
  answer d pkts (some c) = handle_rtcp c pkts d.down_track_local.sequencer >>= λ r.
      ok (record d { down_track_local = record d.down_track_local { sequencer = r.0 } }, r.1)

  unfoldable pub on_rtcp : DownTrack → Option (List Incoming) → Outcome (DownTrack × List Incoming)
  on_rtcp d pkts = answer d pkts d.down_track_local.rtcp_callback

abbrev pub mime_of : Codec → String
mime_of c = c.mime_type

abbrev pub line_of : Codec → String
line_of c = c.sdp_fmtp_line

-- The context of a binding: its SSRC, the codecs it offers, and whether there is a stream to write to.
pub record Context : Type 0 where
  pub ssrc : ℕ
  pub codec_parameters : List Codec
  pub write_stream : Bool

unfoldable pub bound_to :
    (String → String) → DownTrackInternal → Context → ℕ → Codec → DownTrackInternal
bound_to to_lowercase t context now codec = record t {
  ssrc = context.ssrc;
  payload_type = codec.payload_type;
  write_stream = context.write_stream;
  mime = to_lowercase codec.mime_type;
  re_sync = true;
  enabled = true;
  rtcp_callback = some (record { enabled = true; last_ssrc = t.last_ssrc; ssrc = context.ssrc });
  sequencer =
      if Text.starts_with t.codec.mime_type "video/"
      then Sequencer.new t.max_track now
      else t.sequencer;
  bound = true;
}

-- `none` is the error that no codec fits.
unfoldable pub bind : (String → String) → DownTrackInternal → Context → ℕ → Option DownTrackInternal
bind to_lowercase t context now =
    Option.map (bound_to to_lowercase t context now)
      (codec_parameters_fuzzy_search mime_of line_of t.codec context.codec_parameters)

abbrev pub unbind : DownTrackInternal → DownTrackInternal
unbind t = record t { bound = false }
