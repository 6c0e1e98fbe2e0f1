-- ===== src/Sfu/DownTrack/Tests.antt =====
-- Tracks of an audio and of a simulcast stream, and the theorems at them.
use rsfu.Prelude.{
  ℕ, suc, ◌≡◌, ◌≢◌, ◌<◌, refl, Bool, true, false, Option, none, some, List, [], ◌∷◌, String, arith,
  Outcome, ok, panic, blocked,
}
use rsfu.Prelude.Int.{ℤ, pos}
use rsfu.Buffer.Vp8
use rsfu.Buffer.Vp8.{Vp8}
use rsfu.Buffer.Nack.{NackPair}
use rsfu.Rtp.{default_packet}
use rsfu.Buffer.State.{ExtPacket}
use rsfu.Sfu.Sequencer
use rsfu.Sfu.Sequencer.{Sequencer, get_seq_no_pairs}
use rsfu.Sfu.DownTrack
use rsfu.Sfu.DownTrack.{
  Codec, DownTrack, DownTrackInternal, Call, Written, simulcast_down_track, new, new_internal, mute,
}
use rsfu.Sfu.DownTrack.Simulcast.{write_rtp, write_simulcast_rtp, set_vp8_temporal_layer}
use rsfu.Sfu.DownTrack.Feedback.{Context, Incoming, picture_loss_indication, bound_to, on_rtcp}
use rsfu.Sfu.DownTrack.Forwarding.{IsLive, renumbered, write_all}
use rsfu.Sfu.DownTrack.Continuity.{write_all-mute, get_seq_no_pairs-write_rtp}
use rsfu.Sfu.DownTrack.Runs.{here, next, muted, Runs-on_rtcp}
use rsfu.Sfu.DownTrack.Takeover.{set_vp8_temporal_layer-panic, write_simulcast_rtp-takeover}

abbrev ms_of : ℤ → ℕ
ms_of _ = 0

abbrev works : Call → Bool
works _ = false

abbrev admits : ℕ → Bool
admits _ = true

abbrev packet_list : NackPair → List ℕ
packet_list _ = []

abbrev opus : Codec
opus = record {
  mime_type = "audio/opus";
  clock_rate = 48000;
  sdp_fmtp_line = "";
  payload_type = 111;
}

abbrev packet : ℕ → ℕ → ℕ → ExtPacket
packet ssrc sn ts = record {
  head = true;
  cycle = 0;
  arrival = pos 5;
  packet = record {
    header = record default_packet.header { sequence_number = sn; timestamp = ts; ssrc = ssrc };
    payload = 1 ∷ 2 ∷ [];
  };
  key_frame = false;
  payload = Vp8.default;
}

abbrev playing_internal : DownTrackInternal
playing_internal = record (new_internal opus "a" "s" (pos 8) 1000) {
  bound = true;
  enabled = true;
  write_stream = true;
  payload_type = 111;
  ssrc = 77;
  sequencer = Sequencer.new (pos 8) 1000;
}

abbrev playing : DownTrack
playing = record (new opus "a" "s" "peer" (pos 8) 1000) {
  track_type = DownTrack.simple_down_track;
  last_sn = 65535;
  last_ts = 480;
  sn_offset = 3;
  ts_offset = 20;
  down_track_local = playing_internal;
}

abbrev playing-IsLive : IsLive playing
playing-IsLive = record { enabled = refl; bound = refl; simple = refl; stream = refl }

-- The number after 65535 is 0.
write_all-mute_example :
    (write_all ms_of works 0 (mute playing true) (packet 5 1 1 ∷ []) ≡ ok (mute playing true, []))
    × ((d' : DownTrack) × (write_all ms_of works 0
            (mute (mute playing true) false)
            (packet 9 700 90 ∷ packet 9 701 95 ∷ [])
          ≡ ok (d', renumbered 111 77 0 481 90 (packet 9 700 90 ∷ packet 9 701 95 ∷ []))))
write_all-mute_example =
    write_all-mute ms_of works 0 playing (packet 5 1 1 ∷ []) 700 (packet 9 700 90)
      (packet 9 701 95 ∷ []) playing-IsLive (omega arith) (omega arith) (omega arith) (omega arith)
      refl (refl, refl, omega arith, (refl, refl, omega arith, tt))

get_seq_no_pairs-write_rtp_example :
    (w : Written) × (s : Sequencer) × (write_rtp ms_of works playing (packet 5 10 500) 0 ≡ ok w)
    × (w.calls ≡ DownTrack.write_rtp (DownTrack.outgoing playing (packet 5 10 500) 7 480) ∷ [])
    × (get_seq_no_pairs w.track.down_track_local.sequencer 1500 (7 ∷ [])
        ≡ ok (
          s,
          record {
            source_seq_no = 10;
            target_seq_no = 7;
            timestamp = 480;
            last_nack = 500;
            layer = 0;
            misc = 0;
          }
              ∷ [],
        ))
unfolding Sequencer.new
get_seq_no_pairs-write_rtp_example =
    get_seq_no_pairs-write_rtp ms_of works 0 playing (packet 5 10 500) 1500 8 0 playing-IsLive refl
      refl (omega arith) (omega arith) refl refl

abbrev context : Context
context = record { ssrc = 77; codec_parameters = opus ∷ []; write_stream = true }

abbrev lower : String → String
lower s = s

abbrev bound_internal : DownTrackInternal
bound_internal = bound_to lower (new_internal opus "a" "s" (pos 8) 1000) context 1000 opus

abbrev bound : DownTrack
bound = record (new opus "a" "s" "peer" (pos 8) 1000) { down_track_local = bound_internal }

-- A key frame is asked for after the track was muted.
Runs-on_rtcp_example :
    on_rtcp packet_list 1500 (mute bound true) (some (picture_loss_indication 1 2 ∷ []))
    ≡ ok (mute bound true, [])
unfolding rsfu.Sfu.DownTrack.Feedback.bind rsfu.Sfu.Codecs.codec_parameters_fuzzy_search
    rsfu.Sfu.Codecs.first_match rsfu.Prelude.Texts.same
Runs-on_rtcp_example =
    Runs-on_rtcp ms_of works admits packet_list lower (new_internal opus "a" "s" (pos 8) 1000)
      bound_internal context 1000 1500 (some (picture_loss_indication 1 2 ∷ [])) refl refl refl
      (next here (muted bound true))

abbrev layered : DownTrack
layered = record playing {
  track_type = simulcast_down_track;
  simulcast = record playing.simulcast { l_ts_calc = pos 5; temporal_supported = false };
  current_spatial_layer = 1;
  target_spatial_layer = 1;
}

set_vp8_temporal_layer-panic_example : set_vp8_temporal_layer playing (packet 5 1 1) ≡ panic
unfolding new rsfu.Sfu.DownTrack.new_track_local
set_vp8_temporal_layer-panic_example = set_vp8_temporal_layer-panic playing (packet 5 1 1) refl

write_simulcast_rtp-takeover_example :
    (w : Written) × (write_simulcast_rtp ms_of works layered (packet 9 700 90) 1 ≡ ok w)
    × (w.calls ≡ DownTrack.write_rtp (DownTrack.outgoing layered (packet 9 700 90) 0 481) ∷ [])
    × (0 < 1)
    × (w.track.last_sn ≡ 0)
    × (w.track.last_ts ≡ 481)
    × (w.track.down_track_local.last_ssrc ≡ 9)
unfolding rsfu.Sfu.DownTrack.Simulcast.ticks
write_simulcast_rtp-takeover_example =
    write_simulcast_rtp-takeover ms_of works layered (packet 9 700 90) 1 refl refl refl
      (omega arith) refl refl refl (omega arith) (omega arith) (omega arith)
