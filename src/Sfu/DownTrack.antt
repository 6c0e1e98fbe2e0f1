-- ===== src/Sfu/DownTrack.antt =====
-- rsfu/src/sfu/down_track.rs, down_track_internal.rs, simulcast.rs: a subscriber's track. Here its
-- state, its plain operations, and the streams that it forwards as they are (`write_simple_rtp`). An
-- `i32` and an atomic one is its 32 bits. The calls that a track makes of its receiver and of the webrtc
-- crate's writer are in its result, in their order; whether such a call fails is a parameter.
pub mod Simulcast
pub mod Layers
pub mod Feedback
pub mod Forwarding
pub mod Continuity
pub mod Keeping
pub mod Runs
pub mod Switching
pub mod Takeover
mod Tests
use text.Mathlib.Text
use rsfu.Prelude.{
  ℕ, ◌+◌, ◌-◌, ◌*◌, ◌/◌, ◌%◌, ◌^◌, Bool, true, false, not, ◌&&◌, ◌||◌, Option, none, some, List, [],
  ◌∷◌, String, ltb, ◌==◌, if◌then◌else◌, length, bit_or,
}
use rsfu.Prelude.Int.{ℤ, pos}
use rsfu.Rtp.{Packet, Rtcp, picture_loss_indication, sub_u16, sub_u32}
use rsfu.Buffer.State.{ExtPacket, CodecType, audio, video, unspecified}
use rsfu.Sfu.Sequencer
use rsfu.Sfu.Sequencer.{Sequencer}

pub data DownTrackType : Type 0 where
  simple_down_track simulcast_down_track : DownTrackType

pub record SimulcastTrackHelpers : Type 0 where
  pub switch_delay : ℕ
  pub temporal_supported : Bool
  pub temporal_enabled : Bool
  pub l_ts_calc : ℤ
  pub p_ref_pic_id : ℕ
  pub ref_pic_id : ℕ
  pub l_pic_id : ℕ
  pub p_ref_tlz_idx : ℕ
  pub ref_tlz_idx : ℕ
  pub l_tlz_idx : ℕ
  pub ref_sn : ℕ

abbrev pub new_helpers : ℕ → SimulcastTrackHelpers
new_helpers now = record {
  switch_delay = now;
  temporal_supported = false;
  temporal_enabled = false;
  l_ts_calc = pos 0;
  p_ref_pic_id = 0;
  ref_pic_id = 0;
  l_pic_id = 0;
  p_ref_tlz_idx = 0;
  ref_tlz_idx = 0;
  l_tlz_idx = 0;
  ref_sn = 0;
}

-- The capability of a codec, with the payload type that the negotiation gave it.
pub record Codec : Type 0 where
  pub mime_type : String
  pub clock_rate : ℕ
  pub sdp_fmtp_line : String
  pub payload_type : ℕ

-- What the callback for RTCP packets took from the track when it was made.
pub record Captured : Type 0 where
  pub enabled : Bool
  pub last_ssrc : ℕ
  pub ssrc : ℕ

pub record DownTrackInternal : Type 0 where
  pub id : String
  pub bound : Bool
  pub mime : String
  pub ssrc : ℕ
  pub stream_id : String
  pub max_track : ℤ
  pub payload_type : ℕ
  pub sequencer : Sequencer
  pub rtcp_callback : Option Captured
  pub enabled : Bool
  pub re_sync : Bool
  pub last_ssrc : ℕ
  pub codec : Codec
  pub write_stream : Bool
  pub on_bind_handler : Bool

abbrev pub new_internal : Codec → String → String → ℤ → ℕ → DownTrackInternal
new_internal c id stream_id max_track now = record {
  id = id;
  bound = false;
  mime = "";
  ssrc = 0;
  stream_id = stream_id;
  max_track = max_track;
  payload_type = 0;
  sequencer = Sequencer.new (pos 0) now;
  rtcp_callback = none;
  enabled = false;
  re_sync = false;
  last_ssrc = 0;
  codec = c;
  write_stream = false;
  on_bind_handler = false;
}

pub record DownTrack : Type 0 where
  pub peer_id : String
  pub track_type : DownTrackType
  pub payload : List ℕ
  pub current_spatial_layer : ℕ
  pub target_spatial_layer : ℕ
  pub temporal_layer : ℕ
  pub sn_offset : ℕ
  pub ts_offset : ℕ
  pub last_sn : ℕ
  pub last_ts : ℕ
  pub simulcast : SimulcastTrackHelpers
  pub max_spatial_layer : ℕ
  pub max_temporal_layer : ℕ
  pub on_close_handler : Bool
  pub octet_count : ℕ
  pub packet_count : ℕ
  pub down_track_local : DownTrackInternal

unfoldable pub new_track_local : String → DownTrackInternal → ℕ → DownTrack
new_track_local peer_id track now = record {
  peer_id = peer_id;
  track_type = simple_down_track;
  payload = [];
  current_spatial_layer = 0;
  target_spatial_layer = 0;
  temporal_layer = 0;
  sn_offset = 0;
  ts_offset = 0;
  last_sn = 0;
  last_ts = 0;
  simulcast = new_helpers now;
  max_spatial_layer = 0;
  max_temporal_layer = 0;
  on_close_handler = false;
  octet_count = 0;
  packet_count = 0;
  down_track_local = track;
}

unfoldable pub new : Codec → String → String → String → ℤ → ℕ → DownTrack
new c id stream_id peer_id mt now = new_track_local peer_id (new_internal c id stream_id mt now) now

-- The calls that a track makes; `failed` says that the last of them failed.
pub data Call : Type 0 where
  send_rtcp : List Rtcp → Call
  write_rtp : Packet → Call

pub record Written : Type 0 where
  pub track : DownTrack
  pub calls : List Call
  pub failed : Bool

abbrev pub set_max_spatial_layer : DownTrack → ℕ → DownTrack
set_max_spatial_layer d val = record d { max_spatial_layer = val }

-- The other field is not written.
abbrev pub set_max_temporal_layer : DownTrack → ℕ → DownTrack
set_max_temporal_layer d val = record d { max_spatial_layer = val }

abbrev pub set_last_ssrc : DownTrack → ℕ → DownTrack
set_last_ssrc d val = record d { down_track_local = record d.down_track_local { last_ssrc = val } }

abbrev pub set_track_type : DownTrack → DownTrackType → DownTrack
set_track_type d track_type = record d { track_type = track_type }

unfoldable pub mute : DownTrack → Bool → DownTrack
mute d val = if (if d.down_track_local.enabled then not val else val) then d else record d {
  down_track_local = record d.down_track_local {
    enabled = not val;
    re_sync = val || d.down_track_local.re_sync;
  };
}

unfoldable pub update_stats : DownTrack → ℕ → DownTrack
update_stats d packet_len = record d { octet_count = packet_len; packet_count = 1 }

abbrev pub kind : DownTrackInternal → CodecType
kind t =
    if Text.starts_with t.codec.mime_type "audio/"
    then audio
    else if Text.starts_with t.codec.mime_type "video/"
    then video
    else unspecified

abbrev pub is_video : CodecType → Bool
is_video video = true
is_video audio = false
is_video unspecified = false

-- A source that begins anew: what was sent last goes on.
unfoldable pub re_synced : DownTrack → ExtPacket → DownTrack
re_synced d p =
    let h = p.packet.header in
    record d {
      sn_offset =
          if d.last_sn == 0 then d.sn_offset else sub_u16 (sub_u16 h.sequence_number d.last_sn) 1;
      ts_offset = if d.last_sn == 0 then d.ts_offset else sub_u32 (sub_u32 h.timestamp d.last_ts) 1;
      down_track_local = record d.down_track_local { last_ssrc = h.ssrc; re_sync = false };
    }

-- A packet with the track's own numbers.
abbrev pub outgoing : DownTrack → ExtPacket → ℕ → ℕ → Packet
outgoing d p new_sn new_ts = record p.packet {
  header = record p.packet.header {
    payload_type = d.down_track_local.payload_type;
    timestamp = new_ts;
    sequence_number = new_sn;
    ssrc = d.down_track_local.ssrc;
  };
}

module _ (fails : Call → Bool) where
  unfoldable pub call : DownTrack → Call → Written
  call d c = record { track = d; calls = c ∷ []; failed = fails c }

  -- With no stream to write to nothing is written.
  unfoldable pub write_out : DownTrack → Packet → Written
  write_out d p =
      if d.down_track_local.write_stream
      then call d (write_rtp p)
      else record { track = d; calls = []; failed = false }

  unfoldable pub forward_simple : DownTrack → ExtPacket → Written
  forward_simple d p =
      let d = update_stats d (length p.packet.payload % 2 ^ 32) in
      let h = p.packet.header in
      let new_sn = sub_u16 h.sequence_number d.sn_offset in
      let new_ts = sub_u32 h.timestamp d.ts_offset in
      let (sequencer, _) =
        Sequencer.push d.down_track_local.sequencer h.sequence_number new_sn new_ts 0 p.head in
      let d : DownTrack = record d {
        last_sn = if p.head then new_sn else d.last_sn;
        last_ts = if p.head then new_ts else d.last_ts;
        down_track_local = record d.down_track_local { sequencer = sequencer };
      } in
      write_out d (outgoing d p new_sn new_ts)

  unfoldable pub write_simple_rtp : DownTrack → ExtPacket → Written
  write_simple_rtp d p =
      let t = d.down_track_local in
      if t.re_sync
      then (if is_video (kind t) && not p.key_frame
          then call d (send_rtcp (picture_loss_indication t.ssrc p.packet.header.ssrc ∷ []))
          else forward_simple (re_synced d p) p)
      else forward_simple d p

  abbrev pub write_raw_rtp : DownTrack → Packet → Written
  write_raw_rtp d p = write_out d p
