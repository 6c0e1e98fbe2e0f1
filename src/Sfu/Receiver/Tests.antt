-- ===== src/Sfu/Receiver/Tests.antt =====
-- A receiver with no tracks, a bucket with one packet, and the theorems at them.
use rsfu.Prelude.{List, true, false, none, some, [], ◌∷◌, arith, ◌≡◌, refl, ok, panic}
use rsfu.Sfu.DownTrack
use rsfu.Sfu.DownTrack.{DownTrack, simulcast_down_track}
use rsfu.Prelude.Int.{pos, ◌-ℤ◌}
use rsfu.Rtp.{RtpCrate, default_packet, picture_loss_indication, transport_layer_nack}
use rsfu.Buffer.Bucket
use rsfu.Buffer.Bucket.{Bucket}
use rsfu.Sfu.Sequencer.{PacketMeta}
use rsfu.Sfu.Receiver.Resend.{retransmit_packets, of_bucket, retransmit_packets-get_packet}
use rsfu.Sfu.Receiver.{Receiver, TrackId}
use rsfu.Sfu.Receiver.Throttle.{Batch}
use rsfu.Sfu.Subscriber.{SetRemoteMedia}

abbrev receiver : Receiver
receiver = record {
  closed = false;
  last_pli = 1000;
  available = λ _. true;
  down_tracks = λ _. [];
  pending = λ _. false;
  pending_tracks = λ _. [];
  is_simulcast = true;
  up_tracks = λ _. none;
  buffers = λ _. none;
  writing = false;
}

-- Of the requests the first and the third go, and the request that comes behind another packet, and
-- the other packet.
abbrev calls : List Batch
calls =
    (1600, picture_loss_indication 1 7 ∷ [])
    ∷ (1700, picture_loss_indication 1 7 ∷ [])
    ∷ (1800, transport_layer_nack 7 [] ∷ picture_loss_indication 1 7 ∷ [])
    ∷ (2100, picture_loss_indication 1 7 ∷ [])
    ∷ []

abbrev track : TrackId
track = record { peer_id = "p"; stream_id = "s"; id = "t" }

abbrev layered : DownTrack
layered =
    record (DownTrack.new
      (record {
        mime_type = "video/vp8";
        clock_rate = 90000;
        sdp_fmtp_line = "";
        payload_type = 96;
      })
      "t" "s" "p" (pos 8) 0) { track_type = simulcast_down_track }

abbrev message : SetRemoteMedia
message = record {
  stream_id = "s";
  video = "high";
  frame_rate = "low";
  audio = true;
  layers = none;
}

-- A packet of five bytes, with the number 3, in the first slot.
abbrev bucket : Bucket
bucket = record {
  buf = 0 ∷ 5 ∷ 128 ∷ 0 ∷ 0 ∷ 3 ∷ 7 ∷ [];
  init = true;
  step = pos 1;
  head_sn = 3;
  max_steps = pos 0;
}

get-bucket : Bucket.get bucket 3 ≡ ok (some (128 ∷ 0 ∷ 0 ∷ 3 ∷ 7 ∷ []))
unfolding Bucket.get Bucket.get_at Bucket.read_slot Bucket.distance ◌-ℤ◌
get-bucket = refl

abbrev meta : PacketMeta
meta = record {
  source_seq_no = 3;
  target_seq_no = 1;
  timestamp = 0;
  last_nack = 0;
  layer = 0;
  misc = 0;
}

abbrev rtp : RtpCrate
rtp = record {
  unmarshal = λ _. some default_packet;
  get_extension = λ _ _. none;
  audio_level = λ _. none;
}

retransmit_packets-get_packet_example :
    retransmit_packets (λ _. false) rtp (of_bucket bucket) (meta ∷ []) layered ≡ panic
retransmit_packets-get_packet_example =
    retransmit_packets-get_packet (λ _. false) rtp bucket layered meta [] (128 ∷ 0 ∷ 0 ∷ 3 ∷ 7 ∷ [])
      (omega arith) get-bucket (omega arith)
