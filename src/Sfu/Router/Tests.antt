-- ===== src/Sfu/Router/Tests.antt =====
-- The theorems at a router with no receivers.
use rsfu.Prelude.{Bool, true, false, none, some, [], ◌∷◌, String, ◌≡◌, refl, blocked}
use rsfu.Prelude.Int.{pos}
use rsfu.Prelude.Texts.{same}
use rsfu.Prelude.Maps.{lookup, text_key}
use rsfu.Buffer.Factory
use rsfu.Buffer.State.{video}
use rsfu.Sfu.Connection.{Call, returned}
use rsfu.Sfu.DownTrack.{Codec}
use rsfu.Sfu.Subscriber
use rsfu.Sfu.Subscriber.{Subscriber}
use rsfu.Sfu.Router.{RouterLocal, TrackRemote, Published, Waits, add_receiver}
use rsfu.Sfu.Router.Downlink.{add_down_track, made, add_down_track-add_down_track}
use rsfu.Sfu.Router.Publishing.{
  publishes, router_after, add_receiver-add_receiver, add_receiver-add_up_track,
}

abbrev router : RouterLocal
router = record {
  id = "p";
  twcc = none;
  stats = [];
  with_stats = true;
  max_packet_track = pos 500;
  best_quality_first = true;
  receivers = [];
  buffer_factory = Factory.new 100 100;
  audio_observer = none;
  stopped = false;
}

abbrev codec : Codec
codec = record {
  mime_type = "video/vp8";
  clock_rate = 90000;
  sdp_fmtp_line = "";
  payload_type = 96;
}

abbrev incoming : String → TrackRemote
incoming rid = record { up_track = record { ssrc = 7; rid = rid }; kind = video; codec = codec }

abbrev while_waiting : Bool → Waits
while_waiting lock_given = record { lock_given = lock_given; bind_ends = true }

add_receiver-add_up_track_example :
    add_receiver (while_waiting true) router (incoming "h") "t" "s" ≡ blocked
unfolding lookup same
add_receiver-add_up_track_example =
    add_receiver-add_up_track (while_waiting true) router (incoming "h") "t" "s" refl refl

abbrev after_first : RouterLocal
after_first = router_after router (add_receiver (while_waiting true) router (incoming "") "t" "s")

-- The second call does not end: the first one's task keeps the lock.
add_receiver-add_receiver_example :
    (publishes (add_receiver (while_waiting true) router (incoming "") "t" "s") ≡ some true)
    × (lookup after_first.receivers "u" ≡ lookup router.receivers "u")
    × (publishes (add_receiver (while_waiting false) after_first (incoming "f") "t" "s") ≡ none)
unfolding lookup same
add_receiver-add_receiver_example =
    add_receiver-add_receiver (while_waiting true) (while_waiting false) router (incoming "")
      (incoming "f") "t" "s" "u" "s" refl refl refl refl

abbrev published : Published
published = record {
  track_id = "t";
  stream_id = "s";
  kind = video;
  codec = codec;
  receiver = record {
    closed = false;
    last_pli = 0;
    available = λ _. false;
    down_tracks = λ _. [];
    pending = λ _. false;
    pending_tracks = λ _. [];
    is_simulcast = false;
    up_tracks = λ _. none;
    buffers = λ _. none;
    writing = false;
  };
}

abbrev subscriber : Subscriber
subscriber = Subscriber.new "q"

abbrev once : Subscriber × Published
once = (add_down_track (λ _. false) router 0 (subscriber, published)).0

abbrev twice : Subscriber × Published
twice = (add_down_track (λ _. false) router 0 once).0

add_down_track-add_down_track_example :
    ((add_down_track (λ _. false) router 0 (subscriber, published)).1
      ≡ Call.register_codec ∷ Call.add_transceiver ∷ [])
    × ((add_down_track (λ _. false) router 0 once).1
        ≡ Call.register_codec ∷ Call.add_transceiver ∷ [])
    × (add_down_track (λ _. false) router 0 twice
        ≡ (twice, [], returned (some (made (λ _. false) router 0 subscriber published))))
unfolding lookup
add_down_track-add_down_track_example =
    add_down_track-add_down_track (λ _. false) (λ _. refl) router 0 subscriber published refl
