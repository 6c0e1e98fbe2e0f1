-- ===== src/Sfu/Router.antt =====
-- rsfu/src/sfu/router.rs: the tracks that a peer publishes, each with its receiver, and the tracks that
-- subscribers get of them. The receivers are in the router's map, by the track's id. Of the
-- two tasks that `add_receiver` starts, of `write_rtp` there is that it holds the lock of the buffers; the
-- other one reads the track and calls `write` of the buffer (Buffer/Endpoint).
pub mod Downlink
pub mod Publishing
mod Tests
use rsfu.Prelude.{
  ℕ, Bool, true, false, Option, none, some, List, [], ◌∷◌, String, if◌then◌else◌, Awaited, done,
  blocked, await,
}
use rsfu.Prelude.Int.{ℤ}
use rsfu.Prelude.Maps.{HashMap, lookup, insert, remove, text_key, number_key}
use rsfu.Buffer.State.{CodecType, audio, video, unspecified}
use rsfu.Buffer.Factory
use rsfu.Buffer.Factory.{Factory}
use rsfu.Sfu.AudioObserver
use rsfu.Sfu.AudioObserver.{AudioObserver}
use rsfu.Sfu.DownTrack.{Codec}
use rsfu.Sfu.Receiver.{Receiver, UpTrack}
use rsfu.Sfu.Receiver.Uplink

-- A track of the webrtc crate that comes in.
pub record TrackRemote : Type 0 where
  pub up_track : UpTrack
  pub kind : CodecType
  pub codec : Codec

-- A receiver, with what it was made from.
pub record Published : Type 0 where
  pub track_id : String
  pub stream_id : String
  pub kind : CodecType
  pub codec : Codec
  pub receiver : Receiver

-- rsfu/src/stats/stream.rs: a stream's buffer, by its number, and its canonical name.
pub record Stream : Type 0 where
  pub buffer : ℕ
  pub cname : String

-- `twcc` is the source of the responder. `audio_observer` is the session's. `stopped` says whether `stop`
-- was called.
pub record RouterLocal : Type 0 where
  pub id : String
  pub twcc : Option ℕ
  pub stats : HashMap ℕ Stream
  pub with_stats : Bool
  pub max_packet_track : ℤ
  pub best_quality_first : Bool
  pub receivers : HashMap String Published
  pub buffer_factory : Factory
  pub audio_observer : Option AudioObserver
  pub stopped : Bool

-- What a router reads of the configuration here; its band width goes to `bind` (Buffer/Endpoint).
pub record RouterConfig : Type 0 where
  pub with_stats : Bool
  pub max_packet_track : ℤ
  pub best_quality_first : Bool

-- The session's observer is never set.
abbrev pub new : RouterConfig → String → RouterLocal
new config id = record {
  id = id;
  twcc = none;
  stats = [];
  with_stats = config.with_stats;
  max_packet_track = config.max_packet_track;
  best_quality_first = config.best_quality_first;
  receivers = [];
  buffer_factory = Factory.new 100 100;
  audio_observer = none;
  stopped = false;
}

abbrev pub stop : RouterLocal → RouterLocal
stop r = record r { stopped = true }

-- What an audio track is to the observer, and the first video track to the responder.
abbrev pub observed : Option AudioObserver → String → Option AudioObserver
observed none stream_id = none
observed (some o) stream_id = some (AudioObserver.add_stream o stream_id)

abbrev pub responder : Option ℕ → ℕ → Option ℕ
responder none ssrc = some ssrc
responder (some s) ssrc = some s

unfoldable pub with_kind : RouterLocal → CodecType → ℕ → String → RouterLocal
with_kind r audio ssrc stream_id = record r { audio_observer = observed r.audio_observer stream_id }
with_kind r video ssrc stream_id = record r { twcc = responder r.twcc ssrc }
with_kind r unspecified ssrc stream_id = r

-- The reader of the stream's RTCP packets, with its handler.
unfoldable pub with_reader : RouterLocal → ℕ → RouterLocal
with_reader r ssrc =
    let (reader, f) = Factory.get_or_new_rtcp_buffer r.buffer_factory ssrc in
    record r {
      buffer_factory = record f {
        rtcp_readers = insert f.rtcp_readers ssrc (Factory.on_packet reader);
      };
    }

unfoldable pub with_stream : RouterLocal → ℕ → ℕ → RouterLocal
with_stream r ssrc buffer =
    if r.with_stats
    then record r { stats = insert r.stats ssrc (record { buffer = buffer; cname = "" }) }
    else r

-- The receiver of the track, and whether it is a new one.
abbrev pub receiver_or_new : Option Published → TrackRemote → String → String → Published × Bool
receiver_or_new (some p) track track_id stream_id = (p, false)
receiver_or_new none track track_id stream_id = (
  record {
    track_id = track_id;
    stream_id = stream_id;
    kind = track.kind;
    codec = track.codec;
    receiver = Uplink.new track.up_track;
  },
  true,
)

-- What comes before the receivers' lock is taken: the buffer's number, and the router.
unfoldable pub prepared : RouterLocal → TrackRemote → String → ℕ × RouterLocal
prepared r track stream_id =
    let ssrc = track.up_track.ssrc in
    let (buffer, f) = Factory.get_or_new_buffer r.buffer_factory ssrc in
    let r = with_kind (record r { buffer_factory = f }) track.kind ssrc stream_id in
    (buffer, with_reader (with_stream r ssrc buffer) ssrc)

abbrev pub stored : RouterLocal → String → Published → Receiver → RouterLocal
stored r track_id p receiver = record r {
  receivers = insert r.receivers track_id (record p { receiver = receiver });
}

abbrev pub Answer : Type 0
Answer = RouterLocal × Published × Bool × Option ℕ

-- What a call may wait for: the lock that the receiver's task holds, and `bind` of the buffer, which does
-- not end where packets came before it (Buffer/Endpoint).
pub record Waits : Type 0 where
  pub lock_given : Bool
  pub bind_ends : Bool

-- For a track that has a layer a task is started that forwards its packets.
abbrev pub started : Receiver → Option ℕ → Receiver
started receiver none = receiver
started receiver (some _) = record receiver { writing = true }

abbrev pub bound : Bool → Answer → Awaited Answer
bound bind_ends answer = if bind_ends then done answer else blocked

abbrev pub attached :
    Bool → RouterLocal → String → Published → Bool → Awaited (Receiver × Option ℕ) → Awaited Answer
attached bind_ends r track_id p publish up = await up (λ (receiver, layer).
    let receiver' = started receiver layer in
    bound bind_ends
      (stored r track_id p receiver', record p { receiver = receiver' }, publish, layer))

-- The receiver, whether it is new, and the layer that the track is of. What the handler for a new
-- receiver returns is a future that nothing awaits.
unfoldable pub add_receiver : Waits → RouterLocal → TrackRemote → String → String → Awaited Answer
add_receiver w r track track_id stream_id =
    let (buffer, r) = prepared r track stream_id in
    let (p, publish) = receiver_or_new (lookup r.receivers track_id) track track_id stream_id in
    attached w.bind_ends r track_id p publish
      (Uplink.add_up_track w.lock_given p.receiver track.up_track buffer r.best_quality_first)

unfoldable pub delete_receiver : RouterLocal → String → ℕ → RouterLocal
delete_receiver r track ssrc = record r {
  receivers = remove r.receivers track;
  stats = remove r.stats ssrc;
}

abbrev pub unobserved : Option AudioObserver → String → Option AudioObserver
unobserved none stream_id = none
unobserved (some o) stream_id = some (AudioObserver.remove_stream o stream_id)

-- The handler for the end of a receiver.
unfoldable pub on_receiver_close : RouterLocal → Published → ℕ → RouterLocal
on_receiver_close r p ssrc = elim p.kind [
  | audio ↦
      delete_receiver (record r { audio_observer = unobserved r.audio_observer p.stream_id })
        p.track_id ssrc
  | video ↦ delete_receiver r p.track_id ssrc
  | unspecified ↦ delete_receiver r p.track_id ssrc
]
