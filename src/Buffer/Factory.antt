-- ===== src/Buffer/Factory.antt =====
-- rsfu/src/buffer/factory.rs and rtcpreader.rs: the buffers and the RTCP readers of the streams. A buffer
-- is shared: what the factory gives is its number, in the order in which buffers are made. A reader is in
-- the factory's map, where its owners change it.
pub mod Sharing
mod Tests
use rsfu.Prelude.{
  ℕ, ◌+◌, Bool, true, false, Option, none, some, List, [], ◌∷◌, if◌then◌else◌, Outcome, ok, err,
  err_io_eof,
}
use rsfu.Prelude.Maps.{HashMap, lookup, insert, number_key}

-- The handlers are there or not. What a handler returns is a future that nothing awaits, so that calling
-- it does nothing.
pub record RtcpReader : Type 0 where
  pub ssrc : ℕ
  pub closed : Bool
  pub on_packet_handler : Bool
  pub on_close_handler : Bool

abbrev pub new_reader : ℕ → RtcpReader
new_reader ssrc = record {
  ssrc = ssrc;
  closed = false;
  on_packet_handler = false;
  on_close_handler = false;
}

abbrev pub on_close : RtcpReader → RtcpReader
on_close r = record r { on_close_handler = true }

abbrev pub on_packet : RtcpReader → RtcpReader
on_packet r = record r { on_packet_handler = true }

abbrev pub read : RtcpReader → Outcome ℕ
read r = ok 0

-- The count is 9, whatever the packet.
abbrev pub write : RtcpReader → List ℕ → Outcome ℕ
write r p = if r.closed then err err_io_eof else ok 9

abbrev pub close : RtcpReader → RtcpReader
close r = record r { closed = true }

-- `made` is the number of buffers that were made.
pub record Factory : Type 0 where
  pub video_pool_size : ℕ
  pub audio_pool_size : ℕ
  pub rtp_buffers : HashMap ℕ ℕ
  pub rtcp_readers : HashMap ℕ RtcpReader
  pub made : ℕ

abbrev pub new : ℕ → ℕ → Factory
new video_pool_size audio_pool_size = record {
  video_pool_size = video_pool_size;
  audio_pool_size = audio_pool_size;
  rtp_buffers = [];
  rtcp_readers = [];
  made = 0;
}

abbrev pub buffer_or_new : Factory → ℕ → Option ℕ → ℕ × Factory
buffer_or_new f ssrc (some b) = (b, f)
buffer_or_new f ssrc none =
    (f.made, record f { rtp_buffers = insert f.rtp_buffers ssrc f.made; made = f.made + 1 })

unfoldable pub get_or_new_buffer : Factory → ℕ → ℕ × Factory
get_or_new_buffer f ssrc = buffer_or_new f ssrc (lookup f.rtp_buffers ssrc)

abbrev pub reader_or_new : Factory → ℕ → Option RtcpReader → RtcpReader × Factory
reader_or_new f ssrc (some r) = (r, f)
reader_or_new f ssrc none =
    (new_reader ssrc, record f { rtcp_readers = insert f.rtcp_readers ssrc (new_reader ssrc) })

unfoldable pub get_or_new_rtcp_buffer : Factory → ℕ → RtcpReader × Factory
get_or_new_rtcp_buffer f ssrc = reader_or_new f ssrc (lookup f.rtcp_readers ssrc)
