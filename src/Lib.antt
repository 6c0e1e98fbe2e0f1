-- ===== src/Lib.antt =====
-- rsfu, a selective forwarding unit for WebRTC: publishers send RTP streams, the server keeps the
-- last packets of each, asks for what is missing, and forwards to subscribers. A publisher's packets
-- enter a buffer, which puts them into the bucket and notes the gaps in the NACK queue, reads of a
-- payload's header whether it begins a key frame, and hands them on; a subscriber that asks for a
-- packet again is to be served from the bucket. Peers join sessions, and negotiate with the server what
-- they send and receive.
--
-- Files. `Prelude` holds what the parts share: Boolean tests, lists over the native numbers, signed
-- integers, byte arrays, bits, and `Outcome` (a value, an error of the crate, or a panic).
--   Buffer/Bucket  rsfu/src/buffer/bucket.rs: the array of the last packets (`Bucket`: `new`,
--                  `add_packet`, `push`, `set`, `get`, `get_packet`; `distance`). Its children:
--                  Slots (bytes of a slot), Window (positions of sequence numbers), InOrder (packets
--                  that arrive in order), Late (late packets, gaps, errors).
--   Buffer/Nack    rsfu/src/buffer/nack.rs: the queue of missing packets (`NackQueue`: `push`,
--                  `remove`, `pairs`). Its children: Queue (the order of the entries), Asking (what
--                  is asked for how often), Pairs (the pairs list just what is asked for), Limit
--                  (how often they name a packet).
--   Buffer/Vp8     rsfu/src/buffer/helpers.rs, `VP8::unmarshal`, and rsfu/src/sfu/helpers.rs,
--                  `modify_vp8_temporal_payload`. Its children: Descriptor (the descriptor of
--                  RFC 7741 written out), Reads (a field at a time), Format (the whole), Safety (no
--                  index out of range), Rewrite (the fields overwritten).
--   Buffer/H264    rsfu/src/buffer/helpers.rs, `is_h264_keyframe`. Its children: Units (the
--                  aggregation packets of RFC 6184 written out), Pieces (the loop over them), Safety (no index out of range).
--   Buffer/State   rsfu/src/buffer/buffer.rs: the state of a buffer (`Buffer`, `ExtPacket`), and how
--                  `calc` numbers packets and notes gaps. Its children: Sequence (the numbers told by
--                  arithmetic), Gaps (what is noted).
--   Buffer/Feedback  the same file: `build_nack_packet`, `build_remb_packet`,
--                  `build_reception_report`, `set_sender_report_data`. Its child: Reports.
--   Buffer/Calc    the same file: `calc` from the packet to its callbacks. Its children: Keeps (what
--                  stays as it was), Arrivals (a stream without loss).
--   Buffer/Endpoint  the same file: `bind`, `write`, `read_extended`, `read`, `get_packet`, `get_rtcp`, with
--                  the lock. Its children: Binding, Queue (readers that wait).
--   Rtp            the data of the rtp and rtcp crates, and their functions as parameters.
--   Sfu/Sequencer  rsfu/src/sfu/sequencer.rs: what a subscriber's track has sent (`push`,
--                  `get_seq_no_pairs`, the VP8 numbers of a packet). Its children: Meta, Resend (a packet
--                  at the head), Late (late packets and unknown numbers).
--   Sfu/AudioObserver  rsfu/src/sfu/audio_observer.rs: which streams are loud. Its children: Observe
--                  (the counters), Calc (what is reported), Order (in which order).
--   Sfu/Timestamps rsfu/src/sfu/helpers.rs (`to_ntp_time`, `ntp_to_millis_since_epoch`,
--                  `fast_forward_timestamp_amount`) and the order of timestamps at the end of
--                  rsfu/src/buffer/buffer.rs. Its children: Ntp, Forward.
--   Sfu/Codecs     rsfu/src/sfu/helpers.rs, `codec_parameters_fuzzy_search`. Its child: Search.
--   Sfu/DownTrack  rsfu/src/sfu/down_track.rs, down_track_internal.rs, simulcast.rs: a subscriber's track,
--                  and streams that are forwarded as they are. Its children: Simulcast (streams with
--                  layers), Layers (which layer), Feedback (`bind`, the subscriber's RTCP packets);
--                  Forwarding and Continuity (a stream, through a mute), Takeover (a source that takes
--                  over), Switching, Keeping and Runs (any steps after a binding).
--   Sfu/Receiver   rsfu/src/sfu/receiver.rs: the publisher's side of a track. Its children: Throttle (requests
--                  for key frames, switches), Uplink (a new track of the publisher), Resend
--                  (`retransmit_packets`).
--   Buffer/Factory  rsfu/src/buffer/factory.rs, rtcpreader.rs: the buffers of the streams, and who shares one.
--                  Its child: Sharing.
--   Sfu/Connection  the peer connections of the webrtc crate: the calls, and what code that makes them
--                  comes to; rsfu/src/sfu/errors.rs.
--   Sfu/Subscriber  rsfu/src/sfu/subscriber.rs, rsfu/src/middlewares/middlewares.rs: the side of a peer that
--                  receives. Its children: Candidates, Reports, Tracks.
--   Sfu/Publisher  rsfu/src/sfu/publisher.rs: the side that sends. Its child: Answers.
--   Sfu/Peer       rsfu/src/sfu/peer.rs: the signalling. Its child: Negotiation (offers and answers).
--   Sfu/Router     rsfu/src/sfu/router.rs: the receivers of a publisher, and the tracks that subscribers
--                  get of them. Its children: Publishing (`add_receiver`), Downlink (`add_down_track`).
--   Sfu/Session    rsfu/src/sfu/session.rs: the peers of a room. Its children: Members, Channels (data
--                  channels), Subscribing (`subscribe`), Joining (`join` and `close` of
--                  rsfu/src/sfu/peer.rs), Landing and Entry (what `join` leaves).
--   Sfu/Server     rsfu/src/sfu/sfu.rs: the sessions, and the settings. Its child: Rooms (a session's life).
--   Twcc           rsfu/src/twcc/twcc.rs: the feedback on transport-wide numbers. Its children: Build
--                  (`build_transport_cc_packet`), Symbols (the chunks read back), Newest (which packets
--                  a report tells of).
--   Stream         rsfu/src/stats/stream.rs, `update_stats`. Its child: Totals.
--
-- Each component has a module Tests, with runs at concrete inputs.
--
-- Conventions. Arithmetic on unsigned integers wraps, as in a release build; an `i32` that counts slots
-- or indices is an exact integer. An index out of range, a slice of another length in
-- `copy_from_slice`, and `unwrap` of nothing are the outcome `panic` (in Vp8, `panicked`). A `vec![0; n]`
-- has the capacity n. `binary_search_by_key` is taken as its documentation has it: the place of an entry
-- with that key, or the place where one belongs. Each loop is a recursion on the list it runs over, but
-- the scan of `is_h264_keyframe`: its fuel is the payload's length, and it is proved to be enough, as
-- each round takes at least two bytes.
--
-- The clock is an argument of each operation that reads it. Floating point numbers are of any type, and
-- the expressions that work with them are parameters (`Floats`), as are the functions of the rtp crate
-- (`RtpCrate`) and the names of the webrtc crates (`WebrtcNames`). A callback that is set is an event of
-- the operation that makes it; what the callback does is not part of the operation. An operation takes
-- its locks at once; where its own task holds the lock already, it is `blocked` and never goes on. What
-- other tasks do while `read_extended` sleeps is a list, one entry for each round.
--
-- An `i32` of a track or of an audio stream is its 32 bits, compared with their sign. Of the calls that a track makes of its
-- receiver and of the webrtc crate a parameter says which fail. `Step` and `Runs` in Sfu/DownTrack/Runs
-- are the steps of a track in any order.
--
-- A peer joins a session; its publisher has a router, which makes a receiver for each track that comes in
-- (`add_receiver`) and has the session `publish` it to the subscribers of the other peers
-- (`add_down_track`). A subscriber's new track asks the peer for a negotiation (the call `negotiate`). A
-- `HashMap` is a list of its entries (Prelude/Maps), whose order stands for that of its iteration. Of the
-- calls of the webrtc crate a parameter says which fail, and the result lists them in their order. The
-- loop of `down_track_reports` has fuel, which is proved to be enough.
--
-- Not modelled: the asynchronous shell (tokio tasks, channels, and locks but where a task waits for
-- itself); the relays; reading the configuration's file, and TURN; the JSON-RPC server; the
-- Prometheus counters of the statistics; and of the receiver `write_rtp`, which works on
-- tracks that it shares: of it there is that it holds the lock of the buffers.
pub mod Prelude
pub mod Buffer
pub mod Sfu
pub mod Stream
pub mod Rtp
pub mod Twcc
