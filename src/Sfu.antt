-- ===== src/Sfu.antt =====
-- rsfu/src/sfu: the forwarding side.
pub mod AudioObserver
pub mod Sequencer
pub mod Timestamps
pub mod Codecs
pub mod DownTrack
pub mod Session
pub mod Server
pub mod Receiver
pub mod Publisher
pub mod Router
pub mod Peer
pub mod Subscriber
pub mod Connection
