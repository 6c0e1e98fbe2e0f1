-- ===== src/Buffer.antt =====
-- rsfu/src/buffer: what the receiving side keeps of one incoming stream.
pub mod State
pub mod Feedback
pub mod Calc
pub mod Endpoint
pub mod Bucket
pub mod Nack
pub mod Vp8
pub mod H264
pub mod Factory
