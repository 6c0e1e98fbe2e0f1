-- ===== src/Buffer/State.antt =====
-- rsfu/src/buffer/buffer.rs: the state of a buffer (`Buffer`, `ExtPacket`, `PendingPackets`,
-- `Buffer::new`), and the numbering of the packets that `AtomicBuffer::calc` begins with. Of a callback
-- the state says whether it is set. Floating point numbers are of any type. Two fields that nothing
-- reads or writes are left out.
pub mod Sequence
pub mod Gaps
mod Tests
use rsfu.Prelude.{
  ℕ, zero, suc, ◌+◌, ◌-◌, ◌*◌, ◌%◌, ◌^◌, Bool, true, false, ◌&&◌, Option, none, some, List, [], ◌∷◌,
  String, ltb, ◌==◌, if◌then◌else◌, bit_and, bit_or,
}
use rsfu.Prelude.Int.{ℤ, pos}
use rsfu.Buffer.Bucket.{Bucket, distance}
use rsfu.Buffer.Nack
use rsfu.Buffer.Nack.{NackQueue}
use rsfu.Buffer.Vp8.{Vp8}
use rsfu.Stream.{Stats}
use rsfu.Rtp.{Packet, sub_u16, sub_u32}

pub data CodecType : Type 0 where
  unspecified audio video : CodecType

pub record PendingPacket : Type 0 where
  pub arrival_time : ℕ
  pub packet : List ℕ

pub record ExtPacket : Type 0 where
  pub head : Bool
  pub cycle : ℕ
  pub arrival : ℤ
  pub packet : Packet
  pub key_frame : Bool
  pub payload : Vp8

pub record Buffer (F : Type 0) : Type 0 where
  pub bucket : Option Bucket
  pub nacker : Option NackQueue
  pub codec_type : CodecType
  pub ext_packets : List ExtPacket
  pub pending_packets : List PendingPacket
  pub media_ssrc : ℕ
  pub clock_rate : ℕ
  pub max_bitrate : ℕ
  pub last_report : ℤ
  pub twcc_ext : ℕ
  pub audio_ext : ℕ
  pub bound : Bool
  pub closed : Bool
  pub mime : String
  pub remb : Bool
  pub nack : Bool
  pub twcc : Bool
  pub audio_level : Bool
  pub min_packet_probe : ℕ
  pub last_packet_read : ℕ
  pub max_temporal_layer : ℕ
  pub bitrate : ℕ
  pub bitrate_helper : ℕ
  pub last_srntp_time : ℕ
  pub last_srrtp_time : ℕ
  pub last_sr_recv : ℤ
  pub base_sn : ℕ
  pub cycles : ℕ
  pub last_transit : ℕ
  pub max_seq_no : ℕ
  pub stats : Stats F
  pub latest_timestamp : ℕ
  pub latest_timestamp_time : ℤ
  pub video_pool_len : ℕ
  pub audio_pool_len : ℕ
  pub on_close_handler : Bool
  pub on_transport_wide_cc_handler : Bool
  pub on_feedback_callback_handler : Bool
  pub on_audio_level_handler : Bool

-- `f0` is the floating point 0.
unfoldable pub new : {F : Type 0} → F → ℕ → Buffer F
new f0 ssrc = record {
  bucket = none;
  nacker = none;
  codec_type = unspecified;
  ext_packets = [];
  pending_packets = [];
  media_ssrc = ssrc;
  clock_rate = 0;
  max_bitrate = 0;
  last_report = pos 0;
  twcc_ext = 0;
  audio_ext = 0;
  bound = false;
  closed = false;
  mime = "";
  remb = false;
  nack = false;
  twcc = false;
  audio_level = false;
  min_packet_probe = 0;
  last_packet_read = 0;
  max_temporal_layer = 0;
  bitrate = 0;
  bitrate_helper = 0;
  last_srntp_time = 0;
  last_srrtp_time = 0;
  last_sr_recv = pos 0;
  base_sn = 0;
  cycles = 0;
  last_transit = 0;
  max_seq_no = 0;
  stats = record {
    last_expected = 0;
    last_received = 0;
    lost_rate = f0;
    packet_count = 0;
    jitter = f0;
    total_byte = 0;
  };
  latest_timestamp = 0;
  latest_timestamp_time = pos 0;
  video_pool_len = 1500 * 500;
  audio_pool_len = 1500 * 25;
  on_close_handler = false;
  on_transport_wide_cc_handler = false;
  on_feedback_callback_handler = false;
  on_audio_level_handler = false;
}

abbrev pub max_sequence_number : ℕ
max_sequence_number = 2 ^ 16

-- The number with its cycle, of a packet or of one that is missing.
unfoldable pub ext_sn : ℕ → ℕ → ℕ → ℕ
ext_sn cycles max_seq_no sn =
    if ltb max_seq_no sn && (ltb 0 (bit_and sn 0x8000) && bit_and max_seq_no 0x8000 == 0)
    then bit_or (sub_u32 cycles max_sequence_number) sn
    else bit_or cycles sn

-- `for i in 1..diff`, with `n` rounds left.
unfoldable pub push_missing : ℕ → ℕ → ℕ → ℕ → ℕ → NackQueue → NackQueue
push_missing zero i cycles max_seq_no sn q = q
push_missing (suc n) i cycles max_seq_no sn q =
    push_missing n (i + 1) cycles max_seq_no sn
      (Nack.push q (ext_sn cycles max_seq_no (sub_u16 sn i)))

abbrev pub map_nacker : (NackQueue → NackQueue) → Option NackQueue → Option NackQueue
map_nacker f none = none
map_nacker f (some q) = some (f q)

module _ {F : Type 0} where
  -- A packet at the head or beyond it: what lies between is missing.
  unfoldable pub forward : Buffer F → ℕ → Buffer F
  forward b sn =
      let cycles =
        if ltb sn b.max_seq_no then (b.cycles + max_sequence_number) % 2 ^ 32 else b.cycles in
      let missing = push_missing (sub_u16 sn b.max_seq_no - 1) 1 cycles b.max_seq_no sn in
      record b {
        cycles = cycles;
        nacker = if b.nack then map_nacker missing b.nacker else b.nacker;
        max_seq_no = sn;
      }

  -- A packet behind the head is missing no longer.
  unfoldable pub late : Buffer F → ℕ → Buffer F
  late b sn =
      if b.nack
      then record b {
        nacker = map_nacker (λ q. (Nack.remove q (ext_sn b.cycles b.max_seq_no sn)).0) b.nacker;
      }
      else b

  unfoldable pub note_sequence : Buffer F → ℕ → ℤ → Buffer F
  note_sequence b sn arrival_time =
      if b.stats.packet_count == 0
      then record b { base_sn = sn; max_seq_no = sn; last_report = arrival_time }
      else if bit_and (distance sn b.max_seq_no) 0x8000 == 0
      then forward b sn
      else late b sn
