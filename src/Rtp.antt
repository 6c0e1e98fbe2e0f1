-- ===== src/Rtp.antt =====
-- Data of the rtp and rtcp crates, with the fields that rsfu reads and writes; what their functions
-- answer is a parameter of the development.
use rsfu.Prelude.{ℕ, ◌+◌, ◌%◌, ◌^◌, ◌-◌, Bool, false, Option, List, []}
use rsfu.Buffer.Nack.{NackPair}

pub record Header : Type 0 where
  pub marker : Bool
  pub payload_type : ℕ
  pub sequence_number : ℕ
  pub timestamp : ℕ
  pub ssrc : ℕ
  pub extensions : List (ℕ × List ℕ)

pub record Packet : Type 0 where
  pub header : Header
  pub payload : List ℕ

abbrev pub default_packet : Packet
default_packet = record {
  header = record {
    marker = false;
    payload_type = 0;
    sequence_number = 0;
    timestamp = 0;
    ssrc = 0;
    extensions = [];
  };
  payload = [];
}

-- `Packet::unmarshal`, `Header::get_extension` and the level of `AudioLevelExtension::unmarshal`;
-- `none` is an error, or an extension that is not there.
pub record RtpCrate : Type 0 where
  pub unmarshal : List ℕ → Option Packet
  pub get_extension : Header → ℕ → Option (List ℕ)
  pub audio_level : List ℕ → Option ℕ

-- The RTCP packets that rsfu builds.
pub data Rtcp : Type 0 where
  transport_layer_nack : ℕ → List NackPair → Rtcp
  picture_loss_indication : ℕ → ℕ → Rtcp

-- Differences of `u16` and `u32` wrap.
abbrev pub sub_u16 : ℕ → ℕ → ℕ
sub_u16 a b = (a + 2 ^ 16 - b) % 2 ^ 16

abbrev pub sub_u32 : ℕ → ℕ → ℕ
sub_u32 a b = (a + 2 ^ 32 - b) % 2 ^ 32
