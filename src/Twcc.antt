-- ===== src/Twcc.antt =====
-- rsfu/src/twcc/twcc.rs: a responder collects the transport-wide numbers of the packets that arrive
-- and writes the feedback on them (`Responder`, `push`, `write_header` and the other writers). A write
-- into a `Vec` does not fail. Times are exact integers.
pub mod Build
pub mod Symbols
pub mod Newest
mod Tests
use rsfu.Prelude.{
  ℕ, ◌+◌, ◌-◌, ◌*◌, ◌/◌, ◌%◌, ◌^◌, Bool, true, false, ◌&&◌, ◌||◌, List, [], ◌∷◌, ◌++◌, ltb, ◌==◌,
  if◌then◌else◌, bit_and, bit_or,
}
use rsfu.Prelude.Int.{ℤ, pos, negsuc, pos_part, neg_part}
use rsfu.Prelude.Bytes.{be16}

-- The symbols of the rtcp crate, and the two sizes that they are written with.
pub data SymbolTypeTcc : Type 0 where
  packet_not_received packet_received_small_delta packet_received_large_delta
        packet_received_without_delta :
      SymbolTypeTcc

pub data SymbolSizeTypeTcc : Type 0 where
  one_bit two_bit : SymbolSizeTypeTcc

abbrev pub symbol_as_u16 : SymbolTypeTcc → ℕ
symbol_as_u16 packet_not_received = 0
symbol_as_u16 packet_received_small_delta = 1
symbol_as_u16 packet_received_large_delta = 2
symbol_as_u16 packet_received_without_delta = 3

abbrev pub size_as_u16 : SymbolSizeTypeTcc → ℕ
size_as_u16 one_bit = 0
size_as_u16 two_bit = 1

pub record RtpExtInfo : Type 0 where
  pub ext_tsn : ℕ
  pub timestamp : ℤ

pub record Responder : Type 0 where
  pub ext_info : List RtpExtInfo
  pub last_report : ℤ
  pub cycles : ℕ
  pub last_ext_sn : ℕ
  pub pkt_ctn : ℕ
  pub last_sn : ℕ
  pub last_ext_info : ℕ
  pub m_ssrc : ℕ
  pub s_ssrc : ℕ
  pub len : ℕ
  pub delta_len : ℕ
  pub payload : List ℕ
  pub deltas : List ℕ
  pub chunk : ℕ
  pub on_feedback_handler : Bool

-- `random` is the random number that is drawn.
unfoldable pub new : ℕ → ℕ → Responder
new ssrc random = record {
  ext_info = [];
  last_report = pos 0;
  cycles = 0;
  last_ext_sn = 0;
  pkt_ctn = 0;
  last_sn = 0;
  last_ext_info = 0;
  m_ssrc = ssrc;
  s_ssrc = random;
  len = 0;
  delta_len = 0;
  payload = [];
  deltas = [];
  chunk = 0;
  on_feedback_handler = false;
}

unfoldable pub set_n_bits_of_u16 : ℕ → ℕ → ℕ → ℕ → ℕ
set_n_bits_of_u16 src size start_index val =
    if ltb 16 ((start_index + size) % 2 ^ 16)
    then 0
    else bit_or src (bit_and val (2 ^ size - 1) * 2 ^ (16 - size - start_index) % 2 ^ 16)

-- Division of an `i64`, towards 0.
abbrev pub div_ℤ : ℤ → ℕ → ℤ
div_ℤ (pos n) k = pos (n / k)
div_ℤ (negsuc n) k = if (n + 1) / k == 0 then pos 0 else negsuc ((n + 1) / k - 1)

abbrev pub is_zero_ℤ : ℤ → Bool
is_zero_ℤ n = pos_part n + neg_part n == 0

-- Whether a report is due is tested, and nothing is done.
unfoldable pub push : Responder → ℕ → ℤ → Bool → Responder
push r sn time_ns marker =
    let cycles =
      if ltb sn 0x0fff && ltb 0xf000 r.last_sn then (r.cycles + 2 ^ 16) % 2 ^ 32 else r.cycles in
    record r {
      cycles = cycles;
      ext_info =
          r.ext_info ++ record { ext_tsn = bit_or cycles sn; timestamp = div_ℤ time_ns 100 } ∷ [];
      last_report = if is_zero_ℤ r.last_report then time_ns else r.last_report;
      last_sn = sn;
    }

abbrev pub on_feedback : Responder → Responder
on_feedback r = record r { on_feedback_handler = true }

abbrev pub be32 : ℕ → List ℕ
be32 n = n / 2 ^ 24 % 2 ^ 8 ∷ n / 2 ^ 16 % 2 ^ 8 ∷ n / 2 ^ 8 % 2 ^ 8 ∷ n % 2 ^ 8 ∷ []

unfoldable pub write_header : Responder → ℕ → ℕ → ℕ → Responder
write_header r b_sn packet_count ref_time = record r {
  payload =
      r.payload
      ++ (be32 r.s_ssrc
          ++ (be32 r.m_ssrc
              ++ (be16 b_sn
                  ++ (be16 packet_count ++ be32 (bit_or (ref_time * 2 ^ 8 % 2 ^ 32) r.pkt_ctn)))));
}

unfoldable pub write_run_length_chunk : Responder → ℕ → ℕ → Responder
write_run_length_chunk r symbol run_length = record r {
  payload = r.payload ++ be16 (bit_or (symbol * 2 ^ 13 % 2 ^ 16) run_length);
}

unfoldable pub create_status_symbol_chunk : Responder → SymbolSizeTypeTcc → ℕ → ℕ → Responder
create_status_symbol_chunk r symbol_size symbol i =
    let num_of_bits = size_as_u16 symbol_size + 1 in
    record r { chunk = set_n_bits_of_u16 r.chunk num_of_bits (num_of_bits * i + 2) symbol }

unfoldable pub write_status_symbol_chunk : Responder → SymbolSizeTypeTcc → Responder
write_status_symbol_chunk r symbol_size =
    let chunk = set_n_bits_of_u16 (set_n_bits_of_u16 r.chunk 1 0 1) 1 1 (size_as_u16 symbol_size) in
    record r { payload = r.payload ++ be16 chunk; chunk = 0; len = (r.len + 2) % 2 ^ 16 }

abbrev pub is_small : SymbolTypeTcc → Bool
is_small s = symbol_as_u16 s == 1

unfoldable pub write_delta : Responder → SymbolTypeTcc → ℕ → Responder
write_delta r delta_type delta =
    if is_small delta_type
    then record r { deltas = r.deltas ++ delta % 2 ^ 8 ∷ []; delta_len = r.delta_len + 1 }
    else record r { deltas = r.deltas ++ be16 delta; delta_len = r.delta_len + 2 }
