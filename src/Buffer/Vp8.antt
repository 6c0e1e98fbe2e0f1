-- ===== src/Buffer/Vp8.antt =====
-- rsfu/src/buffer/helpers.rs, `VP8::unmarshal`: the payload descriptor in front of a VP8 payload
-- (RFC 7741, 4.2), read byte by byte; and rsfu/src/sfu/helpers.rs, `modify_vp8_temporal_payload`,
-- which overwrites the fields that it found. An index out of range panics.
pub mod Safety
pub mod Descriptor
pub mod Reads
pub mod Format
pub mod Rewrite
mod Tests
use rsfu.Prelude.{
  ℕ, ◌+◌, ◌*◌, ◌/◌, ◌%◌, ◌≤◌, ◌<◌, ◌≡◌, Bool, true, false, ◌&&◌, ◌||◌, Option, none, some, List, [],
  ◌∷◌, ltb, leb, ◌==◌, if◌then◌else◌, length, get_elem?, set, bit_and, bit_or, Error,
  err_short_packet, err_nil_packet, Outcome, ok, panic, ◌>>=◌, ◌and_then◌,
}

pub record Vp8 : Type 0 where
  pub temporal_supported : Bool
  pub picture_id : ℕ
  pub picture_id_idx : ℕ
  pub mbit : Bool
  pub tl0_picture_idx : ℕ
  pub tlz_idx : ℕ
  pub tid : ℕ
  pub is_key_frame : Bool

abbrev pub default : Vp8
default = record {
  temporal_supported = false;
  picture_id = 0;
  picture_id_idx = 0;
  mbit = false;
  tl0_picture_idx = 0;
  tlz_idx = 0;
  tid = 0;
  is_key_frame = false;
}

-- A call that works on `&mut self`: how it ends, and what it has written by then.
pub data Run {ℓ} (A : Type ℓ) : Type ℓ where
  done : A → Vp8 → Run A
  failed : Error → Vp8 → Run A
  panicked : Vp8 → Run A

-- The rest of the function, unless it has returned.
infixl 5 ◌then_do◌
abbrev pub ◌then_do◌ {ℓ κ} : {A : Type ℓ} {B : Type κ} → Run A → (A → Vp8 → Run B) → Run B
done a v then_do f = f a v
failed e v then_do f = failed e v
panicked v then_do f = panicked v

-- `payload[idx]`
unfoldable pub byte_at : List ℕ → ℕ → Vp8 → Run ℕ
byte_at payload idx v = elim (get_elem? payload idx) [ none ↦ panicked v | some b ↦ done b v ]

-- `if payload_len < idx + 1 { return Err(ErrShortPacket) }`, then `payload[idx]`
unfoldable pub next_byte : List ℕ → ℕ → Vp8 → Run ℕ
unfolding byte_at
next_byte payload idx v =
    if ltb (length payload) (idx + 1) then failed err_short_packet v else byte_at payload idx v

-- `b & mask > 0`
abbrev pub flag : ℕ → ℕ → Bool
flag b mask = ltb 0 (bit_and b mask)

-- The parts of the function return the index that they have reached.
unfoldable pub read_picture_id : List ℕ → ℕ → Vp8 → Run ℕ
read_picture_id payload idx v = next_byte payload (idx + 1) v then_do λ b v.
    let pid = bit_and b 0x7f in
    let v = record v { picture_id_idx = idx + 1 } in
    if flag b 0x80
    then (next_byte payload (idx + 2) v then_do λ low v.
        done (idx + 2) (record v { mbit = true; picture_id = bit_or (pid * 256) low }))
    else done (idx + 1) (record v { picture_id = pid })

unfoldable pub read_tl0 : List ℕ → ℕ → Vp8 → Run ℕ
read_tl0 payload idx v = next_byte payload (idx + 1) v then_do λ b v.
    done (idx + 1) (record v { tlz_idx = idx + 1; tl0_picture_idx = b })

unfoldable pub read_tid : List ℕ → ℕ → Vp8 → Run ℕ
read_tid payload idx v = next_byte payload (idx + 1) v then_do λ b v.
    done (idx + 1) (record v { tid = bit_and b 0xc0 / 64 })

unfoldable pub read_key_frame : List ℕ → ℕ → Bool → Vp8 → Run (Unit {0})
read_key_frame payload idx s v = next_byte payload (idx + 1) v then_do λ b v.
    done tt (record v { is_key_frame = bit_and b 0x01 == 0 && s })

-- The extension: `b` is the byte with the flags I, L, T and K, at index 1.
unfoldable pub read_extension : List ℕ → ℕ → Bool → Vp8 → Run (Unit {0})
read_extension payload b s v =
    let v = record v { temporal_supported = flag b 0x20 } in
    (if flag b 0x80 then read_picture_id payload 1 v else done 1 v) then_do λ idx v.
    (if flag b 0x40 then read_tl0 payload idx v else done idx v) then_do λ idx v.
    (if v.temporal_supported || flag b 0x10 then read_tid payload idx v else done idx v)
    then_do λ idx v.
        if leb (length payload) idx
        then failed err_short_packet v
        else read_key_frame payload idx s v

unfoldable pub unmarshal : List ℕ → Vp8 → Run (Unit {0})
unmarshal payload v =
    if length payload == 0
    then failed err_nil_packet v
    else (byte_at payload 0 v then_do λ b v.
        let s = flag b 0x10 in
        if flag b 0x80
        then (next_byte payload 1 v then_do λ x v. read_extension payload x s v)
        else read_key_frame payload 0 s v)

-- `modify_vp8_temporal_payload` of rsfu/src/sfu/helpers.rs; `none` is an index out of range.
unfoldable pub store : List ℕ → ℕ → ℕ → Option (List ℕ)
store bytes idx b = if ltb idx (length bytes) then some (set bytes idx b) else none

-- The bytes of a picture number of 15 bits: its mark is set in the first, and the second is written.
unfoldable pub store_long : List ℕ → ℕ → ℕ → Option (List ℕ)
store_long p idx pic_id = get_elem? p idx and_then λ b.
    store p idx (bit_or b 0x80) and_then λ p'. store p' (idx + 1) (pic_id % 256)

unfoldable pub modify_temporal_payload : List ℕ → ℕ → ℕ → ℕ → ℕ → Bool → Option (List ℕ)
modify_temporal_payload payload pic_id_idx tlz0_idx pic_id tlz0_id m_bit =
    store payload pic_id_idx (pic_id / 256 % 256) and_then λ p.
    (if m_bit then store_long p pic_id_idx pic_id else some p) and_then λ p'.
    store p' tlz0_idx tlz0_id
