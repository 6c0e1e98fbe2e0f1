-- ===== src/Sfu/Sequencer/Meta.antt =====
-- The VP8 numbers that a packet keeps in one word.
use rsfu.Prelude.{ℕ, ◌+◌, ◌*◌, ◌/◌, ◌%◌, ◌^◌, ◌<◌, ◌≡◌, ◌∙◌, ap, ap₂, arith, bit_or}
use rsfu.Prelude.Bits.{bit_or-field}
use rsfu.Sfu.Sequencer.{PacketMeta, set_vp8_payload_meta, get_vp8_payload_meta}

-- `get_vp8_payload_meta` reads back the two numbers of `set_vp8_payload_meta`, a `u8` and a `u16`.
pub get-set_vp8_payload_meta :
    (m : PacketMeta) (tlz0_idx pic_id : ℕ)
    → tlz0_idx < 2 ^ 8
    → pic_id < 2 ^ 16
    → get_vp8_payload_meta (set_vp8_payload_meta m tlz0_idx pic_id) ≡ (tlz0_idx, pic_id)
unfolding get_vp8_payload_meta set_vp8_payload_meta
get-set_vp8_payload_meta m tlz0_idx pic_id h k =
    let shifted : tlz0_idx * 2 ^ 16 % 2 ^ 32 ≡ tlz0_idx * 2 ^ 16 = omega arith in
    let word : bit_or (tlz0_idx * 2 ^ 16 % 2 ^ 32) pic_id ≡ tlz0_idx * 2 ^ 16 + pic_id =
      ap (λ w. bit_or w pic_id) shifted ∙ bit_or-field 16 tlz0_idx pic_id k in
    ap (λ w. (w / 2 ^ 16 % 2 ^ 8, w % 2 ^ 16)) word
    ∙ ap₂ (λ a b. (a, b)) (omega arith) (omega arith)
