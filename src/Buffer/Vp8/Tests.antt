-- ===== src/Buffer/Vp8/Tests.antt =====
-- VP8 payloads with known fields, and the theorems at them.
use rsfu.Prelude.{
  ◌≡◌, refl, ◌⊎◌, ◌≢◌, ℕ, Bool, true, false, some, List, [], ◌∷◌, arith, length, get_elem?,
  err_nil_packet,
}
use rsfu.Buffer.Vp8.{
  Vp8, default, done, failed, unmarshal, byte_at, next_byte, read_extension, read_picture_id,
  read_tl0, read_tid, read_key_frame, modify_temporal_payload,
}
use rsfu.Buffer.Vp8.Safety.{Ends, unmarshal-Ends}
use rsfu.Buffer.Vp8.Rewrite.{modify_unmarshal}
use rsfu.Buffer.Vp8.Descriptor.{long_picture, Descriptor}
use rsfu.Buffer.Vp8.Format.{unmarshal-encode}

-- A key frame with a long picture number, TL0PICIDX and TID.
abbrev full : Descriptor
full = record {
  reserved = 0;
  start = true;
  partition = 0;
  picture = long_picture 0x1234;
  tl0 = some 7;
  t_bit = true;
  k_bit = false;
  rsv = 0;
  tid = 2;
  key_idx = 5;
}

abbrev bytes : List ℕ
bytes = 0x90 ∷ 0xe0 ∷ 0x92 ∷ 0x34 ∷ 7 ∷ 0x85 ∷ 0x10 ∷ []

abbrev fields : Vp8
fields = record {
  temporal_supported = true;
  picture_id = 0x1234;
  picture_id_idx = 2;
  mbit = true;
  tl0_picture_idx = 7;
  tlz_idx = 4;
  tid = 2;
  is_key_frame = true;
}

bytes-unmarshal : unmarshal bytes default ≡ done tt fields
unfolding unmarshal byte_at next_byte read_extension read_picture_id read_tl0 read_tid
    read_key_frame
bytes-unmarshal = refl

unmarshal-encode_example : unmarshal bytes default ≡ done tt fields
unmarshal-encode_example = unmarshal-encode full 0x10 [] (omega arith) (omega arith)

unmarshal-Ends_example :
    ((bytes ≡ []) × (unmarshal bytes default ≡ failed err_nil_packet default))
    ⊎ Ends (λ _. Unit {0}) bytes (unmarshal bytes default)
unmarshal-Ends_example = unmarshal-Ends bytes

modify_unmarshal_example :
    (out : List ℕ) × (modify_temporal_payload bytes 2 4 0x1235 8 true ≡ some out)
    × (length out ≡ 7)
    × ((k : ℕ)
        → k ≢ 2
        → k ≢ 4
        → (◌≡◌ {A = Bool} true true → k ≢ 3)
        → get_elem? out k ≡ get_elem? bytes k)
modify_unmarshal_example = modify_unmarshal bytes fields 0x1235 8 bytes-unmarshal
