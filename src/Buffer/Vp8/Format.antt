-- ===== src/Buffer/Vp8/Format.antt =====
-- `unmarshal` of a payload descriptor that is written out.
use rsfu.Prelude.{
  ℕ, ◌+◌, ◌*◌, ◌/◌, ◌%◌, ◌<◌, ◌≡◌, refl, ap, ap₂, ◌∙◌, err_short_packet, Bool, true, false, ◌&&◌,
  ◌||◌, Option, none, some, List, ◌∷◌, ◌++◌, arith, leb, ◌==◌, if◌then◌else◌, length, drop,
  lt-get_elem?, get_elem?-drop_cons,
}
use rsfu.Prelude.Bits.{byte_bits}
use rsfu.Buffer.Vp8.{
  Vp8, default, Run, done, failed, ◌then_do◌, byte_at, flag, read_picture_id, read_tl0, read_tid,
  read_key_frame, read_extension, unmarshal,
}
use rsfu.Buffer.Vp8.Descriptor.{
  Picture, no_picture, short_picture, long_picture, Descriptor, bit, has_picture, has_tl0,
  picture_bytes, tl0_bytes, tid_bytes, first, flags, encode, IsDescriptor, with_picture, with_tl0,
  with_tid, described,
}
use rsfu.Buffer.Vp8.Reads.{
  next_byte-at, flag_bits, read_picture_id-Reads, read_tl0-Reads, read_tid-Reads, read_key_frame-at,
}

-- What `read_extension` does after each part.
at_end : List ℕ → Bool → ℕ → Vp8 → Run (Unit {0})
at_end payload s idx v =
    if leb (length payload) idx then failed err_short_packet v else read_key_frame payload idx s v

after_tl0 : List ℕ → ℕ → Bool → ℕ → Vp8 → Run (Unit {0})
unfolding at_end
after_tl0 payload b s idx v =
    (if v.temporal_supported || flag b 0x10 then read_tid payload idx v else done idx v)
    then_do at_end payload s

after_picture : List ℕ → ℕ → Bool → ℕ → Vp8 → Run (Unit {0})
unfolding after_tl0
after_picture payload b s idx v =
    (if flag b 0x40 then read_tl0 payload idx v else done idx v) then_do after_tl0 payload b s

at_end-key_frame :
    (payload : List ℕ) (idx : ℕ) (s : Bool) (v : Vp8) (frame : ℕ) (rest : List ℕ)
    → frame < 256
    → drop (idx + 1) payload ≡ frame ∷ rest
    → at_end payload s idx v ≡ done tt (record v { is_key_frame = frame % 2 == 0 && s })
unfolding at_end
at_end-key_frame payload idx s v frame rest h e =
    let g = get_elem?-drop_cons payload (idx + 1) frame rest e in
    let more : leb (length payload) idx ≡ false =
      ground (arith, lt-get_elem? payload (idx + 1) frame g) in
    rw more (read_key_frame-at payload idx s v frame rest h e)

temporal-with :
    (v : Vp8) (p : Picture) (i : ℕ) (o : Option ℕ)
    → (with_tl0 (with_picture v p) i o).temporal_supported ≡ v.temporal_supported
temporal-with v no_picture i none = refl
temporal-with v (short_picture p) i none = refl
temporal-with v (long_picture p) i none = refl
temporal-with v no_picture i (some b) = refl
temporal-with v (short_picture p) i (some b) = refl
temporal-with v (long_picture p) i (some b) = refl

read_extension-described :
    (payload : List ℕ) (d : Descriptor) (frame : ℕ) (rest : List ℕ)
    → IsDescriptor d
    → frame < 256
    → drop 2 payload
      ≡ picture_bytes d.picture
        ++ (tl0_bytes d.tl0 ++ (tid_bytes (d.t_bit || d.k_bit) d.tid d.key_idx ++ frame ∷ rest))
    → read_extension payload (flags d) d.start default ≡ done tt (described d frame)
unfolding read_extension after_picture
read_extension-described payload d frame rest i h e =
    let (f80, f40, f20, f10) =
      flag_bits (has_picture d.picture) (has_tl0 d.tl0) d.t_bit d.k_bit d.rsv i.rsv in
    let v0 : Vp8 = record default { temporal_supported = d.t_bit } in
    let v1 = with_picture v0 d.picture in
    let i1 = 1 + length (picture_bytes d.picture) in
    let r1 = read_picture_id-Reads payload v0 d.picture _ i.picture e in
    let v2 = with_tl0 v1 (i1 + 1) d.tl0 in
    let r2 = read_tl0-Reads payload i1 v1 d.tl0 _ r1.1 in
    let i2 = i1 + length (tl0_bytes d.tl0) in
    let on : (v2.temporal_supported || flag (flags d) 0x10) ≡ (d.t_bit || d.k_bit) =
      ap₂ ◌||◌ (temporal-with v0 d.picture (i1 + 1) d.tl0) f10 in
    let r3 =
      read_tid-Reads payload i2 v2 (d.t_bit || d.k_bit) d.tid d.key_idx _ i.tid i.key_idx r2.1 in
    let i3 = i2 + length (tid_bytes (d.t_bit || d.k_bit) d.tid d.key_idx) in
    let v3 = with_tid v2 (d.t_bit || d.k_bit) d.tid in
    ap₂
      (λ x t.
        (if x
          then read_picture_id payload 1 (record default { temporal_supported = t })
          else done 1 (record default { temporal_supported = t }))
        then_do after_picture payload (flags d) d.start)
      f80 f20
    ∙ ap (λ r. r then_do after_picture payload (flags d) d.start) r1.0
    ∙ ap
        (λ x.
          (if x then read_tl0 payload i1 v1 else done i1 v1)
          then_do after_tl0 payload (flags d) d.start)
        f40
    ∙ ap (λ r. r then_do after_tl0 payload (flags d) d.start) r2.0
    ∙ ap (λ x. (if x then read_tid payload i2 v2 else done i2 v2) then_do at_end payload d.start) on
    ∙ ap (λ r. r then_do at_end payload d.start) r3.0
    ∙ at_end-key_frame payload i3 d.start v3 frame rest h r3.1
    ∙ ap
        (λ n. done tt (record (with_tid (with_tl0 v1 n d.tl0) (d.t_bit || d.k_bit) d.tid) {
          is_key_frame = frame % 2 == 0 && d.start;
        }))
        {x = i1 + 1} {y = 2 + length (picture_bytes d.picture)} (omega arith)

first_bits :
    (s : Bool) (r p : ℕ)
    → r < 4
    → p < 16
    → (flag (128 + r * 32 + bit s * 16 + p) 0x80 ≡ true)
      × (flag (128 + r * 32 + bit s * 16 + p) 0x10 ≡ s)
first_bits s r p h k =
    let v = byte_bits (128 + r * 32 + bit s * 16 + p) (small s) in
    (v.bit80 ∙ top s, v.bit10 ∙ mark s)
  where
    small : (s : Bool) → 128 + r * 32 + bit s * 16 + p < 256
    small s = ground arith

    top : (s : Bool) → ((128 + r * 32 + bit s * 16 + p) / 128 % 2 == 1) ≡ true
    top s = ground arith

    mark : (s : Bool) → ((128 + r * 32 + bit s * 16 + p) / 16 % 2 == 1) ≡ s
    mark s = ground arith

-- `unmarshal` of an extended descriptor that is written as RFC 7741 says, with a first payload byte
-- behind it, reads back every field and where it stands, and tells a key frame by that byte's lowest
-- bit and the start bit.
pub unmarshal-encode :
    (d : Descriptor) (frame : ℕ) (rest : List ℕ)
    → IsDescriptor d
    → frame < 256
    → unmarshal (encode d (frame ∷ rest)) default ≡ done tt (described d frame)
unfolding unmarshal byte_at
unmarshal-encode d frame rest i h =
    let payload = encode d (frame ∷ rest) in
    let (f80, f10) = first_bits d.start d.reserved d.partition i.reserved i.partition in
    let more : (length payload == 0) ≡ false = ground arith in
    rw (more, f80)
      (ap (λ r. r then_do λ x v. read_extension payload x (flag (first d) 0x10) v)
          (next_byte-at payload 1 (flags d) _ default refl)
        ∙ ap (λ s. read_extension payload (flags d) s default) f10
        ∙ read_extension-described payload d frame rest i h refl)
