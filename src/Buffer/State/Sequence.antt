-- ===== src/Buffer/State/Sequence.antt =====
-- The numbers that `note_sequence` works with, told by arithmetic.
use rsfu.Prelude.{
  ℕ, ◌+◌, ◌-◌, ◌*◌, ◌/◌, ◌%◌, ◌^◌, ◌<◌, ◌≡◌, inl, inr, ap, ◌∙◌, Bool, ◌&&◌, arith, ltb, leb, ◌==◌,
  if◌then◌else◌, bit_and, Bool-cases,
}
use rsfu.Prelude.Masks.{bit_and-high}
use rsfu.Prelude.Bits.{bit_or-field}
use rsfu.Rtp.{sub_u16, sub_u32}
use rsfu.Buffer.Bucket.{distance}
use rsfu.Buffer.State.{ext_sn, max_sequence_number}

-- `sn` is ahead of `old`, by less than half of the numbers.
pub distance-ahead :
    (sn old : ℕ)
    → sn < 2 ^ 16
    → old < 2 ^ 16
    → (bit_and (distance sn old) 0x8000 == 0) ≡ ltb (sub_u16 sn old) 0x8000
unfolding distance
distance-ahead sn old h k =
    let d : distance sn old ≡ sub_u16 sn old = ground arith in
    let e : bit_and (distance sn old) 0x8000 ≡ sub_u16 sn old / 2 ^ 15 * 2 ^ 15 =
      ap (λ n. bit_and n 0x8000) d ∙ bit_and-high (sub_u16 sn old) (omega arith) in
    ground (arith, e)

-- The condition under which a number is taken to be of the cycle before.
abbrev pub before : ℕ → ℕ → Bool
before max_seq_no sn = ltb max_seq_no sn && (leb 0x8000 sn && ltb max_seq_no 0x8000)

pub ext_sn_lem :
    (c max_seq_no sn : ℕ)
    → c < 2 ^ 16
    → max_seq_no < 2 ^ 16
    → sn < 2 ^ 16
    → ext_sn (c * 2 ^ 16) max_seq_no sn
      ≡ (if before max_seq_no sn then (c + 0xffff) % 2 ^ 16 else c) * 2 ^ 16 + sn
unfolding ext_sn
ext_sn_lem c max_seq_no sn hc hm hs =
    let high = bit_and-high sn hs in
    let high' = bit_and-high max_seq_no hm in
    let test : (ltb max_seq_no sn && (ltb 0 (bit_and sn 0x8000) && bit_and max_seq_no 0x8000 == 0))
        ≡ before max_seq_no sn =
      ground (arith, high, high') in
    let down : sub_u32 (c * 2 ^ 16) max_sequence_number ≡ (c + 0xffff) % 2 ^ 16 * 2 ^ 16 =
      omega arith in
    rw test (elim (Bool-cases (before max_seq_no sn)) [
      | inl e ↦ rw (e, down) (bit_or-field 16 ((c + 0xffff) % 2 ^ 16) sn hs)
      | inr e ↦ rw e (bit_or-field 16 c sn hs)
    ])

-- The number that is noted for the packet missing `j` places behind the head, where the packet that
-- came stands `d` places behind it: right where both the head and the missing packet have numbers
-- below 2 ^ 15, or where the head has a larger one and the packet that came is of the same cycle or
-- the missing one of the next. Otherwise it is one cycle off: too low where the head's number is below
-- 2 ^ 15 and the missing one's is not, too high where the numbers wrap between the missing packet and
-- the one that came.
pub ext_sn_missing :
    (c max_seq_no d j : ℕ)
    → c < 0xffff
    → max_seq_no < 2 ^ 16
    → j < d
    → d < 0x8000
    → let wraps = ltb ((max_seq_no + d) % 2 ^ 16) max_seq_no in
      let cycles = (if wraps then c + 1 else c) * 2 ^ 16 in
      let noted = ext_sn cycles max_seq_no ((max_seq_no + j) % 2 ^ 16) in
      let right = c * 2 ^ 16 + max_seq_no + j in
      noted ≡ (
        if ltb max_seq_no 0x8000
        then (if ltb (max_seq_no + j) 0x8000 then right else (right + 2 ^ 32 - 2 ^ 16) % 2 ^ 32)
        else if ltb (max_seq_no + d) (2 ^ 16)
        then right
        else if ltb (max_seq_no + j) (2 ^ 16)
        then right + 2 ^ 16
        else right)
ext_sn_missing c max_seq_no d j hc hm hj hd =
    elim (Bool-cases (ltb ((max_seq_no + d) % 2 ^ 16) max_seq_no)) [
      | inl w ↦ rw w (
          ext_sn_lem (c + 1) max_seq_no ((max_seq_no + j) % 2 ^ 16) (omega arith) hm (omega arith)
          ∙ ground arith)
      | inr w ↦ rw w (
          ext_sn_lem c max_seq_no ((max_seq_no + j) % 2 ^ 16) (omega arith) hm (omega arith)
          ∙ ground arith)
    ]
