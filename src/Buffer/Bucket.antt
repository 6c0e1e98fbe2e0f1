-- ===== src/Buffer/Bucket.antt =====
-- rsfu/src/buffer/bucket.rs: the last packets of a stream in one byte array, cut into slots of
-- `max_packet_size` bytes. A slot holds a packet's length in two bytes and the packet behind it, so
-- the packet's own sequence number (bytes 2 and 3 of an RTP header) stands at offset 4 of its slot.
-- The fields of type `i32` are exact integers here: `step` stays between 0 and `max_steps`.
mod Tests
pub mod Slots
pub mod Window
pub mod InOrder
pub mod Late
use rsfu.Prelude.{
  ℕ, zero, suc, ◌+◌, ◌-◌, ◌*◌, ◌/◌, ◌%◌, ◌^◌, Bool, true, false, Option, none, some, List, [], ltb,
  leb, ◌==◌, if◌then◌else◌, length, drop, replicate, Outcome, ok, err, panic, ◌>>=◌,
  err_packet_not_found, err_buffer_too_small, err_packet_too_old, err_rtx_packet,
}
use rsfu.Prelude.Int.{ℤ, pos, negsuc, ◌+ℤ◌, ◌-ℤ◌, ltb_ℤ}
use rsfu.Prelude.Bytes.{write_at, slice, be16, decode16}

abbrev pub max_packet_size : ℕ
max_packet_size = 1500

-- Sequence numbers are `u16`.
abbrev pub u16 : ℕ → ℕ
u16 n = n % 2 ^ 16

-- `as i32` of a `usize`, and `as usize` and `as u16` of an `i32`.
abbrev pub as_i32 : ℕ → ℤ
as_i32 n = let w = n % 2 ^ 32 in if ltb w (2 ^ 31) then pos w else negsuc (2 ^ 32 - w - 1)

abbrev pub as_usize : ℤ → ℕ
as_usize (pos n) = n
as_usize (negsuc n) = 2 ^ 64 - suc n

abbrev pub as_u16 : ℤ → ℕ
as_u16 (pos n) = n % 2 ^ 16
as_u16 (negsuc n) = 2 ^ 16 - 1 - n % 2 ^ 16

unfoldable pub distance : ℕ → ℕ → ℕ
distance new old = if ltb new old then u16 (65535 - old + new + 1) else new - old

pub record Bucket : Type 0 where
  pub buf : List ℕ
  pub init : Bool
  pub step : ℤ
  pub head_sn : ℕ
  pub max_steps : ℤ

unfoldable pub new : ℕ → Bucket
unfolding ◌-ℤ◌
new len = record {
  buf = replicate len 0;
  init = false;
  step = pos 0;
  head_sn = 0;
  max_steps = as_i32 (len / max_packet_size) -ℤ pos 1;
}

-- One round of the loop in `add_packet`, and its `n` rounds.
abbrev pub advance : ℤ → ℤ → ℤ
unfolding ◌+ℤ◌
advance max_steps step = let s = step +ℤ pos 1 in if ltb_ℤ s max_steps then s else pos 0

unfoldable pub skip : ℕ → ℤ → ℤ → ℤ
skip zero max_steps step = step
skip (suc n) max_steps step = skip n max_steps (advance max_steps step)

-- The end of `push`: the slot is written, and `step` moves on.
abbrev pub stored : Bucket → List ℕ → ℕ → Bucket × Outcome (List ℕ)
unfolding ◌+ℤ◌
stored b pkt idx =
    let off = idx + 2 in
    let buf = write_at (write_at b.buf idx (be16 (length pkt))) off pkt in
    let next = b.step +ℤ pos 1 in
    (
      record b { buf = buf; step = if ltb_ℤ b.max_steps next then pos 0 else next },
      ok (slice buf off (length pkt)),
    )

-- The array is built by `vec![0; length]`, so its capacity is its length. Writing the length wants
-- two bytes, and copying the packet wants all of its bytes: either panics where they are not there.
unfoldable pub push : Bucket → List ℕ → Bucket × Outcome (List ℕ)
unfolding ◌+ℤ◌
push b pkt =
    let idx = as_usize b.step * max_packet_size in
    if ltb (length b.buf) (idx + length pkt)
    then (b, err err_buffer_too_small)
    else if ltb (length b.buf) (idx + 2)
    then (b, panic)
    else if ltb (length b.buf) (idx + 2 + length pkt)
    then (record b { buf = write_at b.buf idx (be16 (length pkt)) }, panic)
    else stored b pkt idx

-- `get` at a slot: the sequence number that the slot holds must be the one asked for.
unfoldable pub read_slot : Bucket → ℕ → ℕ → Outcome (Option (List ℕ))
read_slot b p sn =
    let off = p * max_packet_size in
    if ltb (length b.buf) off then ok none else elim (decode16 (drop (off + 4) b.buf)) [
      | none ↦ panic
      | some held ↦
          if held == sn
          then (elim (decode16 (drop off b.buf)) [
            | none ↦ panic
            | some size ↦
                if ltb (length b.buf) (off + 2 + size)
                then panic
                else ok (some (slice b.buf (off + 2) size))
          ])
          else ok none
    ]

-- `get` at the position `pos`, which may be negative: then the slot counts from the end.
unfoldable pub get_at : Bucket → ℤ → ℕ → Outcome (Option (List ℕ))
unfolding ◌+ℤ◌
get_at b (pos p) sn = read_slot b p sn
get_at b (negsuc p) sn =
    if ltb_ℤ (b.max_steps +ℤ pos 1) (pos (suc p))
    then ok none
    else read_slot b (as_usize (b.max_steps +ℤ negsuc p +ℤ pos 1)) sn

unfoldable pub get : Bucket → ℕ → Outcome (Option (List ℕ))
unfolding ◌-ℤ◌ get_at
get b sn = get_at b (b.step -ℤ pos (u16 (distance b.head_sn sn + 1))) sn

-- `out` is the caller's buffer; `copy_from_slice` panics unless the lengths agree.
unfoldable pub get_packet : Bucket → List ℕ → ℕ → Outcome (List ℕ × ℕ)
get_packet b out sn = get b sn >>= λ p. elim p [
  | none ↦ err err_packet_not_found
  | some bytes ↦
      if ltb (length out) (length bytes)
      then err err_buffer_too_small
      else if length out == length bytes
      then ok (bytes, length bytes)
      else panic
]

-- `set` at a slot: a packet that arrives late goes to the slot that was left for it.
unfoldable pub write_slot : Bucket → ℕ → ℕ → List ℕ → Bucket × Outcome (List ℕ)
write_slot b p sn pkt =
    let off = p * max_packet_size in
    let marked = record b { buf = write_at b.buf off (be16 (length pkt)) } in
    if ltb (length b.buf) off
    then (b, err err_packet_too_old)
    else elim (decode16 (drop (off + 4) b.buf)) [
      | none ↦ (b, panic)
      | some held ↦
          if held == sn
          then (b, err err_rtx_packet)
          else if ltb (length b.buf) (off + 2 + length pkt)
          then (marked, panic)
          else (record b { buf = write_at marked.buf (off + 2) pkt }, ok pkt)
    ]

-- `if pos < 0 { pos = self.max_steps + pos + 1 }`
abbrev pub wrapped : ℤ → ℤ → ℤ
unfolding ◌+ℤ◌
wrapped max_steps at = if ltb_ℤ at (pos 0) then max_steps +ℤ at +ℤ pos 1 else at

unfoldable pub set_at : Bucket → ℤ → ℕ → List ℕ → Bucket × Outcome (List ℕ)
set_at b (negsuc p) sn pkt = (b, err err_packet_too_old)
set_at b (pos p) sn pkt = write_slot b p sn pkt

unfoldable pub set : Bucket → ℕ → List ℕ → Bucket × Outcome (List ℕ)
unfolding ◌+ℤ◌ ◌-ℤ◌ set_at
set b sn pkt =
    let diff = distance b.head_sn sn in
    if ltb (as_u16 b.max_steps) diff
    then (b, err err_packet_too_old)
    else set_at b (wrapped b.max_steps (b.step -ℤ pos (u16 (diff + 1)))) sn pkt

-- `self.head_sn = sn - 1` wraps at 0.
abbrev pub started : Bucket → ℕ → Bucket
started b sn = if b.init then b else record b { init = true; head_sn = u16 (sn + 65535) }

unfoldable pub add_packet : Bucket → List ℕ → ℕ → Bool → Bucket × Outcome (List ℕ)
add_packet b pkt sn latest =
    let b' = started b sn in
    let diff = distance sn b'.head_sn in
    if latest
    then push (record b' { head_sn = sn; step = skip (diff - 1) b'.max_steps b'.step }) pkt
    else set b' sn pkt
