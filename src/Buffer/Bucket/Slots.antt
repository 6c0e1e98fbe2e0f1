-- ===== src/Buffer/Bucket/Slots.antt =====
-- One slot of the array: what `push` leaves in it, and what `get` reads from it.
use rsfu.Prelude.{
  ℕ, ◌+◌, ◌*◌, ◌/◌, ◌%◌, ◌≤◌, ◌<◌, ◌≡◌, ◌≢◌, sym, ap, ◌∙◌, Option, some, List, ◌++◌, arith, ltb,
  if◌then◌else◌, length, drop, take, ok, dec_lt,
}
use rsfu.Prelude.Int.{pos, ◌+ℤ◌}
use rsfu.Prelude.Bytes.{
  write_at, slice, be16, decode16, write_at-append, drop-add, decode16-drop-take, drop-take,
  slice-write_at_self, slice-write_at_before, slice-write_at_behind, length-write_at,
}
use rsfu.Buffer.Bucket.{Bucket, push, read_slot}

-- `m` is the last slot and `s` the next one to be written.
pub record IsValid (b : Bucket) (m s : ℕ) : Type 0 where
  pub last : b.max_steps ≡ pos m
  pub next : b.step ≡ pos s
  pub within : s ≤ m
  pub room : (m + 1) * 1500 ≤ length b.buf
  pub small : m < 65535
  pub head : b.head_sn < 65536

-- The largest packet that fits a slot behind its length.
abbrev pub max_payload : ℕ
max_payload = 1498

abbrev pub frame : List ℕ → List ℕ
frame q = be16 (length q) ++ q

abbrev pub Slot : List ℕ → ℕ → List ℕ → Type 0
Slot buf p q = slice buf (p * 1500) (length (frame q)) ≡ frame q

-- An RTP packet's sequence number: its bytes 2 and 3.
abbrev pub rtp_sn : List ℕ → Option ℕ
rtp_sn q = decode16 (drop 2 q)

abbrev pub following : ℕ → ℕ → ℕ
following m s = if ltb s m then s + 1 else 0

-- The bucket that `push` leaves when the packet fits.
abbrev pub pushed : Bucket → ℕ → ℕ → List ℕ → Bucket
pushed b m s q = record b { buf = write_at b.buf (s * 1500) (frame q); step = pos (following m s) }

pub push-fits :
    (b : Bucket) (m s : ℕ) (q : List ℕ)
    → IsValid b m s
    → length q ≤ max_payload
    → push b q ≡ (pushed b m s q, ok q)
unfolding push ◌+ℤ◌
push-fits b m s q v h =
    let e = write_at-append b.buf (s * 1500) (be16 (length q)) q in
    let r = slice-write_at_self (write_at b.buf (s * 1500) (be16 (length q))) (s * 1500 + 2) q in
    let l = length-write_at b.buf (s * 1500) (be16 (length q)) in ground (arith, e, r, l, v)

-- The slot that was written holds its packet, and the other slots keep theirs.
pub pushed-Slot :
    (b : Bucket) (m s : ℕ) (q : List ℕ)
    → IsValid b m s
    → length q ≤ max_payload
    → Slot (pushed b m s q).buf s q
pushed-Slot b m s q v h = slice-write_at_self b.buf (s * 1500) (frame q) (omega (arith, v))

pub pushed-Slot_other :
    (b : Bucket) (m s p : ℕ) (q r : List ℕ)
    → length q ≤ max_payload
    → length r ≤ max_payload
    → p ≢ s
    → Slot b.buf p r
    → Slot (pushed b m s q).buf p r
pushed-Slot_other b m s p q r h k ne held = elim (dec_lt p s) [
  | yes lt ↦
      slice-write_at_before b.buf (s * 1500) (frame q) (p * 1500) (length (frame r)) (omega arith)
      ∙ held
  | no ge ↦
      slice-write_at_behind b.buf (s * 1500) (frame q) (p * 1500) (length (frame r)) (omega arith)
      ∙ held
]

pub pushed-IsValid :
    (b : Bucket) (m s : ℕ) (q : List ℕ) → IsValid b m s → IsValid (pushed b m s q) m (following m s)
pushed-IsValid b m s q v = ground (arith, v, length-write_at b.buf (s * 1500) (frame q))

be16-decode : (v : ℕ) → v < 65536 → v / 256 % 256 * 256 + v % 256 ≡ v
be16-decode v h = omega arith

-- A slot holds the length of its packet, its sequence number and its bytes where `get` reads them.
Slot-length :
    (buf : List ℕ) (p : ℕ) (q : List ℕ)
    → length q ≤ max_payload
    → Slot buf p q
    → decode16 (drop (p * 1500) buf) ≡ some (length q)
Slot-length buf p q h held =
    sym (decode16-drop-take 0 (length (frame q)) (drop (p * 1500) buf) (omega arith))
    ∙ ap decode16 held
    ∙ ap some (be16-decode (length q) (omega arith))

Slot-sn :
    (buf : List ℕ) (p sn : ℕ) (q : List ℕ)
    → 4 ≤ length q
    → Slot buf p q
    → rtp_sn q ≡ some sn
    → decode16 (drop (p * 1500 + 4) buf) ≡ some sn
Slot-sn buf p sn q h held e =
    ap decode16 (drop-add (p * 1500) 4 buf)
    ∙ sym (decode16-drop-take 4 (length (frame q)) (drop (p * 1500) buf) (omega arith))
    ∙ ap (λ (xs : List ℕ). decode16 (drop 4 xs)) held
    ∙ e

Slot-bytes :
    (buf : List ℕ) (p : ℕ) (q : List ℕ) → Slot buf p q → slice buf (p * 1500 + 2) (length q) ≡ q
Slot-bytes buf p q held =
    ap (take (length q)) (drop-add (p * 1500) 2 buf)
    ∙ sym (drop-take 2 (length q) (drop (p * 1500) buf))
    ∙ ap (λ n. drop 2 (take n (drop (p * 1500) buf))) {x = 2 + length q} {y = length (frame q)}
        (omega arith)
    ∙ ap (drop 2) held

-- So `get` finds the packet of a slot by its sequence number.
pub read_slot-Slot :
    (b : Bucket) (m s p sn : ℕ) (q : List ℕ)
    → IsValid b m s
    → p ≤ m
    → 4 ≤ length q
    → length q ≤ max_payload
    → Slot b.buf p q
    → rtp_sn q ≡ some sn
    → read_slot b p sn ≡ ok (some q)
unfolding read_slot
read_slot-Slot b m s p sn q v pm lo hi held e = ground (
  arith,
  v,
  Slot-length b.buf p q hi held,
  Slot-sn b.buf p sn q lo held e,
  Slot-bytes b.buf p q held,
)
