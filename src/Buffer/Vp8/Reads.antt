-- ===== src/Buffer/Vp8/Reads.antt =====
-- What each part of `unmarshal` makes of the bytes of its field.
use native.Mathlib.Nat.{add-zero}
use rsfu.Prelude.{
  ℕ, ◌+◌, ◌*◌, ◌/◌, ◌%◌, ◌<◌, ◌≡◌, refl, ap, ◌∙◌, Bool, true, false, ◌&&◌, Option, none, some, List,
  ◌∷◌, ◌++◌, arith, ◌==◌, if◌then◌else◌, length, drop, lt-get_elem?, get_elem?-drop_cons, bit_and,
  bit_or,
}
use rsfu.Prelude.Bytes.{drop-add}
use rsfu.Prelude.Bits.{byte_bits, bit_or-field}
use rsfu.Buffer.Vp8.{
  Vp8, Run, done, ◌then_do◌, byte_at, next_byte, flag, read_picture_id, read_tl0, read_tid,
  read_key_frame,
}
use rsfu.Buffer.Vp8.Descriptor.{
  Picture, no_picture, short_picture, long_picture, bit, has_picture, has_tl0, picture_bytes,
  tl0_bytes, tid_bytes, PictureInRange, with_picture, with_tl0, with_tid,
}

-- Reading by index, at what is left behind the index.
pub drop-next : (xs : List ℕ) (k b : ℕ) (ys : List ℕ) → drop k xs ≡ b ∷ ys → drop (k + 1) xs ≡ ys
drop-next xs k b ys e = drop-add k 1 xs ∙ ap (drop 1) e

pub next_byte-at :
    (payload : List ℕ) (idx b : ℕ) (ys : List ℕ) (v : Vp8)
    → drop idx payload ≡ b ∷ ys
    → next_byte payload idx v ≡ done b v
unfolding next_byte byte_at
next_byte-at payload idx b ys v e =
    let g = get_elem?-drop_cons payload idx b ys e in
    ground (arith, g, lt-get_elem? payload idx b g)

pub flag_bits :
    (x l t k : Bool) (r : ℕ)
    → r < 16
    → let b = bit x * 128 + bit l * 64 + bit t * 32 + bit k * 16 + r in
      (flag b 0x80 ≡ x) × (flag b 0x40 ≡ l) × (flag b 0x20 ≡ t) × (flag b 0x10 ≡ k)
flag_bits x l t k r h =
    let b = bit x * 128 + bit l * 64 + bit t * 32 + bit k * 16 + r in
    let v = byte_bits b (small x l t k) in
    (v.bit80 ∙ at80 x l t k, v.bit40 ∙ at40 x l t k, v.bit20 ∙ at20 x l t k, v.bit10 ∙ at10 x l t k)
  where
    small : (x l t k : Bool) → bit x * 128 + bit l * 64 + bit t * 32 + bit k * 16 + r < 256
    small x l t k = ground arith

    at80 :
        (x l t k : Bool)
        → ((bit x * 128 + bit l * 64 + bit t * 32 + bit k * 16 + r) / 128 % 2 == 1) ≡ x
    at80 x l t k = ground arith

    at40 :
        (x l t k : Bool)
        → ((bit x * 128 + bit l * 64 + bit t * 32 + bit k * 16 + r) / 64 % 2 == 1) ≡ l
    at40 x l t k = ground arith

    at20 :
        (x l t k : Bool)
        → ((bit x * 128 + bit l * 64 + bit t * 32 + bit k * 16 + r) / 32 % 2 == 1) ≡ t
    at20 x l t k = ground arith

    at10 :
        (x l t k : Bool)
        → ((bit x * 128 + bit l * 64 + bit t * 32 + bit k * 16 + r) / 16 % 2 == 1) ≡ k
    at10 x l t k = ground arith

-- A part that was read: the next index, the fields, and what is left behind it.
abbrev pub Reads : List ℕ → List ℕ → Run ℕ → ℕ → Vp8 → Type 0
Reads payload rest r idx v = (r ≡ done idx v) × (drop (idx + 1) payload ≡ rest)

-- What `read_picture_id` does with its bytes.
read_second : ℕ → ℕ → Vp8 → Run ℕ
read_second pid low v = done 3 (record v { mbit = true; picture_id = bit_or (pid * 256) low })

read_first : List ℕ → ℕ → Vp8 → Run ℕ
unfolding read_second
read_first payload b v =
    let w = record v { picture_id_idx = 2 } in
    if flag b 0x80
    then (next_byte payload 3 w then_do read_second (bit_and b 0x7f))
    else done 2 (record w { picture_id = bit_and b 0x7f })

pub read_picture_id-Reads :
    (payload : List ℕ) (v : Vp8) (p : Picture) (rest : List ℕ)
    → PictureInRange p
    → drop 2 payload ≡ picture_bytes p ++ rest
    → Reads payload rest
        (if has_picture p then read_picture_id payload 1 v else done 1 v)
        (1 + length (picture_bytes p))
        (with_picture v p)
unfolding read_picture_id read_first
read_picture_id-Reads payload v no_picture rest h e = (refl, e)
read_picture_id-Reads payload v (short_picture p) rest h e =
    let bits = byte_bits p (omega arith) in
    let short : flag p 0x80 ≡ false = bits.bit80 ∙ ground arith in
    let value : bit_and p 0x7f ≡ p = bits.low7f ∙ omega arith in
    (
      ap (λ r. r then_do read_first payload) (next_byte-at payload 2 p rest v e)
          ∙ rw (short, value),
      drop-next payload 2 p rest e,
    )
read_picture_id-Reads payload v (long_picture p) rest h e =
    let hi = 128 + p / 256 in
    let bits = byte_bits hi (omega arith) in
    let long : flag hi 0x80 ≡ true = bits.bit80 ∙ ground arith in
    let value : bit_or (bit_and hi 0x7f * 256) (p % 256) ≡ p =
      ap (λ n. bit_or (n * 256) (p % 256)) {x = bit_and hi 0x7f} {y = p / 256}
        (bits.low7f ∙ omega arith)
      ∙ bit_or-field 8 (p / 256) (p % 256) (omega arith)
      ∙ omega arith in
    let e3 = drop-next payload 2 hi (p % 256 ∷ rest) e in
    let w = record v { picture_id_idx = 2 } in
    (
      ap (λ r. r then_do read_first payload) (next_byte-at payload 2 hi (p % 256 ∷ rest) v e)
          ∙ rw long (
              ap (λ r. r then_do read_second (bit_and hi 0x7f))
                (next_byte-at payload 3 (p % 256) rest w e3)
              ∙ rw value),
      drop-next payload 3 (p % 256) rest e3,
    )

pub read_tl0-Reads :
    (payload : List ℕ) (idx : ℕ) (v : Vp8) (o : Option ℕ) (rest : List ℕ)
    → drop (idx + 1) payload ≡ tl0_bytes o ++ rest
    → Reads payload rest
        (if has_tl0 o then read_tl0 payload idx v else done idx v)
        (idx + length (tl0_bytes o))
        (with_tl0 v (idx + 1) o)
unfolding read_tl0
read_tl0-Reads payload idx v none rest e = rw add-zero (refl, e)
read_tl0-Reads payload idx v (some b) rest e = (
  ap (λ r. r then_do λ b v. done (idx + 1) (record v { tlz_idx = idx + 1; tl0_picture_idx = b }))
      (next_byte-at payload (idx + 1) b rest v e),
  drop-next payload (idx + 1) b rest e,
)

pub read_tid-Reads :
    (payload : List ℕ) (idx : ℕ) (v : Vp8) (on : Bool) (tid key_idx : ℕ) (rest : List ℕ)
    → tid < 4
    → key_idx < 64
    → drop (idx + 1) payload ≡ tid_bytes on tid key_idx ++ rest
    → Reads payload rest
        (if on then read_tid payload idx v else done idx v)
        (idx + length (tid_bytes on tid key_idx))
        (with_tid v on tid)
unfolding read_tid
read_tid-Reads payload idx v false tid key_idx rest h k e = rw add-zero (refl, e)
read_tid-Reads payload idx v true tid key_idx rest h k e =
    let b = tid * 64 + key_idx in
    let value : bit_and b 0xc0 / 64 ≡ tid = (byte_bits b (omega arith)).high_c0 ∙ omega arith in
    (
      ap (λ r. r then_do λ b v. done (idx + 1) (record v { tid = bit_and b 0xc0 / 64 }))
            (next_byte-at payload (idx + 1) b rest v e)
          ∙ ap (λ n. done (idx + 1) (record v { tid = n })) value,
      drop-next payload (idx + 1) b rest e,
    )

pub read_key_frame-at :
    (payload : List ℕ) (idx : ℕ) (s : Bool) (v : Vp8) (frame : ℕ) (rest : List ℕ)
    → frame < 256
    → drop (idx + 1) payload ≡ frame ∷ rest
    → read_key_frame payload idx s v ≡ done tt (record v { is_key_frame = frame % 2 == 0 && s })
unfolding read_key_frame
read_key_frame-at payload idx s v frame rest h e =
    ap (λ r. r then_do λ b v. done tt (record v { is_key_frame = bit_and b 0x01 == 0 && s }))
      (next_byte-at payload (idx + 1) frame rest v e)
    ∙ ap (λ n. done tt (record v { is_key_frame = n == 0 && s })) (byte_bits frame h).low01
