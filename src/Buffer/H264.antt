-- ===== src/Buffer/H264.antt =====
-- rsfu/src/buffer/helpers.rs, `is_h264_keyframe`: whether an RTP payload of H.264 (RFC 6184) begins
-- a key frame. An index out of range panics; the outer `none` means that the fuel ran out.
pub mod Safety
pub mod Pieces
pub mod Units
mod Tests
use rsfu.Prelude.{
  ℕ, zero, suc, ◌+◌, ◌*◌, ◌≤◌, Bool, true, false, ◌||◌, not, Option, none, some, List, [], ◌∷◌, ltb,
  leb, ◌==◌, if◌then◌else◌, length, get_elem?, bit_and, bit_or, Outcome, ok, panic, ◌>>=◌,
}

-- `payload[i]`
unfoldable pub byte_at : List ℕ → ℕ → Outcome ℕ
byte_at payload i = elim (get_elem? payload i) [ none ↦ panic | some b ↦ ok b ]

-- The type of an aggregation packet decides how far into a unit its first byte stands.
unfoldable pub unit_offset : ℕ → ℕ
unit_offset nalu = if nalu == 26 then 3 else if nalu == 27 then 4 else 0

-- One round of the loop over the units: the function's result, or the index of the next unit.
pub data Round : Type 0 where
  returns : Bool → Round
  goes_on : ℕ → Round

-- `i` points behind the two bytes of the length here.
unfoldable pub visit_unit : List ℕ → ℕ → ℕ → ℕ → Outcome Round
visit_unit payload nalu i len =
    if ltb (length payload) (i + len)
    then ok (returns false)
    else if leb len (unit_offset nalu)
    then ok (returns false)
    else (byte_at payload (i + unit_offset nalu) >>= λ b.
        if bit_and b 0x1f == 7 then ok (returns true) else ok (goes_on (i + len)))

unfoldable pub round : List ℕ → ℕ → ℕ → Outcome Round
round payload nalu i =
    if ltb (length payload) (i + 2)
    then ok (returns false)
    else (byte_at payload i >>= λ hi.
        byte_at payload (i + 1) >>= λ lo. visit_unit payload nalu (i + 2) (bit_or (hi * 256) lo))

-- `while i < payload.len()`
unfoldable pub scan_units : ℕ → List ℕ → ℕ → ℕ → Option (Outcome Bool)
scan_units zero payload nalu i = none
scan_units (suc fuel) payload nalu i = elim (ltb i (length payload)) [
  | false ↦ some (ok false)
  | true ↦ elim (round payload nalu i) [
    | ok (returns b) ↦ some (ok b)
    | ok (goes_on j) ↦ scan_units fuel payload nalu j
    | Outcome.err e ↦ some (Outcome.err e)
    | panic ↦ some panic
  ]
]

-- The first fragment of a fragmented unit says what it is.
unfoldable pub first_fragment : List ℕ → Outcome Bool
first_fragment payload =
    if ltb (length payload) 2
    then ok false
    else (byte_at payload 1 >>= λ b.
        if bit_and b 0x80 == 0 then ok false else ok (bit_and b 0x1f == 7))

unfoldable pub by_type : List ℕ → ℕ → Option (Outcome Bool)
by_type payload nalu =
    if nalu == 0
    then some (ok false)
    else if leb nalu 23
    then some (ok (nalu == 5))
    else if nalu == 24 || (nalu == 25 || (nalu == 26 || nalu == 27))
    then scan_units (length payload) payload nalu
        (if nalu == 25 || (nalu == 26 || nalu == 27) then 3 else 1)
    else if nalu == 28 || nalu == 29
    then some (first_fragment payload)
    else some (ok false)

unfoldable pub is_h264_keyframe : List ℕ → Option (Outcome Bool)
is_h264_keyframe payload =
    if length payload == 0 then some (ok false) else elim (byte_at payload 0) [
      | ok b ↦ by_type payload (bit_and b 0x1f)
      | Outcome.err e ↦ some (Outcome.err e)
      | panic ↦ some panic
    ]
