-- ===== src/Buffer/H264/Pieces.antt =====
-- The loop over the units of an aggregation packet, at bytes that begin with their lengths: it looks at
-- the byte at the offset in each.
use rsfu.Prelude.{
  ℕ, zero, suc, ◌+◌, ◌*◌, ◌/◌, ◌%◌, ◌-◌, ◌≤◌, ◌<◌, ◌≡◌, inl, inr, refl, sym, ap, ◌∙◌, Bool, true,
  false, ◌||◌, some, List, [], ◌∷◌, ◌++◌, arith, ltb, leb, ◌==◌, if◌then◌else◌, length, get_elem?,
  drop, length-append, get_elem?-drop, get_elem?-append, drop-append_self, lt-get_elem?, bit_and,
  bit_or, ok, Bool-cases,
}
use rsfu.Prelude.Bits.{bit_or-field}
use rsfu.Prelude.Bytes.{be16, drop-add}
use rsfu.Buffer.H264.{
  byte_at, unit_offset, returns, goes_on, visit_unit, round, scan_units, by_type, is_h264_keyframe,
}

-- What a length counts: some bytes, with the one of them that holds the type.
pub record Piece : Type 0 where
  pub bytes : List ℕ
  pub header : ℕ

-- The type stands where the loop looks for it, and the length fits its two bytes.
abbrev pub IsUnit : ℕ → Piece → Type 0
IsUnit nalu u = (get_elem? u.bytes (unit_offset nalu) ≡ some u.header) × (length u.bytes < 65536)

abbrev pub AreUnits : ℕ → List Piece → Type 0
AreUnits nalu [] = Unit {0}
AreUnits nalu (u ∷ us) = IsUnit nalu u × AreUnits nalu us

abbrev pub joined : List Piece → List ℕ
joined [] = []
joined (u ∷ us) = be16 (length u.bytes) ++ (u.bytes ++ joined us)

abbrev pub any_set : List Piece → Bool
any_set [] = false
any_set (u ∷ us) = if bit_and u.header 0x1f == 7 then true else any_set us

byte_at-drop :
    (payload : List ℕ) (k i b : ℕ) (ys : List ℕ)
    → drop k payload ≡ ys
    → get_elem? ys i ≡ some b
    → byte_at payload (k + i) ≡ ok b
unfolding byte_at
byte_at-drop payload k i b ys e f =
    let g : get_elem? payload (k + i) ≡ some b =
      sym (get_elem?-drop payload k i) ∙ ap (λ zs. get_elem? zs i) e ∙ f in
    rw (g, byte_at)

length-drop_eq :
    (payload : List ℕ) (k : ℕ) (ys : List ℕ)
    → drop k payload ≡ ys
    → k ≤ length payload
    → length payload ≡ k + length ys
length-drop_eq payload zero ys e h = omega (arith, ap length e)
length-drop_eq [] (suc k) ys e h = absurd (omega arith)
length-drop_eq (x ∷ xs) (suc k) ys e h = omega (arith, length-drop_eq xs k ys e (omega arith))

visit_unit-encode :
    (payload : List ℕ) (nalu i : ℕ) (u : Piece) (rest : List ℕ)
    → IsUnit nalu u
    → i ≤ length payload
    → drop i payload ≡ u.bytes ++ rest
    → visit_unit payload nalu i (length u.bytes)
      ≡ ok (if bit_and u.header 0x1f == 7 then returns true else goes_on (i + length u.bytes))
unfolding visit_unit
visit_unit-encode payload nalu i u rest (header, _) h e =
    let len = length-drop_eq payload i (u.bytes ++ rest) e h in
    let fits : ltb (length payload) (i + length u.bytes) ≡ false =
      ground (arith, len, length-append u.bytes rest) in
    let long : leb (length u.bytes) (unit_offset nalu) ≡ false =
      ground (arith, lt-get_elem? u.bytes (unit_offset nalu) u.header header) in
    let at =
      byte_at-drop payload i (unit_offset nalu) u.header (u.bytes ++ rest) e
        (get_elem?-append u.bytes rest (unit_offset nalu) u.header header) in
    rw (fits, long, at) (split (bit_and u.header 0x1f == 7))
  where
    split :
        (b : Bool)
        → (if b then ok (returns true) else ok (goes_on (i + length u.bytes)))
          ≡ ok (if b then returns true else goes_on (i + length u.bytes))
    split true = refl
    split false = refl

round-encode :
    (payload : List ℕ) (nalu i : ℕ) (u : Piece) (rest : List ℕ)
    → IsUnit nalu u
    → i ≤ length payload
    → drop i payload ≡ be16 (length u.bytes) ++ (u.bytes ++ rest)
    → round payload nalu i
      ≡ ok (if bit_and u.header 0x1f == 7 then returns true else goes_on (i + 2 + length u.bytes))
unfolding round
round-encode payload nalu i u rest v h e =
    let n = length u.bytes in
    let all = be16 n ++ (u.bytes ++ rest) in
    let len = length-drop_eq payload i all e h in
    let fits : ltb (length payload) (i + 2) ≡ false = ground (arith, len) in
    let hi =
      ap (byte_at payload) {x = i} {y = i + 0} (omega arith)
      ∙ byte_at-drop payload i 0 (n / 256 % 256) all e refl in
    let lo = byte_at-drop payload i 1 (n % 256) all e refl in
    let value : bit_or (n / 256 % 256 * 256) (n % 256) ≡ n =
      bit_or-field 8 (n / 256 % 256) (n % 256) (omega arith) ∙ omega (arith, v.1) in
    let behind : drop (i + 2) payload ≡ u.bytes ++ rest = drop-add i 2 payload ∙ ap (drop 2) e in
    rw (fits, hi, lo, value)
      (visit_unit-encode payload nalu (i + 2) u rest v (omega (arith, len)) behind)

scan_units-encode :
    (fuel : ℕ) (payload : List ℕ) (nalu i : ℕ) (us : List Piece)
    → AreUnits nalu us
    → i ≤ length payload
    → length payload - i < fuel
    → drop i payload ≡ joined us
    → scan_units fuel payload nalu i ≡ some (ok (any_set us))
unfolding scan_units
scan_units-encode zero payload nalu i us v h f e = absurd (omega arith)
scan_units-encode (suc fuel) payload nalu i [] v h f e =
    let end : ltb i (length payload) ≡ false = ground (arith, length-drop_eq payload i [] e h) in
    rw (end, scan_units)
scan_units-encode (suc fuel) payload nalu i (u ∷ us) (v, vs) h f e =
    let n = length u.bytes in
    let len = length-drop_eq payload i (joined (u ∷ us)) e h in
    let more : ltb i (length payload) ≡ true = ground (arith, len) in
    let r = round-encode payload nalu i u (joined us) v h e in
    let behind : drop (i + 2 + n) payload ≡ joined us =
      drop-add (i + 2) n payload
      ∙ ap (drop n) (drop-add i 2 payload ∙ ap (drop 2) e)
      ∙ drop-append_self u.bytes (joined us) in
    let far = length-append u.bytes (joined us) in
    elim (Bool-cases (bit_and u.header 0x1f == 7)) [
      | inl key ↦ rw (more, r, key, scan_units)
      | inr other ↦
          rw (more, r, other, scan_units)
            (scan_units-encode fuel payload nalu (i + 2 + n) us vs (omega (arith, len, far))
              (omega (arith, len)) behind)
    ]

by_type-scan_units :
    (payload : List ℕ) (nalu : ℕ)
    → 24 ≤ nalu
    → nalu ≤ 27
    → by_type payload nalu ≡ scan_units (length payload) payload nalu (if nalu == 24 then 1 else 3)
unfolding by_type
by_type-scan_units payload nalu low high =
    let some_unit : (nalu == 0) ≡ false = ground arith in
    let large : leb nalu 23 ≡ false = ground arith in
    let of_four : (nalu == 24 || (nalu == 25 || (nalu == 26 || nalu == 27))) ≡ true =
      ground arith in
    elim (Bool-cases (nalu == 24)) [
      | inl single ↦
          let others : (nalu == 25 || (nalu == 26 || nalu == 27)) ≡ false = ground arith in
          rw (some_unit, large, of_four, others, single)
      | inr numbered ↦
          let others : (nalu == 25 || (nalu == 26 || nalu == 27)) ≡ true = ground arith in
          rw (some_unit, large, of_four, others, numbered)
    ]

is_h264_keyframe-by_type :
    (x : ℕ) (xs : List ℕ) → is_h264_keyframe (x ∷ xs) ≡ by_type (x ∷ xs) (bit_and x 0x1f)
unfolding is_h264_keyframe byte_at
is_h264_keyframe-by_type x xs = let more : (length (x ∷ xs) == 0) ≡ false = ground arith in rw more

abbrev pub aggregation_of : ℕ → ℕ → List Piece → List ℕ
aggregation_of header don us =
    header ∷ (if bit_and header 0x1f == 24 then joined us else be16 don ++ joined us)

pub is_h264_keyframe-joined :
    (header don : ℕ) (us : List Piece)
    → 24 ≤ bit_and header 0x1f
    → bit_and header 0x1f ≤ 27
    → AreUnits (bit_and header 0x1f) us
    → is_h264_keyframe (aggregation_of header don us) ≡ some (ok (any_set us))
is_h264_keyframe-joined header don us low high v =
    let nalu = bit_and header 0x1f in
    let units = joined us in
    elim (Bool-cases (nalu == 24)) [
      | inl single ↦
          let front : aggregation_of header don us ≡ header ∷ units = rw single in
          rw front (
            is_h264_keyframe-by_type header units
            ∙ by_type-scan_units (header ∷ units) nalu low high
            ∙ rw single (
                scan_units-encode (suc (length units)) (header ∷ units) nalu 1 us v (omega arith)
                  (omega arith) refl))
      | inr numbered ↦
          let front : aggregation_of header don us ≡ header ∷ (be16 don ++ units) = rw numbered in
          rw front (
            is_h264_keyframe-by_type header (be16 don ++ units)
            ∙ by_type-scan_units (header ∷ (be16 don ++ units)) nalu low high
            ∙ rw numbered (
                scan_units-encode (suc (suc (suc (length units)))) (header ∷ (be16 don ++ units))
                  nalu 3 us v (omega arith) (omega arith) refl))
    ]
