-- ===== src/Buffer/H264/Safety.antt =====
-- `is_h264_keyframe` ends and never indexes out of range.
use rsfu.Prelude.{
  ℕ, zero, suc, ◌+◌, ◌*◌, ◌-◌, ◌≤◌, ◌<◌, ◌≡◌, ◌⊎◌, inl, inr, refl, ap, Bool, true, false, ◌||◌,
  Option, some, List, [], ◌∷◌, arith, ltb, leb, ◌==◌, if◌then◌else◌, length, get_elem?-lt, bit_and,
  bit_or, Outcome, ok, Bool-cases,
}
use rsfu.Buffer.H264.{
  byte_at, unit_offset, Round, returns, goes_on, visit_unit, round, scan_units, first_fragment,
  by_type, is_h264_keyframe,
}

byte_at-ok : (payload : List ℕ) (i : ℕ) → i < length payload → (b : ℕ) × (byte_at payload i ≡ ok b)
unfolding byte_at
byte_at-ok payload i h = let (b, e) = get_elem?-lt payload i h in (b, rw (e, byte_at))

-- A round ends the function, or goes on at `from` or later.
abbrev Advances : ℕ → Outcome Round → Type 0
Advances from r =
    ((b : Bool) × (r ≡ ok (returns b))) ⊎ ((j : ℕ) × (r ≡ ok (goes_on j)) × (from ≤ j))

visit_unit-Advances :
    (payload : List ℕ) (nalu i len : ℕ) → Advances i (visit_unit payload nalu i len)
unfolding visit_unit
visit_unit-Advances payload nalu i len = elim (Bool-cases (ltb (length payload) (i + len))) [
  | inl over ↦ inl (false, rw over)
  | inr fits ↦ elim (Bool-cases (leb len (unit_offset nalu))) [
    | inl short ↦ inl (false, rw (fits, short))
    | inr long ↦
        let (b, e) = byte_at-ok payload (i + unit_offset nalu) (ground arith) in
        rw (fits, long, e) (type b)
  ]
]
  where
    type :
        (b : ℕ)
        → Advances i (if bit_and b 0x1f == 7 then ok (returns true) else ok (goes_on (i + len)))
    type b = elim (Bool-cases (bit_and b 0x1f == 7)) [
      | inl key ↦ inl (true, rw key)
      | inr other ↦ inr (i + len, rw other, omega arith)
    ]

round-Advances : (payload : List ℕ) (nalu i : ℕ) → Advances (i + 2) (round payload nalu i)
unfolding round
round-Advances payload nalu i = elim (Bool-cases (ltb (length payload) (i + 2))) [
  | inl over ↦ inl (false, rw over)
  | inr fits ↦
      let (hi, e) = byte_at-ok payload i (ground arith) in
      let (lo, f) = byte_at-ok payload (i + 1) (ground arith) in
      rw (fits, e, f) (visit_unit-Advances payload nalu (i + 2) (bit_or (hi * 256) lo))
]

-- The loop ends within as many rounds as bytes are left.
scan_units-total :
    (fuel : ℕ) (payload : List ℕ) (nalu i : ℕ)
    → length payload - i < fuel
    → (b : Bool) × (scan_units fuel payload nalu i ≡ some (ok b))
unfolding scan_units
scan_units-total zero payload nalu i h = absurd (omega arith)
scan_units-total (suc fuel) payload nalu i h = elim (Bool-cases (ltb i (length payload))) [
  | inr end ↦ (false, rw (end, scan_units))
  | inl more ↦ elim (round-Advances payload nalu i) [
    | inl (b, e) ↦ (b, rw (more, e, scan_units))
    | inr (j, e, le) ↦
        let (b, f) = scan_units-total fuel payload nalu j (ground arith) in
        (b, rw (more, e, scan_units) f)
  ]
]

first_fragment-ok : (payload : List ℕ) → (b : Bool) × (first_fragment payload ≡ ok b)
unfolding first_fragment
first_fragment-ok payload = elim (Bool-cases (ltb (length payload) 2)) [
  | inl short ↦ (false, rw short)
  | inr long ↦
      let (b, e) = byte_at-ok payload 1 (ground arith) in
      rw (long, e) (either (bit_and b 0x80 == 0) (bit_and b 0x1f == 7))
]
  where
    either : (x y : Bool) → (b : Bool) × ((if x then ok false else ok y) ≡ ok b)
    either true y = (false, refl)
    either false y = (y, refl)

by_type-total :
    (payload : List ℕ) (nalu : ℕ)
    → 0 < length payload
    → (b : Bool) × (by_type payload nalu ≡ some (ok b))
unfolding by_type
by_type-total payload nalu h =
    let start : ℕ = if nalu == 25 || (nalu == 26 || nalu == 27) then 3 else 1 in
    let (s, e) = scan_units-total (length payload) payload nalu start (ground arith) in
    let (f, g) = first_fragment-ok payload in
    choose (nalu == 0) (leb nalu 23) (nalu == 24 || (nalu == 25 || (nalu == 26 || nalu == 27)))
      (nalu == 28 || nalu == 29) (nalu == 5) s f e (ap some g)
  where
    choose :
        (p q r t : Bool) {scanned fragment : Option (Outcome Bool)} (n s f : Bool)
        → scanned ≡ some (ok s)
        → fragment ≡ some (ok f)
        → (b : Bool) × ((if p
              then some (ok false)
              else if q
              then some (ok n)
              else if r
              then scanned
              else if t
              then fragment
              else some (ok false))
            ≡ some (ok b))
    choose true q r t n s f e g = (false, refl)
    choose false true r t n s f e g = (n, refl)
    choose false false true t n s f e g = (s, e)
    choose false false false true n s f e g = (f, g)
    choose false false false false n s f e g = (false, refl)

-- Whatever the payload, `is_h264_keyframe` returns a Boolean: it never panics, and the fuel that the
-- loop is given here, the number of bytes, is enough.
pub is_h264_keyframe-total :
    (payload : List ℕ) → (b : Bool) × (is_h264_keyframe payload ≡ some (ok b))
unfolding is_h264_keyframe
is_h264_keyframe-total [] = (false, refl)
is_h264_keyframe-total (x ∷ xs) =
    let (b, e) = byte_at-ok (x ∷ xs) 0 (omega arith) in
    let (c, f) = by_type-total (x ∷ xs) (bit_and b 0x1f) (omega arith) in
    let more : (length (x ∷ xs) == 0) ≡ false = ground arith in (c, rw (more, e) f)
