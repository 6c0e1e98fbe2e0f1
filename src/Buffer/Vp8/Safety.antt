-- ===== src/Buffer/Vp8/Safety.antt =====
-- `unmarshal` never indexes out of range, and where it succeeds its indices lie in the payload.
use rsfu.Prelude.{
  ℕ, suc, ◌+◌, ◌<◌, ◌≡◌, ◌⊎◌, inl, inr, refl, Bool, true, false, ◌||◌, List, [], ◌∷◌, arith, ltb,
  leb, ◌==◌, if◌then◌else◌, length, get_elem?-lt, err_short_packet, err_nil_packet, Bool-cases,
}
use rsfu.Buffer.Vp8.{
  Vp8, default, Run, done, failed, panicked, ◌then_do◌, byte_at, next_byte, flag, read_picture_id,
  read_tl0, read_tid, read_key_frame, read_extension, unmarshal,
}

-- The indices of the fields that were found lie in the payload, the second byte of a long picture
-- number included. (An index that was not found is 0.)
pub record InPayload (payload : List ℕ) (v : Vp8) : Type 0 where
  pub picture : v.picture_id_idx < length payload
  pub long_picture : v.mbit ≡ true → v.picture_id_idx + 1 < length payload
  pub tl0 : v.tlz_idx < length payload

-- A part of the function ends in the payload, or says that the packet is short.
abbrev pub Ends {ℓ} : {A : Type ℓ} → (A → Type 0) → List ℕ → Run A → Type 0
Ends P payload (done a v) = P a × InPayload payload v
Ends P payload (failed e v) = e ≡ err_short_packet
Ends P payload (panicked v) = ⊥

then_do-Ends {ℓ κ} :
    {A : Type ℓ} {B : Type κ} (P : A → Type 0) (Q : B → Type 0) (payload : List ℕ) (r : Run A)
    (f : A → Vp8 → Run B)
    → Ends P payload r
    → ((a : A) (v : Vp8) → P a → InPayload payload v → Ends Q payload (f a v))
    → Ends Q payload (r then_do f)
then_do-Ends P Q payload (done a v) f h k = k a v h.0 h.1
then_do-Ends P Q payload (failed e v) f h k = h
then_do-Ends P Q payload (panicked v) f h k = h

byte_at-done :
    (payload : List ℕ) (idx : ℕ) (v : Vp8)
    → idx < length payload
    → (b : ℕ) × (byte_at payload idx v ≡ done b v)
unfolding byte_at
byte_at-done payload idx v h = let (b, e) = get_elem?-lt payload idx h in (b, rw (e, byte_at))

-- Reading the next byte leaves its index in the payload.
next_byte-cases :
    (payload : List ℕ) (idx : ℕ) (v : Vp8)
    → (next_byte payload idx v ≡ failed err_short_packet v)
      ⊎ ((b : ℕ) × (next_byte payload idx v ≡ done b v) × (idx < length payload))
unfolding next_byte
next_byte-cases payload idx v = elim (Bool-cases (ltb (length payload) (idx + 1))) [
  | inl short ↦ inl (rw short)
  | inr long ↦
      let within : idx < length payload = ground arith in
      let (b, e) = byte_at-done payload idx v within in inr (b, rw long e, within)
]

next_byte-Ends {ℓ} :
    {B : Type ℓ} (Q : B → Type 0) (payload : List ℕ) (idx : ℕ) (v : Vp8) (f : ℕ → Vp8 → Run B)
    → ((b : ℕ) → idx < length payload → Ends Q payload (f b v))
    → Ends Q payload (next_byte payload idx v then_do f)
next_byte-Ends Q payload idx v f k = elim (next_byte-cases payload idx v) [
  | inl short ↦ rw short refl
  | inr (b, e, within) ↦ rw e (k b within)
]

abbrev Within : List ℕ → ℕ → Type 0
Within payload idx = idx < length payload

module _ (payload : List ℕ) (idx : ℕ) (v : Vp8) (p : InPayload payload v) where
  read_tl0-Ends : Ends (Within payload) payload (read_tl0 payload idx v)
  unfolding read_tl0
  read_tl0-Ends =
      next_byte-Ends (Within payload) payload (idx + 1) v _
        λ b w. (w, record { picture = p.picture; long_picture = p.long_picture; tl0 = w })

  read_tid-Ends : Ends (Within payload) payload (read_tid payload idx v)
  unfolding read_tid
  read_tid-Ends =
      next_byte-Ends (Within payload) payload (idx + 1) v _
        λ b w. (w, record { picture = p.picture; long_picture = p.long_picture; tl0 = p.tl0 })

  read_key_frame-Ends : (s : Bool) → Ends (λ _. Unit {0}) payload (read_key_frame payload idx s v)
  unfolding read_key_frame
  read_key_frame-Ends s =
      next_byte-Ends (λ _. Unit {0}) payload (idx + 1) v _
        λ b w. (tt, record { picture = p.picture; long_picture = p.long_picture; tl0 = p.tl0 })

  read_picture_id-Ends :
      v.mbit ≡ false → Ends (Within payload) payload (read_picture_id payload idx v)
  unfolding read_picture_id
  read_picture_id-Ends m = next_byte-Ends (Within payload) payload (idx + 1) v _ λ b w.
      elim (Bool-cases (flag b 0x80)) [
        | inl long ↦ rw long (
            next_byte-Ends (Within payload) payload (idx + 2) _ _
              λ low w'. (w', record { picture = w; long_picture = λ _. omega arith; tl0 = p.tl0 }))
        | inr short ↦ rw short (w, record { picture = w; long_picture = λ e. cc; tl0 = p.tl0 })
      ]

-- A part of the function that is run only if a flag is set.
optional-Ends :
    (payload : List ℕ) (idx : ℕ) (v : Vp8) (on : Bool) (r : Run ℕ)
    → idx < length payload
    → InPayload payload v
    → Ends (Within payload) payload r
    → Ends (Within payload) payload (if on then r else done idx v)
optional-Ends payload idx v true r w p h = h
optional-Ends payload idx v false r w p h = (w, p)

read_extension-Ends :
    (payload : List ℕ) (b : ℕ) (s : Bool) (v : Vp8)
    → 1 < length payload
    → InPayload payload v
    → v.mbit ≡ false
    → Ends (λ _. Unit {0}) payload (read_extension payload b s v)
unfolding read_extension
read_extension-Ends payload b s v0 w p m =
    let W = Within payload in
    let v : Vp8 = record v0 { temporal_supported = flag b 0x20 } in
    let p1 : InPayload payload v = record {
      picture = p.picture;
      long_picture = p.long_picture;
      tl0 = p.tl0;
    } in
    then_do-Ends W (λ _. Unit {0}) payload _ _
      (optional-Ends payload 1 v (flag b 0x80) _ w p1 (read_picture_id-Ends payload 1 v p1 m))
      λ i1 v1 w1 q1.
        then_do-Ends W (λ _. Unit {0}) payload _ _
          (optional-Ends payload i1 v1 (flag b 0x40) _ w1 q1 (read_tl0-Ends payload i1 v1 q1))
          λ i2 v2 w2 q2.
            then_do-Ends W (λ _. Unit {0}) payload _ _
              (optional-Ends payload i2 v2 (v2.temporal_supported || flag b 0x10) _ w2 q2
                (read_tid-Ends payload i2 v2 q2))
              λ i3 v3 w3 q3. ends i3 v3 q3
  where
    ends :
        (idx : ℕ) (v : Vp8)
        → InPayload payload v
        → Ends
            (λ _. Unit {0})
            payload
            (if leb (length payload) idx
              then failed err_short_packet v
              else read_key_frame payload idx s v)
    ends idx v q = elim (Bool-cases (leb (length payload) idx)) [
      | inl over ↦ rw over refl
      | inr in_range ↦ rw in_range (read_key_frame-Ends payload idx v q s)
    ]

unmarshal_nonempty :
    (x : ℕ) (xs : List ℕ) → Ends (λ _. Unit {0}) (x ∷ xs) (unmarshal (x ∷ xs) default)
unfolding unmarshal byte_at
unmarshal_nonempty x xs =
    let fresh : InPayload (x ∷ xs) default = record {
      picture = omega arith;
      long_picture = λ e. cc;
      tl0 = omega arith;
    } in
    let more : (suc (length xs) == 0) ≡ false = ground arith in
    rw more (elim (Bool-cases (flag x 0x80)) [
      | inl extended ↦ rw extended (
          next_byte-Ends (λ _. Unit {0}) (x ∷ xs) 1 default _
            λ b w. read_extension-Ends (x ∷ xs) b (flag x 0x10) default w fresh refl)
      | inr plain ↦ rw plain (read_key_frame-Ends (x ∷ xs) 0 default fresh (flag x 0x10))
    ])

-- `unmarshal` into a fresh `VP8` refuses an empty payload; on any other it either succeeds, with the
-- index of each field that it found inside the payload, or says that the packet is short. It never
-- indexes out of range.
pub unmarshal-Ends :
    (payload : List ℕ)
    → ((payload ≡ []) × (unmarshal payload default ≡ failed err_nil_packet default))
      ⊎ Ends (λ _. Unit {0}) payload (unmarshal payload default)
unfolding unmarshal
unmarshal-Ends [] = inl (refl, refl)
unmarshal-Ends (x ∷ xs) = inr (unmarshal_nonempty x xs)
