-- ===== src/Prelude/Bytes.antt =====
-- Byte arrays: slices read and overwritten, and the big-endian 16-bit numbers of `byteorder`.
use Prim.Native.Nat.{ℕ, zero, suc, ◌+◌, ◌*◌, ◌/◌, ◌%◌, ◌≤◌}
use Prim.Native.Nat.add
use mathlib.Core.Path.{◌≡◌, refl, ap}
use mathlib.Core.List.{List, [], ◌∷◌, ◌++◌}
use mathlib.Core.Option.{Option, none, some}
use native.Mathlib.Omega.{arith}
use rsfu.Prelude.Lists.{length, take, drop}

-- `buf[off..off + bytes.len()].copy_from_slice(bytes)`, for a range within the array.
abbrev pub write_at : List ℕ → ℕ → List ℕ → List ℕ
write_at [] off bs = []
write_at (x ∷ xs) zero [] = x ∷ xs
write_at (x ∷ xs) zero (b ∷ bs) = b ∷ write_at xs zero bs
write_at (x ∷ xs) (suc off) bs = x ∷ write_at xs off bs

-- `buf[off..off + n].to_vec()`, for a range within the array.
abbrev pub slice : List ℕ → ℕ → ℕ → List ℕ
slice xs off n = take n (drop off xs)

-- The two bytes of a `u16`, the high one first.
abbrev pub be16 : ℕ → List ℕ
be16 v = (v / 256 % 256) ∷ (v % 256) ∷ []

-- `BigEndian::read_u16` of a slice: `none` where fewer than two bytes are left.
abbrev pub decode16 : List ℕ → Option ℕ
decode16 [] = none
decode16 (_ ∷ []) = none
decode16 (hi ∷ lo ∷ _) = some (hi * 256 + lo)

pub length-write_at :
    (xs : List ℕ) (off : ℕ) (bs : List ℕ) → length (write_at xs off bs) ≡ length xs
length-write_at [] off bs = refl
length-write_at (x ∷ xs) zero [] = refl
length-write_at (x ∷ xs) zero (b ∷ bs) = ap suc (length-write_at xs zero bs)
length-write_at (x ∷ xs) (suc off) bs = ap suc (length-write_at xs off bs)

-- A range that was just written reads back, with any part of it.
pub slice-write_at_self :
    (xs : List ℕ) (off : ℕ) (bs : List ℕ)
    → off + length bs ≤ length xs
    → slice (write_at xs off bs) off (length bs) ≡ bs
slice-write_at_self [] zero [] h = refl
slice-write_at_self [] (suc off) [] h = refl
slice-write_at_self [] off (b ∷ bs) h = absurd (omega arith)
slice-write_at_self (x ∷ xs) zero [] h = refl
slice-write_at_self (x ∷ xs) zero (b ∷ bs) h =
    ap (◌∷◌ b) (slice-write_at_self xs zero bs (omega arith))
slice-write_at_self (x ∷ xs) (suc off) bs h = slice-write_at_self xs off bs (omega arith)

-- A range before or behind the one that is written stays as it was.
pub slice-write_at_before :
    (xs : List ℕ) (off : ℕ) (bs : List ℕ) (i n : ℕ)
    → i + n ≤ off
    → slice (write_at xs off bs) i n ≡ slice xs i n
slice-write_at_before [] off bs i n h = refl
slice-write_at_before (x ∷ xs) zero bs zero zero h = refl
slice-write_at_before (x ∷ xs) zero bs zero (suc n) h = absurd (omega arith)
slice-write_at_before (x ∷ xs) zero bs (suc i) n h = absurd (omega arith)
slice-write_at_before (x ∷ xs) (suc off) bs zero zero h = refl
slice-write_at_before (x ∷ xs) (suc off) bs zero (suc n) h =
    ap (◌∷◌ x) (slice-write_at_before xs off bs zero n (omega arith))
slice-write_at_before (x ∷ xs) (suc off) bs (suc i) n h =
    slice-write_at_before xs off bs i n (omega arith)

pub slice-write_at_behind :
    (xs : List ℕ) (off : ℕ) (bs : List ℕ) (i n : ℕ)
    → off + length bs ≤ i
    → slice (write_at xs off bs) i n ≡ slice xs i n
slice-write_at_behind [] off bs i n h = refl
slice-write_at_behind (x ∷ xs) zero [] i n h = refl
slice-write_at_behind (x ∷ xs) zero (b ∷ bs) zero n h = absurd (omega arith)
slice-write_at_behind (x ∷ xs) zero (b ∷ bs) (suc i) n h =
    slice-write_at_behind xs zero bs i n (omega arith)
slice-write_at_behind (x ∷ xs) (suc off) bs zero n h = absurd (omega arith)
slice-write_at_behind (x ∷ xs) (suc off) bs (suc i) n h =
    slice-write_at_behind xs off bs i n (omega arith)

decode16-take : (xs : List ℕ) (n : ℕ) → 2 ≤ n → decode16 (take n xs) ≡ decode16 xs
decode16-take [] zero h = refl
decode16-take [] (suc n) h = refl
decode16-take (x ∷ []) zero h = absurd (omega arith)
decode16-take (x ∷ []) (suc zero) h = refl
decode16-take (x ∷ []) (suc (suc n)) h = refl
decode16-take (x ∷ y ∷ xs) zero h = absurd (omega arith)
decode16-take (x ∷ y ∷ xs) (suc zero) h = absurd (omega arith)
decode16-take (x ∷ y ∷ xs) (suc (suc n)) h = refl

pub write_at-append :
    (xs : List ℕ) (off : ℕ) (cs bs : List ℕ)
    → write_at (write_at xs off cs) (off + length cs) bs ≡ write_at xs off (cs ++ bs)
write_at-append [] off cs bs = refl
write_at-append (x ∷ xs) zero [] bs = refl
write_at-append (x ∷ xs) zero (a ∷ cs) bs =
    rw add.zero (ap (◌∷◌ a) (rw add.zero at (write_at-append xs zero cs bs)))
write_at-append (x ∷ xs) (suc off) cs bs = rw add.suc (ap (◌∷◌ x) (write_at-append xs off cs bs))

pub drop-add {ℓ} : {A : Type ℓ} (a b : ℕ) (xs : List A) → drop (a + b) xs ≡ drop b (drop a xs)
drop-add zero b xs = rw add.zero
drop-add (suc a) zero [] = rw add.suc
drop-add (suc a) (suc b) [] = rw add.suc
drop-add (suc a) b (x ∷ xs) = rw add.suc (drop-add a b xs)

-- What stands inside the first `n` bytes of an array can be read from those bytes.
pub decode16-drop-take :
    (k n : ℕ) (xs : List ℕ) → k + 2 ≤ n → decode16 (drop k (take n xs)) ≡ decode16 (drop k xs)
decode16-drop-take zero n xs h = decode16-take xs n (omega arith)
decode16-drop-take (suc k) zero xs h = absurd (omega arith)
decode16-drop-take (suc k) (suc n) [] h = refl
decode16-drop-take (suc k) (suc n) (x ∷ xs) h = decode16-drop-take k n xs (omega arith)

pub drop-take : (k n : ℕ) (xs : List ℕ) → drop k (take (k + n) xs) ≡ take n (drop k xs)
drop-take zero n xs = rw add.zero
drop-take (suc k) zero [] = rw add.suc
drop-take (suc k) (suc n) [] = rw add.suc
drop-take (suc k) n (x ∷ xs) = rw add.suc (drop-take k n xs)
