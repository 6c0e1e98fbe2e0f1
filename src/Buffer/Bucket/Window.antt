-- ===== src/Buffer/Bucket/Window.antt =====
-- A bucket that takes packets in order is a queue of the newest `m + 1` of them.
use rsfu.Prelude.{
  ℕ, suc, ◌+◌, ◌-◌, ◌%◌, ◌≤◌, ◌<◌, ◌≡◌, ◌∙◌, false, dec_lt, ap, ap₂, some, List, [], ◌∷◌, arith,
  ltb, if◌then◌else◌, length, ok,
}
use rsfu.Prelude.Int.{pos, negsuc, ◌+ℤ◌, ◌-ℤ◌, ltb_ℤ}
use rsfu.Buffer.Bucket.{
  Bucket, distance, get, get_at, set, set_at, wrapped, write_slot, read_slot, u16,
}
use rsfu.Buffer.Bucket.Slots.{IsValid, Slot, max_payload, rtp_sn, read_slot-Slot}

-- The slot of the packet that is `i` behind the newest, and the sequence number that it has.
abbrev pub back : ℕ → ℕ → ℕ → ℕ
back m s i = if ltb i s then s - (i + 1) else m + s - i

abbrev pub sn_back : ℕ → ℕ → ℕ
sn_back head i = (head + 65536 - i) % 65536

-- A packet that fits its slot and carries the sequence number `sn`.
abbrev pub IsPacket : List ℕ → ℕ → Type 0
IsPacket q sn = (4 ≤ length q) × (length q ≤ max_payload) × (rtp_sn q ≡ some sn)

-- The list is newest first; its head is `i` behind the newest packet of the bucket.
abbrev pub Holds : Bucket → ℕ → ℕ → ℕ → List (List ℕ) → Type 0
Holds b m s i [] = Unit {0}
Holds b m s i (q ∷ qs) =
    (i ≤ m) × IsPacket q (sn_back b.head_sn i) × Slot b.buf (back m s i) q × Holds b m s (suc i) qs

-- `distance` is the difference of two `u16` that wraps.
pub distance_lem :
    (new old : ℕ) → new < 65536 → old < 65536 → distance new old ≡ (new + 65536 - old) % 65536
unfolding distance
distance_lem new old h k = ground arith

pub distance-sn_back : (head i : ℕ) → head < 65536 → i < 65536 → distance head (sn_back head i) ≡ i
unfolding distance
distance-sn_back head i h k = ground arith

sub_pos-lt : (s i : ℕ) → i < s → pos s -ℤ pos (i + 1) ≡ pos (s - (i + 1))
unfolding ◌-ℤ◌
sub_pos-lt s i h = ground arith

sub_pos-ge : (s i : ℕ) → s ≤ i → pos s -ℤ pos (i + 1) ≡ negsuc (i - s)
unfolding ◌-ℤ◌
sub_pos-ge s i h = ground arith

from_end : (m k : ℕ) → k ≤ m → pos m +ℤ negsuc k +ℤ pos 1 ≡ pos (m - k)
unfolding ◌+ℤ◌
from_end m k h = ground arith

not_past_end : (m k : ℕ) → k ≤ m → ltb_ℤ (pos m +ℤ pos 1) (pos (suc k)) ≡ false
unfolding ◌+ℤ◌
not_past_end m k h = ground arith

get_at-negsuc :
    (b : Bucket) (m k sn : ℕ)
    → b.max_steps ≡ pos m
    → k ≤ m
    → get_at b (negsuc k) sn ≡ read_slot b (m - k) sn
unfolding get_at
get_at-negsuc b m k sn em h = simp (em, not_past_end m k h, from_end m k h)

-- The position that both `get` and `set` compute, counted from the next slot to be written.
at-eq :
    (b : Bucket) (s i sn : ℕ)
    → b.step ≡ pos s
    → distance b.head_sn sn ≡ i
    → i < 65535
    → b.step -ℤ pos (u16 (distance b.head_sn sn + 1)) ≡ pos s -ℤ pos (i + 1)
at-eq b s i sn es ed h = ap₂ (λ x n. x -ℤ pos n) es (rw ed (omega arith))

pub get-read_slot :
    (b : Bucket) (m s i sn : ℕ)
    → b.step ≡ pos s
    → b.max_steps ≡ pos m
    → distance b.head_sn sn ≡ i
    → s ≤ m
    → i ≤ m
    → m < 65535
    → get b sn ≡ read_slot b (back m s i) sn
unfolding get
get-read_slot b m s i sn es em ed sm im small = elim (dec_lt i s) [
  | yes lt ↦
      ap (λ z. get_at b z sn) (at-eq b s i sn es ed (omega arith) ∙ sub_pos-lt s i lt)
      ∙ ap (λ p. read_slot b p sn) {x = s - (i + 1)} {y = back m s i} (ground arith)
  | no ge ↦
      ap (λ z. get_at b z sn) (at-eq b s i sn es ed (omega arith) ∙ sub_pos-ge s i (omega arith))
      ∙ get_at-negsuc b m (i - s) sn em (omega arith)
      ∙ ap (λ p. read_slot b p sn) {x = m - (i - s)} {y = back m s i} (ground arith)
]

wrapped-pos : (m p : ℕ) → wrapped (pos m) (pos p) ≡ pos p
unfolding ◌+ℤ◌
wrapped-pos m p = ground arith

wrapped-negsuc : (m k : ℕ) → k ≤ m → wrapped (pos m) (negsuc k) ≡ pos (m - k)
unfolding ◌+ℤ◌
wrapped-negsuc m k h = ground arith

wrapped-back :
    (m s i : ℕ) → s ≤ m → i ≤ m → wrapped (pos m) (pos s -ℤ pos (i + 1)) ≡ pos (back m s i)
wrapped-back m s i h k = elim (dec_lt i s) [
  | yes lt ↦
      ap (wrapped (pos m)) (sub_pos-lt s i lt)
      ∙ wrapped-pos m (s - (i + 1))
      ∙ ap pos {x = s - (i + 1)} {y = back m s i} (ground arith)
  | no ge ↦
      ap (wrapped (pos m)) (sub_pos-ge s i (omega arith))
      ∙ wrapped-negsuc m (i - s) (omega arith)
      ∙ ap pos {x = m - (i - s)} {y = back m s i} (ground arith)
]

-- A late packet goes to the slot where a lookup of its number will read.
pub set-write_slot :
    (b : Bucket) (m s i sn : ℕ) (q : List ℕ)
    → IsValid b m s
    → distance b.head_sn sn ≡ i
    → i ≤ m
    → set b sn q ≡ write_slot b (back m s i) sn q
unfolding set
set-write_slot b m s i sn q v ed im =
    not_old
    ∙ ap₂ (λ x z. set_at b (wrapped x z) sn q) v.last
        (at-eq b s i sn v.next ed (omega (arith, v.small)))
    ∙ ap (λ z. set_at b z sn q) (wrapped-back m s i v.within im)
  where
    not_old :
        set b sn q
        ≡ set_at b (wrapped b.max_steps (b.step -ℤ pos (u16 (distance b.head_sn sn + 1)))) sn q
    not_old = ground (arith, ed, v)

-- A lookup of the packet that is `i` behind the newest goes to its slot.
pub get-back :
    (b : Bucket) (m s i : ℕ) (q : List ℕ)
    → IsValid b m s
    → i ≤ m
    → IsPacket q (sn_back b.head_sn i)
    → Slot b.buf (back m s i) q
    → get b (sn_back b.head_sn i) ≡ ok (some q)
get-back b m s i q v im p held =
    get-read_slot b m s i (sn_back b.head_sn i) v.next v.last
      (distance-sn_back b.head_sn i v.head (omega arith)) v.within im v.small
    ∙ read_slot-Slot b m s (back m s i) (sn_back b.head_sn i) q v (ground arith) p.0 p.1 held p.2
