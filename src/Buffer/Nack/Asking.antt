-- ===== src/Buffer/Nack/Asking.antt =====
-- What a call of `pairs` does to the queue, and how often a packet is asked for.
use mathlib.Core.List.{append-nil, append_assoc}
use rsfu.Prelude.{
  ℕ, suc, ◌+◌, ◌-◌, ◌%◌, ◌^◌, ◌≤◌, ◌<◌, ◌≡◌, refl, sym, ap, ◌∙◌, ◌||◌, Option, none, some, List, [],
  ◌∷◌, ◌++◌, arith, ltb, leb, ◌==◌, if◌then◌else◌, ℕ_discrete,
}
use rsfu.Buffer.Nack.{
  Nack, NackQueue, Packing, Scan, max_nack_times, pack, visit, scan, start, pairs,
}
use rsfu.Buffer.Nack.Queue.{times, Above, IsSorted, Above-times, Above-weaken}

-- Numbers from here on are too near to the head to be missed yet.
abbrev pub near : ℕ → ℕ
near head = (head + 2 ^ 32 - 2) % 2 ^ 32

-- The entries that a call leaves, and the packets that it asks for.
abbrev pub left : ℕ → List Nack → List Nack
left head [] = []
left head (v ∷ vs) =
    let rest = left head vs in
    if leb max_nack_times v.nackd
    then rest
    else if leb (near head) v.seq_number
    then v ∷ rest
    else record v { nackd = v.nackd + 1 } ∷ rest

abbrev pub asked : ℕ → List Nack → List ℕ
asked head [] = []
asked head (v ∷ vs) =
    let rest = asked head vs in
    if leb max_nack_times v.nackd
    then rest
    else if leb (near head) v.seq_number
    then rest
    else v.seq_number ∷ rest

-- The highest number that is given up, if that is above `key`.
abbrev pub highest : ℕ → List Nack → ℕ
highest key [] = key
highest key (v ∷ vs) =
    highest
      (if leb max_nack_times v.nackd
        then (if ltb key v.seq_number then v.seq_number else key)
        else key)
      vs

abbrev pub pack_all : Packing → List ℕ → Packing
pack_all p [] = p
pack_all p (sn ∷ sns) = pack_all (pack p (sn % 2 ^ 16)) sns

visit-kept :
    (head : ℕ) (s : Scan) (v : Nack) (vs : List Nack)
    → (visit head s v).kept ++ left head vs ≡ s.kept ++ left head (v ∷ vs)
unfolding visit
visit-kept head s v vs = ground (
  arith,
  append_assoc s.kept (v ∷ []) (left head vs),
  append_assoc s.kept (record v { nackd = v.nackd + 1 } ∷ []) (left head vs),
)

scan-kept : (head : ℕ) (s : Scan) (vs : List Nack) → (scan head s vs).kept ≡ s.kept ++ left head vs
unfolding scan
scan-kept head s [] = sym (append-nil s.kept)
scan-kept head s (v ∷ vs) = scan-kept head (visit head s v) vs ∙ visit-kept head s v vs

pub scan-packing :
    (head : ℕ) (s : Scan) (vs : List Nack)
    → (scan head s vs).packing ≡ pack_all s.packing (asked head vs)
unfolding scan visit
scan-packing head s [] = refl
scan-packing head s (v ∷ vs) = ground (arith, scan-packing head (visit head s v) vs)

highest-le : (key : ℕ) (vs : List Nack) → key ≤ highest key vs
highest-le key [] = omega arith
highest-le key (v ∷ vs) = ground (arith, highest-le key vs, highest-le v.seq_number vs)

scan-key :
    (head : ℕ) (s : Scan) (vs : List Nack)
    → ((scan head s vs).key_frame ≡ highest s.key_frame vs)
      × ((scan head s vs).ask_key_frame
          ≡ (s.ask_key_frame || ltb s.key_frame (highest s.key_frame vs)))
unfolding scan visit
scan-key head s [] = ground arith
scan-key head s (v ∷ vs) = ground (
  arith,
  scan-key head (visit head s v) vs,
  highest-le s.key_frame vs,
  highest-le v.seq_number vs,
)

-- What a call makes of the count of packet `k`.
abbrev pub aged : ℕ → ℕ → Option ℕ → Option ℕ
aged head k none = none
aged head k (some n) =
    if leb max_nack_times n then none else if leb (near head) k then some n else some (n + 1)

left-Above : (head b : ℕ) (vs : List Nack) → Above b vs → Above b (left head vs)
left-Above head b [] a = tt
left-Above head b (v ∷ vs) a =
    ground (
      arith,
      left-Above head (suc v.seq_number) vs,
      Above-weaken (left head vs) b (suc v.seq_number),
    )

times-left :
    (head b k : ℕ) (vs : List Nack) → Above b vs → times (left head vs) k ≡ aged head k (times vs k)
times-left head b k [] a = refl
times-left head b k (v ∷ vs) a =
    ground (arith, times-left head (suc v.seq_number) k vs, Above-times vs (suc v.seq_number) k)

pub pairs-scan :
    (q : NackQueue) (head : ℕ)
    → ((pairs q head).0.nacks ≡ left head q.nacks)
      × ((pairs q head).0.key_frame_seq_number ≡ highest q.key_frame_seq_number q.nacks)
      × ((pairs q head).2 ≡ ltb q.key_frame_seq_number (highest q.key_frame_seq_number q.nacks))
unfolding pairs
pairs-scan q head = go q.nacks refl
  where
    go :
        (vs : List Nack)
        → q.nacks ≡ vs
        → ((pairs q head).0.nacks ≡ left head q.nacks)
          × ((pairs q head).0.key_frame_seq_number ≡ highest q.key_frame_seq_number q.nacks)
          × ((pairs q head).2 ≡ ltb q.key_frame_seq_number (highest q.key_frame_seq_number q.nacks))
    go [] e = ground (arith, e)
    go (v ∷ vs) e =
        ground (arith, e, scan-kept head (start q) q.nacks, scan-key head (start q) q.nacks)

-- One call of `pairs` on a sorted queue leaves it sorted; a packet with three requests is dropped, a
-- packet within two of the head keeps its count, and any other has its count raised by one. A key
-- frame is asked for exactly when a dropped packet is above all that were dropped before.
pub pairs_lem :
    (q : NackQueue) (head : ℕ)
    → IsSorted q
    → IsSorted (pairs q head).0
      × ((k : ℕ) → times (pairs q head).0.nacks k ≡ aged head k (times q.nacks k))
      × ((pairs q head).0.key_frame_seq_number ≡ highest q.key_frame_seq_number q.nacks)
      × ((pairs q head).2 ≡ ltb q.key_frame_seq_number (pairs q head).0.key_frame_seq_number)
pairs_lem q head s =
    let (e, f, g) = pairs-scan q head in
    (rw e (left-Above head 0 q.nacks s), (λ k. rw e (times-left head 0 k q.nacks s)), f, rw f g)

abbrev pub count : ℕ → List ℕ → ℕ
count k [] = 0
count k (x ∷ xs) = if x == k then count k xs + 1 else count k xs

-- The requests for packet `k` in a sequence of calls.
unfoldable pub requests : NackQueue → List ℕ → ℕ → ℕ
requests q [] k = 0
requests q (head ∷ heads) k = count k (asked head q.nacks) + requests (pairs q head).0 heads k

count-asked-Above :
    (head b k : ℕ) (vs : List Nack) → Above b vs → k < b → count k (asked head vs) ≡ 0
count-asked-Above head b k [] a h = refl
count-asked-Above head b k (v ∷ vs) a h =
    ground (arith, count-asked-Above head (suc v.seq_number) k vs)

-- Requests so far and requests in this call make up the new count.
abbrev pub spent : Option ℕ → ℕ
spent none = max_nack_times
spent (some n) = if leb n max_nack_times then n else max_nack_times

count-asked :
    (head b k : ℕ) (vs : List Nack)
    → Above b vs
    → count k (asked head vs) + spent (times vs k) ≤ spent (aged head k (times vs k))
count-asked head b k [] a = omega arith
count-asked head b k (v ∷ vs) a = elim (ℕ_discrete v.seq_number k) [
  | yes here ↦
      ground
        (arith, count-asked-Above head (suc v.seq_number) k vs, Above-times vs (suc v.seq_number) k)
  | no other ↦ ground (arith, count-asked head (suc v.seq_number) k vs)
]

-- By its entry, no packet is to be asked for more than `max_nack_times` times, those requests included
-- that the entry has counted already; and one that is not in the queue never.
pub requests-le :
    (q : NackQueue) (heads : List ℕ) (k : ℕ)
    → IsSorted q
    → requests q heads k + spent (times q.nacks k) ≤ max_nack_times
unfolding requests
requests-le q [] k s = spent-le (times q.nacks k)
  where
    spent-le : (o : Option ℕ) → 0 + spent o ≤ max_nack_times
    spent-le none = omega arith
    spent-le (some n) = ground arith
requests-le q (head ∷ heads) k s =
    let (s', t, _, _) = pairs_lem q head s in
    omega (
      arith,
      requests-le (pairs q head).0 heads k s',
      ap spent (t k),
      count-asked head 0 k q.nacks s,
    )
