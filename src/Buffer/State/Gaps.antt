-- ===== src/Buffer/State/Gaps.antt =====
-- What `note_sequence` puts into the NACK queue for a gap.
use mathlib.Core.Option
use rsfu.Prelude.{
  ℕ, zero, suc, ◌+◌, ◌-◌, ◌*◌, ◌%◌, ◌^◌, ◌≤◌, ◌<◌, ◌≡◌, ◌≢◌, ◌⊎◌, sym, ap, ◌∙◌, true, false, ◌&&◌,
  some, arith, ltb, ◌==◌, if◌then◌else◌, bit_and,
}
use rsfu.Prelude.Int.{ℤ}
use rsfu.Rtp.{sub_u16}
use rsfu.Buffer.Bucket.{distance}
use rsfu.Buffer.Nack
use rsfu.Buffer.Nack.{NackQueue}
use rsfu.Buffer.Nack.Queue.{times, IsSorted, push_lem}
use rsfu.Buffer.State.{Buffer, ext_sn, push_missing, forward, note_sequence}
use rsfu.Buffer.State.Sequence.{distance-ahead, ext_sn_missing}

-- What a queue holds after the numbers from `above` to `below`, both left out, were pushed.
abbrev pub Asks : NackQueue → NackQueue → ℕ → ℕ → Type 0
Asks q q' above below =
    (k : ℕ)
    → times q'.nacks k ≡ (
        if ltb above k && ltb k below
        then some (Option.get_or (times q.nacks k) 0)
        else times q.nacks k)

-- The rounds left push the numbers `top - i` downwards.
abbrev Numbers : ℕ → ℕ → ℕ → ℕ → ℕ → ℕ → Type 0
Numbers n i cycles max_seq_no sn top =
    (r : ℕ) → i ≤ r → r < i + n → ext_sn cycles max_seq_no (sub_u16 sn r) ≡ top - r

push_missing-Asks :
    (n i cycles max_seq_no sn top : ℕ) (q : NackQueue)
    → IsSorted q
    → i + n ≤ top
    → Numbers n i cycles max_seq_no sn top
    → IsSorted (push_missing n i cycles max_seq_no sn q)
      × Asks q (push_missing n i cycles max_seq_no sn q) (top - (i + n)) (top - i + 1)
unfolding push_missing
push_missing-Asks zero i cycles max_seq_no sn top q s h ns = (s, λ k. ground arith)
push_missing-Asks (suc n) i cycles max_seq_no sn top q s h ns =
    let a = ext_sn cycles max_seq_no (sub_u16 sn i) in
    let e : a ≡ top - i = ns i (omega arith) (omega arith) in
    let (s', t, _) = push_lem q a s in
    let (s'', t') =
      push_missing-Asks n (i + 1) cycles max_seq_no sn top (Nack.push q a) s' (omega arith)
        (λ r l m. ns r (omega arith) (omega arith)) in
    (s'', λ k. ground (arith, t' k, t k, e))

abbrev pub SameHalf : ℕ → ℕ → Type 0
SameHalf max_seq_no d =
    (max_seq_no + d ≤ 0x8000) ⊎ ((0x8000 ≤ max_seq_no) × (max_seq_no + d < 2 ^ 16))

gap_number :
    (c max_seq_no d r : ℕ)
    → c < 0xffff
    → 1 ≤ r
    → r < d
    → d < 0x8000
    → SameHalf max_seq_no d
    → ext_sn (c * 2 ^ 16) max_seq_no (sub_u16 (max_seq_no + d) r)
      ≡ c * 2 ^ 16 + (max_seq_no + d) - r
gap_number c max_seq_no d r hc l m near same =
    let stays : ltb ((max_seq_no + d) % 2 ^ 16) max_seq_no ≡ false = ground arith in
    let e : ext_sn (c * 2 ^ 16) max_seq_no ((max_seq_no + (d - r)) % 2 ^ 16)
        ≡ c * 2 ^ 16 + max_seq_no + (d - r) =
      ap
        (λ w.
          ext_sn ((if w then c + 1 else c) * 2 ^ 16) max_seq_no ((max_seq_no + (d - r)) % 2 ^ 16))
        (sym stays)
      ∙ ext_sn_missing c max_seq_no d (d - r) hc (omega arith) (omega arith) near
      ∙ ground arith in
    ap (ext_sn (c * 2 ^ 16) max_seq_no) {x = sub_u16 (max_seq_no + d) r}
      {y = (max_seq_no + (d - r)) % 2 ^ 16} (omega arith)
    ∙ e
    ∙ omega arith

module _ {F : Type 0} where
  -- A packet `d` places ahead of the head, where the head and the packets between all have numbers
  -- below 2 ^ 15, or all at least that, and the numbers do not wrap: it becomes the head, and each of
  -- the missing packets is in the queue, with its cycle; one that was there keeps its count of
  -- requests, another has none, and nothing else in the queue changes.
  pub note_sequence-Asks :
      (b : Buffer F) (c d : ℕ) (q : NackQueue) (arrival : ℤ)
      → b.nacker ≡ some q
      → b.nack ≡ true
      → b.stats.packet_count ≢ 0
      → b.cycles ≡ c * 2 ^ 16
      → c < 0xffff
      → IsSorted q
      → 0 < d
      → d < 0x8000
      → SameHalf b.max_seq_no d
      → let b' = note_sequence b (b.max_seq_no + d) arrival in
        let head = c * 2 ^ 16 + b.max_seq_no in
        (b'.max_seq_no ≡ b.max_seq_no + d)
        × (b'.cycles ≡ b.cycles)
        × ((q' : NackQueue) × (b'.nacker ≡ some q') × IsSorted q' × Asks q q' head (head + d))
  unfolding note_sequence forward
  note_sequence-Asks b c d q arrival nacker on counted cycle hc s pos near same =
      let sn = b.max_seq_no + d in
      let first : (b.stats.packet_count == 0) ≡ false = ground arith in
      let distant : sub_u16 sn b.max_seq_no ≡ d = omega arith in
      let ahead : (bit_and (distance sn b.max_seq_no) 0x8000 == 0) ≡ true =
        distance-ahead sn b.max_seq_no (omega arith) (omega arith) ∙ ground (arith, distant) in
      let stays : ltb sn b.max_seq_no ≡ false = ground arith in
      let noted =
        push_missing-Asks (d - 1) 1 b.cycles b.max_seq_no sn (c * 2 ^ 16 + sn) q s (omega arith)
          (λ r l m.
            ap (λ n. ext_sn n b.max_seq_no (sub_u16 sn r)) cycle
            ∙ gap_number c b.max_seq_no d r hc l (omega arith) near same) in
      (
        rw (first, ahead),
        rw (first, ahead, stays),
        (
          push_missing (d - 1) 1 b.cycles b.max_seq_no sn q,
          rw (first, ahead, on, stays, nacker, distant),
          noted.0,
          λ k. ground (arith, noted.1 k),
        ),
      )
