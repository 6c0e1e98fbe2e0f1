-- ===== src/Buffer/Calc/Arrivals.antt =====
-- A stream without loss through `calc`: its packets stand in the bucket, whatever their payloads and
-- whichever callbacks are set.
use rsfu.Prelude.{
  ℕ, ◌+◌, ◌-◌, ◌*◌, ◌/◌, ◌%◌, ◌≤◌, ◌<◌, ◌≡◌, ◌⊎◌, inl, inr, refl, sym, ap, ap₂, ◌∙◌, true, some,
  List, [], ◌∷◌, arith, ◌==◌, length, get_elem?, take, bit_and, Outcome, ok, ◌>>=◌, Bool-cases,
}
use rsfu.Prelude.Int.{ℤ}
use rsfu.Rtp.{RtpCrate}
use rsfu.Buffer.Bucket
use rsfu.Buffer.Bucket.{Bucket, add_packet, distance, get, started}
use rsfu.Buffer.Bucket.Window.{IsPacket, sn_back}
use rsfu.Buffer.Bucket.Slots.{following, rtp_sn}
use rsfu.Buffer.Bucket.InOrder.{
  IsReady, after, added, added-IsReady, add_packet-added, add_all, Consecutive, recent, add_all-get,
  new-IsReady, add_packet-started, after-previous,
}
use rsfu.Buffer.State.{Buffer, note_sequence, forward, late}
use rsfu.Buffer.State.Sequence.{distance-ahead}
use rsfu.Buffer.Feedback.{Floats}
use rsfu.Buffer.Calc.{calc, Event}
use rsfu.Buffer.Calc.Keeps.{calc_sn-Keeps}

abbrev pub packets : List (List ℕ × ℤ) → List (List ℕ)
packets [] = []
packets ((pkt, _) ∷ ps) = pkt ∷ packets ps

module _ {F : Type 0} where
  note_sequence-bucket :
      (b : Buffer F) (sn : ℕ) (arrival : ℤ) → (note_sequence b sn arrival).bucket ≡ b.bucket
  unfolding note_sequence forward late
  note_sequence-bucket b sn arrival = elim (Bool-cases (b.stats.packet_count == 0)) [
    | inl e ↦ rw e
    | inr e ↦ elim (Bool-cases (bit_and (distance sn b.max_seq_no) 0x8000 == 0)) [
      | inl ahead ↦ rw (e, ahead)
      | inr behind ↦ elim (Bool-cases b.nack) [
        | inl on ↦ rw (e, behind, on)
        | inr off ↦ rw (e, behind, off)
      ]
    ]
  ]

  -- No packet was counted, or the head is the bucket's.
  abbrev Follows : Buffer F → ℕ → Type 0
  Follows b head = (b.stats.packet_count ≡ 0) ⊎ (b.max_seq_no ≡ head)

  note_sequence_next :
      (b : Buffer F) (head : ℕ) (arrival : ℤ)
      → head < 65536
      → Follows b head
      → (note_sequence b (after head) arrival).max_seq_no ≡ after head
  unfolding note_sequence forward
  note_sequence_next b head arrival h follows = elim (Bool-cases (b.stats.packet_count == 0)) [
    | inl e ↦ rw e
    | inr e ↦
        let at_head : b.max_seq_no ≡ head = ground arith in
        let ahead : (bit_and (distance (after head) b.max_seq_no) 0x8000 == 0) ≡ true =
          distance-ahead (after head) b.max_seq_no (omega arith) (omega arith) ∙ ground arith in
        rw (e, ahead)
  ]

  module _ (rtp : RtpCrate) (f : Floats F) where
    abbrev pub calc_all : Buffer F → List (List ℕ × ℤ) → Outcome (Buffer F)
    calc_all b [] = ok b
    calc_all b ((pkt, arrival) ∷ ps) = calc rtp f b pkt arrival >>= λ r. calc_all r.0 ps

    -- One packet that the bucket takes.
    calc-added :
        (b : Buffer F) (pkt : List ℕ) (head : ℕ) (arrival : ℤ) (bk bk' : Bucket)
        → head < 65536
        → Follows b head
        → rtp_sn pkt ≡ some (after head)
        → b.bucket ≡ some bk
        → add_packet bk pkt (after head) true ≡ (bk', ok pkt)
        → (r : Buffer F × List Event) × (calc rtp f b pkt arrival ≡ ok r)
          × (r.0.bucket ≡ some bk')
          × (r.0.max_seq_no ≡ after head)
    unfolding calc
    calc-added b pkt head arrival bk bk' h follows sn held taken =
        let next = note_sequence_next b head arrival h follows in
        let newest : (after head == (note_sequence b (after head) arrival).max_seq_no) ≡ true =
          ap (λ n. after head == n) next ∙ ground arith in
        let (r, e, k) =
          calc_sn-Keeps rtp f b pkt pkt (after head) arrival bk bk'
            (note_sequence-bucket b (after head) arrival ∙ held)
            (ap (add_packet bk pkt (after head)) newest ∙ taken) in
        (r, rw (sn, calc) e, k.bucket, k.max_seq_no ∙ next)

    calc_all-added :
        (b : Buffer F) (bk : Bucket) (m s : ℕ) (held : List (List ℕ)) (ps : List (List ℕ × ℤ))
        → b.bucket ≡ some bk
        → IsReady bk m s held
        → Follows b bk.head_sn
        → Consecutive (after bk.head_sn) (packets ps)
        → (b' : Buffer F) × (calc_all b ps ≡ ok b')
          × (b'.bucket ≡ some (add_all bk (after bk.head_sn) (packets ps)))
    unfolding add_all
    calc_all-added b bk m s held [] e r follows c = (b, refl, e)
    calc_all-added b bk m s held ((pkt, arrival) ∷ ps) e r follows (p, c) =
        let taken = add_packet-added bk m s pkt r.valid r.begun p.1 in
        let (o, ends, bucket, head) =
          calc-added b pkt bk.head_sn arrival bk (added bk m s pkt) r.valid.head follows p.2 e
            taken in
        let (b', all, found) =
          calc_all-added o.0 (added bk m s pkt) m (following m s) (pkt ∷ take m held) ps bucket
            (added-IsReady bk m s pkt held r p) (inr head) c in
        (
          b',
          rw ends all,
          found ∙ ap (λ k. some (add_all k.0 (after (after bk.head_sn)) (packets ps))) (sym taken),
        )

    -- A stream without loss arrives at a buffer that has counted no packet, with a new bucket of `len`
    -- bytes: `calc` returns for each of its packets, and each of the newest `len / 1500` is found in the
    -- bucket by its sequence number and comes back whole, whatever the packets' payloads are and
    -- whichever codec and callbacks are set.
    pub calc_all-get :
        (b : Buffer F) (len sn i : ℕ) (p q : List ℕ) (arrival : ℤ) (ps : List (List ℕ × ℤ))
        → 1500 ≤ len
        → len < 1500 * 65535
        → sn < 65536
        → b.bucket ≡ some (Bucket.new len)
        → b.stats.packet_count ≡ 0
        → Consecutive sn (p ∷ packets ps)
        → get_elem? (recent (len / 1500 - 1) [] (p ∷ packets ps)) i ≡ some q
        → (b' : Buffer F) × (bk : Bucket) × (calc_all b ((p, arrival) ∷ ps) ≡ ok b')
          × (b'.bucket ≡ some bk)
          × (get bk (sn_back ((sn + length (packets ps)) % 65536) i) ≡ ok (some q))
    unfolding add_all Bucket.new
    calc_all-get b len sn i p q arrival ps h k l held none_yet c e =
        let m = len / 1500 - 1 in
        let fresh = started (Bucket.new len) sn in
        let head = (sn + 65535) % 65536 in
        let prev : after head ≡ sn = after-previous sn l in
        let ready = new-IsReady len sn h k l in
        let first : IsPacket p (after fresh.head_sn) = rw prev c.0 in
        let taken : add_packet (Bucket.new len) p (after head) true ≡ (added fresh m 0 p, ok p) =
          ap (λ n. add_packet (Bucket.new len) p n true) prev
          ∙ add_packet-started (Bucket.new len) p sn
          ∙ ap (λ n. add_packet fresh p n true) (sym prev)
          ∙ add_packet-added fresh m 0 p ready.valid ready.begun c.0.1 in
        let (o, ends, bucket, at_head) =
          calc-added b p head arrival (Bucket.new len) (added fresh m 0 p) (omega arith)
            (inl none_yet) first.2 held taken in
        let (b', all, found) =
          calc_all-added o.0 (added fresh m 0 p) m (following m 0) (p ∷ take m []) ps bucket
            (added-IsReady fresh m 0 p [] ready first) (inr at_head) (rw prev c.1) in
        let same_bucket : add_all (Bucket.new len) sn (p ∷ packets ps)
            ≡ add_all (added fresh m 0 p) (after (after head)) (packets ps) =
          ap₂ (λ r n. add_all r.0 n (packets ps))
            (ap (λ n. add_packet (Bucket.new len) p n true) (sym prev) ∙ taken)
            (ap after (sym prev)) in
        (
          b',
          add_all (added fresh m 0 p) (after (after head)) (packets ps),
          rw ends all,
          found,
          ap (λ bk. get bk (sn_back ((sn + length (packets ps)) % 65536) i)) (sym same_bucket)
              ∙ add_all-get len sn i p q (packets ps) h k l c e,
        )
