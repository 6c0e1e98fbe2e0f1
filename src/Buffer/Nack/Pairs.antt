-- ===== src/Buffer/Nack/Pairs.antt =====
-- The pairs that `pairs` builds name exactly the packets that it asks for.
use mathlib.Core.List.{append-nil, append_assoc}
use native.Mathlib.Nat.{pow-suc}
use rsfu.Prelude.{
  ℕ, zero, suc, ◌+◌, ◌-◌, ◌*◌, ◌/◌, ◌%◌, ◌^◌, ◌≤◌, ◌<◌, ◌≡◌, ◌≢◌, refl, sym, ap, ◌∙◌, some, List,
  [], ◌∷◌, ◌++◌, arith, ◌==◌, if◌then◌else◌, bit_or, dec_lt,
}
use rsfu.Prelude.Bits.{bit_or-digit, bit_or-two_pow, two_pow_mono}
use rsfu.Buffer.Nack.Queue.{Above, IsSorted, Above-weaken}
use rsfu.Buffer.Nack.{Nack, NackQueue, NackPair, Packing, pack, flush, pairs, no_pair, scan, start}
use rsfu.Buffer.Nack.Asking.{asked, pack_all, scan-packing}

-- RFC 4585, 6.2.1: bit i of the mask (from the lowest) stands for the packet `packet_id + i + 1`.
unfoldable pub masked : ℕ → ℕ → ℕ → List ℕ
masked zero sn mask = []
masked (suc n) sn mask =
    let rest = masked n (sn + 1) (mask / 2) in if mask % 2 == 1 then sn ∷ rest else rest

abbrev pub packet_list : NackPair → List ℕ
packet_list p = p.packet_id ∷ masked 16 (p.packet_id + 1) p.lost_packets

abbrev pub packet_lists : List NackPair → List ℕ
packet_lists [] = []
packet_lists (p ∷ ps) = packet_list p ++ packet_lists ps

masked-zero : (n sn : ℕ) → masked n sn 0 ≡ []
unfolding masked
masked-zero zero sn = refl
masked-zero (suc n) sn = masked-zero n (sn + 1)

-- Setting the bit above all others adds its packet at the end.
masked-bit_or :
    (k n sn mask : ℕ)
    → k < n
    → mask < 2 ^ k
    → masked n sn (bit_or mask (2 ^ k)) ≡ masked n sn mask ++ (sn + k) ∷ []
unfolding masked
masked-bit_or k zero sn mask h l = absurd (omega arith)
masked-bit_or zero (suc n) sn mask h l =
    let e : mask ≡ 0 = omega arith in
    rw (e, masked-zero n (sn + 1)) (ap (λ x. x ∷ []) (omega arith))
masked-bit_or (suc k) (suc n) sn mask h l =
    let d = bit_or-digit mask (2 ^ suc k) in
    let p = pow-suc 2 k in
    let low : bit_or mask (2 ^ suc k) % 2 ≡ mask % 2 = omega (arith, d, p) in
    let high : bit_or mask (2 ^ suc k) / 2 ≡ bit_or (mask / 2) (2 ^ k) =
      omega
        (arith, d, p, ap (bit_or (mask / 2)) {x = 2 ^ suc k / 2} {y = 2 ^ k} (omega (arith, p))) in
    let ih = masked-bit_or k n (sn + 1) (mask / 2) (omega arith) (omega (arith, p)) in
    let at : sn + 1 + k ≡ sn + suc k = omega arith in rw (low, high, ih, at) (ground arith)

packet_lists-append :
    (ps : List NackPair) (p : NackPair)
    → packet_lists (ps ++ p ∷ []) ≡ packet_lists ps ++ packet_list p
packet_lists-append [] p = append-nil (packet_list p)
packet_lists-append (q ∷ ps) p =
    ap (◌++◌ (packet_list q)) (packet_lists-append ps p)
    ∙ sym (append_assoc (packet_list q) (packet_lists ps) (packet_list p))

-- What the packing stands for, after the packets `done`, the last of which is `last`.
record Stands (p : Packing) (done : List ℕ) (last : ℕ) : Type 0 where
  begun : p.np.packet_id ≢ 0
  said : packet_lists p.nps ++ packet_list p.np ≡ done
  behind : p.np.packet_id ≤ last
  near : last ≤ p.np.packet_id + 16
  mask : p.np.lost_packets < 2 ^ (last - p.np.packet_id)
  small : last < 65536

flush-Stands :
    (p : Packing) (done : List ℕ) (last : ℕ) → Stands p done last → packet_lists (flush p) ≡ done
unfolding flush
flush-Stands p done last s = ground (arith, packet_lists-append p.nps p.np, s.said, s.begun)

abbrev opened : ℕ → List NackPair → Packing
opened sn nps = record { np = record { packet_id = sn; lost_packets = 0 }; nps = nps }

abbrev marked : Packing → ℕ → Packing
marked p bit = record p {
  np = record { packet_id = p.np.packet_id; lost_packets = bit_or p.np.lost_packets (2 ^ bit) };
}

pack-opened :
    (p : Packing) (sn : ℕ) → (p.np.packet_id + 16) % 2 ^ 16 < sn → pack p sn ≡ opened sn (flush p)
unfolding pack
pack-opened p sn h = ground arith

pack-marked :
    (p : Packing) (sn : ℕ)
    → p.np.packet_id ≢ 0
    → p.np.packet_id < sn
    → sn < 65536
    → ¬ ((p.np.packet_id + 16) % 2 ^ 16 < sn)
    → pack p sn ≡ marked p (sn - p.np.packet_id - 1)
unfolding pack
pack-marked p sn z lt k h =
    let bit : (sn + 2 * 2 ^ 16 - p.np.packet_id - 1) % 2 ^ 16 % 16 ≡ sn - p.np.packet_id - 1 =
      omega arith in
    ground (arith, bit)

opened-Stands :
    (p : Packing) (done : List ℕ) (last sn : ℕ)
    → packet_lists (flush p) ≡ done
    → 0 < sn
    → sn < 65536
    → Stands (opened sn (flush p)) (done ++ sn ∷ []) sn
opened-Stands p done last sn s h k = record {
  begun = λ e. omega arith;
  said = rw (s, masked-zero 16 (sn + 1));
  behind = omega arith;
  near = omega arith;
  mask = let e : sn - sn ≡ 0 = omega arith in rw e (omega arith);
  small = k;
}

marked-Stands :
    (p : Packing) (done : List ℕ) (last sn : ℕ)
    → Stands p done last
    → last < sn
    → sn ≤ p.np.packet_id + 16
    → sn < 65536
    → Stands (marked p (sn - p.np.packet_id - 1)) (done ++ sn ∷ []) sn
marked-Stands p done last sn s h n k =
    let pid = p.np.packet_id in
    let bit = sn - p.np.packet_id - 1 in
    let lost = p.np.lost_packets in
    let low : lost < 2 ^ bit =
      omega (arith, s.mask, two_pow_mono (last - p.np.packet_id) bit (omega (arith, s.behind))) in
    let more = masked-bit_or bit 16 (p.np.packet_id + 1) lost (omega (arith, s.behind)) low in
    let at : pid + 1 + bit ≡ sn = omega (arith, s.behind) in
    record {
      begun = s.begun;
      said =
          ap (λ m. packet_lists p.nps ++ pid ∷ m)
            (more ∙ ap (λ x. masked 16 (pid + 1) lost ++ x ∷ []) at)
          ∙ sym (append_assoc (packet_lists p.nps) (packet_list p.np) (sn ∷ []))
          ∙ ap (λ ds. ds ++ sn ∷ []) s.said;
      behind = omega (arith, s.behind);
      near = n;
      mask = omega (
        arith,
        s.behind,
        low,
        bit_or-two_pow bit lost low,
        pow-suc 2 bit,
        ap (λ n. 2 ^ n) {x = sn - p.np.packet_id} {y = suc bit} (omega (arith, s.behind)),
      );
      small = k;
    }

pack-Stands :
    (p : Packing) (done : List ℕ) (last sn : ℕ)
    → Stands p done last
    → last < sn
    → sn < 65536
    → Stands (pack p sn) (done ++ sn ∷ []) sn
pack-Stands p done last sn s h k = elim (dec_lt ((p.np.packet_id + 16) % 2 ^ 16) sn) [
  | yes far ↦
      rw (pack-opened p sn far)
        (opened-Stands p done last sn (flush-Stands p done last s) (omega arith) k)
  | no close ↦
      rw (pack-marked p sn s.begun (omega (arith, s.behind)) k close)
        (marked-Stands p done last sn s h (omega (arith, s.behind)) k)
]

-- Numbers that rise within one cycle of the sequence numbers, none of them its first.
abbrev pub Rising : ℕ → ℕ → List ℕ → Type 0
Rising cycle last [] = Unit {0}
Rising cycle last (sn ∷ sns) =
    (sn / 65536 ≡ cycle) × (last < sn % 65536) × Rising cycle (sn % 65536) sns

abbrev pub wire : List ℕ → List ℕ
wire [] = []
wire (sn ∷ sns) = sn % 2 ^ 16 ∷ wire sns

pack_all-Stands :
    (cycle : ℕ) (p : Packing) (done : List ℕ) (last : ℕ) (sns : List ℕ)
    → Stands p done last
    → Rising cycle last sns
    → packet_lists (flush (pack_all p sns)) ≡ done ++ wire sns
pack_all-Stands cycle p done last [] s r = flush-Stands p done last s ∙ sym (append-nil done)
pack_all-Stands cycle p done last (sn ∷ sns) s (_, lt, r) =
    pack_all-Stands cycle (pack p (sn % 2 ^ 16)) (done ++ sn % 2 ^ 16 ∷ []) (sn % 2 ^ 16) sns
      (pack-Stands p done last (sn % 2 ^ 16) s lt (omega arith)) r
    ∙ append_assoc done (sn % 2 ^ 16 ∷ []) (wire sns)

-- All the packets that are missing lie in one cycle, and none is the first of it.
abbrev pub InCycle : ℕ → List Nack → Type 0
InCycle cycle [] = Unit {0}
InCycle cycle (n ∷ ns) =
    (n.seq_number / 65536 ≡ cycle) × (0 < n.seq_number % 65536) × InCycle cycle ns

Rising-asked :
    (head cycle last : ℕ) (ns : List Nack)
    → InCycle cycle ns
    → Above (cycle * 65536 + last + 1) ns
    → Rising cycle last (asked head ns)
Rising-asked head cycle last [] c a = tt
Rising-asked head cycle last (n ∷ ns) (here, z, c) (b, a) = ground (
  arith,
  Rising-asked head cycle (n.seq_number % 65536) ns c (
      Above-weaken ns (cycle * 65536 + n.seq_number % 65536 + 1) (suc n.seq_number) (omega arith)
        a),
  Rising-asked head cycle last ns c
      (Above-weaken ns (cycle * 65536 + last + 1) (suc n.seq_number) (omega arith) a),
)

InCycle-Above :
    (cycle b : ℕ) (ns : List Nack)
    → InCycle cycle ns
    → Above b ns
    → Above (cycle * 65536 + 0 + 1) ns
InCycle-Above cycle b [] c a = tt
InCycle-Above cycle b (n ∷ ns) (here, z, c) a = (omega arith, a.1)

pack_all-start :
    (cycle : ℕ) (sns : List ℕ)
    → Rising cycle 0 sns
    → packet_lists (flush (pack_all (record { np = no_pair; nps = [] }) sns)) ≡ wire sns
unfolding flush pack
pack_all-start cycle [] r = refl
pack_all-start cycle (sn ∷ sns) (_, lt, r) =
    pack_all-Stands cycle (opened (sn % 2 ^ 16) []) (sn % 2 ^ 16 ∷ []) (sn % 2 ^ 16) sns
      (opened-Stands (record { np = no_pair; nps = [] }) [] 0 (sn % 2 ^ 16) refl lt (omega arith)) r

-- `pairs` on a sorted queue that is not empty returns pairs that, read back as RFC 4585 says, name
-- the packets that are asked for, in order and nothing else, as long as all the packets in the queue
-- lie in one cycle of the sequence numbers and none is the first of it.
pub pairs-packet_lists :
    (q : NackQueue) (head cycle : ℕ)
    → IsSorted q
    → q.nacks ≢ []
    → InCycle cycle q.nacks
    → (nps : List NackPair) × ((pairs q head).1 ≡ some nps)
      × (packet_lists nps ≡ wire (asked head q.nacks))
unfolding pairs
pairs-packet_lists q head cycle s ne c = (
  flush (scan head (start q) q.nacks).packing,
  ground (arith, ne),
  ap (λ p. packet_lists (flush p)) (scan-packing head (start q) q.nacks)
      ∙ pack_all-start cycle (asked head q.nacks)
          (Rising-asked head cycle 0 q.nacks c (InCycle-Above cycle 0 q.nacks c s)),
)

-- The first packet of a cycle is lost: where it is the first that is asked for, the pairs are those
-- that are built without it, since `packet_id == 0` stands for no pair.
pub pack_all-first_of_cycle :
    (q : NackQueue) (sn : ℕ) (sns : List ℕ)
    → sn % 65536 ≡ 0
    → pack_all (start q).packing (sn ∷ sns) ≡ pack_all (start q).packing sns
unfolding pack flush
pack_all-first_of_cycle q sn sns e = ap (λ p. pack_all p sns) (ground (arith, e))
