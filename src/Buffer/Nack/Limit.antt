-- ===== src/Buffer/Nack/Limit.antt =====
-- How often the pairs that `pairs` returns name a packet.
use rsfu.Prelude.{
  ℕ, ◌+◌, ◌*◌, ◌≤◌, ◌<◌, ◌≡◌, refl, ap, ap₂, ◌∙◌, Option, none, some, List, [], ◌∷◌, arith,
}
use rsfu.Buffer.Nack.{Nack, NackQueue, NackPair, max_nack_times, pairs}
use rsfu.Buffer.Nack.Queue.{times, IsSorted}
use rsfu.Buffer.Nack.Asking.{
  asked, left, count, spent, requests, pairs-scan, pairs_lem, requests-le,
}
use rsfu.Buffer.Nack.Pairs.{packet_lists, wire, InCycle, pairs-packet_lists}

abbrev pub listed : Option (List NackPair) → List ℕ
listed none = []
listed (some nps) = packet_lists nps

-- How often the pairs of a sequence of calls, read back as RFC 4585 says, name the packet with the
-- number `k` on the wire.
unfoldable pub times_listed : NackQueue → List ℕ → ℕ → ℕ
times_listed q [] k = 0
times_listed q (head ∷ heads) k =
    count k (listed (pairs q head).1) + times_listed (pairs q head).0 heads k

listed-pairs :
    (q : NackQueue) (head cycle : ℕ)
    → IsSorted q
    → InCycle cycle q.nacks
    → listed (pairs q head).1 ≡ wire (asked head q.nacks)
unfolding pairs
listed-pairs q head cycle s c = go q.nacks refl
  where
    go : (ns : List Nack) → q.nacks ≡ ns → listed (pairs q head).1 ≡ wire (asked head q.nacks)
    go [] e = rw e
    go (n ∷ ns) e =
        let (nps, returned, names) = pairs-packet_lists q head cycle s (λ z. cc) c in
        ap listed returned ∙ names

count-wire :
    (head cycle k : ℕ) (ns : List Nack)
    → k < 65536
    → InCycle cycle ns
    → count k (wire (asked head ns)) ≡ count (cycle * 65536 + k) (asked head ns)
count-wire head cycle k [] h c = refl
count-wire head cycle k (n ∷ ns) h (here, z, c) = ground (arith, count-wire head cycle k ns h c)

InCycle-left : (head cycle : ℕ) (ns : List Nack) → InCycle cycle ns → InCycle cycle (left head ns)
InCycle-left head cycle [] c = tt
InCycle-left head cycle (n ∷ ns) (here, z, c) = ground (arith, InCycle-left head cycle ns c)

times_listed-requests :
    (q : NackQueue) (heads : List ℕ) (cycle k : ℕ)
    → IsSorted q
    → InCycle cycle q.nacks
    → k < 65536
    → times_listed q heads k ≡ requests q heads (cycle * 65536 + k)
unfolding times_listed requests
times_listed-requests q [] cycle k s c h = refl
times_listed-requests q (head ∷ heads) cycle k s c h =
    ap₂ (λ a b. a + b)
      (ap (count k) (listed-pairs q head cycle s c) ∙ count-wire head cycle k q.nacks h c)
      (times_listed-requests (pairs q head).0 heads cycle k (pairs_lem q head s).0
        (rw ((pairs-scan q head).0) (InCycle-left head cycle q.nacks c)) h)

-- Of a sorted queue whose packets lie in one cycle of the sequence numbers, none of them its first: in
-- whatever sequence of calls of `pairs`, the pairs that come back name no packet more than
-- `max_nack_times` (three) times, those requests included that its entry has counted already; and one
-- that is not in the queue never.
pub times_listed-le :
    (q : NackQueue) (heads : List ℕ) (cycle k : ℕ)
    → IsSorted q
    → InCycle cycle q.nacks
    → k < 65536
    → times_listed q heads k + spent (times q.nacks (cycle * 65536 + k)) ≤ max_nack_times
times_listed-le q heads cycle k s c h =
    rw (times_listed-requests q heads cycle k s c h) (requests-le q heads (cycle * 65536 + k) s)
