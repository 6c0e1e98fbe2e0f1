-- ===== src/Buffer/Bucket/InOrder.antt =====
-- Packets that arrive in order: after each the bucket holds the newest `m + 1`, each in its slot.
use rsfu.Prelude.{
  ℕ, zero, suc, ◌+◌, ◌-◌, ◌*◌, ◌/◌, ◌%◌, ◌≤◌, ◌<◌, ◌≡◌, ◌≢◌, refl, sym, ap, ap₂, ◌∙◌, true, some,
  List, [], ◌∷◌, arith, length, get_elem?, take, ok, length-replicate,
}
use rsfu.Prelude.Int.{pos, ◌-ℤ◌}
use rsfu.Buffer.Bucket.{Bucket, new, distance, skip, push, get, add_packet, started, u16}
use rsfu.Buffer.Bucket.Slots.{
  IsValid, max_payload, following, pushed, push-fits, pushed-Slot, pushed-Slot_other,
  pushed-IsValid,
}
use native.Mathlib.Nat.{add-zero}
use rsfu.Buffer.Bucket.Window.{back, sn_back, IsPacket, Holds, get-back}

-- A bucket that has seen packets, and the packets that it holds.
pub record IsReady (b : Bucket) (m s : ℕ) (qs : List (List ℕ)) : Type 0 where
  pub valid : IsValid b m s
  pub begun : b.init ≡ true
  pub holds : Holds b m s 0 qs

abbrev pub after : ℕ → ℕ
after sn = (sn + 1) % 65536

-- What `add_packet` makes of a packet that is the next in order.
abbrev pub added : Bucket → ℕ → ℕ → List ℕ → Bucket
added b m s q = pushed (record b { head_sn = after b.head_sn }) m s q

distance-after : (head : ℕ) → head < 65536 → distance (after head) head ≡ 1
unfolding distance
distance-after head h = ground arith

push-added :
    (b : Bucket) (m s : ℕ) (q : List ℕ)
    → IsValid b m s
    → length q ≤ max_payload
    → push (record b { head_sn = after b.head_sn }) q ≡ (added b m s q, ok q)
push-added b m s q v h =
    push-fits (record b { head_sn = after b.head_sn }) m s q (ground (arith, v)) h

pub started-begun : (b : Bucket) (sn : ℕ) → b.init ≡ true → started b sn ≡ b
started-begun b sn e = ground arith

pub add_packet-added :
    (b : Bucket) (m s : ℕ) (q : List ℕ)
    → IsValid b m s
    → b.init ≡ true
    → length q ≤ max_payload
    → add_packet b q (after b.head_sn) true ≡ (added b m s q, ok q)
unfolding add_packet skip
add_packet-added b m s q v e h =
    ap (λ c. push (moved c (distance sn c.head_sn)) q) (started-begun b sn e)
    ∙ ap (λ d. push (moved b d) q) (distance-after b.head_sn v.head)
    ∙ push-added b m s q v h
  where
    sn : ℕ
    sn = after b.head_sn

    moved : Bucket → ℕ → Bucket
    moved c d = record c { head_sn = sn; step = skip (d - 1) c.max_steps c.step }

sn_back-after :
    (head i : ℕ) → head < 65536 → i < 65535 → sn_back (after head) (suc i) ≡ sn_back head i
sn_back-after head i h k = omega arith

back-following : (m s i : ℕ) → s ≤ m → i < m → back m (following m s) (suc i) ≡ back m s i
back-following m s i h k = ground arith

back-ne : (m s i : ℕ) → s ≤ m → i < m → back m s i ≢ s
back-ne m s i h k e = ground arith

-- The packets that stay keep their slots, now one further behind the newest.
keep :
    (b : Bucket) (m s i k : ℕ) (q : List ℕ) (qs : List (List ℕ))
    → IsValid b m s
    → length q ≤ max_payload
    → i + k ≡ m
    → Holds b m s i qs
    → Holds (added b m s q) m (following m s) (suc i) (take k qs)
keep b m s i zero q qs v h e held = tt
keep b m s i (suc k) q [] v h e held = tt
keep b m s i (suc k) q (r ∷ qs) v h e (_, p, slot, rest) = (
  omega arith,
  rw (sn_back-after b.head_sn i v.head (omega (arith, v.small))) p,
  rw (back-following m s i v.within (omega arith)) (
      pushed-Slot_other (record b { head_sn = after b.head_sn }) m s (back m s i) q r h p.1
        (back-ne m s i v.within (omega arith)) slot),
  keep b m s (suc i) k q qs v h (omega arith) rest,
)

sn_back-zero : (head : ℕ) → head < 65536 → sn_back (after head) 0 ≡ after head
sn_back-zero head h = omega arith

back-zero : (m s : ℕ) → s ≤ m → back m (following m s) 0 ≡ s
back-zero m s h = ground arith

-- Adding the next packet in order puts it in front, and drops what no longer has a slot.
pub added-IsReady :
    (b : Bucket) (m s : ℕ) (q : List ℕ) (qs : List (List ℕ))
    → IsReady b m s qs
    → IsPacket q (after b.head_sn)
    → IsReady (added b m s q) m (following m s) (q ∷ take m qs)
added-IsReady b m s q qs r p = record {
  valid = pushed-IsValid (record b { head_sn = after b.head_sn }) m s q (ground (arith, r.valid));
  begun = r.begun;
  holds = (
    omega arith,
    rw (sn_back-zero b.head_sn r.valid.head) p,
    rw (back-zero m s r.valid.within)
        (pushed-Slot (record b { head_sn = after b.head_sn }) m s q (ground (arith, r.valid)) p.1),
    keep b m s 0 m q qs r.valid p.1 (omega arith) r.holds,
  );
}

-- What a queue of the newest `m + 1` packets remembers, newest first.
unfoldable pub recent : ℕ → List (List ℕ) → List (List ℕ) → List (List ℕ)
recent m held [] = held
recent m held (q ∷ qs) = recent m (q ∷ take m held) qs

-- Packets with consecutive sequence numbers, the oldest first.
abbrev pub Consecutive : ℕ → List (List ℕ) → Type 0
Consecutive sn [] = Unit {0}
Consecutive sn (q ∷ qs) = IsPacket q sn × Consecutive (after sn) qs

-- The calls that a stream without loss makes.
unfoldable pub add_all : Bucket → ℕ → List (List ℕ) → Bucket
add_all b sn [] = b
add_all b sn (q ∷ qs) = add_all (add_packet b q sn true).0 (after sn) qs

abbrev pub steps_on : ℕ → ℕ → ℕ → ℕ
steps_on m s zero = s
steps_on m s (suc n) = steps_on m (following m s) n

add_all-IsReady :
    (b : Bucket) (m s : ℕ) (held qs : List (List ℕ))
    → IsReady b m s held
    → Consecutive (after b.head_sn) qs
    → IsReady (add_all b (after b.head_sn) qs) m (steps_on m s (length qs)) (recent m held qs)
unfolding add_all recent
add_all-IsReady b m s held [] r c = r
add_all-IsReady b m s held (q ∷ qs) r (p, c) =
    rw (ap (λ o. o.0) (add_packet-added b m s q r.valid r.begun p.1)) (
      add_all-IsReady (added b m s q) m (following m s) (q ∷ take m held) qs
        (added-IsReady b m s q held r p) c)

head-add_all :
    (b : Bucket) (m s : ℕ) (held qs : List (List ℕ))
    → IsReady b m s held
    → Consecutive (after b.head_sn) qs
    → (add_all b (after b.head_sn) qs).head_sn ≡ (b.head_sn + length qs) % 65536
unfolding add_all
head-add_all b m s held [] r c = omega (arith, r.valid.head)
head-add_all b m s held (q ∷ qs) r (p, c) =
    rw (add_all, ap (λ o. o.0) (add_packet-added b m s q r.valid r.begun p.1))
      (head-add_all (added b m s q) m (following m s) (q ∷ take m held) qs
          (added-IsReady b m s q held r p) c
        ∙ omega arith)

pub Holds-get :
    (b : Bucket) (m s j i : ℕ) (qs : List (List ℕ)) (q : List ℕ)
    → IsValid b m s
    → Holds b m s j qs
    → get_elem? qs i ≡ some q
    → get b (sn_back b.head_sn (j + i)) ≡ ok (some q)
Holds-get b m s j i [] q v h e = cc
Holds-get b m s j zero (r ∷ qs) q v (le, p, slot, rest) e =
    let e' : r ≡ q = cc in rw (add-zero j, ← e') (get-back b m s j r v le p slot)
Holds-get b m s j (suc i) (r ∷ qs) q v (le, p, slot, rest) e =
    ap (λ k. get b (sn_back b.head_sn k)) {x = j + suc i} {y = suc j + i} (omega arith)
    ∙ Holds-get b m s (suc j) i qs q v rest e

max_steps-new :
    (len : ℕ) → 1500 ≤ len → len < 2147483648 → (new len).max_steps ≡ pos (len / 1500 - 1)
unfolding new ◌-ℤ◌
max_steps-new len h k = ground arith

-- A new bucket, once its first packet has set `head_sn`.
pub new-IsReady :
    (len sn : ℕ)
    → 1500 ≤ len
    → len < 1500 * 65535
    → sn < 65536
    → IsReady (started (new len) sn) (len / 1500 - 1) 0 []
unfolding new
new-IsReady len sn h k l = record {
  valid = record {
    last = max_steps-new len h (omega arith);
    next = refl;
    within = omega arith;
    room = omega (arith, length-replicate {A = ℕ} len 0);
    small = omega arith;
    head = omega arith;
  };
  begun = refl;
  holds = tt;
}

pub add_packet-started :
    (b : Bucket) (q : List ℕ) (sn : ℕ)
    → add_packet b q sn true ≡ add_packet (started b sn) q sn true
unfolding add_packet
add_packet-started b q sn =
    ap
      (λ c.
        push (record c { head_sn = sn; step = skip (distance sn c.head_sn - 1) c.max_steps c.step })
          q)
      (sym (started-begun (started b sn) sn (ground arith)))

add_all-started :
    (b : Bucket) (sn : ℕ) (q : List ℕ) (qs : List (List ℕ))
    → add_all b sn (q ∷ qs) ≡ add_all (started b sn) sn (q ∷ qs)
unfolding add_all
add_all-started b sn q qs = ap (λ o. add_all o.0 (after sn) qs) (add_packet-started b q sn)

pub after-previous : (sn : ℕ) → sn < 65536 → after (u16 (sn + 65535)) ≡ sn
after-previous sn h = omega arith

add_all-found :
    (b : Bucket) (m s i : ℕ) (held qs : List (List ℕ)) (q : List ℕ)
    → IsReady b m s held
    → Consecutive (after b.head_sn) qs
    → get_elem? (recent m held qs) i ≡ some q
    → get (add_all b (after b.head_sn) qs) (sn_back ((b.head_sn + length qs) % 65536) i)
      ≡ ok (some q)
add_all-found b m s i held qs q r c e =
    let b' = add_all b (after b.head_sn) qs in
    let r' = add_all-IsReady b m s held qs r c in
    ap (λ h. get b' (sn_back h i)) (sym (head-add_all b m s held qs r c))
    ∙ ap (λ j. get b' (sn_back b'.head_sn j)) {x = i} {y = 0 + i} (omega arith)
    ∙ Holds-get b' m (steps_on m s (length qs)) 0 i (recent m held qs) q r'.valid r'.holds e

-- A stream of packets of 4 to 1498 bytes that carry consecutive sequence numbers from `sn` (below
-- 65536) on, into a new bucket of `len` bytes, 1500 ≤ len < 1500 * 65535: each of the newest
-- `len / 1500` packets (as many slots as the array has) is found by its sequence number, and comes
-- back whole. Packets of 1499 and 1500 bytes, which the program also reads, are not
-- covered.
pub add_all-get :
    (len sn i : ℕ) (p q : List ℕ) (qs : List (List ℕ))
    → 1500 ≤ len
    → len < 1500 * 65535
    → sn < 65536
    → Consecutive sn (p ∷ qs)
    → get_elem? (recent (len / 1500 - 1) [] (p ∷ qs)) i ≡ some q
    → get (add_all (new len) sn (p ∷ qs)) (sn_back ((sn + length qs) % 65536) i) ≡ ok (some q)
unfolding new
add_all-get len sn i p q qs h k l c e =
    ap₂ (λ b' n. get b' (sn_back n i))
      (add_all-started (new len) sn p qs
        ∙ ap (λ n. add_all b n (p ∷ qs)) (sym (after-previous sn l)))
      heads
    ∙ add_all-found b (len / 1500 - 1) 0 i [] (p ∷ qs) q (new-IsReady len sn h k l)
        (rw (after-previous sn l) c) e
  where
    b : Bucket
    b = started (new len) sn

    heads : (sn + length qs) % 65536 ≡ (b.head_sn + length (p ∷ qs)) % 65536
    heads = omega arith
