-- ===== src/Buffer/Bucket/Late.antt =====
-- Packets that arrive behind the newest one, and lookups into a caller's buffer.
use rsfu.Prelude.{
  ℕ, zero, suc, ◌+◌, ◌-◌, ◌*◌, ◌%◌, ◌≤◌, ◌<◌, ◌≡◌, refl, sym, ap, dec_lt, ◌∙◌, true, Option, some,
  List, arith, length, drop, ok, err, panic, err_packet_too_old, err_buffer_too_small,
}
use native.Mathlib.Nat.{mod-eq_of_lt, mod-eq-sub-mod}
use rsfu.Prelude.Int.{pos, ◌+ℤ◌}
use rsfu.Prelude.Bytes.{write_at, decode16}
use rsfu.Buffer.Bucket.{
  Bucket, distance, set, add_packet, read_slot, get, get_packet, push, skip, advance,
  max_packet_size,
}
use rsfu.Buffer.Bucket.Slots.{IsValid, max_payload, frame, following, pushed, push-fits}
use rsfu.Buffer.Bucket.InOrder.{started-begun}
use rsfu.Buffer.Bucket.Window.{back, get-read_slot}

-- The sequence number that stands in slot `p`.
abbrev held_sn : Bucket → ℕ → Option ℕ
held_sn b p = decode16 (drop (p * 1500 + 4) b.buf)

-- The bucket with a packet put into slot `p`.
abbrev placed : Bucket → ℕ → List ℕ → Bucket
placed b p q = record b { buf = write_at b.buf (p * 1500) (frame q) }

-- A packet that is further behind than the array reaches is refused, and nothing changes.
pub set_too_old :
    (b : Bucket) (m s sn : ℕ) (q : List ℕ)
    → IsValid b m s
    → m < distance b.head_sn sn
    → set b sn q ≡ (b, err err_packet_too_old)
unfolding set
set_too_old b m s sn q v h = ground (arith, v)

-- `get_packet` copies a packet that is there only into a buffer of exactly its length: a shorter one
-- is refused, and a longer one makes `copy_from_slice` panic.
pub get_packet_cases :
    (b : Bucket) (out q : List ℕ) (sn : ℕ)
    → get b sn ≡ ok (some q)
    → (length out < length q → get_packet b out sn ≡ err err_buffer_too_small)
      × (length out ≡ length q → get_packet b out sn ≡ ok (q, length q))
      × (length q < length out → get_packet b out sn ≡ panic)
unfolding get_packet
get_packet_cases b out q sn e = ground (arith, e)

-- The loop over a gap counts the slots modulo `max_steps`, though there are `max_steps + 1`.
pub skip_lem : (n m s : ℕ) → s < m → skip n (pos m) (pos s) ≡ pos ((s + n) % m)
unfolding skip ◌+ℤ◌
skip_lem zero m s h = ground (arith, mod-eq_of_lt h)
skip_lem (suc n) m s h = elim (dec_lt (s + 1) m) [
  | yes more ↦
      ap (skip n (pos m)) (advance-lt m s more)
      ∙ skip_lem n m (s + 1) more
      ∙ ap (λ k. pos (k % m)) {x = s + 1 + n} {y = s + suc n} (omega arith)
  | no full ↦
      ap (skip n (pos m)) (advance-end m s full)
      ∙ skip_lem n m 0 (omega arith)
      ∙ ap pos (round m s n (omega arith))
]
  where
    advance-lt : (m s : ℕ) → s + 1 < m → advance (pos m) (pos s) ≡ pos (s + 1)
    advance-lt m s h = ground arith

    advance-end : (m s : ℕ) → ¬ (s + 1 < m) → advance (pos m) (pos s) ≡ pos 0
    advance-end m s h = ground arith

    round : (m s n : ℕ) → m ≡ s + 1 → (0 + n) % m ≡ (s + suc n) % m
    round m s n e = sym (
        mod-eq-sub-mod {n = s + suc n} {m = m} (omega arith)
        ∙ ap (λ k. k % m) {x = s + suc n - m} {y = 0 + n} (omega arith))

-- The capacity check of `push` leaves out the two bytes of the length: in the last slot of an array
-- of whole slots, a packet of 1499 or 1500 bytes passes the check and panics.
pub push_panics :
    (b : Bucket) (m : ℕ) (q : List ℕ)
    → IsValid b m m
    → length b.buf ≡ (m + 1) * 1500
    → max_payload < length q
    → length q ≤ max_packet_size
    → (push b q).1 ≡ panic
unfolding push
push_panics b m q v e h k = ground (arith, v)

distance-forward : (head d : ℕ) → head < 65536 → d < 65536 → distance ((head + d) % 65536) head ≡ d
unfolding distance
distance-forward head d h k = ground arith

-- `add_packet` over a gap of `d` that runs over the end of the array.
add_packet-over_end :
    (b : Bucket) (m s d sn : ℕ) (p : List ℕ)
    → IsValid b m s
    → b.init ≡ true
    → length p ≤ max_payload
    → s < m
    → d ≤ m
    → m ≤ s + (d - 1)
    → distance sn b.head_sn ≡ d
    → sn < 65536
    → let t = s + (d - 1) - m in
      add_packet b p sn true ≡ (pushed (record b { head_sn = sn; step = pos t }) m t p, ok p)
unfolding add_packet
add_packet-over_end b m s d sn p v e h sm dm over ed small =
    ap
      (λ c.
        push (record c { head_sn = sn; step = skip (distance sn c.head_sn - 1) c.max_steps c.step })
          p)
      (started-begun b sn e)
    ∙ ap (λ z. push (record b { head_sn = sn; step = z }) p) moved
    ∙ push-fits (record b { head_sn = sn; step = pos t }) m t p (ground (arith, v)) h
  where
    t : ℕ
    t = s + (d - 1) - m

    moved : skip (distance sn b.head_sn - 1) b.max_steps b.step ≡ pos t
    moved =
        rw (ed, v.last, v.next) (skip_lem (d - 1) m s sm)
        ∙ ap pos (
            mod-eq-sub-mod {n = s + (d - 1)} {m = m} over
            ∙ mod-eq_of_lt {n = t} {m = m} (omega arith))

-- So a gap that runs over the end of the array moves the write position one slot too far: from then
-- on the packet that was the newest, which stands in the slot before `s`, is looked up in slot `s`.
pub gap_over_end :
    (b : Bucket) (m s d sn : ℕ) (p : List ℕ)
    → IsValid b m s
    → b.init ≡ true
    → length p ≤ max_payload
    → s < m
    → d ≤ m
    → m ≤ s + (d - 1)
    → sn ≡ (b.head_sn + d) % 65536
    → let b' = (add_packet b p sn true).0 in get b' b.head_sn ≡ read_slot b' s b.head_sn
gap_over_end b m s d sn p v e h sm dm over es =
    let t = s + (d - 1) - m in
    let c = pushed (record b { head_sn = sn; step = pos t }) m t p in
    let ahead = distance-forward b.head_sn d v.head (omega (arith, v.small)) in
    let r = add_packet-over_end b m s d sn p v e h sm dm over (rw es ahead) (omega arith) in
    ap (λ o. get o.0 b.head_sn) r
    ∙ get-read_slot c m (following m t) d b.head_sn refl v.last (rw es ahead) (ground arith) dm
        v.small
    ∙ ap (λ k. read_slot c k b.head_sn) {x = back m (following m t) d} {y = s} (ground arith)
    ∙ sym (ap (λ o. read_slot o.0 s b.head_sn) r)
