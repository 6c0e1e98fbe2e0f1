-- ===== src/Buffer/Endpoint/Queue.antt =====
-- `read_extended` against a queue that grows while it waits.
use rsfu.Prelude.{
  ℕ, zero, suc, ◌≤◌, ◌≡◌, ◌⊎◌, inl, inr, refl, sym, ap, ◌∙◌, false, Option, none, some, List, [],
  ◌∷◌, ◌++◌, arith, if◌then◌else◌, length, take,
}
use mathlib.Core.List.{append_assoc}
use rsfu.Buffer.State.{Buffer, ExtPacket}
use rsfu.Buffer.Endpoint.{Poll, eof, got, waits, poll}

-- What the other tasks queue while the reader sleeps, once for each round.
abbrev pub Schedule : Type 0
Schedule = List (List ExtPacket)

abbrev pub all_queued : Schedule → List ExtPacket
all_queued [] = []
all_queued (new ∷ rest) = new ++ all_queued rest

List-cases :
    (xs : List ExtPacket) → (xs ≡ []) ⊎ ((y : ExtPacket) × (ys : List ExtPacket) × (xs ≡ y ∷ ys))
List-cases [] = inl refl
List-cases (y ∷ ys) = inr (y, ys, refl)

∷_head : {x y : ExtPacket} {xs ys : List ExtPacket} → x ∷ xs ≡ y ∷ ys → x ≡ y
∷_head e = cc

∷_tail : {x y : ExtPacket} {xs ys : List ExtPacket} → x ∷ xs ≡ y ∷ ys → xs ≡ ys
∷_tail e = cc

module _ {F : Type 0} where
  abbrev pub queued : Buffer F → List ExtPacket → Buffer F
  queued b new = record b { ext_packets = b.ext_packets ++ new }

  -- How a call of `read_extended` ends: with a packet, the state and the rounds that are left, or with
  -- the error; `none` where it still waits when the schedule is over.
  unfoldable pub read_extended :
      Buffer F → Schedule → Option (Option ExtPacket × Buffer F × Schedule)
  read_extended b [] = elim (poll b) [
    | eof ↦ some (none, b, [])
    | got p b' ↦ some (some p, b', [])
    | waits ↦ none
  ]
  read_extended b (new ∷ rest) =
      let later = read_extended (queued b new) rest in
      elim (poll b) [
        | eof ↦ some (none, b, new ∷ rest)
        | got p b' ↦ some (some p, b', new ∷ rest)
        | waits ↦ later
      ]

  -- The packets of `n` calls, one after the other, as far as they end with one.
  unfoldable pub read_many : ℕ → Buffer F → Schedule → List ExtPacket
  read_many zero b s = []
  read_many (suc n) b s = elim (read_extended b s) [
    | none ↦ []
    | some (none, _, _) ↦ []
    | some (some p, b', s') ↦ p ∷ read_many n b' s'
  ]

  poll_got :
      (b : Buffer F) (x : ExtPacket) (xs : List ExtPacket)
      → b.closed ≡ false
      → b.ext_packets ≡ x ∷ xs
      → poll b ≡ got x (record b { ext_packets = xs })
  unfolding poll
  poll_got b x xs still e =
      ap
        (λ c.
          if c
          then eof
          else elim b.ext_packets [ [] ↦ waits | p ∷ ps ↦ got p (record b { ext_packets = ps }) ])
        still
      ∙ ap
          (λ l. elim l as (λ _. Poll F) [
            | [] ↦ waits
            | p ∷ ps ↦ got p (record b { ext_packets = ps })
          ])
          e

  poll_waits : (b : Buffer F) → b.closed ≡ false → b.ext_packets ≡ [] → poll b ≡ waits
  unfolding poll
  poll_waits b still e =
      ap
        (λ c.
          if c
          then eof
          else elim b.ext_packets [ [] ↦ waits | p ∷ ps ↦ got p (record b { ext_packets = ps }) ])
        still
      ∙ ap
          (λ l. elim l as (λ _. Poll F) [
            | [] ↦ waits
            | p ∷ ps ↦ got p (record b { ext_packets = ps })
          ])
          e

  -- A call gets the first of all that is and will be queued, and leaves the rest.
  abbrev Gets : Buffer F → Schedule → ExtPacket → List ExtPacket → Type 0
  Gets b s p ps =
      (b' : Buffer F) × (s' : Schedule) × (read_extended b s ≡ some (some p, b', s'))
      × (b'.closed ≡ false)
      × (b'.ext_packets ++ all_queued s' ≡ ps)

  read_extended_first :
      (b : Buffer F) (s : Schedule) (p : ExtPacket) (ps : List ExtPacket)
      → b.closed ≡ false
      → b.ext_packets ++ all_queued s ≡ p ∷ ps
      → Gets b s p ps
  unfolding read_extended
  read_extended_first b [] p ps still e = elim (List-cases b.ext_packets) [
    | inl none_yet ↦ let e' : [] ≡ p ∷ ps = ap (λ xs. xs ++ []) (sym none_yet) ∙ e in absurd (cc)
    | inr (x, xs, at) ↦
        let e' : x ∷ (xs ++ []) ≡ p ∷ ps = ap (λ ys. ys ++ []) (sym at) ∙ e in
        (
          record b { ext_packets = xs },
          [],
          rw (poll_got b x xs still at, read_extended, ∷_head e'),
          still,
          ∷_tail e',
        )
  ]
  read_extended_first b (new ∷ rest) p ps still e = elim (List-cases b.ext_packets) [
    | inl none_yet ↦
        let (b', s', first, after, left) =
          read_extended_first (queued b new) rest p ps still
            (append_assoc b.ext_packets new (all_queued rest) ∙ e) in
        (b', s', rw (poll_waits b still none_yet, read_extended) first, after, left)
    | inr (x, xs, at) ↦
        let e' : x ∷ (xs ++ all_queued (new ∷ rest)) ≡ p ∷ ps =
          ap (λ ys. ys ++ all_queued (new ∷ rest)) (sym at) ∙ e in
        (
          record b { ext_packets = xs },
          new ∷ rest,
          rw (poll_got b x xs still at, read_extended, ∷_head e'),
          still,
          ∷_tail e',
        )
  ]

  -- An open buffer to which other tasks queue packets while readers wait: `n` calls of `read_extended`,
  -- with at least `n` packets in the queue or still to come, all end, and get the first `n` packets in
  -- the order in which they were queued: none is lost, none comes twice, and no call waits forever.
  pub read_many_lem :
      (n : ℕ) (b : Buffer F) (s : Schedule)
      → b.closed ≡ false
      → n ≤ length (b.ext_packets ++ all_queued s)
      → read_many n b s ≡ take n (b.ext_packets ++ all_queued s)
  unfolding read_many
  read_many_lem zero b s still h = refl
  read_many_lem (suc n) b s still h = split (b.ext_packets ++ all_queued s) refl h (read_many_lem n)
    where
      split :
          (all : List ExtPacket)
          → b.ext_packets ++ all_queued s ≡ all
          → suc n ≤ length all
          → ((c : Buffer F) (t : Schedule)
              → c.closed ≡ false
              → n ≤ length (c.ext_packets ++ all_queued t)
              → read_many n c t ≡ take n (c.ext_packets ++ all_queued t))
          → read_many (suc n) b s ≡ take (suc n) all
      split [] e h ih = absurd (omega arith)
      split (p ∷ ps) e h ih =
          let (b', s', first, after, rest) = read_extended_first b s p ps still e in
          rw (first, read_many)
            (ap (λ xs. p ∷ xs) (ih b' s' after (omega (arith, ap length rest)) ∙ ap (take n) rest))
