-- ===== src/Buffer/Nack/Queue.antt =====
-- The queue as a map from missing packets to the number of requests: `push` and `remove`.
use rsfu.Prelude.{
  ℕ, suc, ◌≤◌, ◌<◌, ◌≡◌, refl, subst, ◌⊎◌, inl, inr, Option, none, some, List, [], ◌∷◌, arith,
  dec_lt, ℕ_discrete, ◌==◌, if◌then◌else◌,
}
use mathlib.Core.Option
use rsfu.Buffer.Nack.{
  Nack, NackQueue, Search, found, absent, one_on, search_by_key, insert_at, remove_at, nth, push,
  remove,
}

-- How often a packet was asked for, if it is in the queue.
abbrev pub times : List Nack → ℕ → Option ℕ
times [] sn = none
times (n ∷ ns) sn = if n.seq_number == sn then some n.nackd else times ns sn

-- The numbers rise, from `b` on.
abbrev pub Above : ℕ → List Nack → Type 0
Above b [] = Unit {0}
Above b (n ∷ ns) = (b ≤ n.seq_number) × Above (suc n.seq_number) ns

abbrev pub IsSorted : NackQueue → Type 0
IsSorted q = Above 0 q.nacks

pub Above-times : (ns : List Nack) (b sn : ℕ) → Above b ns → sn < b → times ns sn ≡ none
Above-times [] b sn a h = refl
Above-times (n ∷ ns) b sn a h = ground (arith, Above-times ns (suc n.seq_number) sn a.1)

pub Above-weaken : (ns : List Nack) (a b : ℕ) → a ≤ b → Above b ns → Above a ns
Above-weaken [] a b h s = tt
Above-weaken (n ∷ ns) a b h s = (omega (arith, s.0), s.1)

Search-cases : (r : Search) → ((i : ℕ) × (r ≡ found i)) ⊎ ((i : ℕ) × (r ≡ absent i))
Search-cases (found i) = inl (i, refl)
Search-cases (absent i) = inr (i, refl)

abbrev fresh : ℕ → Nack
fresh sn = record { seq_number = sn; nackd = 0 }

-- What a search says of a sorted list: where the key is, or where it keeps the list sorted.
abbrev Finds : ℕ → List Nack → ℕ → Search → Type 0
Finds b ns sn (found i) =
    (n : Nack) × (nth ns i ≡ some n)
    × (n.seq_number ≡ sn)
    × (times ns sn ≡ some n.nackd)
    × Above b (remove_at ns i)
    × ((k : ℕ) → times (remove_at ns i) k ≡ (if k == sn then none else times ns k))
Finds b ns sn (absent i) =
    (times ns sn ≡ none)
    × Above b (insert_at ns i (fresh sn))
    × ((k : ℕ) → times (insert_at ns i (fresh sn)) k ≡ (if k == sn then some 0 else times ns k))

Finds-cons :
    (b : ℕ) (n : Nack) (ns : List Nack) (sn : ℕ) (r : Search)
    → b ≤ n.seq_number
    → Above (suc n.seq_number) ns
    → n.seq_number < sn
    → Finds (suc n.seq_number) ns sn r
    → Finds b (n ∷ ns) sn (one_on r)
unfolding insert_at remove_at
Finds-cons b n ns sn (found i) h a lt (x, at, key, held, above, others) =
    (x, at, key, ground (arith, held), (h, above), λ k. ground (arith, others k))
Finds-cons b n ns sn (absent i) h a lt (free, above, others) =
    (ground (arith, free), (h, above), λ k. ground (arith, others k))

search-Finds :
    (b : ℕ) (ns : List Nack) (sn : ℕ) → Above b ns → b ≤ sn → Finds b ns sn (search_by_key ns sn)
unfolding search_by_key insert_at remove_at
search-Finds b [] sn a h = (refl, (h, tt), λ k. ground arith)
search-Finds b (n ∷ ns) sn (le, a) h = elim (dec_lt n.seq_number sn) [
  | yes behind ↦ subst (Finds b (n ∷ ns) sn) (ground arith) (
      Finds-cons b n ns sn (search_by_key ns sn) le a behind
        (search-Finds (suc n.seq_number) ns sn a behind))
  | no ahead ↦ elim (ℕ_discrete n.seq_number sn) [
    | yes here ↦ subst (Finds b (n ∷ ns) sn) {x = found 0} (ground arith) (
      n,
      refl,
      here,
      ground arith,
      Above-weaken ns b (suc n.seq_number) (omega arith) a,
      λ k. ground (arith, Above-times ns (suc n.seq_number) k a),
    )
    | no other ↦ subst (Finds b (n ∷ ns) sn) {x = absent 0} (ground arith) (
      ground (arith, Above-times ns (suc n.seq_number) sn a),
      (h, (omega arith, a)),
      λ k. ground arith,
    )
  ]
]

-- `push` keeps the queue sorted, and adds the packet with no request counted, unless it is there:
-- no packet is in the queue twice, and a count that has begun is kept.
pub push_lem :
    (q : NackQueue) (sn : ℕ)
    → IsSorted q
    → IsSorted (push q sn)
      × ((k : ℕ)
          → times (push q sn).nacks k
            ≡ (if k == sn then some (Option.get_or (times q.nacks sn) 0) else times q.nacks k))
      × ((push q sn).key_frame_seq_number ≡ q.key_frame_seq_number)
unfolding push
push_lem q sn s = go (search_by_key q.nacks sn) refl (search-Finds 0 q.nacks sn s (omega arith))
  where
    go :
        (r : Search)
        → search_by_key q.nacks sn ≡ r
        → Finds 0 q.nacks sn r
        → IsSorted (push q sn)
          × ((k : ℕ)
              → times (push q sn).nacks k
                ≡ (if k == sn then some (Option.get_or (times q.nacks sn) 0) else times q.nacks k))
          × ((push q sn).key_frame_seq_number ≡ q.key_frame_seq_number)
    go (found i) e f = rw (e, push) (s, (λ k. ground (arith, f.3)), refl)
    go (absent i) e f = rw (e, push) (f.1, (λ k. ground (arith, f.0, f.2 k)), refl)

-- `remove` keeps the queue sorted, takes out exactly the packet named, and returns its entry.
pub remove_lem :
    (q : NackQueue) (sn : ℕ)
    → IsSorted q
    → IsSorted (remove q sn).0
      × ((k : ℕ) → times (remove q sn).0.nacks k ≡ (if k == sn then none else times q.nacks k))
      × (Option.map (λ n. n.nackd) (remove q sn).1 ≡ times q.nacks sn)
unfolding remove
remove_lem q sn s = go (search_by_key q.nacks sn) refl (search-Finds 0 q.nacks sn s (omega arith))
  where
    go :
        (r : Search)
        → search_by_key q.nacks sn ≡ r
        → Finds 0 q.nacks sn r
        → IsSorted (remove q sn).0
          × ((k : ℕ) → times (remove q sn).0.nacks k ≡ (if k == sn then none else times q.nacks k))
          × (Option.map (λ n. n.nackd) (remove q sn).1 ≡ times q.nacks sn)
    go (found i) e f = rw (e, remove) (f.4, f.5, ground (arith, f.1, f.3))
    go (absent i) e f = rw (e, remove) (s, (λ k. ground (arith, f.0)), ground (arith, f.0))
