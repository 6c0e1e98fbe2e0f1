-- ===== src/Sfu/AudioObserver/Order.antt =====
-- The order in which `calc` reports the streams.
use rsfu.Prelude.{◌≤◌, ◌<◌, ◌≡◌, ◌⊎◌, inl, inr, true, false, List, [], ◌∷◌, arith, Bool-cases}
use rsfu.Sfu.AudioObserver.{AudioStream, after, insert, sort, rank}

-- `a` may stand before `b`: its total is larger as an `i32`, or as large with at least the same sum.
abbrev pub Before : AudioStream → AudioStream → Type 0
Before a b =
    (rank b.total < rank a.total) ⊎ ((rank a.total ≡ rank b.total) × (rank b.sum ≤ rank a.sum))

abbrev pub AllBehind : AudioStream → List AudioStream → Type 0
AllBehind a [] = Unit {0}
AllBehind a (b ∷ bs) = Before a b × AllBehind a bs

abbrev pub IsSorted : List AudioStream → Type 0
IsSorted [] = Unit {0}
IsSorted (a ∷ bs) = AllBehind a bs × IsSorted bs

after-Before :
    (a b : AudioStream) → ((after a b ≡ true) × Before b a) ⊎ ((after a b ≡ false) × Before a b)
unfolding after
after-Before a b = ground arith

Before-trans : (a b c : AudioStream) → Before a b → Before b c → Before a c
Before-trans a b c = ground arith

AllBehind-trans :
    (a b : AudioStream) (ss : List AudioStream) → Before a b → AllBehind b ss → AllBehind a ss
AllBehind-trans a b [] h k = tt
AllBehind-trans a b (c ∷ cs) h (k, ks) = (Before-trans a b c h k, AllBehind-trans a b cs h ks)

AllBehind-insert :
    (a s : AudioStream) (ss : List AudioStream)
    → Before a s
    → AllBehind a ss
    → AllBehind a (insert s ss)
unfolding insert
AllBehind-insert a s [] h k = (h, tt)
AllBehind-insert a s (t ∷ ts) h (k, ks) = elim (Bool-cases (after s t)) [
  | inl e ↦ rw e (k, AllBehind-insert a s ts h ks)
  | inr e ↦ rw e (h, (k, ks))
]

insert-IsSorted : (s : AudioStream) (ss : List AudioStream) → IsSorted ss → IsSorted (insert s ss)
unfolding insert
insert-IsSorted s [] h = (tt, tt)
insert-IsSorted s (t ∷ ts) (h, hs) = elim (after-Before s t) [
  | inl (e, k) ↦ rw e (AllBehind-insert t s ts k h, insert-IsSorted s ts hs)
  | inr (e, k) ↦ rw e ((k, AllBehind-trans s t ts k h), (h, hs))
]

-- `calc` sorts the streams so that one that was heard more often comes first, and among those that
-- were heard equally often one with the larger sum: each stream may stand before all behind it.
pub sort-IsSorted : (ss : List AudioStream) → IsSorted (sort ss)
unfolding sort
sort-IsSorted [] = tt
sort-IsSorted (s ∷ ss) = insert-IsSorted s (sort ss) (sort-IsSorted ss)
