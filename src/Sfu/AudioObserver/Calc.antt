-- ===== src/Sfu/AudioObserver/Calc.antt =====
-- `calc` reports the streams that were loud often enough, in order, and only when they have changed.
use rsfu.Prelude.{
  ◌≡◌, ◌≢◌, ◌⊎◌, inl, inr, refl, ap, ◌∙◌, Bool, true, false, ◌||◌, ◌&&◌, not, none, some, List, [],
  ◌∷◌, map, String, arith, ◌==◌, length, ok, Bool-cases,
}
use rsfu.Prelude.Int.{ℤ, ltb_ℤ}
use rsfu.Prelude.Texts.{same, same-cases}
use rsfu.Sfu.AudioObserver.{
  AudioStream, AudioObserver, after, insert, sort, active, reset, differ, calc, wrap_word,
}

differ_cases :
    (ps ids : List String)
    → length ps ≡ length ids
    → ((differ ps ids ≡ some false) × (ps ≡ ids)) ⊎ ((differ ps ids ≡ some true) × (ps ≢ ids))
unfolding differ
differ_cases [] [] e = inl (refl, refl)
differ_cases [] (id ∷ ids) e = absurd (omega arith)
differ_cases (p ∷ ps) [] e = absurd (omega arith)
differ_cases (p ∷ ps) (id ∷ ids) e = elim (same-cases p id) [
  | inr (f, ne) ↦ inr (rw (f, differ), λ q. ne (ap (λ l. elim l [ [] ↦ p | x ∷ _ ↦ x ]) q))
  | inl (t, eq) ↦ elim (differ_cases ps ids (omega arith)) [
    | inl (d, q) ↦ inl (rw (t, d), rw (eq, q))
    | inr (d, ne) ↦ inr (rw (t, d), λ q. ne (ap (λ l. elim l [ [] ↦ [] | _ ∷ xs ↦ xs ]) q))
  ]
]

-- After `calc`, whatever the state, the counters are reset and `previous` is the list of the ids, in
-- the order of the sort, of the streams whose count, as an `i32`, reached `expected`; the result is that list, or
-- nothing where it is what `previous` was. The loop over the two lists does not go out of range.
pub calc_lem :
    (o : AudioObserver)
    → ((calc o).0 ≡ record o {
      streams = map reset (sort o.streams);
      previous = active o.expected (sort o.streams);
    })
      × ((((calc o).1 ≡ ok none) × (o.previous ≡ active o.expected (sort o.streams)))
          ⊎ (((calc o).1 ≡ ok (some (active o.expected (sort o.streams))))
              × (o.previous ≢ active o.expected (sort o.streams))))
unfolding calc
calc_lem o =
    let ids = active o.expected (sort o.streams) in
    elim (Bool-cases (length o.previous == length ids)) [
      | inr e ↦ (rw e, inr (rw e, λ q. ground (arith, ap length q)))
      | inl e ↦ elim (differ_cases o.previous ids (ground arith)) [
        | inl (d, q) ↦ (
          rw (e, d) (ap (λ x. record o { streams = map reset (sort o.streams); previous = x }) q),
          inl (rw (e, d), q),
        )
        | inr (d, ne) ↦ (rw (e, d), inr (rw (e, d), ne))
      ]
    ]

-- The streams that count for an id: some stream has the id and was loud often enough.
abbrev pub any_active : ℤ → String → List AudioStream → Bool
any_active expected id [] = false
any_active expected id (s ∷ ss) =
    (not (ltb_ℤ (wrap_word s.total) expected) && same s.id id) || any_active expected id ss

abbrev pub contains : List String → String → Bool
contains [] id = false
contains (x ∷ xs) id = same x id || contains xs id

contains-active :
    (expected : ℤ) (id : String) (ss : List AudioStream)
    → contains (active expected ss) id ≡ any_active expected id ss
unfolding active
contains-active expected id [] = refl
contains-active expected id (s ∷ ss) = elim (Bool-cases (ltb_ℤ (wrap_word s.total) expected)) [
  | inl e ↦ rw (e, active) (contains-active expected id ss)
  | inr e ↦ rw (e, contains-active expected id ss)
]

insert-active :
    (expected : ℤ) (id : String) (s : AudioStream) (ss : List AudioStream)
    → any_active expected id (insert s ss) ≡ any_active expected id (s ∷ ss)
unfolding insert
insert-active expected id s [] = refl
insert-active expected id s (t ∷ ts) = elim (Bool-cases (after s t)) [
  | inl e ↦
      rw (e, insert-active expected id s ts)
        (swap (not (ltb_ℤ (wrap_word t.total) expected) && same t.id id)
          (not (ltb_ℤ (wrap_word s.total) expected) && same s.id id) (any_active expected id ts))
  | inr e ↦ rw e
]
  where
    swap : (a b c : Bool) → (a || (b || c)) ≡ (b || (a || c))
    swap true true c = refl
    swap true false c = refl
    swap false b c = refl

sort-active :
    (expected : ℤ) (id : String) (ss : List AudioStream)
    → any_active expected id (sort ss) ≡ any_active expected id ss
unfolding sort
sort-active expected id [] = refl
sort-active expected id (s ∷ ss) =
    insert-active expected id s (sort ss)
    ∙ ap (λ b. (not (ltb_ℤ (wrap_word s.total) expected) && same s.id id) || b)
        (sort-active expected id ss)

-- An id is in the list that `calc` leaves in `previous` just when some stream with that id was heard
-- loud enough so often that its count, as an `i32`, is at least `expected`: sorting neither loses a stream nor adds one.
pub contains-calc :
    (o : AudioObserver) (id : String)
    → contains (calc o).0.previous id ≡ any_active o.expected id o.streams
contains-calc o id =
    ap (λ q. contains q.previous id) (calc_lem o).0
    ∙ contains-active o.expected id (sort o.streams)
    ∙ sort-active o.expected id o.streams
