-- ===== src/Sfu/AudioObserver/Observe.antt =====
-- What the counters of a stream hold after any calls of `observe`, and what `remove_stream` leaves.
use rsfu.Prelude.{
  ℕ, suc, ◌+◌, ◌%◌, ◌^◌, ◌<◌, ◌≡◌, ◌≢◌, inl, inr, refl, sym, ap, ap₂, ◌∙◌, Bool, true, false,
  Option, none, some, List, [], ◌∷◌, String, arith, leb, if◌then◌else◌, Bool-cases,
}
use rsfu.Prelude.Texts.{same, same-cases}
use rsfu.Sfu.AudioObserver.{
  AudioStream, AudioObserver, heard, observe_in, observe, remove_from, remove_stream,
}

-- The sum and the number of the first stream with an id, which is the one that `observe` counts in.
abbrev pub tally : String → List AudioStream → Option (ℕ × ℕ)
tally id [] = none
tally id (s ∷ ss) = if same s.id id then some (s.sum, s.total) else tally id ss

abbrev pub observe_all : AudioObserver → List (String × ℕ) → AudioObserver
observe_all o [] = o
observe_all o ((id, d_bov) ∷ es) = observe_all (observe o id d_bov) es

-- The levels of a stream that are loud enough.
abbrev pub loud : ℕ → String → List (String × ℕ) → List ℕ
loud threshold id [] = []
loud threshold id ((other, d_bov) ∷ es) =
    let rest = loud threshold id es in
    if same other id then (if leb d_bov threshold then d_bov ∷ rest else rest) else rest

abbrev pub sum : List ℕ → ℕ
sum [] = 0
sum (n ∷ ns) = n + sum ns

abbrev pub count : List ℕ → ℕ
count [] = 0
count (n ∷ ns) = suc (count ns)

-- One level, at the tally of an id.
abbrev pub counted : ℕ → String → String → ℕ → ℕ × ℕ → ℕ × ℕ
counted threshold other id d_bov (s, t) =
    if same other id
    then (if leb d_bov threshold then ((s + d_bov) % 2 ^ 32, (t + 1) % 2 ^ 32) else (s, t))
    else (s, t)

heard_id : (threshold : ℕ) (s : AudioStream) (d_bov : ℕ) → (heard threshold s d_bov).id ≡ s.id
unfolding heard
heard_id threshold s d_bov = elim (Bool-cases (leb d_bov threshold)) [ inl e ↦ rw e | inr e ↦ rw e ]

tally_found :
    (s : AudioStream) (ss : List AudioStream) (id : String)
    → same s.id id ≡ true
    → tally id (s ∷ ss) ≡ some (s.sum, s.total)
tally_found s ss id t = rw t

tally_other :
    (s : AudioStream) (ss : List AudioStream) (id : String)
    → same s.id id ≡ false
    → tally id (s ∷ ss) ≡ tally id ss
tally_other s ss id f = rw f

tally-observe_in :
    (threshold : ℕ) (ss : List AudioStream) (other id : String) (d_bov : ℕ) (n : ℕ × ℕ)
    → tally id ss ≡ some n
    → tally id (observe_in threshold ss other d_bov) ≡ some (counted threshold other id d_bov n)
unfolding observe_in heard
tally-observe_in threshold [] other id d_bov n e = ground arith
tally-observe_in threshold (s ∷ ss) other id d_bov n e = elim (same-cases s.id other) [
  | inl (t, eq) ↦ rw (t, sym eq) (here (same s.id id) (leb d_bov threshold) refl refl e)
  | inr (f, ne) ↦ elim (same-cases s.id id) [
    | inl (t, eq) ↦
        let g : same other id ≡ false = elim (same-cases other id) [
          | inl (_, eq') ↦ absurd (ne (eq ∙ sym eq'))
          | inr (g, _) ↦ g
        ] in
        rw (f, t, g) (sym (tally_found s ss id t) ∙ e)
    | inr (f', _) ↦
        rw (f, f')
          (tally-observe_in threshold ss other id d_bov n (sym (tally_other s ss id f') ∙ e))
  ]
]
  where
    here :
        (b l : Bool)
        → same s.id id ≡ b
        → leb d_bov threshold ≡ l
        → tally id (s ∷ ss) ≡ some n
        → tally id (heard threshold s d_bov ∷ ss) ≡ some (counted threshold s.id id d_bov n)
    here true true t l h =
        rw (heard_id threshold s d_bov, t)
          (rw (l, heard)
            (ap
              (λ o. elim o [
                | none ↦ none
                | some m ↦ some ((m.0 + d_bov) % 2 ^ 32, (m.1 + 1) % 2 ^ 32)
              ])
              (sym (tally_found s ss id t) ∙ h)))
    here true false t l h =
        rw (heard_id threshold s d_bov, t) (rw (l, heard) (sym (tally_found s ss id t) ∙ h))
    here false l f _ h = rw (heard_id threshold s d_bov, f) (sym (tally_other s ss id f) ∙ h)

observe_all_added :
    (o : AudioObserver) (es : List (String × ℕ)) (id : String) (s t : ℕ)
    → tally id o.streams ≡ some (s % 2 ^ 32, t % 2 ^ 32)
    → tally id (observe_all o es).streams
      ≡ some (
        (s + sum (loud o.threshold id es)) % 2 ^ 32,
        (t + count (loud o.threshold id es)) % 2 ^ 32,
      )
unfolding observe
observe_all_added o [] id s t e = e ∙ ap₂ (λ a b. some (a, b)) (omega arith) (omega arith)
observe_all_added o ((other, d_bov) ∷ es) id s t e =
    let next = tally-observe_in o.threshold o.streams other id d_bov (s % 2 ^ 32, t % 2 ^ 32) e in
    elim (Bool-cases (same other id)) [
      | inr f ↦ rw f (observe_all_added (observe o other d_bov) es id s t (next ∙ rw f))
      | inl m ↦ elim (Bool-cases (leb d_bov o.threshold)) [
        | inr f ↦ rw (m, f) (observe_all_added (observe o other d_bov) es id s t (next ∙ rw (m, f)))
        | inl l ↦
            rw (m, l)
              (observe_all_added (observe o other d_bov) es id (s + d_bov) (t + 1)
                  (next ∙ rw (m, l) (ap₂ (λ a b. some (a, b)) (omega arith) (omega arith)))
                ∙ ap₂ (λ a b. some (a, b)) (omega arith) (omega arith))
      ]
    ]

-- What `remove_stream` takes away, and what it leaves.
remove_from_gone : (ss : List AudioStream) (id : String) → tally id (remove_from ss id) ≡ none
unfolding remove_from
remove_from_gone [] id = refl
remove_from_gone (s ∷ ss) id = elim (Bool-cases (same s.id id)) [
  | inl t ↦ rw t (remove_from_gone ss id)
  | inr f ↦ rw (f, f) (remove_from_gone ss id)
]

remove_from_others :
    (ss : List AudioStream) (id other : String)
    → id ≢ other
    → tally other (remove_from ss id) ≡ tally other ss
unfolding remove_from
remove_from_others [] id other ne = refl
remove_from_others (s ∷ ss) id other ne = elim (same-cases s.id id) [
  | inl (t, eq) ↦ elim (same-cases s.id other) [
    | inl (_, eq') ↦ absurd (ne (sym eq ∙ eq'))
    | inr (f, _) ↦ rw (t, f) (remove_from_others ss id other ne)
  ]
  | inr (f, _) ↦ rw f (
      ap (λ rest. if same s.id other then some (s.sum, s.total) else rest)
        (remove_from_others ss id other ne))
]

-- For every stream that an observer has, and any calls of `observe` for it and for others in any
-- order: its `i32` sum has grown by just its levels that are at most the threshold, its total by their
-- number, both modulo 2^32; and after `remove_stream` the stream is gone and every other stream is as
-- it was.
pub observe_all_lem :
    (o : AudioObserver) (es : List (String × ℕ)) (id other : String) (s t : ℕ)
    → s < 2 ^ 32
    → t < 2 ^ 32
    → tally id o.streams ≡ some (s, t)
    → id ≢ other
    → let o' = observe_all o es in
      (tally id o'.streams
        ≡ some (
          (s + sum (loud o.threshold id es)) % 2 ^ 32,
          (t + count (loud o.threshold id es)) % 2 ^ 32,
        ))
      × (tally id (remove_stream o' id).streams ≡ none)
      × (tally other (remove_stream o' id).streams ≡ tally other o'.streams)
unfolding remove_stream
observe_all_lem o es id other s t h k e ne = (
  observe_all_added o es id s t (e ∙ ap₂ (λ a b. some (a, b)) (omega arith) (omega arith)),
  remove_from_gone (observe_all o es).streams id,
  remove_from_others (observe_all o es).streams id other ne,
)
