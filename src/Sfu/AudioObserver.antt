-- ===== src/Sfu/AudioObserver.antt =====
-- rsfu/src/sfu/audio_observer.rs: which audio streams of a room are loud. The counters
-- are `i32` and kept as their 32-bit words; their sums wrap.
pub mod Calc
pub mod Observe
pub mod Order
mod Tests
use rsfu.Prelude.{
  ℕ, suc, ◌+◌, ◌-◌, ◌/◌, ◌%◌, ◌^◌, Bool, true, false, Option, none, some, List, [], ◌∷◌, ◌++◌, map,
  String, ltb, leb, ◌==◌, if◌then◌else◌, length, Outcome, ok, panic,
}
use rsfu.Prelude.Int.{ℤ, pos, negsuc, ◌*ℤ◌, ltb_ℤ}
use rsfu.Prelude.Texts.{same}

pub record AudioStream : Type 0 where
  pub id : String
  pub sum : ℕ
  pub total : ℕ

pub record AudioObserver : Type 0 where
  pub streams : List AudioStream
  pub expected : ℤ
  pub threshold : ℕ
  pub previous : List String

-- The product of two `i32` wraps, and a division rounds towards 0.
abbrev pub wrap_word : ℕ → ℤ
wrap_word w = if ltb w (2 ^ 31) then pos w else negsuc (2 ^ 32 - w - 1)

abbrev pub wrap_i32 : ℤ → ℤ
wrap_i32 (pos n) = wrap_word (n % 2 ^ 32)
wrap_i32 (negsuc n) = wrap_word (2 ^ 32 - 1 - n % 2 ^ 32)

abbrev pub div_i32 : ℤ → ℕ → ℤ
div_i32 (pos n) d = pos (n / d)
div_i32 (negsuc n) d = let q = suc n / d in if q == 0 then pos 0 else negsuc (q - 1)

abbrev pub clamp_filter : ℤ → ℕ
clamp_filter (pos n) = if ltb 100 n then 100 else n
clamp_filter (negsuc n) = 0

-- A word's place in the order of the `i32`s.
abbrev pub rank : ℕ → ℕ
rank w = (w + 2 ^ 31) % 2 ^ 32

unfoldable pub new : ℕ → ℤ → ℤ → AudioObserver
unfolding ◌*ℤ◌
new threshold interval filter = record {
  streams = [];
  expected = div_i32 (wrap_i32 (interval *ℤ pos (clamp_filter filter))) 2000;
  threshold = if ltb 127 threshold then 127 else threshold;
  previous = [];
}

unfoldable pub add_stream : AudioObserver → String → AudioObserver
add_stream o id = record o { streams = o.streams ++ record { id = id; sum = 0; total = 0 } ∷ [] }

unfoldable pub remove_from : List AudioStream → String → List AudioStream
remove_from [] id = []
remove_from (s ∷ ss) id = let rest = remove_from ss id in if same s.id id then rest else s ∷ rest

unfoldable pub remove_stream : AudioObserver → String → AudioObserver
remove_stream o id = record o { streams = remove_from o.streams id }

-- A level counts where it is at most the threshold: levels are in -dBov, so less is louder.
unfoldable pub heard : ℕ → AudioStream → ℕ → AudioStream
heard threshold s d_bov =
    if leb d_bov threshold
    then record s { sum = (s.sum + d_bov) % 2 ^ 32; total = (s.total + 1) % 2 ^ 32 }
    else s

unfoldable pub observe_in : ℕ → List AudioStream → String → ℕ → List AudioStream
observe_in threshold [] id d_bov = []
observe_in threshold (s ∷ ss) id d_bov =
    let rest = observe_in threshold ss id d_bov in
    if same s.id id then heard threshold s d_bov ∷ ss else s ∷ rest

unfoldable pub observe : AudioObserver → String → ℕ → AudioObserver
observe o id d_bov = record o { streams = observe_in o.threshold o.streams id d_bov }

-- `sort_by` is stable; its comparison says `Greater` where `after` is true.
unfoldable pub after : AudioStream → AudioStream → Bool
after a b =
    if rank b.total == rank a.total
    then ltb (rank a.sum) (rank b.sum)
    else ltb (rank a.total) (rank b.total)

unfoldable pub insert : AudioStream → List AudioStream → List AudioStream
insert s [] = s ∷ []
insert s (t ∷ ts) = let rest = insert s ts in if after s t then t ∷ rest else s ∷ t ∷ ts

unfoldable pub sort : List AudioStream → List AudioStream
sort [] = []
sort (s ∷ ss) = insert s (sort ss)

unfoldable pub active : ℤ → List AudioStream → List String
active expected [] = []
active expected (s ∷ ss) =
    let rest = active expected ss in
    if ltb_ℤ (wrap_word s.total) expected then rest else s.id ∷ rest

abbrev pub reset : AudioStream → AudioStream
reset s = record s { sum = 0; total = 0 }

-- The loop that compares index by index; `none` is an index out of range.
unfoldable pub differ : List String → List String → Option Bool
differ [] ids = some false
differ (p ∷ ps) [] = none
differ (p ∷ ps) (id ∷ ids) = let rest = differ ps ids in if same p id then rest else some true

unfoldable pub calc : AudioObserver → AudioObserver × Outcome (Option (List String))
calc o =
    let sorted = sort o.streams in
    let ids = active o.expected sorted in
    let o' = record o { streams = map reset sorted } in
    if length o.previous == length ids
    then (elim (differ o.previous ids) [
      | none ↦ (o', panic)
      | some true ↦ (record o' { previous = ids }, ok (some ids))
      | some false ↦ (o', ok none)
    ])
    else (record o' { previous = ids }, ok (some ids))
