-- ===== src/Sfu/AudioObserver/Tests.antt =====
-- An observer of two streams, and the theorems at it.
use rsfu.Prelude.{ℕ, ◌≡◌, refl, none, some, List, [], ◌∷◌, String, arith, ap}
use rsfu.Prelude.Int.{pos}
use rsfu.Prelude.Texts.{same}
use rsfu.Sfu.AudioObserver.{AudioObserver, remove_stream}
use rsfu.Sfu.AudioObserver.Observe.{tally, observe_all, observe_all_lem}

abbrev room : AudioObserver
room = record {
  streams =
      record { id = "a"; sum = 10; total = 1 } ∷ record { id = "b"; sum = 50; total = 3 } ∷ [];
  expected = pos 2;
  threshold = 40;
  previous = [];
}

abbrev levels : List (String × ℕ)
levels = ("a", 30) ∷ ("b", 20) ∷ ("a", 41) ∷ ("a", 40) ∷ []

observe_all_example :
    (tally "a" (observe_all room levels).streams ≡ some (80, 3))
    × (tally "a" (remove_stream (observe_all room levels) "a").streams ≡ none)
    × (tally "b" (remove_stream (observe_all room levels) "a").streams
        ≡ tally "b" (observe_all room levels).streams)
unfolding same
observe_all_example =
    observe_all_lem room levels "a" "b" 10 1 (omega arith) (omega arith) refl
      (λ e. ground (arith, ap (same "a") e))
