-- ===== src/Buffer/Factory/Tests.antt =====
-- The theorem at a new factory.
use rsfu.Prelude.{ℕ, [], ◌∷◌, ◌≡◌, ◌↔◌, arith}
use rsfu.Prelude.Maps.{lookup, number_key}
use rsfu.Buffer.Factory
use rsfu.Buffer.Factory.{Factory, get_or_new_buffer}
use rsfu.Buffer.Factory.Sharing.{IsSound, request_all, get_or_new_buffer-request_all}

abbrev factory : Factory
factory = Factory.new 100 100

new-IsSound : IsSound factory
unfolding lookup
new-IsSound = record {
  below = λ ssrc b h. ground (arith, h);
  apart = λ s s' b h h'. ground (arith, h);
}

abbrev stream : ℕ
stream = 7

get_or_new_buffer-request_all_example :
    ((get_or_new_buffer factory stream).0
      ≡ (get_or_new_buffer
          (request_all (get_or_new_buffer factory stream).1 (8 ∷ 9 ∷ []))
          stream).0)
    ↔ (stream ≡ stream)
get_or_new_buffer-request_all_example =
    get_or_new_buffer-request_all factory stream stream (8 ∷ 9 ∷ []) new-IsSound
