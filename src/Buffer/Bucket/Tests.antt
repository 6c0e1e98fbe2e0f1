-- ===== src/Buffer/Bucket/Tests.antt =====
-- The unit tests of rsfu/src/buffer/bucket_test.rs on shorter packets, and the theorems on buckets
-- at concrete inputs.
use rsfu.Prelude.{
  ◌≡◌, refl, ℕ, true, false, some, none, List, [], ◌∷◌, ok, err, err_rtx_packet, arith, replicate,
  length-replicate,
}
use rsfu.Prelude.Int.{pos, ◌+ℤ◌, ◌-ℤ◌}
use rsfu.Buffer.Bucket.{
  Bucket, new, add_packet, get, push, set, distance, skip, read_slot, write_slot,
}
use rsfu.Buffer.Bucket.Slots.{IsValid}
use rsfu.Buffer.Bucket.Window.{distance_lem}
use rsfu.Buffer.Bucket.InOrder.{add_all, recent, add_all-get}
use rsfu.Buffer.Bucket.Late.{skip_lem}

abbrev pkt : ℕ → List ℕ
pkt n = 128 ∷ 0 ∷ 0 ∷ n ∷ 7 ∷ []

abbrev filled : Bucket
unfolding new add_packet push distance skip ◌+ℤ◌ ◌-ℤ◌
filled =
    let b = (add_packet (new 6000) (pkt 1) 1 true).0 in
    (add_packet (add_packet b (pkt 3) 3 true).0 (pkt 4) 4 true).0

get-filled : get filled 3 ≡ ok (some (pkt 3))
unfolding get read_slot filled new add_packet push distance skip ◌+ℤ◌ ◌-ℤ◌
get-filled = refl

get-filled_missing : get filled 2 ≡ ok none
unfolding get read_slot filled new add_packet push distance skip ◌+ℤ◌ ◌-ℤ◌
get-filled_missing = refl

filled_rtx :
    (add_packet (add_packet filled (pkt 2) 2 false).0 (pkt 2) 2 false).1 ≡ err err_rtx_packet
unfolding set write_slot filled new add_packet push distance skip ◌+ℤ◌ ◌-ℤ◌
filled_rtx = refl

-- 65533, 65534, 65535, 0, 1, 2
distance_example : distance 2 65534 ≡ 4
distance_example = distance_lem 2 65534 (omega arith) (omega arith)

add_all-get_example : get (add_all (new 3000) 5 (pkt 5 ∷ pkt 6 ∷ pkt 7 ∷ [])) 6 ≡ ok (some (pkt 6))
unfolding recent
add_all-get_example =
    add_all-get 3000 5 1 (pkt 5) (pkt 6) (pkt 6 ∷ pkt 7 ∷ []) (omega arith) (omega arith)
      (omega arith)
      (
        (omega arith, omega arith, refl),
        ((omega arith, omega arith, refl), ((omega arith, omega arith, refl), tt)),
      )
      refl

-- Three slots, of which two are written; 7 is the newest.
abbrev two_in : Bucket
two_in = record {
  buf = replicate 4500 0;
  init = true;
  step = pos 2;
  head_sn = 7;
  max_steps = pos 2;
}

skip_example : skip 7 (pos 5) (pos 4) ≡ pos 1
skip_example = skip_lem 7 5 4 (omega arith)

abbrev one_left : Bucket
one_left = record two_in { step = pos 1 }

one_left-IsValid : IsValid one_left 2 1
one_left-IsValid = record {
  last = refl;
  next = refl;
  within = omega arith;
  room = omega (arith, length-replicate {A = ℕ} 4500 0);
  small = omega arith;
  head = omega arith;
}
