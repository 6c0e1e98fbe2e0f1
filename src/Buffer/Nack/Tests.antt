-- ===== src/Buffer/Nack/Tests.antt =====
-- The unit tests of rsfu/src/buffer/nack.rs and nack_test.rs, and the theorems on the queue at
-- concrete inputs.
use rsfu.Prelude.{◌≡◌, refl, ℕ, ◌+◌, ◌≤◌, some, List, [], ◌∷◌, arith}
use rsfu.Buffer.Nack.{
  NackQueue, NackPair, new, push, remove, pairs, scan, visit, pack, flush, search_by_key, insert_at,
  remove_at,
}
use rsfu.Buffer.Nack.Queue.{IsSorted}
use rsfu.Buffer.Nack.Limit.{times_listed, times_listed-le}
use rsfu.Buffer.Nack.Pairs.{packet_lists, pairs-packet_lists}

push_all : NackQueue → List ℕ → NackQueue
push_all q [] = q
push_all q (sn ∷ sns) = push_all (push q sn) sns

two_pairs :
    (pairs (push_all new (1 ∷ 2 ∷ 4 ∷ 5 ∷ 20 ∷ 22 ∷ 24 ∷ 27 ∷ [])) 30).1
    ≡ some (
        record { packet_id = 1; lost_packets = 13 }
        ∷ record { packet_id = 20; lost_packets = 74 }
        ∷ [])
unfolding push_all push pairs scan visit pack flush search_by_key insert_at
two_pairs = refl

removed : (remove (push_all new (3 ∷ 4 ∷ 2 ∷ 36 ∷ [])) 4).0 ≡ push_all new (2 ∷ 3 ∷ 36 ∷ [])
unfolding push_all push remove search_by_key insert_at remove_at
removed = refl

-- 3 has been asked for twice, 5 three times, and 40 not at all.
abbrev waiting : NackQueue
waiting = record {
  nacks =
      record { seq_number = 3; nackd = 2 }
      ∷ record { seq_number = 5; nackd = 3 }
      ∷ record { seq_number = 40; nackd = 0 }
      ∷ [];
  key_frame_seq_number = 4;
}

waiting-IsSorted : IsSorted waiting
waiting-IsSorted = omega arith

times_listed-le_example : times_listed waiting (30 ∷ 31 ∷ 32 ∷ []) 3 + 2 ≤ 3
times_listed-le_example =
    times_listed-le waiting (30 ∷ 31 ∷ 32 ∷ []) 0 3 waiting-IsSorted (omega arith) (omega arith)

pairs-packet_lists_example :
    (nps : List NackPair) × ((pairs waiting 50).1 ≡ some nps) × (packet_lists nps ≡ 3 ∷ 40 ∷ [])
pairs-packet_lists_example =
    pairs-packet_lists waiting 50 0 waiting-IsSorted (λ e. cc) (omega arith)
