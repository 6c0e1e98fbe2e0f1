-- ===== src/Buffer/State/Tests.antt =====
-- Buffers whose head is packet 100 of cycle 1, and the theorems at them.
use rsfu.Prelude.{ℕ, ◌≡◌, inl, refl, true, some, [], ◌∷◌, arith}
use rsfu.Prelude.Int.{pos}
use rsfu.Buffer.Nack.{NackQueue}
use rsfu.Buffer.Nack.Queue.{IsSorted}
use rsfu.Buffer.State.{Buffer, new, note_sequence}
use rsfu.Buffer.State.Gaps.{Asks, note_sequence-Asks}

abbrev waiting : NackQueue
waiting = record { nacks = record { seq_number = 65590; nackd = 2 } ∷ []; key_frame_seq_number = 0 }

abbrev at_hundred : Buffer ℕ
at_hundred = record (new 0 7) {
  nacker = some waiting;
  nack = true;
  stats = record (new 0 7).stats { packet_count = 1 };
  max_seq_no = 100;
  cycles = 65536;
}

-- Packet 104 comes: 101, 102 and 103 are missing.
note_sequence-Asks_example :
    let b' = note_sequence at_hundred 104 (pos 0) in
    (b'.max_seq_no ≡ 104)
    × (b'.cycles ≡ 65536)
    × ((q' : NackQueue) × (b'.nacker ≡ some q') × IsSorted q' × Asks waiting q' 65636 65640)
note_sequence-Asks_example =
    note_sequence-Asks at_hundred 1 4 waiting (pos 0) refl refl (omega arith) refl (omega arith)
      (omega arith, tt) (omega arith) (omega arith) (inl (omega arith))
