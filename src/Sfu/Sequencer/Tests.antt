-- ===== src/Sfu/Sequencer/Tests.antt =====
-- Sequencers with eight steps, and the theorems at them.
use rsfu.Prelude.{true, none}
use rsfu.Prelude.Int.{pos}
use rsfu.Sfu.Sequencer.{PacketMeta, Sequencer}

abbrev sent : PacketMeta
sent = record {
  source_seq_no = 7;
  target_seq_no = 10;
  timestamp = 3000;
  last_nack = 0;
  layer = 1;
  misc = 0;
}

-- The packet on the last step: the next one goes to the start.
abbrev full : Sequencer
full = record {
  init = true;
  max = pos 8;
  seq = λ _. none;
  step = pos 7;
  head_sn = 10;
  start_time = 1000;
}
