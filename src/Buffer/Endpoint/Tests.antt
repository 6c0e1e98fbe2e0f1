-- ===== src/Buffer/Endpoint/Tests.antt =====
-- A video codec, packets of two bytes more than a header, and the theorems at them.
use rsfu.Prelude.{ℕ, ◌+◌, ◌%◌, ◌≡◌, refl, true, false, none, some, List, [], ◌∷◌, arith, ok}
use rsfu.Prelude.Int.{pos}
use rsfu.Buffer.Vp8
use rsfu.Buffer.Bucket.{Bucket, get}
use rsfu.Buffer.Bucket.Window.{sn_back}
use rsfu.Rtp.{RtpCrate, default_packet}
use rsfu.Buffer.State.{Buffer, ExtPacket, new}
use rsfu.Buffer.Feedback.{Floats}
use rsfu.Buffer.Calc.Arrivals.{calc_all}
use rsfu.Prelude.{done}
use rsfu.Buffer.Endpoint.{WebrtcNames, CodecParameters, bind}
use rsfu.Buffer.Endpoint.Binding.{bind-calc_all}
use rsfu.Buffer.Endpoint.Queue.{read_many, read_many_lem}

abbrev rtp : RtpCrate
rtp = record {
  unmarshal = λ _. some default_packet;
  get_extension = λ _ _. none;
  audio_level = λ _. none;
}

-- Whole numbers in the place of floating point ones.
abbrev whole : Floats ℕ
whole = record {
  transit = λ _ _ _. 0;
  as_u32 = λ n. n;
  next_jitter = λ j _ _. j;
  loss = λ _ _. 0;
  is_low = λ _. false;
  is_high = λ _. false;
  raised = λ n. n;
  lowered = λ n _. n;
}

abbrev names : WebrtcNames
names = record {
  transport_cc_uri = "transport-wide-cc";
  audio_level_uri = "audio-level";
  goog_remb = "goog-remb";
  transport_cc = "transport-cc";
  nack = "nack";
  to_lowercase = λ s. s;
}

abbrev codec : CodecParameters
codec = record { mime_type = "video/vp9"; clock_rate = 90000; rtcp_feedback = "nack" ∷ [] }

abbrev packet_of : ℕ → List ℕ
packet_of sn = 128 ∷ 96 ∷ 0 ∷ sn ∷ 0 ∷ 0 ∷ 0 ∷ 0 ∷ 0 ∷ 0 ∷ 0 ∷ 0 ∷ 1 ∷ 2 ∷ []

bind-calc_all_example :
    (b b' : Buffer ℕ) × (bk : Bucket) × (bind rtp whole names (new 0 7) codec [] 1000
      ≡ done (ok (b, [])))
    × (calc_all rtp whole b ((packet_of 9, pos 1) ∷ (packet_of 10, pos 2) ∷ []) ≡ ok b')
    × (b'.bucket ≡ some bk)
    × (get bk (sn_back ((9 + 1) % 65536) 1) ≡ ok (some (packet_of 9)))
unfolding rsfu.Buffer.Bucket.InOrder.recent
bind-calc_all_example =
    bind-calc_all rtp whole names 0 7 codec [] 1000 9 1 (packet_of 9) (packet_of 9) (pos 1)
      ((packet_of 10, pos 2) ∷ []) refl refl (omega arith)
      ((omega arith, omega arith, refl), ((omega arith, omega arith, refl), tt)) refl

abbrev item : ℕ → ExtPacket
item n = record {
  head = true;
  cycle = n;
  arrival = pos 0;
  packet = default_packet;
  key_frame = false;
  payload = Vp8.default;
}

abbrev one_there : Buffer ℕ
one_there = record (new 0 7) { ext_packets = item 0 ∷ [] }

-- One packet is there, and two more come while the second call sleeps.
read_many_lem_example :
    read_many 2 one_there ([] ∷ (item 1 ∷ item 2 ∷ []) ∷ []) ≡ item 0 ∷ item 1 ∷ []
unfolding new
read_many_lem_example =
    read_many_lem 2 one_there ([] ∷ (item 1 ∷ item 2 ∷ []) ∷ []) refl (omega arith)
