-- ===== src/Sfu/Sequencer.antt =====
-- rsfu/src/sfu/sequencer.rs: what a subscriber's track has sent, so that a packet that is asked for
-- again can be found. The clock is an argument, and the map from steps to packets a function.
pub mod Meta
pub mod Resend
pub mod Late
mod Tests
use rsfu.Prelude.{
  ℕ, zero, suc, ◌+◌, ◌-◌, ◌*◌, ◌/◌, ◌%◌, ◌^◌, Bool, true, false, not, ◌&&◌, ◌||◌, Option, none,
  some, List, [], ◌∷◌, ◌++◌, ltb, leb, ◌==◌, if◌then◌else◌, bit_or, Outcome, ok, panic, ◌>>=◌,
}
use rsfu.Prelude.Int.{ℤ, pos, negsuc, ◌+ℤ◌, ◌-ℤ◌, ltb_ℤ, pos_part, neg_part}

abbrev pub ignore_retransmission : ℕ
ignore_retransmission = 100

pub record PacketMeta : Type 0 where
  pub source_seq_no : ℕ
  pub target_seq_no : ℕ
  pub timestamp : ℕ
  pub last_nack : ℕ
  pub layer : ℕ
  pub misc : ℕ

unfoldable pub set_vp8_payload_meta : PacketMeta → ℕ → ℕ → PacketMeta
set_vp8_payload_meta m tlz0_idx pic_id = record m {
  misc = bit_or (tlz0_idx * 2 ^ 16 % 2 ^ 32) pic_id;
}

unfoldable pub get_vp8_payload_meta : PacketMeta → ℕ × ℕ
get_vp8_payload_meta m = (m.misc / 2 ^ 16 % 2 ^ 8, m.misc % 2 ^ 16)

pub record Sequencer : Type 0 where
  pub init : Bool
  pub max : ℤ
  pub seq : ℤ → Option PacketMeta
  pub step : ℤ
  pub head_sn : ℕ
  pub start_time : ℕ

unfoldable pub new : ℤ → ℕ → Sequencer
new max_track now = record {
  init = false;
  max = max_track;
  seq = λ _. none;
  step = pos 0;
  head_sn = 0;
  start_time = now;
}

abbrev pub same_step : ℤ → ℤ → Bool
same_step a b = pos_part a == pos_part b && neg_part a == neg_part b

unfoldable pub insert : (ℤ → Option PacketMeta) → ℤ → PacketMeta → ℤ → Option PacketMeta
insert seq step m k = if same_step k step then some m else seq k

unfoldable pub next_step : ℤ → ℤ → ℤ
unfolding ◌+ℤ◌
next_step max step = let s = step +ℤ pos 1 in if ltb_ℤ s max then s else pos 0

-- The rounds of `for _i in 1..inc`.
unfoldable pub skip : ℕ → ℤ → ℤ → ℤ
skip zero max step = step
skip (suc n) max step = skip n max (next_step max step)

-- The differences of `u16` and `u128` wrap.
abbrev pub sub_u16 : ℕ → ℕ → ℕ
sub_u16 a b = (a + 2 ^ 16 - b) % 2 ^ 16

abbrev pub sub_u128 : ℕ → ℕ → ℕ
sub_u128 a b = (a + 2 ^ 128 - b) % 2 ^ 128

unfoldable pub started : Sequencer → ℕ → Sequencer
started s off_sn = if s.init then s else record s { head_sn = off_sn; init = true }

unfoldable pub too_old : Sequencer → ℤ → Bool
unfolding ◌-ℤ◌
too_old s step = ltb_ℤ step (pos 0) && not (ltb_ℤ (pos 0 -ℤ step) s.max)

-- The end of `push`: the packet goes to the current step, and the step moves on.
unfoldable pub stored : Sequencer → PacketMeta → Sequencer × Option PacketMeta
stored s m =
    let next = next_step s.max s.step in
    let seq = insert s.seq s.step m in (record s { seq = seq; step = next }, seq next)

-- The step of a packet that is not at the head is computed for the test alone.
unfoldable pub push : Sequencer → ℕ → ℕ → ℕ → ℕ → Bool → Sequencer × Option PacketMeta
unfolding ◌-ℤ◌
push s sn off_sn timestamp layer head =
    let s = started s off_sn in
    let m : PacketMeta = record {
      source_seq_no = sn;
      target_seq_no = off_sn;
      timestamp = timestamp;
      last_nack = 0;
      layer = layer;
      misc = 0;
    } in
    if head
    then stored
        (record s { step = skip (sub_u16 off_sn s.head_sn - 1) s.max s.step; head_sn = off_sn }) m
    else if too_old s (s.step -ℤ pos (sub_u16 s.head_sn off_sn))
    then (s, none)
    else stored s m

-- The packet at a step, if it is the one asked for and was not sent again a short time ago. `unwrap`
-- panics where the step holds nothing.
unfoldable pub take_at : Sequencer → ℕ → ℕ → ℤ → Outcome (Sequencer × List PacketMeta)
take_at s ref_time sn step = elim (s.seq step) [
  | none ↦ panic
  | some m ↦
      if m.target_seq_no == sn
        && (m.last_nack == 0 || ltb ignore_retransmission (sub_u128 ref_time m.last_nack))
      then (let m' = record m { last_nack = ref_time } in
          ok (record s { seq = insert s.seq step m' }, m' ∷ []))
      else ok (s, [])
]

-- One round of the loop over the numbers that are asked for.
unfoldable pub find : Sequencer → ℕ → ℕ → Outcome (Sequencer × List PacketMeta)
unfolding ◌-ℤ◌ ◌+ℤ◌
find s ref_time sn =
    let step = s.step -ℤ pos (sub_u16 s.head_sn sn) -ℤ pos 1 in
    if ltb_ℤ step (pos 0)
    then (if too_old s step then ok (s, []) else take_at s ref_time sn (step +ℤ s.max))
    else take_at s ref_time sn step

unfoldable pub find_all : Sequencer → ℕ → List ℕ → Outcome (Sequencer × List PacketMeta)
find_all s ref_time [] = ok (s, [])
find_all s ref_time (sn ∷ sns) =
    find s ref_time sn >>= λ r. find_all r.0 ref_time sns >>= λ r'. ok (r'.0, r.1 ++ r'.1)

unfoldable pub get_seq_no_pairs : Sequencer → ℕ → List ℕ → Outcome (Sequencer × List PacketMeta)
get_seq_no_pairs s now seq_nos = find_all s (sub_u128 now s.start_time) seq_nos
