-- ===== src/Sfu/Sequencer/Late.antt =====
-- Numbers that the sequencer has not seen, and packets that come late.
use rsfu.Prelude.{
  ℕ, suc, ◌+◌, ◌≤◌, ◌<◌, ◌≡◌, ◌≢◌, refl, ap, ◌∙◌, true, false, not, none, some, List, [], ◌∷◌,
  arith, ◌==◌, if◌then◌else◌, ok, panic,
}
use rsfu.Prelude.Int.{ℤ, pos, negsuc, ◌-ℤ◌, ltb_ℤ}
use rsfu.Sfu.Sequencer.{
  PacketMeta, Sequencer, new, insert, next_step, sub_u16, sub_u128, started, too_old, stored, push,
  take_at, find, find_all, get_seq_no_pairs,
}
use rsfu.Sfu.Sequencer.Resend.{find_at_head, insert_same}

before_start : (d : ℕ) → pos 0 -ℤ pos d -ℤ pos 1 ≡ negsuc d
unfolding ◌-ℤ◌
before_start d = ground arith

negated : (d : ℕ) → pos 0 -ℤ negsuc d ≡ pos (suc d)
unfolding ◌-ℤ◌
negated d = ground arith

below : (d : ℕ) → ltb_ℤ (negsuc d) (pos 0) ≡ true
below d = ground arith

too_old_near : (s : Sequencer) (n d : ℕ) → d + 1 < n → s.max ≡ pos n → too_old s (negsuc d) ≡ false
unfolding too_old
too_old_near s n d h max =
    let more : ltb_ℤ (pos (suc d)) (pos n) ≡ true = ground arith in
    rw (below d, negated d) (ap (λ m. not (ltb_ℤ (pos (suc d)) m)) max ∙ ap not more)

-- Asking a fresh sequencer for a number less than its size behind 0 panics: `unwrap` of an empty step.
pub get_seq_no_pairs-new :
    (n start now sn : ℕ) (sns : List ℕ)
    → sub_u16 0 sn + 1 < n
    → get_seq_no_pairs (new (pos n) start) now (sn ∷ sns) ≡ panic
unfolding get_seq_no_pairs find_all find new take_at
get_seq_no_pairs-new n start now sn sns h = rw (
  before_start (sub_u16 0 sn),
  below (sub_u16 0 sn),
  too_old_near (new (pos n) start) n (sub_u16 0 sn) h refl,
)

take_at_other :
    (s : Sequencer) (ref_time sn : ℕ) (step : ℤ) (m : PacketMeta)
    → s.seq step ≡ some m
    → m.target_seq_no ≢ sn
    → take_at s ref_time sn step ≡ ok (s, [])
unfolding take_at
take_at_other s ref_time sn step m held other =
    let f : (m.target_seq_no == sn) ≡ false = ground arith in rw (held, f, take_at)

started-init : (s : Sequencer) (off_sn : ℕ) → s.init ≡ true → started s off_sn ≡ s
unfolding started
started-init s off_sn e = ap (λ b. if b then s else record s { head_sn = off_sn; init = true }) e

push_late :
    (s : Sequencer) (sn off_sn timestamp layer : ℕ)
    → s.init ≡ true
    → too_old s (s.step -ℤ pos (sub_u16 s.head_sn off_sn)) ≡ false
    → push s sn off_sn timestamp layer false
      ≡ stored s (record {
        source_seq_no = sn;
        target_seq_no = off_sn;
        timestamp = timestamp;
        last_nack = 0;
        layer = layer;
        misc = 0;
      })
unfolding push
push_late s sn off_sn timestamp layer begun near =
    let m : PacketMeta = record {
      source_seq_no = sn;
      target_seq_no = off_sn;
      timestamp = timestamp;
      last_nack = 0;
      layer = layer;
      misc = 0;
    } in
    ap (λ t. if too_old t (t.step -ℤ pos (sub_u16 t.head_sn off_sn)) then (t, none) else stored t m)
      (started-init s off_sn begun)
    ∙ rw near

-- A packet that is pushed late, not too late to be taken, lands on the step where the next packet at
-- the head belongs. So the packet at the head is not found any more where it stands: asking for its
-- number gives nothing, and changes nothing.
pub get_seq_no_pairs_late :
    (s : Sequencer) (sn off_sn timestamp layer now n p : ℕ)
    → 2 ≤ n
    → p < n
    → s.init ≡ true
    → s.max ≡ pos n
    → s.step ≡ pos p
    → too_old s (s.step -ℤ pos (sub_u16 s.head_sn off_sn)) ≡ false
    → off_sn ≢ s.head_sn
    → let s' = (push s sn off_sn timestamp layer false).0 in
      get_seq_no_pairs s' now (s.head_sn ∷ []) ≡ ok (s', [])
unfolding stored get_seq_no_pairs find_all
get_seq_no_pairs_late s sn off_sn timestamp layer now n p two h begun max step near other =
    let m : PacketMeta = record {
      source_seq_no = sn;
      target_seq_no = off_sn;
      timestamp = timestamp;
      last_nack = 0;
      layer = layer;
      misc = 0;
    } in
    let after = (stored s m).0 in
    let moved : after.step ≡ next_step (pos n) (pos p) = rw (max, step) in
    let held : after.seq (pos p) ≡ some m =
      ap (λ t. insert s.seq t m (pos p)) step ∙ insert_same s.seq p m in
    let ref_time = sub_u128 now s.start_time in
    let found =
      find_at_head after ref_time n p two h max moved
      ∙ take_at_other after ref_time s.head_sn (pos p) m held other in
    let asked : get_seq_no_pairs after now (s.head_sn ∷ []) ≡ ok (after, []) = rw found in
    rw (push_late s sn off_sn timestamp layer begun near) asked
