-- ===== src/Sfu/Sequencer/Resend.antt =====
-- A packet at the head can be asked for again as soon as it was pushed.
use rsfu.Prelude.{
  ℕ, zero, suc, ◌+◌, ◌-◌, ◌≤◌, ◌<◌, ◌≡◌, ◌⊎◌, inl, inr, refl, ap, ap₂, ◌∙◌, true, false, not,
  Option, some, [], ◌∷◌, arith, ◌==◌, ok, Bool-cases,
}
use rsfu.Prelude.Int.{ℤ, pos, negsuc, ◌+ℤ◌, ◌-ℤ◌, ltb_ℤ}
use rsfu.Sfu.Sequencer.{
  PacketMeta, Sequencer, insert, next_step, skip, sub_u16, sub_u128, started, too_old, stored, push,
  take_at, find, find_all, get_seq_no_pairs,
}

-- Where a step goes: one on, or back to the start.
next_step_cases :
    (n p : ℕ)
    → p < n
    → ((p + 1 < n) × (next_step (pos n) (pos p) ≡ pos (p + 1)))
      ⊎ ((p + 1 ≡ n) × (next_step (pos n) (pos p) ≡ pos 0))
unfolding next_step ◌+ℤ◌
next_step_cases n p h = ground arith

skip_in_range : (k n p : ℕ) → p < n → (q : ℕ) × (skip k (pos n) (pos p) ≡ pos q) × (q < n)
unfolding skip
skip_in_range zero n p h = (p, refl, h)
skip_in_range (suc k) n p h = elim (next_step_cases n p h) [
  | inl (l, e) ↦ rw (e, skip) (skip_in_range k n (p + 1) l)
  | inr (_, e) ↦ rw (e, skip) (skip_in_range k n 0 (omega arith))
]

take_at_fresh :
    (s : Sequencer) (ref_time sn : ℕ) (step : ℤ) (m : PacketMeta)
    → s.seq step ≡ some m
    → m.target_seq_no ≡ sn
    → m.last_nack ≡ 0
    → (s' : Sequencer) × (take_at s ref_time sn step
        ≡ ok (s', record m { last_nack = ref_time } ∷ []))
unfolding take_at
take_at_fresh s ref_time sn step m held target fresh =
    let t : (m.target_seq_no == sn) ≡ true = ground arith in
    let f : (m.last_nack == 0) ≡ true = ground arith in
    (
      record s { seq = insert s.seq step (record m { last_nack = ref_time }) },
      rw (held, t, f, take_at),
    )

back_one : (q : ℕ) → pos (q + 1) -ℤ pos 0 -ℤ pos 1 ≡ pos q
unfolding ◌-ℤ◌
back_one q = ground arith

back_over : (n q : ℕ) → q + 1 ≡ n → negsuc 0 +ℤ pos n ≡ pos q
unfolding ◌+ℤ◌
back_over n q e = ground arith

too_old_before_start :
    (s : Sequencer) (n : ℕ) → 2 ≤ n → s.max ≡ pos n → too_old s (negsuc 0) ≡ false
unfolding too_old ◌-ℤ◌
too_old_before_start s n two max =
    let more : ltb_ℤ (pos 1) (pos n) ≡ true = ground arith in
    ap (λ m. not (ltb_ℤ (pos 1) m)) max ∙ ap not more

back_start : pos 0 -ℤ pos 0 -ℤ pos 1 ≡ negsuc 0
unfolding ◌-ℤ◌
back_start = refl

-- Where `find` looks for the number at the head.
pub find_at_head :
    (s : Sequencer) (ref_time n q : ℕ)
    → 2 ≤ n
    → q < n
    → s.max ≡ pos n
    → s.step ≡ next_step (pos n) (pos q)
    → find s ref_time s.head_sn ≡ take_at s ref_time s.head_sn (pos q)
unfolding find
find_at_head s ref_time n q two h max step =
    let near : sub_u16 s.head_sn s.head_sn ≡ 0 = omega arith in
    let back = ap (λ d. s.step -ℤ pos d -ℤ pos 1) near in
    elim (next_step_cases n q h) [
      | inl (_, e) ↦
          let here : s.step -ℤ pos (sub_u16 s.head_sn s.head_sn) -ℤ pos 1 ≡ pos q =
            back ∙ ap (λ t. t -ℤ pos 0 -ℤ pos 1) (step ∙ e) ∙ back_one q in
          let positive : ltb_ℤ (pos q) (pos 0) ≡ false = ground arith in rw (here, positive)
      | inr (l, e) ↦
          let before : s.step -ℤ pos (sub_u16 s.head_sn s.head_sn) -ℤ pos 1 ≡ negsuc 0 =
            back ∙ ap (λ t. t -ℤ pos 0 -ℤ pos 1) (step ∙ e) ∙ back_start in
          let over : negsuc 0 +ℤ s.max ≡ pos q = ap (λ m. negsuc 0 +ℤ m) max ∙ back_over n q l in
          rw (before, too_old_before_start s n two max, over)
    ]

pub insert_same :
    (seq : ℤ → Option PacketMeta) (q : ℕ) (m : PacketMeta) → insert seq (pos q) m (pos q) ≡ some m
unfolding insert
insert_same seq q m = ground arith

stored_found :
    (s : Sequencer) (m : PacketMeta) (now n q : ℕ)
    → 2 ≤ n
    → q < n
    → s.max ≡ pos n
    → s.step ≡ pos q
    → m.target_seq_no ≡ s.head_sn
    → m.last_nack ≡ 0
    → (s' : Sequencer) × (get_seq_no_pairs (stored s m).0 now (s.head_sn ∷ [])
        ≡ ok (s', record m { last_nack = sub_u128 now s.start_time } ∷ []))
unfolding stored get_seq_no_pairs find_all
stored_found s m now n q two h max step target fresh =
    let ref_time = sub_u128 now s.start_time in
    let after = (stored s m).0 in
    let moved : after.step ≡ next_step (pos n) (pos q) = rw (max, step) in
    let held : after.seq (pos q) ≡ some m =
      ap (λ t. insert s.seq t m (pos q)) step ∙ insert_same s.seq q m in
    let (s', taken) = take_at_fresh after ref_time s.head_sn (pos q) m held target fresh in
    let found = find_at_head after ref_time n q two h max moved ∙ taken in (s', rw found)

started_same :
    (s : Sequencer) (off_sn : ℕ)
    → ((started s off_sn).max ≡ s.max)
      × ((started s off_sn).step ≡ s.step)
      × ((started s off_sn).start_time ≡ s.start_time)
unfolding started
started_same s off_sn = elim (Bool-cases s.init) [
  | inl e ↦ (rw e, rw e, rw e)
  | inr e ↦ (rw e, rw e, rw e)
]

-- A packet that is pushed at the head, whatever was sent before and however far it lies ahead, is
-- found by the next `get_seq_no_pairs` that asks for its number, with all that it was pushed with;
-- where the sequencer has at least two steps and its step is one of them.
pub get_seq_no_pairs-push :
    (s : Sequencer) (sn off_sn timestamp layer now n p : ℕ)
    → 2 ≤ n
    → p < n
    → s.max ≡ pos n
    → s.step ≡ pos p
    → (s' : Sequencer) × (get_seq_no_pairs
          (push s sn off_sn timestamp layer true).0
          now
          (off_sn ∷ [])
        ≡ ok (
          s',
          record {
            source_seq_no = sn;
            target_seq_no = off_sn;
            timestamp = timestamp;
            last_nack = sub_u128 now s.start_time;
            layer = layer;
            misc = 0;
          }
              ∷ [],
        ))
unfolding push
get_seq_no_pairs-push s sn off_sn timestamp layer now n p two h max step =
    let (max', step', clock) = started_same s off_sn in
    let first = started s off_sn in
    let (q, at, h') = skip_in_range (sub_u16 off_sn first.head_sn - 1) n p h in
    let moved : skip (sub_u16 off_sn first.head_sn - 1) first.max first.step ≡ pos q =
      ap₂ (skip (sub_u16 off_sn first.head_sn - 1)) (max' ∙ max) (step' ∙ step) ∙ at in
    let m : PacketMeta = record {
      source_seq_no = sn;
      target_seq_no = off_sn;
      timestamp = timestamp;
      last_nack = 0;
      layer = layer;
      misc = 0;
    } in
    let (s', e) =
      stored_found
        (record first {
          step = skip (sub_u16 off_sn first.head_sn - 1) first.max first.step;
          head_sn = off_sn;
        })
        m now n q two h' (max' ∙ max) moved refl refl in
    (s', e ∙ ap (λ t. ok (s', record m { last_nack = sub_u128 now t } ∷ [])) clock)
