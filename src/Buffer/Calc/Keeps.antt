-- ===== src/Buffer/Calc/Keeps.antt =====
-- What `calc` leaves alone behind the bucket, and that it always returns there.
use rsfu.Prelude.{
  ℕ, ◌≡◌, ◌⊎◌, inl, inr, refl, ap, ◌∙◌, Option, none, some, List, [], ◌||◌, ◌>>=◌, ltb, ◌==◌,
  Outcome, ok, Error, Bool-cases, Option-cases,
}
use rsfu.Prelude.Int.{ℤ, pos, ◌-ℤ◌, ltb_ℤ}
use rsfu.Sfu.Timestamps.{is_later_timestamp}
use rsfu.Prelude.Texts.{same}
use rsfu.Buffer.Bucket.{Bucket, add_packet}
use rsfu.Buffer.Vp8
use rsfu.Buffer.Vp8.{Vp8, Run, done, failed, panicked}
use rsfu.Buffer.Vp8.Safety.{Ends, unmarshal-Ends}
use rsfu.Buffer.H264.Safety.{is_h264_keyframe-total}
use rsfu.Rtp.{Packet, RtpCrate}
use rsfu.Buffer.State.{Buffer, ExtPacket, note_sequence}
use rsfu.Buffer.Feedback.{Floats, build_nack_packet}
use rsfu.Buffer.Calc.{
  Event, is_zero_ℤ, report_delta, put, kept, digest, proceed, count, extend, probe, enqueue,
  note_timestamp, note_jitter, ask, measure, finish, calc_sn,
}

unmarshal_returns :
    (payload : List ℕ)
    → ((v : Vp8) × (Vp8.unmarshal payload Vp8.default ≡ done tt v))
      ⊎ ((e : Error) × (v : Vp8) × (Vp8.unmarshal payload Vp8.default ≡ failed e v))
unmarshal_returns payload = elim (unmarshal-Ends payload) [
  | inl (_, e) ↦ inr (_, _, e)
  | inr ends ↦ split (Vp8.unmarshal payload Vp8.default) ends
]
  where
    split :
        (r : Run (Unit {0}))
        → Ends (λ _. Unit {0}) payload r
        → ((v : Vp8) × (r ≡ done tt v)) ⊎ ((e : Error) × (v : Vp8) × (r ≡ failed e v))
    split (done tt v) h = inl (v, refl)
    split (failed e v) h = inr (e, v, refl)
    split (panicked v) h = absurd h

-- The fields that no step behind the bucket writes.
pub record Keeps {F : Type 0} (b b' : Buffer F) : Type 0 where
  pub bucket : b'.bucket ≡ b.bucket
  pub max_seq_no : b'.max_seq_no ≡ b.max_seq_no
  pub cycles : b'.cycles ≡ b.cycles
  pub mime : b'.mime ≡ b.mime
  pub nack : b'.nack ≡ b.nack

module _ {F : Type 0} where
  Keeps-trans : (b b' b'' : Buffer F) → Keeps b b' → Keeps b' b'' → Keeps b b''
  Keeps-trans b b' b'' h k = record {
    bucket = k.bucket ∙ h.bucket;
    max_seq_no = k.max_seq_no ∙ h.max_seq_no;
    cycles = k.cycles ∙ h.cycles;
    mime = k.mime ∙ h.mime;
    nack = k.nack ∙ h.nack;
  }

  Keeps-refl : (b : Buffer F) → Keeps b b
  Keeps-refl b = record {
    bucket = refl;
    max_seq_no = refl;
    cycles = refl;
    mime = refl;
    nack = refl;
  }

  build_nack_packet-Keeps : (b : Buffer F) → Keeps b (build_nack_packet b).0
  unfolding build_nack_packet
  build_nack_packet-Keeps b = elim (Option-cases b.nacker) [
    | inl e ↦ rw e (Keeps-refl (record b { nacker = none }))
    | inr (q, e) ↦
        rw e (record { bucket = refl; max_seq_no = refl; cycles = refl; mime = refl; nack = refl })
  ]

  module _ (rtp : RtpCrate) (f : Floats F) where
    extend-ok :
        (b : Buffer F) (sn : ℕ) (packet : Packet) (arrival : ℤ)
        → (e : Option ExtPacket) × (extend rtp f b sn packet arrival ≡ ok e)
    unfolding extend
    extend-ok b sn packet arrival = elim (Bool-cases (same b.mime "video/vp8")) [
      | inl vp8 ↦ elim (unmarshal_returns packet.payload) [
        | inl (v, e) ↦ rw (vp8, e) (_, refl)
        | inr (_, _, e) ↦ rw (vp8, e) (_, refl)
      ]
      | inr other ↦ elim (Bool-cases (same b.mime "video/h264")) [
        | inl h264 ↦
            let (key, e) = is_h264_keyframe-total packet.payload in rw (other, h264, e) (_, refl)
        | inr none_of ↦ rw (other, none_of) (_, refl)
      ]
    ]

    probe-Keeps : (b : Buffer F) (sn : ℕ) (ep : ExtPacket) → Keeps b (probe rtp f b sn ep)
    unfolding probe
    probe-Keeps b sn ep = elim (Bool-cases (ltb b.min_packet_probe 25)) [
      | inl e ↦
          rw e
            (record { bucket = refl; max_seq_no = refl; cycles = refl; mime = refl; nack = refl })
      | inr e ↦ rw e (Keeps-refl b)
    ]

    note_timestamp-Keeps :
        (b : Buffer F) (packet : Packet) (arrival : ℤ)
        → Keeps b (note_timestamp rtp f b packet arrival)
    unfolding note_timestamp
    note_timestamp-Keeps b packet arrival =
        elim (Bool-cases (
          is_zero_ℤ b.latest_timestamp_time
          || is_later_timestamp packet.header.timestamp b.latest_timestamp)) [
            | inl e ↦ rw e (record {
              bucket = refl;
              max_seq_no = refl;
              cycles = refl;
              mime = refl;
              nack = refl;
            })
            | inr e ↦ rw e (Keeps-refl b)
          ]

    measure-Keeps : (b : Buffer F) (arrival : ℤ) → Keeps b (measure rtp f b arrival)
    unfolding measure
    measure-Keeps b arrival =
        elim (Bool-cases (ltb_ℤ (arrival -ℤ b.last_report) (pos report_delta))) [
          | inl e ↦ rw e (Keeps-refl b)
          | inr e ↦
              rw e (record {
                bucket = refl;
                max_seq_no = refl;
                cycles = refl;
                mime = refl;
                nack = refl;
              })
        ]

    -- Queueing the packet and noting the jitter.
    queued-Keeps :
        (b : Buffer F) (packet : Packet) (ep : ExtPacket) (arrival : ℤ)
        → Keeps b (
            note_jitter rtp f
              (note_timestamp rtp f (enqueue rtp f b ep) packet arrival)
              packet
              arrival)
    unfolding enqueue note_jitter
    queued-Keeps b packet ep arrival =
        let k = note_timestamp-Keeps (enqueue rtp f b ep) packet arrival in
        record {
          bucket = k.bucket;
          max_seq_no = k.max_seq_no;
          cycles = k.cycles;
          mime = k.mime;
          nack = k.nack;
        }

    ask-Keeps : (b : Buffer F) → Keeps b (ask rtp f b).0
    unfolding ask
    ask-Keeps b = elim (Option-cases b.nacker) [
      | inl e ↦ rw e (Keeps-refl (record b { nacker = none }))
      | inr (q, e) ↦ rw e (build_nack_packet-Keeps (record b { nacker = some q }))
    ]

    finish-Keeps :
        (b : Buffer F) (sn : ℕ) (packet : Packet) (ep : ExtPacket) (arrival : ℤ)
        → Keeps b (finish rtp f b sn packet ep arrival).0
    unfolding finish
    finish-Keeps b sn packet ep arrival =
        let probed = probe rtp f b sn ep in
        let queued =
          note_jitter rtp f (note_timestamp rtp f (enqueue rtp f probed ep) packet arrival) packet
            arrival in
        let asked = (ask rtp f queued).0 in
        Keeps-trans b probed _ (probe-Keeps b sn ep) (
          Keeps-trans probed queued _ (queued-Keeps probed packet ep arrival)
            (Keeps-trans queued asked _ (ask-Keeps queued) (measure-Keeps asked arrival)))

    digest-Keeps :
        (b : Buffer F) (pkt : List ℕ) (sn : ℕ) (packet : Packet) (arrival : ℤ)
        → (r : Buffer F × List Event) × (digest rtp f b pkt sn packet arrival ≡ ok r) × Keeps b r.0
    unfolding digest count
    digest-Keeps b pkt sn packet arrival =
        let counted = count rtp f b pkt in
        let k : Keeps b counted = record {
          bucket = refl;
          max_seq_no = refl;
          cycles = refl;
          mime = refl;
          nack = refl;
        } in
        let (e, extended) = extend-ok counted sn packet arrival in
        let (r, ends, keeps) = split counted e in
        (r, rw extended ends, Keeps-trans b counted _ k keeps)
      where
        split :
            (c : Buffer F) (e : Option ExtPacket)
            → (r : Buffer F × List Event) × ((elim e as (λ _. Outcome (Buffer F × List Event)) [
              | none ↦ ok (c, [])
              | some ep ↦ ok (finish rtp f c sn packet ep arrival)
            ])
                ≡ ok r)
              × Keeps c r.0
        split c none = ((c, []), refl, Keeps-refl c)
        split c (some ep) =
            (finish rtp f c sn packet ep arrival, refl, finish-Keeps c sn packet ep arrival)

    proceed-Keeps :
        (b : Buffer F) (pkt : List ℕ) (sn : ℕ) (arrival : ℤ) (o : Option Packet)
        → (r : Buffer F × List Event) × (proceed rtp f pkt sn arrival (b, o) ≡ ok r) × Keeps b r.0
    unfolding proceed
    proceed-Keeps b pkt sn arrival none = ((b, []), refl, Keeps-refl b)
    proceed-Keeps b pkt sn arrival (some packet) = digest-Keeps b pkt sn packet arrival

    -- A packet that the bucket takes: `calc` returns, and its state keeps what the bucket then holds and
    -- what `note_sequence` made of the numbers.
    pub calc_sn-Keeps :
        (b : Buffer F) (pkt bytes : List ℕ) (sn : ℕ) (arrival : ℤ) (bk bk' : Bucket)
        → (note_sequence b sn arrival).bucket ≡ some bk
        → add_packet bk pkt sn (sn == (note_sequence b sn arrival).max_seq_no) ≡ (bk', ok bytes)
        → (r : Buffer F × List Event) × (calc_sn rtp f b pkt sn arrival ≡ ok r)
          × Keeps (record (note_sequence b sn arrival) { bucket = some bk' }) r.0
    unfolding calc_sn put kept
    calc_sn-Keeps b pkt bytes sn arrival bk bk' held added =
        let noted = note_sequence b sn arrival in
        let (r, e, k) =
          proceed-Keeps (record noted { bucket = some bk' }) pkt sn arrival (rtp.unmarshal bytes) in
        (
          r,
          ap (λ o. put rtp f noted pkt sn o >>= proceed rtp f pkt sn arrival) held
              ∙ ap (λ o. kept rtp f noted o >>= proceed rtp f pkt sn arrival) added
              ∙ e,
          k,
        )
