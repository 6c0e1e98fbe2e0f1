-- ===== src/Sfu/Receiver/Resend.antt =====
-- rsfu/src/sfu/receiver.rs: the packets that a subscriber asks for again (`retransmit_packets`). `get` is
-- the answer of the layer's buffer, where there is one, to a caller with an array of 65535 bytes.
use rsfu.Prelude.{
  ℕ, ◌%◌, ◌^◌, ◌<◌, Bool, true, false, ◌&&◌, Option, none, some, List, [], ◌∷◌, ◌++◌, ltb,
  if◌then◌else◌, Outcome, ok, err, panic, ◌>>=◌, length, replicate, length-replicate, ◌≡◌, refl,
  lt→ltb, subst, sym,
}
use rsfu.Prelude.Texts.{same}
use rsfu.Rtp.{Packet, RtpCrate}
use rsfu.Buffer.Bucket
use rsfu.Buffer.Bucket.{Bucket}
use rsfu.Buffer.Bucket.Late.{get_packet_cases}
use rsfu.Buffer.Vp8
use rsfu.Sfu.DownTrack.{DownTrack, Call, Written, write_raw_rtp, update_stats}
use rsfu.Sfu.Sequencer.{PacketMeta, get_vp8_payload_meta}

-- The packet with the numbers of the track.
abbrev pub renumbered : DownTrack → PacketMeta → Packet → Packet
renumbered d m p = record p {
  header = record p.header {
    sequence_number = m.target_seq_no;
    timestamp = m.timestamp;
    ssrc = d.down_track_local.ssrc;
    payload_type = d.down_track_local.payload_type;
  };
}

-- A VP8 payload is rewritten in an array of its own, which is not sent. The Boolean says whether the
-- packet is.
abbrev pub rewritten : PacketMeta → List ℕ → Vp8.Run (Unit {0}) → Outcome Bool
rewritten m payload (Vp8.failed e v) = ok false
rewritten m payload (Vp8.panicked v) = panic
rewritten m payload (Vp8.done _ v) =
    let (tlz0_id, pic_id) = get_vp8_payload_meta m in
    elim (Vp8.modify_temporal_payload payload v.picture_id_idx v.tlz_idx pic_id tlz0_id v.mbit) [
      | none ↦ panic
      | some _ ↦ ok true
    ]

unfoldable pub prepared : DownTrack → PacketMeta → List ℕ → Outcome Bool
prepared d m payload =
    if d.simulcast.temporal_supported && same d.down_track_local.mime "video/vp8"
    then rewritten m payload (Vp8.unmarshal payload Vp8.default)
    else ok true

abbrev pub counted : DownTrack → ℕ → Written → DownTrack × List Call
counted d size w = (if w.failed then d else update_stats d (size % 2 ^ 32), w.calls)

module _ (fails : Call → Bool) (rtp : RtpCrate) (get : ℕ → ℕ → Option (Outcome (List ℕ × ℕ))) where
  abbrev pub resend_packet :
      DownTrack → PacketMeta → ℕ → Option Packet → Outcome (DownTrack × List Call)
  resend_packet d m size none = ok (d, [])
  resend_packet d m size (some p) = prepared d m p.payload >>= λ sent.
      ok (if sent then counted d size (write_raw_rtp fails d (renumbered d m p)) else (d, []))

  abbrev pub resend :
      DownTrack
      → PacketMeta
      → Option (Outcome (List ℕ × ℕ))
      → (DownTrack → Outcome (DownTrack × List Call))
      → Outcome (DownTrack × List Call)
  resend d m none rest = ok (d, [])
  resend d m (some (err e)) rest = rest d
  resend d m (some panic) rest = panic
  resend d m (some (ok (bytes, size))) rest =
      resend_packet d m size (rtp.unmarshal bytes) >>= λ (d', cs).
      rest d' >>= λ (d'', cs'). ok (d'', cs ++ cs')

  -- There are three layers, and another one is out of range. The first layer without a buffer ends the
  -- loop.
  unfoldable pub retransmit_packets : List PacketMeta → DownTrack → Outcome (DownTrack × List Call)
  retransmit_packets [] d = ok (d, [])
  retransmit_packets (m ∷ ms) d =
      if ltb m.layer 3
      then resend d m (get m.layer m.source_seq_no) (retransmit_packets ms)
      else panic

abbrev pub data_array : List ℕ
data_array = replicate 65535 0

-- The buffers of the layers, by their buckets.
abbrev pub of_bucket : Bucket → ℕ → ℕ → Option (Outcome (List ℕ × ℕ))
of_bucket b layer sn = some (Bucket.get_packet b data_array sn)

-- A subscriber asks for a packet that is in the bucket, of fewer than 65535 bytes: to send it again is a
-- panic, whatever else is asked for after it.
pub retransmit_packets-get_packet :
    (fails : Call → Bool) (rtp : RtpCrate) (b : Bucket) (d : DownTrack) (m : PacketMeta)
    (ms : List PacketMeta) (q : List ℕ)
    → m.layer < 3
    → Bucket.get b m.source_seq_no ≡ ok (some q)
    → length q < 65535
    → retransmit_packets fails rtp (of_bucket b) (m ∷ ms) d ≡ panic
unfolding retransmit_packets
retransmit_packets-get_packet fails rtp b d m ms q in_range there short =
    let whole : length data_array ≡ 65535 = length-replicate {A = ℕ} 65535 0 in
    let answer : Bucket.get_packet b data_array m.source_seq_no ≡ panic =
      (get_packet_cases b data_array q m.source_seq_no there).2
        (subst (λ n. length q < n) (sym whole) short) in
    rw (lt→ltb m.layer 3 in_range, answer) refl
