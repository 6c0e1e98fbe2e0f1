-- ===== src/Sfu/DownTrack/Forwarding.antt =====
-- Packets at the head that are forwarded, as they are, one after the other.
use rsfu.Prelude.{
  ℕ, ◌+◌, ◌%◌, ◌^◌, ◌<◌, ◌≡◌, refl, sym, ap, ap₂, ◌∙◌, Bool, true, false, List, [], ◌∷◌, ◌++◌,
  arith, Outcome, ok, ◌>>=◌,
}
use rsfu.Prelude.Int.{ℤ}
use rsfu.Rtp.{sub_u16, sub_u32}
use rsfu.Buffer.State.{ExtPacket}
use rsfu.Sfu.Sequencer
use rsfu.Sfu.Sequencer.{PacketMeta, Sequencer, get_seq_no_pairs, sub_u128}
use rsfu.Sfu.DownTrack
use rsfu.Sfu.DownTrack.{
  DownTrack, Call, Written, simple_down_track, mute, re_synced, outgoing, forward_simple,
  write_simple_rtp, write_out, call, is_video, kind, update_stats,
}
use rsfu.Sfu.DownTrack.Simulcast.{write_rtp}

-- The packets have rising numbers from `sn` on, and each is at the head.
abbrev pub InOrder : ℕ → List ExtPacket → Type 0
InOrder sn [] = Unit {0}
InOrder sn (p ∷ ps) =
    (p.head ≡ true)
    × (p.packet.header.sequence_number ≡ sn)
    × (p.packet.header.timestamp < 2 ^ 32)
    × InOrder ((sn + 1) % 2 ^ 16) ps

-- The packets with a payload type and an SSRC, numbered from `n` on, with the times that have
-- passed since `start`, counted from `base`.
abbrev pub renumbered : ℕ → ℕ → ℕ → ℕ → ℕ → List ExtPacket → List Call
renumbered payload_type ssrc n base start [] = []
renumbered payload_type ssrc n base start (p ∷ ps) =
    DownTrack.write_rtp (record p.packet {
      header = record p.packet.header {
        payload_type = payload_type;
        timestamp = (base + sub_u32 p.packet.header.timestamp start) % 2 ^ 32;
        sequence_number = n;
        ssrc = ssrc;
      };
    })
    ∷ renumbered payload_type ssrc ((n + 1) % 2 ^ 16) base start ps

-- The offset of the times.
abbrev pub Timed : DownTrack → ℕ → ℕ → Type 0
Timed d base start =
    (ts : ℕ) → ts < 2 ^ 32 → sub_u32 ts d.ts_offset ≡ (base + sub_u32 ts start) % 2 ^ 32

-- A track that forwards its stream as it is.
pub record IsLive (d : DownTrack) : Type 0 where
  pub enabled : d.down_track_local.enabled ≡ true
  pub bound : d.down_track_local.bound ≡ true
  pub simple : d.track_type ≡ simple_down_track
  pub stream : d.down_track_local.write_stream ≡ true

module _ (ms_of : ℤ → ℕ) (fails : Call → Bool) (layer : ℕ) where
  unfoldable pub write_all : DownTrack → List ExtPacket → Outcome (DownTrack × List Call)
  write_all d [] = ok (d, [])
  write_all d (p ∷ ps) = write_rtp ms_of fails d p layer >>= λ w.
      write_all w.track ps >>= λ r. ok (r.0, w.calls ++ r.1)

  pub write_rtp_live :
      (d : DownTrack) (p : ExtPacket)
      → IsLive d
      → write_rtp ms_of fails d p layer ≡ ok (write_simple_rtp fails d p)
  unfolding write_rtp
  write_rtp_live d p live = simp (live.enabled, live.bound, live.simple)

  write_rtp_muted :
      (d : DownTrack) (p : ExtPacket)
      → d.down_track_local.enabled ≡ false
      → write_rtp ms_of fails d p layer ≡ ok (record { track = d; calls = []; failed = false })
  unfolding write_rtp
  write_rtp_muted d p off = rw off

  pub write_all_muted :
      (d : DownTrack) (ps : List ExtPacket)
      → d.down_track_local.enabled ≡ false
      → write_all d ps ≡ ok (d, [])
  unfolding write_all
  write_all_muted d [] off = refl
  write_all_muted d (p ∷ ps) off = rw (write_rtp_muted d p off, write_all_muted d ps off)

  -- What a packet at the head that is forwarded does to the track.
  pub record Forwards (d d' : DownTrack) (p : ExtPacket) : Type 0 where
    pub live : IsLive d'
    pub re_sync : d'.down_track_local.re_sync ≡ d.down_track_local.re_sync
    pub sn_offset : d'.sn_offset ≡ d.sn_offset
    pub ts_offset : d'.ts_offset ≡ d.ts_offset
    pub payload_type : d'.down_track_local.payload_type ≡ d.down_track_local.payload_type
    pub ssrc : d'.down_track_local.ssrc ≡ d.down_track_local.ssrc
    pub last_sn : d'.last_sn ≡ sub_u16 p.packet.header.sequence_number d.sn_offset
    pub sequencer :
        d'.down_track_local.sequencer
        ≡ (Sequencer.push d.down_track_local.sequencer p.packet.header.sequence_number
            (sub_u16 p.packet.header.sequence_number d.sn_offset)
            (sub_u32 p.packet.header.timestamp d.ts_offset)
            0
            true).0

  pub forward_simple-Forwards :
      (d : DownTrack) (p : ExtPacket)
      → IsLive d
      → p.head ≡ true
      → let new_sn = sub_u16 p.packet.header.sequence_number d.sn_offset in
        let new_ts = sub_u32 p.packet.header.timestamp d.ts_offset in
        Forwards d (forward_simple fails d p).track p
        × ((forward_simple fails d p).calls ≡ DownTrack.write_rtp (outgoing d p new_sn new_ts) ∷ [])
  unfolding forward_simple write_out call update_stats
  forward_simple-Forwards d p live head = (
    record {
      live = record {
        enabled = rw live.stream (live.enabled);
        bound = rw live.stream (live.bound);
        simple = rw live.stream (live.simple);
        stream = rw live.stream refl;
      };
      re_sync = rw live.stream;
      sn_offset = rw live.stream;
      ts_offset = rw live.stream;
      payload_type = rw live.stream;
      ssrc = rw live.stream;
      last_sn = rw (live.stream, head);
      sequencer = rw (live.stream, head, update_stats);
    },
    rw live.stream,
  )

  -- The packets of `ps` as `d` renumbers them.
  abbrev pub sent_of : DownTrack → ℕ → ℕ → ℕ → List ExtPacket → List Call
  sent_of d n base start ps =
      renumbered d.down_track_local.payload_type d.down_track_local.ssrc n base start ps

  pub write_simple_rtp-forward :
      (d : DownTrack) (p : ExtPacket)
      → d.down_track_local.re_sync ≡ false
      → write_simple_rtp fails d p ≡ forward_simple fails d p
  unfolding write_simple_rtp
  write_simple_rtp-forward d p on = simp on

  pub forward_all :
      (d : DownTrack) (sn n base start : ℕ) (ps : List ExtPacket)
      → IsLive d
      → d.down_track_local.re_sync ≡ false
      → n ≡ sub_u16 sn d.sn_offset
      → sn < 2 ^ 16
      → d.sn_offset < 2 ^ 16
      → Timed d base start
      → InOrder sn ps
      → (d' : DownTrack) × (write_all d ps ≡ ok (d', sent_of d n base start ps))
  unfolding write_all
  forward_all d sn n base start [] live on at hs ho t o = (d, refl)
  forward_all d sn n base start (p ∷ ps) live on at hs ho t (head, here, ht, o) =
      let (fw, sent) = forward_simple-Forwards d p live head in
      let w = forward_simple fails d p in
      let next : (n + 1) % 2 ^ 16 ≡ sub_u16 ((sn + 1) % 2 ^ 16) w.track.sn_offset =
        omega (arith, at, fw.sn_offset, hs, ho) in
      let (d', rest) =
        forward_all w.track ((sn + 1) % 2 ^ 16) ((n + 1) % 2 ^ 16) base start ps fw.live
          (fw.re_sync ∙ on) next (omega arith) (omega (arith, fw.sn_offset, ho))
          (λ ts l. ap (sub_u32 ts) fw.ts_offset ∙ t ts l) o in
      let same : sent_of w.track ((n + 1) % 2 ^ 16) base start ps
          ≡ sent_of d ((n + 1) % 2 ^ 16) base start ps =
        ap₂ (λ pt ssrc. renumbered pt ssrc ((n + 1) % 2 ^ 16) base start ps) fw.payload_type
          fw.ssrc in
      let number : sub_u16 p.packet.header.sequence_number d.sn_offset ≡ n =
        ap (λ k. sub_u16 k d.sn_offset) here ∙ sym at in
      let first : w.calls ≡ sent_of d n base start (p ∷ []) =
        sent
        ∙ ap₂ (λ k ts. DownTrack.write_rtp (outgoing d p k ts) ∷ []) number
            (t p.packet.header.timestamp ht) in
      (
        d',
        rw (write_rtp_live d p live, write_simple_rtp-forward d p on, rest)
            (ap₂ (λ a b. ok (d', a ++ b)) first same),
      )
