-- ===== src/Sfu/DownTrack/Continuity.antt =====
-- What a subscriber receives of a stream that is forwarded as it is, through a mute.
use rsfu.Prelude.{
  ℕ, ◌+◌, ◌%◌, ◌^◌, ◌<◌, ◌≤◌, ◌≡◌, ◌≢◌, refl, sym, ap, ◌∙◌, Bool, true, false, not, ◌&&◌, List, [],
  ◌∷◌, arith, ◌==◌, ok,
}
use rsfu.Prelude.Int.{ℤ, pos}
use rsfu.Rtp.{sub_u16, sub_u32}
use rsfu.Buffer.State.{ExtPacket}
use rsfu.Sfu.Sequencer.{Sequencer, get_seq_no_pairs, sub_u128}
use rsfu.Sfu.Sequencer.Resend.{get_seq_no_pairs-push}
use rsfu.Sfu.DownTrack
use rsfu.Sfu.DownTrack.{
  DownTrack, Call, Written, simple_down_track, mute, re_synced, outgoing, forward_simple,
  write_simple_rtp, write_out, call, is_video, kind, update_stats,
}
use rsfu.Sfu.DownTrack.Simulcast.{write_rtp}
use rsfu.Sfu.DownTrack.Forwarding.{
  InOrder, renumbered, IsLive, write_all, write_all_muted, write_rtp_live, forward_simple-Forwards,
  write_simple_rtp-forward, forward_all,
}

module _ (ms_of : ℤ → ℕ) (fails : Call → Bool) (layer : ℕ) where
  abbrev asleep : DownTrack → DownTrack
  asleep d = record d {
    down_track_local = record d.down_track_local { enabled = false; re_sync = true };
  }

  abbrev awake : DownTrack → DownTrack
  awake d = record d {
    down_track_local = record d.down_track_local { enabled = true; re_sync = true };
  }

  mute_on : (d : DownTrack) → IsLive d → mute d true ≡ asleep d
  unfolding mute
  mute_on d live = simp (live.enabled)

  mute_off : (d : DownTrack) → mute (asleep d) false ≡ awake d
  unfolding mute
  mute_off d = refl

  write_all-re_synced :
      (d : DownTrack) (p : ExtPacket) (ps : List ExtPacket)
      → IsLive d
      → (is_video (kind d.down_track_local) && not p.key_frame) ≡ false
      → write_all ms_of fails layer (awake d) (p ∷ ps)
        ≡ write_all ms_of fails layer (re_synced (awake d) p) (p ∷ ps)
  unfolding write_all write_rtp write_simple_rtp re_synced
  write_all-re_synced d p ps live key = simp (live.bound, live.simple, key)

  -- A track that forwards its stream as it is, and has sent a packet whose number was not 0, is muted:
  -- what comes meanwhile is not sent and changes nothing. When it is no longer muted, a stream of packets
  -- at the head begins, from whatever source and with whatever numbers and times; of a video stream the
  -- first is a key frame. Then all of them are sent, in their order, with the track's payload type and
  -- SSRC: the numbers go on where they had stopped, with no gap, and the times go on one tick after the
  -- last, as far apart as they were.
  pub write_all-mute :
      (d : DownTrack) (qs : List ExtPacket) (sn : ℕ) (p : ExtPacket) (ps : List ExtPacket)
      → IsLive d
      → d.last_sn ≢ 0
      → d.last_sn < 2 ^ 16
      → d.last_ts < 2 ^ 32
      → sn < 2 ^ 16
      → (is_video (kind d.down_track_local) && not p.key_frame) ≡ false
      → InOrder sn (p ∷ ps)
      → (write_all ms_of fails layer (mute d true) qs ≡ ok (mute d true, []))
        × ((d' : DownTrack) × (write_all ms_of fails layer (mute (mute d true) false) (p ∷ ps)
              ≡ ok (
                d',
                renumbered d.down_track_local.payload_type d.down_track_local.ssrc
                    ((d.last_sn + 1) % 2 ^ 16)
                    (d.last_ts + 1)
                    p.packet.header.timestamp
                    (p ∷ ps),
              )))
  unfolding re_synced
  write_all-mute d qs sn p ps live counted hl ht hs key (head, here, htp, o) =
      let asleep' = mute_on d live in
      let sent_before : (d.last_sn == 0) ≡ false = ground arith in
      let r = re_synced (awake d) p in
      let live' : IsLive r = record {
        enabled = refl;
        bound = live.bound;
        simple = live.simple;
        stream = live.stream;
      } in
      let sn_offset : r.sn_offset ≡ sub_u16 (sub_u16 sn d.last_sn) 1 = rw (sent_before, here) in
      let ts_offset : r.ts_offset ≡ sub_u32 (sub_u32 p.packet.header.timestamp d.last_ts) 1 =
        rw sent_before in
      let (d', sent) =
        forward_all ms_of fails layer r sn ((d.last_sn + 1) % 2 ^ 16) (d.last_ts + 1)
          p.packet.header.timestamp (p ∷ ps) live' refl (omega (arith, sn_offset)) hs
          (omega (arith, sn_offset)) (λ ts l. ap (sub_u32 ts) ts_offset ∙ omega (arith, l, htp))
          (head, here, htp, o) in
      (
        ap (λ t. write_all ms_of fails layer t qs) asleep'
            ∙ write_all_muted ms_of fails layer (asleep d) qs refl
            ∙ ap (λ t. ok (t, [])) (sym asleep'),
        (
          d',
          ap (λ t. write_all ms_of fails layer (mute t false) (p ∷ ps)) asleep'
              ∙ ap (λ t. write_all ms_of fails layer t (p ∷ ps)) (mute_off d)
              ∙ write_all-re_synced d p ps live key
              ∙ sent,
        ),
      )

  -- A packet at the head that a track forwards as it is can be asked for again at once, by the number
  -- that it was sent with, and the track then knows its number at the source and the time it was sent
  -- with; where the sequencer has at least two steps and its step is one of them.
  pub get_seq_no_pairs-write_rtp :
      (d : DownTrack) (p : ExtPacket) (now steps at : ℕ)
      → IsLive d
      → d.down_track_local.re_sync ≡ false
      → p.head ≡ true
      → 2 ≤ steps
      → at < steps
      → d.down_track_local.sequencer.max ≡ pos steps
      → d.down_track_local.sequencer.step ≡ pos at
      → let new_sn = sub_u16 p.packet.header.sequence_number d.sn_offset in
        let new_ts = sub_u32 p.packet.header.timestamp d.ts_offset in
        (w : Written) × (s : Sequencer) × (write_rtp ms_of fails d p layer ≡ ok w)
        × (w.calls ≡ DownTrack.write_rtp (outgoing d p new_sn new_ts) ∷ [])
        × (get_seq_no_pairs w.track.down_track_local.sequencer now (new_sn ∷ [])
            ≡ ok (
              s,
              record {
                source_seq_no = p.packet.header.sequence_number;
                target_seq_no = new_sn;
                timestamp = new_ts;
                last_nack = sub_u128 now d.down_track_local.sequencer.start_time;
                layer = 0;
                misc = 0;
              }
                  ∷ [],
            ))
  get_seq_no_pairs-write_rtp d p now steps at live on head two h max step =
      let new_sn = sub_u16 p.packet.header.sequence_number d.sn_offset in
      let new_ts = sub_u32 p.packet.header.timestamp d.ts_offset in
      let (s, found) =
        get_seq_no_pairs-push d.down_track_local.sequencer p.packet.header.sequence_number new_sn
          new_ts 0 now steps at two h max step in
      (
        forward_simple fails d p,
        s,
        rw
            (
              write_rtp_live ms_of fails layer d p live,
              write_simple_rtp-forward ms_of fails layer d p on,
            )
            refl,
        (forward_simple-Forwards ms_of fails layer d p live head).1,
        ap (λ q. get_seq_no_pairs q now (new_sn ∷ []))
              (forward_simple-Forwards ms_of fails layer d p live head).0.sequencer
            ∙ found,
      )
