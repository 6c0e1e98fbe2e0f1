-- ===== src/Sfu/DownTrack/Takeover.antt =====
-- Simulcast: a source that takes over from another, and the temporal layers of VP8.
use rsfu.Prelude.{
  ℕ, ◌+◌, ◌*◌, ◌/◌, ◌%◌, ◌^◌, ◌<◌, ◌≡◌, ◌≢◌, refl, ap, ap₂, ◌∙◌, Bool, true, false, ◌&&◌, List, [],
  ◌∷◌, arith, ltb, ◌==◌, if◌then◌else◌, bit_or, length, Outcome, ok, panic, ◌>>=◌,
}
use rsfu.Prelude.Int.{ℤ}
use rsfu.Rtp.{sub_u16, sub_u32}
use rsfu.Buffer.Vp8.{modify_temporal_payload, store}
use rsfu.Buffer.State.{ExtPacket}
use rsfu.Sfu.DownTrack
use rsfu.Sfu.DownTrack.{DownTrack, Call, Written, simulcast_down_track, outgoing, call, write_out}
use rsfu.Sfu.DownTrack.Simulcast.{
  is_zero_ℤ, first_bytes, copy_from_slice, rewritten, temporal_numbers, set_vp8_temporal_layer,
  renew, ticks, numbered, forward_simulcast, take_up, write_simulcast_rtp,
}

temporal_numbers-panic :
    (d : DownTrack) (p : ExtPacket) → d.payload ≡ [] → temporal_numbers d p ≡ panic
unfolding temporal_numbers rewritten modify_temporal_payload store
temporal_numbers-panic d p e =
    ap (λ old. first_bytes old (length p.packet.payload) >>= λ old. with_bytes old) e
    ∙ split p.packet.payload refl
  where
    with_bytes : List ℕ → Outcome DownTrack
    with_bytes old = copy_from_slice [] old >>= λ b.
        copy_from_slice b p.packet.payload >>= λ b'. rewritten d p b'

    split :
        (bytes : List ℕ)
        → p.packet.payload ≡ bytes
        → (first_bytes [] (length bytes) >>= with_bytes) ≡ panic
    split [] h = ap (λ bytes. copy_from_slice [] bytes >>= rewritten d p) h ∙ ground arith
    split (x ∷ xs) h = ground arith

-- A track whose own `payload` is empty, as that of every track is: a VP8 packet panics, whatever it
-- holds, unless the track is not switching its temporal layer and the packet is of a higher one.
pub set_vp8_temporal_layer-panic :
    (d : DownTrack) (p : ExtPacket)
    → d.payload ≡ []
    → let current = d.temporal_layer % 2 ^ 16 in
      set_vp8_temporal_layer d p ≡ (
        if d.temporal_layer / 2 ^ 16 % 2 ^ 16 == current && ltb (current % 2 ^ 8) p.payload.tid
        then ok d
        else panic)
unfolding set_vp8_temporal_layer
set_vp8_temporal_layer-panic d p e =
    let target = d.temporal_layer / 2 ^ 16 % 2 ^ 16 in
    let switching = record d { temporal_layer = bit_or (target * 2 ^ 16) target } in
    ground (arith, temporal_numbers-panic d p e, temporal_numbers-panic switching p e)

ticks_pos : (ms_of : ℤ → ℕ) (a b : ℤ) → 0 < ticks ms_of a b
unfolding ticks
ticks_pos ms_of a b = ground arith

-- The offsets of a source that takes over after `td` ticks.
abbrev joined : DownTrack → ExtPacket → ℕ → DownTrack
joined d p td = record d {
  ts_offset = sub_u32 p.packet.header.timestamp ((d.last_ts + td) % 2 ^ 32);
  sn_offset = sub_u16 (sub_u16 p.packet.header.sequence_number d.last_sn) 1;
  down_track_local = record d.down_track_local { last_ssrc = p.packet.header.ssrc };
}

numbered-joined :
    (ms_of : ℤ → ℕ) (d : DownTrack) (p : ExtPacket) (s : ℕ)
    → is_zero_ℤ d.simulcast.l_ts_calc ≡ false
    → (s == p.packet.header.ssrc) ≡ false
    → numbered ms_of d p s ≡ joined d p (ticks ms_of p.arrival d.simulcast.l_ts_calc)
unfolding numbered
numbered-joined ms_of d p s started differ = simp (started, differ)

renew-clock :
    (d : DownTrack) (p : ExtPacket)
    → d.down_track_local.re_sync ≡ false
    → (renew d p).simulcast.l_ts_calc ≡ d.simulcast.l_ts_calc
unfolding renew
renew-clock d p on = simp on

write_simulcast_rtp-take_up :
    (ms_of : ℤ → ℕ) (fails : Call → Bool) (d : DownTrack) (p : ExtPacket) (layer : ℕ)
    → (d.current_spatial_layer == layer) ≡ true
    → (d.down_track_local.last_ssrc == p.packet.header.ssrc) ≡ false
    → d.down_track_local.re_sync ≡ false
    → write_simulcast_rtp ms_of fails d p layer
      ≡ take_up ms_of fails d.simulcast.temporal_supported d.down_track_local.last_ssrc
          (renew d p)
          p
unfolding write_simulcast_rtp
write_simulcast_rtp-take_up ms_of fails d p layer here differ on = simp (here, differ, on)

module _ (ms_of : ℤ → ℕ) (fails : Call → Bool) where
  -- A simulcast track that forwards the layer, has sent packets, and does not wait for a key frame gets
  -- a packet at the head from another source than the last; its codec has no temporal layers that the
  -- track knows of. The packet is sent with the number after the last one, and with a time that is
  -- later by the ticks passed, at least one; and these numbers and the new source are the track's last.
  pub write_simulcast_rtp-takeover :
      (d : DownTrack) (p : ExtPacket) (layer : ℕ)
      → d.current_spatial_layer ≡ layer
      → d.down_track_local.write_stream ≡ true
      → d.down_track_local.re_sync ≡ false
      → d.down_track_local.last_ssrc ≢ p.packet.header.ssrc
      → is_zero_ℤ d.simulcast.l_ts_calc ≡ false
      → d.simulcast.temporal_supported ≡ false
      → p.head ≡ true
      → d.last_sn < 2 ^ 16
      → p.packet.header.sequence_number < 2 ^ 16
      → p.packet.header.timestamp < 2 ^ 32
      → let td = ticks ms_of p.arrival d.simulcast.l_ts_calc in
        let new_sn = (d.last_sn + 1) % 2 ^ 16 in
        let new_ts = (d.last_ts + td) % 2 ^ 32 in
        (w : Written) × (write_simulcast_rtp ms_of fails d p layer ≡ ok w)
        × (w.calls ≡ DownTrack.write_rtp (outgoing d p new_sn new_ts) ∷ [])
        × (0 < td)
        × (w.track.last_sn ≡ new_sn)
        × (w.track.last_ts ≡ new_ts)
        × (w.track.down_track_local.last_ssrc ≡ p.packet.header.ssrc)
  unfolding take_up forward_simulcast write_out call renew
  write_simulcast_rtp-takeover d p layer at stream on other started plain head hl hs ht =
      let s = d.down_track_local.last_ssrc in
      let h = p.packet.header in
      let here : (d.current_spatial_layer == layer) ≡ true = ground arith in
      let differ : (s == h.ssrc) ≡ false = ground arith in
      let td = ticks ms_of p.arrival d.simulcast.l_ts_calc in
      let clock = renew-clock d p on in
      let taken = joined (renew d p) p td in
      let offsets : numbered ms_of (renew d p) p s ≡ taken =
        numbered-joined ms_of (renew d p) p s (ap is_zero_ℤ clock ∙ started) differ
        ∙ ap (λ c. joined (renew d p) p (ticks ms_of p.arrival c)) clock in
      let n = sub_u16 h.sequence_number taken.sn_offset in
      let number : n ≡ (d.last_sn + 1) % 2 ^ 16 = omega arith in
      let ts = sub_u32 h.timestamp taken.ts_offset in
      let time : ts ≡ (d.last_ts + td) % 2 ^ 32 = omega arith in
      (
        forward_simulcast ms_of fails taken p n ts,
        write_simulcast_rtp-take_up ms_of fails d p layer here differ on
            ∙ ap (λ supported. take_up ms_of fails supported s (renew d p) p) plain
            ∙ ap
                (λ e. ok (
                  forward_simulcast ms_of fails e p (sub_u16 h.sequence_number e.sn_offset)
                    (sub_u32 h.timestamp e.ts_offset)))
                offsets,
        rw stream (ap₂ (λ a b. DownTrack.write_rtp (outgoing d p a b) ∷ []) number time),
        ticks_pos ms_of p.arrival d.simulcast.l_ts_calc,
        rw (stream, head) number,
        rw (stream, head) time,
        rw stream refl,
      )
