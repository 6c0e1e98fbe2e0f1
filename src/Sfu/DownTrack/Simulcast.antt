-- ===== src/Sfu/DownTrack/Simulcast.antt =====
-- rsfu/src/sfu/down_track.rs, `write_simulcast_rtp` and `write_rtp`, and rsfu/src/sfu/helpers.rs,
-- `set_vp8_temporal_layer`: the layers of a simulcast stream, of which a track forwards one.
use rsfu.Prelude.{
  ℕ, ◌+◌, ◌-◌, ◌*◌, ◌/◌, ◌%◌, ◌^◌, Bool, true, false, not, ◌&&◌, ◌||◌, Option, none, some, List, [],
  ◌∷◌, ltb, leb, ◌==◌, if◌then◌else◌, length, bit_or, Outcome, ok, panic, ◌>>=◌, ◌and_then◌,
}
use rsfu.Prelude.Int.{ℤ, ◌-ℤ◌, pos_part, neg_part}
use rsfu.Prelude.Texts.{same}
use rsfu.Rtp.{picture_loss_indication, sub_u16, sub_u32}
use rsfu.Buffer.Vp8.{modify_temporal_payload}
use rsfu.Buffer.State.{ExtPacket}
use rsfu.Sfu.DownTrack.{
  DownTrack, Call, send_rtcp, Written, call, write_out, outgoing, write_simple_rtp,
  simple_down_track, simulcast_down_track,
}

abbrev pub is_zero_ℤ : ℤ → Bool
is_zero_ℤ n = pos_part n + neg_part n == 0

abbrev pub sub_u8 : ℕ → ℕ → ℕ
sub_u8 a b = (a + 2 ^ 8 - b) % 2 ^ 8

-- `copy_from_slice` into `dest`.
abbrev pub copy_from_slice : List ℕ → List ℕ → Outcome (List ℕ)
copy_from_slice dest source = if length dest == length source then ok source else panic

-- `&d.payload[..n]`
abbrev pub first_bytes : List ℕ → ℕ → Outcome (List ℕ)
first_bytes bytes n = if leb n (length bytes) then ok (rsfu.Prelude.take n bytes) else panic

-- The numbers that the packet gets, kept if it is at the head, and written into the copy `bytes`.
unfoldable pub rewritten : DownTrack → ExtPacket → List ℕ → Outcome DownTrack
rewritten d p bytes =
    let s = d.simulcast in
    let pic_id = (sub_u16 p.payload.picture_id s.ref_pic_id + s.p_ref_pic_id + 1) % 2 ^ 16 in
    let tlz0_idx = (sub_u8 p.payload.tl0_picture_idx s.ref_tlz_idx + s.p_ref_tlz_idx + 1) % 2 ^ 8 in
    elim (modify_temporal_payload bytes p.payload.picture_id_idx p.payload.tlz_idx pic_id tlz0_idx
      p.payload.mbit) [
        | none ↦ panic
        | some _ ↦ ok (record d {
          simulcast = record s {
            l_pic_id = if p.head then pic_id else s.l_pic_id;
            l_tlz_idx = if p.head then tlz0_idx else s.l_tlz_idx;
          };
        })
      ]

-- The copy of the payload.
unfoldable pub temporal_numbers : DownTrack → ExtPacket → Outcome DownTrack
temporal_numbers d p = first_bytes d.payload (length p.packet.payload) >>= λ old.
    copy_from_slice [] old >>= λ b. copy_from_slice b p.packet.payload >>= λ b'. rewritten d p b'

-- The payload that it returns is not used. The lower half of `temporal_layer` is the layer that is
-- sent, the upper one the layer to switch to.
unfoldable pub set_vp8_temporal_layer : DownTrack → ExtPacket → Outcome DownTrack
set_vp8_temporal_layer d p =
    let current = d.temporal_layer % 2 ^ 16 in
    let target = d.temporal_layer / 2 ^ 16 % 2 ^ 16 in
    if not (target == current)
    then temporal_numbers
        (if leb p.payload.tid (target % 2 ^ 8)
          then record d { temporal_layer = bit_or (target * 2 ^ 16) target }
          else d)
        p
    else if ltb (current % 2 ^ 8) p.payload.tid
    then ok d
    else temporal_numbers d p

-- What a new source does to the helpers.
unfoldable pub renew : DownTrack → ExtPacket → DownTrack
renew d p =
    let s = d.simulcast in
    let vp8 = s.temporal_supported && same d.down_track_local.mime "video/vp8" in
    record d {
      simulcast = record s {
        l_ts_calc =
            if d.down_track_local.re_sync && not (is_zero_ℤ s.l_ts_calc)
            then p.arrival
            else s.l_ts_calc;
        p_ref_pic_id = if vp8 then s.l_pic_id else s.p_ref_pic_id;
        ref_pic_id = if vp8 then p.payload.picture_id else s.ref_pic_id;
        p_ref_tlz_idx = if vp8 then s.l_tlz_idx else s.p_ref_tlz_idx;
        ref_tlz_idx = if vp8 then p.payload.tl0_picture_idx else s.ref_tlz_idx;
      };
      down_track_local = record d.down_track_local { re_sync = false };
    }

module _ (ms_of : ℤ → ℕ) where
  -- `ms_of` is `(nanoseconds as f64 / 1e6) as u32`. The time between the last packet and this one.
  unfoldable pub ticks : ℤ → ℤ → ℕ
  unfolding ◌-ℤ◌
  ticks arrival l_ts_calc =
      let td = ms_of (arrival -ℤ l_ts_calc) * 90 % 2 ^ 32 / 1000 in if td == 0 then 1 else td

  -- The offsets of a source that takes over, or the first numbers. `last_ssrc` is what it was when the
  -- packet came.
  unfoldable pub numbered : DownTrack → ExtPacket → ℕ → DownTrack
  numbered d p last_ssrc =
      let h = p.packet.header in
      let s = d.simulcast in
      if not (is_zero_ℤ s.l_ts_calc) && not (last_ssrc == h.ssrc)
      then record d {
        ts_offset = sub_u32 h.timestamp ((d.last_ts + ticks p.arrival s.l_ts_calc) % 2 ^ 32);
        sn_offset = sub_u16 (sub_u16 h.sequence_number d.last_sn) 1;
        down_track_local = record d.down_track_local { last_ssrc = h.ssrc };
      }
      else if is_zero_ℤ s.l_ts_calc
      then record d {
        last_ts = h.timestamp;
        last_sn = h.sequence_number;
        simulcast = record s {
          temporal_supported =
              if same d.down_track_local.mime "video/vp8"
              then p.payload.temporal_supported
              else s.temporal_supported;
        };
      }
      else d

  module _ (fails : Call → Bool) where
    unfoldable pub forward_simulcast : DownTrack → ExtPacket → ℕ → ℕ → Written
    forward_simulcast d p new_sn new_ts =
        let d : DownTrack = record d {
          octet_count = (d.octet_count + length p.packet.payload % 2 ^ 32) % 2 ^ 32;
          packet_count = (d.packet_count + 1) % 2 ^ 32;
          last_sn = if p.head then new_sn else d.last_sn;
          last_ts = if p.head then new_ts else d.last_ts;
          simulcast = record d.simulcast { l_ts_calc = p.arrival };
        } in
        write_out fails d (outgoing d p new_sn new_ts)

    -- From the offsets on.
    unfoldable pub take_up : Bool → ℕ → DownTrack → ExtPacket → Outcome Written
    take_up temporal_supported last_ssrc d p =
        let d = numbered d p last_ssrc in
        let new_sn = sub_u16 p.packet.header.sequence_number d.sn_offset in
        let new_ts = sub_u32 p.packet.header.timestamp d.ts_offset in
        (if temporal_supported && same d.down_track_local.mime "video/vp8"
          then set_vp8_temporal_layer d p
          else ok d)
        >>= λ d'. ok (forward_simulcast d' p new_sn new_ts)

    unfoldable pub write_simulcast_rtp : DownTrack → ExtPacket → ℕ → Outcome Written
    write_simulcast_rtp d p layer =
        let t = d.down_track_local in
        let ssrc = p.packet.header.ssrc in
        let supported = d.simulcast.temporal_supported in
        if not (d.current_spatial_layer == layer)
        then ok (record { track = d; calls = []; failed = false })
        else if not (t.last_ssrc == ssrc) || t.re_sync
        then (if t.re_sync && not p.key_frame
            then ok (call fails d (send_rtcp (picture_loss_indication t.ssrc ssrc ∷ [])))
            else take_up supported t.last_ssrc (renew d p) p)
        else take_up supported t.last_ssrc d p

    -- A track that is muted or not bound drops the packet.
    unfoldable pub write_rtp : DownTrack → ExtPacket → ℕ → Outcome Written
    write_rtp d p layer =
        if not d.down_track_local.enabled || not d.down_track_local.bound
        then ok (record { track = d; calls = []; failed = false })
        else elim d.track_type [
          | simple_down_track ↦ ok (write_simple_rtp fails d p)
          | simulcast_down_track ↦ write_simulcast_rtp d p (layer % 2 ^ 32)
        ]
