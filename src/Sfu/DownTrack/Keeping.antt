-- ===== src/Sfu/DownTrack/Keeping.antt =====
-- What no packet and no operation changes: the callback for RTCP packets.
use rsfu.Prelude.{arith}
use rsfu.Prelude.Texts.{same}
use rsfu.Prelude.{
  ℕ, ◌≡◌, Bool, true, false, ◌&&◌, Option, if◌then◌else◌, Outcome, ok, err, panic, ◌>>=◌, ◌/◌, ◌%◌,
  ◌^◌, ◌*◌, bit_or,
}
use rsfu.Prelude.Int.{ℤ}
use rsfu.Rtp.{Packet}
use rsfu.Buffer.State.{ExtPacket}
use rsfu.Sfu.DownTrack.{
  DownTrack, Captured, Call, Written, call, write_out, mute, re_synced, update_stats,
  forward_simple, write_simple_rtp,
}
use rsfu.Sfu.DownTrack.Simulcast.{
  rewritten, temporal_numbers, set_vp8_temporal_layer, renew, numbered, forward_simulcast, take_up,
  write_simulcast_rtp, write_rtp,
}
use rsfu.Sfu.DownTrack.Layers.{switch_by, switch_spatial, switch_temporal_layer}

abbrev pub callback : DownTrack → Option Captured
callback d = d.down_track_local.rtcp_callback

-- A property of either branch.
either {ℓ κ} :
    {A : Type ℓ} (P : A → Type κ) (t : Bool) (a b : A) → P a → P b → P (if t then a else b)
either P true a b h k = h
either P false a b h k = k

-- A property of the value, if there is one.
abbrev pub OfValue {ℓ κ} : {A : Type ℓ} → (A → Type κ) → Outcome A → Type κ
OfValue P (ok a) = P a
OfValue P (err e) = Unit
OfValue P panic = Unit

pub OfValue-bind {ℓ κ λ'} :
    {A : Type ℓ} {B : Type κ} (P : A → Type λ') (Q : B → Type λ') (o : Outcome A)
    (f : A → Outcome B)
    → OfValue P o
    → ((a : A) → P a → OfValue Q (f a))
    → OfValue Q (o >>= f)
OfValue-bind P Q (ok a) f h k = k a h
OfValue-bind P Q (err e) f h k = tt
OfValue-bind P Q panic f h k = tt

-- The callback is `c`.
abbrev pub Has : Option Captured → DownTrack → Type 0
Has c d = callback d ≡ c

abbrev pub HasTrack : Option Captured → Written → Type 0
HasTrack c w = Has c w.track

module _ (c : Option Captured) where
  pub mute-Has : (d : DownTrack) (val : Bool) → Has c d → Has c (mute d val)
  unfolding mute
  mute-Has d val h = ground (arith, h)

  pub switch_spatial-Has :
      (admits : ℕ → Bool) (d : DownTrack) (target : ℕ) (m : Bool)
      → Has c d
      → Has c (switch_spatial admits d target m).0
  unfolding switch_spatial switch_by
  switch_spatial-Has admits d target m h = ground (arith, h)

  pub switch_temporal_layer-Has :
      (d : DownTrack) (target : ℕ) (m : Bool) → Has c d → Has c (switch_temporal_layer d target m)
  unfolding switch_temporal_layer
  switch_temporal_layer-Has d target m h = ground (arith, h)

  module _ (fails : Call → Bool) where
    write_out-Has : (d : DownTrack) (q : Packet) → Has c d → HasTrack c (write_out fails d q)
    unfolding write_out call
    write_out-Has d q h = ground (arith, h)

    forward_simple-Has :
        (d : DownTrack) (p : ExtPacket) → Has c d → HasTrack c (forward_simple fails d p)
    unfolding forward_simple write_out call update_stats
    forward_simple-Has d p h = ground (arith, h)

    re_synced-Has : (d : DownTrack) (p : ExtPacket) → Has c d → Has c (re_synced d p)
    unfolding re_synced
    re_synced-Has d p h = ground (arith, h)

    write_simple_rtp-Has :
        (d : DownTrack) (p : ExtPacket) → Has c d → HasTrack c (write_simple_rtp fails d p)
    unfolding write_simple_rtp call
    write_simple_rtp-Has d p h = ground (
      arith,
      h,
      forward_simple-Has d p h,
      forward_simple-Has (re_synced d p) p (re_synced-Has d p h),
    )

    temporal_numbers-Has :
        (d : DownTrack) (p : ExtPacket) → Has c d → OfValue (Has c) (temporal_numbers d p)
    unfolding temporal_numbers rewritten
    temporal_numbers-Has d p h = ground (arith, h)

    set_vp8_temporal_layer-Has :
        (d : DownTrack) (p : ExtPacket) → Has c d → OfValue (Has c) (set_vp8_temporal_layer d p)
    unfolding set_vp8_temporal_layer
    set_vp8_temporal_layer-Has d p h =
        let target = d.temporal_layer / 2 ^ 16 % 2 ^ 16 in
        let switching = record d { temporal_layer = bit_or (target * 2 ^ 16) target } in
        ground (arith, h, temporal_numbers-Has d p h, temporal_numbers-Has switching p h)

    forward_simulcast-Has :
        (ms_of : ℤ → ℕ) (d : DownTrack) (p : ExtPacket) (n ts : ℕ)
        → Has c d
        → HasTrack c (forward_simulcast ms_of fails d p n ts)
    unfolding forward_simulcast write_out call
    forward_simulcast-Has ms_of d p n ts h = ground (arith, h)

    numbered-Has :
        (ms_of : ℤ → ℕ) (d : DownTrack) (p : ExtPacket) (s : ℕ)
        → Has c d
        → Has c (numbered ms_of d p s)
    unfolding numbered
    numbered-Has ms_of d p s h = ground (arith, h)

    renew-Has : (d : DownTrack) (p : ExtPacket) → Has c d → Has c (renew d p)
    unfolding renew
    renew-Has d p h = ground (arith, h)

    module _ (ms_of : ℤ → ℕ) where
      take_up-Has :
          (supported : Bool) (last_ssrc : ℕ) (d : DownTrack) (p : ExtPacket)
          → Has c d
          → OfValue (HasTrack c) (take_up ms_of fails supported last_ssrc d p)
      unfolding take_up
      take_up-Has supported last_ssrc d p h =
          let d1 = numbered ms_of d p last_ssrc in
          let h1 = numbered-Has ms_of d p last_ssrc h in
          OfValue-bind (Has c) (HasTrack c)
            (if supported && same d1.down_track_local.mime "video/vp8"
              then set_vp8_temporal_layer d1 p
              else ok d1)
            _ (ground (arith, h1, set_vp8_temporal_layer-Has d1 p h1))
            (λ d2 h2. forward_simulcast-Has ms_of d2 p _ _ h2)

      pub write_rtp-Has :
          (d : DownTrack) (p : ExtPacket) (layer : ℕ)
          → Has c d
          → OfValue (HasTrack c) (write_rtp ms_of fails d p layer)
      unfolding write_rtp write_simulcast_rtp call
      write_rtp-Has d p layer h = ground (
        arith,
        h,
        write_simple_rtp-Has d p h,
        take_up-Has d.simulcast.temporal_supported d.down_track_local.last_ssrc d p h,
        take_up-Has d.simulcast.temporal_supported d.down_track_local.last_ssrc (renew d p) p
            (renew-Has d p h),
      )
