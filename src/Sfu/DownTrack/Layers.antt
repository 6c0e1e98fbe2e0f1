-- ===== src/Sfu/DownTrack/Layers.antt =====
-- rsfu/src/sfu/down_track.rs: the layer that a track forwards and the one it is to forward
-- (`set_initial_layers`, `switch_spatial_layer`, `switch_spatial_layer_done`, `untrack_layers_change`,
-- `switch_temporal_layer`, `handle_layer_change`), and `create_sender_report`. What the receiver answers
-- is a parameter. The locks are not reentrant.
use rsfu.Prelude.{
  ℕ, ◌+◌, ◌-◌, ◌*◌, ◌/◌, ◌%◌, ◌^◌, Bool, true, false, not, ◌&&◌, ◌||◌, Option, none, some, List, [],
  ◌∷◌, ltb, leb, ◌==◌, if◌then◌else◌, bit_or, get_elem?, Outcome, ok, panic, Awaited, done, blocked,
  locked, await,
}
use rsfu.Sfu.DownTrack.{DownTrack, DownTrackType, simple_down_track, simulcast_down_track}

-- `temporal << 16 | temporal` of an `i32`.
abbrev pub both_halves : ℕ → ℕ → ℕ
both_halves high low = bit_or (high * 2 ^ 16 % 2 ^ 32) low

unfoldable pub set_initial_layers : DownTrack → ℕ → ℕ → DownTrack
set_initial_layers d spatial_layer temporal_layer = record d {
  current_spatial_layer = spatial_layer;
  target_spatial_layer = spatial_layer;
  temporal_layer = both_halves temporal_layer temporal_layer;
}

abbrev pub current_temporal : DownTrack → ℕ
current_temporal d = d.temporal_layer % 2 ^ 16

abbrev pub target_temporal : DownTrack → ℕ
target_temporal d = d.temporal_layer / 2 ^ 16 % 2 ^ 16

unfoldable pub switch_spatial_layer_done : DownTrack → ℕ → DownTrack
switch_spatial_layer_done d layer = record d { current_spatial_layer = layer }

-- The errors of a switch.
pub data Switched : Type 0 where
  switched not_switched busy not_supported : Switched

-- `admits` says whether the receiver's `switch_down_track` succeeds.
unfoldable pub switch_by : DownTrackType → (ℕ → Bool) → DownTrack → ℕ → Bool → DownTrack × Switched
switch_by simulcast_down_track admits d target set_as_max =
    if not (d.current_spatial_layer == d.target_spatial_layer) || d.current_spatial_layer == target
    then (d, busy)
    else if admits target
    then (
      record d {
        target_spatial_layer = target;
        max_spatial_layer = if set_as_max then target else d.max_spatial_layer;
      },
      switched,
    )
    else (d, not_switched)
switch_by simple_down_track admits d target set_as_max = (d, not_supported)

unfoldable pub switch_spatial : (ℕ → Bool) → DownTrack → ℕ → Bool → DownTrack × Switched
switch_spatial admits d target set_as_max = switch_by d.track_type admits d target set_as_max

-- It takes the lock of the track's type; `held` says whether the task has it.
abbrev pub switch_spatial_layer :
    (ℕ → Bool) → Bool → DownTrack → ℕ → Bool → Awaited (DownTrack × Switched)
switch_spatial_layer admits held d target set_as_max =
    locked held (switch_spatial admits d target set_as_max)

-- The loop over the available layers: the largest up to `max_layer`, and the smallest beyond it.
pub record Found : Type 0 where
  pub min_found : ℕ
  pub max_found : ℕ
  pub layer_found : Bool

unfoldable pub see : ℕ → ℕ → Found → Found
see max_layer target s =
    if leb target max_layer
    then (if ltb s.max_found target then record s { max_found = target; layer_found = true } else s)
    else if ltb target s.min_found
    then record s { min_found = target }
    else s

unfoldable pub find_layers : ℕ → List ℕ → Found → Found
find_layers max_layer [] s = s
find_layers max_layer (target ∷ ts) s = find_layers max_layer ts (see max_layer target s)

-- `none` is the error that the track is of the other type; the lock is held to the end.
unfoldable pub untrack_by :
    DownTrackType → (ℕ → Bool) → DownTrack → List ℕ → Awaited (DownTrack × Option ℕ)
untrack_by simple_down_track admits d available_layers =
    let found =
      find_layers (d.max_spatial_layer % 2 ^ 16) available_layers
        (record { min_found = 0; max_found = 0; layer_found = false }) in
    let target = if found.layer_found then found.max_found else found.min_found in
    if not (d.current_spatial_layer % 2 ^ 16 == target)
    then await (switch_spatial_layer admits true d target false) (λ r. done (r.0, some target))
    else done (d, some target)
untrack_by simulcast_down_track admits d available_layers = done (d, none)

unfoldable pub untrack_layers_change :
    (ℕ → Bool) → DownTrack → List ℕ → Awaited (DownTrack × Option ℕ)
untrack_layers_change admits d available_layers = untrack_by d.track_type admits d available_layers

unfoldable pub switch_temporal_layer : DownTrack → ℕ → Bool → DownTrack
switch_temporal_layer d target set_as_max = elim d.track_type [
  | simulcast_down_track ↦
      if current_temporal d == target_temporal d
      then record d {
        temporal_layer = both_halves target (current_temporal d);
        max_temporal_layer = if set_as_max then target else d.max_temporal_layer;
      }
      else d
  | simple_down_track ↦ d
]

abbrev pub lt_i32 : ℕ → ℕ → Bool
lt_i32 a b = ltb ((a + 2 ^ 31) % 2 ^ 32) ((b + 2 ^ 31) % 2 ^ 32)

-- `temporal_layer >> 16` of an `i32`, with its sign.
abbrev pub upper_half : ℕ → ℕ
upper_half n = if ltb n (2 ^ 31) then n / 2 ^ 16 else n / 2 ^ 16 + (2 ^ 32 - 2 ^ 16)

abbrev pub delay_switch : DownTrack → ℕ → DownTrack
delay_switch d time = record d { simulcast = record d.simulcast { switch_delay = time } }

-- What the receiver tells of its layers, and the clock when it is read anew, at each of three places.
pub record Observed : Type 0 where
  pub get_bitrate : List ℕ
  pub get_max_temporal_layer : List ℕ
  pub now : ℕ
  pub after_temporal : ℕ
  pub after_spatial : ℕ
  pub second : ℕ

module _ (admits : ℕ → Bool) (o : Observed) (expected_min_bitrate : ℕ) where
  -- `cbr` is the bit rate of the current layer, `mctl` its largest temporal layer, `target` the
  -- temporal layer to switch to.
  unfoldable pub raise_temporal : DownTrack → ℕ → ℕ → ℕ → ℕ → DownTrack
  raise_temporal d current target cbr mctl =
      if lt_i32 current mctl
        && lt_i32 current d.max_temporal_layer
        && leb (3 * cbr % 2 ^ 64 / 4) expected_min_bitrate
      then delay_switch (switch_temporal_layer d ((target + 1) % 2 ^ 32) false)
          (o.after_temporal + 3 * o.second)
      else d

  unfoldable pub raise_spatial : DownTrack → ℕ → ℕ → ℕ → ℕ → DownTrack
  raise_spatial d current csl cbr mctl =
      if not (lt_i32 current mctl)
        && leb (3 * cbr % 2 ^ 64 / 2) expected_min_bitrate
        && lt_i32 csl d.max_spatial_layer
        && lt_i32 csl 2
      then (let (d', r) = switch_spatial admits d ((csl + 1) % 2 ^ 32) false in
          delay_switch
            (elim r [
              | switched ↦ switch_temporal_layer d' 0 false
              | not_switched ↦ switch_temporal_layer d' 0 false
              | busy ↦ d'
              | not_supported ↦ d'
            ])
            (o.after_spatial + 5 * o.second))
      else d

  -- With heavy loss it takes the lock of `simulcast`, which it holds.
  unfoldable pub on_heavy_loss : DownTrack → ℕ → Awaited (Outcome DownTrack)
  on_heavy_loss d max_rate_packet_loss =
      if leb 25 max_rate_packet_loss then blocked else done (ok d)

  unfoldable pub handle_layer_change : DownTrack → ℕ → Awaited (Outcome DownTrack)
  handle_layer_change d max_rate_packet_loss =
      let csl = d.current_spatial_layer in
      let current = d.temporal_layer % 2 ^ 4 in
      let target = upper_half d.temporal_layer in
      if d.target_spatial_layer == csl && current == target && ltb d.simulcast.switch_delay o.now
      then (elim (get_elem? o.get_bitrate csl) [
        | none ↦ done panic
        | some cbr ↦ elim (get_elem? o.get_max_temporal_layer csl) [
          | none ↦ done panic
          | some mctl ↦
              on_heavy_loss
                (if leb max_rate_packet_loss 5
                  then raise_spatial (raise_temporal d current target cbr mctl) current csl cbr mctl
                  else d)
                max_rate_packet_loss
        ]
      ])
      else done (ok d)

pub record SenderReport : Type 0 where
  pub ssrc : ℕ
  pub ntp_time : ℕ
  pub rtp_time : ℕ
  pub packet_count : ℕ
  pub octet_count : ℕ

-- `sr_rtp` is the receiver's time for the current layer, `now_ntp` the clock's.
unfoldable pub create_sender_report : DownTrack → ℕ → ℕ → Option SenderReport
create_sender_report d sr_rtp now_ntp =
    if not d.down_track_local.bound || sr_rtp == 0
    then none
    else some (record {
      ssrc = d.down_track_local.ssrc;
      ntp_time = now_ntp;
      rtp_time = sr_rtp;
      packet_count = d.packet_count;
      octet_count = d.octet_count;
    })
