-- ===== src/Sfu/Receiver/Throttle.antt =====
-- How often a publisher is asked for a key frame, and what becomes of a switch of the layer.
use rsfu.Prelude.{
  ℕ, ◌+◌, ◌^◌, ◌≤◌, ◌<◌, ◌≡◌, Bool, false, List, [], ◌∷◌, arith, if◌then◌else◌, ok, err, panic,
}
use rsfu.Rtp.{Rtcp}
use rsfu.Sfu.DownTrack.{DownTrack}
use rsfu.Sfu.DownTrack.Layers.{switch_spatial, switch_by}
use rsfu.Sfu.Receiver.{Receiver, TrackId, is_pli, threshold, send_rtcp, switch_down_track}

-- A call: its time and its packets.
abbrev pub Batch : Type 0
Batch = ℕ × List Rtcp

-- The calls, of those that are made, whose packets go to the publisher.
unfoldable pub send_all : Receiver → List Batch → List Batch
send_all r [] = []
send_all r ((t, p) ∷ bs) =
    let (r', sent) = send_rtcp r p t in
    let rest = send_all r' bs in if sent then (t, p) ∷ rest else rest

-- The calls whose first packet asks for a key frame, and the other calls.
abbrev pub requests : List Batch → List Batch
requests [] = []
requests ((t, p) ∷ bs) = if is_pli p then (t, p) ∷ requests bs else requests bs

abbrev pub others : List Batch → List Batch
others [] = []
others ((t, p) ∷ bs) = if is_pli p then others bs else (t, p) ∷ others bs

-- The times rise, from `b` on, and are below 2 ^ 64.
abbrev pub Rising : ℕ → List Batch → Type 0
Rising b [] = Unit {0}
Rising b ((t, _) ∷ bs) = (b ≤ t) × (t < 2 ^ 64) × Rising t bs

-- Each time is at least `threshold` after the one before, the first after `b`.
abbrev pub Apart : ℕ → List Batch → Type 0
Apart b [] = Unit {0}
Apart b ((t, _) ∷ bs) = (b + threshold ≤ t) × Apart t bs

-- Whether the receiver says that a switch succeeds.
abbrev pub admits_of : Receiver → TrackId → ℕ → Bool
admits_of r track layer = elim (switch_down_track r track layer) [
  | ok (_, succeeded) ↦ succeeded
  | err _ ↦ false
  | panic ↦ false
]

-- No switch of a track to another layer succeeds at a receiver, whatever its state: the track stays as it
-- is.
pub switch_spatial-switch_down_track :
    (r : Receiver) (track : TrackId) (d : DownTrack) (target : ℕ) (m : Bool)
    → (switch_spatial (admits_of r track) d target m).0 ≡ d
unfolding switch_spatial switch_by switch_down_track
switch_spatial-switch_down_track r track d target m =
    let refused : admits_of r track target ≡ false = ground arith in ground (arith, refused)

-- The spatial layer of a track, its target and its maximum.
abbrev pub spatial : DownTrack → ℕ × ℕ × ℕ
spatial d = (d.current_spatial_layer, d.target_spatial_layer, d.max_spatial_layer)
