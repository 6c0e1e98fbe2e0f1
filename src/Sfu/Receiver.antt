-- ===== src/Sfu/Receiver.antt =====
-- rsfu/src/sfu/receiver.rs: what a `WebRTCReceiver` sends to its publisher (`send_rtcp`), and the lists
-- of its tracks (`switch_down_track`, `delete_down_track`, `add_down_track`). A track is told by the ids
-- that `DownTrack::eq` compares. The lists of the layers are functions of the layer, which is below 3.
pub mod Throttle
pub mod Uplink
pub mod Resend
mod Tests
use rsfu.Prelude.{
  ℕ, ◌+◌, ◌-◌, ◌%◌, ◌^◌, Bool, true, false, ◌&&◌, Option, List, [], ◌∷◌, ◌++◌, String, ltb, ◌==◌,
  if◌then◌else◌, Outcome, ok, panic, ◌>>=◌,
}
use rsfu.Prelude.Texts.{same}
use rsfu.Rtp.{Rtcp, picture_loss_indication, transport_layer_nack}

pub record TrackId : Type 0 where
  pub peer_id : String
  pub stream_id : String
  pub id : String

unfoldable pub same_track : TrackId → TrackId → Bool
same_track a b = same a.peer_id b.peer_id && (same a.stream_id b.stream_id && same a.id b.id)

-- A publisher's track, of the webrtc crate: its source and the id of its layer.
pub record UpTrack : Type 0 where
  pub ssrc : ℕ
  pub rid : String

-- The buffers are told by their numbers (Factory). `writing` says whether a task forwards packets
-- (`write_rtp`): it holds the lock of `buffers` while it waits for the next one.
pub record Receiver : Type 0 where
  pub closed : Bool
  pub last_pli : ℕ
  pub available : ℕ → Bool
  pub down_tracks : ℕ → List TrackId
  pub pending : ℕ → Bool
  pub pending_tracks : ℕ → List TrackId
  pub is_simulcast : Bool
  pub up_tracks : ℕ → Option UpTrack
  pub buffers : ℕ → Option ℕ
  pub writing : Bool

abbrev pub threshold : ℕ
threshold = 500

abbrev pub is_pli : List Rtcp → Bool
is_pli [] = false
is_pli (picture_loss_indication _ _ ∷ _) = true
is_pli (transport_layer_nack _ _ ∷ _) = false

-- Whether the packets go to the channel, which is open. `now` is in milliseconds.
unfoldable pub send_rtcp : Receiver → List Rtcp → ℕ → Receiver × Bool
send_rtcp r p now =
    if is_pli p
    then (if ltb ((now + 2 ^ 64 - r.last_pli) % 2 ^ 64) threshold
        then (r, false)
        else (record r { last_pli = now }, true))
    else (r, true)

abbrev pub update {ℓ} : {A : Type ℓ} → (ℕ → A) → ℕ → A → ℕ → A
update f layer a k = if k == layer then a else f k

-- The Boolean says whether the call succeeds.
unfoldable pub switch_down_track : Receiver → TrackId → ℕ → Outcome (Receiver × Bool)
switch_down_track r track layer =
    if r.closed
    then ok (r, false)
    else if ltb layer 3
    then ok (
      if r.available layer
          then record r {
            pending = update r.pending layer true;
            pending_tracks = update r.pending_tracks layer (r.pending_tracks layer ++ track ∷ []);
          }
          else r,
      false,
    )
    else panic

unfoldable pub subscribed : List TrackId → TrackId → Bool
subscribed [] dt = false
subscribed (t ∷ ts) dt = let rest = subscribed ts dt in if same_track t dt then true else rest

unfoldable pub store_down_track : Receiver → ℕ → TrackId → Receiver
store_down_track r layer dt = record r {
  down_tracks = update r.down_tracks layer (r.down_tracks layer ++ dt ∷ []);
}

-- The first track with the id goes; with none `remove` is out of range.
unfoldable pub removed : List TrackId → String → Outcome (List TrackId)
removed [] id = panic
removed (t ∷ ts) id =
    let rest = removed ts id in if same t.id id then ok ts else rest >>= λ ts'. ok (t ∷ ts')

unfoldable pub delete_down_track : Receiver → ℕ → String → Outcome Receiver
delete_down_track r layer id =
    if r.closed
    then ok r
    else removed (r.down_tracks layer) id >>= λ ts.
        ok (record r { down_tracks = update r.down_tracks layer ts })

-- The loop over the available layers: the last, or the first.
unfoldable pub choose_layer : Receiver → Bool → ℕ
choose_layer r best_quality_first =
    if best_quality_first
    then (if r.available 2 then 2 else if r.available 1 then 1 else 0)
    else if r.available 0
    then 0
    else if r.available 1
    then 1
    else if r.available 2
    then 2
    else 0

-- The list with the track; what the track itself gets is in DownTrack.
unfoldable pub add_down_track : Receiver → TrackId → Bool → Receiver
add_down_track r track best_quality_first =
    let layer = if r.is_simulcast then choose_layer r best_quality_first else 0 in
    if r.closed
    then r
    else if subscribed (r.down_tracks layer) track
    then r
    else store_down_track r layer track
