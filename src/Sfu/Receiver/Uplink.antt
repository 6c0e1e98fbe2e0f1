-- ===== src/Sfu/Receiver/Uplink.antt =====
-- rsfu/src/sfu/receiver.rs: a receiver and the tracks of its publisher, one for each layer (`new`, `ssrc`,
-- `add_up_track`). The locks are not reentrant.
use rsfu.Prelude.{
  ℕ, Bool, true, false, not, Option, none, some, [], String, ltb, if◌then◌else◌, Awaited, done,
  blocked, ◌&&◌, locked, await,
}
use rsfu.Prelude.Texts.{same}
use rsfu.Sfu.Receiver.{Receiver, UpTrack, update}

unfoldable pub new : UpTrack → Receiver
new track = record {
  closed = false;
  last_pli = 0;
  available = λ _. false;
  down_tracks = λ _. [];
  pending = λ _. false;
  pending_tracks = λ _. [];
  is_simulcast = not (same track.rid "");
  up_tracks = λ _. none;
  buffers = λ _. none;
  writing = false;
}

abbrev source_of : Option UpTrack → ℕ
source_of none = 0
source_of (some track) = track.ssrc

unfoldable pub ssrc : Receiver → ℕ → ℕ
ssrc r layer = if ltb layer 3 then source_of (r.up_tracks layer) else 0

abbrev pub layer_of : String → ℕ
layer_of rid = if same rid "f" then 2 else if same rid "h" then 1 else 0

abbrev pub with_up_track : Receiver → ℕ → UpTrack → ℕ → Receiver
with_up_track r layer track buffer = record r {
  up_tracks = update r.up_tracks layer (some track);
  buffers = update r.buffers layer (some buffer);
  available = update r.available layer true;
}

-- `lock_given` says whether a task that forwards gives the lock of `buffers` up, which it does when a
-- packet comes or its buffer closes. The lock of `available` is held to the end of the body, and with simulcast it is taken again, so that
-- the switch of the tracks behind it is not reached.
unfoldable pub add_up_track : Bool → Receiver → UpTrack → ℕ → Bool → Awaited (Receiver × Option ℕ)
add_up_track lock_given r track buffer best_quality_first =
    let layer = layer_of track.rid in
    let r' = with_up_track r layer track buffer in
    if r.closed
    then done (r, none)
    else if r.writing && not lock_given
    then blocked
    else if r.is_simulcast
    then await (locked true (r'.available (if best_quality_first then 2 else 0)))
        (λ _. done (r', some layer))
    else done (r', some layer)
