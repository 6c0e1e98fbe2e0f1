-- ===== src/Sfu/Router/Publishing.antt =====
-- What becomes of a track that a peer publishes (`add_receiver`).
use rsfu.Prelude.{
  ℕ, Bool, true, false, not, Option, none, some, String, Awaited, done, blocked, ◌≡◌, refl, ap, ◌∙◌,
  ◌&&◌, if◌then◌else◌, Bool-cases, inl, inr, arith,
}
use rsfu.Prelude.Texts.{same}
use rsfu.Prelude.Maps.{lookup, text_key, lookup-insert_self, lookup-insert_ne}
use rsfu.Buffer.State.{CodecType, audio, video, unspecified}
use rsfu.Sfu.Receiver.{Receiver, UpTrack}
use rsfu.Sfu.Receiver.Uplink
use rsfu.Sfu.Router.{
  RouterLocal, TrackRemote, Published, add_receiver, prepared, with_kind, with_stream, with_reader,
  receiver_or_new, stored, attached, Answer, Waits, started, bound,
}

with_kind_receivers :
    (r : RouterLocal) (k : CodecType) (ssrc : ℕ) (stream_id : String)
    → (with_kind r k ssrc stream_id).receivers ≡ r.receivers
unfolding with_kind
with_kind_receivers r audio ssrc stream_id = refl
with_kind_receivers r video ssrc stream_id = refl
with_kind_receivers r unspecified ssrc stream_id = refl

with_stream_receivers :
    (r : RouterLocal) (ssrc buffer : ℕ) → (with_stream r ssrc buffer).receivers ≡ r.receivers
unfolding with_stream
with_stream_receivers r ssrc buffer = ground arith

-- The parts before the lock leave the receivers as they are.
prepared_receivers :
    (r : RouterLocal) (track : TrackRemote) (stream_id : String)
    → (prepared r track stream_id).1.receivers ≡ r.receivers
unfolding prepared with_reader
prepared_receivers r track stream_id =
    with_stream_receivers _ track.up_track.ssrc _
    ∙ with_kind_receivers _ track.kind track.up_track.ssrc stream_id

-- A track whose id the router has no receiver for, and that names a layer: `add_receiver` waits for a
-- lock that its own task holds, whatever the router's state. It never returns.
pub add_receiver-add_up_track :
    (w : Waits) (r : RouterLocal) (track : TrackRemote) (track_id stream_id : String)
    → lookup r.receivers track_id ≡ none
    → same track.up_track.rid "" ≡ false
    → add_receiver w r track track_id stream_id ≡ blocked
unfolding add_receiver Uplink.add_up_track Uplink.new
add_receiver-add_up_track w r track track_id stream_id new layered =
    rw (prepared_receivers r track stream_id, new, layered) refl

-- Whether the track is to be published to the session, of a call that ends.
abbrev pub publishes : Awaited Answer → Option Bool
publishes (done (_, _, publish, _)) = some publish
publishes blocked = none

abbrev pub router_after : RouterLocal → Awaited Answer → RouterLocal
router_after r (done (r', _, _, _)) = r'
router_after r blocked = r

-- Whether a call that finds this receiver gets the lock of the buffers.
abbrev pub gets_lock : Bool → Receiver → Bool
gets_lock lock_given rc = not (rc.writing && not lock_given)

add_up_track_plain :
    (lock_given : Bool) (rc : Receiver) (track : UpTrack) (buffer : ℕ) (best : Bool)
    → rc.closed ≡ false
    → rc.is_simulcast ≡ false
    → Uplink.add_up_track lock_given rc track buffer best ≡ (
        if gets_lock lock_given rc
        then done (
          Uplink.with_up_track rc (Uplink.layer_of track.rid) track buffer,
          some (Uplink.layer_of track.rid),
        )
        else blocked)
unfolding Uplink.add_up_track
add_up_track_plain lock_given rc track buffer best open_still plain =
    elim (Bool-cases (rc.writing && not lock_given)) [
      | inl e ↦ simp (open_still, plain, e)
      | inr e ↦ simp (open_still, plain, e)
    ]

-- A call that ends, at a receiver that is open and has no layers.
abbrev plain_answer : RouterLocal → TrackRemote → String → String → Published → Bool → Answer
plain_answer r track track_id stream_id p publish =
    let (buffer, r') = prepared r track stream_id in
    let layer = Uplink.layer_of track.up_track.rid in
    let rc = started (Uplink.with_up_track p.receiver layer track.up_track buffer) (some layer) in
    (stored r' track_id p rc, record p { receiver = rc }, publish, some layer)

plain_lem :
    (w : Waits) (r : RouterLocal) (track : TrackRemote) (track_id stream_id : String)
    (p : Published) (publish : Bool)
    → receiver_or_new (lookup r.receivers track_id) track track_id stream_id ≡ (p, publish)
    → p.receiver.closed ≡ false
    → p.receiver.is_simulcast ≡ false
    → add_receiver w r track track_id stream_id ≡ (
        if gets_lock w.lock_given p.receiver
        then bound w.bind_ends (plain_answer r track track_id stream_id p publish)
        else blocked)
unfolding add_receiver
plain_lem w r track track_id stream_id p publish e open_still plain =
    let (buffer, r') = prepared r track stream_id in
    let known : receiver_or_new (lookup r'.receivers track_id) track track_id stream_id
        ≡ (p, publish) =
      ap (λ m. receiver_or_new (lookup m track_id) track track_id stream_id)
        (prepared_receivers r track stream_id)
      ∙ e in
    ap
      (λ found. attached w.bind_ends r' track_id found.0 found.1 (
        Uplink.add_up_track w.lock_given found.0.receiver track.up_track buffer
          r'.best_quality_first))
      known
    ∙ ap (attached w.bind_ends r' track_id p publish) (
        add_up_track_plain w.lock_given p.receiver track.up_track buffer r'.best_quality_first
          open_still plain)
    ∙ elim (Bool-cases (gets_lock w.lock_given p.receiver)) [ inl g ↦ rw g | inr g ↦ rw g ]

-- A track with no layers, whose id the router has no receiver for, at a buffer whose `bind` ends: it is
-- published, it gets a receiver, and the receivers of the other tracks stay. Whatever track comes next
-- under the same id is not published again; that call ends just when the task that the first one started
-- gives up the lock of the buffers and the `bind` of its own buffer ends.
pub add_receiver-add_receiver :
    (w w' : Waits) (r : RouterLocal) (track again : TrackRemote)
    (track_id stream_id other stream : String)
    → w.bind_ends ≡ true
    → lookup r.receivers track_id ≡ none
    → same track.up_track.rid "" ≡ true
    → same track_id other ≡ false
    → let r' = router_after r (add_receiver w r track track_id stream_id) in
      (publishes (add_receiver w r track track_id stream_id) ≡ some true)
      × (lookup r'.receivers other ≡ lookup r.receivers other)
      × (publishes (add_receiver w' r' again track_id stream)
          ≡ (if w'.lock_given && w'.bind_ends then some false else none))
unfolding Uplink.new
add_receiver-add_receiver w w' r track again track_id stream_id other stream ends new plain ne =
    let (p, _) = receiver_or_new none track track_id stream_id in
    let first : add_receiver w r track track_id stream_id
        ≡ done (plain_answer r track track_id stream_id p true) =
      plain_lem w r track track_id stream_id p true
        (ap (λ o. receiver_or_new o track track_id stream_id) new) refl (ap not plain)
      ∙ ap (λ b. bound b (plain_answer r track track_id stream_id p true)) ends in
    let (r', p', _, _) = plain_answer r track track_id stream_id p true in
    let known : lookup r'.receivers track_id ≡ some p' =
      lookup-insert_self (prepared r track stream_id).1.receivers track_id p' in
    rw first (
      refl,
      lookup-insert_ne (prepared r track stream_id).1.receivers track_id other p' ne
          ∙ ap (λ m. lookup m other) (prepared_receivers r track stream_id),
      ap publishes (
            plain_lem w' r' again track_id stream p' false
              (ap (λ o. receiver_or_new o again track_id stream) known) refl (ap not plain))
          ∙ second w'.lock_given w'.bind_ends (plain_answer r' again track_id stream p' false) refl,
    )
  where
    second :
        (l b : Bool) (a : Answer)
        → a.2 ≡ false
        → publishes (if not (true && not l) then bound b a else blocked)
          ≡ (if l && b then some false else none)
    second true true (_, _, publish, _) e = ap some e
    second true false a e = refl
    second false b a e = refl
