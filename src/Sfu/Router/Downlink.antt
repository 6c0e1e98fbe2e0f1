-- ===== src/Sfu/Router/Downlink.antt =====
-- rsfu/src/sfu/router.rs: the tracks that a router makes for a subscriber (`add_down_track`,
-- `add_down_tracks`). The state is the subscriber and the receiver, or the receivers. The lists of both
-- are told apart: the track that the router makes is the value in the subscriber's, and stands in the
-- receiver's by its ids.
use rsfu.Prelude.{
  ℕ, Bool, false, Option, none, some, List, [], ◌∷◌, ◌++◌, String, if◌then◌else◌, ◌≡◌, refl, ap,
  ◌∙◌,
}
use rsfu.Prelude.Texts.{same, same_self}
use rsfu.Prelude.Maps.{HashMap, lookup, text_key, lookup-insert_self}
use rsfu.Sfu.Connection.{
  Call, Action, Run, continue, returned, refused, panicked, pure, gets, modify, call, ◌>>=◌, ◌>>◌,
}
use rsfu.Sfu.DownTrack
use rsfu.Sfu.DownTrack.{DownTrack}
use rsfu.Sfu.Receiver
use rsfu.Sfu.Subscriber
use rsfu.Sfu.Subscriber.{Subscriber, pushed}
use rsfu.Sfu.Router.{RouterLocal, Published}

abbrev pub Link : Type 0
Link = Subscriber × Published

-- The loop over the stream's tracks.
unfoldable pub found_in : List DownTrack → String → Option DownTrack
found_in [] id = none
found_in (d ∷ ds) id =
    let rest = found_in ds id in if same d.down_track_local.id id then some d else rest

abbrev pub found : Option (List DownTrack) → String → Option DownTrack
found none id = none
found (some ds) id = found_in ds id

module _ (fails : Call → Bool) (r : RouterLocal) (now : ℕ) where
  abbrev pub made : Subscriber → Published → DownTrack
  made s p = DownTrack.new p.codec p.track_id p.stream_id s.id r.max_packet_track now

  -- The track goes to the subscriber, and to the receiver.
  abbrev pub linked : Link → Link
  linked (s, p) = (
    Subscriber.add_down_track s p.stream_id (made s p),
    record p {
      receiver =
          Receiver.add_down_track p.receiver
            (record { peer_id = s.id; stream_id = p.stream_id; id = p.track_id })
            r.best_quality_first;
    },
  )

  abbrev pub make : Action Link (Option DownTrack)
  make = do
    call fails Call.register_codec
    call fails Call.add_transceiver
    modify linked
    pure none

  abbrev pub found_or_make : Option DownTrack → Action Link (Option DownTrack)
  found_or_make (some d) = pure (some d)
  found_or_make none = make

  unfoldable pub add_down_track : Action Link (Option DownTrack)
  add_down_track (s, p) =
      found_or_make (found (Subscriber.get_downtracks s p.stream_id) p.track_id) (s, p)

  -- With a receiver.
  unfoldable pub add_down_tracks_of : Action Link (Unit {0})
  add_down_tracks_of = do
    no_auto_subscribe ← gets (λ l. l.0.no_auto_subscribe)
    if no_auto_subscribe then pure tt else (add_down_track >> call fails Call.negotiate)

  -- Without one: all that the router has. An error ends the loop.
  abbrev pub next :
      String
      → Run Link (Option DownTrack)
      → HashMap String Published
      → (Subscriber → Run (Subscriber × HashMap String Published) (Unit {0}))
      → Run (Subscriber × HashMap String Published) (Unit {0})
  next k ((s, p), cs, returned _) ps rest =
      let ((s', ps'), cs', a) = rest s in ((s', (k, p) ∷ ps'), cs ++ cs', a)
  next k ((s, p), cs, refused e) ps rest = ((s, (k, p) ∷ ps), cs, refused e)
  next k ((s, p), cs, panicked) ps rest = ((s, (k, p) ∷ ps), cs, panicked)

  unfoldable pub add_each :
      HashMap String Published → Subscriber → Run (Subscriber × HashMap String Published) (Unit {0})
  add_each [] s = ((s, []), [], returned tt)
  add_each ((k, p) ∷ ps) s = next k (add_down_track (s, p)) ps (add_each ps)

  abbrev pub negotiate_all :
      HashMap String Published → Action (Subscriber × HashMap String Published) (Unit {0})
  negotiate_all [] = pure tt
  negotiate_all (_ ∷ _) = call fails Call.negotiate

  unfoldable pub add_down_tracks :
      Subscriber → HashMap String Published → Run (Subscriber × HashMap String Published) (Unit {0})
  add_down_tracks s ps =
      if s.no_auto_subscribe
      then ((s, ps), [], returned tt)
      else continue (add_each ps s) (λ _. negotiate_all ps)

-- The handler for the end of a subscriber's track: `open_connection` says that the subscriber's
-- connection is not closed.
unfoldable pub on_track_close :
    (Call → Bool) → Bool → String → DownTrack → Action Subscriber (Unit {0})
on_track_close fails open_connection stream_id d s =
    if open_connection
    then (if fails Call.remove_track then (s, Call.remove_track ∷ [], returned tt) else (
      Subscriber.remove_down_track s stream_id d,
      Call.remove_track ∷ Call.negotiate ∷ [],
      returned tt,
    ))
    else (s, [], returned tt)

module _ (fails : Call → Bool) (works : (c : Call) → fails c ≡ false) (r : RouterLocal)
    (now : ℕ) where
  -- With no track found, one is made.
  pub make_lem :
      (s : Subscriber) (p : Published)
      → found (Subscriber.get_downtracks s p.stream_id) p.track_id ≡ none
      → add_down_track fails r now (s, p) ≡ (
        linked fails r now (s, p),
        Call.register_codec ∷ Call.add_transceiver ∷ [],
        returned none,
      )
  unfolding add_down_track
  make_lem s p absent = rw (absent, works Call.register_codec, works Call.add_transceiver) refl

  find_lem :
      (s : Subscriber) (p : Published) (d : DownTrack)
      → found (Subscriber.get_downtracks s p.stream_id) p.track_id ≡ some d
      → add_down_track fails r now (s, p) ≡ ((s, p), [], returned (some d))
  unfolding add_down_track
  find_lem s p d present = rw present refl

  listed :
      (s : Subscriber) (p : Published)
      → Subscriber.get_downtracks (linked fails r now (s, p)).0 p.stream_id
        ≡ some (pushed (lookup s.tracks p.stream_id) (made fails r now s p))
  unfolding Subscriber.add_down_track
  listed s p =
      lookup-insert_self s.tracks p.stream_id
        (pushed (lookup s.tracks p.stream_id) (made fails r now s p))

  made_found :
      (s : Subscriber) (p : Published)
      → found (some (made fails r now s p ∷ [])) p.track_id ≡ some (made fails r now s p)
  unfolding found_in DownTrack.new DownTrack.new_track_local
  made_found s p = rw (same_self p.track_id) refl

  -- The first two tracks that a subscriber gets of one receiver, whose stream it does not know, while the
  -- crate accepts all calls: each makes a transceiver of its own. From the third on the track is found,
  -- and nothing is made or changed.
  pub add_down_track-add_down_track :
      (s : Subscriber) (p : Published)
      → lookup s.tracks p.stream_id ≡ none
      → let once = (add_down_track fails r now (s, p)).0 in
        let twice = (add_down_track fails r now once).0 in
        ((add_down_track fails r now (s, p)).1 ≡ Call.register_codec ∷ Call.add_transceiver ∷ [])
        × ((add_down_track fails r now once).1 ≡ Call.register_codec ∷ Call.add_transceiver ∷ [])
        × (add_down_track fails r now twice ≡ (twice, [], returned (some (made fails r now s p))))
  unfolding Subscriber.add_down_track found_in
  add_down_track-add_down_track s p unknown =
      let (s₁, p₁) = linked fails r now (s, p) in
      let (s₂, p₂) = linked fails r now (s₁, p₁) in
      let nothing : Subscriber.get_downtracks s₁ p.stream_id ≡ some [] =
        listed s p ∙ ap (λ o. some (pushed o (made fails r now s p))) unknown in
      let one : Subscriber.get_downtracks s₂ p.stream_id ≡ some (made fails r now s p ∷ []) =
        listed s₁ p₁ ∙ ap (λ o. some (pushed o (made fails r now s p))) nothing in
      let first = make_lem s p (ap (λ o. found o p.track_id) unknown) in
      let second = make_lem s₁ p₁ (ap (λ o. found o p.track_id) nothing) in
      let third =
        find_lem s₂ p₂ (made fails r now s p) (ap (λ o. found o p.track_id) one ∙ made_found s p) in
      rw first (rw second (refl, refl, third))
