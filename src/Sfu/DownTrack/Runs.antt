-- ===== src/Sfu/DownTrack/Runs.antt =====
-- The steps of a track after it was bound, and what becomes of the subscriber's RTCP packets.
use mathlib.Core.Option
use rsfu.Prelude.{arith, subst, inl, inr, Bool-cases}
use rsfu.Prelude.{
  ℕ, ◌≡◌, refl, sym, ap, ◌∙◌, Bool, true, Option, none, some, List, [], String, Outcome, ok, err,
  panic, ◌>>=◌, ◌==◌,
}
use rsfu.Prelude.Int.{ℤ}
use rsfu.Buffer.Nack.{NackPair}
use rsfu.Buffer.State.{ExtPacket}
use rsfu.Sfu.Sequencer.{Sequencer}
use rsfu.Sfu.Codecs.{codec_parameters_fuzzy_search}
use rsfu.Sfu.DownTrack.{
  DownTrack, DownTrackInternal, Captured, Call, Written, mute, set_last_ssrc, set_track_type,
  DownTrackType, Codec,
}
use rsfu.Sfu.DownTrack.Simulcast.{write_rtp}
use rsfu.Sfu.DownTrack.Layers.{
  set_initial_layers, switch_spatial, switch_spatial_layer_done, switch_temporal_layer,
}
use rsfu.Sfu.DownTrack.Feedback.{
  Incoming, Context, bind, bound_to, on_rtcp, answer, handle_rtcp, mime_of, line_of,
}
use rsfu.Sfu.DownTrack.Keeping.{
  OfValue, OfValue-bind, Has, HasTrack, mute-Has, switch_spatial-Has, switch_temporal_layer-Has,
  write_rtp-Has,
}

-- The steps of a track that is bound, in any order: packets of the stream, whatever they are, the
-- operations of the publisher's and of the subscriber's side, and RTCP packets.
module _ (ms_of : ℤ → ℕ) (fails : Call → Bool) (admits : ℕ → Bool)
    (packet_list : NackPair → List ℕ) where
  pub data Step : DownTrack → DownTrack → Type 0 where
    written :
        (d : DownTrack) (p : ExtPacket) (layer : ℕ) (w : Written)
        → write_rtp ms_of fails d p layer ≡ ok w
        → Step d w.track
    muted : (d : DownTrack) (val : Bool) → Step d (mute d val)
    ssrc_set : (d : DownTrack) (val : ℕ) → Step d (set_last_ssrc d val)
    type_set : (d : DownTrack) (t : DownTrackType) → Step d (set_track_type d t)
    layers_set :
        (d : DownTrack) (spatial temporal : ℕ) → Step d (set_initial_layers d spatial temporal)
    spatial_switched :
        (d : DownTrack) (target : ℕ) (m : Bool) → Step d (switch_spatial admits d target m).0
    spatial_done : (d : DownTrack) (layer : ℕ) → Step d (switch_spatial_layer_done d layer)
    temporal_switched :
        (d : DownTrack) (target : ℕ) (m : Bool) → Step d (switch_temporal_layer d target m)
    rtcp :
        (d : DownTrack) (now : ℕ) (pkts : Option (List Incoming)) (r : DownTrack × List Incoming)
        → on_rtcp packet_list now d pkts ≡ ok r
        → Step d r.0

  pub data Runs (d : DownTrack) : DownTrack → Type 0 where
    here : Runs d d
    next : {e e' : DownTrack} → Runs d e → Step e e' → Runs d e'

  on_rtcp_captured :
      (c : Captured) (now : ℕ) (d : DownTrack) (pkts : Option (List Incoming))
      → Has (some c) d
      → on_rtcp packet_list now d pkts ≡ (
          handle_rtcp packet_list now c pkts d.down_track_local.sequencer >>= λ r.
          ok (record d { down_track_local = record d.down_track_local { sequencer = r.0 } }, r.1))
  unfolding on_rtcp answer
  on_rtcp_captured c now d pkts h = ap (answer packet_list now d pkts) h

  on_rtcp-Has :
      (c : Captured) (now : ℕ) (d : DownTrack) (pkts : Option (List Incoming))
      → Has (some c) d
      → OfValue (λ r. Has (some c) r.0) (on_rtcp packet_list now d pkts)
  on_rtcp-Has c now d pkts h =
      subst (OfValue (λ r. Has (some c) r.0)) (sym (on_rtcp_captured c now d pkts h)) (
        OfValue-bind (λ _. Unit {0}) (λ r. Has (some c) r.0)
          (handle_rtcp packet_list now c pkts d.down_track_local.sequencer) _ (anything _)
          (λ _ _. h))
    where
      anything : (o : Outcome (Sequencer × List Incoming)) → OfValue (λ _. Unit {0}) o
      anything (ok _) = tt
      anything (err _) = tt
      anything panic = tt

  Step-Has : (c : Captured) {d e : DownTrack} → Step d e → Has (some c) d → Has (some c) e
  unfolding set_initial_layers switch_spatial_layer_done
  Step-Has c (written d p layer w e) h =
      subst (OfValue (HasTrack (some c))) e (write_rtp-Has (some c) fails ms_of d p layer h)
  Step-Has c (muted d val) h = mute-Has (some c) d val h
  Step-Has c (ssrc_set d val) h = h
  Step-Has c (type_set d t) h = h
  Step-Has c (layers_set d spatial temporal) h = h
  Step-Has c (spatial_switched d target m) h = switch_spatial-Has (some c) admits d target m h
  Step-Has c (spatial_done d layer) h = h
  Step-Has c (temporal_switched d target m) h = switch_temporal_layer-Has (some c) d target m h
  Step-Has c (rtcp d now pkts r e) h =
      subst (OfValue (λ r. Has (some c) r.0)) e (on_rtcp-Has c now d pkts h)

  Runs-Has : (c : Captured) {d e : DownTrack} → Runs d e → Has (some c) d → Has (some c) e
  Runs-Has c here h = h
  Runs-Has c (next r s) h = Step-Has c s (Runs-Has c r h)

  handle_rtcp_no_source :
      (c : Captured) (now : ℕ) (pkts : Option (List Incoming)) (s : Sequencer)
      → c.last_ssrc ≡ 0
      → handle_rtcp packet_list now c pkts s ≡ ok (s, [])
  unfolding handle_rtcp
  handle_rtcp_no_source c now none s e = ground arith
  handle_rtcp_no_source c now (some ps) s e =
      let zero_source : (c.last_ssrc == 0) ≡ true = ground arith in
      elim (Bool-cases c.enabled) [ inl on ↦ rw (on, zero_source) | inr off ↦ rw off ]

  -- A track that had no source when it was bound, and then runs in any way, though it forwards packets
  -- and its source becomes known: no RTCP packet of the subscriber changes anything, no key frame that is
  -- asked for is passed on, and nothing panics, as the callback works with the source of the time of
  -- the binding.
  pub Runs-on_rtcp :
      (to_lowercase : String → String) (t t' : DownTrackInternal) (context : Context) (now : ℕ)
      {d e : DownTrack} (time : ℕ) (pkts : Option (List Incoming))
      → t.last_ssrc ≡ 0
      → bind to_lowercase t context now ≡ some t'
      → d.down_track_local ≡ t'
      → Runs d e
      → on_rtcp packet_list time e pkts ≡ ok (e, [])
  unfolding bind bound_to
  Runs-on_rtcp to_lowercase t t' context now {d} {e} time pkts no_source bound held r =
      let (c, has, source) =
        captured (codec_parameters_fuzzy_search mime_of line_of t.codec context.codec_parameters)
          bound in
      let still = Runs-Has c r (ap (λ i. i.rtcp_callback) held ∙ has) in
      on_rtcp_captured c time e pkts still
      ∙ ap
          (λ o. o >>= λ r.
            ok (record e { down_track_local = record e.down_track_local { sequencer = r.0 } }, r.1))
          (handle_rtcp_no_source c time pkts e.down_track_local.sequencer (source ∙ no_source))
    where
      captured :
          (o : Option Codec)
          → Option.map (bound_to to_lowercase t context now) o ≡ some t'
          → (c : Captured) × (t'.rtcp_callback ≡ some c) × (c.last_ssrc ≡ t.last_ssrc)
      captured none h = absurd (cc)
      captured (some codec) h =
          let c : Captured = record {
            enabled = true;
            last_ssrc = t.last_ssrc;
            ssrc = context.ssrc;
          } in
          (c, ap (λ o. elim o [ none ↦ none | some i ↦ i.rtcp_callback ]) (sym h), refl)
