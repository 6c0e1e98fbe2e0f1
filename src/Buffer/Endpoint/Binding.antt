-- ===== src/Buffer/Endpoint/Binding.antt =====
-- What `bind` does before and after the packets that came first; and a bound buffer with a stream.
use text.Mathlib.Text
use rsfu.Prelude.{
  ℕ, ◌+◌, ◌%◌, ◌^◌, ◌<◌, ◌≡◌, inl, inr, refl, ap, ◌∙◌, Bool, true, false, Option, some, List, [],
  ◌∷◌, String, arith, if◌then◌else◌, length, get_elem?, Outcome, ok, ◌>>=◌, Bool-cases,
}
use rsfu.Prelude.Int.{ℤ}
use rsfu.Prelude.Texts.{same}
use rsfu.Rtp.{RtpCrate}
use rsfu.Buffer.Bucket
use rsfu.Buffer.Nack
use rsfu.Buffer.Bucket.{Bucket, get}
use rsfu.Buffer.Bucket.Window.{sn_back}
use rsfu.Buffer.Bucket.InOrder.{Consecutive, recent}
use rsfu.Buffer.State.{Buffer, PendingPacket, CodecType, unspecified, audio, video, new}
use rsfu.Buffer.Feedback.{Floats}
use rsfu.Buffer.Calc.{Event}
use rsfu.Buffer.Calc.Arrivals.{calc_all, calc_all-get, packets}
use rsfu.Prelude.{Awaited, done, blocked, await}
use rsfu.Buffer.Endpoint.{
  WebrtcNames, CodecParameters, HeaderExtension, use_feedback, use_audio_level, use_codec, use_mime,
  find_twcc, configure, replay, bind,
}

-- What the choice of a codec leaves alone.
record Same {F : Type 0} (b b' : Buffer F) : Type 0 where
  pending : b'.pending_packets ≡ b.pending_packets
  bucket : b'.bucket ≡ b.bucket
  counted : b'.stats.packet_count ≡ b.stats.packet_count

module _ {F : Type 0} where
  Same-trans : (b b' b'' : Buffer F) → Same b b' → Same b' b'' → Same b b''
  Same-trans b b' b'' h k = record {
    pending = k.pending ∙ h.pending;
    bucket = k.bucket ∙ h.bucket;
    counted = k.counted ∙ h.counted;
  }

  Same-if : (t : Bool) (b c d : Buffer F) → Same b c → Same b d → Same b (if t then c else d)
  Same-if true b c d h k = h
  Same-if false b c d h k = k

module _ (names : WebrtcNames) {F : Type 0} where
  use_feedback-Same : (b : Buffer F) (ts : List String) → Same b (use_feedback names b ts)
  unfolding use_feedback
  use_feedback-Same b [] = record { pending = refl; bucket = refl; counted = refl }
  use_feedback-Same b (t ∷ ts) =
      let last =
        if same t names.nack then record b { nack = true; nacker = some Nack.new } else b in
      let later = if same t names.transport_cc then record b { twcc = true } else last in
      let next = if same t names.goog_remb then record b { remb = true } else later in
      Same-trans b next _
        (Same-if (same t names.goog_remb) b (record b { remb = true }) later
          (record { pending = refl; bucket = refl; counted = refl })
          (Same-if (same t names.transport_cc) b (record b { twcc = true }) last
            (record { pending = refl; bucket = refl; counted = refl })
            (Same-if (same t names.nack) b (record b { nack = true; nacker = some Nack.new }) b
              (record { pending = refl; bucket = refl; counted = refl })
              (record { pending = refl; bucket = refl; counted = refl }))))
        (use_feedback-Same next ts)

  use_audio_level-Same :
      (b : Buffer F) (es : List HeaderExtension) → Same b (use_audio_level names b es)
  unfolding use_audio_level
  use_audio_level-Same b [] = record { pending = refl; bucket = refl; counted = refl }
  use_audio_level-Same b (e ∷ es) =
      let noted = record b { audio_level = true; audio_ext = e.id % 2 ^ 8 } in
      let next = if same e.uri names.audio_level_uri then noted else b in
      Same-trans b next _
        (Same-if (same e.uri names.audio_level_uri) b noted b
          (record { pending = refl; bucket = refl; counted = refl })
          (record { pending = refl; bucket = refl; counted = refl }))
        (use_audio_level-Same next es)

  use_codec-Same :
      (b : Buffer F) (codec : CodecParameters) (es : List HeaderExtension)
      → Same b (use_codec names b codec es)
  unfolding use_codec
  use_codec-Same b codec es = of_type b.codec_type
    where
      of_type :
          (t : CodecType)
          → Same b (elim t as (λ _. Buffer F) [
            | video ↦ use_feedback names b codec.rtcp_feedback
            | audio ↦ use_audio_level names b es
            | unspecified ↦ b
          ])
      of_type video = use_feedback-Same b codec.rtcp_feedback
      of_type audio = use_audio_level-Same b es
      of_type unspecified = record { pending = refl; bucket = refl; counted = refl }

  -- The pool of a media type.
  abbrev pub pool : Buffer F → String → Option Bucket
  pool b mime =
      if Text.starts_with mime "audio/"
      then some (Bucket.new b.audio_pool_len)
      else if Text.starts_with mime "video/"
      then some (Bucket.new b.video_pool_len)
      else b.bucket

  use_mime_lem :
      (b : Buffer F)
      → ((use_mime names b).pending_packets ≡ b.pending_packets)
        × ((use_mime names b).bucket ≡ pool b b.mime)
        × ((use_mime names b).stats.packet_count ≡ b.stats.packet_count)
  unfolding use_mime
  use_mime_lem b = elim (Bool-cases (Text.starts_with b.mime "audio/")) [
    | inl e ↦ (rw e, rw e, rw e)
    | inr e ↦ elim (Bool-cases (Text.starts_with b.mime "video/")) [
      | inl e' ↦ (rw (e, e'), rw (e, e'), rw (e, e'))
      | inr e' ↦ (rw (e, e'), rw (e, e'), rw (e, e'))
    ]
  ]

  configure_lem :
      (b : Buffer F) (codec : CodecParameters) (es : List HeaderExtension) (max_bitrate : ℕ)
      → let b' = configure names b codec es max_bitrate in
        (b'.pending_packets ≡ b.pending_packets)
        × (b'.bucket ≡ pool b (names.to_lowercase codec.mime_type))
        × (b'.stats.packet_count ≡ b.stats.packet_count)
  unfolding configure
  configure_lem b codec es max_bitrate =
      let described = record b {
        clock_rate = codec.clock_rate;
        max_bitrate = max_bitrate;
        mime = names.to_lowercase codec.mime_type;
      } in
      let (pending, bucket, counted) = use_mime_lem described in
      let typed = use_mime names described in
      let k =
        use_codec-Same (record typed { twcc_ext = find_twcc names typed.twcc_ext es }) codec es in
      (k.pending ∙ pending, k.bucket ∙ bucket, k.counted ∙ counted)

module _ {F : Type 0} (rtp : RtpCrate) (f : Floats F) (names : WebrtcNames) where
  -- Everything that follows from the packets that came before.
  abbrev replayed : Buffer F → List PendingPacket → Awaited (Outcome (Buffer F × List Event))
  replayed c pending =
      await (replay rtp f true c pending [])
        λ o. done (o >>= λ r. ok (record r.0 { pending_packets = []; bound = true }, r.1))

  bind-replayed :
      (b : Buffer F) (codec : CodecParameters) (es : List HeaderExtension) (max_bitrate : ℕ)
      → bind rtp f names b codec es max_bitrate
        ≡ replayed (configure names b codec es max_bitrate) b.pending_packets
  unfolding bind
  bind-replayed b codec es max_bitrate =
      ap (replayed (configure names b codec es max_bitrate))
        (configure_lem names b codec es max_bitrate).0

  -- `bind` never ends where a packet was written before it: the first of these goes to `calc`, which
  -- waits for the lock that `bind` holds. With no such packet it ends, with the codec configured, the
  -- buffer bound, and no callback made.
  pub bind_lem :
      (b : Buffer F) (codec : CodecParameters) (es : List HeaderExtension) (max_bitrate : ℕ)
      → bind rtp f names b codec es max_bitrate
        ≡ elim b.pending_packets as (λ _. Awaited (Outcome (Buffer F × List Event))) [
          | [] ↦ done (
              ok (
                record (configure names b codec es max_bitrate) {
                  pending_packets = [];
                  bound = true;
                },
                [],
              ))
          | _ ∷ _ ↦ blocked
        ]
  unfolding replay
  bind_lem b codec es max_bitrate = bind-replayed b codec es max_bitrate ∙ split b.pending_packets
    where
      c : Buffer F
      c = configure names b codec es max_bitrate

      split :
          (pending : List PendingPacket)
          → replayed c pending ≡ elim pending as (λ _. Awaited (Outcome (Buffer F × List Event))) [
            | [] ↦ done (ok (record c { pending_packets = []; bound = true }, []))
            | _ ∷ _ ↦ blocked
          ]
      split [] = refl
      split (p ∷ ps) = refl

  -- From a new buffer, bound to a video codec, through a stream of packets of 4 to 1498 bytes that carry
  -- consecutive sequence numbers from `sn` (below 65536) on: `bind` ends, `calc` returns for each packet,
  -- and each of the newest 500 is found in the bucket by its sequence number, whole, whatever the
  -- feedback and header extensions of the codec are. Packets of 1499 and 1500 bytes, which the program
  -- also reads, are not covered.
  pub bind-calc_all :
      (f0 : F) (ssrc : ℕ) (codec : CodecParameters) (es : List HeaderExtension) (max_bitrate : ℕ)
      (sn i : ℕ) (p q : List ℕ) (arrival : ℤ) (ps : List (List ℕ × ℤ))
      → Text.starts_with (names.to_lowercase codec.mime_type) "audio/" ≡ false
      → Text.starts_with (names.to_lowercase codec.mime_type) "video/" ≡ true
      → sn < 65536
      → Consecutive sn (p ∷ packets ps)
      → get_elem? (recent 499 [] (p ∷ packets ps)) i ≡ some q
      → (b b' : Buffer F) × (bk : Bucket) × (bind rtp f names (new f0 ssrc) codec es max_bitrate
          ≡ done (ok (b, [])))
        × (calc_all rtp f b ((p, arrival) ∷ ps) ≡ ok b')
        × (b'.bucket ≡ some bk)
        × (get bk (sn_back ((sn + length (packets ps)) % 65536) i) ≡ ok (some q))
  unfolding new
  bind-calc_all f0 ssrc codec es max_bitrate sn i p q arrival ps no_audio is_video l c e =
      let (pending, bucket, counted) = configure_lem names (new f0 ssrc) codec es max_bitrate in
      let bound = record (configure names (new f0 ssrc) codec es max_bitrate) {
        pending_packets = [];
        bound = true;
      } in
      let chosen : pool names (new f0 ssrc) (names.to_lowercase codec.mime_type)
          ≡ some (Bucket.new 750000) =
        rw (no_audio, is_video) in
      let (b', bk, ends, held, found) =
        calc_all-get rtp f bound 750000 sn i p q arrival ps (omega arith) (omega arith) l
          (bucket ∙ chosen) counted c e in
      (bound, b', bk, bind_lem (new f0 ssrc) codec es max_bitrate, ends, held, found)
