-- ===== src/Sfu/Subscriber/Tests.antt =====
-- The theorems at a subscriber with two candidates, some tracks.
use rsfu.Prelude.{true, false, some, [], ◌∷◌, String, ◌≡◌, refl, arith}
use rsfu.Prelude.Int.{pos}
use rsfu.Prelude.Texts.{same}
use rsfu.Prelude.Maps.{lookup, text_key}
use rsfu.Sfu.Connection.{Call, returned}
use rsfu.Sfu.DownTrack
use rsfu.Sfu.DownTrack.{DownTrack}
use rsfu.Sfu.Subscriber
use rsfu.Sfu.Subscriber.{Subscriber, get_downtracks, remove_down_track}
use rsfu.Sfu.Subscriber.Candidates.{candidate, description, receive_all, receive_all-description}
use rsfu.Sfu.Subscriber.Reports.{down_track_reports, down_track_reports-collect}
use rsfu.Sfu.Subscriber.Tracks.{remove_down_track-append}

abbrev subscriber : Subscriber
subscriber = record (Subscriber.new "s") { candidates = "a" ∷ [] }

receive_all-description_example :
    receive_all
      (λ _. false)
      (candidate "b" ∷ description "d" ∷ candidate "c" ∷ [])
      (record subscriber { remote_description = false })
    ≡ (
      record subscriber { candidates = []; remote_description = true },
      Call.set_remote_description "d"
          ∷ Call.add_ice_candidate "a"
          ∷ Call.add_ice_candidate "b"
          ∷ Call.add_ice_candidate "c"
          ∷ [],
      returned tt,
    )
receive_all-description_example =
    receive_all-description (λ _. false) (λ _. refl) subscriber ("b" ∷ []) ("c" ∷ []) "d"

abbrev track : String → DownTrack
track id =
    DownTrack.new
      (record {
        mime_type = "video/vp8";
        clock_rate = 90000;
        sdp_fmtp_line = "";
        payload_type = 96;
      })
      id "stream" "p" (pos 8) 0

abbrev watching : Subscriber
watching = record subscriber { tracks = ("stream", track "x" ∷ track "y" ∷ track "z" ∷ []) ∷ [] }

down_track_reports-collect_example :
    down_track_reports (λ _. record { sr_rtp = 900; now_ntp = 5; mid = "0" }) watching 3 ≡ some []
down_track_reports-collect_example =
    down_track_reports-collect (λ _. record { sr_rtp = 900; now_ntp = 5; mid = "0" }) watching 3

remove_down_track-append_example :
    (get_downtracks (remove_down_track watching "stream" (track "y")) "stream"
      ≡ some (track "x" ∷ track "z" ∷ []))
    × (get_downtracks (remove_down_track watching "stream" (track "y")) "screen"
        ≡ get_downtracks watching "screen")
unfolding lookup same DownTrack.new DownTrack.new_track_local
remove_down_track-append_example =
    remove_down_track-append watching "stream" "screen" (track "x" ∷ []) (track "z" ∷ [])
      (track "y") refl (omega arith) (refl, tt) refl
