-- ===== src/Sfu/Peer/Tests.antt =====
-- The theorems at a peer whose subscriber has a candidate.
use rsfu.Prelude.{Bool, true, false, some, List, [], ◌∷◌, ◌≡◌, ◌≤◌, ◌+◌, refl}
use rsfu.Sfu.Connection.{Call, on_offer, returned}
use rsfu.Sfu.Subscriber
use rsfu.Sfu.Subscriber.{Subscriber}
use rsfu.Sfu.Peer
use rsfu.Sfu.Peer.{PeerLocal}
use rsfu.Sfu.Peer.Negotiation.{
  Event, ask, close, reply, act, course, course-offers, waiting, ask-reply,
}

abbrev subscriber : Subscriber
subscriber = record (Subscriber.new "s") { on_negotiate_handler = true; candidates = "a" ∷ [] }

abbrev peer : PeerLocal
peer = record Peer.new { subscriber = some subscriber; on_offer_handler = true }

abbrev events : List ((Call → Bool) × Event)
events =
    ((λ _. false), ask)
    ∷ ((λ _. false), ask)
    ∷ ((λ _. true), reply "early")
    ∷ ((λ _. false), reply "d")
    ∷ ((λ _. false), close)
    ∷ []

course-offers_example : (course "o" events peer).1 ≤ (course "o" events peer).2 + 1
course-offers_example = course-offers "o" events peer refl

ask-reply_example :
    ((act (λ _. false) "o" ask (waiting peer subscriber)).1 ≡ [])
    × (act (λ _. false) "o" (reply "d") (act (λ _. false) "o" ask (waiting peer subscriber)).0 ≡ (
      record (waiting peer (record subscriber { candidates = []; remote_description = true })) {
        negotiation_pending = false;
      },
      Call.set_remote_description "d"
          ∷ Call.add_ice_candidate "a"
          ∷ Call.create_offer
          ∷ Call.set_local_description "o"
          ∷ on_offer
          ∷ [],
      returned tt,
    ))
ask-reply_example = ask-reply (λ _. false) (λ _. refl) "o" "d" peer subscriber
