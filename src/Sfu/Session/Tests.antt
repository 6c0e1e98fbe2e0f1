-- ===== src/Sfu/Session/Tests.antt =====
-- The theorems at a session with two peers, one of them with a subscriber.
use rsfu.Prelude.{true, false, none, some, List, [], ◌∷◌, String, ◌≡◌, refl}
use rsfu.Prelude.Int.{pos}
use rsfu.Prelude.Texts.{same}
use rsfu.Prelude.Maps.{lookup, text_key}
use rsfu.Sfu.Connection.{RtcDataChannel, err_transport_exists, err_web_rtc, returned, refused}
use rsfu.Sfu.Subscriber
use rsfu.Sfu.Peer
use rsfu.Sfu.Peer.{PeerLocal, JoinConfig}
use rsfu.Sfu.Session
use rsfu.Sfu.Session.{SessionLocal, Message, add_data_channel, on_message}
use rsfu.Sfu.Session.Channels.{on_message-add_data_channel}
use rsfu.Sfu.Session.Entry.{join-make_subscriber}
use rsfu.Sfu.Session.Joining.{World, join}
use rsfu.Sfu.Session.Members.{Visit, comes, goes, visit_all, visit_all-present}

abbrev named : String → PeerLocal
named id = record Peer.new { id = id; subscriber = some (Subscriber.new id) }

abbrev session : SessionLocal
session = record (Session.new "room") { peers = ("a", named "a") ∷ ("b", named "b") ∷ [] }

abbrev visits : List Visit
visits = comes (named "c") ∷ goes (named "a") ∷ comes (named "a") ∷ goes (named "c") ∷ []

visit_all-present_example :
    (lookup (visit_all session visits).peers "c" ≡ none)
    × ((visit_all session visits).closed ≡ false)
unfolding lookup same
visit_all-present_example =
    visit_all-present session visits "c" "b" (named "b") refl (refl, (refl, tt))

abbrev channel : RtcDataChannel
channel = record { number = 1; label = "chat" }

abbrev message : Message
message = record { bytes = 104 ∷ []; text = some "h"; is_string = true }

on_message-add_data_channel_example :
    on_message
      (add_data_channel
        (λ _. false)
        (λ id. record { number = 2; label = "chat" })
        (λ _. true)
        session
        "a"
        channel).0
      channel
      message
    ≡ ([], returned tt)
unfolding lookup same
on_message-add_data_channel_example =
    on_message-add_data_channel (λ _. true) (λ _. false)
      (λ id. record { number = 2; label = "chat" }) session "a" channel (named "a") message refl
      (refl, (refl, tt))

abbrev world : World
world = record {
  subscriber_made = true;
  publisher_made = true;
  fresh_id = "f";
  created = λ label. record { number = 3; label = label };
  is_open = λ _. true;
  now = 0;
  router_config = record {
    with_stats = false;
    max_packet_track = pos 500;
    best_quality_first = true;
  };
}

abbrev config : JoinConfig
config = record { no_publish = false; no_subscribe = false; no_auto_subscribe = false }

abbrev labels : List String
labels = "rsfu" ∷ []

abbrev poor : World
poor = record world { subscriber_made = false }

abbrev half : PeerLocal
half = (join (λ _. false) poor config labels "c" Peer.new (some session) []).0.0.0

join-make_subscriber_example :
    ((join (λ _. false) poor config labels "c" Peer.new (some session) []).2 ≡ refused err_web_rtc)
    × ((join (λ _. false) poor config labels "c" Peer.new (some session) []).0.0.1 ≡ some session)
    × ((join (λ _. false) poor config labels "c" Peer.new (some session) []).0.1 ≡ [])
    × ((join (λ _. false) world config labels "c" half (some session) []).2
        ≡ refused err_transport_exists)
join-make_subscriber_example =
    join-make_subscriber (λ _. false) (λ _. false) poor world config config labels labels "c" "c"
      Peer.new session (some session) [] [] refl refl refl
