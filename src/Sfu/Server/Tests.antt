-- ===== src/Sfu/Server/Tests.antt =====
-- The theorem at a server with one session.
use rsfu.Prelude.{true, false, [], ◌∷◌, ◌≡◌, refl}
use rsfu.Prelude.Int.{pos}
use rsfu.Prelude.Texts.{same}
use rsfu.Prelude.Maps.{lookup, text_key}
use rsfu.Sfu.Peer
use rsfu.Sfu.Peer.{PeerLocal, JoinConfig}
use rsfu.Sfu.Session
use rsfu.Sfu.Session.Joining.{World}
use rsfu.Sfu.Server.{Sfu, join_at, close_at}
use rsfu.Sfu.Server.Rooms.{close_at-join_at}

abbrev server : Sfu
server = record {
  sessions = ("room", Session.new "room") ∷ [];
  data_channels = "rsfu" ∷ [];
  with_status = false;
}

abbrev world : World
world = record {
  subscriber_made = true;
  publisher_made = true;
  fresh_id = "f";
  created = λ label. record { number = 3; label = label };
  is_open = λ _. true;
  now = 0;
  router_config = record {
    with_stats = false;
    max_packet_track = pos 500;
    best_quality_first = true;
  };
}

abbrev config : JoinConfig
config = record { no_publish = false; no_subscribe = false; no_auto_subscribe = false }

abbrev during : Sfu
during = (join_at (λ _. false) world config "a" "hall" server [] Peer.new).0

abbrev joined : PeerLocal
joined = (join_at (λ _. false) world config "a" "hall" server [] Peer.new).2

close_at-join_at_example :
    ((close_at (λ _. true) during joined).0.sessions ≡ server.sessions)
    × ((close_at (λ _. true) during joined).1.closed ≡ true)
unfolding lookup same
close_at-join_at_example =
    close_at-join_at (λ _. false) (λ _. true) world config "a" "hall" server [] Peer.new refl refl
      refl refl refl (λ _. refl)
