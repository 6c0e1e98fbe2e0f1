-- ===== src/Sfu/Session/Entry.antt =====
-- How a peer comes into a session (`join`).
use rsfu.Prelude.{Bool, false, Option, none, some, List, String, ◌≡◌}
use rsfu.Prelude.Maps.{text_key}
use rsfu.Sfu.Connection.{Call, err_transport_exists, err_web_rtc, refused}
use rsfu.Sfu.Peer.{PeerLocal, JoinConfig}
use rsfu.Sfu.Session.{SessionLocal}
use rsfu.Sfu.Session.Joining.{World, join}
use rsfu.Sfu.Session.Subscribing.{Routers}

-- A peer that is in no session is to join one with a subscriber, whose connection the crate does not make:
-- the join fails and the session is as it was, without the peer; and another join of this peer is refused,
-- whatever it asks for then, as if the first had succeeded.
pub join-make_subscriber :
    (fails fails' : Call → Bool) (w w' : World) (cfg cfg' : JoinConfig)
    (labels labels' : List String) (uid uid' : String) (p : PeerLocal) (s : SessionLocal)
    (session' : Option SessionLocal) (routers routers' : Routers)
    → p.session ≡ none
    → cfg.no_subscribe ≡ false
    → w.subscriber_made ≡ false
    → let (((p₁, session₁), routers₁), _, a) = join fails w cfg labels uid p (some s) routers in
      (a ≡ refused err_web_rtc)
      × (session₁ ≡ some s)
      × (routers₁ ≡ routers)
      × ((join fails' w' cfg' labels' uid' p₁ session' routers').2 ≡ refused err_transport_exists)
unfolding join
join-make_subscriber fails fails' w w' cfg cfg' labels labels' uid uid' p s session' routers
      routers' new wanted unmade =
    (
      simp (new, wanted, unmade),
      simp (new, wanted, unmade),
      simp (new, wanted, unmade),
      simp (new, wanted, unmade),
    )
