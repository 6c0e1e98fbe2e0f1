-- ===== src/Sfu/Session/Subscribing.antt =====
-- rsfu/src/sfu/session.rs: what a peer that joins gets of the session (`subscribe`): a channel for each
-- label, and the tracks of the other peers. The routers of the peers' publishers are a map by the peers'
-- ids.
use rsfu.Prelude.{ℕ, Bool, Option, none, some, List, [], ◌∷◌, ◌++◌, String, if◌then◌else◌}
use rsfu.Prelude.Texts.{same}
use rsfu.Prelude.Maps.{HashMap, lookup, insert, text_key, number_key}
use rsfu.Sfu.Connection.{Call, RtcDataChannel, Answered, returned, refused, panicked, Run}
use rsfu.Sfu.Subscriber
use rsfu.Sfu.Subscriber.{Subscriber}
use rsfu.Sfu.Publisher.{Publisher}
use rsfu.Sfu.Router.{RouterLocal, Published}
use rsfu.Sfu.Router.Downlink.{add_down_tracks}
use rsfu.Sfu.Peer.{PeerLocal}
use rsfu.Sfu.Session.{SessionLocal, listen, get_data_channels}

abbrev pub Routers : Type 0
Routers = HashMap String RouterLocal

abbrev pub opened : Run Subscriber RtcDataChannel → Subscriber × Option RtcDataChannel × List Call
opened (s, cs, returned dc) = (s, some dc, cs)
opened (s, cs, refused e) = (s, none, cs)
opened (s, cs, panicked) = (s, none, cs)

module _ (fails : Call → Bool) (created : String → RtcDataChannel) where
  -- The loop over the labels; `heard` is what the handler of a label's channel is given.
  unfoldable pub open_all :
      (String → List RtcDataChannel)
      → List String
      → Subscriber
      → HashMap ℕ (List RtcDataChannel)
      → Subscriber × HashMap ℕ (List RtcDataChannel) × List Call
  open_all heard [] s ls = (s, ls, [])
  open_all heard (label ∷ labels) s ls =
      let (s', dc, cs) = opened (Subscriber.add_data_channel_2 fails (created label) label s) in
      let (s'', ls', cs') = open_all heard labels s' (listen ls dc (heard label)) in
      (s'', ls', cs ++ cs')

-- What the routers have after a subscriber got its tracks of one of them; an error is passed over.
abbrev pub with_receivers :
    Routers
    → String
    → RouterLocal
    → Run (Subscriber × HashMap String Published) (Unit {0})
    → Subscriber × Routers × List Call
with_receivers routers id r ((s, ps), cs, _) =
    (s, insert routers id (record r { receivers = ps }), cs)

module _ (fails : Call → Bool) (now : ℕ) where
  abbrev pub take_of :
      Routers → String → Option RouterLocal → Subscriber → Subscriber × Routers × List Call
  take_of routers id none s = (s, routers, [])
  take_of routers id (some r) s =
      with_receivers routers id r (add_down_tracks fails r now s r.receivers)

  abbrev pub take_from :
      Option Publisher → Routers → String → String → Subscriber → Subscriber × Routers × List Call
  take_from none routers own id s = (s, routers, [])
  take_from (some _) routers own id s =
      if same id own then (s, routers, []) else take_of routers id (lookup routers id) s

  -- The loop over the peers; those without a publisher are passed over.
  unfoldable pub take_all :
      HashMap String PeerLocal → String → Subscriber → Routers → Subscriber × Routers × List Call
  take_all [] own s routers = (s, routers, [])
  take_all ((_, p) ∷ ps) own s routers =
      let (s', routers', cs) = take_from p.publisher routers own p.id s in
      let (s'', routers'', cs') = take_all ps own s' routers' in (s'', routers'', cs ++ cs')

module _ (fails : Call → Bool) (created : String → RtcDataChannel) (is_open : RtcDataChannel → Bool)
    (now : ℕ) where
  -- Without a subscriber `unwrap` panics.
  abbrev pub subscribe_by :
      SessionLocal
      → Routers
      → PeerLocal
      → Option Subscriber
      → (SessionLocal × Routers) × List Call × Answered (Unit {0})
  subscribe_by s routers p none = ((s, routers), [], panicked)
  subscribe_by s routers p (some sub) =
      let (sub₁, ls, cs) =
        open_all fails created (get_data_channels is_open s p.id) s.fanout_data_channels sub
          s.listeners in
      let (sub₂, routers', cs') = take_all fails now s.peers p.id sub₁ routers in
      let p' : PeerLocal = record p { subscriber = some sub₂ } in
      (
        (record s { peers = insert s.peers p.id p'; listeners = ls }, routers'),
        cs ++ cs' ++ Call.negotiate ∷ [],
        returned tt,
      )

  unfoldable pub subscribe :
      SessionLocal
      → Routers
      → PeerLocal
      → (SessionLocal × Routers) × List Call × Answered (Unit {0})
  subscribe s routers p = subscribe_by s routers p p.subscriber
