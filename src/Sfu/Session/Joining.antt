-- ===== src/Sfu/Session/Joining.antt =====
-- rsfu/src/sfu/peer.rs: how a peer joins a session and leaves it (`join`, `close`). The provider's session
-- is a parameter, and may be none. The handlers that `join` sets pass on what the crate tells of; the one
-- for `on_negotiate` is in Peer. `labels` are those of the data channels of the server (sfu.rs), a list
-- that all its sessions share.
use rsfu.Prelude.{
  ℕ, Bool, true, false, not, ◌&&◌, Option, none, some, List, [], ◌∷◌, String, if◌then◌else◌,
}
use rsfu.Prelude.Texts.{same}
use rsfu.Prelude.Maps.{lookup, insert, text_key}
use rsfu.Sfu.Connection.{
  Call, err_transport_exists, err_web_rtc, RtcDataChannel, returned, refused, panicked, Run, Action,
  pure, raise, gets, modify, after, call, ◌>>=◌, ◌>>◌,
}
use rsfu.Sfu.Subscriber
use rsfu.Sfu.Subscriber.{Subscriber}
use rsfu.Sfu.Publisher.{Publisher, new_publisher}
use rsfu.Sfu.Router
use rsfu.Sfu.Router.{RouterConfig}
use rsfu.Sfu.Peer.{PeerLocal, JoinConfig}
use rsfu.Sfu.Session.{SessionLocal, add_peer, remove_peer}
use rsfu.Sfu.Session.Subscribing.{Routers, subscribe}

-- What the world answers: whether the crate makes the two connections, the channel that it makes for a
-- label, which channels are open, and the time; the id for a peer without one; and the configuration.
pub record World : Type 0 where
  pub subscriber_made : Bool
  pub publisher_made : Bool
  pub fresh_id : String
  pub created : String → RtcDataChannel
  pub is_open : RtcDataChannel → Bool
  pub now : ℕ
  pub router_config : RouterConfig

abbrev pub Member : Type 0
Member = PeerLocal × Option SessionLocal

-- With the routers of the peers' publishers.
abbrev pub Room : Type 0
Room = Member × Routers

abbrev pub on_peer : (PeerLocal → PeerLocal) → Action Member (Unit {0})
on_peer f = modify (λ (p, s). (f p, s))

abbrev pub is_some {ℓ} : {A : Type ℓ} → Option A → Bool
is_some none = false
is_some (some _) = true

abbrev pub id_of : Option SessionLocal → Option String
id_of none = none
id_of (some s) = some s.id

module _ (fails : Call → Bool) (w : World) (cfg : JoinConfig) where
  abbrev pub joined_subscriber : String → Subscriber
  joined_subscriber id = record (Subscriber.new id) {
    no_auto_subscribe = cfg.no_auto_subscribe;
    on_negotiate_handler = true;
  }

  abbrev pub make_subscriber : Action Member (Unit {0})
  make_subscriber =
      if w.subscriber_made
      then on_peer (λ p. record p { subscriber = some (joined_subscriber p.id) })
      else raise err_web_rtc

  abbrev pub channel_by : Option Subscriber → String → Action Member (Unit {0})
  channel_by none label m = (m, [], returned tt)
  channel_by (some s) label (p, session) =
      let (s', cs, a) = Subscriber.add_data_channel fails (w.created label) label s in
      ((record p { subscriber = some s' }, session), cs, a)

  abbrev pub add_channels : List String → Action Member (Unit {0})
  add_channels [] = pure tt
  add_channels (label ∷ labels) = do
    subscriber ← gets (λ (p, _). p.subscriber)
    channel_by subscriber label
    add_channels labels

  -- Without a session, `unwrap` panics.
  abbrev pub make_publisher : Option SessionLocal → Action Member (Unit {0})
  make_publisher none m = (m, [], panicked)
  make_publisher (some _) m =
      if w.publisher_made
      then on_peer (λ p. record p { publisher = some (new_publisher p.id) }) m
      else raise err_web_rtc m

  abbrev pub publish_side : List String → Option SessionLocal → Action Member (Unit {0})
  publish_side labels session =
      (if is_some session && not cfg.no_subscribe then add_channels labels else pure tt)
      >> make_publisher session

  abbrev pub enter : Action Member (Unit {0})
  enter (p, none) = ((p, none), [], panicked)
  enter (p, some s) = ((p, some (add_peer s p)), [], returned tt)

  abbrev pub named : String → Option SessionLocal → PeerLocal → PeerLocal
  named uid session p = record p {
    id = if same uid "" then w.fresh_id else uid;
    session = id_of session;
  }

  -- Up to the session's list of peers.
  abbrev pub entering :
      List String → String → PeerLocal → Option SessionLocal → Run Member (Unit {0})
  entering labels uid p session =
      ((if cfg.no_subscribe then pure tt else make_subscriber)
          >> (if cfg.no_publish then pure tt else publish_side labels session)
          >> enter)
        (named uid session p, session)

  -- The publisher makes the peer's router.
  abbrev pub with_router : Routers → String → Routers
  with_router routers id =
      if cfg.no_publish then routers else insert routers id (Router.new w.router_config id)

  -- The peer and the one in the session are the same.
  abbrev pub copy_of : PeerLocal → Option PeerLocal → PeerLocal
  copy_of p none = p
  copy_of p (some p') = p'

  abbrev pub in_room : PeerLocal → Run (SessionLocal × Routers) (Unit {0}) → Run Room (Unit {0})
  in_room p ((s, routers), cs, a) = (((copy_of p (lookup s.peers p.id), some s), routers), cs, a)

  abbrev pub subscribe_last : Routers → PeerLocal → Option SessionLocal → Run Room (Unit {0})
  subscribe_last routers p none = (((p, none), routers), [], panicked)
  subscribe_last routers p (some s) =
      if cfg.no_subscribe
      then (((p, some s), routers), [], returned tt)
      else in_room p (subscribe fails w.created w.is_open w.now s routers p)

  abbrev pub entered : Routers → Run Member (Unit {0}) → Run Room (Unit {0})
  entered routers ((p, session), cs, returned _) =
      after cs (subscribe_last (with_router routers p.id) p session)
  entered routers (m, cs, refused e) = ((m, routers), cs, refused e)
  entered routers (m, cs, panicked) = ((m, routers), cs, panicked)

  -- `session` is the one that the provider gives.
  unfoldable pub join :
      List String → String → PeerLocal → Option SessionLocal → Routers → Run Room (Unit {0})
  join labels uid p session routers =
      if is_some p.session
      then (((p, session), routers), [], refused err_transport_exists)
      else entered routers (entering labels uid p session)

-- The subscriber's connection is closed last; that of the publisher in any case.
abbrev pub close_by :
    (Call → Bool) → Option Publisher → Option Subscriber → Action Member (Unit {0})
close_by fails none none m = (m, [], returned tt)
close_by fails (some _) none m = (m, Call.close ∷ [], returned tt)
close_by fails none (some _) m = call fails Call.close m
close_by fails (some _) (some _) m = after (Call.close ∷ []) (call fails Call.close m)

abbrev pub leave : Option SessionLocal → PeerLocal → Option SessionLocal
leave none p = none
leave (some s) p = some (remove_peer s p)

unfoldable pub close : (Call → Bool) → Action Member (Unit {0})
close fails (p, session) =
    let p' : PeerLocal = record p { closed = true } in
    if p.closed
    then ((p, session), [], returned tt)
    else close_by fails p.publisher p.subscriber
        (p', if is_some p.session then leave session p' else session)
