-- ===== src/Sfu/Session/Landing.antt =====
-- What `join` leaves where the crate makes what it is asked for, step by step.
use mathlib.Core.List.{append-nil}
use rsfu.Prelude.{
  ℕ, Bool, true, false, not, ◌||◌, Option, none, some, List, [], ◌∷◌, ◌++◌, map, String,
  if◌then◌else◌, ◌≡◌, refl, sym, ap, ◌∙◌, Bool-cases, inl, inr,
}
use rsfu.Prelude.Maps.{HashMap, insert, text_key, number_key, insert-insert, lookup-insert_self}
use rsfu.Sfu.Connection.{Call, RtcDataChannel, err_transport_exists, returned, refused, after}
use rsfu.Sfu.Subscriber
use rsfu.Sfu.Subscriber.{Subscriber}
use rsfu.Sfu.Publisher.{Publisher, new_publisher}
use rsfu.Sfu.Peer.{PeerLocal, JoinConfig}
use rsfu.Sfu.Session.{SessionLocal, add_peer, get_data_channels}
use rsfu.Sfu.Session.Joining.{
  World, is_some, named, joined_subscriber, add_channels, entering, with_router, entered,
  subscribe_last, in_room, copy_of, join,
}
use rsfu.Sfu.Session.Subscribing.{Routers, subscribe, subscribe_by, open_all, take_all}

abbrev with_channels : World → List String → Subscriber → Subscriber
with_channels w [] s = s
with_channels w (label ∷ labels) s =
    with_channels w labels (Subscriber.register_data_channel s label (w.created label))

module _ (fails : Call → Bool) (w : World) (cfg : JoinConfig) where
  add_channels_lem :
      ((label : String) → fails (Call.create_data_channel label) ≡ false)
      → (labels : List String) (p : PeerLocal) (s : Subscriber) (session : Option SessionLocal)
      → add_channels fails w cfg labels (record p { subscriber = some s }, session) ≡ (
        (record p { subscriber = some (with_channels w labels s) }, session),
        map Call.create_data_channel labels,
        returned tt,
      )
  unfolding Subscriber.add_data_channel
  add_channels_lem works [] p s session = refl
  add_channels_lem works (label ∷ labels) p s session = rw (
    works label,
    add_channels_lem works labels p (Subscriber.register_data_channel s label (w.created label))
        session,
  )

  -- The peer when it enters the session, and the calls up to there.
  abbrev seated : List String → String → PeerLocal → SessionLocal → PeerLocal
  seated labels uid p s =
      let p' = named fails w cfg uid (some s) p in
      let sub = joined_subscriber fails w cfg p'.id in
      record p' {
        subscriber =
            if cfg.no_subscribe
            then p.subscriber
            else some (if cfg.no_publish then sub else with_channels w labels sub);
        publisher = if cfg.no_publish then p.publisher else some (new_publisher p'.id);
      }

  abbrev pub channel_calls : List String → List Call
  channel_calls labels =
      if cfg.no_subscribe || cfg.no_publish then [] else map Call.create_data_channel labels

  entering-seated :
      (labels : List String) (uid : String) (p : PeerLocal) (s : SessionLocal)
      → w.subscriber_made ≡ true
      → w.publisher_made ≡ true
      → ((label : String) → fails (Call.create_data_channel label) ≡ false)
      → entering fails w cfg labels uid p (some s) ≡ (
        (seated labels uid p s, some (add_peer s (seated labels uid p s))),
        channel_calls labels,
        returned tt,
      )
  entering-seated labels uid p s made made' works =
      let p' = named fails w cfg uid (some s) p in
      let channels =
        add_channels_lem works labels p' (joined_subscriber fails w cfg p'.id) (some s) in
      elim (Bool-cases cfg.no_subscribe) [
        | inl e ↦ elim (Bool-cases cfg.no_publish) [
          | inl e' ↦ simp (e, e')
          | inr e' ↦ simp (e, e', made')
        ]
        | inr e ↦ elim (Bool-cases cfg.no_publish) [
          | inl e' ↦ simp (e, e', made)
          | inr e' ↦
              simp (e, e', made, made', channels, append-nil (map Call.create_data_channel labels))
        ]
      ]

-- What a call of `subscribe` leaves, for a peer with a subscriber: the session has the peer with its new
-- subscriber, and the last call asks for an offer.
subscribe_lem :
    (fails : Call → Bool) (w : World) (s : SessionLocal) (routers : Routers) (p : PeerLocal)
    (sub : Subscriber)
    → p.subscriber ≡ some sub
    → (sub' : Subscriber) × (ls : HashMap ℕ (List RtcDataChannel)) × (routers' : Routers)
      × (cs : List Call) × (subscribe fails w.created w.is_open w.now s routers p ≡ (
        (
          record s {
            peers = insert s.peers p.id (record p { subscriber = some sub' });
            listeners = ls;
          },
          routers',
        ),
        cs ++ Call.negotiate ∷ [],
        returned tt,
      ))
unfolding subscribe
subscribe_lem fails w s routers p sub e =
    let opens =
      open_all fails w.created (get_data_channels w.is_open s p.id) s.fanout_data_channels sub
        s.listeners in
    let takes = take_all fails w.now s.peers p.id opens.0 routers in
    (
      takes.0,
      opens.1,
      takes.1,
      opens.2 ++ takes.2,
      ap (subscribe_by fails w.created w.is_open w.now s routers p) e,
    )

module _ (fails : Call → Bool) (w : World) (cfg : JoinConfig) where
  -- What a peer that has joined is, and what the session is with it.
  pub record Landed (labels : List String) (uid : String) (p : PeerLocal) (s : SessionLocal)
      (routers : Routers) : Type 0 where
    pub peer : PeerLocal
    pub session : SessionLocal
    pub later : Routers
    pub calls : List Call
    pub run : join fails w cfg labels uid p (some s) routers ≡ (
      ((peer, some session), later),
      channel_calls fails w cfg labels
          ++ (if cfg.no_subscribe then [] else calls ++ Call.negotiate ∷ []),
      returned tt,
    )
    pub id : peer.id ≡ (named fails w cfg uid (some s) p).id
    pub inside : peer.session ≡ some s.id
    pub closed : peer.closed ≡ p.closed
    pub subscriber : is_some peer.subscriber ≡ (not cfg.no_subscribe || is_some p.subscriber)
    pub publisher : is_some peer.publisher ≡ (not cfg.no_publish || is_some p.publisher)
    pub peers : session.peers ≡ insert s.peers peer.id peer
    pub relays : session.relay_peers ≡ s.relay_peers
    pub name : session.id ≡ s.id
    pub still : session.closed ≡ s.closed

  pub join-Landed :
      (labels : List String) (uid : String) (p : PeerLocal) (s : SessionLocal) (routers : Routers)
      → p.session ≡ none
      → w.subscriber_made ≡ true
      → w.publisher_made ≡ true
      → ((label : String) → fails (Call.create_data_channel label) ≡ false)
      → Landed labels uid p s routers
  unfolding join add_peer
  join-Landed labels uid p s routers new made made' works =
      let p₀ = seated fails w cfg labels uid p s in
      let s₀ = add_peer s p₀ in
      let routers₀ = with_router fails w cfg routers p₀.id in
      let cs₀ = channel_calls fails w cfg labels in
      let enters : join fails w cfg labels uid p (some s) routers
          ≡ after cs₀ (subscribe_last fails w cfg routers₀ p₀ (some s₀)) =
        ap
          (λ o.
            if is_some o
            then (((p, some s), routers), [], refused err_transport_exists)
            else entered fails w cfg routers (entering fails w cfg labels uid p (some s)))
          new
        ∙ ap (entered fails w cfg routers)
            (entering-seated fails w cfg labels uid p s made made' works) in
      elim (Bool-cases cfg.no_subscribe) [
        | inl e ↦ record {
          peer = p₀;
          session = s₀;
          later = routers₀;
          calls = [];
          run = enters ∙ simp e;
          id = refl;
          inside = refl;
          closed = refl;
          subscriber = simp e;
          publisher = has_publisher (some (new_publisher p₀.id)) refl cfg.no_publish;
          peers = refl;
          relays = refl;
          name = refl;
          still = refl;
        }
        | inr e ↦
            let joins = joined_subscriber fails w cfg p₀.id in
            let sub = if cfg.no_publish then joins else with_channels w labels joins in
            let (sub', ls, routers', cs, done) =
              subscribe_lem fails w s₀ routers₀ p₀ sub (simp e) in
            let p' : PeerLocal = record p₀ { subscriber = some sub' } in
            let s' : SessionLocal = record s₀ {
              peers = insert s₀.peers p₀.id p';
              listeners = ls;
            } in
            record {
              peer = p';
              session = s';
              later = routers';
              calls = cs;
              run =
                  enters
                  ∙ ap
                      (λ b. after cs₀ (
                        if b
                        then (((p₀, some s₀), routers₀), [], returned tt)
                        else in_room fails w cfg p₀
                            (subscribe fails w.created w.is_open w.now s₀ routers₀ p₀)))
                      e
                  ∙ ap (λ r. after cs₀ (in_room fails w cfg p₀ r)) done
                  ∙ ap
                      (λ o. (
                        ((copy_of fails w cfg p₀ o, some s'), routers'),
                        cs₀ ++ (cs ++ Call.negotiate ∷ []),
                        returned tt,
                      ))
                      (lookup-insert_self s₀.peers p₀.id p')
                  ∙ ap
                      (λ b. (
                        ((p', some s'), routers'),
                        cs₀ ++ (if b then [] else cs ++ Call.negotiate ∷ []),
                        returned tt,
                      ))
                      (sym e);
              id = refl;
              inside = refl;
              closed = refl;
              subscriber = simp e;
              publisher = has_publisher (some (new_publisher p₀.id)) refl cfg.no_publish;
              peers = insert-insert s.peers p₀.id p₀ p';
              relays = refl;
              name = refl;
              still = refl;
            }
      ]
    where
      has_publisher :
          (o : Option Publisher)
          → is_some o ≡ true
          → (b : Bool) → is_some (if b then p.publisher else o) ≡ (not b || is_some p.publisher)
      has_publisher o e true = refl
      has_publisher o e false = e
