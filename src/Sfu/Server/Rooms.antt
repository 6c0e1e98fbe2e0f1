-- ===== src/Sfu/Server/Rooms.antt =====
-- A session from the first peer that joins it to the last that leaves.
use rsfu.Prelude.{
  Bool, true, false, Option, none, some, List, [], ◌∷◌, ◌++◌, ◌+◌, ◌==◌, length, String,
  if◌then◌else◌, ◌≡◌, refl, ap, ◌∙◌,
}
use rsfu.Prelude.Maps.{
  lookup, insert, remove, text_key, remove-insert, insert-insert, lookup-insert_self,
}
use rsfu.Sfu.Connection.{Call, returned}
use rsfu.Sfu.Peer.{PeerLocal, JoinConfig}
use rsfu.Sfu.Publisher.{Publisher}
use rsfu.Sfu.Subscriber.{Subscriber}
use rsfu.Sfu.Session
use rsfu.Sfu.Session.{SessionLocal, remove_peer}
use rsfu.Sfu.Session.Joining
use rsfu.Sfu.Session.Joining.{World, Member, join, close_by}
use rsfu.Sfu.Session.Landing.{join-Landed, channel_calls}
use rsfu.Sfu.Session.Subscribing.{Routers}
use rsfu.Sfu.Server.{
  Sfu, get_session, new_session, join_at, close_at, settled, session_or_new, session_of,
  on_session_close,
}

close_by_state :
    (fails : Call → Bool) (u : Option Publisher) (s : Option Subscriber) (m : Member)
    → (close_by fails u s m).0 ≡ m
close_by_state fails none none m = refl
close_by_state fails (some _) none m = refl
close_by_state fails none (some _) m = refl
close_by_state fails (some _) (some _) m = refl

-- The server while the peer is in a session that was new.
abbrev joined : Sfu → String → SessionLocal → Sfu
joined s sid session = settled (new_session s sid).1 (some session)

abbrev closed_peer : PeerLocal → PeerLocal
closed_peer p = record p { closed = true }

close_lem :
    (fails : Call → Bool) (sid : String) (session : SessionLocal) (p : PeerLocal)
    → p.session ≡ some sid
    → p.closed ≡ false
    → (Joining.close fails (p, some session)).0
      ≡ (closed_peer p, some (remove_peer session (closed_peer p)))
unfolding Joining.close
close_lem fails sid session p inside open_still =
    let stays : Option String → Member = λ o. (
      closed_peer p,
      if Joining.is_some o then some (remove_peer session (closed_peer p)) else some session,
    ) in
    ap
      (λ b.
        (if b
          then ((p, some session), [], returned tt)
          else close_by fails p.publisher p.subscriber (stays p.session)).0)
      open_still
    ∙ close_by_state fails p.publisher p.subscriber (stays p.session)
    ∙ ap stays inside

-- A session with the peer alone is closed when it leaves.
emptied :
    (session : SessionLocal) (p : PeerLocal)
    → session.peers ≡ insert [] p.id p
    → session.relay_peers ≡ []
    → remove_peer session (closed_peer p) ≡ Session.close (record session { peers = [] })
unfolding remove_peer lookup
emptied session p alone no_relay =
    let empty : remove session.peers p.id ≡ [] =
      ap (λ m. remove m p.id) alone ∙ remove-insert [] p.id p refl in
    ap
      (λ m.
        let s' : SessionLocal = record session { peers = m } in
        if length m + length session.relay_peers == 0 then Session.close s' else s')
      empty
    ∙ ap
        (λ m.
          let s' : SessionLocal = record session { peers = [] } in
          if 0 + length m == 0 then Session.close s' else s')
        no_relay

leave_lem :
    (fails : Call → Bool) (sid : String) (s : Sfu) (session : SessionLocal) (p : PeerLocal)
    → lookup s.sessions sid ≡ none
    → session.id ≡ sid
    → session.closed ≡ false
    → session.peers ≡ insert [] p.id p
    → session.relay_peers ≡ []
    → p.session ≡ some sid
    → p.closed ≡ false
    → ((close_at fails (joined s sid session) p).0.sessions ≡ s.sessions)
      × ((close_at fails (joined s sid session) p).1.closed ≡ true)
unfolding close_at Session.close new_session
leave_lem fails sid s session p new named open_still alone no_relay inside still =
    let m = insert s.sessions sid (Session.new sid) in
    let after : joined s sid session ≡ record s { sessions = insert m sid session } =
      ap
        (λ b.
          if b
          then on_session_close (record s { sessions = m }) session.id
          else record s { sessions = insert m session.id session })
        open_still
      ∙ ap (λ k. record s { sessions = insert m k session }) named in
    let s' : Sfu = record s { sessions = insert m sid session } in
    let gone = Session.close (record session { peers = [] }) in
    let left : (Joining.close fails (p, session_of s' p.session)).0 ≡ (closed_peer p, some gone) =
      ap (λ o. (Joining.close fails (p, session_of s' o)).0) inside
      ∙ ap (λ o. (Joining.close fails (p, o)).0) (lookup-insert_self m sid session)
      ∙ close_lem fails sid session p inside still
      ∙ ap (λ session. (closed_peer p, some session)) (emptied session p alone no_relay) in
    let empty : remove (insert m sid session) session.id ≡ s.sessions =
      ap (remove (insert m sid session)) named
      ∙ ap (λ m'. remove m' sid) (insert-insert s.sessions sid (Session.new sid) session)
      ∙ remove-insert s.sessions sid session new in
    (
      ap (λ x. (close_at fails x p).0.sessions) after
          ∙ ap (λ m. (settled s' m.1).sessions) left
          ∙ empty,
      ap (λ x. (close_at fails x p).1.closed) after ∙ ap (λ m. m.0.closed) left,
    )

join_at-session_or_new :
    (fails : Call → Bool) (w : World) (cfg : JoinConfig) (uid sid : String) (s : Sfu)
    (routers later : Routers) (p p' : PeerLocal) (session : SessionLocal) (cs : List Call)
    → lookup s.sessions sid ≡ none
    → join fails w cfg s.data_channels uid p (some (Session.new sid)) routers
      ≡ (((p', some session), later), cs, returned tt)
    → join_at fails w cfg uid sid s routers p ≡ (joined s sid session, later, p', returned tt)
unfolding join_at get_session new_session
join_at-session_or_new fails w cfg uid sid s routers later p p' session cs new run =
    ap
      (λ o.
        let (session, s') = session_or_new s sid o in
        let (((p', after), later), _, a) =
          join fails w cfg s'.data_channels uid p (some session) routers in
        (settled s' after, later, p', a))
      new
    ∙ ap
        (λ r.
          let (((p', after), later), _, a) = r in
          (
            settled (record s { sessions = insert s.sessions sid (Session.new sid) }) after,
            later,
            p',
            a,
          ))
        run

-- A peer that is in no session and not closed joins a session that is not there yet, and the crate makes
-- the connections and the channels that the configuration and the server's list of channels ask for; then
-- it leaves. The server has the sessions that it had before, and the peer is closed, also where the
-- subscriber's connection cannot be closed.
pub close_at-join_at :
    (fails fails' : Call → Bool) (w : World) (cfg : JoinConfig) (uid sid : String) (s : Sfu)
    (routers : Routers) (p : PeerLocal)
    → lookup s.sessions sid ≡ none
    → p.session ≡ none
    → p.closed ≡ false
    → w.subscriber_made ≡ true
    → w.publisher_made ≡ true
    → ((label : String) → fails (Call.create_data_channel label) ≡ false)
    → let (s', _, p', _) = join_at fails w cfg uid sid s routers p in
      ((close_at fails' s' p').0.sessions ≡ s.sessions) × ((close_at fails' s' p').1.closed ≡ true)
close_at-join_at fails fails' w cfg uid sid s routers p new apart open_still made made' works =
    let l =
      join-Landed fails w cfg s.data_channels uid p (Session.new sid) routers apart made made'
        works in
    let calls =
      channel_calls fails w cfg s.data_channels
      ++ (if cfg.no_subscribe then [] else l.calls ++ Call.negotiate ∷ []) in
    rw
      (join_at-session_or_new fails w cfg uid sid s routers l.later p l.peer l.session calls new
        l.run)
      (leave_lem fails' sid s l.session l.peer new l.name l.still l.peers l.relays l.inside
        (l.closed ∙ open_still))
