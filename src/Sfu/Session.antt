-- ===== src/Sfu/Session.antt =====
-- rsfu/src/sfu/session.rs: the peers of a session, and its data channels: a message that comes in on one
-- is passed on to those that its handler was given when it was set. The peers are in the session's map,
-- where the changes to them are made. Whether a call of the crate fails, which channels are open, and the
-- channel that the crate makes for a peer are parameters. A send whose error is only logged always counts.
pub mod Channels
pub mod Members
pub mod Landing
pub mod Entry
pub mod Joining
pub mod Subscribing
mod Tests
use rsfu.Prelude.{
  ℕ, ◌+◌, Bool, true, false, ◌&&◌, ◌||◌, Option, none, some, List, [], ◌∷◌, ◌++◌, map, String,
  length, ◌==◌, if◌then◌else◌,
}
use rsfu.Prelude.Texts.{same}
use rsfu.Prelude.Maps.{HashMap, lookup, insert, remove, text_key, number_key}
use rsfu.Sfu.Connection.{Call, RtcDataChannel, Answered, returned, refused, panicked, Run}
use rsfu.Sfu.Subscriber
use rsfu.Sfu.Subscriber.{Subscriber}
use rsfu.Sfu.Router.{RouterLocal, Published}
use rsfu.Sfu.Router.Downlink.{add_down_tracks_of}
use rsfu.Sfu.Peer.{PeerLocal}

-- `relay_peers` are the ids of the relays. `listeners` are the channels that a channel's handler passes
-- its messages on to, by the channel's number. The observer of the audio levels is never set.
pub record SessionLocal : Type 0 where
  pub id : String
  pub peers : HashMap String PeerLocal
  pub relay_peers : HashMap String (Unit {0})
  pub closed : Bool
  pub fanout_data_channels : List String
  pub listeners : HashMap ℕ (List RtcDataChannel)

abbrev pub new : String → SessionLocal
new id = record {
  id = id;
  peers = [];
  relay_peers = [];
  closed = false;
  fanout_data_channels = [];
  listeners = [];
}

unfoldable pub add_peer : SessionLocal → PeerLocal → SessionLocal
add_peer s p = record s { peers = insert s.peers p.id p }

-- A peer that is not there: `unwrap` panics.
abbrev pub get_peer : SessionLocal → String → Answered PeerLocal
get_peer s id = elim (lookup s.peers id) [ none ↦ panicked | some p ↦ returned p ]

-- The handlers of a relay.
abbrev pub on_relay_ready : SessionLocal → String → SessionLocal
on_relay_ready s id = record s { relay_peers = insert s.relay_peers id tt }

abbrev pub on_relay_close : SessionLocal → String → SessionLocal
on_relay_close s id = record s { relay_peers = remove s.relay_peers id }

unfoldable pub close : SessionLocal → SessionLocal
close s = record s { closed = true }

unfoldable pub remove_peer : SessionLocal → PeerLocal → SessionLocal
remove_peer s p =
    let s = record s { peers = remove s.peers p.id } in
    if length s.peers + length s.relay_peers == 0 then close s else s

-- A message of the webrtc crate. `text` is what its bytes are in UTF-8, if they are.
pub record Message : Type 0 where
  pub bytes : List ℕ
  pub text : Option String
  pub is_string : Bool

abbrev pub send_call : Message → String → RtcDataChannel → Call
send_call msg text dc = if msg.is_string then Call.send_text dc text else Call.send dc msg.bytes

-- Bytes that are no UTF-8 are a panic, also in a message that is no text, unless there is no channel.
unfoldable pub fanout_message : List RtcDataChannel → Message → List Call × Answered (Unit {0})
fanout_message [] msg = ([], returned tt)
fanout_message (dc ∷ dcs) msg = elim msg.text [
  | none ↦ ([], panicked)
  | some text ↦ (map (send_call msg text) (dc ∷ dcs), returned tt)
]

-- A message on a channel with a handler.
unfoldable pub on_message :
    SessionLocal → RtcDataChannel → Message → List Call × Answered (Unit {0})
on_message s dc msg = fanout_message (Subscriber.or_empty (lookup s.listeners dc.number)) msg

abbrev pub member : List String → String → Bool
member [] label = false
member (l ∷ ls) label = let rest = member ls label in if same label l then true else rest

module _ (is_open : RtcDataChannel → Bool) where
  abbrev pub if_open : Option RtcDataChannel → List RtcDataChannel
  if_open none = []
  if_open (some dc) = if is_open dc then dc ∷ [] else []

  abbrev pub channel_of : Option Subscriber → String → List RtcDataChannel
  channel_of none label = []
  channel_of (some s) label = if_open (Subscriber.data_channel s label)

  unfoldable pub channels_of : HashMap String PeerLocal → String → String → List RtcDataChannel
  channels_of [] peer_id label = []
  channels_of ((k, p) ∷ ps) peer_id label =
      let rest = channels_of ps peer_id label in
      if same k peer_id then rest else channel_of p.subscriber label ++ rest

  abbrev pub get_data_channels : SessionLocal → String → String → List RtcDataChannel
  get_data_channels s peer_id label = channels_of s.peers peer_id label

-- What a subscriber gets of a new label: the subscriber, the channel if there is one, and the calls.
abbrev pub offered : Run Subscriber RtcDataChannel → Subscriber × Option RtcDataChannel × List Call
offered (s, cs, returned dc) = (s, some dc, cs ++ Call.negotiate ∷ [])
offered (s, cs, refused e) = (s, none, cs)
offered (s, cs, panicked) = (s, none, cs)

abbrev pub listen :
    HashMap ℕ (List RtcDataChannel)
    → Option RtcDataChannel
    → List RtcDataChannel
    → HashMap ℕ (List RtcDataChannel)
listen ls none out = ls
listen ls (some dc) out = insert ls dc.number out

abbrev pub registered : PeerLocal → Option Subscriber → RtcDataChannel → PeerLocal
registered p none dc = p
registered p (some s) dc = record p {
  subscriber = some (Subscriber.register_data_channel s dc.label dc);
}

module _ (fails : Call → Bool) (created : String → RtcDataChannel) where
  -- One round of the loop over the peers; `heard` is what the handlers are given.
  abbrev pub offer_peer :
      PeerLocal
      → Option Subscriber
      → String
      → String
      → PeerLocal × Option RtcDataChannel × List Call
  offer_peer p none owner label = (p, none, [])
  offer_peer p (some s) owner label =
      if same p.id owner
      then (p, none, [])
      else let (s', dc, cs) =
          offered (Subscriber.add_data_channel_2 fails (created p.id) label s) in
        (record p { subscriber = some s' }, dc, cs)

  unfoldable pub offer_all :
      HashMap String PeerLocal
      → String
      → String
      → List RtcDataChannel
      → HashMap ℕ (List RtcDataChannel)
      → HashMap String PeerLocal × HashMap ℕ (List RtcDataChannel) × List Call
  offer_all [] owner label heard ls = ([], ls, [])
  offer_all ((k, p) ∷ ps) owner label heard ls =
      let (p', dc, cs) = offer_peer p p.subscriber owner label in
      let (ps', ls', cs') = offer_all ps owner label heard (listen ls dc heard) in
      ((k, p') ∷ ps', ls', cs ++ cs')

  -- With a label that is new; without the owner among the peers it is a panic.
  abbrev pub add_new_label :
      SessionLocal
      → String
      → RtcDataChannel
      → List RtcDataChannel
      → Option PeerLocal
      → Run SessionLocal (Unit {0})
  add_new_label s owner dc heard none = (s, [], panicked)
  add_new_label s owner dc heard (some p) =
      let peers = insert s.peers owner (registered p p.subscriber dc) in
      let (ps, ls, cs) =
        offer_all peers owner dc.label heard (insert s.listeners dc.number heard) in
      (record s { peers = ps; listeners = ls }, cs, returned tt)

  unfoldable pub add_data_channel :
      (RtcDataChannel → Bool) → SessionLocal → String → RtcDataChannel → Run SessionLocal (Unit {0})
  add_data_channel is_open s owner dc =
      let heard = get_data_channels is_open s owner dc.label in
      if member s.fanout_data_channels dc.label
      then (record s { listeners = insert s.listeners dc.number heard }, [], returned tt)
      else add_new_label
          (record s { fanout_data_channels = s.fanout_data_channels ++ dc.label ∷ [] }) owner dc
          heard (lookup s.peers owner)

-- A track that a peer publishes goes to the subscribers of the others; an error of one is passed over.
-- The list is that of the peers, whose subscribers change; so does the receiver.
module _ (fails : Call → Bool) (r : RouterLocal) (now : ℕ) where
  abbrev pub publish_to :
      PeerLocal → Option Subscriber → Published → PeerLocal × Published × List Call
  publish_to p none recv = (p, recv, [])
  publish_to p (some s) recv =
      if same r.id p.id
      then (p, recv, [])
      else let ((s', recv'), cs, _) = add_down_tracks_of fails r now (s, recv) in
        (record p { subscriber = some s' }, recv', cs)

  unfoldable pub publish_all :
      HashMap String PeerLocal → Published → HashMap String PeerLocal × Published × List Call
  publish_all [] recv = ([], recv, [])
  publish_all ((k, p) ∷ ps) recv =
      let (p', recv', cs) = publish_to p p.subscriber recv in
      let (ps', recv'', cs') = publish_all ps recv' in ((k, p') ∷ ps', recv'', cs ++ cs')

  unfoldable pub publish : SessionLocal → Published → SessionLocal × Published × List Call
  publish s recv =
      let (ps, recv', cs) = publish_all s.peers recv in (record s { peers = ps }, recv', cs)
