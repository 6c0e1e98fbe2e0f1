-- ===== src/Sfu/Peer.antt =====
-- rsfu/src/sfu/peer.rs: a peer, its publisher and its subscriber, and the negotiation with the client:
-- the offers that the subscriber makes, one at a time. Whether a call of the crate fails is a parameter.
pub mod Negotiation
mod Tests
use rsfu.Prelude.{
  ℕ, Bool, true, false, not, ◌&&◌, ◌||◌, Option, none, some, List, [], ◌∷◌, ◌++◌, String, ◌==◌,
  if◌then◌else◌,
}
use rsfu.Prelude.Texts.{same}
use rsfu.Sfu.Publisher.{Publisher, add_ice_candidata, publisher_answer}
use rsfu.Sfu.Subscriber
use rsfu.Sfu.Subscriber.{Subscriber}
use rsfu.Sfu.Connection.{
  Call, Error, err_transport_exists, err_no_transport_established, err_offer_ignored,
  err_no_subscriber, err_data_channel_not_exists, RtcDataChannel, Answered, returned, refused,
  panicked, Run, Action, pure, raise, gets, modify, after, continue, call, call_logged, ◌>>=◌, ◌>>◌,
}

pub record JoinConfig : Type 0 where
  pub no_publish : Bool
  pub no_subscribe : Bool
  pub no_auto_subscribe : Bool

-- `session` names the session that the peer is in.
pub record PeerLocal : Type 0 where
  pub id : String
  pub session : Option String
  pub closed : Bool
  pub publisher : Option Publisher
  pub subscriber : Option Subscriber
  pub on_offer_handler : Bool
  pub remote_answer_pending : Bool
  pub negotiation_pending : Bool

abbrev pub new : PeerLocal
new = record {
  id = "";
  session = none;
  closed = false;
  publisher = none;
  subscriber = none;
  on_offer_handler = false;
  remote_answer_pending = false;
  negotiation_pending = false;
}

abbrev pub set_on_offer : PeerLocal → PeerLocal
set_on_offer p = record p { on_offer_handler = true }

abbrev pub with_publisher : {A : Type 0} → PeerLocal → Run Publisher A → Run PeerLocal A
with_publisher p (u, cs, r) = (record p { publisher = some u }, cs, r)

abbrev pub with_subscriber : {A : Type 0} → PeerLocal → Run Subscriber A → Run PeerLocal A
with_subscriber p (s, cs, r) = (record p { subscriber = some s }, cs, r)

-- The offer goes to the handler, when the peer is not closed.
abbrev pub send_offer : Action PeerLocal (Unit {0})
send_offer = do
  modify (λ p. record p { remote_answer_pending = true })
  open_handler ← gets (λ p. p.on_offer_handler && not p.closed)
  if open_handler then call_logged Call.on_offer else pure tt

module _ (fails : Call → Bool) (sdp : String) where
  -- `subscriber.create_offer`, which changes nothing of the subscriber that is modelled.
  abbrev pub create_offer : Action PeerLocal (Unit {0})
  create_offer = do call fails Call.create_offer; call fails (Call.set_local_description sdp)

  -- The handler that `join` sets for `on_negotiate`.
  unfoldable pub on_negotiate : Action PeerLocal (Unit {0})
  on_negotiate = do
    pending ← gets (λ p. p.remote_answer_pending)
    if pending
        then modify (λ p. record p { negotiation_pending = true })
        else (create_offer >> send_offer)

  -- `Subscriber::negotiate` of the peer's subscriber.
  unfoldable pub negotiate : Subscriber → Action PeerLocal (Unit {0})
  negotiate s = if s.on_negotiate_handler then on_negotiate else pure tt

  -- The end of `set_remote_description`, with the subscriber that took the answer.
  unfoldable pub answered : Subscriber → Action PeerLocal (Unit {0})
  answered s = do
    modify (λ p. record p { remote_answer_pending = false })
    pending ← gets (λ p. p.negotiation_pending)
    if pending
        then (modify (λ p. record p { negotiation_pending = false }) >> negotiate s)
        else pure tt

  abbrev pub set_remote_by : String → Option Subscriber → Action PeerLocal (Unit {0})
  set_remote_by desc none p = raise err_no_transport_established p
  set_remote_by desc (some s) p =
      continue (with_subscriber p (Subscriber.set_remote_description fails desc s))
        (λ _. answered s)

  unfoldable pub set_remote_description : String → Action PeerLocal (Unit {0})
  set_remote_description desc p = set_remote_by desc p.subscriber p

module _ (fails : Call → Bool) where
  abbrev pub answer_by : String → String → Option Publisher → Action PeerLocal String
  answer_by offer sdp none p = raise err_no_transport_established p
  answer_by offer sdp (some u) p =
      if u.stable
      then with_publisher p (publisher_answer fails offer sdp u)
      else raise err_offer_ignored p

  unfoldable pub answer : String → String → Action PeerLocal String
  answer offer sdp p = answer_by offer sdp p.publisher p

  -- Both sides have to be there, whichever the candidate is for.
  abbrev pub trickle_by :
      String → ℕ → Option Subscriber → Option Publisher → Action PeerLocal (Unit {0})
  trickle_by candidate target none u p = raise err_no_transport_established p
  trickle_by candidate target (some s) none p = raise err_no_transport_established p
  trickle_by candidate target (some s) (some u) p =
      if target == 0
      then with_publisher p (add_ice_candidata fails candidate u)
      else if target == 1
      then with_subscriber p (Subscriber.add_ice_candidate fails candidate s)
      else (p, [], returned tt)

  unfoldable pub trickle : String → ℕ → Action PeerLocal (Unit {0})
  trickle candidate target p = trickle_by candidate target p.subscriber p.publisher p

  abbrev pub send_by : Option RtcDataChannel → String → Action PeerLocal (Unit {0})
  send_by none msg = raise err_data_channel_not_exists
  send_by (some dc) msg = call fails (Call.send_text dc msg)

  abbrev pub send_through : Option Subscriber → String → String → Action PeerLocal (Unit {0})
  send_through none label msg = raise err_no_subscriber
  send_through (some s) label msg = send_by (Subscriber.data_channel s label) msg

  unfoldable pub send_data_channel_message : String → String → Action PeerLocal (Unit {0})
  send_data_channel_message label msg p = send_through p.subscriber label msg p
