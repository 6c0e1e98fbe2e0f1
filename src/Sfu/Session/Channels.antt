-- ===== src/Sfu/Session/Channels.antt =====
-- What becomes of a message on a channel that a peer opens.
use rsfu.Prelude.{
  ℕ, Bool, Option, none, some, List, [], ◌∷◌, ◌++◌, String, ◌≡◌, refl, ap, ◌∙◌, ◌==◌, Bool-cases,
  inl, inr,
}
use rsfu.Prelude.Texts.{same}
use rsfu.Prelude.Maps.{
  HashMap, lookup, insert, text_key, number_key, lookup-insert, lookup-insert_self,
}
use rsfu.Sfu.Connection.{Call, RtcDataChannel, returned}
use rsfu.Sfu.Subscriber
use rsfu.Sfu.Subscriber.{Subscriber, or_empty}
use rsfu.Sfu.Peer.{PeerLocal}
use rsfu.Sfu.Session.{
  SessionLocal, Message, channels_of, channel_of, listen, offer_all, offer_peer, add_data_channel,
  add_new_label, registered, member, on_message, fanout_message,
}

abbrev pub Without : Option Subscriber → String → Type 0
Without none label = Unit {0}
Without (some s) label = Subscriber.data_channel s label ≡ none

-- No peer has a channel with the label.
abbrev pub Unheard : HashMap String PeerLocal → String → Type 0
Unheard [] label = Unit {0}
Unheard ((_, p) ∷ ps) label = Without p.subscriber label × Unheard ps label

module _ (is_open : RtcDataChannel → Bool) where
  channel_of-Without :
      (o : Option Subscriber) (label : String) → Without o label → channel_of is_open o label ≡ []
  channel_of-Without none label h = refl
  channel_of-Without (some s) label h = rw h refl

  channels_of-Unheard :
      (ps : HashMap String PeerLocal) (owner label : String)
      → Unheard ps label
      → channels_of is_open ps owner label ≡ []
  unfolding channels_of
  channels_of-Unheard [] owner label h = refl
  channels_of-Unheard ((k, p) ∷ ps) owner label (h, hs) = elim (Bool-cases (same k owner)) [
    | inl e ↦ rw e (channels_of-Unheard ps owner label hs)
    | inr e ↦
        rw (e, channel_of-Without p.subscriber label h, channels_of-Unheard ps owner label hs) refl
  ]

-- The channels that a channel's handler passes its messages on to.
abbrev heard_on : HashMap ℕ (List RtcDataChannel) → ℕ → List RtcDataChannel
heard_on ls n = or_empty (lookup ls n)

listen_none :
    (ls : HashMap ℕ (List RtcDataChannel)) (dc : Option RtcDataChannel) (n : ℕ)
    → heard_on ls n ≡ []
    → heard_on (listen ls dc []) n ≡ []
listen_none ls none n h = h
listen_none ls (some dc) n h =
    ap or_empty (lookup-insert ls dc.number n [])
    ∙ elim (Bool-cases (dc.number == n)) [ inl e ↦ rw e refl | inr e ↦ rw e h ]

offer_all-listen_none :
    (fails : Call → Bool) (created : String → RtcDataChannel) (ps : HashMap String PeerLocal)
    (owner label : String) (ls : HashMap ℕ (List RtcDataChannel)) (n : ℕ)
    → heard_on ls n ≡ []
    → heard_on (offer_all fails created ps owner label [] ls).1 n ≡ []
unfolding offer_all
offer_all-listen_none fails created [] owner label ls n h = h
offer_all-listen_none fails created ((k, p) ∷ ps) owner label ls n h =
    offer_all-listen_none fails created ps owner label
      (listen ls (offer_peer fails created p p.subscriber owner label).1 []) n
      (listen_none ls (offer_peer fails created p p.subscriber owner label).1 n h)

heard_lem :
    (fails : Call → Bool) (created : String → RtcDataChannel) (s : SessionLocal) (owner : String)
    (dc : RtcDataChannel) (p : PeerLocal)
    → heard_on (add_new_label fails created s owner dc [] (some p)).0.listeners dc.number ≡ []
heard_lem fails created s owner dc p =
    offer_all-listen_none fails created (insert s.peers owner (registered p p.subscriber dc)) owner
      dc.label (insert s.listeners dc.number []) dc.number
      (ap or_empty (lookup-insert_self s.listeners dc.number []))

add_data_channel-heard :
    (is_open : RtcDataChannel → Bool) (fails : Call → Bool) (created : String → RtcDataChannel)
    (s : SessionLocal) (owner : String) (dc : RtcDataChannel) (p : PeerLocal)
    → lookup s.peers owner ≡ some p
    → channels_of is_open s.peers owner dc.label ≡ []
    → heard_on (add_data_channel fails created is_open s owner dc).0.listeners dc.number ≡ []
unfolding add_data_channel
add_data_channel-heard is_open fails created s owner dc p known no_one =
    elim (Bool-cases (member s.fanout_data_channels dc.label)) [
      | inl e ↦ rw (e, no_one) (ap or_empty (lookup-insert_self s.listeners dc.number []))
      | inr e ↦
          let s' : SessionLocal = record s {
            fanout_data_channels = s.fanout_data_channels ++ dc.label ∷ [];
          } in
          rw (e, no_one, known) (heard_lem fails created s' owner dc p)
    ]

-- A channel that a peer of the session opens, with a label that no peer of the session has a channel of:
-- whatever channels are made for the other peers, no message that comes in on it is sent to anyone.
pub on_message-add_data_channel :
    (is_open : RtcDataChannel → Bool) (fails : Call → Bool) (created : String → RtcDataChannel)
    (s : SessionLocal) (owner : String) (dc : RtcDataChannel) (p : PeerLocal) (msg : Message)
    → lookup s.peers owner ≡ some p
    → Unheard s.peers dc.label
    → on_message (add_data_channel fails created is_open s owner dc).0 dc msg ≡ ([], returned tt)
unfolding on_message fanout_message
on_message-add_data_channel is_open fails created s owner dc p msg known unheard =
    ap (λ dcs. fanout_message dcs msg)
      (add_data_channel-heard is_open fails created s owner dc p known
        (channels_of-Unheard is_open s.peers owner dc.label unheard))
