-- ===== src/Sfu/Publisher.antt =====
-- rsfu/src/sfu/publisher.rs: the side of a peer that sends. Its candidates and answers, its
-- tracks, and the data channels of its relays. The relays are peers of the relay crate's kind: whether a
-- call of theirs fails, and the channel that is made, are parameters.
pub mod Answers
mod Tests
use rsfu.Prelude.{
  ℕ, Bool, true, false, Option, none, some, List, [], ◌∷◌, ◌++◌, map, String, if◌then◌else◌,
}
use rsfu.Prelude.Texts.{same}
use rsfu.Rtp.{Rtcp, picture_loss_indication, transport_layer_nack}
use rsfu.Sfu.Connection.{
  Call, RtcDataChannel, Action, pure, gets, modify, call, call_logged, ◌>>=◌, ◌>>◌,
}

-- A track that came in, by its id, and whether it is for the relays.
pub record PublisherTrack : Type 0 where
  pub track : String
  pub client_relay : Bool

-- A relay: its channels.
pub record RelayPeer : Type 0 where
  pub number : ℕ
  pub data_channels : List RtcDataChannel

-- `remote_description` and `stable` are the connection's: whether it has one, and its signalling state.
pub record Publisher : Type 0 where
  pub id : String
  pub candidates : List String
  pub remote_description : Bool
  pub stable : Bool
  pub relayed : Bool
  pub tracks : List PublisherTrack
  pub relay_peers : List RelayPeer

abbrev pub new_publisher : String → Publisher
new_publisher id = record {
  id = id;
  candidates = [];
  remote_description = false;
  stable = true;
  relayed = false;
  tracks = [];
  relay_peers = [];
}

module _ (fails : Call → Bool) where
  -- A candidate is kept even when it has gone to the connection.
  unfoldable pub add_ice_candidata : String → Action Publisher (Unit {0})
  add_ice_candidata candidate = do
    described ← gets (λ u. u.remote_description)
    if described then call fails (Call.add_ice_candidate candidate) else pure tt
    modify (λ u. record u { candidates = u.candidates ++ candidate ∷ [] })

  abbrev pub give_all : List String → Action Publisher (Unit {0})
  give_all [] = pure tt
  give_all (c ∷ cs) = call_logged (Call.add_ice_candidate c) >> give_all cs

  -- `sdp` is the answer that the crate makes.
  unfoldable pub publisher_answer : String → String → Action Publisher String
  publisher_answer offer sdp = do
    call fails (Call.set_remote_description offer)
    modify (λ u. record u { remote_description = true; stable = false })
    candidates ← gets (λ u. u.candidates)
    give_all candidates
    call fails Call.create_answer
    call fails (Call.set_local_description sdp)
    modify (λ u. record u { stable = true })
    pure sdp

-- What the handler for a track does with the router's answer, whether the track is to be published.
unfoldable pub on_track : Publisher → String → Bool → Publisher
on_track u track publish = record u {
  tracks = u.tracks ++ record { track = track; client_relay = publish } ∷ [];
}

abbrev pub tracks_of : Publisher → List String
tracks_of u = map (λ t. t.track) u.tracks

abbrev pub with_label : List RtcDataChannel → String → List RtcDataChannel
with_label [] label = []
with_label (dc ∷ dcs) label =
    let rest = with_label dcs label in if same dc.label label then dc ∷ rest else rest

unfoldable pub relayed_channels : List RelayPeer → String → List RtcDataChannel
relayed_channels [] label = []
relayed_channels (rp ∷ rps) label = with_label rp.data_channels label ++ relayed_channels rps label

abbrev pub get_relayed_data_channels : Publisher → String → List RtcDataChannel
get_relayed_data_channels u label = relayed_channels u.relay_peers label

-- The relays that are asked for a channel with the label: the `continue` is that of the loop over a
-- relay's channels, so that a relay that has one is asked too.
unfoldable pub add_relay_fanout_data_channel : Publisher → String → List (ℕ × String)
add_relay_fanout_data_channel u label = map (λ rp. (rp.number, label)) u.relay_peers

-- The relays are closed, the router is stopped, and the connection is closed, whatever fails.
abbrev pub close_with_parameters : Publisher → List ℕ × Call
close_with_parameters u = (map (λ rp. rp.number) u.relay_peers, Call.close)

abbrev pub rewritten : ℕ → List Rtcp → List Rtcp
rewritten media_ssrc [] = []
rewritten media_ssrc (picture_loss_indication sender media ∷ pkts) =
    picture_loss_indication sender media_ssrc ∷ rewritten media_ssrc pkts
rewritten media_ssrc (transport_layer_nack _ _ ∷ pkts) = rewritten media_ssrc pkts

-- The packets of a relay's track that are passed on to the publisher, if any are: where there is a request
-- for a key frame, all that came, as they came. `none` is a packet that is not read.
unfoldable pub relay_feedback : ℕ → Option (List Rtcp) → List (List Rtcp)
relay_feedback media_ssrc none = []
relay_feedback media_ssrc (some pkts) = elim (rewritten media_ssrc pkts) [
  | [] ↦ []
  | _ ∷ _ ↦ pkts ∷ []
]
