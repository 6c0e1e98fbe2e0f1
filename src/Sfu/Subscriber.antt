-- ===== src/Sfu/Subscriber.antt =====
-- rsfu/src/sfu/subscriber.rs: the side of a peer that receives. Its tracks by stream, its data channels
-- by label, and the candidates that wait for the remote description. Whether a call of the crate fails,
-- and the channel that it makes, are parameters. The tracks are values: the one that `add_down_track`
-- is given also stands in its receiver's list (Receiver).
pub mod Candidates
pub mod Reports
pub mod Tracks
mod Tests
use rsfu.Prelude.{
  ℕ, ◌+◌, ◌-◌, ◌%◌, ◌^◌, Bool, true, false, not, Option, none, some, List, [], ◌∷◌, ◌++◌, map,
  String, ltb, if◌then◌else◌, take, drop,
}
use rsfu.Prelude.Texts.{same}
use rsfu.Prelude.Maps.{HashMap, lookup, insert, text_key}
use rsfu.Buffer.State.{audio, video, unspecified}
use rsfu.Sfu.DownTrack.{DownTrack, kind, mute}
use rsfu.Sfu.DownTrack.Layers.{switch_spatial, switch_temporal_layer}
use rsfu.Sfu.Connection.{
  Call, RtcDataChannel, Answered, returned, panicked, Action, pure, gets, modify, call, call_logged,
  call_all, ◌>>=◌, ◌>>◌,
}

-- `remote_description` says whether the connection has one, `on_negotiate_handler` whether it is set.
pub record Subscriber : Type 0 where
  pub id : String
  pub tracks : HashMap String (List DownTrack)
  pub channels : HashMap String RtcDataChannel
  pub candidates : List String
  pub on_negotiate_handler : Bool
  pub no_auto_subscribe : Bool
  pub remote_description : Bool

abbrev pub new : String → Subscriber
new id = record {
  id = id;
  tracks = [];
  channels = [];
  candidates = [];
  on_negotiate_handler = false;
  no_auto_subscribe = false;
  remote_description = false;
}

abbrev pub on_negotiate : Subscriber → Subscriber
on_negotiate s = record s { on_negotiate_handler = true }

-- `ended` says that the connection's state is that it failed or is closed.
abbrev pub on_ice_connection_state_change : Bool → Action Subscriber (Unit {0})
on_ice_connection_state_change ended = if ended then call_logged Call.close else pure tt

abbrev pub data_channel : Subscriber → String → Option RtcDataChannel
data_channel s label = lookup s.channels label

unfoldable pub register_data_channel : Subscriber → String → RtcDataChannel → Subscriber
register_data_channel s label dc = record s { channels = insert s.channels label dc }

abbrev pub or_empty {ℓ} : {A : Type ℓ} → Option (List A) → List A
or_empty none = []
or_empty (some xs) = xs

abbrev pub get_downtracks : Subscriber → String → Option (List DownTrack)
get_downtracks s stream_id = lookup s.tracks stream_id

-- What a stream's list becomes: the first track makes the list, and is not put into it.
abbrev pub pushed : Option (List DownTrack) → DownTrack → List DownTrack
pushed (some dts) d = dts ++ d ∷ []
pushed none d = []

unfoldable pub add_down_track : Subscriber → String → DownTrack → Subscriber
add_down_track s stream_id d = record s {
  tracks = insert s.tracks stream_id (pushed (lookup s.tracks stream_id) d);
}

-- The index of the last track with the id, from `i` on.
unfoldable pub last_index : List DownTrack → String → ℕ → Option ℕ → Option ℕ
last_index [] id i idx = idx
last_index (d ∷ ds) id i idx =
    last_index ds id (i + 1) (if same d.down_track_local.id id then some i else idx)

-- The index is an `i16`, which is not below 0 when its top bit is not set.
abbrev pub removed : List DownTrack → Option ℕ → List DownTrack
removed ds none = ds
removed ds (some i) =
    let idx = i % 2 ^ 16 in if ltb idx (2 ^ 15) then take idx ds ++ drop (idx + 1) ds else ds

abbrev pub without : List DownTrack → String → List DownTrack
without ds id = removed ds (last_index ds id 0 none)

abbrev pub remove_from : Subscriber → String → String → Option (List DownTrack) → Subscriber
remove_from s stream_id id none = s
remove_from s stream_id id (some dts) = record s {
  tracks = insert s.tracks stream_id (without dts id);
}

unfoldable pub remove_down_track : Subscriber → String → DownTrack → Subscriber
remove_down_track s stream_id d =
    remove_from s stream_id d.down_track_local.id (lookup s.tracks stream_id)

abbrev pub all_tracks : HashMap String (List DownTrack) → List DownTrack
all_tracks [] = []
all_tracks ((_, v) ∷ m) = v ++ all_tracks m

-- `append` empties the lists that it takes from.
unfoldable pub downtracks : Subscriber → List DownTrack × Subscriber
downtracks s = (all_tracks s.tracks, record s { tracks = map (λ e. (e.0, [])) s.tracks })

module _ (fails : Call → Bool) where
  unfoldable pub create_offer : String → Action Subscriber String
  create_offer sdp = do
    call fails Call.create_offer
    call fails (Call.set_local_description sdp)
    pure sdp

  unfoldable pub add_ice_candidate : String → Action Subscriber (Unit {0})
  add_ice_candidate candidate = do
    described ← gets (λ s. s.remote_description)
    if described
        then call fails (Call.add_ice_candidate candidate)
        else modify (λ s. record s { candidates = s.candidates ++ candidate ∷ [] })

  -- An error on the way leaves the candidates where they are.
  unfoldable pub set_remote_description : String → Action Subscriber (Unit {0})
  set_remote_description desc = do
    call fails (Call.set_remote_description desc)
    modify (λ s. record s { remote_description = true })
    candidates ← gets (λ s. s.candidates)
    call_all fails (map Call.add_ice_candidate candidates)
    modify (λ s. record s { candidates = [] })

  unfoldable pub close : Action Subscriber (Unit {0})
  close = call fails Call.close

  -- `created` is the channel that the crate makes.
  unfoldable pub channel_or_new :
      RtcDataChannel → String → Option RtcDataChannel → Action Subscriber RtcDataChannel
  channel_or_new created label (some channel) = pure channel
  channel_or_new created label none = do
    call fails (Call.create_data_channel label)
    modify (λ s. register_data_channel s label created)
    pure created

  -- Also `add_data_channel_by_label`.
  unfoldable pub add_data_channel_2 : RtcDataChannel → String → Action Subscriber RtcDataChannel
  add_data_channel_2 created label = do
    known ← gets (λ s. data_channel s label)
    channel_or_new created label known

  -- The channel with the label is made anew whether there is one or not.
  unfoldable pub add_data_channel : RtcDataChannel → String → Action Subscriber (Unit {0})
  add_data_channel created label = do
    call fails (Call.create_data_channel label)
    modify (λ s. register_data_channel s label created)

-- rsfu/src/middlewares/middlewares.rs
pub record SetRemoteMedia : Type 0 where
  pub stream_id : String
  pub video : String
  pub frame_rate : String
  pub audio : Bool
  pub layers : Option (List String)

-- The layer that a word stands for.
abbrev pub layer_of : String → Option ℕ
layer_of w =
    if same w "high"
    then some 2
    else if same w "medium"
    then some 1
    else if same w "low"
    then some 0
    else none

-- `admits` says which switches of layer the receiver accepts.
abbrev pub set_video : (ℕ → Bool) → DownTrack → String → DownTrack
set_video admits d w = elim (layer_of w) [
  | some layer ↦ (switch_spatial admits (mute d false) layer true).0
  | none ↦ if same w "none" then mute d true else d
]

abbrev pub set_frame_rate : DownTrack → String → DownTrack
set_frame_rate d w = elim (layer_of w) [
  | some layer ↦ switch_temporal_layer d layer true
  | none ↦ d
]

unfoldable pub process_track : (ℕ → Bool) → SetRemoteMedia → DownTrack → DownTrack
process_track admits media d = elim (kind d.down_track_local) [
  | audio ↦ mute d (not media.audio)
  | video ↦ set_frame_rate (set_video admits d media.video) media.frame_rate
  | unspecified ↦ d
]

abbrev pub has_layers : Option (List String) → Bool
has_layers none = false
has_layers (some []) = false
has_layers (some (_ ∷ _)) = true

unfoldable pub process : (ℕ → Bool) → SetRemoteMedia → List DownTrack → List DownTrack
process admits media ds =
    if has_layers media.layers then ds else map (process_track admits media) ds

abbrev pub process_in :
    (ℕ → Bool) → SetRemoteMedia → Subscriber → Option (List DownTrack) → Subscriber
process_in admits media s none = s
process_in admits media s (some ds) = record s {
  tracks = insert s.tracks media.stream_id (process admits media ds);
}

-- The handler for the messages of a channel that `add_data_channel` makes. `none` is a message that is no
-- UTF-8 or no such record: `unwrap` panics.
unfoldable pub on_message : (ℕ → Bool) → Option SetRemoteMedia → Subscriber → Answered Subscriber
on_message admits none s = panicked
on_message admits (some media) s =
    returned (process_in admits media s (lookup s.tracks media.stream_id))
