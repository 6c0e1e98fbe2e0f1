-- ===== src/Sfu/Server.antt =====
-- rsfu/src/sfu/sfu.rs: the sessions of the server, and what a configuration makes of the settings of the
-- webrtc crate. The sessions are in the server's map, where the changes to them are made.
pub mod Rooms
mod Tests
use rsfu.Prelude.{
  ℕ, Bool, true, false, not, ◌&&◌, ◌||◌, Option, none, some, List, [], ◌∷◌, ◌++◌, String, ◌==◌, ◌-◌,
  ◌%◌, ◌^◌, if◌then◌else◌,
}
use rsfu.Prelude.Int.{ℤ, pos, negsuc}
use rsfu.Prelude.Maps.{HashMap, lookup, insert, remove, text_key}
use rsfu.Sfu.Connection.{Call, Run, Answered, returned, panicked}
use rsfu.Sfu.Session
use rsfu.Sfu.Session.{SessionLocal}
use rsfu.Sfu.Session.Joining
use rsfu.Sfu.Session.Joining.{World}
use rsfu.Sfu.Session.Subscribing.{Routers}
use rsfu.Sfu.Peer.{PeerLocal, JoinConfig}

pub record Sfu : Type 0 where
  pub sessions : HashMap String SessionLocal
  pub data_channels : List String
  pub with_status : Bool

-- The new session, whose handler for its end takes it out of the map.
unfoldable pub new_session : Sfu → String → SessionLocal × Sfu
new_session s id =
    let session = Session.new id in (session, record s { sessions = insert s.sessions id session })

abbrev pub on_session_close : Sfu → String → Sfu
on_session_close s id = record s { sessions = remove s.sessions id }

abbrev pub new_data_channel : Sfu → String → Sfu
new_data_channel s label = record s { data_channels = s.data_channels ++ label ∷ [] }

abbrev pub session_or_new : Sfu → String → Option SessionLocal → SessionLocal × Sfu
session_or_new s sid (some session) = (session, s)
session_or_new s sid none = new_session s sid

unfoldable pub get_session : Sfu → String → SessionLocal × Sfu
get_session s sid = session_or_new s sid (lookup s.sessions sid)

-- The session that an operation leaves: it is shared with the map, and its handler runs when it closes.
abbrev pub settled : Sfu → Option SessionLocal → Sfu
settled s none = s
settled s (some session) =
    if session.closed
    then on_session_close s session.id
    else record s { sessions = insert s.sessions session.id session }

-- A peer joins the session of that id, of this provider, whose data channels all its sessions share.
unfoldable pub join_at :
    (Call → Bool)
    → World
    → JoinConfig
    → String
    → String
    → Sfu
    → Routers
    → PeerLocal
    → Sfu × Routers × PeerLocal × Answered (Unit {0})
join_at fails w cfg uid sid s routers p =
    let (session, s') = get_session s sid in
    let (((p', after), routers'), _, a) =
      Joining.join fails w cfg s'.data_channels uid p (some session) routers in
    (settled s' after, routers', p', a)

abbrev pub session_of : Sfu → Option String → Option SessionLocal
session_of s none = none
session_of s (some sid) = lookup s.sessions sid

unfoldable pub close_at : (Call → Bool) → Sfu → PeerLocal → Sfu × PeerLocal × Answered (Unit {0})
close_at fails s p =
    let ((p', after), _, a) = Joining.close fails (p, session_of s p.session) in
    (settled s after, p', a)

-- The parts of a configuration that the settings are made from.
pub record Config : Type 0 where
  pub ice_single_port : Option ℤ
  pub ice_port_range : Option (List ℕ)
  pub turn_enabled : Bool
  pub turn_port_range : Bool
  pub ice_lite : Option Bool
  pub ice_servers : Option (List String)
  pub ice_disconnected_timeout : ℤ
  pub ice_failed_timeout : ℤ
  pub ice_keepalive_interval : ℤ
  pub nat1_to_1ips : Option (List String)
  pub mdns : Bool
  pub with_stats : Bool

pub data Network : Type 0 where
  muxed : ℕ → Network
  ephemeral : ℕ → ℕ → Network

pub record Settings : Type 0 where
  pub network : Option Network
  pub lite : Bool
  pub servers : List String
  pub timeouts : Option (ℕ × ℕ × ℕ)
  pub nat : List String
  pub mdns_disabled : Bool
  pub stats : Bool

-- `as u64` of an `i32`.
abbrev pub as_u64 : ℤ → ℕ
as_u64 (pos n) = n
as_u64 (negsuc n) = 2 ^ 64 - 1 - n

-- A range is two numbers.
abbrev pub range_of : Option (List ℕ) → ℕ × ℕ
range_of (some (start ∷ last ∷ [])) = (start, last)
range_of _ = (0, 0)

-- `min_port` and `max_port` are those of the TURN server.
abbrev pub network_of : ℕ → ℕ → Config → Option ℤ → Option Network
network_of min_port max_port c (some port) = some (muxed (as_u64 port % 2 ^ 16))
network_of min_port max_port c none =
    let (start, last) =
      if c.turn_enabled && not c.turn_port_range
      then (min_port, max_port)
      else range_of c.ice_port_range in
    if not (start == 0) || not (last == 0) then some (ephemeral start last) else none

-- Without a word on `ice_lite` the servers are not taken.
abbrev pub servers_of : Option Bool → Option (List String) → List String
servers_of (some false) (some servers) = servers
servers_of _ _ = []

abbrev pub lite_of : Option Bool → Bool
lite_of (some b) = b
lite_of none = false

abbrev pub addresses_of : Option (List String) → List String
addresses_of none = []
addresses_of (some ips) = ips

abbrev pub accepted : (ℕ → ℕ → Bool) → Option Network → Bool
accepted valid (some (ephemeral start last)) = valid start last
accepted valid (some (muxed port)) = true
accepted valid none = true

abbrev pub settings_with : Config → Option Network → Settings
settings_with c network = record {
  network = network;
  lite = lite_of c.ice_lite;
  servers = servers_of c.ice_lite c.ice_servers;
  timeouts =
      if as_u64 c.ice_disconnected_timeout == 0
        && as_u64 c.ice_failed_timeout == 0
        && as_u64 c.ice_keepalive_interval == 0
      then none
      else some (
        as_u64 c.ice_disconnected_timeout,
        as_u64 c.ice_failed_timeout,
        as_u64 c.ice_keepalive_interval,
      );
  nat = addresses_of c.nat1_to_1ips;
  mdns_disabled = c.mdns;
  stats = c.with_stats;
}

-- `valid` says which ranges the crate accepts; for another one `unwrap` panics. (Where the single port
-- cannot be bound the process ends.)
unfoldable pub settings : (ℕ → ℕ → Bool) → ℕ → ℕ → Config → Answered Settings
settings valid min_port max_port c =
    let network = network_of min_port max_port c c.ice_single_port in
    if accepted valid network then returned (settings_with c network) else panicked
