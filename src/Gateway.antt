-- ===== src/Gateway.antt =====
-- gateway/src/server.ts: the state of the gateway, what it sends, and its broadcasts. A socket is
-- known by a number. What a handler sends is added to `outbox`: a call of `ws.send`, of `write`,
-- `end` or `connect` on a TCP socket. The handlers are those of the children.
pub mod Rooms
pub mod Actions
pub mod Sockets
pub mod Metrics
pub mod Step
pub mod Privacy
pub mod Access
pub mod Valid
pub mod Presence
pub mod Roster
mod Tests
use pulse_chat.Base.{
  ℕ, List, [], ◌∷◌, ◌++◌, Option, none, some, Bool, true, false, ◌==◌, if◌then◌else◌,
}
use pulse_chat.Text.{Text, units_of, is_empty}
use pulse_chat.Utf8.{Bytes}
use pulse_chat.Pcap.{DecodedFrame, PcapParser}
use pulse_chat.Dict.{Dict, values}
use pulse_chat.Db.{DbMessage, PulseDatabase}

-- `UserPresence`
pub record UserPresence : Type 0 where
  pub username : Text
  pub display_name : Text
  pub avatar_url : Option Text
  pub email : Option Text
  pub status : Text
  pub activity_text : Text
  pub room : Text
  pub last_seen : ℕ

-- `ClientSession`; `is_open` is `ws.readyState === OPEN`, `is_destroyed` is `tcp.destroyed`.
pub record ClientSession : Type 0 where
  pub is_open : Bool
  pub is_destroyed : Bool
  pub parser : PcapParser
  pub username : Text
  pub display_name : Text
  pub avatar_url : Option Text
  pub status : Text
  pub activity_text : Text
  pub current_room : Text
  pub is_registered : Bool

-- A room of the list that the clients are shown.
pub record RoomInfo : Type 0 where
  pub name : Text
  pub users : ℕ
  pub is_protected : Bool

-- The metrics that the clients are shown; a number stands as the text that JSON has for it.
pub record MetricsData : Type 0 where
  pub uptime_sec : Text
  pub active_connections : Text
  pub total_connections : Text
  pub msgs_per_sec : Text
  pub bytes_per_sec : Text
  pub rooms : List RoomInfo

pub data Direction : Type 0 where
  inbound outbound : Direction

-- The `eventData` of a telemetry event.
pub record Telemetry : Type 0 where
  pub direction : Direction
  pub type : ℕ
  pub type_name : Text
  pub length : ℕ
  pub payload : Text
  pub raw_hex : Text
  pub timestamp : Text

-- The JSON objects that the gateway sends, by their `event`; `error_frame` is a `pcap_frame` that
-- the gateway makes up, with the length and the text of an error.
pub data Event : Type 0 where
  presence_list : List UserPresence → Event
  system_metrics : MetricsData → Text → Event
  tcp_status : Text → Event
  pcap_frame : DecodedFrame → Event
  error_frame : ℕ → Text → Text → Event
  room_history : Text → List DbMessage → Event
  dm_history : List DbMessage → Event
  telemetry_event : Telemetry → Event

pub data Effect : Type 0 where
  sent : ℕ → Event → Effect
  written : ℕ → Bytes → Effect
  connected ended : ℕ → Effect

abbrev pub Sessions : Type 0
Sessions = List (ℕ × ClientSession)

-- The module's variables.
pub record Gateway : Type 0 where
  pub sessions : Sessions
  pub presence : Dict UserPresence
  pub db : PulseDatabase
  pub metrics : Option MetricsData
  pub outbox : List Effect

unfoldable pub find_session : ℕ → Sessions → Option ClientSession
find_session id [] = none
find_session id ((i, s) ∷ ss) = if i == id then some s else find_session id ss

-- The session object of a socket after a change.
unfoldable pub put_session : ℕ → ClientSession → Sessions → Sessions
put_session id s [] = []
put_session id s ((i, t) ∷ ss) = if i == id then (i, s) ∷ ss else (i, t) ∷ put_session id s ss

-- `activeSessions.delete(ws)`
unfoldable pub remove_session : ℕ → Sessions → Sessions
remove_session id [] = []
remove_session id ((i, t) ∷ ss) = if i == id then ss else (i, t) ∷ remove_session id ss

abbrev pub with_session : ℕ → ClientSession → Gateway → Gateway
with_session id s g = record g { sessions = put_session id s g.sessions }

abbrev pub emit : Effect → Gateway → Gateway
emit e g = record g { outbox = g.outbox ++ e ∷ [] }

-- `ws.send(JSON.stringify(e))`
abbrev pub send : ℕ → Event → Gateway → Gateway
send id e g = emit (sent id e) g

-- What `broadcastToAll` sends.
unfoldable pub to_all : Event → Sessions → List Effect
to_all e [] = []
to_all e ((i, s) ∷ ss) = if s.is_open then sent i e ∷ to_all e ss else to_all e ss

-- `broadcastToAll`
unfoldable pub broadcast_to_all : Event → Gateway → Gateway
broadcast_to_all e g = record g { outbox = g.outbox ++ to_all e g.sessions }

-- `broadcastPresence`
unfoldable pub broadcast_presence : Gateway → Gateway
broadcast_presence g = broadcast_to_all (presence_list (values g.presence)) g
