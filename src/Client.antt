-- ===== src/Client.antt =====
-- frontend/src/types.ts and the state of the hook of frontend/src/hooks/usePulseChat.ts. A handler
-- reads the state and the references as the last rendering left them, which is the state that it is
-- given: every event is taken to be rendered before the next. The events are those of the gateway.
pub mod Patterns
pub mod Messages
pub mod Frames
pub mod Commands
pub mod Connection
pub mod Step
pub mod Rejoin
pub mod Samples
mod Tests
use pulse_chat.Base.{ℕ, List, [], ◌∷◌, ◌++◌, Option, none, some, Bool, true, false, ◌+◌}
use pulse_chat.Text.{Text, units_of, is_empty, to_lower}
use pulse_chat.Dict.{Dict, set, get, delete}
use pulse_chat.Gateway.{UserPresence, RoomInfo, MetricsData, Telemetry}
use pulse_chat.Gateway.Actions.{ClientMessage}

-- `ChatMessage`; a flag that is missing is `false`.
pub record ChatMessage : Type 0 where
  pub id : Text
  pub type : ℕ
  pub sender : Text
  pub target_user : Option Text
  pub display_name : Option Text
  pub avatar_url : Option Text
  pub room : Option Text
  pub text : Text
  pub timestamp : Text
  pub is_system : Bool
  pub is_private : Bool
  pub is_error : Bool
  pub is_mentioned : Bool
  pub raw_hex : Option Text

-- `UserProfile`
pub record UserProfile : Type 0 where
  pub username : Text
  pub display_name : Text
  pub email : Option Text
  pub avatar_url : Option Text
  pub provider : Text
  pub status : Text
  pub activity_text : Option Text

pub data ToastType : Type 0 where
  error info : ToastType

-- `ToastData`
pub record ToastData : Type 0 where
  pub text : Text
  pub type : ToastType
  pub id : ℕ

pub data WsStatus : Type 0 where
  connecting connected disconnected failed : WsStatus

-- `readyState` of a WebSocket.
pub data ReadyState : Type 0 where
  state_connecting state_open state_closing state_closed : ReadyState

-- `reconnectTimerRef`: null, the number of a timer that runs, or that of one that was cleared.
pub data Timer : Type 0 where
  idle pending cleared : Timer

-- What `localStorage` holds, JSON parsed.
pub data Stored : Type 0 where
  text_item : Text → Stored
  profile_item : UserProfile → Stored
  messages_item : List ChatMessage → Stored
  passwords_item : Dict Text → Stored

-- What the hook does outside of its state: it sends a request on its socket, opens or closes a
-- socket, or plays the chime.
pub data Effect : Type 0 where
  requested : ClientMessage → Effect
  opened : Text → Effect
  closed_socket chimed : Effect

-- The states and the references of `usePulseChat`. `socket` is the state of the socket that `wsRef`
-- holds.
pub record Client : Type 0 where
  pub ws_url : Text
  pub ws_status : WsStatus
  pub tcp_status : Text
  pub profile : Option UserProfile
  pub is_registered : Bool
  pub current_room : Text
  pub active_dm_user : Option Text
  pub messages : List ChatMessage
  pub rooms : List RoomInfo
  pub users : List UserPresence
  pub metrics : Option MetricsData
  pub telemetry_events : List Telemetry
  pub registration_error : Option Text
  pub toast : Option ToastData
  pub mention_count : ℕ
  pub socket : Option ReadyState
  pub reconnect_timer : Timer
  pub storage : Dict Stored
  pub effects : List Effect

abbrev pub username_of : Option UserProfile → Text
username_of none = []
username_of (some p) = p.username

abbrev pub perform : Effect → Client → Client
perform e c = record c { effects = c.effects ++ e ∷ [] }

abbrev pub store : Text → Stored → Client → Client
store key item c = record c { storage = set key item c.storage }

abbrev pub remove_item : Text → Client → Client
remove_item key c = record c { storage = delete key c.storage }

-- The keys of `localStorage`.
abbrev pub key_profile : Text
key_profile = units_of "pulsechat_user_profile"

abbrev pub key_room : Text
key_room = units_of "pulsechat_current_room"

abbrev pub key_active_dm : Text
key_active_dm = units_of "pulsechat_active_dm"

abbrev pub key_messages : Text → Text
key_messages username = units_of "pulsechat_msgs_" ++ to_lower username

abbrev pub key_handle : Text → Text
key_handle email = units_of "pulsechat_handle_for_" ++ email

-- `setActiveDmUser`
unfoldable pub set_active_dm_user : Option Text → Client → Client
set_active_dm_user none c = remove_item key_active_dm (record c { active_dm_user = none })
set_active_dm_user (some user) c =
    let c1 = record c { active_dm_user = some user } in
    elim (is_empty user) [
      | true ↦ remove_item key_active_dm c1
      | false ↦ store key_active_dm (text_item user) c1
    ]

-- The focus handler.
unfoldable pub on_focus : Client → Client
on_focus c = record c { mention_count = 0 }

-- A request with its action only.
abbrev pub request : Text → ClientMessage
request action = record {
  action = action;
  username = none;
  email = none;
  display_name = none;
  avatar_url = none;
  provider = none;
  status = none;
  activity_text = none;
  text = none;
  room = none;
  password = none;
  target = none;
}

-- `sendAction`
unfoldable pub send_action : ClientMessage → Client → Client
send_action m c = elim c.socket [ some state_open ↦ perform (requested m) c | _ ↦ c ]

-- The request that `onopen` and `login` register with.
abbrev pub register_request : UserProfile → ClientMessage
register_request p = record (request (units_of "register")) {
  username = some p.username;
  display_name = some p.display_name;
  email = p.email;
  avatar_url = p.avatar_url;
  provider = some p.provider;
  status = some p.status;
  activity_text = p.activity_text;
}
