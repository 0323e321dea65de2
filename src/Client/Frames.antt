-- ===== src/Client/Frames.antt =====
-- The `message` handler of frontend/src/hooks/usePulseChat.ts: what the browser does with the
-- events of the gateway. What throws is caught and logged, after what was done before it.
use pulse_chat.Base.{
  ℕ, List, [], ◌∷◌, Option, none, some, Bool, true, false, ◌||◌, if◌then◌else◌, take,
}
use pulse_chat.Text.{Text, units_of, is_empty, starts_with, includes, ◌or_else◌}
use pulse_chat.Pcap.Codes.{MessageType, opcode, of_opcode}
use pulse_chat.Db.{World, general}
use pulse_chat.Gateway.{
  Event, presence_list, system_metrics, tcp_status, pcap_frame, error_frame, room_history,
  dm_history, telemetry_event,
}
use pulse_chat.Client.{
  ChatMessage, UserProfile, ToastType, Client, store, remove_item, text_item, key_handle,
  username_of, set_active_dm_user,
}
use pulse_chat.Client.Patterns.{
  search, join_here, peer_join_here, peer_left_here, chat_match, dm_match,
}
use pulse_chat.Client.Messages.{append_message, on_room_history, on_dm_history}

-- The fields of a frame that the handler reads.
pub record Frame : Type 0 where
  pub type : ℕ
  pub payload : Text
  pub raw_hex : Option Text
  pub timestamp : Text

abbrev pub system_message : Frame → Text → Option Text → ChatMessage
system_message frame time room = record {
  id = [];
  type = frame.type;
  sender = units_of "SYSTEM";
  target_user = none;
  display_name = none;
  avatar_url = none;
  room = room;
  text = frame.payload;
  timestamp = time;
  is_system = true;
  is_private = false;
  is_error = false;
  is_mentioned = false;
  raw_hex = frame.raw_hex;
}

-- The welcome of the chat server.
unfoldable pub remember_handle : Option UserProfile → Client → Client
remember_handle none c = c
remember_handle (some p) c = elim p.email [
  | none ↦ c
  | some email ↦
      if is_empty email || is_empty p.username
      then c
      else store (key_handle email) (text_item p.username) c
]

unfoldable pub welcomed : Text → Client → Client
unfolding remember_handle
welcomed payload c =
    if includes (units_of "Welcome to PulseChat") payload
    then remember_handle c.profile (record c { is_registered = true; registration_error = none })
    else c

abbrev pub go_to_room : Text → Client → Client
go_to_room room c = set_active_dm_user none (record c { current_room = room })

abbrev pub joined : Option Text → Client → Client
joined none c = c
joined (some room) c = go_to_room room c

abbrev first_of : Option Text → Option Text → Option Text
first_of none later = later
first_of (some a) later = some a

abbrev peer_room : Option (Text × Text) → Option Text
peer_room none = none
peer_room (some (peer, room)) = some room

abbrev left_room : Option Text → Text → Option Text
left_room none room = none
left_room (some peer) room = some room

-- `notificationRoom`: of the four tests the last that holds decides.
unfoldable pub notification_room : Text → Text → Option Text
unfolding search join_here peer_join_here peer_left_here
notification_room payload current_room =
    first_of (if includes (units_of "returned to #general") payload then some general else none) (
      first_of (left_room (search peer_left_here payload) current_room)
        (first_of (peer_room (search peer_join_here payload)) (search join_here payload)))

-- `SERVER_NOTIFICATION`
unfoldable pub on_notification : World → Frame → Text → Client → Client
unfolding notification_room
on_notification w frame time c =
    let payload = frame.payload in
    if starts_with (units_of "=== Active Rooms") payload
      || starts_with (units_of "=== Online Users") payload
    then c
    else (let c1 = joined (search join_here payload) (welcomed payload c) in
        let c2 =
          if includes (units_of "returned to #general") payload
          then go_to_room general c1
          else c1 in
        append_message w (system_message frame time (notification_room payload c.current_room)) c2)

abbrev frame_message : Frame → Text → Text → Option Text → Option Text → Bool → Text → ChatMessage
frame_message frame time sender room target is_private text = record {
  id = [];
  type = frame.type;
  sender = sender;
  target_user = target;
  display_name = none;
  avatar_url = none;
  room = room;
  text = text;
  timestamp = time;
  is_system = false;
  is_private = is_private;
  is_error = false;
  is_mentioned = false;
  raw_hex = frame.raw_hex;
}

-- `CHAT_MESSAGE`
unfoldable pub on_chat_frame : World → Frame → Text → Client → Client
on_chat_frame w frame time c = elim (chat_match frame.payload) [
  | none ↦
      append_message w
        (frame_message frame time (units_of "Unknown") (some c.current_room) none false
          frame.payload)
        c
  | some (room, sender, text) ↦
      append_message w (frame_message frame time sender (some room) none false text) c
]

-- `PRIVATE_MESSAGE`
unfoldable pub on_dm_frame : World → Frame → Text → Client → Client
on_dm_frame w frame time c = elim (dm_match frame.payload) [
  | none ↦ c
  | some (sender, text) ↦
      let target = username_of c.profile or_else units_of "You" in
      append_message w (frame_message frame time sender none (some target) true text) c
]

abbrev pub has_any : List Text → Text → Bool
has_any [] s = false
has_any (p ∷ ps) s = includes p s || has_any ps s

-- The email of the profile, if there is one, loses its name.
unfoldable pub forget_handle : Option UserProfile → Client → Client
forget_handle none c = c
forget_handle (some p) c = elim p.email [
  | none ↦ c
  | some email ↦ if is_empty email then c else remove_item (key_handle email) c
]

-- `ERROR_RESPONSE`
unfoldable pub on_error_frame : World → Text → Client → Client
unfolding forget_handle
on_error_frame w payload c =
    let c1 =
      if has_any
        (units_of "already taken" ∷ units_of "registration failed" ∷ units_of "Must register" ∷ [])
        payload
      then forget_handle c.profile
          (record c { registration_error = some payload; is_registered = false })
      else c in
    let c2 =
      if has_any (units_of "protected room" ∷ units_of "Password" ∷ units_of "Access denied" ∷ [])
        payload
      then record c1 { current_room = general }
      else c1 in
    record c2 { toast = some (record { text = payload; type = ToastType.error; id = w.now }) }

-- The `switch` over the type of a frame.
unfoldable pub on_pcap_frame : World → Frame → Client → Client
on_pcap_frame w frame c =
    let time = frame.timestamp or_else w.local_time in
    elim (of_opcode frame.type) [
      | some MessageType.server_notification ↦ on_notification w frame time c
      | some MessageType.chat_message ↦ on_chat_frame w frame time c
      | some MessageType.private_message ↦ on_dm_frame w frame time c
      | some MessageType.error_response ↦ on_error_frame w frame.payload c
      | _ ↦ c
    ]

-- `onmessage`, for an event whose text is JSON.
unfoldable pub on_event : World → Event → Client → Client
on_event w (tcp_status status) c = record c { tcp_status = status }
on_event w (presence_list users) c = record c { users = users }
on_event w (system_metrics m time) c = record c { metrics = some m; rooms = m.rooms }
on_event w (room_history room ms) c = on_room_history room ms c
on_event w (dm_history ms) c = on_dm_history ms c
on_event w (telemetry_event e) c = record c { telemetry_events = e ∷ take 79 c.telemetry_events }
on_event w (pcap_frame f) c =
    on_pcap_frame w
      (record {
        type = f.type;
        payload = f.payload;
        raw_hex = some f.raw_hex;
        timestamp = f.timestamp;
      })
      c
on_event w (error_frame length payload time) c =
    on_pcap_frame w
      (record {
        type = opcode MessageType.error_response;
        payload = payload;
        raw_hex = none;
        timestamp = time;
      })
      c
