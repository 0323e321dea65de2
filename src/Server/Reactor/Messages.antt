-- ===== src/Server/Reactor/Messages.antt =====
-- What a client's frames do, in src/reactor/reactor_server.cpp.
use pulse_chat.Base.{ℕ, List, [], ◌∷◌, ◌++◌, Option, none, some, length, if◌then◌else◌}
use pulse_chat.Text.{units_of, text_eq}
use pulse_chat.Utf8.{Bytes}
use pulse_chat.Pcap.Codes.{MessageType}
use pulse_chat.Ui.Panel.{show}
use pulse_chat.Server.Wire.{Message, parse_private_message}
use pulse_chat.Server.Rooms.{
  RoomManager, NameError, name_error_text, register_user, get_username, get_user_room, join_room,
  leave_room, get_connection_id, list_rooms, list_all_users, RoomSummary, default_room,
}
use pulse_chat.Server.Reactor.{
  Host, Reactor, make_notify, make_error, make_chat, room_or_default, send_message_to_fd,
  broadcast_to_room, handle_close,
}

abbrev pub put_rooms : RoomManager → Reactor → Reactor
put_rooms rooms st = record st { room_manager = rooms }

unfoldable pub welcome_text : Bytes → Bytes
welcome_text username =
    units_of "Welcome to PulseChat Reactor, "
    ++ (username ++ units_of "! Default room is #general.")

unfoldable pub answer_register :
    Host → ℕ → Bytes → Option NameError × RoomManager → Reactor → Reactor
unfolding send_message_to_fd broadcast_to_room name_error_text welcome_text
answer_register w fd username (some e, rooms) st =
    send_message_to_fd w fd
      (make_error (units_of "Registration failed: " ++ name_error_text username e))
      (put_rooms rooms st)
answer_register w fd username (none, rooms) st =
    let welcomed =
      send_message_to_fd w fd (make_notify (welcome_text username)) (put_rooms rooms st) in
    broadcast_to_room w default_room
      (make_notify (units_of "[SERVER] " ++ (username ++ units_of " joined the chat."))) (some fd)
      welcomed

-- "[room] name: text"
unfoldable pub chat_line : Bytes → Bytes → Bytes → Bytes
chat_line room username text = b'[' ∷ room ++ (b']' ∷ 0x20 ∷ username ++ (b':' ∷ 0x20 ∷ text))

unfoldable pub process_chat : Host → ℕ → Bytes → Option Bytes → Reactor → Reactor
unfolding send_message_to_fd broadcast_to_room chat_line
process_chat w fd text none st =
    send_message_to_fd w fd (make_error (units_of "Must register username first via USER_REGISTER"))
      st
process_chat w fd text (some username) st =
    let room = room_or_default (get_user_room fd st.room_manager) in
    broadcast_to_room w room (make_chat (chat_line room username text)) none st

unfoldable pub announce_move : Host → Bytes → Bytes → Bytes → Reactor → Reactor
unfolding broadcast_to_room
announce_move w username prev_room target_room st =
    let left =
      units_of "[SERVER] "
      ++ (username
          ++ (units_of " left #" ++ (prev_room ++ (units_of " to join #" ++ target_room)))) in
    let joined = units_of "[SERVER] " ++ (username ++ (units_of " joined #" ++ target_room)) in
    broadcast_to_room w target_room (make_notify joined) none
      (broadcast_to_room w prev_room (make_notify left) none st)

unfoldable pub answer_join :
    Host → ℕ → Bytes → Bytes → Option Bytes × RoomManager → Reactor → Reactor
unfolding announce_move send_message_to_fd
answer_join w fd username target_room (some prev_room, rooms) st =
    let st' = put_rooms rooms st in
    send_message_to_fd w fd (make_notify (units_of "You joined room #" ++ target_room)) (
      if text_eq prev_room target_room
      then st'
      else announce_move w username prev_room target_room st')
answer_join w fd username target_room (none, rooms) st =
    send_message_to_fd w fd (make_error (units_of "Failed to join room: " ++ target_room))
      (put_rooms rooms st)

unfoldable pub process_join : Host → ℕ → Bytes → Option Bytes → Reactor → Reactor
unfolding answer_join join_room
process_join w fd target_room none st =
    send_message_to_fd w fd (make_error (units_of "Must register first")) st
process_join w fd target_room (some username) st =
    answer_join w fd username target_room (join_room fd target_room st.room_manager) st

unfoldable pub answer_leave : Host → ℕ → Bytes → Option Bytes × RoomManager → Reactor → Reactor
unfolding broadcast_to_room send_message_to_fd
answer_leave w fd username (some left_room, rooms) st =
    let left = units_of "[SERVER] " ++ (username ++ (units_of " left room #" ++ left_room)) in
    let back = units_of "[SERVER] " ++ (username ++ units_of " returned to #general") in
    let told = broadcast_to_room w left_room (make_notify left) none (put_rooms rooms st) in
    send_message_to_fd w fd
      (make_notify (units_of "Left #" ++ (left_room ++ units_of ", returned to #general")))
      (broadcast_to_room w default_room (make_notify back) none told)
answer_leave w fd username (none, rooms) st =
    send_message_to_fd w fd (make_notify (units_of "Already in default room #general"))
      (put_rooms rooms st)

unfoldable pub process_leave : Host → ℕ → Option Bytes → Reactor → Reactor
unfolding answer_leave leave_room
process_leave w fd none st = st
process_leave w fd (some username) st =
    answer_leave w fd username (leave_room fd st.room_manager) st

-- "[DM from name]: text"
unfoldable pub dm_line : Bytes → Bytes → Bytes
dm_line sender text = units_of "[DM from " ++ (sender ++ (b']' ∷ b':' ∷ 0x20 ∷ text))

abbrev pub make_dm : Bytes → Bytes → Message
make_dm sender text = record { type = MessageType.private_message; payload = dm_line sender text }

abbrev pub dm_receipt : Bytes → Bytes → Message
dm_receipt target text = make_notify (units_of "[DM to " ++ (target ++ (b']' ∷ b':' ∷ 0x20 ∷ text)))

unfoldable pub deliver : Host → Bytes → Bytes → Option ℕ → Reactor → Reactor
unfolding send_message_to_fd
deliver w sender text none st = st
deliver w sender text (some target_fd) st = send_message_to_fd w target_fd (make_dm sender text) st

unfoldable pub addressed : Host → ℕ → Bytes → Option (Bytes × Bytes) → Reactor → Reactor
unfolding deliver
addressed w fd sender none st =
    send_message_to_fd w fd
      (make_error (units_of "Invalid private message format. Expected 'target:message'")) st
addressed w fd sender (some (target, text)) st =
    send_message_to_fd w fd (dm_receipt target text)
      (deliver w sender text (get_connection_id target st.room_manager) st)

unfoldable pub process_private : Host → ℕ → Bytes → Option Bytes → Reactor → Reactor
unfolding addressed parse_private_message
process_private w fd payload none st =
    send_message_to_fd w fd (make_error (units_of "Must register first")) st
process_private w fd payload (some sender) st =
    addressed w fd sender (parse_private_message payload) st

unfoldable pub room_lines : List RoomSummary → Bytes
unfolding show
room_lines [] = []
room_lines (r ∷ rooms) =
    units_of "  #"
    ++ (r.name
        ++ (units_of " (" ++ (show r.user_count ++ (units_of " users)\n" ++ room_lines rooms))))

unfoldable pub user_lines : List Bytes → Bytes
user_lines [] = []
user_lines (u ∷ users) = units_of "  - " ++ (u ++ (b'\n' ∷ user_lines users))

unfoldable pub rooms_text : List RoomSummary → Bytes
unfolding room_lines
rooms_text rooms =
    units_of "=== Active Rooms ("
    ++ (show (length rooms) ++ (units_of ") ===\n" ++ room_lines rooms))

unfoldable pub users_text : List Bytes → Bytes
unfolding user_lines
users_text users =
    units_of "=== Online Users ("
    ++ (show (length users) ++ (units_of ") ===\n" ++ user_lines users))

unfoldable pub room_json : RoomSummary → Bytes
unfolding show
room_json r =
    units_of "{\"name\":\""
    ++ (r.name ++ (units_of "\",\"users\":" ++ (show r.user_count ++ units_of "}")))

unfoldable pub room_list_json : List RoomSummary → Bytes
unfolding room_json
room_list_json [] = []
room_list_json (r ∷ []) = room_json r
room_list_json (r ∷ s ∷ rooms) = room_json r ++ (b',' ∷ room_list_json (s ∷ rooms))

-- The counters, and the rooms behind them.
unfoldable pub metrics_message : Host → Reactor → Message
unfolding room_list_json
metrics_message w st = record {
  type = MessageType.metrics_update;
  payload =
      w.metrics_head st.flushes ++ (room_list_json (list_rooms st.room_manager) ++ units_of "]}");
}

unfoldable pub process_message : Host → ℕ → Message → Reactor → Reactor
unfolding answer_register process_chat process_join process_leave process_private send_message_to_fd
    handle_close metrics_message
process_message w fd msg st =
    let username = get_username fd st.room_manager in
    elim msg.type [
      | MessageType.user_register ↦
          answer_register w fd msg.payload (register_user fd msg.payload st.room_manager) st
      | MessageType.chat_message ↦ process_chat w fd msg.payload username st
      | MessageType.join_room ↦ process_join w fd msg.payload username st
      | MessageType.leave_room ↦ process_leave w fd username st
      | MessageType.private_message ↦ process_private w fd msg.payload username st
      | MessageType.list_rooms ↦
          send_message_to_fd w fd (make_notify (rooms_text (list_rooms st.room_manager))) st
      | MessageType.list_users ↦
          send_message_to_fd w fd (make_notify (users_text (list_all_users st.room_manager))) st
      | MessageType.heartbeat ↦
          send_message_to_fd w fd
            (record { type = MessageType.heartbeat_ack; payload = units_of "PONG" }) st
      | MessageType.heartbeat_ack ↦ st
      | MessageType.disconnect ↦ handle_close w fd (units_of "Client requested disconnect") st
      | MessageType.get_metrics ↦ send_message_to_fd w fd (metrics_message w st) st
      | _ ↦ send_message_to_fd w fd (make_error (units_of "Unsupported message type")) st
    ]
