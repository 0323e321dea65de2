-- ===== src/Gateway/Actions.antt =====
-- The `message` handler of gateway/src/server.ts: what a browser asks for. The JSON text is parsed;
-- a field that is missing is `none`. What throws (no JSON, or a registration with no name) is
-- caught, logged and leaves the state alone.
use pulse_chat.Base.{
  ℕ, List, [], ◌∷◌, ◌++◌, Option, none, some, Bool, true, ◌||◌, if◌then◌else◌, length, take,
}
use pulse_chat.Text.{Text, units_of, text_eq, is_empty, to_lower, trim, ◌or_else◌}
use pulse_chat.Utf8.{Bytes}
use pulse_chat.Pcap.Codes.{MessageType, of_opcode, message_type_name}
use pulse_chat.Pcap.{encode_frame, to_hex, read_u32}
use pulse_chat.Dict.{Dict, get, set, replace}
use pulse_chat.Db.{DbUser, DbMessage, PulseDatabase, World, general}
use pulse_chat.Db.Users.{
  Claim, UserResult, accepted, refused, user_error_text, validate_and_register_user, default_to,
}
use pulse_chat.Db.Rooms.{RoomResult, denied, room_error_text, create_or_join_room}
use pulse_chat.Db.Messages.{
  save_message, save_direct_message, get_room_history, get_direct_messages_for_user,
}
use pulse_chat.Gateway.{
  UserPresence, ClientSession, Telemetry, outbound, error_frame, room_history, dm_history,
  telemetry_event, written, Gateway, find_session, with_session, emit, send, broadcast_to_all,
  broadcast_presence,
}

pub data Action : Type 0 where
  register update_status chat join_room leave_room private_message list_rooms list_users : Action
  heartbeat get_metrics unknown : Action

-- The cases of the `switch`.
unfoldable pub action_of : Text → Action
action_of a =
    if text_eq a (units_of "register")
    then register
    else if text_eq a (units_of "update_status")
    then update_status
    else if text_eq a (units_of "chat")
    then chat
    else if text_eq a (units_of "join_room")
    then join_room
    else if text_eq a (units_of "leave_room")
    then leave_room
    else if text_eq a (units_of "private_message")
    then private_message
    else if text_eq a (units_of "list_rooms")
    then list_rooms
    else if text_eq a (units_of "list_users")
    then list_users
    else if text_eq a (units_of "heartbeat")
    then heartbeat
    else if text_eq a (units_of "get_metrics")
    then get_metrics
    else unknown

-- The fields of a message that the handler reads.
pub record ClientMessage : Type 0 where
  pub action : Text
  pub username : Option Text
  pub email : Option Text
  pub display_name : Option Text
  pub avatar_url : Option Text
  pub provider : Option Text
  pub status : Option Text
  pub activity_text : Option Text
  pub text : Option Text
  pub room : Option Text
  pub password : Option Text
  pub target : Option Text

-- `MessageType[n] || 'UNKNOWN'`
unfoldable pub name_or_unknown : Option MessageType → Text
name_or_unknown none = units_of "UNKNOWN"
name_or_unknown (some t) = message_type_name t

-- The type and the length that stand at the head of a frame.
unfoldable pub frame_type : Bytes → ℕ
frame_type [] = 0
frame_type (t ∷ _) = t

unfoldable pub frame_length : Bytes → ℕ
frame_length (t ∷ a ∷ b ∷ c ∷ d ∷ rest) = read_u32 a b c d
frame_length _ = 0

-- `msg.text || msg.room || msg.username || msg.target || ''`
abbrev pub shown_payload : ClientMessage → Text
shown_payload msg =
    default_to msg.text (default_to msg.room (default_to msg.username (default_to msg.target [])))

-- The telemetry of a frame that goes out.
unfoldable pub outbound_telemetry : World → ClientMessage → Bytes → Telemetry
outbound_telemetry w msg frame = record {
  direction = outbound;
  type = frame_type frame;
  type_name = name_or_unknown (of_opcode (frame_type frame));
  length = frame_length frame;
  payload = shown_payload msg;
  raw_hex = to_hex (take 32 frame);
  timestamp = w.day_time;
}

-- The end of the handler: the frame is written to the TCP socket and shown to everyone.
unfoldable pub forward : World → ℕ → ClientMessage → Bool → Bytes → Gateway → Gateway
forward w id msg is_destroyed frame g =
    if is_destroyed
    then g
    else broadcast_to_all (telemetry_event (outbound_telemetry w msg frame))
        (emit (written id frame) g)

abbrev pub room_or_general : Text → Text
room_or_general room = ◌or_else◌ room general

abbrev pub send_history : ℕ → Text → Gateway → Gateway
send_history id room g = send id (room_history room (get_room_history room 50 g.db)) g

abbrev pub with_db : PulseDatabase → Gateway → Gateway
with_db db g = record g { db = db }

abbrev pub with_presence : Dict UserPresence → Gateway → Gateway
with_presence presence g = record g { presence = presence }

-- The session after a registration.
unfoldable pub registered_session : DbUser → ClientMessage → ClientSession → ClientSession
registered_session u msg s = record s {
  username = u.username;
  display_name = u.display_name;
  avatar_url = some u.avatar_url;
  status = default_to msg.status (units_of "online");
  activity_text = default_to msg.activity_text [];
  is_registered = true;
}

-- The entry of a user in the presence map.
unfoldable pub presence_of : World → DbUser → ClientSession → UserPresence
presence_of w u s = record {
  username = u.username;
  display_name = s.display_name;
  avatar_url = s.avatar_url;
  email = u.email;
  status = s.status;
  activity_text = s.activity_text;
  room = room_or_general s.current_room;
  last_seen = w.now;
}

abbrev pub send_dms : ℕ → List DbMessage → Gateway → Gateway
send_dms id [] g = g
send_dms id (m ∷ ms) g = send id (dm_history (m ∷ ms)) g

-- `case 'register'` behind the database's answer.
unfoldable pub registered :
    World → ℕ → ClientMessage → ClientSession → UserResult → Gateway → Gateway
registered w id msg s (refused e) g =
    let error = user_error_text e in send id (error_frame (length error) error w.local_time) g
registered w id msg s (accepted u) g =
    let s' = registered_session u msg s in
    let g1 =
      with_presence (set u.username (presence_of w u s') g.presence) (with_session id s' g) in
    let g2 = send_history id (room_or_general s'.current_room) (broadcast_presence g1) in
    let g3 = send_dms id (get_direct_messages_for_user u.username 200 g2.db) g2 in
    forward w id msg s.is_destroyed (encode_frame MessageType.user_register u.username) g3

abbrev pub claim_of : ClientMessage → Claim
claim_of msg = record {
  email = msg.email;
  display_name = msg.display_name;
  avatar_url = msg.avatar_url;
  provider = default_to msg.provider (units_of "google");
}

unfoldable pub on_register :
    World → ℕ → ClientMessage → ClientSession → Option Text → Gateway → Gateway
on_register w id msg s none g = g
on_register w id msg s (some username) g =
    let (db, result) = validate_and_register_user w username (claim_of msg) g.db in
    registered w id msg s result (with_db db g)

abbrev pub or_before : Option Text → Text → Text
or_before none t = t
or_before (some s) t = s

abbrev pub change_entry :
    (UserPresence → UserPresence) → Text → Dict UserPresence → Dict UserPresence
change_entry f k m = elim (get k m) [ none ↦ m | some p ↦ replace k (f p) m ]

-- `case 'update_status'`
unfoldable pub on_update_status : World → ℕ → ClientMessage → ClientSession → Gateway → Gateway
on_update_status w id msg s g =
    let s' = record s {
      status = default_to msg.status s.status;
      activity_text = or_before msg.activity_text s.activity_text;
    } in
    let update = λ (p : UserPresence). record p {
      status = s'.status;
      activity_text = s'.activity_text;
      last_seen = w.now;
    } in
    if is_empty s.username
    then g
    else broadcast_presence
        (with_presence (change_entry update s.username g.presence) (with_session id s' g))

-- `case 'chat'`
unfoldable pub on_chat : World → ℕ → ClientMessage → ClientSession → Gateway → Gateway
on_chat w id msg s g =
    let text = default_to msg.text [] in
    if is_empty s.username || is_empty text
    then g
    else forward w id msg s.is_destroyed (encode_frame MessageType.chat_message text) (
        with_db
          (save_message w (room_or_general s.current_room) s.username text (some s.display_name)
            s.avatar_url g.db)
          g)

-- A session that goes to a room: its entry follows, and everyone hears of it if it has a name.
unfoldable pub enter_room : ℕ → Text → ClientSession → Gateway → Gateway
enter_room id room s g =
    let g1 = with_session id (record s { current_room = room }) g in
    if is_empty s.username
    then g1
    else broadcast_presence
        (with_presence (change_entry (λ p. record p { room = room }) s.username g1.presence) g1)

-- `case 'join_room'` behind the database's answer.
unfoldable pub joined_room :
    World → ℕ → ClientMessage → ClientSession → Text → RoomResult → Gateway → Gateway
joined_room w id msg s room (denied e) g =
    let error = room_error_text e in send id (error_frame (length error) error w.local_time) g
joined_room w id msg s room _ g =
    forward w id msg s.is_destroyed (encode_frame MessageType.join_room room)
      (send_history id room (enter_room id room s g))

unfoldable pub on_join_room : World → ℕ → ClientMessage → ClientSession → Gateway → Gateway
on_join_room w id msg s g =
    let room = trim (default_to msg.room general) in
    let (db, result) = create_or_join_room w room msg.password (some s.username) g.db in
    joined_room w id msg s room result (with_db db g)

-- `case 'leave_room'`
unfoldable pub on_leave_room : World → ℕ → ClientMessage → ClientSession → Gateway → Gateway
on_leave_room w id msg s g =
    forward w id msg s.is_destroyed (encode_frame MessageType.leave_room (default_to msg.room []))
      (send_history id general (enter_room id general s g))

-- `case 'private_message'`
unfoldable pub on_private_message : World → ℕ → ClientMessage → ClientSession → Gateway → Gateway
on_private_message w id msg s g =
    let target = to_lower (trim (default_to msg.target [])) in
    let text = trim (default_to msg.text []) in
    if is_empty s.username || is_empty target || is_empty text
    then g
    else forward w id msg s.is_destroyed
        (encode_frame MessageType.private_message (target ++ (b':' ∷ text)))
        (with_db
          (save_direct_message w s.username target text (some s.display_name) s.avatar_url g.db) g)

-- The `switch`, for the session of the socket.
unfoldable pub on_action : World → ℕ → ClientMessage → ClientSession → Action → Gateway → Gateway
on_action w id msg s register g = on_register w id msg s msg.username g
on_action w id msg s update_status g = on_update_status w id msg s g
on_action w id msg s chat g = on_chat w id msg s g
on_action w id msg s join_room g = on_join_room w id msg s g
on_action w id msg s leave_room g = on_leave_room w id msg s g
on_action w id msg s private_message g = on_private_message w id msg s g
on_action w id msg s list_rooms g =
    forward w id msg s.is_destroyed (encode_frame MessageType.list_rooms []) g
on_action w id msg s list_users g =
    forward w id msg s.is_destroyed (encode_frame MessageType.list_users []) g
on_action w id msg s heartbeat g =
    forward w id msg s.is_destroyed (encode_frame MessageType.heartbeat (units_of "PING")) g
on_action w id msg s get_metrics g =
    forward w id msg s.is_destroyed (encode_frame MessageType.get_metrics []) g
on_action w id msg s unknown g = g

-- The handler; `none` is a text that is no JSON.
unfoldable pub on_message : World → ℕ → Option ClientMessage → Gateway → Gateway
on_message w id none g = g
on_message w id (some msg) g = elim (find_session id g.sessions) [
  | none ↦ g
  | some s ↦ on_action w id msg s (action_of msg.action) g
]
