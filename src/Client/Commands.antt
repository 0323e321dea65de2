-- ===== src/Client/Commands.antt =====
-- What the user does, in frontend/src/hooks/usePulseChat.ts: `login`, `logout`, `updateStatus`, and
-- what is typed (`sendMessage` and what it calls).
use pulse_chat.Base.{
  List, [], ◌∷◌, ◌++◌, Option, none, some, true, false, ◌||◌, if◌then◌else◌, drop,
}
use pulse_chat.Text.{Text, units_of, text_eq, is_empty, trim, starts_with, ◌or_else◌}
use pulse_chat.Pcap.Codes.{MessageType, opcode}
use pulse_chat.Dict.{get}
use pulse_chat.Db.{World}
use pulse_chat.Client.{
  ChatMessage, UserProfile, ToastType, Stored, messages_item, Client, ReadyState, state_closing,
  closed_socket, username_of, perform, remove_item, key_profile, key_messages, set_active_dm_user,
  request, send_action, register_request,
}
use pulse_chat.Client.Messages.{append_message}
use pulse_chat.Client.Patterns.{split_spaces, join_spaces}

-- `wsRef.current.close()`: a socket that is open or connecting is closing from now on.
unfoldable pub close_socket : Client → Client
close_socket c = elim c.socket [
  | none ↦ c
  | some ReadyState.state_closed ↦ perform closed_socket c
  | some _ ↦ perform closed_socket (record c { socket = some state_closing })
]

-- The stored messages of a user.
unfoldable pub saved_messages : Option Stored → List ChatMessage
saved_messages (some (messages_item ms)) = ms
saved_messages _ = []

-- `login`
unfoldable pub login : UserProfile → Client → Client
unfolding saved_messages
login user_profile c =
    let saved = get (key_messages user_profile.username) c.storage in
    send_action (register_request user_profile) (record c {
      profile = some user_profile;
      registration_error = none;
      messages = saved_messages saved;
    })

abbrev pub option_or {ℓ} : {A : Type ℓ} → Option A → Option A → Option A
option_or none b = b
option_or (some a) b = some a

-- `updateStatus`
unfoldable pub update_status : Text → Option Text → Client → Client
update_status status activity_text c = elim c.profile [
  | none ↦ c
  | some p ↦
      let updated = record p {
        status = status;
        activity_text = option_or activity_text p.activity_text;
      } in
      send_action
        (record (request (units_of "update_status")) {
          status = some status;
          activity_text = updated.activity_text;
        })
        (record c { profile = some updated })
]

-- `logout`
unfoldable pub logout : Client → Client
logout c =
    let c1 = set_active_dm_user none (record c { profile = none; is_registered = false }) in
    close_socket (remove_item key_profile (record c1 { messages = [] }))

-- `joinRoom`
unfoldable pub join_room : Text → Option Text → Client → Client
join_room room_name password c =
    let trimmed = trim room_name in
    if is_empty trimmed
    then c
    else set_active_dm_user none (
        send_action
          (record (request (units_of "join_room")) { room = some trimmed; password = password }) c)

-- `leaveRoom`
unfoldable pub leave_room : Client → Client
leave_room c = set_active_dm_user none (send_action (request (units_of "leave_room")) c)

abbrev pub outgoing : World → Text → Text → Text → ChatMessage
outgoing w sender target text = record {
  id = [];
  type = opcode MessageType.private_message;
  sender = sender;
  target_user = some target;
  display_name = none;
  avatar_url = none;
  room = none;
  text = text;
  timestamp = w.local_time;
  is_system = false;
  is_private = true;
  is_error = false;
  is_mentioned = false;
  raw_hex = none;
}

-- `sendPrivateMessage`
unfoldable pub send_private_message : World → Text → Text → Client → Client
send_private_message w target_user text c =
    let trimmed = trim text in
    if is_empty target_user || is_empty trimmed
    then c
    else append_message w
        (outgoing w (username_of c.profile or_else units_of "You") target_user trimmed)
        (send_action
          (record (request (units_of "private_message")) {
            target = some target_user;
            text = some trimmed;
          })
          c)

abbrev help : World → ChatMessage
help w = record {
  id = [];
  type = opcode MessageType.server_notification;
  sender = units_of "HELP";
  target_user = none;
  display_name = none;
  avatar_url = none;
  room = none;
  text =
      units_of
        "Available Commands: /join <room> [password], /leave, /rooms, /users, /msg <user> <message>, /help";
  timestamp = w.local_time;
  is_system = true;
  is_private = false;
  is_error = false;
  is_mentioned = false;
  raw_hex = none;
}

abbrev show_toast : World → ToastType → Text → Client → Client
show_toast w type text c = record c {
  toast = some (record { text = text; type = type; id = w.now });
}

abbrev second : List Text → Option Text
second [] = none
second (a ∷ []) = none
second (a ∷ b ∷ rest) = some b

-- `/join`, for the words behind it.
unfoldable pub join_command : List Text → Client → Client
join_command [] c = c
join_command (room ∷ rest) c = if is_empty room then c else join_room room (second (room ∷ rest)) c

-- `/msg`, for the parts behind it.
unfoldable pub msg_command : World → List Text → Client → Client
msg_command w (target ∷ part ∷ parts) c =
    send_private_message w target (join_spaces (part ∷ parts)) c
msg_command w _ c = show_toast w ToastType.info (units_of "Usage: /msg <username> <message>") c

-- The commands.
unfoldable pub run_command : World → Text → Client → Client
run_command w input c =
    if starts_with (units_of "/join ") input
    then join_command (split_spaces (trim (drop 6 input))) c
    else if text_eq input (units_of "/leave")
    then leave_room c
    else if text_eq input (units_of "/rooms")
    then send_action (request (units_of "list_rooms")) c
    else if text_eq input (units_of "/users")
    then send_action (request (units_of "list_users")) c
    else if starts_with (units_of "/msg ") input
    then msg_command w (split_spaces (drop 5 input)) c
    else if text_eq input (units_of "/help")
    then append_message w (help w) c
    else show_toast w ToastType.error
        (units_of "Unknown command: " ++ (input ++ units_of ". Type /help for command list.")) c

-- What is no command goes to the user of the open chat, or to the room.
unfoldable pub say : World → Text → Option Text → Client → Client
say w input none c = send_action (record (request (units_of "chat")) { text = some input }) c
say w input (some user) c =
    if is_empty user
    then send_action (record (request (units_of "chat")) { text = some input }) c
    else send_private_message w user input c

-- `sendMessage`
unfoldable pub send_message : World → Text → Client → Client
send_message w raw_input c =
    let input = trim raw_input in
    if is_empty input
    then c
    else if starts_with (units_of "/") input
    then run_command w input c
    else say w input c.active_dm_user c
