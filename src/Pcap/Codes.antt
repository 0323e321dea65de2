-- ===== src/Pcap/Codes.antt =====
-- `MessageType` of gateway/src/pcap.ts and frontend/src/types.ts, its numbers and its names.
use pulse_chat.Base.{
  ◌≢◌, Option-cases, inl, inr, ℕ, ◌+◌, ◌-◌, ◌/◌, ◌%◌, ◌≤◌, ◌≡◌, refl, [], ◌∷◌, ◌++◌, Option, none,
  some, ltb, ◌==◌, if◌then◌else◌, arith,
}
use pulse_chat.Text.{Text, units_of}

pub data MessageType : Type 0 where
  chat_message join_room leave_room private_message heartbeat heartbeat_ack : MessageType
  user_register server_notification list_rooms list_users error_response : MessageType
  disconnect get_metrics metrics_update : MessageType

abbrev pub opcode : MessageType → ℕ
opcode chat_message = 0x01
opcode join_room = 0x02
opcode leave_room = 0x03
opcode private_message = 0x04
opcode heartbeat = 0x05
opcode heartbeat_ack = 0x06
opcode user_register = 0x07
opcode server_notification = 0x08
opcode list_rooms = 0x09
opcode list_users = 0x0A
opcode error_response = 0x0B
opcode disconnect = 0x0C
opcode get_metrics = 0x0D
opcode metrics_update = 0x0E

-- The numbers that are opcodes.
unfoldable pub of_opcode : ℕ → Option MessageType
of_opcode n =
    if n == 0x01
    then some chat_message
    else if n == 0x02
    then some join_room
    else if n == 0x03
    then some leave_room
    else if n == 0x04
    then some private_message
    else if n == 0x05
    then some heartbeat
    else if n == 0x06
    then some heartbeat_ack
    else if n == 0x07
    then some user_register
    else if n == 0x08
    then some server_notification
    else if n == 0x09
    then some list_rooms
    else if n == 0x0A
    then some list_users
    else if n == 0x0B
    then some error_response
    else if n == 0x0C
    then some disconnect
    else if n == 0x0D
    then some get_metrics
    else if n == 0x0E
    then some metrics_update
    else none

-- `MessageTypeNames`
unfoldable pub message_type_name : MessageType → Text
message_type_name chat_message = units_of "CHAT_MESSAGE"
message_type_name join_room = units_of "JOIN_ROOM"
message_type_name leave_room = units_of "LEAVE_ROOM"
message_type_name private_message = units_of "PRIVATE_MESSAGE"
message_type_name heartbeat = units_of "HEARTBEAT"
message_type_name heartbeat_ack = units_of "HEARTBEAT_ACK"
message_type_name user_register = units_of "USER_REGISTER"
message_type_name server_notification = units_of "SERVER_NOTIFICATION"
message_type_name list_rooms = units_of "LIST_ROOMS"
message_type_name list_users = units_of "LIST_USERS"
message_type_name error_response = units_of "ERROR_RESPONSE"
message_type_name disconnect = units_of "DISCONNECT"
message_type_name get_metrics = units_of "GET_METRICS"
message_type_name metrics_update = units_of "METRICS_UPDATE"

abbrev hex_unit : ℕ → ℕ
hex_unit d = if ltb d 10 then b'0' + d else b'a' + (d - 10)

-- `n.toString(16)` of a byte.
abbrev byte_hex : ℕ → Text
byte_hex n = if ltb n 16 then hex_unit n ∷ [] else hex_unit (n / 16) ∷ hex_unit (n % 16) ∷ []

abbrev known_name : ℕ → Option MessageType → Text
known_name n none = units_of "UNKNOWN_0x" ++ byte_hex n
known_name n (some t) = message_type_name t

-- The `typeName` of a frame.
unfoldable pub type_name : ℕ → Text
unfolding of_opcode message_type_name
type_name n = known_name n (of_opcode n)

pub of_opcode-opcode : (t : MessageType) → of_opcode (opcode t) ≡ some t
unfolding of_opcode
of_opcode-opcode chat_message = refl
of_opcode-opcode _ = refl

opcode_of_some : (n : ℕ) (t : MessageType) → of_opcode n ≡ some t → n ≡ opcode t
unfolding of_opcode
opcode_of_some n t e = ground arith

of_opcode-ne-none : (n : ℕ) → 1 ≤ n → n ≤ 14 → of_opcode n ≢ none
unfolding of_opcode
of_opcode-ne-none n lo hi = ground arith

-- Each number from 1 to 14 is the opcode of a type.
pub opcode_of : (n : ℕ) → 1 ≤ n → n ≤ 14 → (t : MessageType) × (n ≡ opcode t)
opcode_of n lo hi = elim (Option-cases (of_opcode n)) [
  | inl e ↦ absurd (of_opcode-ne-none n lo hi e)
  | inr (t, e) ↦ (t, opcode_of_some n t e)
]

pub opcode_bounds : (t : MessageType) → (1 ≤ opcode t) × (opcode t ≤ 14)
opcode_bounds chat_message = omega arith
opcode_bounds _ = omega arith
