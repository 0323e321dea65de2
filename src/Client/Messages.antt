-- ===== src/Client/Messages.antt =====
-- The list of messages of frontend/src/hooks/usePulseChat.ts: `appendMessage` and the merges of the
-- histories. The messages of a history are the gateway's.
pub mod Dedup
use pulse_chat.Base.{
  ◌≡◌, refl, ℕ, List, [], ◌∷◌, ◌++◌, Option, none, some, Bool, true, false, ◌&&◌, ◌||◌, not,
  if◌then◌else◌, any, filter, map, slice_last, ◌+◌,
}
use pulse_chat.Text.{Text, units_of, text_eq, is_empty, to_lower, trim, includes, ◌or_else◌}
use pulse_chat.Pcap.Codes.{MessageType, opcode}
use pulse_chat.Db.{DbMessage, World}
use pulse_chat.Db.Rooms.{text_or_empty}
use pulse_chat.Client.{ChatMessage, UserProfile, Client, username_of, perform, chimed}

-- Whether a text names the user with an `@`.
unfoldable pub mentions : Text → Text → Bool
mentions username text =
    not (is_empty username) && includes (b'@' ∷ to_lower username) (to_lower text)

-- What two messages are compared by: sender, scope and text.
unfoldable pub sender_of : ChatMessage → Text
sender_of m = to_lower (trim m.sender)

unfoldable pub scope_of : ChatMessage → Text
scope_of m = to_lower (trim (text_or_empty m.room or_else text_or_empty m.target_user))

-- The test of `isDup`
unfoldable pub is_same : ChatMessage → ChatMessage → Bool
unfolding sender_of scope_of
is_same new p =
    text_eq (sender_of p) (sender_of new)
    && text_eq (scope_of p) (scope_of new)
    && text_eq (trim p.text) (trim new.text)

-- The update of the list.
unfoldable pub add_new : ChatMessage → List ChatMessage → List ChatMessage
add_new new prev = if any (is_same new) (slice_last 15 prev) then prev else prev ++ new ∷ []

abbrev is_user : Text → Option UserProfile → Bool
is_user sender none = false
is_user sender (some p) = text_eq sender p.username

-- The chime and the count.
unfoldable pub notify : Bool → ChatMessage → Client → Client
notify is_me_mentioned msg c =
    if (is_me_mentioned || msg.is_private)
      && not msg.is_system
      && not (is_user msg.sender c.profile)
    then perform chimed (record c { mention_count = c.mention_count + 1 })
    else c

-- `appendMessage`; the `id` of the message given is not read.
unfoldable pub append_message : World → ChatMessage → Client → Client
unfolding mentions add_new notify
append_message w msg c =
    let is_me_mentioned = mentions (username_of c.profile) msg.text in
    let new = record msg { id = w.random_id; is_mentioned = is_me_mentioned } in
    let c1 = notify is_me_mentioned msg c in record c1 { messages = add_new new c1.messages }

-- The merge of a history, for the key that the messages are told apart by.
unfoldable pub merge_by :
    (ChatMessage → Text) → List ChatMessage → List ChatMessage → List ChatMessage
merge_by key loaded prev =
    prev ++ filter (λ l. not (any (λ p. text_eq (key p) (key l)) prev)) loaded

abbrev pub key_of : Text → ChatMessage → Text
key_of scope m = to_lower m.sender ++ (b'|' ∷ to_lower scope ++ (b'|' ∷ trim m.text))

unfoldable pub room_message_key : ChatMessage → Text
room_message_key m = key_of (text_or_empty m.room) m

unfoldable pub dm_key : ChatMessage → Text
dm_key m = key_of (text_or_empty m.target_user) m

-- A message of `room_history`.
unfoldable pub loaded_message : Text → Text → DbMessage → ChatMessage
unfolding mentions
loaded_message username target_room m = record {
  id = m.id;
  type = opcode MessageType.chat_message;
  sender = m.sender;
  target_user = none;
  display_name = m.display_name;
  avatar_url = m.avatar_url;
  room = some (text_or_empty m.room or_else target_room);
  text = m.text;
  timestamp = m.timestamp;
  is_system = false;
  is_private = false;
  is_error = false;
  is_mentioned = mentions username m.text;
  raw_hex = none;
}

-- A message of `dm_history`.
unfoldable pub loaded_dm : Text → DbMessage → ChatMessage
loaded_dm username m = record {
  id = m.id;
  type = opcode MessageType.private_message;
  sender = m.sender;
  target_user = m.target_user;
  display_name = m.display_name;
  avatar_url = m.avatar_url;
  room = none;
  text = m.text;
  timestamp = m.timestamp;
  is_system = false;
  is_private = true;
  is_error = false;
  is_mentioned =
      not (is_empty username)
      && text_eq (to_lower (text_or_empty m.target_user)) (to_lower username);
  raw_hex = none;
}

-- The event `room_history`.
unfoldable pub on_room_history : Text → List DbMessage → Client → Client
unfolding merge_by room_message_key loaded_message
on_room_history room ms c =
    let target_room = room or_else c.current_room in
    let loaded = map (loaded_message (username_of c.profile) target_room) ms in
    record c { messages = merge_by room_message_key loaded c.messages }

-- The event `dm_history`.
unfoldable pub on_dm_history : List DbMessage → Client → Client
unfolding merge_by dm_key loaded_dm
on_dm_history ms c =
    let loaded = map (loaded_dm (username_of c.profile)) ms in
    record c { messages = merge_by dm_key loaded c.messages }
