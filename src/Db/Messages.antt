-- ===== src/Db/Messages.antt =====
-- The messages of gateway/src/db.ts.
pub mod History
use pulse_chat.Base.{
  ℕ, List, [], ◌∷◌, ◌++◌, Option, none, some, Bool, true, false, not, ◌&&◌, ◌||◌, ltb, length,
  filter, slice_last, if◌then◌else◌,
}
use pulse_chat.Text.{Text, text_eq, to_lower}
use pulse_chat.Db.{DbMessage, PulseDatabase, World, save}

abbrev pub with_messages : List DbMessage → PulseDatabase → PulseDatabase
with_messages ms p = record p { data_now = record (p.data_now) { messages = ms } }

-- The bound on the list: `if (messages.length > n) messages = messages.slice(-n)`.
unfoldable pub keep_last : ℕ → List DbMessage → List DbMessage
keep_last n ms = if ltb n (length ms) then slice_last n ms else ms

-- The message of `saveMessage`.
unfoldable pub room_message : World → Text → Text → Text → Option Text → Option Text → DbMessage
room_message w room sender text display_name avatar_url = record {
  id = w.random_id;
  room = some (to_lower room);
  sender = sender;
  target_user = none;
  is_private = false;
  display_name = display_name;
  avatar_url = avatar_url;
  text = text;
  timestamp = w.local_time;
  created_at = w.now;
}

-- The message of `saveDirectMessage`.
unfoldable pub direct_message : World → Text → Text → Text → Option Text → Option Text → DbMessage
direct_message w sender target text display_name avatar_url = record {
  id = w.random_id;
  room = none;
  sender = to_lower sender;
  target_user = some (to_lower target);
  is_private = true;
  display_name = display_name;
  avatar_url = avatar_url;
  text = text;
  timestamp = w.local_time;
  created_at = w.now;
}

-- Both methods, for a message and a bound.
unfoldable pub store_message : World → ℕ → DbMessage → PulseDatabase → PulseDatabase
unfolding keep_last
store_message w n m p = save w (with_messages (keep_last n (p.data_now.messages ++ m ∷ [])) p)

-- `saveMessage`, and `addMessage`, which calls it.
unfoldable pub save_message :
    World → Text → Text → Text → Option Text → Option Text → PulseDatabase → PulseDatabase
unfolding store_message room_message
save_message w room sender text display_name avatar_url p =
    store_message w 5000 (room_message w room sender text display_name avatar_url) p

-- `saveDirectMessage`
unfoldable pub save_direct_message :
    World → Text → Text → Text → Option Text → Option Text → PulseDatabase → PulseDatabase
unfolding store_message direct_message
save_direct_message w sender target text display_name avatar_url p =
    store_message w 10000 (direct_message w sender target text display_name avatar_url) p

abbrev pub is_text : Text → Option Text → Bool
is_text t none = false
is_text t (some s) = text_eq s t

-- Whether a message is one of a user's private ones.
unfoldable pub is_direct_of : Text → DbMessage → Bool
is_direct_of user m = m.is_private && (text_eq m.sender user || is_text user m.target_user)

abbrev lower_text : Option Text → Option Text
lower_text none = none
lower_text (some s) = some (to_lower s)

-- Whether a message was said in a room.
unfoldable pub is_said_in : Text → DbMessage → Bool
is_said_in target m = not m.is_private && is_text target (lower_text m.room)

-- `getDirectMessagesForUser`
unfoldable pub get_direct_messages_for_user : Text → ℕ → PulseDatabase → List DbMessage
unfolding is_direct_of
get_direct_messages_for_user username limit p =
    slice_last limit (filter (is_direct_of (to_lower username)) p.data_now.messages)

-- `getRoomHistory`
unfoldable pub get_room_history : Text → ℕ → PulseDatabase → List DbMessage
unfolding is_said_in
get_room_history room_name limit p =
    slice_last limit (filter (is_said_in (to_lower room_name)) p.data_now.messages)
