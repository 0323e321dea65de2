-- ===== src/Ui/Feed.antt =====
-- The messages that frontend/src/components/ChatArea.tsx shows.
pub mod Shown
pub mod Parts
pub mod Merged
pub mod Delivered
pub mod Heard
use pulse_chat.Base.{
  ℕ, ◌+◌, List, [], ◌∷◌, ◌++◌, Option, none, some, Bool, true, false, ◌&&◌, ◌||◌, not, ltb,
  if◌then◌else◌, filter, map,
}
use pulse_chat.Text.{Text, units_of, text_eq, is_empty, to_lower, starts_with}
use pulse_chat.Db.{general}
use pulse_chat.Client.{ChatMessage, Client, username_of}
use pulse_chat.Client.Patterns.{is_word_unit}
use pulse_chat.Ui.{truthy}

-- What the component is given.
pub record ChatProps : Type 0 where
  pub current_room : Text
  pub active_dm_user : Option Text
  pub current_username : Text
  pub messages : List ChatMessage

-- What App.tsx gives it.
unfoldable pub chat_props : Client → ChatProps
chat_props c = record {
  current_room = c.current_room;
  active_dm_user = c.active_dm_user;
  current_username = username_of c.profile;
  messages = c.messages;
}

abbrev pub is_lower : Option Text → Text → Bool
is_lower none name = false
is_lower (some s) name = text_eq (to_lower s) name

-- `isFromMeToThem`
unfoldable pub is_from_me : Text → Text → ChatMessage → Bool
is_from_me my_name dm_target msg =
    (text_eq (to_lower msg.sender) my_name || text_eq (to_lower msg.sender) (units_of "you"))
    && is_lower msg.target_user dm_target

abbrev is_missing : Option Text → Bool
is_missing none = true
is_missing (some s) = false

-- `isFromThemToMe`
unfoldable pub is_from_them : Text → Text → ChatMessage → Bool
is_from_them my_name dm_target msg =
    text_eq (to_lower msg.sender) dm_target
    && (is_lower msg.target_user my_name
        || is_missing msg.target_user
        || is_lower msg.target_user (units_of "you"))

-- The test of the feed of an open private chat.
unfoldable pub is_in_dm : Text → Text → ChatMessage → Bool
unfolding is_from_me is_from_them
is_in_dm username user msg =
    msg.is_private
    && (is_from_me (to_lower username) (to_lower user) msg
        || is_from_them (to_lower username) (to_lower user) msg)

abbrev is_in : Text → Bool → Option Text → Bool
is_in current_room is_system (some room) = text_eq (to_lower room) (to_lower current_room)
is_in current_room is_system none = is_system && text_eq (to_lower current_room) general

-- The test of the feed of a room.
unfoldable pub is_in_room : Text → ChatMessage → Bool
is_in_room current_room msg =
    not msg.is_error && not msg.is_private && is_in current_room msg.is_system (truthy msg.room)

-- The test of `filteredMessages`, for the user of the open chat.
unfoldable pub is_shown_in : ChatProps → Option Text → ChatMessage → Bool
unfolding is_in_dm is_in_room
is_shown_in props none msg = is_in_room props.current_room msg
is_shown_in props (some user) msg = is_in_dm props.current_username user msg

unfoldable pub filtered_messages : ChatProps → List ChatMessage
unfolding is_shown_in
filtered_messages props = filter (is_shown_in props (truthy props.active_dm_user)) props.messages

-- A part of a text, whether it is shown as a handle, and whether the handle is the user's.
pub record TextPart : Type 0 where
  pub text : Text
  pub is_handle : Bool
  pub is_me : Bool

abbrev starts_word : Text → Bool
starts_word [] = false
starts_word (c ∷ s) = is_word_unit c

-- `text.split(/(@[\w-]+)/g)`: the parts in between and the handles, by turns. The
-- flag tells whether `part` is what was read of a handle.
unfoldable pub split_from : Bool → Text → Text → List Text
unfolding is_word_unit
split_from true part [] = part ∷ [] ∷ []
split_from false part [] = part ∷ []
split_from true part (c ∷ s) =
    let longer = split_from true (part ++ c ∷ []) s in
    let handle = split_from true (c ∷ []) s in
    let plain = split_from false (c ∷ []) s in
    if is_word_unit c
    then longer
    else if text_eq (c ∷ []) (units_of "@") && starts_word s
    then part ∷ [] ∷ handle
    else part ∷ plain
split_from false part (c ∷ s) =
    let handle = split_from true (c ∷ []) s in
    let plain = split_from false (part ++ c ∷ []) s in
    if text_eq (c ∷ []) (units_of "@") && starts_word s then part ∷ handle else plain

unfoldable pub split_handles : Text → List Text
unfolding split_from
split_handles text = split_from false [] text

abbrev tail_of : Text → Text
tail_of [] = []
tail_of (c ∷ s) = s

unfoldable pub text_part : Text → Text → TextPart
text_part current_username part = record {
  text = part;
  is_handle = starts_with (units_of "@") part;
  is_me =
      starts_with (units_of "@") part
      && text_eq (to_lower (tail_of part)) (to_lower current_username);
}

-- `renderMessageText`
unfoldable pub render_message_text : Text → Text → List TextPart
unfolding split_handles text_part
render_message_text current_username text = map (text_part current_username) (split_handles text)

-- What the feed shows of a message; the first text is the name.
pub data FeedItem : Type 0 where
  notice error_line : (text timestamp : Text) → FeedItem
  direct : (is_me : Bool) (name text timestamp : Text) → FeedItem
  spoken :
      (is_me is_mentioned : Bool) (avatar_url : Option Text) (sender : Text) (parts : List TextPart)
      (timestamp : Text)
      → FeedItem

unfoldable pub is_mine : Text → ChatMessage → Bool
is_mine current_username msg =
    text_eq (to_lower msg.sender) (to_lower current_username)
    || text_eq (to_lower msg.sender) (units_of "you")

unfoldable pub feed_item : Text → ChatMessage → FeedItem
unfolding is_mine render_message_text
feed_item current_username msg =
    let is_me = is_mine current_username msg in
    if msg.is_system
    then notice msg.text msg.timestamp
    else if msg.is_error
    then error_line msg.text msg.timestamp
    else if msg.is_private
    then direct is_me (if is_me then units_of "You" else b'@' ∷ msg.sender) msg.text msg.timestamp
    else spoken is_me msg.is_mentioned (truthy msg.avatar_url) (b'@' ∷ msg.sender)
        (render_message_text current_username msg.text) msg.timestamp

-- The feed, or the two lines of an empty one.
pub data Feed : Type 0 where
  nothing_yet : (title text : Text) → Feed
  items : List FeedItem → Feed

unfoldable pub empty_feed : ChatProps → Feed
empty_feed props = elim (truthy props.active_dm_user) [
  | none ↦ nothing_yet (units_of "Welcome to #" ++ props.current_room) (
      units_of "This is the start of the #"
      ++ (props.current_room
          ++ units_of " channel. All messages are streamed over raw POSIX sockets."))
  | some user ↦ nothing_yet (units_of "Direct Conversation with @" ++ user) (
      units_of "Send a private direct message to @"
      ++ (user ++ (units_of ". Only you and @" ++ (user ++ units_of " can see these messages."))))
]

abbrev feed_of : ChatProps → List ChatMessage → Feed
feed_of props [] = empty_feed props
feed_of props (m ∷ ms) = items (map (feed_item props.current_username) (m ∷ ms))

unfoldable pub feed : ChatProps → Feed
unfolding filtered_messages empty_feed feed_item
feed props = feed_of props (filtered_messages props)

-- The line above the feed: whose chat, or which room and whether it can be left.
pub data ChatHeader : Type 0 where
  dm_header : (user back_to : Text) → ChatHeader
  room_header : (room : Text) (can_leave : Bool) → ChatHeader

unfoldable pub chat_header : ChatProps → ChatHeader
chat_header props = elim (truthy props.active_dm_user) [
  | none ↦ room_header props.current_room (not (text_eq (to_lower props.current_room) general))
  | some user ↦ dm_header user props.current_room
]
