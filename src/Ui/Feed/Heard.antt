-- ===== src/Ui/Feed/Heard.antt =====
-- A line in a room on its way: the gateway's handler (gateway/src/server.ts) stores it, the history
-- that whoever enters the room is sent (gateway/src/db.ts) brings it to the hook, and the feed of
-- frontend/src/components/ChatArea.tsx shows it.
use pulse_chat.Base.{
  ◌≡◌, refl, ap, ◌∙◌, ℕ, List, [], ◌∷◌, ◌++◌, Option, none, some, true, false, arith, any, map,
  filter,
}
use pulse_chat.Text.{Text, text_eq, is_empty, to_lower, ◌or_else◌}
use pulse_chat.Text.Laws.{text_eq_refl, to_lower_idem}
use pulse_chat.Db.{DbMessage, World}
use pulse_chat.Db.Users.{default_to}
use pulse_chat.Db.Messages.{room_message, get_room_history}
use pulse_chat.Gateway.{ClientSession, Gateway}
use pulse_chat.Gateway.Actions.{ClientMessage, on_chat, room_or_general}
use pulse_chat.Gateway.Access.{on_chat-shown}
use pulse_chat.Client.{ChatMessage, Client, username_of}
use pulse_chat.Client.Messages.{merge_by, room_message_key, loaded_message, on_room_history}
use pulse_chat.Ui.Feed.{chat_props, is_in_room, is_shown_in, filtered_messages}
use pulse_chat.Ui.Feed.Merged.{filter_merge-last}

-- What the gateway stores of a line.
abbrev pub stored_line : World → ClientMessage → ClientSession → DbMessage
stored_line w msg s =
    room_message w (room_or_general s.current_room) s.username (default_to msg.text [])
      (some s.display_name) s.avatar_url

-- What the hook makes of a stored line in the history of a room.
abbrev pub heard : Text → Client → DbMessage → ChatMessage
heard room c m = loaded_message (username_of c.profile) (room or_else c.current_room) m

room_or_general-named : (room : Text) → is_empty (to_lower (room_or_general room)) ≡ false
unfolding to_lower
room_or_general-named [] = refl
room_or_general-named (u ∷ room) = refl

is_in_room-loaded_message :
    (w : World) (room sender text : Text) (name picture : Option Text) (me target current : Text)
    → is_empty (to_lower room) ≡ false
    → to_lower current ≡ to_lower room
    → is_in_room current (loaded_message me target (room_message w room sender text name picture))
      ≡ true
unfolding is_in_room loaded_message room_message
is_in_room-loaded_message w room sender text name picture me target current given here =
    ground (arith, given, here, to_lower_idem room, text_eq_refl (to_lower room))

filtered_messages-on_room_history :
    (room : Text) (history : List DbMessage) (c : Client)
    → c.active_dm_user ≡ none
    → filtered_messages (chat_props (on_room_history room history c))
      ≡ filter
          (is_in_room c.current_room)
          (merge_by room_message_key (map (heard room c) history) c.messages)
unfolding filtered_messages chat_props is_shown_in on_room_history
filtered_messages-on_room_history room history c alone = rw alone refl

-- A line of a named client reaches whoever looks at its room: once the gateway has handled it, the
-- room's history brings it, and it is the last that the feed of the room shows, if the browser has no
-- message of the same sender, room and text yet.
pub on_chat-reaches :
    (w : World) (id : ℕ) (msg : ClientMessage) (s : ClientSession) (g : Gateway) (c : Client)
    → is_empty s.username ≡ false
    → is_empty (default_to msg.text []) ≡ false
    → to_lower c.current_room ≡ to_lower (room_or_general s.current_room)
    → c.active_dm_user ≡ none
    → any
        (λ p.
          text_eq
            (room_message_key p)
            (room_message_key (heard (room_or_general s.current_room) c (stored_line w msg s))))
        c.messages
      ≡ false
    → let room = room_or_general s.current_room in
      (shown : List ChatMessage) × (filtered_messages
          (chat_props (on_room_history room (get_room_history room 50 (on_chat w id msg s g).db) c))
        ≡ shown ++ heard room c (stored_line w msg s) ∷ [])
on_chat-reaches w id msg s g c named said here alone new =
    let room = room_or_general s.current_room in
    let (older, found) = on_chat-shown w id msg s g 50 named said (omega arith) in
    let (shown, last) =
      filter_merge-last room_message_key (heard room c) (is_in_room c.current_room) older
        (stored_line w msg s) c.messages new
        (is_in_room-loaded_message w room s.username (default_to msg.text []) (some s.display_name)
          s.avatar_url (username_of c.profile) (room or_else c.current_room) c.current_room
          (room_or_general-named s.current_room) here) in
    (
      shown,
      ap (λ ms. filtered_messages (chat_props (on_room_history room ms c))) found
          ∙ filtered_messages-on_room_history room (older ++ stored_line w msg s ∷ []) c alone
          ∙ last,
    )
