-- ===== src/Ui/Feed/Shown.antt =====
-- What a feed of frontend/src/components/ChatArea.tsx shows and what it hides.
use pulse_chat.Base.{
  ap₂, ◌≡◌, refl, ap, sym, ◌∙◌, ◌⊎◌, [], ◌∷◌, ◌++◌, Option, none, some, true, false, arith, any,
  filter, filter-append, slice_last,
}
use pulse_chat.Text.{
  Text, units_of, text_eq, is_empty, to_lower, lower_unit, trim, starts_with, ◌or_else◌,
}
use pulse_chat.Text.Laws.{trim_idem, text_eq_refl}
use pulse_chat.Db.{World, general}
use pulse_chat.Gateway.Actions.{ClientMessage}
use pulse_chat.Client.{ChatMessage, Client, username_of, send_action, request}
use pulse_chat.Client.Messages.{is_same, add_new, append_message, notify}
use pulse_chat.Client.Messages.Dedup.{stamped}
use pulse_chat.Client.Commands.{outgoing, send_private_message, say, send_message}
use pulse_chat.Ui.{truthy}
use pulse_chat.Ui.Feed.{is_shown_in, ChatProps, chat_props, is_from_me, is_in_dm, filtered_messages}

abbrev pub lowered : Option Text → Option Text
lowered none = none
lowered (some s) = some (to_lower s)

-- A private message between two, as their names stand, in any case. In the browser the user is
-- "You" too, and a message to no one is one to the user.
abbrev pub IsBetween : Text → Text → ChatMessage → Type 0
IsBetween me user m =
    (m.is_private ≡ true)
    × ((((to_lower m.sender ≡ to_lower me) ⊎ (to_lower m.sender ≡ units_of "you"))
          × (lowered m.target_user ≡ some (to_lower user)))
        ⊎ ((to_lower m.sender ≡ to_lower user)
            × ((lowered m.target_user ≡ some (to_lower me))
                ⊎ (m.target_user ≡ none)
                ⊎ (lowered m.target_user ≡ some (units_of "you")))))

-- A message of a room, or a notice of none for #general.
abbrev pub IsOfRoom : Text → ChatMessage → Type 0
IsOfRoom room m =
    (m.is_private ≡ false)
    × ((lowered m.room ≡ some (to_lower room)) ⊎ ((m.is_system ≡ true) × (to_lower room ≡ general)))

-- What a feed may show, for the user of the open chat.
abbrev pub Belongs : ChatProps → Option Text → ChatMessage → Type 0
Belongs props none m = IsOfRoom props.current_room m
Belongs props (some user) m = IsBetween props.current_username user m

-- The message that the browser adds to its own list.
abbrev pub own_message : World → Text → Text → Client → ChatMessage
own_message w user text c =
    stamped w (outgoing w (username_of c.profile or_else units_of "You") user text) c

you_lem : text_eq (to_lower (units_of "You")) (units_of "you") ≡ true
unfolding to_lower lower_unit text_eq
you_lem = refl

is_in_dm-own_message :
    (w : World) (user text : Text) (c : Client)
    → is_in_dm (username_of c.profile) user (own_message w user text c) ≡ true
unfolding is_in_dm is_from_me
is_in_dm-own_message w user text c =
    let un = username_of c.profile in
    ground (arith, text_eq_refl (to_lower user), text_eq_refl (to_lower un), you_lem)

send_message-private :
    (w : World) (raw_input user : Text) (c : Client)
    → c.active_dm_user ≡ some user
    → is_empty user ≡ false
    → is_empty (trim raw_input) ≡ false
    → starts_with (units_of "/") (trim raw_input) ≡ false
    → send_message w raw_input c ≡ send_private_message w user (trim raw_input) c
unfolding send_message say
send_message-private w raw_input user c chat named given plain = rw (given, plain, chat, named) refl

abbrev private_request : Text → Text → ClientMessage
private_request user text = record (request (units_of "private_message")) {
  target = some user;
  text = some text;
}

send_private_message-appends :
    (w : World) (user text : Text) (c : Client)
    → is_empty user ≡ false
    → is_empty text ≡ false
    → trim text ≡ text
    → send_private_message w user text c
      ≡ append_message w
          (outgoing w (username_of c.profile or_else units_of "You") user text)
          (send_action (private_request user text) c)
unfolding send_private_message
send_private_message-appends w user text c named given trimmed = rw (trimmed, named, given) refl

truthy_named : (s : Text) → is_empty s ≡ false → truthy (some s) ≡ some s
truthy_named s h = rw h refl

pub filtered_messages-dm :
    (c : Client) (user : Text)
    → c.active_dm_user ≡ some user
    → is_empty user ≡ false
    → filtered_messages (chat_props c) ≡ filter (is_in_dm (username_of c.profile) user) c.messages
unfolding filtered_messages chat_props is_shown_in
filtered_messages-dm c user chat named =
    ap (λ u. filter (is_shown_in (chat_props c) u) c.messages)
      (ap truthy chat ∙ truthy_named user named)

-- What a message that is sent and shown leaves of the client.
abbrev told : World → ChatMessage → ClientMessage → Client → Client
told w msg m c = append_message w msg (send_action m c)

told-rest :
    (w : World) (msg : ChatMessage) (m : ClientMessage) (c : Client)
    → ((told w msg m c).active_dm_user ≡ c.active_dm_user)
      × ((told w msg m c).profile ≡ c.profile)
      × ((told w msg m c).messages ≡ add_new (stamped w msg c) c.messages)
unfolding append_message notify send_action
told-rest w msg m c = ground arith

-- A text that is typed in a private chat, and is no command, is the last that the feed of the chat
-- shows, if none of the last 15 messages is the same.
pub send_message-shown :
    (w : World) (raw_input user : Text) (c : Client)
    → c.active_dm_user ≡ some user
    → is_empty user ≡ false
    → is_empty (trim raw_input) ≡ false
    → starts_with (units_of "/") (trim raw_input) ≡ false
    → any (is_same (own_message w user (trim raw_input) c)) (slice_last 15 c.messages) ≡ false
    → filtered_messages (chat_props (send_message w raw_input c))
      ≡ filtered_messages (chat_props c) ++ own_message w user (trim raw_input) c ∷ []
unfolding add_new
send_message-shown w raw_input user c chat named given plain new =
    let text = trim raw_input in
    let own = own_message w user text c in
    let msg = outgoing w (username_of c.profile or_else units_of "You") user text in
    let (chat', profile', messages') = told-rest w msg (private_request user text) c in
    ap (λ d. filtered_messages (chat_props d))
      (send_message-private w raw_input user c chat named given plain
        ∙ send_private_message-appends w user text c named given (trim_idem raw_input))
    ∙ filtered_messages-dm (told w msg (private_request user text) c) user (chat' ∙ chat) named
    ∙ ap₂ (λ p ms. filter (is_in_dm (username_of p) user) ms) profile' (messages' ∙ rw new refl)
    ∙ filter-append (is_in_dm (username_of c.profile) user) c.messages (own ∷ [])
    ∙ ap₂ ◌++◌ (sym (filtered_messages-dm c user chat named))
        (rw (is_in_dm-own_message w user text c) refl)
