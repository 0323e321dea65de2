-- ===== src/Ui/Tests.antt =====
-- Runs of the components, and the theorems at inputs.
use pulse_chat.Base.{
  inr, ◌≡◌, refl, List, [], ◌∷◌, ◌++◌, none, some, true, false, ◌||◌, any, map, length,
}
use pulse_chat.Text.{
  units_of, to_lower, lower_unit, trim, trim_start, trim_end, is_space, starts_with, includes,
  text_eq,
}
use pulse_chat.Dict.{set, delete, put, read, get}
use pulse_chat.Db.{World, general}
use pulse_chat.Db.Rooms.{
  create_or_join_room, joined, new_room, room_key, room_unit, RoomError, room_error_text,
}
use pulse_chat.Gateway.{RoomInfo, ClientSession, emit, sent, error_frame}
use pulse_chat.Gateway.Actions.{ClientMessage, on_chat, on_private_message, on_join_room}
use pulse_chat.Pcap.Codes.{of_opcode}
use pulse_chat.Client.{
  request, ChatMessage, ToastData, ToastType, Client, set_active_dm_user, send_action,
}
use pulse_chat.Client.Frames.{on_event, on_error_frame, on_pcap_frame}
use pulse_chat.Client.Commands.{join_room, send_message}
use pulse_chat.Client.Messages.{
  is_same, room_message_key, loaded_message, on_room_history, dm_key, loaded_dm, on_dm_history,
}
use pulse_chat.Client.Connection.{persist}
use pulse_chat.Client.Step.{dm_chosen, run, step, handle, Input, received}
use pulse_chat.Client.Patterns.{is_word_unit, split_word}
use pulse_chat.Ui.{truthy, start_toast_timer, toast_fires, select_room}
use pulse_chat.Ui.Feed.{
  chat_props, filtered_messages, render_message_text, split_handles, text_part, split_from,
}
use pulse_chat.Ui.Feed.Shown.{own_message, send_message-shown}
use pulse_chat.Ui.Feed.Heard.{stored_line, heard, on_chat-reaches}
use pulse_chat.Ui.Feed.Delivered.{stored_dm, on_private_message-reaches}
use pulse_chat.Db.Messages.{
  room_message, get_room_history, direct_message, get_direct_messages_for_user,
}
use pulse_chat.Ui.Composer.{ChatInput, empty_input, complete_mention, last_at_match, expand}
use pulse_chat.Ui.Sidebar.{
  handle_create_room, save_unlocked_room, get_unlocked_rooms, SidebarState, handle_password_submit,
  handle_room_click, initial_sidebar,
}
use pulse_chat.Ui.Sidebar.Reentry.{handle_create_room-reenters}
use pulse_chat.Ui.Sidebar.Lockout.{saved_password, join_request, handle_password_submit-locks_out}
use pulse_chat.Ui.Peers.{dm_user_list, contains, add_peers, add_peer, add_to_set, peer_of}
use pulse_chat.Ui.Peers.Listed.{Distinct, is_partner, is_open_chat, dm_user_list-listed}
use pulse_chat.Ui.Registration.{
  RealGoogleUser, ModalState, set_username, initial_modal, suggested, before_at, handle_unit,
}
use pulse_chat.Ui.Panel.{
  show, digits_from, rounded, format_uptime, format_bytes, to_fixed_1, to_fixed_2,
}
use pulse_chat.Client.Samples.{world, ann, line, home, any_url, vault, ann_session, gateway}

abbrev a_toast : ToastData
a_toast = record { text = units_of "hi"; type = ToastType.info; id = 0 }

abbrev whisper : ChatMessage
whisper = record line { target_user = some (units_of "ann"); is_private = true; room = none }

-- The code that a run computes with.
ui_code : Unit {0}
unfolding trim trim_start trim_end is_space to_lower lower_unit text_eq get room_key room_unit
    includes of_opcode run step persist handle on_event on_pcap_frame on_error_frame
    handle_password_submit select_room set_active_dm_user join_room send_action
ui_code = tt

-- A toast that App is not rendered behind for 3.2 seconds goes away.
toast_fires_once :
    toast_fires 0 (1000 ∷ 3200 ∷ []) (some a_toast) (start_toast_timer 0 (some a_toast)) ≡ true
unfolding toast_fires start_toast_timer
toast_fires_once = refl

abbrev in_general : Client
in_general = record home { current_room = general }

abbrev in_chat : Client
in_chat = record home { active_dm_user = some (units_of "bob") }

send_message-shown_example :
    filtered_messages (chat_props (send_message world (units_of " hi ") in_chat))
    ≡ filtered_messages (chat_props in_chat)
      ++ own_message world (units_of "bob") (trim (units_of " hi ")) in_chat ∷ []
unfolding trim trim_start trim_end is_space starts_with is_same text_eq to_lower lower_unit
send_message-shown_example =
    send_message-shown world (units_of " hi ") (units_of "bob") in_chat refl refl refl refl refl

render_parts :
    map (λ p. p.is_me) (render_message_text (units_of "Ann") (units_of "hi @ann, @bob"))
    ≡ false ∷ true ∷ false ∷ false ∷ false ∷ []
unfolding render_message_text split_handles split_from text_part is_word_unit text_eq to_lower
    lower_unit starts_with
render_parts = refl

abbrev half : ChatInput
half = record empty_input { input_text = units_of "hi @an!" }

-- `$&` in a name stands for what it replaces.
complete_mention_dollar : complete_mention (units_of "a$&") (units_of "hi @a") ≡ units_of "hi @a@a "
unfolding complete_mention last_at_match expand split_word is_word_unit
complete_mention_dollar = refl

abbrev mistyped : SidebarState
mistyped = record (initial_sidebar (some ann)) {
  prompt_target_room = some (units_of "systems");
  join_password = units_of " s4 ";
}

abbrev locked_room : RoomInfo
locked_room = record { name = units_of "systems"; users = 0; is_protected = true }

-- The gateway has refused the password.
abbrev refusal : List (World × Input)
refusal = (world, received (error_frame 15 (units_of "Access denied: x") [])) ∷ []

abbrev refused : Client
refused = run any_url refusal (handle_password_submit mistyped in_general).1

handle_password_submit-locks_out_example :
    (handle_room_click locked_room mistyped refused ≡ (
      mistyped,
      set_active_dm_user none
          (select_room (units_of "systems") (some (trim (units_of " s4 "))) refused),
    ))
    × ((e : RoomError) × (on_join_room world 1
            (join_request (units_of "systems") (trim (units_of " s4 ")))
            ann_session
            gateway
          ≡ emit
              (sent 1 (
                error_frame (length (room_error_text e)) (room_error_text e) (units_of "10:00:00")))
              gateway))
unfolding ui_code
handle_password_submit-locks_out_example =
    handle_password_submit-locks_out any_url refusal mistyped mistyped in_general locked_room world
      1 ann_session gateway vault (units_of "s3") refl refl refl refl refl refl refl refl
      (refl, refl, refl) (λ e. cc)

dm_user_list-listed_example :
    Distinct (dm_user_list (some ann) (whisper ∷ []) (some (units_of "Cy")))
    × (contains (units_of "bob") (dm_user_list (some ann) (whisper ∷ []) (some (units_of "Cy"))) ≡ (
        any (is_partner (to_lower (units_of "Ann")) (units_of "bob")) (whisper ∷ [])
        || is_open_chat (units_of "bob") (truthy (some (units_of "Cy")))))
dm_user_list-listed_example =
    dm_user_list-listed (some ann) (whisper ∷ []) (some (units_of "Cy")) (units_of "bob")

dm_user_list_both :
    dm_user_list (some ann) (whisper ∷ []) (some (units_of "Cy"))
    ≡ units_of "bob" ∷ units_of "cy" ∷ []
unfolding dm_user_list add_peers add_peer peer_of add_to_set to_lower lower_unit text_eq
dm_user_list_both = refl

abbrev google_ann : RealGoogleUser
google_ann = record { email = units_of "ann.b@x"; name = units_of "Ann"; avatar_url = [] }

abbrev choosing : ModalState
choosing = record initial_modal { step = set_username; google_user = some google_ann }

suggested_ann : suggested (units_of "Ann.B@x") ≡ units_of "ann_b"
unfolding suggested before_at handle_unit to_lower lower_unit is_word_unit
suggested_ann = refl

abbrev mailed : Client
mailed = record home { profile = some (record ann { email = some (units_of "ann.b@x") }) }

format_numbers :
    (format_uptime 3725 ≡ units_of "1h 2m 5s") × (format_bytes 1587 ≡ units_of "1.5 KB")
unfolding format_uptime format_bytes to_fixed_1 to_fixed_2 show digits_from rounded
format_numbers = (refl, refl)

number_shown : show 1024 ≡ units_of "1024"
unfolding show digits_from
number_shown = refl

abbrev bob_session : ClientSession
bob_session = record ann_session { username = units_of "bob"; display_name = units_of "Bob" }

abbrev psst : ClientMessage
psst = record (request (units_of "private_message")) {
  target = some (units_of " Ann ");
  text = some (units_of "psst");
}

on_private_message-reaches_example :
    (shown : List ChatMessage) × (filtered_messages (
        chat_props (
          on_dm_history
            (get_direct_messages_for_user
              (units_of "ann")
              200
              (on_private_message world 1 psst bob_session gateway).db)
            in_chat))
      ≡ shown ++ loaded_dm (units_of "Ann") (stored_dm world psst bob_session) ∷ [])
unfolding trim trim_start trim_end is_space to_lower lower_unit text_eq dm_key loaded_dm
    direct_message
on_private_message-reaches_example =
    on_private_message-reaches world 1 psst bob_session gateway in_chat (units_of "ann")
      (units_of "bob") refl refl refl (inr refl) (inr (refl, refl)) refl refl refl

abbrev hello : ClientMessage
hello = record (request (units_of "chat")) { text = some (units_of "hello") }

on_chat-reaches_example :
    (shown : List ChatMessage) × (filtered_messages (
        chat_props (
          on_room_history general
            (get_room_history general 50 (on_chat world 1 hello bob_session gateway).db)
            in_general))
      ≡ shown ++ heard general in_general (stored_line world hello bob_session) ∷ [])
unfolding to_lower lower_unit trim trim_start trim_end is_space text_eq room_message_key
    loaded_message room_message
on_chat-reaches_example =
    on_chat-reaches world 1 hello bob_session gateway in_general refl refl refl refl refl

abbrev new_den : SidebarState
new_den = record (initial_sidebar (some ann)) {
  new_room_name = units_of " Den ";
  is_protected_room = true;
  new_room_password = units_of " s3 ";
}

abbrev to_bob : List (World × Input)
to_bob = (world, dm_chosen (some (units_of "bob"))) ∷ []

abbrev den : RoomInfo
den = record { name = units_of "den"; users = 1; is_protected = true }

abbrev with_bob : Client
with_bob = run any_url to_bob (handle_create_room new_den in_general).1

handle_create_room-reenters_example :
    (handle_room_click den new_den with_bob ≡ (
      new_den,
      set_active_dm_user none
          (select_room (units_of "den") (some (trim (units_of " s3 "))) with_bob),
    ))
    × ((create_or_join_room world
          (units_of "den")
          (some (trim (units_of " s3 ")))
          none
          (create_or_join_room world
            (trim (units_of " Den "))
            (some (trim (units_of " s3 ")))
            none
            gateway.db).0).1
        ≡ joined (
            new_room world
              (room_key (trim (units_of " Den ")))
              (some (trim (units_of " s3 ")))
              none))
unfolding ui_code read handle_create_room
handle_create_room-reenters_example =
    handle_create_room-reenters any_url to_bob new_den new_den in_general den world world none none
      gateway.db (refl, refl, refl, refl) refl refl refl refl refl refl

-- The gateway calls this room `a_b`, and its password is kept under `a b`.
saved_password_renamed :
    saved_password
      (room_key (units_of "a b"))
      (handle_create_room (record new_den { new_room_name = units_of "a b" }) in_general).1
    ≡ none
unfolding ui_code handle_create_room save_unlocked_room get_unlocked_rooms set delete put
saved_password_renamed = refl
