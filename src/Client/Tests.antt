-- ===== src/Client/Tests.antt =====
-- Runs of the hook, and the theorems at inputs.
use pulse_chat.Base.{length, ◌≡◌, ◌≢◌, arith, refl, List, [], ◌∷◌, none, some, true, false}
use pulse_chat.Text.Laws.{text_eq_refl}
use pulse_chat.Text.{
  Text, units_of, text_eq, trim, trim_start, trim_end, starts_with, is_space, includes,
}
use pulse_chat.Db.{DbMessage, World, general}
use pulse_chat.Text.{lower_unit, to_lower}
use pulse_chat.Dict.{get}
use pulse_chat.Db.Rooms.{room_key, room_unit}
use pulse_chat.Gateway.{emit, sent, error_frame}
use pulse_chat.Gateway.Actions.{on_join_room}
use pulse_chat.Client.Frames.{on_event}
use pulse_chat.Client.Rejoin.{rejoin, rejoin_locked}
use pulse_chat.Client.{register_request}
use pulse_chat.Client.{
  UserProfile, pending, cleared, requested, Client, request, send_action, set_active_dm_user,
}
use pulse_chat.Client.Patterns.{
  is_word_unit, split_word, word, literal, is_terminator, line_end, spaces, search, join_here,
  peer_join_here, peer_left_here, chat_match, split_spaces, join_spaces,
}
use pulse_chat.Client.Messages.{add_new, is_same, sender_of, scope_of}
use pulse_chat.Client.Frames.{notification_room}
use pulse_chat.Client.Commands.{
  close_socket, logout, join_command, join_room, run_command, send_message,
}
use pulse_chat.Client.Connection.{rejoin_requests, on_timer, on_close, persist, formatted}
use pulse_chat.Client.Step.{
  Input, dm_chosen, handle, socket_closed, timer_fired, url_chosen, logged_in, logged_out, step,
  run,
}
use pulse_chat.Client.Step.Kept.{timer}
use pulse_chat.Client.Step.Reconnection.{run-url_chosen}
use pulse_chat.Client.Step.Accounts.{stored, run-stored, step-logged_in-logged_out}
use pulse_chat.Client.Samples.{world, ann, line, home, any_url, vault, ann_session, gateway, later}

abbrev said : DbMessage
said = record {
  id = units_of "m1";
  room = some (units_of "general");
  sender = units_of "bob";
  target_user = none;
  is_private = false;
  display_name = none;
  avatar_url = none;
  text = units_of "hello";
  timestamp = units_of "09:00:00";
  created_at = 3;
}

abbrev told : DbMessage
told = record said { room = none; target_user = some (units_of "ann"); is_private = true }

notification_room_join :
    notification_room (units_of "[SERVER] ubix joined #systems") general ≡ some (units_of "systems")
unfolding notification_room search join_here peer_join_here peer_left_here literal starts_with
    spaces is_word_unit split_word word trim_start is_space includes
notification_room_join = refl

notification_room_left :
    notification_room (units_of "[SERVER] ubix left") (units_of "systems")
    ≡ some (units_of "systems")
unfolding notification_room search join_here peer_join_here peer_left_here literal starts_with
    spaces is_word_unit split_word word trim_start is_space includes
notification_room_left = refl

chat_match_spaces :
    chat_match (units_of "[a-b]bob:   hi there")
    ≡ some (units_of "a-b", units_of "bob", units_of "hi there")
unfolding chat_match literal starts_with is_word_unit split_word word trim_start is_space line_end
    is_terminator
chat_match_spaces = refl

join_spaces_words : join_spaces (split_spaces (units_of "a  b")) ≡ units_of "a  b"
unfolding join_spaces split_spaces
join_spaces_words = refl

send_message_join :
    (send_message world (units_of " /join  systems  s3 ") home).effects
    ≡ requested (record (request (units_of "join_room")) {
      room = some (units_of "systems");
      password = some [];
    })
      ∷ []
unfolding send_message run_command join_command join_room send_action set_active_dm_user trim
    trim_start trim_end is_space starts_with split_spaces
send_message_join = refl

abbrev waiting : Client
waiting = record home { reconnect_timer = pending }

abbrev other_url : Text
other_url = units_of "http://10.0.0.2:3001"

abbrev moved : Client
moved =
    run any_url ((world, socket_closed true) ∷ (later, timer_fired) ∷ [])
      (step any_url world (url_chosen other_url) waiting)

run-url_chosen_example :
    (timer moved ≡ cleared)
    × (on_timer any_url moved ≡ moved)
    × (timer (on_close true moved) ≡ cleared)
unfolding formatted trim trim_start trim_end is_space starts_with text_eq
run-url_chosen_example =
    run-url_chosen any_url world other_url ((world, socket_closed true) ∷ (later, timer_fired) ∷ [])
      true waiting refl refl

step-logged_in-logged_out_example :
    (step any_url later (logged_in ann) (step any_url world logged_out (persist home))).messages
    ≡ line ∷ []
step-logged_in-logged_out_example = step-logged_in-logged_out any_url world later ann home refl refl

rejoin_locked_example :
    (rejoin_requests (units_of "systems") (some ann)
      ≡ requested (register_request ann) ∷ requested (rejoin (units_of "systems")) ∷ [])
    × ((payload : Text) × (on_join_room world 1 (rejoin (units_of "systems")) ann_session gateway
          ≡ emit (sent 1 (error_frame (length payload) payload (units_of "10:00:00"))) gateway)
        × ((on_event later
              (error_frame (length payload) payload (units_of "10:00:00"))
              home).current_room
            ≡ general))
unfolding room_key room_unit get text_eq trim trim_start trim_end is_space to_lower lower_unit
rejoin_locked_example =
    rejoin_locked later world 1 ann_session gateway home ann vault (units_of "s3") refl refl refl
      refl refl (refl, refl, refl)

abbrev cy : UserProfile
cy = record ann { username = units_of "cy" }

differ : (s t : Text) → text_eq s t ≡ false → s ≢ t
differ s t h e = ground (arith, h, e, text_eq_refl t)

-- Ann's messages, and then Cy at the browser.
abbrev left_to_cy : Client
left_to_cy = record (persist home) { profile = some cy; messages = [] }

abbrev of_cy : List (World × Input)
of_cy = (world, dm_chosen (some (units_of "bob"))) ∷ (later, logged_out) ∷ []

run-stored_example :
    stored (units_of "ann") (run any_url of_cy left_to_cy) ≡ stored (units_of "ann") left_to_cy
unfolding handle step persist set_active_dm_user logout close_socket to_lower lower_unit text_eq
run-stored_example =
    run-stored any_url of_cy (units_of "ann") left_to_cy
      (differ (units_of "cy") (units_of "ann") refl, (differ [] (units_of "ann") refl, tt))

-- A private message to Ann, behind the same text in a room of her name, passes for a repetition.
add_new_scope :
    add_new
      (record line { room = none; target_user = some (units_of "ann"); is_private = true })
      (record line { room = some (units_of "ann") } ∷ [])
    ≡ record line { room = some (units_of "ann") } ∷ []
unfolding add_new is_same sender_of scope_of trim trim_start trim_end is_space to_lower lower_unit
    text_eq
add_new_scope = refl
