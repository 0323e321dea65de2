-- ===== src/Server/Tests.antt =====
-- The chat server at concrete inputs.
use pulse_chat.Base.{ℕ, ◌≡◌, refl, [], ◌∷◌, ◌++◌, ap, ◌∙◌, List, none, some, true, false, arith}
use pulse_chat.Text.{Text, trim_start, is_space, units_of, text_eq}
use pulse_chat.Utf8.{Bytes, encode, encode_unit, encode_point}
use pulse_chat.Pcap.{encode_frame}
use pulse_chat.Pcap.Codes.{MessageType}
use pulse_chat.Dict.{has, get, set, delete}
use pulse_chat.Client.Patterns.{chat_match, is_word_unit, is_terminator}
use pulse_chat.Server.Wire.{Message, serialize, decode_header, parse_private_message, split_colon}
use pulse_chat.Server.Buffer.{
  ByteBuffer, append, extract_message, new_buffer, readable, readable_bytes, need_more, extracted,
}
use pulse_chat.Server.Buffer.Refinement.{Holds, new_buffer-Holds, append-Holds}
use pulse_chat.Server.Buffer.Frames.{
  extract_message-encode_frame, Answers, BufferCall, arrive, take_message, run_buffer,
  run_buffer-refines,
}
use pulse_chat.Server.IdMap.{find, is_member, set_at, insert, erase_member}
use pulse_chat.Server.Rooms.{
  RoomManager, UserInfo, default_room, new_room_manager, register_user, unregister_user,
  get_room_members, get_username, name_error, add_user, join_room, remove_member, forget_name,
  add_member, normalize_name, lower_byte, all_name_bytes,
}
use pulse_chat.Server.Rooms.Consistent.{IsConsistent}
use pulse_chat.Server.Rooms.Naming.{
  register, join, apply_call, Reachable, start, call, Reachable-IsConsistent, register_user-stays,
}
use pulse_chat.Server.Connection.{took, again, new_connection}
use pulse_chat.Server.Reactor.{
  Host, Reactor, new_reactor, accept_connection, farewell, handle_close, make_chat,
}
use pulse_chat.Server.Reactor.Messages.{process_message, chat_line, make_dm}
use pulse_chat.Server.Reactor.Reading.{dangling, handle_read}
use pulse_chat.Server.Reactor.Close.{handle_close-ends}
use pulse_chat.Server.Reactor.Sound.Reached.{Reached, accept_connection-fresh}
use pulse_chat.Server.Reactor.Drain.{handle_close-IsGone}
use pulse_chat.Server.Reactor.Drain.Reads.{all_bytes, handle_read-disconnect}
use pulse_chat.Server.Reactor.Delivery.{IsHealthy, Written}
use pulse_chat.Server.Reactor.Delivery.Lines.{chat-delivered, private-delivered, chat_line-heard}

abbrev hello : Message
hello = record { type = MessageType.chat_message; payload = units_of "hi" }

-- A frame that comes in two parts, with the first byte of the next one.
abbrev calls : List BufferCall
calls =
    arrive (1 ∷ 0 ∷ 0 ∷ [])
    ∷ take_message
    ∷ arrive (0 ∷ 2 ∷ b'h' ∷ b'i' ∷ 7 ∷ [])
    ∷ take_message
    ∷ []

run_buffer-refines_example :
    ((run_buffer calls (new_buffer 0)).0 ≡ need_more ∷ extracted hello ∷ [])
    × Holds (7 ∷ []) (run_buffer calls (new_buffer 0)).1
unfolding decode_header
run_buffer-refines_example = run_buffer-refines calls [] (new_buffer 0) (new_buffer-Holds 0)

one_frame-Holds : (bytes : Bytes) → Holds bytes (append bytes (new_buffer 0))
one_frame-Holds bytes =
    let (v, e) = new_buffer-Holds 0 in
    let (v', e') = append-Holds bytes (new_buffer 0) v in (v', e' ∙ ap (λ b. b ++ bytes) e)

abbrev one_frame : ByteBuffer
one_frame = append (encode_frame MessageType.chat_message (units_of "hi") ++ 7 ∷ []) (new_buffer 0)

extract_message-encode_frame_example : Answers (extracted hello, 7 ∷ []) (extract_message one_frame)
unfolding encode encode_unit encode_point
extract_message-encode_frame_example =
    extract_message-encode_frame MessageType.chat_message (units_of "hi") (7 ∷ []) one_frame
      (one_frame-Holds (encode_frame MessageType.chat_message (units_of "hi") ++ 7 ∷ []))
      (omega arith)

abbrev ann : Bytes
ann = units_of "ann"

abbrev bob : Bytes
bob = units_of "Bob"

-- Ann is on 4 and Bob on 5, both in #general.
abbrev two_users : RoomManager
two_users = apply_call (register 5 bob) (apply_call (register 4 ann) new_room_manager)

two_users-Reachable : Reachable two_users
unfolding register_user new_room_manager find set_at has get set text_eq name_error add_user
    forget_name add_member insert normalize_name lower_byte all_name_bytes
two_users-Reachable =
    call (register 5 bob) (λ info e. ground arith)
      (call (register 4 ann) (λ info e. ground arith) start)

Reachable-IsConsistent_example : IsConsistent two_users
Reachable-IsConsistent_example = Reachable-IsConsistent two_users two_users-Reachable

-- Ann has gone to the room "dev".
abbrev away : RoomManager
away = apply_call (join 4 (units_of "dev")) two_users

abbrev ann_away : UserInfo
ann_away = record { username = ann; current_room = units_of "dev" }

register_user-stays_example :
    let after = unregister_user 4 (register_user 4 (units_of "anna") away).1 in
    (find 4 after.users_by_id ≡ none)
    × (is_member 4 (get_room_members (units_of "dev") none after) ≡ true)
unfolding register_user new_room_manager find set_at has get set text_eq name_error add_user
    forget_name add_member insert normalize_name lower_byte all_name_bytes join_room remove_member
    erase_member delete
register_user-stays_example =
    register_user-stays 4 (units_of "anna") away ann_away
      (Reachable-IsConsistent away (call (join 4 (units_of "dev")) tt two_users-Reachable)) refl
      (ground arith) refl

-- A kernel that takes everything, and one that is in the way first.
abbrev host : Host
host = record {
  send_answers = λ k fd. took 100 ∷ again ∷ [];
  metrics_head = λ k. units_of "{\"rooms\":[";
}

abbrev online : Reactor
online = record {
  room_manager = two_users;
  connections = (4, new_connection 0) ∷ (5, new_connection 0) ∷ [];
  flushes = 0;
}

handle_close-ends_example :
    handle_close host 4 (units_of "gone") online
    ≡ farewell host
        (λ other why now. handle_close host other why now)
        4
        (units_of "gone")
        (some ann)
        online
unfolding register_user new_room_manager find set_at has get set text_eq name_error add_user
    forget_name add_member insert normalize_name lower_byte all_name_bytes
handle_close-ends_example = handle_close-ends host 4 (units_of "gone") online

-- A client that came and went.
abbrev gone : Reactor
gone = handle_close host 4 (units_of "gone") (accept_connection 0 4 new_reactor)

gone-Reached : Reached host gone
unfolding new_reactor find
gone-Reached = Reached.close 4 (units_of "gone") (Reached.accept 0 4 refl Reached.start)

accept_connection-fresh_example :
    (get_username 4 (accept_connection 5 4 gone).room_manager ≡ none)
    × (is_member 4 (get_room_members default_room none (accept_connection 5 4 gone).room_manager)
        ≡ false)
accept_connection-fresh_example =
    accept_connection-fresh host 5 4 default_room gone gone-Reached
      (handle_close-IsGone host 4 (units_of "gone") (accept_connection 0 4 new_reactor))

abbrev goodbye : Text
goodbye = units_of "Browser disconnected"

handle_read-disconnect_example :
    handle_read host 9 4 (encode_frame MessageType.disconnect goodbye ∷ []) false online ≡ dangling
unfolding find new_connection new_buffer readable readable_bytes all_bytes encode encode_unit
    encode_point encode_frame
handle_read-disconnect_example =
    handle_read-disconnect host 9 4 goodbye [] (encode_frame MessageType.disconnect goodbye ∷ [])
      (new_connection 0) online refl (new_buffer-Holds 4096).0 refl (omega arith)

healthy : IsHealthy host
healthy k fd = refl

online-Written : (c : ℕ) → find c online.connections ≡ some (new_connection 0) → Written c [] online
unfolding new_connection new_buffer readable readable_bytes
online-Written c e = (new_connection 0, e, ((new_buffer-Holds 4096).0, refl))

abbrev ann_here : UserInfo
ann_here = record { username = ann; current_room = default_room }

chat-delivered_example :
    Written 5
      (serialize (make_chat (chat_line default_room ann (units_of "hi"))))
      (process_message host 4 hello online)
unfolding register_user new_room_manager find set_at has get set text_eq name_error add_user
    forget_name add_member insert normalize_name lower_byte all_name_bytes
chat-delivered_example =
    chat-delivered host 4 5 (units_of "hi") [] ann_here online healthy
      (Reachable-IsConsistent two_users two_users-Reachable) refl (online-Written 5 refl)

private-delivered_example : Written 5 (serialize (make_dm ann (units_of "psst")) ++ []) (
    process_message host 4
      (record { type = MessageType.private_message; payload = units_of "bob:psst" })
      online)
unfolding register_user new_room_manager find set_at has get set text_eq name_error add_user
    forget_name add_member insert normalize_name lower_byte all_name_bytes parse_private_message
    split_colon
private-delivered_example =
    private-delivered host 4 5 5 (units_of "bob:psst") (units_of "bob") (units_of "psst") []
      ann_here online healthy refl refl refl (online-Written 5 refl)

chat_line-heard_example :
    (serialize (make_chat (chat_line default_room ann (encode (units_of "hi all"))))
      ≡ encode_frame MessageType.chat_message (units_of "[general] ann: hi all"))
    × (chat_match (units_of "[general] ann: hi all") ≡ some (default_room, ann, units_of "hi all"))
unfolding is_word_unit is_terminator trim_start is_space
chat_line-heard_example =
    chat_line-heard default_room ann (units_of "hi all")
      (refl, (refl, (refl, (refl, (refl, (refl, (refl, (refl, tt))))))))
      (refl, (refl, (refl, (refl, tt)))) (refl, refl)
