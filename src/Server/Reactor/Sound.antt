-- ===== src/Server/Reactor/Sound.antt =====
-- The tables of src/reactor/reactor_server.cpp: its users are connected.
pub mod Reached
use pulse_chat.Base.{
  ℕ, ◌≡◌, ◌≢◌, ◌⊎◌, refl, sym, ◌∙◌, false, none, some, Option-cases, inl, inr, arith, ◌==◌,
  if◌then◌else◌,
}
use pulse_chat.Utf8.{Bytes}
use pulse_chat.Pcap.Codes.{MessageType}
use pulse_chat.Server.Wire.{Message}
use pulse_chat.Server.IdMap.{IdMap, find, set_at, erase, find-set_at, find-erase, is_member}
use pulse_chat.Server.Rooms.{
  get_username, UserInfo, RoomManager, new_room_manager, register_user, name_error, unregister_user,
  join_room, leave_room, get_room_members, move_user, add_user, default_room,
}
use pulse_chat.Server.Rooms.Consistent.Calls.{
  unregister_user-IsConsistent, join_room-IsConsistent, leave_room-IsConsistent,
}
use pulse_chat.Server.Rooms.Consistent.{IsConsistent, new_room_manager-IsConsistent}
use pulse_chat.Server.Rooms.Naming.{MayRegister, register_user-IsConsistent}
use pulse_chat.Server.Connection.{Connection}
use pulse_chat.Server.Reactor.{
  Host, Reactor, new_reactor, accept_connection, handle_close, send_message_to_fd,
}
use pulse_chat.Server.Reactor.Messages.{put_rooms, process_message}
use pulse_chat.Server.Reactor.Kept.{IsKept, handle_close-kept, send_message_to_fd-kept}
use pulse_chat.Server.Reactor.Kept.Messages.{process_message-kept}

-- The tables of names and rooms agree, and every user has a connection.
pub record IsSound (st : Reactor) : Type 0 where
  pub consistent : IsConsistent st.room_manager
  pub connected : (c : ℕ) → find c st.connections ≡ none → find c st.room_manager.users_by_id ≡ none

find-unregister_user :
    (c d : ℕ) (m : RoomManager)
    → find d (unregister_user c m).users_by_id ≡ (if c == d then none else find d m.users_by_id)
unfolding unregister_user
find-unregister_user c d m = elim (Option-cases (find c m.users_by_id)) [
  | inl e ↦ rw (unregister_user, e) (ground (arith, e))
  | inr (info, e) ↦ rw (unregister_user, e) (find-erase c d m.users_by_id)
]

-- The calls for one connection touch no other user.
register_user_other :
    (c d : ℕ) (username : Bytes) (m : RoomManager)
    → c ≢ d
    → find d (register_user c username m).1.users_by_id ≡ find d m.users_by_id
unfolding register_user add_user
register_user_other c d username m other = elim (Option-cases (name_error username m)) [
  | inr (_, e) ↦ rw (register_user, e) refl
  | inl e ↦
      let user : UserInfo = record { username = username; current_room = default_room } in
      let same : find d (set_at c user m.users_by_id) ≡ find d m.users_by_id =
        ground (arith, find-set_at c d user m.users_by_id) in
      rw (register_user, e) same
]

move_user_other :
    (c d : ℕ) (info : UserInfo) (room : Bytes) (m : RoomManager)
    → c ≢ d
    → find d (move_user c info room m).users_by_id ≡ find d m.users_by_id
move_user_other c d info room m other =
    ground (arith, find-set_at c d (record info { current_room = room }) m.users_by_id)

join_room_other :
    (c d : ℕ) (room : Bytes) (m : RoomManager)
    → c ≢ d
    → find d (join_room c room m).1.users_by_id ≡ find d m.users_by_id
unfolding join_room
join_room_other c d room m other = elim (Option-cases (find c m.users_by_id)) [
  | inl e ↦ rw (join_room, e) (ground arith)
  | inr (info, e) ↦ rw (join_room, e) (ground (arith, move_user_other c d info room m other))
]

leave_room_other :
    (c d : ℕ) (m : RoomManager)
    → c ≢ d
    → find d (leave_room c m).1.users_by_id ≡ find d m.users_by_id
unfolding leave_room
leave_room_other c d m other = elim (Option-cases (find c m.users_by_id)) [
  | inl e ↦ rw (leave_room, e) refl
  | inr (info, e) ↦
      rw (leave_room, e) (ground (arith, move_user_other c d info default_room m other))
]

pub none-set_at :
    (c k : ℕ) (conn : Connection) (conns : IdMap Connection)
    → find c (set_at k conn conns) ≡ none
    → (k ≢ c) × (find c conns ≡ none)
none-set_at c k conn conns h = ground (arith, find-set_at k c conn conns)

none-erase :
    (c k : ℕ) (conns : IdMap Connection)
    → find c (erase k conns) ≡ none
    → (k ≡ c) ⊎ (find c conns ≡ none)
none-erase c k conns h = ground (arith, find-erase k c conns)

no_user : (fd : ℕ) (m : RoomManager) → get_username fd m ≡ none → find fd m.users_by_id ≡ none
no_user fd m h = ground arith

ended :
    (fd c : ℕ) (st : Reactor)
    → IsSound st
    → get_username fd st.room_manager ≡ none
    → find c (erase fd st.connections) ≡ none
    → find c st.room_manager.users_by_id ≡ none
ended fd c st p e h = elim (none-erase c fd st.connections h) [
  | inl same ↦ rw (sym same) (no_user fd st.room_manager e)
  | inr none_there ↦ p.connected c none_there
]

left :
    (fd c : ℕ) (st : Reactor)
    → IsSound st
    → find c (erase fd st.connections) ≡ none
    → find c (unregister_user fd st.room_manager).users_by_id ≡ none
left fd c st p h = elim (none-erase c fd st.connections h) [
  | inl same ↦ ground (arith, find-unregister_user fd c st.room_manager)
  | inr none_there ↦
      ground (arith, find-unregister_user fd c st.room_manager, p.connected c none_there)
]

pub IsSound-IsKept : IsKept IsSound
IsSound-IsKept = record {
  by_flush = λ fd msg answers conn st e p. record {
    consistent = p.consistent;
    connected = λ c h. p.connected c (none-set_at c fd _ st.connections h).1;
  };
  by_end =
      λ fd st e p. record { consistent = p.consistent; connected = λ c h. ended fd c st p e h };
  by_leaving = λ fd st p. record {
    consistent = unregister_user-IsConsistent fd st.room_manager p.consistent;
    connected = λ c h. left fd c st p h;
  };
}

-- The tables after a call for a connection that is there.
called :
    (fd : ℕ) (conn : Connection) (rooms : RoomManager) (st : Reactor)
    → IsSound st
    → find fd st.connections ≡ some conn
    → IsConsistent rooms
    → ((d : ℕ) → fd ≢ d → find d rooms.users_by_id ≡ find d st.room_manager.users_by_id)
    → IsSound (put_rooms rooms st)
called fd conn rooms st p e ok same = record {
  consistent = ok;
  connected = λ c h. same c (λ at. ground (arith, e, h, at)) ∙ p.connected c h;
}

pub process_message-IsSound :
    (w : Host) (fd : ℕ) (msg : Message) (conn : Connection) (st : Reactor)
    → IsSound st
    → find fd st.connections ≡ some conn
    → (msg.type ≡ MessageType.user_register → MayRegister fd st.room_manager)
    → IsSound (process_message w fd msg st)
process_message-IsSound w fd msg conn st p e may =
    let m = st.room_manager in
    process_message-kept IsSound IsSound-IsKept w fd msg st
      (
        λ type.
            called fd conn _ st p e
              (register_user-IsConsistent fd msg.payload m p.consistent (may type))
              (λ d other. register_user_other fd d msg.payload m other),
        called fd conn _ st p e (join_room-IsConsistent fd msg.payload m p.consistent)
            (λ d other. join_room_other fd d msg.payload m other),
        called fd conn _ st p e (leave_room-IsConsistent fd m p.consistent)
            (λ d other. leave_room_other fd d m other),
      )
      p
