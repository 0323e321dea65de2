-- ===== src/Server/Reactor.antt =====
-- src/reactor/reactor_server.cpp: the handlers of the event loop. The kernel's answers, the clock and
-- the counters' text are arguments; the log is left out.
pub mod Messages
pub mod Reading
pub mod Close
pub mod Kept
pub mod Sound
pub mod Drain
pub mod Delivery
use pulse_chat.Base.{
  ℕ, zero, suc, ◌+◌, ◌-◌, List, [], ◌∷◌, ◌++◌, Option, none, some, Bool, true, false, ltb, length,
  if◌then◌else◌,
}
use pulse_chat.Text.{units_of, is_empty}
use pulse_chat.Utf8.{Bytes}
use pulse_chat.Pcap.Codes.{MessageType}
use pulse_chat.Server.Wire.{Message}
use pulse_chat.Server.IdMap.{IdMap, find, set_at, erase}
use pulse_chat.Server.Rooms.{
  RoomManager, new_room_manager, get_username, get_user_room, unregister_user, get_room_members,
  get_all_members, default_room,
}
use pulse_chat.Server.Connection.{
  SendAnswer, WriteStatus, all_flushed, pending_writes, write_error, Connection, new_connection,
  queue_message, flush_outbound, idle_seconds,
}

-- What the program gets from outside: the kernel's answers to each flush, by how many flushes were
-- before it and the socket's descriptor, and the text of the counters in front of the rooms.
pub record Host : Type 0 where
  pub send_answers : ℕ → ℕ → List SendAnswer
  pub metrics_head : ℕ → Bytes

pub record Reactor : Type 0 where
  pub room_manager : RoomManager
  pub connections : IdMap Connection
  -- How many flushes there were.
  pub flushes : ℕ

unfoldable pub new_reactor : Reactor
unfolding new_room_manager
new_reactor = record { room_manager = new_room_manager; connections = []; flushes = 0 }

-- `make_notify`, `make_error`, `make_chat`
abbrev pub make_notify : Bytes → Message
make_notify text = record { type = MessageType.server_notification; payload = text }

abbrev pub make_error : Bytes → Message
make_error text = record { type = MessageType.error_response; payload = text }

abbrev pub make_chat : Bytes → Message
make_chat text = record { type = MessageType.chat_message; payload = text }

-- A handler that closes a connection, for a reason.
abbrev pub Closing : Type 0
Closing = ℕ → Bytes → Reactor → Reactor

-- The interest of the dispatcher after a flush that follows a message.
abbrev pub after_send : WriteStatus → Connection → Connection
after_send pending_writes conn = record conn { wants_write = true }
after_send _ conn = conn

abbrev pub keep : ℕ → Connection → Reactor → Reactor
keep fd conn st = record st {
  connections = set_at fd conn st.connections;
  flushes = suc st.flushes;
}

unfoldable pub flushed : Closing → ℕ → WriteStatus × Connection → Reactor → Reactor
flushed close fd (write_error, conn) st = close fd (units_of "Write error") (keep fd conn st)
flushed close fd (status, conn) st = keep fd (after_send status conn) st

-- `send_message_to_fd`, by what closes a connection that cannot be written to.
unfoldable pub send_with : Host → Closing → ℕ → Message → Reactor → Reactor
unfolding flush_outbound flushed
send_with w close fd msg st = elim (find fd st.connections) [
  | none ↦ st
  | some conn ↦
      flushed close fd (flush_outbound (w.send_answers st.flushes fd) (queue_message msg conn)) st
]

unfoldable pub send_all_with : Host → Closing → List ℕ → Message → Reactor → Reactor
unfolding send_with
send_all_with w close [] msg st = st
send_all_with w close (fd ∷ members) msg st =
    send_all_with w close members msg (send_with w close fd msg st)

abbrev pub room_or_default : Option Bytes → Bytes
room_or_default (some room) = room
room_or_default none = default_room

unfoldable pub left_text : Bytes → Bytes → Bytes
left_text username reason =
    units_of "[SERVER] " ++ (username ++ (units_of " left the chat. (" ++ (reason ++ units_of ")")))

-- The connection is gone from the dispatcher and the table.
abbrev pub without_connection : ℕ → Reactor → Reactor
without_connection fd st = record st { connections = erase fd st.connections }

abbrev pub without_user : ℕ → Reactor → Reactor
without_user fd st =
    without_connection fd (record st { room_manager = unregister_user fd st.room_manager })

-- Those who are told that the user of a connection has left.
abbrev pub room_mates : ℕ → Reactor → List ℕ
room_mates fd st =
    get_room_members (room_or_default (get_user_room fd st.room_manager)) none
      (unregister_user fd st.room_manager)

-- What `handle_close` does to a connection that is there, by the name of its user.
unfoldable pub farewell : Host → Closing → ℕ → Bytes → Option Bytes → Reactor → Reactor
unfolding send_all_with left_text get_room_members unregister_user
farewell w close fd reason none st = without_connection fd st
farewell w close fd reason (some username) st =
    if is_empty username
    then without_user fd st
    else send_all_with w close (room_mates fd st) (make_notify (left_text username reason))
        (without_user fd st)

-- `handle_close`, which closes further connections when the farewell cannot be written to them. The
-- fuel bounds how deep; `Close` shows that the number of connections is enough.
unfoldable pub close_within : Host → ℕ → ℕ → Bytes → Reactor → Reactor
unfolding farewell
close_within w zero fd reason st = st
close_within w (suc fuel) fd reason st = elim (find fd st.connections) [
  | none ↦ st
  | some _ ↦
      farewell w (λ other why now. close_within w fuel other why now) fd reason
        (get_username fd st.room_manager) st
]

unfoldable pub handle_close : Host → ℕ → Bytes → Reactor → Reactor
unfolding close_within
handle_close w fd reason st = close_within w (length st.connections) fd reason st

unfoldable pub send_message_to_fd : Host → ℕ → Message → Reactor → Reactor
unfolding send_with handle_close
send_message_to_fd w fd msg st =
    send_with w (λ other why now. handle_close w other why now) fd msg st

unfoldable pub send_to_all : Host → List ℕ → Message → Reactor → Reactor
unfolding send_all_with handle_close
send_to_all w members msg st =
    send_all_with w (λ other why now. handle_close w other why now) members msg st

unfoldable pub broadcast_to_room : Host → Bytes → Message → Option ℕ → Reactor → Reactor
unfolding send_to_all get_room_members
broadcast_to_room w room msg exclude st =
    send_to_all w (get_room_members room exclude st.room_manager) msg st

unfoldable pub broadcast_to_all : Host → Message → Option ℕ → Reactor → Reactor
unfolding send_to_all get_all_members
broadcast_to_all w msg exclude st = send_to_all w (get_all_members exclude st.room_manager) msg st

-- A connection that was accepted, with a descriptor that was free, and that the dispatcher has taken.
abbrev pub accept_connection : ℕ → ℕ → Reactor → Reactor
accept_connection now fd st = record st {
  connections = set_at fd (new_connection now) st.connections;
}

-- `handle_accept`, for the descriptors of the connections that wait.
unfoldable pub handle_accept : ℕ → List ℕ → Reactor → Reactor
handle_accept now [] st = st
handle_accept now (fd ∷ fds) st = handle_accept now fds (accept_connection now fd st)

abbrev after_flush : WriteStatus → Connection → Connection
after_flush all_flushed conn = record conn { wants_write = false }
after_flush _ conn = conn

unfoldable write_result : Host → ℕ → WriteStatus × Connection → Reactor → Reactor
unfolding handle_close
write_result w fd (write_error, conn) st =
    handle_close w fd (units_of "Write error") (keep fd conn st)
write_result w fd (status, conn) st = keep fd (after_flush status conn) st

unfoldable pub handle_write : Host → ℕ → Reactor → Reactor
unfolding write_result flush_outbound
handle_write w fd st = elim (find fd st.connections) [
  | none ↦ st
  | some conn ↦ write_result w fd (flush_outbound (w.send_answers st.flushes fd) conn) st
]

-- The connections that are idle for longer than `HEARTBEAT_TIMEOUT_SEC`.
unfoldable pub dead_fds : ℕ → IdMap Connection → List ℕ
dead_fds now [] = []
dead_fds now ((fd, conn) ∷ conns) =
    let rest = dead_fds now conns in if ltb 30 (idle_seconds now conn) then fd ∷ rest else rest

unfoldable pub reap : Host → List ℕ → Reactor → Reactor
unfolding handle_close
reap w [] st = st
reap w (fd ∷ fds) st = reap w fds (handle_close w fd (units_of "Heartbeat timeout") st)

-- `check_heartbeats`, when it is due.
unfoldable pub check_heartbeats : Host → ℕ → Reactor → Reactor
unfolding dead_fds reap
check_heartbeats w now st = reap w (dead_fds now st.connections) st
