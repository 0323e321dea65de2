-- ===== src/Server/Reactor/Sound/Reached.antt =====
-- The states that the handlers of src/reactor/reactor_server.cpp reach.
use pulse_chat.Base.{
  ℕ, ◌≡◌, refl, ◌∙◌, false, none, some, Option-cases, inl, inr, arith, List, suc, [], ◌∷◌,
}
use pulse_chat.Utf8.{Bytes}
use pulse_chat.Pcap.Codes.{MessageType}
use pulse_chat.Server.Wire.{Message}
use pulse_chat.Server.IdMap.{find, set_at, is_member}
use pulse_chat.Server.Rooms.{get_username, new_room_manager, get_room_members}
use pulse_chat.Server.Rooms.Consistent.{new_room_manager-IsConsistent}
use pulse_chat.Server.Rooms.Naming.{MayRegister}
use pulse_chat.Server.Connection.{Connection, WriteStatus, all_flushed, pending_writes, write_error}
use pulse_chat.Server.Reactor.{
  Host, Reactor, new_reactor, accept_connection, handle_close, send_message_to_fd, write_result,
  reap, dead_fds, check_heartbeats, handle_write,
}
use pulse_chat.Server.Reactor.Messages.{process_message}
use pulse_chat.Server.Reactor.Kept.{handle_close-kept, send_message_to_fd-kept}
use pulse_chat.Server.Reactor.Sound.{IsSound, IsSound-IsKept, none-set_at, process_message-IsSound}
use pulse_chat.Text.{units_of}

-- The states that the handlers of the event loop reach: a connection is accepted under a descriptor
-- that is free, its buffers change, its frames are processed, something is sent to it, or it is closed.
-- No user registers again from another room than the default one.
pub data Reached (w : Host) : Reactor → Type 0 where
  start : Reached w new_reactor
  accept :
      {st : Reactor} (now fd : ℕ)
      → find fd st.connections ≡ none
      → Reached w st
      → Reached w (accept_connection now fd st)
  change :
      {st : Reactor} (fd n : ℕ) (conn conn' : Connection)
      → find fd st.connections ≡ some conn
      → Reached w st
      → Reached w (record st { connections = set_at fd conn' st.connections; flushes = n })
  process :
      {st : Reactor} (fd : ℕ) (msg : Message) (conn : Connection)
      → find fd st.connections ≡ some conn
      → (msg.type ≡ MessageType.user_register → MayRegister fd st.room_manager)
      → Reached w st
      → Reached w (process_message w fd msg st)
  send :
      {st : Reactor} (fd : ℕ) (msg : Message)
      → Reached w st
      → Reached w (send_message_to_fd w fd msg st)
  close :
      {st : Reactor} (fd : ℕ) (reason : Bytes)
      → Reached w st
      → Reached w (handle_close w fd reason st)

new_reactor-IsSound : IsSound new_reactor
unfolding new_reactor new_room_manager find
new_reactor-IsSound = record { consistent = new_room_manager-IsConsistent; connected = λ c h. refl }

Reached-IsSound : (w : Host) (st : Reactor) → Reached w st → IsSound st
Reached-IsSound w _ start = new_reactor-IsSound
Reached-IsSound w _ (accept {st} now fd free r) =
    let p = Reached-IsSound w st r in
    record {
      consistent = p.consistent;
      connected = λ c h. p.connected c (none-set_at c fd _ st.connections h).1;
    }
Reached-IsSound w _ (change {st} fd n conn conn' e r) =
    let p = Reached-IsSound w st r in
    record {
      consistent = p.consistent;
      connected = λ c h. p.connected c (none-set_at c fd _ st.connections h).1;
    }
Reached-IsSound w _ (process {st} fd msg conn e may r) =
    process_message-IsSound w fd msg conn st (Reached-IsSound w st r) e may
Reached-IsSound w _ (send {st} fd msg r) =
    send_message_to_fd-kept IsSound IsSound-IsKept w fd msg st (Reached-IsSound w st r)
Reached-IsSound w _ (close {st} fd reason r) =
    handle_close-kept IsSound IsSound-IsKept w fd reason st (Reached-IsSound w st r)

-- In a state that the handlers reach, while no user registers again from another room than the default
-- one, a connection that is accepted under a descriptor that is free has no name, whoever had the
-- descriptor before, and is a member of no room: no line of any room goes to it.
pub accept_connection-fresh :
    (w : Host) (now fd : ℕ) (room : Bytes) (st : Reactor)
    → Reached w st
    → find fd st.connections ≡ none
    → (get_username fd (accept_connection now fd st).room_manager ≡ none)
      × (is_member fd (get_room_members room none (accept_connection now fd st).room_manager)
          ≡ false)
unfolding get_room_members
accept_connection-fresh w now fd room st r free =
    let p = Reached-IsSound w st r in
    let nobody : find fd st.room_manager.users_by_id ≡ none = p.connected fd free in
    (ground (arith, nobody), p.consistent.placed fd room ∙ ground (arith, nobody))

write_result-Reached :
    (w : Host) (fd : ℕ) (conn : Connection) (r : WriteStatus × Connection) (st : Reactor)
    → find fd st.connections ≡ some conn
    → Reached w st
    → Reached w (write_result w fd r st)
unfolding write_result
write_result-Reached w fd conn (write_error, conn') st e h =
    Reached.close fd (units_of "Write error") (Reached.change fd (suc st.flushes) conn conn' e h)
write_result-Reached w fd conn (all_flushed, conn') st e h =
    Reached.change fd (suc st.flushes) conn _ e h
write_result-Reached w fd conn (pending_writes, conn') st e h =
    Reached.change fd (suc st.flushes) conn _ e h

-- A socket that can be written to again.
pub handle_write-Reached :
    (w : Host) (fd : ℕ) (st : Reactor) → Reached w st → Reached w (handle_write w fd st)
unfolding handle_write
handle_write-Reached w fd st h = elim (Option-cases (find fd st.connections)) [
  | inl e ↦ rw (handle_write, e) h
  | inr (conn, e) ↦ rw (handle_write, e) (write_result-Reached w fd conn _ st e h)
]

reap-Reached : (w : Host) (fds : List ℕ) (st : Reactor) → Reached w st → Reached w (reap w fds st)
unfolding reap
reap-Reached w [] st h = h
reap-Reached w (fd ∷ fds) st h =
    reap-Reached w fds _ (Reached.close fd (units_of "Heartbeat timeout") h)

-- Connections that were idle for too long.
pub check_heartbeats-Reached :
    (w : Host) (now : ℕ) (st : Reactor) → Reached w st → Reached w (check_heartbeats w now st)
unfolding check_heartbeats
check_heartbeats-Reached w now st h = reap-Reached w (dead_fds now st.connections) st h
