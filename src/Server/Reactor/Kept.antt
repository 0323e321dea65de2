-- ===== src/Server/Reactor/Kept.antt =====
-- What every handler of src/reactor/reactor_server.cpp keeps, when its small steps keep it.
pub mod Messages
use pulse_chat.Base.{
  ℕ, zero, suc, ◌≡◌, refl, List, [], ◌∷◌, Option, none, some, Option-cases, Bool-cases, inl, inr,
  length,
}
use pulse_chat.Text.{text_eq}
use pulse_chat.Utf8.{Bytes}
use pulse_chat.Pcap.Codes.{MessageType}
use pulse_chat.Server.Wire.{Message}
use pulse_chat.Server.IdMap.{find}
use pulse_chat.Server.Rooms.{
  RoomManager, NameError, get_username, get_room_members, register_user, join_room, leave_room,
  default_room,
}
use pulse_chat.Server.Connection.{
  SendAnswer, WriteStatus, all_flushed, pending_writes, write_error, Connection, flush_outbound,
  queue_message,
}
use pulse_chat.Server.Reactor.{
  Host, Reactor, Closing, flushed, keep, after_send, send_with, send_all_with, make_notify,
  left_text, room_mates, without_user, without_connection, farewell, close_within, handle_close,
  send_message_to_fd, send_to_all, broadcast_to_room,
}
use pulse_chat.Server.Reactor.Messages.{
  put_rooms, answer_register, process_chat, announce_move, answer_join, process_join, answer_leave,
  process_leave, deliver, addressed, process_private, process_message,
}

-- A property of the state that stays when a socket is flushed, a connection goes, and its user goes.
pub record IsKept (P : Reactor → Type 0) : Type 0 where
  pub by_flush :
      (fd : ℕ) (msg : Message) (answers : List SendAnswer) (conn : Connection) (st : Reactor)
      → find fd st.connections ≡ some conn
      → P st
      → let (status, conn') = flush_outbound answers (queue_message msg conn) in
        P (keep fd (after_send status conn') st)
  pub by_end :
      (fd : ℕ) (st : Reactor)
      → get_username fd st.room_manager ≡ none
      → P st
      → P (without_connection fd st)
  pub by_leaving : (fd : ℕ) (st : Reactor) → P st → P (without_user fd st)

module _ (P : Reactor → Type 0) (kept : IsKept P) where
  abbrev pub KeptBy : Closing → Type 0
  KeptBy close = (fd : ℕ) (reason : Bytes) (st : Reactor) → P st → P (close fd reason st)

  flushed-kept :
      (close : Closing) (fd : ℕ) (r : WriteStatus × Connection) (st : Reactor)
      → KeptBy close
      → P (keep fd (after_send r.0 r.1) st)
      → P (flushed close fd r st)
  unfolding flushed
  flushed-kept close fd (write_error, conn) st by_close p = by_close fd _ (keep fd conn st) p
  flushed-kept close fd (all_flushed, conn) st by_close p = p
  flushed-kept close fd (pending_writes, conn) st by_close p = p

  pub send_with-kept :
      (w : Host) (close : Closing) (fd : ℕ) (msg : Message) (st : Reactor)
      → KeptBy close
      → P st
      → P (send_with w close fd msg st)
  unfolding send_with
  send_with-kept w close fd msg st by_close p = elim (Option-cases (find fd st.connections)) [
    | inl e ↦ rw (send_with, e) p
    | inr (conn, e) ↦
        let answers = w.send_answers st.flushes fd in
        rw (send_with, e)
          (flushed-kept close fd (flush_outbound answers (queue_message msg conn)) st by_close
            (kept.by_flush fd msg answers conn st e p))
  ]

  pub send_all_with-kept :
      (w : Host) (close : Closing) (members : List ℕ) (msg : Message) (st : Reactor)
      → KeptBy close
      → P st
      → P (send_all_with w close members msg st)
  unfolding send_all_with
  send_all_with-kept w close [] msg st by_close p = p
  send_all_with-kept w close (fd ∷ members) msg st by_close p =
      send_all_with-kept w close members msg (send_with w close fd msg st) by_close
        (send_with-kept w close fd msg st by_close p)

  farewell-kept :
      (w : Host) (close : Closing) (fd : ℕ) (reason : Bytes) (username : Option Bytes)
      (st : Reactor)
      → KeptBy close
      → get_username fd st.room_manager ≡ username
      → P st
      → P (farewell w close fd reason username st)
  unfolding farewell
  farewell-kept w close fd reason none st by_close e p = kept.by_end fd st e p
  farewell-kept w close fd reason (some []) st by_close e p = kept.by_leaving fd st p
  farewell-kept w close fd reason (some (c ∷ name)) st by_close e p =
      send_all_with-kept w close (room_mates fd st) (make_notify (left_text (c ∷ name) reason))
        (without_user fd st) by_close (kept.by_leaving fd st p)

  close_within-kept :
      (w : Host) (fuel : ℕ) → KeptBy (λ fd reason st. close_within w fuel fd reason st)
  unfolding close_within
  close_within-kept w zero fd reason st p = p
  close_within-kept w (suc fuel) fd reason st p = elim (Option-cases (find fd st.connections)) [
    | inl e ↦ rw (close_within, e) p
    | inr (conn, e) ↦
        rw (close_within, e)
          (farewell-kept w (λ other why now. close_within w fuel other why now) fd reason _ st
            (close_within-kept w fuel) refl p)
  ]

  pub handle_close-kept : (w : Host) → KeptBy (λ fd reason st. handle_close w fd reason st)
  unfolding handle_close
  handle_close-kept w fd reason st p = close_within-kept w (length st.connections) fd reason st p

  pub send_message_to_fd-kept :
      (w : Host) (fd : ℕ) (msg : Message) (st : Reactor) → P st → P (send_message_to_fd w fd msg st)
  unfolding send_message_to_fd
  send_message_to_fd-kept w fd msg st p = send_with-kept w _ fd msg st (handle_close-kept w) p

  pub broadcast_to_room-kept :
      (w : Host) (room : Bytes) (msg : Message) (exclude : Option ℕ) (st : Reactor)
      → P st
      → P (broadcast_to_room w room msg exclude st)
  unfolding broadcast_to_room send_to_all
  broadcast_to_room-kept w room msg exclude st p =
      send_all_with-kept w _ (get_room_members room exclude st.room_manager) msg st
        (handle_close-kept w) p
