-- ===== src/Server/Reactor/Kept/Messages.antt =====
-- What the frames of src/reactor/reactor_server.cpp keep.
use pulse_chat.Base.{ℕ, ◌≡◌, refl, Option, none, some, Bool-cases, inl, inr}
use pulse_chat.Text.{text_eq}
use pulse_chat.Utf8.{Bytes}
use pulse_chat.Pcap.Codes.{MessageType}
use pulse_chat.Server.Wire.{Message}
use pulse_chat.Server.Rooms.{
  RoomManager, NameError, register_user, join_room, leave_room, default_room,
}
use pulse_chat.Server.Reactor.{Host, Reactor}
use pulse_chat.Server.Reactor.Messages.{
  put_rooms, answer_register, process_chat, announce_move, answer_join, process_join, answer_leave,
  process_leave, deliver, addressed, process_private, process_message,
}
use pulse_chat.Server.Reactor.Kept.{
  IsKept, handle_close-kept, send_message_to_fd-kept, broadcast_to_room-kept,
}

module _ (P : Reactor → Type 0) (kept : IsKept P) where
  answer_register-kept :
      (w : Host) (fd : ℕ) (username : Bytes) (r : Option NameError × RoomManager) (st : Reactor)
      → P (put_rooms r.1 st)
      → P (answer_register w fd username r st)
  unfolding answer_register
  answer_register-kept w fd username (some e, rooms) st p =
      send_message_to_fd-kept P kept w fd _ _ p
  answer_register-kept w fd username (none, rooms) st p =
      broadcast_to_room-kept P kept w default_room _ (some fd) _
        (send_message_to_fd-kept P kept w fd _ _ p)

  process_chat-kept :
      (w : Host) (fd : ℕ) (text : Bytes) (username : Option Bytes) (st : Reactor)
      → P st
      → P (process_chat w fd text username st)
  unfolding process_chat
  process_chat-kept w fd text none st p = send_message_to_fd-kept P kept w fd _ st p
  process_chat-kept w fd text (some username) st p = broadcast_to_room-kept P kept w _ _ none st p

  announce_move-kept :
      (w : Host) (username prev_room target_room : Bytes) (st : Reactor)
      → P st
      → P (announce_move w username prev_room target_room st)
  unfolding announce_move
  announce_move-kept w username prev_room target_room st p =
      broadcast_to_room-kept P kept w target_room _ none _
        (broadcast_to_room-kept P kept w prev_room _ none st p)

  answer_join-kept :
      (w : Host) (fd : ℕ) (username target_room : Bytes) (r : Option Bytes × RoomManager)
      (st : Reactor)
      → P (put_rooms r.1 st)
      → P (answer_join w fd username target_room r st)
  unfolding answer_join
  answer_join-kept w fd username target_room (none, rooms) st p =
      send_message_to_fd-kept P kept w fd _ _ p
  answer_join-kept w fd username target_room (some prev_room, rooms) st p =
      send_message_to_fd-kept P kept w fd _ _ (elim (Bool-cases (text_eq prev_room target_room)) [
        | inl e ↦ rw e p
        | inr e ↦ rw e (announce_move-kept w username prev_room target_room _ p)
      ])

  process_join-kept :
      (w : Host) (fd : ℕ) (target_room : Bytes) (username : Option Bytes) (st : Reactor)
      → P (put_rooms (join_room fd target_room st.room_manager).1 st)
      → P st
      → P (process_join w fd target_room username st)
  unfolding process_join
  process_join-kept w fd target_room none st p q = send_message_to_fd-kept P kept w fd _ st q
  process_join-kept w fd target_room (some username) st p q =
      answer_join-kept w fd username target_room _ st p

  answer_leave-kept :
      (w : Host) (fd : ℕ) (username : Bytes) (r : Option Bytes × RoomManager) (st : Reactor)
      → P (put_rooms r.1 st)
      → P (answer_leave w fd username r st)
  unfolding answer_leave
  answer_leave-kept w fd username (none, rooms) st p = send_message_to_fd-kept P kept w fd _ _ p
  answer_leave-kept w fd username (some left_room, rooms) st p =
      send_message_to_fd-kept P kept w fd _ _ (
        broadcast_to_room-kept P kept w default_room _ none _
          (broadcast_to_room-kept P kept w left_room _ none _ p))

  process_leave-kept :
      (w : Host) (fd : ℕ) (username : Option Bytes) (st : Reactor)
      → P (put_rooms (leave_room fd st.room_manager).1 st)
      → P st
      → P (process_leave w fd username st)
  unfolding process_leave
  process_leave-kept w fd none st p q = q
  process_leave-kept w fd (some username) st p q = answer_leave-kept w fd username _ st p

  deliver-kept :
      (w : Host) (sender text : Bytes) (target : Option ℕ) (st : Reactor)
      → P st
      → P (deliver w sender text target st)
  unfolding deliver
  deliver-kept w sender text none st p = p
  deliver-kept w sender text (some target_fd) st p =
      send_message_to_fd-kept P kept w target_fd _ st p

  addressed-kept :
      (w : Host) (fd : ℕ) (sender : Bytes) (r : Option (Bytes × Bytes)) (st : Reactor)
      → P st
      → P (addressed w fd sender r st)
  unfolding addressed
  addressed-kept w fd sender none st p = send_message_to_fd-kept P kept w fd _ st p
  addressed-kept w fd sender (some (target, text)) st p =
      send_message_to_fd-kept P kept w fd _ _ (deliver-kept w sender text _ st p)

  process_private-kept :
      (w : Host) (fd : ℕ) (payload : Bytes) (username : Option Bytes) (st : Reactor)
      → P st
      → P (process_private w fd payload username st)
  unfolding process_private
  process_private-kept w fd payload none st p = send_message_to_fd-kept P kept w fd _ st p
  process_private-kept w fd payload (some sender) st p = addressed-kept w fd sender _ st p

  -- The tables after the call that a frame may make.
  abbrev pub KeptByCalls : ℕ → Message → Reactor → Type 0
  KeptByCalls fd msg st =
      (msg.type ≡ MessageType.user_register
        → P (put_rooms (register_user fd msg.payload st.room_manager).1 st))
      × P (put_rooms (join_room fd msg.payload st.room_manager).1 st)
      × P (put_rooms (leave_room fd st.room_manager).1 st)

  by_type :
      (w : Host) (fd : ℕ) (type : MessageType) (payload : Bytes) (st : Reactor)
      → KeptByCalls fd (record { type = type; payload = payload }) st
      → P st
      → P (process_message w fd (record { type = type; payload = payload }) st)
  unfolding process_message
  by_type w fd MessageType.user_register payload st (r, j, l) p =
      answer_register-kept w fd payload _ st (r refl)
  by_type w fd MessageType.chat_message payload st c p = process_chat-kept w fd payload _ st p
  by_type w fd MessageType.join_room payload st (r, j, l) p =
      process_join-kept w fd payload _ st j p
  by_type w fd MessageType.leave_room payload st (r, j, l) p = process_leave-kept w fd _ st l p
  by_type w fd MessageType.private_message payload st c p = process_private-kept w fd payload _ st p
  by_type w fd MessageType.heartbeat_ack payload st c p = p
  by_type w fd MessageType.disconnect payload st c p = handle_close-kept P kept w fd _ st p
  by_type w fd _ payload st c p = send_message_to_fd-kept P kept w fd _ st p

  pub process_message-kept :
      (w : Host) (fd : ℕ) (msg : Message) (st : Reactor)
      → KeptByCalls fd msg st
      → P st
      → P (process_message w fd msg st)
  process_message-kept w fd msg st c p = by_type w fd msg.type msg.payload st c p
