-- ===== src/Server/Reactor/Delivery/Lines.antt =====
-- The lines of src/reactor/reactor_server.cpp: who gets them, and what frontend/src/hooks/usePulseChat.ts
-- makes of them.
use pulse_chat.Base.{
  ℕ, ◌≡◌, refl, sym, ap, subst, ◌∙◌, [], ◌∷◌, ◌++◌, true, none, some, arith, ◌==◌, if◌then◌else◌,
  All, length, ◌<◌,
}
use pulse_chat.Utf8.{Bytes, encode}
use pulse_chat.Pcap.Codes.{MessageType, opcode}
use pulse_chat.Server.Wire.{serialize, parse_private_message, encode_header}
use pulse_chat.Server.IdMap.{find}
use pulse_chat.Server.Rooms.{
  UserInfo, get_username, get_user_room, get_room_members, get_connection_id, members_of,
}
use pulse_chat.Server.Rooms.Consistent.{IsConsistent, is_home}
use pulse_chat.Server.Reactor.{
  Host, Reactor, send_message_to_fd, send_to_all, broadcast_to_room, make_chat, room_or_default,
}
use pulse_chat.Server.Reactor.Messages.{
  process_message, process_chat, chat_line, process_private, addressed, deliver, make_dm,
  dm_receipt,
}
use pulse_chat.Server.Reactor.Delivery.{IsHealthy, Written, send_to_all-Written, sent-Written}
use pulse_chat.Text.{Text}
use pulse_chat.Utf8.RoundTrip.{encode-ascii}
use pulse_chat.Pcap.{u32_bytes, encode_frame}
use pulse_chat.Client.Patterns.{chat_match, is_word_unit}
use pulse_chat.Client.Patterns.Lines.{IsWord, IsLine, chat_match-line}

chat_lem :
    (w : Host) (fd : ℕ) (text : Bytes) (info : UserInfo) (st : Reactor)
    → find fd st.room_manager.users_by_id ≡ some info
    → process_message w fd (record { type = MessageType.chat_message; payload = text }) st
      ≡ send_to_all w
          (members_of info.current_room st.room_manager.rooms)
          (make_chat (chat_line info.current_room info.username text))
          st
unfolding process_message process_chat broadcast_to_room get_room_members
chat_lem w fd text info st e =
    let named : get_username fd st.room_manager ≡ some info.username = ground (arith, e) in
    let housed : get_user_room fd st.room_manager ≡ some info.current_room = ground (arith, e) in
    ap (λ u. process_chat w fd text u st) named
    ∙ ap
        (λ r.
          broadcast_to_room w (room_or_default r)
            (make_chat (chat_line (room_or_default r) info.username text)) none st)
        housed

-- While no socket fails, and where the tables of users and rooms agree, a chat frame of a registered
-- connection is written once to each connected client whose user is in the sender's room, the sender
-- too, as "[room] name: text", behind what was written to it before; to the other connected clients
-- nothing is written.
pub chat-delivered :
    (w : Host) (fd c : ℕ) (text bytes : Bytes) (info : UserInfo) (st : Reactor)
    → IsHealthy w
    → IsConsistent st.room_manager
    → find fd st.room_manager.users_by_id ≡ some info
    → Written c bytes st
    → Written c
        (bytes
          ++ (if is_home c info.current_room st.room_manager.users_by_id
              then serialize (make_chat (chat_line info.current_room info.username text))
              else []))
        (process_message w fd (record { type = MessageType.chat_message; payload = text }) st)
chat-delivered w fd c text bytes info st healthy ok e h =
    let room = info.current_room in
    let members = members_of room st.room_manager.rooms in
    let line = make_chat (chat_line room info.username text) in
    rw (chat_lem w fd text info st e) (
      subst
        (λ b.
          Written c (bytes ++ (if b then serialize line else [])) (send_to_all w members line st))
        (ok.placed c room)
        (send_to_all-Written w c members line bytes st healthy (ok.once c room) h))

private_lem :
    (w : Host) (fd target_fd : ℕ) (payload target text : Bytes) (info : UserInfo) (st : Reactor)
    → find fd st.room_manager.users_by_id ≡ some info
    → parse_private_message payload ≡ some (target, text)
    → get_connection_id target st.room_manager ≡ some target_fd
    → process_message w fd (record { type = MessageType.private_message; payload = payload }) st
      ≡ send_message_to_fd w fd
          (dm_receipt target text)
          (send_message_to_fd w target_fd (make_dm info.username text) st)
unfolding process_message process_private addressed deliver
private_lem w fd target_fd payload target text info st e parsed found =
    let named : get_username fd st.room_manager ≡ some info.username = ground (arith, e) in
    ap (λ u. process_private w fd payload u st) named
    ∙ ap (λ p. addressed w fd info.username p st) parsed
    ∙ ap (λ t. send_message_to_fd w fd (dm_receipt target text) (deliver w info.username text t st))
        found

-- While no socket fails, a private message of a registered connection to a user who is online is
-- written once to that user's connection and acknowledged once to the sender; to every other connected
-- client nothing is written.
pub private-delivered :
    (w : Host) (fd target_fd c : ℕ) (payload target text bytes : Bytes) (info : UserInfo)
    (st : Reactor)
    → IsHealthy w
    → find fd st.room_manager.users_by_id ≡ some info
    → parse_private_message payload ≡ some (target, text)
    → get_connection_id target st.room_manager ≡ some target_fd
    → Written c bytes st
    → Written c
        ((bytes ++ (if target_fd == c then serialize (make_dm info.username text) else []))
          ++ (if fd == c then serialize (dm_receipt target text) else []))
        (process_message w fd (record { type = MessageType.private_message; payload = payload }) st)
private-delivered w fd target_fd c payload target text bytes info st healthy e parsed found h =
    rw (private_lem w fd target_fd payload target text info st e parsed found) (
      sent-Written w fd c (dm_receipt target text) _
        (send_message_to_fd w target_fd (make_dm info.username text) st) healthy
        (sent-Written w target_fd c (make_dm info.username text) bytes st healthy h))

word_unit→ascii : (c : ℕ) → is_word_unit c ≡ true → c < 0x80
unfolding is_word_unit
word_unit→ascii c h = ground arith

encode_word :
    (word rest : Text)
    → All (λ c. is_word_unit c ≡ true) word
    → encode (word ++ rest) ≡ word ++ encode rest
encode_word [] rest h = refl
encode_word (c ∷ word) rest (h, hs) =
    rw (encode-ascii c (word ++ rest) (word_unit→ascii c h)) (ap (◌∷◌ c) (encode_word word rest hs))

encode_line :
    (room sender text : Text)
    → IsWord room
    → IsWord sender
    → encode (b'[' ∷ room ++ (b']' ∷ 0x20 ∷ sender ++ (b':' ∷ 0x20 ∷ text)))
      ≡ chat_line room sender (encode text)
unfolding chat_line
encode_line room sender text (_, r) (_, s) =
    rw
      (
        encode-ascii b'[' (room ++ (b']' ∷ 0x20 ∷ sender ++ (b':' ∷ 0x20 ∷ text))) (omega arith),
        encode_word room (b']' ∷ 0x20 ∷ sender ++ (b':' ∷ 0x20 ∷ text)) r,
        encode-ascii b']' (0x20 ∷ sender ++ (b':' ∷ 0x20 ∷ text)) (omega arith),
        encode-ascii 0x20 (sender ++ (b':' ∷ 0x20 ∷ text)) (omega arith),
        encode_word sender (b':' ∷ 0x20 ∷ text) s,
        encode-ascii b':' (0x20 ∷ text) (omega arith),
        encode-ascii 0x20 text (omega arith),
      )
      refl

-- A line of a room and a user whose names are words, as a chat frame has it, is read by the client as
-- that room, that user and that text, when the text is a line that begins with no space.
pub chat_line-heard :
    (room sender text : Text)
    → IsWord room
    → IsWord sender
    → IsLine text
    → let line = b'[' ∷ room ++ (b']' ∷ 0x20 ∷ sender ++ (b':' ∷ 0x20 ∷ text)) in
      (serialize (make_chat (chat_line room sender (encode text)))
        ≡ encode_frame MessageType.chat_message line)
      × (chat_match line ≡ some (room, sender, text))
unfolding serialize encode_header encode_frame
chat_line-heard room sender text r s t = (
  ap (λ bytes. opcode MessageType.chat_message ∷ (u32_bytes (length bytes) ++ bytes))
      (sym (encode_line room sender text r s)),
  chat_match-line room sender text r s t,
)
