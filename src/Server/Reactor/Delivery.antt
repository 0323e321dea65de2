-- ===== src/Server/Reactor/Delivery.antt =====
-- Who hears what, in src/reactor/reactor_server.cpp: while no socket fails, a message goes to those it is
-- for, whole and once, behind what was written to them before.
pub mod Lines
use pulse_chat.Base.{
  ℕ, zero, suc, ◌+◌, ◌≡◌, ◌≢◌, ◌≤◌, refl, sym, ap, subst, ◌∙◌, List, [], ◌∷◌, ◌++◌, append_assoc,
  append-nil, Bool, true, false, Bool-cases, Option, none, some, Option-cases, inl, inr, arith,
  ◌==◌, if◌then◌else◌,
}
use pulse_chat.Text.{text_eq}
use pulse_chat.Utf8.{Bytes}
use pulse_chat.Pcap.Codes.{MessageType}
use pulse_chat.Server.Wire.{Message, serialize, parse_private_message}
use pulse_chat.Server.IdMap.{find, set_at, find-set_at, copies, copies-is_member, is_member}
use pulse_chat.Server.Rooms.{
  UserInfo, get_username, get_user_room, get_room_members, get_connection_id, members_of,
}
use pulse_chat.Server.Rooms.Consistent.{IsConsistent, is_home}
use pulse_chat.Server.Connection.{
  SendAnswer, WriteStatus, all_flushed, pending_writes, write_error, Connection, flush_outbound,
  queue_message,
}
use pulse_chat.Server.Connection.Flush.{
  Streams, never_fails, flush_outbound-status, flush_outbound-Streams, queue_message-Streams,
}
use pulse_chat.Server.Reactor.{
  Host, Reactor, Closing, flushed, keep, after_send, send_with, send_all_with, send_message_to_fd,
  send_to_all, broadcast_to_room, make_chat, handle_close, room_or_default,
}
use pulse_chat.Server.Reactor.Messages.{
  process_message, process_chat, chat_line, process_private, addressed, deliver, make_dm,
  dm_receipt,
}

-- No call of `::send` fails.
abbrev pub IsHealthy : Host → Type 0
IsHealthy w = (k fd : ℕ) → never_fails (w.send_answers k fd) ≡ true

-- A descriptor has a connection, to which this was written, in this order.
abbrev pub Written : ℕ → Bytes → Reactor → Type 0
Written c bytes st = (conn : Connection) × (find c st.connections ≡ some conn) × Streams bytes conn

flushed-healthy :
    (close : Closing) (fd : ℕ) (r : WriteStatus × Connection) (st : Reactor)
    → r.0 ≢ write_error
    → flushed close fd r st ≡ keep fd (after_send r.0 r.1) st
unfolding flushed
flushed-healthy close fd (all_flushed, conn) st h = refl
flushed-healthy close fd (pending_writes, conn) st h = refl
flushed-healthy close fd (write_error, conn) st h = absurd (h refl)

after_send-Streams :
    (status : WriteStatus) (bytes : Bytes) (conn : Connection)
    → Streams bytes conn
    → Streams bytes (after_send status conn)
after_send-Streams all_flushed bytes conn h = h
after_send-Streams pending_writes bytes conn h = h
after_send-Streams write_error bytes conn h = h

-- The connection after a message.
abbrev told : Host → ℕ → Message → Connection → Reactor → Connection
told w fd msg conn st =
    let (status, conn') = flush_outbound (w.send_answers st.flushes fd) (queue_message msg conn) in
    after_send status conn'

send_with-healthy :
    (w : Host) (close : Closing) (fd : ℕ) (msg : Message) (conn : Connection) (st : Reactor)
    → IsHealthy w
    → find fd st.connections ≡ some conn
    → send_with w close fd msg st ≡ keep fd (told w fd msg conn st) st
unfolding send_with
send_with-healthy w close fd msg conn st healthy e =
    rw (send_with, e)
      (flushed-healthy close fd
        (flush_outbound (w.send_answers st.flushes fd) (queue_message msg conn)) st
        (flush_outbound-status (w.send_answers st.flushes fd) _ (healthy st.flushes fd)))

send_with-nobody :
    (w : Host) (close : Closing) (fd : ℕ) (msg : Message) (st : Reactor)
    → find fd st.connections ≡ none
    → send_with w close fd msg st ≡ st
unfolding send_with
send_with-nobody w close fd msg st e = rw (send_with, e) refl

send_with-same :
    (w : Host) (close : Closing) (c : ℕ) (msg : Message) (bytes : Bytes) (st : Reactor)
    → IsHealthy w
    → Written c bytes st
    → Written c (bytes ++ serialize msg) (send_with w close c msg st)
send_with-same w close c msg bytes st healthy (conn, e, h) =
    let answers = w.send_answers st.flushes c in
    rw (send_with-healthy w close c msg conn st healthy e) (
      told w c msg conn st,
      ground (arith, find-set_at c c (told w c msg conn st) st.connections),
      after_send-Streams _ _ _ (
          flush_outbound-Streams answers _ (queue_message msg conn)
            (queue_message-Streams msg bytes conn h)),
    )

send_with-other :
    (w : Host) (close : Closing) (c fd : ℕ) (msg : Message) (bytes : Bytes) (st : Reactor)
    → IsHealthy w
    → fd ≢ c
    → Written c bytes st
    → Written c bytes (send_with w close fd msg st)
send_with-other w close c fd msg bytes st healthy other (conn, e, h) =
    elim (Option-cases (find fd st.connections)) [
      | inl nobody ↦ rw (send_with-nobody w close fd msg st nobody) (conn, e, h)
      | inr (conn', there) ↦
          rw (send_with-healthy w close fd msg conn' st healthy there)
            (conn, ground (arith, e, find-set_at fd c (told w fd msg conn' st) st.connections), h)
    ]

-- As often as this.
abbrev pub repeated : ℕ → Bytes → Bytes
repeated zero bytes = []
repeated (suc n) bytes = bytes ++ repeated n bytes

send_all_with-Written :
    (w : Host) (close : Closing) (c : ℕ) (members : List ℕ) (msg : Message) (bytes : Bytes)
    (st : Reactor)
    → IsHealthy w
    → Written c bytes st
    → Written c
        (bytes ++ repeated (copies c members) (serialize msg))
        (send_all_with w close members msg st)
unfolding send_all_with
send_all_with-Written w close c [] msg bytes st healthy h = rw (append-nil bytes) h
send_all_with-Written w close c (fd ∷ members) msg bytes st healthy h =
    elim (Bool-cases (fd == c)) [
      | inl same ↦
          let at : fd ≡ c = ground arith in
          rw
            (
              same,
              at,
              sym (
                  append_assoc bytes (serialize msg) (repeated (copies c members) (serialize msg))),
            )
            (send_all_with-Written w close c members msg (bytes ++ serialize msg)
              (send_with w close c msg st) healthy
              (send_with-same w close c msg bytes st healthy h))
      | inr other ↦
          let apart : fd ≢ c = ground arith in
          rw other (
            send_all_with-Written w close c members msg bytes (send_with w close fd msg st) healthy
              (send_with-other w close c fd msg bytes st healthy apart h))
    ]

repeated_once :
    (c : ℕ) (members : List ℕ) (bytes : Bytes)
    → copies c members ≤ 1
    → repeated (copies c members) bytes ≡ (if is_member c members then bytes else [])
repeated_once c members bytes h = elim (Bool-cases (is_member c members)) [
  | inl e ↦
      let one : copies c members ≡ 1 = ground (arith, copies-is_member c members, h, e) in
      rw (one, e) (append-nil bytes)
  | inr e ↦
      let no_one : copies c members ≡ 0 = ground (arith, copies-is_member c members, h, e) in
      rw (no_one, e) refl
]

-- A member of a set hears a message once, and nobody else.
pub send_to_all-Written :
    (w : Host) (c : ℕ) (members : List ℕ) (msg : Message) (bytes : Bytes) (st : Reactor)
    → IsHealthy w
    → copies c members ≤ 1
    → Written c bytes st
    → Written c
        (bytes ++ (if is_member c members then serialize msg else []))
        (send_to_all w members msg st)
unfolding send_to_all
send_to_all-Written w c members msg bytes st healthy once h =
    let sent =
      send_all_with-Written w (λ other why now. handle_close w other why now) c members msg bytes st
        healthy h in
    subst
      (λ tail.
        Written c (bytes ++ tail)
          (send_all_with w (λ other why now. handle_close w other why now) members msg st))
      (repeated_once c members (serialize msg) once) sent

pub sent-Written :
    (w : Host) (fd c : ℕ) (msg : Message) (bytes : Bytes) (st : Reactor)
    → IsHealthy w
    → Written c bytes st
    → Written c (bytes ++ (if fd == c then serialize msg else [])) (send_message_to_fd w fd msg st)
unfolding send_message_to_fd
sent-Written w fd c msg bytes st healthy h = elim (Bool-cases (fd == c)) [
  | inl same ↦
      let at : fd ≡ c = ground arith in
      rw (same, at) (send_with-same w (handle_close w) c msg bytes st healthy h)
  | inr other ↦
      let apart : fd ≢ c = ground arith in
      rw (other, append-nil bytes)
        (send_with-other w (handle_close w) c fd msg bytes st healthy apart h)
]
