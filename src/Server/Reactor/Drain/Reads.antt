-- ===== src/Server/Reactor/Drain/Reads.antt =====
-- `handle_read` of src/reactor/reactor_server.cpp: it ends, and what a DISCONNECT frame does to it.
use pulse_chat.Base.{
  ℕ, zero, suc, ◌≡◌, ◌≢◌, ◌≤◌, refl, sym, ap, ◌∙◌, List, [], ◌∷◌, ◌++◌, append_assoc, append-nil,
  Bool, true, false, some, Option-cases, inl, inr, arith, le→ltb, length,
}
use pulse_chat.Text.{Text}
use pulse_chat.Utf8.{Bytes, encode}
use pulse_chat.Pcap.{encode_frame}
use pulse_chat.Pcap.Codes.{MessageType}
use pulse_chat.Server.Wire.{Message, max_payload_size}
use pulse_chat.Server.Buffer.{readable, extracted, extract_message}
use pulse_chat.Server.Buffer.Refinement.{IsValid, Holds, append-Holds}
use pulse_chat.Server.Buffer.Frames.{
  next_message, extract_message-Answers, next_message-encode_frame,
}
use pulse_chat.Server.IdMap.{IdMap, find, set_at, find-set_at}
use pulse_chat.Server.Connection.{Connection}
use pulse_chat.Server.Reactor.{Host, Reactor}
use pulse_chat.Server.Reactor.Messages.{process_message}
use pulse_chat.Server.Reactor.Reading.{
  Drained, drained, dangling, starved, consumed, drain, judged, append_chunks, handle_read,
}
use pulse_chat.Server.Reactor.Drain.{IsGone, handle_close-IsGone, some_left, drain-ends}

unfoldable pub all_bytes : List Bytes → Bytes
all_bytes [] = []
all_bytes (bytes ∷ chunks) = bytes ++ all_bytes chunks

append_chunks-Holds :
    (now : ℕ) (chunks : List Bytes) (queue : Bytes) (conn : Connection)
    → Holds queue conn.in_buffer
    → Holds (queue ++ all_bytes chunks) (append_chunks now chunks conn).in_buffer
unfolding append_chunks all_bytes
append_chunks-Holds now [] queue conn h = rw (append-nil queue) h
append_chunks-Holds now (bytes ∷ chunks) queue conn (v, e) =
    let (v', e') = append-Holds bytes conn.in_buffer v in
    rw (sym (append_assoc queue bytes (all_bytes chunks)))
      (append_chunks-Holds now chunks (queue ++ bytes) _ (v', e' ∙ ap (λ q. q ++ bytes) e))

judged-ends : (w : Host) (fd : ℕ) (r : Drained) → r ≢ starved → judged w fd r ≢ starved
unfolding judged
judged-ends w fd (drained true st) h = ground arith
judged-ends w fd (drained false st) h = h
judged-ends w fd dangling h = h
judged-ends w fd starved h = h

assigned_here :
    (fd : ℕ) (conn other : Connection) (conns : IdMap Connection)
    → find fd (set_at fd conn conns) ≡ some other
    → conn ≡ other
assigned_here fd conn other conns h = ground (arith, find-set_at fd fd conn conns, h)

-- Reading a connection whose buffer is in shape ends, whatever bytes come: the loop over its frames
-- stops or reads a freed connection, and never needs more turns than the model allows.
pub handle_read-ends :
    (w : Host) (now fd : ℕ) (chunks : List Bytes) (is_closed : Bool) (st : Reactor)
    → ((conn : Connection) → find fd st.connections ≡ some conn → IsValid conn.in_buffer)
    → handle_read w now fd chunks is_closed st ≢ starved
unfolding handle_read
handle_read-ends w now fd chunks true st ok = elim (Option-cases (find fd st.connections)) [
  | inl e ↦ rw (handle_read, e) (ground arith)
  | inr (conn, e) ↦ rw (handle_read, e) (ground arith)
]
handle_read-ends w now fd chunks false st ok = elim (Option-cases (find fd st.connections)) [
  | inl e ↦ rw (handle_read, e) (ground arith)
  | inr (conn, e) ↦
      let conn' = append_chunks now chunks conn in
      let (v, _) =
        append_chunks-Holds now chunks (readable conn.in_buffer) conn (ok conn e, refl) in
      rw (handle_read, e)
        (judged-ends w fd _ (
          drain-ends w (length (readable conn'.in_buffer)) fd
            (record st { connections = set_at fd conn' st.connections })
            (λ other h.
              let same : conn' ≡ other = assigned_here fd conn' other st.connections h in
              rw (sym same) (v, omega arith))))
]

drain-gone :
    (w : Host) (fuel fd : ℕ) (st : Reactor)
    → 1 ≤ fuel
    → IsGone fd st
    → drain w fuel fd st ≡ dangling
unfolding drain
drain-gone w zero fd st more gone = absurd (omega arith)
drain-gone w (suc fuel) fd st more gone = rw (drain, gone) refl

process_message-disconnect :
    (w : Host) (fd : ℕ) (payload : Bytes) (st : Reactor)
    → IsGone fd
        (process_message w fd (record { type = MessageType.disconnect; payload = payload }) st)
unfolding process_message
process_message-disconnect w fd payload st = handle_close-IsGone w fd _ st

-- A queue that begins with a frame of the gateway that says DISCONNECT.
drain-disconnect :
    (w : Host) (fuel fd : ℕ) (text : Text) (rest : Bytes) (conn : Connection) (st : Reactor)
    → find fd st.connections ≡ some conn
    → Holds (encode_frame MessageType.disconnect text ++ rest) conn.in_buffer
    → length (encode text) ≤ max_payload_size
    → length (readable conn.in_buffer) ≤ fuel
    → drain w (suc fuel) fd st ≡ dangling
unfolding drain
drain-disconnect w fuel fd text rest conn st e (v, q) short enough =
    let queue = encode_frame MessageType.disconnect text ++ rest in
    let msg : Message = record { type = MessageType.disconnect; payload = encode text } in
    let whole : next_message queue ≡ (extracted msg, rest) =
      rw
        (
          next_message-encode_frame MessageType.disconnect text rest (omega arith),
          le→ltb max_payload_size (length (encode text)) short,
        )
        refl in
    let (same, _) = extract_message-Answers queue conn.in_buffer (v, q) in
    let taken : (extract_message conn.in_buffer).0 ≡ extracted msg = same ∙ ap (λ x. x.0) whole in
    let next = consumed fd conn (extract_message conn.in_buffer).1 st in
    rw (drain, e, taken)
      (drain-gone w fuel fd (process_message w fd msg next)
        (omega (arith, some_left conn.in_buffer msg v taken))
        (process_message-disconnect w fd (encode text) next))

-- When a DISCONNECT frame of the gateway, with a text of at most 65,536 bytes, is the first of the unread
-- bytes and the socket stays open, the loop closes the connection and then reads it: the connection is
-- freed by then. This holds however the bytes come in, and whatever comes behind the frame.
pub handle_read-disconnect :
    (w : Host) (now fd : ℕ) (text : Text) (rest : Bytes) (chunks : List Bytes) (conn : Connection)
    (st : Reactor)
    → find fd st.connections ≡ some conn
    → IsValid conn.in_buffer
    → readable conn.in_buffer ++ all_bytes chunks ≡ encode_frame MessageType.disconnect text ++ rest
    → length (encode text) ≤ max_payload_size
    → handle_read w now fd chunks false st ≡ dangling
unfolding handle_read judged
handle_read-disconnect w now fd text rest chunks conn st e v bytes short =
    let conn' = append_chunks now chunks conn in
    let (v', q) = append_chunks-Holds now chunks (readable conn.in_buffer) conn (v, refl) in
    let there : find fd (set_at fd conn' st.connections) ≡ some conn' =
      ground (arith, find-set_at fd fd conn' st.connections) in
    let reads : drain w (suc (length (readable conn'.in_buffer))) fd
          (record st { connections = set_at fd conn' st.connections })
        ≡ dangling =
      drain-disconnect w (length (readable conn'.in_buffer)) fd text rest conn' _ there
        (v', q ∙ bytes) short (omega arith) in
    rw (handle_read, e) (ap (judged w fd) reads)
