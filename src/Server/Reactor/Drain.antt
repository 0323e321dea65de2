-- ===== src/Server/Reactor/Drain.antt =====
-- Reading frames in src/reactor/reactor_server.cpp: the loop ends, and what it reads after the connection
-- is closed.
pub mod Reads
use pulse_chat.Base.{
  ℕ, zero, suc, ◌+◌, ◌≡◌, ◌≢◌, ◌≤◌, ◌<◌, ◌⊎◌, refl, sym, ap, ◌∙◌, List, [], ◌∷◌, ◌++◌, Bool, true,
  false, Option, none, some, Option-cases, inl, inr, arith, ◌==◌, if◌then◌else◌, length,
}
use pulse_chat.Text.{units_of}
use pulse_chat.Utf8.{Bytes}
use pulse_chat.Pcap.{encode_frame}
use pulse_chat.Pcap.Codes.{MessageType}
use pulse_chat.Server.Wire.{Message}
use pulse_chat.Server.Buffer.{
  ByteBuffer, readable, Extracted, need_more, corrupted, extracted, extract_message, append,
}
use pulse_chat.Server.Buffer.Refinement.{IsValid, Holds, append-Holds}
use pulse_chat.Server.Buffer.Frames.{
  Answers, next_message, extract_message-Answers, next_message-shorter, next_message-encode_frame,
}
use pulse_chat.Server.IdMap.{IdMap, find, set_at, erase, find-set_at, find-erase}
use pulse_chat.Server.Rooms.{get_username}
use pulse_chat.Server.Connection.{
  WriteStatus, all_flushed, pending_writes, write_error, SendAnswer, Connection, flush_outbound,
  queue_message, append_inbound,
}
use pulse_chat.Server.Connection.Flush.{flush_outbound-in_buffer}
use pulse_chat.Server.Reactor.{
  Host, Reactor, Closing, keep, after_send, make_notify, left_text, room_mates, without_user,
  farewell, handle_close,
}
use pulse_chat.Server.Reactor.Messages.{process_message}
use pulse_chat.Server.Reactor.Reading.{
  Drained, drained, dangling, starved, consumed, drain, append_chunks, handle_read,
}
use pulse_chat.Server.Reactor.Close.{handle_close-ends}
use pulse_chat.Server.Reactor.Kept.{IsKept, KeptBy, handle_close-kept, send_all_with-kept}
use pulse_chat.Server.Reactor.Kept.Messages.{process_message-kept}

-- A descriptor with no connection.
abbrev pub IsGone : ℕ → Reactor → Type 0
IsGone c st = find c st.connections ≡ none

stays_gone :
    (c fd : ℕ) (conn conn' : Connection) (conns : IdMap Connection)
    → find fd conns ≡ some conn
    → find c conns ≡ none
    → find c (set_at fd conn' conns) ≡ none
stays_gone c fd conn conn' conns e h = ground (arith, find-set_at fd c conn' conns)

erased :
    (c fd : ℕ) (conns : IdMap Connection) → find c conns ≡ none → find c (erase fd conns) ≡ none
erased c fd conns h = ground (arith, find-erase fd c conns)

IsGone-IsKept : (c : ℕ) → IsKept (IsGone c)
IsGone-IsKept c = record {
  by_flush = λ fd msg answers conn st e p. stays_gone c fd conn _ st.connections e p;
  by_end = λ fd st e p. erased c fd st.connections p;
  by_leaving = λ fd st p. erased c fd st.connections p;
}

farewell-IsGone :
    (w : Host) (close : Closing) (fd : ℕ) (reason : Bytes) (username : Option Bytes) (st : Reactor)
    → KeptBy (IsGone fd) (IsGone-IsKept fd) close
    → IsGone fd (farewell w close fd reason username st)
unfolding farewell
farewell-IsGone w close fd reason none st by_close = ground (arith, find-erase fd fd st.connections)
farewell-IsGone w close fd reason (some []) st by_close =
    ground (arith, find-erase fd fd st.connections)
farewell-IsGone w close fd reason (some (c ∷ name)) st by_close =
    send_all_with-kept (IsGone fd) (IsGone-IsKept fd) w close (room_mates fd st)
      (make_notify (left_text (c ∷ name) reason)) (without_user fd st) by_close
      (ground (arith, find-erase fd fd st.connections))

pub handle_close-IsGone :
    (w : Host) (fd : ℕ) (reason : Bytes) (st : Reactor) → IsGone fd (handle_close w fd reason st)
handle_close-IsGone w fd reason st = elim (Option-cases (find fd st.connections)) [
  | inl e ↦ handle_close-kept (IsGone fd) (IsGone-IsKept fd) w fd reason st e
  | inr (conn, e) ↦
      rw (handle_close-ends w fd reason st, e)
        (farewell-IsGone w (λ other why now. handle_close w other why now) fd reason _ st
          (handle_close-kept (IsGone fd) (IsGone-IsKept fd) w))
]

-- What a connection has to read, if it is there.
abbrev HasUnread : ℕ → ByteBuffer → Reactor → Type 0
HasUnread c b st = (conn : Connection) → find c st.connections ≡ some conn → conn.in_buffer ≡ b

same_inbound :
    (status : WriteStatus) (conn : Connection) → (after_send status conn).in_buffer ≡ conn.in_buffer
same_inbound all_flushed conn = refl
same_inbound pending_writes conn = refl
same_inbound write_error conn = refl

after_send-in_buffer :
    (msg : Message) (answers : List SendAnswer) (conn : Connection)
    → let (status, conn') = flush_outbound answers (queue_message msg conn) in
      (after_send status conn').in_buffer ≡ conn.in_buffer
after_send-in_buffer msg answers conn =
    let (status, conn') = flush_outbound answers (queue_message msg conn) in
    same_inbound status conn' ∙ flush_outbound-in_buffer answers (queue_message msg conn)

assigned :
    (c fd : ℕ) (conn' other : Connection) (conns : IdMap Connection)
    → find c (set_at fd conn' conns) ≡ some other
    → (((fd ≡ c) × (conn' ≡ other)) ⊎ (find c conns ≡ some other))
assigned c fd conn' other conns h = ground (arith, find-set_at fd c conn' conns)

unread-set_at :
    (c fd : ℕ) (b : ByteBuffer) (conn conn' : Connection) (st : Reactor)
    → find fd st.connections ≡ some conn
    → conn'.in_buffer ≡ conn.in_buffer
    → HasUnread c b st
    → (other : Connection) → find c (set_at fd conn' st.connections) ≡ some other
    → other.in_buffer ≡ b
unread-set_at c fd b conn conn' st e same p other h =
    elim (assigned c fd conn' other st.connections h) [
      | inl (at, it) ↦ ap (λ x. x.in_buffer) (sym it) ∙ same ∙ p conn (rw (sym at) e)
      | inr there ↦ p other there
    ]

HasUnread-IsKept : (c : ℕ) (b : ByteBuffer) → IsKept (HasUnread c b)
HasUnread-IsKept c b = record {
  by_flush = λ fd msg answers conn st e p.
      unread-set_at c fd b conn _ st e (after_send-in_buffer msg answers conn) p;
  by_end = λ fd st e p conn h. p conn (ground (arith, find-erase fd c st.connections));
  by_leaving = λ fd st p conn h. p conn (ground (arith, find-erase fd c st.connections));
}

Extracted-cases :
    (x : Extracted) → (x ≡ need_more) ⊎ ((x ≡ corrupted) ⊎ ((msg : Message) × (x ≡ extracted msg)))
Extracted-cases need_more = inl refl
Extracted-cases corrupted = inr (inl refl)
Extracted-cases (extracted msg) = inr (inr (msg, refl))

-- A connection's unread bytes, when it is there, are fewer than this.
abbrev pub Waits : ℕ → ℕ → Reactor → Type 0
Waits fuel fd st =
    (conn : Connection)
    → find fd st.connections ≡ some conn
    → IsValid conn.in_buffer × (length (readable conn.in_buffer) < fuel)

-- What is left to read when a message is taken, whatever the message does.
process_message-Waits :
    (w : Host) (fuel fd : ℕ) (msg : Message) (conn : Connection) (st : Reactor)
    → IsValid conn.in_buffer
    → length (readable conn.in_buffer) < suc fuel
    → (extract_message conn.in_buffer).0 ≡ extracted msg
    → Waits fuel fd
        (process_message w fd msg (consumed fd conn (extract_message conn.in_buffer).1 st))
process_message-Waits w fuel fd msg conn st v less e other there =
    let b = (extract_message conn.in_buffer).1 in
    let (same, (v', rest)) =
      extract_message-Answers (readable conn.in_buffer) conn.in_buffer (v, refl) in
    let before : HasUnread fd b (consumed fd conn b st) = λ now h.
      ground (arith, find-set_at fd fd (record conn { in_buffer = b }) st.connections, h) in
    let kept =
      process_message-kept (HasUnread fd b) (HasUnread-IsKept fd b) w fd msg (consumed fd conn b st)
        (λ type. before, before, before) before other there in
    rw kept (
      v',
      omega (
        arith,
        next_message-shorter (readable conn.in_buffer) msg (sym same ∙ e),
        ap length rest,
      ),
    )

pub some_left :
    (b : ByteBuffer) (msg : Message)
    → IsValid b
    → (extract_message b).0 ≡ extracted msg
    → 1 ≤ length (readable b)
some_left b msg v e =
    let (same, rest) = extract_message-Answers (readable b) b (v, refl) in
    omega (arith, next_message-shorter (readable b) msg (sym same ∙ e))

-- One turn of the loop, when the turns behind it end.
drain_turn :
    (w : Host) (fuel fd : ℕ) (st : Reactor)
    → Waits (suc fuel) fd st
    → (1 ≤ fuel → (st' : Reactor) → Waits fuel fd st' → drain w fuel fd st' ≢ starved)
    → drain w (suc fuel) fd st ≢ starved
unfolding drain
drain_turn w fuel fd st waits next = elim (Option-cases (find fd st.connections)) [
  | inl e ↦ rw (drain, e) (ground arith)
  | inr (conn, e) ↦
      let (v, less) = waits conn e in
      elim (Extracted-cases (extract_message conn.in_buffer).0) [
        | inl h ↦ rw (drain, e, h) (ground arith)
        | inr (inl h) ↦ rw (drain, e, h) (ground arith)
        | inr (inr (msg, h)) ↦
            rw (drain, e, h)
              (next (omega (arith, some_left conn.in_buffer msg v h)) _
                (process_message-Waits w fuel fd msg conn st v less h))
      ]
]

-- The loop over a connection's frames ends: fuel for one frame more than its bytes is enough.
pub drain-ends :
    (w : Host) (fuel fd : ℕ) (st : Reactor)
    → Waits (suc fuel) fd st
    → drain w (suc fuel) fd st ≢ starved
drain-ends w zero fd st waits =
    drain_turn w zero fd st waits (λ none_left st' waits'. absurd (omega arith))
drain-ends w (suc fuel) fd st waits =
    drain_turn w (suc fuel) fd st waits (λ more st' waits'. drain-ends w fuel fd st' waits')
