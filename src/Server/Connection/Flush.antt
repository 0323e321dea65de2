-- ===== src/Server/Connection/Flush.antt =====
-- Sending in src/reactor/reactor_connection.cpp: no byte is lost or repeated.
use pulse_chat.Base.{
  ℕ, zero, suc, ◌≡◌, ◌≢◌, sym, ap, ◌∙◌, List, [], ◌∷◌, ◌++◌, Bool, true, false, take, arith,
  append_assoc, if◌then◌else◌, take-append-drop,
}
use pulse_chat.Utf8.{Bytes}
use pulse_chat.Server.Wire.{Message, serialize}
use pulse_chat.Server.Buffer.{readable}
use pulse_chat.Server.Buffer.Refinement.{IsValid, append-Holds, consume-Holds}
use pulse_chat.Server.Connection.{
  SendAnswer, WriteStatus, write_error, Connection, taken, queue_message, flush_outbound, took,
  again, interrupted, failed,
}

pub flush_outbound-in_buffer :
    (answers : List SendAnswer) (conn : Connection)
    → (flush_outbound answers conn).1.in_buffer ≡ conn.in_buffer
unfolding flush_outbound
flush_outbound-in_buffer [] conn = ground arith
flush_outbound-in_buffer (took zero ∷ answers) conn = ground arith
flush_outbound-in_buffer (took (suc n) ∷ answers) conn =
    ground (arith, flush_outbound-in_buffer answers (taken (suc n) conn))
flush_outbound-in_buffer (again ∷ answers) conn = ground arith
flush_outbound-in_buffer (interrupted ∷ answers) conn =
    ground (arith, flush_outbound-in_buffer answers conn)
flush_outbound-in_buffer (failed ∷ answers) conn = ground arith

-- What was written to a socket: what the kernel has, and behind it what waits.
abbrev pub stream : Connection → Bytes
stream conn = conn.sent ++ readable conn.out_buffer

-- A connection in shape, whose stream is this.
abbrev pub Streams : Bytes → Connection → Type 0
Streams bytes conn = IsValid conn.out_buffer × (stream conn ≡ bytes)

taken-Streams :
    (n : ℕ) (bytes : Bytes) (conn : Connection) → Streams bytes conn → Streams bytes (taken n conn)
taken-Streams n bytes conn (v, e) =
    let (v', e') = consume-Holds n conn.out_buffer v in
    (
      v',
      ap (λ b. (conn.sent ++ take n (readable conn.out_buffer)) ++ b) e'
          ∙ append_assoc conn.sent (take n (readable conn.out_buffer)) _
          ∙ ap (λ b. conn.sent ++ b) (take-append-drop n (readable conn.out_buffer))
          ∙ e,
    )

either-Streams :
    (bytes : Bytes) (t : Bool) (r s : WriteStatus × Connection)
    → Streams bytes r.1
    → Streams bytes s.1
    → Streams bytes (if t then r else s).1
either-Streams bytes true r s h k = h
either-Streams bytes false r s h k = k

-- A flush changes nothing of what was written, whatever the kernel answers.
pub flush_outbound-Streams :
    (answers : List SendAnswer) (bytes : Bytes) (conn : Connection)
    → Streams bytes conn
    → Streams bytes (flush_outbound answers conn).1
unfolding flush_outbound
flush_outbound-Streams [] bytes conn h = either-Streams bytes _ _ _ h h
flush_outbound-Streams (took zero ∷ answers) bytes conn h = either-Streams bytes _ _ _ h h
flush_outbound-Streams (took (suc n) ∷ answers) bytes conn h =
    either-Streams bytes _ _ (flush_outbound answers (taken (suc n) conn)) h (
      flush_outbound-Streams answers bytes (taken (suc n) conn)
        (taken-Streams (suc n) bytes conn h))
flush_outbound-Streams (again ∷ answers) bytes conn h = either-Streams bytes _ _ _ h h
flush_outbound-Streams (interrupted ∷ answers) bytes conn h =
    either-Streams bytes _ _ (flush_outbound answers conn) h
      (flush_outbound-Streams answers bytes conn h)
flush_outbound-Streams (failed ∷ answers) bytes conn h = either-Streams bytes _ _ _ h h

-- Answers among which is no error.
abbrev pub never_fails : List SendAnswer → Bool
never_fails [] = true
never_fails (took zero ∷ answers) = false
never_fails (took (suc n) ∷ answers) = never_fails answers
never_fails (again ∷ answers) = never_fails answers
never_fails (interrupted ∷ answers) = never_fails answers
never_fails (failed ∷ answers) = false

pub flush_outbound-status :
    (answers : List SendAnswer) (conn : Connection)
    → never_fails answers ≡ true
    → (flush_outbound answers conn).0 ≢ write_error
unfolding flush_outbound
flush_outbound-status [] conn h = ground arith
flush_outbound-status (took zero ∷ answers) conn h = cc
flush_outbound-status (took (suc n) ∷ answers) conn h =
    ground (arith, flush_outbound-status answers (taken (suc n) conn) h)
flush_outbound-status (again ∷ answers) conn h = ground arith
flush_outbound-status (interrupted ∷ answers) conn h =
    ground (arith, flush_outbound-status answers conn h)
flush_outbound-status (failed ∷ answers) conn h = cc

-- A message that is queued stands behind what was written before.
pub queue_message-Streams :
    (msg : Message) (bytes : Bytes) (conn : Connection)
    → Streams bytes conn
    → Streams (bytes ++ serialize msg) (queue_message msg conn)
queue_message-Streams msg bytes conn (v, e) =
    let (v', e') = append-Holds (serialize msg) conn.out_buffer v in
    (
      v',
      ap (λ b. conn.sent ++ b) e'
          ∙ sym (append_assoc conn.sent (readable conn.out_buffer) (serialize msg))
          ∙ ap (λ b. b ++ serialize msg) e,
    )
