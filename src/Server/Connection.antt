-- ===== src/Server/Connection.antt =====
-- src/reactor/reactor_connection.cpp: a client's socket and its two buffers. The answers of `::send` are
-- arguments. The descriptor is the key that the server has the connection under; the peer's address
-- is for the log, and the counters of src/core/metrics.cpp are left out.
pub mod Flush
use pulse_chat.Base.{ℕ, zero, suc, ◌-◌, ◌/◌, List, [], ◌∷◌, ◌++◌, Bool, false, take, if◌then◌else◌}
use pulse_chat.Text.{is_empty}
use pulse_chat.Utf8.{Bytes}
use pulse_chat.Server.Wire.{Message, serialize}
use pulse_chat.Server.Buffer.{
  ByteBuffer, new_buffer, readable, append, consume, Extracted, extract_message,
}

-- The kernel's answer to a call of `::send`: how many bytes it took, `EAGAIN`, `EINTR`, or another error.
pub data SendAnswer : Type 0 where
  took : ℕ → SendAnswer
  again interrupted failed : SendAnswer

pub data WriteStatus : Type 0 where
  all_flushed pending_writes write_error : WriteStatus

pub record Connection : Type 0 where
  pub in_buffer : ByteBuffer
  pub out_buffer : ByteBuffer
  -- In milliseconds.
  pub last_activity : ℕ
  -- Whether the dispatcher waits for the socket to be writable.
  pub wants_write : Bool
  -- What the kernel has taken so far; the code keeps no record of it.
  pub sent : Bytes

-- The constructor.
unfoldable pub new_connection : ℕ → Connection
new_connection now = record {
  in_buffer = new_buffer 4096;
  out_buffer = new_buffer 4096;
  last_activity = now;
  wants_write = false;
  sent = [];
}

abbrev pub append_inbound : ℕ → Bytes → Connection → Connection
append_inbound now bytes conn = record conn {
  in_buffer = append bytes conn.in_buffer;
  last_activity = now;
}

abbrev pub queue_message : Message → Connection → Connection
queue_message msg conn = record conn { out_buffer = append (serialize msg) conn.out_buffer }

-- The kernel has taken bytes from the front.
abbrev pub taken : ℕ → Connection → Connection
taken n conn = record conn {
  out_buffer = consume n conn.out_buffer;
  sent = conn.sent ++ take n (readable conn.out_buffer);
}

-- The answers are those to the calls of `::send` that it makes, in their order; behind the last
-- one the socket's buffer is full.
unfoldable pub flush_outbound : List SendAnswer → Connection → WriteStatus × Connection
flush_outbound [] conn =
    if is_empty (readable conn.out_buffer) then (all_flushed, conn) else (pending_writes, conn)
flush_outbound (took zero ∷ answers) conn =
    if is_empty (readable conn.out_buffer) then (all_flushed, conn) else (write_error, conn)
flush_outbound (took (suc n) ∷ answers) conn =
    let rest = flush_outbound answers (taken (suc n) conn) in
    if is_empty (readable conn.out_buffer) then (all_flushed, conn) else rest
flush_outbound (again ∷ answers) conn =
    if is_empty (readable conn.out_buffer) then (all_flushed, conn) else (pending_writes, conn)
flush_outbound (interrupted ∷ answers) conn =
    let rest = flush_outbound answers conn in
    if is_empty (readable conn.out_buffer) then (all_flushed, conn) else rest
flush_outbound (failed ∷ answers) conn =
    if is_empty (readable conn.out_buffer) then (all_flushed, conn) else (write_error, conn)

abbrev pub idle_seconds : ℕ → Connection → ℕ
idle_seconds now conn = (now - conn.last_activity) / 1000
