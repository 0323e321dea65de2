-- ===== src/Server/Reactor/Reading.antt =====
-- What arrives at a connection, in src/reactor/reactor_server.cpp.
use pulse_chat.Base.{
  ℕ, zero, suc, List, [], ◌∷◌, none, some, Bool, true, false, length, if◌then◌else◌,
}
use pulse_chat.Text.{units_of}
use pulse_chat.Utf8.{Bytes}
use pulse_chat.Server.Buffer.{
  ByteBuffer, need_more, corrupted, extracted, extract_message, readable,
}
use pulse_chat.Server.IdMap.{find, set_at}
use pulse_chat.Server.Connection.{Connection, append_inbound}
use pulse_chat.Server.Reactor.{Host, Reactor, make_error, send_message_to_fd, handle_close}
use pulse_chat.Server.Reactor.Messages.{process_message}

-- What the loop over a connection's frames comes to: it ends, at bytes that are not whole yet or
-- at a corrupted frame; or it reads a connection that is freed; or the fuel of the model is gone.
pub data Drained : Type 0 where
  drained : Bool → Reactor → Drained
  dangling starved : Drained

abbrev pub consumed : ℕ → Connection → ByteBuffer → Reactor → Reactor
consumed fd conn b st = record st {
  connections = set_at fd (record conn { in_buffer = b }) st.connections;
}

-- The loop holds the connection by reference, which `process_message` may free.
unfoldable pub drain : Host → ℕ → ℕ → Reactor → Drained
unfolding extract_message process_message
drain w zero fd st = starved
drain w (suc fuel) fd st = elim (find fd st.connections) [
  | none ↦ dangling
  | some conn ↦
      let (x, b) = extract_message conn.in_buffer in
      elim x [
        | need_more ↦ drained false st
        | corrupted ↦ drained true st
        | extracted msg ↦ drain w fuel fd (process_message w fd msg (consumed fd conn b st))
      ]
]

unfoldable pub append_chunks : ℕ → List Bytes → Connection → Connection
append_chunks now [] conn = conn
append_chunks now (bytes ∷ chunks) conn = append_chunks now chunks (append_inbound now bytes conn)

-- A corrupted frame is answered, and the connection is closed.
unfoldable pub judged : Host → ℕ → Drained → Drained
judged w fd (drained true st) = drained true (
    handle_close w fd (units_of "Protocol violation")
      (send_message_to_fd w fd (make_error (units_of "Corrupted protocol frame")) st))
judged w fd outcome = outcome

-- `handle_read`, for what the calls of `::recv` give and whether the last one says that the peer is gone.
unfoldable pub handle_read : Host → ℕ → ℕ → List Bytes → Bool → Reactor → Drained
unfolding append_chunks judged drain handle_close
handle_read w now fd chunks is_closed st = elim (find fd st.connections) [
  | none ↦ drained false st
  | some conn ↦
      let conn' = append_chunks now chunks conn in
      let st' = record st { connections = set_at fd conn' st.connections } in
      if is_closed
      then drained false (handle_close w fd (units_of "Client disconnected") st')
      else judged w fd (drain w (suc (length (readable conn'.in_buffer))) fd st')
]
