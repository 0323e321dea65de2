-- ===== src/Gateway/Sockets.antt =====
-- The other handlers of a client in gateway/src/server.ts: `connection`, the events of its TCP
-- socket, and `close`.
use pulse_chat.Base.{
  ℕ, List, [], ◌∷◌, ◌++◌, Option, none, some, Bool, true, false, ◌==◌, ltb, if◌then◌else◌, length,
  take,
}
use pulse_chat.Text.{Text, units_of, is_empty}
use pulse_chat.Utf8.{Bytes}
use pulse_chat.Pcap.Codes.{MessageType, opcode}
use pulse_chat.Pcap.{DecodedFrame, new_parser, push, encode_frame}
use pulse_chat.Dict.{values, delete}
use pulse_chat.Db.{World, general}
use pulse_chat.Gateway.{
  ClientSession, MetricsData, Telemetry, inbound, presence_list, system_metrics, tcp_status,
  pcap_frame, telemetry_event, written, connected, ended, Gateway, find_session, remove_session,
  with_session, emit, send, broadcast_to_all, broadcast_presence,
}

-- The session object of a new client.
unfoldable pub new_session : ClientSession
new_session = record {
  is_open = true;
  is_destroyed = false;
  parser = new_parser;
  username = [];
  display_name = [];
  avatar_url = none;
  status = units_of "online";
  activity_text = [];
  current_room = general;
  is_registered = false;
}

abbrev send_metrics : World → ℕ → Option MetricsData → Gateway → Gateway
send_metrics w id none g = g
send_metrics w id (some m) g = send id (system_metrics m w.local_time) g

-- `connection`: the socket is open, so `connectTcp` connects.
unfoldable pub on_connection : World → ℕ → Gateway → Gateway
on_connection w id g =
    let g1 = record g { sessions = g.sessions ++ (id, new_session) ∷ [] } in
    let g2 = send id (presence_list (values g1.presence)) g1 in
    emit (connected id) (send_metrics w id g2.metrics g2)

-- A status that is sent while the socket is open.
unfoldable pub send_status : ℕ → Text → Gateway → Gateway
send_status id status g = elim (find_session id g.sessions) [
  | none ↦ g
  | some s ↦ if s.is_open then send id (tcp_status status) g else g
]

-- The callback of `connect`.
unfoldable pub on_tcp_connected : ℕ → Gateway → Gateway
on_tcp_connected id g = send_status id (units_of "connected") g

-- `error` of the TCP socket.
unfoldable pub on_tcp_error : ℕ → Gateway → Gateway
on_tcp_error id g = send_status id (units_of "disconnected") g

-- `close` of the TCP socket, which is destroyed by then.
unfoldable pub on_tcp_close : ℕ → Gateway → Gateway
on_tcp_close id g = elim (find_session id g.sessions) [
  | none ↦ g
  | some s ↦
      send_status id (units_of "disconnected")
        (with_session id (record s { is_destroyed = true }) g)
]

-- U+1F512 is a pair of units.
abbrev pub sealed_payload : Text
sealed_payload = units_of "[" ++ (0xD83D ∷ 0xDD12 ∷ units_of " Encrypted Direct Message]")

abbrev pub is_private_frame : DecodedFrame → Bool
is_private_frame frame = frame.type == opcode MessageType.private_message

-- `telemetryPayload`
unfoldable pub telemetry_payload : DecodedFrame → Text
telemetry_payload frame =
    if is_private_frame frame
    then sealed_payload
    else if ltb 80 (length frame.payload)
    then take 80 frame.payload ++ units_of "..."
    else frame.payload

-- The telemetry of a frame that came in.
unfoldable pub inbound_telemetry : DecodedFrame → Telemetry
inbound_telemetry frame = record {
  direction = inbound;
  type = frame.type;
  type_name = frame.type_name;
  length = frame.length;
  payload = telemetry_payload frame;
  raw_hex = if is_private_frame frame then units_of "2a 2a 2a 2a 2a" else frame.raw_hex;
  timestamp = frame.timestamp;
}

-- The body of the loop over the frames of a chunk.
unfoldable pub on_frame : ℕ → Bool → DecodedFrame → Gateway → Gateway
on_frame id is_open frame g =
    let told = if is_open then send id (pcap_frame frame) g else g in
    broadcast_to_all (telemetry_event (inbound_telemetry frame)) told

unfoldable pub on_frames : ℕ → Bool → List DecodedFrame → Gateway → Gateway
on_frames id is_open [] g = g
on_frames id is_open (frame ∷ frames) g = on_frames id is_open frames (on_frame id is_open frame g)

-- `data` of the TCP socket, with the times that the parser reads.
unfoldable pub on_tcp_data : (ℕ → Text) → ℕ → Bytes → Gateway → Gateway
on_tcp_data times id chunk g = elim (find_session id g.sessions) [
  | none ↦ g
  | some s ↦
      let (frames, parser) = push times s.parser chunk in
      on_frames id s.is_open frames (with_session id (record s { parser = parser }) g)
]

-- The name of a client that left is taken from the presence map.
unfoldable pub leave_presence : Text → Gateway → Gateway
leave_presence username g =
    if is_empty username
    then g
    else broadcast_presence (record g { presence = delete username g.presence })

-- `DISCONNECT`, and the end of the TCP socket.
unfoldable pub end_tcp : ℕ → Bool → Gateway → Gateway
end_tcp id is_destroyed g =
    if is_destroyed
    then g
    else emit (ended id) (
        emit (written id (encode_frame MessageType.disconnect (units_of "Browser disconnected"))) g)

-- `close` of the WebSocket, which is no longer open.
unfoldable pub on_close : ℕ → Gateway → Gateway
on_close id g = elim (find_session id g.sessions) [
  | none ↦ g
  | some s ↦
      let g1 = with_session id (record s { is_open = false }) g in
      let g2 = end_tcp id s.is_destroyed (leave_presence s.username g1) in
      record g2 { sessions = remove_session id g2.sessions }
]
