-- ===== src/Gateway/Tests.antt =====
-- Runs of the gateway, and the theorems at inputs.
use pulse_chat.Base.{
  ℕ, ◌≡◌, refl, ◌≢◌, inl, inr, List, [], ◌∷◌, Option, none, some, true, false, arith, length,
}
use pulse_chat.Text.{Text, units_of, text_eq, to_lower, trim, lower_unit}
use pulse_chat.Text.Laws.{text_eq_iff}
use pulse_chat.Pcap.{DecodedFrame, new_parser}
use pulse_chat.Dict.{get, has, set, delete, values}
use pulse_chat.Dict.Laws.{Distinct}
use pulse_chat.Db.{DbUser, DbRoom, PulseDatabase, World, missing}
use pulse_chat.Db.Rooms.{room_key, room_unit, RoomError, room_error_text}
use pulse_chat.Db.Users.{UserResult}
use pulse_chat.Db.Evolution.{IsSound}
use pulse_chat.Gateway.{
  ClientSession, UserPresence, Gateway, sent, error_frame, telemetry_event, find_session, emit,
}
use pulse_chat.Gateway.Rooms.{LiveRoom}
use pulse_chat.Gateway.Actions.{
  ClientMessage, on_join_room, on_private_message, outbound_telemetry, registered,
  registered_session,
}
use pulse_chat.Gateway.Sockets.{on_frames, on_close}
use pulse_chat.Gateway.Metrics.{on_metrics_data, RawMetrics, Poller}
use pulse_chat.Gateway.Step.{Input, connection, message, close, run}
use pulse_chat.Gateway.Privacy.{
  seen_by, private, done, seen_by-on_frames, Has, direct_frame, on_private_message-shown,
}
use pulse_chat.Gateway.Access.{on_join_room-refused}
use pulse_chat.Gateway.Valid.{run-IsSound}
use pulse_chat.Gateway.Metrics.Stale.{reconnected, on_metrics_data-stale}
use pulse_chat.Gateway.Roster.{IsRoster, IsOnceEach}
use pulse_chat.Gateway.Roster.Events.{run-IsRoster}
use pulse_chat.Text.Laws.{text_eq_iff}
use pulse_chat.Gateway.Presence.{on_close-hides_other, on_close-leaves_ghost}

abbrev world : World
world = record {
  now = 7;
  local_time = units_of "10:00:00";
  day_time = units_of "10:00:00.000";
  random_id = units_of "7-x";
  writable = true;
}

abbrev vault : DbRoom
vault = record {
  name = units_of "vault";
  is_protected = true;
  password = some (units_of "s3");
  created_by = none;
  created_at = 1;
}

abbrev db : PulseDatabase
db = record {
  data_now = record { users = []; rooms = (units_of "vault", vault) ∷ []; messages = [] };
  file = missing;
}

-- Bob is connected twice, on sockets 1 and 2.
abbrev bob_session : ClientSession
bob_session = record {
  is_open = true;
  is_destroyed = false;
  parser = new_parser;
  username = units_of "bob";
  display_name = units_of "Bob";
  avatar_url = none;
  status = units_of "online";
  activity_text = [];
  current_room = units_of "den";
  is_registered = true;
}

abbrev guest_session : ClientSession
guest_session = record bob_session { username = []; is_registered = false }

abbrev bob_presence : UserPresence
bob_presence = record {
  username = units_of "bob";
  display_name = units_of "Bob";
  avatar_url = none;
  email = none;
  status = units_of "online";
  activity_text = [];
  room = units_of "den";
  last_seen = 1;
}

abbrev gateway : Gateway
gateway = record {
  sessions = (1, bob_session) ∷ (2, bob_session) ∷ [];
  presence = (units_of "bob", bob_presence) ∷ [];
  db = db;
  metrics = none;
  outbox = [];
}

abbrev no_message : ClientMessage
no_message = record {
  action = [];
  username = none;
  email = none;
  display_name = none;
  avatar_url = none;
  provider = none;
  status = none;
  activity_text = none;
  text = none;
  room = none;
  password = none;
  target = none;
}

abbrev line : ClientMessage
line = record no_message { action = units_of "chat"; text = some (units_of "hi") }

abbrev whisper : ClientMessage
whisper = record no_message {
  action = units_of "private_message";
  text = some (units_of "psst");
  target = some (units_of "Al");
}

abbrev knock : Text → ClientMessage
knock password = record no_message {
  action = units_of "join_room";
  room = some (units_of "vault");
  password = some password;
}

gateway_code : Unit {0}
unfolding to_lower trim lower_unit text_eq get room_key room_unit find_session has set delete values
    registered_session
gateway_code = tt

abbrev whispered : Text → DecodedFrame
whispered text = record {
  type = 4;
  type_name = units_of "PRIVATE_MESSAGE";
  length = 3;
  payload = text;
  raw_hex = text;
  timestamp = [];
}

seen_by-on_frames_example :
    seen_by 2 (on_frames 1 true (whispered (units_of "a") ∷ []) gateway).outbox
    ≡ seen_by 2 (on_frames 1 true (whispered (units_of "b") ∷ []) gateway).outbox
seen_by-on_frames_example =
    seen_by-on_frames 2 1 true gateway (omega arith)
      (private (whispered (units_of "a")) (units_of "b") (units_of "b") refl done)

on_private_message-shown_example :
    Has
      (sent 2 (
        telemetry_event
          (outbound_telemetry world whisper (direct_frame (units_of "Al") (units_of "psst")))))
      (on_private_message world 1 whisper bob_session gateway).outbox
    × ((outbound_telemetry world whisper (direct_frame (units_of "Al") (units_of "psst"))).payload
        ≡ units_of "psst")
unfolding gateway_code
on_private_message-shown_example =
    on_private_message-shown world 1 2 whisper bob_session bob_session gateway (units_of "psst")
      refl refl refl refl refl (inr (inl refl)) refl

wrong-ne-right : trim (units_of "s4") ≢ trim (units_of "s3")
unfolding gateway_code
wrong-ne-right e = cc ((text_eq_iff (trim (units_of "s4")) (trim (units_of "s3"))).1 e)

on_join_room-refused_example :
    (e : RoomError) × (on_join_room world 1 (knock (units_of "s4")) bob_session gateway
      ≡ emit
          (sent 1
            (error_frame (length (room_error_text e)) (room_error_text e) (units_of "10:00:00")))
          gateway)
unfolding gateway_code
on_join_room-refused_example =
    on_join_room-refused world 1 (knock (units_of "s4")) bob_session gateway vault (units_of "s3")
      refl refl (refl, refl, refl) wrong-ne-right

abbrev no_metrics : Text → Option RawMetrics
no_metrics text = none

abbrev poller : Poller
poller = record {
  has_socket = false;
  is_destroyed = false;
  metrics_connected = false;
  parser = new_parser;
  bytes_written = [];
}

abbrev inputs : List (World × Input)
inputs =
    (world, connection 3)
    ∷ (world, message 1 (some line))
    ∷ (world, message 3 (some (knock (units_of "s4"))))
    ∷ (world, close 1)
    ∷ []

db-IsSound : IsSound db
unfolding get
db-IsSound =
    (record { distinct = tt; named = λ k u g. cc; unique = λ e k j u v g g' h h'. cc }, omega arith)

run-IsSound_example : IsSound (run no_metrics inputs (poller, gateway)).1.db
run-IsSound_example = run-IsSound no_metrics inputs (poller, gateway) db-IsSound

abbrev rob : DbUser
rob = record {
  username = units_of "rob";
  email = none;
  display_name = units_of "Rob";
  avatar_url = [];
  provider = units_of "local";
  created_at = 1;
  last_active = 1;
}

bob_alone : Distinct gateway.presence
unfolding get
bob_alone = (refl, tt)

gateway-IsRoster : IsRoster gateway.presence
unfolding get
gateway-IsRoster = record {
  distinct = bob_alone;
  named = λ k p e. ground (arith, e, text_eq_iff (units_of "bob") k);
}

run-IsRoster_example :
    IsRoster (run no_metrics inputs (poller, gateway)).1.presence
    × IsOnceEach (values (run no_metrics inputs (poller, gateway)).1.presence)
run-IsRoster_example = run-IsRoster no_metrics inputs (poller, gateway) gateway-IsRoster

on_close-hides_other_example :
    (find_session 2 (on_close 1 gateway).sessions ≡ some bob_session)
    × (get (units_of "bob") (on_close 1 gateway).presence ≡ none)
unfolding gateway_code
on_close-hides_other_example =
    on_close-hides_other 1 2 bob_session bob_session gateway bob_alone (omega arith) refl refl refl
      refl

rob-ne-bob : units_of "rob" ≢ units_of "bob"
unfolding gateway_code
rob-ne-bob e = cc ((text_eq_iff (units_of "rob") (units_of "bob")).1 e)

on_close-leaves_ghost_example :
    get
      (units_of "bob")
      (on_close 1
        (registered world 1 no_message bob_session (UserResult.accepted rob) gateway)).presence
    ≡ some bob_presence
unfolding gateway_code
on_close-leaves_ghost_example =
    on_close-leaves_ghost world 1 no_message bob_session rob gateway bob_presence bob_alone refl
      refl rob-ne-bob refl

abbrev live : List LiveRoom
live = record { name = units_of "VAULT"; users = 3 } ∷ []

-- A poller whose connection ended within a frame of 3 bytes.
abbrev cut_off : Poller
cut_off = record poller { parser = record { buffer = 13 ∷ 0 ∷ 0 ∷ 0 ∷ 3 ∷ b'{' ∷ [] } }

abbrev no_times : ℕ → Text
no_times k = []

on_metrics_data-stale_example :
    on_metrics_data no_metrics world no_times (13 ∷ []) (reconnected cut_off) gateway ≡ (
      record (reconnected cut_off) {
        parser = record { buffer = 13 ∷ 0 ∷ 0 ∷ 0 ∷ 3 ∷ b'{' ∷ 13 ∷ [] };
      },
      gateway,
    )
on_metrics_data-stale_example =
    on_metrics_data-stale no_metrics world no_times (13 ∷ []) (b'{' ∷ []) 13 0 0 0 3 cut_off gateway
      refl (omega arith, omega arith, omega arith)
