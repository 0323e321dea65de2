-- ===== src/Client/Samples.antt =====
-- A browser, a locked room and a gateway that the tests run on.
use pulse_chat.Base.{[], ◌∷◌, none, some, Bool, true, false}
use pulse_chat.Text.{Text, units_of}
use pulse_chat.Db.{World, general}
use pulse_chat.Pcap.{new_parser}
use pulse_chat.Db.{DbRoom, missing}
use pulse_chat.Gateway.{ClientSession, Gateway}
use pulse_chat.Client.{ChatMessage, UserProfile, WsStatus, state_open, idle, Client}

abbrev pub world : World
world = record {
  now = 7;
  local_time = units_of "10:00:00";
  day_time = units_of "10:00:00.000";
  random_id = units_of "7-x";
  writable = true;
}

abbrev pub later : World
later = record world { now = 8; random_id = units_of "8-y" }

abbrev pub ann : UserProfile
ann = record {
  username = units_of "Ann";
  display_name = units_of "Ann";
  email = none;
  avatar_url = none;
  provider = units_of "local";
  status = units_of "online";
  activity_text = none;
}

abbrev pub line : ChatMessage
line = record {
  id = [];
  type = 1;
  sender = units_of "bob";
  target_user = none;
  display_name = none;
  avatar_url = none;
  room = some (units_of "general");
  text = units_of "hi @ann";
  timestamp = units_of "10:00:00";
  is_system = false;
  is_private = false;
  is_error = false;
  is_mentioned = false;
  raw_hex = none;
}

abbrev pub home : Client
home = record {
  ws_url = units_of "ws://localhost:3001";
  ws_status = WsStatus.connected;
  tcp_status = units_of "connected";
  profile = some ann;
  is_registered = true;
  current_room = units_of "systems";
  active_dm_user = none;
  messages = line ∷ [];
  rooms = [];
  users = [];
  metrics = none;
  telemetry_events = [];
  registration_error = none;
  toast = none;
  mention_count = 0;
  socket = some state_open;
  reconnect_timer = idle;
  storage = [];
  effects = [];
}

abbrev pub any_url : Text → Bool
any_url url = true

abbrev pub vault : DbRoom
vault = record {
  name = units_of "systems";
  is_protected = true;
  password = some (units_of "s3");
  created_by = none;
  created_at = 1;
}

abbrev pub ann_session : ClientSession
ann_session = record {
  is_open = true;
  is_destroyed = false;
  parser = new_parser;
  username = units_of "ann";
  display_name = units_of "Ann";
  avatar_url = none;
  status = units_of "online";
  activity_text = [];
  current_room = general;
  is_registered = true;
}

abbrev pub gateway : Gateway
gateway = record {
  sessions = (1, ann_session) ∷ [];
  presence = [];
  db = record {
    data_now = record { users = []; rooms = (units_of "systems", vault) ∷ []; messages = [] };
    file = missing;
  };
  metrics = none;
  outbox = [];
}
