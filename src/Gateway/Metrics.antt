-- ===== src/Gateway/Metrics.antt =====
-- The metrics poller of gateway/src/server.ts: the admin connection to the chat server. `parse` is
-- `JSON.parse` on the payload of a frame; `none` is that it throws. A number stands as its text.
pub mod Stale
use pulse_chat.Base.{
  ℕ, List, [], ◌∷◌, ◌++◌, Option, none, some, Bool, true, false, not, ◌&&◌, ◌==◌, if◌then◌else◌,
}
use pulse_chat.Text.{Text, units_of}
use pulse_chat.Utf8.{Bytes}
use pulse_chat.Pcap.Codes.{MessageType, opcode}
use pulse_chat.Pcap.{DecodedFrame, PcapParser, push, encode_frame}
use pulse_chat.Db.{World}
use pulse_chat.Gateway.{MetricsData, system_metrics, Gateway, broadcast_to_all}
use pulse_chat.Gateway.Rooms.{LiveRoom, get_enriched_rooms}

-- What the JSON of a metrics frame may hold.
pub record RawMetrics : Type 0 where
  pub uptime_sec : Option Text
  pub active_connections : Option Text
  pub total_connections : Option Text
  pub msgs_per_sec : Option Text
  pub bytes_per_sec : Option Text
  pub rooms : Option (List LiveRoom)

-- `x || 0`
abbrev pub or_zero : Option Text → Text
or_zero none = units_of "0"
or_zero (some n) = n

abbrev pub or_no_rooms : Option (List LiveRoom) → List LiveRoom
or_no_rooms none = []
or_no_rooms (some rooms) = rooms

-- The module's variables of the poller; `bytes_written` is what it has sent. `is_destroyed` speaks
-- of the socket that the variable holds.
pub record Poller : Type 0 where
  pub has_socket : Bool
  pub is_destroyed : Bool
  pub metrics_connected : Bool
  pub parser : PcapParser
  pub bytes_written : Bytes

abbrev pub request : Poller → Poller
request p = record p { bytes_written = p.bytes_written ++ encode_frame MessageType.get_metrics [] }

-- `initMetricsPoller`: an old socket is destroyed, and a new one connects.
unfoldable pub init_metrics_poller : Poller → Poller
init_metrics_poller p = record p { has_socket = true; is_destroyed = false }

-- The callback of `connect`.
unfoldable pub on_metrics_connected : Poller → Poller
on_metrics_connected p = request (record p { metrics_connected = true })

-- `error`
unfoldable pub on_metrics_error : Poller → Poller
on_metrics_error p = record p { metrics_connected = false }

-- `close`; the socket is destroyed by then, and the timer calls `initMetricsPoller` later.
unfoldable pub on_metrics_close : Poller → Poller
on_metrics_close p = record p { metrics_connected = false; is_destroyed = true }

-- The timer of the polls.
unfoldable pub on_poll : Poller → Poller
on_poll p = if p.has_socket && p.metrics_connected && not p.is_destroyed then request p else p

-- The data that are shown.
unfoldable pub metrics_of : RawMetrics → Gateway → MetricsData
metrics_of raw g = record {
  uptime_sec = or_zero raw.uptime_sec;
  active_connections = or_zero raw.active_connections;
  total_connections = or_zero raw.total_connections;
  msgs_per_sec = or_zero raw.msgs_per_sec;
  bytes_per_sec = or_zero raw.bytes_per_sec;
  rooms = get_enriched_rooms (or_no_rooms raw.rooms) g.db;
}

abbrev show_metrics : World → MetricsData → Gateway → Gateway
show_metrics w m g =
    broadcast_to_all (system_metrics m w.local_time) (record g { metrics = some m })

module _ (parse : Text → Option RawMetrics) where
  -- The body of the loop over the frames.
  unfoldable pub on_metrics_frame : World → DecodedFrame → Gateway → Gateway
  on_metrics_frame w frame g =
      if frame.type == opcode MessageType.metrics_update
      then elim (parse frame.payload) [ none ↦ g | some raw ↦ show_metrics w (metrics_of raw g) g ]
      else g

  unfoldable pub on_metrics_frames : World → List DecodedFrame → Gateway → Gateway
  on_metrics_frames w [] g = g
  on_metrics_frames w (frame ∷ frames) g = on_metrics_frames w frames (on_metrics_frame w frame g)

  -- `data`
  unfoldable pub on_metrics_data : World → (ℕ → Text) → Bytes → Poller → Gateway → Poller × Gateway
  on_metrics_data w times chunk p g =
      let (frames, parser) = push times p.parser chunk in
      (record p { parser = parser }, on_metrics_frames w frames g)
