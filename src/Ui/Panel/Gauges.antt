-- ===== src/Ui/Panel/Gauges.antt =====
-- The tabs of frontend/src/components/ObservabilityPanel.tsx and the gauges of the first. A number of
-- the metrics is the text that JSON has for it, in decimals; `toFixed` of one that may be a fraction
-- is given, since it rounds the double that stands for the number.
use pulse_chat.Base.{
  List, [], ◌∷◌, ◌++◌, Option, none, some, Bool, true, ◌&&◌, ◌||◌, ◌==◌, if◌then◌else◌, map,
}
use pulse_chat.Text.{Text, units_of, between}
use pulse_chat.Dict.{number_from}
use pulse_chat.Gateway.{RoomInfo, MetricsData, Telemetry}
use pulse_chat.Ui.Panel.{show, format_uptime, format_bytes, TelemetryRow, telemetry_rows}

pub data Tab : Type 0 where
  metrics stream : Tab

-- A click on a tab.
unfoldable pub select_tab : Tab → Tab → Tab
select_tab tab active_tab = tab

-- The digits in front of the point: `Math.floor`.
unfoldable pub whole_digits : Text → Text
whole_digits [] = []
whole_digits (c ∷ s) = let rest = whole_digits s in if between b'0' b'9' c then c ∷ rest else []

-- Whether a decimal is 0, which is falsy.
unfoldable pub is_zero : Text → Bool
is_zero [] = true
is_zero (c ∷ s) = (c == b'0' || c == b'.') && is_zero s

-- `toFixed(1)` of a number, and of its 1024th.
pub record Fixed : Type 0 where
  pub fixed_1 : Text → Text
  pub fixed_1_kilo : Text → Text

-- A room of the distribution: its name and its users.
pub record RoomGauge : Type 0 where
  pub name : Text
  pub users : Text

-- What the first tab shows. The metrics of the gateway have no counters of messages and bytes.
pub record Gauges : Type 0 where
  pub uptime : Text
  pub active_connections : Text
  pub total_connections : Text
  pub rate : Text
  pub bandwidth : Text
  pub total_ingest : Text
  pub received : Text
  pub broadcast : Text
  pub rooms : List RoomGauge

unfoldable pub room_gauge : RoomInfo → RoomGauge
room_gauge r = record { name = b'#' ∷ r.name; users = show r.users }

unfoldable pub gauges : Fixed → Option MetricsData → Gauges
unfolding room_gauge whole_digits is_zero
gauges f none = record {
  uptime = format_uptime 0;
  active_connections = units_of "0";
  total_connections = units_of "0";
  rate = units_of "0.0 msg/s";
  bandwidth = units_of "0.0 KB/s";
  total_ingest = format_bytes 0;
  received = units_of "0";
  broadcast = units_of "0";
  rooms = [];
}
gauges f (some m) = record {
  uptime = format_uptime (number_from 0 (whole_digits m.uptime_sec));
  active_connections = m.active_connections;
  total_connections = m.total_connections;
  rate = f.fixed_1 m.msgs_per_sec ++ units_of " msg/s";
  bandwidth =
      (if is_zero m.bytes_per_sec then units_of "0.0" else f.fixed_1_kilo m.bytes_per_sec)
      ++ units_of " KB/s";
  total_ingest = format_bytes 0;
  received = units_of "0";
  broadcast = units_of "0";
  rooms = map room_gauge m.rooms;
}

-- What the panel shows below the tabs.
pub data PanelContent : Type 0 where
  gauges_shown : Gauges → PanelContent
  stream_shown : List TelemetryRow → PanelContent

unfoldable pub panel_content : Fixed → Tab → Option MetricsData → List Telemetry → PanelContent
unfolding gauges
panel_content f metrics m events = gauges_shown (gauges f m)
panel_content f stream m events = stream_shown (telemetry_rows events)
