-- ===== src/Ui/Panel.antt =====
-- frontend/src/components/ObservabilityPanel.tsx: the numbers and the telemetry as they are shown.
-- The numbers are whole; those of bytes are below 2^53, where the quotients by 1024 are exact.
pub mod Numbers
pub mod Gauges
use pulse_chat.Base.{
  ℕ, zero, suc, ◌+◌, ◌-◌, ◌*◌, ◌/◌, ◌%◌, List, [], ◌∷◌, ◌++◌, Option, none, some, Bool, true, false,
  ltb, ◌==◌, if◌then◌else◌, map,
}
use pulse_chat.Text.{Text, units_of, is_empty, text_eq}
use pulse_chat.Pcap.{hex_digit}
use pulse_chat.Gateway.{Telemetry, Direction, inbound, outbound}
use pulse_chat.Ui.{truthy}

-- The digits of a number, with fuel for as many as it can have.
unfoldable pub digits_from : ℕ → ℕ → ℕ → Text → Text
unfolding hex_digit
digits_from base zero n behind = behind
digits_from base (suc fuel) n behind =
    let text = hex_digit b'A' (n % base) ∷ behind in
    let longer = digits_from base fuel (n / base) text in if ltb n base then text else longer

-- A number in a template.
unfoldable pub show : ℕ → Text
unfolding digits_from
show n = digits_from 10 (suc n) n []

-- `formatUptime`
unfoldable pub format_uptime : ℕ → Text
unfolding show
format_uptime secs =
    let h = secs / 3600 in
    let m = secs % 3600 / 60 in
    let s = secs % 60 in
    (if ltb 0 h then show h ++ units_of "h " else [])
    ++ (show m ++ (units_of "m " ++ (show s ++ units_of "s")))

-- `toFixed` of a / b, with one digit or two: the nearest, and the larger of two.
unfoldable pub rounded : ℕ → ℕ → ℕ → ℕ
rounded a b scale = (2 * (a * scale) + b) / (2 * b)

unfoldable pub to_fixed_1 : ℕ → ℕ → Text
unfolding rounded show
to_fixed_1 a b = let n = rounded a b 10 in show (n / 10) ++ (b'.' ∷ show (n % 10))

unfoldable pub to_fixed_2 : ℕ → ℕ → Text
unfolding rounded show
to_fixed_2 a b =
    let n = rounded a b 100 in show (n / 100) ++ (b'.' ∷ show (n % 100 / 10) ++ show (n % 10))

-- `formatBytes`
unfoldable pub format_bytes : ℕ → Text
unfolding to_fixed_1 to_fixed_2
format_bytes bytes =
    if ltb bytes 1024
    then show bytes ++ units_of " B"
    else if ltb bytes 1048576
    then to_fixed_1 bytes 1024 ++ units_of " KB"
    else to_fixed_2 bytes 1048576 ++ units_of " MB"

-- The bandwidth.
unfoldable pub bandwidth : ℕ → Text
unfolding to_fixed_1
bandwidth bytes_per_sec =
    if bytes_per_sec == 0
    then units_of "0.0 KB/s"
    else to_fixed_1 bytes_per_sec 1024 ++ units_of " KB/s"

-- A row of the telemetry.
pub record TelemetryRow : Type 0 where
  pub is_inbound : Bool
  pub direction : Text
  pub timestamp : Text
  pub title : Text
  pub size : Text
  pub payload : Option Text
  pub raw_hex : Option Text

abbrev is_inbound_direction : Direction → Bool
is_inbound_direction inbound = true
is_inbound_direction outbound = false

unfoldable pub telemetry_row : Telemetry → TelemetryRow
unfolding digits_from show
telemetry_row ev =
    let is_in = is_inbound_direction ev.direction in
    record {
      is_inbound = is_in;
      direction = if is_in then units_of "INBOUND" else units_of "OUTBOUND";
      timestamp = ev.timestamp;
      title = units_of "0x0" ++ (digits_from 16 (suc ev.type) ev.type [] ++ (0x20 ∷ ev.type_name));
      size = show ev.length ++ units_of " bytes";
      payload = truthy (some ev.payload);
      raw_hex = truthy (some ev.raw_hex);
    }

-- The list of the telemetry, the latest first.
unfoldable pub telemetry_rows : List Telemetry → List TelemetryRow
unfolding telemetry_row
telemetry_rows events = map telemetry_row events

-- The state of the server.
unfoldable pub epoll_text : Text → Text
epoll_text tcp_status =
    if text_eq tcp_status (units_of "connected") then units_of "LIVE" else units_of "DOWN"
