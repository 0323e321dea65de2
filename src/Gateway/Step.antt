-- ===== src/Gateway/Step.antt =====
-- The gateway as a whole: its events, in any order.
use pulse_chat.Base.{ℕ, List, [], ◌∷◌, Option}
use pulse_chat.Text.{Text}
use pulse_chat.Utf8.{Bytes}
use pulse_chat.Db.{World}
use pulse_chat.Gateway.{Gateway}
use pulse_chat.Gateway.Actions.{ClientMessage, on_message}
use pulse_chat.Gateway.Sockets.{
  on_connection, on_tcp_connected, on_tcp_error, on_tcp_close, on_tcp_data, on_close,
}
use pulse_chat.Gateway.Metrics.{
  RawMetrics, Poller, init_metrics_poller, on_metrics_connected, on_metrics_error, on_metrics_close,
  on_poll, on_metrics_data,
}

-- What the event loop hands to a handler; the numbers are sockets.
pub data Input : Type 0 where
  connection close tcp_connected tcp_error tcp_close : ℕ → Input
  tcp_data : (ℕ → Text) → ℕ → Bytes → Input
  message : ℕ → Option ClientMessage → Input
  metrics_start metrics_connected metrics_error metrics_close poll : Input
  metrics_data : (ℕ → Text) → Bytes → Input

abbrev pub State : Type 0
State = Poller × Gateway

module _ (parse : Text → Option RawMetrics) where
  unfoldable pub step : World → Input → State → State
  step w (connection id) (p, g) = (p, on_connection w id g)
  step w (close id) (p, g) = (p, on_close id g)
  step w (tcp_connected id) (p, g) = (p, on_tcp_connected id g)
  step w (tcp_error id) (p, g) = (p, on_tcp_error id g)
  step w (tcp_close id) (p, g) = (p, on_tcp_close id g)
  step w (tcp_data times id chunk) (p, g) = (p, on_tcp_data times id chunk g)
  step w (message id msg) (p, g) = (p, on_message w id msg g)
  step w metrics_start (p, g) = (init_metrics_poller p, g)
  step w metrics_connected (p, g) = (on_metrics_connected p, g)
  step w metrics_error (p, g) = (on_metrics_error p, g)
  step w metrics_close (p, g) = (on_metrics_close p, g)
  step w poll (p, g) = (on_poll p, g)
  step w (metrics_data times chunk) (p, g) = on_metrics_data parse w times chunk p g

  unfoldable pub run : List (World × Input) → State → State
  run [] s = s
  run ((w, input) ∷ more) s = run more (step w input s)
