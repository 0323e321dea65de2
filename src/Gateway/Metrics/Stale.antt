-- ===== src/Gateway/Metrics/Stale.antt =====
-- The parser of the metrics (gateway/src/server.ts) over two connections.
use pulse_chat.Base.{◌≡◌, refl, ℕ, ◌<◌, ◌≤◌, [], ◌∷◌, ◌++◌, Option, arith, length}
use pulse_chat.Text.{Text}
use pulse_chat.Utf8.{Bytes}
use pulse_chat.Pcap.{PcapParser, push, parse_loop, parse_frame, read_u32}
use pulse_chat.Db.{World}
use pulse_chat.Gateway.{Gateway}
use pulse_chat.Gateway.Metrics.{
  Poller, RawMetrics, init_metrics_poller, on_metrics_connected, on_metrics_close, on_metrics_data,
  on_metrics_frames,
}

-- The poller once its connection has ended and the next one stands.
abbrev pub reconnected : Poller → Poller
reconnected p = on_metrics_connected (init_metrics_poller (on_metrics_close p))

reconnected-parser : (p : Poller) → (reconnected p).parser ≡ p.parser
unfolding on_metrics_connected init_metrics_poller on_metrics_close
reconnected-parser p = refl

-- A header, and fewer bytes behind it than it counts.
abbrev pub IsPart : ℕ → ℕ → ℕ → ℕ → ℕ → Bytes → Type 0
IsPart t a b c d rest = (1 ≤ t) × (t ≤ 14) × (length rest < read_u32 a b c d)

push-IsPart :
    (times : ℕ → Text) (parser : PcapParser) (chunk rest : Bytes) (t a b c d : ℕ)
    → parser.buffer ≡ t ∷ a ∷ b ∷ c ∷ d ∷ rest
    → IsPart t a b c d (rest ++ chunk)
    → push times parser chunk ≡ ([], record { buffer = parser.buffer ++ chunk })
unfolding push parse_loop parse_frame
push-IsPart times parser chunk rest t a b c d e (lo, hi, short) =
    rw e (ground (arith, lo, hi, short))

module _ (parse : Text → Option RawMetrics) where
  -- When a connection for metrics ends within a frame, and the next one stands, then bytes that come
  -- are taken for the rest of that frame, as long as they are fewer than it lacks: whatever they
  -- are, no metrics are shown and nothing is sent, and the parser keeps them behind the old ones.
  pub on_metrics_data-stale :
      (w : World) (times : ℕ → Text) (chunk rest : Bytes) (t a b c d : ℕ) (p : Poller) (g : Gateway)
      → p.parser.buffer ≡ t ∷ a ∷ b ∷ c ∷ d ∷ rest
      → IsPart t a b c d (rest ++ chunk)
      → on_metrics_data parse w times chunk (reconnected p) g
        ≡ (record (reconnected p) { parser = record { buffer = p.parser.buffer ++ chunk } }, g)
  unfolding on_metrics_data on_metrics_frames on_metrics_connected init_metrics_poller
      on_metrics_close
  on_metrics_data-stale w times chunk rest t a b c d p g e part =
      rw (push-IsPart times p.parser chunk rest t a b c d e part) refl
