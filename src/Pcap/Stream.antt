-- ===== src/Pcap/Stream.antt =====
-- The parser on a stream that arrives in pieces, as TCP delivers it.
use pulse_chat.Base.{
  map-append, ℕ, ◌≡◌, ap, List, [], ◌∷◌, ◌++◌, length, map, arith, append_assoc, append-nil,
}
use pulse_chat.Text.{Text}
use pulse_chat.Utf8.{Bytes}
use pulse_chat.Pcap.{DecodedFrame, PcapParser, push, waiting, parse_frame}
use pulse_chat.Pcap.Steps.{
  untimed, Runs, stop, Runs_left, Runs-append, Runs_unique, parse_loop-Runs,
}

-- What the parser holds back is no whole frame and no byte to skip.
abbrev pub IsPending : PcapParser → Type 0
IsPending p = parse_frame p.buffer ≡ waiting

-- The calls of a socket: each has its own clock.
unfoldable pub push_all : PcapParser → List ((ℕ → Text) × Bytes) → List DecodedFrame × PcapParser
push_all p [] = ([], p)
push_all p ((now, chunk) ∷ more) =
    let (frames, q) = push now p chunk in
    let (later, last) = push_all q more in (frames ++ later, last)

unfoldable pub bytes_of : List ((ℕ → Text) × Bytes) → Bytes
bytes_of [] = []
bytes_of ((now, chunk) ∷ more) = chunk ++ bytes_of more

pub push-Runs :
    (now : ℕ → Text) (p : PcapParser) (chunk : Bytes)
    → Runs (p.buffer ++ chunk) (map untimed (push now p chunk).0) (push now p chunk).1.buffer
unfolding push
push-Runs now p chunk =
    parse_loop-Runs (length (p.buffer ++ chunk)) now 0 (p.buffer ++ chunk) (omega arith)

-- Whatever arrives, the parser keeps no whole frame back.
pub push-IsPending :
    (now : ℕ → Text) (p : PcapParser) (chunk : Bytes) → IsPending (push now p chunk).1
push-IsPending now p chunk = Runs_left (push-Runs now p chunk)

pub push_all-Runs :
    (p : PcapParser) (chunks : List ((ℕ → Text) × Bytes))
    → IsPending p
    → Runs
        (p.buffer ++ bytes_of chunks)
        (map untimed (push_all p chunks).0)
        (push_all p chunks).1.buffer
unfolding push_all bytes_of
push_all-Runs p [] h = rw append-nil (stop h)
push_all-Runs p ((now, chunk) ∷ more) h =
    rw (← append_assoc, map-append)
      (Runs-append (bytes_of more) (push-Runs now p chunk)
        (push_all-Runs (push now p chunk).1 more (push-IsPending now p chunk)))

-- How a stream is cut into chunks makes no difference: fed piece by piece, a parser that holds no
-- whole frame yields the frames (their times aside) and keeps the bytes of one call with it all.
pub push_fragments :
    (now : ℕ → Text) (p : PcapParser) (chunks : List ((ℕ → Text) × Bytes))
    → IsPending p
    → (map untimed (push_all p chunks).0 ≡ map untimed (push now p (bytes_of chunks)).0)
      × ((push_all p chunks).1 ≡ (push now p (bytes_of chunks)).1)
push_fragments now p chunks h =
    let (frames, rest) =
      Runs_unique (push_all-Runs p chunks h) (push-Runs now p (bytes_of chunks)) in
    (frames, ap (λ b. record { buffer = b }) rest)
