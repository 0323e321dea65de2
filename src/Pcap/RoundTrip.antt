-- ===== src/Pcap/RoundTrip.antt =====
-- What the encoder writes, the parser reads.
use pulse_chat.Base.{
  length-take, ℕ, zero, suc, ◌+◌, ◌/◌, ◌%◌, ◌≤◌, ◌<◌, ◌≡◌, refl, ap, ◌∙◌, ◌⊎◌, List, [], ◌∷◌, ◌++◌,
  length, map, take, All, arith, append_assoc, append-nil, take-length-append, drop-length-append,
  length-append,
}
use pulse_chat.Text.{Text}
use pulse_chat.Utf8.{Bytes, encode}
use pulse_chat.Utf8.RoundTrip.{IsWellFormed, decode-encode}
use pulse_chat.Pcap.Codes.{MessageType, opcode, opcode_bounds, type_name, message_type_name}
use pulse_chat.Pcap.{
  read_u32, DecodedFrame, new_parser, push, waiting, resync, cut, parse_frame, encode_frame,
  u32_bytes, to_hex, decoded_frame, header_size,
}
use pulse_chat.Pcap.Steps.{
  Runs_of_eq, untimed, Runs, stop, skip, emit, Runs_unique, parse_frame_short,
}
use pulse_chat.Pcap.Stream.{push-Runs, push_all, push_all-Runs, bytes_of}

abbrev pub Message : Type 0
Message = MessageType × Text

-- A message that the encoder sends unchanged: well-formed text, and a length of 32 bits.
pub record IsSendable (m : Message) : Type 0 where
  pub well_formed : IsWellFormed m.1
  pub fits : length (encode m.1) < 4294967296

-- The frame that a receiver gets for a message, its time aside.
unfoldable pub frame_of : Message → DecodedFrame
frame_of (type, text) = record {
  type = opcode type;
  type_name = message_type_name type;
  length = length (encode text);
  payload = text;
  raw_hex = to_hex (take 32 (encode_frame type text));
  timestamp = [];
}

unfoldable pub wire : List Message → Bytes
wire [] = []
wire ((type, text) ∷ ms) = encode_frame type text ++ wire ms

-- A byte that is no opcode.
abbrev pub IsNoise : ℕ → Type 0
IsNoise b = (b ≡ 0) ⊎ (15 ≤ b)

type_name-opcode : (t : MessageType) → type_name (opcode t) ≡ message_type_name t
unfolding type_name
type_name-opcode MessageType.chat_message = refl
type_name-opcode _ = refl

pub read_u32-u32_bytes :
    (n : ℕ)
    → n < 4294967296
    → read_u32 (n / 16777216 % 256) (n / 65536 % 256) (n / 256 % 256) (n % 256) ≡ n
read_u32-u32_bytes n h = omega arith

parse_frame_whole :
    (t : ℕ) (payload rest : Bytes)
    → 1 ≤ t
    → t ≤ 14
    → length payload < 4294967296
    → parse_frame ((t ∷ u32_bytes (length payload)) ++ (payload ++ rest))
      ≡ cut t (length payload) ((t ∷ u32_bytes (length payload)) ++ payload) payload rest
unfolding parse_frame u32_bytes
parse_frame_whole t payload rest lo hi h = rw (read_u32-u32_bytes (length payload) h) (
    ground (
      arith,
      length-append payload rest,
      take-length-append payload rest,
      drop-length-append payload rest,
    ))

parse_frame-encode_frame :
    (t : MessageType) (text : Text) (rest : Bytes)
    → length (encode text) < 4294967296
    → parse_frame (encode_frame t text ++ rest)
      ≡ cut (opcode t) (length (encode text)) (encode_frame t text) (encode text) rest
unfolding encode_frame
parse_frame-encode_frame t text rest h =
    let (lo, hi) = opcode_bounds t in parse_frame_whole (opcode t) (encode text) rest lo hi h

decoded_frame-frame_of :
    (t : MessageType) (text : Text)
    → IsWellFormed text
    → decoded_frame [] (opcode t) (length (encode text)) (encode_frame t text) (encode text)
      ≡ frame_of (t, text)
unfolding decoded_frame frame_of
decoded_frame-frame_of t text h = rw (type_name-opcode t, decode-encode text h)

wire-Runs :
    (ms : List Message) {more left : Bytes} {frames : List DecodedFrame}
    → All IsSendable ms
    → Runs more frames left
    → Runs (wire ms ++ more) (map frame_of ms ++ frames) left
unfolding wire
wire-Runs [] h r = r
wire-Runs ((t, text) ∷ ms) {more} {left} {frames} (p, h) r =
    rw (append_assoc, ← decoded_frame-frame_of t text p.well_formed)
      (emit (parse_frame-encode_frame t text (wire ms ++ more) p.fits) (wire-Runs ms h r))

parse_frame_noise :
    (b : ℕ) (rest : Bytes)
    → IsNoise b
    → header_size ≤ suc (length rest)
    → parse_frame (b ∷ rest) ≡ resync rest
unfolding parse_frame
parse_frame_noise b (x ∷ y ∷ z ∷ w ∷ rest) h l = ground arith
parse_frame_noise b _ h l = absurd (omega arith)

noise-Runs :
    (noise : Bytes) {more left : Bytes} {frames : List DecodedFrame}
    → All IsNoise noise
    → header_size ≤ length more
    → Runs more frames left
    → Runs (noise ++ more) frames left
noise-Runs [] h l r = r
noise-Runs (b ∷ noise) {more} (p, h) l r =
    skip (parse_frame_noise b (noise ++ more) p (omega (arith, length-append noise more)))
      (noise-Runs noise h l r)

parse_frame_part :
    (t : ℕ) (payload : Bytes) (k : ℕ)
    → length payload < 4294967296
    → 1 ≤ t
    → t ≤ 14
    → k < header_size + length payload
    → parse_frame (take k ((t ∷ u32_bytes (length payload)) ++ payload)) ≡ waiting
unfolding parse_frame u32_bytes
parse_frame_part t payload zero h lo hi l = refl
parse_frame_part t payload (suc zero) h lo hi l = refl
parse_frame_part t payload (suc (suc zero)) h lo hi l = refl
parse_frame_part t payload (suc (suc (suc zero))) h lo hi l = refl
parse_frame_part t payload (suc (suc (suc (suc zero)))) h lo hi l = refl
parse_frame_part t payload (suc (suc (suc (suc (suc k))))) h lo hi l =
    rw (read_u32-u32_bytes (length payload) h) (ground (arith, length-take k payload))

-- The first `k` bytes of a message's frame.
abbrev pub part_of : ℕ → Message → Bytes
part_of k (type, text) = take k (encode_frame type text)

part_of-waiting :
    (k : ℕ) (m : Message)
    → IsSendable m
    → k < header_size + length (encode m.1)
    → parse_frame (part_of k m) ≡ waiting
unfolding encode_frame
part_of-waiting k (t, text) s l =
    let (lo, hi) = opcode_bounds t in parse_frame_part (opcode t) (encode text) k s.fits lo hi l

-- A stream that is the frames of messages and the first bytes of one more, in whatever chunks:
-- the parser yields the messages' frames, each once and in order, and keeps those bytes.
pub push_all-wire :
    (ms : List Message) (m : Message) (k : ℕ) (chunks : List ((ℕ → Text) × Bytes))
    → All IsSendable ms
    → IsSendable m
    → k < header_size + length (encode m.1)
    → bytes_of chunks ≡ wire ms ++ part_of k m
    → (map untimed (push_all new_parser chunks).0 ≡ map frame_of ms)
      × ((push_all new_parser chunks).1.buffer ≡ part_of k m)
push_all-wire ms m k chunks h s l split =
    let runs = push_all-Runs new_parser chunks (parse_frame_short [] (omega arith)) in
    let expected = wire-Runs ms h (stop (part_of-waiting k m s l)) in
    let (frames, left) = Runs_unique (Runs_of_eq split runs) expected in
    (frames ∙ append-nil (map frame_of ms), left)

wire-long : (m : Message) (ms : List Message) → header_size ≤ length (wire (m ∷ ms))
unfolding wire encode_frame u32_bytes
wire-long (t, text) ms = omega arith

-- Bytes that are no opcode in front of a frame are dropped, and the frames are read.
pub push-noise :
    (noise : Bytes) (m : Message) (ms : List Message) (now : ℕ → Text)
    → All IsNoise noise
    → All IsSendable (m ∷ ms)
    → (map untimed (push now new_parser (noise ++ wire (m ∷ ms))).0 ≡ map frame_of (m ∷ ms))
      × ((push now new_parser (noise ++ wire (m ∷ ms))).1 ≡ new_parser)
push-noise noise m ms now h k =
    let clean = wire-Runs (m ∷ ms) k (stop (parse_frame_short [] (omega arith))) in
    let expected =
      noise-Runs noise h (omega (arith, wire-long m ms))
        (Runs_of_eq (append-nil (wire (m ∷ ms))) clean) in
    let (frames, left) = Runs_unique (push-Runs now new_parser (noise ++ wire (m ∷ ms))) expected in
    (frames ∙ append-nil (map frame_of (m ∷ ms)), ap (λ b. record { buffer = b }) left)
