-- ===== src/Pcap.antt =====
-- gateway/src/pcap.ts: the binary frames, their encoder and the streaming parser.
-- `parse_frame` is one round of the loop of `PCAPParser.push`; the clock enters as the time texts
-- that the rounds read, one for each frame of a call.
pub mod Codes
pub mod Steps
pub mod Stream
pub mod RoundTrip
pub mod Total
mod Tests
use pulse_chat.Base.{
  ◌-◌, ℕ, zero, suc, ◌+◌, ◌*◌, ◌/◌, ◌%◌, List, [], ◌∷◌, ◌++◌, Bool, ◌||◌, ltb, ◌==◌, length, take,
  drop, if◌then◌else◌, min,
}
use pulse_chat.Text.{Text, units_of}
use pulse_chat.Utf8.{Bytes, encode, decode}
use Codes.{MessageType, opcode, type_name}

abbrev pub header_size : ℕ
header_size = 5

-- The four bytes of `writeUInt32BE`. A string has fewer than 2^30 units, so the length fits.
unfoldable pub u32_bytes : ℕ → Bytes
u32_bytes n = (n / 16777216 % 256) ∷ (n / 65536 % 256) ∷ (n / 256 % 256) ∷ (n % 256) ∷ []

-- `readUInt32BE`
abbrev pub read_u32 : ℕ → ℕ → ℕ → ℕ → ℕ
read_u32 a b c d = a * 16777216 + b * 65536 + c * 256 + d

-- `encodeFrame`
unfoldable pub encode_frame : MessageType → Text → Bytes
unfolding u32_bytes
encode_frame type payload =
    let payload_buf = encode payload in
    (opcode type ∷ u32_bytes (length payload_buf)) ++ payload_buf

-- `DecodedFrame`
pub record DecodedFrame : Type 0 where
  pub type : ℕ
  pub type_name : Text
  pub length : ℕ
  pub payload : Text
  pub raw_hex : Text
  pub timestamp : Text

unfoldable pub hex_digit : ℕ → ℕ → ℕ
hex_digit letter d = if ltb d 10 then b'0' + d else letter + (d - 10)

-- `toString('hex').toUpperCase()`
unfoldable pub to_hex : Bytes → Text
unfolding hex_digit
to_hex [] = []
to_hex (b ∷ bs) = hex_digit b'A' (b / 16) ∷ hex_digit b'A' (b % 16) ∷ to_hex bs

-- The frame that a round pushes.
unfoldable pub decoded_frame : Text → ℕ → ℕ → Bytes → Bytes → DecodedFrame
unfolding to_hex
decoded_frame time type_val payload_len raw payload_buf = record {
  type = type_val;
  type_name = type_name type_val;
  length = payload_len;
  payload = decode payload_buf;
  raw_hex = to_hex (take 32 raw);
  timestamp = time;
}

-- What a round does: it leaves the loop, drops a byte, or cuts a frame off.
pub data Round : Type 0 where
  waiting : Round
  resync : Bytes → Round
  cut : (type_val payload_len : ℕ) (raw payload_buf rest : Bytes) → Round

-- The first pattern is the test `buffer.length >= HEADER_SIZE`.
unfoldable pub parse_frame : Bytes → Round
parse_frame (t ∷ a ∷ b ∷ c ∷ d ∷ rest) =
    let payload_len = read_u32 a b c d in
    if ltb t 0x01 || ltb 0x0E t
    then resync (a ∷ b ∷ c ∷ d ∷ rest)
    else if ltb (header_size + length rest) (header_size + payload_len)
    then waiting
    else cut t payload_len (t ∷ a ∷ b ∷ c ∷ d ∷ take payload_len rest) (take payload_len rest)
        (drop payload_len rest)
parse_frame _ = waiting

abbrev pub cons_frame : DecodedFrame → List DecodedFrame × Bytes → List DecodedFrame × Bytes
cons_frame frame (frames, rest) = (frame ∷ frames, rest)

-- The rest of the loop behind a round, for the loop `go` that runs on; `k` counts the frames.
abbrev pub after_round :
    (ℕ → Bytes → List DecodedFrame × Bytes)
    → (ℕ → Text)
    → ℕ
    → Bytes
    → Round
    → List DecodedFrame × Bytes
after_round go now k buffer waiting = ([], buffer)
after_round go now k buffer (resync rest) = go k rest
after_round go now k buffer (cut t n raw payload_buf rest) =
    cons_frame (decoded_frame (now k) t n raw payload_buf) (go (suc k) rest)

-- The loop. Each round but the last takes a byte off, so the buffer's length is fuel enough.
unfoldable pub parse_loop : ℕ → (ℕ → Text) → ℕ → Bytes → List DecodedFrame × Bytes
parse_loop zero now k buffer = ([], buffer)
parse_loop (suc fuel) now k buffer =
    after_round (parse_loop fuel now) now k buffer (parse_frame buffer)

-- `PCAPParser`
pub record PcapParser : Type 0 where
  pub buffer : Bytes

abbrev pub new_parser : PcapParser
new_parser = record { buffer = [] }

-- `push`
unfoldable pub push : (ℕ → Text) → PcapParser → Bytes → List DecodedFrame × PcapParser
unfolding parse_loop parse_frame decoded_frame
push now p chunk =
    let buffer = p.buffer ++ chunk in
    let (frames, rest) = parse_loop (length buffer) now 0 buffer in
    (frames, record { buffer = rest })

-- `clear`
unfoldable pub clear : PcapParser → PcapParser
clear p = record { buffer = [] }
