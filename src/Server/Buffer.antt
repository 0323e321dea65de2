-- ===== src/Server/Buffer.antt =====
-- src/core/buffer.cpp: the bytes of a connection, between two positions of a vector that grows.
pub mod Refinement
pub mod Frames
use pulse_chat.Base.{
  ℕ, zero, suc, ◌+◌, ◌-◌, ◌*◌, ◌/◌, List, [], ◌∷◌, ◌++◌, Option, none, some, Bool, ◌&&◌, ◌||◌, ltb,
  leb, ◌==◌, length, take, drop, max, if◌then◌else◌,
}
use pulse_chat.Utf8.{Bytes}
use pulse_chat.Pcap.{header_size}
use pulse_chat.Server.Wire.{Message, decode_header}

pub record ByteBuffer : Type 0 where
  pub buffer : Bytes
  pub read_pos : ℕ
  pub write_pos : ℕ

abbrev zeros : ℕ → Bytes
zeros zero = []
zeros (suc n) = 0 ∷ zeros n

-- The constructor.
unfoldable pub new_buffer : ℕ → ByteBuffer
new_buffer initial_capacity = record {
  buffer = zeros (max initial_capacity 1024);
  read_pos = 0;
  write_pos = 0;
}

unfoldable pub readable_bytes : ByteBuffer → ℕ
readable_bytes b = b.write_pos - b.read_pos

-- The bytes from `read_ptr` on.
unfoldable pub readable : ByteBuffer → Bytes
unfolding readable_bytes
readable b = take (readable_bytes b) (drop b.read_pos b.buffer)

unfoldable pub clear : ByteBuffer → ByteBuffer
clear b = record b { read_pos = 0; write_pos = 0 }

unfoldable pub consume : ℕ → ByteBuffer → ByteBuffer
unfolding readable_bytes clear
consume len b =
    if leb (readable_bytes b) len then clear b else record b { read_pos = b.read_pos + len }

-- `memcpy` and `memmove` to a position of the vector.
abbrev pub copy_to : ℕ → Bytes → Bytes → Bytes
copy_to pos bytes buffer = take pos buffer ++ (bytes ++ drop (pos + length bytes) buffer)

unfoldable pub compact_if_needed : ByteBuffer → ByteBuffer
unfolding readable
compact_if_needed b =
    if ltb 0 b.read_pos && (leb (length b.buffer / 2) b.read_pos || ltb 4096 b.read_pos)
    then record b {
      buffer = copy_to 0 (readable b) b.buffer;
      read_pos = 0;
      write_pos = readable_bytes b;
    }
    else b

-- `resize`, to at least the size that is there.
abbrev pub resize : ℕ → Bytes → Bytes
resize size buffer = buffer ++ zeros (size - length buffer)

abbrev pub grow_for : ℕ → ByteBuffer → ByteBuffer
grow_for len b =
    if ltb (length b.buffer) (b.write_pos + len)
    then record b { buffer = resize (max (length b.buffer * 2) (b.write_pos + len)) b.buffer }
    else b

abbrev pub write_bytes : Bytes → ByteBuffer → ByteBuffer
write_bytes bytes b = record b {
  buffer = copy_to b.write_pos bytes b.buffer;
  write_pos = b.write_pos + length bytes;
}

unfoldable pub append : Bytes → ByteBuffer → ByteBuffer
unfolding compact_if_needed
append [] b = b
append (c ∷ bytes) b = write_bytes (c ∷ bytes) (grow_for (length (c ∷ bytes)) (compact_if_needed b))

-- What `extract_message` answers: no whole frame yet, `out_corrupted`, or a message.
pub data Extracted : Type 0 where
  need_more corrupted : Extracted
  extracted : Message → Extracted

-- The rest of it, for the readable bytes.
unfoldable pub extract_from : Bytes → ByteBuffer → Extracted × ByteBuffer
unfolding readable_bytes consume
extract_from (t ∷ a ∷ b ∷ c ∷ d ∷ rest) buf = elim (decode_header t a b c d) [
  | none ↦ (corrupted, buf)
  | some (type, payload_len) ↦
      if ltb (readable_bytes buf) (header_size + payload_len) then (need_more, buf) else (
        extracted (record { type = type; payload = take payload_len rest }),
        consume (header_size + payload_len) buf,
      )
]
extract_from _ buf = (need_more, buf)

unfoldable pub extract_message : ByteBuffer → Extracted × ByteBuffer
unfolding extract_from
extract_message b = extract_from (readable b) b
