-- ===== src/Server/Wire.antt =====
-- src/core/protocol.cpp and include/pulsechat/protocol.hpp: the bytes of a message. A `std::string` is
-- its bytes.
use pulse_chat.Base.{ℕ, [], ◌∷◌, ◌++◌, Option, none, some, ltb, ◌==◌, length, if◌then◌else◌}
use pulse_chat.Utf8.{Bytes}
use pulse_chat.Pcap.{u32_bytes, read_u32}
use pulse_chat.Pcap.Codes.{MessageType, opcode, of_opcode}

pub record Message : Type 0 where
  pub type : MessageType
  pub payload : Bytes

-- `MAX_PAYLOAD_SIZE`
abbrev pub max_payload_size : ℕ
max_payload_size = 65536

-- `encode_header`; the length is cut to 32 bits, which its four bytes do.
unfoldable pub encode_header : MessageType → ℕ → Bytes
encode_header type payload_len = opcode type ∷ u32_bytes payload_len

-- `serialize`
unfoldable pub serialize : Message → Bytes
unfolding encode_header
serialize msg = encode_header msg.type (length msg.payload) ++ msg.payload

-- `decode_header`, for the five bytes.
unfoldable pub decode_header : (t a b c d : ℕ) → Option (MessageType × ℕ)
unfolding of_opcode
decode_header t a b c d = elim (of_opcode t) [
  | none ↦ none
  | some type ↦
      if ltb max_payload_size (read_u32 a b c d) then none else some (type, read_u32 a b c d)
]

-- The texts in front of the first colon and behind it.
unfoldable pub split_colon : Bytes → Option (Bytes × Bytes)
split_colon [] = none
split_colon (c ∷ s) =
    let later = split_colon s in
    if c == b':'
    then some ([], s)
    else elim later [ none ↦ none | some (before, behind) ↦ some (c ∷ before, behind) ]

-- `parse_private_message`: a payload with no colon, or one in front, is none.
unfoldable pub parse_private_message : Bytes → Option (Bytes × Bytes)
unfolding split_colon
parse_private_message payload = elim (split_colon payload) [
  | none ↦ none
  | some ([], text) ↦ none
  | some (c ∷ target, text) ↦ some (c ∷ target, text)
]
