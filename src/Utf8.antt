-- ===== src/Utf8.antt =====
-- UTF-8 as `Buffer.from(s, 'utf8')` and `buf.toString('utf8')` of gateway/src/pcap.ts perform it:
-- a surrogate with no partner is sent as U+FFFD, and the decoder is the one of the Encoding
-- standard, which answers each ill-formed sequence with U+FFFD.
pub mod RoundTrip
use pulse_chat.Base.{
  ℕ, zero, suc, ◌+◌, ◌-◌, ◌*◌, ◌/◌, ◌%◌, List, [], ◌∷◌, ◌++◌, Bool, ◌&&◌, ltb, ◌==◌, if◌then◌else◌,
}
use pulse_chat.Text.{Text, between}

abbrev pub Bytes : Type 0
Bytes = List ℕ

abbrev pub is_high : ℕ → Bool
is_high u = between 0xD800 0xDBFF u

abbrev pub is_low : ℕ → Bool
is_low u = between 0xDC00 0xDFFF u

abbrev pub replacement : ℕ
replacement = 0xFFFD

-- The bytes of a code point.
unfoldable pub encode_point : ℕ → Bytes
encode_point c =
    if ltb c 0x80
    then c ∷ []
    else if ltb c 0x800
    then (0xC0 + c / 64) ∷ (0x80 + c % 64) ∷ []
    else if ltb c 0x10000
    then (0xE0 + c / 4096) ∷ (0x80 + c / 64 % 64) ∷ (0x80 + c % 64) ∷ []
    else (0xF0 + c / 262144) ∷ (0x80 + c / 4096 % 64) ∷ (0x80 + c / 64 % 64) ∷ (0x80 + c % 64) ∷ []

-- A unit that is no part of a pair.
unfoldable pub encode_unit : ℕ → Bytes
encode_unit u = encode_point (if between 0xD800 0xDFFF u then replacement else u)

abbrev pub pair_point : ℕ → ℕ → ℕ
pair_point h l = 0x10000 + (h - 0xD800) * 1024 + (l - 0xDC00)

-- `Buffer.from(s, 'utf8')`
unfoldable pub encode : Text → Bytes
encode [] = []
encode (u ∷ []) = encode_unit u
encode (u ∷ v ∷ s) =
    let paired = encode_point (pair_point u v) ++ encode s in
    let single = encode_unit u ++ encode (v ∷ s) in if is_high u && is_low v then paired else single

-- The units of a code point.
unfoldable pub point_units : ℕ → Text
point_units c =
    if ltb c 0x10000
    then c ∷ []
    else (0xD800 + (c - 0x10000) / 1024) ∷ (0xDC00 + (c - 0x10000) % 1024) ∷ []

-- Between sequences, or with so many bytes to come: the bits so far and the range of the next byte.
pub data Decoder : Type 0 where
  ready : Decoder
  expect : ℕ → ℕ → ℕ → ℕ → Decoder

-- A byte at the start of a sequence.
unfoldable pub start : ℕ → Text × Decoder
start b =
    if ltb b 0x80
    then (b ∷ [], ready)
    else if between 0xC2 0xDF b
    then ([], expect 1 (b - 0xC0) 0x80 0xBF)
    else if between 0xE0 0xEF b
    then (
      [],
      expect 2 (b - 0xE0) (if b == 0xE0 then 0xA0 else 0x80) (if b == 0xED then 0x9F else 0xBF),
    )
    else if between 0xF0 0xF4 b
    then (
      [],
      expect 3 (b - 0xF0) (if b == 0xF0 then 0x90 else 0x80) (if b == 0xF4 then 0x8F else 0xBF),
    )
    else (replacement ∷ [], ready)

unfoldable pub decode_byte : Decoder → ℕ → Text × Decoder
unfolding start point_units
decode_byte ready b = start b
decode_byte (expect left bits lo hi) b =
    let bits' = bits * 64 + (b - 0x80) in
    let (out, next) = start b in
    if between lo hi b
    then if left == 1 then (point_units bits', ready) else ([], expect (left - 1) bits' 0x80 0xBF)
    else (replacement ∷ out, next)

unfoldable pub decode_from : Decoder → Bytes → Text
unfolding decode_byte
decode_from ready [] = []
decode_from (expect _ _ _ _) [] = replacement ∷ []
decode_from d (b ∷ bs) = let (out, next) = decode_byte d b in out ++ decode_from next bs

-- `buf.toString('utf8')`
unfoldable pub decode : Bytes → Text
unfolding decode_from
decode bs = decode_from ready bs
