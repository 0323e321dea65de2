-- ===== src/Utf8/RoundTrip.antt =====
-- Decoding what was encoded.
use pulse_chat.Base.{
  Bool-cases, ltb, ltb→lt, ltb→le, inl, inr, ◌-◌, ◌/◌, ◌%◌, ◌+◌, append-nil, ℕ, ◌≤◌, ◌<◌, ◌≡◌, refl,
  ap, ◌⊎◌, List, [], ◌∷◌, ◌++◌, All, arith,
}
use pulse_chat.Text.{Text}
use pulse_chat.Utf8.{
  pair_point, Bytes, encode_point, encode_unit, encode, point_units, ready, decode_from, decode,
}

-- A code point that is no surrogate.
abbrev pub IsScalar : ℕ → Type 0
IsScalar c = (c < 0xD800) ⊎ ((0xE000 ≤ c) × (c < 0x110000))

-- The well-formed texts are those of lists of scalar values.
unfoldable pub text_of : List ℕ → Text
text_of [] = []
text_of (c ∷ cs) = point_units c ++ text_of cs

encode_unit_of_IsScalar : (c : ℕ) → IsScalar c → encode_unit c ≡ encode_point c
unfolding encode_unit
encode_unit_of_IsScalar c h = ground arith

encode-bmp :
    (c : ℕ) (s : Text) → IsScalar c → c < 0x10000 → encode (c ∷ s) ≡ encode_point c ++ encode s
unfolding encode
encode-bmp c [] h small = rw append-nil (encode_unit_of_IsScalar c h)
encode-bmp c (v ∷ s) h small = ground (arith, encode_unit_of_IsScalar c h)

-- A character below 0x80 is its own byte.
pub encode-ascii : (c : ℕ) (s : Text) → c < 0x80 → encode (c ∷ s) ≡ c ∷ encode s
unfolding encode_point
encode-ascii c s h =
    let one : encode_point c ≡ c ∷ [] = ground arith in
    rw (encode-bmp c s (inl (omega arith)) (omega arith), one) refl

encode-astral :
    (c : ℕ) (s : Text)
    → c < 0x110000
    → 0x10000 ≤ c
    → encode ((0xD800 + (c - 0x10000) / 1024) ∷ (0xDC00 + (c - 0x10000) % 1024) ∷ s)
      ≡ encode_point c ++ encode s
unfolding encode
encode-astral c s h large =
    let same : pair_point (0xD800 + (c - 0x10000) / 1024) (0xDC00 + (c - 0x10000) % 1024) ≡ c =
      omega arith in
    ground (arith, ap encode_point same)

encode-cons :
    (c : ℕ) (s : Text) → IsScalar c → encode (point_units c ++ s) ≡ encode_point c ++ encode s
unfolding point_units
encode-cons c s h = elim (Bool-cases (ltb c 0x10000)) [
  | inl small ↦ rw small (encode-bmp c s h (omega (arith, ltb→lt)))
  | inr large ↦ rw large (encode-astral c s (omega arith) (omega (arith, ltb→le)))
]

decode-encode_point :
    (c : ℕ) (bs : Bytes)
    → IsScalar c
    → decode_from ready (encode_point c ++ bs) ≡ point_units c ++ decode_from ready bs
unfolding decode_from encode_point
decode-encode_point c bs h = ground arith

decode-encode-text_of :
    (cs : List ℕ) → All IsScalar cs → decode_from ready (encode (text_of cs)) ≡ text_of cs
unfolding text_of decode_from encode
decode-encode-text_of [] h = refl
decode-encode-text_of (c ∷ cs) (p, h) =
    rw (encode-cons c (text_of cs) p, decode-encode_point c (encode (text_of cs)) p)
      (ap (◌++◌ (point_units c)) (decode-encode-text_of cs h))

-- The texts that UTF-8 carries unchanged: those of scalar values.
unfoldable pub IsWellFormed : Text → Type 0
IsWellFormed s = (cs : List ℕ) × All IsScalar cs × (s ≡ text_of cs)

-- Decoding the bytes of a well-formed text gives the text.
pub decode-encode : (s : Text) → IsWellFormed s → decode (encode s) ≡ s
unfolding decode IsWellFormed
decode-encode s (cs, h, e) = rw e (decode-encode-text_of cs h)
