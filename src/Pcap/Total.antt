-- ===== src/Pcap/Total.antt =====
-- The parser of gateway/src/pcap.ts ends on every input, and what it puts out.
use pulse_chat.Base.{
  ◌≡◌, refl, ℕ, ◌*◌, ◌≤◌, List, [], ◌∷◌, ◌++◌, arith, All, map, length, take, length-take,
}
use pulse_chat.Text.{Text}
use pulse_chat.Utf8.{Bytes}
use pulse_chat.Pcap.Codes.{
  MessageType, opcode, opcode_of, of_opcode-opcode, message_type_name, type_name,
}
use pulse_chat.Pcap.{
  DecodedFrame, PcapParser, parse_loop, parse_frame, push, to_hex, decoded_frame, cut,
}
use pulse_chat.Pcap.Steps.{untimed, Runs, stop, skip, emit, parse_loop-fuel, Runs_left}
use pulse_chat.Pcap.Stream.{push-Runs, IsPending}

-- The loop of `push` ends: it makes rounds until one waits, as many as the input has, and a bound
-- on their number that covers the buffer changes nothing.
pub push-ends :
    (fuel : ℕ) (now : ℕ → Text) (p : PcapParser) (chunk : Bytes)
    → length (p.buffer ++ chunk) ≤ fuel
    → Runs (p.buffer ++ chunk) (map untimed (push now p chunk).0) (push now p chunk).1.buffer
      × IsPending (push now p chunk).1
      × (((push now p chunk).0, (push now p chunk).1.buffer)
          ≡ parse_loop fuel now 0 (p.buffer ++ chunk))
unfolding push
push-ends fuel now p chunk h = (
  push-Runs now p chunk,
  Runs_left (push-Runs now p chunk),
  parse_loop-fuel (length (p.buffer ++ chunk)) fuel now 0 (p.buffer ++ chunk) (omega arith) h,
)

-- A frame of one of the message types, under the type's name, with 32 bytes in hex at most.
abbrev pub IsTyped : DecodedFrame → Type 0
IsTyped f =
    (t : MessageType) × (f.type ≡ opcode t)
    × (f.type_name ≡ message_type_name t)
    × (length f.raw_hex ≤ 64)

length-to_hex : (bs : Bytes) → length (to_hex bs) ≡ 2 * length bs
unfolding to_hex
length-to_hex [] = refl
length-to_hex (b ∷ bs) = omega (arith, length-to_hex bs)

cut_type :
    (buffer : Bytes) (t n : ℕ) (raw payload rest : Bytes)
    → parse_frame buffer ≡ cut t n raw payload rest
    → (1 ≤ t) × (t ≤ 14)
unfolding parse_frame
cut_type (b0 ∷ b1 ∷ b2 ∷ b3 ∷ b4 ∷ bs) t n raw payload rest e = ground (arith, e)
cut_type _ t n raw payload rest e = ground (arith, e)

decoded_frame-IsTyped :
    (t n : ℕ) (raw payload : Bytes) → 1 ≤ t → t ≤ 14 → IsTyped (decoded_frame [] t n raw payload)
unfolding decoded_frame type_name
decoded_frame-IsTyped t n raw payload lo hi =
    let (type, e) = opcode_of t lo hi in
    (
      type,
      e,
      rw (e, of_opcode-opcode type) refl,
      omega (arith, length-to_hex (take 32 raw), length-take 32 raw),
    )

Runs-IsTyped :
    {buffer left : Bytes} {frames : List DecodedFrame}
    → Runs buffer frames left
    → All IsTyped frames
Runs-IsTyped (stop e) = tt
Runs-IsTyped (skip e r) = Runs-IsTyped r
Runs-IsTyped (emit {buffer} {raw} {payload} {rest} {t} {n} e r) =
    let (lo, hi) = cut_type buffer t n raw payload rest e in
    (decoded_frame-IsTyped t n raw payload lo hi, Runs-IsTyped r)

untimed-IsTyped : (fs : List DecodedFrame) → All IsTyped (map untimed fs) → All IsTyped fs
untimed-IsTyped [] h = tt
untimed-IsTyped (f ∷ fs) (h, hs) = (h, untimed-IsTyped fs hs)

-- Whatever bytes arrive, every frame that the parser yields is of one of the message types and has
-- the type's name, and shows the hex of 32 bytes at most.
pub push-IsTyped :
    (now : ℕ → Text) (p : PcapParser) (chunk : Bytes) → All IsTyped (push now p chunk).0
push-IsTyped now p chunk = untimed-IsTyped _ (Runs-IsTyped (push-Runs now p chunk))
