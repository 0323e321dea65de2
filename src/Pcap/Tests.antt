-- ===== src/Pcap/Tests.antt =====
-- Runs of the codec, and the theorems at inputs.
use pulse_chat.Base.{ℕ, ◌≡◌, refl, List, [], ◌∷◌, map, arith, inl, All}
use pulse_chat.Text.{Text, units_of}
use pulse_chat.Utf8.{point_units, Bytes, encode, decode, encode_unit, encode_point}
use pulse_chat.Utf8.RoundTrip.{IsWellFormed, text_of}
use pulse_chat.Pcap.Codes.{chat_message, heartbeat}
use pulse_chat.Pcap.{new_parser, parse_loop, push, encode_frame, parse_frame}
use pulse_chat.Pcap.Steps.{untimed, Runs}
use pulse_chat.Pcap.Total.{push-ends, IsTyped, push-IsTyped}
use pulse_chat.Pcap.Stream.{push_all, bytes_of, push_fragments, IsPending}
use pulse_chat.Pcap.RoundTrip.{Message, IsSendable, frame_of, wire, part_of, push_all-wire}

abbrev no_time : ℕ → Text
no_time k = []

abbrev ping : Bytes
ping = 5 ∷ 0 ∷ 0 ∷ 0 ∷ 4 ∷ b'P' ∷ b'I' ∷ b'N' ∷ b'G' ∷ []

ping_bytes : encode_frame heartbeat (units_of "PING") ≡ ping
unfolding encode_frame encode encode_unit encode_point
ping_bytes = refl

-- U+1F512, which stands in a text of the gateway, is a pair of units and four bytes.
lock_bytes : encode (0xD83D ∷ 0xDD12 ∷ []) ≡ 0xF0 ∷ 0x9F ∷ 0x94 ∷ 0x92 ∷ []
unfolding encode encode_unit encode_point
lock_bytes = refl

ill_formed : decode (0xE2 ∷ 0x82 ∷ b'a' ∷ 0xC0 ∷ []) ≡ 0xFFFD ∷ b'a' ∷ 0xFFFD ∷ []
unfolding decode
ill_formed = refl

abbrev pieces : List ((ℕ → Text) × Bytes)
pieces = (no_time, 0 ∷ 5 ∷ 0 ∷ 0 ∷ []) ∷ (no_time, 0 ∷ 1 ∷ b'x' ∷ 5 ∷ []) ∷ []

pieces_read : map (λ f. f.payload) (push_all new_parser pieces).0 ≡ units_of "x" ∷ []
unfolding push_all push decode
pieces_read = refl

x_IsWellFormed : IsWellFormed (units_of "x")
unfolding IsWellFormed text_of point_units
x_IsWellFormed = (b'x' ∷ [], (inl (omega arith), tt), refl)

new_parser-IsPending : IsPending new_parser
unfolding parse_frame
new_parser-IsPending = refl

push_fragments_example :
    (map untimed (push_all new_parser pieces).0
      ≡ map untimed (push no_time new_parser (bytes_of pieces)).0)
    × ((push_all new_parser pieces).1 ≡ (push no_time new_parser (bytes_of pieces)).1)
push_fragments_example = push_fragments no_time new_parser pieces new_parser-IsPending

abbrev x_message : Message
x_message = (chat_message, units_of "x")

x_IsSendable : IsSendable x_message
unfolding encode encode_unit encode_point
x_IsSendable = record { well_formed = x_IsWellFormed; fits = omega arith }

-- A whole frame and three bytes of the next, in two chunks.
abbrev cut_wire : List ((ℕ → Text) × Bytes)
cut_wire = (no_time, 1 ∷ 0 ∷ 0 ∷ []) ∷ (no_time, 0 ∷ 1 ∷ b'x' ∷ 1 ∷ 0 ∷ 0 ∷ []) ∷ []

push_all-wire_example :
    (map untimed (push_all new_parser cut_wire).0 ≡ frame_of x_message ∷ [])
    × ((push_all new_parser cut_wire).1.buffer ≡ part_of 3 x_message)
unfolding encode encode_unit encode_point wire encode_frame bytes_of
push_all-wire_example =
    push_all-wire (x_message ∷ []) x_message 3 cut_wire (x_IsSendable, tt) x_IsSendable
      (omega arith) refl

push-ends_example :
    Runs ping (map untimed (push no_time new_parser ping).0) (push no_time new_parser ping).1.buffer
    × IsPending (push no_time new_parser ping).1
    × (((push no_time new_parser ping).0, (push no_time new_parser ping).1.buffer)
        ≡ parse_loop 20 no_time 0 ping)
push-ends_example = push-ends 20 no_time new_parser ping (omega arith)

push-IsTyped_example : All IsTyped (push no_time new_parser ping).0
push-IsTyped_example = push-IsTyped no_time new_parser ping
