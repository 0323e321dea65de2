-- ===== src/Server/Buffer/Frames.antt =====
-- The messages that src/core/buffer.cpp takes out of its bytes.
use pulse_chat.Base.{
  ℕ, suc, ◌+◌, ◌<◌, ◌≡◌, refl, ap, ap₂, sym, subst, ◌∙◌, List, [], ◌∷◌, ◌++◌, none, some, false,
  arith, length, take, drop, ltb, if◌then◌else◌, Bool-cases, Option-cases, inl, inr, length-append,
  length-drop, take-length-append, drop-length-append,
}
use pulse_chat.Text.{Text}
use pulse_chat.Utf8.{Bytes, encode}
use pulse_chat.Pcap.{header_size, u32_bytes, encode_frame}
use pulse_chat.Pcap.Codes.{MessageType, of_opcode-opcode}
use pulse_chat.Pcap.RoundTrip.{read_u32-u32_bytes}
use pulse_chat.Server.Wire.{Message, max_payload_size, decode_header}
use pulse_chat.Server.Buffer.{
  ByteBuffer, readable, readable_bytes, append, Extracted, need_more, corrupted, extracted,
  extract_from, extract_message, consume,
}
use pulse_chat.Server.Buffer.Refinement.{
  IsValid, Holds, length-readable, append-Holds, consume-Holds,
}

-- The next message of a queue of bytes, and the queue behind it. Nothing is taken until the message
-- is there as a whole.
abbrev pub next_message : Bytes → Extracted × Bytes
next_message (t ∷ a ∷ b ∷ c ∷ d ∷ rest) = elim (decode_header t a b c d) [
  | none ↦ (corrupted, t ∷ a ∷ b ∷ c ∷ d ∷ rest)
  | some (type, n) ↦
      if ltb (length rest) n
      then (need_more, t ∷ a ∷ b ∷ c ∷ d ∷ rest)
      else (extracted (record { type = type; payload = take n rest }), drop n rest)
]
next_message queue = (need_more, queue)

-- An answer, with a buffer that holds a queue.
abbrev pub Answers : Extracted × Bytes → Extracted × ByteBuffer → Type 0
Answers (x, queue) (y, b) = (y ≡ x) × Holds queue b

drop-header :
    (t a b c d n : ℕ) (rest : Bytes)
    → drop (header_size + n) (t ∷ a ∷ b ∷ c ∷ d ∷ rest) ≡ drop n rest
drop-header t a b c d n rest =
    let five : header_size + n ≡ suc (suc (suc (suc (suc n)))) = omega arith in
    ap (λ m. drop m (t ∷ a ∷ b ∷ c ∷ d ∷ rest)) five

whole_taken :
    (n t a b' c d : ℕ) (rest : Bytes) (b : ByteBuffer)
    → IsValid b
    → readable b ≡ t ∷ a ∷ b' ∷ c ∷ d ∷ rest
    → Holds (drop n rest) (consume (header_size + n) b)
whole_taken n t a b' c d rest b v e =
    let (v', e') = consume-Holds (header_size + n) b v in
    (v', e' ∙ ap (drop (header_size + n)) e ∙ drop-header t a b' c d n rest)

same_test :
    (n t a b' c d : ℕ) (rest : Bytes) (b : ByteBuffer)
    → IsValid b
    → readable b ≡ t ∷ a ∷ b' ∷ c ∷ d ∷ rest
    → ltb (readable_bytes b) (header_size + n) ≡ ltb (length rest) n
same_test n t a b' c d rest b v e =
    let size : readable_bytes b ≡ suc (suc (suc (suc (suc (length rest))))) =
      sym (length-readable b v) ∙ ap length e in
    ground (arith, size)

extract_from-Answers :
    (queue : Bytes) (b : ByteBuffer)
    → IsValid b
    → readable b ≡ queue
    → Answers (next_message queue) (extract_from queue b)
unfolding extract_from
extract_from-Answers (t ∷ a ∷ b' ∷ c ∷ d ∷ rest) b v e =
    elim (Option-cases (decode_header t a b' c d)) [
      | inl h ↦ rw (h, extract_from, next_message) (refl, (v, e))
      | inr ((type, n), h) ↦ elim (Bool-cases (ltb (length rest) n)) [
        | inl short ↦
            rw (h, extract_from, next_message, same_test n t a b' c d rest b v e, short)
              (refl, (v, e))
        | inr whole ↦
            rw (h, extract_from, next_message, same_test n t a b' c d rest b v e, whole)
              (refl, whole_taken n t a b' c d rest b v e)
      ]
    ]
extract_from-Answers [] b v e = (refl, (v, e))
extract_from-Answers (_ ∷ []) b v e = (refl, (v, e))
extract_from-Answers (_ ∷ _ ∷ []) b v e = (refl, (v, e))
extract_from-Answers (_ ∷ _ ∷ _ ∷ []) b v e = (refl, (v, e))
extract_from-Answers (_ ∷ _ ∷ _ ∷ _ ∷ []) b v e = (refl, (v, e))

pub extract_message-Answers :
    (queue : Bytes) (b : ByteBuffer)
    → Holds queue b
    → Answers (next_message queue) (extract_message b)
unfolding extract_message
extract_message-Answers queue b (v, e) = rw e (extract_from-Answers queue b v e)

-- A message that is taken makes the queue shorter.
pub next_message-shorter :
    (queue : Bytes) (msg : Message)
    → (next_message queue).0 ≡ extracted msg
    → length (next_message queue).1 < length queue
next_message-shorter (t ∷ a ∷ b ∷ c ∷ d ∷ rest) msg e =
    elim (Option-cases (decode_header t a b c d)) [
      | inl h ↦ ground (arith, h, e)
      | inr ((type, n), h) ↦ ground (arith, h, e, length-drop n rest)
    ]
next_message-shorter [] msg e = cc
next_message-shorter (_ ∷ []) msg e = cc
next_message-shorter (_ ∷ _ ∷ []) msg e = cc
next_message-shorter (_ ∷ _ ∷ _ ∷ []) msg e = cc
next_message-shorter (_ ∷ _ ∷ _ ∷ _ ∷ []) msg e = cc

-- A call of the buffer: bytes have arrived, or a message is asked for.
pub data BufferCall : Type 0 where
  arrive : Bytes → BufferCall
  take_message : BufferCall

abbrev pub run_buffer : List BufferCall → ByteBuffer → List Extracted × ByteBuffer
run_buffer [] b = ([], b)
run_buffer (arrive bytes ∷ calls) b = run_buffer calls (append bytes b)
run_buffer (take_message ∷ calls) b =
    let (x, b') = extract_message b in let (xs, end) = run_buffer calls b' in (x ∷ xs, end)

-- The same calls on a queue of bytes.
abbrev pub run_queue : List BufferCall → Bytes → List Extracted × Bytes
run_queue [] queue = ([], queue)
run_queue (arrive bytes ∷ calls) queue = run_queue calls (queue ++ bytes)
run_queue (take_message ∷ calls) queue =
    let (x, queue') = next_message queue in let (xs, end) = run_queue calls queue' in (x ∷ xs, end)

-- Whatever bytes arrive and messages are asked for, in any order, a buffer that holds a queue of bytes
-- gives the answers of that queue, and holds what the queue has left: no byte is lost, repeated or
-- moved when the vector is compacted or grows.
pub run_buffer-refines :
    (calls : List BufferCall) (queue : Bytes) (b : ByteBuffer)
    → Holds queue b
    → ((run_buffer calls b).0 ≡ (run_queue calls queue).0)
      × Holds (run_queue calls queue).1 (run_buffer calls b).1
run_buffer-refines [] queue b h = (refl, h)
run_buffer-refines (arrive bytes ∷ calls) queue b (v, e) =
    let (v', e') = append-Holds bytes b v in
    run_buffer-refines calls (queue ++ bytes) (append bytes b) (v', e' ∙ ap (λ q. q ++ bytes) e)
run_buffer-refines (take_message ∷ calls) queue b h =
    let (same, h') = extract_message-Answers queue b h in
    let (rest, end) = run_buffer-refines calls (next_message queue).1 (extract_message b).1 h' in
    (ap₂ (λ x xs. x ∷ xs) same rest, end)

whole_fits : (payload rest : Bytes) → ltb (length (payload ++ rest)) (length payload) ≡ false
whole_fits payload rest =
    let size : length (payload ++ rest) ≡ length payload + length rest =
      length-append payload rest in
    ground (arith, size)

-- A queue that begins with a frame of the gateway.
pub next_message-encode_frame :
    (type : MessageType) (text : Text) (rest : Bytes)
    → length (encode text) < 4294967296
    → next_message (encode_frame type text ++ rest) ≡ (
        if ltb max_payload_size (length (encode text))
        then (corrupted, encode_frame type text ++ rest)
        else (extracted (record { type = type; payload = encode text }), rest))
unfolding encode_frame u32_bytes decode_header
next_message-encode_frame type text rest h =
    rw
      (
        next_message,
        decode_header,
        of_opcode-opcode type,
        read_u32-u32_bytes (length (encode text)) h,
      )
      (elim (Bool-cases (ltb max_payload_size (length (encode text)))) [
        | inl long ↦ rw long refl
        | inr short ↦
            rw
              (
                short,
                whole_fits (encode text) rest,
                take-length-append (encode text) rest,
                drop-length-append (encode text) rest,
              )
              refl
      ])

-- A buffer that holds a frame of the gateway, and other bytes behind it, gives the frame's message and
-- keeps those bytes when the text has at most 65,536 bytes; when the text is longer, and its length fits
-- in 32 bits, the buffer says that it is corrupted and keeps everything.
pub extract_message-encode_frame :
    (type : MessageType) (text : Text) (rest : Bytes) (b : ByteBuffer)
    → Holds (encode_frame type text ++ rest) b
    → length (encode text) < 4294967296
    → Answers
        (if ltb max_payload_size (length (encode text))
          then (corrupted, encode_frame type text ++ rest)
          else (extracted (record { type = type; payload = encode text }), rest))
        (extract_message b)
extract_message-encode_frame type text rest b holds h =
    subst (λ answer. Answers answer (extract_message b))
      (next_message-encode_frame type text rest h)
      (extract_message-Answers (encode_frame type text ++ rest) b holds)
