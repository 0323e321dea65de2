-- ===== src/Server/Buffer/Refinement.antt =====
-- The buffer of src/core/buffer.cpp is a queue of bytes, wherever they stand in the vector.
use pulse_chat.Base.{
  ◌&&◌, ◌||◌, ℕ, zero, suc, ◌+◌, ◌-◌, ◌*◌, ◌/◌, ◌≤◌, ◌≡◌, refl, ap, sym, ◌∙◌, [], ◌∷◌, ◌++◌, true,
  arith, length, take, drop, length-append, length-take, length-drop, take-append_le,
  drop-append_le, take-length-append, append_assoc, append-nil, take-drop, drop-drop, drop-all,
  Bool-cases, inl, inr, max, leb, ltb,
}
use pulse_chat.Utf8.{Bytes}
use pulse_chat.Server.Buffer.{
  ByteBuffer, readable, readable_bytes, clear, consume, copy_to, compact_if_needed, grow_for,
  write_bytes, append, zeros, new_buffer,
}

-- The positions stand in order, inside the vector.
pub record IsValid (b : ByteBuffer) : Type 0 where
  pub ordered : b.read_pos ≤ b.write_pos
  pub within : b.write_pos ≤ length b.buffer

leb→le : (a b : ℕ) → leb a b ≡ true → a ≤ b
leb→le a b h = ground arith

pub length-readable : (b : ByteBuffer) → IsValid b → length (readable b) ≡ readable_bytes b
unfolding readable readable_bytes
length-readable b v = omega (
  arith,
  length-take (b.write_pos - b.read_pos) (drop b.read_pos b.buffer),
  length-drop b.read_pos b.buffer,
)

length-zeros : (n : ℕ) → length (zeros n) ≡ n
length-zeros zero = refl
length-zeros (suc n) = ap suc (length-zeros n)

-- What is read depends on the vector up to where it is written.
readable_front :
    (b : ByteBuffer) → IsValid b → readable b ≡ drop b.read_pos (take b.write_pos b.buffer)
unfolding readable readable_bytes
readable_front b v =
    take-drop (b.write_pos - b.read_pos) b.read_pos b.buffer
    ∙ ap (λ m. drop b.read_pos (take m b.buffer)) (omega arith)

front_copy :
    (pos : ℕ) (bytes buffer : Bytes)
    → pos ≤ length buffer
    → take (pos + length bytes) (copy_to pos bytes buffer) ≡ take pos buffer ++ bytes
front_copy pos bytes buffer h =
    let front = take pos buffer ++ bytes in
    let size : length front ≡ pos + length bytes =
      omega (arith, length-append (take pos buffer) bytes, length-take pos buffer) in
    ap (λ n. take n (copy_to pos bytes buffer)) (sym size)
    ∙ ap (take (length front)) (sym (append_assoc (take pos buffer) bytes _))
    ∙ take-length-append front (drop (pos + length bytes) buffer)

length-copy_to :
    (pos : ℕ) (bytes buffer : Bytes)
    → pos + length bytes ≤ length buffer
    → length (copy_to pos bytes buffer) ≡ length buffer
length-copy_to pos bytes buffer h = omega (
  arith,
  length-append (take pos buffer) (bytes ++ drop (pos + length bytes) buffer),
  length-append bytes (drop (pos + length bytes) buffer),
  length-take pos buffer,
  length-drop (pos + length bytes) buffer,
)

-- A buffer that holds the same bytes, and is in shape.
abbrev pub Holds : Bytes → ByteBuffer → Type 0
Holds bytes b = IsValid b × (readable b ≡ bytes)

compacted :
    (b : ByteBuffer)
    → IsValid b
    → Holds (readable b) (record b {
      buffer = copy_to 0 (readable b) b.buffer;
      read_pos = 0;
      write_pos = readable_bytes b;
    })
unfolding readable readable_bytes
compacted b v =
    let rest = drop (0 + length (readable b)) b.buffer in
    let size : length (readable b) ≡ b.write_pos - b.read_pos = length-readable b v in
    (
      record { ordered = omega arith; within = omega (arith, length-append (readable b) rest) },
      ap (λ n. take n (readable b ++ rest)) (omega arith) ∙ take-length-append (readable b) rest,
    )

compact_if_needed-Holds : (b : ByteBuffer) → IsValid b → Holds (readable b) (compact_if_needed b)
unfolding compact_if_needed
compact_if_needed-Holds b v =
    elim (Bool-cases
      (ltb 0 b.read_pos && (leb (length b.buffer / 2) b.read_pos || ltb 4096 b.read_pos))) [
        | inl e ↦ rw e (compacted b v)
        | inr e ↦ rw e (v, refl)
      ]

grown :
    (more : Bytes) (b : ByteBuffer)
    → IsValid b
    → Holds (readable b) (record b { buffer = b.buffer ++ more })
grown more b v =
    let wider : IsValid (record b { buffer = b.buffer ++ more }) = record {
      ordered = v.ordered;
      within = omega (arith, length-append b.buffer more);
    } in
    (
      wider,
      readable_front (record b { buffer = b.buffer ++ more }) wider
          ∙ ap (drop b.read_pos) (take-append_le b.write_pos b.buffer more v.within)
          ∙ sym (readable_front b v),
    )

-- Room for more bytes is made behind the old ones.
grow_for-Holds :
    (len : ℕ) (b : ByteBuffer)
    → IsValid b
    → Holds (readable b) (grow_for len b)
      × ((grow_for len b).write_pos + len ≤ length (grow_for len b).buffer)
grow_for-Holds len b v = elim (Bool-cases (ltb (length b.buffer) (b.write_pos + len))) [
  | inl e ↦
      let size = max (length b.buffer * 2) (b.write_pos + len) in
      let more = zeros (size - length b.buffer) in
      rw e (
        grown more b v,
        omega (arith, length-append b.buffer more, length-zeros (size - length b.buffer)),
      )
  | inr e ↦ rw e ((v, refl), ground (arith, e))
]

write_bytes-Holds :
    (bytes : Bytes) (b : ByteBuffer)
    → IsValid b
    → b.write_pos + length bytes ≤ length b.buffer
    → Holds (readable b ++ bytes) (write_bytes bytes b)
write_bytes-Holds bytes b v room =
    let write_result : IsValid (write_bytes bytes b) = record {
      ordered = omega arith;
      within = omega (arith, length-copy_to b.write_pos bytes b.buffer room);
    } in
    (
      write_result,
      readable_front (write_bytes bytes b) write_result
          ∙ ap (drop b.read_pos) (front_copy b.write_pos bytes b.buffer v.within)
          ∙ drop-append_le b.read_pos (take b.write_pos b.buffer) bytes
              (omega (arith, length-take b.write_pos b.buffer))
          ∙ ap (λ front. front ++ bytes) (sym (readable_front b v)),
    )

-- Bytes that are appended stand behind those that are to be read, whether the vector has moved them
-- to its front, or has grown, or neither.
pub append-Holds :
    (bytes : Bytes) (b : ByteBuffer) → IsValid b → Holds (readable b ++ bytes) (append bytes b)
unfolding append
append-Holds [] b v = (v, sym (append-nil (readable b)))
append-Holds (c ∷ bytes) b v =
    let (v1, e1) = compact_if_needed-Holds b v in
    let ((v2, e2), room) = grow_for-Holds (length (c ∷ bytes)) (compact_if_needed b) v1 in
    let (v3, e3) = write_bytes-Holds (c ∷ bytes) _ v2 room in
    (v3, e3 ∙ ap (λ front. front ++ c ∷ bytes) (e2 ∙ e1))

-- Bytes that are consumed are gone, and those behind them stay.
pub consume-Holds :
    (len : ℕ) (b : ByteBuffer) → IsValid b → Holds (drop len (readable b)) (consume len b)
unfolding consume clear readable readable_bytes
consume-Holds len b v = elim (Bool-cases (leb (readable_bytes b) len)) [
  | inl e ↦ rw e (
    omega arith,
    sym (drop-all len (readable b) (omega (arith, length-readable b v, leb→le _ _ e))),
  )
  | inr e ↦
      let shorter : IsValid (record b { read_pos = b.read_pos + len }) = record {
        ordered = ground (arith, e);
        within = v.within;
      } in
      rw e (
        shorter,
        readable_front (record b { read_pos = b.read_pos + len }) shorter
            ∙ sym (drop-drop len b.read_pos (take b.write_pos b.buffer))
            ∙ sym (ap (drop len) (readable_front b v)),
      )
]

pub new_buffer-Holds : (initial_capacity : ℕ) → Holds [] (new_buffer initial_capacity)
unfolding new_buffer readable readable_bytes
new_buffer-Holds initial_capacity = (omega arith, refl)
