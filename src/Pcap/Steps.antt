-- ===== src/Pcap/Steps.antt =====
-- One round of the parser's loop, and the fuel.
use pulse_chat.Base.{
  subst, ap₂, map, sym, ℕ, zero, suc, ◌≤◌, ◌<◌, ◌≡◌, refl, ap, List, [], ◌∷◌, ◌++◌, length, arith,
  length-append, length-drop, take-append_le, drop-append_le, ◌⊎◌, inl,
}
use pulse_chat.Text.{Text}
use pulse_chat.Utf8.{Bytes}
use pulse_chat.Pcap.{
  header_size, after_round, read_u32, DecodedFrame, decoded_frame, Round, waiting, resync, cut,
  parse_frame, cons_frame, parse_loop,
}

-- The bytes that a round leaves.
abbrev pub left_over : Bytes → Round → Bytes
left_over buffer waiting = buffer
left_over buffer (resync rest) = rest
left_over buffer (cut t n raw payload rest) = rest

-- A round with more input behind the buffer: it does the same, unless it waits.
abbrev pub extended : Bytes → Round → Round
extended more waiting = waiting
extended more (resync rest) = resync (rest ++ more)
extended more (cut t n raw payload rest) = cut t n raw payload (rest ++ more)

pub parse_frame-append :
    (buffer more : Bytes)
    → (parse_frame buffer ≡ waiting)
      ⊎ (parse_frame (buffer ++ more) ≡ extended more (parse_frame buffer))
unfolding parse_frame
parse_frame-append (t ∷ a ∷ b ∷ c ∷ d ∷ rest) more = ground (
  arith,
  length-append rest more,
  take-append_le (read_u32 a b c d) rest more,
  drop-append_le (read_u32 a b c d) rest more,
)
parse_frame-append _ more = inl refl

-- Every round but the last makes the buffer shorter.
abbrev pub Shrinks : Bytes → Round → Type 0
Shrinks buffer waiting = Unit {0}
Shrinks buffer (resync rest) = length rest < length buffer
Shrinks buffer (cut t n raw payload rest) = length rest < length buffer

pub parse_frame-Shrinks : (buffer : Bytes) → Shrinks buffer (parse_frame buffer)
unfolding parse_frame
parse_frame-Shrinks (t ∷ a ∷ b ∷ c ∷ d ∷ rest) = ground (arith, length-drop (read_u32 a b c d) rest)
parse_frame-Shrinks _ = tt

-- The loop on a buffer, by its first round.
pub parse_loop-waiting :
    (fuel : ℕ) (now : ℕ → Text) (k : ℕ) (buffer : Bytes)
    → parse_frame buffer ≡ waiting
    → parse_loop fuel now k buffer ≡ ([], buffer)
unfolding parse_loop
parse_loop-waiting zero now k buffer e = refl
parse_loop-waiting (suc fuel) now k buffer e = rw e

pub parse_frame_short :
    (buffer : Bytes) → length buffer < header_size → parse_frame buffer ≡ waiting
unfolding parse_frame
parse_frame_short (t ∷ a ∷ b ∷ c ∷ d ∷ rest) h = absurd (omega arith)
parse_frame_short _ h = refl

-- Two loops that agree on shorter buffers agree behind a round.
module _ (go go' : ℕ → Bytes → List DecodedFrame × Bytes) (now : ℕ → Text) (k : ℕ)
    (buffer : Bytes) where
  after_round_agree :
      ((j : ℕ) (rest : Bytes) → length rest < length buffer → go j rest ≡ go' j rest)
      → (r : Round) → Shrinks buffer r
      → after_round go now k buffer r ≡ after_round go' now k buffer r
  after_round_agree h waiting s = refl
  after_round_agree h (resync rest) s = h k rest s
  after_round_agree h (cut t n raw payload rest) s = ap (cons_frame _) (h (suc k) rest s)

-- Fuel that covers the buffer's length is enough: more changes nothing.
pub parse_loop-fuel :
    (f g : ℕ) (now : ℕ → Text) (k : ℕ) (buffer : Bytes)
    → length buffer ≤ f
    → length buffer ≤ g
    → parse_loop f now k buffer ≡ parse_loop g now k buffer
unfolding parse_loop
parse_loop-fuel zero g now k buffer hf hg =
    sym (parse_loop-waiting g now k buffer (parse_frame_short buffer (omega arith)))
parse_loop-fuel (suc f) zero now k buffer hf hg =
    parse_loop-waiting (suc f) now k buffer (parse_frame_short buffer (omega arith))
parse_loop-fuel (suc f) (suc g) now k buffer hf hg =
    after_round_agree (parse_loop f now) (parse_loop g now) now k buffer
      (λ j rest h. parse_loop-fuel f g now j rest (omega arith) (omega arith)) (parse_frame buffer)
      (parse_frame-Shrinks buffer)

-- A frame with its time taken off: what the input alone decides.
abbrev pub untimed : DecodedFrame → DecodedFrame
untimed frame = record frame { timestamp = [] }

abbrev pub untimed_result : List DecodedFrame × Bytes → List DecodedFrame × Bytes
untimed_result (frames, rest) = (map untimed frames, rest)

-- The rounds on a buffer, up to one that waits: the frames that they cut off and what is left.
pub data Runs : Bytes → List DecodedFrame → Bytes → Type 0 where
  stop : {buffer : Bytes} → parse_frame buffer ≡ waiting → Runs buffer [] buffer
  skip :
      {buffer rest left : Bytes} {frames : List DecodedFrame}
      → parse_frame buffer ≡ resync rest
      → Runs rest frames left
      → Runs buffer frames left
  emit :
      {buffer raw payload rest left : Bytes} {t n : ℕ} {frames : List DecodedFrame}
      → parse_frame buffer ≡ cut t n raw payload rest
      → Runs rest frames left
      → Runs buffer (decoded_frame [] t n raw payload ∷ frames) left

abbrev RunsTo : Bytes → List DecodedFrame × Bytes → Type 0
RunsTo buffer r = Runs buffer (map untimed r.0) r.1

after_round-Runs :
    (go : ℕ → Bytes → List DecodedFrame × Bytes) (now : ℕ → Text) (k : ℕ) (buffer : Bytes)
    → ((j : ℕ) (rest : Bytes) → length rest < length buffer → RunsTo rest (go j rest))
    → (r : Round) → parse_frame buffer ≡ r
    → Shrinks buffer r
    → RunsTo buffer (after_round go now k buffer r)
unfolding decoded_frame
after_round-Runs go now k buffer h waiting e s = stop e
after_round-Runs go now k buffer h (resync rest) e s = skip e (h k rest s)
after_round-Runs go now k buffer h (cut t n raw payload rest) e s = emit e (h (suc k) rest s)

-- With fuel for the buffer the loop makes all its rounds.
pub parse_loop-Runs :
    (fuel : ℕ) (now : ℕ → Text) (k : ℕ) (buffer : Bytes)
    → length buffer ≤ fuel
    → RunsTo buffer (parse_loop fuel now k buffer)
unfolding parse_loop
parse_loop-Runs zero now k buffer h = stop (parse_frame_short buffer (omega arith))
parse_loop-Runs (suc fuel) now k buffer h =
    after_round-Runs (parse_loop fuel now) now k buffer
      (λ j rest l. parse_loop-Runs fuel now j rest (omega arith)) (parse_frame buffer) refl
      (parse_frame-Shrinks buffer)

pub Runs_left :
    {buffer left : Bytes} {frames : List DecodedFrame}
    → Runs buffer frames left
    → parse_frame left ≡ waiting
Runs_left (stop e) = e
Runs_left (skip e r) = Runs_left r
Runs_left (emit e r) = Runs_left r

-- More input behind the buffer: the rounds go on from what was left.
pub Runs-append :
    {buffer left last : Bytes} {frames later : List DecodedFrame} (more : Bytes)
    → Runs buffer frames left
    → Runs (left ++ more) later last
    → Runs (buffer ++ more) (frames ++ later) last
Runs-append more (stop e) next = next
Runs-append more (skip {buffer} e r) next =
    skip (ground (arith, parse_frame-append buffer more)) (Runs-append more r next)
Runs-append more (emit {buffer} e r) next =
    emit (ground (arith, parse_frame-append buffer more)) (Runs-append more r next)

pub Runs_of_eq :
    {buffer buffer' left : Bytes} {frames : List DecodedFrame}
    → buffer ≡ buffer'
    → Runs buffer frames left
    → Runs buffer' frames left
Runs_of_eq {left} {frames} e r = subst (λ b. Runs b frames left) e r

-- A buffer has one result.
pub Runs_unique :
    {buffer left left' : Bytes} {frames frames' : List DecodedFrame}
    → Runs buffer frames left
    → Runs buffer frames' left'
    → (frames ≡ frames') × (left ≡ left')
Runs_unique (stop e) (stop e') = (refl, refl)
Runs_unique (stop e) (skip e' r') = absurd (ground (arith, e, e'))
Runs_unique (stop e) (emit e' r') = absurd (ground (arith, e, e'))
Runs_unique (skip e r) (stop e') = absurd (ground (arith, e, e'))
Runs_unique (skip e r) (emit e' r') = absurd (ground (arith, e, e'))
Runs_unique (emit e r) (stop e') = absurd (ground (arith, e, e'))
Runs_unique (emit e r) (skip e' r') = absurd (ground (arith, e, e'))
Runs_unique (skip {rest = a} e r) (skip {rest = b} e' r') =
    let same : b ≡ a = ground (arith, e, e') in Runs_unique r (Runs_of_eq same r')
Runs_unique (emit {raw} {payload} {rest = a} {t} {n} e r)
      (emit {raw = raw'} {payload = payload'} {rest = b} {t = t'} {n = n'} e' r') =
    let same : cut t' n' raw' payload' b ≡ cut t n raw payload a = ground (arith, e, e') in
    let rests : b ≡ a = ground (arith, same) in
    let ih = Runs_unique r (Runs_of_eq rests r') in
    let heads : decoded_frame [] t n raw payload ≡ decoded_frame [] t' n' raw' payload' = cc in
    (ap₂ ◌∷◌ heads ih.0, ih.1)
