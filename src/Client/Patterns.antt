-- ===== src/Client/Patterns.antt =====
-- The regular expressions and the string methods that frontend/src/hooks/usePulseChat.ts reads
-- payloads and commands with. In each expression the characters of a repetition cannot begin what
-- comes after it, so the longest run is the only one to try.
pub mod Lines
use Prim.Native.String.{String}
use pulse_chat.Base.{
  ◌≡◌, refl, ap, ℕ, List, [], ◌∷◌, ◌++◌, Option, none, some, Bool, true, false, ◌||◌, not, ◌==◌,
  if◌then◌else◌, drop, length, any, arith, map,
}
use pulse_chat.Text.{Text, units_of, is_empty, between, is_space, trim_start, starts_with}

infixl 5 ◌>>=◌
abbrev ◌>>=◌ {ℓ κ} : {A : Type ℓ} {B : Type κ} → Option A → (A → Option B) → Option B
o >>= next = elim o [ none ↦ none | some a ↦ next a ]

-- `[\w-]`
unfoldable pub is_word_unit : ℕ → Bool
is_word_unit c =
    between b'a' b'z' c || between b'A' b'Z' c || between b'0' b'9' c || c == b'_' || c == b'-'

-- The run of word characters at the head, and what is behind it.
unfoldable pub split_word : Text → Text × Text
unfolding is_word_unit
split_word [] = ([], [])
split_word (c ∷ s) =
    let (w, rest) = split_word s in if is_word_unit c then (c ∷ w, rest) else ([], c ∷ s)

-- `([\w-]+)`
unfoldable pub word : Text → Option (Text × Text)
unfolding split_word
word s = let (w, rest) = split_word s in if is_empty w then none else some (w, rest)

-- A literal part of an expression.
unfoldable pub literal : Text → Text → Option Text
unfolding starts_with
literal p s = if starts_with p s then some (drop (length p) s) else none

-- `\s+`
unfoldable pub spaces : Text → Option Text
unfolding trim_start is_space
spaces [] = none
spaces (c ∷ s) = if is_space c then some (trim_start s) else none

-- The line terminators, which `.` does not match.
unfoldable pub is_terminator : ℕ → Bool
is_terminator c = c == 10 || c == 13 || c == 0x2028 || c == 0x2029

-- `(.*)$`
unfoldable pub line_end : Text → Option Text
unfolding is_terminator
line_end s = if any is_terminator s then none else some s

-- The first place where an expression that is not anchored matches.
unfoldable pub search {ℓ} : {A : Type ℓ} → (Text → Option A) → Text → Option A
search p [] = p []
search p (c ∷ s) = let later = search p s in elim (p (c ∷ s)) [ some a ↦ some a | none ↦ later ]

-- `/You joined room #([\w-]+)/`
unfoldable pub join_here : Text → Option Text
unfolding literal word
join_here s = do rest ← literal (units_of "You joined room #") s; (room, _) ← word rest; some room

-- `/\[SERVER\]\s+([\w-]+)\s+joined\s+#([\w-]+)/`
unfoldable pub peer_join_here : Text → Option (Text × Text)
unfolding literal word spaces
peer_join_here s = do
  s1 ← literal (units_of "[SERVER]") s
  s2 ← spaces s1
  (peer, s3) ← word s2
  s4 ← spaces s3
  s5 ← literal (units_of "joined") s4
  s6 ← spaces s5
  s7 ← literal (units_of "#") s6
  (room, _) ← word s7
  some (peer, room)

-- `/\[SERVER\]\s+([\w-]+)\s+left/`
unfoldable pub peer_left_here : Text → Option Text
unfolding literal word spaces
peer_left_here s = do
  s1 ← literal (units_of "[SERVER]") s
  s2 ← spaces s1
  (peer, s3) ← word s2
  s4 ← spaces s3
  _ ← literal (units_of "left") s4
  some peer

-- `/^\[([\w-]+)\]\s*([\w-]+):\s*(.*)$/`
unfoldable pub chat_match : Text → Option (Text × Text × Text)
unfolding literal word line_end
chat_match s = do
  s1 ← literal (units_of "[") s
  (room, s2) ← word s1
  s3 ← literal (units_of "]") s2
  (sender, s4) ← word (trim_start s3)
  s5 ← literal (units_of ":") s4
  text ← line_end (trim_start s5)
  some (room, sender, text)

-- `/^\[DM from ([\w-]+)\]:\s*(.*)$/`
unfoldable pub dm_match : Text → Option (Text × Text)
unfolding literal word line_end
dm_match s = do
  s1 ← literal (units_of "[DM from ") s
  (sender, s2) ← word s1
  s3 ← literal (units_of "]:") s2
  text ← line_end (trim_start s3)
  some (sender, text)

abbrev pub cons_part : ℕ → List Text → List Text
cons_part c [] = (c ∷ []) ∷ []
cons_part c (w ∷ ws) = (c ∷ w) ∷ ws

-- `s.split(' ')`
unfoldable pub split_spaces : Text → List Text
split_spaces [] = [] ∷ []
split_spaces (c ∷ s) =
    let rest = split_spaces s in if c == 0x20 then [] ∷ rest else cons_part c rest

-- `parts.join(' ')`
unfoldable pub join_spaces : List Text → Text
join_spaces [] = []
join_spaces (w ∷ []) = w
join_spaces (w ∷ v ∷ ws) = w ++ (0x20 ∷ join_spaces (v ∷ ws))
