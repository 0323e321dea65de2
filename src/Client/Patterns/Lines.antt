-- ===== src/Client/Patterns/Lines.antt =====
-- The lines that the chat server writes for the rooms and for private messages, and what
-- frontend/src/hooks/usePulseChat.ts reads from them.
use pulse_chat.Base.{◌≡◌, refl, ℕ, [], ◌∷◌, ◌++◌, some, true, false, arith, All, any}
use pulse_chat.Text.{Text, units_of, is_empty, is_space, trim_start, starts_with}
use pulse_chat.Client.Patterns.{
  is_word_unit, split_word, word, literal, is_terminator, line_end, chat_match, dm_match,
}

-- A text that `[\w-]+` matches whole.
abbrev pub IsWord : Text → Type 0
IsWord w = (is_empty w ≡ false) × All (λ c. is_word_unit c ≡ true) w

-- What `(.*)$` keeps behind `\s*`: a line that begins with no space.
abbrev pub IsLine : Text → Type 0
IsLine s = (any is_terminator s ≡ false) × (trim_start s ≡ s)

split_word-append :
    (w : Text) (c : ℕ) (s : Text)
    → All (λ d. is_word_unit d ≡ true) w
    → is_word_unit c ≡ false
    → split_word (w ++ c ∷ s) ≡ (w, c ∷ s)
unfolding split_word
split_word-append [] c s h k = rw k refl
split_word-append (d ∷ w) c s (e, h) k = rw (e, split_word-append w c s h k) refl

word-append :
    (w : Text) (c : ℕ) (s : Text)
    → IsWord w
    → is_word_unit c ≡ false
    → word (w ++ c ∷ s) ≡ some (w, c ∷ s)
unfolding word
word-append w c s (e, h) k = rw (split_word-append w c s h k, e) refl

line_end-IsLine : (s : Text) → IsLine s → line_end (trim_start s) ≡ some s
unfolding line_end
line_end-IsLine s (h, e) = rw (e, h) refl

word_unit→space : (c : ℕ) → is_word_unit c ≡ true → is_space c ≡ false
unfolding is_word_unit is_space
word_unit→space c h = ground arith

trim_start-word : (w s : Text) → IsWord w → trim_start (w ++ s) ≡ w ++ s
unfolding trim_start
trim_start-word [] s (e, h) = cc
trim_start-word (c ∷ w) s (e, (h, hs)) = rw (word_unit→space c h) refl

trim_start-space : (s : Text) → trim_start (0x20 ∷ s) ≡ trim_start s
unfolding trim_start is_space
trim_start-space s = refl

-- A line `[room] sender: text` is read as the room, the sender and the text, if the names are of
-- word characters and the text is one line that begins with no space.
pub chat_match-line :
    (room sender text : Text)
    → IsWord room
    → IsWord sender
    → IsLine text
    → chat_match (b'[' ∷ room ++ (b']' ∷ 0x20 ∷ sender ++ (b':' ∷ 0x20 ∷ text)))
      ≡ some (room, sender, text)
unfolding chat_match literal starts_with is_word_unit
chat_match-line room sender text r s t =
    rw
      (
        word-append room b']' (0x20 ∷ sender ++ (b':' ∷ 0x20 ∷ text)) r refl,
        trim_start-space (sender ++ (b':' ∷ 0x20 ∷ text)),
        trim_start-word sender (b':' ∷ 0x20 ∷ text) s,
        word-append sender b':' (0x20 ∷ text) s refl,
        trim_start-space text,
        line_end-IsLine text t,
      )
      refl

-- A line `[DM from sender]: text` is read as the sender and the text, likewise.
pub dm_match-line :
    (sender text : Text)
    → IsWord sender
    → IsLine text
    → dm_match (units_of "[DM from " ++ (sender ++ (b']' ∷ b':' ∷ 0x20 ∷ text)))
      ≡ some (sender, text)
unfolding dm_match literal starts_with is_word_unit
dm_match-line sender text s t =
    rw
      (
        word-append sender b']' (b':' ∷ 0x20 ∷ text) s refl,
        trim_start-space text,
        line_end-IsLine text t,
      )
      refl
