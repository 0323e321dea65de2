-- ===== src/Ui/Composer/Mentions.antt =====
-- The names that frontend/src/components/ChatArea.tsx puts into the input line.
use pulse_chat.Base.{
  ◌≡◌, refl, ap, ◌∙◌, ℕ, [], ◌∷◌, ◌++◌, none, some, Bool, true, false, ◌==◌, arith, All, any,
  length, take, drop, append_assoc, length-append, ◌<◌, take-length-append, drop-length-append,
}
use pulse_chat.Text.{Text, is_empty}
use pulse_chat.Client.Patterns.{split_word, is_word_unit}
use pulse_chat.Ui.Composer.{
  ChatInput, last_at_match, cursor_of, expand, complete_mention, insert_mention,
  handle_input_change,
}

-- A name that `replace` takes as it stands.
abbrev pub HasNoDollar : Text → Type 0
HasNoDollar s = any (λ c. c == b'$') s ≡ false

expand_plain : (before group s : Text) → HasNoDollar s → expand before group s ≡ s
unfolding expand
expand_plain before group [] h = refl
expand_plain before group (c ∷ []) h = refl
expand_plain before group (c ∷ d ∷ []) h = ground (arith, h)
expand_plain before group (c ∷ d ∷ e ∷ s) h =
    ground (arith, h, expand_plain before group (d ∷ e ∷ s))

-- What is typed of a name behind the last `@`.
abbrev pub IsName : Text → Type 0
IsName s = All (λ c. is_word_unit c ≡ true) s

split_word-name : (s : Text) → IsName s → split_word s ≡ (s, [])
unfolding split_word
split_word-name [] h = refl
split_word-name (c ∷ s) (e, h) = rw (e, split_word-name s h) refl

last_at_match-none : (s : Text) → IsName s → last_at_match s ≡ none
unfolding last_at_match is_word_unit
last_at_match-none [] h = refl
last_at_match-none (c ∷ s) (e, h) = ground (arith, e, last_at_match-none s h)

split_word-stops : (s t : Text) → is_empty (split_word (s ++ b'@' ∷ t)).1 ≡ false
unfolding split_word is_word_unit
split_word-stops [] t = refl
split_word-stops (c ∷ s) t = ground (arith, split_word-stops s t)

last_at_match-at :
    (before name : Text) → IsName name → last_at_match (before ++ b'@' ∷ name) ≡ some (before, name)
unfolding last_at_match
last_at_match-at [] name h = rw (split_word-name name h) refl
last_at_match-at (c ∷ before) name h =
    ground (arith, split_word-stops before name, last_at_match-at before name h)

last_at_match-space : (s : Text) → last_at_match (s ++ 0x20 ∷ []) ≡ none
unfolding last_at_match split_word is_word_unit
last_at_match-space [] = refl
last_at_match-space (c ∷ s) = ground (arith, split_word-spaced s, last_at_match-space s)
  where
    split_word-spaced : (s : Text) → is_empty (split_word (s ++ 0x20 ∷ [])).1 ≡ false
    split_word-spaced [] = refl
    split_word-spaced (c ∷ s) = ground (arith, split_word-spaced s)

any-snoc :
    (p : ℕ → Bool) (s : Text) (c : ℕ) → any p s ≡ false → p c ≡ false → any p (s ++ c ∷ []) ≡ false
any-snoc p [] c h k = rw k refl
any-snoc p (d ∷ s) c h k = ground (arith, h, k, any-snoc p s c)

-- What a chosen name leaves in front of the cursor.
abbrev pub mentioned : Text → Text → Text
mentioned before username = before ++ (b'@' ∷ username ++ (0x20 ∷ []))

complete_mention-mentioned :
    (before typed username : Text)
    → IsName typed
    → HasNoDollar username
    → complete_mention username (before ++ b'@' ∷ typed) ≡ mentioned before username
unfolding complete_mention
complete_mention-mentioned before typed username name plain =
    rw
      (
        last_at_match-at before typed name,
        complete_mention,
        expand_plain before typed (b'@' ∷ username ++ (0x20 ∷ []))
            (any-snoc (λ c. c == b'$') (b'@' ∷ username) 0x20 plain refl),
      )
      refl

cut_at :
    (head behind : Text)
    → 0 < length head
    → (take (cursor_of (some (length head)) (head ++ behind)) (head ++ behind) ≡ head)
      × (drop (cursor_of (some (length head)) (head ++ behind)) (head ++ behind) ≡ behind)
unfolding cursor_of
cut_at head behind h =
    ground (arith, h, take-length-append head behind, drop-length-append head behind)

length_pos : (before : Text) (c : ℕ) (s : Text) → 0 < length (before ++ c ∷ s)
length_pos before c s = omega (arith, length-append before (c ∷ s))

last_at_match-mentioned :
    (before username : Text) → last_at_match (mentioned before username) ≡ none
last_at_match-mentioned before username =
    rw (← append_assoc before (b'@' ∷ username) (0x20 ∷ []))
      (last_at_match-space (before ++ b'@' ∷ username))

handle_input_change_closed :
    (val : Text) (n : ℕ) (i : ChatInput)
    → last_at_match (take (cursor_of (some n) val) val) ≡ none
    → (handle_input_change val (some n) i).show_mention_picker ≡ false
unfolding handle_input_change
handle_input_change_closed val n i h = rw (h, handle_input_change) refl

-- A name that is chosen while the cursor stands behind an `@` and the first letters of it, with
-- some text behind the cursor, takes the letters' place, with a space; and the list is closed then,
-- also when the line is read again with the cursor behind the space.
pub insert_mention-inserts :
    (before typed username behind : Text) (i : ChatInput)
    → IsName typed
    → HasNoDollar username
    → i.input_text ≡ (before ++ b'@' ∷ typed) ++ behind
    → ((insert_mention username (some (length (before ++ b'@' ∷ typed))) i).input_text
        ≡ mentioned before username ++ behind)
      × ((handle_input_change
            (mentioned before username ++ behind)
            (some (length (mentioned before username)))
            i).show_mention_picker
          ≡ false)
unfolding insert_mention
insert_mention-inserts before typed username behind i name plain here =
    let (front, back) = cut_at (before ++ b'@' ∷ typed) behind (length_pos before b'@' typed) in
    let (front', back') =
      cut_at (mentioned before username) behind
        (length_pos before b'@' (username ++ (0x20 ∷ []))) in
    (
      rw (here, front, back)
          (ap (λ t. t ++ behind) (complete_mention-mentioned before typed username name plain)),
      handle_input_change_closed (mentioned before username ++ behind)
          (length (mentioned before username)) i
          (ap last_at_match front' ∙ last_at_match-mentioned before username),
    )
