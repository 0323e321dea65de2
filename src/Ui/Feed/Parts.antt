-- ===== src/Ui/Feed/Parts.antt =====
-- The parts of a text that frontend/src/components/ChatArea.tsx shows.
use pulse_chat.Base.{
  ◌≡◌, refl, ap, ◌∙◌, List, [], ◌∷◌, ◌++◌, Bool, true, false, arith, map, append_assoc,
}
use pulse_chat.Text.{Text}
use pulse_chat.Ui.Feed.{split_from, split_handles, text_part, render_message_text}

abbrev pub concat : List Text → Text
concat [] = []
concat (t ∷ ts) = t ++ concat ts

-- What a split still has to give: the part that was read, and the rest.
concat-split_from : (b : Bool) (part s : Text) → concat (split_from b part s) ≡ part ++ s
unfolding split_from
concat-split_from true part [] = refl
concat-split_from false part [] = refl
concat-split_from true part (c ∷ s) = ground (
  arith,
  concat-split_from true (part ++ c ∷ []) s,
  concat-split_from true (c ∷ []) s,
  concat-split_from false (c ∷ []) s,
  append_assoc part (c ∷ []) s,
)
concat-split_from false part (c ∷ s) = ground (
  arith,
  concat-split_from true (c ∷ []) s,
  concat-split_from false (part ++ c ∷ []) s,
  append_assoc part (c ∷ []) s,
)

map-text_part : (name : Text) (ts : List Text) → map (λ p. p.text) (map (text_part name) ts) ≡ ts
unfolding text_part
map-text_part name [] = refl
map-text_part name (t ∷ ts) = ap (◌∷◌ t) (map-text_part name ts)

-- The parts that are shown of a text are the text, whole and in order.
pub concat-render_message_text :
    (name text : Text) → concat (map (λ p. p.text) (render_message_text name text)) ≡ text
unfolding render_message_text split_handles
concat-render_message_text name text =
    ap concat (map-text_part name (split_from false [] text)) ∙ concat-split_from false [] text
