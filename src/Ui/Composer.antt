-- ===== src/Ui/Composer.antt =====
-- The input line of frontend/src/components/ChatArea.tsx, with the names that it offers.
pub mod Mentions
use pulse_chat.Base.{
  ℕ, zero, suc, ◌+◌, List, [], ◌∷◌, ◌++◌, Option, none, some, Bool, true, false, ◌&&◌, ◌||◌, ltb,
  ◌==◌, if◌then◌else◌, filter, length, take, drop,
}
use pulse_chat.Text.{Text, units_of, is_empty, to_lower, trim, includes}
use pulse_chat.Gateway.{UserPresence}
use pulse_chat.Client.Patterns.{split_word}

-- The states of the component that the input line has.
pub record ChatInput : Type 0 where
  pub input_text : Text
  pub show_commands : Bool
  pub show_mention_picker : Bool
  pub mention_filter : Text
  pub auto_scroll : Bool

abbrev pub empty_input : ChatInput
empty_input = record {
  input_text = [];
  show_commands = false;
  show_mention_picker = false;
  mention_filter = [];
  auto_scroll = true;
}

-- `handleScroll`; the lengths are whole pixels.
unfoldable pub handle_scroll : (scroll_top scroll_height client_height : ℕ) → ChatInput → ChatInput
handle_scroll scroll_top scroll_height client_height i = record i {
  auto_scroll = ltb scroll_height (scroll_top + client_height + 50);
}

-- `/@([\w-]*)$/`: what is in front of the match, and the group.
unfoldable pub last_at_match : Text → Option (Text × Text)
unfolding split_word
last_at_match [] = none
last_at_match (c ∷ s) =
    let (name, rest) = split_word s in
    let later = last_at_match s in
    if (c == b'@') && is_empty rest
    then some ([], name)
    else elim later [ none ↦ none | some (before, group) ↦ some (c ∷ before, group) ]

-- `selectionStart || length`: 0 is falsy.
unfoldable pub cursor_of : Option ℕ → Text → ℕ
cursor_of none text = length text
cursor_of (some n) text = if n == 0 then length text else n

-- `handleInputChange`
unfoldable pub handle_input_change : Text → Option ℕ → ChatInput → ChatInput
unfolding last_at_match cursor_of
handle_input_change val selection_start i =
    let typed = record i { input_text = val } in
    elim (last_at_match (take (cursor_of selection_start val) val)) [
      | none ↦ record typed { show_mention_picker = false }
      | some (before, group) ↦ record typed {
        mention_filter = to_lower group;
        show_mention_picker = true;
      }
    ]

-- `String.prototype.replace` reads `$` in the new text: `$$`, `$&` (the match), the texts in front
-- of the match and behind it (which is empty), and `$1` or `$01` (the group).
unfoldable pub expand : Text → Text → Text → Text
expand before group [] = []
expand before group (c ∷ []) = c ∷ []
expand before group (c ∷ d ∷ []) =
    if c == b'$'
    then if d == b'$'
      then b'$' ∷ []
      else if d == b'&'
      then b'@' ∷ group
      else if d == b'`'
      then before
      else if d == b'\''
      then []
      else if d == b'1'
      then group
      else c ∷ d ∷ []
    else c ∷ d ∷ []
expand before group (c ∷ d ∷ e ∷ s) =
    let after_one = expand before group (d ∷ e ∷ s) in
    let after_two = expand before group (e ∷ s) in
    let after_three = expand before group s in
    if c == b'$'
    then if d == b'$'
      then b'$' ∷ after_two
      else if d == b'&'
      then b'@' ∷ group ++ after_two
      else if d == b'`'
      then before ++ after_two
      else if d == b'\''
      then after_two
      else if d == b'1'
      then group ++ after_two
      else if (d == b'0') && (e == b'1')
      then group ++ after_three
      else c ∷ after_one
    else c ∷ after_one

-- The replacement in `insertMention`
unfoldable pub complete_mention : Text → Text → Text
unfolding last_at_match expand
complete_mention username text = elim (last_at_match text) [
  | none ↦ text
  | some (before, group) ↦ before ++ expand before group (b'@' ∷ username ++ (0x20 ∷ []))
]

-- `insertMention`
unfoldable pub insert_mention : Text → Option ℕ → ChatInput → ChatInput
unfolding complete_mention cursor_of
insert_mention username selection_start i =
    let cursor = cursor_of selection_start i.input_text in
    record i {
      input_text = complete_mention username (take cursor i.input_text) ++ drop cursor i.input_text;
      show_mention_picker = false;
    }

-- `handleSend`: the text that goes to `onSendMessage`, if any.
unfoldable pub handle_send : ChatInput → ChatInput × Option Text
handle_send i = if is_empty (trim i.input_text) then (i, none) else (
  record i { input_text = []; show_commands = false; show_mention_picker = false },
  some (trim i.input_text),
)

-- `insertCommand`
unfoldable pub insert_command : Text → ChatInput → ChatInput
insert_command cmd i = record i { input_text = cmd; show_commands = false }

-- `filteredUsersForMention`
unfoldable pub filtered_users_for_mention : ChatInput → List UserPresence → List UserPresence
filtered_users_for_mention i users =
    filter
      (λ u.
        includes i.mention_filter (to_lower u.username)
        || includes i.mention_filter (to_lower u.display_name))
      users

-- The names of the list that pops up, if it does.
unfoldable pub mention_picker : ChatInput → List UserPresence → Option (List UserPresence)
unfolding filtered_users_for_mention
mention_picker i users = elim (filtered_users_for_mention i users) [
  | [] ↦ none
  | u ∷ us ↦ if i.show_mention_picker then some (u ∷ us) else none
]

-- The hint of the empty line.
unfoldable pub placeholder : Text → Option Text → Text
placeholder current_room none =
    units_of "Message #" ++ (current_room ++ units_of "... (type @ to mention)")
placeholder current_room (some user) =
    units_of "Direct message @" ++ (user ++ units_of "... (Enter to send)")
