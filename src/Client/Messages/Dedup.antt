-- ===== src/Client/Messages/Dedup.antt =====
-- What frontend/src/hooks/usePulseChat.ts shows once.
use pulse_chat.Base.{
  ◌≡◌, refl, sym, subst, ap, List, [], ◌∷◌, ◌++◌, Bool, true, false, not, ◌||◌, arith, any, All,
  filter, map, append-nil, Bool-cases, inl, inr, ◌∙◌,
}
use pulse_chat.Text.{Text, text_eq, ◌or_else◌}
use pulse_chat.Text.Laws.{text_eq_refl}
use pulse_chat.Db.{DbMessage, World}
use pulse_chat.Client.{ChatMessage, Client, username_of}
use pulse_chat.Client.Messages.{
  sender_of, scope_of, is_same, add_new, notify, mentions, append_message, merge_by,
  room_message_key, dm_key, loaded_message, loaded_dm, on_room_history, on_dm_history,
}

any-append {ℓ} :
    {A : Type ℓ} (p : A → Bool) (xs ys : List A) → any p (xs ++ ys) ≡ (any p xs || any p ys)
any-append p [] ys = refl
any-append p (x ∷ xs) ys = ground (arith, any-append p xs ys)

notify-messages : (b : Bool) (m : ChatMessage) (c : Client) → (notify b m c).messages ≡ c.messages
unfolding notify
notify-messages b m c = ground arith

abbrev pub stamped : World → ChatMessage → Client → ChatMessage
stamped w msg c = record msg {
  id = w.random_id;
  is_mentioned = mentions (username_of c.profile) msg.text;
}

pub append_message-messages :
    (w : World) (msg : ChatMessage) (c : Client)
    → (append_message w msg c).messages ≡ add_new (stamped w msg c) c.messages
unfolding append_message
append_message-messages w msg c =
    rw (notify-messages (mentions (username_of c.profile) msg.text) msg c) refl

pub is_same-stamped :
    (w : World) (msg : ChatMessage) (c : Client) → is_same (stamped w msg c) ≡ is_same msg
unfolding is_same sender_of scope_of
is_same-stamped w msg c = refl

-- Whether one of a list has the key of a message.
abbrev pub seen : (ChatMessage → Text) → ChatMessage → List ChatMessage → Bool
seen key l ms = any (λ p. text_eq (key p) (key l)) ms

seen-append :
    (key : ChatMessage → Text) (l : ChatMessage) (xs ys : List ChatMessage)
    → seen key l (xs ++ ys) ≡ (seen key l xs || seen key l ys)
seen-append key l xs ys = any-append (λ p. text_eq (key p) (key l)) xs ys

seen-cons :
    (key : ChatMessage → Text) (new : List ChatMessage) (prev : List ChatMessage) (m : ChatMessage)
    (ls : List ChatMessage)
    → All (λ l. seen key l (prev ++ new) ≡ true) ls
    → All (λ l. seen key l (prev ++ m ∷ new) ≡ true) ls
seen-cons key new prev m [] h = h
seen-cons key new prev m (l ∷ ls) (h, hs) = (
  ground (arith, h, seen-append key l prev new, seen-append key l prev (m ∷ new)),
  seen-cons key new prev m ls hs,
)

abbrev AllSeen : (ChatMessage → Text) → List ChatMessage → List ChatMessage → Type 0
AllSeen key ls ms = All (λ l. seen key l ms ≡ true) ls

-- What a merge brings.
abbrev fresh : (ChatMessage → Text) → List ChatMessage → List ChatMessage → List ChatMessage
fresh key loaded prev = filter (λ l. not (seen key l prev)) loaded

fresh-old :
    (key : ChatMessage → Text) (l : ChatMessage) (loaded prev : List ChatMessage)
    → seen key l prev ≡ true
    → fresh key (l ∷ loaded) prev ≡ fresh key loaded prev
fresh-old key l loaded prev e = rw e refl

fresh-new :
    (key : ChatMessage → Text) (l : ChatMessage) (loaded prev : List ChatMessage)
    → seen key l prev ≡ false
    → fresh key (l ∷ loaded) prev ≡ l ∷ fresh key loaded prev
fresh-new key l loaded prev e = rw e refl

AllSeen-fresh :
    (key : ChatMessage → Text) (loaded prev : List ChatMessage)
    → AllSeen key loaded (prev ++ fresh key loaded prev)
AllSeen-fresh key [] prev = tt
AllSeen-fresh key (l ∷ loaded) prev =
    let rest = AllSeen-fresh key loaded prev in
    let new = fresh key loaded prev in
    elim (Bool-cases (seen key l prev)) [
      | inl e ↦
          subst (λ ls. AllSeen key (l ∷ loaded) (prev ++ ls)) (sym (fresh-old key l loaded prev e))
            (rw (seen-append key l prev new, e) refl, rest)
      | inr e ↦
          subst (λ ls. AllSeen key (l ∷ loaded) (prev ++ ls)) (sym (fresh-new key l loaded prev e))
            (
              rw (seen-append key l prev (l ∷ new), e, text_eq_refl (key l)) refl,
              seen-cons key new prev l loaded rest,
            )
    ]

All-seen-merge_by :
    (key : ChatMessage → Text) (loaded prev : List ChatMessage)
    → AllSeen key loaded (merge_by key loaded prev)
unfolding merge_by
All-seen-merge_by key loaded prev = AllSeen-fresh key loaded prev

filter-seen :
    (key : ChatMessage → Text) (xs ls : List ChatMessage)
    → All (λ l. seen key l xs ≡ true) ls
    → filter (λ l. not (seen key l xs)) ls ≡ []
filter-seen key xs [] h = refl
filter-seen key xs (l ∷ ls) (h, hs) = rw h (filter-seen key xs ls hs)

merge_by-seen :
    (key : ChatMessage → Text) (loaded prev : List ChatMessage)
    → All (λ l. seen key l prev ≡ true) loaded
    → merge_by key loaded prev ≡ prev
unfolding merge_by
merge_by-seen key loaded prev h =
    ap (λ ls. prev ++ ls) (filter-seen key prev loaded h) ∙ append-nil prev

merge_by_again :
    (key : ChatMessage → Text) (loaded prev : List ChatMessage)
    → merge_by key loaded (merge_by key loaded prev) ≡ merge_by key loaded prev
merge_by_again key loaded prev =
    merge_by-seen key loaded (merge_by key loaded prev) (All-seen-merge_by key loaded prev)

-- A room history that is sent again, as after a reconnection, adds nothing to the list.
pub on_room_history-again :
    (room : Text) (ms : List DbMessage) (c : Client)
    → (on_room_history room ms (on_room_history room ms c)).messages
      ≡ (on_room_history room ms c).messages
unfolding on_room_history
on_room_history-again room ms c =
    merge_by_again room_message_key
      (map (loaded_message (username_of c.profile) (room or_else c.current_room)) ms) c.messages

-- Private messages that are sent again add nothing to the list.
pub on_dm_history-again :
    (ms : List DbMessage) (c : Client)
    → (on_dm_history ms (on_dm_history ms c)).messages ≡ (on_dm_history ms c).messages
unfolding on_dm_history
on_dm_history-again ms c =
    merge_by_again dm_key (map (loaded_dm (username_of c.profile)) ms) c.messages
