-- ===== src/Db/Messages/History.antt =====
-- What is kept of the messages, and what the histories show.
use pulse_chat.Base.{
  append-nil, ℕ, ◌+◌, ◌-◌, ◌≤◌, ◌<◌, ◌≡◌, refl, ◌∙◌, ap, ◌≢◌, ◌⊎◌, inl, inr, List, [], ◌∷◌, ◌++◌,
  Option, none, some, Bool, true, false, arith, Bool-cases, All, length, filter, drop, slice_last,
  min, ltb, length-append, length-drop, length-slice_last, drop-append_le, filter-append, All-drop,
  ◌==◌,
}
use pulse_chat.Text.{Text, to_lower}
use pulse_chat.Text.Laws.{text_eq_iff, text_eq_refl, to_lower_idem}
use pulse_chat.Db.{DbMessage, PulseDatabase, World, save}
use pulse_chat.Db.Messages.{
  keep_last, room_message, direct_message, store_message, save_message, save_direct_message,
  is_direct_of, is_said_in, get_direct_messages_for_user, get_room_history,
}

save-messages : (w : World) (p : PulseDatabase) → (save w p).data_now.messages ≡ p.data_now.messages
unfolding save
save-messages w p = ground arith

-- The last part of a list that grew by one element at the end.
keep_last-snoc :
    (n : ℕ) (ms : List DbMessage) (m : DbMessage)
    → 0 < n
    → keep_last n (ms ++ m ∷ []) ≡ drop (length ms + 1 - n) ms ++ m ∷ []
unfolding keep_last
keep_last-snoc n ms m h = elim (Bool-cases (ltb n (length ms + 1))) [
  | inl over ↦
      rw (length-append ms (m ∷ []), over)
        (ground (arith, drop-append_le (length ms + 1 - n) ms (m ∷ [])))
  | inr fits ↦
      let none_dropped : length ms + 1 - n ≡ 0 = ground arith in
      rw (length-append ms (m ∷ []), fits, none_dropped)
]

-- The messages that stay when one more is stored under a bound.
abbrev pub kept : ℕ → PulseDatabase → List DbMessage
kept n p = drop (length p.data_now.messages + 1 - n) p.data_now.messages

-- What a stored message leaves: the newest of those that were there, as many as the bound allows,
-- and the new one at the end.
pub store_message_lem :
    (w : World) (n : ℕ) (m : DbMessage) (p : PulseDatabase)
    → 0 < n
    → (store_message w n m p).data_now.messages ≡ kept n p ++ m ∷ []
unfolding store_message
store_message_lem w n m p h = rw save-messages (keep_last-snoc n p.data_now.messages m h)

filter-All {ℓ} : {A : Type ℓ} (f : A → Bool) (xs : List A) → All (λ x. f x ≡ true) (filter f xs)
filter-All f [] = tt
filter-All f (x ∷ xs) = elim (Bool-cases (f x)) [
  | inl e ↦ rw e (e, filter-All f xs)
  | inr e ↦ rw e (filter-All f xs)
]

slice_last-All {ℓ κ} :
    {A : Type ℓ} (P : A → Type κ) (n : ℕ) (xs : List A) → All P xs → All P (slice_last n xs)
slice_last-All P n xs h = elim (Bool-cases (n == 0)) [
  | inl e ↦ rw e h
  | inr e ↦ rw e (All-drop P (length xs - n) xs h)
]

filter-snoc {ℓ} :
    {A : Type ℓ} (f : A → Bool) (xs : List A) (x : A)
    → f x ≡ true
    → filter f (xs ++ x ∷ []) ≡ filter f xs ++ x ∷ []
filter-snoc f xs x h = rw (filter-append f xs (x ∷ []), h)

slice_last-snoc {ℓ} :
    {A : Type ℓ} (k : ℕ) (xs : List A) (x : A)
    → 0 < k
    → slice_last k (xs ++ x ∷ []) ≡ drop (length xs + 1 - k) xs ++ x ∷ []
slice_last-snoc k xs x h =
    rw (length-append xs (x ∷ [])) (ground (arith, drop-append_le (length xs + 1 - k) xs (x ∷ [])))

-- A message that a view selects is the last that the view shows once it is stored.
shown_last :
    (f : DbMessage → Bool) (k : ℕ) (ms : List DbMessage) (m : DbMessage)
    → 0 < k
    → f m ≡ true
    → (older : List DbMessage) × (slice_last k (filter f (ms ++ m ∷ [])) ≡ older ++ m ∷ [])
shown_last f k ms m h fits =
    (_, ap (slice_last k) (filter-snoc f ms m fits) ∙ slice_last-snoc k (filter f ms) m h)

room_message-is_said_in :
    (w : World) (room sender text : Text) (name picture : Option Text)
    → is_said_in (to_lower room) (room_message w room sender text name picture) ≡ true
unfolding is_said_in room_message
room_message-is_said_in w room sender text name picture =
    rw to_lower_idem (text_eq_refl (to_lower room))

-- A line that is stored is the last that the room's history shows.
pub get_room_history-save_message :
    (w : World) (room sender text : Text) (name picture : Option Text) (k : ℕ) (p : PulseDatabase)
    → 0 < k
    → (older : List DbMessage) × (get_room_history room k
          (save_message w room sender text name picture p)
        ≡ older ++ room_message w room sender text name picture ∷ [])
unfolding get_room_history save_message
get_room_history-save_message w room sender text name picture k p h =
    let m = room_message w room sender text name picture in
    rw (store_message_lem w 5000 m p (omega arith)) (
      shown_last (is_said_in (to_lower room)) k (kept 5000 p) m h
        (room_message-is_said_in w room sender text name picture))

direct_message-is_direct_of :
    (w : World) (sender target text : Text) (name picture : Option Text) (user : Text)
    → (user ≡ sender) ⊎ (user ≡ target)
    → is_direct_of (to_lower user) (direct_message w sender target text name picture) ≡ true
unfolding is_direct_of direct_message
direct_message-is_direct_of w sender target text name picture user (inl e) =
    rw (e, text_eq_refl (to_lower sender))
direct_message-is_direct_of w sender target text name picture user (inr e) =
    rw (e, text_eq_refl (to_lower target)) (ground arith)

-- A private message that is stored is the last that its sender and its target are shown.
pub get_direct_messages_for_user-save_direct_message :
    (w : World) (sender target text : Text) (name picture : Option Text) (user : Text) (k : ℕ)
    (p : PulseDatabase)
    → 0 < k
    → (user ≡ sender) ⊎ (user ≡ target)
    → (older : List DbMessage) × (get_direct_messages_for_user user k
          (save_direct_message w sender target text name picture p)
        ≡ older ++ direct_message w sender target text name picture ∷ [])
unfolding get_direct_messages_for_user save_direct_message
get_direct_messages_for_user-save_direct_message w sender target text name picture user k p h
      party =
    let m = direct_message w sender target text name picture in
    rw (store_message_lem w 10000 m p (omega arith)) (
      shown_last (is_direct_of (to_lower user)) k (kept 10000 p) m h
        (direct_message-is_direct_of w sender target text name picture user party))

-- A public message of the room that is named, in any case.
abbrev pub IsSaidIn : Text → DbMessage → Type 0
IsSaidIn name m =
    (m.is_private ≡ false) × ((r : Text) × (m.room ≡ some r) × (to_lower r ≡ to_lower name))

-- A private message that the user sent or was sent.
abbrev pub IsDirectOf : Text → DbMessage → Type 0
IsDirectOf user m =
    (m.is_private ≡ true) × ((m.sender ≡ to_lower user) ⊎ (m.target_user ≡ some (to_lower user)))

is_said_in_sound :
    (name : Text) (m : DbMessage) → is_said_in (to_lower name) m ≡ true → IsSaidIn name m
unfolding is_said_in
is_said_in_sound name m h = go m.room refl
  where
    go : (r : Option Text) → m.room ≡ r → IsSaidIn name m
    go none e = absurd (ground arith)
    go (some r) e = (ground arith, (r, e, ground (arith, text_eq_iff (to_lower r) (to_lower name))))

is_direct_of_sound :
    (user : Text) (m : DbMessage) → is_direct_of (to_lower user) m ≡ true → IsDirectOf user m
unfolding is_direct_of
is_direct_of_sound user m h = go m.target_user refl
  where
    go : (t : Option Text) → m.target_user ≡ t → IsDirectOf user m
    go none e = (ground arith, inl (ground (arith, text_eq_iff m.sender (to_lower user))))
    go (some t) e =
        ground (arith, text_eq_iff m.sender (to_lower user), text_eq_iff t (to_lower user))

All-map {ℓ κ μ} :
    {A : Type ℓ} (P : A → Type κ) (Q : A → Type μ) (xs : List A)
    → ((x : A) → P x → Q x)
    → All P xs
    → All Q xs
All-map P Q [] f h = tt
All-map P Q (x ∷ xs) f (p, h) = (f x p, All-map P Q xs f h)

-- A room's history shows public messages of that room, and no more than were asked for.
pub get_room_history_sound :
    (name : Text) (limit : ℕ) (p : PulseDatabase)
    → 0 < limit
    → All (IsSaidIn name) (get_room_history name limit p)
      × (length (get_room_history name limit p) ≤ limit)
unfolding get_room_history
get_room_history_sound name limit p h =
    let f = is_said_in (to_lower name) in
    let said = filter f p.data_now.messages in
    (
      slice_last-All (IsSaidIn name) limit said (
          All-map (λ m. f m ≡ true) (IsSaidIn name) said (is_said_in_sound name)
            (filter-All f p.data_now.messages)),
      omega (arith, length-slice_last limit said h),
    )

-- A user is shown private messages that the user sent or was sent, and no more than were asked for.
pub get_direct_messages_for_user_sound :
    (user : Text) (limit : ℕ) (p : PulseDatabase)
    → 0 < limit
    → All (IsDirectOf user) (get_direct_messages_for_user user limit p)
      × (length (get_direct_messages_for_user user limit p) ≤ limit)
unfolding get_direct_messages_for_user
get_direct_messages_for_user_sound user limit p h =
    let f = is_direct_of (to_lower user) in
    let mine = filter f p.data_now.messages in
    (
      slice_last-All (IsDirectOf user) limit mine (
          All-map (λ m. f m ≡ true) (IsDirectOf user) mine (is_direct_of_sound user)
            (filter-All f p.data_now.messages)),
      omega (arith, length-slice_last limit mine h),
    )

-- How many messages are stored after each of the two methods: a line in a room leaves 5000 at most,
-- whatever there was, a private message 10000.
pub save_message-length :
    (w : World) (a b text : Text) (name picture : Option Text) (p : PulseDatabase)
    → (length (save_message w a b text name picture p).data_now.messages
        ≡ min 5000 (length p.data_now.messages + 1))
      × (length (save_direct_message w a b text name picture p).data_now.messages
          ≡ min 10000 (length p.data_now.messages + 1))
unfolding save_message save_direct_message
save_message-length w a b text name picture p = (
  rw (store_message_lem w 5000 (room_message w a b text name picture) p (omega arith))
      (stored_length 5000 p _ (omega arith)),
  rw (store_message_lem w 10000 (direct_message w a b text name picture) p (omega arith))
      (stored_length 10000 p _ (omega arith)),
)
  where
    stored_length :
        (n : ℕ) (p : PulseDatabase) (m : DbMessage)
        → 0 < n
        → length (kept n p ++ m ∷ []) ≡ min n (length p.data_now.messages + 1)
    stored_length n p m h = omega (
      arith,
      length-append (kept n p) (m ∷ []),
      length-drop (length p.data_now.messages + 1 - n) p.data_now.messages,
    )

module _ (w : World) (sender target text : Text) (name picture : Option Text) (p : PulseDatabase)
    (room_left : length p.data_now.messages < 10000) where
  -- A view that does not select the message is the same after it is stored.
  not_shown :
      (f : DbMessage → Bool) (k : ℕ) (m : DbMessage)
      → f m ≡ false
      → slice_last k (filter f (kept 10000 p ++ m ∷ []))
        ≡ slice_last k (filter f p.data_now.messages)
  not_shown f k m e =
      let zero_dropped : length p.data_now.messages + 1 - 10000 ≡ 0 = omega arith in
      rw zero_dropped (
        ap (slice_last k) (
          filter-append f p.data_now.messages (m ∷ [])
          ∙ rw e (append-nil (filter f p.data_now.messages))))

  private_not_said :
      (room : Text)
      → is_said_in (to_lower room) (direct_message w sender target text name picture) ≡ false
  unfolding is_said_in direct_message
  private_not_said room = refl

  others_not_party :
      (user : Text)
      → to_lower user ≢ to_lower sender
      → to_lower user ≢ to_lower target
      → is_direct_of (to_lower user) (direct_message w sender target text name picture) ≡ false
  unfolding is_direct_of direct_message
  others_not_party user a b = ground (
    arith,
    text_eq_iff (to_lower sender) (to_lower user),
    text_eq_iff (to_lower target) (to_lower user),
  )

  -- While the store is not full, a private message changes no room's history.
  pub get_room_history-save_direct_message :
      (room : Text) (k : ℕ)
      → get_room_history room k (save_direct_message w sender target text name picture p)
        ≡ get_room_history room k p
  unfolding save_direct_message get_room_history
  get_room_history-save_direct_message room k =
      let m = direct_message w sender target text name picture in
      rw (store_message_lem w 10000 m p (omega arith))
        (not_shown (is_said_in (to_lower room)) k m (private_not_said room))

  -- While the store is not full, a private message changes the private messages that are shown to
  -- its sender and its target, and to nobody else.
  pub get_direct_messages_for_user-others :
      (user : Text) (k : ℕ)
      → to_lower user ≢ to_lower sender
      → to_lower user ≢ to_lower target
      → get_direct_messages_for_user user k
          (save_direct_message w sender target text name picture p)
        ≡ get_direct_messages_for_user user k p
  unfolding save_direct_message get_direct_messages_for_user
  get_direct_messages_for_user-others user k a b =
      let m = direct_message w sender target text name picture in
      rw (store_message_lem w 10000 m p (omega arith))
        (not_shown (is_direct_of (to_lower user)) k m (others_not_party user a b))
