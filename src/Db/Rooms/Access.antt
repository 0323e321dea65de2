-- ===== src/Db/Rooms/Access.antt =====
-- Who gets into a room.
use pulse_chat.Base.{
  ◌≡◌, refl, sym, ◌∙◌, ◌≢◌, ◌⊎◌, ◌↔◌, inl, inr, Option, none, some, true, false, arith, Bool-cases,
}
use pulse_chat.Text.{Text, is_empty, trim, trim_start, trim_end}
use pulse_chat.Text.Laws.{is_empty-trim, text_eq_iff, text_eq_refl, trim_idem}
use pulse_chat.Dict.{get, put, read, Slot, own, inherited, absent}
use pulse_chat.Dict.Laws.{get-put, read_absent, get→read}
use pulse_chat.Db.{DbRoom, PulseDatabase, World, save}
use pulse_chat.Db.Rooms.{
  room_key, text_or_empty, RoomError, password_required, password_wrong, joined, denied, enter,
  new_room, enter_slot, create_or_join_room, with_rooms,
}

-- A room with a password worth the name: what a room that was made with one looks like.
abbrev pub IsLocked : DbRoom → Text → Type 0
IsLocked r secret =
    (r.is_protected ≡ true) × (r.password ≡ some secret) × (is_empty (trim secret) ≡ false)

pub save-rooms : (w : World) (p : PulseDatabase) → (save w p).data_now.rooms ≡ p.data_now.rooms
unfolding save
save-rooms w p = ground arith

enter_locked :
    (password : Option Text) (r : DbRoom) (secret : Text)
    → IsLocked r secret
    → (enter password r ≡ joined r) ↔ (trim (text_or_empty password) ≡ trim secret)
unfolding enter
enter_locked password r secret (p, s, n) =
    rw (s, p)
      (ground
        (arith, is_empty-trim secret, text_eq_iff (trim (text_or_empty password)) (trim secret)))

-- A locked room opens to its password, up to spaces around it, and to nothing else; whatever is
-- tried, the database stays as it was.
pub create_or_join_room_locked :
    (w : World) (name : Text) (password by : Option Text) (p : PulseDatabase) (r : DbRoom)
    (secret : Text)
    → is_empty (room_key name) ≡ false
    → get (room_key name) p.data_now.rooms ≡ some r
    → IsLocked r secret
    → ((create_or_join_room w name password by p).0 ≡ p)
      × (((create_or_join_room w name password by p).1 ≡ joined r)
          ↔ (trim (text_or_empty password) ≡ trim secret))
unfolding create_or_join_room
create_or_join_room_locked w name password by p r secret named at lock =
    rw (named, get→read (room_key name) p.data_now.rooms at)
      (refl, enter_locked password r secret lock)

enter_refused :
    (password : Option Text) (r : DbRoom) (secret : Text)
    → IsLocked r secret
    → trim (text_or_empty password) ≢ trim secret
    → (e : RoomError) × (enter password r ≡ denied e)
unfolding enter
enter_refused password r secret (p, s, n) wrong =
    elim (Bool-cases (is_empty (trim (text_or_empty password)))) [
      | inl nothing ↦ (password_required r.name, rw (s, p) (ground (arith, is_empty-trim secret)))
      | inr given ↦ (
        password_wrong r.name,
        rw (s, p)
            (ground (
              arith,
              is_empty-trim secret,
              text_eq_iff (trim (text_or_empty password)) (trim secret),
            )),
      )
    ]

pub create_or_join_room_refused :
    (w : World) (name : Text) (password by : Option Text) (p : PulseDatabase) (r : DbRoom)
    (secret : Text)
    → is_empty (room_key name) ≡ false
    → get (room_key name) p.data_now.rooms ≡ some r
    → IsLocked r secret
    → trim (text_or_empty password) ≢ trim secret
    → (e : RoomError) × (create_or_join_room w name password by p ≡ (p, denied e))
unfolding create_or_join_room
create_or_join_room_refused w name password by p r secret named at lock wrong =
    let (e, refused) = enter_refused password r secret lock wrong in
    (e, rw (named, get→read (room_key name) p.data_now.rooms at, refused))

pub create_or_join_room_unasked :
    (w : World) (name : Text) (by : Option Text) (p : PulseDatabase) (r : DbRoom) (secret : Text)
    → is_empty (room_key name) ≡ false
    → get (room_key name) p.data_now.rooms ≡ some r
    → IsLocked r secret
    → create_or_join_room w name none by p ≡ (p, denied (password_required r.name))
unfolding create_or_join_room enter trim trim_start trim_end
create_or_join_room_unasked w name by p r secret named at (q, s, n) =
    rw (named, get→read (room_key name) p.data_now.rooms at, s, q)
      (ground (arith, is_empty-trim secret, n))

enter_slot-keeps :
    (w : World) (key : Text) (password by : Option Text) (p : PulseDatabase) (j : Text) (r : DbRoom)
    → get j p.data_now.rooms ≡ some r
    → (found : Slot DbRoom) → read key p.data_now.rooms ≡ found
    → get j (enter_slot w key password by found p).0.data_now.rooms ≡ some r
unfolding enter_slot
enter_slot-keeps w key password by p j r at (own r') e = at
enter_slot-keeps w key password by p j r at inherited e = at
enter_slot-keeps w key password by p j r at absent e =
    let free = read_absent key p.data_now.rooms e in
    rw save-rooms (
      ground
        (arith, get-put key j (new_room w key password by) p.data_now.rooms, text_eq_iff key j))

-- No call changes or removes a room that is there: no one takes a password off.
pub create_or_join_room_keeps :
    (w : World) (name : Text) (password by : Option Text) (p : PulseDatabase) (j : Text)
    (r : DbRoom)
    → get j p.data_now.rooms ≡ some r
    → get j (create_or_join_room w name password by p).0.data_now.rooms ≡ some r
unfolding create_or_join_room
create_or_join_room_keeps w name password by p j r at =
    elim (Bool-cases (is_empty (room_key name))) [
      | inl nameless ↦ rw nameless at
      | inr named ↦ rw named (enter_slot-keeps w (room_key name) password by p j r at _ refl)
    ]

new_room-IsLocked :
    (w : World) (key : Text) (password by : Option Text)
    → is_empty (trim (text_or_empty password)) ≡ false
    → IsLocked (new_room w key password by) (trim (text_or_empty password))
unfolding new_room
new_room-IsLocked w key password by h = (rw h, rw h, rw trim_idem h)

enter-new_room_open :
    (w : World) (key : Text) (password by other : Option Text)
    → is_empty (trim (text_or_empty password)) ≡ true
    → enter other (new_room w key password by) ≡ joined (new_room w key password by)
unfolding enter new_room
enter-new_room_open w key password by other h = rw h

enter-new_room :
    (w : World) (key : Text) (password by other : Option Text)
    → (enter other (new_room w key password by) ≡ joined (new_room w key password by)) ↔ (
        (is_empty (trim (text_or_empty password)) ≡ true)
        ⊎ (trim (text_or_empty other) ≡ trim (text_or_empty password)))
enter-new_room w key password by other =
    elim (Bool-cases (is_empty (trim (text_or_empty password)))) [
      | inl open_to_all ↦
          (λ _. inl open_to_all, λ _. enter-new_room_open w key password by other open_to_all)
      | inr locked ↦
          let secret = trim (text_or_empty password) in
          let (to, from) =
            enter_locked other (new_room w key password by) secret
              (new_room-IsLocked w key password by locked) in
          (
            λ e. inr (to e ∙ trim_idem (text_or_empty password)),
            λ r. elim r [
              | inl none_given ↦ cc
              | inr same ↦ from (same ∙ sym (trim_idem (text_or_empty password)))
            ],
          )
    ]

-- A room that a call makes opens afterwards, to anyone if the call gave no password, and otherwise
-- to that password, up to spaces around it.
pub create_or_join_room_new :
    (w w' : World) (name : Text) (password by : Option Text) (p : PulseDatabase)
    → is_empty (room_key name) ≡ false
    → read (room_key name) p.data_now.rooms ≡ absent
    → (other by' : Option Text)
    → ((create_or_join_room w' name other by' (create_or_join_room w name password by p).0).1
        ≡ joined (new_room w (room_key name) password by))
      ↔ ((is_empty (trim (text_or_empty password)) ≡ true)
          ⊎ (trim (text_or_empty other) ≡ trim (text_or_empty password)))
unfolding create_or_join_room
create_or_join_room_new w w' name password by p named free other by' =
    let made = new_room w (room_key name) password by in
    let there : read (room_key name)
          (save w (with_rooms (put (room_key name) made p.data_now.rooms) p)).data_now.rooms
        ≡ own made =
      get→read _ _ (
        rw save-rooms (
          ground (
            arith,
            get-put (room_key name) (room_key name) made p.data_now.rooms,
            text_eq_refl (room_key name),
          ))) in
    rw (named, free) (rw there (enter-new_room w (room_key name) password by other))
