-- ===== src/Ui/Sidebar/Reentry.antt =====
-- A room that is made with a password in frontend/src/components/Sidebar.tsx, and a later click on it.
use pulse_chat.Base.{◌≡◌, refl, ap, sym, ◌∙◌, List, Option, none, some, Bool, true, false, inr}
use pulse_chat.Text.{Text, units_of, text_eq, is_empty, to_lower, trim}
use pulse_chat.Text.Laws.{trim_idem, to_lower_idem, trim-to_lower}
use pulse_chat.Dict.{get, read, absent}
use pulse_chat.Db.{PulseDatabase, World}
use pulse_chat.Db.Rooms.{room_key, create_or_join_room, joined, new_room}
use pulse_chat.Db.Rooms.Access.{create_or_join_room_new}
use pulse_chat.Gateway.{RoomInfo}
use pulse_chat.Client.{Client, set_active_dm_user}
use pulse_chat.Client.Commands.{join_room}
use pulse_chat.Client.Step.{Input, run}
use pulse_chat.Client.Step.Kept.Commands.{kept-join_room}
use pulse_chat.Ui.{select_room}
use pulse_chat.Ui.Sidebar.{
  SidebarState, is_open_room, passwords_of, key_unlocked, get_unlocked_rooms, save_unlocked_room,
  handle_create_room, handle_room_click,
}
use pulse_chat.Ui.Sidebar.Lockout.{
  unlocked-IsForeign, saved_password, saved_password-save, get_unlocked_rooms-run,
  handle_room_click-saved,
}

-- A room that the form of the window asks for, with a password.
abbrev pub IsAskedFor : SidebarState → Type 0
IsAskedFor s =
    (s.is_protected_room ≡ true)
    × (is_empty (trim s.new_room_name) ≡ false)
    × (is_empty (trim s.new_room_password) ≡ false)
    × (text_eq (to_lower (trim s.new_room_name)) (units_of "__proto__") ≡ false)

handle_create_room-joins :
    (s : SidebarState) (c : Client)
    → IsAskedFor s
    → (handle_create_room s c).1
      ≡ join_room
          (trim s.new_room_name)
          (some (trim s.new_room_password))
          (save_unlocked_room (trim s.new_room_name) (trim s.new_room_password) c)
unfolding handle_create_room
handle_create_room-joins s c (locked, named, given, plain) = rw (locked, named, given) refl

handle_create_room-saves :
    (s : SidebarState) (c : Client)
    → IsAskedFor s
    → saved_password (trim s.new_room_name) (handle_create_room s c).1
      ≡ some (trim s.new_room_password)
unfolding get_unlocked_rooms
handle_create_room-saves s c (locked, named, given, plain) =
    let name = trim s.new_room_name in
    let password = trim s.new_room_password in
    let c1 = save_unlocked_room name password c in
    ap (saved_password name) (handle_create_room-joins s c (locked, named, given, plain))
    ∙ ap (λ k. get (to_lower name) (passwords_of k.1))
        (kept-join_room key_unlocked unlocked-IsForeign name (some password) c1)
    ∙ saved_password-save name password c (ap is_empty (trim_idem s.new_room_password) ∙ given)
        plain
    ∙ ap some (trim_idem s.new_room_password)

room_key_idem :
    (name : Text) → room_key name ≡ to_lower (trim name) → room_key (room_key name) ≡ room_key name
unfolding room_key
room_key_idem name plain =
    ap room_key plain
    ∙ rw (trim-to_lower (trim name), trim_idem name, to_lower_idem (trim name)) refl

create_or_join_room_same :
    (w : World) (i j : Text) (password by : Option Text) (p : PulseDatabase)
    → room_key i ≡ room_key j
    → create_or_join_room w i password by p ≡ create_or_join_room w j password by p
unfolding create_or_join_room
create_or_join_room_same w i j password by p e = rw e refl

-- A room that was made with a password in this browser is entered by a click. If its name has no
-- characters but those of a room's name, and is not `__proto__`, and no such room was there, then
-- whatever comes to the hook later, while the room is not the one that is open, a click on it, as it
-- is listed, asks with the password that it was made with; and the database, which made the room by
-- then and has not changed since, opens it to that.
pub handle_create_room-reenters :
    (valid : Text → Bool) (inputs : List (World × Input)) (s t : SidebarState) (c : Client)
    (room : RoomInfo) (w w' : World) (by by' : Option Text) (p : PulseDatabase)
    → IsAskedFor s
    → room_key (trim s.new_room_name) ≡ to_lower (trim s.new_room_name)
    → room.name ≡ room_key (trim s.new_room_name)
    → room.is_protected ≡ true
    → is_open_room room (run valid inputs (handle_create_room s c).1) ≡ false
    → read (room_key (trim s.new_room_name)) p.data_now.rooms ≡ absent
    → is_empty (room_key (trim s.new_room_name)) ≡ false
    → let password = trim s.new_room_password in
      let later = run valid inputs (handle_create_room s c).1 in
      let made = create_or_join_room w (trim s.new_room_name) (some password) by p in
      (handle_room_click room t later
        ≡ (t, set_active_dm_user none (select_room room.name (some password) later)))
      × ((create_or_join_room w' room.name (some password) by' made.0).1
          ≡ joined (new_room w (room_key (trim s.new_room_name)) (some password) by))
handle_create_room-reenters valid inputs s t c room w w' by by' p asked plain listed locked away
      free keyed =
    let name = trim s.new_room_name in
    let password = trim s.new_room_password in
    let later = run valid inputs (handle_create_room s c).1 in
    let (protected, named, given, other) = asked in
    let lowered : to_lower room.name ≡ to_lower name =
      ap to_lower (listed ∙ plain) ∙ to_lower_idem name in
    let same : room_key room.name ≡ room_key name =
      ap room_key listed
      ∙ room_key_idem name (plain ∙ sym (ap to_lower (trim_idem s.new_room_name))) in
    (
      handle_room_click-saved room t later password locked away
          (ap (λ k. get k (get_unlocked_rooms later)) lowered
            ∙ ap (get (to_lower name)) (get_unlocked_rooms-run valid inputs _)
            ∙ handle_create_room-saves s c asked)
          given,
      ap (λ r. r.1)
            (create_or_join_room_same w' room.name name (some password) by'
              (create_or_join_room w name (some password) by p).0 same)
          ∙ (create_or_join_room_new w w' name (some password) by p keyed free (some password)
                by').1
              (inr refl),
    )
