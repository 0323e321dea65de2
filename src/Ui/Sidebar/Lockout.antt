-- ===== src/Ui/Sidebar/Lockout.antt =====
-- The passwords that frontend/src/components/Sidebar.tsx saves, and what the gateway makes of them.
use pulse_chat.Base.{
  arith, ◌≡◌, ◌≢◌, refl, ap, ◌∙◌, ℕ, List, [], ◌∷◌, Option, none, some, Bool, true, false, length,
}
use pulse_chat.Text.{Text, units_of, text_eq, is_empty, to_lower, trim}
use pulse_chat.Text.Laws.{text_eq_refl, trim_idem}
use pulse_chat.Dict.{Dict, get}
use pulse_chat.Dict.Laws.{get-set, get-put, get→read}
use pulse_chat.Db.{DbRoom, World}
use pulse_chat.Db.Rooms.{room_key, RoomError, room_error_text}
use pulse_chat.Db.Rooms.Access.{IsLocked}
use pulse_chat.Gateway.{RoomInfo, ClientSession, Gateway, emit, sent, error_frame}
use pulse_chat.Gateway.Actions.{ClientMessage, on_join_room}
use pulse_chat.Gateway.Access.{asked_room, on_join_room-refused}
use pulse_chat.Client.{Client, passwords_item, request, set_active_dm_user, store}
use pulse_chat.Client.Step.{Input, run, step, handle}
use pulse_chat.Client.Step.Kept.{IsForeign, kept-set_active_dm_user, kept-persist}
use pulse_chat.Client.Step.Kept.Commands.{kept-join_room}
use pulse_chat.Client.Step.Foreign.{handle-foreign}
use pulse_chat.Client.Commands.{join_room}
use pulse_chat.Ui.{select_room}
use pulse_chat.Ui.Sidebar.{
  is_open_room, passwords_of, SidebarState, key_unlocked, get_unlocked_rooms, save_unlocked_room,
  enter_protected, handle_room_click, handle_password_submit,
}

pub unlocked-IsForeign : IsForeign key_unlocked
unfolding text_eq
unlocked-IsForeign = (refl, refl, refl, λ email. refl)

-- The password that the browser has saved for a room.
abbrev pub saved_password : Text → Client → Option Text
saved_password room c = get (to_lower room) (get_unlocked_rooms c)

get_unlocked_rooms-store :
    (m : Dict Text) (c : Client) → get_unlocked_rooms (store key_unlocked (passwords_item m) c) ≡ m
unfolding get_unlocked_rooms
get_unlocked_rooms-store m c =
    rw (get-set key_unlocked key_unlocked (passwords_item m) c.storage, text_eq_refl key_unlocked)
      refl

pub saved_password-save :
    (room password : Text) (c : Client)
    → is_empty (trim password) ≡ false
    → text_eq (to_lower room) (units_of "__proto__") ≡ false
    → saved_password room (save_unlocked_room room password c) ≡ some (trim password)
unfolding save_unlocked_room
saved_password-save room password c given named =
    rw
      (
        given,
        named,
        get_unlocked_rooms-store,
        get-put (to_lower room) (to_lower room),
        text_eq_refl (to_lower room),
      )
      refl

pub get_unlocked_rooms-run :
    (valid : Text → Bool) (inputs : List (World × Input)) (c : Client)
    → get_unlocked_rooms (run valid inputs c) ≡ get_unlocked_rooms c
unfolding run step get_unlocked_rooms text_eq
get_unlocked_rooms-run valid [] c = refl
get_unlocked_rooms-run valid ((w, input) ∷ more) c =
    get_unlocked_rooms-run valid more (step valid w input c)
    ∙ ap passwords_of (
        ap (λ k. k.1) (kept-persist key_unlocked unlocked-IsForeign (handle valid w input c) refl)
        ∙ handle-foreign key_unlocked valid w input c unlocked-IsForeign)

get_unlocked_rooms-select_room :
    (room : Text) (password : Option Text) (c : Client)
    → get_unlocked_rooms (select_room room password c) ≡ get_unlocked_rooms c
unfolding select_room get_unlocked_rooms
get_unlocked_rooms-select_room room password c =
    ap (λ k. passwords_of k.1)
      (kept-set_active_dm_user key_unlocked unlocked-IsForeign none (join_room room password c)
        ∙ kept-join_room key_unlocked unlocked-IsForeign room password c)

handle_password_submit-joins :
    (s : SidebarState) (c : Client) (name : Text)
    → s.prompt_target_room ≡ some name
    → is_empty name ≡ false
    → is_empty (trim s.join_password) ≡ false
    → (handle_password_submit s c).1
      ≡ select_room name
          (some (trim s.join_password))
          (save_unlocked_room name (trim s.join_password) c)
unfolding handle_password_submit
handle_password_submit-joins s c name asked here given = ground (arith, asked, here, given)

handle_password_submit-saves :
    (s : SidebarState) (c : Client) (name : Text)
    → s.prompt_target_room ≡ some name
    → is_empty name ≡ false
    → is_empty (trim s.join_password) ≡ false
    → text_eq (to_lower name) (units_of "__proto__") ≡ false
    → saved_password name (handle_password_submit s c).1 ≡ some (trim s.join_password)
handle_password_submit-saves s c name asked here given named =
    let password = trim s.join_password in
    ap (saved_password name) (handle_password_submit-joins s c name asked here given)
    ∙ ap (get (to_lower name))
        (get_unlocked_rooms-select_room name (some password) (save_unlocked_room name password c))
    ∙ saved_password-save name password c (ap is_empty (trim_idem s.join_password) ∙ given) named
    ∙ ap some (trim_idem s.join_password)

pub handle_room_click-saved :
    (room : RoomInfo) (t : SidebarState) (c : Client) (password : Text)
    → room.is_protected ≡ true
    → is_open_room room c ≡ false
    → saved_password room.name c ≡ some password
    → is_empty password ≡ false
    → handle_room_click room t c
      ≡ (t, set_active_dm_user none (select_room room.name (some password) c))
unfolding handle_room_click enter_protected
handle_room_click-saved room t c password locked away saved given =
    rw (away, locked, get→read (to_lower room.name) (get_unlocked_rooms c) saved, given) refl

-- What a click sends to the gateway.
abbrev pub join_request : Text → Text → ClientMessage
join_request room password = record (request (units_of "join_room")) {
  room = some (trim room);
  password = some password;
}

-- A wrong password that was typed once for a locked room keeps the user out: whatever comes to the
-- hook later, while the room is not the one that is open, a click on it opens no window to type
-- another password in, but asks the gateway with the wrong one; and the gateway, where the room is
-- locked with another password, refuses and changes nothing. The room is not named `__proto__`.
pub handle_password_submit-locks_out :
    (valid : Text → Bool) (inputs : List (World × Input)) (s t : SidebarState) (c : Client)
    (room : RoomInfo) (w : World) (id : ℕ) (session : ClientSession) (g : Gateway) (r : DbRoom)
    (secret : Text)
    → s.prompt_target_room ≡ some room.name
    → is_empty room.name ≡ false
    → is_empty (trim s.join_password) ≡ false
    → text_eq (to_lower room.name) (units_of "__proto__") ≡ false
    → room.is_protected ≡ true
    → is_open_room room (run valid inputs (handle_password_submit s c).1) ≡ false
    → is_empty (room_key (asked_room (join_request room.name (trim s.join_password)))) ≡ false
    → get
        (room_key (asked_room (join_request room.name (trim s.join_password))))
        g.db.data_now.rooms
      ≡ some r
    → IsLocked r secret
    → trim (trim s.join_password) ≢ trim secret
    → (handle_room_click room t (run valid inputs (handle_password_submit s c).1) ≡ (
      t,
      set_active_dm_user none (
          select_room room.name
            (some (trim s.join_password))
            (run valid inputs (handle_password_submit s c).1)),
    ))
      × ((e : RoomError) × (on_join_room w id
              (join_request room.name (trim s.join_password))
              session
              g
            ≡ emit
                (sent id
                  (error_frame (length (room_error_text e)) (room_error_text e) w.local_time))
                g))
handle_password_submit-locks_out valid inputs s t c room w id session g r secret asked here given
      named protected away keyed at lock wrong =
    let later = run valid inputs (handle_password_submit s c).1 in
    (
      handle_room_click-saved room t later (trim s.join_password) protected away
          (ap (get (to_lower room.name)) (get_unlocked_rooms-run valid inputs _)
            ∙ handle_password_submit-saves s c room.name asked here given named)
          given,
      on_join_room-refused w id (join_request room.name (trim s.join_password)) session g r secret
          keyed at lock wrong,
    )
