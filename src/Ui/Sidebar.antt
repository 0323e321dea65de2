-- ===== src/Ui/Sidebar.antt =====
-- frontend/src/components/Sidebar.tsx: the rooms, the private chats, the peers and the windows.
-- Its handlers act on the component's state and, by the hook, on the client.
pub mod Lockout
pub mod Reentry
use pulse_chat.Base.{
  ℕ, List, [], ◌∷◌, ◌++◌, Option, none, some, Bool, true, false, ◌&&◌, ◌||◌, not, if◌then◌else◌,
  map, any,
}
use pulse_chat.Text.{Text, units_of, text_eq, is_empty, to_lower, trim, ◌or_else◌}
use pulse_chat.Dict.{Dict, Slot, own, inherited, absent, get, put, read}
use pulse_chat.Db.{general}
use pulse_chat.Db.Rooms.{text_or_empty}
use pulse_chat.Gateway.{UserPresence, RoomInfo}
use pulse_chat.Client.{
  ChatMessage, UserProfile, Stored, passwords_item, Client, username_of, store, set_active_dm_user,
}
use pulse_chat.Client.Commands.{join_room, logout, update_status}
use pulse_chat.Ui.{truthy, select_room}

-- The states of the component.
pub record SidebarState : Type 0 where
  pub show_create_modal : Bool
  pub new_room_name : Text
  pub is_protected_room : Bool
  pub new_room_password : Text
  pub prompt_target_room : Option Text
  pub join_password : Text
  pub show_status_modal : Bool
  pub custom_activity : Text
  pub selected_status : Text

abbrev activity_of : Option UserProfile → Text
activity_of none = []
activity_of (some p) = text_or_empty p.activity_text

abbrev status_of : Option UserProfile → Text
status_of none = []
status_of (some p) = p.status

-- Their first values.
unfoldable pub initial_sidebar : Option UserProfile → SidebarState
initial_sidebar profile = record {
  show_create_modal = false;
  new_room_name = [];
  is_protected_room = false;
  new_room_password = [];
  prompt_target_room = none;
  join_password = [];
  show_status_modal = false;
  custom_activity = activity_of profile;
  selected_status = status_of profile or_else units_of "online";
}

abbrev pub key_unlocked : Text
key_unlocked = units_of "pulsechat_unlocked_rooms_v1"

abbrev pub passwords_of : Option Stored → Dict Text
passwords_of (some (passwords_item m)) = m
passwords_of _ = []

-- `getUnlockedRooms`
unfoldable pub get_unlocked_rooms : Client → Dict Text
get_unlocked_rooms c = passwords_of (get key_unlocked c.storage)

-- `current[key] = value`, which does nothing for `__proto__`.
abbrev assign : Text → Text → Dict Text → Dict Text
assign key value m = if text_eq key (units_of "__proto__") then m else put key value m

-- `saveUnlockedRoom`
unfoldable pub save_unlocked_room : Text → Text → Client → Client
unfolding get_unlocked_rooms
save_unlocked_room room_name password c =
    if is_empty (trim password)
    then c
    else store key_unlocked
        (passwords_item (assign (to_lower room_name) (trim password) (get_unlocked_rooms c))) c

-- `handleCreateRoom`
unfoldable pub handle_create_room : SidebarState → Client → SidebarState × Client
unfolding save_unlocked_room
handle_create_room s c =
    let trimmed = trim s.new_room_name in
    let password = trim s.new_room_password in
    if is_empty trimmed then (s, c) else (
      record s {
        new_room_name = [];
        new_room_password = [];
        is_protected_room = false;
        show_create_modal = false;
      },
      join_room trimmed (if s.is_protected_room then some password else none) (
          if s.is_protected_room && not (is_empty password)
          then save_unlocked_room trimmed password c
          else c),
    )

abbrev pub is_open_room : RoomInfo → Client → Bool
is_open_room room c =
    text_eq (to_lower room.name) (to_lower c.current_room)
    && is_empty (text_or_empty c.active_dm_user)

abbrev pub ask_password : Text → SidebarState → SidebarState
ask_password room s = record s { prompt_target_room = some room; join_password = [] }

-- A click on a protected room, for what the browser has saved. What is inherited is no text, and is
-- left out of the request.
unfoldable pub enter_protected :
    RoomInfo → Slot Text → SidebarState → Client → SidebarState × Client
enter_protected room (own password) s c =
    if is_empty password
    then (ask_password room.name s, c)
    else (s, set_active_dm_user none (select_room room.name (some password) c))
enter_protected room inherited s c = (s, set_active_dm_user none (select_room room.name none c))
enter_protected room absent s c = (ask_password room.name s, c)

-- `handleRoomClick`
unfoldable pub handle_room_click : RoomInfo → SidebarState → Client → SidebarState × Client
unfolding enter_protected get_unlocked_rooms
handle_room_click room s c =
    if is_open_room room c
    then (s, c)
    else if room.is_protected
    then enter_protected room (read (to_lower room.name) (get_unlocked_rooms c)) s c
    else (s, set_active_dm_user none (select_room room.name none c))

-- `handlePasswordSubmit`
unfoldable pub handle_password_submit : SidebarState → Client → SidebarState × Client
unfolding save_unlocked_room
handle_password_submit s c = elim (truthy s.prompt_target_room) [
  | none ↦ (s, c)
  | some room ↦
      let password = trim s.join_password in
      if is_empty password then (s, c) else (
        record s { prompt_target_room = none; join_password = [] },
        select_room room (some password) (save_unlocked_room room password c),
      )
]

-- `handleSaveStatus`
unfoldable pub handle_save_status : SidebarState → Client → SidebarState × Client
handle_save_status s c = (
  record s { show_status_modal = false },
  update_status s.selected_status (some s.custom_activity) c,
)

-- Whether the button of the window for a new room is disabled.
unfoldable pub cannot_create : SidebarState → Bool
cannot_create s =
    is_empty (trim s.new_room_name) || s.is_protected_room && is_empty (trim s.new_room_password)

-- What the user does in the sidebar.
pub data SidebarInput : Type 0 where
  create_opened create_closed create_submitted prompt_closed password_submitted : SidebarInput
  status_opened status_closed status_saved logout_clicked : SidebarInput
  room_name_typed room_password_typed join_password_typed activity_typed : Text → SidebarInput
  status_selected dm_clicked : Text → SidebarInput
  protection_set : Bool → SidebarInput
  room_clicked : RoomInfo → SidebarInput

-- The handlers of the buttons and the fields.
unfoldable pub sidebar_step : SidebarInput → SidebarState → Client → SidebarState × Client
sidebar_step create_opened s c = (record s { show_create_modal = true }, c)
sidebar_step create_closed s c = (record s { show_create_modal = false }, c)
sidebar_step create_submitted s c = if cannot_create s then (s, c) else handle_create_room s c
sidebar_step prompt_closed s c = (record s { prompt_target_room = none }, c)
sidebar_step password_submitted s c = handle_password_submit s c
sidebar_step status_opened s c = (record s { show_status_modal = true }, c)
sidebar_step status_closed s c = (record s { show_status_modal = false }, c)
sidebar_step status_saved s c = handle_save_status s c
sidebar_step logout_clicked s c = (s, logout c)
sidebar_step (room_name_typed t) s c = (record s { new_room_name = t }, c)
sidebar_step (room_password_typed t) s c = (record s { new_room_password = t }, c)
sidebar_step (join_password_typed t) s c = (record s { join_password = t }, c)
sidebar_step (activity_typed t) s c = (record s { custom_activity = t }, c)
sidebar_step (status_selected t) s c = (record s { selected_status = t }, c)
sidebar_step (dm_clicked handle) s c = (s, set_active_dm_user (some handle) c)
sidebar_step (protection_set b) s c = (record s { is_protected_room = b }, c)
sidebar_step (room_clicked room) s c = handle_room_click room s c
