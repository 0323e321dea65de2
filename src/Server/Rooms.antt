-- ===== src/Server/Rooms.antt =====
-- src/core/room_manager.cpp: who is connected under which name, and in which room. The calls take
-- its lock and so run one after the other. `last_active` and the name inside a `RoomInfo`, which
-- nothing reads, are left out.
pub mod Consistent
pub mod Naming
use pulse_chat.Base.{
  ℕ, ◌+◌, ◌-◌, List, [], ◌∷◌, ◌++◌, map, Option, none, some, Bool, true, false, not, ◌&&◌, ◌||◌,
  ltb, ◌==◌, length, if◌then◌else◌,
}
use pulse_chat.Text.{units_of, between, is_empty, text_eq}
use pulse_chat.Utf8.{Bytes}
use pulse_chat.Dict.{Dict, get, set, delete, has}
use pulse_chat.Server.IdMap.{IdMap, find, set_at, erase, IdSet, insert, erase_member}

pub record UserInfo : Type 0 where
  pub username : Bytes
  pub current_room : Bytes

pub record RoomManager : Type 0 where
  pub users_by_id : IdMap UserInfo
  pub users_by_name : Dict ℕ
  pub rooms : Dict IdSet

abbrev pub default_room : Bytes
default_room = units_of "general"

-- The constructor.
unfoldable pub new_room_manager : RoomManager
new_room_manager = record { users_by_id = []; users_by_name = []; rooms = (default_room, []) ∷ [] }

-- `std::tolower`, in the locale that a C++ program starts with.
unfoldable pub lower_byte : ℕ → ℕ
lower_byte c = if between b'A' b'Z' c then c + 32 else c

unfoldable pub normalize_name : Bytes → Bytes
unfolding lower_byte
normalize_name name = map lower_byte name

-- `std::isalnum`, `_` or `-`
abbrev pub is_name_byte : ℕ → Bool
is_name_byte c =
    between b'0' b'9' c || between b'A' b'Z' c || between b'a' b'z' c || c == b'_' || c == b'-'

unfoldable pub all_name_bytes : Bytes → Bool
all_name_bytes [] = true
all_name_bytes (c ∷ s) = is_name_byte c && all_name_bytes s

pub data NameError : Type 0 where
  empty_name too_long bad_character taken : NameError

-- `out_err`
unfoldable pub name_error_text : Bytes → NameError → Bytes
name_error_text username empty_name = units_of "Username cannot be empty"
name_error_text username too_long = units_of "Username cannot exceed 32 characters"
name_error_text username bad_character =
    units_of "Username contains invalid characters (use letters, numbers, _, -)"
name_error_text username taken =
    units_of "Username '" ++ (username ++ units_of "' is already taken")

-- What is wrong with a name.
unfoldable pub name_error : Bytes → RoomManager → Option NameError
unfolding all_name_bytes normalize_name
name_error username m =
    if is_empty username
    then some empty_name
    else if ltb 32 (length username)
    then some too_long
    else if not (all_name_bytes username)
    then some bad_character
    else if has (normalize_name username) m.users_by_name
    then some taken
    else none

abbrev pub members_of : Bytes → Dict IdSet → IdSet
members_of room rooms = elim (get room rooms) [ none ↦ [] | some members ↦ members ]

-- `rooms_[room].members.insert(conn_id)`
unfoldable pub add_member : ℕ → Bytes → Dict IdSet → Dict IdSet
add_member conn_id room rooms = set room (insert conn_id (members_of room rooms)) rooms

-- The connection is taken out of a room that is there; a room that it leaves empty goes, unless it is
-- the default one.
unfoldable pub remove_member : ℕ → Bytes → Dict IdSet → Dict IdSet
remove_member conn_id room rooms = elim (get room rooms) [
  | none ↦ rooms
  | some members ↦
      if is_empty (erase_member conn_id members) && not (text_eq room default_room)
      then delete room rooms
      else set room (erase_member conn_id members) rooms
]

-- The previous name of a connection is given up.
unfoldable pub forget_name : ℕ → RoomManager → Dict ℕ
unfolding normalize_name
forget_name conn_id m = elim (find conn_id m.users_by_id) [
  | none ↦ m.users_by_name
  | some info ↦ delete (normalize_name info.username) m.users_by_name
]

unfoldable pub add_user : ℕ → Bytes → RoomManager → RoomManager
unfolding forget_name add_member
add_user conn_id username m = record {
  users_by_id =
      set_at conn_id (record { username = username; current_room = default_room }) m.users_by_id;
  users_by_name = set (normalize_name username) conn_id (forget_name conn_id m);
  rooms = add_member conn_id default_room m.rooms;
}

-- With `out_err` where it returns false.
unfoldable pub register_user : ℕ → Bytes → RoomManager → Option NameError × RoomManager
unfolding name_error add_user
register_user conn_id username m = elim (name_error username m) [
  | some e ↦ (some e, m)
  | none ↦ (none, add_user conn_id username m)
]

unfoldable pub unregister_user : ℕ → RoomManager → RoomManager
unfolding remove_member forget_name
unregister_user conn_id m = elim (find conn_id m.users_by_id) [
  | none ↦ m
  | some info ↦ record {
    users_by_id = erase conn_id m.users_by_id;
    users_by_name = delete (normalize_name info.username) m.users_by_name;
    rooms = remove_member conn_id info.current_room m.rooms;
  }
]

abbrev pub get_username : ℕ → RoomManager → Option Bytes
get_username conn_id m = elim (find conn_id m.users_by_id) [
  | none ↦ none
  | some info ↦ some info.username
]

abbrev pub get_connection_id : Bytes → RoomManager → Option ℕ
get_connection_id username m = get (normalize_name username) m.users_by_name

abbrev pub get_user_room : ℕ → RoomManager → Option Bytes
get_user_room conn_id m = elim (find conn_id m.users_by_id) [
  | none ↦ none
  | some info ↦ some info.current_room
]

abbrev pub move_user : ℕ → UserInfo → Bytes → RoomManager → RoomManager
move_user conn_id info room m = record m {
  users_by_id = set_at conn_id (record info { current_room = room }) m.users_by_id;
  rooms = add_member conn_id room (remove_member conn_id info.current_room m.rooms);
}

-- `out_prev_room`, where it returns true.
unfoldable pub join_room : ℕ → Bytes → RoomManager → Option Bytes × RoomManager
unfolding add_member remove_member
join_room conn_id room_name m =
    if is_empty room_name || ltb 32 (length room_name)
    then (none, m)
    else elim (find conn_id m.users_by_id) [
      | none ↦ (none, m)
      | some info ↦
          if text_eq info.current_room room_name
          then (some info.current_room, m)
          else (some info.current_room, move_user conn_id info room_name m)
    ]

-- `out_left_room`, where it returns true.
unfoldable pub leave_room : ℕ → RoomManager → Option Bytes × RoomManager
unfolding add_member remove_member
leave_room conn_id m = elim (find conn_id m.users_by_id) [
  | none ↦ (none, m)
  | some info ↦
      if text_eq info.current_room default_room
      then (none, m)
      else (some info.current_room, move_user conn_id info default_room m)
]

-- `exclude_id` is -1 where nobody is left out.
unfoldable pub without_id : Option ℕ → IdSet → List ℕ
without_id none members = members
without_id (some id) members = erase_member id members

unfoldable pub get_room_members : Bytes → Option ℕ → RoomManager → List ℕ
unfolding without_id
get_room_members room_name exclude_id m = without_id exclude_id (members_of room_name m.rooms)

unfoldable pub get_all_members : Option ℕ → RoomManager → List ℕ
unfolding without_id
get_all_members exclude_id m = without_id exclude_id (map (λ e. e.0) m.users_by_id)

pub record RoomSummary : Type 0 where
  pub name : Bytes
  pub user_count : ℕ

abbrev pub list_rooms : RoomManager → List RoomSummary
list_rooms m = map (λ e. record { name = e.0; user_count = length e.1 }) m.rooms

abbrev pub list_all_users : RoomManager → List Bytes
list_all_users m =
    map (λ e. e.1.username ++ (units_of " (" ++ (e.1.current_room ++ units_of ")"))) m.users_by_id

-- The names of the members that are registered.
unfoldable pub names_of : IdMap UserInfo → IdSet → List Bytes
names_of users [] = []
names_of users (cid ∷ members) = elim (find cid users) [
  | none ↦ names_of users members
  | some info ↦ info.username ∷ names_of users members
]

abbrev pub list_users_in_room : Bytes → RoomManager → List Bytes
list_users_in_room room_name m = names_of m.users_by_id (members_of room_name m.rooms)

abbrev pub active_user_count : RoomManager → ℕ
active_user_count m = length m.users_by_id

abbrev pub active_room_count : RoomManager → ℕ
active_room_count m = length m.rooms
