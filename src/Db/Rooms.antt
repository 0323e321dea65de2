-- ===== src/Db/Rooms.antt =====
-- The rooms of gateway/src/db.ts.
pub mod Access
pub mod Refinement
use pulse_chat.Base.{
  ℕ, List, [], ◌∷◌, ◌++◌, map, Option, none, some, Bool, true, false, not, ◌&&◌, ◌||◌, ◌==◌,
  if◌then◌else◌,
}
use pulse_chat.Text.{Text, units_of, text_eq, is_empty, to_lower, trim, between}
use pulse_chat.Dict.{Dict, read, put, values, Slot, own, inherited, absent}
use pulse_chat.Db.{DbRoom, DatabaseSchema, PulseDatabase, World, save}

-- The class `[a-zA-Z0-9_-]`.
abbrev pub is_room_unit : ℕ → Bool
is_room_unit c =
    between b'a' b'z' c || between b'A' b'Z' c || between b'0' b'9' c || c == b'_' || c == b'-'

-- `.replace(/[^a-zA-Z0-9_-]/g, '_')`
unfoldable pub room_unit : ℕ → ℕ
room_unit c = if is_room_unit c then c else b'_'

-- The key of a room.
unfoldable pub room_key : Text → Text
room_key name = map room_unit (to_lower (trim name))

-- `s && s` of a text that may be `undefined`: the text, and empty if there is none.
abbrev pub text_or_empty : Option Text → Text
text_or_empty none = []
text_or_empty (some s) = s

pub data RoomError : Type 0 where
  room_empty : RoomError
  password_required password_wrong : Text → RoomError

-- The `error` of the result.
unfoldable pub room_error_text : RoomError → Text
room_error_text room_empty = units_of "Room name cannot be empty."
room_error_text (password_required name) =
    units_of "Password required to join protected room #" ++ (name ++ units_of ".")
room_error_text (password_wrong name) =
    units_of "Incorrect password for protected room #" ++ (name ++ units_of ". Access denied.")

-- `joined_inherited` is a success whose room is a property of `Object.prototype`.
pub data RoomResult : Type 0 where
  joined : DbRoom → RoomResult
  joined_inherited : RoomResult
  denied : RoomError → RoomResult

-- The password check of a room that is there.
unfoldable pub enter : Option Text → DbRoom → RoomResult
enter password r =
    if r.is_protected && not (is_empty (text_or_empty r.password))
    then if is_empty (trim (text_or_empty password))
      then denied (password_required r.name)
      else if not (text_eq (trim (text_or_empty password)) (trim (text_or_empty r.password)))
      then denied (password_wrong r.name)
      else joined r
    else joined r

-- The room that is made where there is none.
unfoldable pub new_room : World → Text → Option Text → Option Text → DbRoom
new_room w name password created_by =
    let secret = trim (text_or_empty password) in
    record {
      name = name;
      is_protected = not (is_empty secret);
      password = if is_empty secret then none else some secret;
      created_by = created_by;
      created_at = w.now;
    }

abbrev pub with_rooms : Dict DbRoom → PulseDatabase → PulseDatabase
with_rooms rooms p = record p { data_now = record (p.data_now) { rooms = rooms } }

unfoldable pub enter_slot :
    World
    → Text
    → Option Text
    → Option Text
    → Slot DbRoom
    → PulseDatabase
    → PulseDatabase × RoomResult
unfolding enter new_room
enter_slot w name password created_by (own r) p = (p, enter password r)
enter_slot w name password created_by inherited p = (p, joined_inherited)
enter_slot w name password created_by absent p =
    let room = new_room w name password created_by in
    (save w (with_rooms (put name room p.data_now.rooms) p), joined room)

-- `createOrJoinRoom`
unfoldable pub create_or_join_room :
    World → Text → Option Text → Option Text → PulseDatabase → PulseDatabase × RoomResult
unfolding enter_slot room_key room_unit
create_or_join_room w room_name password created_by p =
    let name = room_key room_name in
    if is_empty name
    then (p, denied room_empty)
    else enter_slot w name password created_by (read name p.data_now.rooms) p

-- `getAllRooms`
unfoldable pub get_all_rooms : PulseDatabase → List DbRoom
unfolding values
get_all_rooms p = values p.data_now.rooms

-- `getRoom`
unfoldable pub get_room : Text → PulseDatabase → Slot DbRoom
get_room room_name p = read (to_lower room_name) p.data_now.rooms
