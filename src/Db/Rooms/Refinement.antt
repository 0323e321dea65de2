-- ===== src/Db/Rooms/Refinement.antt =====
-- The rooms of gateway/src/db.ts for those who call it: a function from names to rooms, whatever
-- object, key order and file stand behind it.
use pulse_chat.Base.{List, [], ◌∷◌, Option, none, some, if◌then◌else◌}
use pulse_chat.Text.{Text, text_eq, is_empty}
use pulse_chat.Dict.{get, is_inherited}
use pulse_chat.Db.{DbRoom, PulseDatabase, World}
use pulse_chat.Db.Rooms.{
  room_key, RoomResult, joined, joined_inherited, denied, room_empty, enter, new_room,
  create_or_join_room,
}

abbrev pub Rooms : Type 0
Rooms = Text → Option DbRoom

-- The rooms of a database.
abbrev pub view : PulseDatabase → Rooms
view p key = get key p.data_now.rooms

abbrev pub update : Text → DbRoom → Rooms → Rooms
update key room rooms j = if text_eq key j then some room else rooms j

-- A name that no room has: it is refused without being one, or a room is made.
abbrev make : World → Text → Option Text → Option Text → Rooms → Rooms × RoomResult
make w key password by rooms =
    if is_inherited key
    then (rooms, joined_inherited)
    else (update key (new_room w key password by) rooms, joined (new_room w key password by))

abbrev visit : World → Text → Option Text → Option Text → Option DbRoom → Rooms → Rooms × RoomResult
visit w key password by (some r) rooms = (rooms, enter password r)
visit w key password by none rooms = make w key password by rooms

-- What `createOrJoinRoom` promises: a name with no characters is refused, a room that is there is
-- entered by its password and stays as it is, and another is made, with that password.
abbrev pub create_or_join : World → Text → Option Text → Option Text → Rooms → Rooms × RoomResult
create_or_join w name password by rooms =
    if is_empty (room_key name)
    then (rooms, denied room_empty)
    else visit w (room_key name) password by (rooms (room_key name)) rooms

abbrev viewed : PulseDatabase × RoomResult → Rooms × RoomResult
viewed (p, result) = (view p, result)

-- A call: its readings, the name, the password and who asks.
abbrev pub Call : Type 0
Call = World × Text × Option Text × Option Text

-- A run of calls on the database, with the answers.
abbrev pub run_calls : List Call → PulseDatabase → PulseDatabase × List RoomResult
run_calls [] p = (p, [])
run_calls ((w, name, password, by) ∷ calls) p =
    let (q, result) = create_or_join_room w name password by p in
    let (last, results) = run_calls calls q in (last, result ∷ results)

-- The same on the function.
abbrev pub replay : List Call → Rooms → Rooms × List RoomResult
replay [] rooms = (rooms, [])
replay ((w, name, password, by) ∷ calls) rooms =
    let (later, result) = create_or_join w name password by rooms in
    let (last, results) = replay calls later in (last, result ∷ results)
