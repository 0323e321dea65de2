-- ===== src/Gateway/Rooms.antt =====
-- `getEnrichedRooms` of gateway/src/server.ts.
use pulse_chat.Base.{
  All, ℕ, List, [], ◌∷◌, Option, none, some, false, ◌≡◌, refl, inl, inr, arith, Bool-cases,
  if◌then◌else◌,
}
use pulse_chat.Text.{Text, to_lower, text_eq}
use pulse_chat.Text.Laws.{text_eq_iff}
use pulse_chat.Dict.{Dict, get, set, values}
use pulse_chat.Dict.Laws.{Distinct, get-set}
use pulse_chat.Db.{DbRoom, PulseDatabase}
use pulse_chat.Db.Rooms.{get_all_rooms}
use pulse_chat.Gateway.{RoomInfo}

-- A room of the server's metrics.
pub record LiveRoom : Type 0 where
  pub name : Text
  pub users : ℕ

-- The first loop: the rooms of the database, with no users.
unfoldable pub add_db_rooms : List DbRoom → Dict RoomInfo → Dict RoomInfo
add_db_rooms [] m = m
add_db_rooms (r ∷ rs) m =
    add_db_rooms rs
      (set (to_lower r.name) (record { name = r.name; users = 0; is_protected = r.is_protected }) m)

unfoldable pub merge_entry : LiveRoom → Option RoomInfo → RoomInfo
merge_entry lr none = record { name = lr.name; users = lr.users; is_protected = false }
merge_entry lr (some room) = record room { users = lr.users }

-- The second loop: the counts of the server.
unfoldable pub merge_live_rooms : List LiveRoom → Dict RoomInfo → Dict RoomInfo
unfolding merge_entry
merge_live_rooms [] m = m
merge_live_rooms (lr ∷ lrs) m =
    let key = to_lower lr.name in merge_live_rooms lrs (set key (merge_entry lr (get key m)) m)

unfoldable pub enriched_map : List LiveRoom → PulseDatabase → Dict RoomInfo
unfolding add_db_rooms merge_live_rooms get_all_rooms
enriched_map live_rooms db = merge_live_rooms live_rooms (add_db_rooms (get_all_rooms db) [])

-- `getEnrichedRooms`
unfoldable pub get_enriched_rooms : List LiveRoom → PulseDatabase → List RoomInfo
unfolding enriched_map values
get_enriched_rooms live_rooms db = values (enriched_map live_rooms db)

-- What the metrics of the server say of a key: the last count listed for it.
unfoldable pub last_count : Text → List LiveRoom → Option ℕ
last_count key [] = none
last_count key (lr ∷ lrs) = elim (last_count key lrs) [
  | some n ↦ some n
  | none ↦ if text_eq (to_lower lr.name) key then some lr.users else none
]

abbrev pub with_count : Option ℕ → RoomInfo → RoomInfo
with_count none room = room
with_count (some n) room = record room { users = n }

-- Merging keeps a room that is there, its name and protection, and takes the last count.
merge_live_rooms-get :
    (key : Text) (lrs : List LiveRoom) (m : Dict RoomInfo) (room : RoomInfo)
    → get key m ≡ some room
    → get key (merge_live_rooms lrs m) ≡ some (with_count (last_count key lrs) room)
unfolding merge_live_rooms last_count merge_entry
merge_live_rooms-get key [] m room h = h
merge_live_rooms-get key (lr ∷ lrs) m room h =
    let entry = merge_entry lr (get (to_lower lr.name) m) in
    let m' = set (to_lower lr.name) entry m in
    elim (Bool-cases (text_eq (to_lower lr.name) key)) [
      | inl same ↦
          let e : to_lower lr.name ≡ key = (text_eq_iff (to_lower lr.name) key).0 same in
          let now : get key m' ≡ some (record room { users = lr.users }) =
            ground (arith, get-set (to_lower lr.name) key entry m, e) in
          ground (arith, merge_live_rooms-get key lrs m' (record room { users = lr.users }) now)
      | inr other ↦
          let now : get key m' ≡ some room =
            ground (arith, get-set (to_lower lr.name) key entry m) in
          ground (arith, merge_live_rooms-get key lrs m' room now)
    ]

-- The rooms' table as the database keeps it: a room stands under its name in lower case.
abbrev pub IsNamed : Dict DbRoom → Type 0
IsNamed rooms = All (λ (e : Text × DbRoom). to_lower e.1.name ≡ e.0) rooms

add_db_rooms-other :
    (key : Text) (rooms : Dict DbRoom) (m : Dict RoomInfo)
    → IsNamed rooms
    → get key rooms ≡ none
    → get key (add_db_rooms (values rooms) m) ≡ get key m
unfolding add_db_rooms get values
add_db_rooms-other key [] m n h = refl
add_db_rooms-other key ((j, r) ∷ rooms) m (name, n) h =
    let info : RoomInfo = record { name = r.name; users = 0; is_protected = r.is_protected } in
    let m' = set (to_lower r.name) info m in
    ground (
      arith,
      name,
      add_db_rooms-other key rooms m' n,
      get-set (to_lower r.name) key info m,
      text_eq_iff j key,
    )

add_db_rooms-get :
    (key : Text) (rooms : Dict DbRoom) (m : Dict RoomInfo) (r : DbRoom)
    → IsNamed rooms
    → Distinct rooms
    → get key rooms ≡ some r
    → get key (add_db_rooms (values rooms) m)
      ≡ some (record { name = r.name; users = 0; is_protected = r.is_protected })
unfolding add_db_rooms get values
add_db_rooms-get key [] m r n d h = cc
add_db_rooms-get key ((j, v) ∷ rooms) m r (name, n) (new, d) h =
    let info : RoomInfo = record { name = v.name; users = 0; is_protected = v.is_protected } in
    let m' = set (to_lower v.name) info m in
    elim (Bool-cases (text_eq j key)) [
      | inl same ↦
          let e : j ≡ key = (text_eq_iff j key).0 same in
          let found : v ≡ r = ground arith in
          ground (
            arith,
            name,
            e,
            found,
            add_db_rooms-other key rooms m' n,
            get-set (to_lower v.name) key info m,
            text_eq_iff (to_lower v.name) key,
          )
      | inr other ↦ ground (arith, add_db_rooms-get key rooms m' r n d)
    ]

-- Every room of the database is shown, with its protection, and with the users that the chat
-- server last counted for it, or none.
pub enriched_map-get :
    (live_rooms : List LiveRoom) (db : PulseDatabase) (key : Text) (r : DbRoom)
    → IsNamed db.data_now.rooms
    → Distinct db.data_now.rooms
    → get key db.data_now.rooms ≡ some r
    → get key (enriched_map live_rooms db)
      ≡ some (
          with_count
            (last_count key live_rooms)
            (record { name = r.name; users = 0; is_protected = r.is_protected }))
unfolding enriched_map get_all_rooms
enriched_map-get live_rooms db key r n d h =
    merge_live_rooms-get key live_rooms _ _ (add_db_rooms-get key db.data_now.rooms [] r n d h)
