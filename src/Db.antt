-- ===== src/Db.antt =====
-- gateway/src/db.ts: the data of `PulseDatabase`, its file, and opening it. The methods are those
-- of the children. The clock enters as the argument `now`, one reading for a call; `JSON` writes
-- and reads the data unchanged, and the file system says of each call whether it works.
pub mod Users
pub mod Rooms
pub mod Messages
pub mod Evolution
mod Tests
use pulse_chat.Base.{ℕ, List, [], ◌∷◌, Option, none, some, Bool, true, false, if◌then◌else◌}
use pulse_chat.Text.{Text, units_of}
use pulse_chat.Dict.{Dict, read, put, Slot, own, inherited, absent}

-- `DbUser`
pub record DbUser : Type 0 where
  pub username : Text
  pub email : Option Text
  pub display_name : Text
  pub avatar_url : Text
  pub provider : Text
  pub created_at : ℕ
  pub last_active : ℕ

-- `DbRoom`
pub record DbRoom : Type 0 where
  pub name : Text
  pub is_protected : Bool
  pub password : Option Text
  pub created_by : Option Text
  pub created_at : ℕ

-- `DbMessage`; an absent `isPrivate` is false.
pub record DbMessage : Type 0 where
  pub id : Text
  pub room : Option Text
  pub sender : Text
  pub target_user : Option Text
  pub is_private : Bool
  pub display_name : Option Text
  pub avatar_url : Option Text
  pub text : Text
  pub timestamp : Text
  pub created_at : ℕ

-- `DatabaseSchema`
pub record DatabaseSchema : Type 0 where
  pub users : Dict DbUser
  pub rooms : Dict DbRoom
  pub messages : List DbMessage

-- The file: there is none, it is no JSON, or it holds a database.
pub data DbFile : Type 0 where
  missing corrupt : DbFile
  holds : DatabaseSchema → DbFile

-- `PulseDatabase`, with its file.
pub record PulseDatabase : Type 0 where
  pub data_now : DatabaseSchema
  pub file : DbFile

-- What a call finds outside: `Date.now()`, `toLocaleTimeString()`, the time of day to the
-- millisecond, the text made of a time and a random number, and whether the file can be written.
pub record World : Type 0 where
  pub now : ℕ
  pub local_time : Text
  pub day_time : Text
  pub random_id : Text
  pub writable : Bool

-- `save`
unfoldable pub save : World → PulseDatabase → PulseDatabase
save w p = if w.writable then record p { file = holds p.data_now } else p

abbrev pub open_room : Text → ℕ → DbRoom
open_room name now = record {
  name = name;
  is_protected = false;
  password = none;
  created_by = none;
  created_at = now;
}

abbrev pub general : Text
general = units_of "general"

-- The data of the constructor.
unfoldable pub default_data : ℕ → DatabaseSchema
default_data now = record {
  users = [];
  rooms =
      (general, open_room general now)
      ∷ (units_of "engineering", open_room (units_of "engineering") now)
      ∷ (units_of "gaming", open_room (units_of "gaming") now)
      ∷ [];
  messages = [];
}

-- `this.data.rooms.general`, made if it is not there.
unfoldable pub ensure_general : ℕ → DatabaseSchema → DatabaseSchema
ensure_general now d = elim (read general d.rooms) [
  | absent ↦ record d { rooms = put general (open_room general now) d.rooms }
  | _ ↦ d
]

-- The constructor and `init`.
unfoldable pub open_database : World → DbFile → PulseDatabase
unfolding save default_data ensure_general
open_database w missing = save w (record { data_now = default_data w.now; file = missing })
open_database w corrupt = record { data_now = default_data w.now; file = corrupt }
open_database w (holds d) = record { data_now = ensure_general w.now d; file = holds d }
