-- ===== src/Db/Evolution.antt =====
-- How the methods of the database change it: what every one of them keeps.
use pulse_chat.Base.{ℕ, ◌≡◌, refl, [], Option, some, arith, length, ◌≤◌}
use pulse_chat.Text.{Text, to_lower, trim}
use pulse_chat.Dict.{read, Slot, own, inherited, absent, get}
use pulse_chat.Db.{save, DbUser, DbRoom, DbMessage, World, PulseDatabase}
use pulse_chat.Db.Users.{
  Claim, register_email, register_guest, default_to, validate_and_register_user,
}
use pulse_chat.Db.Users.Valid.{IsUsers, validate_and_register_user-IsUsers}
use pulse_chat.Db.Rooms.{create_or_join_room}
use pulse_chat.Db.Rooms.Access.{create_or_join_room_keeps}
use pulse_chat.Db.Messages.{store_message, save_message, save_direct_message}
use pulse_chat.Db.Messages.History.{save_message-length}

-- The database is in shape: no name and no email twice, and a bounded store of messages.
abbrev pub IsSound : PulseDatabase → Type 0
IsSound db = IsUsers db.data_now.users × (length db.data_now.messages ≤ 10000)

-- A database that another may become: it stays in shape, and every room stays what it was.
pub record Evolves (db db' : PulseDatabase) : Type 0 where
  pub sound : IsSound db → IsSound db'
  pub rooms_kept :
      (k : Text) (r : DbRoom) → get k db.data_now.rooms ≡ some r → get k db'.data_now.rooms ≡ some r

pub Evolves-refl : (db : PulseDatabase) → Evolves db db
Evolves-refl db = record { sound = λ h. h; rooms_kept = λ k r h. h }

pub Evolves-trans : {a b c : PulseDatabase} → Evolves a b → Evolves b c → Evolves a c
Evolves-trans e f = record {
  sound = λ h. f.sound (e.sound h);
  rooms_kept = λ k r h. f.rooms_kept k r (e.rooms_kept k r h);
}

pub Evolves-of_eq : {a b : PulseDatabase} → b ≡ a → Evolves a b
Evolves-of_eq {a} e = rw e (Evolves-refl a)

module _ (w : World) (handle : Text) (c : Claim) (p : PulseDatabase) where
  register_email-rest :
      (e : Text) (found : Slot DbUser)
      → ((register_email w handle e c found p).0.data_now.rooms ≡ p.data_now.rooms)
        × ((register_email w handle e c found p).0.data_now.messages ≡ p.data_now.messages)
  unfolding register_email save
  register_email-rest e (own u) = ground arith
  register_email-rest e inherited = (refl, refl)
  register_email-rest e absent = ground arith

  register_guest-rest :
      (found : Slot DbUser)
      → ((register_guest w handle c found p).0.data_now.rooms ≡ p.data_now.rooms)
        × ((register_guest w handle c found p).0.data_now.messages ≡ p.data_now.messages)
  unfolding register_guest save
  register_guest-rest absent = ground arith
  register_guest-rest _ = (refl, refl)

validate_and_register_user-rest :
    (w : World) (username : Text) (c : Claim) (p : PulseDatabase)
    → ((validate_and_register_user w username c p).0.data_now.rooms ≡ p.data_now.rooms)
      × ((validate_and_register_user w username c p).0.data_now.messages ≡ p.data_now.messages)
unfolding validate_and_register_user
validate_and_register_user-rest w username c p =
    let handle = to_lower (trim username) in
    let found = read handle p.data_now.users in
    ground (
      arith,
      register_email-rest w handle c p (to_lower (trim (default_to c.email []))) found,
      register_guest-rest w handle c p found,
    )

pub validate_and_register_user-Evolves :
    (w : World) (username : Text) (c : Claim) (p : PulseDatabase)
    → Evolves p (validate_and_register_user w username c p).0
validate_and_register_user-Evolves w username c p =
    let (rooms, messages) = validate_and_register_user-rest w username c p in
    record {
      sound = λ h. (validate_and_register_user-IsUsers w username c p h.0, rw messages h.1);
      rooms_kept = λ k r h. rw rooms h;
    }

create_or_join_room-rest :
    (w : World) (name : Text) (password by : Option Text) (p : PulseDatabase)
    → ((create_or_join_room w name password by p).0.data_now.users ≡ p.data_now.users)
      × ((create_or_join_room w name password by p).0.data_now.messages ≡ p.data_now.messages)
unfolding create_or_join_room save
create_or_join_room-rest w name password by p = ground arith

pub create_or_join_room-Evolves :
    (w : World) (name : Text) (password by : Option Text) (p : PulseDatabase)
    → Evolves p (create_or_join_room w name password by p).0
create_or_join_room-Evolves w name password by p =
    let (users, messages) = create_or_join_room-rest w name password by p in
    record {
      sound = λ h. (rw users h.0, rw messages h.1);
      rooms_kept = create_or_join_room_keeps w name password by p;
    }

store_message-Evolves :
    (w : World) (n : ℕ) (m : DbMessage) (p : PulseDatabase)
    → length (store_message w n m p).data_now.messages ≤ 10000
    → Evolves p (store_message w n m p)
unfolding store_message save
store_message-Evolves w n m p bound = record {
  sound = λ h. (ground (arith, h.0), bound);
  rooms_kept = λ k r h. ground arith;
}

pub save_message-Evolves :
    (w : World) (a b text : Text) (name picture : Option Text) (p : PulseDatabase)
    → Evolves p (save_message w a b text name picture p)
unfolding save_message
save_message-Evolves w a b text name picture p =
    store_message-Evolves w 5000 _ p
      (omega (arith, (save_message-length w a b text name picture p).0))

pub save_direct_message-Evolves :
    (w : World) (a b text : Text) (name picture : Option Text) (p : PulseDatabase)
    → Evolves p (save_direct_message w a b text name picture p)
unfolding save_direct_message
save_direct_message-Evolves w a b text name picture p =
    store_message-Evolves w 10000 _ p
      (omega (arith, (save_message-length w a b text name picture p).1))
