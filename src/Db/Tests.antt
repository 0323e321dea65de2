-- ===== src/Db/Tests.antt =====
-- Runs of the database's methods, and the theorems at inputs.
use pulse_chat.Base.{
  map, ◌≡◌, refl, ◌≢◌, ◌⊎◌, ◌↔◌, List, [], ◌∷◌, none, some, true, false, length, min, ◌+◌,
}
use pulse_chat.Text.Laws.{text_eq_iff}
use pulse_chat.Text.{units_of, text_eq, to_lower, trim, lower_unit}
use pulse_chat.Dict.{get, has, place, put, values, read, listed_before}
use pulse_chat.Db.{DbUser, DbRoom, PulseDatabase, World, save, missing}
use pulse_chat.Db.Users.{
  Claim, validate_and_register_user, owns_email, claimed_user, find_user_by_email, first_with_email,
  has_email, free_old_handle,
}
use pulse_chat.Db.Users.Valid.{IsUsers, validate_and_register_user-IsUsers}
use pulse_chat.Db.Users.Registration.{handle_of, email_of, validate_and_register_user_moves}
use pulse_chat.Db.Rooms.{create_or_join_room, enter_slot, enter, new_room, joined, joined_inherited}
use pulse_chat.Db.Rooms.Access.{create_or_join_room_locked, create_or_join_room_keeps}
use pulse_chat.Db.Rooms.Refinement.{Call}
use pulse_chat.Db.Messages.{
  save_message, save_direct_message, get_room_history, get_direct_messages_for_user,
}
use pulse_chat.Db.Messages.History.{save_message-length}

-- The code that a run computes with.
db_code : Unit {0}
unfolding validate_and_register_user to_lower trim lower_unit text_eq read get put has place
    listed_before find_user_by_email first_with_email values free_old_handle save owns_email
    create_or_join_room enter_slot enter new_room save_message save_direct_message get_room_history
    get_direct_messages_for_user
db_code = tt

abbrev world : World
world = record {
  now = 7;
  local_time = units_of "10:00:00";
  day_time = units_of "10:00:00.000";
  random_id = units_of "7-x";
  writable = true;
}

abbrev first_db : PulseDatabase
first_db = record { data_now = record { users = []; rooms = []; messages = [] }; file = missing }

abbrev alice_claim : Claim
alice_claim = record {
  email = some (units_of "A@x");
  display_name = none;
  avatar_url = none;
  provider = units_of "google";
}

abbrev bob_claim : Claim
bob_claim = record alice_claim { email = some (units_of "b@x") }

first_db-IsUsers : IsUsers first_db.data_now.users
unfolding get
first_db-IsUsers = record { distinct = tt; named = λ k u g. cc; unique = λ e k j u v g g' h h'. cc }

-- Alice has registered.
abbrev alice_db : PulseDatabase
alice_db = (validate_and_register_user world (units_of " Alice ") alice_claim first_db).0

alice_db-IsUsers : IsUsers alice_db.data_now.users
alice_db-IsUsers =
    validate_and_register_user-IsUsers world (units_of " Alice ") alice_claim first_db
      first_db-IsUsers

abbrev alice : DbUser
alice = claimed_user world (units_of "alice") (units_of "a@x") alice_claim none

validate_and_register_user_moves_example :
    (get
        (units_of "bob")
        (validate_and_register_user world (units_of "bob") alice_claim alice_db).0.data_now.users
      ≡ some (record alice { username = units_of "bob"; display_name = units_of "bob" }))
    ↔ (((units_of "bob" ≡ handle_of (units_of "bob"))
          × (record alice { username = units_of "bob"; display_name = units_of "bob" }
              ≡ claimed_user world
                  (handle_of (units_of "bob"))
                  (email_of alice_claim)
                  alice_claim
                  (find_user_by_email (email_of alice_claim) alice_db.data_now)))
        ⊎ ((get (units_of "bob") alice_db.data_now.users
              ≡ some (record alice { username = units_of "bob"; display_name = units_of "bob" }))
            × (has_email (email_of alice_claim) alice.email ≡ false)))
unfolding db_code
validate_and_register_user_moves_example =
    validate_and_register_user_moves world (units_of "bob") alice_claim alice_db alice_db-IsUsers
      refl refl refl (units_of "bob")
      (record alice { username = units_of "bob"; display_name = units_of "bob" })

-- A room with a password.
abbrev vault_db : PulseDatabase
vault_db = (create_or_join_room world (units_of "Vault") (some (units_of " s3 ")) none alice_db).0

abbrev vault : DbRoom
vault = new_room world (units_of "vault") (some (units_of " s3 ")) none

create_or_join_room_locked_example :
    ((create_or_join_room world (units_of "vault") (some (units_of "s3")) none vault_db).0
      ≡ vault_db)
    × (((create_or_join_room world (units_of "vault") (some (units_of "s3")) none vault_db).1
          ≡ joined vault)
        ↔ (trim (units_of "s3") ≡ trim (units_of "s3")))
unfolding db_code
create_or_join_room_locked_example =
    create_or_join_room_locked world (units_of "vault") (some (units_of "s3")) none vault_db vault
      (units_of "s3") refl refl (refl, refl, refl)

create_or_join_room_keeps_example :
    get
      (units_of "vault")
      (create_or_join_room world (units_of "a b") none none vault_db).0.data_now.rooms
    ≡ some vault
unfolding db_code
create_or_join_room_keeps_example =
    create_or_join_room_keeps world (units_of "a b") none none vault_db (units_of "vault") vault
      refl

-- A name that every object has passes for a room, and is never made.
constructor_room :
    create_or_join_room world (units_of "constructor") (some (units_of "pw")) none vault_db
    ≡ (vault_db, joined_inherited)
unfolding db_code
constructor_room = refl

abbrev talk_db : PulseDatabase
talk_db =
    save_direct_message world (units_of "bob") (units_of "al") (units_of "psst") none none
      (save_message world (units_of "Den") (units_of "bob") (units_of "hi") none none vault_db)

talk_read : map (λ m. m.text) (get_room_history (units_of "DEN") 50 talk_db) ≡ units_of "hi" ∷ []
unfolding db_code
talk_read = refl

save_message-length_example :
    (length
        (save_message world
          (units_of "den")
          (units_of "bob")
          (units_of "x")
          none
          none
          talk_db).data_now.messages
      ≡ min 5000 (length talk_db.data_now.messages + 1))
    × (length
          (save_direct_message world
            (units_of "den")
            (units_of "bob")
            (units_of "x")
            none
            none
            talk_db).data_now.messages
        ≡ min 10000 (length talk_db.data_now.messages + 1))
save_message-length_example =
    save_message-length world (units_of "den") (units_of "bob") (units_of "x") none none talk_db

eve-ne-bob : to_lower (units_of "eve") ≢ to_lower (units_of "bob")
unfolding db_code
eve-ne-bob e = cc ((text_eq_iff (to_lower (units_of "eve")) (to_lower (units_of "bob"))).1 e)

eve-ne-al : to_lower (units_of "eve") ≢ to_lower (units_of "al")
unfolding db_code
eve-ne-al e = cc ((text_eq_iff (to_lower (units_of "eve")) (to_lower (units_of "al"))).1 e)

-- One makes a room, another asks for it, and a third misses its password.
abbrev den_calls : List Call
den_calls =
    (world, units_of "Den", some (units_of "pw"), some (units_of "bob"))
    ∷ (world, units_of "den", some (units_of "pw "), none)
    ∷ (world, units_of "den", none, none)
    ∷ []
