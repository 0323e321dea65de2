-- ===== src/Server/Rooms/Naming.antt =====
-- Registration in src/core/room_manager.cpp, and all its calls together.
use pulse_chat.Base.{
  ℕ, ◌≡◌, ◌≢◌, refl, ◌∙◌, none, some, true, false, ◌==◌, if◌then◌else◌, arith, Option-cases, inl,
  inr,
}
use pulse_chat.Text.{text_eq}
use pulse_chat.Text.Laws.{text_eq_iff, text_eq_refl}
use pulse_chat.Utf8.{Bytes}
use pulse_chat.Dict.{Dict, get, set, delete}
use pulse_chat.Dict.Laws.{get-set, set-Distinct, has-get}
use pulse_chat.Server.IdMap.{find, set_at, erase, is_member, find-set_at, find-erase}
use pulse_chat.Server.Rooms.{
  UserInfo, RoomManager, default_room, normalize_name, add_member, remove_member, forget_name,
  add_user, register_user, name_error, unregister_user, join_room, leave_room, new_room_manager,
  get_room_members,
}
use pulse_chat.Server.Rooms.Consistent.Calls.{
  is_given-forget_name, forget_name-Distinct, unregister_user-IsConsistent, join_room-IsConsistent,
  leave_room-IsConsistent,
}
use pulse_chat.Server.Rooms.Consistent.{
  IsConsistent, new_room_manager-IsConsistent, is_in, is_home, is_given, is_named, is_in-add_member,
  is_in-remove_member, add_member-Distinct, add_member-once,
}

-- A connection that may register: if it has a name already, it stands in the default room.
abbrev pub MayRegister : ℕ → RoomManager → Type 0
MayRegister c m =
    (info : UserInfo) → find c m.users_by_id ≡ some info → info.current_room ≡ default_room

new_user : Bytes → UserInfo
new_user username = record { username = username; current_room = default_room }

name_error-free :
    (username : Bytes) (m : RoomManager)
    → name_error username m ≡ none
    → get (normalize_name username) m.users_by_name ≡ none
unfolding name_error
name_error-free username m h = ground (arith, has-get (normalize_name username) m.users_by_name)

home_added :
    (c d : ℕ) (username other : Bytes) (m : RoomManager)
    → IsConsistent m
    → MayRegister c m
    → is_in d other (add_member c default_room m.rooms)
      ≡ is_home d other
          (set_at c (record { username = username; current_room = default_room }) m.users_by_id)
home_added c d username other m ok may =
    let user : UserInfo = record { username = username; current_room = default_room } in
    rw (is_in-add_member c d default_room other m.rooms, ok.placed d other)
      (elim (Option-cases (find c m.users_by_id)) [
        | inl e ↦ ground (arith, e, find-set_at c d user m.users_by_id)
        | inr (info, e) ↦ ground (arith, e, may info e, find-set_at c d user m.users_by_id)
      ])

is_given-set :
    (c d : ℕ) (own name : Bytes) (names : Dict ℕ)
    → is_given d name (set own c names)
      ≡ (if text_eq own name then c == d else is_given d name names)
is_given-set c d own name names = ground (arith, get-set own name c names)

name_added :
    (c d : ℕ) (username name : Bytes) (m : RoomManager)
    → IsConsistent m
    → get (normalize_name username) m.users_by_name ≡ none
    → is_given d name (set (normalize_name username) c (forget_name c m))
      ≡ is_named d name
          (set_at c (record { username = username; current_room = default_room }) m.users_by_id)
name_added c d username name m ok free =
    let own = normalize_name username in
    let user : UserInfo = record { username = username; current_room = default_room } in
    rw (is_given-set c d own name (forget_name c m), is_given-forget_name c d name m ok)
      (ground (
        arith,
        find-set_at c d user m.users_by_id,
        find-erase c d m.users_by_id,
        text_eq_iff own name,
        ok.named d own,
        free,
      ))

pub register_user-IsConsistent :
    (c : ℕ) (username : Bytes) (m : RoomManager)
    → IsConsistent m
    → MayRegister c m
    → IsConsistent (register_user c username m).1
unfolding register_user add_user
register_user-IsConsistent c username m ok may = elim (Option-cases (name_error username m)) [
  | inr (_, e) ↦ rw (register_user, e) ok
  | inl e ↦
      rw (register_user, e)
        (record {
          placed = λ d other. home_added c d username other m ok may;
          named = λ d name. name_added c d username name m ok (name_error-free username m e);
          once = λ d other. add_member-once c d default_room other m.rooms (ok.once d);
          rooms_distinct = add_member-Distinct c default_room m.rooms ok.rooms_distinct;
          names_distinct = set-Distinct _ c _ (forget_name-Distinct c m ok);
        })
]

-- A call that changes the tables.
pub data RoomCall : Type 0 where
  register join : ℕ → Bytes → RoomCall
  unregister leave_it : ℕ → RoomCall

abbrev pub apply_call : RoomCall → RoomManager → RoomManager
apply_call (register c username) m = (register_user c username m).1
apply_call (join c room) m = (join_room c room m).1
apply_call (unregister c) m = unregister_user c m
apply_call (leave_it c) m = (leave_room c m).1

abbrev pub IsAllowed : RoomCall → RoomManager → Type 0
IsAllowed (register c username) m = MayRegister c m
IsAllowed _ m = Unit {0}

-- The states that the calls reach, where no connection registers again from another room.
pub data Reachable : RoomManager → Type 0 where
  start : Reachable new_room_manager
  call : {m : RoomManager} (k : RoomCall) → IsAllowed k m → Reachable m → Reachable (apply_call k m)

apply_call-IsConsistent :
    (k : RoomCall) (m : RoomManager)
    → IsConsistent m
    → IsAllowed k m
    → IsConsistent (apply_call k m)
apply_call-IsConsistent (register c username) m ok may =
    register_user-IsConsistent c username m ok may
apply_call-IsConsistent (join c room) m ok _ = join_room-IsConsistent c room m ok
apply_call-IsConsistent (unregister c) m ok _ = unregister_user-IsConsistent c m ok
apply_call-IsConsistent (leave_it c) m ok _ = leave_room-IsConsistent c m ok

-- In every state that the calls reach, where no connection registers again while it stands in a room
-- other than the default one: a connection is a member of exactly the room that its user is in, and
-- once, and a name, in lower case, belongs to exactly the connection whose user has it.
pub Reachable-IsConsistent : (m : RoomManager) → Reachable m → IsConsistent m
Reachable-IsConsistent _ start = new_room_manager-IsConsistent
Reachable-IsConsistent _ (call {m} k may r) =
    apply_call-IsConsistent k m (Reachable-IsConsistent m r) may

is_in_after :
    (c : ℕ) (room : Bytes) (m : RoomManager)
    → IsConsistent m
    → text_eq default_room room ≡ false
    → is_in c room m.rooms ≡ true
    → is_in c room (remove_member c default_room (add_member c default_room m.rooms)) ≡ true
is_in_after c room m ok other h =
    rw
      (
        is_in-remove_member c c default_room room (add_member c default_room m.rooms)
            (add_member-Distinct c default_room m.rooms ok.rooms_distinct),
        is_in-add_member c c default_room room m.rooms,
        other,
      )
      h

register_user-free :
    (c : ℕ) (username : Bytes) (m : RoomManager)
    → name_error username m ≡ none
    → (register_user c username m).1 ≡ add_user c username m
unfolding register_user
register_user-free c username m free = rw (register_user, free) refl

unregister_user-there :
    (c : ℕ) (m : RoomManager) (info : UserInfo)
    → find c m.users_by_id ≡ some info
    → unregister_user c m ≡ record {
      users_by_id = erase c m.users_by_id;
      users_by_name = delete (normalize_name info.username) m.users_by_name;
      rooms = remove_member c info.current_room m.rooms;
    }
unfolding unregister_user
unregister_user-there c m info e = rw (unregister_user, e) refl

-- A connection that registers again, under a name that is free, while it stands in a room other than
-- the default one, stays a member of that room: when it is gone, and no user has its id, it is a member
-- still.
pub register_user-stays :
    (c : ℕ) (username : Bytes) (m : RoomManager) (info : UserInfo)
    → IsConsistent m
    → find c m.users_by_id ≡ some info
    → info.current_room ≢ default_room
    → name_error username m ≡ none
    → let after = unregister_user c (register_user c username m).1 in
      (find c after.users_by_id ≡ none)
      × (is_member c (get_room_members info.current_room none after) ≡ true)
unfolding add_user get_room_members
register_user-stays c username m info ok e away free =
    let user : UserInfo = record { username = username; current_room = default_room } in
    let here : is_in c info.current_room m.rooms ≡ true =
      ok.placed c info.current_room ∙ ground (arith, e, text_eq_refl info.current_room) in
    let other : text_eq default_room info.current_room ≡ false =
      ground (arith, text_eq_iff default_room info.current_room, away) in
    let there : find c (set_at c user m.users_by_id) ≡ some user =
      ground (arith, find-set_at c c user m.users_by_id) in
    rw
      (
        register_user-free c username m free,
        unregister_user-there c (add_user c username m) user there,
      )
      (
        ground (arith, find-erase c c (set_at c user m.users_by_id)),
        is_in_after c info.current_room m ok other here,
      )
