-- ===== src/Server/Rooms/Consistent/Calls.antt =====
-- Every call of src/core/room_manager.cpp but registration keeps its tables in agreement.
use pulse_chat.Base.{ℕ, ◌≡◌, ◌∙◌, some, true, not, ◌&&◌, arith, Option-cases, inl, inr}
use pulse_chat.Text.{text_eq}
use pulse_chat.Text.Laws.{text_eq_iff}
use pulse_chat.Utf8.{Bytes}
use pulse_chat.Dict.{Dict, delete}
use pulse_chat.Dict.Laws.{get-delete, Distinct, delete-Distinct}
use pulse_chat.Server.IdMap.{find, erase, find-set_at, find-erase}
use pulse_chat.Server.Rooms.{
  UserInfo, RoomManager, default_room, normalize_name, remove_member, forget_name, unregister_user,
  move_user, join_room, leave_room,
}
use pulse_chat.Server.Rooms.Consistent.{
  IsConsistent, add_member-Distinct, add_member-once, is_given, is_home, is_in, is_in-add_member,
  is_in-remove_member, is_named, remove_member-Distinct, remove_member-once,
}

home_moved :
    (c d : ℕ) (info : UserInfo) (room other : Bytes) (m : RoomManager)
    → IsConsistent m
    → find c m.users_by_id ≡ some info
    → is_in d other (move_user c info room m).rooms
      ≡ is_home d other (move_user c info room m).users_by_id
home_moved c d info room other m ok e =
    let before = remove_member c info.current_room m.rooms in
    rw
      (
        is_in-add_member c d room other before,
        is_in-remove_member c d info.current_room other m.rooms ok.rooms_distinct,
        ok.placed d other,
      )
      (ground (
        arith,
        e,
        text_eq_iff room other,
        find-set_at c d (record info { current_room = room }) m.users_by_id,
      ))

name_moved :
    (c d : ℕ) (info : UserInfo) (room name : Bytes) (m : RoomManager)
    → IsConsistent m
    → find c m.users_by_id ≡ some info
    → is_given d name m.users_by_name ≡ is_named d name (move_user c info room m).users_by_id
name_moved c d info room name m ok e =
    rw (ok.named d name)
      (ground (arith, e, find-set_at c d (record info { current_room = room }) m.users_by_id))

move_user-IsConsistent :
    (c : ℕ) (info : UserInfo) (room : Bytes) (m : RoomManager)
    → IsConsistent m
    → find c m.users_by_id ≡ some info
    → IsConsistent (move_user c info room m)
move_user-IsConsistent c info room m ok e = record {
  placed = λ d other. home_moved c d info room other m ok e;
  named = λ d name. name_moved c d info room name m ok e;
  once = λ d other.
      add_member-once c d room other (remove_member c info.current_room m.rooms)
        (λ r. remove_member-once c d info.current_room r m.rooms ok.rooms_distinct (ok.once d));
  rooms_distinct =
      add_member-Distinct c room _
        (remove_member-Distinct c info.current_room m.rooms ok.rooms_distinct);
  names_distinct = ok.names_distinct;
}

pub join_room-IsConsistent :
    (c : ℕ) (room : Bytes) (m : RoomManager) → IsConsistent m → IsConsistent (join_room c room m).1
unfolding join_room
join_room-IsConsistent c room m ok = elim (Option-cases (find c m.users_by_id)) [
  | inl e ↦ rw (join_room, e) (ground (arith, ok))
  | inr (info, e) ↦
      rw (join_room, e) (ground (arith, ok, move_user-IsConsistent c info room m ok e))
]

pub leave_room-IsConsistent :
    (c : ℕ) (m : RoomManager) → IsConsistent m → IsConsistent (leave_room c m).1
unfolding leave_room
leave_room-IsConsistent c m ok = elim (Option-cases (find c m.users_by_id)) [
  | inl e ↦ rw (leave_room, e) ok
  | inr (info, e) ↦
      rw (leave_room, e) (ground (arith, ok, move_user-IsConsistent c info default_room m ok e))
]

pub home_left :
    (c d : ℕ) (info : UserInfo) (other : Bytes) (m : RoomManager)
    → IsConsistent m
    → find c m.users_by_id ≡ some info
    → is_in d other (remove_member c info.current_room m.rooms)
      ≡ is_home d other (erase c m.users_by_id)
home_left c d info other m ok e =
    rw
      (is_in-remove_member c d info.current_room other m.rooms ok.rooms_distinct, ok.placed d other)
      (ground (arith, e, find-erase c d m.users_by_id))

is_given-delete :
    (d : ℕ) (own name : Bytes) (names : Dict ℕ)
    → Distinct names
    → is_given d name (delete own names) ≡ (not (text_eq own name) && is_given d name names)
is_given-delete d own name names distinct = ground (arith, get-delete own name names distinct)

-- No two connections have a name.
one_holder :
    (c d : ℕ) (name : Bytes) (m : RoomManager)
    → IsConsistent m
    → is_named c name m.users_by_id ≡ true
    → is_named d name m.users_by_id ≡ true
    → c ≡ d
one_holder c d name m ok hc hd =
    let gc : is_given c name m.users_by_name ≡ true = ok.named c name ∙ hc in
    let gd : is_given d name m.users_by_name ≡ true = ok.named d name ∙ hd in ground (arith, gc, gd)

pub name_left :
    (c d : ℕ) (info : UserInfo) (name : Bytes) (m : RoomManager)
    → IsConsistent m
    → find c m.users_by_id ≡ some info
    → is_given d name (delete (normalize_name info.username) m.users_by_name)
      ≡ is_named d name (erase c m.users_by_id)
name_left c d info name m ok e =
    rw
      (
        is_given-delete d (normalize_name info.username) name m.users_by_name ok.names_distinct,
        ok.named d name,
      )
      (ground (
        arith,
        e,
        find-erase c d m.users_by_id,
        one_holder c d name m ok,
        text_eq_iff (normalize_name info.username) name,
      ))

pub unregister_user-IsConsistent :
    (c : ℕ) (m : RoomManager) → IsConsistent m → IsConsistent (unregister_user c m)
unfolding unregister_user
unregister_user-IsConsistent c m ok = elim (Option-cases (find c m.users_by_id)) [
  | inl e ↦ rw (unregister_user, e) ok
  | inr (info, e) ↦
      rw (unregister_user, e)
        (record {
          placed = λ d other. home_left c d info other m ok e;
          named = λ d name. name_left c d info name m ok e;
          once = λ d other.
              remove_member-once c d info.current_room other m.rooms ok.rooms_distinct (ok.once d);
          rooms_distinct = remove_member-Distinct c info.current_room m.rooms ok.rooms_distinct;
          names_distinct =
              delete-Distinct (normalize_name info.username) m.users_by_name ok.names_distinct;
        })
]

-- The name that a connection gives up is the one it has.
pub is_given-forget_name :
    (c d : ℕ) (name : Bytes) (m : RoomManager)
    → IsConsistent m
    → is_given d name (forget_name c m) ≡ is_named d name (erase c m.users_by_id)
unfolding forget_name
is_given-forget_name c d name m ok = elim (Option-cases (find c m.users_by_id)) [
  | inl e ↦ rw (forget_name, e) (ok.named d name ∙ ground (arith, e, find-erase c d m.users_by_id))
  | inr (info, e) ↦ rw (forget_name, e) (name_left c d info name m ok e)
]

pub forget_name-Distinct : (c : ℕ) (m : RoomManager) → IsConsistent m → Distinct (forget_name c m)
unfolding forget_name
forget_name-Distinct c m ok = elim (Option-cases (find c m.users_by_id)) [
  | inl e ↦ rw (forget_name, e) ok.names_distinct
  | inr (info, e) ↦
      rw (forget_name, e)
        (delete-Distinct (normalize_name info.username) m.users_by_name ok.names_distinct)
]
