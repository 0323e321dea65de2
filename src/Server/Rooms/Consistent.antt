-- ===== src/Server/Rooms/Consistent.antt =====
-- The tables of src/core/room_manager.cpp agree with each other.
pub mod Calls
use pulse_chat.Base.{
  ℕ, subst, Option, ◌≤◌, ◌≡◌, refl, ◌∙◌, [], ◌∷◌, none, some, Bool, true, false, not, ◌&&◌, ◌||◌,
  ◌==◌, if◌then◌else◌, arith, Option-cases, inl, inr,
}
use pulse_chat.Text.{text_eq, is_empty}
use pulse_chat.Text.Laws.{text_eq_iff}
use pulse_chat.Utf8.{Bytes}
use pulse_chat.Dict.{Dict, get, set, delete}
use pulse_chat.Dict.Laws.{get-set, get-delete, Distinct, set-Distinct, delete-Distinct}
use pulse_chat.Server.IdMap.{
  IdMap, find, erase, IdSet, is_member, insert, erase_member, copies, copies-insert,
  copies-erase_member, find-set_at, find-erase, is_member-insert, is_member-erase_member,
}
use pulse_chat.Server.Rooms.{
  UserInfo, RoomManager, default_room, normalize_name, members_of, add_member, remove_member,
  forget_name, unregister_user, move_user, join_room, leave_room, new_room_manager,
}

-- Whether a connection is a member of a room, by the table of rooms.
abbrev pub is_in : ℕ → Bytes → Dict IdSet → Bool
is_in c room rooms = is_member c (members_of room rooms)

-- Whether that room is the connection's, by the table of users.
abbrev pub is_home : ℕ → Bytes → IdMap UserInfo → Bool
is_home c room users = elim (find c users) [
  | none ↦ false
  | some info ↦ text_eq info.current_room room
]

-- Whether a name, in lower case, is given to a connection, by the table of names.
abbrev pub is_given : ℕ → Bytes → Dict ℕ → Bool
is_given c name names = elim (get name names) [ none ↦ false | some d ↦ d == c ]

-- Whether it is the connection's, by the table of users.
abbrev pub is_named : ℕ → Bytes → IdMap UserInfo → Bool
is_named c name users = elim (find c users) [
  | none ↦ false
  | some info ↦ text_eq (normalize_name info.username) name
]

-- A connection is a member of exactly the room that its user is in, and once, and a name belongs to exactly the
-- connection whose user has it.
pub record IsConsistent (m : RoomManager) : Type 0 where
  pub placed : (c : ℕ) (room : Bytes) → is_in c room m.rooms ≡ is_home c room m.users_by_id
  pub named :
      (c : ℕ) (name : Bytes) → is_given c name m.users_by_name ≡ is_named c name m.users_by_id
  pub once : (c : ℕ) (room : Bytes) → copies c (members_of room m.rooms) ≤ 1
  pub rooms_distinct : Distinct m.rooms
  pub names_distinct : Distinct m.users_by_name

pub new_room_manager-IsConsistent : IsConsistent new_room_manager
unfolding new_room_manager get find is_member
new_room_manager-IsConsistent = record {
  placed = λ c room. ground arith;
  named = λ c name. refl;
  once = λ c room. ground arith;
  rooms_distinct = (refl, tt);
  names_distinct = tt;
}

members_of-set :
    (room other : Bytes) (members : IdSet) (rooms : Dict IdSet)
    → members_of other (set room members rooms)
      ≡ (if text_eq room other then members else members_of other rooms)
members_of-set room other members rooms = ground (arith, get-set room other members rooms)

pub is_in-add_member :
    (c d : ℕ) (room other : Bytes) (rooms : Dict IdSet)
    → is_in d other (add_member c room rooms)
      ≡ (text_eq room other && c == d || is_in d other rooms)
unfolding add_member
is_in-add_member c d room other rooms =
    rw (members_of-set room other (insert c (members_of room rooms)) rooms)
      (ground (arith, text_eq_iff room other, is_member-insert c d (members_of room rooms)))

is_member_empty : (d : ℕ) (s : IdSet) → is_empty s ≡ true → is_member d s ≡ false
unfolding is_member
is_member_empty d [] h = refl
is_member_empty d (_ ∷ _) h = cc

members_of-delete :
    (room other : Bytes) (rooms : Dict IdSet)
    → Distinct rooms
    → members_of other (delete room rooms)
      ≡ (if text_eq room other then [] else members_of other rooms)
members_of-delete room other rooms distinct = ground (arith, get-delete room other rooms distinct)

pub is_in-remove_member :
    (c d : ℕ) (room other : Bytes) (rooms : Dict IdSet)
    → Distinct rooms
    → is_in d other (remove_member c room rooms)
      ≡ (not (text_eq room other && c == d) && is_in d other rooms)
unfolding remove_member is_member
is_in-remove_member c d room other rooms distinct = elim (Option-cases (get room rooms)) [
  | inl e ↦ rw (remove_member, e) (ground (arith, text_eq_iff room other, e))
  | inr (members, e) ↦
      let kept = erase_member c members in
      rw (remove_member, e)
        (ground (
          arith,
          text_eq_iff room other,
          e,
          members_of-set room other kept rooms,
          members_of-delete room other rooms distinct,
          is_member_empty d kept,
          is_member-erase_member c d members,
        ))
]

pub add_member-Distinct :
    (c : ℕ) (room : Bytes) (rooms : Dict IdSet)
    → Distinct rooms
    → Distinct (add_member c room rooms)
unfolding add_member
add_member-Distinct c room rooms d = set-Distinct room _ rooms d

pub remove_member-Distinct :
    (c : ℕ) (room : Bytes) (rooms : Dict IdSet)
    → Distinct rooms
    → Distinct (remove_member c room rooms)
unfolding remove_member
remove_member-Distinct c room rooms d = elim (Option-cases (get room rooms)) [
  | inl e ↦ rw (remove_member, e) d
  | inr (members, e) ↦
      rw (remove_member, e)
        (ground
          (arith, set-Distinct room (erase_member c members) rooms, delete-Distinct room rooms))
]

abbrev or_empty : Option IdSet → IdSet
or_empty none = []
or_empty (some members) = members

pub add_member-once :
    (c d : ℕ) (room other : Bytes) (rooms : Dict IdSet)
    → ((r : Bytes) → copies d (members_of r rooms) ≤ 1)
    → copies d (members_of other (add_member c room rooms)) ≤ 1
unfolding add_member
add_member-once c d room other rooms h =
    rw (members_of-set room other (insert c (members_of room rooms)) rooms)
      (ground (arith, h other, copies-insert c d (members_of room rooms) (h room)))

pub remove_member-once :
    (c d : ℕ) (room other : Bytes) (rooms : Dict IdSet)
    → Distinct rooms
    → ((r : Bytes) → copies d (members_of r rooms) ≤ 1)
    → copies d (members_of other (remove_member c room rooms)) ≤ 1
unfolding remove_member
remove_member-once c d room other rooms distinct h = elim (Option-cases (get room rooms)) [
  | inl e ↦ rw (remove_member, e) (h other)
  | inr (members, e) ↦
      let kept = erase_member c members in
      let before : copies d members ≤ 1 = subst (λ ms. copies d (or_empty ms) ≤ 1) e (h room) in
      rw (remove_member, e)
        (ground (
          arith,
          h other,
          before,
          members_of-set room other kept rooms,
          members_of-delete room other rooms distinct,
          copies-erase_member c d members,
        ))
]
