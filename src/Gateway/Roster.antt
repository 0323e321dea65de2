-- ===== src/Gateway/Roster.antt =====
-- The presence map over all events: whom the list of peers names.
pub mod Events
use pulse_chat.Base.{
  Option-cases, Bool-cases, inl, inr, ℕ, ◌≡◌, refl, ◌∙◌, ap, List, [], ◌∷◌, Option, none, some, any,
  Bool, true, false, arith, if◌then◌else◌, subst, sym,
}
use pulse_chat.Text.{Text, is_empty, text_eq}
use pulse_chat.Text.Laws.{text_eq_iff, text_eq_refl}
use pulse_chat.Utf8.{Bytes}
use pulse_chat.Pcap.{DecodedFrame, push}
use pulse_chat.Dict.{Dict, get, has, set, replace, delete, values}
use pulse_chat.Dict.Laws.{
  Distinct, get-set, get-replace, get-delete, set-Distinct, replace-Distinct, delete-Distinct,
  has-get,
}
use pulse_chat.Db.{World, general}
use pulse_chat.Db.Users.{UserResult, accepted, refused}
use pulse_chat.Db.Rooms.{RoomResult, joined, joined_inherited, denied}
use pulse_chat.Gateway.{
  UserPresence, ClientSession, Gateway, find_session, broadcast_to_all, broadcast_presence,
}
use pulse_chat.Gateway.Actions.{
  change_entry, ClientMessage, Action, register, update_status, chat, join_room, leave_room,
  private_message, unknown, on_action, on_register, on_update_status, on_chat, on_join_room,
  on_leave_room, on_private_message, joined_room, enter_room, registered, registered_session,
  presence_of, on_message, action_of, forward,
}
use pulse_chat.Gateway.Presence.{registered-set, forward-presence, end_tcp-rest}
use pulse_chat.Gateway.Sockets.{
  on_connection, on_tcp_connected, on_tcp_error, on_tcp_close, on_tcp_data, on_close, send_status,
  on_frame, on_frames, leave_presence, end_tcp,
}
use pulse_chat.Gateway.Metrics.{RawMetrics, on_metrics_data, on_metrics_frames, on_metrics_frame}
use pulse_chat.Gateway.Step.{
  Input, connection, close, tcp_connected, tcp_error, tcp_close, tcp_data, message, metrics_data,
  State, step, run,
}

-- Each name has one entry, and the entry is of that name.
pub record IsRoster (presence : Dict UserPresence) : Type 0 where
  pub distinct : Distinct presence
  pub named : (k : Text) (p : UserPresence) → get k presence ≡ some p → p.username ≡ k

pub set-IsRoster :
    (k : Text) (p : UserPresence) (d : Dict UserPresence)
    → p.username ≡ k
    → IsRoster d
    → IsRoster (set k p d)
set-IsRoster k p d own_name valid = record {
  distinct = set-Distinct k p d valid.distinct;
  named = λ j q e. ground (arith, own_name, e, get-set k j p d, text_eq_iff k j, valid.named j q);
}

pub delete-IsRoster : (k : Text) (d : Dict UserPresence) → IsRoster d → IsRoster (delete k d)
delete-IsRoster k d valid = record {
  distinct = delete-Distinct k d valid.distinct;
  named = λ j q e. ground (arith, e, get-delete k j d valid.distinct, valid.named j q);
}

get→has : (k : Text) (d : Dict UserPresence) (p : UserPresence) → get k d ≡ some p → has k d ≡ true
get→has k d p e = elim (Bool-cases (has k d)) [
  | inl h ↦ h
  | inr h ↦ ground (arith, e, has-get k d h)
]

pub change_entry-IsRoster :
    (f : UserPresence → UserPresence) (k : Text) (d : Dict UserPresence)
    → ((p : UserPresence) → (f p).username ≡ p.username)
    → IsRoster d
    → IsRoster (change_entry f k d)
change_entry-IsRoster f k d keeps valid = elim (Option-cases (get k d)) [
  | inl e ↦ rw (e, change_entry) valid
  | inr (p, e) ↦
      rw (e, change_entry)
        (record {
          distinct = replace-Distinct k (f p) d (get→has k d p e) valid.distinct;
          named = λ j q found. ground (
            arith,
            found,
            get-replace k j (f p) d (get→has k d p e),
            text_eq_iff k j,
            keeps p,
            valid.named k p e,
            valid.named j q,
          );
        })
]

tail-IsRoster :
    (k : Text) (v : UserPresence) (d : Dict UserPresence) → IsRoster ((k, v) ∷ d) → IsRoster d
unfolding get
tail-IsRoster k v d valid = record {
  distinct = valid.distinct.1;
  named = λ j p e. ground (arith, e, valid.distinct.0, valid.named j p, text_eq_iff k j);
}

-- No two of the list have one name.
abbrev pub IsOnceEach : List UserPresence → Type 0
IsOnceEach [] = Unit {0}
IsOnceEach (p ∷ ps) = (any (λ q. text_eq q.username p.username) ps ≡ false) × IsOnceEach ps

any-values :
    (k : Text) (d : Dict UserPresence)
    → IsRoster d
    → get k d ≡ none
    → any (λ q. text_eq q.username k) (values d) ≡ false
unfolding get values
any-values k [] valid h = refl
any-values k ((j, v) ∷ d) valid h = ground (
  arith,
  h,
  valid.named j v (rw (text_eq_refl j) refl),
  text_eq_iff j k,
  text_eq_iff v.username k,
  any-values k d (tail-IsRoster j v d valid),
)

pub values-IsOnceEach : (d : Dict UserPresence) → IsRoster d → IsOnceEach (values d)
unfolding get values
values-IsOnceEach [] valid = tt
values-IsOnceEach ((k, v) ∷ d) valid =
    let own_name : v.username ≡ k = valid.named k v (rw (text_eq_refl k) refl) in
    (
      rw own_name (any-values k d (tail-IsRoster k v d valid) valid.distinct.0),
      values-IsOnceEach d (tail-IsRoster k v d valid),
    )
