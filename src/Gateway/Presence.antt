-- ===== src/Gateway/Presence.antt =====
-- The presence map: who is shown as online.
use pulse_chat.Base.{
  ℕ, ◌≡◌, refl, ◌∙◌, ◌≢◌, List, [], ◌∷◌, none, some, Bool, false, arith, if◌then◌else◌,
}
use pulse_chat.Text.{Text, is_empty, text_eq}
use pulse_chat.Text.Laws.{text_eq_iff, text_eq_refl}
use pulse_chat.Dict.{get, set}
use pulse_chat.Dict.Laws.{Distinct, get-set, get-delete, set-Distinct}
use pulse_chat.Db.{DbUser, DbMessage, World}
use pulse_chat.Db.Users.{accepted}
use pulse_chat.Gateway.{
  UserPresence, ClientSession, Gateway, Sessions, find_session, put_session, remove_session,
  broadcast_to_all, broadcast_presence,
}
use pulse_chat.Gateway.Actions.{
  ClientMessage, registered, registered_session, presence_of, forward, send_dms,
}
use pulse_chat.Gateway.Access.{forward-sessions, find_session-put_session}
use pulse_chat.Gateway.Sockets.{on_close, leave_presence, end_tcp}

pub forward-presence :
    (w : World) (id : ℕ) (msg : ClientMessage) (d : Bool) (frame : List ℕ) (g : Gateway)
    → (forward w id msg d frame g).presence ≡ g.presence
unfolding forward broadcast_to_all
forward-presence w id msg d frame g = ground arith

send_dms-rest :
    (id : ℕ) (ms : List DbMessage) (g : Gateway)
    → ((send_dms id ms g).presence ≡ g.presence) × ((send_dms id ms g).sessions ≡ g.sessions)
send_dms-rest id [] g = (refl, refl)
send_dms-rest id (m ∷ ms) g = (refl, refl)

pub registered-set :
    (w : World) (id : ℕ) (msg : ClientMessage) (s : ClientSession) (u : DbUser) (g : Gateway)
    → (registered w id msg s (accepted u) g).presence
      ≡ set u.username (presence_of w u (registered_session u msg s)) g.presence
unfolding registered broadcast_presence broadcast_to_all
registered-set w id msg s u g = rw (forward-presence, (send_dms-rest _ _ _).0)

-- A registration enters the name, and leaves every other entry.
pub registered-presence :
    (w : World) (id : ℕ) (msg : ClientMessage) (s : ClientSession) (u : DbUser) (g : Gateway)
    (j : Text)
    → get j (registered w id msg s (accepted u) g).presence ≡ (
        if text_eq u.username j
        then some (presence_of w u (registered_session u msg s))
        else get j g.presence)
registered-presence w id msg s u g j = rw registered-set (get-set u.username j _ g.presence)

pub registered-sessions :
    (w : World) (id : ℕ) (msg : ClientMessage) (s : ClientSession) (u : DbUser) (g : Gateway)
    → find_session id g.sessions ≡ some s
    → find_session id (registered w id msg s (accepted u) g).sessions
      ≡ some (registered_session u msg s)
unfolding registered broadcast_presence broadcast_to_all
registered-sessions w id msg s u g there =
    rw (forward-sessions, (send_dms-rest _ _ _).1)
      (find_session-put_session id _ s g.sessions there)

pub end_tcp-rest :
    (id : ℕ) (d : Bool) (g : Gateway)
    → ((end_tcp id d g).presence ≡ g.presence) × ((end_tcp id d g).sessions ≡ g.sessions)
unfolding end_tcp
end_tcp-rest id d g = ground arith

-- A client that leaves takes the entry of its name away, and no other.
pub on_close-presence :
    (id : ℕ) (s : ClientSession) (g : Gateway) (j : Text)
    → Distinct g.presence
    → find_session id g.sessions ≡ some s
    → is_empty s.username ≡ false
    → get j (on_close id g).presence ≡ (if text_eq s.username j then none else get j g.presence)
unfolding on_close leave_presence broadcast_presence broadcast_to_all
on_close-presence id s g j d there named =
    rw (there, on_close) (rw ((end_tcp-rest _ _ _).0, named) (get-delete s.username j g.presence d))

find_session-put_other :
    (id i : ℕ) (s : ClientSession) (ss : Sessions)
    → id ≢ i
    → find_session i (put_session id s ss) ≡ find_session i ss
unfolding find_session put_session
find_session-put_other id i s [] h = refl
find_session-put_other id i s ((k, t) ∷ ss) h = ground (arith, find_session-put_other id i s ss)

find_session-remove_other :
    (id i : ℕ) (ss : Sessions) → id ≢ i → find_session i (remove_session id ss) ≡ find_session i ss
unfolding find_session remove_session
find_session-remove_other id i [] h = refl
find_session-remove_other id i ((k, t) ∷ ss) h = ground (arith, find_session-remove_other id i ss)

leave_presence-sessions :
    (name : Text) (g : Gateway) → (leave_presence name g).sessions ≡ g.sessions
unfolding leave_presence broadcast_presence broadcast_to_all
leave_presence-sessions name g = ground arith

-- Two clients with one name: when one leaves, the other stays connected under the name, and the
-- name is shown as offline.
pub on_close-hides_other :
    (id i : ℕ) (s t : ClientSession) (g : Gateway)
    → Distinct g.presence
    → id ≢ i
    → find_session id g.sessions ≡ some s
    → find_session i g.sessions ≡ some t
    → is_empty s.username ≡ false
    → t.username ≡ s.username
    → (find_session i (on_close id g).sessions ≡ some t)
      × (get t.username (on_close id g).presence ≡ none)
unfolding on_close
on_close-hides_other id i s t g d differ there other named alike = (
  rw (there, on_close)
      (rw (find_session-remove_other, (end_tcp-rest _ _ _).1, leave_presence-sessions)
        (find_session-put_other id i _ g.sessions differ ∙ other)),
  on_close-presence id s g t.username d there named
      ∙ rw alike (ground (arith, text_eq_refl s.username)),
)

registered_session-username :
    (u : DbUser) (msg : ClientMessage) (s : ClientSession)
    → (registered_session u msg s).username ≡ u.username
unfolding registered_session
registered_session-username u msg s = refl

registered_session-named :
    (u : DbUser) (msg : ClientMessage) (s : ClientSession)
    → is_empty u.username ≡ false
    → is_empty (registered_session u msg s).username ≡ false
unfolding registered_session
registered_session-named u msg s h = h

-- A client that registers a second name: the first stays in the map when it leaves.
pub on_close-leaves_ghost :
    (w : World) (id : ℕ) (msg : ClientMessage) (s : ClientSession) (u : DbUser) (g : Gateway)
    (p : UserPresence)
    → Distinct g.presence
    → find_session id g.sessions ≡ some s
    → get s.username g.presence ≡ some p
    → u.username ≢ s.username
    → is_empty u.username ≡ false
    → get s.username (on_close id (registered w id msg s (accepted u) g)).presence ≡ some p
on_close-leaves_ghost w id msg s u g p d there shown differ named =
    let g' = registered w id msg s (accepted u) g in
    let distinct : Distinct g'.presence =
      rw registered-set (set-Distinct u.username _ g.presence d) in
    on_close-presence id (registered_session u msg s) g' s.username distinct
      (registered-sessions w id msg s u g there) (registered_session-named u msg s named)
    ∙ ground (
      arith,
      registered-presence w id msg s u g s.username,
      text_eq_iff u.username s.username,
      registered_session-username u msg s,
    )
