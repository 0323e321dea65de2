-- ===== src/Gateway/Access.antt =====
-- Who may do what: clients with no name, and locked rooms.
use pulse_chat.Base.{
  ℕ, ◌≡◌, ◌≢◌, ◌⊎◌, inl, inr, List, [], ◌∷◌, ◌++◌, some, Bool, true, false, arith, length, ◌<◌,
}
use pulse_chat.Text.{Text, is_empty, trim}
use pulse_chat.Pcap.Codes.{MessageType}
use pulse_chat.Pcap.{encode_frame}
use pulse_chat.Utf8.{Bytes}
use pulse_chat.Dict.{get}
use pulse_chat.Db.{DbRoom, DbMessage, World, general}
use pulse_chat.Db.Users.{default_to}
use pulse_chat.Db.Rooms.{room_key, text_or_empty, RoomError, joined, room_error_text}
use pulse_chat.Db.Rooms.Access.{IsLocked, create_or_join_room_locked, create_or_join_room_refused}
use pulse_chat.Db.Messages.{room_message, get_room_history}
use pulse_chat.Db.Messages.History.{get_room_history-save_message}
use pulse_chat.Gateway.{
  ClientSession, error_frame, room_history, Effect, sent, Sessions, Gateway, find_session,
  put_session, emit, broadcast_to_all, broadcast_presence,
}
use pulse_chat.Gateway.Actions.{
  send_history, ClientMessage, Action, update_status, chat, private_message, on_action,
  on_update_status, on_chat, on_private_message, on_join_room, joined_room, forward, enter_room,
  room_or_general,
}
use pulse_chat.Gateway.Privacy.{Has, Has-append_right, Has-append_left}

-- What a client must have registered for.
abbrev pub NeedsName : Action → Type 0
NeedsName a = (a ≡ update_status) ⊎ ((a ≡ chat) ⊎ (a ≡ private_message))

-- A client that has not registered says nothing: its status, lines and private messages are
-- dropped, nothing is stored and nothing is sent.
pub on_action-nameless :
    (w : World) (id : ℕ) (msg : ClientMessage) (s : ClientSession) (a : Action) (g : Gateway)
    → is_empty s.username ≡ true
    → NeedsName a
    → on_action w id msg s a g ≡ g
unfolding on_action on_update_status on_chat on_private_message
on_action-nameless w id msg s a g h (inl e) = rw (e, on_action, h)
on_action-nameless w id msg s a g h (inr (inl e)) = rw (e, on_action, h)
on_action-nameless w id msg s a g h (inr (inr e)) = rw (e, on_action, h)

-- The room that a message asks for.
abbrev pub asked_room : ClientMessage → Text
asked_room msg = trim (default_to msg.room general)

-- A wrong password to a locked room: the client is sent an error and stays where it is. Nothing
-- else is sent to anyone, and nothing else changes.
pub on_join_room-refused :
    (w : World) (id : ℕ) (msg : ClientMessage) (s : ClientSession) (g : Gateway) (r : DbRoom)
    (secret : Text)
    → is_empty (room_key (asked_room msg)) ≡ false
    → get (room_key (asked_room msg)) g.db.data_now.rooms ≡ some r
    → IsLocked r secret
    → trim (text_or_empty msg.password) ≢ trim secret
    → (e : RoomError) × (on_join_room w id msg s g
        ≡ emit
            (sent id (error_frame (length (room_error_text e)) (room_error_text e) w.local_time))
            g)
unfolding on_join_room joined_room
on_join_room-refused w id msg s g r secret named at lock wrong =
    let (e, refused) =
      create_or_join_room_refused w (asked_room msg) msg.password (some s.username) g.db r secret
        named at lock wrong in
    (e, rw refused)

pub find_session-put_session :
    (id : ℕ) (s t : ClientSession) (ss : Sessions)
    → find_session id ss ≡ some t
    → find_session id (put_session id s ss) ≡ some s
unfolding find_session put_session
find_session-put_session id s t [] h = cc
find_session-put_session id s t ((i, u) ∷ ss) h = ground (arith, find_session-put_session id s t ss)

pub forward-sessions :
    (w : World) (id : ℕ) (msg : ClientMessage) (d : Bool) (frame : Bytes) (g : Gateway)
    → ((forward w id msg d frame g).sessions ≡ g.sessions)
unfolding forward broadcast_to_all
forward-sessions w id msg d frame g = ground arith

pub forward-db :
    (w : World) (id : ℕ) (msg : ClientMessage) (d : Bool) (frame : Bytes) (g : Gateway)
    → (forward w id msg d frame g).db ≡ g.db
unfolding forward broadcast_to_all
forward-db w id msg d frame g = ground arith

enter_room-sessions :
    (id : ℕ) (room : Text) (s : ClientSession) (g : Gateway)
    → (enter_room id room s g).sessions
      ≡ put_session id (record s { current_room = room }) g.sessions
unfolding enter_room broadcast_presence broadcast_to_all
enter_room-sessions id room s g = ground arith

pub enter_room-db :
    (id : ℕ) (room : Text) (s : ClientSession) (g : Gateway) → (enter_room id room s g).db ≡ g.db
unfolding enter_room broadcast_presence broadcast_to_all
enter_room-db id room s g = ground arith

-- What is in the outbox stays there when a frame is forwarded.
forward-Has :
    (w : World) (id : ℕ) (msg : ClientMessage) (d : Bool) (frame : Bytes) (g : Gateway) (e : Effect)
    → Has e g.outbox
    → Has e (forward w id msg d frame g).outbox
unfolding forward broadcast_to_all
forward-Has w id msg true frame g e h = h
forward-Has w id msg false frame g e h = Has-append_left e _ _ (Has-append_left e g.outbox _ h)

joined_room_lem :
    (w : World) (id : ℕ) (msg : ClientMessage) (s : ClientSession) (room : Text) (r : DbRoom)
    (g : Gateway)
    → find_session id g.sessions ≡ some s
    → (find_session id (joined_room w id msg s room (joined r) g).sessions
        ≡ some (record s { current_room = room }))
      × Has
          (sent id (room_history room (get_room_history room 50 g.db)))
          (joined_room w id msg s room (joined r) g).outbox
unfolding joined_room
joined_room_lem w id msg s room r g there = (
  rw (forward-sessions, enter_room-sessions)
      (find_session-put_session id (record s { current_room = room }) s g.sessions there),
  forward-Has w id msg s.is_destroyed (encode_frame MessageType.join_room room)
      (send_history id room (enter_room id room s g)) _
      (Has-append_right _ (enter_room id room s g).outbox _ (inl (rw enter_room-db))),
)

-- The right password: the client is in the room, under the name that it asked for, and is sent
-- the room's history.
pub on_join_room-accepted :
    (w : World) (id : ℕ) (msg : ClientMessage) (s : ClientSession) (g : Gateway) (r : DbRoom)
    (secret : Text)
    → is_empty (room_key (asked_room msg)) ≡ false
    → get (room_key (asked_room msg)) g.db.data_now.rooms ≡ some r
    → IsLocked r secret
    → trim (text_or_empty msg.password) ≡ trim secret
    → find_session id g.sessions ≡ some s
    → (find_session id (on_join_room w id msg s g).sessions
        ≡ some (record s { current_room = asked_room msg }))
      × Has
          (sent id (room_history (asked_room msg) (get_room_history (asked_room msg) 50 g.db)))
          (on_join_room w id msg s g).outbox
unfolding on_join_room joined_room
on_join_room-accepted w id msg s g r secret named at lock right there =
    let (same, accepts) =
      create_or_join_room_locked w (asked_room msg) msg.password (some s.username) g.db r secret
        named at lock in
    rw (accepts.1 right, same) (joined_room_lem w id msg s (asked_room msg) r g there)

-- A line that a named client says is stored under its room, and is the last that the room's
-- history shows to whoever comes next.
pub on_chat-shown :
    (w : World) (id : ℕ) (msg : ClientMessage) (s : ClientSession) (g : Gateway) (k : ℕ)
    → is_empty s.username ≡ false
    → is_empty (default_to msg.text []) ≡ false
    → 0 < k
    → let room = room_or_general s.current_room in
      (older : List DbMessage) × (get_room_history room k (on_chat w id msg s g).db
        ≡ older
          ++ room_message w room s.username
              (default_to msg.text [])
              (some s.display_name)
              s.avatar_url
            ∷ [])
unfolding on_chat
on_chat-shown w id msg s g k named said h =
    rw (named, said, forward-db)
      (get_room_history-save_message w (room_or_general s.current_room) s.username
        (default_to msg.text []) (some s.display_name) s.avatar_url k g.db h)
