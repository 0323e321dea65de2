-- ===== src/Gateway/Valid.antt =====
-- What every event of the gateway keeps of the database.
use pulse_chat.Base.{
  Option-cases, inl, inr, ℕ, ◌≡◌, refl, ◌∙◌, List, [], ◌∷◌, Option, none, some, Bool, arith,
  Bool-cases, ◌||◌,
}
use pulse_chat.Text.{Text, is_empty, to_lower, trim}
use pulse_chat.Utf8.{Bytes}
use pulse_chat.Pcap.{DecodedFrame, push}
use pulse_chat.Dict.{get}
use pulse_chat.Db.{DbRoom, DbMessage, World}
use pulse_chat.Db.Users.{default_to, UserResult, accepted, refused}
use pulse_chat.Db.Rooms.{RoomResult, joined, joined_inherited, denied}
use pulse_chat.Db.Evolution.{
  Evolves-trans, IsSound, Evolves, Evolves-refl, Evolves-of_eq, validate_and_register_user-Evolves,
  create_or_join_room-Evolves, save_message-Evolves, save_direct_message-Evolves,
}
use pulse_chat.Gateway.{ClientSession, Gateway, find_session, broadcast_to_all, broadcast_presence}
use pulse_chat.Gateway.Actions.{
  ClientMessage, Action, register, update_status, chat, join_room, leave_room, private_message,
  unknown, on_action, on_register, on_update_status, on_chat, on_join_room, on_leave_room,
  on_private_message, joined_room, registered, on_message, action_of, send_dms, claim_of,
}
use pulse_chat.Gateway.Access.{forward-db, enter_room-db}
use pulse_chat.Gateway.Sockets.{
  on_connection, on_tcp_connected, on_tcp_error, on_tcp_close, on_tcp_data, on_close, send_status,
  on_frame, on_frames, leave_presence, end_tcp,
}
use pulse_chat.Gateway.Metrics.{RawMetrics, on_metrics_data, on_metrics_frames, on_metrics_frame}
use pulse_chat.Gateway.Step.{
  Input, connection, close, tcp_connected, tcp_error, tcp_close, tcp_data, message, metrics_data,
  State, step, run,
}

-- What is sent changes no database.
broadcast_presence-db : (g : Gateway) → (broadcast_presence g).db ≡ g.db
unfolding broadcast_presence broadcast_to_all
broadcast_presence-db g = refl

send_dms-db : (id : ℕ) (ms : List DbMessage) (g : Gateway) → (send_dms id ms g).db ≡ g.db
send_dms-db id [] g = refl
send_dms-db id (m ∷ ms) g = refl

registered-db :
    (w : World) (id : ℕ) (msg : ClientMessage) (s : ClientSession) (r : UserResult) (g : Gateway)
    → (registered w id msg s r g).db ≡ g.db
unfolding registered
registered-db w id msg s (accepted u) g = rw (forward-db, send_dms-db, broadcast_presence-db)
registered-db w id msg s (refused e) g = refl

joined_room-db :
    (w : World) (id : ℕ) (msg : ClientMessage) (s : ClientSession) (room : Text) (r : RoomResult)
    (g : Gateway)
    → (joined_room w id msg s room r g).db ≡ g.db
unfolding joined_room
joined_room-db w id msg s room (denied e) g = refl
joined_room-db w id msg s room (joined r) g = rw (forward-db, enter_room-db)
joined_room-db w id msg s room joined_inherited g = rw (forward-db, enter_room-db)

on_frames-db :
    (id : ℕ) (is_open : Bool) (frames : List DecodedFrame) (g : Gateway)
    → (on_frames id is_open frames g).db ≡ g.db
unfolding on_frames on_frame broadcast_to_all
on_frames-db id is_open [] g = refl
on_frames-db id is_open (frame ∷ frames) g =
    on_frames-db id is_open frames (on_frame id is_open frame g) ∙ ground arith

send_status-db : (id : ℕ) (status : Text) (g : Gateway) → (send_status id status g).db ≡ g.db
unfolding send_status
send_status-db id status g = ground arith

on_connection-db : (w : World) (id : ℕ) (g : Gateway) → (on_connection w id g).db ≡ g.db
unfolding on_connection
on_connection-db w id g = ground arith

on_tcp_close-db : (id : ℕ) (g : Gateway) → (on_tcp_close id g).db ≡ g.db
unfolding on_tcp_close
on_tcp_close-db id g = elim (Option-cases (find_session id g.sessions)) [
  | inl e ↦ rw (e, on_tcp_close)
  | inr (s, e) ↦ rw (e, on_tcp_close) (rw send_status-db)
]

on_tcp_data-db :
    (times : ℕ → Text) (id : ℕ) (chunk : Bytes) (g : Gateway)
    → (on_tcp_data times id chunk g).db ≡ g.db
unfolding on_tcp_data
on_tcp_data-db times id chunk g = elim (Option-cases (find_session id g.sessions)) [
  | inl e ↦ rw (e, on_tcp_data)
  | inr (s, e) ↦ rw (e, on_tcp_data) (rw on_frames-db)
]

on_close-db : (id : ℕ) (g : Gateway) → (on_close id g).db ≡ g.db
unfolding on_close leave_presence end_tcp broadcast_presence broadcast_to_all
on_close-db id g = ground arith

on_update_status-db :
    (w : World) (id : ℕ) (msg : ClientMessage) (s : ClientSession) (g : Gateway)
    → (on_update_status w id msg s g).db ≡ g.db
unfolding on_update_status broadcast_presence broadcast_to_all
on_update_status-db w id msg s g = ground arith

module _ (parse : Text → Option RawMetrics) (w : World) where
  on_metrics_frame-db :
      (frame : DecodedFrame) (g : Gateway) → (on_metrics_frame parse w frame g).db ≡ g.db
  unfolding on_metrics_frame broadcast_to_all
  on_metrics_frame-db frame g = ground arith

  on_metrics_frames-db :
      (frames : List DecodedFrame) (g : Gateway) → (on_metrics_frames parse w frames g).db ≡ g.db
  unfolding on_metrics_frames
  on_metrics_frames-db [] g = refl
  on_metrics_frames-db (frame ∷ frames) g =
      on_metrics_frames-db frames (on_metrics_frame parse w frame g) ∙ on_metrics_frame-db frame g

on_register-Evolves :
    (w : World) (id : ℕ) (msg : ClientMessage) (s : ClientSession) (name : Option Text)
    (g : Gateway)
    → Evolves g.db (on_register w id msg s name g).db
unfolding on_register
on_register-Evolves w id msg s none g = Evolves-refl g.db
on_register-Evolves w id msg s (some name) g =
    rw registered-db (validate_and_register_user-Evolves w name (claim_of msg) g.db)

on_chat-Evolves :
    (w : World) (id : ℕ) (msg : ClientMessage) (s : ClientSession) (g : Gateway)
    → Evolves g.db (on_chat w id msg s g).db
unfolding on_chat
on_chat-Evolves w id msg s g =
    elim (Bool-cases (is_empty s.username || is_empty (default_to msg.text []))) [
      | inl silent ↦ rw silent (Evolves-refl g.db)
      | inr heard ↦ rw (heard, forward-db) (save_message-Evolves w _ _ _ _ _ g.db)
    ]

on_private_message-Evolves :
    (w : World) (id : ℕ) (msg : ClientMessage) (s : ClientSession) (g : Gateway)
    → Evolves g.db (on_private_message w id msg s g).db
unfolding on_private_message
on_private_message-Evolves w id msg s g =
    elim (Bool-cases (
      is_empty s.username
      || is_empty (to_lower (trim (default_to msg.target [])))
      || is_empty (trim (default_to msg.text [])))) [
        | inl silent ↦ rw silent (Evolves-refl g.db)
        | inr heard ↦ rw (heard, forward-db) (save_direct_message-Evolves w _ _ _ _ _ g.db)
      ]

on_join_room-Evolves :
    (w : World) (id : ℕ) (msg : ClientMessage) (s : ClientSession) (g : Gateway)
    → Evolves g.db (on_join_room w id msg s g).db
unfolding on_join_room
on_join_room-Evolves w id msg s g = rw joined_room-db (create_or_join_room-Evolves w _ _ _ g.db)

on_leave_room-db :
    (w : World) (id : ℕ) (msg : ClientMessage) (s : ClientSession) (g : Gateway)
    → (on_leave_room w id msg s g).db ≡ g.db
unfolding on_leave_room
on_leave_room-db w id msg s g = rw (forward-db, enter_room-db)

on_action-Evolves :
    (w : World) (id : ℕ) (msg : ClientMessage) (s : ClientSession) (a : Action) (g : Gateway)
    → Evolves g.db (on_action w id msg s a g).db
unfolding on_action
on_action-Evolves w id msg s register g = on_register-Evolves w id msg s msg.username g
on_action-Evolves w id msg s update_status g = Evolves-of_eq (on_update_status-db w id msg s g)
on_action-Evolves w id msg s chat g = on_chat-Evolves w id msg s g
on_action-Evolves w id msg s join_room g = on_join_room-Evolves w id msg s g
on_action-Evolves w id msg s leave_room g = Evolves-of_eq (on_leave_room-db w id msg s g)
on_action-Evolves w id msg s private_message g = on_private_message-Evolves w id msg s g
on_action-Evolves w id msg s unknown g = Evolves-refl g.db
on_action-Evolves w id msg s _ g = Evolves-of_eq (forward-db w id msg _ _ g)

on_message-Evolves :
    (w : World) (id : ℕ) (msg : Option ClientMessage) (g : Gateway)
    → Evolves g.db (on_message w id msg g).db
unfolding on_message
on_message-Evolves w id none g = Evolves-refl g.db
on_message-Evolves w id (some msg) g = elim (Option-cases (find_session id g.sessions)) [
  | inl e ↦ rw (e, on_message) (Evolves-refl g.db)
  | inr (s, e) ↦ rw (e, on_message) (on_action-Evolves w id msg s (action_of msg.action) g)
]

module _ (parse : Text → Option RawMetrics) where
  step-Evolves :
      (w : World) (input : Input) (s : State) → Evolves s.1.db (step parse w input s).1.db
  unfolding step on_tcp_connected on_tcp_error on_metrics_data
  step-Evolves w (connection id) (p, g) = Evolves-of_eq (on_connection-db w id g)
  step-Evolves w (close id) (p, g) = Evolves-of_eq (on_close-db id g)
  step-Evolves w (tcp_connected id) (p, g) = Evolves-of_eq (send_status-db id _ g)
  step-Evolves w (tcp_error id) (p, g) = Evolves-of_eq (send_status-db id _ g)
  step-Evolves w (tcp_close id) (p, g) = Evolves-of_eq (on_tcp_close-db id g)
  step-Evolves w (tcp_data times id chunk) (p, g) = Evolves-of_eq (on_tcp_data-db times id chunk g)
  step-Evolves w (message id msg) (p, g) = on_message-Evolves w id msg g
  step-Evolves w (metrics_data times chunk) (p, g) =
      Evolves-of_eq (on_metrics_frames-db parse w (push times p.parser chunk).0 g)
  step-Evolves w _ (p, g) = Evolves-refl g.db

  run-Evolves :
      (inputs : List (World × Input)) (s : State) → Evolves s.1.db (run parse inputs s).1.db
  unfolding run
  run-Evolves [] s = Evolves-refl s.1.db
  run-Evolves ((w, input) ∷ more) s =
      Evolves-trans (step-Evolves w input s) (run-Evolves more (step parse w input s))

  -- After any events in any order, a database that was in shape is in shape: every user stands once,
  -- under the own name, no email stands twice, and there are 10000 messages at most.
  pub run-IsSound :
      (inputs : List (World × Input)) (s : State)
      → IsSound s.1.db
      → IsSound (run parse inputs s).1.db
  run-IsSound inputs s = (run-Evolves inputs s).sound

  -- After any events in any order every room is what it was: no client can take the password off a
  -- room, change it, or remove the room.
  pub run-rooms_kept :
      (inputs : List (World × Input)) (s : State) (k : Text) (r : DbRoom)
      → get k s.1.db.data_now.rooms ≡ some r
      → get k (run parse inputs s).1.db.data_now.rooms ≡ some r
  run-rooms_kept inputs s = (run-Evolves inputs s).rooms_kept
