-- ===== src/Gateway/Roster/Events.antt =====
-- What every event of the gateway keeps of the presence map.
use pulse_chat.Base.{
  Option-cases, Bool-cases, inl, inr, ℕ, ◌≡◌, refl, ◌∙◌, List, [], ◌∷◌, Option, none, some, Bool,
  arith,
}
use pulse_chat.Text.{Text, is_empty}
use pulse_chat.Utf8.{Bytes}
use pulse_chat.Pcap.{DecodedFrame}
use pulse_chat.Dict.{values}
use pulse_chat.Db.{World, general}
use pulse_chat.Db.Users.{UserResult, accepted, refused}
use pulse_chat.Db.Rooms.{RoomResult, joined, joined_inherited, denied}
use pulse_chat.Gateway.{ClientSession, Gateway, find_session, broadcast_to_all, broadcast_presence}
use pulse_chat.Gateway.Actions.{
  ClientMessage, Action, register, update_status, chat, join_room, leave_room, private_message,
  unknown, on_action, on_register, on_update_status, on_chat, on_join_room, on_leave_room,
  on_private_message, joined_room, enter_room, registered, registered_session, presence_of,
  on_message, action_of, forward,
}
use pulse_chat.Gateway.Presence.{registered-set, forward-presence, end_tcp-rest}
use pulse_chat.Gateway.Sockets.{
  on_connection, on_tcp_connected, on_tcp_error, on_tcp_close, on_tcp_data, on_close, send_status,
  on_frame, on_frames, leave_presence,
}
use pulse_chat.Gateway.Metrics.{RawMetrics, on_metrics_data, on_metrics_frames, on_metrics_frame}
use pulse_chat.Gateway.Step.{
  Input, connection, close, tcp_connected, tcp_error, tcp_close, tcp_data, message, metrics_data,
  State, step, run,
}
use pulse_chat.Gateway.Roster.{
  IsRoster, IsOnceEach, set-IsRoster, delete-IsRoster, change_entry-IsRoster, values-IsOnceEach,
}

-- What leaves a roster a roster.
abbrev Keeps : Gateway → Gateway → Type 0
Keeps g h = IsRoster g.presence → IsRoster h.presence

registered-Keeps :
    (w : World) (id : ℕ) (msg : ClientMessage) (s : ClientSession) (r : UserResult) (g : Gateway)
    → Keeps g (registered w id msg s r g)
unfolding registered presence_of
registered-Keeps w id msg s (accepted u) g valid =
    rw registered-set
      (set-IsRoster u.username (presence_of w u (registered_session u msg s)) g.presence refl valid)
registered-Keeps w id msg s (refused e) g valid = valid

on_register-Keeps :
    (w : World) (id : ℕ) (msg : ClientMessage) (s : ClientSession) (name : Option Text)
    (g : Gateway)
    → Keeps g (on_register w id msg s name g)
unfolding on_register
on_register-Keeps w id msg s none g valid = valid
on_register-Keeps w id msg s (some name) g valid = registered-Keeps w id msg s _ _ valid

on_update_status-Keeps :
    (w : World) (id : ℕ) (msg : ClientMessage) (s : ClientSession) (g : Gateway)
    → Keeps g (on_update_status w id msg s g)
unfolding on_update_status broadcast_presence broadcast_to_all
on_update_status-Keeps w id msg s g valid = elim (Bool-cases (is_empty s.username)) [
  | inl e ↦ rw e valid
  | inr e ↦ rw e (change_entry-IsRoster _ s.username g.presence (λ p. refl) valid)
]

enter_room-Keeps :
    (id : ℕ) (room : Text) (s : ClientSession) (g : Gateway) → Keeps g (enter_room id room s g)
unfolding enter_room broadcast_presence broadcast_to_all
enter_room-Keeps id room s g valid = elim (Bool-cases (is_empty s.username)) [
  | inl e ↦ rw e valid
  | inr e ↦ rw e (change_entry-IsRoster _ s.username g.presence (λ p. refl) valid)
]

joined_room-Keeps :
    (w : World) (id : ℕ) (msg : ClientMessage) (s : ClientSession) (room : Text) (r : RoomResult)
    (g : Gateway)
    → Keeps g (joined_room w id msg s room r g)
unfolding joined_room
joined_room-Keeps w id msg s room (denied e) g valid = valid
joined_room-Keeps w id msg s room (joined r) g valid =
    rw forward-presence (enter_room-Keeps id room s g valid)
joined_room-Keeps w id msg s room joined_inherited g valid =
    rw forward-presence (enter_room-Keeps id room s g valid)

on_leave_room-Keeps :
    (w : World) (id : ℕ) (msg : ClientMessage) (s : ClientSession) (g : Gateway)
    → Keeps g (on_leave_room w id msg s g)
unfolding on_leave_room
on_leave_room-Keeps w id msg s g valid = rw forward-presence (enter_room-Keeps id general s g valid)

on_chat-presence :
    (w : World) (id : ℕ) (msg : ClientMessage) (s : ClientSession) (g : Gateway)
    → (on_chat w id msg s g).presence ≡ g.presence
unfolding on_chat forward broadcast_to_all
on_chat-presence w id msg s g = ground arith

on_private_message-presence :
    (w : World) (id : ℕ) (msg : ClientMessage) (s : ClientSession) (g : Gateway)
    → (on_private_message w id msg s g).presence ≡ g.presence
unfolding on_private_message forward broadcast_to_all
on_private_message-presence w id msg s g = ground arith

on_action-Keeps :
    (w : World) (id : ℕ) (msg : ClientMessage) (s : ClientSession) (a : Action) (g : Gateway)
    → Keeps g (on_action w id msg s a g)
unfolding on_action on_join_room
on_action-Keeps w id msg s register g valid = on_register-Keeps w id msg s msg.username g valid
on_action-Keeps w id msg s update_status g valid = on_update_status-Keeps w id msg s g valid
on_action-Keeps w id msg s chat g valid = rw on_chat-presence valid
on_action-Keeps w id msg s join_room g valid = joined_room-Keeps w id msg s _ _ _ valid
on_action-Keeps w id msg s leave_room g valid = on_leave_room-Keeps w id msg s g valid
on_action-Keeps w id msg s private_message g valid = rw on_private_message-presence valid
on_action-Keeps w id msg s unknown g valid = valid
on_action-Keeps w id msg s _ g valid = rw forward-presence valid

on_message-Keeps :
    (w : World) (id : ℕ) (msg : Option ClientMessage) (g : Gateway)
    → Keeps g (on_message w id msg g)
unfolding on_message
on_message-Keeps w id none g valid = valid
on_message-Keeps w id (some msg) g valid = elim (Option-cases (find_session id g.sessions)) [
  | inl e ↦ rw (e, on_message) valid
  | inr (s, e) ↦ rw (e, on_message) (on_action-Keeps w id msg s (action_of msg.action) g valid)
]

on_frames-presence :
    (id : ℕ) (is_open : Bool) (frames : List DecodedFrame) (g : Gateway)
    → (on_frames id is_open frames g).presence ≡ g.presence
unfolding on_frames on_frame broadcast_to_all
on_frames-presence id is_open [] g = refl
on_frames-presence id is_open (frame ∷ frames) g =
    on_frames-presence id is_open frames (on_frame id is_open frame g) ∙ ground arith

send_status-presence :
    (id : ℕ) (status : Text) (g : Gateway) → (send_status id status g).presence ≡ g.presence
unfolding send_status
send_status-presence id status g = ground arith

on_connection-presence :
    (w : World) (id : ℕ) (g : Gateway) → (on_connection w id g).presence ≡ g.presence
unfolding on_connection
on_connection-presence w id g = ground arith

on_tcp_close-presence : (id : ℕ) (g : Gateway) → (on_tcp_close id g).presence ≡ g.presence
unfolding on_tcp_close
on_tcp_close-presence id g = elim (Option-cases (find_session id g.sessions)) [
  | inl e ↦ rw (e, on_tcp_close)
  | inr (s, e) ↦ rw (e, on_tcp_close) (rw send_status-presence)
]

on_tcp_data-presence :
    (times : ℕ → Text) (id : ℕ) (chunk : Bytes) (g : Gateway)
    → (on_tcp_data times id chunk g).presence ≡ g.presence
unfolding on_tcp_data
on_tcp_data-presence times id chunk g = elim (Option-cases (find_session id g.sessions)) [
  | inl e ↦ rw (e, on_tcp_data)
  | inr (s, e) ↦ rw (e, on_tcp_data) (rw on_frames-presence)
]

leave_presence-Keeps : (username : Text) (g : Gateway) → Keeps g (leave_presence username g)
unfolding leave_presence broadcast_presence broadcast_to_all
leave_presence-Keeps username g valid = elim (Bool-cases (is_empty username)) [
  | inl e ↦ rw e valid
  | inr e ↦ rw e (delete-IsRoster username g.presence valid)
]

on_close-Keeps : (id : ℕ) (g : Gateway) → Keeps g (on_close id g)
unfolding on_close
on_close-Keeps id g valid = elim (Option-cases (find_session id g.sessions)) [
  | inl e ↦ rw (e, on_close) valid
  | inr (s, e) ↦
      rw (e, on_close) (rw ((end_tcp-rest _ _ _).0) (leave_presence-Keeps s.username _ valid))
]

module _ (parse : Text → Option RawMetrics) where
  on_metrics_frame-presence :
      (w : World) (frame : DecodedFrame) (g : Gateway)
      → (on_metrics_frame parse w frame g).presence ≡ g.presence
  unfolding on_metrics_frame broadcast_to_all
  on_metrics_frame-presence w frame g = ground arith

  on_metrics_frames-presence :
      (w : World) (frames : List DecodedFrame) (g : Gateway)
      → (on_metrics_frames parse w frames g).presence ≡ g.presence
  unfolding on_metrics_frames
  on_metrics_frames-presence w [] g = refl
  on_metrics_frames-presence w (frame ∷ frames) g =
      on_metrics_frames-presence w frames (on_metrics_frame parse w frame g)
      ∙ on_metrics_frame-presence w frame g

  step-Keeps : (w : World) (input : Input) (s : State) → Keeps s.1 (step parse w input s).1
  unfolding step on_tcp_connected on_tcp_error on_metrics_data
  step-Keeps w (connection id) (p, g) valid = rw on_connection-presence valid
  step-Keeps w (close id) (p, g) valid = on_close-Keeps id g valid
  step-Keeps w (tcp_connected id) (p, g) valid = rw send_status-presence valid
  step-Keeps w (tcp_error id) (p, g) valid = rw send_status-presence valid
  step-Keeps w (tcp_close id) (p, g) valid = rw on_tcp_close-presence valid
  step-Keeps w (tcp_data times id chunk) (p, g) valid = rw on_tcp_data-presence valid
  step-Keeps w (message id msg) (p, g) valid = on_message-Keeps w id msg g valid
  step-Keeps w (metrics_data times chunk) (p, g) valid = rw on_metrics_frames-presence valid
  step-Keeps w _ (p, g) valid = valid

  run-Keeps : (inputs : List (World × Input)) (s : State) → Keeps s.1 (run parse inputs s).1
  unfolding run
  run-Keeps [] s valid = valid
  run-Keeps ((w, input) ∷ more) s valid =
      run-Keeps more (step parse w input s) (step-Keeps w input s valid)

  -- If the presence map has one entry for each name, of that name, it is so after any events in any
  -- order, and the list of it that the gateway would send names nobody twice.
  pub run-IsRoster :
      (inputs : List (World × Input)) (s : State)
      → IsRoster s.1.presence
      → IsRoster (run parse inputs s).1.presence
        × IsOnceEach (values (run parse inputs s).1.presence)
  run-IsRoster inputs s valid =
      let later = run-Keeps inputs s valid in (later, values-IsOnceEach _ later)
