-- ===== src/Client/Rejoin.antt =====
-- The hook of frontend/src/hooks/usePulseChat.ts and the gateway of gateway/src/server.ts together:
-- what becomes of the room when a browser connects again.
use pulse_chat.Base.{◌≡◌, refl, ℕ, [], ◌∷◌, some, false, length}
use pulse_chat.Text.{Text, units_of, text_eq, is_empty, includes, starts_with}
use pulse_chat.Dict.{get}
use pulse_chat.Pcap.Codes.{of_opcode}
use pulse_chat.Db.{DbRoom, World, general}
use pulse_chat.Db.Rooms.{room_key, password_required, room_error_text}
use pulse_chat.Db.Rooms.Access.{IsLocked, create_or_join_room_unasked}
use pulse_chat.Gateway.{ClientSession, error_frame, sent, Gateway, emit}
use pulse_chat.Gateway.Actions.{ClientMessage, on_join_room, joined_room}
use pulse_chat.Gateway.Access.{asked_room}
use pulse_chat.Client.{UserProfile, Client, requested, request, register_request}
use pulse_chat.Client.Frames.{on_event, on_pcap_frame, on_error_frame}
use pulse_chat.Client.Connection.{rejoin_requests}

-- The request for the room that the browser was in.
abbrev pub rejoin : Text → ClientMessage
rejoin room = record (request (units_of "join_room")) { room = some room }

on_join_room-rejoin :
    (w : World) (id : ℕ) (room : Text) (s : ClientSession) (g : Gateway) (r : DbRoom)
    (secret : Text)
    → is_empty (room_key (asked_room (rejoin room))) ≡ false
    → get (room_key (asked_room (rejoin room))) g.db.data_now.rooms ≡ some r
    → IsLocked r secret
    → on_join_room w id (rejoin room) s g
      ≡ emit
          (sent id (
            error_frame
              (length (room_error_text (password_required r.name)))
              (room_error_text (password_required r.name))
              w.local_time))
          g
unfolding on_join_room joined_room
on_join_room-rejoin w id room s g r secret named at lock = rw (
    create_or_join_room_unasked w (asked_room (rejoin room)) (some s.username) g.db r secret named
      at lock)

on_event-password_required :
    (w : World) (name time : Text) (n : ℕ) (c : Client)
    → (on_event w (error_frame n (room_error_text (password_required name)) time) c).current_room
      ≡ general
unfolding on_event on_pcap_frame on_error_frame room_error_text includes starts_with of_opcode
on_event-password_required w name time n c = refl

-- A browser that was in a locked room and connects again asks for the room without its password.
-- The gateway refuses, and the browser is in #general when it has the answer.
pub rejoin_locked :
    (v w : World) (id : ℕ) (s : ClientSession) (g : Gateway) (c : Client) (p : UserProfile)
    (r : DbRoom) (secret : Text)
    → is_empty p.username ≡ false
    → is_empty c.current_room ≡ false
    → text_eq c.current_room general ≡ false
    → is_empty (room_key (asked_room (rejoin c.current_room))) ≡ false
    → get (room_key (asked_room (rejoin c.current_room))) g.db.data_now.rooms ≡ some r
    → IsLocked r secret
    → (rejoin_requests c.current_room (some p)
        ≡ requested (register_request p) ∷ requested (rejoin c.current_room) ∷ [])
      × ((payload : Text) × (on_join_room w id (rejoin c.current_room) s g
            ≡ emit (sent id (error_frame (length payload) payload w.local_time)) g)
          × ((on_event v (error_frame (length payload) payload w.local_time) c).current_room
              ≡ general))
unfolding rejoin_requests
rejoin_locked v w id s g c p r secret name here elsewhere named at lock =
    let payload = room_error_text (password_required r.name) in
    (
      rw (name, here, elsewhere) refl,
      (
        payload,
        on_join_room-rejoin w id c.current_room s g r secret named at lock,
        on_event-password_required v r.name w.local_time (length payload) c,
      ),
    )
