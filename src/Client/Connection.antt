-- ===== src/Client/Connection.antt =====
-- The socket of frontend/src/hooks/usePulseChat.ts, its timers, and what is kept in `localStorage`.
-- `valid` stands for the URLs that `new WebSocket` does not throw on. An event of a socket tells
-- whether it is the one that `wsRef` holds; the handlers are the same for one that was replaced.
use pulse_chat.Base.{
  List, [], ◌∷◌, ◌++◌, Option, none, some, Bool, true, false, if◌then◌else◌, slice_last, drop,
  length,
}
use pulse_chat.Text.{Text, units_of, text_eq, is_empty, trim, starts_with}
use pulse_chat.Db.{general}
use pulse_chat.Client.{
  UserProfile, WsStatus, ReadyState, state_connecting, state_open, state_closed, Timer, idle,
  pending, cleared, text_item, profile_item, messages_item, Client, requested, opened, Effect,
  perform, store, remove_item, key_profile, key_room, key_messages, username_of, request,
  send_action, register_request,
}
use pulse_chat.Client.Commands.{close_socket}

-- The new socket of `connect`.
unfoldable pub open_socket : (Text → Bool) → Client → Client
open_socket valid c =
    if valid c.ws_url
    then perform (opened c.ws_url)
        (record c { ws_status = WsStatus.connecting; socket = some state_connecting })
    else record c { ws_status = WsStatus.failed }

-- `connect`
unfoldable pub connect : (Text → Bool) → Client → Client
unfolding open_socket
connect valid c = elim c.socket [
  | some ReadyState.state_open ↦ c
  | some ReadyState.state_connecting ↦ c
  | _ ↦ open_socket valid c
]

abbrev pub set_socket : Bool → ReadyState → Client → Client
set_socket true r c = record c { socket = some r }
set_socket false r c = c

-- What `onopen` sends, on the socket that opened.
unfoldable pub rejoin_requests : Text → Option UserProfile → List Effect
rejoin_requests room none = []
rejoin_requests room (some p) =
    if is_empty p.username
    then []
    else if is_empty room
    then requested (register_request p) ∷ []
    else if text_eq room general
    then requested (register_request p) ∷ []
    else requested (register_request p)
      ∷ requested (record (request (units_of "join_room")) { room = some room })
      ∷ []

-- `onopen`
unfoldable pub on_open : Bool → Client → Client
unfolding rejoin_requests
on_open is_current c =
    let c1 = set_socket is_current state_open (record c { ws_status = WsStatus.connected }) in
    record c1 { effects = c1.effects ++ rejoin_requests c.current_room c.profile }

-- `onerror`
unfoldable pub on_error : Client → Client
on_error c = record c { ws_status = WsStatus.failed }

-- The timer that `onclose` starts, if `reconnectTimerRef` is null.
unfoldable pub start_timer : Timer → Timer
start_timer idle = pending
start_timer pending = pending
start_timer cleared = cleared

-- `onclose`
unfoldable pub on_close : Bool → Client → Client
unfolding start_timer
on_close is_current c = set_socket is_current state_closed (record c {
  ws_status = WsStatus.disconnected;
  tcp_status = units_of "disconnected";
  reconnect_timer = start_timer c.reconnect_timer;
})

-- The callback of the timer, which runs while the timer is there.
unfoldable pub on_timer : (Text → Bool) → Client → Client
unfolding connect
on_timer valid c = elim c.reconnect_timer [
  | pending ↦ connect valid (record c { reconnect_timer = idle })
  | _ ↦ c
]

-- `clearTimeout` in the clean-up of the effect that connects: the reference keeps its number.
unfoldable pub clear_timer : Timer → Timer
clear_timer idle = idle
clear_timer pending = cleared
clear_timer cleared = cleared

-- The clean-up and the next run of that effect.
unfoldable pub reconnect : (Text → Bool) → Client → Client
unfolding clear_timer connect
reconnect valid c =
    let c1 = close_socket c in
    connect valid (record c1 { reconnect_timer = clear_timer c1.reconnect_timer })

abbrev replace_scheme : Text → Text → Text → Text
replace_scheme old new s = if starts_with old s then new ++ drop (length old) s else s

-- `updateWsUrl`: the URL with a WebSocket scheme.
unfoldable pub formatted : Text → Text
formatted new_url =
    replace_scheme (units_of "https://") (units_of "wss://")
      (replace_scheme (units_of "http://") (units_of "ws://") (trim new_url))

-- `updateWsUrl`; a URL that is another runs the effect again.
unfoldable pub update_ws_url : (Text → Bool) → Text → Client → Client
unfolding formatted reconnect
update_ws_url valid new_url c =
    let url = formatted new_url in
    let c1 = close_socket (record c { ws_url = url }) in
    if text_eq url c.ws_url then c1 else reconnect valid c1

-- The interval of 4000 ms.
unfoldable pub on_heartbeat : Client → Client
on_heartbeat c = elim c.profile [
  | none ↦ c
  | some p ↦
      send_action (request (units_of "list_rooms")) (send_action (request (units_of "heartbeat")) c)
]

-- The effects that write to `localStorage`, for a rendering that changed what they depend on.
unfoldable pub persist_messages : Client → Client
persist_messages c =
    if is_empty (username_of c.profile)
    then c
    else store (key_messages (username_of c.profile)) (messages_item (slice_last 300 c.messages)) c

unfoldable pub persist_profile : Client → Client
persist_profile c = elim c.profile [
  | none ↦ remove_item key_profile c
  | some p ↦ store key_profile (profile_item p) c
]

unfoldable pub persist : Client → Client
unfolding persist_messages persist_profile
persist c = store key_room (text_item c.current_room) (persist_profile (persist_messages c))
