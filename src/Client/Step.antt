-- ===== src/Client/Step.antt =====
-- The hook of frontend/src/hooks/usePulseChat.ts as a whole: its first state, and its events in any
-- order, each followed by a rendering and the effects that write to `localStorage`.
pub mod Kept
pub mod Foreign
pub mod Reconnection
pub mod Accounts
use pulse_chat.Base.{
  ◌≡◌, refl, ℕ, zero, List, [], ◌∷◌, ◌++◌, Option, none, some, Bool, true, false, not,
  if◌then◌else◌,
}
use pulse_chat.Text.{Text, units_of, text_eq, is_empty}
use pulse_chat.Dict.{Dict, get, delete}
use pulse_chat.Db.{World, general}
use pulse_chat.Gateway.{Event}
use pulse_chat.Client.{
  UserProfile, WsStatus, Timer, Stored, text_item, profile_item, messages_item, Client, username_of,
  key_profile, key_room, key_active_dm, key_messages, set_active_dm_user, on_focus,
}
use pulse_chat.Client.Frames.{on_event}
use pulse_chat.Client.Commands.{
  saved_messages, login, logout, update_status, join_room, leave_room, send_message,
}
use pulse_chat.Client.Connection.{
  on_open, on_error, on_close, on_timer, on_heartbeat, update_ws_url, persist,
}

-- `getInitialWsUrl`, for the protocol and the host name of the window, if there is one.
unfoldable pub initial_ws_url : Option (Text × Text) → Text
initial_ws_url none = units_of "ws://127.0.0.1:3001"
initial_ws_url (some (protocol, hostname)) =
    if text_eq protocol (units_of "https:")
    then units_of "wss://pulsechat-backend-yohc.onrender.com"
    else units_of "ws://" ++ (hostname ++ units_of ":3001")

-- The keys that it removes.
unfoldable pub without_overrides : Option (Text × Text) → Dict Stored → Dict Stored
without_overrides none storage = storage
without_overrides (some window) storage =
    delete (units_of "pulsechat_ws_url_override")
      (delete (units_of "pulsechat_custom_ws_url") (delete (units_of "pulsechat_ws_url") storage))

unfoldable pub saved_profile : Option Stored → Option UserProfile
saved_profile (some (profile_item p)) = some p
saved_profile _ = none

-- An item that is missing or empty counts as none.
unfoldable pub saved_text : Option Stored → Option Text
saved_text (some (text_item (c ∷ s))) = some (c ∷ s)
saved_text _ = none

abbrev some_or {ℓ} : {A : Type ℓ} → Option A → A → A
some_or none a = a
some_or (some b) a = b

abbrev has_profile : Option UserProfile → Bool
has_profile none = false
has_profile (some p) = true

-- The first values of the states.
unfoldable pub initial_client : Option (Text × Text) → Dict Stored → Client
unfolding initial_ws_url without_overrides saved_profile saved_text
initial_client window local_storage =
    let storage = without_overrides window local_storage in
    let profile = saved_profile (get key_profile storage) in
    record {
      ws_url = initial_ws_url window;
      ws_status = WsStatus.connecting;
      tcp_status = units_of "disconnected";
      profile = profile;
      is_registered = has_profile profile;
      current_room = some_or (saved_text (get key_room storage)) general;
      active_dm_user = saved_text (get key_active_dm storage);
      messages =
          if is_empty (username_of profile)
          then []
          else saved_messages (get (key_messages (username_of profile)) storage);
      rooms = record { name = general; users = 0; is_protected = false } ∷ [];
      users = [];
      metrics = none;
      telemetry_events = [];
      registration_error = none;
      toast = none;
      mention_count = 0;
      socket = none;
      reconnect_timer = Timer.idle;
      storage = storage;
      effects = [];
    }

-- What comes to the hook: from a socket, the clock, the window or the user. The flag of a socket's
-- event tells whether `wsRef` holds the socket.
pub data Input : Type 0 where
  received : Event → Input
  socket_opened socket_closed : Bool → Input
  socket_failed timer_fired heartbeat focused logged_out left_room : Input
  logged_in : UserProfile → Input
  status_chosen : Text → Option Text → Input
  dm_chosen : Option Text → Input
  room_chosen : Text → Option Text → Input
  typed url_chosen : Text → Input

module _ (valid : Text → Bool) where
  unfoldable pub handle : World → Input → Client → Client
  handle w (received e) c = on_event w e c
  handle w (socket_opened is_current) c = on_open is_current c
  handle w (socket_closed is_current) c = on_close is_current c
  handle w socket_failed c = on_error c
  handle w timer_fired c = on_timer valid c
  handle w heartbeat c = on_heartbeat c
  handle w focused c = on_focus c
  handle w logged_out c = logout c
  handle w left_room c = leave_room c
  handle w (logged_in p) c = login p c
  handle w (status_chosen status activity_text) c = update_status status activity_text c
  handle w (dm_chosen user) c = set_active_dm_user user c
  handle w (room_chosen room password) c = join_room room password c
  handle w (typed input) c = send_message w input c
  handle w (url_chosen url) c = update_ws_url valid url c

  unfoldable pub step : World → Input → Client → Client
  step w input c = persist (handle w input c)

  unfoldable pub run : List (World × Input) → Client → Client
  run [] c = c
  run ((w, input) ∷ more) c = run more (step w input c)
