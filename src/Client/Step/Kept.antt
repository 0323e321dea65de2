-- ===== src/Client/Step/Kept.antt =====
-- The handlers of frontend/src/hooks/usePulseChat.ts that leave the reconnection timer alone, and
-- an entry of `localStorage` whose key is none that they write.
pub mod Commands
use pulse_chat.Base.{
  slice_last, ◌∙◌, Option-cases, inl, inr, ◌≡◌, refl, List, [], ◌∷◌, Option, none, some, Bool, true,
  false, arith, if◌then◌else◌,
}
use pulse_chat.Text.{text_eq, Text, units_of, includes, ◌or_else◌}
use pulse_chat.Db.{World, general}
use pulse_chat.Gateway.{
  Event, presence_list, system_metrics, tcp_status, pcap_frame, error_frame, room_history,
  dm_history, telemetry_event,
}
use pulse_chat.Gateway.Actions.{ClientMessage}
use pulse_chat.Dict.{get}
use pulse_chat.Dict.Laws.{get-set, get-delete_other}
use pulse_chat.Client.{
  ChatMessage, UserProfile, Timer, Stored, text_item, profile_item, messages_item, Client,
  username_of, store, remove_item, key_profile, key_room, key_active_dm, key_messages, key_handle,
  set_active_dm_user, send_action,
}
use pulse_chat.Client.Messages.{append_message, notify, on_room_history, on_dm_history}
use pulse_chat.Client.Frames.{
  Frame, go_to_room, system_message, notification_room, remember_handle, welcomed, joined,
  on_notification, on_chat_frame, on_dm_frame, forget_handle, on_error_frame, on_pcap_frame,
  on_event,
}
use pulse_chat.Client.Patterns.{search, join_here, join_spaces}
use pulse_chat.Client.Commands.{
  close_socket, login, logout, update_status, join_room, leave_room, send_private_message,
  join_command, msg_command, run_command, say, send_message,
}
use pulse_chat.Client.Connection.{
  connect, open_socket, on_heartbeat, persist, persist_messages, persist_profile,
}

-- The timer of a state, under a short name.
abbrev pub timer : Client → Timer
timer c = c.reconnect_timer

-- A key that no handler writes.
abbrev pub IsForeign : Text → Type 0
IsForeign key =
    (text_eq key_active_dm key ≡ false)
    × (text_eq key_profile key ≡ false)
    × (text_eq key_room key ≡ false)
    × ((email : Text) → text_eq (key_handle email) key ≡ false)

-- What the handlers leave alone.
abbrev pub kept : Text → Client → Timer × Option Stored
kept key c = (c.reconnect_timer, get key c.storage)

module _ (key : Text) (foreign : IsForeign key) where
  kept-store :
      (k : Text) (item : Stored) (c : Client)
      → text_eq k key ≡ false
      → kept key (store k item c) ≡ kept key c
  kept-store k item c h = rw (get-set k key item c.storage, h) refl

  pub kept-remove_item :
      (k : Text) (c : Client) → text_eq k key ≡ false → kept key (remove_item k c) ≡ kept key c
  kept-remove_item k c h = rw (get-delete_other k key c.storage h) refl

  pub kept-set_active_dm_user :
      (user : Option Text) (c : Client) → kept key (set_active_dm_user user c) ≡ kept key c
  unfolding set_active_dm_user
  kept-set_active_dm_user none c =
      kept-remove_item key_active_dm (record c { active_dm_user = none }) foreign.0
  kept-set_active_dm_user (some user) c =
      let c1 = record c { active_dm_user = some user } in
      ground (
        arith,
        kept-remove_item key_active_dm c1 foreign.0,
        kept-store key_active_dm (text_item user) c1 foreign.0,
      )

  pub kept-send_action : (m : ClientMessage) (c : Client) → kept key (send_action m c) ≡ kept key c
  unfolding send_action
  kept-send_action m c = ground arith

  pub kept-append_message :
      (w : World) (m : ChatMessage) (c : Client) → kept key (append_message w m c) ≡ kept key c
  unfolding append_message notify
  kept-append_message w m c = ground arith

  pub kept-close_socket : (c : Client) → kept key (close_socket c) ≡ kept key c
  unfolding close_socket
  kept-close_socket c = ground arith

  pub kept-connect : (valid : Text → Bool) (c : Client) → kept key (connect valid c) ≡ kept key c
  unfolding connect open_socket
  kept-connect valid c = ground arith

  kept-remember_handle :
      (p : Option UserProfile) (c : Client) → kept key (remember_handle p c) ≡ kept key c
  unfolding remember_handle
  kept-remember_handle none c = refl
  kept-remember_handle (some p) c = elim (Option-cases p.email) [
    | inl e ↦ rw e refl
    | inr (email, e) ↦
        rw e
          (ground (arith, kept-store (key_handle email) (text_item p.username) c (foreign.3 email)))
  ]

  kept-forget_handle :
      (p : Option UserProfile) (c : Client) → kept key (forget_handle p c) ≡ kept key c
  unfolding forget_handle
  kept-forget_handle none c = refl
  kept-forget_handle (some p) c = elim (Option-cases p.email) [
    | inl e ↦ rw e refl
    | inr (email, e) ↦
        rw e (ground (arith, kept-remove_item (key_handle email) c (foreign.3 email)))
  ]

  kept-welcomed : (s : Text) (c : Client) → kept key (welcomed s c) ≡ kept key c
  unfolding welcomed
  kept-welcomed s c = grind (arith, kept-remember_handle)

  kept-joined : (room : Option Text) (c : Client) → kept key (joined room c) ≡ kept key c
  kept-joined none c = refl
  kept-joined (some room) c = kept-set_active_dm_user none (record c { current_room = room })

  kept-returned :
      (b : Bool) (c : Client) → kept key (if b then go_to_room general c else c) ≡ kept key c
  kept-returned true c = kept-set_active_dm_user none (record c { current_room = general })
  kept-returned false c = refl

  kept-on_notification :
      (w : World) (f : Frame) (time : Text) (c : Client)
      → kept key (on_notification w f time c) ≡ kept key c
  unfolding on_notification
  kept-on_notification w f time c =
      let c1 = joined (search join_here f.payload) (welcomed f.payload c) in
      let back = includes (units_of "returned to #general") f.payload in
      let c2 = if back then go_to_room general c1 else c1 in
      let m = system_message f time (notification_room f.payload c.current_room) in
      ground (
        arith,
        kept-append_message w m c2,
        kept-returned back c1,
        kept-joined (search join_here f.payload) (welcomed f.payload c),
        kept-welcomed f.payload c,
      )

  kept-on_chat_frame :
      (w : World) (f : Frame) (time : Text) (c : Client)
      → kept key (on_chat_frame w f time c) ≡ kept key c
  unfolding on_chat_frame
  kept-on_chat_frame w f time c = grind (arith, kept-append_message)

  kept-on_dm_frame :
      (w : World) (f : Frame) (time : Text) (c : Client)
      → kept key (on_dm_frame w f time c) ≡ kept key c
  unfolding on_dm_frame
  kept-on_dm_frame w f time c = grind (arith, kept-append_message)

  kept-on_error_frame :
      (w : World) (s : Text) (c : Client) → kept key (on_error_frame w s c) ≡ kept key c
  unfolding on_error_frame
  kept-on_error_frame w s c = grind (arith, kept-forget_handle)

  kept-persist_messages :
      (c : Client)
      → text_eq (key_messages (username_of c.profile)) key ≡ false
      → kept key (persist_messages c) ≡ kept key c
  unfolding persist_messages
  kept-persist_messages c h = ground (
    arith,
    kept-store (key_messages (username_of c.profile)) (messages_item (slice_last 300 c.messages)) c
        h,
  )

  kept-persist_profile : (c : Client) → kept key (persist_profile c) ≡ kept key c
  unfolding persist_profile
  kept-persist_profile c = elim (Option-cases c.profile) [
    | inl e ↦ rw e (kept-remove_item key_profile c foreign.1)
    | inr (p, e) ↦ rw e (kept-store key_profile (profile_item p) c foreign.1)
  ]

  -- Of the effects behind a rendering one writes the messages, under the user's name.
  pub kept-persist :
      (c : Client)
      → text_eq (key_messages (username_of c.profile)) key ≡ false
      → kept key (persist c) ≡ kept key c
  unfolding persist
  kept-persist c h =
      kept-store key_room (text_item c.current_room) (persist_profile (persist_messages c))
        foreign.2
      ∙ kept-persist_profile (persist_messages c)
      ∙ kept-persist_messages c h

  kept-on_pcap_frame :
      (w : World) (f : Frame) (c : Client) → kept key (on_pcap_frame w f c) ≡ kept key c
  unfolding on_pcap_frame
  kept-on_pcap_frame w f c =
      let time = f.timestamp or_else w.local_time in
      ground (
        arith,
        kept-on_notification w f time c,
        kept-on_chat_frame w f time c,
        kept-on_dm_frame w f time c,
        kept-on_error_frame w f.payload c,
      )

  pub kept-on_event : (w : World) (e : Event) (c : Client) → kept key (on_event w e c) ≡ kept key c
  unfolding on_event on_room_history on_dm_history
  kept-on_event w (tcp_status status) c = refl
  kept-on_event w (presence_list users) c = refl
  kept-on_event w (system_metrics m time) c = refl
  kept-on_event w (room_history room ms) c = refl
  kept-on_event w (dm_history ms) c = refl
  kept-on_event w (telemetry_event e) c = refl
  kept-on_event w (pcap_frame f) c = kept-on_pcap_frame w _ c
  kept-on_event w (error_frame n payload time) c = kept-on_pcap_frame w _ c
