-- ===== src/Client/Step/Foreign.antt =====
-- The entries of `localStorage` whose keys no handler of frontend/src/hooks/usePulseChat.ts writes.
use pulse_chat.Base.{Bool, true, false, ◌≡◌, refl, ap, Bool, false, arith}
use pulse_chat.Text.{Text}
use pulse_chat.Dict.{get}
use pulse_chat.Db.{World}
use pulse_chat.Client.{on_focus, Client}
use pulse_chat.Client.Commands.{close_socket}
use pulse_chat.Client.Connection.{
  on_open, on_close, on_error, on_timer, connect, open_socket, update_ws_url, reconnect,
}
use pulse_chat.Client.Step.Kept.{IsForeign, kept-on_event, kept-set_active_dm_user}
use pulse_chat.Client.Step.Kept.Commands.{
  kept-on_heartbeat, kept-logout, kept-leave_room, kept-login, kept-update_status, kept-join_room,
  kept-send_message,
}
use pulse_chat.Client.Step.{
  Input, received, socket_opened, socket_closed, socket_failed, timer_fired, heartbeat, focused,
  left_room, status_chosen, dm_chosen, room_chosen, typed, url_chosen, logged_in, logged_out,
  handle,
}

storage-on_open : (b : Bool) (c : Client) → (on_open b c).storage ≡ c.storage
unfolding on_open
storage-on_open true c = refl
storage-on_open false c = refl

storage-on_close : (b : Bool) (c : Client) → (on_close b c).storage ≡ c.storage
unfolding on_close
storage-on_close true c = refl
storage-on_close false c = refl

storage-on_error : (c : Client) → (on_error c).storage ≡ c.storage
unfolding on_error
storage-on_error c = refl

storage-on_focus : (c : Client) → (on_focus c).storage ≡ c.storage
unfolding on_focus
storage-on_focus c = refl

pub storage-close_socket : (c : Client) → (close_socket c).storage ≡ c.storage
unfolding close_socket
storage-close_socket c = ground arith

storage-connect : (valid : Text → Bool) (c : Client) → (connect valid c).storage ≡ c.storage
unfolding connect open_socket
storage-connect valid c = ground arith

storage-on_timer : (valid : Text → Bool) (c : Client) → (on_timer valid c).storage ≡ c.storage
unfolding on_timer
storage-on_timer valid c = grind (arith, storage-connect)

storage-update_ws_url :
    (valid : Text → Bool) (url : Text) (c : Client)
    → (update_ws_url valid url c).storage ≡ c.storage
unfolding update_ws_url reconnect
storage-update_ws_url valid url c = grind (arith, storage-connect, storage-close_socket)

-- Such an entry outlives every event.
pub handle-foreign :
    (key : Text) (valid : Text → Bool) (w : World) (input : Input) (c : Client)
    → IsForeign key
    → get key (handle valid w input c).storage ≡ get key c.storage
unfolding handle
handle-foreign key valid w (received e) c h = ap (λ k. k.1) (kept-on_event key h w e c)
handle-foreign key valid w (socket_opened b) c h = ap (get key) (storage-on_open b c)
handle-foreign key valid w (socket_closed b) c h = ap (get key) (storage-on_close b c)
handle-foreign key valid w socket_failed c h = ap (get key) (storage-on_error c)
handle-foreign key valid w timer_fired c h = ap (get key) (storage-on_timer valid c)
handle-foreign key valid w heartbeat c h = ap (λ k. k.1) (kept-on_heartbeat key h c)
handle-foreign key valid w focused c h = ap (get key) (storage-on_focus c)
handle-foreign key valid w logged_out c h = ap (λ k. k.1) (kept-logout key h c)
handle-foreign key valid w left_room c h = ap (λ k. k.1) (kept-leave_room key h c)
handle-foreign key valid w (logged_in p) c h = ap (λ k. k.1) (kept-login key h p c)
handle-foreign key valid w (status_chosen s a) c h = ap (λ k. k.1) (kept-update_status key h s a c)
handle-foreign key valid w (dm_chosen user) c h =
    ap (λ k. k.1) (kept-set_active_dm_user key h user c)
handle-foreign key valid w (room_chosen room password) c h =
    ap (λ k. k.1) (kept-join_room key h room password c)
handle-foreign key valid w (typed s) c h = ap (λ k. k.1) (kept-send_message key h w s c)
handle-foreign key valid w (url_chosen url) c h = ap (get key) (storage-update_ws_url valid url c)
