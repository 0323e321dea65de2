-- ===== src/Client/Step/Reconnection.antt =====
-- The reconnections of frontend/src/hooks/usePulseChat.ts.
use pulse_chat.Base.{◌≡◌, refl, ◌∙◌, ap, List, [], ◌∷◌, Bool, true, false, arith, if◌then◌else◌}
use pulse_chat.Text.{Text, text_eq}
use pulse_chat.Db.{World}
use pulse_chat.Client.{pending, cleared, Client, on_focus}
use pulse_chat.Client.Commands.{close_socket}
use pulse_chat.Client.Connection.{
  connect, on_open, on_error, on_close, on_timer, update_ws_url, reconnect, clear_timer,
  start_timer, formatted, persist,
}
use pulse_chat.Client.Step.{
  Input, received, socket_opened, socket_closed, socket_failed, timer_fired, heartbeat, focused,
  logged_out, left_room, logged_in, status_chosen, dm_chosen, room_chosen, typed, url_chosen,
  handle, step, run,
}
use pulse_chat.Client.Step.Kept.{
  timer, IsForeign, kept-connect, kept-close_socket, kept-persist, kept-on_event,
  kept-set_active_dm_user,
}
use pulse_chat.Client.Step.Kept.Commands.{
  kept-on_heartbeat, kept-logout, kept-login, kept-update_status, kept-send_message, kept-join_room,
  kept-leave_room,
}

-- The empty key is none that a handler writes.
nowhere : IsForeign []
unfolding text_eq
nowhere = (refl, refl, refl, λ email. refl)

timer-persist : (c : Client) → timer (persist c) ≡ timer c
unfolding text_eq
timer-persist c = ap (λ k. k.0) (kept-persist [] nowhere c refl)

timer-connect : (valid : Text → Bool) (c : Client) → timer (connect valid c) ≡ timer c
timer-connect valid c = ap (λ k. k.0) (kept-connect [] nowhere valid c)

timer-close_socket : (c : Client) → timer (close_socket c) ≡ timer c
timer-close_socket c = ap (λ k. k.0) (kept-close_socket [] nowhere c)

module _ (valid : Text → Bool) where
  timer-reconnect : (c : Client) → timer (reconnect valid c) ≡ clear_timer (timer c)
  unfolding reconnect
  timer-reconnect c = grind (arith, timer-connect, timer-close_socket)

  timer-update_ws_url :
      (url : Text) (c : Client)
      → timer (update_ws_url valid url c)
        ≡ (if text_eq (formatted url) c.ws_url then timer c else clear_timer (timer c))
  unfolding update_ws_url
  timer-update_ws_url url c =
      let c1 = close_socket (record c { ws_url = formatted url }) in
      ground (arith, timer-reconnect c1, timer-close_socket (record c { ws_url = formatted url }))

  timer-on_open : (b : Bool) (c : Client) → timer (on_open b c) ≡ timer c
  unfolding on_open
  timer-on_open true c = refl
  timer-on_open false c = refl

  timer-on_close : (b : Bool) (c : Client) → timer (on_close b c) ≡ start_timer (timer c)
  unfolding on_close
  timer-on_close true c = refl
  timer-on_close false c = refl

  handle_cleared :
      (w : World) (input : Input) (c : Client)
      → timer c ≡ cleared
      → timer (handle valid w input c) ≡ cleared
  unfolding handle on_error on_focus on_timer start_timer clear_timer
  handle_cleared w (received e) c h = ap (λ k. k.0) (kept-on_event [] nowhere w e c) ∙ h
  handle_cleared w (socket_opened b) c h = timer-on_open b c ∙ h
  handle_cleared w (socket_closed b) c h = timer-on_close b c ∙ ap start_timer h
  handle_cleared w socket_failed c h = h
  handle_cleared w timer_fired c h = rw h refl
  handle_cleared w heartbeat c h = ap (λ k. k.0) (kept-on_heartbeat [] nowhere c) ∙ h
  handle_cleared w focused c h = h
  handle_cleared w logged_out c h = ap (λ k. k.0) (kept-logout [] nowhere c) ∙ h
  handle_cleared w left_room c h = ap (λ k. k.0) (kept-leave_room [] nowhere c) ∙ h
  handle_cleared w (logged_in p) c h = ap (λ k. k.0) (kept-login [] nowhere p c) ∙ h
  handle_cleared w (status_chosen s a) c h = ap (λ k. k.0) (kept-update_status [] nowhere s a c) ∙ h
  handle_cleared w (dm_chosen user) c h =
      ap (λ k. k.0) (kept-set_active_dm_user [] nowhere user c) ∙ h
  handle_cleared w (room_chosen room password) c h =
      ap (λ k. k.0) (kept-join_room [] nowhere room password c) ∙ h
  handle_cleared w (typed s) c h = ap (λ k. k.0) (kept-send_message [] nowhere w s c) ∙ h
  handle_cleared w (url_chosen url) c h = ground (arith, timer-update_ws_url url c, h)

  run_cleared :
      (inputs : List (World × Input)) (c : Client)
      → timer c ≡ cleared
      → timer (run valid inputs c) ≡ cleared
  unfolding run step
  run_cleared [] c h = h
  run_cleared ((w, input) ∷ more) c h =
      run_cleared more (persist (handle valid w input c))
        (timer-persist (handle valid w input c) ∙ handle_cleared w input c h)

  -- When another URL is chosen while a reconnection is waiting, then whatever happens later, no
  -- timer reconnects any more: the timer is one that was cleared, its callback does nothing, and a
  -- socket that closes starts no other.
  pub run-url_chosen :
      (w : World) (url : Text) (inputs : List (World × Input)) (is_current : Bool) (c : Client)
      → text_eq (formatted url) c.ws_url ≡ false
      → timer c ≡ pending
      → (timer (run valid inputs (step valid w (url_chosen url) c)) ≡ cleared)
        × (on_timer valid (run valid inputs (step valid w (url_chosen url) c))
            ≡ run valid inputs (step valid w (url_chosen url) c))
        × (timer (on_close is_current (run valid inputs (step valid w (url_chosen url) c)))
            ≡ cleared)
  unfolding step handle on_timer start_timer clear_timer
  run-url_chosen w url inputs is_current c other waiting =
      let c1 = update_ws_url valid url c in
      let h =
        run_cleared inputs (persist c1)
          (ground (arith, timer-persist c1, timer-update_ws_url url c, other, waiting)) in
      (h, rw h refl, timer-on_close is_current (run valid inputs (persist c1)) ∙ ap start_timer h)
