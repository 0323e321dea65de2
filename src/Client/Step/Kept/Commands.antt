-- ===== src/Client/Step/Kept/Commands.antt =====
-- The commands of frontend/src/hooks/usePulseChat.ts that leave the reconnection timer alone, and an
-- entry of `localStorage` whose key is none that they write.
use pulse_chat.Base.{◌∙◌, ◌≡◌, refl, List, [], ◌∷◌, Option, none, some, false, arith}
use pulse_chat.Text.{Text}
use pulse_chat.Db.{World}
use pulse_chat.Client.{UserProfile, Client, remove_item, key_profile, set_active_dm_user}
use pulse_chat.Client.Patterns.{join_spaces}
use pulse_chat.Client.Commands.{
  login, logout, update_status, join_room, leave_room, send_private_message, join_command,
  msg_command, run_command, say, send_message,
}
use pulse_chat.Client.Connection.{on_heartbeat}
use pulse_chat.Client.Step.Kept.{
  IsForeign, kept, kept-append_message, kept-close_socket, kept-remove_item, kept-send_action,
  kept-set_active_dm_user,
}

module _ (key : Text) (foreign : IsForeign key) where
  kept-send_private_message :
      (w : World) (user s : Text) (c : Client)
      → kept key (send_private_message w user s c) ≡ kept key c
  unfolding send_private_message
  kept-send_private_message w user s c =
      grind (arith, kept-append_message key foreign, kept-send_action key foreign)

  pub kept-join_room :
      (room : Text) (password : Option Text) (c : Client)
      → kept key (join_room room password c) ≡ kept key c
  unfolding join_room
  kept-join_room room password c =
      grind (arith, kept-set_active_dm_user key foreign, kept-send_action key foreign)

  pub kept-leave_room : (c : Client) → kept key (leave_room c) ≡ kept key c
  unfolding leave_room
  kept-leave_room c =
      grind (arith, kept-set_active_dm_user key foreign, kept-send_action key foreign)

  kept-join_command : (ws : List Text) (c : Client) → kept key (join_command ws c) ≡ kept key c
  unfolding join_command
  kept-join_command [] c = refl
  kept-join_command (room ∷ rest) c = grind (arith, kept-join_room)

  kept-msg_command :
      (w : World) (ws : List Text) (c : Client) → kept key (msg_command w ws c) ≡ kept key c
  unfolding msg_command
  kept-msg_command w [] c = refl
  kept-msg_command w (a ∷ []) c = refl
  kept-msg_command w (a ∷ b ∷ ws) c = kept-send_private_message w a (join_spaces (b ∷ ws)) c

  kept-run_command : (w : World) (s : Text) (c : Client) → kept key (run_command w s c) ≡ kept key c
  unfolding run_command
  kept-run_command w s c = grind (
    arith,
    kept-join_command,
    kept-leave_room,
    kept-send_action key foreign,
    kept-msg_command,
    kept-append_message key foreign,
  )

  kept-say :
      (w : World) (s : Text) (user : Option Text) (c : Client)
      → kept key (say w s user c) ≡ kept key c
  unfolding say
  kept-say w s none c = kept-send_action key foreign _ c
  kept-say w s (some user) c =
      grind (arith, kept-send_action key foreign, kept-send_private_message)

  pub kept-send_message :
      (w : World) (s : Text) (c : Client) → kept key (send_message w s c) ≡ kept key c
  unfolding send_message
  kept-send_message w s c = grind (arith, kept-run_command, kept-say)

  pub kept-login : (p : UserProfile) (c : Client) → kept key (login p c) ≡ kept key c
  unfolding login
  kept-login p c = kept-send_action key foreign _ _

  pub kept-update_status :
      (s : Text) (activity_text : Option Text) (c : Client)
      → kept key (update_status s activity_text c) ≡ kept key c
  unfolding update_status
  kept-update_status s activity_text c = grind (arith, kept-send_action key foreign)

  pub kept-logout : (c : Client) → kept key (logout c) ≡ kept key c
  unfolding logout
  kept-logout c =
      let c1 = set_active_dm_user none (record c { profile = none; is_registered = false }) in
      kept-close_socket key foreign (remove_item key_profile (record c1 { messages = [] }))
      ∙ kept-remove_item key foreign key_profile (record c1 { messages = [] }) foreign.1
      ∙ kept-set_active_dm_user key foreign none
          (record c { profile = none; is_registered = false })

  pub kept-on_heartbeat : (c : Client) → kept key (on_heartbeat c) ≡ kept key c
  unfolding on_heartbeat
  kept-on_heartbeat c = grind (arith, kept-send_action key foreign)
