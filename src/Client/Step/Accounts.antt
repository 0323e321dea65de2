-- ===== src/Client/Step/Accounts.antt =====
-- What frontend/src/hooks/usePulseChat.ts keeps in `localStorage` for an account.
use pulse_chat.Base.{
  List, [], ◌∷◌, ◌≢◌, Bool-cases, ◌≡◌, refl, ◌∙◌, ap, ◌++◌, Option, none, some, Bool, false, arith,
  slice_last, Option-cases, inl, inr,
}
use pulse_chat.Text.{Text, units_of, text_eq, is_empty, to_lower}
use pulse_chat.Text.Laws.{text_eq→eq, text_eq_refl}
use pulse_chat.Dict.{get, set, delete}
use pulse_chat.Dict.Laws.{get-set, get-delete_other}
use pulse_chat.Db.{World}
use pulse_chat.Client.{
  UserProfile, Stored, remove_item, profile_item, messages_item, text_item, Client, username_of,
  key_messages, key_room, key_profile, key_active_dm, set_active_dm_user, send_action,
}
use pulse_chat.Client.Commands.{close_socket, login, logout, saved_messages}
use pulse_chat.Client.Connection.{persist, persist_messages, persist_profile}
use pulse_chat.Client.Step.Kept.{kept-persist, IsForeign}
use pulse_chat.Client.Step.Foreign.{handle-foreign, storage-close_socket}
use pulse_chat.Client.Step.{Input, run, logged_in, logged_out, handle, step}

-- The stored messages of a user.
abbrev pub stored : Text → Client → Option Stored
stored user c = get (key_messages user) c.storage

stored-set :
    (user key : Text) (item : Stored) (c : Client)
    → text_eq key (key_messages user) ≡ false
    → get (key_messages user) (set key item c.storage) ≡ stored user c
stored-set user key item c h = rw (get-set key (key_messages user) item c.storage, h) refl

stored-delete :
    (user key : Text) (c : Client)
    → text_eq key (key_messages user) ≡ false
    → get (key_messages user) (delete key c.storage) ≡ stored user c
stored-delete user key c h = get-delete_other key (key_messages user) c.storage h

stored-persist_profile :
    (user : Text) (c : Client) → stored user (persist_profile c) ≡ stored user c
unfolding persist_profile text_eq
stored-persist_profile user c = elim (Option-cases c.profile) [
  | inl e ↦ rw e (stored-delete user key_profile c refl)
  | inr (p, e) ↦ rw e (stored-set user key_profile (profile_item p) c refl)
]

stored-persist :
    (user : Text) (c : Client) → stored user (persist c) ≡ stored user (persist_messages c)
unfolding persist text_eq
stored-persist user c =
    stored-set user key_room (text_item c.current_room) (persist_profile (persist_messages c)) refl
    ∙ stored-persist_profile user (persist_messages c)

stored-persist_named :
    (c : Client)
    → is_empty (username_of c.profile) ≡ false
    → stored (username_of c.profile) (persist c) ≡ some (messages_item (slice_last 300 c.messages))
unfolding persist_messages
stored-persist_named c h =
    let user = username_of c.profile in
    stored-persist user c
    ∙ rw
        (
          h,
          get-set (key_messages user) (key_messages user)
              (messages_item (slice_last 300 c.messages)) c.storage,
          text_eq_refl (key_messages user),
        )
        refl

profile-close_socket : (c : Client) → (close_socket c).profile ≡ c.profile
unfolding close_socket
profile-close_socket c = ground arith

profile-logout : (c : Client) → (logout c).profile ≡ none
unfolding logout set_active_dm_user
profile-logout c = profile-close_socket _

stored-logout : (user : Text) (c : Client) → stored user (logout c) ≡ stored user c
unfolding logout set_active_dm_user text_eq
stored-logout user c =
    let c1 = remove_item key_active_dm c in
    ap (get (key_messages user)) (storage-close_socket _)
    ∙ stored-delete user key_profile c1 refl
    ∙ stored-delete user key_active_dm c refl

stored-step-logged_out :
    (valid : Text → Bool) (w : World) (user : Text) (c : Client)
    → stored user (step valid w logged_out c) ≡ stored user c
unfolding step handle persist_messages
stored-step-logged_out valid w user c =
    stored-persist user (logout c) ∙ rw (profile-logout c) (stored-logout user c)

messages-persist : (c : Client) → (persist c).messages ≡ c.messages
unfolding persist persist_messages persist_profile
messages-persist c = ground arith

messages-login :
    (p : UserProfile) (c : Client) → (login p c).messages ≡ saved_messages (stored p.username c)
unfolding login send_action
messages-login p c = ground arith

-- Whoever logs out after a rendering, and then in again under the same name up to case, sees the
-- last 300 of the messages that were there.
pub step-logged_in-logged_out :
    (valid : Text → Bool) (v w : World) (p : UserProfile) (c : Client)
    → is_empty (username_of c.profile) ≡ false
    → to_lower p.username ≡ to_lower (username_of c.profile)
    → (step valid w (logged_in p) (step valid v logged_out (persist c))).messages
      ≡ slice_last 300 c.messages
unfolding step handle saved_messages
step-logged_in-logged_out valid v w p c named same =
    let out = step valid v logged_out (persist c) in
    messages-persist (login p out)
    ∙ messages-login p out
    ∙ ap saved_messages (
        ap (λ u. get (units_of "pulsechat_msgs_" ++ u) out.storage) same
        ∙ stored-step-logged_out valid v (username_of c.profile) (persist c)
        ∙ stored-persist_named c named)

messages_key-IsForeign : (user : Text) → IsForeign (key_messages user)
unfolding text_eq
messages_key-IsForeign user = (refl, refl, refl, λ email. refl)

text_eq-other : (s t : Text) → s ≢ t → text_eq s t ≡ false
text_eq-other s t h = elim (Bool-cases (text_eq s t)) [
  | inl e ↦ absurd (h (text_eq→eq s t e))
  | inr e ↦ e
]

-- In no state of a run is it the user who is logged in.
abbrev pub NeverLoggedIn : (Text → Bool) → Text → List (World × Input) → Client → Type 0
NeverLoggedIn valid user [] c = Unit {0}
NeverLoggedIn valid user ((w, input) ∷ more) c =
    (to_lower (username_of (handle valid w input c).profile) ≢ to_lower user)
    × NeverLoggedIn valid user more (step valid w input c)

stored-step :
    (valid : Text → Bool) (w : World) (input : Input) (user : Text) (c : Client)
    → to_lower (username_of (handle valid w input c).profile) ≢ to_lower user
    → stored user (step valid w input c) ≡ stored user c
unfolding step text_eq
stored-step valid w input user c other =
    ap (λ k. k.1)
      (kept-persist (key_messages user) (messages_key-IsForeign user) (handle valid w input c)
        (text_eq-other _ _ other))
    ∙ handle-foreign (key_messages user) valid w input c (messages_key-IsForeign user)

-- Whatever happens while others are logged in, the messages that the browser keeps for a user stay
-- as they are: no message of another account comes to them, and none is lost.
pub run-stored :
    (valid : Text → Bool) (inputs : List (World × Input)) (user : Text) (c : Client)
    → NeverLoggedIn valid user inputs c
    → stored user (run valid inputs c) ≡ stored user c
unfolding run
run-stored valid [] user c h = refl
run-stored valid ((w, input) ∷ more) user c (other, h) =
    run-stored valid more user (step valid w input c) h ∙ stored-step valid w input user c other
