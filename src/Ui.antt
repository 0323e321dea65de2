-- ===== src/Ui.antt =====
-- frontend/src/App.tsx, frontend/src/components/Header.tsx and frontend/src/components/Toast.tsx:
-- how the hook and the components are put together. A component's function gives what it shows, as
-- data, and its handlers change its own state and call the hook. Style and markup are left out.
pub mod Feed
pub mod Composer
pub mod Sidebar
pub mod Peers
pub mod Registration
pub mod Panel
pub mod Toasts
mod Tests
use pulse_chat.Base.{
  ℕ, Option, none, some, Bool, true, false, ◌&&◌, ◌||◌, not, ◌+◌, leb, if◌then◌else◌, List, [], ◌∷◌,
  ◌++◌,
}
use pulse_chat.Text.{Text, units_of, text_eq, is_empty, ◌or_else◌, to_lower}
use pulse_chat.Db.Rooms.{text_or_empty}
use pulse_chat.Client.{Client, UserProfile, WsStatus, ToastData, ToastType, set_active_dm_user}
use pulse_chat.Client.Commands.{join_room}

-- A value that is missing or empty is falsy.
abbrev pub truthy : Option Text → Option Text
truthy none = none
truthy (some s) = if is_empty s then none else some s

-- `onSelectRoom`
unfoldable pub select_room : Text → Option Text → Client → Client
select_room room password c = set_active_dm_user none (join_room room password c)

-- `onToggleObservability`
unfoldable pub toggle_observability : Bool → Bool
toggle_observability observability_open = not observability_open

-- `onClose` of the panel.
unfoldable pub close_observability : Bool → Bool
close_observability observability_open = false

-- `onClose` of a toast: its button and its timer call it.
unfoldable pub close_toast : Client → Client
close_toast c = record c { toast = none }

-- The effect of Toast.tsx, behind a rendering at the time `now`: App hands it another `onClose` each
-- time, so it clears the timer of the last rendering and starts one of 3200 ms. The timer is the
-- time that it fires at.
unfoldable pub start_toast_timer : ℕ → Option ToastData → Option ℕ
start_toast_timer now none = none
start_toast_timer now (some toast) = some (now + 3200)

abbrev is_due : ℕ → Option ℕ → Bool
is_due now none = false
is_due now (some time) = leb time now

-- Whether the timer of a toast fires while App is rendered again and again, the times in between
-- given.
unfoldable pub toast_fires : ℕ → List ℕ → Option ToastData → Option ℕ → Bool
unfolding start_toast_timer
toast_fires now [] toast timer = false
toast_fires now (gap ∷ gaps) toast timer =
    is_due (now + gap) timer
    || toast_fires (now + gap) gaps toast (start_toast_timer (now + gap) toast)

-- Whether the window of RegistrationModal.tsx is shown.
unfoldable pub shows_registration : Client → Bool
shows_registration c = not c.is_registered

abbrev is_connected : WsStatus → Bool
is_connected WsStatus.connected = true
is_connected _ = false

-- `isOnline` of Header.tsx.
unfoldable pub is_online : Client → Bool
is_online c = text_eq c.tcp_status (units_of "connected") && is_connected c.ws_status

-- The badge of the profile in Header.tsx: the picture or the name to take a letter from, the name,
-- whether the account is Google's, and the email or the handle.
pub record ProfileBadge : Type 0 where
  pub avatar_url : Option Text
  pub display_name : Text
  pub is_google : Bool
  pub contact : Text

unfoldable pub profile_badge : Client → Option ProfileBadge
profile_badge c = elim c.profile [
  | none ↦ none
  | some p ↦
      if c.is_registered
      then some (record {
        avatar_url = truthy p.avatar_url;
        display_name = p.display_name;
        is_google = text_eq p.provider (units_of "google");
        contact = text_or_empty p.email or_else (b'@' ∷ p.username);
      })
      else none
]
