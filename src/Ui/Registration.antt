-- ===== src/Ui/Registration.antt =====
-- frontend/src/components/RegistrationModal.tsx. Google's answer is given.
pub mod Token
pub mod Handles
use pulse_chat.Base.{
  ℕ, List, [], ◌∷◌, ◌++◌, Option, none, some, Bool, true, false, ◌&&◌, ◌||◌, not, ◌==◌,
  if◌then◌else◌, map,
}
use pulse_chat.Text.{
  Text, units_of, text_eq, is_empty, to_lower, trim, includes, between, ◌or_else◌,
}
use pulse_chat.Dict.{get}
use pulse_chat.Db.Rooms.{text_or_empty}
use pulse_chat.Client.{UserProfile, Stored, text_item, Client, key_handle}
use pulse_chat.Client.Patterns.{is_word_unit}

pub data AuthStep : Type 0 where
  auth set_username local_user : AuthStep

-- `RealGoogleUser`
pub record RealGoogleUser : Type 0 where
  pub email : Text
  pub name : Text
  pub avatar_url : Text

-- The states of the component.
pub record ModalState : Type 0 where
  pub step : AuthStep
  pub google_user : Option RealGoogleUser
  pub chosen_username : Text
  pub local_username : Text
  pub auth_error : Option Text
  pub is_loading : Bool

abbrev pub initial_modal : ModalState
initial_modal = record {
  step = auth;
  google_user = none;
  chosen_username = [];
  local_username = [];
  auth_error = none;
  is_loading = false;
}

-- `email.split('@')[0]`
unfoldable pub before_at : Text → Text
before_at [] = []
before_at (c ∷ s) = let rest = before_at s in if c == b'@' then [] else c ∷ rest

-- `replace(/[^a-zA-Z0-9_-]/g, '_')`
unfoldable pub handle_unit : ℕ → ℕ
handle_unit c = if is_word_unit c then c else b'_'

-- `suggested`
unfoldable pub suggested : Text → Text
unfolding before_at handle_unit
suggested email = to_lower (map handle_unit (before_at email))

abbrev saved_handle : Option Stored → Text
saved_handle (some (text_item s)) = trim s
saved_handle _ = []

abbrev active : Text
active = 0x26A1 ∷ units_of " Active on PulseChat"

-- U+1F4BB is a pair of units.
abbrev developer : Text
developer = 0xD83D ∷ 0xDCBB ∷ units_of " Local Developer"

-- The profile of an account of Google, under a handle.
unfoldable pub google_profile : RealGoogleUser → Text → UserProfile
google_profile g handle = record {
  username = handle;
  display_name = g.name;
  email = some g.email;
  avatar_url = some g.avatar_url;
  provider = units_of "google";
  status = units_of "online";
  activity_text = some active;
}

-- What became of the request for the account: it failed, or these fields came.
pub data UserInfo : Type 0 where
  failed : UserInfo
  found : (email picture name : Option Text) → UserInfo

abbrev pub google_user_of : Text → Option Text → Option Text → RealGoogleUser
google_user_of email picture name = record {
  email = email;
  name = text_or_empty name or_else before_at email;
  avatar_url =
      text_or_empty picture
      or_else (units_of "https://api.dicebear.com/7.x/bottts/svg?seed=" ++ email);
}

-- An account that is there: the handle that the browser saved for it logs in at once.
unfoldable pub known_user : Client → RealGoogleUser → ModalState → ModalState × Option UserProfile
unfolding suggested google_profile
known_user c g m =
    let handle = saved_handle (get (key_handle g.email) c.storage) in
    if is_empty handle
    then (
      record m { google_user = some g; chosen_username = suggested g.email; step = set_username },
      none,
    )
    else (record m { google_user = some g }, some (google_profile g (to_lower handle)))

-- `fetchGoogleUserInfo`, with the answer: the state, and the profile that goes to `onLogin`.
unfoldable pub fetch_google_user_info :
    Client → UserInfo → ModalState → ModalState × Option UserProfile
unfolding known_user
fetch_google_user_info c failed m = (
  record m {
    auth_error = some (units_of "Failed to fetch user profile from Google.");
    is_loading = false;
  },
  none,
)
fetch_google_user_info c (found email picture name) m =
    if is_empty (text_or_empty email)
    then (
      record m {
        auth_error = some (units_of "Could not retrieve email from Google account.");
        is_loading = false;
      },
      none,
    )
    else known_user c (google_user_of (to_lower (text_or_empty email)) picture name)
        (record m { is_loading = false })

-- The page of Google, where `encode_uri` is `encodeURIComponent`.
unfoldable pub auth_url : (Text → Text) → (google_client_id origin : Text) → Text
auth_url encode_uri google_client_id origin =
    units_of "https://accounts.google.com/o/oauth2/v2/auth?client_id="
    ++ (encode_uri (trim google_client_id)
        ++ (units_of "&redirect_uri="
            ++ (encode_uri origin
                ++ units_of
                    "&response_type=token&scope=email%20profile%20openid&prompt=select_account")))

-- What is done with the page of Google: a window shows it, and a timer looks at the window every
-- second; or, if no window opened, the address of the application is left for it.
pub data LoginAction : Type 0 where
  watch_popup go_to : Text → LoginAction

-- `handleGoogleOAuthLogin`, for whether a window opened.
unfoldable pub handle_google_login :
    (Text → Text) → Text → Text → (opened : Bool) → ModalState → ModalState × LoginAction
unfolding auth_url
handle_google_login encode_uri google_client_id origin opened m =
    let url = auth_url encode_uri google_client_id origin in
    (
      record m { auth_error = none; is_loading = true },
      if opened then watch_popup url else go_to url,
    )

-- The text of the button, which is disabled while it loads.
unfoldable pub google_button : ModalState → Text
google_button m =
    if m.is_loading then units_of "Signing in with Google..." else units_of "Continue with Google"

-- The timer, for whether the window is closed.
unfoldable pub on_popup_check : Bool → ModalState → ModalState
on_popup_check closed m = if closed then record m { is_loading = false } else m

-- `handleFinalSubmit`
unfoldable pub handle_final_submit : ModalState → Option UserProfile
unfolding google_profile
handle_final_submit m =
    let handle = to_lower (trim m.chosen_username) in
    elim m.google_user [
      | none ↦ none
      | some g ↦ if is_empty handle then none else some (google_profile g handle)
    ]

-- `handleLocalSubmit`
unfoldable pub handle_local_submit : ModalState → Option UserProfile
handle_local_submit m =
    let handle = to_lower (trim m.local_username) in
    if is_empty handle
    then none
    else some (record {
      username = handle;
      display_name = trim m.local_username;
      email = none;
      avatar_url = none;
      provider = units_of "local";
      status = units_of "online";
      activity_text = some developer;
    })

-- The screens, with the error that each shows.
pub data Screen : Type 0 where
  landing : (is_loading : Bool) (error : Option Text) → Screen
  choose_handle : RealGoogleUser → (username : Text) (error : Option Text) → Screen
  local_login : (username : Text) (error : Option Text) → Screen
  blank : Screen

abbrev first_error : Option Text → Option Text → Option Text
first_error none error = error
first_error (some e) error = some e

unfoldable pub screen : Option Text → ModalState → Screen
screen error m = elim m.step [
  | auth ↦ landing m.is_loading (first_error m.auth_error error)
  | set_username ↦ elim m.google_user [
    | none ↦ blank
    | some g ↦ choose_handle g m.chosen_username error
  ]
  | local_user ↦ local_login m.local_username error
]

-- The buttons and the fields that only set a state.
unfoldable pub go_to_step : AuthStep → ModalState → ModalState
go_to_step step m = record m { step = step }

unfoldable pub type_username : Text → ModalState → ModalState
type_username t m = record m { chosen_username = t }

unfoldable pub type_local_username : Text → ModalState → ModalState
type_local_username t m = record m { local_username = t }
