-- ===== src/Ui/Registration/Token.antt =====
-- Where frontend/src/components/RegistrationModal.tsx has its token from, and the handing over of it in
-- frontend/src/main.tsx. What the browser's `URLSearchParams` and JSON find in a text is given.
use pulse_chat.Base.{List, [], ◌∷◌, Option, none, some, ◌&&◌, not, if◌then◌else◌}
use pulse_chat.Text.{Text, units_of, text_eq, is_empty, includes}
use pulse_chat.Db.Rooms.{text_or_empty}

-- The window that `window.opener` is.
pub data Opener : Type 0 where
  no_opener : Opener
  itself : Opener
  other_window : Opener

-- What the page does with a token in its address: it hands it over and closes, or uses it itself.
pub data HashAction : Type 0 where
  nothing : HashAction
  hand_over : Text → HashAction
  use_token : Text → HashAction

abbrev with_opener : Opener → Text → HashAction
with_opener other_window token = hand_over token
with_opener _ token = use_token token

-- The first effect, where `access_token` reads the parameter off the address.
unfoldable pub on_hash : (Text → Option Text) → Opener → Text → HashAction
on_hash access_token opener hash =
    if includes (units_of "access_token=") hash
    then elim (access_token hash) [
      | none ↦ nothing
      | some token ↦ if is_empty token then nothing else with_opener opener token
    ]
    else nothing

-- The token of a message of the channel.
unfoldable pub on_channel_message : Option Text → Option Text
on_channel_message none = none
on_channel_message (some token) = if is_empty token then none else some token

-- `handleStorage`, where `token_of` reads the JSON text.
unfoldable pub handle_storage : (Text → Option Text) → Text → Option Text → Option Text
unfolding on_channel_message
handle_storage token_of key new_value =
    let value = text_or_empty new_value in
    if text_eq key (units_of "pulsechat_oauth_handoff") && not (is_empty value)
    then on_channel_message (token_of value)
    else none

-- `handleMessage`: the token that is used of a message of a window.
unfoldable pub handle_message : Text → Text → Text → Option Text → Option Text
unfolding on_channel_message
handle_message own_origin origin type token =
    if text_eq origin own_origin
    then if text_eq type (units_of "PULSECHAT_GOOGLE_AUTH_SUCCESS")
      then on_channel_message token
      else none
    else none

-- What main.tsx does with a token: what it sends, to whom, and whether it closes the window.
pub data Delivery : Type 0 where
  to_channel to_storage : Text → Delivery
  to_opener : (token target_origin : Text) → Delivery
  close_window : Delivery

abbrev to_other : Opener → Text → List Delivery
to_other other_window token = to_opener token (units_of "*") ∷ close_window ∷ []
to_other _ token = []

unfoldable pub deliver_token : (Text → Option Text) → Opener → Text → List Delivery
deliver_token access_token opener hash =
    if includes (units_of "access_token=") hash
    then elim (access_token hash) [
      | none ↦ []
      | some token ↦
          if is_empty token then [] else to_channel token ∷ to_storage token ∷ to_other opener token
    ]
    else []
