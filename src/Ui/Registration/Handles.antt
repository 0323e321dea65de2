-- ===== src/Ui/Registration/Handles.antt =====
-- The handles that frontend/src/components/RegistrationModal.tsx gives out.
use pulse_chat.Base.{◌≡◌, refl, ℕ, [], ◌∷◌, Option, some, true, false, ◌||◌, arith, All, map, ◌==◌}
use pulse_chat.Text.{
  Text, units_of, is_empty, to_lower, lower_unit, trim, trim_start, trim_end, is_space, includes,
  between,
}
use pulse_chat.Text.Laws.{to_lower_idem, text_eq_refl}
use pulse_chat.Dict.{get}
use pulse_chat.Dict.Laws.{get-set}
use pulse_chat.Client.{UserProfile, Client, key_handle, text_item}
use pulse_chat.Client.Frames.{remember_handle, welcomed}
use pulse_chat.Client.Patterns.{is_word_unit}
use pulse_chat.Ui.Registration.{
  RealGoogleUser, ModalState, before_at, handle_unit, suggested, google_profile, found, known_user,
  fetch_google_user_info, google_user_of, handle_final_submit, type_username,
}

-- The characters of a suggestion: letters in lower case, digits, `_` and `-`.
abbrev pub IsHandle : Text → Type 0
IsHandle s =
    All (λ c. (between b'a' b'z' c || between b'0' b'9' c || c == b'_' || c == b'-') ≡ true) s

suggested_unit :
    (c : ℕ)
    → (between b'a' b'z' (lower_unit (handle_unit c))
        || between b'0' b'9' (lower_unit (handle_unit c))
        || lower_unit (handle_unit c) == b'_'
        || lower_unit (handle_unit c) == b'-')
      ≡ true
unfolding lower_unit handle_unit is_word_unit
suggested_unit c = ground arith

map-IsHandle : (s : Text) → IsHandle (to_lower (map handle_unit s))
unfolding to_lower
map-IsHandle [] = tt
map-IsHandle (c ∷ s) = (suggested_unit c, map-IsHandle s)

trim_end-IsHandle : (s : Text) → IsHandle s → trim_end s ≡ s
unfolding trim_end is_space
trim_end-IsHandle [] h = refl
trim_end-IsHandle (c ∷ s) (e, h) = ground (arith, e, trim_end-IsHandle s h)

trim-IsHandle : (s : Text) → IsHandle s → trim s ≡ s
unfolding trim trim_start is_space
trim-IsHandle [] h = refl
trim-IsHandle (c ∷ s) (e, h) = ground (arith, e, trim_end-IsHandle (c ∷ s) (e, h))

-- The handle that is suggested for an email, if it is not empty, is of small letters, digits, `_` and
-- `-`, and where it is sent off as it is, it is the name that is registered, with the account that it
-- was suggested for.
pub handle_final_submit-suggested :
    (g : RealGoogleUser) (m : ModalState)
    → m.google_user ≡ some g
    → is_empty (suggested g.email) ≡ false
    → IsHandle (suggested g.email)
      × (handle_final_submit (type_username (suggested g.email) m)
          ≡ some (google_profile g (suggested g.email)))
unfolding handle_final_submit type_username suggested
handle_final_submit-suggested g m account given =
    let sent = map-IsHandle (before_at g.email) in
    (
      sent,
      rw
          (
            account,
            trim-IsHandle (to_lower (map handle_unit (before_at g.email))) sent,
            to_lower_idem (map handle_unit (before_at g.email)),
            given,
          )
          refl,
    )

welcomed-handle :
    (c : Client) (p : UserProfile) (payload email : Text)
    → c.profile ≡ some p
    → p.email ≡ some email
    → is_empty email ≡ false
    → is_empty p.username ≡ false
    → includes (units_of "Welcome to PulseChat") payload ≡ true
    → get (key_handle email) (welcomed payload c).storage ≡ some (text_item p.username)
unfolding welcomed remember_handle
welcomed-handle c p payload email here mail given named welcome =
    rw
      (
        welcome,
        here,
        mail,
        given,
        named,
        get-set (key_handle email) (key_handle email),
        text_eq_refl (key_handle email),
      )
      refl

known_user-saved :
    (c : Client) (g : RealGoogleUser) (m : ModalState) (username : Text)
    → get (key_handle g.email) c.storage ≡ some (text_item username)
    → is_empty (trim username) ≡ false
    → (known_user c g m).1 ≡ some (google_profile g (to_lower (trim username)))
unfolding known_user
known_user-saved c g m username saved named = ground (arith, saved, named)

-- Once the chat server has welcomed a user whose name is not blank, with a profile that has an email
-- in lower case, Google's answer with this email, in any case, logs in at once, under the user's name
-- in lower case, and no name is asked for.
pub fetch_google_user_info-welcomed :
    (c : Client) (p : UserProfile) (m : ModalState) (payload email : Text)
    (picture name : Option Text)
    → c.profile ≡ some p
    → p.email ≡ some (to_lower email)
    → is_empty (to_lower email) ≡ false
    → is_empty email ≡ false
    → is_empty p.username ≡ false
    → is_empty (trim p.username) ≡ false
    → includes (units_of "Welcome to PulseChat") payload ≡ true
    → (fetch_google_user_info (welcomed payload c) (found (some email) picture name) m).1
      ≡ some (
          google_profile
            (google_user_of (to_lower email) picture name)
            (to_lower (trim p.username)))
unfolding fetch_google_user_info
fetch_google_user_info-welcomed c p m payload email picture name here mail given given' named worthy
      welcome =
    let g = google_user_of (to_lower email) picture name in
    rw given' (
      known_user-saved (welcomed payload c) g (record m { is_loading = false }) p.username
        (welcomed-handle c p payload (to_lower email) here mail given named welcome) worthy)
