-- ===== src/Db/Users.antt =====
-- The users of gateway/src/db.ts. An argument that may be `undefined` is an `Option`.
pub mod Valid
pub mod Registration
use pulse_chat.Base.{
  ℕ, List, [], ◌∷◌, ◌++◌, Option, none, some, Bool, true, false, not, ◌&&◌, if◌then◌else◌,
}
use pulse_chat.Text.{Text, units_of, text_eq, is_empty, to_lower, trim, ◌or_else◌}
use pulse_chat.Dict.{Dict, get, read, put, delete, values, Slot, own, inherited, absent}
use pulse_chat.Db.{DbUser, DatabaseSchema, PulseDatabase, World, save}

-- `a || b` where `a` may be `undefined`.
abbrev pub default_to : Option Text → Text → Text
default_to none b = b
default_to (some a) b = ◌or_else◌ a b

-- Why a user is refused.
pub data UserError : Type 0 where
  username_empty : UserError
  username_taken : Text → UserError

-- The `error` of the result.
unfoldable pub user_error_text : UserError → Text
user_error_text username_empty = units_of "Username cannot be empty."
user_error_text (username_taken handle) =
    units_of "Username '@"
    ++ (handle ++ units_of "' is already taken. Please choose a different username.")

pub data UserResult : Type 0 where
  accepted : DbUser → UserResult
  refused : UserError → UserResult

-- The test of the loop of `findUserByEmail`.
unfoldable pub has_email : Text → Option Text → Bool
has_email target none = false
has_email target (some e) = not (is_empty e) && text_eq (to_lower (trim e)) target

unfoldable pub first_with_email : Text → List DbUser → Option DbUser
first_with_email target [] = none
first_with_email target (u ∷ us) =
    if has_email target u.email then some u else first_with_email target us

-- `findUserByEmail`
unfoldable pub find_user_by_email : Text → DatabaseSchema → Option DbUser
unfolding has_email first_with_email values
find_user_by_email email d = first_with_email (to_lower (trim email)) (values d.users)

-- `getUser`
unfoldable pub get_user : Text → DatabaseSchema → Slot DbUser
get_user username d = read (to_lower username) d.users

abbrev pub avatar_for : Text → Text
avatar_for handle = units_of "https://api.dicebear.com/7.x/bottts/svg?seed=" ++ handle

-- The arguments of `validateAndRegisterUser` but the name.
pub record Claim : Type 0 where
  pub email : Option Text
  pub display_name : Option Text
  pub avatar_url : Option Text
  pub provider : Text

-- `existingUser.email && existingUser.email.toLowerCase() === cleanEmail`
unfoldable pub owns_email : Text → Option Text → Bool
owns_email clean none = false
owns_email clean (some e) = not (is_empty e) && text_eq (to_lower e) clean

-- `this.data.users[handle] = u; this.save()`
abbrev pub with_users : Dict DbUser → PulseDatabase → PulseDatabase
with_users users p = record p { data_now = record (p.data_now) { users = users } }

-- Case A: the user's fields after a login.
unfoldable pub relogin : World → Claim → DbUser → DbUser
relogin w c u = record u {
  display_name = default_to c.display_name u.display_name;
  avatar_url = default_to c.avatar_url u.avatar_url;
  last_active = w.now;
}

-- Case B: the name under which the email was known before is freed.
unfoldable pub free_old_handle : Text → Option DbUser → Dict DbUser → Dict DbUser
free_old_handle handle none users = users
free_old_handle handle (some old) users =
    if text_eq old.username handle then users else delete old.username users

abbrev created_at_of : Option DbUser → ℕ → ℕ
created_at_of none now = now
created_at_of (some old) now = old.created_at

-- Case B: the new user.
unfoldable pub claimed_user : World → Text → Text → Claim → Option DbUser → DbUser
claimed_user w handle clean c old = record {
  username = handle;
  email = some clean;
  display_name = default_to c.display_name handle;
  avatar_url = default_to c.avatar_url (avatar_for handle);
  provider = c.provider;
  created_at = created_at_of old w.now;
  last_active = w.now;
}

-- A guest.
unfoldable pub guest_user : World → Text → Claim → DbUser
guest_user w handle c = record {
  username = handle;
  email = none;
  display_name = default_to c.display_name handle;
  avatar_url = default_to c.avatar_url (avatar_for handle);
  provider = units_of "local";
  created_at = w.now;
  last_active = w.now;
}

-- The branch with an email, for what the name finds.
unfoldable pub register_email :
    World → Text → Text → Claim → Slot DbUser → PulseDatabase → PulseDatabase × UserResult
unfolding owns_email relogin free_old_handle claimed_user find_user_by_email
register_email w handle clean c (own u) p =
    if owns_email clean u.email
    then (
      save w (with_users (put handle (relogin w c u) p.data_now.users) p),
      accepted (relogin w c u),
    )
    else (p, refused (username_taken handle))
register_email w handle clean c inherited p = (p, refused (username_taken handle))
register_email w handle clean c absent p =
    let old = find_user_by_email clean p.data_now in
    let new_user = claimed_user w handle clean c old in
    let freed = free_old_handle handle old p.data_now.users in
    (save w (with_users (put handle new_user freed) p), accepted new_user)

-- The branch without.
unfoldable pub register_guest :
    World → Text → Claim → Slot DbUser → PulseDatabase → PulseDatabase × UserResult
unfolding guest_user
register_guest w handle c absent p =
    let new_user = guest_user w handle c in
    (save w (with_users (put handle new_user p.data_now.users) p), accepted new_user)
register_guest w handle c _ p = (p, refused (username_taken handle))

-- `validateAndRegisterUser`
unfoldable pub validate_and_register_user :
    World → Text → Claim → PulseDatabase → PulseDatabase × UserResult
unfolding register_email register_guest
validate_and_register_user w username c p =
    let handle = to_lower (trim username) in
    let clean = to_lower (trim (default_to c.email [])) in
    let existing = read handle p.data_now.users in
    if is_empty handle
    then (p, refused username_empty)
    else if is_empty clean
    then register_guest w handle c existing p
    else register_email w handle clean c existing p
