-- ===== src/Ui/Peers.antt =====
-- The lists of frontend/src/components/Sidebar.tsx: the rooms, the private chats and the peers.
pub mod Listed
use pulse_chat.Base.{
  ℕ, List, [], ◌∷◌, ◌++◌, Option, none, some, Bool, true, false, ◌&&◌, ◌||◌, not, if◌then◌else◌,
  any,
}
use pulse_chat.Text.{Text, units_of, text_eq, is_empty, to_lower, ◌or_else◌}
use pulse_chat.Db.{general}
use pulse_chat.Db.Rooms.{text_or_empty}
use pulse_chat.Gateway.{UserPresence, RoomInfo}
use pulse_chat.Client.{ChatMessage, UserProfile, Client, username_of, set_active_dm_user}
use pulse_chat.Ui.{truthy}

pub data StatusColor : Type 0 where
  green yellow red muted : StatusColor

-- `getStatusColor`
unfoldable pub get_status_color : Text → StatusColor
get_status_color status =
    if text_eq status (units_of "online")
    then green
    else if text_eq status (units_of "away")
    then yellow
    else if text_eq status (units_of "dnd")
    then red
    else if text_eq status (units_of "offline")
    then muted
    else green

abbrev pub contains : Text → List Text → Bool
contains name names = any (text_eq name) names

-- `add` of a `Set`, which lists its elements by age.
unfoldable pub add_to_set : Text → List Text → List Text
add_to_set name names = if contains name names then names else names ++ name ∷ []

abbrev pub lower_of : Option Text → Text
lower_of none = []
lower_of (some s) = to_lower s

-- The other one of a private message, for the user's name in lower case; empty if there is none.
unfoldable pub peer_of : Text → ChatMessage → Text
peer_of my_username m =
    let sender = to_lower m.sender in
    let target = lower_of m.target_user in
    if text_eq sender my_username && not (is_empty target) && not (text_eq target my_username)
    then target
    else if text_eq target my_username
        && not (is_empty sender)
        && not (text_eq sender my_username)
        && not (text_eq sender (units_of "system"))
    then sender
    else if text_eq sender (units_of "you")
        && not (is_empty target)
        && not (text_eq target my_username)
    then target
    else []

-- The body of the loop over the messages.
unfoldable pub add_peer : Text → ChatMessage → List Text → List Text
unfolding peer_of add_to_set
add_peer my_username m names =
    let peer = peer_of my_username m in
    if m.is_private && not (is_empty my_username) && not (is_empty peer)
    then add_to_set peer names
    else names

unfoldable pub add_peers : Text → List ChatMessage → List Text → List Text
unfolding add_peer
add_peers my_username [] names = names
add_peers my_username (m ∷ ms) names = add_peers my_username ms (add_peer my_username m names)

-- `dmUserList`
unfoldable pub dm_user_list : Option UserProfile → List ChatMessage → Option Text → List Text
unfolding add_peers
dm_user_list profile messages active_dm_user =
    let names = add_peers (to_lower (username_of profile)) messages [] in
    elim (truthy active_dm_user) [ none ↦ names | some user ↦ add_to_set (to_lower user) names ]

-- `displayRooms`
unfoldable pub display_rooms : List RoomInfo → List RoomInfo
display_rooms [] = record { name = general; users = 1; is_protected = false } ∷ []
display_rooms (r ∷ rs) = r ∷ rs

-- `isActive` of a room.
unfoldable pub is_active_room : Client → RoomInfo → Bool
is_active_room c room =
    is_empty (text_or_empty c.active_dm_user)
    && text_eq (to_lower c.current_room) (to_lower room.name)

abbrev is_user : Option Text → Text → Bool
is_user none name = false
is_user (some user) name = text_eq (to_lower user) (to_lower name)

abbrev find_user : Text → List UserPresence → Option UserPresence
find_user name [] = none
find_user name (u ∷ us) =
    if text_eq (to_lower u.username) (to_lower name) then some u else find_user name us

abbrev status_or_offline : Option UserPresence → Text
status_or_offline none = units_of "offline"
status_or_offline (some u) = u.status or_else units_of "offline"

-- A row of the private chats.
pub record DmRow : Type 0 where
  pub handle : Text
  pub is_selected : Bool
  pub color : StatusColor

unfoldable pub dm_row : Client → Text → DmRow
unfolding get_status_color
dm_row c handle = record {
  handle = b'@' ∷ handle;
  is_selected = is_user c.active_dm_user handle;
  color = get_status_color (status_or_offline (find_user handle c.users));
}

-- A row of the peers.
pub record PeerRow : Type 0 where
  pub is_me : Bool
  pub is_dm_active : Bool
  pub handle : Text
  pub color : StatusColor
  pub room : Text
  pub activity_text : Option Text

abbrev is_profile : Option UserProfile → Text → Bool
is_profile none name = false
is_profile (some p) name = text_eq (to_lower name) (to_lower p.username)

unfoldable pub peer_row : Client → UserPresence → PeerRow
unfolding get_status_color
peer_row c u = record {
  is_me = is_profile c.profile u.username;
  is_dm_active = is_user c.active_dm_user u.username;
  handle = b'@' ∷ u.username;
  color = get_status_color u.status;
  room = b'#' ∷ u.room;
  activity_text = truthy (some u.activity_text);
}

-- A click on a peer; the user's own row is disabled.
unfoldable pub on_peer_click : UserPresence → Client → Client
unfolding peer_row
on_peer_click u c =
    let row = peer_row c u in
    if row.is_me
    then c
    else set_active_dm_user (if row.is_dm_active then none else some u.username) c
