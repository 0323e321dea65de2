-- ===== src/Ui/Feed/Delivered.antt =====
-- A private message on its way: the gateway's handler (gateway/src/server.ts) stores it, the history
-- that a registration sends (gateway/src/db.ts) brings it to the hook, and the feed of
-- frontend/src/components/ChatArea.tsx shows it.
use pulse_chat.Base.{
  ◌≡◌, ap, ◌∙◌, ◌⊎◌, ℕ, List, [], ◌∷◌, ◌++◌, Option, some, true, false, arith, any, map, filter,
}
use pulse_chat.Text.{Text, text_eq, is_empty, to_lower, trim}
use pulse_chat.Text.Laws.{text_eq_refl, to_lower_idem}
use pulse_chat.Db.{DbMessage, World}
use pulse_chat.Db.Users.{default_to}
use pulse_chat.Db.Messages.{direct_message, save_direct_message, get_direct_messages_for_user}
use pulse_chat.Db.Messages.History.{get_direct_messages_for_user-save_direct_message}
use pulse_chat.Gateway.{ClientSession, Gateway}
use pulse_chat.Gateway.Actions.{ClientMessage, on_private_message}
use pulse_chat.Gateway.Access.{forward-db}
use pulse_chat.Client.{ChatMessage, Client, username_of}
use pulse_chat.Client.Messages.{merge_by, dm_key, loaded_dm, on_dm_history}
use pulse_chat.Ui.Feed.{chat_props, is_from_me, is_from_them, is_in_dm, filtered_messages}
use pulse_chat.Ui.Feed.Merged.{filter_merge-last}
use pulse_chat.Ui.Feed.Shown.{filtered_messages-dm}

-- Whom a message asks to reach, and with what.
abbrev pub asked_target : ClientMessage → Text
asked_target msg = to_lower (trim (default_to msg.target []))

abbrev pub asked_text : ClientMessage → Text
asked_text msg = trim (default_to msg.text [])

-- What the gateway stores of a private message.
abbrev pub stored_dm : World → ClientMessage → ClientSession → DbMessage
stored_dm w msg s =
    direct_message w s.username (asked_target msg) (asked_text msg) (some s.display_name)
      s.avatar_url

on_private_message-stores :
    (w : World) (id : ℕ) (msg : ClientMessage) (s : ClientSession) (g : Gateway)
    → is_empty s.username ≡ false
    → is_empty (asked_target msg) ≡ false
    → is_empty (asked_text msg) ≡ false
    → (on_private_message w id msg s g).db
      ≡ save_direct_message w s.username
          (asked_target msg)
          (asked_text msg)
          (some s.display_name)
          s.avatar_url
          g.db
unfolding on_private_message
on_private_message-stores w id msg s g named reached said = rw (named, reached, said, forward-db)

-- The two of a message: the user of the browser, and the one whose chat is open.
abbrev pub IsParty : Text → Text → Text → Text → Type 0
IsParty sender target me peer =
    ((to_lower me ≡ to_lower sender) × (to_lower peer ≡ to_lower target))
    ⊎ ((to_lower me ≡ to_lower target) × (to_lower peer ≡ to_lower sender))

is_in_dm-loaded_dm :
    (w : World) (sender target text : Text) (name picture : Option Text) (me peer : Text)
    → IsParty sender target me peer
    → is_in_dm me peer (loaded_dm me (direct_message w sender target text name picture)) ≡ true
unfolding is_in_dm is_from_me is_from_them loaded_dm direct_message
is_in_dm-loaded_dm w sender target text name picture me peer party = ground (
  arith,
  party,
  to_lower_idem sender,
  to_lower_idem target,
  text_eq_refl (to_lower sender),
  text_eq_refl (to_lower target),
)

filtered_messages-on_dm_history :
    (history : List DbMessage) (c : Client) (peer : Text)
    → c.active_dm_user ≡ some peer
    → is_empty peer ≡ false
    → filtered_messages (chat_props (on_dm_history history c))
      ≡ filter
          (is_in_dm (username_of c.profile) peer)
          (merge_by dm_key (map (loaded_dm (username_of c.profile)) history) c.messages)
unfolding on_dm_history
filtered_messages-on_dm_history history c peer chat given =
    filtered_messages-dm (on_dm_history history c) peer chat given

-- A private message reaches both of its parties: once the gateway has handled it, the history that
-- either of them is sent brings it, and it is the last that the open chat with the other one shows,
-- if the browser has no message of the same sender, target and text yet.
pub on_private_message-reaches :
    (w : World) (id : ℕ) (msg : ClientMessage) (s : ClientSession) (g : Gateway) (c : Client)
    (user peer : Text)
    → is_empty s.username ≡ false
    → is_empty (asked_target msg) ≡ false
    → is_empty (asked_text msg) ≡ false
    → (user ≡ s.username) ⊎ (user ≡ asked_target msg)
    → IsParty s.username (asked_target msg) (username_of c.profile) peer
    → c.active_dm_user ≡ some peer
    → is_empty peer ≡ false
    → any
        (λ p. text_eq (dm_key p) (dm_key (loaded_dm (username_of c.profile) (stored_dm w msg s))))
        c.messages
      ≡ false
    → (shown : List ChatMessage) × (filtered_messages (
          chat_props (
            on_dm_history
              (get_direct_messages_for_user user 200 (on_private_message w id msg s g).db)
              c))
        ≡ shown ++ loaded_dm (username_of c.profile) (stored_dm w msg s) ∷ [])
on_private_message-reaches w id msg s g c user peer named reached said party party' chat given new =
    let (older, found) =
      get_direct_messages_for_user-save_direct_message w s.username (asked_target msg)
        (asked_text msg) (some s.display_name) s.avatar_url user 200 g.db (omega arith) party in
    let me = username_of c.profile in
    let (shown, last) =
      filter_merge-last dm_key (loaded_dm me) (is_in_dm me peer) older (stored_dm w msg s)
        c.messages new
        (is_in_dm-loaded_dm w s.username (asked_target msg) (asked_text msg) (some s.display_name)
          s.avatar_url me peer party') in
    let history = older ++ stored_dm w msg s ∷ [] in
    (
      shown,
      ap (λ ms. filtered_messages (chat_props (on_dm_history ms c)))
            (ap (get_direct_messages_for_user user 200)
                (on_private_message-stores w id msg s g named reached said)
              ∙ found)
          ∙ filtered_messages-on_dm_history history c peer chat given
          ∙ last,
    )
