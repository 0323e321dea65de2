-- ===== src/Ui/Peers/Listed.antt =====
-- Whom frontend/src/components/Sidebar.tsx lists for a private chat.
use pulse_chat.Base.{
  ◌≡◌, refl, subst, sym, List, [], ◌∷◌, ◌++◌, Option, none, some, Bool, true, false, ◌&&◌, ◌||◌,
  not, arith, any, Bool-cases, inl, inr,
}
use pulse_chat.Text.{units_of, Text, text_eq, is_empty, to_lower}
use pulse_chat.Text.Laws.{text_eq→eq, text_eq_iff}
use pulse_chat.Client.{ChatMessage, UserProfile, username_of}
use pulse_chat.Ui.{truthy}
use pulse_chat.Ui.Peers.{lower_of, contains, add_to_set, peer_of, add_peer, add_peers, dm_user_list}

-- No name stands twice.
abbrev pub Distinct : List Text → Type 0
Distinct [] = Unit {0}
Distinct (n ∷ ns) = (contains n ns ≡ false) × Distinct ns

contains-snoc :
    (n m : Text) (ns : List Text) → contains n (ns ++ m ∷ []) ≡ (contains n ns || text_eq n m)
contains-snoc n m [] = ground arith
contains-snoc n m (k ∷ ns) = ground (arith, contains-snoc n m ns)

snoc-Distinct :
    (m : Text) (ns : List Text) → Distinct ns → contains m ns ≡ false → Distinct (ns ++ m ∷ [])
snoc-Distinct m [] h k = (refl, tt)
snoc-Distinct m (n ∷ ns) (h, hs) k = (
  ground (arith, h, k, contains-snoc n m ns, text_eq_iff n m, text_eq_iff m n),
  snoc-Distinct m ns hs (ground (arith, k)),
)

add_to_set-Distinct : (n : Text) (ns : List Text) → Distinct ns → Distinct (add_to_set n ns)
unfolding add_to_set
add_to_set-Distinct n ns h = elim (Bool-cases (contains n ns)) [
  | inl e ↦ rw e h
  | inr e ↦ rw e (snoc-Distinct n ns h e)
]

contains_same :
    (j n : Text) (ns : List Text) → text_eq j n ≡ true → contains n ns ≡ true → contains j ns ≡ true
contains_same j n ns same h = subst (λ t. contains t ns ≡ true) (sym (text_eq→eq j n same)) h

contains-add_to_set :
    (j n : Text) (ns : List Text) → contains j (add_to_set n ns) ≡ (contains j ns || text_eq j n)
unfolding add_to_set
contains-add_to_set j n ns = elim (Bool-cases (contains n ns)) [
  | inl e ↦ rw e (ground (arith, λ (same : text_eq j n ≡ true). contains_same j n ns same e))
  | inr e ↦ rw e (contains-snoc j n ns)
]

-- What makes one a partner of the user, whose name is `me`, by a message: it is private, and it went
-- from the user to that one, or from that one, who is not the system, to the user. All names are in
-- lower case; in the browser the user is "you" too.
abbrev pub is_partner : Text → Text → ChatMessage → Bool
is_partner me name m =
    m.is_private
    && not (is_empty me)
    && not (is_empty name)
    && not (text_eq name me)
    && (text_eq (lower_of m.target_user) name
          && (text_eq (to_lower m.sender) me || text_eq (to_lower m.sender) (units_of "you"))
        || text_eq (lower_of m.target_user) me
          && text_eq (to_lower m.sender) name
          && not (text_eq name (units_of "system")))

peer_of-is_partner :
    (me name : Text) (m : ChatMessage)
    → (m.is_private
        && not (is_empty me)
        && not (is_empty (peer_of me m))
        && text_eq name (peer_of me m))
      ≡ is_partner me name m
unfolding peer_of
peer_of-is_partner me name m =
    let sender = to_lower m.sender in
    let target = lower_of m.target_user in
    ground (
      arith,
      text_eq_iff sender me,
      text_eq_iff target me,
      text_eq_iff sender (units_of "system"),
      text_eq_iff sender (units_of "you"),
      text_eq_iff name me,
      text_eq_iff target name,
      text_eq_iff sender name,
      text_eq_iff name target,
      text_eq_iff name sender,
      text_eq_iff name (units_of "system"),
    )

add_peer-Distinct :
    (me : Text) (m : ChatMessage) (ns : List Text) → Distinct ns → Distinct (add_peer me m ns)
unfolding add_peer
add_peer-Distinct me m ns h = ground (arith, add_to_set-Distinct (peer_of me m) ns h, h)

contains-add_peer :
    (me j : Text) (m : ChatMessage) (ns : List Text)
    → contains j (add_peer me m ns) ≡ (contains j ns || is_partner me j m)
unfolding add_peer
contains-add_peer me j m ns =
    ground (arith, contains-add_to_set j (peer_of me m) ns, peer_of-is_partner me j m)

add_peers-listed :
    (me j : Text) (ms : List ChatMessage) (ns : List Text)
    → Distinct ns
    → Distinct (add_peers me ms ns)
      × (contains j (add_peers me ms ns) ≡ (contains j ns || any (is_partner me j) ms))
unfolding add_peers
add_peers-listed me j [] ns h = (h, ground arith)
add_peers-listed me j (m ∷ ms) ns h =
    let (distinct, listed) =
      add_peers-listed me j ms (add_peer me m ns) (add_peer-Distinct me m ns h) in
    (distinct, ground (arith, listed, contains-add_peer me j m ns))

abbrev pub is_open_chat : Text → Option Text → Bool
is_open_chat name none = false
is_open_chat name (some user) = text_eq name (to_lower user)

-- The private chats that are listed are the partners of the user by some message and the one whose
-- chat is open, each once.
pub dm_user_list-listed :
    (profile : Option UserProfile) (messages : List ChatMessage) (active_dm_user : Option Text)
    (name : Text)
    → Distinct (dm_user_list profile messages active_dm_user)
      × (contains name (dm_user_list profile messages active_dm_user) ≡ (
          any (is_partner (to_lower (username_of profile)) name) messages
          || is_open_chat name (truthy active_dm_user)))
unfolding dm_user_list
dm_user_list-listed profile messages active_dm_user name = with_open (truthy active_dm_user)
  where
    me : Text
    me = to_lower (username_of profile)

    names : List Text
    names = add_peers me messages []

    listed : Distinct names × (contains name names ≡ any (is_partner me name) messages)
    listed = add_peers-listed me name messages [] tt

    with_open :
        (user : Option Text)
        → Distinct (elim user [ none ↦ names | some u ↦ add_to_set (to_lower u) names ])
          × (contains name (elim user [ none ↦ names | some u ↦ add_to_set (to_lower u) names ])
              ≡ (any (is_partner me name) messages || is_open_chat name user))
    with_open none = (listed.0, ground (arith, listed.1))
    with_open (some user) = (
      add_to_set-Distinct (to_lower user) names listed.0,
      ground (arith, listed.1, contains-add_to_set name (to_lower user) names),
    )
