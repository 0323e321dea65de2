-- ===== src/Db/Users/Registration.antt =====
-- What registration does to the users, branch by branch.
use pulse_chat.Base.{
  if◌then◌else◌, ◌↔◌, ◌≡◌, refl, sym, ◌∙◌, ◌⊎◌, inl, inr, [], Option, none, some, false, arith,
  Bool-cases, subst,
}
use pulse_chat.Text.{Text, text_eq, is_empty, to_lower, trim}
use pulse_chat.Text.Laws.{text_eq_iff, text_eq_refl}
use pulse_chat.Dict.{Dict, get, put, values, read, Slot, own, inherited, absent}
use pulse_chat.Dict.Laws.{get-put, read_own, read_absent, get→read}
use pulse_chat.Db.{DbFile, DbUser, PulseDatabase, World, save, holds}
use pulse_chat.Db.Users.{
  Claim, UserResult, username_taken, has_email, first_with_email, find_user_by_email, owns_email,
  relogin, free_old_handle, claimed_user, register_email, register_guest,
  validate_and_register_user, with_users, accepted, refused, default_to,
}
use pulse_chat.Db.Users.Valid.{
  free_old_handle-kept, IsUsers, save-users, free_old_handle-get, find_user_by_email-first,
  clean_idem,
}

-- The name and the email that registration works with.
abbrev pub handle_of : Text → Text
handle_of username = to_lower (trim username)

abbrev pub email_of : Claim → Text
email_of c = to_lower (trim (default_to c.email []))

-- A name that another account holds is refused, whoever asks, and nothing changes.
pub validate_and_register_user_taken :
    (w : World) (username : Text) (c : Claim) (p : PulseDatabase) (u : DbUser)
    → is_empty (handle_of username) ≡ false
    → get (handle_of username) p.data_now.users ≡ some u
    → owns_email (email_of c) u.email ≡ false
    → validate_and_register_user w username c p ≡ (p, refused (username_taken (handle_of username)))
unfolding validate_and_register_user
validate_and_register_user_taken w username c p u named at other =
    let found = get→read (handle_of username) p.data_now.users at in ground (arith, found)

-- What the result of a registration says of the data behind it.
abbrev Stored : World → Text → DbFile → PulseDatabase × UserResult → Type 0
Stored w handle file (q, accepted u) =
    (get handle q.data_now.users ≡ some u)
    × (u.username ≡ handle)
    × (q.file ≡ (if w.writable then holds q.data_now else file))
Stored w handle file (q, refused e) = Unit {0}

save-put-Stored :
    (w : World) (handle : Text) (p : PulseDatabase) (users : Dict DbUser) (u : DbUser)
    → u.username ≡ handle
    → Stored w handle p.file (save w (with_users (put handle u users) p), accepted u)
unfolding save
save-put-Stored w handle p users u name =
    (ground (arith, get-put handle handle u users, text_eq_refl handle), name, ground arith)

module _ (w : World) (handle : Text) (c : Claim) (p : PulseDatabase)
    (valid : IsUsers p.data_now.users) where
  register_email-Stored :
      (e : Text) (found : Slot DbUser)
      → read handle p.data_now.users ≡ found
      → Stored w handle p.file (register_email w handle e c found p)
  unfolding register_email
  register_email-Stored e (own u) at =
      let name = valid.named handle u (read_own handle p.data_now.users at) in
      elim (Bool-cases (owns_email e u.email)) [
        | inl same ↦ rw same (save-put-Stored w handle p p.data_now.users (relogin w c u) name)
        | inr other ↦ rw other tt
      ]
  register_email-Stored e inherited at = tt
  register_email-Stored e absent at = save-put-Stored w handle p _ _ refl

  register_guest-Stored :
      (found : Slot DbUser) → Stored w handle p.file (register_guest w handle c found p)
  unfolding register_guest
  register_guest-Stored absent = save-put-Stored w handle p _ _ refl
  register_guest-Stored _ = tt

validate_and_register_user-Stored :
    (w : World) (username : Text) (c : Claim) (p : PulseDatabase)
    → IsUsers p.data_now.users
    → Stored w (handle_of username) p.file (validate_and_register_user w username c p)
unfolding validate_and_register_user
validate_and_register_user-Stored w username c p valid =
    elim (Bool-cases (is_empty (handle_of username))) [
      | inl nameless ↦ rw nameless tt
      | inr named ↦ elim (Bool-cases (is_empty (email_of c))) [
        | inl guest ↦ rw (named, guest) (register_guest-Stored w _ c p valid _)
        | inr known ↦ rw (named, known) (register_email-Stored w _ c p valid _ _ refl)
      ]
    ]

claimed_iff :
    (w : World) (handle e : Text) (c : Claim) (users : Dict DbUser) (old : Option DbUser) (j : Text)
    (v : DbUser)
    → IsUsers users
    → get handle users ≡ none
    → first_with_email e (values users) ≡ old
    → (get j (put handle (claimed_user w handle e c old) (free_old_handle handle old users))
        ≡ some v)
      ↔ (((j ≡ handle) × (v ≡ claimed_user w handle e c old))
          ⊎ ((get j users ≡ some v) × (has_email e v.email ≡ false)))
claimed_iff w handle e c users old j v valid free found =
    let after =
      get-put handle j (claimed_user w handle e c old) (free_old_handle handle old users) in
    let there = free_old_handle-get handle e users old j v valid free found in
    let back = free_old_handle-kept handle e users old j v valid found in
    elim (Bool-cases (text_eq handle j)) [
      | inl same ↦
          let eq : j ≡ handle = sym ((text_eq_iff handle j).0 same) in
          let now = rw same at after in
          (
            λ g. inl (eq, cc),
            λ r. elim r [ inl (_, new) ↦ rw new now | inr (g, _) ↦ absurd (ground (arith, eq)) ],
          )
      | inr other ↦
          let now = rw other at after in
          (
            λ g. inr (there (cc)),
            λ r. elim r [
              | inl (eq, _) ↦ absurd (ground (arith, text_eq_iff handle j))
              | inr (g, lacks) ↦ now ∙ back g lacks
            ],
          )
    ]

-- What the caller is told is what is stored: an accepted user stands in the table under the
-- requested name, in lower case and trimmed, and the file holds the data if it can be written, and
-- is what it was otherwise.
pub validate_and_register_user_stored :
    (w : World) (username : Text) (c : Claim) (p q : PulseDatabase) (u : DbUser)
    → IsUsers p.data_now.users
    → validate_and_register_user w username c p ≡ (q, accepted u)
    → (get (handle_of username) q.data_now.users ≡ some u)
      × (u.username ≡ handle_of username)
      × (q.file ≡ (if w.writable then holds q.data_now else p.file))
validate_and_register_user_stored w username c p q u valid e =
    subst (Stored w (handle_of username) p.file) e
      (validate_and_register_user-Stored w username c p valid)

-- An email that asks for a free name gets it: afterwards the table holds the user made of the
-- request and of the user who had the email, and every user that was there without the email. So
-- the name that the email had is free again, and nobody else is touched.
pub validate_and_register_user_moves :
    (w : World) (username : Text) (c : Claim) (p : PulseDatabase)
    → IsUsers p.data_now.users
    → is_empty (handle_of username) ≡ false
    → is_empty (email_of c) ≡ false
    → read (handle_of username) p.data_now.users ≡ absent
    → (j : Text) (v : DbUser)
    → (get j (validate_and_register_user w username c p).0.data_now.users ≡ some v) ↔ (
        ((j ≡ handle_of username)
          × (v
              ≡ claimed_user w
                  (handle_of username)
                  (email_of c)
                  c
                  (find_user_by_email (email_of c) p.data_now)))
        ⊎ ((get j p.data_now.users ≡ some v) × (has_email (email_of c) v.email ≡ false)))
unfolding validate_and_register_user register_email
validate_and_register_user_moves w username c p valid named known free j v =
    rw (named, known, free, save-users)
      (claimed_iff w (handle_of username) (email_of c) c p.data_now.users _ j v valid
        (read_absent (handle_of username) p.data_now.users free)
        (find_user_by_email-first (email_of c) p.data_now (clean_idem (default_to c.email []))))
