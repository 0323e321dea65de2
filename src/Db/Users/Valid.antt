-- ===== src/Db/Users/Valid.antt =====
-- The shape of the users' table, and that registration keeps it.
use pulse_chat.Base.{
  ◌≡◌, refl, ◌∙◌, inl, inr, [], ◌∷◌, Option, none, some, true, false, arith, Bool-cases,
}
use pulse_chat.Text.{Text, text_eq, is_empty, to_lower, trim}
use pulse_chat.Text.Laws.{text_eq_iff, text_eq_refl, to_lower_idem, trim_idem, trim-to_lower}
use pulse_chat.Dict.{Dict, get, put, values, read, Slot, own, inherited, absent}
use pulse_chat.Dict.Laws.{
  read_own, read_absent, Distinct, get-put, get-delete, put-Distinct, delete-Distinct,
}
use pulse_chat.Db.{DbUser, DatabaseSchema, PulseDatabase, World, save}
use pulse_chat.Db.Users.{
  Claim, UserResult, has_email, first_with_email, find_user_by_email, owns_email, relogin,
  free_old_handle, claimed_user, guest_user, register_email, register_guest,
  validate_and_register_user, default_to,
}

-- Each user stands once, under the own name, and no two have the same email.
pub record IsUsers (users : Dict DbUser) : Type 0 where
  pub distinct : Distinct users
  pub named : (k : Text) (u : DbUser) → get k users ≡ some u → u.username ≡ k
  pub unique :
      (e k j : Text) (u v : DbUser)
      → get k users ≡ some u
      → get j users ≡ some v
      → has_email e u.email ≡ true
      → has_email e v.email ≡ true
      → k ≡ j

pub first_with_email-some :
    (e : Text) (users : Dict DbUser) (u : DbUser)
    → Distinct users
    → first_with_email e (values users) ≡ some u
    → (k : Text) × (get k users ≡ some u) × (has_email e u.email ≡ true)
unfolding first_with_email values get
first_with_email-some e [] u d h = cc
first_with_email-some e ((k, v) ∷ users) u d h = elim (Bool-cases (has_email e v.email)) [
  | inl t ↦ (k, ground (arith, text_eq_refl k), ground arith)
  | inr f ↦
      let (j, found, fits) = first_with_email-some e users u d.1 (ground arith) in
      (j, ground (arith, text_eq_iff k j), fits)
]

pub first_with_email-none :
    (e : Text) (users : Dict DbUser) (j : Text) (v : DbUser)
    → first_with_email e (values users) ≡ none
    → get j users ≡ some v
    → has_email e v.email ≡ false
unfolding first_with_email values get
first_with_email-none e [] j v h g = cc
first_with_email-none e ((k, u) ∷ users) j v h g = ground (arith, first_with_email-none e users j v)

-- Who is left when the old name of an email is freed: users that were there, without that email.
pub free_old_handle-get :
    (handle e : Text) (users : Dict DbUser) (old : Option DbUser) (j : Text) (v : DbUser)
    → IsUsers users
    → get handle users ≡ none
    → first_with_email e (values users) ≡ old
    → get j (free_old_handle handle old users) ≡ some v
    → (get j users ≡ some v) × (has_email e v.email ≡ false)
unfolding free_old_handle
free_old_handle-get handle e users none j v valid free found g =
    (g, first_with_email-none e users j v found g)
free_old_handle-get handle e users (some o) j v valid free found g =
    let (k, at, fits) = first_with_email-some e users o valid.distinct found in
    let name : o.username ≡ k = valid.named k o at in
    let other : text_eq o.username handle ≡ false = ground (arith, text_eq_iff o.username handle) in
    let kept : get j users ≡ some v =
      ground (arith, get-delete o.username j users valid.distinct, text_eq_iff o.username j) in
    let differ : text_eq o.username j ≡ false =
      ground (arith, get-delete o.username j users valid.distinct) in
    (
      kept,
      elim (Bool-cases (has_email e v.email)) [
        | inl fits' ↦
            let same : k ≡ j = valid.unique e k j o v at kept fits fits' in
            absurd (ground (arith, differ, (text_eq_iff o.username j).1 (name ∙ same)))
        | inr other' ↦ other'
      ],
    )

-- Every user without the email is left.
pub free_old_handle-kept :
    (handle e : Text) (users : Dict DbUser) (old : Option DbUser) (j : Text) (v : DbUser)
    → IsUsers users
    → first_with_email e (values users) ≡ old
    → get j users ≡ some v
    → has_email e v.email ≡ false
    → get j (free_old_handle handle old users) ≡ some v
unfolding free_old_handle
free_old_handle-kept handle e users none j v valid found g other = g
free_old_handle-kept handle e users (some o) j v valid found g other =
    let (k, at, fits) = first_with_email-some e users o valid.distinct found in
    let name : o.username ≡ k = valid.named k o at in
    ground (
      arith,
      name,
      get-delete o.username j users valid.distinct,
      text_eq_iff o.username j,
      text_eq_iff o.username handle,
    )

pub free_old_handle-Distinct :
    (handle : Text) (users : Dict DbUser) (old : Option DbUser)
    → Distinct users
    → Distinct (free_old_handle handle old users)
unfolding free_old_handle
free_old_handle-Distinct handle users none d = d
free_old_handle-Distinct handle users (some o) d =
    ground (arith, delete-Distinct o.username users d)

pub clean_idem : (s : Text) → to_lower (trim (to_lower (trim s))) ≡ to_lower (trim s)
clean_idem s = rw (trim-to_lower, trim_idem, to_lower_idem)

-- A table after a new user is entered, beside users who have neither the name nor the email.
module _ (users : Dict DbUser) (handle : Text) (new_user : DbUser) where
  put-IsUsers :
      Distinct users
      → ((k : Text) (u : DbUser) → get k users ≡ some u → u.username ≡ k)
      → ((e k j : Text) (u v : DbUser)
          → get k users ≡ some u
          → get j users ≡ some v
          → has_email e u.email ≡ true
          → has_email e v.email ≡ true
          → k ≡ j)
      → new_user.username ≡ handle
      → ((e j : Text) (v : DbUser)
          → get j users ≡ some v
          → has_email e new_user.email ≡ true
          → has_email e v.email ≡ true
          → j ≡ handle)
      → IsUsers (put handle new_user users)
  put-IsUsers distinct named unique name alone = record {
    distinct = put-Distinct handle new_user users distinct;
    named =
        λ k u g. ground (arith, get-put handle k new_user users, text_eq_iff handle k, named k u);
    unique = λ e k j u v gu gv hu hv. ground (
      arith,
      get-put handle k new_user users,
      get-put handle j new_user users,
      text_eq_iff handle k,
      text_eq_iff handle j,
      unique e k j u v,
      alone e j v,
      alone e k u,
    );
  }

put-relogin-IsUsers :
    (w : World) (c : Claim) (users : Dict DbUser) (handle : Text) (u : DbUser)
    → IsUsers users
    → get handle users ≡ some u
    → IsUsers (put handle (relogin w c u) users)
unfolding relogin
put-relogin-IsUsers w c users handle u valid at =
    put-IsUsers users handle (relogin w c u) valid.distinct valid.named valid.unique
      (valid.named handle u at) (λ e j v g h h'. valid.unique e j handle v u g at h' h)

pub has_email-some :
    (e target : Text) → has_email target (some e) ≡ true → to_lower (trim e) ≡ target
unfolding has_email
has_email-some e target h = ground (arith, text_eq_iff (to_lower (trim e)) target)

register_email-absent-IsUsers :
    (w : World) (handle e : Text) (c : Claim) (users : Dict DbUser) (old : Option DbUser)
    → IsUsers users
    → get handle users ≡ none
    → to_lower (trim e) ≡ e
    → first_with_email e (values users) ≡ old
    → IsUsers (put handle (claimed_user w handle e c old) (free_old_handle handle old users))
unfolding claimed_user
register_email-absent-IsUsers w handle e c users old valid free clean found =
    put-IsUsers (free_old_handle handle old users) handle (claimed_user w handle e c old)
      (free_old_handle-Distinct handle users old valid.distinct)
      (λ k u g. valid.named k u (free_old_handle-get handle e users old k u valid free found g).0)
      (λ e' k j u v gu gv hu hv.
        valid.unique e' k j u v (free_old_handle-get handle e users old k u valid free found gu).0
          (free_old_handle-get handle e users old j v valid free found gv).0 hu hv)
      refl (λ e' j v g h h'. elsewhere e' j v g h h')
  where
    elsewhere :
        (e' j : Text) (v : DbUser)
        → get j (free_old_handle handle old users) ≡ some v
        → has_email e' (some e) ≡ true
        → has_email e' v.email ≡ true
        → j ≡ handle
    elsewhere e' j v g h h' = absurd (
        ground (
          arith,
          has_email-some e e' h,
          (free_old_handle-get handle e users old j v valid free found g).1,
          clean,
        ))

put-guest-IsUsers :
    (w : World) (handle : Text) (c : Claim) (users : Dict DbUser)
    → IsUsers users
    → IsUsers (put handle (guest_user w handle c) users)
unfolding guest_user has_email
put-guest-IsUsers w handle c users valid =
    put-IsUsers users handle (guest_user w handle c) valid.distinct valid.named valid.unique refl
      (λ e j v g h h'. cc)

abbrev pub users_of : PulseDatabase × UserResult → Dict DbUser
users_of (p, r) = p.data_now.users

pub save-users : (w : World) (p : PulseDatabase) → (save w p).data_now.users ≡ p.data_now.users
unfolding save
save-users w p = ground arith

pub find_user_by_email-first :
    (e : Text) (d : DatabaseSchema)
    → to_lower (trim e) ≡ e
    → first_with_email e (values d.users) ≡ find_user_by_email e d
unfolding find_user_by_email
find_user_by_email-first e d clean = rw clean

module _ (w : World) (handle : Text) (c : Claim) (p : PulseDatabase)
    (valid : IsUsers p.data_now.users) where
  register_email-IsUsers :
      (e : Text) (found : Slot DbUser)
      → to_lower (trim e) ≡ e
      → read handle p.data_now.users ≡ found
      → IsUsers (users_of (register_email w handle e c found p))
  unfolding register_email
  register_email-IsUsers e (own u) clean at = elim (Bool-cases (owns_email e u.email)) [
    | inl same ↦
        rw (same, save-users)
          (put-relogin-IsUsers w c p.data_now.users handle u valid
            (read_own handle p.data_now.users at))
    | inr other ↦ rw other valid
  ]
  register_email-IsUsers e inherited clean at = valid
  register_email-IsUsers e absent clean at = rw save-users (
      register_email-absent-IsUsers w handle e c p.data_now.users _ valid
        (read_absent handle p.data_now.users at) clean
        (find_user_by_email-first e p.data_now clean))

  register_guest-IsUsers :
      (found : Slot DbUser) → IsUsers (users_of (register_guest w handle c found p))
  unfolding register_guest
  register_guest-IsUsers absent =
      rw save-users (put-guest-IsUsers w handle c p.data_now.users valid)
  register_guest-IsUsers _ = valid

-- Whatever is asked, registration keeps the table in shape: one entry for each name, stored under
-- it, and no email twice.
pub validate_and_register_user-IsUsers :
    (w : World) (username : Text) (c : Claim) (p : PulseDatabase)
    → IsUsers p.data_now.users
    → IsUsers (users_of (validate_and_register_user w username c p))
unfolding validate_and_register_user
validate_and_register_user-IsUsers w username c p valid =
    elim (Bool-cases (is_empty (to_lower (trim username)))) [
      | inl nameless ↦ rw nameless valid
      | inr named ↦ elim (Bool-cases (is_empty (to_lower (trim (default_to c.email []))))) [
        | inl guest ↦ rw (named, guest) (register_guest-IsUsers w _ c p valid _)
        | inr known ↦
            rw (named, known)
              (register_email-IsUsers w _ c p valid _ _ (clean_idem (default_to c.email [])) refl)
      ]
    ]
