-- ===== src/Dict/Laws.antt =====
-- Laws of the tables.
use pulse_chat.Base.{
  ◌≡◌, refl, inl, inr, [], ◌∷◌, none, some, true, false, arith, if◌then◌else◌, Bool-cases,
}
use pulse_chat.Text.{Text, text_eq}
use pulse_chat.Text.Laws.{text_eq_iff}
use pulse_chat.Dict.{Dict, get, has, replace, set, delete, place, put, read, own, absent}

module _ {ℓ} {V : Type ℓ} where
  pub get-set :
      (k j : Text) (v : V) (m : Dict V)
      → get j (set k v m) ≡ (if text_eq k j then some v else get j m)
  unfolding get set
  get-set k j v [] = refl
  get-set k j v ((i, w) ∷ m) =
      ground (arith, text_eq_iff k j, text_eq_iff i k, text_eq_iff i j, get-set k j v m)

  -- Each key has one entry.
  abbrev pub Distinct : Dict V → Type ℓ
  Distinct [] = Unit
  Distinct ((k, v) ∷ m) = (get k m ≡ none) × Distinct m

  pub get-delete :
      (k j : Text) (m : Dict V)
      → Distinct m
      → get j (delete k m) ≡ (if text_eq k j then none else get j m)
  unfolding get delete
  get-delete k j [] d = ground arith
  get-delete k j ((i, w) ∷ m) d =
      ground (arith, text_eq_iff k j, text_eq_iff i k, text_eq_iff i j, get-delete k j m)

  pub get-delete_other :
      (k j : Text) (m : Dict V) → text_eq k j ≡ false → get j (delete k m) ≡ get j m
  unfolding get delete
  get-delete_other k j [] h = refl
  get-delete_other k j ((i, w) ∷ m) h =
      ground (arith, get-delete_other k j m h, text_eq_iff i k, text_eq_iff i j, text_eq_iff k j)

  pub has-get : (k : Text) (m : Dict V) → has k m ≡ false → get k m ≡ none
  unfolding has get
  has-get k [] h = refl
  has-get k ((i, w) ∷ m) h = ground (arith, has-get k m)

  pub get-replace :
      (k j : Text) (v : V) (m : Dict V)
      → has k m ≡ true
      → get j (replace k v m) ≡ (if text_eq k j then some v else get j m)
  unfolding get replace has
  get-replace k j v [] h = cc
  get-replace k j v ((i, w) ∷ m) h =
      ground (arith, text_eq_iff k j, text_eq_iff i k, text_eq_iff i j, get-replace k j v m)

  pub get-place :
      (k j : Text) (v : V) (m : Dict V)
      → get k m ≡ none
      → get j (place k v m) ≡ (if text_eq k j then some v else get j m)
  unfolding get place
  get-place k j v [] h = refl
  get-place k j v ((i, w) ∷ m) h =
      ground (arith, text_eq_iff k j, text_eq_iff i k, text_eq_iff i j, get-place k j v m)

  -- An object after an assignment.
  pub get-put :
      (k j : Text) (v : V) (m : Dict V)
      → get j (put k v m) ≡ (if text_eq k j then some v else get j m)
  unfolding put
  get-put k j v m = elim (Bool-cases (has k m)) [
    | inl e ↦ rw e (get-replace k j v m e)
    | inr e ↦ rw e (get-place k j v m (has-get k m e))
  ]

  pub set-Distinct : (k : Text) (v : V) (m : Dict V) → Distinct m → Distinct (set k v m)
  unfolding set get
  set-Distinct k v [] d = (refl, tt)
  set-Distinct k v ((i, w) ∷ m) d =
      ground (arith, get-set k i v m, text_eq_iff k i, text_eq_iff i k, set-Distinct k v m)

  pub replace-Distinct :
      (k : Text) (v : V) (m : Dict V) → has k m ≡ true → Distinct m → Distinct (replace k v m)
  unfolding replace has
  replace-Distinct k v [] h d = d
  replace-Distinct k v ((i, w) ∷ m) h d =
      ground (arith, get-replace k i v m, text_eq_iff k i, text_eq_iff i k, replace-Distinct k v m)

  place-Distinct :
      (k : Text) (v : V) (m : Dict V) → get k m ≡ none → Distinct m → Distinct (place k v m)
  unfolding place get
  place-Distinct k v [] h d = (refl, tt)
  place-Distinct k v ((i, w) ∷ m) h d =
      ground (arith, get-place k i v m, text_eq_iff k i, text_eq_iff i k, place-Distinct k v m)

  pub put-Distinct : (k : Text) (v : V) (m : Dict V) → Distinct m → Distinct (put k v m)
  unfolding put
  put-Distinct k v m d = elim (Bool-cases (has k m)) [
    | inl e ↦ rw e (replace-Distinct k v m e d)
    | inr e ↦ rw e (place-Distinct k v m (has-get k m e) d)
  ]

  pub delete-Distinct : (k : Text) (m : Dict V) → Distinct m → Distinct (delete k m)
  unfolding delete
  delete-Distinct k [] d = d
  delete-Distinct k ((i, w) ∷ m) d =
      ground (arith, get-delete k i m, text_eq_iff k i, text_eq_iff i k, delete-Distinct k m)

  -- What `read` finds, by what is stored.
  pub read_own : (k : Text) (m : Dict V) {v : V} → read k m ≡ own v → get k m ≡ some v
  unfolding read
  read_own k m e = ground arith

  pub read_absent : (k : Text) (m : Dict V) → read k m ≡ absent → get k m ≡ none
  unfolding read
  read_absent k m e = ground arith

  pub get→read : (k : Text) (m : Dict V) {v : V} → get k m ≡ some v → read k m ≡ own v
  unfolding read
  get→read k m e = rw e
