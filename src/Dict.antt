-- ===== src/Dict.antt =====
-- Tables keyed by texts: `Map` as gateway/src/server.ts uses it, and the plain objects that
-- gateway/src/db.ts uses as records. Both list their entries in an order; an object lists the keys
-- that are array indices first, by number, and answers for the names of `Object.prototype` too.
pub mod Laws
use pulse_chat.Base.{
  ℕ, ◌+◌, ◌-◌, ◌*◌, List, [], ◌∷◌, Option, none, some, Bool, true, false, not, ◌&&◌, ◌||◌, ltb,
  ◌==◌, if◌then◌else◌, map,
}
use pulse_chat.Text.{Text, units_of, text_eq, between}

abbrev pub Dict {ℓ} : Type ℓ → Type ℓ
Dict V = List (Text × V)

module _ {ℓ} {V : Type ℓ} where
  -- `m.get(k)`, and an object's own property.
  unfoldable pub get : Text → Dict V → Option V
  get k [] = none
  get k ((j, v) ∷ m) = if text_eq j k then some v else get k m

  unfoldable pub has : Text → Dict V → Bool
  has k [] = false
  has k ((j, v) ∷ m) = text_eq j k || has k m

  unfoldable pub replace : Text → V → Dict V → Dict V
  replace k v [] = []
  replace k v ((j, w) ∷ m) = if text_eq j k then (j, v) ∷ m else (j, w) ∷ replace k v m

  -- `m.set(k, v)`
  unfoldable pub set : Text → V → Dict V → Dict V
  set k v [] = (k, v) ∷ []
  set k v ((j, w) ∷ m) = if text_eq j k then (j, v) ∷ m else (j, w) ∷ set k v m

  -- `m.delete(k)`, `delete o[k]`
  unfoldable pub delete : Text → Dict V → Dict V
  delete k [] = []
  delete k ((j, w) ∷ m) = if text_eq j k then m else (j, w) ∷ delete k m

  -- `m.values()`, `Object.values(o)`
  unfoldable pub values : Dict V → List V
  values m = map (λ e. e.1) m

-- The value of a text of digits.
unfoldable pub number_from : ℕ → Text → ℕ
number_from acc [] = acc
number_from acc (c ∷ s) = number_from (acc * 10 + (c - b'0')) s

unfoldable pub all_digits : Text → Bool
all_digits [] = true
all_digits (c ∷ s) = between b'0' b'9' c && all_digits s

-- An array index: a decimal with no leading zero, below 2^32 - 1.
unfoldable pub is_index : Text → Bool
unfolding number_from all_digits
is_index [] = false
is_index (c ∷ []) = between b'0' b'9' c
is_index (c ∷ d ∷ s) =
    all_digits (c ∷ d ∷ s) && not (c == b'0') && ltb (number_from 0 (c ∷ d ∷ s)) 4294967295

-- Whether a new key `k` is listed before a key `j` that is there.
unfoldable pub listed_before : Text → Text → Bool
unfolding is_index
listed_before k j = is_index k && (not (is_index j) || ltb (number_from 0 k) (number_from 0 j))

module _ {ℓ} {V : Type ℓ} where
  unfoldable pub place : Text → V → Dict V → Dict V
  place k v [] = (k, v) ∷ []
  place k v ((j, w) ∷ m) = if listed_before k j then (k, v) ∷ (j, w) ∷ m else (j, w) ∷ place k v m

  -- `o[k] = v`
  unfoldable pub put : Text → V → Dict V → Dict V
  unfolding has replace place listed_before
  put k v m = if has k m then replace k v m else place k v m

-- The names of `Object.prototype` that are in lower case.
unfoldable pub is_inherited : Text → Bool
is_inherited k = text_eq k (units_of "constructor") || text_eq k (units_of "__proto__")

-- What `o[k]` finds: an own property, one of `Object.prototype` (which is truthy), or `undefined`.
pub data Slot {ℓ} (V : Type ℓ) : Type ℓ where
  own : V → Slot V
  inherited : Slot V
  absent : Slot V

abbrev pub slot {ℓ} : {V : Type ℓ} → Bool → Option V → Slot V
slot b (some v) = own v
slot true none = inherited
slot false none = absent

-- `o[k]`
unfoldable pub read {ℓ} : {V : Type ℓ} → Text → Dict V → Slot V
unfolding get is_inherited
read k m = slot (is_inherited k) (get k m)
