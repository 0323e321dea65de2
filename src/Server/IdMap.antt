-- ===== src/Server/IdMap.antt =====
-- Tables and sets of connection ids: `std::unordered_map<int, T>` and `std::unordered_set<int>` of
-- src/core/room_manager.cpp and src/reactor/reactor_server.cpp. An id is a descriptor that is open, and
-- so a natural number. Their order, which the standard leaves open, is here that of insertion.
use pulse_chat.Base.{
  ℕ, ◌≡◌, ◌≢◌, ◌↔◌, suc, ◌≤◌, ◌<◌, refl, length, List, [], ◌∷◌, Option, none, some, Bool, true,
  false, not, ◌&&◌, ◌||◌, ◌==◌, if◌then◌else◌, arith,
}

abbrev pub IdMap {ℓ} : Type ℓ → Type ℓ
IdMap V = List (ℕ × V)

module _ {ℓ} {V : Type ℓ} where
  -- `m.find(k)`
  unfoldable pub find : ℕ → IdMap V → Option V
  find k [] = none
  find k ((j, v) ∷ m) = if j == k then some v else find k m

  -- `m[k] = v`
  unfoldable pub set_at : ℕ → V → IdMap V → IdMap V
  set_at k v [] = (k, v) ∷ []
  set_at k v ((j, w) ∷ m) = if j == k then (j, v) ∷ m else (j, w) ∷ set_at k v m

  -- `m.erase(k)`
  unfoldable pub erase : ℕ → IdMap V → IdMap V
  erase k [] = []
  erase k ((j, w) ∷ m) = let rest = erase k m in if j == k then rest else (j, w) ∷ rest

  pub find-set_at :
      (k j : ℕ) (v : V) (m : IdMap V)
      → find j (set_at k v m) ≡ (if k == j then some v else find j m)
  unfolding find set_at
  find-set_at k j v [] = refl
  find-set_at k j v ((i, w) ∷ m) = ground (arith, find-set_at k j v m)

  pub find-erase :
      (k j : ℕ) (m : IdMap V) → find j (erase k m) ≡ (if k == j then none else find j m)
  unfolding find erase
  find-erase k j [] = ground arith
  find-erase k j ((i, w) ∷ m) = ground (arith, find-erase k j m)

  pub length-set_at :
      (k : ℕ) (v w : V) (m : IdMap V) → find k m ≡ some v → length (set_at k w m) ≡ length m
  unfolding find set_at
  length-set_at k v w [] h = cc
  length-set_at k v w ((i, u) ∷ m) h = ground (arith, length-set_at k v w m)

  pub length-erase_le : (k : ℕ) (m : IdMap V) → length (erase k m) ≤ length m
  unfolding erase
  length-erase_le k [] = omega arith
  length-erase_le k ((i, u) ∷ m) = ground (arith, length-erase_le k m)

  pub length-erase :
      (k : ℕ) (v : V) (m : IdMap V) → find k m ≡ some v → length (erase k m) < length m
  unfolding find erase
  length-erase k v [] h = cc
  length-erase k v ((i, u) ∷ m) h = ground (arith, length-erase k v m, length-erase_le k m)

abbrev pub IdSet : Type 0
IdSet = List ℕ

-- `s.count(k)`
unfoldable pub is_member : ℕ → IdSet → Bool
is_member k [] = false
is_member k (j ∷ s) = j == k || is_member k s

-- `s.insert(k)`
unfoldable pub insert : ℕ → IdSet → IdSet
insert k [] = k ∷ []
insert k (j ∷ s) = if j == k then j ∷ s else j ∷ insert k s

-- `s.erase(k)`
unfoldable pub erase_member : ℕ → IdSet → IdSet
erase_member k [] = []
erase_member k (j ∷ s) = let rest = erase_member k s in if j == k then rest else j ∷ rest

pub is_member-insert : (k j : ℕ) (s : IdSet) → is_member j (insert k s) ≡ (k == j || is_member j s)
unfolding is_member insert
is_member-insert k j [] = refl
is_member-insert k j (i ∷ s) = ground (arith, is_member-insert k j s)

pub is_member-erase_member :
    (k j : ℕ) (s : IdSet) → is_member j (erase_member k s) ≡ (not (k == j) && is_member j s)
unfolding is_member erase_member
is_member-erase_member k j [] = ground arith
is_member-erase_member k j (i ∷ s) = ground (arith, is_member-erase_member k j s)

-- How often an id stands in a set.
abbrev pub copies : ℕ → IdSet → ℕ
copies k [] = 0
copies k (j ∷ s) = if j == k then suc (copies k s) else copies k s

pub copies-is_member : (k : ℕ) (s : IdSet) → (is_member k s ≡ true) ↔ (1 ≤ copies k s)
unfolding is_member
copies-is_member k [] = ground arith
copies-is_member k (j ∷ s) = ground (arith, copies-is_member k s)

copies-insert_other : (k j : ℕ) (s : IdSet) → k ≢ j → copies j (insert k s) ≡ copies j s
unfolding insert
copies-insert_other k j [] h = ground arith
copies-insert_other k j (i ∷ s) h = ground (arith, copies-insert_other k j s)

copies-insert_same : (k : ℕ) (s : IdSet) → copies k s ≤ 1 → copies k (insert k s) ≤ 1
unfolding insert
copies-insert_same k [] h = ground arith
copies-insert_same k (i ∷ s) h = ground (arith, copies-insert_same k s)

pub copies-insert : (k j : ℕ) (s : IdSet) → copies j s ≤ 1 → copies j (insert k s) ≤ 1
copies-insert k j s h = ground (arith, copies-insert_other k j s, copies-insert_same k s)

pub copies-erase_member : (k j : ℕ) (s : IdSet) → copies j (erase_member k s) ≤ copies j s
unfolding erase_member
copies-erase_member k j [] = omega arith
copies-erase_member k j (i ∷ s) = ground (arith, copies-erase_member k j s)
