-- ===== src/Text/Laws.antt =====
-- Laws of the string methods.
use pulse_chat.Base.{ℕ, ◌≡◌, refl, ap₂, ◌↔◌, [], ◌∷◌, true, false, arith}
use pulse_chat.Text.{
  is_empty, Text, text_eq, lower_unit, to_lower, is_space, trim_start, trim_end, trim,
}

pub text_eq→eq : (s t : Text) → text_eq s t ≡ true → s ≡ t
unfolding text_eq
text_eq→eq [] [] h = refl
text_eq→eq (c ∷ s) (d ∷ t) h = ground (arith, text_eq→eq s t)
text_eq→eq [] (d ∷ t) h = cc
text_eq→eq (c ∷ s) [] h = cc

pub text_eq_refl : (s : Text) → text_eq s s ≡ true
unfolding text_eq
text_eq_refl [] = refl
text_eq_refl (c ∷ s) = ground (arith, text_eq_refl s)

-- `===` decides equality.
pub text_eq_iff : (s t : Text) → (text_eq s t ≡ true) ↔ (s ≡ t)
text_eq_iff s t = (text_eq→eq s t, λ e. rw e (text_eq_refl t))

lower_unit_idem : (c : ℕ) → lower_unit (lower_unit c) ≡ lower_unit c
unfolding lower_unit
lower_unit_idem c = ground arith

pub to_lower_idem : (s : Text) → to_lower (to_lower s) ≡ to_lower s
unfolding to_lower
to_lower_idem [] = refl
to_lower_idem (c ∷ s) = ap₂ ◌∷◌ (lower_unit_idem c) (to_lower_idem s)

is_space-lower_unit : (c : ℕ) → is_space (lower_unit c) ≡ is_space c
unfolding lower_unit is_space
is_space-lower_unit c = ground arith

trim_start-to_lower : (s : Text) → trim_start (to_lower s) ≡ to_lower (trim_start s)
unfolding trim_start to_lower
trim_start-to_lower [] = refl
trim_start-to_lower (c ∷ s) = ground (arith, is_space-lower_unit c, trim_start-to_lower s)

trim_end-to_lower : (s : Text) → trim_end (to_lower s) ≡ to_lower (trim_end s)
unfolding trim_end to_lower
trim_end-to_lower [] = refl
trim_end-to_lower (c ∷ s) = ground (arith, is_space-lower_unit c, trim_end-to_lower s)

pub trim-to_lower : (s : Text) → trim (to_lower s) ≡ to_lower (trim s)
unfolding trim
trim-to_lower s = rw (trim_start-to_lower s, trim_end-to_lower (trim_start s))

trim_end_idem : (s : Text) → trim_end (trim_end s) ≡ trim_end s
unfolding trim_end
trim_end_idem [] = refl
trim_end_idem (c ∷ s) = ground (arith, trim_end_idem s)

-- A text that begins with no space.
abbrev StartsClean : Text → Type 0
StartsClean [] = Unit {0}
StartsClean (c ∷ s) = is_space c ≡ false

trim_start-StartsClean : (s : Text) → StartsClean (trim_start s)
unfolding trim_start
trim_start-StartsClean [] = tt
trim_start-StartsClean (c ∷ s) = ground (arith, trim_start-StartsClean s)

trim_end-StartsClean : (s : Text) → StartsClean s → StartsClean (trim_end s)
unfolding trim_end
trim_end-StartsClean [] h = tt
trim_end-StartsClean (c ∷ s) h = ground arith

trim_start_of_StartsClean : (s : Text) → StartsClean s → trim_start s ≡ s
unfolding trim_start
trim_start_of_StartsClean [] h = refl
trim_start_of_StartsClean (c ∷ s) h = rw h

pub trim_idem : (s : Text) → trim (trim s) ≡ trim s
unfolding trim
trim_idem s =
    rw (trim_start_of_StartsClean _ (trim_end-StartsClean _ (trim_start-StartsClean s)))
      (trim_end_idem (trim_start s))

pub is_empty-trim : (s : Text) → is_empty s ≡ true → is_empty (trim s) ≡ true
unfolding trim trim_start trim_end
is_empty-trim [] h = refl
is_empty-trim (c ∷ s) h = cc
