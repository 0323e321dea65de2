-- ===== src/Text.antt =====
-- JavaScript strings, as the lists of their UTF-16 code units, and the library methods that
-- gateway/src/db.ts, gateway/src/server.ts and frontend/src/hooks/usePulseChat.ts call on them.
-- Lower case is exact on the units below 0x100; any other unit stands for itself.
pub mod Laws
use Prim.Native.Char.{code}
use Prim.Native.String.{String}
use pulse_chat.Base.{
  ℕ, ◌+◌, List, [], ◌∷◌, ◌++◌, map, Bool, true, false, not, ◌&&◌, ◌||◌, leb, ◌==◌, if◌then◌else◌,
}

abbrev pub Text : Type 0
Text = List ℕ

-- The units of a literal of the source (those here are all below 0x10000).
abbrev pub units_of : String → Text
units_of String.[] = []
units_of (String.◌∷◌ c s) = code c ∷ units_of s

-- `s === t`
unfoldable pub text_eq : Text → Text → Bool
text_eq [] [] = true
text_eq (c ∷ s) (d ∷ t) = c == d && text_eq s t
text_eq _ _ = false

abbrev pub is_empty : Text → Bool
is_empty [] = true
is_empty (_ ∷ _) = false

-- `s || t`
infixr 20 ◌or_else◌
abbrev pub ◌or_else◌ : Text → Text → Text
◌or_else◌ s t = if is_empty s then t else s

abbrev pub between : ℕ → ℕ → ℕ → Bool
between lo hi c = leb lo c && leb c hi

unfoldable pub lower_unit : ℕ → ℕ
lower_unit c = if between b'A' b'Z' c || between 0xC0 0xDE c && not (c == 0xD7) then c + 32 else c

-- `s.toLowerCase()`
unfoldable pub to_lower : Text → Text
to_lower s = map lower_unit s

-- The white space and line terminators of the language.
unfoldable pub is_space : ℕ → Bool
is_space c =
    between 9 13 c
    || c == 0x20
    || c == 0xA0
    || c == 0x1680
    || between 0x2000 0x200A c
    || between 0x2028 0x2029 c
    || c == 0x202F
    || c == 0x205F
    || c == 0x3000
    || c == 0xFEFF

unfoldable pub trim_start : Text → Text
trim_start [] = []
trim_start (c ∷ s) = if is_space c then trim_start s else c ∷ s

unfoldable pub trim_end : Text → Text
trim_end [] = []
trim_end (c ∷ s) = let rest = trim_end s in if is_empty rest && is_space c then [] else c ∷ rest

-- `s.trim()`
unfoldable pub trim : Text → Text
unfolding trim_start trim_end is_space
trim s = trim_end (trim_start s)

-- `s.startsWith(p)`
unfoldable pub starts_with : Text → Text → Bool
starts_with [] s = true
starts_with (c ∷ p) [] = false
starts_with (c ∷ p) (d ∷ s) = c == d && starts_with p s

-- `s.includes(p)`
unfoldable pub includes : Text → Text → Bool
unfolding starts_with
includes p [] = starts_with p []
includes p (c ∷ s) = starts_with p (c ∷ s) || includes p s
