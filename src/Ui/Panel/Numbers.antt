-- ===== src/Ui/Panel/Numbers.antt =====
-- The numbers of frontend/src/components/ObservabilityPanel.tsx.
use native.Mathlib.Omega.{div_any}
use native.Mathlib.Nat.{mod-lt}
use pulse_chat.Base.{
  ◌≡◌, ap, ◌∙◌, ℕ, zero, suc, ◌+◌, ◌-◌, ◌*◌, ◌/◌, ◌%◌, ◌≤◌, ◌<◌, [], ◌∷◌, Bool-cases, inl, inr,
  arith, ltb,
}
use pulse_chat.Text.{Text}
use pulse_chat.Dict.{number_from}
use pulse_chat.Pcap.{hex_digit}
use pulse_chat.Ui.Panel.{digits_from, show, rounded}

last_digit : (n : ℕ) → n / 10 * 10 + (hex_digit b'A' (n % 10) - b'0') ≡ n
unfolding hex_digit
last_digit n = ground arith

-- Reading the digits of a number, with those behind it.
number_from-digits :
    (fuel n : ℕ) (behind : Text)
    → n < fuel
    → number_from 0 (digits_from 10 fuel n behind) ≡ number_from n behind
unfolding number_from digits_from hex_digit
number_from-digits zero n behind h = absurd (omega arith)
number_from-digits (suc fuel) n behind h = elim (Bool-cases (ltb n 10)) [
  | inl e ↦ ground (arith, e)
  | inr e ↦ rw e (
      number_from-digits fuel (n / 10) (hex_digit b'A' (n % 10) ∷ behind) (ground (arith, e))
      ∙ ap (λ k. number_from k behind) (last_digit n))
]

-- A number that is shown is read back.
pub number_from-show : (n : ℕ) → number_from 0 (show n) ≡ n
unfolding show number_from
number_from-show n = number_from-digits (suc n) n [] (omega arith)

-- A quotient is shown by the nearest number of digits: it is half a unit of the last place away at
-- most, and the larger of two is taken.
pub rounded_nearest :
    (a b scale : ℕ)
    → 0 < b
    → (2 * (a * scale) < 2 * (rounded a b scale * b) + b)
      × (2 * (rounded a b scale * b) ≤ 2 * (a * scale) + b)
unfolding rounded
rounded_nearest a b scale h =
    let x = 2 * (a * scale) + b in
    omega (arith, div_any x (2 * b), mod-lt x {m = 2 * b} (omega arith))
