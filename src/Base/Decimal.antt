-- ===== src/Base/Decimal.antt =====
-- `%d` of package fmt on numbers that are not negative.
use Prim.Native.Nat.{ℕ, zero, suc, ◌+◌, ◌-◌, ◌*◌, ◌/◌, ◌%◌, ◌≤◌, ◌<◌}
use mathlib.Core.Path.{◌≡◌, refl, sym, ap, ◌∙◌}
use mathlib.Core.Logic.{◌≢◌, inl, inr}
use mathlib.Core.List.{[], ◌∷◌, ◌++◌, foldl, cons-ne-nil}
use native.Mathlib.Omega.{arith}
use x_sticker_bot.Base.Tests.{ltb, if◌then◌else◌, Bool-cases}
use x_sticker_bot.Base.Text.{Bytes}
use x_sticker_bot.Base.Lists.{All, All-append}

-- One digit for each unit of fuel; a number has fewer digits than its successor.
digits : ℕ → ℕ → Bytes
digits zero n = []
digits (suc fuel) n =
    let rest = digits fuel (n / 10) in
    if ltb n 10 then (b'0' + n) ∷ [] else rest ++ (b'0' + n % 10) ∷ []

unfoldable pub decimal : ℕ → Bytes
unfolding digits
decimal n = digits (suc n) n

-- The number that digits spell behind `n`.
abbrev pub value : ℕ → Bytes → ℕ
value = foldl (λ n c. n * 10 + (c - b'0'))

value-snoc : (s : Bytes) (a d : ℕ) → value a (s ++ d ∷ []) ≡ value a s * 10 + (d - b'0')
value-snoc [] a d = refl
value-snoc (c ∷ s) a d = value-snoc s (a * 10 + (c - b'0')) d

value-digits : (fuel n : ℕ) → n < fuel → value 0 (digits fuel n) ≡ n
unfolding digits
value-digits zero n h = absurd (omega arith)
value-digits (suc fuel) n h = elim (Bool-cases (ltb n 10)) [
  | inl small ↦ rw small (omega arith)
  | inr more ↦
      rw (more, value-snoc (digits fuel (n / 10)) 0 (b'0' + n % 10))
        (ground (arith, value-digits fuel (n / 10)))
]

-- The printed digits spell the number, so different numbers print differently.
pub value-decimal : (n : ℕ) → value 0 (decimal n) ≡ n
unfolding decimal
value-decimal n = value-digits (suc n) n (omega arith)

pub decimal-injective : (m n : ℕ) → decimal m ≡ decimal n → m ≡ n
decimal-injective m n e = sym (value-decimal m) ∙ ap (value 0) e ∙ value-decimal n

abbrev pub IsDigit : ℕ → Type 0
IsDigit c = (b'0' ≤ c) × (c ≤ b'9')

digits-IsDigit : (fuel n : ℕ) → All IsDigit (digits fuel n)
unfolding digits
digits-IsDigit zero n = tt
digits-IsDigit (suc fuel) n = elim (Bool-cases (ltb n 10)) [
  | inl small ↦ rw small (ground arith)
  | inr more ↦ rw more (
      All-append IsDigit (digits fuel (n / 10)) ((b'0' + n % 10) ∷ [])
        (digits-IsDigit fuel (n / 10)) (omega arith))
]

pub decimal-IsDigit : (n : ℕ) → All IsDigit (decimal n)
unfolding decimal
decimal-IsDigit n = digits-IsDigit (suc n) n

snoc-ne-nil : (s : Bytes) (c : ℕ) → s ++ c ∷ [] ≢ []
snoc-ne-nil [] c = cons-ne-nil c []
snoc-ne-nil (d ∷ s) c = cons-ne-nil d (s ++ c ∷ [])

pub decimal-ne-nil : (n : ℕ) → decimal n ≢ []
unfolding decimal digits
decimal-ne-nil n = ground (arith, snoc-ne-nil (digits n (n / 10)) (b'0' + n % 10))

-- A number that is not zero begins with a digit that is not zero.
abbrev pub Leads : Bytes → Type 0
Leads text = (d : ℕ) × (s : Bytes) × (text ≡ d ∷ s) × (b'1' ≤ d) × (d ≤ b'9')

Leads-append : (s t : Bytes) → Leads s → Leads (s ++ t)
Leads-append s t (d, rest, e, low, high) = (d, rest ++ t, ap (λ x. x ++ t) e, low, high)

digits-Leads : (fuel n : ℕ) → n < fuel → 1 ≤ n → Leads (digits fuel n)
unfolding digits
digits-Leads zero n h one = absurd (omega arith)
digits-Leads (suc fuel) n h one = elim (Bool-cases (ltb n 10)) [
  | inl small ↦ rw small (b'0' + n, [], refl, omega arith, ground arith)
  | inr more ↦ rw more (
      Leads-append (digits fuel (n / 10)) ((b'0' + n % 10) ∷ [])
        (digits-Leads fuel (n / 10) (ground arith) (ground arith)))
]

pub decimal-Leads : (n : ℕ) → 1 ≤ n → Leads (decimal n)
unfolding decimal
decimal-Leads n = digits-Leads (suc n) n (omega arith)
