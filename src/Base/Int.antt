-- ===== src/Base/Int.antt =====
-- Integers, and strconv.Atoi on an int of 64 bits (ParseInt in base 10 is the same).
use Prim.Native.Nat.{ℕ, zero, suc, ◌-◌, ◌^◌}
use mathlib.Core.Path.{◌≡◌, refl}
use mathlib.Core.Bool.{Bool, true, ◌&&◌, not}
use mathlib.Core.List.{[], ◌∷◌}
use mathlib.Core.Option.{Option, none, some}
use native.Mathlib.Omega.{arith}
use x_sticker_bot.Base.Tests.{leb, ◌==◌, if◌then◌else◌}
use x_sticker_bot.Base.Text.{Bytes, eq_bytes}
use x_sticker_bot.Base.Decimal.{value, IsDigit}
use x_sticker_bot.Base.Lists.{All}

-- `negsuc n` is -(n + 1).
pub data ℤ : Type 0 where
  pos : ℕ → ℤ
  negsuc : ℕ → ℤ

pub all_digits : Bytes → Bool
all_digits [] = true
all_digits (c ∷ s) = (leb b'0' c && leb c b'9') && all_digits s

-- The value of a text of digits, if it is at most `limit`.
unfoldable pub unsigned : Bytes → ℕ → Option ℕ
unfolding all_digits
unsigned s limit =
    if (not (eq_bytes s []) && all_digits s) && leb (value 0 s) limit
    then some (value 0 s)
    else none

abbrev pub negated : Option ℕ → Option ℤ
negated none = none
negated (some zero) = some (pos zero)
negated (some (suc n)) = some (negsuc n)

abbrev pub positive : Option ℕ → Option ℤ
positive none = none
positive (some n) = some (pos n)

unfoldable pub atoi : Bytes → Option ℤ
unfolding unsigned
atoi [] = none
atoi (c ∷ s) =
    if c == b'-'
    then negated (unsigned s (2 ^ 63))
    else if c == b'+'
    then positive (unsigned s (2 ^ 63 - 1))
    else positive (unsigned (c ∷ s) (2 ^ 63 - 1))

pub all_digits-All : (s : Bytes) → All IsDigit s → all_digits s ≡ true
unfolding all_digits
all_digits-All [] h = refl
all_digits-All (c ∷ s) h = ground (arith, all_digits-All s h.1, h.0)
