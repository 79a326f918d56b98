-- ===== src/Base/Text.antt =====
-- Go strings as lists of bytes, with the functions of package strings that the program calls.
use Prim.Native.Nat.{ℕ, ◌+◌, ◌-◌}
use Prim.Native.Char.{code}
use Prim.Native.String.{String}
use mathlib.Core.Path.{◌≡◌, refl}
use mathlib.Core.Logic.{◌↔◌}
use mathlib.Core.Bool.{Bool, true, false, ◌&&◌, ◌||◌}
use mathlib.Core.List.{List, [], ◌∷◌, ◌++◌, map, reverse}
use native.Mathlib.Omega.{arith}
use x_sticker_bot.Base.Tests.{leb, ◌==◌, if◌then◌else◌}
use x_sticker_bot.Base.Lists.{length, take, drop}

abbrev pub Bytes : Type 0
Bytes = List ℕ

-- The code points of a literal; these are its bytes where the text is ASCII.
abbrev pub codes : String → Bytes
codes String.[] = []
codes (String.◌∷◌ c s) = code c ∷ codes s

-- s == t on strings.
unfoldable pub eq_bytes : Bytes → Bytes → Bool
eq_bytes [] [] = true
eq_bytes [] (c ∷ t) = false
eq_bytes (c ∷ s) [] = false
eq_bytes (c ∷ s) (d ∷ t) = (c == d) && eq_bytes s t

pub eq_bytes_iff : (s t : Bytes) → (eq_bytes s t ≡ true) ↔ (s ≡ t)
unfolding eq_bytes
eq_bytes_iff [] [] = ground arith
eq_bytes_iff [] (d ∷ t) = ground arith
eq_bytes_iff (c ∷ s) [] = ground arith
eq_bytes_iff (c ∷ s) (d ∷ t) = ground (arith, eq_bytes_iff s t)

-- strings.HasPrefix and strings.TrimPrefix.
unfoldable pub has_prefix : Bytes → Bytes → Bool
has_prefix s [] = true
has_prefix [] (p ∷ ps) = false
has_prefix (c ∷ s) (p ∷ ps) = (c == p) && has_prefix s ps

unfoldable pub trim_prefix : Bytes → Bytes → Bytes
unfolding has_prefix
trim_prefix s p = if has_prefix s p then drop (length p) s else s

-- strings.HasSuffix and strings.TrimSuffix.
unfoldable pub has_suffix : Bytes → Bytes → Bool
unfolding has_prefix
has_suffix s p = has_prefix (reverse s) (reverse p)

unfoldable pub trim_suffix : Bytes → Bytes → Bytes
unfolding has_suffix
trim_suffix s p = if has_suffix s p then take (length s - length p) s else s

-- strings.Contains.
unfoldable pub contains : Bytes → Bytes → Bool
unfolding has_prefix
contains [] p = has_prefix [] p
contains (c ∷ s) p = has_prefix (c ∷ s) p || contains s p

-- The text before the first occurrence of a byte; the whole text if there is none. It is
-- `s[:strings.IndexByte(s, b)]` where the index is not -1.
unfoldable pub before_byte : ℕ → Bytes → Bytes
before_byte b [] = []
before_byte b (c ∷ s) = elim (c == b) [ true ↦ [] | false ↦ c ∷ before_byte b s ]

unfoldable pub contains_byte : ℕ → Bytes → Bool
contains_byte b [] = false
contains_byte b (c ∷ s) = (c == b) || contains_byte b s

-- strings.ToLower on ASCII.
unfoldable pub lower_byte : ℕ → ℕ
lower_byte c = if leb b'A' c && leb c b'Z' then c + 32 else c

unfoldable pub to_lower : Bytes → Bytes
unfolding lower_byte
to_lower s = map lower_byte s

pub has_prefix-append : (p s : Bytes) → has_prefix (p ++ s) p ≡ true
unfolding has_prefix
has_prefix-append [] s = refl
has_prefix-append (c ∷ p) s = ground (arith, has_prefix-append p s)

-- What `has_prefix` finds is the prefix, and `trim_prefix` leaves the rest.
pub has_prefix-trim : (s p : Bytes) → has_prefix s p ≡ true → s ≡ p ++ trim_prefix s p
unfolding trim_prefix
has_prefix-trim s p h = ground (arith, has_prefix-drop s p h)
  where
    has_prefix-drop : (s p : Bytes) → has_prefix s p ≡ true → s ≡ p ++ drop (length p) s
    has_prefix-drop s [] h = refl
    has_prefix-drop [] (c ∷ p) h = cc
    has_prefix-drop (d ∷ s) (c ∷ p) h = ground (arith, has_prefix-drop s p)
