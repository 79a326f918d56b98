-- ===== src/Base/FilePath.antt =====
-- Absolute cleaned paths of package path/filepath on a Unix system: the segments, the last one
-- first. The root is the empty list. `to_bytes` is the string that the program holds.
pub mod RoundTrip
use Prim.Native.Nat.{ℕ, ◌+◌}
use mathlib.Core.Path.{◌≡◌, refl, sym, ap, ◌∙◌}
use mathlib.Core.Logic.{◌≢◌, ◌↔◌, inl, inr}
use mathlib.Core.Bool.{Bool, true, false, ◌&&◌, ◌||◌, not}
use mathlib.Core.List.{List, [], ◌∷◌, ◌++◌, reverse, append_assoc, append-nil}
use mathlib.Core.Option.{Option, none, some}
use native.Mathlib.Omega.{arith}
use x_sticker_bot.Base.Tests.{ltb, leb, ◌==◌, if◌then◌else◌, Bool-cases}
use x_sticker_bot.Base.Text.{Bytes, codes, eq_bytes, eq_bytes_iff, has_prefix}
use x_sticker_bot.Base.Lists.{length, All, All-append}
use x_sticker_bot.Base.Dict.{Eq}

abbrev pub AbsPath : Type 0
AbsPath = List Bytes

abbrev pub slash : ℕ
slash = b'/'

abbrev pub dot : Bytes
dot = b'.' ∷ []

abbrev pub dotdot : Bytes
dotdot = b'.' ∷ b'.' ∷ []

unfoldable pub eq_path : AbsPath → AbsPath → Bool
eq_path [] [] = true
eq_path [] (t ∷ q) = false
eq_path (s ∷ p) [] = false
eq_path (s ∷ p) (t ∷ q) = eq_bytes s t && eq_path p q

pub eq_path_iff : (p q : AbsPath) → (eq_path p q ≡ true) ↔ (p ≡ q)
unfolding eq_path
eq_path_iff [] [] = ground arith
eq_path_iff [] (t ∷ q) = ground arith
eq_path_iff (s ∷ p) [] = ground arith
eq_path_iff (s ∷ p) (t ∷ q) = ground (arith, eq_bytes_iff s t, eq_path_iff p q)

instance abbrev pub path_eq : Eq AbsPath
path_eq = record { beq = eq_path; beq_iff = eq_path_iff }

-- The text up to the next slash grows in `cur`.
cut : Bytes → Bytes → List Bytes
cut [] cur = cur ∷ []
cut (c ∷ s) cur = elim (c == slash) [ true ↦ cur ∷ cut s [] | false ↦ cut s (cur ++ c ∷ []) ]

-- One round of filepath.Clean on a rooted path.
unfoldable pub push : AbsPath → Bytes → AbsPath
push p seg =
    if eq_bytes seg [] || eq_bytes seg dot
    then p
    else if eq_bytes seg dotdot
    then elim p [ [] ↦ [] | top ∷ rest ↦ rest ]
    else seg ∷ p

push_all : AbsPath → List Bytes → AbsPath
push_all p [] = p
push_all p (s ∷ ss) = push_all (push p s) ss

-- filepath.Join(p, text), where `p` is a cleaned absolute path.
unfoldable pub join : AbsPath → Bytes → AbsPath
unfolding cut push_all push
join p text = push_all p (cut text [])

-- filepath.Abs: an absolute text is cleaned; any other is joined to the working directory.
unfoldable pub abs_path : AbsPath → Bytes → AbsPath
unfolding join has_prefix
abs_path cwd text = if has_prefix text (slash ∷ []) then join [] text else join cwd text

-- filepath.Dir and filepath.Base.
unfoldable pub dir : AbsPath → AbsPath
dir [] = []
dir (s ∷ p) = p

unfoldable pub base : AbsPath → Bytes
base [] = slash ∷ []
base (s ∷ p) = s

-- Segments behind slashes.
unfoldable pub slashed : List Bytes → Bytes
slashed [] = []
slashed (s ∷ ss) = slash ∷ (s ++ slashed ss)

unfoldable pub to_bytes : AbsPath → Bytes
unfolding slashed
to_bytes [] = slash ∷ []
to_bytes (s ∷ p) = slashed (reverse (s ∷ p))

-- What filepath.Clean leaves in a path.
abbrev pub Lacks : ℕ → Bytes → Type 0
Lacks b = All (λ c. c ≢ b)

abbrev pub IsSegment : Bytes → Type 0
IsSegment s = (s ≢ []) × (s ≢ dot) × (s ≢ dotdot) × Lacks slash s

abbrev pub IsClean : AbsPath → Type 0
IsClean = All IsSegment

cut-Lacks : (s cur : Bytes) → Lacks slash cur → All (Lacks slash) (cut s cur)
unfolding cut
cut-Lacks [] cur h = (h, tt)
cut-Lacks (c ∷ s) cur h = elim (Bool-cases (c == slash)) [
  | inl e ↦ rw (e, cut) (h, cut-Lacks s [] tt)
  | inr e ↦
      rw (e, cut)
        (cut-Lacks s (cur ++ c ∷ []) (All-append (λ c. c ≢ slash) cur (c ∷ []) h (ground arith)))
]

push-IsClean : (p : AbsPath) (s : Bytes) → IsClean p → Lacks slash s → IsClean (push p s)
unfolding push
push-IsClean [] s h l = ground (arith, eq_bytes_iff s [], eq_bytes_iff s dot, eq_bytes_iff s dotdot)
push-IsClean (t ∷ p) s h l =
    ground (arith, eq_bytes_iff s [], eq_bytes_iff s dot, eq_bytes_iff s dotdot)

push_all-IsClean :
    (p : AbsPath) (ss : List Bytes) → IsClean p → All (Lacks slash) ss → IsClean (push_all p ss)
unfolding push_all
push_all-IsClean p [] h l = h
push_all-IsClean p (s ∷ ss) h l = push_all-IsClean (push p s) ss (push-IsClean p s h l.0) l.1

pub join-IsClean : (p : AbsPath) (text : Bytes) → IsClean p → IsClean (join p text)
unfolding join
join-IsClean p text h = push_all-IsClean p (cut text []) h (cut-Lacks text [] tt)

pub abs_path-IsClean : (cwd : AbsPath) (text : Bytes) → IsClean cwd → IsClean (abs_path cwd text)
unfolding abs_path
abs_path-IsClean cwd text h = elim (Bool-cases (has_prefix text (slash ∷ []))) [
  | inl e ↦ rw e (join-IsClean [] text tt)
  | inr e ↦ rw e (join-IsClean cwd text h)
]

-- A name with no slash that is no dot segment is one more segment.
cut_plain : (s cur : Bytes) → Lacks slash s → cut s cur ≡ (cur ++ s) ∷ []
unfolding cut
cut_plain [] cur h = rw append-nil
cut_plain (c ∷ s) cur h =
    ground (arith, cut_plain s (cur ++ c ∷ []) h.1, append_assoc cur (c ∷ []) s)

pub join_name : (p : AbsPath) (s : Bytes) → IsSegment s → join p s ≡ s ∷ p
unfolding join push_all push
join_name p s h =
    ground (arith, cut_plain s [] h.3, eq_bytes_iff s [], eq_bytes_iff s dot, eq_bytes_iff s dotdot)
