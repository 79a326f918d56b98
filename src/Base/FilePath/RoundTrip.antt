-- ===== src/Base/FilePath/RoundTrip.antt =====
-- The text of a cleaned path is read back to the path.
use x_sticker_bot.Base.Text.{Bytes, eq_bytes, eq_bytes_iff, has_prefix}
use x_sticker_bot.Base.Lists.{All-append}
use mathlib.Core.Path.{◌≡◌, refl, ap}
use mathlib.Core.Logic.{◌≢◌}
use mathlib.Core.Bool.{true}
use mathlib.Core.List.{
  List, [], ◌∷◌, ◌++◌, reverse, append_assoc, append-nil, reverse-reverse, reverse-cons,
}
use native.Mathlib.Omega.{arith}
use x_sticker_bot.Base.FilePath.{
  AbsPath, slash, dot, dotdot, cut, push, push_all, join, abs_path, slashed, to_bytes, Lacks,
  IsSegment, IsClean,
}

cut-append : (s r cur : Bytes) → Lacks slash s → cut (s ++ r) cur ≡ cut r (cur ++ s)
unfolding cut
cut-append [] r cur h = rw append-nil
cut-append (c ∷ s) r cur h =
    ground (arith, cut-append s r (cur ++ c ∷ []), append_assoc cur (c ∷ []) s)

cut-slashed : (ss : List Bytes) (cur : Bytes) → IsClean ss → cut (slashed ss) cur ≡ cur ∷ ss
unfolding cut slashed
cut-slashed [] cur h = refl
cut-slashed (s ∷ ss) cur h =
    ground (arith, cut-append s (slashed ss) [] h.0.3, cut-slashed ss s h.1)

push_segment : (p : AbsPath) (s : Bytes) → IsSegment s → push p s ≡ s ∷ p
unfolding push
push_segment p s h = ground (arith, eq_bytes_iff s [], eq_bytes_iff s dot, eq_bytes_iff s dotdot)

push_all-reverse : (ss : List Bytes) (p : AbsPath) → IsClean ss → push_all p ss ≡ reverse ss ++ p
unfolding push_all
push_all-reverse [] p h = refl
push_all-reverse (s ∷ ss) p h =
    rw (push_segment p s h.0, push_all-reverse ss (s ∷ p) h.1, reverse-cons s ss, append_assoc)

push_nil : (p : AbsPath) → push p [] ≡ p
unfolding push eq_bytes
push_nil p = refl

pub IsClean-reverse : (ss : List Bytes) → IsClean ss → IsClean (reverse ss)
IsClean-reverse [] h = tt
IsClean-reverse (s ∷ ss) h =
    rw (reverse-cons s ss)
      (All-append IsSegment (reverse ss) (s ∷ []) (IsClean-reverse ss h.1) (h.0, tt))

join-slashed : (ss : List Bytes) → IsClean ss → join [] (slashed ss) ≡ reverse ss
unfolding join push_all
join-slashed ss h = rw (cut-slashed ss [] h, push_nil, push_all-reverse ss [] h, append-nil)

has_prefix-nil : (s : Bytes) → has_prefix s [] ≡ true
unfolding has_prefix
has_prefix-nil [] = refl
has_prefix-nil (c ∷ s) = refl

slashed-rooted : (ss : List Bytes) → ss ≢ [] → has_prefix (slashed ss) (slash ∷ []) ≡ true
unfolding has_prefix slashed
slashed-rooted [] n = absurd (n refl)
slashed-rooted (s ∷ ss) n = ground (arith, has_prefix-nil (s ++ slashed ss))

reverse-ne-nil : (s : Bytes) (p : AbsPath) → reverse (s ∷ p) ≢ []
reverse-ne-nil s p e = cc (reverse-reverse (s ∷ p), ap reverse e)

-- filepath.Abs of the text of a cleaned absolute path is that path.
pub abs_path-to_bytes : (cwd p : AbsPath) → IsClean p → abs_path cwd (to_bytes p) ≡ p
unfolding abs_path to_bytes
abs_path-to_bytes cwd [] h = unfold join push_all push eq_bytes cut has_prefix in refl
abs_path-to_bytes cwd (s ∷ p) h = rw (
  slashed-rooted (reverse (s ∷ p)) (reverse-ne-nil s p),
  join-slashed (reverse (s ∷ p)) (IsClean-reverse (s ∷ p) h),
  reverse-reverse (s ∷ p),
)

-- Such a text begins with a slash.
pub to_bytes-rooted : (p : AbsPath) → has_prefix (to_bytes p) (slash ∷ []) ≡ true
unfolding to_bytes has_prefix
to_bytes-rooted [] = refl
to_bytes-rooted (s ∷ p) = slashed-rooted (reverse (s ∷ p)) (reverse-ne-nil s p)
