-- ===== src/Command/Services/Keeping.antt =====
-- Which changes stay below a directory.
use x_sticker_bot.Base.{
  ℕ, ◌≤◌, ◌≡◌, ◌≢◌, refl, ap, ◌∙◌, true, false, [], ◌∷◌, ◌++◌, arith, length, Bytes, All-append,
  Bool-cases, inl, inr,
}
use x_sticker_bot.Base.FilePath.{AbsPath, path_eq, eq_path, eq_path_iff, IsSegment, Lacks, slash}
use x_sticker_bot.Storage.Temp.{Fs, under}
use x_sticker_bot.Command.Services.{within, Keeps}

pub under_refl : (p : AbsPath) → under p p ≡ true
unfolding under
under_refl [] = ground (arith, eq_path_iff [] [])
under_refl (s ∷ p) = ground (arith, eq_path_iff (s ∷ p) (s ∷ p))

pub under-within : (p q : AbsPath) → within p q ≡ true → under p q ≡ true
unfolding within under
under-within p [] h = absurd (cc h)
under-within p (s ∷ q) h = ground arith

under_child : (x : Bytes) (p q : AbsPath) → under (x ∷ p) q ≡ true → within p q ≡ true
unfolding within under
under_child x p [] h = absurd (ground (arith, eq_path_iff (x ∷ p) []))
under_child x p (s ∷ q) h = elim (Bool-cases (eq_path (x ∷ p) (s ∷ q))) [
  | inl e ↦ ground (arith, under_refl p, eq_path_iff (x ∷ p) (s ∷ q))
  | inr e ↦ under-within p q (under_child x p q (ground arith))
]

pub within_child : (x : Bytes) (p q : AbsPath) → within (x ∷ p) q ≡ true → within p q ≡ true
unfolding within
within_child x p [] h = absurd (cc h)
within_child x p (s ∷ q) h = under-within p q (under_child x p q h)

pub within_self : (x : Bytes) (p : AbsPath) → within p (x ∷ p) ≡ true
unfolding within
within_self x p = under_refl p

under-length : (p q : AbsPath) → under p q ≡ true → length p ≤ length q
unfolding under
under-length p [] h = ground (arith, ap length ((eq_path_iff p []).0 h))
under-length p (s ∷ q) h = elim (Bool-cases (eq_path p (s ∷ q))) [
  | inl e ↦ omega (arith, ap length ((eq_path_iff p (s ∷ q)).0 e))
  | inr e ↦ omega (arith, under-length p q (ground arith))
]

pub within_irrefl : (p : AbsPath) → within p p ≡ false
unfolding within
within_irrefl [] = refl
within_irrefl (s ∷ p) = elim (Bool-cases (under (s ∷ p) p)) [
  | inl e ↦ absurd (omega (arith, under-length (s ∷ p) p e))
  | inr e ↦ e
]

pub Keeps-trans :
    (p : AbsPath) (fs fs' fs'' : Fs) → Keeps p fs fs' → Keeps p fs' fs'' → Keeps p fs fs''
Keeps-trans p fs fs' fs'' h k q out = k q out ∙ h q out

pub Keeps-child : (x : Bytes) (p : AbsPath) (fs fs' : Fs) → Keeps (x ∷ p) fs fs' → Keeps p fs fs'
Keeps-child x p fs fs' h q out = h q (ground (arith, within_child x p q))

append-ne-nil : (a b : Bytes) (c : ℕ) → a ++ c ∷ b ≢ []
append-ne-nil [] b c e = cc e
append-ne-nil (x ∷ a) b c e = cc e

-- A name with a byte that is neither dot nor slash is a segment.
pub mixed :
    (a b : Bytes) (c : ℕ)
    → c ≢ b'.'
    → c ≢ slash
    → Lacks slash a
    → Lacks slash b
    → IsSegment (a ++ c ∷ b)
mixed [] b c plain part ha hb = (ground arith, ground arith, ground arith, (part, hb))
mixed (x ∷ []) b c plain part ha hb = (ground arith, ground arith, ground arith, (ha.0, (part, hb)))
mixed (x ∷ y ∷ a) b c plain part ha hb = (
  ground arith,
  ground arith,
  ground (arith, append-ne-nil a b c),
  (ha.0, (ha.1.0, All-append (λ d. d ≢ slash) a (c ∷ b) ha.1.1 (part, hb))),
)
