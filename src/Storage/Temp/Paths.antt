-- ===== src/Storage/Temp/Paths.antt =====
-- SafePath accepts exactly the paths inside the base directory.
use mathlib.Core.List.{reverse, reverse-append, reverse-reverse}
use x_sticker_bot.Base.{
  ◌≡◌, ◌≢◌, ◌↔◌, ◌⊎◌, inl, inr, refl, ap, subst, true, false, some, List, [], ◌∷◌, ◌++◌, arith,
  length, replicate, Bytes, eq_bytes, eq_bytes_iff, Bool-cases, Option-cases,
}
use x_sticker_bot.Base.FilePath.{
  AbsPath, dotdot, IsSegment, IsClean, slashed, eq_path, eq_path_iff, abs_path, abs_path-IsClean,
}
use x_sticker_bot.Base.FilePath.RoundTrip.{IsClean-reverse}
use x_sticker_bot.Storage.Temp.{
  under, Sys, TempManager, resolve, rel_segments, rel_path, escapes, safe_path,
}

-- The path goes on below the base, or the relative path starts with `..`.
rel_segments-cases :
    (bs ts : List Bytes)
    → ((rs : List Bytes) × (ts ≡ bs ++ rs) × (rel_segments bs ts ≡ rs))
      ⊎ ((rs : List Bytes) × (rel_segments bs ts ≡ dotdot ∷ rs) × ((q : List Bytes) → ts ≢ bs ++ q))
unfolding rel_segments
rel_segments-cases [] ts = inl (ts, refl, refl)
rel_segments-cases (b ∷ bs) [] = inr (replicate (length bs) dotdot, refl, λ q e. cc)
rel_segments-cases (b ∷ bs) (t ∷ ts) = elim (Bool-cases (eq_bytes b t)) [
  | inr apart ↦ inr (
    replicate (length bs) dotdot ++ (t ∷ ts),
    ground arith,
    λ q e. ground (arith, eq_bytes_iff b t),
  )
  | inl same ↦ elim (rel_segments-cases bs ts) [
    | inl (rs, e, r) ↦ inl (rs, ground (arith, eq_bytes_iff b t), ground arith)
    | inr (rs, r, n) ↦ inr (rs, ground arith, λ q e. n q (cc))
  ]
]

escapes-dotdot : (rs : List Bytes) → escapes (dotdot ++ slashed rs) ≡ true
unfolding escapes slashed
escapes-dotdot [] = refl
escapes-dotdot (r ∷ rs) = refl

-- A segment that is not `..`, followed by nothing or a slash, does not escape.
escapes-segment : (s : Bytes) (rs : List Bytes) → IsSegment s → escapes (s ++ slashed rs) ≡ false
unfolding escapes slashed
escapes-segment [] rs h = absurd (h.0 refl)
escapes-segment (a ∷ []) [] h = refl
escapes-segment (a ∷ []) (([]) ∷ []) h = ground arith
escapes-segment (a ∷ []) (([]) ∷ (r ∷ rs)) h = ground arith
escapes-segment (a ∷ []) ((c ∷ r) ∷ rs) h = ground arith
escapes-segment (a ∷ b ∷ []) [] h = ground (arith, h.2)
escapes-segment (a ∷ b ∷ []) (r ∷ rs) h = ground (arith, h.2)
escapes-segment (a ∷ b ∷ c ∷ s) rs h = ground (arith, h.3.1.1.0)

-- `under` is the order of the paths.
pub under-append : (p q : AbsPath) → under p (q ++ p) ≡ true
unfolding under
under-append [] [] = ground (arith, eq_path_iff [] [])
under-append (s ∷ p) [] = ground (arith, eq_path_iff (s ∷ p) (s ∷ p))
under-append p (s ∷ q) = ground (arith, under-append p q)

pub under-split : (p q : AbsPath) → under p q ≡ true → (r : AbsPath) × (q ≡ r ++ p)
unfolding under
under-split p [] h = ([], ground (arith, eq_path_iff p []))
under-split p (s ∷ q) h = elim (Bool-cases (eq_path p (s ∷ q))) [
  | inl same ↦ ([], ground (arith, eq_path_iff p (s ∷ q)))
  | inr below ↦ let (r, e) = under-split p q (ground arith) in (s ∷ r, ap (λ l. s ∷ l) e)
]

reverse-split :
    (b r : AbsPath) (rs : List Bytes) → reverse r ≡ reverse b ++ rs → r ≡ reverse rs ++ b
reverse-split b r rs e =
    cc (reverse-reverse r, reverse-reverse b, ap reverse e, reverse-append (reverse b) rs)

split-All : (xs ys : List Bytes) → IsClean (xs ++ ys) → IsClean ys
split-All [] ys h = h
split-All (x ∷ xs) ys h = split-All xs ys h.1

rel_path-escapes :
    (b p : AbsPath)
    → IsClean b
    → IsClean p
    → ((escapes (rel_path b p) ≡ false) × (under b p ≡ true))
      ⊎ ((escapes (rel_path b p) ≡ true) × (under b p ≡ false))
unfolding rel_path
rel_path-escapes b p cb cp = elim (rel_segments-cases (reverse b) (reverse p)) [
  | inl (rs, e, r) ↦ inl (
    inner rs r (split-All (reverse b) rs (subst IsClean e (IsClean-reverse p cp))),
    rw (reverse-split b p rs e) (under-append b (reverse rs)),
  )
  | inr (rs, r, n) ↦ inr (
    rw (r, rel_path) (escapes-dotdot rs),
    elim (Bool-cases (under b p)) [
      | inr out ↦ out
      | inl inside ↦
          let (q, e) = under-split b p inside in
          absurd (n (reverse q) (cc (ap reverse e, reverse-append q b)))
    ],
  )
]
  where
    inner :
        (rs : List Bytes)
        → rel_segments (reverse b) (reverse p) ≡ rs
        → IsClean rs
        → escapes (rel_path b p) ≡ false
    inner [] r c = rw (r, rel_path) (unfold escapes in refl)
    inner (s ∷ ss) r c = rw (r, rel_path) (escapes-segment s ss c.0)

-- The working directory, where there is one, is a cleaned path.
abbrev pub HasCleanCwd : Sys → Type 0
HasCleanCwd sys = (here : AbsPath) → sys.cwd ≡ some here → IsClean here

pub resolve-IsClean :
    (sys : Sys) (text : Bytes) (p : AbsPath)
    → HasCleanCwd sys
    → resolve sys text ≡ some p
    → IsClean p
unfolding resolve
resolve-IsClean sys text p clean h = elim (Option-cases sys.cwd) [
  | inl gone ↦
      let e : abs_path [] text ≡ p = ground arith in subst IsClean e (abs_path-IsClean [] text tt)
  | inr (here, e) ↦ subst IsClean (ground arith) (abs_path-IsClean here text (clean here e))
]

-- SafePath returns the absolute form of its input exactly when that is the base directory or lies
-- below it; a path that leaves the base directory is refused.
pub safe_path_lem :
    (sys : Sys) (tm : TempManager) (text : Bytes) (p : AbsPath)
    → HasCleanCwd sys
    → IsClean tm.base_dir
    → (safe_path sys tm text ≡ some p)
      ↔ ((resolve sys text ≡ some p) × (under tm.base_dir p ≡ true))
unfolding safe_path
safe_path_lem sys tm text p cwd cb = elim (Option-cases (resolve sys text)) [
  | inl none' ↦ ground arith
  | inr (abs, e) ↦
      ground (arith, rel_path-escapes tm.base_dir abs cb (resolve-IsClean sys text abs cwd e))
]
