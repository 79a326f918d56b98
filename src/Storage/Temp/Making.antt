-- ===== src/Storage/Temp/Making.antt =====
-- What os.MkdirAll makes.
use x_sticker_bot.Base.{
  ℕ, ◌<◌, ◌≡◌, ◌≢◌, refl, ap, true, some, List, [], ◌∷◌, arith, length, lookup, insert,
  lookup-insert, Option-cases, inl, inr,
}
use x_sticker_bot.Base.FilePath.{AbsPath, path_eq, eq_path_iff}
use x_sticker_bot.Storage.Temp.{Node, Fs, Sys, mkdir_all}

-- Every directory on the way is there.
abbrev pub Rooted : Fs → AbsPath → Type 0
Rooted fs [] = Unit
Rooted fs (s ∷ p) =
    ((node : Node) × (lookup (s ∷ p) fs ≡ some node) × (node.is_dir ≡ true)) × Rooted fs p

-- A longer path is no part of the way.
pub insert-Rooted :
    (fs : Fs) (p k : AbsPath) (node : Node)
    → length p < length k
    → Rooted fs p
    → Rooted (insert k node fs) p
insert-Rooted fs [] k node h r = tt
insert-Rooted fs (s ∷ p) k node h ((there, at, d), rest) =
    let other : k ≢ s ∷ p = λ e. ground (arith, ap length e) in
    (
      (there, ground (arith, lookup-insert k (s ∷ p) node fs, eq_path_iff k (s ∷ p)), d),
      insert-Rooted fs p k node (omega arith) rest,
    )

pub mkdir_all-Rooted :
    (sys : Sys) (fs : Fs) (now : ℕ) (p : AbsPath) → Rooted fs p → mkdir_all sys fs now p ≡ some fs
unfolding mkdir_all
mkdir_all-Rooted sys fs now [] r = refl
mkdir_all-Rooted sys fs now (s ∷ p) ((node, at, d), rest) =
    rw (mkdir_all-Rooted sys fs now p rest, at, d) refl

-- Below a directory that is there, one directory is made and nothing else changes.
pub mkdir_child :
    (sys : Sys) (fs fs' : Fs) (now : ℕ) (x : List ℕ) (p q : AbsPath)
    → Rooted fs p
    → mkdir_all sys fs now (x ∷ p) ≡ some fs'
    → q ≢ x ∷ p
    → lookup q fs' ≡ lookup q fs
unfolding mkdir_all
mkdir_child sys fs fs' now x p q rooted made other = elim (Option-cases (lookup (x ∷ p) fs)) [
  | inl new ↦ ground (
    arith,
    mkdir_all-Rooted sys fs now p rooted,
    new,
    lookup-insert (x ∷ p) q (record { is_dir = true; mod_time = now }) fs,
    eq_path_iff (x ∷ p) q,
  )
  | inr (node, old) ↦ ground (arith, mkdir_all-Rooted sys fs now p rooted, old)
]
