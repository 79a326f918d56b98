-- ===== src/Storage/Temp/Cleaning.antt =====
-- What CleanUserDir and PurgeOutdated remove, and what they leave.
use x_sticker_bot.Base.{
  ℕ, ◌<◌, ◌≡◌, refl, ap, subst, ◌∙◌, inl, inr, true, false, none, some, List, [], ◌∷◌, arith,
  if◌then◌else◌, All, Bytes, lookup, insert, lookup-insert, length, Option-cases,
}
use x_sticker_bot.Base.FilePath.{
  AbsPath, IsClean, eq_path_iff, path_eq, join_name, dir, base, to_bytes,
}
use x_sticker_bot.Base.FilePath.RoundTrip.{abs_path-to_bytes, to_bytes-rooted}
use x_sticker_bot.Base.Int.{pos}
use x_sticker_bot.Storage.Temp.{
  Node, Fs, under, Sys, TempManager, new_dir_name, user_dir_name, create_user_dir, resolve,
  safe_path, check_managed, managed_user_dir, erase_under, remove_all, clean_user_dir,
}
use x_sticker_bot.Storage.Temp.Names.{user_dir_name-new, user_dir_name-IsSegment}
use x_sticker_bot.Storage.Temp.Paths.{HasCleanCwd, safe_path_lem, under-append}

pub lookup-erase_under :
    (p q : AbsPath) (fs : Fs)
    → lookup q (erase_under p fs) ≡ (if under p q then none else lookup q fs)
unfolding erase_under lookup
lookup-erase_under p q [] = ground arith
lookup-erase_under p q ((r, node) ∷ fs) = ground (arith, eq_path_iff r q, lookup-erase_under p q fs)

-- RemoveAll leaves everything outside its argument, also when it fails.
pub remove_all-outside :
    (sys : Sys) (fs : Fs) (p q : AbsPath)
    → under p q ≡ false
    → lookup q (remove_all sys fs p).1 ≡ lookup q fs
unfolding remove_all
remove_all-outside sys fs p q h =
    ground (arith, sys.partial_outside p q fs h, lookup-erase_under p q fs)

pub remove_all_lem :
    (sys : Sys) (fs : Fs) (p q : AbsPath)
    → sys.remove_fails p ≡ false
    → lookup q (remove_all sys fs p).1 ≡ (if under p q then none else lookup q fs)
unfolding remove_all
remove_all_lem sys fs p q fine = ground (arith, lookup-erase_under p q fs)

-- A managed directory is a directory right below the base, with a name of the pattern.
abbrev pub Managed : Fs → TempManager → AbsPath → Type 0
Managed fs tm p =
    (name : Bytes) × (node : Node) × (p ≡ name ∷ tm.base_dir)
    × (user_dir_name name ≡ true)
    × (lookup p fs ≡ some node)
    × (node.is_dir ≡ true)

check_managed-Managed :
    (fs : Fs) (tm : TempManager) (path p : AbsPath)
    → check_managed fs tm path ≡ some p
    → Managed fs tm p
unfolding check_managed dir base user_dir_name
check_managed-Managed fs tm [] p h = absurd (ground arith)
check_managed-Managed fs tm (name ∷ rest) p h = elim (Option-cases (lookup (name ∷ rest) fs)) [
  | inl gone ↦ absurd (ground arith)
  | inr (node, e) ↦ (
    name,
    node,
    ground (arith, eq_path_iff rest tm.base_dir),
    ground arith,
    ground arith,
    ground arith,
  )
]

managed_user_dir-Managed :
    (sys : Sys) (fs : Fs) (tm : TempManager) (text : Bytes) (p : AbsPath)
    → managed_user_dir sys fs tm text ≡ some p
    → Managed fs tm p
unfolding managed_user_dir
managed_user_dir-Managed sys fs tm text p h = elim (Option-cases (safe_path sys tm text)) [
  | inl refused ↦ absurd (ground arith)
  | inr (path, e) ↦ check_managed-Managed fs tm path p (ground arith)
]

-- No managed name leads from the base directory to `q`.
abbrev pub Unmanaged : TempManager → AbsPath → Type 0
Unmanaged tm q = (name : Bytes) → user_dir_name name ≡ true → under (name ∷ tm.base_dir) q ≡ false

-- On any input and whatever the system does, CleanUserDir leaves every path that is not at or below
-- a managed name in the base directory as it is.
pub clean_user_dir_frame :
    (sys : Sys) (fs : Fs) (tm : TempManager) (text : Bytes) (q : AbsPath)
    → Unmanaged tm q
    → lookup q (clean_user_dir sys fs tm text).1 ≡ lookup q fs
unfolding clean_user_dir
clean_user_dir_frame sys fs tm text q u = elim (Option-cases (managed_user_dir sys fs tm text)) [
  | inl refused ↦ rw (refused, clean_user_dir) refl
  | inr (p, e) ↦
      let m = managed_user_dir-Managed sys fs tm text p e in
      rw (e, clean_user_dir) (remove_all-outside sys fs p q (rw m.2 (u m.0 m.3)))
]

managed_user_dir-resolve :
    (sys : Sys) (fs : Fs) (tm : TempManager) (text : Bytes) (p : AbsPath)
    → managed_user_dir sys fs tm text ≡ some p
    → resolve sys text ≡ some p
unfolding managed_user_dir safe_path check_managed
managed_user_dir-resolve sys fs tm text p h = ground arith

-- If CleanUserDir succeeds, the absolute form of its input is a managed directory, of which nothing
-- is left at or below it, and every other path keeps its file.
pub clean_user_dir_lem :
    (sys : Sys) (fs : Fs) (tm : TempManager) (text : Bytes)
    → (clean_user_dir sys fs tm text).0 ≡ true
    → (p : AbsPath) × (resolve sys text ≡ some p)
      × Managed fs tm p
      × ((q : AbsPath)
          → lookup q (clean_user_dir sys fs tm text).1 ≡ (if under p q then none else lookup q fs))
unfolding clean_user_dir remove_all
clean_user_dir_lem sys fs tm text ok = elim (Option-cases (managed_user_dir sys fs tm text)) [
  | inl refused ↦ absurd (ground arith)
  | inr (p, e) ↦
      let m = managed_user_dir-Managed sys fs tm text p e in
      let fine : (remove_all sys fs p).0 ≡ true = ground arith in
      rw (e, clean_user_dir)
        (p, managed_user_dir-resolve sys fs tm text p e, m, λ q. removed p q fine)
]
  where
    removed :
        (p q : AbsPath)
        → (remove_all sys fs p).0 ≡ true
        → lookup q (remove_all sys fs p).1 ≡ (if under p q then none else lookup q fs)
    removed p q h = ground (arith, lookup-erase_under p q fs)

resolve-to_bytes : (sys : Sys) (p : AbsPath) → IsClean p → resolve sys (to_bytes p) ≡ some p
unfolding resolve
resolve-to_bytes sys p c = elim (Option-cases sys.cwd) [
  | inl gone ↦ ground (arith, to_bytes-rooted p, abs_path-to_bytes [] p c)
  | inr (here, e) ↦ ground (arith, abs_path-to_bytes here p c)
]

managed_child :
    (sys : Sys) (fs : Fs) (tm : TempManager) (name : Bytes) (node : Node)
    → HasCleanCwd sys
    → IsClean tm.base_dir
    → user_dir_name name ≡ true
    → lookup (name ∷ tm.base_dir) fs ≡ some node
    → node.is_dir ≡ true
    → managed_user_dir sys fs tm (to_bytes (name ∷ tm.base_dir)) ≡ some (name ∷ tm.base_dir)
unfolding managed_user_dir check_managed dir base
managed_child sys fs tm name node cwd cb u at d =
    let p = name ∷ tm.base_dir in
    let clean : IsClean p = (user_dir_name-IsSegment name u, cb) in
    let safe =
      (safe_path_lem sys tm (to_bytes p) p cwd cb).1
        (resolve-to_bytes sys p clean, under-append tm.base_dir (name ∷ [])) in
    ground (arith, safe, eq_path_iff tm.base_dir tm.base_dir)

-- CleanUserDir removes a directory with a managed name, whatever lies below it.
pub clean_managed :
    (sys : Sys) (fs : Fs) (tm : TempManager) (name : Bytes) (node : Node)
    → HasCleanCwd sys
    → IsClean tm.base_dir
    → user_dir_name name ≡ true
    → lookup (name ∷ tm.base_dir) fs ≡ some node
    → node.is_dir ≡ true
    → sys.remove_fails (name ∷ tm.base_dir) ≡ false
    → clean_user_dir sys fs tm (to_bytes (name ∷ tm.base_dir))
      ≡ (true, erase_under (name ∷ tm.base_dir) fs)
unfolding clean_user_dir remove_all
clean_managed sys fs tm name node cwd cb u at d fine =
    ground (arith, managed_child sys fs tm name node cwd cb u at d)

pub lookup-insert_same :
    (p : AbsPath) (node : Node) (fs : Fs) → lookup p (insert p node fs) ≡ some node
lookup-insert_same p node fs = ground (arith, lookup-insert p p node fs, eq_path_iff p p)

-- What CreateUserDir makes: a directory with a managed name right below the base.
pub create_user_dir_lem :
    (sys : Sys) (fs fs' : Fs) (now : ℕ) (tm : TempManager) (n : ℕ) (rand : List ℕ) (p : AbsPath)
    → length rand ≡ 8
    → All (λ b. b < 256) rand
    → create_user_dir sys fs now tm (pos n) (some rand) ≡ some (p, fs')
    → (name : Bytes) × (p ≡ name ∷ tm.base_dir)
      × (user_dir_name name ≡ true)
      × (fs' ≡ insert p (record { is_dir = true; mod_time = now }) fs)
unfolding create_user_dir
create_user_dir_lem sys fs fs' now tm n rand p l h made =
    let name = new_dir_name (pos n) rand in
    let u = user_dir_name-new (pos n) rand l h in
    let j = join_name tm.base_dir name (user_dir_name-IsSegment name u) in
    (name, ground (arith, j), u, ground (arith, j))

-- A directory that CreateUserDir has made for a uid that is not negative is accepted by
-- CleanUserDir under the text that CreateUserDir returned, and is removed with what lies below it.
pub clean-create :
    (sys : Sys) (fs fs' : Fs) (now : ℕ) (tm : TempManager) (n : ℕ) (rand : List ℕ) (p : AbsPath)
    → HasCleanCwd sys
    → IsClean tm.base_dir
    → length rand ≡ 8
    → All (λ b. b < 256) rand
    → create_user_dir sys fs now tm (pos n) (some rand) ≡ some (p, fs')
    → sys.remove_fails p ≡ false
    → clean_user_dir sys fs' tm (to_bytes p) ≡ (true, erase_under p fs')
clean-create sys fs fs' now tm n rand p cwd cb l h made fine =
    let (name, path, u, stored) = create_user_dir_lem sys fs fs' now tm n rand p l h made in
    let node : Node = record { is_dir = true; mod_time = now } in
    let at = ap (lookup p) stored ∙ lookup-insert_same p node fs in
    rw path (
      clean_managed sys fs' tm name node cwd cb u (subst (λ x. lookup x fs' ≡ some node) path at)
        refl (subst (λ x. sys.remove_fails x ≡ false) path fine))
