-- ===== src/Storage/Temp.antt =====
-- TempManager of internal/storage/tempfile.go over a file system of paths. Times are numbers; what
-- the system may refuse is the record `Sys`.
pub mod Names
pub mod Paths
pub mod Cleaning
pub mod Making
pub mod Purging
pub mod AutoClean
use x_sticker_bot.Base.{
  ℕ, zero, suc, ◌+◌, ◌-◌, ◌*◌, ◌/◌, ◌%◌, ◌≡◌, Bool, true, false, ◌&&◌, ◌||◌, not, Option, none,
  some, List, [], ◌∷◌, ◌++◌, if◌then◌else◌, ltb, leb, ◌==◌, length, replicate, Bytes, codes,
  eq_bytes, has_prefix, lookup, insert,
}
use mathlib.Core.List.{reverse}
use x_sticker_bot.Base.Decimal.{decimal}
use x_sticker_bot.Base.Int.{ℤ, pos, negsuc}
use x_sticker_bot.Base.FilePath.{
  AbsPath, slash, dotdot, dot, eq_path, path_eq, abs_path, join, dir, base, slashed,
}

pub record Node : Type 0 where
  pub is_dir : Bool
  pub mod_time : ℕ

abbrev pub Fs : Type 0
Fs = List (AbsPath × Node)

-- Whether `q` is `p` or lies below it.
unfoldable pub under : AbsPath → AbsPath → Bool
under p [] = eq_path p []
under p (s ∷ q) = eq_path p (s ∷ q) || under p q

pub record Sys : Type 0 where
  -- os.Getwd, where it succeeds
  pub cwd : Option AbsPath
  pub mkdir_fails : AbsPath → Bool
  pub read_dir_fails : AbsPath → Bool
  pub info_fails : AbsPath → Bool
  pub remove_fails : AbsPath → Bool
  -- What a failed os.RemoveAll leaves; it touches nothing outside its argument.
  pub partial_remove : AbsPath → Fs → Fs
  pub partial_outside :
      (p q : AbsPath) (fs : Fs) → under p q ≡ false → lookup q (partial_remove p fs) ≡ lookup q fs

pub record TempManager : Type 0 where
  pub base_dir : AbsPath

-- A uid is an int64.
unfoldable pub decimal_int : ℤ → Bytes
decimal_int (pos n) = decimal n
decimal_int (negsuc n) = b'-' ∷ decimal (n + 1)

-- encoding/hex.
unfoldable pub hex_digit : ℕ → ℕ
hex_digit n = if ltb n 10 then b'0' + n else b'a' + (n - 10)

unfoldable pub hex_encode : List ℕ → Bytes
unfolding hex_digit
hex_encode [] = []
hex_encode (b ∷ bs) = hex_digit (b / 16) ∷ hex_digit (b % 16) ∷ hex_encode bs

abbrev pub is_digit : ℕ → Bool
is_digit c = leb b'0' c && leb c b'9'

abbrev pub is_hex : ℕ → Bool
is_hex c = is_digit c || (leb b'a' c && leb c b'f')

-- `[0-9a-f]{n}$`
pub match_hex : ℕ → Bytes → Bool
match_hex zero [] = true
match_hex zero (c ∷ s) = false
match_hex (suc n) [] = false
match_hex (suc n) (c ∷ s) = is_hex c && match_hex n s

-- `[0-9]*_[0-9a-f]{16}$`
pub match_digits : Bytes → Bool
match_digits [] = false
match_digits (c ∷ s) =
    let more = match_digits s in if is_digit c then more else ((c == b'_') && match_hex 16 s)

-- userDirName: `^[0-9]+_[0-9a-f]{16}$`
unfoldable pub user_dir_name : Bytes → Bool
user_dir_name [] = false
user_dir_name (c ∷ s) = is_digit c && match_digits s

-- os.MkdirAll: the ancestors first; a file in the way is an error.
unfoldable pub mkdir_all : Sys → Fs → ℕ → AbsPath → Option Fs
mkdir_all sys fs now [] = some fs
mkdir_all sys fs now (s ∷ p) = elim (mkdir_all sys fs now p) [
  | none ↦ none
  | some fs' ↦ elim (lookup (s ∷ p) fs') [
    | some node ↦ if node.is_dir then some fs' else none
    | none ↦
        if sys.mkdir_fails (s ∷ p)
        then none
        else some (insert (s ∷ p) (record { is_dir = true; mod_time = now }) fs')
  ]
]

-- filepath.Abs.
unfoldable pub resolve : Sys → Bytes → Option AbsPath
resolve sys text = elim sys.cwd [
  | some here ↦ some (abs_path here text)
  | none ↦ if has_prefix text (slash ∷ []) then some (abs_path [] text) else none
]

unfoldable pub new_temp_manager : Sys → Fs → ℕ → Bytes → Option (TempManager × Fs)
unfolding resolve mkdir_all
new_temp_manager sys fs now text = elim (resolve sys text) [
  | none ↦ none
  | some abs ↦ elim (mkdir_all sys fs now abs) [
    | none ↦ none
    | some fs' ↦ some (record { base_dir = abs }, fs')
  ]
]

abbrev pub new_dir_name : ℤ → List ℕ → Bytes
new_dir_name uid rand = decimal_int uid ++ (b'_' ∷ hex_encode rand)

-- CreateUserDir; `rand` are the bytes of crypto/rand, `none` if it fails. os.Mkdir refuses a path
-- that exists.
unfoldable pub create_user_dir :
    Sys → Fs → ℕ → TempManager → ℤ → Option (List ℕ) → Option (AbsPath × Fs)
create_user_dir sys fs now tm uid none = none
create_user_dir sys fs now tm uid (some rand) =
    let path = join tm.base_dir (new_dir_name uid rand) in
    elim (lookup path fs) [
      | some node ↦ none
      | none ↦
          if sys.mkdir_fails path
          then none
          else some (path, insert path (record { is_dir = true; mod_time = now }) fs)
    ]

-- filepath.Rel between two cleaned absolute paths, by their segments from the root.
pub rel_segments : List Bytes → List Bytes → List Bytes
rel_segments [] ts = ts
rel_segments (b ∷ bs) [] = dotdot ∷ replicate (length bs) dotdot
rel_segments (b ∷ bs) (t ∷ ts) =
    let common = rel_segments bs ts in
    if eq_bytes b t then common else dotdot ∷ (replicate (length bs) dotdot ++ (t ∷ ts))

pub rel_path : AbsPath → AbsPath → Bytes
rel_path from to = elim (rel_segments (reverse from) (reverse to)) [
  | [] ↦ dot
  | s ∷ ss ↦ s ++ slashed ss
]

-- `rel == ".." || len(rel) >= 3 && rel[:3] == "../"`
pub escapes : Bytes → Bool
escapes [] = false
escapes (a ∷ []) = false
escapes (a ∷ b ∷ []) = (a == b'.') && (b == b'.')
escapes (a ∷ b ∷ c ∷ s) = (a == b'.') && ((b == b'.') && (c == slash))

pub safe_path : Sys → TempManager → Bytes → Option AbsPath
unfolding escapes rel_path
safe_path sys tm text = elim (resolve sys text) [
  | none ↦ none
  | some abs ↦ if escapes (rel_path tm.base_dir abs) then none else some abs
]

-- The tests of managedUserDir on a path that SafePath has passed.
pub check_managed : Fs → TempManager → AbsPath → Option AbsPath
check_managed fs tm path =
    if not (eq_path (dir path) tm.base_dir) || not (user_dir_name (base path))
    then none
    else elim (lookup path fs) [ none ↦ none | some node ↦ if node.is_dir then some path else none ]

pub managed_user_dir : Sys → Fs → TempManager → Bytes → Option AbsPath
managed_user_dir sys fs tm text = elim (safe_path sys tm text) [
  | none ↦ none
  | some path ↦ check_managed fs tm path
]

-- os.RemoveAll.
pub erase_under : AbsPath → Fs → Fs
erase_under p [] = []
erase_under p ((q, node) ∷ fs) =
    let rest = erase_under p fs in if under p q then rest else (q, node) ∷ rest

-- Whether it succeeded, and the file system after it.
pub remove_all : Sys → Fs → AbsPath → Bool × Fs
remove_all sys fs p =
    if sys.remove_fails p then (false, sys.partial_remove p fs) else (true, erase_under p fs)

pub clean_user_dir : Sys → Fs → TempManager → Bytes → Bool × Fs
clean_user_dir sys fs tm text = elim (managed_user_dir sys fs tm text) [
  | none ↦ (false, fs)
  | some path ↦ remove_all sys fs path
]

-- os.ReadDir: the names in the directory, with their nodes.
pub read_dir : Fs → AbsPath → List (Bytes × Node)
read_dir [] p = []
read_dir (([], node) ∷ fs) p = read_dir fs p
read_dir ((s ∷ q, node) ∷ fs) p =
    let rest = read_dir fs p in if eq_path q p then (s, node) ∷ rest else rest

-- The tests of one entry: a directory with a managed name whose time is before `now - maxAge`.
abbrev pub outdated : Sys → TempManager → ℕ → ℕ → Bytes × Node → Bool
outdated sys tm now max_age (name, node) =
    node.is_dir
    && (user_dir_name name
        && (not (sys.info_fails (join tm.base_dir name)) && ltb (node.mod_time + max_age) now))

pub purge_entries : Sys → TempManager → ℕ → ℕ → List (Bytes × Node) → Fs → ℕ → ℕ × Fs
purge_entries sys tm now max_age [] fs purged = (purged, fs)
purge_entries sys tm now max_age (e ∷ es) fs purged =
    let (removed, fs') = remove_all sys fs (join tm.base_dir e.0) in
    let after = purge_entries sys tm now max_age es fs' (if removed then purged + 1 else purged) in
    let skipped = purge_entries sys tm now max_age es fs purged in
    if outdated sys tm now max_age e then after else skipped

-- PurgeOutdated: how many directories are gone, or an error.
pub purge_outdated : Sys → TempManager → ℕ → ℕ → Fs → Option ℕ × Fs
purge_outdated sys tm now max_age fs =
    if sys.read_dir_fails tm.base_dir
    then (none, fs)
    else (let (purged, fs') = purge_entries sys tm now max_age (read_dir fs tm.base_dir) fs 0 in
        (some purged, fs'))
