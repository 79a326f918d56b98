-- ===== src/Sticker/Volumes.antt =====
-- FCompressVol of internal/sticker/util.go: the split of a list of files into volumes, and an
-- archive for each. Sizes are int64, kept as bit patterns.
pub mod Packing
pub mod Names
use x_sticker_bot.Base.{
  ℕ, ◌+◌, ◌%◌, ◌*◌, ◌^◌, Bool, true, false, ◌&&◌, ◌||◌, not, Option, none, some, List, [], ◌∷◌,
  ◌++◌, if◌then◌else◌, ltb, leb, ◌==◌, length, Bytes, codes, trim_suffix, lookup,
}
use mathlib.Core.Option
use x_sticker_bot.Base.Decimal.{decimal}
use x_sticker_bot.Base.FilePath.{AbsPath, base, dir, join, path_eq}
use x_sticker_bot.Sticker.Archive.{Os, CompressError, Disk, f_compress}

-- KB and MB of internal/sticker/convert.go.
abbrev pub kb : ℕ
kb = 1000

abbrev pub mb : ℕ
mb = 1000 * kb

abbrev pub max_vol_size : ℕ
max_vol_size = 50 * mb

-- int64 addition, and the signed tests `a >= b` and `a > 0` for a `b` that is not negative.
abbrev pub add_int64 : ℕ → ℕ → ℕ
add_int64 a b = (a + b) % 2 ^ 64

abbrev pub is_negative : ℕ → Bool
is_negative a = leb (2 ^ 63) a

abbrev pub ge_int64 : ℕ → ℕ → Bool
ge_int64 a b = not (is_negative a) && leb b a

abbrev pub is_positive : ℕ → Bool
is_positive a = not (is_negative a) && ltb 0 a

-- `volumes[len(volumes)-1] = append(volumes[len(volumes)-1], file)`
pub append_last : List (List AbsPath) → AbsPath → List (List AbsPath)
append_last [] file = []
append_last (v ∷ []) file = (v ++ file ∷ []) ∷ []
append_last (v ∷ w ∷ vs) file = v ∷ append_last (w ∷ vs) file

abbrev pub starts_volume : List (List AbsPath) → ℕ → ℕ → Bool
starts_volume volumes cur_size f_size =
    (length volumes == 0)
    || (ge_int64 (add_int64 cur_size f_size) max_vol_size && is_positive cur_size)

-- The loop over the files; `stat` is os.Stat, with no size for a file that it cannot read.
pub pack : (AbsPath → Option ℕ) → List AbsPath → List (List AbsPath) → ℕ → List (List AbsPath)
unfolding append_last
pack stat [] volumes cur_size = volumes
pack stat (file ∷ files) volumes cur_size = elim (stat file) [
  | none ↦ pack stat files volumes cur_size
  | some f_size ↦
      let fresh = starts_volume volumes cur_size f_size in
      pack stat files (append_last (if fresh then volumes ++ [] ∷ [] else volumes) file)
        (add_int64 (if fresh then 0 else cur_size) f_size)
]

pub volumes_of : (AbsPath → Option ℕ) → List AbsPath → List (List AbsPath)
unfolding pack
volumes_of stat flist = pack stat flist [] 0

-- The name of volume `i` (from 0) of `count`.
pub volume_name : Bytes → ℕ → ℕ → Bytes
volume_name basename count i =
    if count == 1
    then basename
    else trim_suffix basename (codes ".zip") ++ (codes "_00" ++ (decimal (i + 1) ++ codes ".zip"))

module _ (os : Os) where
  -- os.Stat and Size.
  pub stat_file : Disk os → AbsPath → Option ℕ
  stat_file d file = if os.stat_fails file then none else Option.map os.blob_size (lookup file d)

  -- The archives from volume `i` on; `paths` are those made so far. An error names its volume.
  pub compress_volumes :
      Disk os
      → AbsPath
      → Bytes
      → ℕ
      → ℕ
      → List (List AbsPath)
      → List AbsPath
      → List AbsPath × Option (ℕ × CompressError) × Disk os
  compress_volumes d folder basename count i [] paths = (paths, none, d)
  compress_volumes d folder basename count i (files ∷ volumes) paths =
      let zip_path = join folder (volume_name basename count i) in
      let (e, d') = f_compress os d zip_path files in
      elim e [
        | some err ↦ (paths, some (i + 1, err), d')
        | none ↦ compress_volumes d' folder basename count (i + 1) volumes (paths ++ zip_path ∷ [])
      ]

  unfoldable pub f_compress_vol :
      Disk os → AbsPath → List AbsPath → List AbsPath × Option (ℕ × CompressError) × Disk os
  unfolding stat_file
  f_compress_vol d f flist =
      let volumes = volumes_of (stat_file d) flist in
      compress_volumes d (dir f) (base f) (length volumes) 0 volumes []
