-- ===== src/Sticker/Volumes/Names.antt =====
-- The names of the archives, and what FCompressVol returns.
use x_sticker_bot.Base.{
  ℕ, suc, ◌+◌, ◌-◌, ◌≤◌, ◌<◌, ◌≡◌, refl, sym, ap, ◌∙◌, inl, inr, Option, none, some, List, [], ◌∷◌,
  ◌++◌, arith, append_assoc, append-nil, length, take, Option-cases, Bytes, codes, trim_suffix,
}
use x_sticker_bot.Base.Decimal.{decimal, decimal-injective}
use x_sticker_bot.Base.FilePath.{AbsPath, join, dir, base}
use x_sticker_bot.Sticker.Archive.{Os, CompressError, Disk, f_compress}
use x_sticker_bot.Sticker.Volumes.{
  volume_name, compress_volumes, f_compress_vol, volumes_of, stat_file,
}
use mathlib.Core.List.{append_cancel_left, append_cancel_right}

-- Two volumes of one archive never have the same name.
pub volume_name-injective :
    (basename : Bytes) (count i j : ℕ)
    → 2 ≤ count
    → volume_name basename count i ≡ volume_name basename count j
    → i ≡ j
unfolding volume_name
volume_name-injective basename count i j many e =
    let stem = trim_suffix basename (codes ".zip") in
    let tail : Bytes = codes ".zip" in
    let numbered : stem ++ (codes "_00" ++ (decimal (i + 1) ++ tail))
        ≡ stem ++ (codes "_00" ++ (decimal (j + 1) ++ tail)) =
      ground arith in
    let cut_stem = append_cancel_left stem _ _ numbered in
    let cut_zeros = append_cancel_left (codes "_00") _ _ cut_stem in
    let printed = append_cancel_right (decimal (i + 1)) (decimal (j + 1)) tail cut_zeros in
    omega (arith, decimal-injective (i + 1) (j + 1) printed)

-- The paths of the archives from volume `i` on.
abbrev pub paths_from : AbsPath → Bytes → ℕ → ℕ → List (List AbsPath) → List AbsPath
paths_from folder basename count i [] = []
paths_from folder basename count i (v ∷ vs) =
    join folder (volume_name basename count i) ∷ paths_from folder basename count (i + 1) vs

-- All paths and no error, or the error of volume `k` and the paths before it.
abbrev pub Returned : List AbsPath → List AbsPath → Option (ℕ × CompressError) → Type 0
Returned expected paths none = paths ≡ expected
Returned expected paths (some (k, e)) =
    (0 < k) × (k ≤ length expected) × (paths ≡ take (k - 1) expected)

length-paths_from :
    (folder : AbsPath) (basename : Bytes) (count i : ℕ) (vs : List (List AbsPath))
    → length (paths_from folder basename count i vs) ≡ length vs
length-paths_from folder basename count i [] = refl
length-paths_from folder basename count i (v ∷ vs) =
    ap suc (length-paths_from folder basename count (i + 1) vs)

module _ (os : Os) where
  -- What the loop returns when it starts at volume `i` with `done` made.
  abbrev Outcome :
      ℕ
      → List AbsPath
      → List AbsPath
      → ℕ
      → List AbsPath × Option (ℕ × CompressError) × Disk os
      → Type 0
  Outcome i done expected left (paths, none, d) = paths ≡ done ++ expected
  Outcome i done expected left (paths, some (k, e), d) =
      (i < k) × (k ≤ i + left) × (paths ≡ done ++ take (k - (i + 1)) expected)

  Outcome-shift :
      (i : ℕ) (done : List AbsPath) (p : AbsPath) (later : List AbsPath) (left : ℕ)
      (r : List AbsPath × Option (ℕ × CompressError) × Disk os)
      → Outcome (i + 1) (done ++ p ∷ []) later left r
      → Outcome i done (p ∷ later) (suc left) r
  Outcome-shift i done p later left (paths, none, d) h = h ∙ append_assoc done (p ∷ []) later
  Outcome-shift i done p later left (paths, some (k, e), d) (lo, hi, at) =
      let step : k - (i + 1) ≡ suc (k - (i + 1 + 1)) = omega arith in
      (
        omega arith,
        omega arith,
        rw step (at ∙ append_assoc done (p ∷ []) (take (k - (i + 1 + 1)) later)),
      )

  compress_volumes-Outcome :
      (d : Disk os) (folder : AbsPath) (basename : Bytes) (count i : ℕ) (vs : List (List AbsPath))
      (done : List AbsPath)
      → Outcome i done
          (paths_from folder basename count i vs)
          (length vs)
          (compress_volumes os d folder basename count i vs done)
  unfolding compress_volumes
  compress_volumes-Outcome d folder basename count i [] done = sym (append-nil done)
  compress_volumes-Outcome d folder basename count i (v ∷ vs) done =
      let zip_path = join folder (volume_name basename count i) in
      elim (Option-cases (f_compress os d zip_path v).0) [
        | inl ok ↦
            rw (ok, compress_volumes)
              (Outcome-shift i done zip_path (paths_from folder basename count (i + 1) vs)
                (length vs) _
                (compress_volumes-Outcome (f_compress os d zip_path v).1 folder basename count
                  (i + 1) vs (done ++ zip_path ∷ [])))
        | inr (e, failed) ↦
            rw (failed, compress_volumes)
              (
                omega arith,
                omega arith,
                (let z : i + 1 - (i + 1) ≡ 0 = omega arith in rw z (sym (append-nil done))),
              )
      ]

  Outcome-Returned :
      (expected : List AbsPath) (left : ℕ) (r : List AbsPath × Option (ℕ × CompressError) × Disk os)
      → length expected ≡ left
      → Outcome 0 [] expected left r
      → Returned expected r.0 r.1
  Outcome-Returned expected left (paths, none, d) e h = h
  Outcome-Returned expected left (paths, some (k, err), d) e (lo, hi, at) = (lo, omega arith, at)

  -- FCompressVol returns one path for each volume, in order, when every archive is made; when the
  -- archive of volume `k` fails it stops there, reports `k`, and returns the paths of the `k - 1`
  -- archives before it.
  pub f_compress_vol_lem :
      (d : Disk os) (f : AbsPath) (flist : List AbsPath)
      → let volumes = volumes_of (stat_file os d) flist in
        let paths = paths_from (dir f) (base f) (length volumes) 0 volumes in
        Returned paths (f_compress_vol os d f flist).0 (f_compress_vol os d f flist).1
  unfolding f_compress_vol stat_file
  f_compress_vol_lem d f flist =
      let volumes = volumes_of (stat_file os d) flist in
      let paths = paths_from (dir f) (base f) (length volumes) 0 volumes in
      Outcome-Returned paths (length volumes)
        (compress_volumes os d (dir f) (base f) (length volumes) 0 volumes [])
        (length-paths_from (dir f) (base f) (length volumes) 0 volumes)
        (compress_volumes-Outcome d (dir f) (base f) (length volumes) 0 volumes [])
