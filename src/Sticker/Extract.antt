-- ===== src/Sticker/Extract.antt =====
-- SecHex and ArchiveExtract of internal/sticker/util.go, and the choice of ToGif in
-- internal/sticker/convert.go. The system is a record; `none` is a panic.
use x_sticker_bot.Base.{
  ℕ, Bool, Option, none, some, List, [], ◌∷◌, if◌then◌else◌, ◌==◌, Bytes, codes, eq_bytes, to_lower,
}
use mathlib.Core.List.{reverse}
use x_sticker_bot.Base.FilePath.{AbsPath, dir, join, to_bytes}
use x_sticker_bot.Storage.Temp.{hex_encode}
use x_sticker_bot.Sticker.Programs.{Tools, bsdtar_bin}
use x_sticker_bot.Sticker.Files.{Visit, ls_files_r}

-- `random` are the bytes of crypto/rand, none if it fails.
unfoldable pub sec_hex : Option (List ℕ) → Option Bytes
sec_hex random = elim random [ none ↦ none | some b ↦ some (hex_encode b) ]

-- filepath.Ext, by the characters from the last one on.
ext_from : Bytes → Bytes → Bytes
ext_from [] acc = []
ext_from (c ∷ s) acc =
    let rest = ext_from s (c ∷ acc) in if c == b'/' then [] else if c == b'.' then c ∷ acc else rest

unfoldable pub ext : Bytes → Bytes
unfolding ext_from
ext path = ext_from (reverse path) []

-- Whether ToGif takes a file for an animated sticker.
unfoldable pub is_tgs : Bytes → Bool
unfolding ext
is_tgs f = eq_bytes (to_lower (ext f)) (codes ".tgs")

module _ (t : Tools) where
  -- os.MkdirAll, and what filepath.Walk visits.
  pub record Disk : Type 0 where
    pub mkdir_all : t.World → Bytes → Option t.World
    pub visits : t.World → Bytes → List Visit

  pub data Extracted : Type 0 where
    extracted : List Bytes → Extracted
    no_target bsdtar_failed : Extracted

  unfoldable pub archive_extract :
      Disk → Option (List ℕ) → t.World → AbsPath → Option (Extracted × t.World)
  unfolding sec_hex
  archive_extract d random w f = elim (sec_hex random) [
    | none ↦ none
    | some hex ↦
        let target_dir = to_bytes (join (dir f) hex) in
        elim (d.mkdir_all w target_dir) [
          | none ↦ some (no_target, w)
          | some w' ↦
              let (ok, out, w'') =
                t.run w' bsdtar_bin (codes "-xvf" ∷ to_bytes f ∷ codes "-C" ∷ target_dir ∷ []) in
              if ok
              then some (extracted (ls_files_r (d.visits w'' target_dir) [] []), w'')
              else some (bsdtar_failed, w'')
        ]
  ]
