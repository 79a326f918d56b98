-- ===== src/Command/Services.antt =====
-- What the handlers of internal/command/download.go call, over the file system of Storage/Temp:
-- the operations of the record `Services`, with what they promise of the files they write.
pub mod Keeping
use x_sticker_bot.Base.{ℕ, ◌≡◌, Bool, true, false, Option, some, List, [], ◌∷◌, Bytes, All, lookup}
use x_sticker_bot.Base.FilePath.{AbsPath, path_eq, IsSegment, Lacks, slash}
use x_sticker_bot.Telegram.{Sticker}
use x_sticker_bot.Storage.Temp.{Fs, under}

-- Whether `q` lies below `p`.
unfoldable pub within : AbsPath → AbsPath → Bool
unfolding under
within p [] = false
within p (s ∷ q) = under p q

-- Nothing but what lies below `p` has changed.
abbrev pub Keeps : AbsPath → Fs → Fs → Type 0
Keeps p fs fs' = (q : AbsPath) → within p q ≡ false → lookup q fs' ≡ lookup q fs

-- A conversion writes beside its input.
abbrev pub Beside : (Fs → AbsPath → Option AbsPath × Fs) → Type 0
Beside convert =
    (fs : Fs) (dir f : AbsPath)
    → within dir f ≡ true
    → Keeps dir fs (convert fs f).1
      × ((out : AbsPath) → (convert fs f).0 ≡ some out → within dir out ≡ true)

pub record Services : Type 0 where
  -- SecHex, by the number of bytes
  pub hex : ℕ → Bytes
  pub hex-Lacks : (n : ℕ) → Lacks slash (hex n)
  -- GetStickerSet: the stickers of the set
  pub sticker_set : Bytes → Option (List Sticker)
  -- downloadTelegramFile of a file id into a directory, under a name
  pub fetch : Fs → Bytes → AbsPath → Bytes → Option AbsPath × Fs
  pub fetch-Keeps :
      (fs : Fs) (file_id : Bytes) (dir : AbsPath) (name : Bytes)
      → IsSegment name
      → Keeps dir fs (fetch fs file_id dir name).1
        × ((p : AbsPath) → (fetch fs file_id dir name).0 ≡ some p → within dir p ≡ true)
  -- ToGif and ToPng
  pub to_gif : Fs → AbsPath → Option AbsPath × Fs
  pub to_gif-Beside : Beside to_gif
  pub to_png : Fs → AbsPath → Option AbsPath × Fs
  pub to_png-Beside : Beside to_png
  -- FCompress and FCompressVol: the archives lie in the directory of the first
  pub f_compress : Fs → AbsPath → List AbsPath → Bool × Fs
  pub f_compress-Keeps :
      (fs : Fs) (dir zip : AbsPath) (files : List AbsPath)
      → within dir zip ≡ true
      → Keeps dir fs (f_compress fs zip files).1
  pub f_compress_vol : Fs → AbsPath → List AbsPath → Option (List AbsPath) × Fs
  pub f_compress_vol-Keeps :
      (fs : Fs) (dir zip : AbsPath) (files : List AbsPath)
      → within dir zip ≡ true
      → Keeps dir fs (f_compress_vol fs zip files).1
  -- whether sendDocument opens and sends the file
  pub sends : Fs → AbsPath → Bool
  -- whether the progress message is sent
  pub progress_sent : Bool

-- Why a handler answers with message.FatalError.
pub data Fault : Type 0 where
  no_work_dir no_sub_dir download_failed conversion_failed compression_failed no_files : Fault

-- What the user is sent.
pub data Reply : Type 0 where
  fatal_error : Fault → Reply
  set_not_found upload_failed : Reply
  document : AbsPath → Reply
  progress progress_deleted : Reply
  progress_edited : ℕ → ℕ → Reply
  partial_download : ℕ → ℕ → Reply
