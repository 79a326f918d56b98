-- ===== src/Sticker/Guess.antt =====
-- GuessFormat and GuessIsArchive of internal/sticker/convert.go.
use x_sticker_bot.Base.{
  Bool, false, ◌||◌, List, [], ◌∷◌, if◌then◌else◌, Bytes, codes, has_suffix, to_lower,
}

pub data Format : Type 0 where
  video animated static : Format

pub any_suffix : Bytes → List Bytes → Bool
any_suffix f [] = false
any_suffix f (ext ∷ exts) = has_suffix f ext || any_suffix f exts

abbrev pub video_exts : List Bytes
video_exts =
    codes ".webm"
    ∷ codes ".mp4"
    ∷ codes ".mov"
    ∷ codes ".avi"
    ∷ codes ".mkv"
    ∷ codes ".gif"
    ∷ codes ".apng"
    ∷ []

abbrev pub animated_exts : List Bytes
animated_exts = codes ".tgs" ∷ codes ".lottie" ∷ codes ".json" ∷ []

abbrev pub archive_exts : List Bytes
archive_exts =
    codes ".rar"
    ∷ codes ".7z"
    ∷ codes ".zip"
    ∷ codes ".tar"
    ∷ codes ".gz"
    ∷ codes ".bz2"
    ∷ codes ".zst"
    ∷ codes ".rar5"
    ∷ []

pub guess_format : Bytes → Format
unfolding any_suffix
guess_format f =
    let lower = to_lower f in
    if any_suffix lower video_exts
    then video
    else if any_suffix lower animated_exts
    then animated
    else static

pub guess_is_archive : Bytes → Bool
unfolding any_suffix
guess_is_archive f = any_suffix (to_lower f) archive_exts
