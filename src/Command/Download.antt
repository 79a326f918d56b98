-- ===== src/Command/Download.antt =====
-- HandleDownload, downloadSingleSticker and handleAnimationDownload of internal/command/download.go,
-- over the temporary directories of Storage/Temp. The result is what the user is sent, and the file
-- system after the deferred removal of the work directory.
pub mod Keeping
pub mod Cleanup
pub mod Answers
pub mod Animated
pub mod Tests
use x_sticker_bot.Base.{
  ℕ, Bool, true, false, ◌||◌, Option, none, some, List, [], ◌∷◌, ◌++◌, if◌then◌else◌, Bytes, codes,
  eq_bytes,
}
use x_sticker_bot.Base.Int.{pos}
use x_sticker_bot.Base.FilePath.{AbsPath, join, to_bytes}
use x_sticker_bot.Telegram.{Sticker}
use x_sticker_bot.Storage.Temp.{Fs, Sys, TempManager, create_user_dir, clean_user_dir, mkdir_all}
use x_sticker_bot.Command.Services.{
  Services, Reply, Fault, fatal_error, no_work_dir, no_sub_dir, download_failed, conversion_failed,
  compression_failed, upload_failed, document, progress, progress_deleted,
}
use x_sticker_bot.Command.Sets.{download_sticker_set, if_sent}

module _ (s : Services) where
  -- A document, or the message that it could not be sent.
  abbrev pub send_or_say : Fs → AbsPath → List Reply
  send_or_say fs f = if s.sends fs f then document f ∷ [] else upload_failed ∷ []

  unfoldable pub file_prefix : Bytes → Bytes
  file_prefix set_name = if eq_bytes set_name [] then codes "sticker" else set_name

  -- downloadSingleSticker behind the download.
  pub convert_single : Fs → Sticker → AbsPath → List Reply × Fs
  convert_single fs st f =
      let (gif, fs_gif) = s.to_gif fs f in
      let (png, fs_png) = s.to_png fs f in
      if st.is_video || st.is_animated
      then elim gif [
        | none ↦ (fatal_error conversion_failed ∷ [], fs_gif)
        | some p ↦ (send_or_say fs_gif p, fs_gif)
      ]
      else elim png [
        | none ↦ (send_or_say fs_png f, fs_png)
        | some p ↦ (send_or_say fs_png p, fs_png)
      ]

  unfoldable pub download_single_sticker : Fs → Sticker → AbsPath → List Reply × Fs
  unfolding convert_single file_prefix
  download_single_sticker fs st dir =
      let (got, fs') = s.fetch fs st.file_id dir (file_prefix st.set_name ++ (b'_' ∷ s.hex 2)) in
      elim got [ none ↦ (fatal_error download_failed ∷ [], fs') | some f ↦ convert_single fs' st f ]

  -- handleAnimationDownload in its work directory, behind the download.
  pub convert_animation : Fs → AbsPath → AbsPath → List Reply × Fs
  convert_animation fs dir f =
      let (gif, fs') = s.to_gif fs f in
      let zip = join dir (s.hex 4 ++ codes ".zip") in
      elim gif [
        | none ↦ (fatal_error conversion_failed ∷ [], fs')
        | some p ↦
            let (packed, fs'') = s.f_compress fs' zip (p ∷ []) in
            if packed
            then (send_or_say fs'' zip ++ if_sent s progress_deleted, fs'')
            else (fatal_error compression_failed ∷ [], fs'')
      ]

  pub download_animation : Fs → Bytes → AbsPath → List Reply × Fs
  unfolding convert_animation
  download_animation fs file_id dir =
      let (got, fs') = s.fetch fs file_id dir (codes "animation_MP4") in
      elim got [
        | none ↦ (fatal_error download_failed ∷ [], fs')
        | some f ↦ convert_animation fs' dir f
      ]

  -- The id of what is downloaded: a sticker with or without a set, or a set.
  pub download_id : Option Sticker → Bytes → Bytes
  download_id none set_id = set_id
  download_id (some st) set_id =
      if eq_bytes st.set_name [] then codes "sticker_" ++ s.hex 4 else st.set_name

  pub download_into : Fs → Option Sticker → Bytes → List (ℕ × ℕ) → AbsPath → List Reply × Fs
  unfolding download_single_sticker
  download_into fs none set_id schedule dir = download_sticker_set s fs set_id dir schedule
  download_into fs (some st) set_id schedule dir = download_single_sticker fs st dir

  module _ (sys : Sys) (tm : TempManager) (now : ℕ) (rand : Option (List ℕ)) where
    -- HandleDownload in its work directory.
    pub in_work_dir : Fs → Option Sticker → Bytes → List (ℕ × ℕ) → AbsPath → List Reply × Fs
    unfolding download_into download_id
    in_work_dir fs st set_id schedule work_dir =
        let dir = join work_dir (download_id st set_id) in
        elim (mkdir_all sys fs now dir) [
          | none ↦ (fatal_error no_sub_dir ∷ [], fs)
          | some fs' ↦ download_into fs' st set_id schedule dir
        ]

    -- CreateUserDir, the work, and the deferred CleanUserDir, whose error is only logged.
    abbrev pub with_work_dir : Fs → (Fs → AbsPath → List Reply × Fs) → List Reply × Fs
    with_work_dir fs body = elim (create_user_dir sys fs now tm (pos 0) rand) [
      | none ↦ (fatal_error no_work_dir ∷ [], fs)
      | some (work_dir, fs') ↦
          let (replies, fs'') = body fs' work_dir in
          (replies, (clean_user_dir sys fs'' tm (to_bytes work_dir)).1)
    ]

    unfoldable pub handle_download : Fs → Option Sticker → Bytes → List (ℕ × ℕ) → List Reply × Fs
    unfolding in_work_dir
    handle_download fs st set_id schedule =
        with_work_dir fs (λ fs' work_dir. in_work_dir fs' st set_id schedule work_dir)

    unfoldable pub handle_animation_download : Fs → Bytes → List Reply × Fs
    unfolding download_animation
    handle_animation_download fs file_id =
        let (replies, fs') =
          with_work_dir fs (λ fs' work_dir. download_animation fs' file_id work_dir) in
        (if_sent s progress ++ replies, fs')
