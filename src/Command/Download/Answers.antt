-- ===== src/Command/Download/Answers.antt =====
-- The user always hears of the outcome.
use x_sticker_bot.Base.{
  ℕ, ◌≡◌, refl, Bool, true, false, ◌||◌, Option, none, some, List, [], ◌∷◌, ◌++◌, arith,
  if◌then◌else◌, ltb, ◌==◌, length, Bytes, codes, Bool-cases, Option-cases, inl, inr,
}
use x_sticker_bot.Base.Int.{pos}
use x_sticker_bot.Base.FilePath.{AbsPath, join}
use x_sticker_bot.Telegram.{Sticker}
use x_sticker_bot.Storage.Temp.{Fs, Sys, TempManager, create_user_dir, mkdir_all}
use x_sticker_bot.Command.Services.{
  Services, Reply, fatal_error, set_not_found, upload_failed, document, progress, progress_deleted,
  progress_edited, partial_download,
}
use x_sticker_bot.Command.Sets.{
  send_all, send_volumes, after_wait, paths_of, if_sent, start_crew, run, download_sticker_set,
  Crew,
}
use x_sticker_bot.Command.Download.{
  file_prefix, convert_single, download_single_sticker, convert_animation, download_animation,
  download_into, download_id, in_work_dir, handle_download, handle_animation_download,
  with_work_dir, send_or_say,
}

-- A document, or the text of an error.
abbrev pub is_answer : Reply → Bool
is_answer (fatal_error f) = true
is_answer set_not_found = true
is_answer upload_failed = true
is_answer (document p) = true
is_answer progress = false
is_answer progress_deleted = false
is_answer (progress_edited n total) = false
is_answer (partial_download n total) = false

unfoldable pub answers : List Reply → Bool
answers [] = false
answers (r ∷ rs) = is_answer r || answers rs

answers-append : (rs ts : List Reply) → answers (rs ++ ts) ≡ (answers rs || answers ts)
unfolding answers
answers-append [] ts = refl
answers-append (r ∷ rs) ts = ground (arith, answers-append rs ts)

module _ (s : Services) where
  -- Of some archives one is sent, or a failure is noted.
  send_all_some :
      (fs : Fs) (z : AbsPath) (zs : List AbsPath)
      → (answers (send_all s fs (z ∷ zs)).0 || (send_all s fs (z ∷ zs)).1) ≡ true
  unfolding send_all answers
  send_all_some fs z zs = ground arith

  send_volumes-answers : (fs : Fs) (zs : List AbsPath) → answers (send_volumes s fs zs) ≡ true
  unfolding send_volumes answers
  send_volumes-answers fs [] = refl
  send_volumes-answers fs (z ∷ zs) =
      let (sent, any_failed) = send_all s fs (z ∷ zs) in
      ground (
        arith,
        send_all_some fs z zs,
        answers-append sent (if any_failed then upload_failed ∷ [] else []),
      )

  after_wait-answers :
      (set_id : Bytes) (dir : AbsPath) (total : ℕ) (c : Crew)
      → answers (after_wait s set_id dir total c).0 ≡ true
  unfolding after_wait answers
  after_wait-answers set_id dir total c =
      let fs =
        (s.f_compress_vol c.fs (join dir (set_id ++ codes "_original.zip")) c.original_files) in
      let fs' =
        (s.f_compress_vol fs.1 (join dir (set_id ++ codes "_converted.zip")) c.converted_files) in
      let volumes = send_volumes s fs'.1 (paths_of s fs.0 ++ paths_of s fs'.0) in
      let notice : List Reply =
        if ltb (length c.original_files) total
        then partial_download (length c.original_files) total ∷ []
        else [] in
      elim (Bool-cases (length c.original_files == 0)) [
        | inl e ↦ rw (e, after_wait) refl
        | inr e ↦
            rw (e, after_wait, answers-append notice volumes)
              (ground (arith, send_volumes-answers fs'.1 (paths_of s fs.0 ++ paths_of s fs'.0)))
      ]

  download_sticker_set-answers :
      (fs : Fs) (set_id : Bytes) (dir : AbsPath) (schedule : List (ℕ × ℕ))
      → answers (download_sticker_set s fs set_id dir schedule).0 ≡ true
  unfolding download_sticker_set answers
  download_sticker_set-answers fs set_id dir schedule = elim (Option-cases (s.sticker_set set_id)) [
    | inl e ↦ rw (e, download_sticker_set) refl
    | inr (stickers, e) ↦
        let total = length stickers in
        let c = run s set_id dir total stickers (start_crew fs total) schedule in
        let replies = (after_wait s set_id dir total c).0 in
        rw (e, download_sticker_set)
          (ground (
            arith,
            answers-append (if_sent s progress)
                (c.edits ++ (if_sent s progress_deleted ++ replies)),
            answers-append c.edits (if_sent s progress_deleted ++ replies),
            answers-append (if_sent s progress_deleted) replies,
            after_wait-answers set_id dir total c,
          ))
  ]

  send_or_say-answers : (fs : Fs) (f : AbsPath) → answers (send_or_say s fs f) ≡ true
  unfolding answers
  send_or_say-answers fs f = ground arith

  convert_single-answers :
      (fs : Fs) (st : Sticker) (f : AbsPath) → answers (convert_single s fs st f).0 ≡ true
  unfolding convert_single answers
  convert_single-answers fs st f = ground arith

  download_single-answers :
      (fs : Fs) (st : Sticker) (dir : AbsPath)
      → answers (download_single_sticker s fs st dir).0 ≡ true
  unfolding download_single_sticker answers
  download_single-answers fs st dir =
      let got = s.fetch fs st.file_id dir (file_prefix s st.set_name ++ b'_' ∷ s.hex 2) in
      elim (Option-cases got.0) [
        | inl e ↦ rw (e, download_single_sticker) refl
        | inr (f, e) ↦ rw (e, download_single_sticker) (convert_single-answers got.1 st f)
      ]

  convert_animation-answers :
      (fs : Fs) (dir f : AbsPath) → answers (convert_animation s fs dir f).0 ≡ true
  unfolding convert_animation answers
  convert_animation-answers fs dir f = ground arith

  download_animation-answers :
      (fs : Fs) (file_id : Bytes) (dir : AbsPath)
      → answers (download_animation s fs file_id dir).0 ≡ true
  unfolding download_animation answers
  download_animation-answers fs file_id dir =
      let got = s.fetch fs file_id dir (codes "animation_MP4") in
      elim (Option-cases got.0) [
        | inl e ↦ rw (e, download_animation) refl
        | inr (f, e) ↦ rw (e, download_animation) (convert_animation-answers got.1 dir f)
      ]

  download_into-answers :
      (fs : Fs) (st : Option Sticker) (set_id : Bytes) (schedule : List (ℕ × ℕ)) (dir : AbsPath)
      → answers (download_into s fs st set_id schedule dir).0 ≡ true
  unfolding download_into
  download_into-answers fs none set_id schedule dir =
      download_sticker_set-answers fs set_id dir schedule
  download_into-answers fs (some st) set_id schedule dir = download_single-answers fs st dir

  module _ (sys : Sys) (tm : TempManager) (now : ℕ) (rand : Option (List ℕ)) (fs : Fs) where
    in_work_dir-answers :
        (fs : Fs) (st : Option Sticker) (set_id : Bytes) (schedule : List (ℕ × ℕ))
        (work_dir : AbsPath)
        → answers (in_work_dir s sys tm now rand fs st set_id schedule work_dir).0 ≡ true
    unfolding in_work_dir answers
    in_work_dir-answers fs st set_id schedule work_dir =
        let dir = join work_dir (download_id s st set_id) in
        elim (Option-cases (mkdir_all sys fs now dir)) [
          | inl e ↦ rw (e, in_work_dir) refl
          | inr (fs', e) ↦ rw (e, in_work_dir) (download_into-answers fs' st set_id schedule dir)
        ]

    with_work_dir-answers :
        (body : Fs → AbsPath → List Reply × Fs)
        → ((fs' : Fs) (p : AbsPath) → answers (body fs' p).0 ≡ true)
        → answers (with_work_dir s sys tm now rand fs body).0 ≡ true
    unfolding answers
    with_work_dir-answers body h =
        elim (Option-cases (create_user_dir sys fs now tm (pos 0) rand)) [
          | inl e ↦ rw (e, with_work_dir) refl
          | inr ((p, fs'), e) ↦ rw (e, with_work_dir) (h fs' p)
        ]

    -- HandleDownload and handleAnimationDownload always send a document or the text of an error,
    -- whatever fails on the way.
    pub handlers_answer :
        (st : Option Sticker) (set_id : Bytes) (schedule : List (ℕ × ℕ)) (file_id : Bytes)
        → (answers (handle_download s sys tm now rand fs st set_id schedule).0 ≡ true)
          × (answers (handle_animation_download s sys tm now rand fs file_id).0 ≡ true)
    unfolding handle_download handle_animation_download
    handlers_answer st set_id schedule file_id =
        let of_animation =
          with_work_dir-answers (λ fs' p. download_animation s fs' file_id p)
            (λ fs' p. download_animation-answers fs' file_id p) in
        let animation =
          (with_work_dir s sys tm now rand fs (λ fs' p. download_animation s fs' file_id p)).0 in
        (
          with_work_dir-answers (λ fs' p. in_work_dir s sys tm now rand fs' st set_id schedule p)
              (λ fs' p. in_work_dir-answers fs' st set_id schedule p),
          ground (arith, answers-append (if_sent s progress) animation, of_animation),
        )
