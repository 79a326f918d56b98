-- ===== src/Command/Download/Cleanup.antt =====
-- What the handlers leave in the file system: nothing.
use x_sticker_bot.Base.{
  ℕ, ◌<◌, ◌≡◌, refl, ap, subst, ◌∙◌, true, false, Option, none, some, List, ◌∷◌, arith,
  if◌then◌else◌, length, Bytes, All, Bool-cases, Option-cases, inl, inr, lookup, lookup-insert,
}
use x_sticker_bot.Base.Int.{pos}
use x_sticker_bot.Base.FilePath.{AbsPath, path_eq, eq_path_iff, IsClean, join, join_name, to_bytes}
use x_sticker_bot.Telegram.{Sticker}
use x_sticker_bot.Storage.Temp.{
  Fs, Node, Sys, TempManager, under, create_user_dir, clean_user_dir, mkdir_all, erase_under,
}
use x_sticker_bot.Storage.Temp.Cleaning.{
  clean_managed, create_user_dir_lem, lookup-insert_same, lookup-erase_under,
}
use x_sticker_bot.Storage.Temp.Making.{Rooted, insert-Rooted, mkdir_child}
use x_sticker_bot.Storage.Temp.Paths.{HasCleanCwd}
use x_sticker_bot.Command.Services.{Keeps, Services}
use x_sticker_bot.Command.Services.Keeping.{
  Keeps-trans, Keeps-child, within_irrefl, under_refl, under-within,
}
use x_sticker_bot.Command.Download.{
  download_animation, download_id, download_into, in_work_dir, handle_download,
  handle_animation_download, with_work_dir,
}
use x_sticker_bot.Command.Download.Keeping.{
  not_child, Named, download_animation-Keeps, download_id-IsSegment, download_into-Keeps,
}

module _ (s : Services) where
  module _ (sys : Sys) (tm : TempManager) (now : ℕ) (rand : List ℕ) where
    in_work_dir-Keeps :
        (fs : Fs) (st : Option Sticker) (set_id : Bytes) (schedule : List (ℕ × ℕ))
        (work_dir : AbsPath)
        → Named st set_id
        → Rooted fs work_dir
        → Keeps work_dir fs (in_work_dir s sys tm now (some rand) fs st set_id schedule work_dir).1
    unfolding in_work_dir
    in_work_dir-Keeps fs st set_id schedule work_dir named rooted =
        let id = download_id s st set_id in
        let dir = join work_dir id in
        let child : dir ≡ id ∷ work_dir =
          join_name work_dir id (download_id-IsSegment s st set_id named) in
        elim (Option-cases (mkdir_all sys fs now dir)) [
          | inl e ↦ rw (e, in_work_dir) (λ q out. refl)
          | inr (fs', e) ↦
              let made = mkdir_child sys fs fs' now id work_dir in
              let inside = download_into-Keeps s fs' st set_id schedule dir named in
              let result = (download_into s fs' st set_id schedule dir).1 in
              rw (e, in_work_dir)
                (Keeps-trans work_dir fs fs' result
                  (λ q out.
                    made q rooted (subst (λ d. mkdir_all sys fs now d ≡ some fs') child e)
                      (not_child id work_dir q out))
                  (Keeps-child id work_dir fs' result
                    (subst (λ d. Keeps d fs' result) child inside)))
        ]

    -- What the work leaves below its directory goes with the directory.
    module _ (fs fs' fs'' : Fs) (p : AbsPath) (cwd : HasCleanCwd sys) (cb : IsClean tm.base_dir)
        (l : length rand ≡ 8) (bytes : All (λ b. b < 256) rand)
        (made : create_user_dir sys fs now tm (pos 0) (some rand) ≡ some (p, fs'))
        (fine : sys.remove_fails p ≡ false) (kept : Keeps p fs' fs'') where
      cleaned :
          (q : AbsPath)
          → lookup q (clean_user_dir sys fs'' tm (to_bytes p)).1
            ≡ (if under p q then none else lookup q fs)
      cleaned q =
          let (name, path, u, stored) =
            create_user_dir_lem sys fs fs' now tm 0 rand p l bytes made in
          let node : Node = record { is_dir = true; mod_time = now } in
          let here : lookup p fs'' ≡ some node =
            kept p (within_irrefl p) ∙ ap (lookup p) stored ∙ lookup-insert_same p node fs in
          let gone : clean_user_dir sys fs'' tm (to_bytes p) ≡ (true, erase_under p fs'') =
            rw path (
              clean_managed sys fs'' tm name node cwd cb u
                (subst (λ x. lookup x fs'' ≡ some node) path here) refl
                (subst (λ x. sys.remove_fails x ≡ false) path fine)) in
          rw gone (
            lookup-erase_under p q fs'' ∙ elim (Bool-cases (under p q)) [
              | inl e ↦ rw e refl
              | inr e ↦ rw e (
                  kept q (ground (arith, under-within p q))
                  ∙ ap (lookup q) stored
                  ∙ ground (arith, lookup-insert p q node fs, eq_path_iff p q, under_refl p))
            ])

    module _ (fs fs' : Fs) (p : AbsPath) (cwd : HasCleanCwd sys) (cb : IsClean tm.base_dir)
        (rooted : Rooted fs tm.base_dir) (l : length rand ≡ 8) (bytes : All (λ b. b < 256) rand)
        (made : create_user_dir sys fs now tm (pos 0) (some rand) ≡ some (p, fs'))
        (fine : sys.remove_fails p ≡ false) where
      work_dir-Rooted : Rooted fs' p
      work_dir-Rooted =
          let (name, path, u, stored) =
            create_user_dir_lem sys fs fs' now tm 0 rand p l bytes made in
          let node : Node = record { is_dir = true; mod_time = now } in
          let child = name ∷ tm.base_dir in
          rw (stored, path)
            (
              (node, lookup-insert_same child node fs, refl),
              insert-Rooted fs tm.base_dir child node (omega arith) rooted,
            )

      -- Whatever HandleDownload does, with any sticker or set, any schedule of its goroutines and any
      -- failures of downloads and conversions, the work directory is gone afterwards with all that is
      -- below it and every other path is as before: if the directory was made and its removal does
      -- not fail, and the set's name is a plain file name.
      pub handle_download_cleans :
          (st : Option Sticker) (set_id : Bytes) (schedule : List (ℕ × ℕ)) (q : AbsPath)
          → Named st set_id
          → lookup q (handle_download s sys tm now (some rand) fs st set_id schedule).1
            ≡ (if under p q then none else lookup q fs)
      unfolding handle_download
      handle_download_cleans st set_id schedule q named =
          rw (made, handle_download, with_work_dir)
            (cleaned fs fs' (in_work_dir s sys tm now (some rand) fs' st set_id schedule p).1 p cwd
              cb l bytes made fine
              (in_work_dir-Keeps fs' st set_id schedule p named work_dir-Rooted) q)

      pub handle_animation_download_cleans :
          (file_id : Bytes) (q : AbsPath)
          → lookup q (handle_animation_download s sys tm now (some rand) fs file_id).1
            ≡ (if under p q then none else lookup q fs)
      unfolding handle_animation_download
      handle_animation_download_cleans file_id q =
          rw (made, handle_animation_download, with_work_dir)
            (cleaned fs fs' (download_animation s fs' file_id p).1 p cwd cb l bytes made fine
              (download_animation-Keeps s fs' file_id p) q)
