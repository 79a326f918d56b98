-- ===== src/Storage/Temp/AutoClean.antt =====
-- StartAutoClean of internal/storage/tempfile.go beside the downloads that use the temporary
-- directories.
use x_sticker_bot.Base.{
  ℕ, ◌<◌, ◌≡◌, ◌≢◌, refl, ap, ◌∙◌, Bool, true, false, none, some, List, [], ◌∷◌, arith,
  if◌then◌else◌, length, All, Bytes, lookup, insert, lookup-insert, Option-cases, inl, inr,
}
use x_sticker_bot.Base.Int.{pos}
use x_sticker_bot.Base.FilePath.{AbsPath, path_eq, eq_path_iff}
use x_sticker_bot.Storage.Temp.{
  Node, Fs, under, Sys, TempManager, user_dir_name, create_user_dir, clean_user_dir, purge_outdated,
}
use x_sticker_bot.Storage.Temp.Paths.{under-append}
use x_sticker_bot.Storage.Temp.Cleaning.{Unmanaged, create_user_dir_lem, clean_user_dir_frame}
use x_sticker_bot.Storage.Temp.Purging.{purge_outdated_frame}

-- What the goroutine of StartAutoClean receives, and what downloads do between: CreateUserDir for a
-- user at a time with the bytes of crypto/rand, CleanUserDir of a text, a file that is written. The
-- system can fail differently each time.
pub data Signal : Type 0 where
  created : Sys → ℕ → ℕ → List ℕ → Signal
  cleaned : Sys → Bytes → Signal
  wrote : AbsPath → Node → Signal
  ticked : Sys → ℕ → Signal
  stopped : Signal

module _ (tm : TempManager) where
  -- The goroutine's loop on one signal, as long as it has not returned.
  unfoldable pub on_tick : Sys → ℕ → Bool → ℕ → Fs → Fs
  on_tick sys max_age alive now fs =
      let (count, fs') = purge_outdated sys tm now max_age fs in if alive then fs' else fs

  abbrev pub made : Sys → ℕ → ℕ → List ℕ → Fs → Fs
  made sys now uid rand fs = elim (create_user_dir sys fs now tm (pos uid) (some rand)) [
    | none ↦ fs
    | some (p, fs') ↦ fs'
  ]

  unfoldable pub start_auto_clean : ℕ → Bool → List Signal → Fs → Fs
  unfolding on_tick
  start_auto_clean max_age alive [] fs = fs
  start_auto_clean max_age alive (created sys now uid rand ∷ es) fs =
      start_auto_clean max_age alive es (made sys now uid rand fs)
  start_auto_clean max_age alive (cleaned sys text ∷ es) fs =
      start_auto_clean max_age alive es (clean_user_dir sys fs tm text).1
  start_auto_clean max_age alive (wrote p node ∷ es) fs =
      start_auto_clean max_age alive es (insert p node fs)
  start_auto_clean max_age alive (ticked sys now ∷ es) fs =
      start_auto_clean max_age alive es (on_tick sys max_age alive now fs)
  start_auto_clean max_age alive (stopped ∷ es) fs = start_auto_clean max_age false es fs

  -- crypto/rand gives 8 bytes, and a file is written at or below a managed name.
  abbrev pub IsProper : Signal → Type 0
  IsProper (created sys now uid rand) = (length rand ≡ 8) × All (λ b. b < 256) rand
  IsProper (cleaned sys text) = Unit
  IsProper (wrote p node) =
      (name : Bytes) × (user_dir_name name ≡ true) × (under (name ∷ tm.base_dir) p ≡ true)
  IsProper (ticked sys now) = Unit
  IsProper stopped = Unit

  insert-outside :
      (p q : AbsPath) (node : Node) (fs : Fs) (name : Bytes)
      → under (name ∷ tm.base_dir) p ≡ true
      → under (name ∷ tm.base_dir) q ≡ false
      → lookup q (insert p node fs) ≡ lookup q fs
  insert-outside p q node fs name at outside =
      let other : p ≢ q = λ e. cc (at, outside, ap (under (name ∷ tm.base_dir)) e) in
      ground (arith, lookup-insert p q node fs, eq_path_iff p q)

  made_frame :
      (sys : Sys) (now uid : ℕ) (rand : List ℕ) (fs : Fs) (q : AbsPath)
      → length rand ≡ 8
      → All (λ b. b < 256) rand
      → Unmanaged tm q
      → lookup q (made sys now uid rand fs) ≡ lookup q fs
  made_frame sys now uid rand fs q l h u =
      elim (Option-cases (create_user_dir sys fs now tm (pos uid) (some rand))) [
        | inl refused ↦ rw (refused, made) refl
        | inr ((p, fs'), e) ↦
            let (name, path, named, stored) =
              create_user_dir_lem sys fs fs' now tm uid rand p l h e in
            let node : Node = record { is_dir = true; mod_time = now } in
            let outside = u name named in
            rw (e, made)
              (rw (stored, path)
                (insert-outside (name ∷ tm.base_dir) q node fs name
                  (under-append (name ∷ tm.base_dir) []) outside))
      ]

  module _ (max_age : ℕ) where
    on_tick_frame :
        (sys : Sys) (alive : Bool) (now : ℕ) (fs : Fs) (q : AbsPath)
        → Unmanaged tm q
        → lookup q (on_tick sys max_age alive now fs) ≡ lookup q fs
    unfolding on_tick
    on_tick_frame sys alive now fs q u =
        ground (arith, purge_outdated_frame sys tm now max_age fs q u)

    -- Over any work of the downloads and any ticks of StartAutoClean, in any order and whatever
    -- fails, a path that is not at or below a managed name in the base directory keeps what it has:
    -- CreateUserDir, CleanUserDir of any text and PurgeOutdated touch no such path. (The files are
    -- written at or below managed names, and crypto/rand gives 8 bytes.)
    pub start_auto_clean_frame :
        (es : List Signal) (alive : Bool) (fs : Fs) (q : AbsPath)
        → All IsProper es
        → Unmanaged tm q
        → lookup q (start_auto_clean max_age alive es fs) ≡ lookup q fs
    unfolding start_auto_clean
    start_auto_clean_frame [] alive fs q h u = refl
    start_auto_clean_frame (created sys now uid rand ∷ es) alive fs q ((l, b), h) u =
        start_auto_clean_frame es alive (made sys now uid rand fs) q h u
        ∙ made_frame sys now uid rand fs q l b u
    start_auto_clean_frame (cleaned sys text ∷ es) alive fs q (_, h) u =
        start_auto_clean_frame es alive (clean_user_dir sys fs tm text).1 q h u
        ∙ clean_user_dir_frame sys fs tm text q u
    start_auto_clean_frame (wrote p node ∷ es) alive fs q ((name, named, at), h) u =
        start_auto_clean_frame es alive (insert p node fs) q h u
        ∙ insert-outside p q node fs name at (u name named)
    start_auto_clean_frame (ticked sys now ∷ es) alive fs q (_, h) u =
        start_auto_clean_frame es alive (on_tick sys max_age alive now fs) q h u
        ∙ on_tick_frame sys alive now fs q u
    start_auto_clean_frame (stopped ∷ es) alive fs q (_, h) u =
        start_auto_clean_frame es false fs q h u
