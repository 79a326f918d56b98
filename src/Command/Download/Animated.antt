-- ===== src/Command/Download/Animated.antt =====
-- Downloads of animated stickers, with ToGif of internal/sticker/convert.go on .tgs files in the
-- place of the conversion that the handlers call.
mod Tests
use x_sticker_bot.Base.{
  ℕ, ◌≡◌, ◌≢◌, refl, ap, sym, subst, ◌∙◌, Bool, true, false, ◌||◌, Option, none, some, List, [],
  ◌∷◌, arith, if◌then◌else◌, Bytes, Bool-cases, inl, inr,
}
use mathlib.Core.Option.{some-injective}
use x_sticker_bot.Base.FilePath.{AbsPath, to_bytes}
use x_sticker_bot.Telegram.{Sticker}
use x_sticker_bot.Storage.Temp.{Fs, Sys, under}
use x_sticker_bot.Sticker.Extract.{is_tgs}
use x_sticker_bot.Sticker.Tgs.{
  Source, Floats, LottieTiming, Writers, TgsGif, gif, failed, with_gif, tgs_to_gif,
}
use x_sticker_bot.Sticker.Tgs.Timing.{tgs_to_gif-IsPlayable}
use x_sticker_bot.Sticker.Tgs.Frames.{tgs_to_gif_frame}
use x_sticker_bot.Command.Services.{Services, Reply, within, Keeps, Beside}
use x_sticker_bot.Command.Download.{send_or_say}

-- `content` is what gzip reads from a file, and `video` what ToGif does with other files.
module _ (w : Writers) (f : Floats) (parse : Bytes → Option (LottieTiming f)) (sys : Sys)
    (content : Fs → AbsPath → Source) (video : Fs → AbsPath → Option AbsPath × Fs) where
  abbrev pub path_of : TgsGif → Option AbsPath
  path_of (gif p) = some p
  path_of (failed e) = none

  unfoldable pub to_gif : Fs → AbsPath → Option AbsPath × Fs
  to_gif fs input =
      let (result, fs') = tgs_to_gif w f parse sys fs input (content fs input) in
      if is_tgs (to_bytes input) then (path_of result, fs') else video fs input

  TgsGif-cases : (g : TgsGif) (p : AbsPath) → path_of g ≡ some p → g ≡ gif p
  TgsGif-cases (gif q) p e = ap gif (some-injective q p e)
  TgsGif-cases (failed e') p e = absurd (cc e)

  within-with_gif :
      (dir input : AbsPath) → within dir input ≡ true → within dir (with_gif input) ≡ true
  unfolding within
  within-with_gif dir [] h = absurd (cc h)
  within-with_gif dir (s ∷ p) h = h

  -- A GIF that ToGif makes of a .tgs file is the one of tgsToGif.
  to_gif-tgs :
      (fs : Fs) (input out : AbsPath)
      → is_tgs (to_bytes input) ≡ true
      → (to_gif fs input).0 ≡ some out
      → (tgs_to_gif w f parse sys fs input (content fs input)).0 ≡ gif out
  unfolding to_gif
  to_gif-tgs fs input out tgs e =
      TgsGif-cases (tgs_to_gif w f parse sys fs input (content fs input)).0 out (ground arith)

  -- ToGif writes below the directory of its input.
  pub to_gif-Beside : ((p : AbsPath) → sys.remove_fails p ≡ false) → Beside video → Beside to_gif
  unfolding to_gif
  to_gif-Beside fine beside fs dir input inside = elim (Bool-cases (is_tgs (to_bytes input))) [
    | inr e ↦ rw (e, to_gif) (beside fs dir input inside)
    | inl e ↦
        let below = within-with_gif dir input inside in
        (
          λ q out.
              let other : q ≢ with_gif input = λ same. cc (below, out, ap (within dir) same) in
              rw (e, to_gif)
                (tgs_to_gif_frame w f parse sys fs input (content fs input) q fine other),
          λ out made.
              let (json, s, l, t, path) =
                tgs_to_gif-IsPlayable w f parse sys fs input (content fs input) out
                  (to_gif-tgs fs input out e made) in
              subst (λ x. within dir x ≡ true) (sym path) below,
        )
  ]

  module _ (fine : (p : AbsPath) → sys.remove_fails p ≡ false) (beside : Beside video)
      (s : Services) where
    -- The services with this ToGif.
    abbrev pub converting : Services
    converting = record s { to_gif = to_gif; to_gif-Beside = to_gif-Beside fine beside }
