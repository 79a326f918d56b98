-- ===== src/Sticker/Tgs/Frames.antt =====
-- The directory of the frames does not outlive tgsToGif.
use x_sticker_bot.Base.{
  ◌≡◌, ◌≢◌, refl, sym, ◌∙◌, false, Option, Bytes, lookup, is_some, Bool-cases, Option-cases, inl,
  inr,
}
use x_sticker_bot.Base.FilePath.{AbsPath, path_eq, dir}
use x_sticker_bot.Storage.Temp.{Fs, Sys, under}
use x_sticker_bot.Storage.Temp.Cleaning.{remove_all_lem}
use x_sticker_bot.Sticker.Tgs.Timing.{Decoded-cases}
use x_sticker_bot.Sticker.Tgs.{
  Source, read_tgs, max_tgs_json_size, Floats, LottieTiming, validate_lottie_timing, Writers,
  with_gif, png_frames_to_gif, in_frames_dir, render_tgs, tgs_to_gif,
}

module _ (w : Writers) where
  png_frames_frame :
      (fs : Fs) (frames output q : AbsPath)
      → q ≢ output
      → lookup q (png_frames_to_gif w fs frames output).1 ≡ lookup q fs
  unfolding png_frames_to_gif
  png_frames_frame fs frames output q other =
      let same = w.encode_only fs frames output q other in
      elim (Bool-cases (w.encode fs frames output).0) [
        | inl e ↦ elim (Bool-cases (is_some (lookup output (w.encode fs frames output).1))) [
          | inl e' ↦ rw (e, e', png_frames_to_gif) same
          | inr e' ↦ rw (e, e', png_frames_to_gif) same
        ]
        | inr e ↦ rw (e, png_frames_to_gif) same
      ]

  in_frames_dir_frame :
      (fs : Fs) (input : AbsPath) (json : Bytes) (frames q : AbsPath)
      → under frames q ≡ false
      → q ≢ with_gif input
      → lookup q (in_frames_dir w fs input json frames).1 ≡ lookup q fs
  unfolding in_frames_dir
  in_frames_dir_frame fs input json frames q out other =
      let fs' = (w.write_json fs frames json).1 in
      let fs'' = (w.render fs' frames).1 in
      let same = w.write_json_below fs frames json q out in
      let same' = w.render_below fs' frames q out ∙ same in
      elim (Bool-cases (w.write_json fs frames json).0) [
        | inl e ↦ elim (Bool-cases (w.render fs' frames).0) [
          | inl e' ↦
              rw (e, e', in_frames_dir)
                (png_frames_frame fs'' frames (with_gif input) q other ∙ same')
          | inr e' ↦ rw (e, e', in_frames_dir) same'
        ]
        | inr e ↦ rw (e, in_frames_dir) same
      ]

  module _ (f : Floats) (parse : Bytes → Option (LottieTiming f)) (sys : Sys) where
    render_tgs_frame :
        (fs : Fs) (input : AbsPath) (json : Bytes) (q : AbsPath)
        → ((p : AbsPath) → sys.remove_fails p ≡ false)
        → q ≢ with_gif input
        → lookup q (render_tgs w f parse sys fs input json).1 ≡ lookup q fs
    unfolding render_tgs
    render_tgs_frame fs input json q fine other =
        elim (Option-cases (validate_lottie_timing f (parse json))) [
          | inr (e, h) ↦ rw (h, render_tgs) refl
          | inl valid ↦ elim (Option-cases (w.mkdir_temp fs (dir input))) [
            | inl h ↦ rw (valid, h, render_tgs) refl
            | inr ((frames, fs'), h) ↦
                let fs'' = (in_frames_dir w fs' input json frames).1 in
                let (fresh, kept) = w.mkdir_temp_new fs (dir input) frames fs' h q in
                rw (valid, h, render_tgs)
                  (remove_all_lem sys fs'' frames q (fine frames)
                    ∙ elim (Bool-cases (under frames q)) [
                      | inl e ↦ rw e (sym (fresh e))
                      | inr e ↦ rw e (in_frames_dir_frame fs' input json frames q e other ∙ kept e)
                    ])
          ]
        ]

    -- If its removals do not fail, tgsToGif leaves every path but that of the GIF as it was, however
    -- it ends: the directory of the frames is gone.
    pub tgs_to_gif_frame :
        (fs : Fs) (input : AbsPath) (source : Source) (q : AbsPath)
        → ((p : AbsPath) → sys.remove_fails p ≡ false)
        → q ≢ with_gif input
        → lookup q (tgs_to_gif w f parse sys fs input source).1 ≡ lookup q fs
    unfolding tgs_to_gif
    tgs_to_gif_frame fs input source q fine other =
        elim (Decoded-cases (read_tgs source max_tgs_json_size)) [
          | inl (json, e) ↦ rw (e, tgs_to_gif) (render_tgs_frame fs input json q fine other)
          | inr (err, e) ↦ rw (e, tgs_to_gif) refl
        ]
