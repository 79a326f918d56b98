-- ===== src/Sticker/Tgs/Timing.antt =====
-- What tgsToGif renders is small, short and has no images.
use x_sticker_bot.Base.{
  ℕ, suc, ◌≤◌, ◌≡◌, ◌⊎◌, refl, ap, sym, ◌∙◌, true, false, Option, none, some, List, [], ◌∷◌, arith,
  length, take, Bytes, All, length-take, take_all, Option-cases, inl, inr,
}
use x_sticker_bot.Base.FilePath.{AbsPath, dir}
use x_sticker_bot.Storage.Temp.{Fs, Sys}
use x_sticker_bot.Sticker.Tgs.{
  TgsError, Source, unreadable, not_gzip, stream, Decoded, decoded, refused, read_tgs,
  max_tgs_json_size, Floats, LottieTiming, finite, has_key, any_key, image_keys, any_image,
  validate_lottie_timing, Writers, gif, with_gif, png_frames_to_gif, in_frames_dir, render_tgs,
  tgs_to_gif,
}

pub Decoded-cases :
    (d : Decoded) → ((json : Bytes) × (d ≡ decoded json)) ⊎ ((e : TgsError) × (d ≡ refused e))
Decoded-cases (decoded json) = inl (json, refl)
Decoded-cases (refused e) = inr (e, refl)

-- readTGS gives the data of a file only if all of it can be decompressed and it is not too long.
read_tgs_lem :
    (source : Source) (limit : ℕ) (json : Bytes)
    → read_tgs source limit ≡ decoded json
    → (source ≡ stream json false) × (length json ≤ limit)
unfolding read_tgs
read_tgs_lem unreadable limit json h = absurd (cc h)
read_tgs_lem not_gzip limit json h = absurd (cc h)
read_tgs_lem (stream bytes true) limit json h =
    absurd (ground (arith, length-take (suc limit) bytes))
read_tgs_lem (stream bytes false) limit json h =
    let small : length (take (suc limit) bytes) ≤ limit = ground arith in
    let kept : take (suc limit) bytes ≡ json = ground arith in
    let same = sym (take_all limit bytes small) ∙ kept in
    (ap (λ b. stream b false) same, ground (arith, kept))

any_key-false :
    (ks asset : List Bytes) → any_key ks asset ≡ false → All (λ k. has_key k asset ≡ false) ks
unfolding any_key
any_key-false [] asset h = tt
any_key-false (k ∷ ks) asset h = (ground arith, any_key-false ks asset (ground arith))

-- No asset has a key that images have.
abbrev pub WithoutImages : List (List Bytes) → Type 0
WithoutImages = All (λ asset. All (λ k. has_key k asset ≡ false) image_keys)

any_image-WithoutImages :
    (assets : List (List Bytes)) → any_image assets ≡ false → WithoutImages assets
unfolding any_image
any_image-WithoutImages [] h = tt
any_image-WithoutImages (asset ∷ assets) h =
    (any_key-false image_keys asset (ground arith), any_image-WithoutImages assets (ground arith))

module _ (f : Floats) where
  -- Finite numbers, a rate above 0, an end behind the start, at most 3 seconds, and no images.
  abbrev pub IsPlayable : LottieTiming f → Type 0
  IsPlayable t =
      ((finite f t.frame_rate ≡ true)
        × (finite f t.in_point ≡ true)
        × (finite f t.out_point ≡ true))
      × ((f.le t.frame_rate f.zero ≡ false) × (f.le t.out_point t.in_point ≡ false))
      × (f.gt (f.div (f.sub t.out_point t.in_point) t.frame_rate) f.three ≡ false)
      × WithoutImages t.assets

  validate-IsPlayable :
      (timing : Option (LottieTiming f))
      → validate_lottie_timing f timing ≡ none
      → (t : LottieTiming f) × (timing ≡ some t) × IsPlayable t
  unfolding validate_lottie_timing
  validate-IsPlayable none h = absurd (cc h)
  validate-IsPlayable (some t) h = (
    t,
    refl,
    (
      (ground arith, ground arith, ground arith),
      (ground arith, ground arith),
      ground arith,
      any_image-WithoutImages t.assets (ground arith),
    ),
  )

in_frames_dir-with_gif :
    (w : Writers) (fs : Fs) (input : AbsPath) (json : Bytes) (frames out : AbsPath)
    → (in_frames_dir w fs input json frames).0 ≡ gif out
    → out ≡ with_gif input
unfolding in_frames_dir png_frames_to_gif
in_frames_dir-with_gif w fs input json frames out h = ground arith

module _ (w : Writers) (f : Floats) (parse : Bytes → Option (LottieTiming f)) (sys : Sys) where
  render_tgs-IsPlayable :
      (fs : Fs) (input : AbsPath) (json : Bytes) (out : AbsPath)
      → (render_tgs w f parse sys fs input json).0 ≡ gif out
      → ((t : LottieTiming f) × (parse json ≡ some t) × IsPlayable f t) × (out ≡ with_gif input)
  unfolding render_tgs
  render_tgs-IsPlayable fs input json out h =
      elim (Option-cases (validate_lottie_timing f (parse json))) [
        | inr (e, refusal) ↦ absurd (ground arith)
        | inl valid ↦ elim (Option-cases (w.mkdir_temp fs (dir input))) [
          | inl none_made ↦ absurd (ground arith)
          | inr ((frames, fs'), made) ↦
              let inside : (in_frames_dir w fs' input json frames).0 ≡ gif out = ground arith in
              (
                validate-IsPlayable f (parse json) valid,
                in_frames_dir-with_gif w fs' input json frames out inside,
              )
        ]
      ]

  -- A GIF that tgsToGif returns stands beside its input, which is a whole gzip stream of at most
  -- 5 MiB; the JSON in it has a frame rate above 0, finite times in order that are at most 3 seconds
  -- apart, and no asset with an image.
  pub tgs_to_gif-IsPlayable :
      (fs : Fs) (input : AbsPath) (source : Source) (out : AbsPath)
      → (tgs_to_gif w f parse sys fs input source).0 ≡ gif out
      → (json : Bytes) × (source ≡ stream json false)
        × (length json ≤ 5_242_880)
        × ((t : LottieTiming f) × (parse json ≡ some t) × IsPlayable f t)
        × (out ≡ with_gif input)
  unfolding tgs_to_gif
  tgs_to_gif-IsPlayable fs input source out h =
      elim (Decoded-cases (read_tgs source max_tgs_json_size)) [
        | inr (e, refusal) ↦ absurd (ground arith)
        | inl (json, e) ↦
            let (whole, small) = read_tgs_lem source max_tgs_json_size json e in
            let (playable, beside) = render_tgs-IsPlayable fs input json out (ground arith) in
            (json, whole, small, playable, beside)
      ]
