-- ===== src/Sticker/Convert/Video.antt =====
-- ToWebmVideo keeps to the size limit, and its recursion ends.
use x_sticker_bot.Base.{
  ℕ, zero, suc, ◌*◌, ◌≤◌, ◌≡◌, refl, Bool, true, false, some, List, [], ◌∷◌, ◌++◌, arith, leb,
  Bytes, codes, Bool-cases, Option-cases, inl, inr, ◌⊎◌,
}
use x_sticker_bot.Sticker.Programs.{
  Tools, Binaries, ffmpeg_bin, base_args, bitrate_profiles, encode_args, has_anim_warning,
}
use x_sticker_bot.Sticker.Convert.{
  Converted, converted, sticker_limit, fits, encode_loop, Round, done, again, webm_round,
  to_webm_video,
}

Round-cases : (r : Round) → ((c : Converted) × (r ≡ done c)) ⊎ ((apng : Bytes) × (r ≡ again apng))
Round-cases (done c) = inl (c, refl)
Round-cases (again apng) = inr (apng, refl)

module _ (t : Tools) (b : Binaries) where
  -- The file is there and within the limit of Telegram.
  abbrev pub Small : t.World → Bytes → Type 0
  Small w path = (size : ℕ) × (t.file_size w path ≡ some size) × (size ≤ 255 * 1024)

  encode_loop-Small :
      (profiles : List (List Bytes)) (w : t.World) (args : List Bytes) (path : Bytes)
      → (encode_loop t b profiles w args path).0 ≡ fits
      → Small (encode_loop t b profiles w args path).1 path
  unfolding encode_loop
  encode_loop-Small [] w args path h = absurd (cc h)
  encode_loop-Small (profile ∷ profiles) w args path h =
      let r = t.run w ffmpeg_bin (encode_args args profile path) in
      elim (Bool-cases r.0) [
        | inr broke ↦ absurd (ground arith)
        | inl ran ↦ elim (Option-cases (t.file_size r.2 path)) [
          | inl gone ↦ absurd (ground arith)
          | inr (size, e) ↦ elim (Bool-cases (leb size sticker_limit)) [
            | inl small ↦ rw (ran, e, small, encode_loop) (size, e, ground arith)
            | inr large ↦
                let later : (encode_loop t b profiles r.2 args path).0 ≡ fits = ground arith in
                rw (ran, e, large, encode_loop) (encode_loop-Small profiles r.2 args path later)
          ]
        ]
      ]

  -- The world after ffmpeg has run with these profiles.
  abbrev pub encoded : List (List Bytes) → t.World → List Bytes → Bytes → t.World
  encoded [] w args path = w
  encoded (profile ∷ profiles) w args path =
      encoded profiles (t.run w ffmpeg_bin (encode_args args profile path)).2 args path

  -- ffmpeg fails with a profile after it has run with those before, and says `out`.
  abbrev pub FailsWith : List (List Bytes) → t.World → List Bytes → Bytes → Bytes → Type 0
  FailsWith profiles w args path out =
      (before : List (List Bytes)) × (profile : List Bytes) × (after : List (List Bytes))
      × (profiles ≡ before ++ (profile ∷ after))
      × (let r = t.run (encoded before w args path) ffmpeg_bin (encode_args args profile path) in
          (r.0 ≡ false) × (r.1 ≡ out))

  webm_round-Small :
      (w : t.World) (f : Bytes) (emoji : Bool) (path : Bytes)
      → (webm_round t b w f emoji).0 ≡ done (converted path)
      → Small (webm_round t b w f emoji).1 path
  unfolding webm_round
  webm_round-Small w f emoji path h =
      let found = encode_loop-Small bitrate_profiles w (base_args f emoji) (f ++ codes ".webm") in
      ground (arith, found)

  -- A video that ToWebmVideo returns is there when it returns, with at most 255 KiB.
  pub to_webm_video-Small :
      (fuel : ℕ) (w : t.World) (f : Bytes) (is_custom_emoji : Bool) (path : Bytes)
      → (to_webm_video t b fuel w f is_custom_emoji).0 ≡ converted path
      → Small (to_webm_video t b fuel w f is_custom_emoji).1 path
  unfolding to_webm_video
  to_webm_video-Small zero w f emoji path h = absurd (cc h)
  to_webm_video-Small (suc fuel) w f emoji path h =
      let w' = (webm_round t b w f emoji).1 in
      elim (Round-cases (webm_round t b w f emoji).0) [
        | inl (c, e) ↦ rw (e, to_webm_video) (webm_round-Small w f emoji path (ground arith))
        | inr (apng, e) ↦
            rw (e, to_webm_video) (to_webm_video-Small fuel w' apng emoji path (ground arith))
      ]

  -- ffmpeg refuses the input with the warning on an animated WEBP.
  abbrev pub WarnsOf : t.World → Bytes → Bool → Type 0
  WarnsOf w f emoji =
      (out : Bytes) × FailsWith bitrate_profiles w (base_args f emoji) (f ++ codes ".webm") out
      × (has_anim_warning out ≡ true)
