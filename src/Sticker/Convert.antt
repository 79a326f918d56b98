-- ===== src/Sticker/Convert.antt =====
-- internal/sticker/convert.go: which programs run with which arguments, and what becomes of their
-- results. The programs and the files are the record `Tools`; paths are texts as in the source.
pub mod Video
pub mod Frames
mod Tests
use x_sticker_bot.Base.{
  ℕ, zero, suc, ◌+◌, ◌*◌, Bool, true, false, ◌&&◌, ◌||◌, not, Option, none, some, List, [], ◌∷◌,
  ◌++◌, if◌then◌else◌, ltb, leb, ◌==◌, length, take, drop, Bytes, codes, eq_bytes, has_suffix,
  contains, to_lower,
}
use mathlib.Core.List.{reverse}
use x_sticker_bot.Sticker.Programs.{
  Tools, Binaries, ffmpeg_bin, lottie_to_png_bin, bsdtar_bin, kib, mib, initial, init_convert,
  size_args, scale_100, bitrate_profiles, base_args, has_anim_warning, encode_args, gif_args,
}
use x_sticker_bot.Base.Int.{ℤ, pos, negsuc, atoi}

pub data ConvertError : Type 0 where
  tool_failed stat_failed too_large bad_count no_frames : ConvertError
  -- no result within the rounds given
  out_of_fuel : ConvertError

pub data Converted : Type 0 where
  converted : Bytes → Converted
  failed : ConvertError → Converted

abbrev pub sticker_limit : ℕ
sticker_limit = 255 * kib

-- strings.TrimSpace on ASCII.
abbrev pub is_ascii_space : ℕ → Bool
is_ascii_space c = (leb 9 c && leb c 13) || (c == b' ')

unfoldable pub trim_left : Bytes → Bytes
trim_left [] = []
trim_left (c ∷ s) = elim (is_ascii_space c) [ true ↦ trim_left s | false ↦ c ∷ s ]

unfoldable pub trim_space : Bytes → Bytes
unfolding trim_left
trim_space s = reverse (trim_left (reverse (trim_left s)))

pub data Encoded : Type 0 where
  fits unreadable none_fits : Encoded
  -- the run failed with this output
  broken : Bytes → Encoded

-- How a round of ToWebmVideo ends: with a result, or a call on this APNG file.
pub data Round : Type 0 where
  done : Converted → Round
  again : Bytes → Round

-- What SmartConvert decides by the output of identify.
pub data FrameCount : Type 0 where
  unparsed no_frame one_frame many_frames : FrameCount

unfoldable pub frames_of : Bytes → FrameCount
unfolding trim_space atoi
frames_of out =
    let text = trim_space out in
    elim (atoi (if ltb 5 (length text) then take 3 text else text)) [
      | none ↦ unparsed
      | some (negsuc n) ↦ one_frame
      | some (pos n) ↦ if n == 0 then no_frame else if ltb 1 n then many_frames else one_frame
    ]

module _ (t : Tools) (b : Binaries) where
  pub check_deps_from : List Bytes → List Bytes
  check_deps_from [] = []
  check_deps_from (bin ∷ bins) =
      let rest = check_deps_from bins in if t.look_path bin then rest else bin ∷ rest

  pub check_deps : List Bytes
  unfolding check_deps_from
  check_deps =
      check_deps_from
        (ffmpeg_bin ∷ lottie_to_png_bin ∷ bsdtar_bin ∷ b.convert_bin ∷ codes "gifsicle" ∷ [])

  -- A program that is run once and whose output file is the result.
  abbrev pub run_to : t.World → Bytes → List Bytes → Bytes → Converted × t.World
  run_to w bin args path_out =
      let (ok, out, w') = t.run w bin args in
      (if ok then converted path_out else failed tool_failed, w')

  pub to_png : t.World → Bytes → Converted × t.World
  to_png w f =
      let path_out = f ++ codes ".png" in
      run_to w b.convert_bin (b.convert_args ++ ((f ++ codes "[0]") ∷ path_out ∷ [])) path_out

  pub to_apng : t.World → Bytes → Converted × t.World
  to_apng w f =
      let path_out = f ++ codes ".apng" in
      run_to w b.convert_bin (b.convert_args ++ (f ∷ path_out ∷ [])) path_out

  -- The arguments of the first run of ToWebpStatic.
  abbrev pub lossless_args : Bytes → Bool → List Bytes
  lossless_args f is_custom_emoji =
      b.convert_args
      ++ ((if is_custom_emoji
            then codes "-resize"
              ∷ codes "100x100"
              ∷ codes "-gravity"
              ∷ codes "center"
              ∷ codes "-extent"
              ∷ codes "100x100"
              ∷ codes "-background"
              ∷ codes "none"
              ∷ []
            else codes "-resize" ∷ codes "512x512" ∷ [])
          ++ (codes "-filter"
              ∷ codes "Lanczos"
              ∷ codes "-define"
              ∷ codes "webp:lossless=true"
              ∷ (f ++ codes "[0]")
              ∷ (f ++ codes ".webp")
              ∷ []))

  abbrev pub lossy_args : Bytes → List Bytes
  lossy_args f =
      b.convert_args
      ++ (codes "-resize"
          ∷ codes "512x512"
          ∷ codes "-filter"
          ∷ codes "Lanczos"
          ∷ (f ++ codes "[0]")
          ∷ (f ++ codes ".webp")
          ∷ [])

  pub to_webp_static : t.World → Bytes → Bool → Converted × t.World
  to_webp_static w f is_custom_emoji =
      let path_out = f ++ codes ".webp" in
      let (ok, out, w') = t.run w b.convert_bin (lossless_args f is_custom_emoji) in
      if ok
      then elim (t.file_size w' path_out) [
        | none ↦ (failed stat_failed, w')
        | some size ↦
            if ltb sticker_limit size
            then run_to w' b.convert_bin (lossy_args f) path_out
            else (converted path_out, w')
      ]
      else (failed tool_failed, w')

  -- The loop over the profiles.
  pub encode_loop : List (List Bytes) → t.World → List Bytes → Bytes → Encoded × t.World
  encode_loop [] w args path_out = (none_fits, w)
  encode_loop (profile ∷ profiles) w args path_out =
      let (ok, out, w') = t.run w ffmpeg_bin (encode_args args profile path_out) in
      let rest = encode_loop profiles w' args path_out in
      if ok
      then elim (t.file_size w' path_out) [
        | none ↦ (unreadable, w')
        | some size ↦ if leb size sticker_limit then (fits, w') else rest
      ]
      else (broken out, w')

  -- ToWebmVideo up to its recursive call.
  pub webm_round : t.World → Bytes → Bool → Round × t.World
  unfolding encode_loop to_apng
  webm_round w f is_custom_emoji =
      let path_out = f ++ codes ".webm" in
      let (e, w') = encode_loop bitrate_profiles w (base_args f is_custom_emoji) path_out in
      let (png, w'') = to_apng w' f in
      elim e [
        | fits ↦ (done (converted path_out), w')
        | unreadable ↦ (done (failed stat_failed), w')
        | none_fits ↦ (done (failed too_large), w')
        | broken out ↦
            if has_anim_warning out
            then elim png [
              | failed err ↦ (done (failed err), w'')
              | converted apng ↦ (again apng, w'')
            ]
            else (done (failed tool_failed), w')
      ]

  -- The recursion is on fuel: each round takes the APNG of the one before.
  pub to_webm_video : ℕ → t.World → Bytes → Bool → Converted × t.World
  unfolding webm_round
  to_webm_video zero w f is_custom_emoji = (failed out_of_fuel, w)
  to_webm_video (suc fuel) w f is_custom_emoji = elim (webm_round w f is_custom_emoji).0 [
    | done c ↦ (c, (webm_round w f is_custom_emoji).1)
    | again apng ↦ to_webm_video fuel (webm_round w f is_custom_emoji).1 apng is_custom_emoji
  ]

  pub to_webm_safe : t.World → Bytes → Bool → Converted × t.World
  to_webm_safe w f is_custom_emoji =
      let path_out = f ++ codes ".webm" in
      run_to w ffmpeg_bin
        (codes "-hide_banner"
          ∷ codes "-i"
          ∷ f
          ∷ (size_args is_custom_emoji scale_100
                (codes "scale=512:512:force_original_aspect_ratio=decrease:flags=lanczos")
              ++ (codes "-pix_fmt"
                  ∷ codes "yuva420p"
                  ∷ codes "-c:v"
                  ∷ codes "libvpx-vp9"
                  ∷ codes "-cpu-used"
                  ∷ codes "5"
                  ∷ codes "-minrate"
                  ∷ codes "50k"
                  ∷ codes "-b:v"
                  ∷ codes "200k"
                  ∷ codes "-maxrate"
                  ∷ codes "300k"
                  ∷ codes "-to"
                  ∷ codes "00:00:02.800"
                  ∷ codes "-r"
                  ∷ codes "30"
                  ∷ codes "-an"
                  ∷ codes "-y"
                  ∷ path_out
                  ∷ [])))
        path_out

  -- ToGif of an input that is no .tgs file; the result of gifsicle is of no account.
  pub video_to_gif : t.World → Bytes → Converted × t.World
  video_to_gif w f =
      let path_out = f ++ codes ".gif" in
      let (ok, out, w') = t.run w ffmpeg_bin (gif_args f path_out) in
      let (ok', out', w'') =
        t.run w' (codes "gifsicle")
          (codes "--batch" ∷ codes "-O2" ∷ codes "--lossy=60" ∷ path_out ∷ []) in
      if ok then (converted path_out, w'') else (failed tool_failed, w')

  pub smart_convert : ℕ → t.World → Bytes → Bool → Converted × t.World
  unfolding frames_of to_webm_video to_webp_static
  smart_convert fuel w f is_custom_emoji =
      let (ok, out, w') =
        t.run w b.identify_bin (b.identify_args ++ (codes "-format" ∷ codes "%n" ∷ f ∷ [])) in
      if ok
      then elim (frames_of out) [
        | unparsed ↦ (failed bad_count, w')
        | no_frame ↦ (failed no_frames, w')
        | many_frames ↦ to_webm_video fuel w' f is_custom_emoji
        | one_frame ↦ to_webp_static w' f is_custom_emoji
      ]
      else (failed tool_failed, w')
