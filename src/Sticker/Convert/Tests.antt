-- ===== src/Sticker/Convert/Tests.antt =====
-- Examples for internal/sticker/convert.go.
use x_sticker_bot.Base.{
  ℕ, ◌≡◌, refl, Bool, true, false, none, some, List, [], ◌∷◌, if◌then◌else◌, Bytes, codes, eq_bytes,
  has_suffix, has_prefix, contains,
}
use x_sticker_bot.Sticker.Programs.{
  Tools, initial, ffmpeg_bin, bitrate_profiles, base_args, encode_args, has_anim_warning,
}
use x_sticker_bot.Sticker.Convert.{converted, to_webm_video, webm_round, encode_loop, to_apng}
use x_sticker_bot.Sticker.Convert.Video.{Small, to_webm_video-Small}

abbrev is_webp : List Bytes → Bool
unfolding has_suffix has_prefix
is_webp [] = false
is_webp (a ∷ []) = false
is_webp (a ∷ b ∷ []) = false
is_webp (a ∷ b ∷ input ∷ rest) = has_suffix input (codes ".webp")

abbrev ask : Bytes → Bytes
ask bin = if eq_bytes bin (codes "identify") then codes "121212121212121212121212" else []

-- The reply of ffmpeg.
abbrev reply : Bool → List ℕ → Bool × Bytes × List ℕ
reply refused w = elim refused [
  | true ↦ (false, codes "skipping unsupported chunk: ANIM", w)
  | false ↦ (true, [], elim w [ [] ↦ [] | size ∷ sizes ↦ sizes ])
]

-- Programs whose output gets smaller by each run; ffmpeg refuses a .webp, and identify sees twelve
-- frames.
abbrev tools : Tools
tools = record {
  World = List ℕ;
  run = λ w bin args. elim (eq_bytes bin ffmpeg_bin) [
    | true ↦ reply (is_webp args) w
    | false ↦ (true, ask bin, w)
  ];
  file_size = λ w path. elim w [ [] ↦ none | size ∷ sizes ↦ some size ];
  look_path = λ bin. true;
}

abbrev sizes : List ℕ
sizes = 0 ∷ 400_000 ∷ 200_000 ∷ []

to_webm_video_tried :
    to_webm_video tools initial 2 sizes (codes "cat.webp") false
    ≡ (converted (codes "cat.webp.apng.webm"), 200_000 ∷ [])
unfolding to_webm_video webm_round encode_loop to_apng has_anim_warning encode_args base_args
    eq_bytes contains has_prefix has_suffix bitrate_profiles
to_webm_video_tried = refl

to_webm_video-Small_example : Small tools initial (200_000 ∷ []) (codes "cat.webp.apng.webm")
unfolding to_webm_video webm_round encode_loop to_apng has_anim_warning encode_args base_args
    eq_bytes contains has_prefix has_suffix bitrate_profiles
to_webm_video-Small_example =
    to_webm_video-Small tools initial 2 sizes (codes "cat.webp") false (codes "cat.webp.apng.webm")
      refl
