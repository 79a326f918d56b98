-- ===== src/Sticker/Programs.antt =====
-- internal/sticker/convert.go: the programs that are run, and the arguments of ffmpeg.
use x_sticker_bot.Base.{
  ℕ, ◌*◌, Bool, Option, List, [], ◌∷◌, ◌++◌, if◌then◌else◌, Bytes, codes, eq_bytes, has_suffix,
  contains,
}

-- What stands outside: `run` is exec.Command and CombinedOutput, whether it succeeded, its output,
-- and what it has changed.
pub record Tools : Type 1 where
  pub World : Type 0
  pub run : World → Bytes → List Bytes → Bool × Bytes × World
  pub file_size : World → Bytes → Option ℕ
  pub look_path : Bytes → Bool

-- The package's variables.
pub record Binaries : Type 0 where
  pub convert_bin : Bytes
  pub identify_bin : Bytes
  pub convert_args : List Bytes
  pub identify_args : List Bytes

abbrev pub ffmpeg_bin : Bytes
ffmpeg_bin = codes "ffmpeg"

abbrev pub lottie_to_png_bin : Bytes
lottie_to_png_bin = codes "lottie_to_png"

abbrev pub bsdtar_bin : Bytes
bsdtar_bin = codes "bsdtar"

abbrev pub kib : ℕ
kib = 1024

abbrev pub mib : ℕ
mib = 1024 * kib

abbrev pub initial : Binaries
initial = record {
  convert_bin = codes "convert";
  identify_bin = codes "identify";
  convert_args = [];
  identify_args = [];
}

-- The variables that InitConvert sets; `goos` is runtime.GOOS.
pub init_convert : Bytes → Binaries → Binaries
init_convert goos b =
    if eq_bytes goos (codes "linux") then record b { convert_bin = codes "convert" } else record b {
      convert_bin = codes "magick";
      identify_bin = codes "magick";
      convert_args = codes "convert" ∷ [];
      identify_args = codes "identify" ∷ [];
    }

abbrev pub size_args : Bool → Bytes → Bytes → List Bytes
size_args is_custom_emoji small large =
    codes "-vf" ∷ (if is_custom_emoji then small else large) ∷ []

abbrev pub scale_100 : Bytes
scale_100 = codes "scale=100:100:force_original_aspect_ratio=decrease"

-- The bitrates that ToWebmVideo tries.
unfoldable pub bitrate_profiles : List (List Bytes)
bitrate_profiles =
    (codes "-minrate"
      ∷ codes "50k"
      ∷ codes "-b:v"
      ∷ codes "350k"
      ∷ codes "-maxrate"
      ∷ codes "450k"
      ∷ [])
    ∷ (codes "-minrate"
        ∷ codes "50k"
        ∷ codes "-b:v"
        ∷ codes "200k"
        ∷ codes "-maxrate"
        ∷ codes "300k"
        ∷ [])
    ∷ (codes "-minrate"
        ∷ codes "20k"
        ∷ codes "-b:v"
        ∷ codes "100k"
        ∷ codes "-maxrate"
        ∷ codes "200k"
        ∷ [])
    ∷ (codes "-minrate"
        ∷ codes "10k"
        ∷ codes "-b:v"
        ∷ codes "50k"
        ∷ codes "-maxrate"
        ∷ codes "100k"
        ∷ [])
    ∷ []

unfoldable pub base_args : Bytes → Bool → List Bytes
base_args f is_custom_emoji =
    codes "-hide_banner"
    ∷ codes "-i"
    ∷ f
    ∷ (size_args is_custom_emoji scale_100
          (codes "scale=512:512:force_original_aspect_ratio=decrease")
        ++ (codes "-pix_fmt"
            ∷ codes "yuva420p"
            ∷ codes "-c:v"
            ∷ codes "libvpx-vp9"
            ∷ codes "-cpu-used"
            ∷ codes "5"
            ∷ []))

-- What ffmpeg prints of an animated WEBP.
unfoldable pub has_anim_warning : Bytes → Bool
has_anim_warning out = contains out (codes "skipping unsupported chunk: ANIM")

-- The arguments of one attempt.
unfoldable pub encode_args : List Bytes → List Bytes → Bytes → List Bytes
encode_args args profile path_out =
    args ++ (profile ++ (codes "-to" ∷ codes "00:00:03" ∷ codes "-an" ∷ codes "-y" ∷ path_out ∷ []))

pub gif_args : Bytes → Bytes → List Bytes
gif_args f path_out =
    (if has_suffix f (codes ".webm") then codes "-c:v" ∷ codes "libvpx-vp9" ∷ [] else [])
    ++ (codes "-i"
        ∷ f
        ∷ codes "-hide_banner"
        ∷ codes "-lavfi"
        ∷ codes
            "scale='min(256,iw)':-1:flags=lanczos,fps=15,split[a][b];[a]palettegen[p];[b][p]paletteuse=dither=atkinson"
        ∷ codes "-gifflags"
        ∷ codes "-transdiff"
        ∷ codes "-gifflags"
        ∷ codes "-offsetting"
        ∷ codes "-loglevel"
        ∷ codes "error"
        ∷ codes "-y"
        ∷ path_out
        ∷ [])
