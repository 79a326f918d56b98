-- ===== src/Sticker/Tgs.antt =====
-- internal/sticker/tgs.go. The gzip reader, the JSON decoder and the numbers of type float64 are
-- parameters; the programs that are run write to the file system of Storage/Temp.
pub mod Timing
pub mod Frames
pub mod Tests
use x_sticker_bot.Base.{
  ℕ, suc, ◌*◌, ◌≡◌, ◌≢◌, Bool, true, false, ◌&&◌, ◌||◌, not, Option, none, some, List, [], ◌∷◌,
  ◌++◌, if◌then◌else◌, ltb, leb, length, take, Bytes, codes, eq_bytes, lookup, is_some,
}
use x_sticker_bot.Base.FilePath.{AbsPath, path_eq, dir, join}
use x_sticker_bot.Storage.Temp.{Fs, Sys, under, remove_all}

abbrev pub max_tgs_json_size : ℕ
max_tgs_json_size = 5 * (1024 * 1024)

pub data TgsError : Type 0 where
  open_failed gzip_failed decompress_failed json_too_large : TgsError
  parse_failed invalid_timing too_long image_assets : TgsError
  no_frames_dir write_failed render_failed encode_failed no_output : TgsError

-- A file: os.Open fails, the gzip header is bad, or what can be decompressed of it before the end,
-- or before an error if it is broken.
pub data Source : Type 0 where
  unreadable not_gzip : Source
  stream : Bytes → Bool → Source

-- readTGS: the data, or an error.
pub data Decoded : Type 0 where
  decoded : Bytes → Decoded
  refused : TgsError → Decoded

unfoldable pub read_tgs : Source → ℕ → Decoded
read_tgs unreadable limit = refused open_failed
read_tgs not_gzip limit = refused gzip_failed
read_tgs (stream bytes broken) limit =
    let kept = take (suc limit) bytes in
    if broken && leb (length bytes) limit
    then refused decompress_failed
    else if ltb limit (length kept)
    then refused json_too_large
    else decoded kept

-- What the program does with numbers of type float64.
pub record Floats : Type 1 where
  pub Float : Type 0
  pub is_nan : Float → Bool
  pub is_inf : Float → Bool
  pub zero : Float
  pub three : Float
  pub le : Float → Float → Bool
  pub gt : Float → Float → Bool
  pub sub : Float → Float → Float
  pub div : Float → Float → Float

unfoldable pub has_key : Bytes → List Bytes → Bool
has_key k [] = false
has_key k (j ∷ js) = eq_bytes j k || has_key k js

abbrev pub image_keys : List Bytes
image_keys = codes "p" ∷ codes "u" ∷ codes "e" ∷ []

-- The loop over the keys of one asset, and the loop over the assets.
unfoldable pub any_key : List Bytes → List Bytes → Bool
unfolding has_key
any_key [] asset = false
any_key (k ∷ ks) asset = if has_key k asset then true else any_key ks asset

unfoldable pub any_image : List (List Bytes) → Bool
unfolding any_key
any_image [] = false
any_image (asset ∷ assets) = if any_key image_keys asset then true else any_image assets

module _ (f : Floats) where
  -- Of an asset only the keys are read.
  pub record LottieTiming : Type 0 where
    pub frame_rate : f.Float
    pub in_point : f.Float
    pub out_point : f.Float
    pub assets : List (List Bytes)

  unfoldable pub finite : f.Float → Bool
  finite x = not (f.is_nan x) && not (f.is_inf x)

  unfoldable pub validate_lottie_timing : Option LottieTiming → Option TgsError
  unfolding finite any_image
  validate_lottie_timing none = some parse_failed
  validate_lottie_timing (some t) =
      if not (finite t.frame_rate)
        || (not (finite t.in_point)
            || (not (finite t.out_point)
                || (f.le t.frame_rate f.zero || f.le t.out_point t.in_point)))
      then some invalid_timing
      else if f.gt (f.div (f.sub t.out_point t.in_point) t.frame_rate) f.three
      then some too_long
      else if any_image t.assets
      then some image_assets
      else none

-- The calls that write: each changes what it is documented to write, and nothing else.
pub record Writers : Type 0 where
  pub mkdir_temp : Fs → AbsPath → Option (AbsPath × Fs)
  pub mkdir_temp_new :
      (fs : Fs) (parent p : AbsPath) (fs' : Fs)
      → mkdir_temp fs parent ≡ some (p, fs')
      → (q : AbsPath)
      → (under p q ≡ true → lookup q fs ≡ none) × (under p q ≡ false → lookup q fs' ≡ lookup q fs)
  -- os.WriteFile of the JSON into the directory, and the frames that lottie_to_png leaves there
  pub write_json : Fs → AbsPath → Bytes → Bool × Fs
  pub write_json_below :
      (fs : Fs) (p : AbsPath) (text : Bytes) (q : AbsPath)
      → under p q ≡ false
      → lookup q (write_json fs p text).1 ≡ lookup q fs
  pub render : Fs → AbsPath → Bool × Fs
  pub render_below :
      (fs : Fs) (p q : AbsPath) → under p q ≡ false → lookup q (render fs p).1 ≡ lookup q fs
  -- ffmpeg on the frames
  pub encode : Fs → AbsPath → AbsPath → Bool × Fs
  pub encode_only :
      (fs : Fs) (p output q : AbsPath) → q ≢ output → lookup q (encode fs p output).1 ≡ lookup q fs

pub data TgsGif : Type 0 where
  gif : AbsPath → TgsGif
  failed : TgsError → TgsGif

abbrev pub with_gif : AbsPath → AbsPath
with_gif [] = codes ".gif" ∷ []
with_gif (s ∷ p) = (s ++ codes ".gif") ∷ p

module _ (w : Writers) where
  -- pngFramesToGif.
  pub png_frames_to_gif : Fs → AbsPath → AbsPath → TgsGif × Fs
  png_frames_to_gif fs frames output =
      let (ok, fs') = w.encode fs frames output in
      if not ok
      then (failed encode_failed, fs')
      else if is_some (lookup output fs')
      then (gif output, fs')
      else (failed no_output, fs')

  -- tgsToGif in its directory for the frames.
  pub in_frames_dir : Fs → AbsPath → Bytes → AbsPath → TgsGif × Fs
  unfolding png_frames_to_gif
  in_frames_dir fs input json frames =
      let (written, fs') = w.write_json fs frames json in
      let (rendered, fs'') = w.render fs' frames in
      if not written
      then (failed write_failed, fs')
      else if not rendered
      then (failed render_failed, fs'')
      else png_frames_to_gif fs'' frames (with_gif input)

  module _ (f : Floats) (parse : Bytes → Option (LottieTiming f)) (sys : Sys) where
    -- tgsToGif behind readTGS, with the deferred removal.
    pub render_tgs : Fs → AbsPath → Bytes → TgsGif × Fs
    unfolding in_frames_dir
    render_tgs fs input json = elim (validate_lottie_timing f (parse json)) [
      | some e ↦ (failed e, fs)
      | none ↦ elim (w.mkdir_temp fs (dir input)) [
        | none ↦ (failed no_frames_dir, fs)
        | some (frames, fs') ↦
            let (result, fs'') = in_frames_dir fs' input json frames in
            (result, (remove_all sys fs'' frames).1)
      ]
    ]

    unfoldable pub tgs_to_gif : Fs → AbsPath → Source → TgsGif × Fs
    unfolding render_tgs
    tgs_to_gif fs input source = elim (read_tgs source max_tgs_json_size) [
      | refused e ↦ (failed e, fs)
      | decoded json ↦ render_tgs fs input json
    ]
