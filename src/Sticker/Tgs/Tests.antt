-- ===== src/Sticker/Tgs/Tests.antt =====
-- Examples for internal/sticker/tgs.go.
use x_sticker_bot.Base.{
  ℕ, ◌-◌, ◌/◌, ◌≡◌, ◌≢◌, ◌≤◌, refl, ap, sym, subst, ◌∙◌, Bool, true, false, ◌||◌, Option, none,
  some, [], ◌∷◌, arith, if◌then◌else◌, leb, ltb, length, Bytes, codes, eq_bytes, lookup, insert,
  lookup-insert, Bool-cases, inl, inr,
}
use x_sticker_bot.Base.FilePath.{AbsPath, path_eq, eq_path, eq_path_iff, dir}
use x_sticker_bot.Storage.Temp.{Fs, Node, Sys, under}
use x_sticker_bot.Sticker.Tgs.{
  Source, stream, Floats, LottieTiming, Writers, gif, with_gif, tgs_to_gif, read_tgs,
  validate_lottie_timing,
}
use x_sticker_bot.Sticker.Tgs.Timing.{IsPlayable, tgs_to_gif-IsPlayable}
use x_sticker_bot.Sticker.Tgs.Frames.{tgs_to_gif_frame}

abbrev file : Node
file = record { is_dir = false; mod_time = 5 }

unfoldable pub any_under : AbsPath → Fs → Bool
any_under p [] = false
any_under p ((q, node) ∷ fs) = under p q || any_under p fs

any_under-lookup :
    (p q : AbsPath) (fs : Fs) → any_under p fs ≡ false → under p q ≡ true → lookup q fs ≡ none
unfolding any_under lookup
any_under-lookup p q [] h u = refl
any_under-lookup p q ((r, node) ∷ fs) h u =
    ground (arith, any_under-lookup p q fs, eq_path_iff r q, ap (under p))

under_refl : (p : AbsPath) → under p p ≡ true
unfolding under
under_refl [] = ground (arith, eq_path_iff [] [])
under_refl (s ∷ p) = ground (arith, eq_path_iff (s ∷ p) (s ∷ p))

pub insert_outside :
    (p q : AbsPath) (fs : Fs) → under p q ≡ false → lookup q (insert p file fs) ≡ lookup q fs
insert_outside p q fs h =
    ground (arith, lookup-insert p q file fs, eq_path_iff p q, under_refl p, ap (under p))

pub insert_other : (p q : AbsPath) (fs : Fs) → q ≢ p → lookup q (insert p file fs) ≡ lookup q fs
insert_other p q fs h = ground (arith, lookup-insert p q file fs, eq_path_iff p q)

abbrev frames_in : AbsPath → AbsPath
frames_in parent = codes ".tgs-frames-1" ∷ parent

abbrev make_frames : Fs → AbsPath → Option (AbsPath × Fs)
make_frames fs parent =
    if any_under (frames_in parent) fs
    then none
    else some (frames_in parent, insert (frames_in parent) file fs)

pub make_frames-new :
    (fs : Fs) (parent p : AbsPath) (fs' : Fs)
    → make_frames fs parent ≡ some (p, fs')
    → (q : AbsPath)
    → (under p q ≡ true → lookup q fs ≡ none) × (under p q ≡ false → lookup q fs' ≡ lookup q fs)
make_frames-new fs parent p fs' made q = elim (Bool-cases (any_under (frames_in parent) fs)) [
  | inl e ↦ absurd (ground arith)
  | inr e ↦
      let path : frames_in parent ≡ p = ground arith in
      let stored : insert (frames_in parent) file fs ≡ fs' = ground arith in
      (
        λ u.
            any_under-lookup (frames_in parent) q fs e (subst (λ x. under x q ≡ true) (sym path) u),
        λ u.
            sym (ap (lookup q) stored)
            ∙ insert_outside (frames_in parent) q fs (subst (λ x. under x q ≡ false) (sym path) u),
      )
]

unfoldable pub writers : Writers
writers = record {
  mkdir_temp = make_frames;
  mkdir_temp_new = make_frames-new;
  write_json = λ fs p text. (true, insert p file fs);
  write_json_below = λ fs p text q h. insert_outside p q fs h;
  render = λ fs p. (true, fs);
  render_below = λ fs p q h. refl;
  encode = λ fs p output. (true, insert output file fs);
  encode_only = λ fs p output q h. insert_other output q fs h;
}

-- Numbers that are never out of range.
abbrev pub floats : Floats
floats = record {
  Float = ℕ;
  is_nan = λ x. false;
  is_inf = λ x. false;
  zero = 0;
  three = 3;
  le = leb;
  gt = λ x y. ltb y x;
  sub = ◌-◌;
  div = ◌/◌;
}

abbrev pub timing : LottieTiming floats
timing = record { frame_rate = 60; in_point = 0; out_point = 120; assets = (codes "id" ∷ []) ∷ [] }

abbrev pub parse : Bytes → Option (LottieTiming floats)
parse json = some timing

abbrev system : Sys
system = record {
  cwd = none;
  mkdir_fails = λ p. false;
  read_dir_fails = λ p. false;
  info_fails = λ p. false;
  remove_fails = λ p. false;
  partial_remove = λ p fs. fs;
  partial_outside = λ p q fs h. refl;
}

abbrev cat : AbsPath
cat = codes "cat.tgs" ∷ codes "tmp" ∷ []

abbrev data_of_cat : Source
data_of_cat = stream (codes "{}") false

cat-other : cat ≢ with_gif cat
cat-other e = cc e

rendered : (tgs_to_gif writers floats parse system [] cat data_of_cat).0 ≡ gif (with_gif cat)
unfolding tgs_to_gif writers any_under read_tgs validate_lottie_timing eq_bytes lookup insert
    eq_path dir
rendered = refl

tgs_to_gif-IsPlayable_example :
    (json : Bytes) × (data_of_cat ≡ stream json false)
    × (length json ≤ 5_242_880)
    × ((t : LottieTiming floats) × (parse json ≡ some t) × IsPlayable floats t)
    × (with_gif cat ≡ with_gif cat)
tgs_to_gif-IsPlayable_example =
    tgs_to_gif-IsPlayable writers floats parse system [] cat data_of_cat (with_gif cat) rendered

tgs_to_gif_frame_example :
    lookup cat (tgs_to_gif writers floats parse system ((cat, file) ∷ []) cat data_of_cat).1
    ≡ lookup cat ((cat, file) ∷ [])
tgs_to_gif_frame_example =
    tgs_to_gif_frame writers floats parse system ((cat, file) ∷ []) cat data_of_cat cat (λ p. refl)
      cat-other
