-- ===== src/Command/Download/Tests.antt =====
-- Examples for the downloads of internal/command/download.go.
use x_sticker_bot.Base.{
  ℕ, ◌≡◌, ◌≤◌, refl, ap, subst, true, false, Option, none, some, List, [], ◌∷◌, ◌++◌, arith, length,
  Bytes, codes, sum_by, insert, lookup-insert, ◌⊎◌, get_elem?,
}
use mathlib.Core.Option.{some-injective}
use x_sticker_bot.Base.FilePath.{AbsPath, path_eq, eq_path_iff, Lacks, slash}
use x_sticker_bot.Telegram.{Sticker}
use x_sticker_bot.Storage.Temp.{Fs, Node, Sys, TempManager}
use x_sticker_bot.Command.Services.{within, Keeps, Services, Beside}
use x_sticker_bot.Command.Services.Keeping.{within_self}
use x_sticker_bot.Command.Sets.{run, step, act, throttled, Worker, waiting}
use x_sticker_bot.Command.Sets.Waiting.{can_act, crew_returns}
use x_sticker_bot.Command.Sets.Counts.{
  at_work, at_work_bounded, stored, crew, run-Finished, Finished,
}
use x_sticker_bot.Command.Download.{handle_download, handle_animation_download}
use x_sticker_bot.Command.Download.Answers.{answers, handlers_answer}

abbrev file : Node
file = record { is_dir = false; mod_time = 5 }

pub insert-Keeps : (p k : AbsPath) (fs : Fs) → within p k ≡ true → Keeps p fs (insert k file fs)
insert-Keeps p k fs h q out =
    ground (arith, lookup-insert k q file fs, eq_path_iff k q, h, ap (within p))

-- A conversion that writes the file with one more suffix.
abbrev pub suffixed : Bytes → Fs → AbsPath → Option AbsPath × Fs
suffixed ext fs [] = (none, fs)
suffixed ext fs (s ∷ p) = (some ((s ++ ext) ∷ p), insert ((s ++ ext) ∷ p) file fs)

pub suffixed-Beside : (ext : Bytes) → Beside (suffixed ext)
unfolding within
suffixed-Beside ext fs dir [] h = absurd (cc h)
suffixed-Beside ext fs dir (s ∷ p) h = (
  insert-Keeps dir ((s ++ ext) ∷ p) fs h,
  λ out e. subst (λ x. within dir x ≡ true) (some-injective ((s ++ ext) ∷ p) out e) h,
)

abbrev pub cat : Sticker
cat = record { file_id = codes "cat"; set_name = []; is_video = false; is_animated = false }

abbrev dog : Sticker
dog = record {
  file_id = codes "dog";
  set_name = codes "pets";
  is_video = true;
  is_animated = false;
}

abbrev pets : List Sticker
pets = cat ∷ dog ∷ []

-- A download under the name with a suffix.
abbrev pub fetched : Bytes → Fs → Bytes → AbsPath → Bytes → Option AbsPath × Fs
fetched ext fs file_id dir name = let p = (name ++ ext) ∷ dir in (some p, insert p file fs)

pub fetched-Keeps :
    (ext : Bytes) (fs : Fs) (file_id : Bytes) (dir : AbsPath) (name : Bytes)
    → Keeps dir fs (fetched ext fs file_id dir name).1
      × ((p : AbsPath) → (fetched ext fs file_id dir name).0 ≡ some p → within dir p ≡ true)
fetched-Keeps ext fs file_id dir name =
    let p = (name ++ ext) ∷ dir in
    let inside = within_self (name ++ ext) dir in
    (
      insert-Keeps dir p fs inside,
      λ out e. subst (λ x. within dir x ≡ true) (some-injective p out e) inside,
    )

pub ab-Lacks : Lacks slash (codes "ab")
ab-Lacks = ground arith

unfoldable pub services : Services
services = record {
  hex = λ n. codes "ab";
  hex-Lacks = λ n. ab-Lacks;
  sticker_set = λ name. some pets;
  fetch = fetched (codes ".webp");
  fetch-Keeps = λ fs file_id dir name seg. fetched-Keeps (codes ".webp") fs file_id dir name;
  to_gif = suffixed (codes ".gif");
  to_gif-Beside = suffixed-Beside (codes ".gif");
  to_png = suffixed (codes ".png");
  to_png-Beside = suffixed-Beside (codes ".png");
  f_compress = λ fs zip files. (true, insert zip file fs);
  f_compress-Keeps = λ fs dir zip files h. insert-Keeps dir zip fs h;
  f_compress_vol = λ fs zip files. (some (zip ∷ []), insert zip file fs);
  f_compress_vol-Keeps = λ fs dir zip files h. insert-Keeps dir zip fs h;
  sends = λ fs p. true;
  progress_sent = true;
}

-- Each goroutine acts seven times, the second one between the actions of the first.
abbrev schedule : List (ℕ × ℕ)
schedule =
    (0, 10)
    ∷ (1, 11)
    ∷ (0, 12)
    ∷ (0, 13)
    ∷ (1, 14)
    ∷ (0, 15)
    ∷ (0, 16)
    ∷ (0, 5000)
    ∷ (0, 5001)
    ∷ (1, 5002)
    ∷ (1, 5003)
    ∷ (1, 5004)
    ∷ (1, 5005)
    ∷ (1, 5006)
    ∷ []

abbrev work : AbsPath
work = codes "pets" ∷ codes "tmp" ∷ []

at_work_bounded_example :
    sum_by at_work (crew services (codes "pets") work [] pets schedule).workers ≤ 4
at_work_bounded_example = at_work_bounded services (codes "pets") work [] pets schedule

run-Finished_example :
    ((crew services (codes "pets") work [] pets schedule).sem ≡ 0)
    × ((crew services (codes "pets") work [] pets schedule).completed ≡ 2)
    × (length (crew services (codes "pets") work [] pets schedule).original_files
        ≡ sum_by stored (crew services (codes "pets") work [] pets schedule).workers)
    × (length (crew services (codes "pets") work [] pets schedule).converted_files
        ≡ length (crew services (codes "pets") work [] pets schedule).original_files)
unfolding run step act throttled services
run-Finished_example = run-Finished services (codes "pets") work [] pets schedule (refl, (refl, tt))

abbrev first_moves : List (ℕ × ℕ)
first_moves = (0, 10) ∷ (1, 11) ∷ []

crew_returns_example :
    (2 ≤ 14)
    × (Finished (crew services (codes "pets") work [] pets first_moves)
        ⊎ ((i : ℕ) × (w : Worker) × (get_elem?
                (crew services (codes "pets") work [] pets first_moves).workers
                i
              ≡ some w)
            × (can_act (crew services (codes "pets") work [] pets first_moves) w ≡ true)))
unfolding step act throttled services
crew_returns_example =
    crew_returns services (codes "pets") work [] pets first_moves
      ((waiting, refl, refl), ((waiting, refl, refl), tt))

-- A system with no working directory, where no call fails.
abbrev pub system : Sys
system = record {
  cwd = none;
  mkdir_fails = λ p. false;
  read_dir_fails = λ p. false;
  info_fails = λ p. false;
  remove_fails = λ p. false;
  partial_remove = λ p fs. fs;
  partial_outside = λ p q fs h. refl;
}

abbrev tmp : TempManager
tmp = record { base_dir = codes "tmp" ∷ [] }

abbrev base_node : Node
base_node = record { is_dir = true; mod_time = 1 }

abbrev base_fs : Fs
base_fs = (codes "tmp" ∷ [], base_node) ∷ []

abbrev random : List ℕ
random = 1 ∷ 2 ∷ 3 ∷ 4 ∷ 5 ∷ 6 ∷ 7 ∷ 8 ∷ []

handlers_answer_example :
    (answers (handle_download services system tmp 9 (some random) base_fs (some cat) [] []).0
      ≡ true)
    × (answers
          (handle_animation_download services system tmp 9 (some random) base_fs (codes "cat")).0
        ≡ true)
handlers_answer_example =
    handlers_answer services system tmp 9 (some random) base_fs (some cat) [] [] (codes "cat")
