-- ===== src/Command/Tests.antt =====
-- Examples for internal/command.
use x_sticker_bot.Base.{
  ℕ, ◌+◌, ◌*◌, ◌≤◌, ◌≡◌, refl, true, false, Option, none, some, List, [], ◌∷◌, arith, if◌then◌else◌,
  get_elem?, lookup, insert, erase, count_if, length, ◌==◌, ◌<◌, ◌≢◌, ap, All, nat_eq, Bytes, codes,
  eq_bytes, eq_bytes_iff,
}
use x_sticker_bot.Base.FilePath.{AbsPath, path_eq, join, push}
use x_sticker_bot.Telegram.{Message, Update}
use x_sticker_bot.Command.Tasks.{user_busy, running, Thread, start, run, step, act, active_tasks}
use x_sticker_bot.Command.Tasks.Slots.{in_task}
use x_sticker_bot.Command.Tasks.Progress.{
  is_running, returned, running_bounded, one_task_per_user, run_releases,
}
use x_sticker_bot.Command.Tasks.Termination.{Busy, run_terminates}
use x_sticker_bot.Command.Fetch.{ext_from, Answer, Net, url_of, download_telegram_file}
use x_sticker_bot.Command.Fetch.Saved.{target, download_telegram_file_ok}
use x_sticker_bot.Command.Fetch.Retries.{Limited, download_telegram_file_total}
use x_sticker_bot.Command.Messages.{
  Step, try_task, animation_download, send_no_media, uid_from_update, chat_id_from_update,
  handle_message, cmd_get_fid, media_of,
}
use x_sticker_bot.Command.Messages.Routing.{Guarded, is_task, handle_message_lem}
use x_sticker_bot.Command.Links.{Url, path_base, fields, get_sid_from_message}
use x_sticker_bot.Command.Links.Names.{KeepsPath, Named, get_sid_from_message_lem}

-- Two updates of one user and one of another.
abbrev uids : List ℕ
uids = 7 ∷ 7 ∷ 8 ∷ []

abbrev schedule : List ℕ
schedule = 0 ∷ 1 ∷ 0 ∷ 2 ∷ 2 ∷ []

running_bounded_example :
    (count_if is_running (run (start uids) schedule).threads ≤ 20)
    × (count_if is_running (run (start uids) schedule).threads
        ≤ (active_tasks (run (start uids) schedule)).0)
    × ((active_tasks (run (start uids) schedule)).0 ≤ (active_tasks (run (start uids) schedule)).1)
    × ((active_tasks (run (start uids) schedule)).1 ≡ 20)
running_bounded_example = running_bounded uids schedule

abbrev in_work : Thread
in_work = record { uid = 7; phase = running }

abbrev refused : Thread
refused = record { uid = 7; phase = user_busy }

schedule-first : get_elem? (run (start uids) schedule).threads 0 ≡ some in_work
unfolding run step act start lookup insert
schedule-first = refl

schedule-second : get_elem? (run (start uids) schedule).threads 1 ≡ some refused
unfolding run step act start lookup insert
schedule-second = refl

one_task_per_user_example : in_task running + in_task user_busy ≤ 1
one_task_per_user_example =
    one_task_per_user uids schedule 0 1 in_work refused (λ e. absurd (omega arith)) schedule-first
      schedule-second refl

abbrev alone : List ℕ
alone = 7 ∷ []

abbrev to_the_end : List ℕ
to_the_end = 0 ∷ 0 ∷ 0 ∷ 0 ∷ 0 ∷ []

alone-returned : All (λ th. returned th.phase ≡ true) (run (start alone) to_the_end).threads
unfolding run step act start lookup insert erase
alone-returned = (refl, tt)

run_releases_example :
    ((run (start alone) to_the_end).sem ≡ 0)
    × ((u : ℕ) → lookup u (run (start alone) to_the_end).user_tasks ≡ none)
run_releases_example = run_releases alone to_the_end alone-returned

alone-Busy : Busy (start alone) to_the_end
unfolding run step act start lookup insert erase
alone-Busy = (
  (_, refl, refl),
  ((_, refl, refl), ((_, refl, refl), ((_, refl, refl), ((_, refl, refl), tt)))),
)

run_terminates_example : length to_the_end ≤ 5 * length alone
run_terminates_example = run_terminates alone to_the_end alone-Busy

abbrev cats : Bytes
cats = codes "https://t.me/addstickers/Cats_1"

abbrev cats_url : Url
cats_url = record {
  scheme = codes "https";
  host = codes "t.me";
  has_user = false;
  raw_query = [];
  fragment = [];
  url_path = codes "/addstickers/Cats_1";
  raw_path = [];
}

abbrev parse_cats : Bytes → Option Url
parse_cats w = if eq_bytes w cats then some cats_url else none

parse_cats-KeepsPath : KeepsPath parse_cats
parse_cats-KeepsPath w u e raw q f clean =
    (codes "https://t.me", ground (arith, eq_bytes_iff w cats))

abbrev message : Message
message = record {
  from = some 7;
  chat = 7;
  id = 1;
  text = codes "see https://t.me/addstickers/Cats_1 !";
  sticker = none;
  animation = none;
  photo = none;
  video = none;
  document = none;
  audio = none;
  voice = none;
  video_note = none;
}

get_sid_from_message_lem_example :
    Named parse_cats (fields message.text) (get_sid_from_message parse_cats message)
get_sid_from_message_lem_example =
    get_sid_from_message_lem parse_cats message parse_cats-KeepsPath refl

abbrev limited_answer : Answer
limited_answer = record { code = 429; retry_after = []; body = []; broken = false }

abbrev good_answer : Answer
good_answer = record { code = 200; retry_after = []; body = codes "RIFF"; broken = false }

abbrev remote : Bytes
remote = codes "stickers/file_1.webp"

-- The second attempt is answered.
abbrev net : Net
net = record {
  get_file = λ file_id. some remote;
  bad_url = λ u. false;
  answer = λ url k. if k == 0 then some limited_answer else some good_answer;
  cancelled = λ k. false;
  create_fails = λ p. false;
}

abbrev token : Bytes
token = codes "123:abc"

abbrev work_dir : AbsPath
work_dir = codes "work" ∷ codes "tmp" ∷ []

net-Limited : (i : ℕ) → i < 1 → (b : Answer) × Limited net (url_of token remote) i b
net-Limited i lt = (limited_answer, (ground arith, refl, refl))

download_telegram_file_total_example :
    (download_telegram_file net token [] (codes "id") work_dir (codes "cat")).0 ≡ none
download_telegram_file_total_example =
    download_telegram_file_total net token [] (codes "id") work_dir (codes "cat") remote 1
      good_answer refl refl (omega arith) net-Limited refl refl refl (omega arith) refl

net-fetched : (download_telegram_file net token [] (codes "id") work_dir (codes "cat")).0 ≡ none
net-fetched =
    download_telegram_file_total net token [] (codes "id") work_dir (codes "cat") remote 1
      good_answer refl refl (omega arith) net-Limited refl refl refl (omega arith) refl

download_telegram_file_ok_example :
    (file_path : Bytes) × (k : ℕ) × (a : Answer) × (some remote ≡ some file_path)
    × (k < 3)
    × (net.answer (url_of token file_path) k ≡ some a)
    × (a.code ≡ 200)
    × (a.broken ≡ false)
    × (length a.body ≤ 100 * 1024 * 1024)
    × (lookup
          (download_telegram_file net token [] (codes "id") work_dir (codes "cat")).1
          (download_telegram_file net token [] (codes "id") work_dir (codes "cat")).2
        ≡ some a.body)
download_telegram_file_ok_example =
    download_telegram_file_ok net token [] (codes "id") work_dir (codes "cat") net-fetched

abbrev old_file : AbsPath
old_file = codes "old" ∷ []

old_file-ne-target : old_file ≢ target net (codes "id") work_dir (codes "cat")
unfolding join push ext_from path_base eq_bytes
old_file-ne-target e = absurd (omega (arith, ap length e))

abbrev busy_net : Net
busy_net = record net { answer = λ url k. some limited_answer }

abbrev update : Update
update = record { message = some message; callback_query = none }

abbrev answered : List Step
answered = send_no_media 7 ∷ []

update-answered : cmd_get_fid 7 update ≡ some answered
unfolding cmd_get_fid media_of
update-answered = refl

-- A message with an animation.
abbrev moving : Update
moving = record {
  message = some (record message { animation = some (codes "anim") });
  callback_query = none;
}

abbrev one_task : List Step
one_task = try_task 7 7 (animation_download (codes "anim") ∷ []) ∷ []

moving-one_task : handle_message parse_cats moving ≡ some one_task
unfolding handle_message uid_from_update chat_id_from_update
moving-one_task = refl

handle_message_lem_example :
    (uid : ℕ) × (uid_from_update moving ≡ some uid)
    × All (Guarded uid) one_task
    × (count_if is_task one_task ≤ 1)
handle_message_lem_example =
    handle_message_lem parse_cats moving one_task parse_cats-KeepsPath moving-one_task
