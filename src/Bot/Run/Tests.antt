-- ===== src/Bot/Run/Tests.antt =====
-- Examples for the start of the program.
use x_sticker_bot.Base.{
  ℕ, ◌-◌, ◌≤◌, ◌≡◌, inl, refl, true, false, not, ◌&&◌, none, some, List, [], ◌∷◌, arith, ltb, Bytes,
  codes, eq_bytes, length, count_if, Option, if◌then◌else◌, ◌/◌, ◌*◌, has_prefix, lookup, insert,
}
use mathlib.Core.List.{map}
use x_sticker_bot.Base.FilePath.{path_eq, abs_path, eq_path}
use x_sticker_bot.Base.Int.{ℤ, pos, negsuc}
use x_sticker_bot.Telegram.{Message, Update}
use x_sticker_bot.Config.{Config, Flags, parse, env_str, env_int64}
use x_sticker_bot.Limiter.{Rate}
use x_sticker_bot.Limiter.Burst.{Tokens, general, command}
use x_sticker_bot.Monitor.Metrics.{Floats, new_metrics}
use x_sticker_bot.Monitor.Health.{new_polling_health}
use x_sticker_bot.Monitor.Dashboard.{api_stats, stats, serve}
use x_sticker_bot.Storage.Temp.{Sys, Fs, TempManager, new_temp_manager}
use x_sticker_bot.Storage.Stats.{
  Opening, Call, Answers, mem, lt_bytes, is_download, new_stats, event_download_single, event_info,
}
use x_sticker_bot.Storage.Stats.Table.{record_all, entries}
use x_sticker_bot.Storage.Stats.Figures.{Distinct, any_row}
use x_sticker_bot.Storage.Stats.Days.{Descending, day_of_calls}
use x_sticker_bot.Command.Tasks.{start as tasks_of}
use x_sticker_bot.Bot.Router.{App, Pattern, start}
use x_sticker_bot.Bot.Router.Totality.{HasSender}
use x_sticker_bot.Bot.Router.Accounting.{on_updates}
use x_sticker_bot.Bot.Router.Bursts.{passes}
use x_sticker_bot.Bot.Run.{Outside, Service, run, main, service, start_monitor_server}
use x_sticker_bot.Bot.Run.Releases.{Balanced, run-Balanced}
use x_sticker_bot.Bot.Run.Serving.{Starts, Exits, main_lem}
use x_sticker_bot.Bot.Run.Running.{service_runs, service_bursts}
use x_sticker_bot.Bot.Run.Dashboard.{start_monitor_server_stats}

-- Buckets of tokens that are never refilled.
abbrev counting : Rate
counting = record {
  Limit = ℕ;
  per = λ a b. a;
  Bucket = ℕ;
  new_bucket = λ l burst. burst;
  allow_at = λ b now. (ltb 0 b, b - 1);
}

counting-Tokens : Tokens counting
counting-Tokens = record {
  tokens = λ b now. b;
  burst_of = λ b. b;
  tokens_le = λ b now. omega arith;
  burst_new = λ l burst. omega arith;
  burst_allow = λ b now. omega arith;
  allow_iff = λ b now. refl;
  allow_takes = λ b now. refl;
}

-- A system with a working directory, where no call fails, and an empty disk.
abbrev plain_sys : Sys
plain_sys = record {
  cwd = some (codes "srv" ∷ []);
  mkdir_fails = λ p. false;
  read_dir_fails = λ p. false;
  info_fails = λ p. false;
  remove_fails = λ p. false;
  partial_remove = λ p fs. fs;
  partial_outside = λ p q fs h. refl;
}

abbrev opening : Opening
opening = record {
  mkdir_fails = false;
  open_fails = false;
  ping_fails = false;
  table_fails = false;
  index_fails = false;
}

abbrev outside : Outside
outside = record {
  sys = plain_sys;
  fs = [];
  now = 50;
  opening = opening;
  database = none;
  goos = codes "linux";
  pool_created = true;
  takes_token = λ token. true;
  get_me = some (codes "sticker_bot");
}

-- Everything comes from the environment's token and the defaults.
abbrev env : Bytes → Bytes
env key = if eq_bytes key (codes "BOT_TOKEN") then codes "123:abc" else []

abbrev no_flags : Flags
no_flags = record {
  bot_token = none;
  admin_uid = none;
  admin_token = none;
  data_dir = none;
  log_level = none;
  monitor_listen_addr = none;
}

abbrev config : Config
config = record {
  bot_token = codes "123:abc";
  admin_uid = pos 0;
  admin_token = [];
  data_dir = [];
  log_level = codes "info";
  monitor_listen_addr = codes ":9090";
}

env-read : parse env no_flags ≡ config
unfolding parse env_str env_int64 eq_bytes
env-read = refl

run-Balanced_example : Balanced counting [] (run counting outside config true)
run-Balanced_example = run-Balanced counting outside config true

main_lem_example : Exits counting (parse env no_flags) outside (main counting env no_flags outside)
main_lem_example = main_lem counting env no_flags outside

abbrev base_dir : TempManager
base_dir = record { base_dir = codes "bot_data" ∷ codes "srv" ∷ [] }

abbrev disk : Fs
disk =
    (codes "srv" ∷ [], record { is_dir = true; mod_time = 50 })
    ∷ (codes "bot_data" ∷ codes "srv" ∷ [], record { is_dir = true; mod_time = 50 })
    ∷ []

made : new_temp_manager plain_sys [] 50 (codes "bot_data") ≡ some (base_dir, disk)
unfolding new_temp_manager abs_path has_prefix lookup insert eq_path eq_bytes
made = refl

opened : (new_stats opening none).0 ≡ some []
unfolding new_stats
opened = refl

abbrev running : Service counting
running =
    service counting outside config true base_dir (new_stats opening none).0
      (record { once = true; has_pool = true }) (codes "sticker_bot")

running-Starts : Starts counting outside config true running
unfolding eq_bytes
running-Starts = record {
  tmp = base_dir;
  fs' = disk;
  made = made;
  created = refl;
  taken = refl;
  name = codes "sticker_bot";
  answered = refl;
  is_service = refl;
}

abbrev start_text : Message
start_text = record {
  from = some 7;
  chat = 7;
  id = 1;
  text = codes "/start";
  sticker = none;
  animation = none;
  photo = none;
  video = none;
  document = none;
  audio = none;
  voice = none;
  video_note = none;
}

abbrev start_update : Update
start_update = record { message = some start_text; callback_query = none }

abbrev burst : List (Option Pattern × Update)
burst = (some start, start_update) ∷ (some start, start_update) ∷ (some start, start_update) ∷ []

abbrev history : List (Option Pattern × Update × ℕ)
history = (some start, start_update, 60) ∷ (none, start_update, 61) ∷ []

start_text-HasSender : HasSender counting start_update
start_text-HasSender msg e nobody = cc

service_runs_example :
    (app : App counting) × (on_updates counting running.app history ≡ some app)
    × (app.limiter.denied ≡ app.metrics.rate_denied)
service_runs_example =
    service_runs counting outside config running running-Starts history
      (start_text-HasSender, (start_text-HasSender, tt))

-- The bot after these updates.
abbrev later : App counting
later =
    (service_runs counting outside config running running-Starts history
      (start_text-HasSender, (start_text-HasSender, tt))).0

later-reached : on_updates counting running.app history ≡ some later
later-reached =
    (service_runs counting outside config running running-Starts history
      (start_text-HasSender, (start_text-HasSender, tt))).1

service_bursts_example :
    (passes counting counting-Tokens 62 (command 7 (codes "/start")) later burst ≤ 2)
    × (passes counting counting-Tokens 62 (command 7 (codes "/about")) later burst ≤ 2)
    × (passes counting counting-Tokens 62 (command 7 (codes "/info")) later burst ≤ 2)
    × (passes counting counting-Tokens 62 (general 7) later burst ≤ 5)
service_bursts_example =
    service_bursts counting outside config running running-Starts counting-Tokens history later 62 7
      burst later-reached

abbrev whole : Floats
whole = record { Float = ℕ; of_int = λ n. n; div = λ a b. a / b; mul = λ a b. a * b }

abbrev answers : Answers
answers = record { daily_query_fails = false; rows_fail = false; total_query_fails = false }

abbrev user : ℤ → Bytes
user (pos n) = n ∷ []
user (negsuc n) = 0 ∷ n ∷ []

abbrev calls : List Call
calls =
    record {
      today = codes "2026-01-02";
      uid = pos 7;
      name = event_download_single;
      exec_fails = false;
    }
    ∷ record { today = codes "2026-01-02"; uid = pos 8; name = event_info; exec_fails = false }
    ∷ []

abbrev clock : ℕ → Bytes
clock days = codes "2025-12-27"

start_monitor_server_stats_example :
    (users : List Bytes) × (ds : List Bytes) × Distinct users
    × ((u : Bytes) → mem u users ≡ any_row (λ x. eq_bytes x.user_hash u) (entries user calls))
    × Descending ds
    × ((d : Bytes)
        → mem d ds
          ≡ any_row
              (λ x. not (lt_bytes x.date (clock 30)) && eq_bytes x.date d)
              (entries user calls))
    × (serve whole
          (start_monitor_server counting running
            (new_metrics 50)
            (record_all user calls [])
            (new_polling_health 130)
            (tasks_of [])
            answers
            clock
            (1, 1))
          60
          api_stats
          []
        ≡ stats
            (some (map (day_of_calls (entries user calls)) ds))
            (length users)
            (count_if is_download (entries user calls)))
start_monitor_server_stats_example =
    start_monitor_server_stats counting whole running (new_metrics 50) (new_polling_health 130)
      (tasks_of []) answers clock (1, 1) 60 [] user calls opened (inl refl) refl refl refl
