-- ===== src/Bot/Run.antt =====
-- Run and startMonitorServer of internal/bot/bot.go, and main and newCommandHandler of
-- cmd/x_sticker_bot/main.go. A start is the list of what is done in order; a deferred call stands
-- where it is made, behind all that its function does after the `defer`.
pub mod Releases
pub mod Serving
pub mod Running
mod Tests
pub mod Dashboard
use x_sticker_bot.Base.{
  ℕ, ◌*◌, Bool, true, false, Option, none, some, List, [], ◌∷◌, ◌++◌, if◌then◌else◌, Bytes, codes,
  eq_bytes,
}
use x_sticker_bot.Base.Int.{ℤ}
use x_sticker_bot.Message.{joined}
use x_sticker_bot.Config.{Config, Flags, parse, is_level}
use x_sticker_bot.Limiter.{Rate, new_rate_limiter}
use x_sticker_bot.Monitor.Metrics.{second, Metrics, new_metrics}
use x_sticker_bot.Monitor.Health.{PollingHealth, new_polling_health}
use x_sticker_bot.Monitor.Dashboard.{Setup}
use x_sticker_bot.Storage.Temp.{Fs, Sys, TempManager, new_temp_manager}
use x_sticker_bot.Storage.Stats.{Opening, Row, DailyStat, Answers, new_stats, query_daily_json}
use x_sticker_bot.Sticker.Programs.{Binaries, initial, init_convert}
use x_sticker_bot.Sticker.Workers.{Pools, no_pools, init_workers}
use x_sticker_bot.Bot.Router.{App, register_rates}
use x_sticker_bot.Command.Tasks.{System, active_tasks}

-- What stands outside: the file system, the database's file, the pool, and Telegram.
pub record Outside : Type 0 where
  pub sys : Sys
  pub fs : Fs
  pub now : ℕ
  pub opening : Opening
  pub database : Option (List Row)
  pub goos : Bytes
  pub pool_created : Bool
  -- whether tgbot.New takes the token
  pub takes_token : Bytes → Bool
  -- the user name that GetMe answers
  pub get_me : Option Bytes

pub data Resource : Type 0 where
  signals stats_db cleanup_stop limiter_stop workers : Resource

pub data RunError : Type 0 where
  temp_manager_failed workers_failed bot_failed get_me_failed : RunError

-- The fields of command.Handler that newCommandHandler takes from the configuration and the bot.
pub record Handler : Type 0 where
  pub bot_name : Bytes
  pub bot_token : Bytes
  pub admin_uid : ℤ

-- The bot when it begins to poll: the fields of App, and the package variables of sticker.
pub record Service (r : Rate) : Type 0 where
  pub config : Config
  pub app : App r
  pub temp_mgr : TempManager
  pub stats : Option (List Row)
  pub bot_name : Bytes
  pub handler : Option Handler
  pub poll_health : PollingHealth
  pub binaries : Binaries
  pub pools : Pools

pub data ProfileRequest : Type 0 where
  set_short_description set_description : Bytes → ProfileRequest
  -- commands and what is said of them
  set_commands : List (Bytes × Bytes) → ProfileRequest

abbrev pub my_commands : List (Bytes × Bytes)
my_commands =
    (codes "start", codes "Usage / 使用说明")
    ∷ (codes "info", codes "Sticker set info / 贴纸包详情")
    ∷ (codes "about", codes "About / 关于")
    ∷ []

-- What the goroutine asks for, one after the other whatever the answers are.
unfoldable pub profile : List ProfileRequest
unfolding joined
profile =
    set_short_description (
      joined (
        codes "Telegram sticker downloader. Send any sticker to get PNG/GIF instantly."
        ∷ codes "Telegram 贴纸下载器，发送贴纸即可获取 PNG/GIF。"
        ∷ []))
    ∷ set_description (
        joined (
          codes "A simple bot to download Telegram stickers."
          ∷ codes ""
          ∷ codes "📥 Send a sticker → get PNG/GIF instantly"
          ∷ codes "📦 Send a sticker set link → download the whole set"
          ∷ codes "🎨 Send a GIF → convert and download"
          ∷ codes ""
          ∷ codes "一个简单的 Telegram 贴纸下载机器人。"
          ∷ codes ""
          ∷ codes "📥 发送贴纸 → 立即获取 PNG/GIF"
          ∷ codes "📦 发送贴纸包链接 → 下载整个贴纸包"
          ∷ codes "🎨 发送 GIF → 转换并下载"
          ∷ []))
    ∷ set_commands my_commands
    ∷ []

pub data Act (r : Rate) : Type 0 where
  acquire release : Resource → Act r
  -- the interval and the age, in seconds
  start_auto_clean start_cleanup : ℕ → ℕ → Act r
  -- the goroutine that sets the profile; its errors are only logged
  set_profile : List ProfileRequest → Act r
  -- startMonitorServer in a goroutine
  serve_monitor : Service r → Act r
  -- b.Start, which returns when the program is interrupted
  poll : Service r → Act r

-- The results of QueryDailyJSON, as the route reads them.
unfoldable pub answer_of : Option (List DailyStat) × ℕ × ℕ × Bool → Option (List DailyStat × ℕ × ℕ)
answer_of (daily, users, downloads, failing) =
    if failing then none else elim daily [ none ↦ none | some d ↦ some (d, users, downloads) ]

module _ (r : Rate) where
  abbrev pub Outcome : Type 0
  Outcome = List (Act r) × Option RunError

  abbrev pub doing : Act r → Outcome → Outcome
  doing a (log, e) = (a ∷ log, e)

  -- A resource with its deferred release.
  abbrev pub holding : Resource → Outcome → Outcome
  holding x (log, e) = (acquire x ∷ (log ++ release x ∷ []), e)

  abbrev pub failed : RunError → Outcome
  failed e = ([], some e)

  -- newCommandHandler.
  abbrev pub new_command_handler : Config → Bytes → Handler
  new_command_handler cfg name = record {
    bot_name = name;
    bot_token = cfg.bot_token;
    admin_uid = cfg.admin_uid;
  }

  -- The end of Run: the profile, the dashboard, and the polling.
  unfoldable pub polling : Service r → Outcome
  unfolding profile
  polling s =
      let rest : Outcome = (poll s ∷ [], none) in
      doing (set_profile profile)
        (if eq_bytes s.config.monitor_listen_addr [] then rest else doing (serve_monitor s) rest)

  module _ (o : Outside) (cfg : Config) (has_factory : Bool) where
    abbrev pub data_dir : Bytes
    data_dir = if eq_bytes cfg.data_dir [] then codes "bot_data" else cfg.data_dir

    -- The limiter has the rates of registerCommandHandlers when the first update comes.
    abbrev pub app_of : App r
    app_of = record {
      has_handler = has_factory;
      limiter = register_rates r (new_rate_limiter r (r.per 100 1) 200);
      metrics = new_metrics o.now;
    }

    abbrev pub service : TempManager → Option (List Row) → Pools → Bytes → Service r
    service tmp stats pools name = record {
      config = cfg;
      app = app_of;
      temp_mgr = tmp;
      stats = stats;
      bot_name = name;
      handler = if has_factory then some (new_command_handler cfg name) else none;
      poll_health = new_polling_health (130 * second);
      binaries = init_convert o.goos initial;
      pools = pools;
    }

    -- tgbot.New and GetMe.
    unfoldable pub with_bot : TempManager → Option (List Row) → Pools → Outcome
    unfolding polling
    with_bot tmp stats pools =
        if o.takes_token cfg.bot_token
        then elim o.get_me [
          | none ↦ failed get_me_failed
          | some name ↦ polling (service tmp stats pools name)
        ]
        else failed bot_failed

    -- InitWorkers and what follows.
    unfoldable pub started : TempManager → Option (List Row) → Outcome
    unfolding with_bot init_workers
    started tmp stats =
        let (pools, init_err) = init_workers o.pool_created no_pools in
        elim init_err [
          | some _ ↦ failed workers_failed
          | none ↦ holding workers (with_bot tmp stats pools)
        ]

    -- The goroutines that clean up.
    unfoldable pub with_cleaners : TempManager → Option (List Row) → Outcome
    unfolding started
    with_cleaners tmp stats = holding cleanup_stop (
        doing (start_auto_clean 3600 (24 * 3600))
          (holding limiter_stop (doing (start_cleanup 600 1800) (started tmp stats))))

    -- NewStats, whose error is tolerated.
    unfoldable pub with_stats : TempManager → Outcome
    unfolding with_cleaners
    with_stats tmp = elim (new_stats o.opening o.database).0 [
      | none ↦ with_cleaners tmp none
      | some rows ↦ holding stats_db (with_cleaners tmp (some rows))
    ]

    unfoldable pub run : Outcome
    unfolding with_stats
    run = holding signals (elim (new_temp_manager o.sys o.fs o.now data_dir) [
      | none ↦ failed temp_manager_failed
      | some (tmp, fs') ↦ with_stats tmp
    ])

  -- The exit code, and what is done; the handler's factory is newCommandHandler.
  unfoldable pub main : (Bytes → Bytes) → Flags → Outside → ℕ × List (Act r)
  unfolding run parse is_level
  main env flags o =
      let cfg = parse env flags in
      if eq_bytes cfg.bot_token []
      then (1, [])
      else if is_level cfg.log_level
      then (let (log, e) = run o cfg true in elim e [ none ↦ (0, log) | some _ ↦ (1, log) ])
      else (1, [])

  -- What startMonitorServer gives to RegisterRoutes, as it is when a request comes: `m`, `rows`, `h`
  -- and `tasks` are the metrics, the table, the health and the tasks of that time.
  unfoldable pub start_monitor_server :
      Service r
      → Metrics
      → List Row
      → PollingHealth
      → System
      → Answers
      → (ℕ → Bytes)
      → ℕ × ℕ
      → Setup (List DailyStat)
  unfolding query_daily_json answer_of
  start_monitor_server s m rows h tasks a clock runtime =
      let query : ℕ → Option (List DailyStat × ℕ × ℕ) =
        λ days. answer_of (query_daily_json a clock days rows) in
      record {
        admin_token = s.config.admin_token;
        provider = elim s.stats [ none ↦ none | some _ ↦ some query ];
        active_tasks_fn = elim s.handler [ none ↦ none | some _ ↦ some (active_tasks tasks) ];
        polling = some h;
        recorded = m;
        runtime = runtime;
      }
