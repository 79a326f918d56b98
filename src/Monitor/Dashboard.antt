-- ===== src/Monitor/Dashboard.antt =====
-- RegisterRoutes of internal/monitor/dashboard.go: the routes, who may use them, what they answer.
-- The HTML page is a constant and stands for itself. The statistics come from an interface.
pub mod Access
use x_sticker_bot.Base.{
  ℕ, ◌≡◌, Bool, true, false, not, ◌||◌, Option, none, some, List, [], ◌∷◌, if◌then◌else◌, Bytes,
  codes, eq_bytes, has_prefix, trim_prefix,
}
use x_sticker_bot.Monitor.Metrics.{Floats, Metrics, Snapshot, snapshot}
use x_sticker_bot.Monitor.Health.{
  PollStatus, poll_starting, poll_healthy, poll_stale, PollingHealth, status,
}

-- StatsProvider: the rows, the users and the downloads, or an error.
abbrev pub StatsProvider : Type 0 → Type 0
StatsProvider Rows = ℕ → Option (Rows × ℕ × ℕ)

pub data Route : Type 0 where
  api_health page api_metrics api_stats : Route

pub data Response (fl : Floats) (Rows : Type 0) : Type 0 where
  health : ℕ → PollStatus → Response fl Rows
  html : Response fl Rows
  unauthorized : Response fl Rows
  metrics : Snapshot fl → Response fl Rows
  stats : Option Rows → ℕ → ℕ → Response fl Rows

-- What RegisterRoutes is given; `runtime` is what package runtime reports.
pub record Setup (Rows : Type 0) : Type 0 where
  pub admin_token : Bytes
  pub provider : Option (StatsProvider Rows)
  pub active_tasks_fn : Option (ℕ × ℕ)
  pub polling : Option PollingHealth
  pub recorded : Metrics
  pub runtime : ℕ × ℕ

abbrev pub bearer : Bytes
bearer = codes "Bearer "

-- The middleware of the group; with no token configured there is none.
pub allowed : Bytes → Bytes → Bool
allowed admin_token auth =
    if eq_bytes admin_token []
    then true
    else if not (has_prefix auth bearer) || not (eq_bytes (trim_prefix auth bearer) admin_token)
    then false
    else true

module _ (fl : Floats) {Rows : Type 0} (s : Setup Rows) (now : ℕ) where
  pub poll_status : PollStatus
  poll_status = elim s.polling [ none ↦ poll_starting | some h ↦ status h now ]

  pub get_health : Response fl Rows
  unfolding poll_status
  get_health = health (elim poll_status [ poll_healthy ↦ 200 | _ ↦ 503 ]) poll_status

  pub get_metrics : Response fl Rows
  get_metrics =
      let snap = snapshot fl s.recorded now s.runtime.0 s.runtime.1 in
      elim s.active_tasks_fn [
        | none ↦ metrics snap
        | some (active, capacity) ↦
            metrics (record snap { active_tasks = active; task_capacity = capacity })
      ]

  unfoldable pub get_stats : Response fl Rows
  get_stats = elim s.provider [
    | none ↦ stats none 0 0
    | some query ↦ elim (query 30) [
      | none ↦ stats none 0 0
      | some (daily, users, downloads) ↦ stats (some daily) users downloads
    ]
  ]

  -- `auth` is the Authorization header, empty if there is none.
  unfoldable pub serve : Route → Bytes → Response fl Rows
  serve api_health auth = get_health
  serve page auth = html
  serve api_metrics auth = if allowed s.admin_token auth then get_metrics else unauthorized
  serve api_stats auth = if allowed s.admin_token auth then get_stats else unauthorized
