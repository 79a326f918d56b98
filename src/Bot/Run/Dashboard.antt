-- ===== src/Bot/Run/Dashboard.antt =====
-- What the dashboard that Run has started shows of the usage.
use x_sticker_bot.Base.{
  ℕ, ◌≡◌, ◌⊎◌, arith, refl, false, not, ◌&&◌, some, List, [], ◌++◌, Bytes, eq_bytes, length,
  count_if,
}
use mathlib.Core.List.{map}
use x_sticker_bot.Base.Int.{ℤ}
use x_sticker_bot.Limiter.{Rate}
use x_sticker_bot.Monitor.Metrics.{Floats, Metrics}
use x_sticker_bot.Monitor.Health.{PollingHealth}
use x_sticker_bot.Monitor.Dashboard.{api_stats, stats, bearer, serve, get_stats}
use x_sticker_bot.Monitor.Dashboard.Access.{allowed_lem}
use x_sticker_bot.Storage.Stats.{
  Row, DailyStat, Call, Answers, mem, lt_bytes, is_download, query_daily_json, query_daily,
  total_stats,
}
use x_sticker_bot.Storage.Stats.Table.{record_all, entries}
use x_sticker_bot.Storage.Stats.Figures.{Distinct, any_row, total_stats_lem}
use x_sticker_bot.Storage.Stats.Days.{Descending, day_of_calls, query_daily_lem}
use x_sticker_bot.Command.Tasks.{System}
use x_sticker_bot.Bot.Run.{Service, start_monitor_server, answer_of}

answer_of-ok :
    (a : Answers) (clock : ℕ → Bytes) (days : ℕ) (rows : List Row) (lines : List DailyStat)
    (users downloads : ℕ)
    → query_daily a clock days rows ≡ some lines
    → total_stats a rows ≡ some (users, downloads)
    → answer_of (query_daily_json a clock days rows) ≡ some (lines, users, downloads)
unfolding query_daily_json answer_of
answer_of-ok a clock days rows lines users downloads e f = ground arith

module _ (r : Rate) (fl : Floats) (s : Service r) (m : Metrics) (h : PollingHealth) (tasks : System)
    (a : Answers) (clock : ℕ → Bytes) (runtime : ℕ × ℕ) (now : ℕ) (auth : Bytes) where
  -- The dashboard that Run has started answers a request for the statistics that may have them
  -- with the usage: if the database was opened with an empty table and its queries succeed, then
  -- with the users, each once, and the downloads of all events that were recorded, and with a line
  -- for each day of an event that is at most 30 days old by the clock, the latest first.
  pub start_monitor_server_stats :
      (hash : ℤ → Bytes) (cs : List Call)
      → s.stats ≡ some []
      → (s.config.admin_token ≡ []) ⊎ (auth ≡ bearer ++ s.config.admin_token)
      → a.daily_query_fails ≡ false
      → a.rows_fail ≡ false
      → a.total_query_fails ≡ false
      → (users : List Bytes) × (ds : List Bytes) × Distinct users
        × ((u : Bytes) → mem u users ≡ any_row (λ x. eq_bytes x.user_hash u) (entries hash cs))
        × Descending ds
        × ((d : Bytes)
            → mem d ds
              ≡ any_row
                  (λ x. not (lt_bytes x.date (clock 30)) && eq_bytes x.date d)
                  (entries hash cs))
        × (serve fl
              (start_monitor_server r s m (record_all hash cs []) h tasks a clock runtime)
              now
              api_stats
              auth
            ≡ stats
                (some (map (day_of_calls (entries hash cs)) ds))
                (length users)
                (count_if is_download (entries hash cs)))
  unfolding start_monitor_server serve get_stats
  start_monitor_server_stats hash cs opened may answered read counted =
      let (users, distinct, all_users, totals) = total_stats_lem a hash cs counted in
      let (ds, descending, all_days, lines) = query_daily_lem a clock 30 hash cs answered read in
      (
        users,
        ds,
        distinct,
        all_users,
        descending,
        all_days,
        rw
            (
              opened,
              (allowed_lem s.config.admin_token auth).1 may,
              answer_of-ok a clock 30 (record_all hash cs [])
                  (map (day_of_calls (entries hash cs)) ds) (length users)
                  (count_if is_download (entries hash cs)) lines totals,
            )
            refl,
      )
