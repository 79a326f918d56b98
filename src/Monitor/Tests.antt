-- ===== src/Monitor/Tests.antt =====
-- Examples for internal/monitor.
use x_sticker_bot.Base.{
  ℕ, ◌*◌, ◌/◌, ◌%◌, ◌^◌, ◌≡◌, ◌≢◌, ◌↔◌, ◌⊎◌, refl, none, some, List, [], ◌∷◌, map, count_if, ◌++◌,
  ◌+◌, ◌<◌, Bytes, codes, eq_bytes,
}
use x_sticker_bot.Base.Decimal.{decimal}
use x_sticker_bot.Monitor.Ring.{count_since, counts}
use x_sticker_bot.Monitor.Ring.Window.{last_n}
use x_sticker_bot.Monitor.Metrics.{Metrics, new_metrics, Floats, second, format_uptime}
use x_sticker_bot.Monitor.Metrics.Counting.{record_all, counter, record_all-new}
use x_sticker_bot.Monitor.Health.{PollStatus, PollingHealth, poll_healthy, new_polling_health}
use x_sticker_bot.Monitor.Dashboard.{
  api_health, page, api_metrics, api_stats, health, html, unauthorized, Setup, bearer, serve,
}
use x_sticker_bot.Monitor.Dashboard.Access.{serve_lem}

abbrev five_times : List ℕ
five_times = 1 ∷ 2 ∷ 3 ∷ 4 ∷ 5 ∷ []

abbrev uptime : ℕ
uptime = 90_061 * second

-- A day, an hour, a minute and a second.
format_uptime_day : format_uptime uptime ≡ codes "1d 1h 1m"
unfolding format_uptime decimal
format_uptime_day = refl

abbrev two_requests : List (Bytes × ℕ)
two_requests = (codes "/start", 100) ∷ (codes "message", 200) ∷ []

record_all-new_example :
    (m : Metrics) × (record_all (new_metrics 50) two_requests ≡ some m)
    × (m.total_requests ≡ 2)
    × ((c : Bytes) → counter m c ≡ count_if (λ r. eq_bytes r.0 c) two_requests % 2 ^ 64)
    × ((since : ℕ)
        → count_since m.recent_requests since
          ≡ count_if (counts since) (last_n 3600 (map (λ r. r.1) two_requests)))
record_all-new_example = record_all-new 50 two_requests

abbrev two_polls : List ℕ
two_polls = 20 ∷ 3 ∷ []

abbrev key : Bytes
key = codes "key"

abbrev whole : Floats
whole = record { Float = ℕ; of_int = λ n. n; div = λ a b. a / b; mul = λ a b. a * b }

abbrev guarded : Setup ℕ
guarded = record {
  admin_token = key;
  provider = none;
  active_tasks_fn = some (2, 20);
  polling = some (new_polling_health 10);
  recorded = new_metrics 50;
  runtime = (1024, 9);
}

serve_lem_example :
    ((serve whole guarded 60 api_metrics [] ≡ unauthorized) ↔ ((key ≢ []) × ([] ≢ bearer ++ key)))
    × ((serve whole guarded 60 api_stats [] ≡ unauthorized) ↔ ((key ≢ []) × ([] ≢ bearer ++ key)))
    × (serve whole guarded 60 page [] ≡ html)
    × ((serve whole guarded 60 api_health [] ≡ health 200 poll_healthy) ↔ (
        (h : PollingHealth) × (some (new_polling_health 10) ≡ some h)
        × (h.last_success ≢ 0)
        × (60 < h.last_success + h.stale_after)))
    × ((serve whole guarded 60 api_health [] ≡ health 200 poll_healthy)
        ⊎ ((p : PollStatus) × (serve whole guarded 60 api_health [] ≡ health 503 p)
            × (p ≢ poll_healthy)))
serve_lem_example = serve_lem whole guarded 60 []
