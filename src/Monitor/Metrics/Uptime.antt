-- ===== src/Monitor/Metrics/Uptime.antt =====
-- The parts of a printed uptime.
use x_sticker_bot.Base.{ℕ, ◌+◌, ◌*◌, ◌≤◌, ◌<◌, ◌≡◌, refl, ◌++◌, arith, if◌then◌else◌, ltb, codes}
use x_sticker_bot.Base.Decimal.{decimal}
use x_sticker_bot.Monitor.Metrics.{
  minute, hour, uptime_days, uptime_hours, uptime_minutes, format_uptime,
}

-- An uptime is printed as `d`, `h` and `m` parts, those from the left that are zero left out; the
-- numbers printed are hours below 24 and minutes below 60, and together with the days they make up
-- the duration to the minute.
pub format_uptime_lem :
    (d : ℕ)
    → (days hours minutes : ℕ) × (hours < 24)
      × (minutes < 60)
      × ((days * 24 + hours) * hour + minutes * minute ≤ d)
      × (d < (days * 24 + hours) * hour + minutes * minute + minute)
      × (format_uptime d ≡ (
          if ltb 0 days
          then decimal days
            ++ (codes "d " ++ (decimal hours ++ (codes "h " ++ (decimal minutes ++ codes "m"))))
          else if ltb 0 hours
          then decimal hours ++ (codes "h " ++ (decimal minutes ++ codes "m"))
          else decimal minutes ++ codes "m"))
unfolding format_uptime
format_uptime_lem d = (
  uptime_days d,
  uptime_hours d,
  uptime_minutes d,
  omega arith,
  omega arith,
  omega arith,
  omega arith,
  refl,
)
