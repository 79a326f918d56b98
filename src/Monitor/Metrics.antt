-- ===== src/Monitor/Metrics.antt =====
-- Metrics of internal/monitor/metrics.go. The counters are atomic int64, kept as bit patterns; an
-- operation is one step. Times are nanoseconds; floating point is the record `Floats`.
pub mod Counting
pub mod Uptime
use x_sticker_bot.Base.{
  ℕ, ◌+◌, ◌-◌, ◌*◌, ◌/◌, ◌%◌, ◌^◌, Bool, true, false, ◌&&◌, not, Option, none, some, List, [], ◌∷◌,
  ◌++◌, if◌then◌else◌, ltb, leb, Bytes, codes, lookup, insert, bytes_eq,
}
use mathlib.Core.Option.{get_or}
use x_sticker_bot.Base.Decimal.{decimal}
use x_sticker_bot.Monitor.Ring.{RingBuffer, new_ring_buffer, add, count_since}

-- `Add(1)` on an atomic.Int64.
abbrev pub incr : ℕ → ℕ
incr n = (n + 1) % 2 ^ 64

pub record Metrics : Type 0 where
  pub start_time : ℕ
  pub total_requests : ℕ
  pub error_count : ℕ
  pub rate_denied : ℕ
  pub command_counts : List (Bytes × ℕ)
  pub recent_requests : RingBuffer

unfoldable pub new_metrics : ℕ → Metrics
new_metrics now = record {
  start_time = now;
  total_requests = 0;
  error_count = 0;
  rate_denied = 0;
  command_counts = [];
  recent_requests = new_ring_buffer 3600;
}

-- `none` is a panic of the ring buffer. A command that has no counter gets one at 0.
unfoldable pub record_request : Metrics → Bytes → ℕ → Option Metrics
record_request m command now = elim (add m.recent_requests now) [
  | none ↦ none
  | some ring ↦ some (record m {
    total_requests = incr m.total_requests;
    recent_requests = ring;
    command_counts =
        insert command (incr (get_or (lookup command m.command_counts) 0)) m.command_counts;
  })
]

unfoldable pub record_error : Metrics → Metrics
record_error m = record m { error_count = incr m.error_count }

unfoldable pub record_rate_denied : Metrics → Metrics
record_rate_denied m = record m { rate_denied = incr m.rate_denied }

abbrev pub second : ℕ
second = 1_000_000_000

abbrev pub minute : ℕ
minute = 60 * second

abbrev pub hour : ℕ
hour = 60 * minute

-- The whole days, the hours of the day and the minutes of the hour, of a duration that is not
-- negative.
abbrev pub uptime_days : ℕ → ℕ
uptime_days d = d / hour / 24

abbrev pub uptime_hours : ℕ → ℕ
uptime_hours d = d / hour % 24

abbrev pub uptime_minutes : ℕ → ℕ
uptime_minutes d = d / minute % 60

unfoldable pub format_uptime : ℕ → Bytes
format_uptime d =
    let minutes = decimal (uptime_minutes d) ++ codes "m" in
    let hours = decimal (uptime_hours d) ++ (codes "h " ++ minutes) in
    if ltb 0 (uptime_days d)
    then decimal (uptime_days d) ++ (codes "d " ++ hours)
    else if ltb 0 (uptime_hours d)
    then hours
    else minutes

-- float64, with the conversion from int64 and the operations that Snapshot uses.
pub record Floats : Type 1 where
  pub Float : Type 0
  pub of_int : ℕ → Float
  pub div : Float → Float → Float
  pub mul : Float → Float → Float

pub record Snapshot (fl : Floats) : Type 0 where
  pub uptime : Bytes
  pub total_requests : ℕ
  pub requests_per_min : fl.Float
  pub error_count : ℕ
  pub error_rate : fl.Float
  pub command_counts : List (Bytes × ℕ)
  pub rate_denied : ℕ
  pub memory_mb : fl.Float
  pub goroutines : ℕ
  pub active_tasks : ℕ
  pub task_capacity : ℕ

-- `total > 0` on int64.
abbrev pub is_positive : ℕ → Bool
is_positive n = ltb 0 n && ltb n (2 ^ 63)

-- `alloc` and `goroutines` are what package runtime reports.
pub snapshot : (fl : Floats) → Metrics → ℕ → ℕ → ℕ → Snapshot fl
snapshot fl m now alloc goroutines = record {
  uptime = format_uptime (now - m.start_time);
  total_requests = m.total_requests;
  requests_per_min = fl.of_int (count_since m.recent_requests (now - 60 * second));
  error_count = m.error_count;
  error_rate =
      if is_positive m.total_requests
      then fl.mul (fl.div (fl.of_int m.error_count) (fl.of_int m.total_requests)) (fl.of_int 100)
      else fl.of_int 0;
  command_counts = m.command_counts;
  rate_denied = m.rate_denied;
  memory_mb = fl.div (fl.div (fl.of_int alloc) (fl.of_int 1024)) (fl.of_int 1024);
  goroutines = goroutines;
  active_tasks = 0;
  task_capacity = 0;
}
