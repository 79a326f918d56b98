-- ===== src/Monitor/Metrics/Counting.antt =====
-- The counters agree with the history of the requests.
use x_sticker_bot.Base.{
  ℕ, ◌+◌, ◌%◌, ◌^◌, ◌<◌, ◌≡◌, refl, Option, none, some, List, [], ◌∷◌, arith, length, map, count_if,
  Bytes, eq_bytes, eq_bytes_iff, lookup, insert, lookup-insert, bytes_eq,
}
use mathlib.Core.Option.{get_or}
use x_sticker_bot.Monitor.Ring.{add_all, count_since, counts}
use x_sticker_bot.Monitor.Ring.Window.{
  IsValid, add-window, new-IsValid, last_n, count_since-add_all,
}
use x_sticker_bot.Monitor.Metrics.{Metrics, incr, new_metrics, record_request}

-- The requests of a history, each with its time.
abbrev pub record_all : Metrics → List (Bytes × ℕ) → Option Metrics
record_all m [] = some m
record_all m (r ∷ rs) = elim (record_request m r.0 r.1) [ none ↦ none | some m' ↦ record_all m' rs ]

abbrev pub counter : Metrics → Bytes → ℕ
counter m c = get_or (lookup c m.command_counts) 0

-- What a history adds to the counters of a metrics whose ring buffer is valid.
record_all-counts :
    (rs : List (Bytes × ℕ)) (m : Metrics)
    → IsValid m.recent_requests
    → m.total_requests < 2 ^ 64
    → ((c : Bytes) → counter m c < 2 ^ 64)
    → (m' : Metrics) × (record_all m rs ≡ some m')
      × (m'.total_requests ≡ (m.total_requests + length rs) % 2 ^ 64)
      × ((c : Bytes) → counter m' c ≡ (counter m c + count_if (λ r. eq_bytes r.0 c) rs) % 2 ^ 64)
      × (add_all m.recent_requests (map (λ r. r.1) rs) ≡ some m'.recent_requests)
unfolding record_request add_all
record_all-counts [] m v t k = (m, refl, omega arith, λ c. omega (arith, k c), refl)
record_all-counts ((name, now) ∷ rs) m v t k =
    let (ring, e, v', _, _) = add-window m.recent_requests now v in
    let m1 : Metrics = record m {
      total_requests = incr m.total_requests;
      recent_requests = ring;
      command_counts = insert name (incr (counter m name)) m.command_counts;
    } in
    let at = λ (c : Bytes). lookup-insert name c (incr (counter m name)) m.command_counts in
    let (m', e', t', k', a') =
      record_all-counts rs m1 v' (omega arith) (λ c. ground (arith, at c, k c)) in
    (
      m',
      ground (arith, e, e'),
      omega (arith, t'),
      λ c. ground (arith, k' c, at c, eq_bytes_iff name c, k name),
      ground (arith, e, a'),
    )

-- After any history of requests: the total is the number of requests and the counter of each
-- command is the number of its requests (modulo 2^64, as int64), and the requests per minute are
-- those of the last 3600 whose time is set and not before the given time. No request panics.
pub record_all-new :
    (start : ℕ) (rs : List (Bytes × ℕ))
    → (m : Metrics) × (record_all (new_metrics start) rs ≡ some m)
      × (m.total_requests ≡ length rs % 2 ^ 64)
      × ((c : Bytes) → counter m c ≡ count_if (λ r. eq_bytes r.0 c) rs % 2 ^ 64)
      × ((since : ℕ)
          → count_since m.recent_requests since
            ≡ count_if (counts since) (last_n 3600 (map (λ r. r.1) rs)))
unfolding new_metrics lookup
record_all-new start rs =
    let fresh = new-IsValid 3600 (omega arith) in
    let (m, e, t, k, a) =
      record_all-counts rs (new_metrics start) fresh (omega arith) (λ c. omega arith) in
    (
      m,
      e,
      omega (arith, t),
      λ c. omega (arith, k c),
      λ since.
          let (ring, a', n) = count_since-add_all 3600 since (map (λ r. r.1) rs) (omega arith) in
          ground (arith, a, a', n),
    )
