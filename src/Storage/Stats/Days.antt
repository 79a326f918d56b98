-- ===== src/Storage/Stats/Days.antt =====
-- QueryDaily: its lines are the days of the calls, the latest first, with what was called on them.
use x_sticker_bot.Base.{
  ℕ, ◌≡◌, refl, ap, Bool, true, false, ◌&&◌, ◌||◌, not, List, [], ◌∷◌, arith, if◌then◌else◌, Bytes,
  eq_bytes, eq_bytes_iff, All, All-map₂, count_if, Bool-cases, inl, inr, length, some,
}
use mathlib.Core.List.{foldl, map}
use x_sticker_bot.Base.Int.{ℤ}
use x_sticker_bot.Storage.Stats.{
  Row, Call, DailyStat, mem, lt_bytes, insert_desc, add_desc, days_since, daily_stat, query_daily,
  Answers, event_download_single, event_download_set, event_info,
}
use x_sticker_bot.Storage.Stats.Table.{record_all, entries, sum_count-recorded}
use x_sticker_bot.Storage.Stats.Figures.{
  any_row, mem-collect, collect-record_all, users_of, distinct_users-record_all,
}

lt_bytes_trans : (s t u : Bytes) → lt_bytes s t ≡ true → lt_bytes t u ≡ true → lt_bytes s u ≡ true
unfolding lt_bytes
lt_bytes_trans s [] u h k = absurd (ground arith)
lt_bytes_trans s (d ∷ t) [] h k = absurd (ground arith)
lt_bytes_trans [] (d ∷ t) (e ∷ u) h k = refl
lt_bytes_trans (c ∷ s) (d ∷ t) (e ∷ u) h k = ground (arith, lt_bytes_trans s t u)

lt_bytes_total : (s t : Bytes) → lt_bytes s t ≡ false → eq_bytes s t ≡ false → lt_bytes t s ≡ true
unfolding lt_bytes eq_bytes
lt_bytes_total [] [] h k = absurd (ground arith)
lt_bytes_total [] (d ∷ t) h k = absurd (ground arith)
lt_bytes_total (c ∷ s) [] h k = refl
lt_bytes_total (c ∷ s) (d ∷ t) h k = ground (arith, lt_bytes_total s t)

mem-insert_desc :
    (x y : Bytes) (xs : List Bytes) → mem x (insert_desc y xs) ≡ (eq_bytes y x || mem x xs)
unfolding insert_desc mem
mem-insert_desc x y [] = refl
mem-insert_desc x y (z ∷ xs) = ground (arith, mem-insert_desc x y xs)

mem-add_desc : (x y : Bytes) (xs : List Bytes) → mem x (add_desc y xs) ≡ (eq_bytes y x || mem x xs)
unfolding add_desc
mem-add_desc x y xs = elim (Bool-cases (mem y xs)) [
  | inl old ↦ rw old (ground (arith, eq_bytes_iff y x))
  | inr new ↦ rw new (mem-insert_desc x y xs)
]

add_desc-old : (x : Bytes) (xs : List Bytes) → mem x xs ≡ true → add_desc x xs ≡ xs
unfolding add_desc
add_desc-old x xs h = rw h refl

-- Each text is behind all that follow it.
abbrev pub Descending : List Bytes → Type 0
Descending [] = Unit
Descending (x ∷ xs) = All (λ y. lt_bytes y x ≡ true) xs × Descending xs

insert_desc-below :
    (x z : Bytes) (xs : List Bytes)
    → lt_bytes x z ≡ true
    → All (λ y. lt_bytes y z ≡ true) xs
    → All (λ y. lt_bytes y z ≡ true) (insert_desc x xs)
unfolding insert_desc
insert_desc-below x z [] below h = (below, tt)
insert_desc-below x z (y ∷ ys) below h = elim (Bool-cases (lt_bytes y x)) [
  | inl e ↦ rw e (below, h)
  | inr e ↦ rw e (h.0, insert_desc-below x z ys below h.1)
]

insert_desc-Descending :
    (x : Bytes) (xs : List Bytes) → mem x xs ≡ false → Descending xs → Descending (insert_desc x xs)
unfolding insert_desc mem
insert_desc-Descending x [] new h = (tt, tt)
insert_desc-Descending x (y ∷ ys) new h = elim (Bool-cases (lt_bytes y x)) [
  | inl e ↦
      let Below : Bytes → Type 0 = λ z. lt_bytes z y ≡ true in
      rw e (
        (
          e,
          All-map₂ Below Below (λ z. lt_bytes z x ≡ true) (λ z b _. lt_bytes_trans z y x b e) ys h.0
              h.0,
        ),
        h,
      )
  | inr e ↦ rw e (
    insert_desc-below x y ys (lt_bytes_total y x e (ground arith)) h.0,
    insert_desc-Descending x ys (ground arith) h.1,
  )
]

abbrev not_before : Bytes → Bytes → Bytes → Bytes → Bool
not_before since d h e = not (lt_bytes d since)

foldl-Descending :
    (since : Bytes) (rows : List Row) (acc : List Bytes)
    → Descending acc
    → Descending
        (foldl (λ ds r. if not (lt_bytes r.date since) then add_desc r.date ds else ds) acc rows)
unfolding add_desc
foldl-Descending since [] acc h = h
foldl-Descending since (r ∷ rows) acc h =
    foldl-Descending since rows (if not (lt_bytes r.date since) then add_desc r.date acc else acc)
      (ground (arith, insert_desc-Descending r.date acc))

-- What was called on a day.
unfoldable pub day_of_calls : List Row → Bytes → DailyStat
day_of_calls rows d =
    let of = λ (e : Bytes) (r : Row). eq_bytes r.date d && eq_bytes r.event e in
    record {
      day = d;
      unique_users = length (users_of (λ date h e. eq_bytes date d) rows);
      single_downloads = count_if (of event_download_single) rows;
      set_downloads = count_if (of event_download_set) rows;
      info_queries = count_if (of event_info) rows;
    }

daily_stat-record_all :
    (hash : ℤ → Bytes) (cs : List Call) (d : Bytes)
    → daily_stat (record_all hash cs []) d ≡ day_of_calls (entries hash cs) d
unfolding daily_stat day_of_calls
daily_stat-record_all hash cs d =
    let of : Bytes → Bytes → Bytes → Bytes → Bool =
      λ name date h e. eq_bytes date d && eq_bytes e name in
    rw
      (
        distinct_users-record_all (λ date h e. eq_bytes date d) hash cs,
        sum_count-recorded (of event_download_single) hash cs,
        sum_count-recorded (of event_download_set) hash cs,
        sum_count-recorded (of event_info) hash cs,
      )
      refl

days_since-record_all :
    (since : Bytes) (hash : ℤ → Bytes) (cs : List Call)
    → days_since since (record_all hash cs []) ≡ days_since since (entries hash cs)
unfolding days_since
days_since-record_all since hash cs =
    collect-record_all add_desc mem-add_desc add_desc-old (not_before since) (λ d h e. d) hash cs []

mem-days_since :
    (d since : Bytes) (rows : List Row)
    → mem d (days_since since rows)
      ≡ any_row (λ r. not (lt_bytes r.date since) && eq_bytes r.date d) rows
unfolding days_since mem
mem-days_since d since rows =
    mem-collect add_desc mem-add_desc add_desc-old (not_before since) (λ d h e. d) d rows []

days_since-Descending : (since : Bytes) (rows : List Row) → Descending (days_since since rows)
unfolding days_since
days_since-Descending since rows = foldl-Descending since rows [] tt

-- QueryDaily gives a line for each date of a call that is not before the first day asked for and
-- for no other date, the latest first, with the users and the calls of that date.
pub query_daily_lem :
    (a : Answers) (clock : ℕ → Bytes) (days : ℕ) (hash : ℤ → Bytes) (cs : List Call)
    → a.daily_query_fails ≡ false
    → a.rows_fail ≡ false
    → (ds : List Bytes) × Descending ds
      × ((d : Bytes)
          → mem d ds
            ≡ any_row
                (λ r. not (lt_bytes r.date (clock days)) && eq_bytes r.date d)
                (entries hash cs))
      × (query_daily a clock days (record_all hash cs [])
          ≡ some (map (day_of_calls (entries hash cs)) ds))
unfolding query_daily
query_daily_lem a clock days hash cs answered read =
    let since = clock days in
    (
      days_since since (entries hash cs),
      days_since-Descending since (entries hash cs),
      λ d. mem-days_since d since (entries hash cs),
      rw (answered, read, days_since-record_all since hash cs)
          (ap (λ line. some (map line (days_since since (entries hash cs))))
            (λ i d. daily_stat-record_all hash cs d i)),
    )
