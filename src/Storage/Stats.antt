-- ===== src/Storage/Stats.antt =====
-- internal/storage/stats.go: the table of usage events, and the statements that the program sends
-- to SQLite as functions on the rows. Dates are texts, as the clock formats them.
pub mod Table
pub mod Figures
pub mod Days
mod Tests
use x_sticker_bot.Base.{
  ℕ, zero, suc, ◌+◌, Bool, true, false, ◌&&◌, ◌||◌, not, Option, none, some, List, [], ◌∷◌, ◌++◌,
  if◌then◌else◌, ltb, ◌==◌, length, take, sum_by, Bytes, codes, eq_bytes,
}
use mathlib.Core.List.{foldl, map}
use x_sticker_bot.Base.Int.{ℤ}
use x_sticker_bot.Storage.Temp.{decimal_int, hex_encode}

abbrev pub event_download_single : Bytes
event_download_single = codes "download_single"

abbrev pub event_download_set : Bytes
event_download_set = codes "download_set"

abbrev pub event_info : Bytes
event_info = codes "info"

-- A row of daily_events.
pub record Row : Type 0 where
  pub date : Bytes
  pub user_hash : Bytes
  pub event : Bytes
  pub count : ℕ

pub record DailyStat : Type 0 where
  pub day : Bytes
  pub unique_users : ℕ
  pub single_downloads : ℕ
  pub set_downloads : ℕ
  pub info_queries : ℕ

-- The salt is the variable STATS_SALT, or 16 random bytes; none is the panic without them.
pub stats_salt : Bytes → Option (List ℕ) → Option Bytes
stats_salt env random =
    if eq_bytes env [] then elim random [ none ↦ none | some b ↦ some (hex_encode b) ] else some env

-- The first 6 bytes of the SHA-256 sum, which is the argument `sha256`.
unfoldable pub hash_uid : (Bytes → List ℕ) → Bytes → ℤ → Bytes
hash_uid sha256 salt uid = hex_encode (take 6 (sha256 (salt ++ (codes "_" ++ decimal_int uid))))

-- What may fail while the database is opened.
pub record Opening : Type 0 where
  pub mkdir_fails : Bool
  pub open_fails : Bool
  pub ping_fails : Bool
  pub table_fails : Bool
  pub index_fails : Bool

-- The rows after CREATE TABLE IF NOT EXISTS and CREATE UNIQUE INDEX IF NOT EXISTS, without an error.
pub init_schema : Opening → Option (List Row) → Option (List Row)
init_schema o file =
    if o.table_fails || o.index_fails
    then none
    else elim file [ none ↦ some [] | some rows ↦ some rows ]

-- The rows behind the Stats that is returned, and whether a connection stays open.
unfoldable pub new_stats : Opening → Option (List Row) → Option (List Row) × Bool
unfolding init_schema
new_stats o file =
    if o.mkdir_fails || o.open_fails
    then (none, false)
    else if o.ping_fails
    then (none, false)
    else elim (init_schema o file) [ none ↦ (none, false) | some rows ↦ (some rows, true) ]

-- What the unique index is on.
abbrev pub same_key : Row → Row → Bool
same_key r s =
    (eq_bytes r.date s.date && eq_bytes r.user_hash s.user_hash) && eq_bytes r.event s.event

-- The INSERT of RecordEvent, with its ON CONFLICT clause.
unfoldable pub upsert : Row → List Row → List Row
upsert new [] = new ∷ []
upsert new (r ∷ rows) =
    if same_key r new then record r { count = r.count + 1 } ∷ rows else r ∷ upsert new rows

-- A call of RecordEvent: the day of its clock, and whether the statement fails.
pub record Call : Type 0 where
  pub today : Bytes
  pub uid : ℤ
  pub name : Bytes
  pub exec_fails : Bool

abbrev pub new_row : (ℤ → Bytes) → Call → Row
new_row hash c = record { date = c.today; user_hash = hash c.uid; event = c.name; count = 1 }

-- A statement that fails is logged and changes nothing.
unfoldable pub record_event : (ℤ → Bytes) → Call → List Row → List Row
unfolding upsert
record_event hash c rows = if c.exec_fails then rows else upsert (new_row hash c) rows

unfoldable pub mem : Bytes → List Bytes → Bool
mem x [] = false
mem x (y ∷ ys) = eq_bytes y x || mem x ys

-- The order of SQLite on texts.
unfoldable pub lt_bytes : Bytes → Bytes → Bool
lt_bytes s [] = false
lt_bytes [] (d ∷ t) = true
lt_bytes (c ∷ s) (d ∷ t) = ltb c d || ((c == d) && lt_bytes s t)

unfoldable pub insert_desc : Bytes → List Bytes → List Bytes
unfolding lt_bytes
insert_desc x [] = x ∷ []
insert_desc x (y ∷ ys) = if lt_bytes y x then x ∷ y ∷ ys else y ∷ insert_desc x ys

-- One more value of a column of which each value counts once.
unfoldable pub add_distinct : Bytes → List Bytes → List Bytes
unfolding mem
add_distinct x xs = if mem x xs then xs else x ∷ xs

unfoldable pub add_desc : Bytes → List Bytes → List Bytes
unfolding mem insert_desc
add_desc x xs = if mem x xs then xs else insert_desc x xs

-- COUNT(DISTINCT user_hash) over the rows that pass the test.
unfoldable pub distinct_users : (Row → Bool) → List Row → ℕ
unfolding add_distinct
distinct_users p rows =
    length (foldl (λ xs r. if p r then add_distinct r.user_hash xs else xs) [] rows)

-- SUM(CASE WHEN ... THEN count END), which COALESCE makes 0 where there is none.
unfoldable pub sum_count : (Row → Bool) → List Row → ℕ
sum_count p rows = sum_by (λ r. if p r then r.count else 0) rows

-- WHERE date >= since GROUP BY date ORDER BY date DESC: the groups.
unfoldable pub days_since : Bytes → List Row → List Bytes
unfolding add_desc
days_since since rows =
    foldl (λ ds r. if not (lt_bytes r.date since) then add_desc r.date ds else ds) [] rows

-- A line of QueryDaily.
unfoldable pub daily_stat : List Row → Bytes → DailyStat
unfolding distinct_users sum_count
daily_stat rows d =
    let of = λ (e : Bytes) (r : Row). eq_bytes r.date d && eq_bytes r.event e in
    record {
      day = d;
      unique_users = distinct_users (λ r. eq_bytes r.date d) rows;
      single_downloads = sum_count (of event_download_single) rows;
      set_downloads = sum_count (of event_download_set) rows;
      info_queries = sum_count (of event_info) rows;
    }

-- What the database may refuse, by the call.
pub record Answers : Type 0 where
  pub daily_query_fails : Bool
  -- an error of Scan or of rows.Err
  pub rows_fail : Bool
  pub total_query_fails : Bool

-- The clock answers with the date that lies so many days back.
unfoldable pub query_daily : Answers → (ℕ → Bytes) → ℕ → List Row → Option (List DailyStat)
unfolding days_since daily_stat
query_daily a clock days rows =
    if a.daily_query_fails || a.rows_fail
    then none
    else some (map (daily_stat rows) (days_since (clock days) rows))

unfoldable pub is_download : Row → Bool
is_download r = eq_bytes r.event event_download_single || eq_bytes r.event event_download_set

unfoldable pub total_stats : Answers → List Row → Option (ℕ × ℕ)
unfolding distinct_users sum_count is_download
total_stats a rows =
    if a.total_query_fails
    then none
    else some (distinct_users (λ r. true) rows, sum_count is_download rows)

-- The values and whether there is an error.
unfoldable pub query_daily_json :
    Answers → (ℕ → Bytes) → ℕ → List Row → Option (List DailyStat) × ℕ × ℕ × Bool
unfolding query_daily total_stats
query_daily_json a clock days rows = elim (query_daily a clock days rows) [
  | none ↦ (none, 0, 0, true)
  | some d ↦ elim (total_stats a rows) [
    | none ↦ (some d, 0, 0, true)
    | some (users, downloads) ↦ (some d, users, downloads, false)
  ]
]
