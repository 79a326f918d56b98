-- ===== src/Storage/Stats/Tests.antt =====
-- Examples for internal/storage/stats.go.
use x_sticker_bot.Base.{
  ℕ, ◌≡◌, refl, true, false, some, List, [], ◌∷◌, Bytes, codes, eq_bytes, All, count_if,
}
use x_sticker_bot.Base.Int.{ℤ, pos, negsuc}
use x_sticker_bot.Storage.Stats.{
  Call, Answers, same_key, upsert, record_event, mem, add_distinct, is_download, total_stats,
  distinct_users, sum_count, event_download_single, event_download_set, event_info,
}
use x_sticker_bot.Storage.Stats.Table.{Unique, record_all, entries, record_all_lem}

abbrev answers : Answers
answers = record { daily_query_fails = false; rows_fail = false; total_query_fails = false }

abbrev user : ℤ → Bytes
user (pos n) = n ∷ []
user (negsuc n) = 0 ∷ n ∷ []

abbrev calls : List Call
calls =
    record {
      today = codes "2026-01-02";
      uid = pos 7;
      name = event_download_single;
      exec_fails = false;
    }
    ∷ record {
      today = codes "2026-01-02";
      uid = pos 7;
      name = event_download_single;
      exec_fails = false;
    }
    ∷ record { today = codes "2026-01-02"; uid = pos 8; name = event_info; exec_fails = true }
    ∷ record {
      today = codes "2026-01-03";
      uid = pos 8;
      name = event_download_set;
      exec_fails = false;
    }
    ∷ []

abbrev clock : ℕ → Bytes
clock days = codes "2025-12-27"

counts_tried : total_stats answers (record_all user calls []) ≡ some (2, 3)
unfolding total_stats record_all record_event upsert eq_bytes distinct_users sum_count is_download
    add_distinct mem
counts_tried = refl

record_all_lem_example :
    Unique (record_all user calls [])
    × All (λ r. r.count ≡ count_if (same_key r) (entries user calls)) (record_all user calls [])
record_all_lem_example = record_all_lem user calls
