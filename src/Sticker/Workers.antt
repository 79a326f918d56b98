-- ===== src/Sticker/Workers.antt =====
-- internal/sticker/workers.go: the pool for downloads. github.com/panjf2000/ants is a parameter:
-- whether NewPoolWithFunc makes a pool, and whether Invoke takes a task.
pub mod Waiting
mod Tests
use x_sticker_bot.Base.{
  ℕ, zero, suc, ◌+◌, Bool, true, false, not, Option, none, some, if◌then◌else◌,
}

-- The package's variables: whether poolOnce has run, and whether downloadPool is set.
pub record Pools : Type 0 where
  pub once : Bool
  pub has_pool : Bool

pub data PoolError : Type 0 where
  create_failed not_initialized invoke_failed : PoolError

abbrev pub no_pools : Pools
no_pools = record { once = false; has_pool = false }

unfoldable pub init_workers : Bool → Pools → Pools × Option PoolError
init_workers created p =
    if p.once
    then (p, none)
    else (record { once = true; has_pool = created }, if created then none else some create_failed)

-- Whether CloseWorkers releases a pool.
unfoldable pub close_workers : Pools → Bool
close_workers p = p.has_pool

-- The counter of the task's WaitGroup, and the error of its function.
pub record DownloadTask (E : Type 0) : Type 0 where
  pub wg : ℕ
  pub err : Option E

module _ {E : Type 0} where
  -- A counter below zero panics.
  abbrev pub wg_done : DownloadTask E → Option (DownloadTask E)
  wg_done t = elim t.wg [ zero ↦ none | suc n ↦ some (record t { wg = n }) ]

  -- A worker that is given the task; `result` is what its function returns.
  unfoldable pub download_worker : Option E → DownloadTask E → Option (DownloadTask E)
  download_worker result t = wg_done (record t { err = result })

  unfoldable pub submit_download : Pools → Bool → DownloadTask E → DownloadTask E × Option PoolError
  submit_download p takes t =
      if not p.has_pool
      then (t, some not_initialized)
      else (record t { wg = t.wg + 1 }, if takes then none else some invoke_failed)
