-- ===== src/Sticker/Workers/Tests.antt =====
-- Examples for the pool of downloads.
use x_sticker_bot.Base.{ℕ, ◌≡◌, ◌↔◌, refl, true, false, some, none, List, [], ◌∷◌}
use x_sticker_bot.Sticker.Workers.{
  DownloadTask, no_pools, init_workers, submit_download, download_worker,
}
use x_sticker_bot.Sticker.Workers.Waiting.{
  Move, submitted, worked, init_all, run, refused, waiting, wait_lem,
}

-- Two submissions that are taken, one that is not, and both runs.
abbrev moves : List (Move ℕ)
moves = submitted true ∷ submitted true ∷ worked none ∷ submitted false ∷ worked (some 3) ∷ []

left :
    run (init_all (true ∷ []) no_pools) moves (record { wg = 0; err = none })
    ≡ some (record { wg = 1; err = some 3 })
unfolding init_workers submit_download download_worker
left = refl

wait_lem_example :
    (t : DownloadTask ℕ) × (run
        (init_all (true ∷ []) no_pools)
        moves
        (record { wg = 0; err = none })
      ≡ some t)
    × ((t.wg ≡ 0) ↔ ((refused moves ≡ 0) × (waiting 0 moves ≡ 0)))
wait_lem_example = wait_lem [] moves none tt
