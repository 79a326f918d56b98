-- ===== src/Sticker/Workers/Waiting.antt =====
-- When the Wait of a download task returns.
use x_sticker_bot.Base.{
  ℕ, zero, suc, ◌+◌, ◌≡◌, ◌↔◌, refl, Bool, true, false, Option, none, some, List, [], ◌∷◌, arith,
}
use x_sticker_bot.Sticker.Workers.{
  Pools, no_pools, not_initialized, init_workers, DownloadTask, submit_download, download_worker,
}

-- What InitWorkers leaves after calls in which the pool could be made or not.
abbrev pub init_all : List Bool → Pools → Pools
init_all [] p = p
init_all (created ∷ cs) p = init_all cs (init_workers created p).0

init_all-once :
    (cs : List Bool) (b : Bool)
    → init_all cs (record { once = true; has_pool = b }) ≡ record { once = true; has_pool = b }
unfolding init_workers
init_all-once [] b = refl
init_all-once (c ∷ cs) b = init_all-once cs b

-- What happens to a task: SubmitDownload, which Invoke takes or not, or a worker runs it.
pub data Move (E : Type 0) : Type 0 where
  submitted : Bool → Move E
  worked : Option E → Move E

module _ {E : Type 0} where
  abbrev pub step : Pools → Move E → DownloadTask E → Option (DownloadTask E)
  step p (submitted takes) t = some (submit_download p takes t).0
  step p (worked result) t = download_worker result t

  abbrev pub run : Pools → List (Move E) → DownloadTask E → Option (DownloadTask E)
  run p [] t = some t
  run p (mv ∷ mvs) t = elim (step p mv t) [ none ↦ none | some t' ↦ run p mvs t' ]

  -- With `k` submissions that wait for a worker, a worker runs only what was taken.
  abbrev pub Feasible : ℕ → List (Move E) → Type 0
  Feasible k [] = Unit
  Feasible k (submitted true ∷ mvs) = Feasible (suc k) mvs
  Feasible k (submitted false ∷ mvs) = Feasible k mvs
  Feasible zero (worked r ∷ mvs) = ⊥
  Feasible (suc k) (worked r ∷ mvs) = Feasible k mvs

  -- The submissions that still wait for a worker.
  abbrev pub waiting : ℕ → List (Move E) → ℕ
  waiting k [] = k
  waiting k (submitted true ∷ mvs) = waiting (suc k) mvs
  waiting k (submitted false ∷ mvs) = waiting k mvs
  waiting zero (worked r ∷ mvs) = zero
  waiting (suc k) (worked r ∷ mvs) = waiting k mvs

  -- The submissions that Invoke refused.
  abbrev pub refused : List (Move E) → ℕ
  refused [] = 0
  refused (submitted true ∷ mvs) = refused mvs
  refused (submitted false ∷ mvs) = suc (refused mvs)
  refused (worked r ∷ mvs) = refused mvs

  wg-run :
      (p : Pools) (mvs : List (Move E)) (t : DownloadTask E) (w k : ℕ)
      → p.has_pool ≡ true
      → Feasible k mvs
      → t.wg ≡ w + k
      → (t' : DownloadTask E) × (run p mvs t ≡ some t')
        × (t'.wg ≡ w + (refused mvs + waiting k mvs))
  unfolding submit_download download_worker
  wg-run p [] t w k ready f e = (t, refl, omega arith)
  wg-run p (submitted true ∷ mvs) t w k ready f e =
      rw ready (wg-run p mvs (record t { wg = t.wg + 1 }) w (suc k) ready f (omega arith))
  wg-run p (submitted false ∷ mvs) t w k ready f e = rw ready (
      let (t', r, c) = wg-run p mvs (record t { wg = t.wg + 1 }) (suc w) k ready f (omega arith) in
      (t', r, omega arith))
  wg-run p (worked r ∷ mvs) t w zero ready f e = absurd f
  wg-run p (worked r ∷ mvs) t w (suc k) ready f e =
      let e' : t.wg ≡ suc (w + k) = omega arith in
      rw (e', step) (wg-run p mvs (record t { wg = w + k; err = r }) w k ready f refl)

  -- Once InitWorkers has made the pool, no history of a new task panics in which workers run only
  -- what Invoke has taken; its Wait returns at the end exactly if Invoke refused no submission and
  -- the workers have run every one.
  pub wait_lem :
      (cs : List Bool) (mvs : List (Move E)) (e : Option E)
      → Feasible 0 mvs
      → (t : DownloadTask E) × (run (init_all (true ∷ cs) no_pools) mvs (record { wg = 0; err = e })
          ≡ some t)
        × ((t.wg ≡ 0) ↔ ((refused mvs ≡ 0) × (waiting 0 mvs ≡ 0)))
  unfolding init_workers
  wait_lem cs mvs e f = rw (init_all-once cs true) (
      let (t, r, c) =
        wg-run (record { once = true; has_pool = true }) mvs (record { wg = 0; err = e }) 0 0 refl f
          refl in
      (t, r, (λ z. (omega arith, omega arith), λ z. omega arith)))

  -- If the first call of InitWorkers could not make the pool, then later calls report no error
  -- and every submission fails without a trace in the task.
  pub submit_download-failed :
      (cs : List Bool) (c takes : Bool) (t : DownloadTask E)
      → ((init_workers c (init_all (false ∷ cs) no_pools)).1 ≡ none)
        × (submit_download (init_all (false ∷ cs) no_pools) takes t ≡ (t, some not_initialized))
  unfolding init_workers submit_download
  submit_download-failed cs c takes t = rw (init_all-once cs false) (refl, refl)
