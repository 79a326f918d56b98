-- ===== src/Bot/Run/Serving.antt =====
-- When the program gets to poll, and with what.
use x_sticker_bot.Base.{
  ℕ, eq_bytes_iff, ◌≡◌, ◌≢◌, ◌⊎◌, inl, inr, refl, Bool, true, false, Option, none, some, List, [],
  ◌∷◌, ◌++◌, arith, Bool-cases, Option-cases, subst, sym, ap₂, ◌*◌, eq_bytes, Bytes,
}
use x_sticker_bot.Config.{Config, Flags, parse, is_level}
use x_sticker_bot.Limiter.{Rate}
use x_sticker_bot.Storage.Temp.{Fs, TempManager, new_temp_manager}
use x_sticker_bot.Storage.Stats.{Row, new_stats}
use x_sticker_bot.Sticker.Workers.{Pools, no_pools, init_workers}
use x_sticker_bot.Bot.Run.{
  Outside, RunError, temp_manager_failed, workers_failed, bot_failed, get_me_failed, Resource,
  signals, stats_db, cleanup_stop, limiter_stop, workers, failed, doing, Service, Act, release,
  start_auto_clean, start_cleanup, poll, Outcome, holding, polling, with_bot, started,
  with_cleaners, with_stats, run, service, data_dir, main,
}

module _ (r : Rate) where
  -- The services that are polled.
  abbrev pub polled : List (Act r) → List (Service r)
  polled [] = []
  polled (a ∷ acts) = elim a [ poll s ↦ s ∷ polled acts | _ ↦ polled acts ]

  polled-append : (xs ys : List (Act r)) → polled (xs ++ ys) ≡ polled xs ++ polled ys
  polled-append [] ys = refl
  polled-append (a ∷ xs) ys = ground (arith, polled-append xs ys)

  -- The run polls just this service, or fails without polling.
  abbrev pub Ends : Option (Service r) → Outcome r → Type 0
  Ends (some s) out = (out.1 ≡ none) × (polled out.0 ≡ s ∷ [])
  Ends none out = ((e : RunError) × (out.1 ≡ some e)) × (polled out.0 ≡ [])

  holding-Ends :
      (x : Resource) (os : Option (Service r)) (out : Outcome r)
      → Ends os out
      → Ends os (holding r x out)
  holding-Ends x none out h = (h.0, ground (arith, h.1, polled-append out.0 (release x ∷ [])))
  holding-Ends x (some s) out h = (h.0, ground (arith, h.1, polled-append out.0 (release x ∷ [])))

  module _ (o : Outside) (cfg : Config) (has_factory : Bool) where
    -- All that the run needs succeeds, and this is the service.
    pub record Starts (s : Service r) : Type 0 where
      pub tmp : TempManager
      pub fs' : Fs
      pub made : new_temp_manager o.sys o.fs o.now (data_dir r o cfg has_factory) ≡ some (tmp, fs')
      pub created : o.pool_created ≡ true
      pub taken : o.takes_token cfg.bot_token ≡ true
      pub name : Bytes
      pub answered : o.get_me ≡ some name
      pub is_service :
          s
          ≡ service r o cfg has_factory tmp
              (new_stats o.opening o.database).0
              (record { once = true; has_pool = true })
              name

    abbrev pub Fails : Type 0
    Fails =
        (new_temp_manager o.sys o.fs o.now (data_dir r o cfg has_factory) ≡ none)
        ⊎ ((o.pool_created ≡ false) ⊎ ((o.takes_token cfg.bot_token ≡ false) ⊎ (o.get_me ≡ none)))

    polling-Ends : (s : Service r) → Ends (some s) (polling r s)
    unfolding polling
    polling-Ends s = (ground arith, ground arith)

    abbrev pub Runs : Outcome r → Type 0
    Runs out = ((s : Service r) × Starts s × Ends (some s) out) ⊎ (Fails × Ends none out)

    holding-Runs : (x : Resource) (out : Outcome r) → Runs out → Runs (holding r x out)
    holding-Runs x out (inl (s, st, e)) = inl (s, st, holding-Ends x (some s) out e)
    holding-Runs x out (inr (f, e)) = inr (f, holding-Ends x none out e)

    Fails-Runs : (e : RunError) → Fails → Runs (failed r e)
    Fails-Runs e f = inr (f, ((e, refl), refl))

    -- By the equation of a branch.
    along : (out out' : Outcome r) → out ≡ out' → Runs out' → Runs out
    along out out' e h = subst Runs (sym e) h

    module _ (tmp : TempManager) (fs' : Fs)
        (made : new_temp_manager o.sys o.fs o.now (data_dir r o cfg has_factory)
          ≡ some (tmp, fs')) where
      with_bot-Runs :
          (stats : Option (List Row)) (pools : Pools)
          → (new_stats o.opening o.database).0 ≡ stats
          → pools ≡ record { once = true; has_pool = true }
          → o.pool_created ≡ true
          → Runs (with_bot r o cfg has_factory tmp stats pools)
      unfolding with_bot
      with_bot-Runs stats pools opened set created =
          elim (Bool-cases (o.takes_token cfg.bot_token)) [
            | inr refused ↦
                along (with_bot r o cfg has_factory tmp stats pools) (failed r bot_failed)
                  (rw refused) (Fails-Runs bot_failed (inr (inr (inl refused))))
            | inl taken ↦ elim (Option-cases o.get_me) [
              | inl silent ↦
                  along (with_bot r o cfg has_factory tmp stats pools) (failed r get_me_failed)
                    (rw (taken, silent, with_bot))
                    (Fails-Runs get_me_failed (inr (inr (inr silent))))
              | inr (name, e) ↦
                  let s = service r o cfg has_factory tmp stats pools name in
                  let starts : Starts s = record {
                    tmp = tmp;
                    fs' = fs';
                    made = made;
                    created = created;
                    taken = taken;
                    name = name;
                    answered = e;
                    is_service =
                        ap₂
                          (λ (x : Option (List Row)) (y : Pools).
                            service r o cfg has_factory tmp x y name)
                          (sym opened) set;
                  } in
                  along (with_bot r o cfg has_factory tmp stats pools) (polling r s)
                    (rw (taken, e, with_bot)) (inl (s, starts, polling-Ends s))
            ]
          ]

      started-Runs :
          (stats : Option (List Row))
          → (new_stats o.opening o.database).0 ≡ stats
          → Runs (started r o cfg has_factory tmp stats)
      unfolding started init_workers
      started-Runs stats opened = elim (Bool-cases o.pool_created) [
        | inr refused ↦
            along (started r o cfg has_factory tmp stats) (failed r workers_failed) (rw refused)
              (Fails-Runs workers_failed (inr (inl refused)))
        | inl created ↦
            let pools = (init_workers o.pool_created no_pools).0 in
            let bot = with_bot r o cfg has_factory tmp stats pools in
            along (started r o cfg has_factory tmp stats) (holding r workers bot)
              (rw (created, started))
              (holding-Runs workers bot (with_bot-Runs stats pools opened (rw created) created))
      ]

      with_cleaners-Runs :
          (stats : Option (List Row))
          → (new_stats o.opening o.database).0 ≡ stats
          → Runs (with_cleaners r o cfg has_factory tmp stats)
      unfolding with_cleaners
      with_cleaners-Runs stats opened =
          let inner = doing r (start_cleanup 600 1800) (started r o cfg has_factory tmp stats) in
          holding-Runs cleanup_stop
            (doing r (start_auto_clean 3600 (24 * 3600)) (holding r limiter_stop inner))
            (holding-Runs limiter_stop inner (started-Runs stats opened))

      with_stats-Runs : Runs (with_stats r o cfg has_factory tmp)
      unfolding with_stats
      with_stats-Runs = elim (Option-cases (new_stats o.opening o.database).0) [
        | inl e ↦
            along (with_stats r o cfg has_factory tmp) (with_cleaners r o cfg has_factory tmp none)
              (rw (e, with_stats)) (with_cleaners-Runs none e)
        | inr (rows, e) ↦
            let cleaners = with_cleaners r o cfg has_factory tmp (some rows) in
            along (with_stats r o cfg has_factory tmp) (holding r stats_db cleaners)
              (rw (e, with_stats))
              (holding-Runs stats_db cleaners (with_cleaners-Runs (some rows) e))
      ]

    run-Runs : Runs (run r o cfg has_factory)
    unfolding run
    run-Runs =
        elim (Option-cases (new_temp_manager o.sys o.fs o.now (data_dir r o cfg has_factory))) [
          | inl e ↦
              along (run r o cfg has_factory) (holding r signals (failed r temp_manager_failed))
                (rw (e, run))
                (holding-Runs signals (failed r temp_manager_failed)
                  (Fails-Runs temp_manager_failed (inl e)))
          | inr ((tmp, fs'), e) ↦
              let rest = with_stats r o cfg has_factory tmp in
              along (run r o cfg has_factory) (holding r signals rest) (rw (e, run))
                (holding-Runs signals rest (with_stats-Runs tmp fs' e))
        ]

  -- How the program ends, by its exit code and what it has done.
  abbrev pub Exits : Config → Outside → ℕ × List (Act r) → Type 0
  Exits cfg o (code, log) =
      (code ≡ 0)
        × (cfg.bot_token ≢ [])
        × (is_level cfg.log_level ≡ true)
        × ((s : Service r) × Starts o cfg true s × (polled log ≡ s ∷ []))
      ⊎ ((code ≡ 1)
          × (polled log ≡ [])
          × ((cfg.bot_token ≡ []) ⊎ ((is_level cfg.log_level ≡ false) ⊎ Fails o cfg true)))

  -- The program exits with 0 exactly if the token is not empty, the log level is one, and the
  -- directory for temporary files, the pool, the bot and its name can be had, and then it has
  -- polled just the service that these make, with or without the database; otherwise it exits
  -- with 1 and has polled nothing.
  pub main_lem :
      (env : Bytes → Bytes) (flags : Flags) (o : Outside)
      → Exits (parse env flags) o (main r env flags o)
  unfolding main
  main_lem env flags o =
      let cfg = parse env flags in
      elim (Bool-cases (eq_bytes cfg.bot_token [])) [
        | inl empty ↦
            along (1, []) (rw empty)
              (inr (refl, refl, inl ((eq_bytes_iff cfg.bot_token []).0 empty)))
        | inr token ↦ elim (Bool-cases (is_level cfg.log_level)) [
          | inr bad ↦ along (1, []) (rw (token, bad)) (inr (refl, refl, inr (inl bad)))
          | inl level ↦ elim (run-Runs o cfg true) [
            | inl (s, starts, ends) ↦
                along (0, (run r o cfg true).0) (rw (token, level, ends.0))
                  (inl (refl, named token, level, (s, starts, ends.1)))
            | inr (fails, ends) ↦
                along (1, (run r o cfg true).0) (rw (token, level, ends.0.1))
                  (inr (refl, ends.1, inr (inr fails)))
          ]
        ]
      ]
    where
      along :
          (out : ℕ × List (Act r))
          → main r env flags o ≡ out
          → Exits (parse env flags) o out
          → Exits (parse env flags) o (main r env flags o)
      along out e h = subst (Exits (parse env flags) o) (sym e) h

      named : eq_bytes (parse env flags).bot_token [] ≡ false → (parse env flags).bot_token ≢ []
      named e f = ground (arith, eq_bytes_iff (parse env flags).bot_token [])
