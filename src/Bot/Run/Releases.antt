-- ===== src/Bot/Run/Releases.antt =====
-- What Run has acquired, and when it gives it back.
use x_sticker_bot.Base.{
  ◌≡◌, refl, Bool, true, false, ◌&&◌, Option, none, some, List, [], ◌∷◌, ◌++◌, if◌then◌else◌, arith,
  Bool-cases, Option-cases, is_some, inl, inr, ◌*◌,
}
use x_sticker_bot.Config.{Config}
use x_sticker_bot.Limiter.{Rate}
use x_sticker_bot.Storage.Temp.{TempManager, new_temp_manager}
use x_sticker_bot.Storage.Stats.{Row, new_stats}
use x_sticker_bot.Sticker.Workers.{Pools, no_pools, init_workers}
use x_sticker_bot.Bot.Run.{
  Outside, Resource, signals, stats_db, cleanup_stop, limiter_stop, workers, Service, Act, acquire,
  release, start_auto_clean, start_cleanup, set_profile, serve_monitor, poll, Outcome, doing,
  holding, polling, with_bot, started, with_cleaners, with_stats, run, service, data_dir,
}

abbrev pub same : Resource → Resource → Bool
same signals signals = true
same stats_db stats_db = true
same cleanup_stop cleanup_stop = true
same limiter_stop limiter_stop = true
same workers workers = true
same _ _ = false

abbrev pub has : Resource → List Resource → Bool
has x [] = false
has x (y ∷ ys) = if same x y then true else has x ys

module _ (r : Rate) where
  -- Whether all that an act needs is held.
  abbrev pub may : List Resource → Act r → Bool
  may hs (start_auto_clean i a) = has cleanup_stop hs
  may hs (start_cleanup i a) = has limiter_stop hs
  may hs (set_profile ps) = has signals hs
  may hs (serve_monitor s) = if is_some s.stats then has stats_db hs else true
  may hs (poll s) =
      (has workers hs && has limiter_stop hs && has cleanup_stop hs && has signals hs)
      && (if is_some s.stats then has stats_db hs else true)
  may hs (acquire x) = if has x hs then false else true
  may (h ∷ hs) (release x) = same h x
  may [] (release x) = false

  abbrev pub after : List Resource → Act r → List Resource
  after hs (acquire x) = x ∷ hs
  after (h ∷ hs) (release x) = hs
  after hs _ = hs

  -- What is held after the acts, the last first; none, if an act lacks what it needs, or something
  -- is acquired twice or released when it is not the last that was acquired.
  abbrev pub held : List Resource → List (Act r) → Option (List Resource)
  held hs [] = some hs
  held hs (a ∷ acts) = elim (may hs a) [ true ↦ held (after hs a) acts | false ↦ none ]

  held-append :
      (hs hs' : List Resource) (xs ys : List (Act r))
      → held hs xs ≡ some hs'
      → held hs (xs ++ ys) ≡ held hs' ys
  held-append hs hs' [] ys e = ground arith
  held-append hs hs' (a ∷ xs) ys e = ground (arith, held-append (after hs a) hs' xs ys)

  -- A function that gives back what it acquires.
  abbrev pub Balanced : List Resource → Outcome r → Type 0
  Balanced hs out = held hs out.0 ≡ some hs

  same_refl : (x : Resource) → same x x ≡ true
  same_refl signals = refl
  same_refl stats_db = refl
  same_refl cleanup_stop = refl
  same_refl limiter_stop = refl
  same_refl workers = refl

  holding-Balanced :
      (x : Resource) (hs : List Resource) (out : Outcome r)
      → has x hs ≡ false
      → Balanced (x ∷ hs) out
      → Balanced hs (holding r x out)
  holding-Balanced x hs out fresh b =
      ground (arith, held-append (x ∷ hs) (x ∷ hs) out.0 (release x ∷ []) b, same_refl x)

  -- The stack that Run has built up when it polls.
  abbrev pub base_of : Option (List Row) → List Resource
  base_of stats = if is_some stats then stats_db ∷ signals ∷ [] else signals ∷ []

  abbrev pub full_of : Option (List Row) → List Resource
  full_of stats = workers ∷ limiter_stop ∷ cleanup_stop ∷ base_of stats

  polling-Balanced : (s : Service r) → Balanced (full_of s.stats) (polling r s)
  unfolding polling
  polling-Balanced s = elim (Option-cases s.stats) [
    | inl e ↦ ground (arith, e)
    | inr (rows, e) ↦ ground (arith, e)
  ]

  module _ (o : Outside) (cfg : Config) (has_factory : Bool) where
    with_bot-Balanced :
        (tmp : TempManager) (stats : Option (List Row)) (pools : Pools)
        → Balanced (full_of stats) (with_bot r o cfg has_factory tmp stats pools)
    unfolding with_bot
    with_bot-Balanced tmp stats pools = elim (Bool-cases (o.takes_token cfg.bot_token)) [
      | inr refused ↦ rw refused refl
      | inl taken ↦ elim (Option-cases o.get_me) [
        | inl none_of ↦ rw (taken, none_of, with_bot) refl
        | inr (name, e) ↦
            rw (taken, e, with_bot)
              (polling-Balanced (service r o cfg has_factory tmp stats pools name))
      ]
    ]

    started-Balanced :
        (tmp : TempManager) (stats : Option (List Row))
        → Balanced
            (limiter_stop ∷ cleanup_stop ∷ base_of stats)
            (started r o cfg has_factory tmp stats)
    unfolding started init_workers
    started-Balanced tmp stats = elim (Bool-cases o.pool_created) [
      | inr refused ↦ rw refused refl
      | inl created ↦
          rw (created, started)
            (holding-Balanced workers (limiter_stop ∷ cleanup_stop ∷ base_of stats)
              (with_bot r o cfg has_factory tmp stats (init_workers o.pool_created no_pools).0)
              (ground arith) (with_bot-Balanced tmp stats (init_workers o.pool_created no_pools).0))
    ]

    with_cleaners-Balanced :
        (tmp : TempManager) (stats : Option (List Row))
        → Balanced (base_of stats) (with_cleaners r o cfg has_factory tmp stats)
    unfolding with_cleaners
    with_cleaners-Balanced tmp stats =
        holding-Balanced cleanup_stop (base_of stats)
          (doing r (start_auto_clean 3600 (24 * 3600)) (
            holding r limiter_stop
              (doing r (start_cleanup 600 1800) (started r o cfg has_factory tmp stats))))
          (ground arith)
          (holding-Balanced limiter_stop (cleanup_stop ∷ base_of stats)
            (doing r (start_cleanup 600 1800) (started r o cfg has_factory tmp stats))
            (ground arith) (started-Balanced tmp stats))

    with_stats-Balanced :
        (tmp : TempManager) → Balanced (signals ∷ []) (with_stats r o cfg has_factory tmp)
    unfolding with_stats
    with_stats-Balanced tmp = elim (Option-cases (new_stats o.opening o.database).0) [
      | inl e ↦ rw (e, with_stats) (with_cleaners-Balanced tmp none)
      | inr (rows, e) ↦
          rw (e, with_stats)
            (holding-Balanced stats_db (signals ∷ [])
              (with_cleaners r o cfg has_factory tmp (some rows)) refl
              (with_cleaners-Balanced tmp (some rows)))
    ]

    -- Whatever fails while the bot starts, Run gives back all that it has acquired, each once and
    -- the last first; and nothing is started or polled before what it needs is acquired or after
    -- that is given back.
    pub run-Balanced : Balanced [] (run r o cfg has_factory)
    unfolding run
    run-Balanced =
        elim (Option-cases (new_temp_manager o.sys o.fs o.now (data_dir r o cfg has_factory))) [
          | inl e ↦ rw (e, run) refl
          | inr ((tmp, fs'), e) ↦
              rw (e, run)
                (holding-Balanced signals [] (with_stats r o cfg has_factory tmp) refl
                  (with_stats-Balanced tmp))
        ]
