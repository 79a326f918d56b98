-- ===== src/Bot/Run/Running.antt =====
-- What the bot that Run has started does with updates.
use x_sticker_bot.Base.{
  ℕ, ◌≢◌, All, ◌≤◌, ◌≡◌, refl, subst, ap, inl, inr, true, Option, some, List, [], ◌∷◌, arith, Bytes,
  codes, lookup, eq_bytes, nat_eq, bytes_eq, insert, Option-cases,
}
use x_sticker_bot.Telegram.{Update}
use x_sticker_bot.Config.{Config}
use x_sticker_bot.Limiter.{Rate, new_rate_limiter, set_command_rate}
use x_sticker_bot.Limiter.Burst.{Tokens, Call, general, command, unseen_bursts}
use x_sticker_bot.Monitor.Metrics.{new_metrics}
use x_sticker_bot.Monitor.Ring.Window.{new-IsValid}
use x_sticker_bot.Bot.Router.{App, Pattern, register_rates, on_update, dispatch}
use x_sticker_bot.Bot.Router.Accounting.{on_updates, on_updates-denied}
use x_sticker_bot.Bot.Router.Totality.{HasValidRing, HasSender, Completes, on_update-Completes}
use x_sticker_bot.Bot.Router.Bursts.{bucket_of, on_update-burst, passes, passes-le}
use x_sticker_bot.Bot.Run.{Outside, Service, app_of, my_commands}
use x_sticker_bot.Bot.Run.Serving.{Starts}

module _ (r : Rate) where
  -- Every message in the history has a sender.
  abbrev pub HaveSenders : List (Option Pattern × Update × ℕ) → Type 0
  HaveSenders [] = Unit
  HaveSenders ((p, u, now) ∷ us) = HasSender r u × HaveSenders us

  on_updates-total :
      (us : List (Option Pattern × Update × ℕ)) (app : App r)
      → HaveSenders us
      → HasValidRing r app
      → (app' : App r) × (on_updates r app us ≡ some app') × HasValidRing r app'
  on_updates-total [] app h v = (app, refl, v)
  on_updates-total ((p, u, now) ∷ us) app h v = elim (Option-cases (on_update r p app u now)) [
    | inl e ↦ absurd (subst (Completes r) e (on_update-Completes r p app u now h.0 v))
    | inr ((app1, acts), e) ↦
        let v1 : HasValidRing r app1 =
          subst (Completes r) e (on_update-Completes r p app u now h.0 v) in
        rw (e, on_updates) (on_updates-total us app1 h.1 v1)
  ]

  on_updates-burst :
      (tk : Tokens r) (us : List (Option Pattern × Update × ℕ)) (app app' : App r) (now : ℕ)
      (j : Call)
      → app.has_handler ≡ true
      → on_updates r app us ≡ some app'
      → (app'.has_handler ≡ true)
        × (tk.burst_of (bucket_of r tk now app'.limiter j)
            ≤ tk.burst_of (bucket_of r tk now app.limiter j))
  on_updates-burst tk [] app app' now j on e = ground arith
  on_updates-burst tk ((p, u, at) ∷ us) app app' now j on e =
      elim (Option-cases (on_update r p app u at)) [
        | inl panic ↦ absurd (ground arith)
        | inr ((app1, acts), one) ↦
            let (on1, first) = on_update-burst r tk at p app app1 u acts j on one in
            let (on', rest) = on_updates-burst tk us app1 app' now j on1 (ground arith) in
            (on', omega (arith, first, rest))
      ]

  -- After any history no more updates with one call get through at one instant than the burst that
  -- its bucket had at first.
  passes-burst :
      (tk : Tokens r) (earlier : List (Option Pattern × Update × ℕ)) (app app' : App r) (now : ℕ)
      (j : Call) (us : List (Option Pattern × Update)) (burst : ℕ)
      → app.has_handler ≡ true
      → on_updates r app earlier ≡ some app'
      → tk.burst_of (bucket_of r tk now app.limiter j) ≤ burst
      → passes r tk now j app' us ≤ burst
  passes-burst tk earlier app app' now j us burst on e h =
      let (on', kept) = on_updates-burst tk earlier app app' now j on e in
      omega (
        arith,
        passes-le r tk now j us app' on',
        tk.tokens_le (bucket_of r tk now app'.limiter j) now,
        kept,
        h,
      )

  module _ (o : Outside) (cfg : Config) (s : Service r) (st : Starts r o cfg true s) where
    app_lem : s.app ≡ app_of r o cfg true
    app_lem = ap (λ (x : Service r). x.app) st.is_service

    -- The bot that Run has started handles any history of updates whose messages have senders
    -- without a panic, and the limiter and the dashboard then show the same number of denials.
    pub service_runs :
        (us : List (Option Pattern × Update × ℕ))
        → HaveSenders us
        → (app : App r) × (on_updates r s.app us ≡ some app)
          × (app.limiter.denied ≡ app.metrics.rate_denied)
    unfolding new_metrics register_rates new_rate_limiter set_command_rate
    service_runs us h =
        let v : HasValidRing r s.app = rw app_lem (new-IsValid 3600 (omega arith)) in
        let (app, e, _) = on_updates-total us s.app h v in
        (app, e, on_updates-denied r us s.app app (rw app_lem refl) e)

    -- After any history of updates of the bot that Run has started, at one instant and among any
    -- updates of any users, at most 2 of a user's messages that match /start or /help get through
    -- the limiter, at most 2 that match /about, at most 2 that match /info, and at most 5 callbacks
    -- and messages that match no command. (/getfid does not ask the limiter.)
    pub service_bursts :
        (tk : Tokens r) (earlier : List (Option Pattern × Update × ℕ)) (app : App r) (now uid : ℕ)
        (us : List (Option Pattern × Update))
        → on_updates r s.app earlier ≡ some app
        → (passes r tk now (command uid (codes "/start")) app us ≤ 2)
          × (passes r tk now (command uid (codes "/about")) app us ≤ 2)
          × (passes r tk now (command uid (codes "/info")) app us ≤ 2)
          × (passes r tk now (general uid) app us ≤ 5)
    unfolding register_rates new_rate_limiter set_command_rate lookup insert eq_bytes
    service_bursts tk earlier app now uid us e =
        let on : s.app.has_handler ≡ true = rw app_lem refl in
        let fives : s.app.limiter.default_burst ≡ 5 = rw app_lem refl in
        let bound : (c : Bytes) (limit : r.Limit) (burst : ℕ)
            → lookup c s.app.limiter.command_rate ≡ some limit
            → lookup c s.app.limiter.command_burst ≡ some burst
            → passes r tk now (command uid c) app us ≤ burst =
          λ c limit burst rated bursts.
            passes-burst tk earlier s.app app now (command uid c) us burst on e
              (unseen_bursts r tk now s.app.limiter uid c limit burst (rw app_lem refl) rated
                bursts).0 in
        (
          bound (codes "/start") (r.per 5 60) 2 (rw app_lem refl) (rw app_lem refl),
          bound (codes "/about") (r.per 5 60) 2 (rw app_lem refl) (rw app_lem refl),
          bound (codes "/info") (r.per 5 60) 2 (rw app_lem refl) (rw app_lem refl),
          passes-burst tk earlier s.app app now (general uid) us 5 on e (
              omega (
                arith,
                (unseen_bursts r tk now s.app.limiter uid (codes "/start") (r.per 5 60) 2
                    (rw app_lem refl) (rw app_lem refl) (rw app_lem refl)).1,
                fives,
              )),
        )

-- Every command that Run announces in the profile leads to a handler.
pub my_commands-dispatch : All (λ c. dispatch (b'/' ∷ c.0) ≢ []) my_commands
unfolding dispatch eq_bytes
my_commands-dispatch = ((λ e. cc), ((λ e. cc), ((λ e. cc), tt)))
