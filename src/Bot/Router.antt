-- ===== src/Bot/Router.antt =====
-- The handlers of internal/bot/bot.go. A call on the command handler or on Telegram is an action;
-- the limiter and the metrics are threaded through. `none` is a panic.
pub mod Accounting
pub mod Outcomes
pub mod Totality
pub mod Commands
pub mod Bursts
use x_sticker_bot.Base.{
  ℕ, Bool, true, false, ◌||◌, Option, none, some, List, [], ◌∷◌, if◌then◌else◌, ◌==◌, Bytes, codes,
  eq_bytes, before_byte,
}
use x_sticker_bot.Telegram.{Message, CallbackQuery, Update}
use x_sticker_bot.Limiter.{Rate, RateLimiter, allow, allow_command, set_command_rate}
use x_sticker_bot.Monitor.Metrics.{Metrics, record_request, record_rate_denied}

-- What a handler asks for: a method of CommandHandler, or the notice of a limited command.
pub data Action : Type 0 where
  cmd_start cmd_about cmd_info cmd_get_fid handle_message : Action
  too_many_requests : ℕ → Action

pub record App (r : Rate) : Type 0 where
  -- whether `cmdHandler` is set
  pub has_handler : Bool
  pub limiter : RateLimiter r
  pub metrics : Metrics

unfoldable pub extract_command : Bytes → Bytes
extract_command [] = []
extract_command (c ∷ s) = if c == b'/' then before_byte b' ' (before_byte b'@' (c ∷ s)) else []

-- The switch of routeCommand.
unfoldable pub dispatch : Bytes → List Action
dispatch cmd =
    if eq_bytes cmd (codes "/start") || eq_bytes cmd (codes "/help")
    then cmd_start ∷ []
    else if eq_bytes cmd (codes "/about")
    then cmd_about ∷ []
    else if eq_bytes cmd (codes "/info")
    then cmd_info ∷ []
    else if eq_bytes cmd (codes "/getfid")
    then cmd_get_fid ∷ []
    else []

-- The patterns of registerCommandHandlers.
pub data Pattern : Type 0 where
  start help about info getfid : Pattern

module _ (r : Rate) where
  abbrev pub Outcome : Type 0
  Outcome = Option (App r × List Action)

  -- app.Metrics.RecordRequest, then the actions.
  pub requested : App r → Bytes → ℕ → List Action → Outcome
  requested app command now acts = elim (record_request app.metrics command now) [
    | none ↦ none
    | some m ↦ some (record app { metrics = m }, acts)
  ]

  pub route_command : App r → Update → ℕ → Outcome
  unfolding requested
  route_command app update now = elim update.message [
    | none ↦ some (app, [])
    | some msg ↦
        let cmd = extract_command msg.text in
        if app.has_handler then requested app cmd now (dispatch cmd) else some (app, [])
  ]

  -- Limiter.Allow, then HandleMessage or the count of a denial.
  unfoldable pub limited_message : App r → ℕ → Bytes → ℕ → Outcome
  unfolding requested
  limited_message app uid name now =
      let (ok, limiter') = allow r app.limiter uid now in
      let app' = record app { limiter = limiter' } in
      if ok
      then requested app' name now (handle_message ∷ [])
      else some (record app' { metrics = record_rate_denied app.metrics }, [])

  unfoldable pub default_handler : App r → Update → ℕ → Outcome
  unfolding limited_message
  default_handler app update now =
      if app.has_handler
      then elim update.callback_query [
        | some query ↦ limited_message app query.from (codes "callback") now
        | none ↦ elim update.message [
          | none ↦ some (app, [])
          | some msg ↦ elim msg.from [
            | none ↦ none
            | some uid ↦ limited_message app uid (codes "message") now
          ]
        ]
      ]
      else some (app, [])

  -- withRateLimit around routeCommand.
  pub with_rate_limit : Bytes → App r → Update → ℕ → Outcome
  unfolding route_command
  with_rate_limit cmd app update now = elim update.message [
    | none ↦ some (app, [])
    | some msg ↦ elim msg.from [
      | none ↦ none
      | some uid ↦
          let (ok, limiter') = allow_command r app.limiter uid cmd now in
          let app' = record app { limiter = limiter' } in
          if ok
          then route_command app' update now
          else some (
            record app' { metrics = record_rate_denied app.metrics },
            too_many_requests msg.chat ∷ [],
          )
    ]
  ]

  -- registerCommandHandlers: the rates, and the handler of each pattern; an update that matches
  -- none goes to the default handler.
  unfoldable pub register_rates : RateLimiter r → RateLimiter r
  register_rates rl =
      let a = set_command_rate r rl (codes "/start") (r.per 5 60) 2 in
      let b = set_command_rate r a (codes "/about") (r.per 5 60) 2 in
      set_command_rate r b (codes "/info") (r.per 5 60) 2

  pub on_pattern : Pattern → App r → Update → ℕ → Outcome
  unfolding with_rate_limit
  on_pattern start = with_rate_limit (codes "/start")
  on_pattern help = with_rate_limit (codes "/start")
  on_pattern about = with_rate_limit (codes "/about")
  on_pattern info = with_rate_limit (codes "/info")
  on_pattern getfid = route_command

  unfoldable pub on_update : Option Pattern → App r → Update → ℕ → Outcome
  unfolding on_pattern default_handler
  on_update none = default_handler
  on_update (some p) = on_pattern p
