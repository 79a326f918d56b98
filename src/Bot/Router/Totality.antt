-- ===== src/Bot/Router/Totality.antt =====
-- No update panics that has what the handlers read.
use x_sticker_bot.Base.{
  ℕ, ◌≡◌, ◌≢◌, inl, inr, Option, none, some, List, [], ◌∷◌, Bytes, codes, Option-cases, Bool-cases,
}
use x_sticker_bot.Telegram.{Message, Update}
use x_sticker_bot.Limiter.{Rate, allow, allow_command}
use x_sticker_bot.Monitor.Metrics.{record_request, record_rate_denied}
use x_sticker_bot.Monitor.Ring.Window.{IsValid, add-window}
use x_sticker_bot.Bot.Router.{
  Action, handle_message, App, dispatch, extract_command, Pattern, start, help, about, info, getfid,
  Outcome, requested, route_command, limited_message, default_handler, with_rate_limit, on_update,
}

module _ (r : Rate) where
  -- The ring buffer of the metrics is valid.
  abbrev pub HasValidRing : App r → Type 0
  HasValidRing app = IsValid app.metrics.recent_requests

  -- The outcome is no panic, and the ring buffer is valid after it.
  abbrev pub Completes : Outcome r → Type 0
  Completes none = ⊥
  Completes (some (app', acts)) = HasValidRing app'

  requested-Completes :
      (app : App r) (name : Bytes) (now : ℕ) (acts : List Action)
      → HasValidRing app
      → Completes (requested r app name now acts)
  unfolding requested record_request
  requested-Completes app name now acts v =
      let (rb, e, v', _, _) = add-window app.metrics.recent_requests now v in
      rw (e, requested, record_request) v'

  route_command-Completes :
      (app : App r) (u : Update) (now : ℕ)
      → HasValidRing app
      → Completes (route_command r app u now)
  unfolding route_command
  route_command-Completes app u now v = elim (Option-cases u.message) [
    | inl e ↦ rw (e, route_command) v
    | inr (msg, e) ↦ elim (Bool-cases app.has_handler) [
      | inl on ↦
          rw (e, route_command)
            (simp on (
              requested-Completes app (extract_command msg.text) now
                (dispatch (extract_command msg.text)) v))
      | inr off ↦ rw (e, route_command) (simp off v)
    ]
  ]

  limited_message-Completes :
      (app : App r) (uid : ℕ) (name : Bytes) (now : ℕ)
      → HasValidRing app
      → Completes (limited_message r app uid name now)
  unfolding limited_message record_rate_denied
  limited_message-Completes app uid name now v = elim (Bool-cases (allow r app.limiter uid now).0) [
    | inl ok ↦
        rw (ok, limited_message)
          (requested-Completes (record app { limiter = (allow r app.limiter uid now).1 }) name now
            (handle_message ∷ []) v)
    | inr refused ↦ rw (refused, limited_message) v
  ]

  -- Every message of the update has a sender.
  abbrev pub HasSender : Update → Type 0
  HasSender u = (msg : Message) → u.message ≡ some msg → msg.from ≢ none

  with_rate_limit-Completes :
      (cmd : Bytes) (app : App r) (u : Update) (now : ℕ)
      → HasSender u
      → HasValidRing app
      → Completes (with_rate_limit r cmd app u now)
  unfolding with_rate_limit record_rate_denied
  with_rate_limit-Completes cmd app u now s v = elim (Option-cases u.message) [
    | inl e ↦ rw (e, with_rate_limit) v
    | inr (msg, e) ↦ elim (Option-cases msg.from) [
      | inl nobody ↦ absurd (s msg e nobody)
      | inr (uid, f) ↦ elim (Bool-cases (allow_command r app.limiter uid cmd now).0) [
        | inl ok ↦
            rw (e, f, ok, with_rate_limit)
              (route_command-Completes
                (record app { limiter = (allow_command r app.limiter uid cmd now).1 }) u now v)
        | inr refused ↦ rw (e, f, refused, with_rate_limit) v
      ]
    ]
  ]

  default_handler-Completes :
      (app : App r) (u : Update) (now : ℕ)
      → HasSender u
      → HasValidRing app
      → Completes (default_handler r app u now)
  unfolding default_handler
  default_handler-Completes app u now s v = elim (Bool-cases app.has_handler) [
    | inr off ↦ rw (off, default_handler) v
    | inl on ↦ elim (Option-cases u.callback_query) [
      | inr (q, c) ↦
          rw (on, c, default_handler)
            (limited_message-Completes app q.from (codes "callback") now v)
      | inl c ↦ elim (Option-cases u.message) [
        | inl e ↦ rw (on, c, e, default_handler) v
        | inr (msg, e) ↦ elim (Option-cases msg.from) [
          | inl nobody ↦ absurd (s msg e nobody)
          | inr (uid, f) ↦
              rw (on, c, e, f, default_handler)
                (limited_message-Completes app uid (codes "message") now v)
        ]
      ]
    ]
  ]

  -- No update panics whose message, if it has one, has a sender, and the ring buffer of the metrics
  -- stays valid.
  pub on_update-Completes :
      (p : Option Pattern) (app : App r) (u : Update) (now : ℕ)
      → HasSender u
      → HasValidRing app
      → Completes (on_update r p app u now)
  unfolding on_update
  on_update-Completes none app u now s v = default_handler-Completes app u now s v
  on_update-Completes (some start) app u now s v =
      with_rate_limit-Completes (codes "/start") app u now s v
  on_update-Completes (some help) app u now s v =
      with_rate_limit-Completes (codes "/start") app u now s v
  on_update-Completes (some about) app u now s v =
      with_rate_limit-Completes (codes "/about") app u now s v
  on_update-Completes (some info) app u now s v =
      with_rate_limit-Completes (codes "/info") app u now s v
  on_update-Completes (some getfid) app u now s v = route_command-Completes app u now v
