-- ===== src/Bot/Router/Accounting.antt =====
-- What an update does to the limiter and the metrics, and which actions it leads to.
use x_sticker_bot.Base.{
  ℕ, ◌≡◌, refl, subst, ◌⊎◌, inl, inr, Option, none, some, List, [], ◌∷◌, arith, Bytes, codes,
  Option-cases, Bool-cases,
}
use x_sticker_bot.Telegram.{Update}
use x_sticker_bot.Limiter.{Rate, incr, allow, allow_command}
use x_sticker_bot.Limiter.Buckets.{allow_lem, allow_command_lem}
use x_sticker_bot.Monitor.Metrics.{record_request, record_rate_denied}
use x_sticker_bot.Bot.Router.{
  Action, handle_message, too_many_requests, App, dispatch, extract_command, Pattern, start, help,
  about, info, getfid, requested, route_command, limited_message, default_handler, with_rate_limit,
  on_update,
}

module _ (r : Rate) where
  -- The update asked for nothing that is counted.
  abbrev pub Ignored : App r → App r → List Action → Type 0
  Ignored app app' acts =
      (acts ≡ []) × (app'.limiter.denied ≡ app.limiter.denied) × (app'.metrics ≡ app.metrics)

  -- It was limited: one denial more in the limiter and in the metrics, no request, no handler.
  abbrev pub Denied : App r → App r → List Action → Type 0
  Denied app app' acts =
      ((acts ≡ []) ⊎ ((chat : ℕ) × (acts ≡ too_many_requests chat ∷ [])))
      × (app'.limiter.denied ≡ incr app.limiter.denied)
      × (app'.metrics.rate_denied ≡ incr app.metrics.rate_denied)
      × (app'.metrics.total_requests ≡ app.metrics.total_requests)

  -- It was served: one request more, no denial, and the actions of the message or the command.
  abbrev pub Served : App r → App r → List Action → Type 0
  Served app app' acts =
      ((acts ≡ handle_message ∷ []) ⊎ ((text : Bytes) × (acts ≡ dispatch (extract_command text))))
      × (app'.limiter.denied ≡ app.limiter.denied)
      × (app'.metrics.rate_denied ≡ app.metrics.rate_denied)
      × (app'.metrics.total_requests ≡ incr app.metrics.total_requests)

  abbrev pub Accounted : App r → App r → List Action → Type 0
  Accounted app app' acts = Ignored app app' acts ⊎ Denied app app' acts ⊎ Served app app' acts

  requested-Served :
      (app app0 app' : App r) (name : Bytes) (now : ℕ) (acts acts' : List Action)
      → app0.metrics ≡ app.metrics
      → app0.limiter.denied ≡ app.limiter.denied
      → ((acts ≡ handle_message ∷ []) ⊎ ((text : Bytes) × (acts ≡ dispatch (extract_command text))))
      → requested r app0 name now acts ≡ some (app', acts')
      → Served app app' acts'
  unfolding requested record_request
  requested-Served app app0 app' name now acts acts' same quiet shape e = (
    subst
        (λ l. (l ≡ handle_message ∷ []) ⊎ ((text : Bytes) × (l ≡ dispatch (extract_command text))))
        (ground arith) shape,
    ground arith,
    ground arith,
    ground arith,
  )

  route_command-Accounted :
      (app app0 app' : App r) (u : Update) (now : ℕ) (acts : List Action)
      → app0.metrics ≡ app.metrics
      → app0.limiter.denied ≡ app.limiter.denied
      → route_command r app0 u now ≡ some (app', acts)
      → Accounted app app' acts
  unfolding route_command
  route_command-Accounted app app0 app' u now acts same quiet e = elim (Option-cases u.message) [
    | inl no_message ↦ inl (ground arith, ground arith, ground arith)
    | inr (msg, m) ↦ elim (Bool-cases app0.has_handler) [
      | inr off ↦ inl (ground arith, ground arith, ground arith)
      | inl on ↦
          let cmd = extract_command msg.text in
          inr (
            inr (
              requested-Served app app0 app' cmd now (dispatch cmd) acts same quiet
                (inr (msg.text, refl)) (ground arith)))
    ]
  ]

  limited_message-Accounted :
      (app app' : App r) (uid : ℕ) (name : Bytes) (now : ℕ) (acts : List Action)
      → limited_message r app uid name now ≡ some (app', acts)
      → Accounted app app' acts
  unfolding limited_message
  limited_message-Accounted app app' uid name now acts e =
      let charged : App r = record app { limiter = (allow r app.limiter uid now).1 } in
      let counted = (allow_lem r app.limiter uid now).2 in
      elim (Bool-cases (allow r app.limiter uid now).0) [
        | inl ok ↦ inr (
            inr (
              requested-Served app charged app' name now (handle_message ∷ []) acts refl
                (ground (arith, counted)) (inl refl) (ground arith)))
        | inr refused ↦
            unfold record_rate_denied in
            inr (inl (inl (ground arith), ground (arith, counted), ground arith, ground arith))
      ]

  with_rate_limit-Accounted :
      (cmd : Bytes) (app app' : App r) (u : Update) (now : ℕ) (acts : List Action)
      → with_rate_limit r cmd app u now ≡ some (app', acts)
      → Accounted app app' acts
  unfolding with_rate_limit
  with_rate_limit-Accounted cmd app app' u now acts e = elim (Option-cases u.message) [
    | inl no_message ↦ inl (ground arith, ground arith, ground arith)
    | inr (msg, m) ↦ elim (Option-cases msg.from) [
      | inl panic ↦ absurd (ground arith)
      | inr (uid, f) ↦
          let charged : App r = record app {
            limiter = (allow_command r app.limiter uid cmd now).1;
          } in
          let counted = (allow_command_lem r app.limiter uid cmd now).2 in
          elim (Bool-cases (allow_command r app.limiter uid cmd now).0) [
            | inl ok ↦
                route_command-Accounted app charged app' u now acts refl (ground (arith, counted))
                  (ground arith)
            | inr refused ↦
                unfold record_rate_denied in
                inr (
                  inl (
                    inr (msg.chat, ground arith),
                    ground (arith, counted),
                    ground arith,
                    ground arith,
                  ))
          ]
    ]
  ]

  default_handler-Accounted :
      (app app' : App r) (u : Update) (now : ℕ) (acts : List Action)
      → default_handler r app u now ≡ some (app', acts)
      → Accounted app app' acts
  unfolding default_handler
  default_handler-Accounted app app' u now acts e = elim (Bool-cases app.has_handler) [
    | inr off ↦ inl (ground arith, ground arith, ground arith)
    | inl on ↦ elim (Option-cases u.callback_query) [
      | inr (q, c) ↦
          limited_message-Accounted app app' q.from (codes "callback") now acts (ground arith)
      | inl no_callback ↦ elim (Option-cases u.message) [
        | inl no_message ↦ inl (ground arith, ground arith, ground arith)
        | inr (msg, m) ↦ elim (Option-cases msg.from) [
          | inl panic ↦ absurd (ground arith)
          | inr (uid, f) ↦
              limited_message-Accounted app app' uid (codes "message") now acts (ground arith)
        ]
      ]
    ]
  ]

  -- Every update that does not panic is accounted for once, whichever handler it goes to: it is
  -- ignored, with no action; or denied, which the limiter and the metrics both count, with no
  -- handler called; or served, which is counted as one request and leads to the handling of the
  -- message or of the command in its text.
  pub on_update-Accounted :
      (p : Option Pattern) (app app' : App r) (u : Update) (now : ℕ) (acts : List Action)
      → on_update r p app u now ≡ some (app', acts)
      → Accounted app app' acts
  unfolding on_update
  on_update-Accounted none app app' u now acts e = default_handler-Accounted app app' u now acts e
  on_update-Accounted (some start) app app' u now acts e =
      with_rate_limit-Accounted (codes "/start") app app' u now acts e
  on_update-Accounted (some help) app app' u now acts e =
      with_rate_limit-Accounted (codes "/start") app app' u now acts e
  on_update-Accounted (some about) app app' u now acts e =
      with_rate_limit-Accounted (codes "/about") app app' u now acts e
  on_update-Accounted (some info) app app' u now acts e =
      with_rate_limit-Accounted (codes "/info") app app' u now acts e
  on_update-Accounted (some getfid) app app' u now acts e =
      route_command-Accounted app app app' u now acts refl refl e

  -- A history of updates, each with its pattern and time.
  abbrev pub on_updates : App r → List (Option Pattern × Update × ℕ) → Option (App r)
  on_updates app [] = some app
  on_updates app ((p, u, now) ∷ us) = elim (on_update r p app u now) [
    | none ↦ none
    | some (app', acts) ↦ on_updates app' us
  ]

  -- The denials that the limiter has counted and those of the metrics stay equal over any history
  -- of updates.
  pub on_updates-denied :
      (us : List (Option Pattern × Update × ℕ)) (app app' : App r)
      → app.limiter.denied ≡ app.metrics.rate_denied
      → on_updates app us ≡ some app'
      → app'.limiter.denied ≡ app'.metrics.rate_denied
  on_updates-denied [] app app' h e = ground arith
  on_updates-denied ((p, u, now) ∷ us) app app' h e =
      elim (Option-cases (on_update r p app u now)) [
        | inl panic ↦ absurd (ground arith)
        | inr ((app1, acts), one) ↦
            on_updates-denied us app1 app'
              (synced app1 acts (on_update-Accounted p app app1 u now acts one)) (ground arith)
      ]
    where
      synced :
          (app1 : App r) (acts : List Action)
          → Accounted app app1 acts
          → app1.limiter.denied ≡ app1.metrics.rate_denied
      synced app1 acts a = ground arith
