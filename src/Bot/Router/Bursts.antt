-- ===== src/Bot/Router/Bursts.antt =====
-- The calls that updates make on the limiter, and how many updates are served at one instant.
use x_sticker_bot.Base.{
  ℕ, ◌∙◌, ◌+◌, ◌≤◌, ◌≡◌, inl, inr, Bool, true, false, ◌&&◌, Option, none, some, List, [], ◌∷◌,
  arith, if◌then◌else◌, ◌==◌, ==_iff, Bytes, codes, eq_bytes, eq_bytes_iff, Option-cases,
}
use x_sticker_bot.Telegram.{Update}
use x_sticker_bot.Limiter.{Rate, RateLimiter, allow, allow_command}
use x_sticker_bot.Limiter.Buckets.{general_of, command_of, allow_lem, allow_command_lem}
use x_sticker_bot.Limiter.Burst.{Tokens, Call, general, command, call}
use x_sticker_bot.Bot.Router.{
  Action, handle_message, too_many_requests, App, dispatch, extract_command, Pattern, start, help,
  about, info, getfid, requested, route_command, limited_message, default_handler, with_rate_limit,
  on_update,
}

abbrev pub from_sender : Update → (ℕ → Call) → Option Call
from_sender u k = elim u.message [
  | none ↦ none
  | some msg ↦ elim msg.from [ none ↦ none | some uid ↦ some (k uid) ]
]

-- The call on the limiter that an update leads to.
abbrev pub call_of : Option Pattern → Update → Option Call
call_of none u = elim u.callback_query [
  | some q ↦ some (general q.from)
  | none ↦ from_sender u general
]
call_of (some start) u = from_sender u (λ uid. command uid (codes "/start"))
call_of (some help) u = from_sender u (λ uid. command uid (codes "/start"))
call_of (some about) u = from_sender u (λ uid. command uid (codes "/about"))
call_of (some info) u = from_sender u (λ uid. command uid (codes "/info"))
call_of (some getfid) u = none

-- Whether the limiter let the update through, as its actions show.
abbrev pub is_notice : List Action → Bool
is_notice [] = false
is_notice (a ∷ acts) = elim a [ too_many_requests chat ↦ true | _ ↦ false ]

abbrev pub passed : Call → List Action → Bool
passed (general uid) acts = elim acts [ [] ↦ false | _ ↦ true ]
passed (command uid c) acts = if is_notice acts then false else true

module _ (r : Rate) (tk : Tokens r) (now : ℕ) where
  -- The outcome of a handler that makes the call, if any.
  abbrev pub Calls : Option Call → App r → App r → List Action → Type 0
  Calls none app app' acts = (app'.limiter ≡ app.limiter) × (app'.has_handler ≡ app.has_handler)
  Calls (some k) app app' acts =
      (app'.limiter ≡ (call r tk now app.limiter k).1)
      × (app'.has_handler ≡ app.has_handler)
      × (passed k acts ≡ (call r tk now app.limiter k).0)

  requested-Calls :
      (app app' : App r) (name : Bytes) (acts acts' : List Action)
      → requested r app name now acts ≡ some (app', acts')
      → (app'.limiter ≡ app.limiter) × (app'.has_handler ≡ app.has_handler) × (acts' ≡ acts)
  unfolding requested
  requested-Calls app app' name acts acts' e = ground arith

  dispatch-notice : (cmd : Bytes) → is_notice (dispatch cmd) ≡ false
  unfolding dispatch
  dispatch-notice cmd = ground arith

  route_command-Calls :
      (app app' : App r) (u : Update) (acts : List Action)
      → route_command r app u now ≡ some (app', acts)
      → (app'.limiter ≡ app.limiter)
        × (app'.has_handler ≡ app.has_handler)
        × (is_notice acts ≡ false)
  unfolding route_command
  route_command-Calls app app' u acts e = elim (Option-cases u.message) [
    | inl no_message ↦ ground arith
    | inr (msg, m) ↦
        let cmd = extract_command msg.text in
        ground (arith, requested-Calls app app' cmd (dispatch cmd) acts, dispatch-notice cmd)
  ]

  limited_message-Calls :
      (app app' : App r) (uid : ℕ) (name : Bytes) (acts : List Action)
      → limited_message r app uid name now ≡ some (app', acts)
      → Calls (some (general uid)) app app' acts
  unfolding limited_message
  limited_message-Calls app app' uid name acts e =
      let charged : App r = record app { limiter = (allow r app.limiter uid now).1 } in
      ground (arith, requested-Calls charged app' name (handle_message ∷ []) acts)

  with_rate_limit-Calls :
      (cmd : Bytes) (app app' : App r) (u : Update) (acts : List Action)
      → with_rate_limit r cmd app u now ≡ some (app', acts)
      → Calls (from_sender u (λ uid. command uid cmd)) app app' acts
  unfolding with_rate_limit
  with_rate_limit-Calls cmd app app' u acts e = elim (Option-cases u.message) [
    | inl no_message ↦ rw no_message (ground arith)
    | inr (msg, m) ↦ elim (Option-cases msg.from) [
      | inl panic ↦ absurd (ground arith)
      | inr (uid, f) ↦
          let charged : App r = record app {
            limiter = (allow_command r app.limiter uid cmd now).1;
          } in
          rw (m, f) (ground (arith, route_command-Calls charged app' u acts))
    ]
  ]

  default_handler-Calls :
      (app app' : App r) (u : Update) (acts : List Action)
      → app.has_handler ≡ true
      → default_handler r app u now ≡ some (app', acts)
      → Calls (call_of none u) app app' acts
  unfolding default_handler
  default_handler-Calls app app' u acts on e = elim (Option-cases u.callback_query) [
    | inr (q, c) ↦
        rw c (limited_message-Calls app app' q.from (codes "callback") acts (ground arith))
    | inl no_callback ↦ elim (Option-cases u.message) [
      | inl no_message ↦ rw (no_callback, no_message) (ground arith)
      | inr (msg, m) ↦ elim (Option-cases msg.from) [
        | inl panic ↦ absurd (ground arith)
        | inr (uid, f) ↦
            rw (no_callback, m, f)
              (limited_message-Calls app app' uid (codes "message") acts (ground arith))
      ]
    ]
  ]

  on_update-Calls :
      (p : Option Pattern) (app app' : App r) (u : Update) (acts : List Action)
      → app.has_handler ≡ true
      → on_update r p app u now ≡ some (app', acts)
      → Calls (call_of p u) app app' acts
  unfolding on_update
  on_update-Calls none app app' u acts on e = default_handler-Calls app app' u acts on e
  on_update-Calls (some start) app app' u acts on e =
      with_rate_limit-Calls (codes "/start") app app' u acts e
  on_update-Calls (some help) app app' u acts on e =
      with_rate_limit-Calls (codes "/start") app app' u acts e
  on_update-Calls (some about) app app' u acts on e =
      with_rate_limit-Calls (codes "/about") app app' u acts e
  on_update-Calls (some info) app app' u acts on e =
      with_rate_limit-Calls (codes "/info") app app' u acts e
  on_update-Calls (some getfid) app app' u acts on e =
      let h = route_command-Calls app app' u acts e in (h.0, h.1)

  -- The bucket that a call takes from.
  abbrev pub bucket_of : RateLimiter r → Call → r.Bucket
  bucket_of rl (general u) = general_of r rl u
  bucket_of rl (command u c) = command_of r rl u c

  -- Its tokens.
  abbrev pub tokens_of : RateLimiter r → Call → ℕ
  tokens_of rl j = tk.tokens (bucket_of rl j) now

  -- A call leaves the bursts of all buckets as they were.
  call-burst :
      (rl : RateLimiter r) (k j : Call)
      → tk.burst_of (bucket_of (call r tk now rl k).1 j) ≤ tk.burst_of (bucket_of rl j)
  call-burst rl (general v) (general u) =
      ground (arith, (allow_lem r rl v now).3 u, ==_iff v u, tk.burst_allow (general_of r rl v) now)
  call-burst rl (general v) (command u c) = ground (arith, (allow_lem r rl v now).4 u c)
  call-burst rl (command v d) (general u) = ground (arith, (allow_command_lem r rl v d now).3 u)
  call-burst rl (command v d) (command u c) = ground (
    arith,
    (allow_command_lem r rl v d now).4 u c,
    ==_iff v u,
    eq_bytes_iff d c,
    tk.burst_allow (command_of r rl v d) now,
  )

  pub on_update-burst :
      (p : Option Pattern) (app app' : App r) (u : Update) (acts : List Action) (j : Call)
      → app.has_handler ≡ true
      → on_update r p app u now ≡ some (app', acts)
      → (app'.has_handler ≡ true)
        × (tk.burst_of (bucket_of app'.limiter j) ≤ tk.burst_of (bucket_of app.limiter j))
  on_update-burst p app app' u acts j on e =
      go (call_of p u) (on_update-Calls p app app' u acts on e)
    where
      go :
          (o : Option Call)
          → Calls o app app' acts
          → (app'.has_handler ≡ true)
            × (tk.burst_of (bucket_of app'.limiter j) ≤ tk.burst_of (bucket_of app.limiter j))
      go none c = (c.1 ∙ on, rw c.0 (omega arith))
      go (some k) c = (c.1 ∙ on, rw c.0 (call-burst app.limiter k j))

  abbrev pub same_call : Call → Call → Bool
  same_call (general u) (general v) = u == v
  same_call (command u c) (command v d) = (u == v) && eq_bytes c d
  same_call _ _ = false

  -- A call that is let through has taken a token of its bucket, and no call adds one.
  call-takes :
      (rl : RateLimiter r) (k j : Call)
      → tokens_of (call r tk now rl k).1 j
          + (if same_call k j && (call r tk now rl k).0 then 1 else 0)
        ≤ tokens_of rl j
  call-takes rl (general v) (general u) =
      let bucket = general_of r rl v in
      ground (
        arith,
        (allow_lem r rl v now).0,
        (allow_lem r rl v now).3 u,
        ==_iff v u,
        tk.allow_iff bucket now,
        tk.allow_takes bucket now,
      )
  call-takes rl (general v) (command u c) = ground (arith, (allow_lem r rl v now).4 u c)
  call-takes rl (command v d) (general u) = ground (arith, (allow_command_lem r rl v d now).3 u)
  call-takes rl (command v d) (command u c) =
      let bucket = command_of r rl v d in
      ground (
        arith,
        (allow_command_lem r rl v d now).0,
        (allow_command_lem r rl v d now).4 u c,
        ==_iff v u,
        eq_bytes_iff d c,
        tk.allow_iff bucket now,
        tk.allow_takes bucket now,
      )

  -- How many updates that lead to the call get through, until one panics.
  abbrev pub passes : Call → App r → List (Option Pattern × Update) → ℕ
  passes j app [] = 0
  passes j app ((p, u) ∷ us) = elim (on_update r p app u now) [
    | none ↦ 0
    | some (app', acts) ↦
        (elim (call_of p u) [ none ↦ 0 | some k ↦ if same_call k j && passed k acts then 1 else 0 ])
        + passes j app' us
  ]

  -- At one instant, among any updates of any users, no more updates with one call get through than
  -- the bucket of the call has tokens.
  pub passes-le :
      (j : Call) (us : List (Option Pattern × Update)) (app : App r)
      → app.has_handler ≡ true
      → passes j app us ≤ tokens_of app.limiter j
  passes-le j [] app on = omega arith
  passes-le j ((p, u) ∷ us) app on = elim (Option-cases (on_update r p app u now)) [
    | inl panic ↦ rw (panic, passes) (omega arith)
    | inr ((app', acts), e) ↦
        rw (e, passes)
          (go (call_of p u) app' acts (on_update-Calls p app app' u acts on e)
            (passes-le j us app'))
  ]
    where
      go :
          (o : Option Call) (app' : App r) (acts : List Action)
          → Calls o app app' acts
          → (app'.has_handler ≡ true → passes j app' us ≤ tokens_of app'.limiter j)
          → (elim o [ none ↦ 0 | some k ↦ if same_call k j && passed k acts then 1 else 0 ])
              + passes j app' us
            ≤ tokens_of app.limiter j
      go none app' acts c rest = rw (← c.0) (omega (arith, rest (c.1 ∙ on)))
      go (some k) app' acts c rest =
          let t : tokens_of app'.limiter j + (if same_call k j && passed k acts then 1 else 0)
              ≤ tokens_of app.limiter j =
            rw (c.0, c.2) (call-takes app.limiter k j) in
          omega (arith, rest (c.1 ∙ on), t)
