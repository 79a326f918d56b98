-- ===== src/Bot/Router/Outcomes.antt =====
-- What becomes of an update: ignored, denied or served, by what the limiter says and what the text
-- asks for.
use x_sticker_bot.Base.{
  ℕ, ◌≡◌, ◌≢◌, refl, ◌∙◌, ◌⊎◌, inl, inr, true, false, Option, none, some, List, [], ◌∷◌, ◌++◌,
  arith, Bool, Bytes, codes, All, before_byte, eq_bytes_iff, Option-cases, Bool-cases, ==_iff, ◌==◌,
  ap, sym, subst,
}
use x_sticker_bot.Telegram.{Message, Update}
use x_sticker_bot.Limiter.{Rate, RateLimiter, incr, allow, allow_command}
use x_sticker_bot.Limiter.Burst.{Call, general, command}
use x_sticker_bot.Monitor.Metrics.{record_request, record_rate_denied}
use x_sticker_bot.Bot.Router.{
  Action, cmd_start, cmd_about, cmd_info, cmd_get_fid, handle_message, too_many_requests, App,
  dispatch, extract_command, Pattern, start, help, about, info, getfid, requested, route_command,
  limited_message, default_handler, with_rate_limit, on_update,
}
use x_sticker_bot.Bot.Router.Bursts.{call_of, from_sender}

-- What a command asks for.
abbrev pub IsFor : Bytes → List Action → Type 0
IsFor cmd acts =
    ((cmd ≡ codes "/start") × (acts ≡ cmd_start ∷ []))
    ⊎ ((cmd ≡ codes "/help") × (acts ≡ cmd_start ∷ []))
    ⊎ ((cmd ≡ codes "/about") × (acts ≡ cmd_about ∷ []))
    ⊎ ((cmd ≡ codes "/info") × (acts ≡ cmd_info ∷ []))
    ⊎ ((cmd ≡ codes "/getfid") × (acts ≡ cmd_get_fid ∷ []))
    ⊎ ((cmd ≢ codes "/start")
        × (cmd ≢ codes "/help")
        × (cmd ≢ codes "/about")
        × (cmd ≢ codes "/info")
        × (cmd ≢ codes "/getfid")
        × (acts ≡ []))

dispatch-IsFor : (cmd : Bytes) → IsFor cmd (dispatch cmd)
unfolding dispatch
dispatch-IsFor cmd = ground (
  arith,
  eq_bytes_iff cmd (codes "/start"),
  eq_bytes_iff cmd (codes "/help"),
  eq_bytes_iff cmd (codes "/about"),
  eq_bytes_iff cmd (codes "/info"),
  eq_bytes_iff cmd (codes "/getfid"),
)

-- The rest of a text behind its command.
abbrev pub Stops : Bytes → Type 0
Stops [] = Unit
Stops (c ∷ s) = (c ≡ b'@') ⊎ (c ≡ b' ')

-- The command of a text is its first part up to a `@` or a space, if the text begins with a slash.
abbrev pub IsCommand : Bytes → Bytes → Type 0
IsCommand text cmd =
    ((rest : Bytes) × (s : Bytes) × (cmd ≡ b'/' ∷ s)
      × (text ≡ cmd ++ rest)
      × All (λ c. (c ≢ b'@') × (c ≢ b' ')) cmd
      × Stops rest)
    ⊎ ((cmd ≡ []) × ((s : Bytes) → text ≢ b'/' ∷ s))

-- `cut` is the first part of `s`.
abbrev IsFirst : Bytes → Bytes → Type 0
IsFirst s cut =
    (rest : Bytes) × (s ≡ cut ++ rest) × All (λ c. (c ≢ b'@') × (c ≢ b' ')) cut × Stops rest

before_byte-IsFirst : (s : Bytes) → IsFirst s (before_byte b' ' (before_byte b'@' s))
unfolding before_byte
before_byte-IsFirst [] = ([], refl, tt, tt)
before_byte-IsFirst (c ∷ s) = elim (Bool-cases (c == b'@')) [
  | inl at ↦
      let cut : [] ≡ before_byte b' ' (before_byte b'@' (c ∷ s)) = ground (arith, at) in
      subst (IsFirst (c ∷ s)) cut (c ∷ s, refl, tt, inl ((==_iff c b'@').0 at))
  | inr other ↦ elim (Bool-cases (c == b' ')) [
    | inl space ↦
        let cut : [] ≡ before_byte b' ' (before_byte b'@' (c ∷ s)) = ground (arith, other, space) in
        subst (IsFirst (c ∷ s)) cut (c ∷ s, refl, tt, inr ((==_iff c b' ').0 space))
    | inr part ↦
        let (rest, same, plain, stops) = before_byte-IsFirst s in
        let cut : c ∷ before_byte b' ' (before_byte b'@' s)
            ≡ before_byte b' ' (before_byte b'@' (c ∷ s)) =
          ground (arith, other, part) in
        subst (IsFirst (c ∷ s)) cut (
          rest,
          ap (◌∷◌ c) same,
          ((λ e. ground (arith, ==_iff c b'@'), λ e. ground (arith, ==_iff c b' ')), plain),
          stops,
        )
  ]
]

slash-IsCommand : (s : Bytes) → IsCommand (b'/' ∷ s) (extract_command (b'/' ∷ s))
unfolding extract_command before_byte
slash-IsCommand s =
    let (rest, same, plain, stops) = before_byte-IsFirst (b'/' ∷ s) in
    inl (rest, before_byte b' ' (before_byte b'@' s), refl, same, plain, stops)

cons_head : (c : ℕ) (s t : Bytes) → c ∷ s ≡ b'/' ∷ t → c ≡ b'/'
cons_head c s t e = cc e

extract_command-IsCommand : (text : Bytes) → IsCommand text (extract_command text)
unfolding extract_command
extract_command-IsCommand [] = inr (refl, λ s e. cc e)
extract_command-IsCommand (c ∷ s) = elim (Bool-cases (c == b'/')) [
  | inl slash ↦
      subst (λ x. IsCommand (x ∷ s) (extract_command (x ∷ s))) (sym ((==_iff c b'/').0 slash))
        (slash-IsCommand s)
  | inr other ↦
      rw other (inr (refl, λ t e. absurd (ground (arith, ==_iff c b'/', cons_head c s t e))))
]

module _ (r : Rate) (now : ℕ) where
  -- What the limiter says to a call, and the limiter after it.
  abbrev pub answer : RateLimiter r → Call → Bool × RateLimiter r
  answer rl (general u) = allow r rl u now
  answer rl (command u c) = allow_command r rl u c now

  -- There is nothing to handle, and nothing has changed.
  abbrev pub Ignored : Option Pattern → App r → App r → Update → List Action → Type 0
  Ignored p app app' u acts = (call_of p u ≡ none) × (u.message ≡ none) × (acts ≡ []) × (app' ≡ app)

  -- The notice of a limited command.
  abbrev pub IsNotice : Option Pattern → Update → List Action → Type 0
  IsNotice none u acts = acts ≡ []
  IsNotice (some p) u acts =
      (msg : Message) × (u.message ≡ some msg) × (acts ≡ too_many_requests msg.chat ∷ [])

  -- The limiter has refused the call, which limiter and metrics count; no handler is called.
  abbrev pub Denied : Option Pattern → App r → App r → Update → List Action → Type 0
  Denied p app app' u acts =
      (k : Call) × (call_of p u ≡ some k)
      × ((answer app.limiter k).0 ≡ false)
      × (app'.limiter ≡ (answer app.limiter k).1)
      × IsNotice p u acts
      × (app'.metrics.rate_denied ≡ incr app.metrics.rate_denied)
      × (app'.metrics.total_requests ≡ app.metrics.total_requests)

  -- The limiter was not asked, or has let the call through.
  abbrev pub Admitted : Option Pattern → App r → App r → Update → Type 0
  Admitted p app app' u =
      ((call_of p u ≡ none) × (app'.limiter ≡ app.limiter))
      ⊎ ((k : Call) × (call_of p u ≡ some k)
          × ((answer app.limiter k).0 ≡ true)
          × (app'.limiter ≡ (answer app.limiter k).1))

  -- What an update asks for.
  abbrev pub IsAsked : Option Pattern → Update → List Action → Type 0
  IsAsked none u acts = acts ≡ handle_message ∷ []
  IsAsked (some p) u acts =
      (msg : Message) × (u.message ≡ some msg)
      × ((cmd : Bytes) × IsCommand msg.text cmd × IsFor cmd acts)

  abbrev pub Served : Option Pattern → App r → App r → Update → List Action → Type 0
  Served p app app' u acts =
      Admitted p app app' u
      × IsAsked p u acts
      × (app'.metrics.rate_denied ≡ app.metrics.rate_denied)
      × (app'.metrics.total_requests ≡ incr app.metrics.total_requests)

  abbrev pub Outcome : Option Pattern → App r → App r → Update → List Action → Type 0
  Outcome p app app' u acts =
      Ignored p app app' u acts ⊎ Denied p app app' u acts ⊎ Served p app app' u acts

  requested_counts :
      (app app' : App r) (name : Bytes) (acts acts' : List Action)
      → requested r app name now acts ≡ some (app', acts')
      → (acts' ≡ acts)
        × (app'.limiter ≡ app.limiter)
        × (app'.metrics.rate_denied ≡ app.metrics.rate_denied)
        × (app'.metrics.total_requests ≡ incr app.metrics.total_requests)
  unfolding requested record_request
  requested_counts app app' name acts acts' e =
      (ground arith, ground arith, ground arith, ground arith)

  route_command-IsAsked :
      (p : Pattern) (app app' : App r) (u : Update) (msg : Message) (acts : List Action)
      → app.has_handler ≡ true
      → u.message ≡ some msg
      → route_command r app u now ≡ some (app', acts)
      → IsAsked (some p) u acts
        × (app'.limiter ≡ app.limiter)
        × (app'.metrics.rate_denied ≡ app.metrics.rate_denied)
        × (app'.metrics.total_requests ≡ incr app.metrics.total_requests)
  unfolding route_command
  route_command-IsAsked p app app' u msg acts on m e =
      let cmd = extract_command msg.text in
      let (same, limits, denials, total) =
        requested_counts app app' cmd (dispatch cmd) acts (ground arith) in
      (
        (msg, m, (cmd, extract_command-IsCommand msg.text, rw same (dispatch-IsFor cmd))),
        limits,
        denials,
        total,
      )

  limited_message-Outcome :
      (app app' : App r) (u : Update) (uid : ℕ) (name : Bytes) (acts : List Action)
      → call_of none u ≡ some (general uid)
      → limited_message r app uid name now ≡ some (app', acts)
      → Outcome none app app' u acts
  unfolding limited_message
  limited_message-Outcome app app' u uid name acts calls e =
      let charged : App r = record app { limiter = (allow r app.limiter uid now).1 } in
      elim (Bool-cases (allow r app.limiter uid now).0) [
        | inl ok ↦
            let (same, limits, denials, total) =
              requested_counts charged app' name (handle_message ∷ []) acts (ground arith) in
            inr (inr (inr (general uid, calls, ok, limits), same, denials, total))
        | inr refused ↦
            unfold record_rate_denied in
            inr (
              inl (
                general uid,
                calls,
                refused,
                ground arith,
                ground arith,
                ground arith,
                ground arith,
              ))
      ]

  with_rate_limit-Outcome :
      (p : Pattern) (cmd : Bytes) (app app' : App r) (u : Update) (acts : List Action)
      → app.has_handler ≡ true
      → call_of (some p) u ≡ from_sender u (λ uid. command uid cmd)
      → with_rate_limit r cmd app u now ≡ some (app', acts)
      → Outcome (some p) app app' u acts
  unfolding with_rate_limit
  with_rate_limit-Outcome p cmd app app' u acts on calls e = elim (Option-cases u.message) [
    | inl no_message ↦ inl (calls ∙ rw no_message refl, no_message, ground arith, ground arith)
    | inr (msg, m) ↦ elim (Option-cases msg.from) [
      | inl panic ↦ absurd (ground arith)
      | inr (uid, f) ↦
          let called : call_of (some p) u ≡ some (command uid cmd) = calls ∙ rw (m, f) refl in
          let charged : App r = record app {
            limiter = (allow_command r app.limiter uid cmd now).1;
          } in
          elim (Bool-cases (allow_command r app.limiter uid cmd now).0) [
            | inl ok ↦
                let (asked, limits, denials, total) =
                  route_command-IsAsked p charged app' u msg acts on m (ground arith) in
                inr (inr (inr (command uid cmd, called, ok, limits), asked, denials, total))
            | inr refused ↦
                unfold record_rate_denied in
                inr (
                  inl (
                    command uid cmd,
                    called,
                    refused,
                    ground arith,
                    (msg, m, ground arith),
                    ground arith,
                    ground arith,
                  ))
          ]
    ]
  ]

  default_handler-Outcome :
      (app app' : App r) (u : Update) (acts : List Action)
      → app.has_handler ≡ true
      → default_handler r app u now ≡ some (app', acts)
      → Outcome none app app' u acts
  unfolding default_handler
  default_handler-Outcome app app' u acts on e = elim (Option-cases u.callback_query) [
    | inr (q, c) ↦
        limited_message-Outcome app app' u q.from (codes "callback") acts (rw c refl) (ground arith)
    | inl no_callback ↦ elim (Option-cases u.message) [
      | inl no_message ↦
          inl (rw (no_callback, no_message) refl, no_message, ground arith, ground arith)
      | inr (msg, m) ↦ elim (Option-cases msg.from) [
        | inl panic ↦ absurd (ground arith)
        | inr (uid, f) ↦
            limited_message-Outcome app app' u uid (codes "message") acts
              (rw (no_callback, m, f) refl) (ground arith)
      ]
    ]
  ]

  -- With its handlers set, an update that does not panic has one of three outcomes. It is ignored,
  -- where there is no message and no callback: nothing changes. Or the limiter refuses its call,
  -- which is that of /start also for /help: no handler is called, a command gets a notice, and a
  -- denial is counted. Or it is served, by the limiter's leave except for /getfid: a request is
  -- counted, a command leads to the handler of its name, up to a `@` or a space, and all else to the
  -- handling of the message.
  pub on_update_lem :
      (p : Option Pattern) (app app' : App r) (u : Update) (acts : List Action)
      → app.has_handler ≡ true
      → on_update r p app u now ≡ some (app', acts)
      → Outcome p app app' u acts
  unfolding on_update
  on_update_lem none app app' u acts on e = default_handler-Outcome app app' u acts on e
  on_update_lem (some start) app app' u acts on e =
      with_rate_limit-Outcome start (codes "/start") app app' u acts on refl e
  on_update_lem (some help) app app' u acts on e =
      with_rate_limit-Outcome help (codes "/start") app app' u acts on refl e
  on_update_lem (some about) app app' u acts on e =
      with_rate_limit-Outcome about (codes "/about") app app' u acts on refl e
  on_update_lem (some info) app app' u acts on e =
      with_rate_limit-Outcome info (codes "/info") app app' u acts on refl e
  on_update_lem (some getfid) app app' u acts on e = elim (Option-cases u.message) [
    | inl no_message ↦ unfold route_command in inl (refl, no_message, ground arith, ground arith)
    | inr (msg, m) ↦
        let (asked, limits, denials, total) =
          route_command-IsAsked getfid app app' u msg acts on m e in
        inr (inr (inl (refl, limits), asked, denials, total))
  ]
