-- ===== src/Limiter/Cleanup.antt =====
-- StartCleanup of internal/ratelimit/limiter.go beside the calls of the handlers: how long a user is
-- remembered.
use x_sticker_bot.Base.{
  ℕ, ◌+◌, ◌≤◌, ◌≡◌, refl, Bool, true, false, some, List, [], ◌∷◌, arith, if◌then◌else◌, ◌==◌,
  ==_iff, lookup, insert, erase, lookup-insert, lookup-erase, nat_eq, bytes_eq, Bool-cases, inl,
  inr, subst, sym, Option, none,
}
use x_sticker_bot.Limiter.{
  Rate, UserLimiter, RateLimiter, is_idle, sweep, cleanup_stale, allow, allow_command,
  get_or_create_user, command_bucket,
}
use x_sticker_bot.Limiter.Burst.{Call, general, command}
use x_sticker_bot.Limiter.Stale.{UniqueKeys, cleanup_stale_lem}

-- What the goroutine of StartCleanup receives, and the calls of the handlers between.
pub data Signal : Type 0 where
  called : Call → ℕ → Signal
  ticked : ℕ → Signal
  stopped : Signal

module _ (r : Rate) where
  -- The goroutine's loop on one signal, as long as it has not returned: the limiter, and whether
  -- it goes on.
  unfoldable pub on_tick : ℕ → Bool → RateLimiter r → ℕ → RateLimiter r
  on_tick max_idle alive rl now = if alive then cleanup_stale r rl now max_idle else rl

  abbrev pub call_at : RateLimiter r → Call → ℕ → RateLimiter r
  call_at rl (general u) now = (allow r rl u now).1
  call_at rl (command u c) now = (allow_command r rl u c now).1

  unfoldable pub start_cleanup : ℕ → Bool → RateLimiter r → List Signal → RateLimiter r
  unfolding on_tick
  start_cleanup max_idle alive rl [] = rl
  start_cleanup max_idle alive rl (called k now ∷ es) =
      start_cleanup max_idle alive (call_at rl k now) es
  start_cleanup max_idle alive rl (ticked now ∷ es) =
      start_cleanup max_idle alive (on_tick max_idle alive rl now) es
  start_cleanup max_idle alive rl (stopped ∷ es) = start_cleanup max_idle false rl es

  -- Every user that is remembered was seen at most so long before.
  abbrev pub Recent : ℕ → ℕ → RateLimiter r → Type 0
  Recent age now rl =
      (uid : ℕ) (ul : UserLimiter r) → lookup uid rl.users ≡ some ul → now ≤ ul.last_seen + age

  insert-UniqueKeys :
      (k : ℕ) (v : UserLimiter r) (m : List (ℕ × UserLimiter r))
      → UniqueKeys r m
      → UniqueKeys r (insert k v m)
  unfolding insert lookup
  insert-UniqueKeys k v [] h = (refl, tt)
  insert-UniqueKeys k v ((j, w) ∷ m) h =
      ground (arith, ==_iff j k, ==_iff k j, lookup-insert k j v m, insert-UniqueKeys k v m h.1)

  erase-UniqueKeys :
      (k : ℕ) (m : List (ℕ × UserLimiter r)) → UniqueKeys r m → UniqueKeys r (erase k m)
  unfolding erase
  erase-UniqueKeys k [] h = tt
  erase-UniqueKeys k ((j, w) ∷ m) h = ground (arith, lookup-erase k j m, erase-UniqueKeys k m h.1)

  sweep-UniqueKeys :
      (now max_idle : ℕ) (entries users : List (ℕ × UserLimiter r))
      → UniqueKeys r users
      → UniqueKeys r (sweep r now max_idle entries users)
  unfolding sweep
  sweep-UniqueKeys now max_idle [] users h = h
  sweep-UniqueKeys now max_idle ((k, ul) ∷ entries) users h =
      sweep-UniqueKeys now max_idle entries
        (if is_idle r now max_idle ul then erase k users else users)
        (ground (arith, erase-UniqueKeys k users h))

  abbrev pub caller : Call → ℕ
  caller (general u) = u
  caller (command u c) = u

  -- A call stores its user as seen now, and nobody else.
  call_at-users :
      (rl : RateLimiter r) (k : Call) (now : ℕ)
      → (ul : UserLimiter r) × (ul.last_seen ≡ now)
        × ((call_at rl k now).users ≡ insert (caller k) ul rl.users)
  unfolding allow allow_command
  call_at-users rl (general u) now =
      let ul = get_or_create_user r rl u now in
      elim (Bool-cases (r.allow_at rl.global now).0) [
        | inl ok ↦ (
          record ul { last_seen = now; general = (r.allow_at ul.general now).1 },
          refl,
          ground arith,
        )
        | inr refused ↦ (record ul { last_seen = now }, refl, ground arith)
      ]
  call_at-users rl (command u c) now =
      let ul = get_or_create_user r rl u now in
      let bucket = command_bucket r rl ul c in
      let bucket' = (r.allow_at bucket now).1 in
      elim (Bool-cases (r.allow_at rl.global now).0) [
        | inl ok ↦ (
          record ul { last_seen = now; commands = insert c bucket' ul.commands },
          refl,
          ground arith,
        )
        | inr refused ↦ (
          record ul { last_seen = now; commands = insert c bucket ul.commands },
          refl,
          ground arith,
        )
      ]

  module _ (max_idle interval : ℕ) where
    -- Time does not go back, and a tick comes at most one interval after the last one; `tick` is
    -- the time of the last tick and `now` that of the last event.
    abbrev pub Regular : ℕ → ℕ → List Signal → Type 0
    Regular tick now [] = Unit
    Regular tick now (called k t ∷ es) = (now ≤ t) × (t ≤ tick + interval) × Regular tick t es
    Regular tick now (ticked t ∷ es) = (now ≤ t) × (t ≤ tick + interval) × Regular t t es
    Regular tick now (stopped ∷ es) = ⊥

    abbrev pub last_time : ℕ → List Signal → ℕ
    last_time now [] = now
    last_time now (called k t ∷ es) = last_time t es
    last_time now (ticked t ∷ es) = last_time t es
    last_time now (stopped ∷ es) = last_time now es

    call_at-Recent :
        (rl : RateLimiter r) (k : Call) (tick t : ℕ)
        → tick ≤ t
        → Recent max_idle tick rl
        → Recent max_idle tick (call_at rl k t)
    call_at-Recent rl k tick t later h uid ul e =
        let (v, seen, users) = call_at-users rl k t in
        ground (
          arith,
          subst (λ m. lookup uid m ≡ some ul) users e,
          lookup-insert (caller k) uid v rl.users,
          h uid ul,
        )

    tick-Recent :
        (rl : RateLimiter r) (t : ℕ)
        → UniqueKeys r rl.users
        → Recent max_idle t (cleanup_stale r rl t max_idle)
    tick-Recent rl t unique uid ul e =
        ground (arith, (cleanup_stale_lem r rl t max_idle uid unique).0)

    cleanup-UniqueKeys :
        (rl : RateLimiter r) (t : ℕ)
        → UniqueKeys r rl.users
        → UniqueKeys r (cleanup_stale r rl t max_idle).users
    unfolding cleanup_stale
    cleanup-UniqueKeys rl t h = sweep-UniqueKeys t max_idle rl.users rl.users h

    nobody : (uid : ℕ) (ul : UserLimiter r) → lookup uid [] ≡ some ul → ⊥
    unfolding lookup
    nobody uid ul e = cc e

    remembers :
        (es : List Signal) (rl : RateLimiter r) (tick now : ℕ)
        → UniqueKeys r rl.users
        → Recent max_idle tick rl
        → tick ≤ now
        → now ≤ tick + interval
        → Regular tick now es
        → Recent (max_idle + interval) (last_time now es) (start_cleanup max_idle true rl es)
    unfolding start_cleanup
    remembers [] rl tick now unique h older near reg = λ uid ul e. omega (arith, h uid ul e)
    remembers (called k t ∷ es) rl tick now unique h older near (later, soon, reg) =
        let (v, seen, users) = call_at-users rl k t in
        remembers es (call_at rl k t) tick t
          (subst (UniqueKeys r) (sym users) (insert-UniqueKeys (caller k) v rl.users unique))
          (call_at-Recent rl k tick t (omega arith) h) (omega arith) soon reg
    remembers (ticked t ∷ es) rl tick now unique h older near (later, soon, reg) =
        remembers es (cleanup_stale r rl t max_idle) t t (cleanup-UniqueKeys rl t unique)
          (tick-Recent rl t unique) (omega arith) (omega arith) reg
    remembers (stopped ∷ es) rl tick now unique h older near reg = absurd reg

    -- The time of the last call of a user, by their calls alone; `t` is that of an earlier one.
    abbrev pub last_call : ℕ → Option ℕ → List Signal → Option ℕ
    last_call uid t [] = t
    last_call uid t (called k now ∷ es) = last_call uid (if caller k == uid then some now else t) es
    last_call uid t (ticked now ∷ es) = last_call uid t es
    last_call uid t (stopped ∷ es) = last_call uid t es

    -- What the limiter has noted is the time of the last call.
    abbrev Noted : (ℕ → Option ℕ) → RateLimiter r → Type 0
    Noted last rl =
        (uid : ℕ) (ul : UserLimiter r)
        → lookup uid rl.users ≡ some ul
        → last uid ≡ some ul.last_seen

    call_at-Noted :
        (last : ℕ → Option ℕ) (rl : RateLimiter r) (k : Call) (t : ℕ)
        → Noted last rl
        → Noted (λ uid. if caller k == uid then some t else last uid) (call_at rl k t)
    call_at-Noted last rl k t h uid ul e =
        let (v, seen, users) = call_at-users rl k t in
        ground (
          arith,
          subst (λ m. lookup uid m ≡ some ul) users e,
          lookup-insert (caller k) uid v rl.users,
          ==_iff (caller k) uid,
          h uid ul,
        )

    cleanup-Noted :
        (last : ℕ → Option ℕ) (rl : RateLimiter r) (t : ℕ)
        → UniqueKeys r rl.users
        → Noted last rl
        → Noted last (cleanup_stale r rl t max_idle)
    cleanup-Noted last rl t unique h uid ul e =
        ground (arith, (cleanup_stale_lem r rl t max_idle uid unique).0, h uid ul)

    notes :
        (es : List Signal) (last : ℕ → Option ℕ) (rl : RateLimiter r) (tick now : ℕ)
        → UniqueKeys r rl.users
        → Noted last rl
        → Regular tick now es
        → Noted (λ uid. last_call uid (last uid) es) (start_cleanup max_idle true rl es)
    unfolding start_cleanup
    notes [] last rl tick now unique h reg = h
    notes (called k t ∷ es) last rl tick now unique h (later, soon, reg) =
        let (v, seen, users) = call_at-users rl k t in
        notes es (λ uid. if caller k == uid then some t else last uid) (call_at rl k t) tick t
          (subst (UniqueKeys r) (sym users) (insert-UniqueKeys (caller k) v rl.users unique))
          (call_at-Noted last rl k t h) reg
    notes (ticked t ∷ es) last rl tick now unique h (later, soon, reg) =
        notes es last (cleanup_stale r rl t max_idle) t t (cleanup-UniqueKeys rl t unique)
          (cleanup-Noted last rl t unique h) reg
    notes (stopped ∷ es) last rl tick now unique h reg = absurd reg

    -- While the goroutine of StartCleanup runs, with a tick every `interval`, each user that the
    -- limiter remembers has called it, and their last call is no longer ago than `maxIdle` and one
    -- interval: from an empty limiter on, over any calls in the order of time.
    pub start_cleanup-Recent :
        (rl : RateLimiter r) (es : List Signal) (now uid : ℕ) (ul : UserLimiter r)
        → rl.users ≡ []
        → Regular now now es
        → lookup uid (start_cleanup max_idle true rl es).users ≡ some ul
        → (t : ℕ) × (last_call uid none es ≡ some t)
          × (last_time now es ≤ t + (max_idle + interval))
    start_cleanup-Recent rl es now uid ul empty reg e =
        let unique : UniqueKeys r rl.users = subst (UniqueKeys r) (sym empty) tt in
        let unseen : (v : ℕ) (w : UserLimiter r) → lookup v rl.users ≡ some w → ⊥ =
          λ v w stored. nobody v w (subst (λ m. lookup v m ≡ some w) empty stored) in
        (
          ul.last_seen,
          notes es (λ v. none) rl now now unique (λ v w stored. absurd (unseen v w stored)) reg uid
              ul e,
          remembers es rl now now unique (λ v w stored. absurd (unseen v w stored)) (omega arith)
              (omega arith) reg uid ul e,
        )
