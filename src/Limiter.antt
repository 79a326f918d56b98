-- ===== src/Limiter.antt =====
-- RateLimiter of internal/ratelimit/limiter.go. The token buckets of golang.org/x/time/rate are the
-- interface `Rate`. A call is one step and reads the clock once; a bucket that the program reaches
-- by a pointer is written back where it is stored.
pub mod Buckets
pub mod Burst
pub mod Stale
pub mod Cleanup
mod Tests
use x_sticker_bot.Base.{
  ℕ, ◌+◌, ◌%◌, ◌^◌, ◌≤◌, ◌≡◌, Bool, true, false, Option, none, some, List, [], ◌∷◌, if◌then◌else◌,
  ltb, Bytes, lookup, insert, erase, nat_eq, bytes_eq,
}

pub record Rate : Type 1 where
  pub Limit : Type 0
  -- the quotient of two numbers, as events per second
  pub per : ℕ → ℕ → Limit
  pub Bucket : Type 0
  pub new_bucket : Limit → ℕ → Bucket
  -- Allow at a time
  pub allow_at : Bucket → ℕ → Bool × Bucket

pub record UserLimiter (r : Rate) : Type 0 where
  pub general : r.Bucket
  pub commands : List (Bytes × r.Bucket)
  pub last_seen : ℕ

pub record RateLimiter (r : Rate) : Type 0 where
  pub global : r.Bucket
  pub users : List (ℕ × UserLimiter r)
  pub command_rate : List (Bytes × r.Limit)
  pub command_burst : List (Bytes × ℕ)
  pub default_rate : r.Limit
  pub default_burst : ℕ
  pub denied : ℕ

-- `denied.Add(1)` on an atomic.Int64.
abbrev pub incr : ℕ → ℕ
incr n = (n + 1) % 2 ^ 64

module _ (r : Rate) where
  unfoldable pub new_rate_limiter : r.Limit → ℕ → RateLimiter r
  new_rate_limiter global_rate global_burst = record {
    global = r.new_bucket global_rate global_burst;
    users = [];
    command_rate = [];
    command_burst = [];
    default_rate = r.per 30 60;
    default_burst = 5;
    denied = 0;
  }

  unfoldable pub set_command_rate : RateLimiter r → Bytes → r.Limit → ℕ → RateLimiter r
  set_command_rate rl command limit burst = record rl {
    command_rate = insert command limit rl.command_rate;
    command_burst = insert command burst rl.command_burst;
  }

  abbrev pub new_user : RateLimiter r → ℕ → UserLimiter r
  new_user rl now = record {
    general = r.new_bucket rl.default_rate rl.default_burst;
    commands = [];
    last_seen = now;
  }

  pub get_or_create_user : RateLimiter r → ℕ → ℕ → UserLimiter r
  get_or_create_user rl uid now = elim (lookup uid rl.users) [
    | some ul ↦ ul
    | none ↦ new_user rl now
  ]

  unfoldable pub allow : RateLimiter r → ℕ → ℕ → Bool × RateLimiter r
  unfolding get_or_create_user
  allow rl uid now =
      let ul = get_or_create_user rl uid now in
      let (global_ok, global') = r.allow_at rl.global now in
      let (user_ok, general') = r.allow_at ul.general now in
      let seen = insert uid (record ul { last_seen = now }) rl.users in
      let charged = insert uid (record ul { last_seen = now; general = general' }) rl.users in
      if global_ok
      then (if user_ok
          then (true, record rl { global = global'; users = charged })
          else (false, record rl { global = global'; users = charged; denied = incr rl.denied }))
      else (false, record rl { global = global'; users = seen; denied = incr rl.denied })

  -- The limiter of a command that the user has none for yet.
  pub new_command : RateLimiter r → Bytes → r.Bucket
  new_command rl command = elim (lookup command rl.command_rate) [
    | none ↦ r.new_bucket rl.default_rate rl.default_burst
    | some limit ↦ elim (lookup command rl.command_burst) [
      | none ↦ r.new_bucket rl.default_rate rl.default_burst
      | some burst ↦ r.new_bucket limit burst
    ]
  ]

  pub command_bucket : RateLimiter r → UserLimiter r → Bytes → r.Bucket
  unfolding new_command
  command_bucket rl ul command = elim (lookup command ul.commands) [
    | some bucket ↦ bucket
    | none ↦ new_command rl command
  ]

  unfoldable pub allow_command : RateLimiter r → ℕ → Bytes → ℕ → Bool × RateLimiter r
  unfolding get_or_create_user command_bucket
  allow_command rl uid command now =
      let ul = get_or_create_user rl uid now in
      let bucket = command_bucket rl ul command in
      let (global_ok, global') = r.allow_at rl.global now in
      let (command_ok, bucket') = r.allow_at bucket now in
      let stored = λ (b : r.Bucket).
        insert uid (record ul { last_seen = now; commands = insert command b ul.commands })
          rl.users in
      if global_ok
      then (if command_ok then (true, record rl { global = global'; users = stored bucket' }) else (
        false,
        record rl { global = global'; users = stored bucket'; denied = incr rl.denied },
      ))
      else (false, record rl { global = global'; users = stored bucket; denied = incr rl.denied })

  -- `now.Sub(ul.lastSeen) > maxIdle`
  abbrev pub is_idle : ℕ → ℕ → UserLimiter r → Bool
  is_idle now max_idle ul = ltb (ul.last_seen + max_idle) now

  -- users.Range with users.Delete.
  pub sweep : ℕ → ℕ → List (ℕ × UserLimiter r) → List (ℕ × UserLimiter r) → List (ℕ × UserLimiter r)
  sweep now max_idle [] users = users
  sweep now max_idle ((uid, ul) ∷ entries) users =
      sweep now max_idle entries (if is_idle now max_idle ul then erase uid users else users)

  unfoldable pub cleanup_stale : RateLimiter r → ℕ → ℕ → RateLimiter r
  unfolding sweep
  cleanup_stale rl now max_idle = record rl { users = sweep now max_idle rl.users rl.users }
