-- ===== src/Limiter/Burst.antt =====
-- How many calls get through at one instant.
use x_sticker_bot.Base.{
  ℕ, suc, ◌-◌, ◌≤◌, ◌≡◌, Bool, ◌&&◌, none, some, List, [], ◌∷◌, arith, if◌then◌else◌, ◌==◌, ==_iff,
  ltb, Bytes, eq_bytes, eq_bytes_iff, lookup, nat_eq, bytes_eq,
}
use x_sticker_bot.Limiter.{Rate, RateLimiter, new_command, allow, allow_command}
use x_sticker_bot.Limiter.Buckets.{general_of, command_of, allow_lem, allow_command_lem}

-- What package rate documents: a bucket holds at most `burst` tokens, which Allow leaves as it is;
-- Allow says yes exactly when there is a token, and takes it.
pub record Tokens (r : Rate) : Type 0 where
  pub tokens : r.Bucket → ℕ → ℕ
  pub burst_of : r.Bucket → ℕ
  pub tokens_le : (b : r.Bucket) (now : ℕ) → tokens b now ≤ burst_of b
  pub burst_new : (l : r.Limit) (burst : ℕ) → burst_of (r.new_bucket l burst) ≤ burst
  pub burst_allow : (b : r.Bucket) (now : ℕ) → burst_of (r.allow_at b now).1 ≤ burst_of b
  pub allow_iff : (b : r.Bucket) (now : ℕ) → (r.allow_at b now).0 ≡ ltb 0 (tokens b now)
  pub allow_takes : (b : r.Bucket) (now : ℕ) → tokens (r.allow_at b now).1 now ≡ tokens b now - 1

pub data Call : Type 0 where
  general : ℕ → Call
  command : ℕ → Bytes → Call

module _ (r : Rate) (tk : Tokens r) (now : ℕ) where
  abbrev pub call : RateLimiter r → Call → Bool × RateLimiter r
  call rl (general u) = allow r rl u now
  call rl (command u c) = allow_command r rl u c now

  abbrev pub run : RateLimiter r → List Call → RateLimiter r
  run rl [] = rl
  run rl (c ∷ cs) = run (call rl c).1 cs

  -- How many calls of command `c` by user `u` are allowed.
  abbrev pub allowed_commands : ℕ → Bytes → RateLimiter r → List Call → ℕ
  allowed_commands u c rl [] = 0
  allowed_commands u c rl (general v ∷ cs) = allowed_commands u c (call rl (general v)).1 cs
  allowed_commands u c rl (command v d ∷ cs) =
      let later = allowed_commands u c (call rl (command v d)).1 cs in
      if (v == u) && (eq_bytes d c && (call rl (command v d)).0) then suc later else later

  -- How many general calls of user `u` are allowed.
  abbrev pub allowed_general : ℕ → RateLimiter r → List Call → ℕ
  allowed_general u rl [] = 0
  allowed_general u rl (command v d ∷ cs) = allowed_general u (call rl (command v d)).1 cs
  allowed_general u rl (general v ∷ cs) =
      let later = allowed_general u (call rl (general v)).1 cs in
      if (v == u) && (call rl (general v)).0 then suc later else later

  allowed_commands-le :
      (u : ℕ) (c : Bytes) (cs : List Call) (rl : RateLimiter r)
      → allowed_commands u c rl cs ≤ tk.tokens (command_of r rl u c) now
  allowed_commands-le u c [] rl = omega arith
  allowed_commands-le u c (general v ∷ cs) rl =
      ground
        (arith, allowed_commands-le u c cs (call rl (general v)).1, (allow_lem r rl v now).4 u c)
  allowed_commands-le u c (command v d ∷ cs) rl =
      let bucket = command_of r rl v d in
      ground (
        arith,
        allowed_commands-le u c cs (call rl (command v d)).1,
        (allow_command_lem r rl v d now).0,
        (allow_command_lem r rl v d now).4 u c,
        ==_iff v u,
        eq_bytes_iff d c,
        tk.allow_iff bucket now,
        tk.allow_takes bucket now,
      )

  allowed_general-le :
      (u : ℕ) (cs : List Call) (rl : RateLimiter r)
      → allowed_general u rl cs ≤ tk.tokens (general_of r rl u) now
  allowed_general-le u [] rl = omega arith
  allowed_general-le u (command v d ∷ cs) rl = ground (
    arith,
    allowed_general-le u cs (call rl (command v d)).1,
    (allow_command_lem r rl v d now).3 u,
  )
  allowed_general-le u (general v ∷ cs) rl =
      let bucket = general_of r rl v in
      ground (
        arith,
        allowed_general-le u cs (call rl (general v)).1,
        (allow_lem r rl v now).0,
        (allow_lem r rl v now).3 u,
        ==_iff v u,
        tk.allow_iff bucket now,
        tk.allow_takes bucket now,
      )

  -- The buckets of a user that the limiter has not seen have at most the configured burst of a
  -- command, and the default burst.
  pub unseen_bursts :
      (rl : RateLimiter r) (u : ℕ) (c : Bytes) (limit : r.Limit) (burst : ℕ)
      → lookup u rl.users ≡ none
      → lookup c rl.command_rate ≡ some limit
      → lookup c rl.command_burst ≡ some burst
      → (tk.burst_of (command_of r rl u c) ≤ burst)
        × (tk.burst_of (general_of r rl u) ≤ rl.default_burst)
  unfolding new_command
  unseen_bursts rl u c limit burst unseen rated bursts = (
    ground (arith, tk.burst_new limit burst),
    ground (arith, tk.burst_new rl.default_rate rl.default_burst),
  )

  -- Of a user that the limiter has not seen, at one instant and among any calls of any users, at
  -- most `burst` calls get through for a command configured with that burst, and at most the
  -- default burst of general calls.
  pub burst_bound :
      (rl : RateLimiter r) (u : ℕ) (c : Bytes) (limit : r.Limit) (burst : ℕ) (cs : List Call)
      → lookup u rl.users ≡ none
      → lookup c rl.command_rate ≡ some limit
      → lookup c rl.command_burst ≡ some burst
      → (allowed_commands u c rl cs ≤ burst) × (allowed_general u rl cs ≤ rl.default_burst)
  burst_bound rl u c limit burst cs unseen rated bursts =
      let (commands, generals) = unseen_bursts rl u c limit burst unseen rated bursts in
      (
        omega (
          arith,
          allowed_commands-le u c cs rl,
          tk.tokens_le (command_of r rl u c) now,
          commands,
        ),
        omega (arith, allowed_general-le u cs rl, tk.tokens_le (general_of r rl u) now, generals),
      )
