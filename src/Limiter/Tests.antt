-- ===== src/Limiter/Tests.antt =====
-- Examples for internal/ratelimit.
use x_sticker_bot.Base.{
  ℕ, ◌+◌, ◌-◌, ◌≤◌, ◌≡◌, refl, Bool, true, ◌&&◌, none, some, List, [], ◌∷◌, arith, if◌then◌else◌,
  ltb, ◌==◌, Bytes, codes, eq_bytes, lookup, insert, nat_eq, bytes_eq,
}
use x_sticker_bot.Limiter.{
  Rate, UserLimiter, RateLimiter, incr, allow, allow_command, cleanup_stale, sweep, is_idle,
  get_or_create_user,
}
use x_sticker_bot.Limiter.Buckets.{general_of, command_of, allow_command_lem}
use x_sticker_bot.Limiter.Burst.{Tokens, Call, general, command}
use x_sticker_bot.Limiter.Stale.{UniqueKeys}
use x_sticker_bot.Limiter.Cleanup.{
  Signal, called, ticked, on_tick, start_cleanup, last_call, start_cleanup-Recent,
}

-- Buckets of tokens that are never refilled.
abbrev counting : Rate
counting = record {
  Limit = ℕ;
  per = λ a b. a;
  Bucket = ℕ;
  new_bucket = λ l burst. burst;
  allow_at = λ b now. (ltb 0 b, b - 1);
}

counting-Tokens : Tokens counting
counting-Tokens = record {
  tokens = λ b now. b;
  burst_of = λ b. b;
  tokens_le = λ b now. omega arith;
  burst_new = λ l burst. omega arith;
  burst_allow = λ b now. omega arith;
  allow_iff = λ b now. refl;
  allow_takes = λ b now. refl;
}

abbrev about : Bytes
about = codes "/about"

abbrev fresh : RateLimiter counting
fresh = record {
  global = 100;
  users = [];
  command_rate = (about, 5) ∷ [];
  command_burst = (about, 2) ∷ [];
  default_rate = 30;
  default_burst = 5;
  denied = 0;
}

abbrev asked : Bool × RateLimiter counting
asked = allow_command counting fresh 7 about 1

allow_command_lem_example :
    (asked.0 ≡ (true && (counting.allow_at (command_of counting fresh 7 about) 1).0))
    × (asked.1.global ≡ 99)
    × (asked.1.denied ≡ (if asked.0 then 0 else incr 0))
    × ((v : ℕ) → general_of counting asked.1 v ≡ general_of counting fresh v)
    × ((v : ℕ) (c : Bytes)
        → command_of counting asked.1 v c ≡ (
            if ((7 == v) && eq_bytes about c) && true
            then (counting.allow_at (command_of counting fresh 7 about) 1).1
            else command_of counting fresh v c))
allow_command_lem_example = allow_command_lem counting fresh 7 about 1

abbrev calls : List Call
calls = command 7 about ∷ general 7 ∷ command 7 about ∷ command 7 about ∷ []

about-rate : lookup about fresh.command_rate ≡ some 5
unfolding lookup eq_bytes
about-rate = refl

about-burst : lookup about fresh.command_burst ≡ some 2
unfolding lookup eq_bytes
about-burst = refl

unseen : lookup 7 fresh.users ≡ none
unfolding lookup
unseen = refl

abbrev user_at : ℕ → UserLimiter counting
user_at t = record { general = 5; commands = []; last_seen = t }

abbrev two_users : RateLimiter counting
two_users = record fresh { users = (7, user_at 10) ∷ (8, user_at 90) ∷ [] }

two_users-UniqueKeys : UniqueKeys counting two_users.users
unfolding lookup
two_users-UniqueKeys = (refl, (refl, tt))

abbrev cleaned : List Signal
cleaned = called (general 7) 10 ∷ ticked 600 ∷ called (general 8) 650 ∷ []

remembered :
    lookup 7 (start_cleanup counting 1800 true fresh cleaned).users
    ≡ some (record (user_at 10) { general = 4 })
unfolding lookup insert allow start_cleanup on_tick cleanup_stale sweep is_idle get_or_create_user
remembered = refl

start_cleanup-Recent_example :
    (t : ℕ) × (last_call counting 1800 600 7 none cleaned ≡ some t) × (650 ≤ t + (1800 + 600))
start_cleanup-Recent_example =
    start_cleanup-Recent counting 1800 600 fresh cleaned 0 7 (record (user_at 10) { general = 4 })
      refl (omega arith, omega arith, (omega arith, omega arith, (omega arith, omega arith, tt)))
      remembered
