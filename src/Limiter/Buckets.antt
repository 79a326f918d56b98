-- ===== src/Limiter/Buckets.antt =====
-- Which buckets a call charges.
use x_sticker_bot.Base.{
  ℕ, ◌≡◌, ◌&&◌, none, some, arith, if◌then◌else◌, ◌==◌, ==_iff, Bytes, eq_bytes, eq_bytes_iff,
  lookup, insert, lookup-insert, nat_eq, bytes_eq,
}
use x_sticker_bot.Limiter.{
  Rate, UserLimiter, RateLimiter, incr, get_or_create_user, new_command, command_bucket, allow,
  allow_command,
}

module _ (r : Rate) where
  -- The buckets that a user's calls are held to, those still to be made included.
  abbrev pub general_of : RateLimiter r → ℕ → r.Bucket
  general_of rl uid = elim (lookup uid rl.users) [
    | some ul ↦ ul.general
    | none ↦ r.new_bucket rl.default_rate rl.default_burst
  ]

  abbrev pub command_of : RateLimiter r → ℕ → Bytes → r.Bucket
  command_of rl uid command = elim (lookup uid rl.users) [
    | some ul ↦ elim (lookup command ul.commands) [
      | some bucket ↦ bucket
      | none ↦ new_command r rl command
    ]
    | none ↦ new_command r rl command
  ]

  -- Allow says yes exactly if the global bucket and then the user's general bucket do. The global
  -- bucket is always asked; the user's is charged only after the global one said yes; no other
  -- user's general bucket and no command bucket changes; and a refusal, of either, is counted once.
  pub allow_lem :
      (rl : RateLimiter r) (uid now : ℕ)
      → let (ok, rl') = allow r rl uid now in
        let (global_ok, global') = r.allow_at rl.global now in
        let (user_ok, general') = r.allow_at (general_of rl uid) now in
        (ok ≡ (global_ok && user_ok))
        × (rl'.global ≡ global')
        × (rl'.denied ≡ (if ok then rl.denied else incr rl.denied))
        × ((v : ℕ)
            → general_of rl' v ≡ (if (uid == v) && global_ok then general' else general_of rl v))
        × ((v : ℕ) (c : Bytes) → command_of rl' v c ≡ command_of rl v c)
  unfolding allow new_command lookup
  allow_lem rl uid now =
      let ul = get_or_create_user r rl uid now in
      let seen : UserLimiter r = record ul { last_seen = now } in
      let charged : UserLimiter r = record ul {
        last_seen = now;
        general = (r.allow_at ul.general now).1;
      } in
      (
        ground arith,
        ground arith,
        ground arith,
        λ v. ground (
          arith,
          ==_iff uid v,
          lookup-insert uid v seen rl.users,
          lookup-insert uid v charged rl.users,
        ),
        λ v c. ground (
          arith,
          ==_iff uid v,
          lookup-insert uid v seen rl.users,
          lookup-insert uid v charged rl.users,
        ),
      )

  -- AllowCommand says yes exactly if the global bucket and then the user's bucket of the command
  -- do. The command's bucket is charged only after the global one said yes; no bucket of another
  -- command or another user changes, and no general bucket does; a refusal is counted once.
  pub allow_command_lem :
      (rl : RateLimiter r) (uid : ℕ) (command : Bytes) (now : ℕ)
      → let (ok, rl') = allow_command r rl uid command now in
        let (global_ok, global') = r.allow_at rl.global now in
        let (command_ok, bucket') = r.allow_at (command_of rl uid command) now in
        (ok ≡ (global_ok && command_ok))
        × (rl'.global ≡ global')
        × (rl'.denied ≡ (if ok then rl.denied else incr rl.denied))
        × ((v : ℕ) → general_of rl' v ≡ general_of rl v)
        × ((v : ℕ) (c : Bytes)
            → command_of rl' v c ≡ (
                if ((uid == v) && eq_bytes command c) && global_ok
                then bucket'
                else command_of rl v c))
  unfolding allow_command new_command lookup
  allow_command_lem rl uid command now =
      let ul = get_or_create_user r rl uid now in
      let bucket = command_bucket r rl ul command in
      let as_was : UserLimiter r = record ul {
        last_seen = now;
        commands = insert command bucket ul.commands;
      } in
      let charged : UserLimiter r = record ul {
        last_seen = now;
        commands = insert command (r.allow_at bucket now).1 ul.commands;
      } in
      (
        ground arith,
        ground arith,
        ground arith,
        λ v. ground (
          arith,
          ==_iff uid v,
          lookup-insert uid v as_was rl.users,
          lookup-insert uid v charged rl.users,
        ),
        λ v c. ground (
          arith,
          ==_iff uid v,
          eq_bytes_iff command c,
          lookup-insert uid v as_was rl.users,
          lookup-insert uid v charged rl.users,
          lookup-insert command c bucket ul.commands,
          lookup-insert command c (r.allow_at bucket now).1 ul.commands,
        ),
      )
