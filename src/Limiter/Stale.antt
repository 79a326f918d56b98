-- ===== src/Limiter/Stale.antt =====
-- CleanupStale forgets exactly the users that have been idle too long.
use x_sticker_bot.Base.{
  ℕ, ◌≡◌, refl, Option, none, some, List, [], ◌∷◌, arith, if◌then◌else◌, ==_iff, lookup, erase,
  lookup-erase, nat_eq,
}
use x_sticker_bot.Limiter.{Rate, UserLimiter, RateLimiter, is_idle, sweep, cleanup_stale}

module _ (r : Rate) where
  -- A sync.Map holds a key once.
  abbrev pub UniqueKeys : List (ℕ × UserLimiter r) → Type 0
  UniqueKeys [] = Unit
  UniqueKeys ((k, ul) ∷ m) = (lookup k m ≡ none) × UniqueKeys m

  -- What the sweep does to the entry of `uid`, by the entries that it walks over.
  abbrev kept : ℕ → ℕ → ℕ → Option (UserLimiter r) → Option (UserLimiter r) → Option (UserLimiter r)
  kept now max_idle uid none old = old
  kept now max_idle uid (some ul) old = if is_idle r now max_idle ul then none else old

  lookup-sweep :
      (now max_idle uid : ℕ) (entries users : List (ℕ × UserLimiter r))
      → UniqueKeys entries
      → lookup uid (sweep r now max_idle entries users)
        ≡ kept now max_idle uid (lookup uid entries) (lookup uid users)
  unfolding sweep lookup
  lookup-sweep now max_idle uid [] users unique = refl
  lookup-sweep now max_idle uid ((k, ul) ∷ entries) users unique = ground (
    arith,
    ==_iff k uid,
    lookup-erase k uid users,
    lookup-sweep now max_idle uid entries (erase k users) unique.1,
    lookup-sweep now max_idle uid entries users unique.1,
  )

  -- A user is forgotten exactly when last seen longer than `maxIdle` ago; every other user keeps
  -- its limiters as they were, and nothing else of the limiter changes.
  pub cleanup_stale_lem :
      (rl : RateLimiter r) (now max_idle uid : ℕ)
      → UniqueKeys rl.users
      → let rl' = cleanup_stale r rl now max_idle in
        (lookup uid rl'.users ≡ (elim (lookup uid rl.users) [
          | none ↦ none
          | some ul ↦ if is_idle r now max_idle ul then none else some ul
        ]))
        × (rl'.global ≡ rl.global)
        × (rl'.denied ≡ rl.denied)
  unfolding cleanup_stale
  cleanup_stale_lem rl now max_idle uid unique =
      (ground (arith, lookup-sweep now max_idle uid rl.users rl.users unique), refl, refl)
