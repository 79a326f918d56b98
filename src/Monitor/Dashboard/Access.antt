-- ===== src/Monitor/Dashboard/Access.antt =====
-- Who gets an answer from the dashboard's API.
use x_sticker_bot.Base.{
  ℕ, ◌+◌, ◌<◌, some, Option-cases, ◌≡◌, ◌≢◌, ◌↔◌, ◌⊎◌, inl, inr, refl, true, false, [], ◌∷◌, ◌++◌,
  arith, length, drop, Bytes, eq_bytes_iff, trim_prefix, has_prefix-append, has_prefix-trim,
}
use x_sticker_bot.Monitor.Metrics.{Floats}
use x_sticker_bot.Monitor.Health.{PollStatus, PollingHealth, poll_starting, poll_healthy, status}
use x_sticker_bot.Monitor.Dashboard.{
  api_health, page, api_metrics, api_stats, health, html, unauthorized, Setup, bearer, allowed,
  serve, get_health, get_metrics, get_stats, poll_status,
}

trim_prefix-append : (p s : Bytes) → trim_prefix (p ++ s) p ≡ s
unfolding trim_prefix
trim_prefix-append p s = rw (has_prefix-append p s) (drop_prefix p s)
  where
    drop_prefix : (p s : Bytes) → drop (length p) (p ++ s) ≡ s
    drop_prefix [] s = refl
    drop_prefix (c ∷ p) s = drop_prefix p s

-- The API is open to all when no token is configured, and otherwise to those alone whose header is
-- `Bearer ` followed by exactly the token.
pub allowed_lem :
    (token auth : Bytes) → (allowed token auth ≡ true) ↔ ((token ≡ []) ⊎ (auth ≡ bearer ++ token))
unfolding allowed
allowed_lem token auth = (forward, backward)
  where
    forward : allowed token auth ≡ true → (token ≡ []) ⊎ (auth ≡ bearer ++ token)
    forward h = ground (
      arith,
      eq_bytes_iff token [],
      eq_bytes_iff (trim_prefix auth bearer) token,
      has_prefix-trim auth bearer,
    )

    backward : (token ≡ []) ⊎ (auth ≡ bearer ++ token) → allowed token auth ≡ true
    backward (inl e) = ground (arith, eq_bytes_iff token [])
    backward (inr e) =
        rw (e, has_prefix-append bearer token, trim_prefix-append bearer token)
          (ground (arith, eq_bytes_iff token token))

refused :
    (token auth : Bytes) → (allowed token auth ≡ false) ↔ ((token ≢ []) × (auth ≢ bearer ++ token))
refused token auth = ground (arith, allowed_lem token auth)

healthy :
    (fl : Floats) {Rows : Type 0} (s : Setup Rows) (now : ℕ)
    → ((get_health fl s now ≡ health 200 poll_healthy) ↔ (
        (h : PollingHealth) × (s.polling ≡ some h)
        × (h.last_success ≢ 0)
        × (now < h.last_success + h.stale_after)))
      × ((get_health fl s now ≡ health 200 poll_healthy)
          ⊎ ((p : PollStatus) × (get_health fl s now ≡ health 503 p) × (p ≢ poll_healthy)))
unfolding get_health poll_status status
healthy fl s now = elim (Option-cases s.polling) [
  | inl e ↦ (
    (λ h. absurd (ground arith), λ (h, same, set, fresh). absurd (ground arith)),
    inr (poll_starting, ground arith, λ x. cc x),
  )
  | inr (h, e) ↦ (
    (λ same. (h, e, ground arith, ground arith), λ (k, same, set, fresh). ground arith),
    ground arith,
  )
]

-- With a token configured, each protected route answers 401 to every request but those whose header
-- is `Bearer ` followed by exactly the token; without one it answers all. The health check and the
-- page are answered whatever the header is, and the health check answers 200 exactly while the last
-- successful poll is less than `staleAfter` ago, and 503 otherwise.
pub serve_lem :
    (fl : Floats) {Rows : Type 0} (s : Setup Rows) (now : ℕ) (auth : Bytes)
    → ((serve fl s now api_metrics auth ≡ unauthorized)
        ↔ ((s.admin_token ≢ []) × (auth ≢ bearer ++ s.admin_token)))
      × ((serve fl s now api_stats auth ≡ unauthorized)
          ↔ ((s.admin_token ≢ []) × (auth ≢ bearer ++ s.admin_token)))
      × (serve fl s now page auth ≡ html)
      × ((serve fl s now api_health auth ≡ health 200 poll_healthy) ↔ (
          (h : PollingHealth) × (s.polling ≡ some h)
          × (h.last_success ≢ 0)
          × (now < h.last_success + h.stale_after)))
      × ((serve fl s now api_health auth ≡ health 200 poll_healthy)
          ⊎ ((p : PollStatus) × (serve fl s now api_health auth ≡ health 503 p)
              × (p ≢ poll_healthy)))
unfolding serve get_metrics get_stats
serve_lem fl s now auth =
    let shut = refused s.admin_token auth in
    (ground (arith, shut), ground (arith, shut), refl, (healthy fl s now).0, (healthy fl s now).1)
