-- ===== src/Monitor/Health.antt =====
-- PollingHealth of internal/monitor/poll_health.go. Times are numbers and 0 is the zero time.Time;
-- a read or write under the lock is one step.
use x_sticker_bot.Base.{
  ℕ, ◌+◌, ◌<◌, ◌≡◌, ◌≢◌, ◌↔◌, ◌⊎◌, inl, inr, refl, List, [], ◌∷◌, arith, if◌then◌else◌, leb, ◌==◌,
}

pub data PollStatus : Type 0 where
  poll_starting poll_healthy poll_stale : PollStatus

pub record PollingHealth : Type 0 where
  pub last_success : ℕ
  pub stale_after : ℕ

unfoldable pub new_polling_health : ℕ → PollingHealth
new_polling_health stale_after = record { last_success = 0; stale_after = stale_after }

unfoldable pub record_success : PollingHealth → ℕ → PollingHealth
record_success h at = record h { last_success = at }

-- `now.Sub(lastSuccess) >= staleAfter`, for a `staleAfter` that is not negative.
unfoldable pub status : PollingHealth → ℕ → PollStatus
status h now =
    if h.last_success == 0
    then poll_starting
    else if leb (h.last_success + h.stale_after) now
    then poll_stale
    else poll_healthy

-- The status after a history of successes, newest first.
pub after : ℕ → List ℕ → PollingHealth
unfolding new_polling_health record_success
after stale_after [] = new_polling_health stale_after
after stale_after (at ∷ earlier) = record_success (after stale_after earlier) at

stale_after-after :
    (stale_after : ℕ) (history : List ℕ) → (after stale_after history).stale_after ≡ stale_after
unfolding after
stale_after-after stale_after [] = refl
stale_after-after stale_after (at ∷ earlier) = stale_after-after stale_after earlier

-- The newest success decides, however old the others are: the status is healthy exactly when there
-- is one, its time is set, and `staleAfter` has not passed since; it is starting exactly when there
-- is none with its time set.
pub status-after :
    (stale_after now : ℕ) (history : List ℕ)
    → ((status (after stale_after history) now ≡ poll_healthy) ↔ (
        (at : ℕ) × (earlier : List ℕ) × (history ≡ at ∷ earlier)
        × (at ≢ 0)
        × (now < at + stale_after)))
      × ((status (after stale_after history) now ≡ poll_starting)
          ↔ ((history ≡ []) ⊎ ((earlier : List ℕ) × (history ≡ 0 ∷ earlier))))
unfolding status after
status-after stale_after now [] =
    ((λ h. absurd (cc h), λ h. absurd (cc h.2)), (λ h. inl refl, λ h. refl))
status-after stale_after now (at ∷ earlier) =
    let kept = stale_after-after stale_after earlier in
    (
      (
        (λ h. (at, earlier, refl, ground arith, ground (arith, kept))),
        λ (a, e, same, set, fresh). ground (arith, kept),
      ),
      (λ h. inr (earlier, ground arith), λ h. ground arith),
    )
