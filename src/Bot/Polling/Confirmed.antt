-- ===== src/Bot/Polling/Confirmed.antt =====
-- What counts as a successful poll.
use x_sticker_bot.Base.{
  ℕ, ◌≤◌, ◌<◌, ◌≡◌, ◌↔◌, ◌⊎◌, inl, inr, refl, Bool, true, false, none, some, List, arith, Bytes,
  codes, has_suffix, Option-cases, Bool-cases, leb, ltb, ◌&&◌,
}
use x_sticker_bot.Monitor.Health.{PollingHealth, record_success}
use x_sticker_bot.Bot.Polling.{
  Json, Reply, failed, no_response, no_body, response, delivered, all_true, starts_with_bracket,
  valid_updates_response, do_request,
}

-- A body that says `ok` and whose result is a list of updates with no null.
pub record IsConfirmed (json : Json) (body : Bytes) : Type 0 where
  pub result : Bytes
  pub envelope_ok : json.envelope body ≡ some (true, result)
  pub bracket : starts_with_bracket result ≡ true
  pub us : List Bool
  pub decoded : json.updates result ≡ some us
  pub no_null : all_true us ≡ true

-- valid_updates_response finds valid exactly the confirmed bodies, and never says that a body is
-- both valid and malformed.
pub valid_updates_response_lem :
    (json : Json) (body : Bytes)
    → (((valid_updates_response json body).0 ≡ true) ↔ IsConfirmed json body)
      × (((valid_updates_response json body).0 ≡ true)
          → (valid_updates_response json body).1 ≡ false)
unfolding valid_updates_response
valid_updates_response_lem json body = (
  ((λ h. forward h), λ c. ground (arith, c.envelope_ok, c.bracket, c.decoded, c.no_null)),
  λ h. ground arith,
)
  where
    forward : (valid_updates_response json body).0 ≡ true → IsConfirmed json body
    forward h = elim (Option-cases (json.envelope body)) [
      | inl e ↦ absurd (ground arith)
      | inr ((ok, result), e) ↦ elim (Option-cases (json.updates result)) [
        | inl d ↦ absurd (ground arith)
        | inr (us, d) ↦ record {
          result = result;
          envelope_ok = ground arith;
          bracket = ground arith;
          us = us;
          decoded = d;
          no_null = ground arith;
        }
      ]
    ]

-- The success of a poll is recorded only for a 2xx response to a request whose path ends in
-- /getUpdates, whose body was read and closed without an error and is confirmed. On every other
-- reply the health stays as it was.
pub do_request-health :
    (json : Json) (h : PollingHealth) (now : ℕ) (path : Bytes) (r : Reply)
    → ((do_request json h now path r).1 ≡ h)
      ⊎ ((code : ℕ) × (body : Bytes) × (r ≡ response code (some body) true)
          × (has_suffix path (codes "/getUpdates") ≡ true)
          × (200 ≤ code)
          × (code < 300)
          × IsConfirmed json body
          × ((do_request json h now path r).1 ≡ record_success h now))
unfolding do_request
do_request-health json h now path failed = inl refl
do_request-health json h now path no_response = inl refl
do_request-health json h now path (no_body c) = inl refl
do_request-health json h now path (response c none closes) = inl (ground arith)
do_request-health json h now path (response c (some b) false) = inl (ground arith)
do_request-health json h now path (response c (some b) true) =
    let (ok, once) = valid_updates_response_lem json b in
    elim (Bool-cases (valid_updates_response json b).0) [
      | inr refused ↦ inl (ground arith)
      | inl valid ↦ elim (Bool-cases (has_suffix path (codes "/getUpdates"))) [
        | inr other ↦ inl (ground arith)
        | inl polled ↦ elim (Bool-cases (leb 200 c && ltb c 300)) [
          | inr outside ↦ inl (ground (arith, once))
          | inl inside ↦
              inr (c, b, refl, polled, ground arith, ground arith, ok.0 valid, ground (arith, once))
        ]
      ]
    ]

-- A confirmed 2xx response to a request whose path ends in /getUpdates, read and closed without an
-- error, is always recorded, at the clock's time, and passed on with its body.
pub do_request_records :
    (json : Json) (h : PollingHealth) (now : ℕ) (path : Bytes) (code : ℕ) (body : Bytes)
    → has_suffix path (codes "/getUpdates") ≡ true
    → 200 ≤ code
    → code < 300
    → IsConfirmed json body
    → do_request json h now path (response code (some body) true)
      ≡ (delivered code body, record_success h now)
unfolding do_request
do_request_records json h now path code body polled lo hi confirmed =
    let (ok, once) = valid_updates_response_lem json body in
    let valid = ok.1 confirmed in ground (arith, once)
