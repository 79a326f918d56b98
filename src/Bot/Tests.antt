-- ===== src/Bot/Tests.antt =====
-- Examples for internal/bot.
use x_sticker_bot.Base.{
  ℕ, ◌-◌, ◌≤◌, ◌<◌, ◌≡◌, ◌⊎◌, refl, true, false, none, some, [], ◌∷◌, arith, ltb, Bytes, codes,
  contains, has_suffix, has_prefix, nat_eq, bytes_eq,
}
use x_sticker_bot.Telegram.{Message, Update}
use x_sticker_bot.Limiter.{Rate, new_rate_limiter, allow}
use x_sticker_bot.Monitor.Metrics.{new_metrics, record_rate_denied}
use x_sticker_bot.Monitor.Ring.Window.{new-IsValid}
use x_sticker_bot.Monitor.Health.{PollingHealth, new_polling_health, record_success}
use x_sticker_bot.Bot.Polling.{Json, Reply, response, do_request}
use x_sticker_bot.Bot.Polling.Confirmed.{IsConfirmed, do_request-health}
use x_sticker_bot.Bot.Redact.{NoStar, log_telegram_error, replace_all, replace_from}
use x_sticker_bot.Bot.Router.{App, on_update, default_handler, limited_message}
use x_sticker_bot.Bot.Router.Accounting.{on_updates}
use x_sticker_bot.Bot.Router.Outcomes.{Outcome, on_update_lem}
use x_sticker_bot.Bot.Router.Totality.{HasValidRing, HasSender}

-- A decoder that takes every text for a list of one update.
abbrev one_update : Json
one_update = record {
  envelope = λ body. some (true, codes "[{}]");
  updates = λ result. some (true ∷ []);
}

abbrev body : Bytes
body = codes "{\"ok\":true,\"result\":[{}]}"

abbrev poll_path : Bytes
poll_path = codes "/bot1/getUpdates"

abbrev reply : Reply
reply = response 200 (some body) true

abbrev unpolled : PollingHealth
unpolled = new_polling_health 60

do_request-health_example :
    ((do_request one_update unpolled 5 poll_path reply).1 ≡ unpolled)
    ⊎ ((code : ℕ) × (text : Bytes) × (reply ≡ response code (some text) true)
        × (has_suffix poll_path (codes "/getUpdates") ≡ true)
        × (200 ≤ code)
        × (code < 300)
        × IsConfirmed one_update text
        × ((do_request one_update unpolled 5 poll_path reply).1 ≡ record_success unpolled 5))
do_request-health_example = do_request-health one_update unpolled 5 poll_path reply

poll_path-suffix : has_suffix poll_path (codes "/getUpdates") ≡ true
unfolding has_suffix has_prefix
poll_path-suffix = refl

body-IsConfirmed : IsConfirmed one_update body
body-IsConfirmed = record {
  result = codes "[{}]";
  envelope_ok = refl;
  bracket = refl;
  us = true ∷ [];
  decoded = refl;
  no_null = refl;
}

abbrev token : Bytes
token = codes "123:abc"

token-NoStar : NoStar token
token-NoStar = ground arith

abbrev redacted : Bytes
redacted = codes "Get /bot***/x: EOF"

token-logged : log_telegram_error token (codes "Get /bot123:abc/x: EOF") false ≡ some redacted
unfolding log_telegram_error replace_all replace_from has_prefix contains
token-logged = refl

-- Buckets of tokens that are never refilled.
abbrev counting : Rate
counting = record {
  Limit = ℕ;
  per = λ a b. a;
  Bucket = ℕ;
  new_bucket = λ l burst. burst;
  allow_at = λ b now. (ltb 0 b, b - 1);
}

-- The global bucket is empty.
abbrev exhausted : App counting
exhausted = record {
  has_handler = true;
  limiter = new_rate_limiter counting 10 0;
  metrics = new_metrics 50;
}

abbrev hello : Message
hello = record {
  from = some 7;
  chat = 7;
  id = 1;
  text = codes "hello";
  sticker = none;
  animation = none;
  photo = none;
  video = none;
  document = none;
  audio = none;
  voice = none;
  video_note = none;
}

abbrev hello_update : Update
hello_update = record { message = some hello; callback_query = none }

abbrev after_denial : App counting
after_denial = record exhausted {
  limiter = (allow counting exhausted.limiter 7 60).1;
  metrics = record_rate_denied exhausted.metrics;
}

hello-denied : on_update counting none exhausted hello_update 60 ≡ some (after_denial, [])
unfolding on_update default_handler limited_message allow new_rate_limiter
hello-denied = refl

on_update_lem_example : Outcome counting 60 none exhausted after_denial hello_update []
on_update_lem_example =
    on_update_lem counting 60 none exhausted after_denial hello_update [] refl hello-denied

history-denied : on_updates counting exhausted ((none, hello_update, 60) ∷ []) ≡ some after_denial
history-denied = rw (hello-denied, on_updates) refl

exhausted-synced : exhausted.limiter.denied ≡ exhausted.metrics.rate_denied
unfolding new_rate_limiter new_metrics
exhausted-synced = refl

hello-HasSender : HasSender counting hello_update
hello-HasSender msg e nobody = cc

exhausted-HasValidRing : HasValidRing counting exhausted
unfolding new_metrics
exhausted-HasValidRing = new-IsValid 3600 (omega arith)
