-- ===== src/Bot/Polling.antt =====
-- internal/bot/polling.go: the HTTP client that watches getUpdates. The client below it and the
-- JSON decoder are parameters.
pub mod Confirmed
use x_sticker_bot.Base.{
  ℕ, Bool, true, false, ◌&&◌, ◌||◌, not, Option, none, some, List, [], ◌∷◌, if◌then◌else◌, leb, ltb,
  ◌==◌, Bytes, codes, has_suffix,
}
use x_sticker_bot.Monitor.Health.{PollingHealth, record_success}

-- json.Unmarshal of the two types: the fields `ok` and `result`, and for each update of the list
-- whether it is not null. `none` is an error.
pub record Json : Type 0 where
  pub envelope : Bytes → Option (Bool × Bytes)
  pub updates : Bytes → Option (List Bool)

-- What the inner client returns. `body` is what reading gives, `none` if reading fails.
pub data Reply : Type 0 where
  failed : Reply
  no_response : Reply
  no_body : ℕ → Reply
  response : ℕ → Option Bytes → Bool → Reply

pub data Outcome : Type 0 where
  -- the inner reply, passed on
  passed : Reply → Outcome
  read_error close_error invalid : Outcome
  -- the response with its body put back
  delivered : ℕ → Bytes → Outcome

abbrev pub all_true : List Bool → Bool
all_true [] = true
all_true (b ∷ bs) = b && all_true bs

abbrev pub starts_with_bracket : Bytes → Bool
starts_with_bracket [] = false
starts_with_bracket (c ∷ s) = c == b'['

-- (valid, malformed)
pub valid_updates_response : Json → Bytes → Bool × Bool
valid_updates_response json body = elim (json.envelope body) [
  | none ↦ (false, true)
  | some (ok, result) ↦
      if not ok
      then (false, false)
      else if not (starts_with_bracket result)
      then (false, true)
      else elim (json.updates result) [
        | none ↦ (false, true)
        | some us ↦ if all_true us then (true, false) else (false, true)
      ]
]

-- A response whose body has been read.
pub judge : Json → PollingHealth → ℕ → ℕ → Bytes → Outcome × PollingHealth
judge json h now code body =
    let (valid, malformed) = valid_updates_response json body in
    if malformed
    then (invalid, h)
    else if (leb 200 code && ltb code 300) && valid
    then (delivered code body, record_success h now)
    else (delivered code body, h)

-- pollingHTTPClient.Do: `path` is the URL's path and `now` the clock when the health is recorded.
pub do_request : Json → PollingHealth → ℕ → Bytes → Reply → Outcome × PollingHealth
unfolding judge
do_request json h now path failed = (passed failed, h)
do_request json h now path no_response = (passed no_response, h)
do_request json h now path (no_body code) = (passed (no_body code), h)
do_request json h now path (response code body closes) =
    if not (has_suffix path (codes "/getUpdates"))
    then (passed (response code body closes), h)
    else elim body [
      | none ↦ (read_error, h)
      | some bytes ↦ if not closes then (close_error, h) else judge json h now code bytes
    ]
