-- ===== src/Monitor/Ring.antt =====
-- RingBuffer of internal/monitor/metrics.go. A time is a number; 0 is the zero time.Time.
pub mod Window
use x_sticker_bot.Base.{
  ℕ, ◌+◌, ◌%◌, Bool, ◌&&◌, not, Option, none, some, List, [], ◌∷◌, ltb, ◌==◌, if◌then◌else◌, length,
  set, replicate, count_if,
}

pub record RingBuffer : Type 0 where
  pub times : List ℕ
  pub size : ℕ
  pub pos : ℕ

pub new_ring_buffer : ℕ → RingBuffer
new_ring_buffer size = record { times = replicate size 0; size = size; pos = 0 }

-- `none` is the panic of an index out of range.
pub add : RingBuffer → ℕ → Option RingBuffer
add rb t =
    if ltb rb.pos (length rb.times)
    then some (record rb { times = set rb.times rb.pos t; pos = (rb.pos + 1) % rb.size })
    else none

-- The test of one entry: `!t.IsZero() && !t.Before(since)`.
abbrev pub counts : ℕ → ℕ → Bool
counts since t = not (t == 0) && not (ltb t since)

pub count_since : RingBuffer → ℕ → ℕ
count_since rb since = count_if (counts since) rb.times

-- The calls of a history, in order.
unfoldable pub add_all : RingBuffer → List ℕ → Option RingBuffer
add_all rb [] = some rb
add_all rb (t ∷ ts) = elim (add rb t) [ none ↦ none | some rb' ↦ add_all rb' ts ]
