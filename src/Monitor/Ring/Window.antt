-- ===== src/Monitor/Ring/Window.antt =====
-- The ring buffer holds the last `size` timestamps, oldest first from `pos`.
use x_sticker_bot.Base.{
  ℕ, zero, suc, ◌+◌, ◌-◌, ◌%◌, ◌≤◌, ◌<◌, ◌≡◌, refl, sym, ap, ◌∙◌, inl, inr, some, List, [], ◌∷◌,
  ◌++◌, append_assoc, append-nil, arith, ltb, lt→ltb, ltb→lt, Bool-cases, length, set, take, drop,
  replicate, count_if, length-append, length-set, length-replicate, take-append-drop,
  count_if-append,
}
use native.Mathlib.Nat.{mod-eq_of_lt, mod_self}
use x_sticker_bot.Monitor.Ring.{RingBuffer, new_ring_buffer, add, counts, count_since, add_all}

pub record IsValid (rb : RingBuffer) : Type 0 where
  pub stored : length rb.times ≡ rb.size
  pub in_range : rb.pos < rb.size

pub new-IsValid : (size : ℕ) → 0 < size → IsValid (new_ring_buffer size)
unfolding new_ring_buffer
new-IsValid size h = omega (arith, length-replicate {A = ℕ} size 0)

-- Oldest entry first.
abbrev pub window : RingBuffer → List ℕ
window rb = drop rb.pos rb.times ++ take rb.pos rb.times

module _ {ℓ} {A : Type ℓ} where
  drop-cons : (i : ℕ) (xs : List A) → i < length xs → drop 1 (drop i xs) ≡ drop (suc i) xs
  drop-cons i [] h = absurd (omega arith)
  drop-cons zero (x ∷ xs) h = refl
  drop-cons (suc i) (x ∷ xs) h = drop-cons i xs (omega arith)

  drop-append :
      (i : ℕ) (xs ys : List A) → i < length xs → drop 1 (drop i xs ++ ys) ≡ drop (suc i) xs ++ ys
  drop-append i [] ys h = absurd (omega arith)
  drop-append zero (x ∷ xs) ys h = refl
  drop-append (suc i) (x ∷ xs) ys h = drop-append i xs ys (omega arith)

  drop-set : (i : ℕ) (xs : List A) (v : A) → drop (suc i) (set xs i v) ≡ drop (suc i) xs
  drop-set i [] v = refl
  drop-set zero (x ∷ xs) v = refl
  drop-set (suc i) (x ∷ xs) v = drop-set i xs v

  take-set :
      (i : ℕ) (xs : List A) (v : A)
      → i < length xs
      → take (suc i) (set xs i v) ≡ take i xs ++ v ∷ []
  take-set i [] v h = absurd (omega arith)
  take-set zero (x ∷ xs) v h = refl
  take-set (suc i) (x ∷ xs) v h = ap (λ l. x ∷ l) (take-set i xs v (omega arith))

  drop_all : (n : ℕ) (xs : List A) → length xs ≤ n → drop n xs ≡ []
  drop_all zero [] h = refl
  drop_all (suc n) [] h = refl
  drop_all zero (x ∷ xs) h = absurd (omega arith)
  drop_all (suc n) (x ∷ xs) h = drop_all n xs (omega arith)

  -- A write at the last index, read from the start.
  set_last :
      (i : ℕ) (xs : List A) (v : A)
      → length xs ≡ suc i
      → set xs i v ≡ drop (suc i) xs ++ (take i xs ++ v ∷ [])
  set_last i xs v e =
      sym (take-append-drop (suc i) (set xs i v))
      ∙ ap (λ l. l ++ drop (suc i) (set xs i v)) (take-set i xs v (omega arith))
      ∙ ap (λ l. (take i xs ++ v ∷ []) ++ l)
          (drop_all (suc i) (set xs i v) (omega (arith, length-set xs i v)))
      ∙ append-nil (take i xs ++ v ∷ [])
      ∙ ap (λ l. l ++ (take i xs ++ v ∷ [])) (sym (drop_all (suc i) xs (omega arith)))

-- The state that `add` leaves.
abbrev pub added : RingBuffer → ℕ → RingBuffer
added rb t = record rb { times = set rb.times rb.pos t; pos = (rb.pos + 1) % rb.size }

add-added : (rb : RingBuffer) (t : ℕ) → IsValid rb → add rb t ≡ some (added rb t)
unfolding add
add-added rb t v = rw (lt→ltb rb.pos (length rb.times) (omega arith))

added-IsValid : (rb : RingBuffer) (t : ℕ) → IsValid rb → IsValid (added rb t)
added-IsValid rb t v = omega (arith, length-set rb.times rb.pos t)

-- The window of a list from an index that has gone round or not.
window-step :
    (xs : List ℕ) (i j v : ℕ)
    → i < length xs
    → j ≡ (i + 1) % length xs
    → drop j (set xs i v) ++ take j (set xs i v) ≡ drop 1 (drop i xs ++ take i xs) ++ v ∷ []
window-step xs i j v h e = elim (Bool-cases (ltb (suc i) (length xs))) [
  | inl more ↦
      let je : j ≡ suc i = omega (
        arith,
        mod-eq_of_lt {n = i + 1} {m = length xs} (omega (arith, ltb→lt (suc i) (length xs) more)),
      ) in
      rw (je, drop-append i xs (take i xs) h, drop-set i xs v, take-set i xs v h, append_assoc)
  | inr last ↦
      let full : length xs ≡ suc i = ground arith in
      let je : j ≡ 0 =
        e ∙ ap (λ n. (i + 1) % n) full ∙ ap (λ n. n % suc i) (omega arith) ∙ mod_self (suc i) in
      rw (je, drop-append i xs (take i xs) h, append-nil, append_assoc) (set_last i xs v full)
]

window-added :
    (rb : RingBuffer) (t : ℕ) → IsValid rb → window (added rb t) ≡ drop 1 (window rb) ++ t ∷ []
window-added rb t v =
    window-step rb.times rb.pos ((rb.pos + 1) % rb.size) t (omega arith)
      (ap (λ n. (rb.pos + 1) % n) (sym v.stored))

-- `Add` on a valid buffer writes inside the storage, drops the oldest timestamp of the window,
-- appends the new one, and keeps the buffer valid.
pub add-window :
    (rb : RingBuffer) (t : ℕ)
    → IsValid rb
    → (rb' : RingBuffer) × (add rb t ≡ some rb')
      × IsValid rb'
      × (rb'.size ≡ rb.size)
      × (window rb' ≡ drop 1 (window rb) ++ t ∷ [])
add-window rb t v = (added rb t, add-added rb t v, added-IsValid rb t v, refl, window-added rb t v)

-- `CountSince` counts over the window, in whatever order the storage keeps it.
count_since-window :
    (rb : RingBuffer) (since : ℕ) → count_since rb since ≡ count_if (counts since) (window rb)
unfolding count_since
count_since-window rb since = omega (
  arith,
  ap (count_if (counts since)) (take-append-drop rb.pos rb.times),
  count_if-append (counts since) (take rb.pos rb.times) (drop rb.pos rb.times),
  count_if-append (counts since) (drop rb.pos rb.times) (take rb.pos rb.times),
)

-- The last `n` of a list.
abbrev pub last_n : ℕ → List ℕ → List ℕ
last_n n xs = drop (length xs - n) xs

length-window : (rb : RingBuffer) → length (window rb) ≡ length rb.times
length-window rb = omega (
  arith,
  ap length (take-append-drop rb.pos rb.times),
  length-append (take rb.pos rb.times) (drop rb.pos rb.times),
  length-append (drop rb.pos rb.times) (take rb.pos rb.times),
)

drop-drop_append :
    (k : ℕ) (ws ts : List ℕ) (t : ℕ)
    → length ws ≡ suc k
    → drop (length ts) ((drop 1 ws ++ t ∷ []) ++ ts) ≡ drop (length (t ∷ ts)) (ws ++ t ∷ ts)
drop-drop_append k [] ts t e = absurd (omega arith)
drop-drop_append k (w ∷ ws) ts t e = rw append_assoc

-- After a history the window is the end of what was in it followed by the history.
add_all-window :
    (ts : List ℕ) (rb : RingBuffer)
    → IsValid rb
    → (rb' : RingBuffer) × (add_all rb ts ≡ some rb')
      × IsValid rb'
      × (window rb' ≡ drop (length ts) (window rb ++ ts))
unfolding add_all
add_all-window [] rb v = (rb, refl, v, sym (append-nil (window rb)))
add_all-window (t ∷ ts) rb v =
    let (rb', e, v', w') = add_all-window ts (added rb t) (added-IsValid rb t v) in
    (
      rb',
      rw (add-added rb t v, add_all) e,
      v',
      w'
          ∙ ap (λ l. drop (length ts) (l ++ ts)) (window-added rb t v)
          ∙ drop-drop_append (rb.size - 1) (window rb) ts t (omega (arith, length-window rb)),
    )

count_if-replicate :
    (since n : ℕ) (ts : List ℕ) (k : ℕ)
    → count_if (counts since) (drop k (replicate n 0 ++ ts))
      ≡ count_if (counts since) (drop (k - n) ts)
count_if-replicate since zero ts k = rw (sub-zero k)
  where
    sub-zero : (k : ℕ) → k - 0 ≡ k
    sub-zero k = omega arith
count_if-replicate since (suc n) ts zero = ground (arith, count_if-replicate since n ts zero)
count_if-replicate since (suc n) ts (suc k) =
    let e : suc k - suc n ≡ k - n = omega arith in rw e (count_if-replicate since n ts k)

pub count_since-add_all :
    (size since : ℕ) (ts : List ℕ)
    → 0 < size
    → (rb : RingBuffer) × (add_all (new_ring_buffer size) ts ≡ some rb)
      × (count_since rb since ≡ count_if (counts since) (last_n size ts))
unfolding new_ring_buffer
count_since-add_all size since ts h =
    let v = new-IsValid size h in
    let (rb, e, _, w) = add_all-window ts (new_ring_buffer size) v in
    (
      rb,
      e,
      count_since-window rb since
          ∙ ap (count_if (counts since)) w
          ∙ ap (λ l. count_if (counts since) (drop (length ts) (l ++ ts)))
              (append-nil (replicate size 0))
          ∙ count_if-replicate since size ts (length ts),
    )
