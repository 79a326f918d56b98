-- ===== src/Storage/Stats/Table.antt =====
-- The rows of daily_events after any sequence of calls of RecordEvent.
use x_sticker_bot.Base.{
  ◌+◌, ◌≡◌, refl, sym, ◌∙◌, Bool, true, false, ◌&&◌, List, [], ◌∷◌, arith, if◌then◌else◌, Bytes,
  eq_bytes, eq_bytes_iff, All, All-map₂, count_if, Bool-cases, inl, inr,
}
use x_sticker_bot.Base.Int.{ℤ}
use x_sticker_bot.Storage.Stats.{Row, Call, new_row, same_key, upsert, record_event, sum_count}

-- The calls in their order.
unfoldable pub record_all : (ℤ → Bytes) → List Call → List Row → List Row
record_all hash [] rows = rows
record_all hash (c ∷ cs) rows = record_all hash cs (record_event hash c rows)

-- The events of the calls whose statement is carried out.
unfoldable pub entries : (ℤ → Bytes) → List Call → List Row
entries hash [] = []
entries hash (c ∷ cs) = if c.exec_fails then entries hash cs else new_row hash c ∷ entries hash cs

-- A function of what the index is on.
abbrev pub on_key {ℓ} : {A : Type ℓ} → (Bytes → Bytes → Bytes → A) → Row → A
on_key p r = p r.date r.user_hash r.event

same_key_lem :
    (r s : Row)
    → same_key r s ≡ true
    → (r.date ≡ s.date) × (r.user_hash ≡ s.user_hash) × (r.event ≡ s.event)
same_key_lem r s h = ground (
  arith,
  eq_bytes_iff r.date s.date,
  eq_bytes_iff r.user_hash s.user_hash,
  eq_bytes_iff r.event s.event,
)

pub same_key-on_key {ℓ} :
    {A : Type ℓ} (p : Bytes → Bytes → Bytes → A) (r s : Row)
    → same_key r s ≡ true
    → on_key p r ≡ on_key p s
same_key-on_key p r s h = let (d, u, e) = same_key_lem r s h in cc (d, u, e)

sum_count-upsert :
    (p : Bytes → Bytes → Bytes → Bool) (new : Row) (rows : List Row)
    → new.count ≡ 1
    → sum_count (on_key p) (upsert new rows)
      ≡ sum_count (on_key p) rows + (if on_key p new then 1 else 0)
unfolding sum_count upsert
sum_count-upsert p new [] one = ground arith
sum_count-upsert p new (r ∷ rows) one = elim (Bool-cases (same_key r new)) [
  | inl e ↦ rw e (ground (arith, same_key-on_key p r new e))
  | inr e ↦ rw e (omega (arith, sum_count-upsert p new rows one))
]

sum_count-record_all :
    (p : Bytes → Bytes → Bytes → Bool) (hash : ℤ → Bytes) (cs : List Call) (rows : List Row)
    → sum_count (on_key p) (record_all hash cs rows)
      ≡ sum_count (on_key p) rows + count_if (on_key p) (entries hash cs)
unfolding record_all entries record_event
sum_count-record_all p hash [] rows = omega arith
sum_count-record_all p hash (c ∷ cs) rows = elim (Bool-cases c.exec_fails) [
  | inl e ↦ rw e (sum_count-record_all p hash cs rows)
  | inr e ↦ rw e (
      ground (
        arith,
        sum_count-record_all p hash cs (upsert (new_row hash c) rows),
        sum_count-upsert p (new_row hash c) rows refl,
      ))
]

-- A sum of the counts is a number of calls.
pub sum_count-recorded :
    (p : Bytes → Bytes → Bytes → Bool) (hash : ℤ → Bytes) (cs : List Call)
    → sum_count (on_key p) (record_all hash cs []) ≡ count_if (on_key p) (entries hash cs)
unfolding sum_count
sum_count-recorded p hash cs = omega (arith, sum_count-record_all p hash cs [])

-- No row has the key of another.
abbrev pub Unique : List Row → Type 0
Unique [] = Unit
Unique (r ∷ rows) = All (λ s. same_key r s ≡ false) rows × Unique rows

same_key-sym : (r s : Row) → same_key r s ≡ same_key s r
same_key-sym r s = ground (
  arith,
  eq_bytes_iff r.date s.date,
  eq_bytes_iff r.user_hash s.user_hash,
  eq_bytes_iff r.event s.event,
  eq_bytes_iff s.date r.date,
  eq_bytes_iff s.user_hash r.user_hash,
  eq_bytes_iff s.event r.event,
)

apart-upsert :
    (r new : Row) (rows : List Row)
    → same_key r new ≡ false
    → All (λ s. same_key r s ≡ false) rows
    → All (λ s. same_key r s ≡ false) (upsert new rows)
unfolding upsert
apart-upsert r new [] e h = (e, tt)
apart-upsert r new (s ∷ rows) e h = elim (Bool-cases (same_key s new)) [
  | inl old ↦ rw old h
  | inr other ↦ rw other (h.0, apart-upsert r new rows e h.1)
]

upsert-Unique : (new : Row) (rows : List Row) → Unique rows → Unique (upsert new rows)
unfolding upsert
upsert-Unique new [] h = (tt, tt)
upsert-Unique new (r ∷ rows) h = elim (Bool-cases (same_key r new)) [
  | inl old ↦ rw old h
  | inr other ↦ rw other (apart-upsert r new rows other h.0, upsert-Unique new rows h.1)
]

record_all-Unique :
    (hash : ℤ → Bytes) (cs : List Call) (rows : List Row)
    → Unique rows
    → Unique (record_all hash cs rows)
unfolding record_all record_event
record_all-Unique hash [] rows h = h
record_all-Unique hash (c ∷ cs) rows h =
    record_all-Unique hash cs (record_event hash c rows)
      (ground (arith, upsert-Unique (new_row hash c) rows h))

sum_count-apart :
    (r : Row) (rows : List Row)
    → All (λ s. same_key r s ≡ false) rows
    → sum_count (same_key r) rows ≡ 0
unfolding sum_count
sum_count-apart r [] h = refl
sum_count-apart r (s ∷ rows) h = ground (arith, h.0, sum_count-apart r rows h.1)

-- A row counts for its own key alone.
sum_count-Unique :
    (rows : List Row) → Unique rows → All (λ r. sum_count (same_key r) rows ≡ r.count) rows
unfolding sum_count
sum_count-Unique [] h = tt
sum_count-Unique (r ∷ rows) h = (
  ground (
    arith,
    sum_count-apart r rows h.0,
    eq_bytes_iff r.date r.date,
    eq_bytes_iff r.user_hash r.user_hash,
    eq_bytes_iff r.event r.event,
  ),
  All-map₂ (λ s. same_key r s ≡ false) (λ s. sum_count (same_key s) rows ≡ s.count)
      (λ s. sum_count (same_key s) (r ∷ rows) ≡ s.count)
      (λ s apart sum. ground (arith, apart, sum, same_key-sym r s)) rows h.0
      (sum_count-Unique rows h.1),
)

-- After any calls on an empty table no two rows have one key, and the count of each is the number
-- of the calls with its date, user and event whose statement was carried out.
pub record_all_lem :
    (hash : ℤ → Bytes) (cs : List Call)
    → Unique (record_all hash cs [])
      × All (λ r. r.count ≡ count_if (same_key r) (entries hash cs)) (record_all hash cs [])
record_all_lem hash cs =
    let rows = record_all hash cs [] in
    let unique : Unique rows = record_all-Unique hash cs [] tt in
    let Sums : Row → Type 0 = λ r. sum_count (same_key r) rows ≡ r.count in
    let sums = sum_count-Unique rows unique in
    (
      unique,
      All-map₂ Sums Sums (λ r. r.count ≡ count_if (same_key r) (entries hash cs))
          (λ r sum _.
            sym sum
            ∙ sum_count-recorded
                (λ d u e. (eq_bytes r.date d && eq_bytes r.user_hash u) && eq_bytes r.event e) hash
                cs)
          rows sums sums,
    )
