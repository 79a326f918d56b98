-- ===== src/Storage/Stats/Figures.antt =====
-- COUNT(DISTINCT ...) and GROUP BY: what is collected from the table is what the calls have left.
use x_sticker_bot.Base.{
  ◌≡◌, refl, sym, ap, ◌∙◌, Bool, true, false, ◌&&◌, ◌||◌, List, [], ◌∷◌, arith, if◌then◌else◌,
  Bytes, eq_bytes, eq_bytes_iff, count_if, Bool-cases, inl, inr, length, some,
}
use mathlib.Core.List.{foldl}
use x_sticker_bot.Base.Int.{ℤ}
use x_sticker_bot.Storage.Stats.{
  Row, Call, new_row, same_key, upsert, record_event, mem, add_distinct, distinct_users, Answers,
  total_stats, is_download, event_download_single, event_download_set,
}
use x_sticker_bot.Storage.Stats.Table.{
  record_all, entries, on_key, same_key-on_key, sum_count-recorded,
}

-- Whether a row passes a test.
unfoldable pub any_row : (Row → Bool) → List Row → Bool
any_row p [] = false
any_row p (r ∷ rows) = p r || any_row p rows

module _ (add : Bytes → List Bytes → List Bytes)
    (mem-add : (x y : Bytes) (xs : List Bytes) → mem x (add y xs) ≡ (eq_bytes y x || mem x xs))
    (add-old : (x : Bytes) (xs : List Bytes) → mem x xs ≡ true → add x xs ≡ xs)
    (p : Bytes → Bytes → Bytes → Bool) (column : Bytes → Bytes → Bytes → Bytes) where
  abbrev pub collect_row : List Bytes → Row → List Bytes
  collect_row xs r = if on_key p r then add (on_key column r) xs else xs

  abbrev pub collect : List Bytes → List Row → List Bytes
  collect acc rows = foldl collect_row acc rows

  pub mem-collect :
      (x : Bytes) (rows : List Row) (acc : List Bytes)
      → mem x (collect acc rows)
        ≡ (mem x acc || any_row (λ r. on_key p r && eq_bytes (on_key column r) x) rows)
  unfolding any_row
  mem-collect x [] acc = ground arith
  mem-collect x (r ∷ rows) acc =
      ground (arith, mem-collect x rows (collect_row acc r), mem-add x (on_key column r) acc)

  -- What is collected already is not collected again.
  collect_again :
      (x : Bytes) (rows : List Row) (acc : List Bytes)
      → mem x acc ≡ true
      → add x (collect acc rows) ≡ collect acc rows
  collect_again x rows acc h = add-old x (collect acc rows) (ground (arith, mem-collect x rows acc))

  collect_same :
      (r new : Row) (rows : List Row) (acc : List Bytes)
      → on_key p r ≡ on_key p new
      → on_key column r ≡ on_key column new
      → collect acc (r ∷ rows) ≡ collect_row (collect acc (r ∷ rows)) new
  collect_same r new rows acc test value = elim (Bool-cases (on_key p new)) [
    | inl passes ↦
        let there : mem (on_key column new) (collect_row acc r) ≡ true = ground (
          arith,
          mem-add (on_key column new) (on_key column r) acc,
          eq_bytes_iff (on_key column r) (on_key column new),
        ) in
        rw passes (sym (collect_again (on_key column new) rows (collect_row acc r) there))
    | inr fails ↦ rw fails refl
  ]

  collect-upsert :
      (new : Row) (rows : List Row) (acc : List Bytes)
      → collect acc (upsert new rows) ≡ collect_row (collect acc rows) new
  unfolding upsert
  collect-upsert new [] acc = refl
  collect-upsert new (r ∷ rows) acc = elim (Bool-cases (same_key r new)) [
    | inl old ↦ rw old (
        collect_same r new rows acc (same_key-on_key p r new old)
          (same_key-on_key column r new old))
    | inr other ↦ rw other (collect-upsert new rows (collect_row acc r))
  ]

  pub collect-record_all :
      (hash : ℤ → Bytes) (cs : List Call) (rows : List Row)
      → collect [] (record_all hash cs rows) ≡ collect (collect [] rows) (entries hash cs)
  unfolding record_all entries record_event
  collect-record_all hash [] rows = refl
  collect-record_all hash (c ∷ cs) rows = elim (Bool-cases c.exec_fails) [
    | inl e ↦ rw e (collect-record_all hash cs rows)
    | inr e ↦ rw e (
        collect-record_all hash cs (upsert (new_row hash c) rows)
        ∙ ap (λ acc. collect acc (entries hash cs)) (collect-upsert (new_row hash c) rows []))
  ]

-- No text twice.
abbrev pub Distinct : List Bytes → Type 0
Distinct [] = Unit
Distinct (x ∷ xs) = (mem x xs ≡ false) × Distinct xs

mem-add_distinct :
    (x y : Bytes) (xs : List Bytes) → mem x (add_distinct y xs) ≡ (eq_bytes y x || mem x xs)
unfolding add_distinct mem
mem-add_distinct x y xs = elim (Bool-cases (mem y xs)) [
  | inl old ↦ rw old (ground (arith, eq_bytes_iff y x))
  | inr new ↦ rw new refl
]

add_distinct-old : (x : Bytes) (xs : List Bytes) → mem x xs ≡ true → add_distinct x xs ≡ xs
unfolding add_distinct
add_distinct-old x xs h = rw h refl

module _ (p : Bytes → Bytes → Bytes → Bool) where
  -- The users of the rows that pass the test, each once.
  abbrev pub users_of : List Row → List Bytes
  users_of rows = foldl (λ xs r. if on_key p r then add_distinct r.user_hash xs else xs) [] rows

  pub foldl-Distinct :
      (rows : List Row) (acc : List Bytes)
      → Distinct acc
      → Distinct (foldl (λ xs r. if on_key p r then add_distinct r.user_hash xs else xs) acc rows)
  unfolding add_distinct
  foldl-Distinct [] acc h = h
  foldl-Distinct (r ∷ rows) acc h =
      foldl-Distinct rows (if on_key p r then add_distinct r.user_hash acc else acc) (ground arith)

  pub mem-users_of :
      (u : Bytes) (rows : List Row)
      → mem u (users_of rows) ≡ any_row (λ r. on_key p r && eq_bytes r.user_hash u) rows
  unfolding mem
  mem-users_of u rows =
      mem-collect add_distinct mem-add_distinct add_distinct-old p (λ d h e. h) u rows []

  pub distinct_users-record_all :
      (hash : ℤ → Bytes) (cs : List Call)
      → distinct_users (on_key p) (record_all hash cs []) ≡ length (users_of (entries hash cs))
  unfolding distinct_users
  distinct_users-record_all hash cs =
      ap length (
        collect-record_all add_distinct mem-add_distinct add_distinct-old p (λ d h e. h) hash cs [])

-- TotalStats counts each user once, and every download.
pub total_stats_lem :
    (a : Answers) (hash : ℤ → Bytes) (cs : List Call)
    → a.total_query_fails ≡ false
    → (users : List Bytes) × Distinct users
      × ((u : Bytes) → mem u users ≡ any_row (λ r. eq_bytes r.user_hash u) (entries hash cs))
      × (total_stats a (record_all hash cs [])
          ≡ some (length users, count_if is_download (entries hash cs)))
unfolding total_stats is_download
total_stats_lem a hash cs answered =
    let all : Bytes → Bytes → Bytes → Bool = λ d h e. true in
    let download : Bytes → Bytes → Bytes → Bool =
      λ d h e. eq_bytes e event_download_single || eq_bytes e event_download_set in
    (
      users_of all (entries hash cs),
      foldl-Distinct all (entries hash cs) [] tt,
      λ u. mem-users_of all u (entries hash cs),
      rw (answered, distinct_users-record_all all hash cs, sum_count-recorded download hash cs)
          refl,
    )
