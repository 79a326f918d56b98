-- ===== src/Command/Tasks/Progress.antt =====
-- What the slots guarantee for every schedule of the goroutines: limits and cleanup.
use x_sticker_bot.Base.{
  ℕ, zero, suc, ◌+◌, ◌≤◌, ◌≡◌, ◌≢◌, refl, sym, ◌∙◌, Bool, true, false, Option, none, some, List, [],
  ◌∷◌, arith, is_some, get_elem?, sum_by, count_if, All, lookup, nat_eq,
}
use x_sticker_bot.Command.Tasks.{
  Phase, arrived, user_busy, server_busy, running, finished, Thread, System, act, step, run, start,
  active_tasks, max_global_tasks,
}
use x_sticker_bot.Command.Tasks.Slots.{slot, in_task, claim, present, run-Inv, start-Inv}

abbrev pub is_running : Thread → Bool
is_running th = elim th.phase [ running ↦ true | _ ↦ false ]

running-le-slot :
    (p : Phase) (u : ℕ)
    → count_if is_running (record { uid = u; phase = p } ∷ [])
      ≤ slot (record { uid = u; phase = p })
running-le-slot running u = omega arith
running-le-slot p u = omega arith

count_running-le : (ths : List Thread) → count_if is_running ths ≤ sum_by slot ths
count_running-le [] = omega arith
count_running-le (th ∷ ths) = ground (arith, running-le-slot th.phase th.uid, count_running-le ths)

capacity-act : (p : Phase) (s : System) (i u : ℕ) → (act p s i u).capacity ≡ s.capacity
unfolding act
capacity-act arrived s i u = ground arith
capacity-act p s i u = ground arith

capacity-run : (s : System) (is : List ℕ) → (run s is).capacity ≡ s.capacity
unfolding run step
capacity-run s [] = refl
capacity-run s (i ∷ is) = capacity-run (step s i) is ∙ one (get_elem? s.threads i) refl
  where
    one : (o : Option Thread) → get_elem? s.threads i ≡ o → (step s i).capacity ≡ s.capacity
    one none e = rw (e, step)
    one (some th) e = rw (e, step) (capacity-act th.phase s i th.uid)

-- Whatever users send updates and however their goroutines are scheduled, at most 20 tasks run at
-- once, and the dashboard's active count is at least the number running and at most its capacity,
-- 20.
pub running_bounded :
    (uids is : List ℕ)
    → let s = run (start uids) is in
      (count_if is_running s.threads ≤ max_global_tasks)
      × (count_if is_running s.threads ≤ (active_tasks s).0)
      × ((active_tasks s).0 ≤ (active_tasks s).1)
      × ((active_tasks s).1 ≡ max_global_tasks)
unfolding active_tasks start
running_bounded uids is =
    let s = run (start uids) is in
    let inv = run-Inv (start uids) is (start-Inv uids) in
    let cap = capacity-run (start uids) is in
    let le = count_running-le s.threads in
    (omega (arith, inv.slots, inv.within, cap, le), omega (arith, inv.slots, le), inv.within, cap)

pub sum_by-one {ℓ} :
    {A : Type ℓ} (f : A → ℕ) (xs : List A) (i : ℕ) (x : A)
    → get_elem? xs i ≡ some x
    → f x ≤ sum_by f xs
sum_by-one f [] i x e = cc
sum_by-one f (z ∷ xs) zero x e = ground arith
sum_by-one f (z ∷ xs) (suc i) x e = omega (arith, sum_by-one f xs i x e)

sum_by-two {ℓ} :
    {A : Type ℓ} (f : A → ℕ) (xs : List A) (i j : ℕ) (x y : A)
    → i ≢ j
    → get_elem? xs i ≡ some x
    → get_elem? xs j ≡ some y
    → f x + f y ≤ sum_by f xs
sum_by-two f [] i j x y ne ei ej = cc
sum_by-two f (z ∷ xs) zero zero x y ne ei ej = absurd (ne refl)
sum_by-two f (z ∷ xs) zero (suc j) x y ne ei ej = ground (arith, sum_by-one f xs j y ej)
sum_by-two f (z ∷ xs) (suc i) zero x y ne ei ej = ground (arith, sum_by-one f xs i x ei)
sum_by-two f (z ∷ xs) (suc i) (suc j) x y ne ei ej =
    omega (arith, sum_by-two f xs i j x y (λ e. ne (omega arith)) ei ej)

-- Two different goroutines of one user are never both between the claim of the user's entry and
-- its deletion; so no user has two tasks running.
pub one_task_per_user :
    (uids is : List ℕ) (i j : ℕ) (a b : Thread)
    → i ≢ j
    → get_elem? (run (start uids) is).threads i ≡ some a
    → get_elem? (run (start uids) is).threads j ≡ some b
    → a.uid ≡ b.uid
    → in_task a.phase + in_task b.phase ≤ 1
one_task_per_user uids is i j a b ne ea eb same =
    let s = run (start uids) is in
    let inv = run-Inv (start uids) is (start-Inv uids) in
    ground (arith, inv.claims a.uid, sum_by-two (claim a.uid) s.threads i j a b ne ea eb)

-- Whether tryRunTask has returned.
abbrev pub returned : Phase → Bool
returned user_busy = true
returned server_busy = true
returned finished = true
returned _ = false

returned-slot : (u : ℕ) (p : Phase) → returned p ≡ true → slot (record { uid = u; phase = p }) ≡ 0
returned-slot u arrived h = ground arith
returned-slot u p h = ground arith

returned-claim :
    (v u : ℕ) (p : Phase) → returned p ≡ true → claim v (record { uid = u; phase = p }) ≡ 0
returned-claim v u arrived h = ground arith
returned-claim v u p h = ground arith

sum_by-zero {ℓ} :
    {A : Type ℓ} (P : A → Type 0) (f : A → ℕ) (xs : List A)
    → ((a : A) → P a → f a ≡ 0)
    → All P xs
    → sum_by f xs ≡ 0
sum_by-zero P f [] z h = refl
sum_by-zero P f (x ∷ xs) z h = omega (arith, z x h.0, sum_by-zero P f xs z h.1)

-- When every goroutine has returned, every slot is free again and no user is marked as busy.
pub run_releases :
    (uids is : List ℕ)
    → All (λ th. returned th.phase ≡ true) (run (start uids) is).threads
    → ((run (start uids) is).sem ≡ 0) × ((u : ℕ) → lookup u (run (start uids) is).user_tasks ≡ none)
run_releases uids is done =
    let s = run (start uids) is in
    let inv = run-Inv (start uids) is (start-Inv uids) in
    (
      omega (
        arith,
        inv.slots,
        sum_by-zero (λ th. returned th.phase ≡ true) slot s.threads
            (λ th. returned-slot th.uid th.phase) done,
      ),
      λ u. free u (lookup u s.user_tasks) (
          sym (inv.claims u)
          ∙ sum_by-zero (λ th. returned th.phase ≡ true) (claim u) s.threads
              (λ th. returned-claim u th.uid th.phase) done),
    )
  where
    free : (u : ℕ) (o : Option Bool) → present (is_some o) ≡ 0 → o ≡ none
    free u none e = refl
    free u (some b) e = absurd (omega arith)
