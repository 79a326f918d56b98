-- ===== src/Command/Tasks/Termination.antt =====
-- Every schedule of tryRunTask ends.
use x_sticker_bot.Base.{
  ℕ, ◌+◌, ◌*◌, ◌≤◌, ◌<◌, ◌≡◌, refl, false, some, List, [], ◌∷◌, arith, length, get_elem?, sum_by,
  sum_by-set, nat_eq,
}
use x_sticker_bot.Command.Tasks.{
  Phase, arrived, user_busy, claimed, backing_out, server_busy, running, leaving, releasing,
  finished, Thread, System, act, step, run, start,
}
use x_sticker_bot.Command.Tasks.Slots.{slot, Inv, step-Inv, start-Inv}
use x_sticker_bot.Command.Tasks.Progress.{returned, sum_by-one}

-- The most actions that a goroutine still makes.
abbrev pub rank : Thread → ℕ
rank th = elim th.phase [
  | arrived ↦ 5
  | claimed ↦ 4
  | running ↦ 3
  | leaving ↦ 2
  | releasing ↦ 1
  | backing_out ↦ 1
  | _ ↦ 0
]

act-rank :
    (p : Phase) (s : System) (i u : ℕ)
    → Inv s
    → get_elem? s.threads i ≡ some (record { uid = u; phase = p })
    → returned p ≡ false
    → sum_by rank (act p s i u).threads < sum_by rank s.threads
unfolding act
act-rank arrived s i u inv at h = ground (
  arith,
  sum_by-set rank s.threads i (record { uid = u; phase = arrived })
      (record { uid = u; phase = claimed }) at,
  sum_by-set rank s.threads i (record { uid = u; phase = arrived })
      (record { uid = u; phase = user_busy }) at,
)
act-rank claimed s i u inv at h = ground (
  arith,
  sum_by-set rank s.threads i (record { uid = u; phase = claimed })
      (record { uid = u; phase = running }) at,
  sum_by-set rank s.threads i (record { uid = u; phase = claimed })
      (record { uid = u; phase = backing_out }) at,
)
act-rank backing_out s i u inv at h = ground (
  arith,
  sum_by-set rank s.threads i (record { uid = u; phase = backing_out })
      (record { uid = u; phase = server_busy }) at,
)
act-rank running s i u inv at h = ground (
  arith,
  sum_by-set rank s.threads i (record { uid = u; phase = running })
      (record { uid = u; phase = leaving }) at,
)
act-rank leaving s i u inv at h = ground (
  arith,
  sum_by-set rank s.threads i (record { uid = u; phase = leaving })
      (record { uid = u; phase = releasing }) at,
)
act-rank releasing s i u inv at h = ground (
  arith,
  inv.slots,
  sum_by-one slot s.threads i (record { uid = u; phase = releasing }) at,
  sum_by-set rank s.threads i (record { uid = u; phase = releasing })
      (record { uid = u; phase = finished }) at,
)
act-rank user_busy s i u inv at h = cc
act-rank server_busy s i u inv at h = cc
act-rank finished s i u inv at h = cc

-- A schedule that picks only goroutines that have not returned.
abbrev pub Busy : System → List ℕ → Type 0
Busy s [] = Unit
Busy s (i ∷ is) =
    ((th : Thread) × (get_elem? s.threads i ≡ some th) × (returned th.phase ≡ false))
    × Busy (step s i) is

run-rank :
    (s : System) (is : List ℕ)
    → Inv s
    → Busy s is
    → length is + sum_by rank (run s is).threads ≤ sum_by rank s.threads
unfolding run step
run-rank s [] inv b = omega arith
run-rank s (i ∷ is) inv ((th, at, go), b) =
    omega (arith, run-rank (step s i) is (step-Inv s i inv) b, one)
  where
    one : sum_by rank (step s i).threads < sum_by rank s.threads
    one = rw (at, step) (act-rank th.phase s i th.uid inv at go)

rank-start : (uids : List ℕ) → sum_by rank (start uids).threads ≡ 5 * length uids
unfolding start
rank-start [] = refl
rank-start (u ∷ us) = omega (arith, rank-start us)

-- With `n` updates, a schedule that picks only goroutines that have not returned has at most `5 n`
-- actions: no goroutine waits for ever for a slot to be taken back.
pub run_terminates : (uids is : List ℕ) → Busy (start uids) is → length is ≤ 5 * length uids
run_terminates uids is b =
    omega (arith, run-rank (start uids) is (start-Inv uids) b, rank-start uids)
