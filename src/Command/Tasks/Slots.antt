-- ===== src/Command/Tasks/Slots.antt =====
-- The slots of the channel and the entries of the map belong to the goroutines that hold them.
use x_sticker_bot.Base.{
  ℕ, ◌+◌, ◌≤◌, ◌≡◌, refl, sym, inl, inr, Bool, true, false, some, List, [], ◌∷◌, map, arith, ◌==◌,
  if◌then◌else◌, is_some, get_elem?, sum_by, sum_by-set, lookup, nat_eq, lookup-insert,
  lookup-erase, Option-cases,
}
use x_sticker_bot.Command.Tasks.{
  Phase, arrived, user_busy, claimed, backing_out, server_busy, running, leaving, releasing,
  finished, Thread, System, goto, act, step, run, start,
}

-- 1 for a goroutine with an element of its own in GlobalSem.
abbrev pub slot : Thread → ℕ
slot th = elim th.phase [ running ↦ 1 | leaving ↦ 1 | releasing ↦ 1 | _ ↦ 0 ]

abbrev pub in_task : Phase → ℕ
in_task claimed = 1
in_task backing_out = 1
in_task running = 1
in_task leaving = 1
in_task _ = 0

-- 1 for a goroutine that holds the entry of user `u` in userTasks.
abbrev pub claim : ℕ → Thread → ℕ
claim u th = if th.uid == u then in_task th.phase else 0

abbrev pub present : Bool → ℕ
present true = 1
present false = 0

pub record Inv (s : System) : Type 0 where
  pub slots : s.sem ≡ sum_by slot s.threads
  pub within : s.sem ≤ s.capacity
  pub claims : (u : ℕ) → sum_by (claim u) s.threads ≡ present (is_some (lookup u s.user_tasks))

-- What changes when goroutine `i` of user `u` goes from one phase to another.
module _ (s : System) (i u : ℕ) (p : Phase)
    (at : get_elem? s.threads i ≡ some (record { uid = u; phase = p })) where
  slots-goto :
      (q : Phase)
      → sum_by slot (goto s i u q).threads + slot (record { uid = u; phase = p })
        ≡ sum_by slot s.threads + slot (record { uid = u; phase = q })
  slots-goto q = sum_by-set slot s.threads i _ _ at

  claims-goto :
      (q : Phase) (v : ℕ)
      → sum_by (claim v) (goto s i u q).threads + claim v (record { uid = u; phase = p })
        ≡ sum_by (claim v) s.threads + claim v (record { uid = u; phase = q })
  claims-goto q v = sum_by-set (claim v) s.threads i _ _ at

act-Inv :
    (p : Phase) (s : System) (i u : ℕ)
    → Inv s
    → get_elem? s.threads i ≡ some (record { uid = u; phase = p })
    → Inv (act p s i u)
unfolding act
act-Inv arrived s i u inv at = elim (Option-cases (lookup u s.user_tasks)) [
  | inl free ↦
      rw (free, act)
        (record {
          slots = omega (arith, slots-goto s i u arrived at claimed, inv.slots);
          within = inv.within;
          claims = λ v. ground (
            arith,
            inv.claims v,
            claims-goto s i u arrived at claimed v,
            lookup-insert u v true s.user_tasks,
          );
        })
  | inr (b, taken) ↦
      rw (taken, act)
        (record {
          slots = omega (arith, slots-goto s i u arrived at user_busy, inv.slots);
          within = inv.within;
          claims = λ v. ground (arith, inv.claims v, claims-goto s i u arrived at user_busy v);
        })
]
act-Inv claimed s i u inv at = record {
  slots = ground (
    arith,
    slots-goto s i u claimed at running,
    slots-goto s i u claimed at backing_out,
    inv.slots,
  );
  within = ground (arith, inv.within);
  claims = λ v. ground (
    arith,
    inv.claims v,
    claims-goto s i u claimed at running v,
    claims-goto s i u claimed at backing_out v,
  );
}
act-Inv backing_out s i u inv at = record {
  slots = ground (arith, slots-goto s i u backing_out at server_busy, inv.slots);
  within = inv.within;
  claims = λ v. ground (
    arith,
    inv.claims v,
    claims-goto s i u backing_out at server_busy v,
    lookup-erase u v s.user_tasks,
  );
}
act-Inv running s i u inv at = record {
  slots = ground (arith, slots-goto s i u running at leaving, inv.slots);
  within = inv.within;
  claims = λ v. ground (arith, inv.claims v, claims-goto s i u running at leaving v);
}
act-Inv leaving s i u inv at = record {
  slots = ground (arith, slots-goto s i u leaving at releasing, inv.slots);
  within = inv.within;
  claims = λ v. ground (
    arith,
    inv.claims v,
    claims-goto s i u leaving at releasing v,
    lookup-erase u v s.user_tasks,
  );
}
act-Inv releasing s i u inv at = record {
  slots = ground (arith, slots-goto s i u releasing at finished, inv.slots);
  within = ground (arith, inv.within);
  claims = λ v. ground (arith, inv.claims v, claims-goto s i u releasing at finished v);
}
act-Inv user_busy s i u inv at = inv
act-Inv server_busy s i u inv at = inv
act-Inv finished s i u inv at = inv

pub step-Inv : (s : System) (i : ℕ) → Inv s → Inv (step s i)
unfolding step
step-Inv s i inv = elim (Option-cases (get_elem? s.threads i)) [
  | inl out ↦ rw (out, step) inv
  | inr (th, at) ↦ rw (at, step) (act-Inv th.phase s i th.uid inv at)
]

pub run-Inv : (s : System) (is : List ℕ) → Inv s → Inv (run s is)
unfolding run
run-Inv s [] inv = inv
run-Inv s (i ∷ is) inv = run-Inv (step s i) is (step-Inv s i inv)

abbrev arrive : ℕ → Thread
arrive u = record { uid = u; phase = arrived }

no_slots : (uids : List ℕ) → sum_by slot (map arrive uids) ≡ 0
no_slots [] = refl
no_slots (u ∷ us) = omega (arith, no_slots us)

no_claims : (v : ℕ) (uids : List ℕ) → sum_by (claim v) (map arrive uids) ≡ 0
no_claims v [] = refl
no_claims v (u ∷ us) = ground (arith, no_claims v us)

pub start-Inv : (uids : List ℕ) → Inv (start uids)
unfolding start lookup
start-Inv uids = record {
  slots = sym (no_slots uids);
  within = omega arith;
  claims = λ u. no_claims u uids;
}
