-- ===== src/Command/Sets/Waiting.antt =====
-- wg.Wait() of downloadStickerSet returns: the goroutines cannot block one another for ever.
use x_sticker_bot.Base.{
  ℕ, zero, suc, ◌+◌, ◌*◌, ◌≤◌, ◌<◌, ◌≡◌, ◌⊎◌, refl, ◌∙◌, Bool, true, false, ◌||◌, some, List, [],
  ◌∷◌, arith, leb, ltb, ◌==◌, length, get_elem?, replicate, Bytes, All, sum_by, sum_by-set,
  Bool-cases, Option-cases, inl, inr,
}
use x_sticker_bot.Base.FilePath.{AbsPath}
use x_sticker_bot.Telegram.{Sticker}
use x_sticker_bot.Storage.Temp.{Fs}
use x_sticker_bot.Command.Services.{Services}
use x_sticker_bot.Command.Sets.{
  Worker, waiting, fetching, converting, storing, counting, showing, leaving, finished, Crew,
  start_crew, member_name, throttled, act, step, run, parallelism,
}
use x_sticker_bot.Command.Sets.Counts.{
  at_work, Inv, step-Inv, start-Inv, has_finished, Finished, finished-counted, crew, crew-Inv,
}

-- Whether a worker is neither done nor blocked at the channel.
abbrev pub can_act : Crew → Worker → Bool
can_act c waiting = ltb c.sem parallelism
can_act c (finished kept) = false
can_act c _ = true

-- The actions that a worker still makes.
abbrev pub rank : Worker → ℕ
rank waiting = 7
rank fetching = 6
rank (converting fp) = 5
rank (storing fp cf) = 4
rank (counting kept) = 3
rank (showing kept) = 2
rank (leaving kept) = 1
rank (finished kept) = 0

module _ (s : Services) (set_id : Bytes) (dir : AbsPath) (total : ℕ) where
  act-rank :
      (w : Worker) (c : Crew) (i : ℕ) (st : Sticker) (now : ℕ)
      → get_elem? c.workers i ≡ some w
      → can_act c w ≡ true
      → sum_by rank (act s set_id dir total w c i st now).workers < sum_by rank c.workers
  unfolding act throttled
  act-rank waiting c i st now at able =
      rw (able, act) (omega (arith, sum_by-set rank c.workers i waiting fetching at))
  act-rank fetching c i st now at able =
      elim (Option-cases (s.fetch c.fs st.file_id dir (member_name set_id i)).0) [
        | inl e ↦
            rw (e, act) (omega (arith, sum_by-set rank c.workers i fetching (counting false) at))
        | inr (fp, e) ↦
            rw (e, act) (omega (arith, sum_by-set rank c.workers i fetching (converting fp) at))
      ]
  act-rank (converting fp) c i st now at able =
      omega (arith, sum_by-set rank c.workers i (converting fp) (storing fp _) at)
  act-rank (storing fp cf) c i st now at able =
      omega (arith, sum_by-set rank c.workers i (storing fp cf) (counting true) at)
  act-rank (counting kept) c i st now at able =
      omega (arith, sum_by-set rank c.workers i (counting kept) (showing kept) at)
  act-rank (showing kept) c i st now at able =
      elim (Bool-cases ((c.completed == total) || leb (c.last + 2000) now)) [
        | inl e ↦
            rw (e, act)
              (omega (arith, sum_by-set rank c.workers i (showing kept) (leaving kept) at))
        | inr e ↦
            rw (e, act)
              (omega (arith, sum_by-set rank c.workers i (showing kept) (leaving kept) at))
      ]
  act-rank (leaving kept) c i st now at able =
      omega (arith, sum_by-set rank c.workers i (leaving kept) (finished kept) at)
  act-rank (finished kept) c i st now at able = cc

-- The two lists have an element at the same places.
get_elem?_both {ℓ κ} :
    {A : Type ℓ} {B : Type κ} (xs : List A) (ys : List B) (i : ℕ) (x : A)
    → length xs ≡ length ys
    → get_elem? xs i ≡ some x
    → (y : B) × (get_elem? ys i ≡ some y)
get_elem?_both [] ys i x l e = absurd (cc e)
get_elem?_both (z ∷ xs) [] i x l e = absurd (omega (arith, l))
get_elem?_both (z ∷ xs) (y ∷ ys) zero x l e = (y, refl)
get_elem?_both (z ∷ xs) (y ∷ ys) (suc i) x l e = get_elem?_both xs ys i x (omega (arith, l)) e

module _ (s : Services) (set_id : Bytes) (dir : AbsPath) (stickers : List Sticker) where
  -- A schedule that picks only goroutines that can act.
  abbrev pub Moves : Crew → List (ℕ × ℕ) → Type 0
  Moves c [] = Unit
  Moves c ((i, now) ∷ es) =
      ((w : Worker) × (get_elem? c.workers i ≡ some w) × (can_act c w ≡ true))
      × Moves (step s set_id dir (length stickers) stickers c (i, now)) es

  step-rank :
      (c : Crew) (i now : ℕ) (w : Worker)
      → Inv (length stickers) c
      → get_elem? c.workers i ≡ some w
      → can_act c w ≡ true
      → sum_by rank (step s set_id dir (length stickers) stickers c (i, now)).workers
        < sum_by rank c.workers
  unfolding step
  step-rank c i now w inv at able =
      let (st, there) = get_elem?_both c.workers stickers i w inv.members at in
      rw (at, there, step) (act-rank s set_id dir (length stickers) w c i st now at able)

  run-rank :
      (c : Crew) (schedule : List (ℕ × ℕ))
      → Inv (length stickers) c
      → Moves c schedule
      → length schedule
          + sum_by rank (run s set_id dir (length stickers) stickers c schedule).workers
        ≤ sum_by rank c.workers
  unfolding run
  run-rank c [] inv m = omega arith
  run-rank c ((i, now) ∷ es) inv ((w, at, able), m) =
      let c' = step s set_id dir (length stickers) stickers c (i, now) in
      omega (
        arith,
        step-rank c i now w inv at able,
        run-rank c' es (step-Inv s set_id dir (length stickers) stickers c i now inv) m,
      )

rank-replicate : (n : ℕ) → sum_by rank (replicate n waiting) ≡ 7 * n
rank-replicate zero = refl
rank-replicate (suc n) = omega (arith, rank-replicate n)

-- One that is behind the channel and not done.
abbrev moving : Worker → Bool
moving waiting = false
moving (finished kept) = false
moving _ = true

abbrev Found : (Worker → Bool) → List Worker → Type 0
Found p ws = (i : ℕ) × (w : Worker) × (get_elem? ws i ≡ some w) × (p w ≡ true)

Found-later : (p : Worker → Bool) (v : Worker) (ws : List Worker) → Found p ws → Found p (v ∷ ws)
Found-later p v ws (i, w, at, h) = (suc i, w, at, h)

abbrev is_waiting : Worker → Bool
is_waiting waiting = true
is_waiting _ = false

-- All are done, or one is behind the channel, or one waits before an empty channel.
abbrev Outlook : List Worker → Type 0
Outlook ws =
    All (λ w. has_finished w ≡ true) ws
    ⊎ (Found moving ws ⊎ (Found is_waiting ws × (sum_by at_work ws ≡ 0)))

Outlook-finished : (kept : Bool) (ws : List Worker) → Outlook ws → Outlook (finished kept ∷ ws)
Outlook-finished kept ws (inl h) = inl (refl, h)
Outlook-finished kept ws (inr (inl f)) = inr (inl (Found-later moving (finished kept) ws f))
Outlook-finished kept ws (inr (inr (f, e))) =
    inr (inr (Found-later is_waiting (finished kept) ws f, omega (arith, e)))

Outlook-waiting : (ws : List Worker) → Outlook ws → Outlook (waiting ∷ ws)
Outlook-waiting ws (inl h) =
    inr (inr ((0, waiting, refl, refl), omega (arith, (finished-counted ws h).1)))
Outlook-waiting ws (inr (inl f)) = inr (inl (Found-later moving waiting ws f))
Outlook-waiting ws (inr (inr (f, e))) = inr (inr ((0, waiting, refl, refl), omega (arith, e)))

outlook : (ws : List Worker) → Outlook ws
outlook [] = inl tt
outlook (waiting ∷ ws) = Outlook-waiting ws (outlook ws)
outlook (finished kept ∷ ws) = Outlook-finished kept ws (outlook ws)
outlook (fetching ∷ ws) = inr (inl (0, fetching, refl, refl))
outlook (converting fp ∷ ws) = inr (inl (0, converting fp, refl, refl))
outlook (storing fp cf ∷ ws) = inr (inl (0, storing fp cf, refl, refl))
outlook (counting kept ∷ ws) = inr (inl (0, counting kept, refl, refl))
outlook (showing kept ∷ ws) = inr (inl (0, showing kept, refl, refl))
outlook (leaving kept ∷ ws) = inr (inl (0, leaving kept, refl, refl))

moving_acts : (c : Crew) (w : Worker) → moving w ≡ true → can_act c w ≡ true
moving_acts c waiting h = absurd (cc h)
moving_acts c (finished kept) h = absurd (cc h)
moving_acts c fetching h = refl
moving_acts c (converting fp) h = refl
moving_acts c (storing fp cf) h = refl
moving_acts c (counting kept) h = refl
moving_acts c (showing kept) h = refl
moving_acts c (leaving kept) h = refl

waiting_acts : (c : Crew) (w : Worker) → c.sem ≡ 0 → is_waiting w ≡ true → can_act c w ≡ true
waiting_acts c waiting e h = ground arith
waiting_acts c (finished kept) e h = absurd (cc h)
waiting_acts c fetching e h = refl
waiting_acts c (converting fp) e h = refl
waiting_acts c (storing fp cf) e h = refl
waiting_acts c (counting kept) e h = refl
waiting_acts c (showing kept) e h = refl
waiting_acts c (leaving kept) e h = refl

-- A schedule of a set that picks only goroutines that can act makes at most 7 actions for each
-- sticker, and unless all goroutines are done after it, one of them can act: wg.Wait() returns.
pub crew_returns :
    (s : Services) (set_id : Bytes) (dir : AbsPath) (fs : Fs) (stickers : List Sticker)
    (schedule : List (ℕ × ℕ))
    → Moves s set_id dir stickers (start_crew fs (length stickers)) schedule
    → (length schedule ≤ 7 * length stickers)
      × (Finished (crew s set_id dir fs stickers schedule)
          ⊎ ((i : ℕ) × (w : Worker) × (get_elem? (crew s set_id dir fs stickers schedule).workers i
                ≡ some w)
              × (can_act (crew s set_id dir fs stickers schedule) w ≡ true)))
crew_returns s set_id dir fs stickers schedule m =
    let start = start_crew fs (length stickers) in
    let c = crew s set_id dir fs stickers schedule in
    let inv = crew-Inv s set_id dir fs stickers schedule in
    (
      omega (
        arith,
        run-rank s set_id dir stickers start schedule (start-Inv fs (length stickers)) m,
        rank-replicate (length stickers),
      ),
      elim (outlook c.workers) [
        | inl h ↦ inl h
        | inr (inl (i, w, at, h)) ↦ inr (i, w, at, moving_acts c w h)
        | inr (inr ((i, w, at, h), e)) ↦ inr (i, w, at, waiting_acts c w (inv.slots ∙ e) h)
      ],
    )
