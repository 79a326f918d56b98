-- ===== src/Command/Sets/Counts.antt =====
-- The counters of downloadStickerSet under any schedule of its goroutines.
use x_sticker_bot.Base.{
  ℕ, zero, suc, ◌+◌, ◌≤◌, ◌≡◌, refl, ap, sym, ◌∙◌, Bool, true, false, ◌||◌, some, List, [], ◌∷◌,
  arith, leb, ltb, ◌==◌, length, set, get_elem?, replicate, Bytes, All, sum_by, sum_by-set,
  length-set, length-append, length-replicate, Bool-cases, Option-cases, inl, inr,
}
use x_sticker_bot.Base.FilePath.{AbsPath}
use x_sticker_bot.Telegram.{Sticker}
use x_sticker_bot.Storage.Temp.{Fs}
use x_sticker_bot.Command.Services.{Services}
use x_sticker_bot.Command.Sets.{
  Worker, waiting, fetching, converting, storing, counting, showing, leaving, finished, Crew,
  start_crew, member_name, throttled, act, step, run, parallelism,
}

-- 1 for a worker with an element in the channel.
abbrev pub at_work : Worker → ℕ
at_work waiting = 0
at_work (finished kept) = 0
at_work _ = 1

-- 1 for a worker that has counted itself.
abbrev pub counted : Worker → ℕ
counted (showing kept) = 1
counted (leaving kept) = 1
counted (finished kept) = 1
counted _ = 0

abbrev pub bit : Bool → ℕ
bit true = 1
bit false = 0

-- 1 for a worker whose files are in the lists.
abbrev pub stored : Worker → ℕ
stored (counting kept) = bit kept
stored (showing kept) = bit kept
stored (leaving kept) = bit kept
stored (finished kept) = bit kept
stored _ = 0

pub record Inv (total : ℕ) (c : Crew) : Type 0 where
  pub slots : c.sem ≡ sum_by at_work c.workers
  pub bounded : c.sem ≤ 4
  pub counts : c.completed ≡ sum_by counted c.workers
  pub originals : length c.original_files ≡ sum_by stored c.workers
  pub conversions : length c.converted_files ≡ sum_by stored c.workers
  pub members : length c.workers ≡ total

-- A worker goes on, and the counters with it.
put-Inv :
    (total : ℕ) (c c' : Crew) (i : ℕ) (w w' : Worker)
    → get_elem? c.workers i ≡ some w
    → c'.workers ≡ set c.workers i w'
    → Inv total c
    → c'.sem + at_work w ≡ c.sem + at_work w'
    → c'.sem ≤ 4
    → c'.completed + counted w ≡ c.completed + counted w'
    → length c'.original_files + stored w ≡ length c.original_files + stored w'
    → length c'.converted_files + stored w ≡ length c.converted_files + stored w'
    → Inv total c'
put-Inv total c c' i w w' at moved inv sem bound done files files' = record {
  slots = ground (arith, sem, inv.slots, moved, sum_by-set at_work c.workers i w w' at);
  bounded = bound;
  counts = ground (arith, done, inv.counts, moved, sum_by-set counted c.workers i w w' at);
  originals = ground (arith, files, inv.originals, moved, sum_by-set stored c.workers i w w' at);
  conversions =
      ground (arith, files', inv.conversions, moved, sum_by-set stored c.workers i w w' at);
  members = ap length moved ∙ length-set c.workers i w' ∙ inv.members;
}

module _ (s : Services) (set_id : Bytes) (dir : AbsPath) (total : ℕ) where
  act-Inv :
      (w : Worker) (c : Crew) (i : ℕ) (st : Sticker) (now : ℕ)
      → get_elem? c.workers i ≡ some w
      → Inv total c
      → Inv total (act s set_id dir total w c i st now)
  unfolding act throttled
  act-Inv waiting c i st now at inv = elim (Bool-cases (ltb c.sem parallelism)) [
    | inl e ↦
        rw (e, act)
          (put-Inv total c _ i waiting fetching at refl inv (omega arith) (ground arith) refl refl
            refl)
    | inr e ↦ rw (e, act) inv
  ]
  act-Inv fetching c i st now at inv =
      elim (Option-cases (s.fetch c.fs st.file_id dir (member_name set_id i)).0) [
        | inl e ↦
            rw (e, act)
              (put-Inv total c _ i fetching (counting false) at refl inv refl inv.bounded refl refl
                refl)
        | inr (fp, e) ↦
            rw (e, act)
              (put-Inv total c _ i fetching (converting fp) at refl inv refl inv.bounded refl refl
                refl)
      ]
  act-Inv (converting fp) c i st now at inv =
      put-Inv total c _ i (converting fp) (storing fp _) at refl inv refl inv.bounded refl refl refl
  act-Inv (storing fp cf) c i st now at inv =
      put-Inv total c _ i (storing fp cf) (counting true) at refl inv refl inv.bounded refl
        (omega (arith, length-append c.original_files (fp ∷ [])))
        (omega (arith, length-append c.converted_files (cf ∷ [])))
  act-Inv (counting kept) c i st now at inv =
      put-Inv total c _ i (counting kept) (showing kept) at refl inv refl inv.bounded (omega arith)
        refl refl
  act-Inv (showing kept) c i st now at inv =
      elim (Bool-cases ((c.completed == total) || leb (c.last + 2000) now)) [
        | inl e ↦
            rw (e, act)
              (put-Inv total c _ i (showing kept) (leaving kept) at refl inv refl inv.bounded refl
                refl refl)
        | inr e ↦
            rw (e, act)
              (put-Inv total c _ i (showing kept) (leaving kept) at refl inv refl inv.bounded refl
                refl refl)
      ]
  act-Inv (leaving kept) c i st now at inv =
      let taken = sum_by-set at_work c.workers i (leaving kept) (finished kept) at in
      put-Inv total c _ i (leaving kept) (finished kept) at refl inv
        (ground (arith, taken, inv.slots)) (omega (arith, inv.bounded)) refl refl refl
  act-Inv (finished kept) c i st now at inv = inv

  pub step-Inv :
      (stickers : List Sticker) (c : Crew) (i now : ℕ)
      → Inv total c
      → Inv total (step s set_id dir total stickers c (i, now))
  unfolding step
  step-Inv stickers c i now inv = elim (Option-cases (get_elem? c.workers i)) [
    | inl e ↦ rw (e, step) inv
    | inr (w, e) ↦ elim (Option-cases (get_elem? stickers i)) [
      | inl e' ↦ rw (e, e', step) inv
      | inr (st, e') ↦ rw (e, e', step) (act-Inv w c i st now e inv)
    ]
  ]

  pub run-Inv :
      (stickers : List Sticker) (c : Crew) (schedule : List (ℕ × ℕ))
      → Inv total c
      → Inv total (run s set_id dir total stickers c schedule)
  unfolding run
  run-Inv stickers c [] inv = inv
  run-Inv stickers c ((i, now) ∷ es) inv =
      run-Inv stickers (step s set_id dir total stickers c (i, now)) es
        (step-Inv stickers c i now inv)

sum_by-replicate : (f : Worker → ℕ) (n : ℕ) → f waiting ≡ 0 → sum_by f (replicate n waiting) ≡ 0
sum_by-replicate f zero h = refl
sum_by-replicate f (suc n) h = omega (arith, h, sum_by-replicate f n h)

pub start-Inv : (fs : Fs) (total : ℕ) → Inv total (start_crew fs total)
start-Inv fs total = record {
  slots = sym (sum_by-replicate at_work total refl);
  bounded = omega arith;
  counts = sym (sum_by-replicate counted total refl);
  originals = sym (sum_by-replicate stored total refl);
  conversions = sym (sum_by-replicate stored total refl);
  members = length-replicate total waiting;
}

abbrev pub has_finished : Worker → Bool
has_finished (finished kept) = true
has_finished _ = false

-- wg.Wait() returns.
abbrev pub Finished : Crew → Type 0
Finished c = All (λ w. has_finished w ≡ true) c.workers

pub finished-counted :
    (ws : List Worker)
    → All (λ w. has_finished w ≡ true) ws
    → (sum_by counted ws ≡ length ws) × (sum_by at_work ws ≡ 0)
finished-counted [] h = (refl, refl)
finished-counted (finished kept ∷ ws) h =
    (omega (arith, (finished-counted ws h.1).0), omega (arith, (finished-counted ws h.1).1))
finished-counted (waiting ∷ ws) h = absurd (cc h.0)
finished-counted (fetching ∷ ws) h = absurd (cc h.0)
finished-counted (converting fp ∷ ws) h = absurd (cc h.0)
finished-counted (storing fp cf ∷ ws) h = absurd (cc h.0)
finished-counted (counting kept ∷ ws) h = absurd (cc h.0)
finished-counted (showing kept ∷ ws) h = absurd (cc h.0)
finished-counted (leaving kept ∷ ws) h = absurd (cc h.0)

module _ (s : Services) (set_id : Bytes) (dir : AbsPath) (fs : Fs) (stickers : List Sticker)
    (schedule : List (ℕ × ℕ)) where
  -- What the goroutines of a set have come to.
  abbrev pub crew : Crew
  crew = run s set_id dir (length stickers) stickers (start_crew fs (length stickers)) schedule

  pub crew-Inv : Inv (length stickers) crew
  crew-Inv =
      run-Inv s set_id dir (length stickers) stickers (start_crew fs (length stickers)) schedule
        (start-Inv fs (length stickers))

  -- For any set and any schedule at most 4 goroutines of downloadStickerSet are behind the channel.
  pub at_work_bounded : sum_by at_work crew.workers ≤ 4
  at_work_bounded = omega (arith, crew-Inv.slots, crew-Inv.bounded)

  -- When wg.Wait() returns, the channel is empty, every sticker of the set has been counted, and
  -- there is one original and one converted file for each sticker whose files were stored.
  pub run-Finished :
      Finished crew
      → (crew.sem ≡ 0)
        × (crew.completed ≡ length stickers)
        × (length crew.original_files ≡ sum_by stored crew.workers)
        × (length crew.converted_files ≡ length crew.original_files)
  run-Finished h =
      let (all, none_at_work) = finished-counted crew.workers h in
      (
        crew-Inv.slots ∙ none_at_work,
        crew-Inv.counts ∙ all ∙ crew-Inv.members,
        crew-Inv.originals,
        crew-Inv.conversions ∙ sym crew-Inv.originals,
      )
