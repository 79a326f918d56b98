-- ===== src/Command/Sets/Files.antt =====
-- The goroutines of downloadStickerSet write below their directory only.
use x_sticker_bot.Base.{
  ℕ, ◌+◌, ◌≡◌, refl, true, false, ◌||◌, List, [], ◌∷◌, ◌++◌, arith, leb, ltb, ◌==◌, length,
  get_elem?, Bytes, codes, All, All-set, All-get, All-replicate, Bool-cases, Option-cases, inl, inr,
}
use x_sticker_bot.Base.Decimal.{decimal, IsDigit, decimal-IsDigit}
use x_sticker_bot.Base.FilePath.{AbsPath, IsSegment, Lacks, slash, join, join_name}
use x_sticker_bot.Telegram.{Sticker}
use x_sticker_bot.Storage.Temp.{Fs}
use x_sticker_bot.Command.Services.{within, Keeps, Services}
use x_sticker_bot.Command.Services.Keeping.{Keeps-trans, mixed, within_self}
use x_sticker_bot.Command.Sets.{
  Worker, waiting, fetching, converting, storing, counting, showing, leaving, finished, Crew,
  start_crew, member_name, throttled, convert, act, step, run, parallelism, after_wait,
  download_sticker_set,
}

digits-Lacks : (s : Bytes) → All IsDigit s → Lacks slash s
digits-Lacks [] h = tt
digits-Lacks (c ∷ s) h = (ground (arith, h.0), digits-Lacks s h.1)

member_name-IsSegment :
    (set_id : Bytes) (i : ℕ) → Lacks slash set_id → IsSegment (member_name set_id i)
member_name-IsSegment set_id i plain =
    mixed set_id (decimal (i + 1)) b'_' (ground arith) (ground arith) plain
      (digits-Lacks (decimal (i + 1)) (decimal-IsDigit (i + 1)))

-- Where the file lies that a worker goes on with.
abbrev pub Place : AbsPath → Worker → Type 0
Place dir (converting fp) = within dir fp ≡ true
Place dir _ = Unit

module _ (s : Services) (set_id : Bytes) (dir : AbsPath) (total : ℕ) (fs : Fs) where
  pub record Placed (c : Crew) : Type 0 where
    pub keeps : Keeps dir fs c.fs
    pub places : All (Place dir) c.workers

  convert-Keeps :
      (st : Sticker) (fs' : Fs) (fp : AbsPath)
      → within dir fp ≡ true
      → Keeps dir fs' (convert s st fs' fp).1
  convert-Keeps st fs' fp h = elim (Bool-cases (st.is_video || st.is_animated)) [
    | inl e ↦ rw e (s.to_gif-Beside fs' dir fp h).0
    | inr e ↦ rw e (s.to_png-Beside fs' dir fp h).0
  ]

  act-Placed :
      (w : Worker) (c : Crew) (i : ℕ) (st : Sticker) (now : ℕ)
      → Lacks slash set_id
      → Placed c
      → Place dir w
      → Placed (act s set_id dir total w c i st now)
  unfolding act throttled
  act-Placed waiting c i st now plain h at = elim (Bool-cases (ltb c.sem parallelism)) [
    | inl e ↦
        rw e (record {
          keeps = h.keeps;
          places = All-set (Place dir) c.workers i fetching h.places tt;
        })
    | inr e ↦ rw e h
  ]
  act-Placed fetching c i st now plain h at =
      let name = member_name set_id i in
      let (kept, below) =
        s.fetch-Keeps c.fs st.file_id dir name (member_name-IsSegment set_id i plain) in
      let keeps' = Keeps-trans dir fs c.fs (s.fetch c.fs st.file_id dir name).1 h.keeps kept in
      elim (Option-cases (s.fetch c.fs st.file_id dir name).0) [
        | inl e ↦
            rw (e, act)
              (record {
                keeps = keeps';
                places = All-set (Place dir) c.workers i (counting false) h.places tt;
              })
        | inr (fp, e) ↦
            rw (e, act)
              (record {
                keeps = keeps';
                places = All-set (Place dir) c.workers i (converting fp) h.places (below fp e);
              })
      ]
  act-Placed (converting fp) c i st now plain h at = record {
    keeps = Keeps-trans dir fs c.fs (convert s st c.fs fp).1 h.keeps (convert-Keeps st c.fs fp at);
    places = All-set (Place dir) c.workers i _ h.places tt;
  }
  act-Placed (storing fp cf) c i st now plain h at = record {
    keeps = h.keeps;
    places = All-set (Place dir) c.workers i (counting true) h.places tt;
  }
  act-Placed (counting kept) c i st now plain h at = record {
    keeps = h.keeps;
    places = All-set (Place dir) c.workers i (showing kept) h.places tt;
  }
  act-Placed (showing kept) c i st now plain h at =
      elim (Bool-cases ((c.completed == total) || leb (c.last + 2000) now)) [
        | inl e ↦ rw e (record {
          keeps = h.keeps;
          places = All-set (Place dir) c.workers i (leaving kept) h.places tt;
        })
        | inr e ↦ rw e (record {
          keeps = h.keeps;
          places = All-set (Place dir) c.workers i (leaving kept) h.places tt;
        })
      ]
  act-Placed (leaving kept) c i st now plain h at = record {
    keeps = h.keeps;
    places = All-set (Place dir) c.workers i (finished kept) h.places tt;
  }
  act-Placed (finished kept) c i st now plain h at = h

  step-Placed :
      (stickers : List Sticker) (c : Crew) (i now : ℕ)
      → Lacks slash set_id
      → Placed c
      → Placed (step s set_id dir total stickers c (i, now))
  unfolding step
  step-Placed stickers c i now plain h = elim (Option-cases (get_elem? c.workers i)) [
    | inl e ↦ rw (e, step) h
    | inr (w, e) ↦ elim (Option-cases (get_elem? stickers i)) [
      | inl e' ↦ rw (e, e', step) h
      | inr (st, e') ↦
          rw (e, e', step)
            (act-Placed w c i st now plain h (All-get (Place dir) c.workers i w h.places e))
    ]
  ]

  pub run-Placed :
      (stickers : List Sticker) (c : Crew) (schedule : List (ℕ × ℕ))
      → Lacks slash set_id
      → Placed c
      → Placed (run s set_id dir total stickers c schedule)
  unfolding run
  run-Placed stickers c [] plain h = h
  run-Placed stickers c ((i, now) ∷ es) plain h =
      run-Placed stickers (step s set_id dir total stickers c (i, now)) es plain
        (step-Placed stickers c i now plain h)

  pub start-Placed : Placed (start_crew fs total)
  start-Placed = record {
    keeps = λ q out. refl;
    places = All-replicate (Place dir) total waiting tt;
  }

zip-within :
    (dir : AbsPath) (set_id rest : Bytes)
    → Lacks slash set_id
    → Lacks slash rest
    → within dir (join dir (set_id ++ b'_' ∷ rest)) ≡ true
zip-within dir set_id rest plain plain' =
    let name = set_id ++ b'_' ∷ rest in
    rw (join_name dir name (mixed set_id rest b'_' (ground arith) (ground arith) plain plain'))
      (within_self name dir)

module _ (s : Services) (set_id : Bytes) (dir : AbsPath) where
  after_wait-Keeps :
      (total : ℕ) (c : Crew)
      → Lacks slash set_id
      → Keeps dir c.fs (after_wait s set_id dir total c).1
  unfolding after_wait
  after_wait-Keeps total c plain =
      let original = zip-within dir set_id (codes "original.zip") plain (ground arith) in
      let conversion = zip-within dir set_id (codes "converted.zip") plain (ground arith) in
      let zip = join dir (set_id ++ codes "_original.zip") in
      let zip' = join dir (set_id ++ codes "_converted.zip") in
      let fs = (s.f_compress_vol c.fs zip c.original_files).1 in
      let fs' = (s.f_compress_vol fs zip' c.converted_files).1 in
      elim (Bool-cases (length c.original_files == 0)) [
        | inl e ↦ rw e (λ q out. refl)
        | inr e ↦ rw e (
            Keeps-trans dir c.fs fs fs'
              (s.f_compress_vol-Keeps c.fs dir zip c.original_files original)
              (s.f_compress_vol-Keeps fs dir zip' c.converted_files conversion))
      ]

  pub download_sticker_set-Keeps :
      (fs : Fs) (schedule : List (ℕ × ℕ))
      → Lacks slash set_id
      → Keeps dir fs (download_sticker_set s fs set_id dir schedule).1
  unfolding download_sticker_set
  download_sticker_set-Keeps fs schedule plain = elim (Option-cases (s.sticker_set set_id)) [
    | inl e ↦ rw (e, download_sticker_set) (λ q out. refl)
    | inr (stickers, e) ↦
        let total = length stickers in
        let c = run s set_id dir total stickers (start_crew fs total) schedule in
        let placed =
          run-Placed s set_id dir total fs stickers (start_crew fs total) schedule plain
            (start-Placed s set_id dir total fs) in
        rw (e, download_sticker_set)
          (Keeps-trans dir fs c.fs (after_wait s set_id dir total c).1 placed.keeps
            (after_wait-Keeps total c plain))
  ]
