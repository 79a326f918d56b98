-- ===== src/Storage/Temp/Purging.antt =====
-- What PurgeOutdated removes, counts and leaves.
use x_sticker_bot.Base.{
  ℕ, ◌+◌, ◌<◌, ◌↔◌, ◌≡◌, refl, ap, ◌∙◌, Bool, true, false, ◌&&◌, ◌||◌, none, some, List, [], ◌∷◌,
  arith, if◌then◌else◌, All, Bytes, lookup, count_if, Bool-cases, inl, inr,
}
use x_sticker_bot.Base.FilePath.{AbsPath, path_eq, join, join_name}
use x_sticker_bot.Storage.Temp.{
  Node, Fs, under, Sys, TempManager, user_dir_name, remove_all, read_dir, outdated, purge_entries,
  purge_outdated, erase_under,
}
use x_sticker_bot.Storage.Temp.Names.{user_dir_name-IsSegment}
use x_sticker_bot.Storage.Temp.Cleaning.{Unmanaged, remove_all-outside, lookup-erase_under}

module _ (sys : Sys) (tm : TempManager) (now max_age : ℕ) where
  -- `q` is not at or below an outdated entry.
  abbrev pub Spared : AbsPath → List (Bytes × Node) → Type 0
  Spared q =
      All (λ e. outdated sys tm now max_age e ≡ true → under (join tm.base_dir e.0) q ≡ false)

  purge_entries-frame :
      (es : List (Bytes × Node)) (fs : Fs) (n : ℕ) (q : AbsPath)
      → Spared q es
      → lookup q (purge_entries sys tm now max_age es fs n).1 ≡ lookup q fs
  unfolding purge_entries
  purge_entries-frame [] fs n q s = refl
  purge_entries-frame (e ∷ es) fs n q s = elim (Bool-cases (outdated sys tm now max_age e)) [
    | inr keep ↦ rw (keep, purge_entries) (purge_entries-frame es fs n q s.1)
    | inl old ↦
        let r = remove_all sys fs (join tm.base_dir e.0) in
        rw (old, purge_entries)
          (purge_entries-frame es r.1 (if r.0 then n + 1 else n) q s.1
            ∙ remove_all-outside sys fs (join tm.base_dir e.0) q (s.0 old))
  ]

  -- A directory with a managed name, whose time the system tells, older than `maxAge`.
  abbrev pub IsOutdated : Bytes × Node → Type 0
  IsOutdated (name, node) =
      (node.is_dir ≡ true)
      × (user_dir_name name ≡ true)
      × (sys.info_fails (join tm.base_dir name) ≡ false)
      × (node.mod_time + max_age < now)

  -- Whether `q` is at or below an entry of which the test holds.
  abbrev pub purged : (Bytes × Node → Bool) → AbsPath → List (Bytes × Node) → Bool
  purged old q [] = false
  purged old q (e ∷ es) = (old e && under (join tm.base_dir e.0) q) || purged old q es

  module _ (old : Bytes × Node → Bool)
      (same : (e : Bytes × Node) → outdated sys tm now max_age e ≡ old e) where
    count_if-same :
        (es : List (Bytes × Node)) → count_if (outdated sys tm now max_age) es ≡ count_if old es
    count_if-same [] = refl
    count_if-same (e ∷ es) = ground (arith, same e, count_if-same es)

    purged-same :
        (q : AbsPath) (es : List (Bytes × Node))
        → purged (outdated sys tm now max_age) q es ≡ purged old q es
    purged-same q [] = refl
    purged-same q (e ∷ es) = ground (arith, same e, purged-same q es)

  decided :
      (old : Bytes × Node → Bool)
      → ((e : Bytes × Node) → (old e ≡ true) ↔ IsOutdated e)
      → (e : Bytes × Node) → outdated sys tm now max_age e ≡ old e
  decided old h (name, node) = ground (arith, h (name, node))

  module _ (works : (p : AbsPath) → sys.remove_fails p ≡ false) where
    -- One round of the loop.
    purge_entries-old :
        (e : Bytes × Node) (es : List (Bytes × Node)) (fs : Fs) (n : ℕ)
        → outdated sys tm now max_age e ≡ true
        → purge_entries sys tm now max_age (e ∷ es) fs n
          ≡ purge_entries sys tm now max_age es (erase_under (join tm.base_dir e.0) fs) (n + 1)
    unfolding purge_entries remove_all
    purge_entries-old e es fs n old = rw (old, works (join tm.base_dir e.0))

    purge_entries-kept :
        (e : Bytes × Node) (es : List (Bytes × Node)) (fs : Fs) (n : ℕ)
        → outdated sys tm now max_age e ≡ false
        → purge_entries sys tm now max_age (e ∷ es) fs n ≡ purge_entries sys tm now max_age es fs n
    unfolding purge_entries
    purge_entries-kept e es fs n keep = rw keep

    purge_entries-count :
        (es : List (Bytes × Node)) (fs : Fs) (n : ℕ)
        → (purge_entries sys tm now max_age es fs n).0
          ≡ n + count_if (outdated sys tm now max_age) es
    purge_entries-count [] fs n = unfold purge_entries in omega arith
    purge_entries-count (e ∷ es) fs n = elim (Bool-cases (outdated sys tm now max_age e)) [
      | inr keep ↦ ground (arith, purge_entries-kept e es fs n keep, purge_entries-count es fs n)
      | inl old ↦
          let fs' = erase_under (join tm.base_dir e.0) fs in
          ground (arith, purge_entries-old e es fs n old, purge_entries-count es fs' (n + 1))
    ]

    lookup-purge_entries :
        (es : List (Bytes × Node)) (fs : Fs) (n : ℕ) (q : AbsPath)
        → lookup q (purge_entries sys tm now max_age es fs n).1
          ≡ (if purged (outdated sys tm now max_age) q es then none else lookup q fs)
    lookup-purge_entries [] fs n q = unfold purge_entries in refl
    lookup-purge_entries (e ∷ es) fs n q = elim (Bool-cases (outdated sys tm now max_age e)) [
      | inr keep ↦ ground (arith, purge_entries-kept e es fs n keep, lookup-purge_entries es fs n q)
      | inl old ↦
          let fs' = erase_under (join tm.base_dir e.0) fs in
          ground (
            arith,
            purge_entries-old e es fs n old,
            lookup-purge_entries es fs' (n + 1) q,
            lookup-erase_under (join tm.base_dir e.0) q fs,
          )
    ]

    -- Where the system lists the base directory and removes what it is told to, PurgeOutdated
    -- removes what is at or below the entries that are directories with a managed name, whose time
    -- the system tells and which are older than `maxAge`, nothing else, and returns how many such
    -- entries there are, as any test `old` that decides this counts and finds them.
    pub purge_outdated_lem :
        (old : Bytes × Node → Bool) (fs : Fs)
        → ((e : Bytes × Node) → (old e ≡ true) ↔ IsOutdated e)
        → sys.read_dir_fails tm.base_dir ≡ false
        → let es = read_dir fs tm.base_dir in
          let r = purge_outdated sys tm now max_age fs in
          (r.0 ≡ some (count_if old es))
          × ((q : AbsPath) → lookup q r.1 ≡ (if purged old q es then none else lookup q fs))
    unfolding purge_outdated
    purge_outdated_lem old fs h lists =
        let es = read_dir fs tm.base_dir in
        let same = decided old h in
        rw (lists, purge_outdated)
          (
            ap some (purge_entries-count es fs 0 ∙ omega (arith, count_if-same old same es)),
            λ q. lookup-purge_entries es fs 0 q ∙ rw (purged-same old same q es) refl,
          )

  Unmanaged-Spared : (q : AbsPath) (es : List (Bytes × Node)) → Unmanaged tm q → Spared q es
  Unmanaged-Spared q [] u = tt
  Unmanaged-Spared q ((name, node) ∷ es) u = (one, Unmanaged-Spared q es u)
    where
      one :
          outdated sys tm now max_age (name, node) ≡ true → under (join tm.base_dir name) q ≡ false
      one old =
          let named : user_dir_name name ≡ true = ground arith in
          rw (join_name tm.base_dir name (user_dir_name-IsSegment name named)) (u name named)

  -- Whatever the system does, PurgeOutdated touches no path but those at or below a managed name in
  -- the base directory.
  pub purge_outdated_frame :
      (fs : Fs) (q : AbsPath)
      → Unmanaged tm q
      → lookup q (purge_outdated sys tm now max_age fs).1 ≡ lookup q fs
  unfolding purge_outdated
  purge_outdated_frame fs q u =
      let es = read_dir fs tm.base_dir in
      ground (arith, purge_entries-frame es fs 0 q (Unmanaged-Spared q es u))
