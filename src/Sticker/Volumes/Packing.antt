-- ===== src/Sticker/Volumes/Packing.antt =====
-- How the files are spread over the volumes.
use x_sticker_bot.Base.{
  ℕ, ◌+◌, ◌≤◌, ◌<◌, ◌^◌, ◌≡◌, ◌≢◌, refl, ap, ◌⊎◌, inl, inr, false, ◌&&◌, Option, none, some, List,
  [], ◌∷◌, ◌++◌, arith, append_assoc, append-nil, if◌then◌else◌, ltb, leb, ◌==◌, length, All,
  Option-cases, Bool-cases,
}
use x_sticker_bot.Base.FilePath.{AbsPath}
use x_sticker_bot.Sticker.Volumes.{max_vol_size, starts_volume, append_last, pack, volumes_of}

module _ (stat : AbsPath → Option ℕ) where
  -- The files that os.Stat can read.
  abbrev pub readable : List AbsPath → List AbsPath
  readable [] = []
  readable (f ∷ fs) = elim (stat f) [ none ↦ readable fs | some _ ↦ f ∷ readable fs ]

  abbrev pub size_of : AbsPath → ℕ
  size_of f = elim (stat f) [ none ↦ 0 | some n ↦ n ]

  abbrev pub total : List AbsPath → ℕ
  total [] = 0
  total (f ∷ fs) = size_of f + total fs

  abbrev pub concat : List (List AbsPath) → List AbsPath
  concat [] = []
  concat (v ∷ vs) = v ++ concat vs

  -- All but the last file of the volume are empty.
  abbrev pub Single : List AbsPath → Type 0
  Single v = (zs : List AbsPath) × (x : AbsPath) × (v ≡ zs ++ x ∷ []) × (total zs ≡ 0)

  -- A volume is not empty, and below 50 MB unless one file makes up its whole size.
  abbrev pub Fits : List AbsPath → Type 0
  Fits v = (v ≢ []) × ((total v < max_vol_size) ⊎ Single v)

  -- The first file of `w` would have taken `v` to 50 MB or more.
  abbrev pub Overflows : List AbsPath → List AbsPath → Type 0
  Overflows v [] = ⊥
  Overflows v (x ∷ w) = max_vol_size ≤ total v + size_of x

  abbrev pub Tight : List (List AbsPath) → Type 0
  Tight [] = Unit
  Tight (v ∷ vs) = elim vs [ [] ↦ Unit | w ∷ _ ↦ Overflows v w ] × Tight vs

  -- The volumes that come of the files left, when `last` is the open volume.
  abbrev rest : List AbsPath → List AbsPath → ℕ → List (List AbsPath)
  rest [] last cur = last ∷ []
  rest (f ∷ fs) last cur = elim (stat f) [
    | none ↦ rest fs last cur
    | some n ↦
        let closed = last ∷ rest fs (f ∷ []) n in
        let open_still = rest fs (last ++ f ∷ []) (cur + n) in
        if leb max_vol_size (cur + n) && ltb 0 cur then closed else open_still
  ]

  -- The volumes, with no volume open before the first readable file.
  abbrev spread : List AbsPath → List (List AbsPath)
  spread [] = []
  spread (f ∷ fs) = elim (stat f) [ none ↦ spread fs | some n ↦ rest fs (f ∷ []) n ]

  append_last-snoc :
      (ds : List (List AbsPath)) (v : List AbsPath) (f : AbsPath)
      → append_last (ds ++ v ∷ []) f ≡ ds ++ (v ++ f ∷ []) ∷ []
  unfolding append_last
  append_last-snoc [] v f = refl
  append_last-snoc (d ∷ []) v f = refl
  append_last-snoc (d ∷ e ∷ ds) v f = ap (λ l. d ∷ l) (append_last-snoc (e ∷ ds) v f)

  snoc-opened : (ds : List (List AbsPath)) (v : List AbsPath) → (length (ds ++ v ∷ []) == 0) ≡ false
  snoc-opened [] v = refl
  snoc-opened (d ∷ ds) v = ground arith

  total-append : (us vs : List AbsPath) → total (us ++ vs) ≡ total us + total vs
  total-append [] vs = omega arith
  total-append (u ∷ us) vs = omega (arith, total-append us vs)

  -- Below 2^63 the signed tests are those of the sizes themselves.
  starts-open :
      (ds : List (List AbsPath)) (v : List AbsPath) (cur n : ℕ)
      → cur + n < 2 ^ 63
      → starts_volume (ds ++ v ∷ []) cur n ≡ (leb max_vol_size (cur + n) && ltb 0 cur)
  starts-open ds v cur n h = rw (snoc-opened ds v) (ground arith)

  pack-rest :
      (fs : List AbsPath) (ds : List (List AbsPath)) (v : List AbsPath) (cur : ℕ)
      → cur + total fs < 2 ^ 63
      → pack stat fs (ds ++ v ∷ []) cur ≡ ds ++ rest fs v cur
  unfolding pack
  pack-rest [] ds v cur h = refl
  pack-rest (f ∷ fs) ds v cur h = elim (Option-cases (stat f)) [
    | inl gone ↦ ground (arith, pack-rest fs ds v cur)
    | inr (n, e) ↦ ground (
      arith,
      starts-open ds v cur n,
      append_last-snoc (ds ++ v ∷ []) [] f,
      append_last-snoc ds v f,
      append_assoc ds (v ∷ []) (rest fs (f ∷ []) n),
      pack-rest fs (ds ++ v ∷ []) (f ∷ []) n,
      pack-rest fs ds (v ++ f ∷ []) (cur + n),
    )
  ]

  volumes-spread : (fs : List AbsPath) → total fs < 2 ^ 63 → pack stat fs [] 0 ≡ spread fs
  unfolding pack append_last
  volumes-spread [] h = refl
  volumes-spread (f ∷ fs) h = elim (Option-cases (stat f)) [
    | inl gone ↦ ground (arith, volumes-spread fs)
    | inr (n, e) ↦ ground (arith, pack-rest fs [] (f ∷ []) n)
  ]

  concat-rest : (fs v : List AbsPath) (cur : ℕ) → concat (rest fs v cur) ≡ v ++ readable fs
  concat-rest [] v cur = refl
  concat-rest (f ∷ fs) v cur = elim (Option-cases (stat f)) [
    | inl gone ↦ ground (arith, concat-rest fs v cur)
    | inr (n, e) ↦ ground (
      arith,
      concat-rest fs (f ∷ []) n,
      concat-rest fs (v ++ f ∷ []) (cur + n),
      append_assoc v (f ∷ []) (readable fs),
    )
  ]

  concat-spread : (fs : List AbsPath) → concat (spread fs) ≡ readable fs
  concat-spread [] = refl
  concat-spread (f ∷ fs) = elim (Option-cases (stat f)) [
    | inl gone ↦ ground (arith, concat-spread fs)
    | inr (n, e) ↦ ground (arith, concat-rest fs (f ∷ []) n)
  ]

  snoc-ne-nil : (v : List AbsPath) (f : AbsPath) → v ++ f ∷ [] ≢ []
  snoc-ne-nil [] f = cc
  snoc-ne-nil (u ∷ v) f = cc

  Fits-snoc :
      (v : List AbsPath) (f : AbsPath) (n cur : ℕ)
      → stat f ≡ some n
      → cur ≡ total v
      → (leb max_vol_size (cur + n) && ltb 0 cur) ≡ false
      → Fits (v ++ f ∷ [])
  Fits-snoc v f n cur e c more = (
    snoc-ne-nil v f,
    elim (Bool-cases (leb max_vol_size (cur + n))) [
      | inl large ↦ inr (v, f, refl, ground arith)
      | inr small ↦ inl (ground (arith, total-append v (f ∷ [])))
    ],
  )

  Fits-rest : (fs v : List AbsPath) (cur : ℕ) → cur ≡ total v → Fits v → All Fits (rest fs v cur)
  Fits-rest [] v cur c ok = (ok, tt)
  Fits-rest (f ∷ fs) v cur c ok = elim (Option-cases (stat f)) [
    | inl gone ↦ rw (gone, rest) (Fits-rest fs v cur c ok)
    | inr (n, e) ↦ elim (Bool-cases (leb max_vol_size (cur + n) && ltb 0 cur)) [
      | inl full ↦
          rw (e, full, rest)
            (ok, Fits-rest fs (f ∷ []) n (ground arith) (Fits-snoc [] f n 0 e refl (ground arith)))
      | inr more ↦
          rw (e, more, rest)
            (Fits-rest fs (v ++ f ∷ []) (cur + n) (ground (arith, total-append v (f ∷ [])))
              (Fits-snoc v f n cur e c more))
    ]
  ]

  Fits-spread : (fs : List AbsPath) → All Fits (spread fs)
  Fits-spread [] = tt
  Fits-spread (f ∷ fs) = elim (Option-cases (stat f)) [
    | inl gone ↦ rw (gone, spread) (Fits-spread fs)
    | inr (n, e) ↦
        rw (e, spread)
          (Fits-rest fs (f ∷ []) n (ground arith) (Fits-snoc [] f n 0 e refl (ground arith)))
  ]

  -- The open volume goes on at the head of what follows.
  rest-head :
      (fs v : List AbsPath) (cur : ℕ)
      → (w : List AbsPath) × (ws : List (List AbsPath)) × (rest fs v cur ≡ (v ++ w) ∷ ws)
  rest-head [] v cur = ([], [], ground (arith, append-nil v))
  rest-head (f ∷ fs) v cur = elim (Option-cases (stat f)) [
    | inl gone ↦ let (w, ws, e) = rest-head fs v cur in (w, ws, ground (arith, e))
    | inr (n, at) ↦ elim (Bool-cases (leb max_vol_size (cur + n) && ltb 0 cur)) [
      | inl full ↦ ([], rest fs (f ∷ []) n, ground (arith, append-nil v))
      | inr more ↦
          let (w, ws, e) = rest-head fs (v ++ f ∷ []) (cur + n) in
          (f ∷ w, ws, ground (arith, e, append_assoc v (f ∷ []) w))
    ]
  ]

  Tight-cons :
      (v w : List AbsPath) (f : AbsPath) (vs ws : List (List AbsPath))
      → vs ≡ (f ∷ w) ∷ ws
      → max_vol_size ≤ total v + size_of f
      → Tight vs
      → Tight (v ∷ vs)
  Tight-cons v w f [] ws e h t = cc
  Tight-cons v w f ((x ∷ u) ∷ vs) ws e h t = (ground arith, t)
  Tight-cons v w f ([] ∷ vs) ws e h t = absurd (ground arith)

  Tight-rest : (fs v : List AbsPath) (cur : ℕ) → cur ≡ total v → Tight (rest fs v cur)
  Tight-rest [] v cur c = (tt, tt)
  Tight-rest (f ∷ fs) v cur c = elim (Option-cases (stat f)) [
    | inl gone ↦ rw (gone, rest) (Tight-rest fs v cur c)
    | inr (n, e) ↦ elim (Bool-cases (leb max_vol_size (cur + n) && ltb 0 cur)) [
      | inl full ↦
          let (w, ws, at) = rest-head fs (f ∷ []) n in
          rw (e, full, rest)
            (Tight-cons v w f (rest fs (f ∷ []) n) ws at (ground arith)
              (Tight-rest fs (f ∷ []) n (ground arith)))
      | inr more ↦
          rw (e, more, rest)
            (Tight-rest fs (v ++ f ∷ []) (cur + n) (ground (arith, total-append v (f ∷ []))))
    ]
  ]

  Tight-spread : (fs : List AbsPath) → Tight (spread fs)
  Tight-spread [] = tt
  Tight-spread (f ∷ fs) = elim (Option-cases (stat f)) [
    | inl gone ↦ rw (gone, spread) (Tight-spread fs)
    | inr (n, e) ↦ rw (e, spread) (Tight-rest fs (f ∷ []) n (ground arith))
  ]

-- Files whose sizes sum to less than 2^63 bytes are spread over volumes so that: the volumes in
-- order hold exactly the files that os.Stat can read, in their order; none is empty; each stays
-- below 50 MB, unless its last file is all of its size; and no volume could have taken the first
-- file of the next one and stayed below 50 MB.
pub volumes_of_lem :
    (stat : AbsPath → Option ℕ) (fs : List AbsPath)
    → total stat fs < 2 ^ 63
    → (concat stat (volumes_of stat fs) ≡ readable stat fs)
      × All (Fits stat) (volumes_of stat fs)
      × Tight stat (volumes_of stat fs)
unfolding volumes_of
volumes_of_lem stat fs h =
    rw (volumes-spread stat fs h) (concat-spread stat fs, Fits-spread stat fs, Tight-spread stat fs)
