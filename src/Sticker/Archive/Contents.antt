-- ===== src/Sticker/Archive/Contents.antt =====
-- What a finished archive holds, and when FCompress succeeds.
use x_sticker_bot.Base.{
  ◌≡◌, ◌≢◌, refl, ◌∙◌, inl, inr, false, Option, none, some, List, [], ◌∷◌, ◌++◌, map, arith,
  append_assoc, append-nil, Bytes, eq_bytes_iff, lookup, insert, lookup-insert, Option-cases, All,
}
use x_sticker_bot.Base.FilePath.{AbsPath, base, path_eq, eq_path_iff}
use x_sticker_bot.Sticker.Archive.{
  Os, CompressError, member_of, duplicate, Disk, read_input, write_members, finish, f_compress,
}

abbrev pub Distinct : List Bytes → Type 0
Distinct [] = Unit
Distinct (n ∷ ns) = All (λ m. m ≢ n) ns × Distinct ns

-- The names that `duplicate` has passed are new to `names`.
abbrev New : List Bytes → List Bytes → Type 0
New names = All (λ m. member_of m names ≡ false)

New-tail :
    (n : Bytes) (names ms : List Bytes) → New (n ∷ names) ms → All (λ m. m ≢ n) ms × New names ms
New-tail n names [] h = (tt, tt)
New-tail n names (m ∷ ms) h =
    let (apart, rest) = New-tail n names ms h.1 in
    ((ground (arith, eq_bytes_iff n m, h.0), apart), (ground (arith, h.0), rest))

New-cons :
    (n : Bytes) (names ms : List Bytes) → All (λ m. m ≢ n) ms → New names ms → New (n ∷ names) ms
New-cons n names [] a h = tt
New-cons n names (m ∷ ms) a h =
    (ground (arith, eq_bytes_iff n m, a.0, h.0), New-cons n names ms a.1 h.1)

duplicate-none :
    (files : List AbsPath) (names : List Bytes)
    → duplicate files names ≡ none
    → New names (map base files) × Distinct (map base files)
unfolding duplicate
duplicate-none [] names h = (tt, tt)
duplicate-none (file ∷ files) names h =
    let new : member_of (base file) names ≡ false = ground arith in
    let (rest, distinct) = duplicate-none files (base file ∷ names) (ground arith) in
    let (apart, old) = New-tail (base file) names (map base files) rest in
    ((new, old), (apart, distinct))

duplicate-Distinct :
    (files : List AbsPath) (names : List Bytes)
    → New names (map base files)
    → Distinct (map base files)
    → duplicate files names ≡ none
unfolding duplicate
duplicate-Distinct [] names n d = refl
duplicate-Distinct (file ∷ files) names n d = rw n.0 (
    duplicate-Distinct files (base file ∷ names)
      (New-cons (base file) names (map base files) d.0 n.1) d.1)

New-nil : (ms : List Bytes) → New [] ms
New-nil [] = tt
New-nil (m ∷ ms) = (refl, New-nil ms)

module _ (os : Os) where
  -- The members of an archive: base name and contents of each input, in order.
  abbrev pub Members : Disk os → List AbsPath → List (Bytes × os.Blob) → Type 0
  Members d [] ms = ms ≡ []
  Members d (file ∷ files) ms =
      (blob : os.Blob) × (rest : List (Bytes × os.Blob)) × (lookup file d ≡ some blob)
      × (ms ≡ (base file, blob) ∷ rest)
      × Members d files rest

  read_input-some :
      (d : Disk os) (file : AbsPath) (b : os.Blob)
      → read_input os d file ≡ some b
      → lookup file d ≡ some b
  unfolding read_input
  read_input-some d file b h = ground arith

  write_members-Members :
      (d : Disk os) (files : List AbsPath) (done ms : List (Bytes × os.Blob))
      → write_members os d files done ≡ (none, ms)
      → (ns : List (Bytes × os.Blob)) × (ms ≡ done ++ ns) × Members d files ns
  unfolding write_members
  write_members-Members d [] done ms h = ([], ground (arith, append-nil done), refl)
  write_members-Members d (file ∷ files) done ms h = elim (Option-cases (read_input os d file)) [
    | inl missing ↦ absurd (ground arith)
    | inr (b, found) ↦
        let here : Bytes × os.Blob = (base file, b) in
        let later : write_members os d files (done ++ here ∷ []) ≡ (none, ms) = ground arith in
        let (ns, e, m) = write_members-Members d files (done ++ here ∷ []) ms later in
        (
          here ∷ ns,
          e ∙ append_assoc done (here ∷ []) ns,
          (b, ns, read_input-some d file b found, refl, m),
        )
  ]

  Members-insert :
      (d : Disk os) (f : AbsPath) (v : os.Blob) (files : List AbsPath) (ms : List (Bytes × os.Blob))
      → All (λ p. p ≢ f) files
      → Members (insert f v d) files ms
      → Members d files ms
  Members-insert d f v [] ms a m = m
  Members-insert d f v (p ∷ files) ms a (b, rest, at, e, m) = (
    b,
    rest,
    ground (arith, eq_path_iff f p, lookup-insert f p v d, a.0),
    e,
    Members-insert d f v files rest a.1 m,
  )

  finish-ok :
      (d : Disk os) (f : AbsPath) (e : Option CompressError) (ms : List (Bytes × os.Blob))
      → (finish os d f (e, ms)).0 ≡ none
      → (e ≡ none) × (lookup f (finish os d f (e, ms)).1 ≡ some (os.zip_blob ms))
  unfolding finish
  finish-ok d f none ms h = ground (arith, eq_path_iff f f, lookup-insert f f (os.zip_blob ms) d)
  finish-ok d f (some e) ms h = cc

  -- On success the archive holds exactly the inputs, in order, each under its base name and with
  -- the contents that it had on the disk, and no two members have one name. (The archive itself is
  -- not one of its inputs.)
  pub f_compress_success :
      (d : Disk os) (f : AbsPath) (flist : List AbsPath)
      → All (λ p. p ≢ f) flist
      → (f_compress os d f flist).0 ≡ none
      → (ms : List (Bytes × os.Blob)) × (lookup f (f_compress os d f flist).1
          ≡ some (os.zip_blob ms))
        × Members d flist ms
        × Distinct (map base flist)
  unfolding f_compress
  f_compress_success d f flist apart h =
      let created = insert f os.empty_blob d in
      let written = write_members os created flist [] in
      let unique : duplicate flist [] ≡ none = ground arith in
      let made : os.create_fails f ≡ false = ground arith in
      let closed : (finish os created f written).0 ≡ none = ground arith in
      let (fine, stored) = finish-ok created f written.0 written.1 closed in
      let (ns, e, m) = write_members-Members created flist [] written.1 (ground (arith, fine)) in
      (
        written.1,
        rw (unique, made, f_compress) stored,
        Members-insert d f os.empty_blob flist written.1 apart (rw e m),
        (duplicate-none flist [] unique).1,
      )

  -- An input that opens, is written and closes without an error, and is on the disk.
  abbrev pub Readable : Disk os → AbsPath → Type 0
  Readable d file =
      (os.open_fails file ≡ false)
      × (os.write_fails file ≡ false)
      × (os.input_close_fails file ≡ false)
      × (lookup file d ≢ none)

  write_members_total :
      (d : Disk os) (files : List AbsPath) (done : List (Bytes × os.Blob))
      → All (Readable d) files
      → (write_members os d files done).0 ≡ none
  unfolding write_members read_input
  write_members_total d [] done h = refl
  write_members_total d (file ∷ files) done (r, h) = elim (Option-cases (lookup file d)) [
    | inl missing ↦ absurd (r.3 missing)
    | inr (b, found) ↦
        ground (arith, write_members_total d files (done ++ (base file, b) ∷ []) h, r)
  ]

  Readable-insert :
      (d : Disk os) (f : AbsPath) (v : os.Blob) (files : List AbsPath)
      → All (Readable d) files
      → All (Readable (insert f v d)) files
  Readable-insert d f v [] h = tt
  Readable-insert d f v (p ∷ files) (r, h) = (
    (r.0, r.1, r.2, ground (arith, eq_path_iff f p, lookup-insert f p v d, r.3)),
    Readable-insert d f v files h,
  )

  -- FCompress succeeds when its inputs are readable and have different base names, and the system
  -- creates, finalizes and closes the archive.
  pub f_compress_total :
      (d : Disk os) (f : AbsPath) (flist : List AbsPath)
      → All (Readable d) flist
      → Distinct (map base flist)
      → os.create_fails f ≡ false
      → os.finalize_fails f ≡ false
      → os.close_fails f ≡ false
      → (f_compress os d f flist).0 ≡ none
  unfolding f_compress finish
  f_compress_total d f flist readable distinct created finalized closed =
      let fresh = duplicate-Distinct flist [] (New-nil (map base flist)) distinct in
      let full =
        write_members_total (insert f os.empty_blob d) flist []
          (Readable-insert d f os.empty_blob flist readable) in
      ground (arith, fresh, full)
