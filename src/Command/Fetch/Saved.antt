-- ===== src/Command/Fetch/Saved.antt =====
-- What a download leaves on the disk.
use x_sticker_bot.Base.{
  ℕ, zero, suc, ◌+◌, ◌*◌, ◌≤◌, ◌<◌, ◌≡◌, ◌≢◌, refl, ap, Bool, false, ◌&&◌, not, Option, none, some,
  [], arith, ◌==◌, length, take, take_all, Bytes, lookup, insert, lookup-insert, lookup-erase,
  Option-cases, Bool-cases, inl, inr, ◌⊎◌,
}
use x_sticker_bot.Base.FilePath.{AbsPath, path_eq, eq_path_iff}
use x_sticker_bot.Command.Fetch.{
  max_download_bytes, max_retries, Answer, Net, FetchError, too_large, Disk, Fetched, gave_up, got,
  request_loop, save, finish, url_of, local_path_of, download_telegram_file, too_many_requests,
}

save-frame :
    (net : Net) (limit : ℕ) (d : Disk) (path q : AbsPath) (body : Bytes) (broken : Bool)
    → q ≢ path
    → lookup q (save net limit d path body broken).1 ≡ lookup q d
unfolding save
save-frame net limit d path q body broken ne = ground (
  arith,
  eq_path_iff path q,
  lookup-insert path q (take (suc limit) body) d,
  lookup-erase path q (insert path (take (suc limit) body) d),
)

save-ok :
    (net : Net) (limit : ℕ) (d : Disk) (path : AbsPath) (body : Bytes) (broken : Bool)
    → (save net limit d path body broken).0 ≡ none
    → (lookup path (save net limit d path body broken).1 ≡ some body)
      × (length body ≤ limit)
      × (broken ≡ false)
unfolding save
save-ok net limit d path body broken h =
    let small : length (take (suc limit) body) ≤ limit = ground arith in
    let whole = take_all limit body small in
    let fits : length body ≤ limit = omega (arith, ap length whole) in
    (
      ground
          (arith, whole, eq_path_iff path path, lookup-insert path path (take (suc limit) body) d),
      fits,
      ground (arith, fits),
    )

-- An answer that the loop ends with is one of those to its attempts.
request_loop-answer :
    (net : Net) (url : Bytes) (left attempt : ℕ) (resp : Option Answer) (a : Answer)
    → (request_loop net url left attempt resp).2 ≡ got (some a)
    → (resp ≡ some a) ⊎ ((k : ℕ) × (k < attempt + left) × (net.answer url k ≡ some a))
unfolding request_loop
request_loop-answer net url zero attempt resp a h = inl (ground arith)
request_loop-answer net url (suc left) attempt resp a h =
    elim (Option-cases (net.answer url attempt)) [
      | inl lost ↦ absurd (ground arith)
      | inr (b, e) ↦ elim (Bool-cases (b.code == too_many_requests)) [
        | inr other ↦ inr (attempt, omega arith, ground arith)
        | inl limited ↦
            elim (request_loop-answer net url left (attempt + 1) (some b) a (ground arith)) [
              | inl same ↦ inr (attempt, omega arith, ground arith)
              | inr (k, lt, at) ↦ inr (k, omega arith, at)
            ]
      ]
    ]

-- The path of the file that a download writes.
abbrev pub target : Net → Bytes → AbsPath → Bytes → AbsPath
target net file_id work_dir name = elim (net.get_file file_id) [
  | none ↦ []
  | some file_path ↦ local_path_of work_dir name file_path
]

finish-frame :
    (net : Net) (limit : ℕ) (d : Disk) (path q : AbsPath) (f : Fetched)
    → q ≢ path
    → lookup q (finish net limit d path f).1 ≡ lookup q d
unfolding finish
finish-frame net limit d path q (gave_up e) ne = refl
finish-frame net limit d path q (got none) ne = refl
finish-frame net limit d path q (got (some a)) ne =
    ground (arith, save-frame net limit d path q a.body a.broken ne)

finish-ok :
    (net : Net) (limit : ℕ) (d : Disk) (path : AbsPath) (f : Fetched)
    → (finish net limit d path f).0 ≡ none
    → (a : Answer) × (f ≡ got (some a))
      × (a.code ≡ 200)
      × (lookup path (finish net limit d path f).1 ≡ some a.body)
      × (length a.body ≤ limit)
      × (a.broken ≡ false)
unfolding finish
finish-ok net limit d path (gave_up e) h = absurd (cc h)
finish-ok net limit d path (got none) h = absurd (cc h)
finish-ok net limit d path (got (some a)) h =
    let fine : a.code ≡ 200 = ground arith in
    let (stored, small, whole) = save-ok net limit d path a.body a.broken (ground arith) in
    (a, refl, fine, ground (arith, stored), small, whole)

finish-large :
    (net : Net) (limit : ℕ) (d : Disk) (path : AbsPath) (f : Fetched)
    → (finish net limit d path f).0 ≡ some too_large
    → ((x : FetchError) → f ≡ gave_up x → x ≢ too_large)
    → lookup path (finish net limit d path f).1 ≡ none
unfolding finish save
finish-large net limit d path (gave_up e) h ne = absurd (ne e refl (cc h))
finish-large net limit d path (got none) h ne = absurd (cc h)
finish-large net limit d path (got (some a)) h ne =
    ground (
      arith,
      eq_path_iff path path,
      lookup-erase path path (insert path (take (suc limit) a.body) d),
    )

-- A download without an error has written the whole body, of at most 100 MiB, of an answer 200 to
-- one of its three attempts, whose body could be read and written to its end.
pub download_telegram_file_ok :
    (net : Net) (token : Bytes) (d : Disk) (file_id : Bytes) (work_dir : AbsPath) (name : Bytes)
    → (download_telegram_file net token d file_id work_dir name).0 ≡ none
    → (file_path : Bytes) × (k : ℕ) × (a : Answer) × (net.get_file file_id ≡ some file_path)
      × (k < 3)
      × (net.answer (url_of token file_path) k ≡ some a)
      × (a.code ≡ 200)
      × (a.broken ≡ false)
      × (length a.body ≤ 100 * 1024 * 1024)
      × (lookup
            (download_telegram_file net token d file_id work_dir name).1
            (download_telegram_file net token d file_id work_dir name).2
          ≡ some a.body)
unfolding download_telegram_file
download_telegram_file_ok net token d file_id work_dir name h =
    elim (Option-cases (net.get_file file_id)) [
      | inl lost ↦ absurd (ground arith)
      | inr (file_path, e) ↦
          let url = url_of token file_path in
          let path = local_path_of work_dir name file_path in
          let fetched = request_loop net url max_retries 0 none in
          let (a, ends, fine, stored, small, whole) =
            finish-ok net max_download_bytes d path fetched.2 (ground arith) in
          elim (request_loop-answer net url max_retries 0 none a ends) [
            | inl none_yet ↦ absurd (cc none_yet)
            | inr (k, lt, at) ↦ (
              file_path,
              k,
              a,
              e,
              omega arith,
              at,
              fine,
              whole,
              small,
              rw (e, download_telegram_file) stored,
            )
          ]
    ]

-- Whatever happens, a download changes no file but its own.
pub download_telegram_file_frame :
    (net : Net) (token : Bytes) (d : Disk) (file_id : Bytes) (work_dir : AbsPath) (name : Bytes)
    (q : AbsPath)
    → q ≢ target net file_id work_dir name
    → lookup q (download_telegram_file net token d file_id work_dir name).2 ≡ lookup q d
unfolding download_telegram_file
download_telegram_file_frame net token d file_id work_dir name q ne =
    elim (Option-cases (net.get_file file_id)) [
      | inl lost ↦ rw (lost, download_telegram_file) refl
      | inr (file_path, e) ↦
          let path = local_path_of work_dir name file_path in
          let fetched = request_loop net (url_of token file_path) max_retries 0 none in
          rw (e, download_telegram_file)
            (finish-frame net max_download_bytes d path q fetched.2
              (λ same. ne (rw (e, target) same)))
    ]

request_loop-small :
    (net : Net) (url : Bytes) (left attempt : ℕ) (resp : Option Answer) (x : FetchError)
    → (request_loop net url left attempt resp).2 ≡ gave_up x
    → x ≢ too_large
unfolding request_loop
request_loop-small net url zero attempt resp x h = absurd (cc h)
request_loop-small net url (suc left) attempt resp x h =
    elim (Option-cases (net.answer url attempt)) [
      | inl lost ↦ λ same. absurd (ground arith)
      | inr (b, e) ↦
          elim (Bool-cases (b.code == too_many_requests && not (net.cancelled attempt))) [
            | inr other ↦ λ same. absurd (ground arith)
            | inl limited ↦ λ same. elim (Bool-cases (net.bad_url url)) [
              | inl bad ↦ absurd (ground arith)
              | inr fine ↦
                  request_loop-small net url left (attempt + 1) (some b) x (ground arith) same
            ]
          ]
    ]

-- After the refusal of a body that is too large, no file is left.
pub download_telegram_file_large :
    (net : Net) (token : Bytes) (d : Disk) (file_id : Bytes) (work_dir : AbsPath) (name : Bytes)
    → (download_telegram_file net token d file_id work_dir name).0 ≡ some too_large
    → lookup
        (download_telegram_file net token d file_id work_dir name).1
        (download_telegram_file net token d file_id work_dir name).2
      ≡ none
unfolding download_telegram_file
download_telegram_file_large net token d file_id work_dir name h =
    elim (Option-cases (net.get_file file_id)) [
      | inl lost ↦ absurd (ground arith)
      | inr (file_path, e) ↦
          let url = url_of token file_path in
          let path = local_path_of work_dir name file_path in
          let fetched = request_loop net url max_retries 0 none in
          rw (e, download_telegram_file)
            (finish-large net max_download_bytes d path fetched.2 (ground arith)
              (request_loop-small net url max_retries 0 none))
    ]
