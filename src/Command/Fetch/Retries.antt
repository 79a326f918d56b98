-- ===== src/Command/Fetch/Retries.antt =====
-- How often a download asks, how long it waits, and when it succeeds.
use x_sticker_bot.Base.{
  ℕ, zero, suc, ◌+◌, ◌*◌, ◌≤◌, ◌<◌, ◌≡◌, ◌≢◌, refl, sym, ap, false, Option, none, some, [], ◌∷◌,
  arith, ◌∙◌, eq_bytes, length, length-take, Bytes,
}
use x_sticker_bot.Base.FilePath.{AbsPath}
use x_sticker_bot.Command.Fetch.{
  max_download_bytes, max_retries, second, wait_of, Answer, Net, Disk, got, request_loop, save,
  finish, url_of, local_path_of, download_telegram_file, too_many_requests,
}

-- The attempt is answered 429, and the wait behind it is not cut short.
abbrev pub Limited : Net → Bytes → ℕ → Answer → Type 0
Limited net url k a =
    (net.answer url k ≡ some a) × (a.code ≡ too_many_requests) × (net.cancelled k ≡ false)

loop_backs_off :
    (net : Net) (url : Bytes) (left attempt : ℕ) (resp : Option Answer) (a : Answer)
    → net.bad_url url ≡ false
    → Limited net url attempt a
    → request_loop net url (suc left) attempt resp ≡ (
        let later = request_loop net url left (attempt + 1) (some a) in
        (1 + later.0, wait_of attempt a.retry_after ∷ later.1, later.2))
unfolding request_loop
loop_backs_off net url left attempt resp a fine (at, code, going) = ground arith

-- Three answers 429 in a row make three requests and three waits, the last of them behind the last
-- request; with no Retry-After header the waits are 1, 2 and 4 seconds. No fourth request is made.
pub request_loop_backs_off :
    (net : Net) (url : Bytes) (a b c : Answer)
    → net.bad_url url ≡ false
    → Limited net url 0 a
    → Limited net url 1 b
    → Limited net url 2 c
    → (request_loop net url max_retries 0 none ≡ (
      3,
      wait_of 0 a.retry_after ∷ wait_of 1 b.retry_after ∷ wait_of 2 c.retry_after ∷ [],
      got (some c),
    ))
      × (wait_of 0 [] ≡ second)
      × (wait_of 1 [] ≡ 2 * second)
      × (wait_of 2 [] ≡ 4 * second)
unfolding wait_of request_loop eq_bytes
request_loop_backs_off net url a b c fine l0 l1 l2 = (
  ground (
    arith,
    loop_backs_off net url 2 0 none a fine l0,
    loop_backs_off net url 1 1 (some a) b fine l1,
    loop_backs_off net url 0 2 (some b) c fine l2,
  ),
  refl,
  refl,
  refl,
)

loop-reaches :
    (net : Net) (url : Bytes) (j left attempt : ℕ) (resp : Option Answer) (a : Answer)
    → net.bad_url url ≡ false
    → j < left
    → ((i : ℕ) → attempt ≤ i → i < attempt + j → (b : Answer) × Limited net url i b)
    → net.answer url (attempt + j) ≡ some a
    → a.code ≢ too_many_requests
    → (request_loop net url left attempt resp).2 ≡ got (some a)
unfolding request_loop
loop-reaches net url j zero attempt resp a fine lt before at other = absurd (omega arith)
loop-reaches net url zero (suc left) attempt resp a fine lt before at other =
    let here : attempt + 0 ≡ attempt = omega arith in
    let e : net.answer url attempt ≡ some a = rw (sym here) at in ground arith
loop-reaches net url (suc j) (suc left) attempt resp a fine lt before at other =
    let (b, lim) = before attempt (omega arith) (omega arith) in
    let shift : attempt + suc j ≡ attempt + 1 + j = omega arith in
    ap (λ r. r.2) (loop_backs_off net url left attempt resp b fine lim)
    ∙ loop-reaches net url j left (attempt + 1) (some b) a fine (omega arith)
        (λ i lo hi. before i (omega arith) (omega arith)) (rw (sym shift) at) other

save-fits :
    (net : Net) (limit : ℕ) (d : Disk) (path : AbsPath) (body : Bytes)
    → net.create_fails path ≡ false
    → length body ≤ limit
    → (save net limit d path body false).0 ≡ none
unfolding save
save-fits net limit d path body made small = ground (arith, length-take (suc limit) body)

-- A download succeeds if the file is known, the answers to its attempts before the `k`-th are 429
-- and its waits are not cut short, the `k`-th of three is 200 with a whole body of at most 100 MiB,
-- and the file can be created.
pub download_telegram_file_total :
    (net : Net) (token : Bytes) (d : Disk) (file_id : Bytes) (work_dir : AbsPath) (name : Bytes)
    (file_path : Bytes) (k : ℕ) (a : Answer)
    → net.get_file file_id ≡ some file_path
    → net.bad_url (url_of token file_path) ≡ false
    → k < 3
    → ((i : ℕ) → i < k → (b : Answer) × Limited net (url_of token file_path) i b)
    → net.answer (url_of token file_path) k ≡ some a
    → a.code ≡ 200
    → a.broken ≡ false
    → length a.body ≤ 100 * 1024 * 1024
    → net.create_fails (local_path_of work_dir name file_path) ≡ false
    → (download_telegram_file net token d file_id work_dir name).0 ≡ none
unfolding download_telegram_file finish
download_telegram_file_total net token d file_id work_dir name file_path k a known fine lt before at
      ok whole small made =
    let url = url_of token file_path in
    let path = local_path_of work_dir name file_path in
    let start : 0 + k ≡ k = omega arith in
    let reached : (request_loop net url max_retries 0 none).2 ≡ got (some a) =
      loop-reaches net url k max_retries 0 none a fine lt (λ i lo hi. before i (omega arith))
        (rw start at) (omega arith) in
    let saved : (save net max_download_bytes d path a.body a.broken).0 ≡ none =
      rw whole (save-fits net max_download_bytes d path a.body made small) in
    rw (known, download_telegram_file) (rw (reached, ok, finish) saved)
