-- ===== src/Command/Fetch.antt =====
-- downloadTelegramFile of internal/command/download.go. What Telegram and the system answer is the
-- record `Net`; the disk is a dictionary of the files' contents. Durations are nanoseconds.
pub mod Saved
pub mod Retries
use x_sticker_bot.Base.{
  ℕ, zero, suc, ◌+◌, ◌*◌, ◌%◌, ◌^◌, Bool, true, false, ◌&&◌, not, Option, none, some, List, [], ◌∷◌,
  ◌++◌, if◌then◌else◌, ltb, leb, ◌==◌, length, take, Bytes, codes, eq_bytes, insert, erase,
}
use x_sticker_bot.Base.Int.{ℤ, pos, negsuc, atoi}
use x_sticker_bot.Base.FilePath.{AbsPath, join, path_eq}
use x_sticker_bot.Command.Links.{path_base}

abbrev pub max_download_bytes : ℕ
max_download_bytes = 100 * 1024 * 1024

abbrev pub max_retries : ℕ
max_retries = 3

abbrev pub too_many_requests : ℕ
too_many_requests = 429

-- A response: `body` is what can be read of it, or written to the file, before the end, or before
-- an error if it is `broken`.
pub record Answer : Type 0 where
  pub code : ℕ
  pub retry_after : Bytes
  pub body : Bytes
  pub broken : Bool

pub record Net : Type 0 where
  -- GetFile, by file id: the file's path
  pub get_file : Bytes → Option Bytes
  -- http.NewRequestWithContext fails for this URL
  pub bad_url : Bytes → Bool
  -- the answer to each attempt, `none` for a connection error
  pub answer : Bytes → ℕ → Option Answer
  -- the context is done before the wait of this attempt is over
  pub cancelled : ℕ → Bool
  pub create_fails : AbsPath → Bool

pub data FetchError : Type 0 where
  get_file_failed bad_request connection_error context_done no_response : FetchError
  bad_status : ℕ → FetchError
  create_failed write_failed too_large : FetchError

abbrev pub Disk : Type 0
Disk = List (AbsPath × Bytes)

-- filepath.Ext of one path element: from the last dot on. `after` is the part from the last dot
-- so far.
abbrev pub next_ext : ℕ → Bytes → Bytes
next_ext c after = if c == b'.' then c ∷ [] else elim after [ [] ↦ [] | d ∷ t ↦ (d ∷ t) ++ c ∷ [] ]

unfoldable pub ext_from : Bytes → Bytes → Bytes
ext_from [] after = after
ext_from (c ∷ s) after = ext_from s (next_ext c after)

-- strconv.Atoi, where its result is positive.
pub positive_atoi : Bytes → Option ℕ
positive_atoi text = elim (atoi text) [
  | none ↦ none
  | some (negsuc n) ↦ none
  | some (pos n) ↦ if ltb 0 n then some n else none
]

abbrev pub second : ℕ
second = 1_000_000_000

-- `waitDur` after an answer 429, as the bit pattern of an int64.
pub wait_of : ℕ → Bytes → ℕ
unfolding positive_atoi
wait_of attempt retry_after =
    elim (if eq_bytes retry_after [] then none else positive_atoi retry_after) [
      | none ↦ (2 ^ attempt * second) % 2 ^ 64
      | some sec ↦ (sec * second) % 2 ^ 64
    ]

-- How the loop ends: an early return, or the value of `resp` behind it.
pub data Fetched : Type 0 where
  gave_up : FetchError → Fetched
  got : Option Answer → Fetched

-- The loop with `left` attempts to go: the requests made, the waits, and how it ends.
unfoldable pub request_loop : Net → Bytes → ℕ → ℕ → Option Answer → ℕ × List ℕ × Fetched
unfolding wait_of
request_loop net url zero attempt resp = (0, [], got resp)
request_loop net url (suc left) attempt resp =
    if net.bad_url url then (0, [], gave_up bad_request) else elim (net.answer url attempt) [
      | none ↦ (1, [], gave_up connection_error)
      | some a ↦
          let later = request_loop net url left (attempt + 1) (some a) in
          let pause = wait_of attempt a.retry_after in
          if a.code == too_many_requests
          then (if net.cancelled attempt
              then (1, pause ∷ [], gave_up context_done)
              else (1 + later.0, pause ∷ later.1, later.2))
          else (1, [], got (some a))
    ]

-- os.Create, io.Copy of at most `limit + 1` bytes, and the test of the size.
pub save : Net → ℕ → Disk → AbsPath → Bytes → Bool → Option FetchError × Disk
save net limit d path body broken =
    let stored = insert path (take (suc limit) body) d in
    if net.create_fails path
    then (some create_failed, d)
    else if broken && leb (length body) limit
    then (some write_failed, stored)
    else if ltb limit (length (take (suc limit) body))
    then (some too_large, erase path stored)
    else (none, stored)

-- What follows the loop.
pub finish : Net → ℕ → Disk → AbsPath → Fetched → Option FetchError × Disk
unfolding save
finish net limit d path (gave_up e) = (some e, d)
finish net limit d path (got none) = (some no_response, d)
finish net limit d path (got (some a)) =
    if not (a.code == 200)
    then (some (bad_status a.code), d)
    else save net limit d path a.body a.broken

abbrev pub url_of : Bytes → Bytes → Bytes
url_of token file_path = codes "https://api.telegram.org/file/bot" ++ (token ++ (b'/' ∷ file_path))

abbrev pub local_path_of : AbsPath → Bytes → Bytes → AbsPath
local_path_of work_dir name file_path = join work_dir (name ++ ext_from (path_base file_path) [])

-- The error, if there is one, or the path of the file; and the disk.
pub download_telegram_file :
    Net → Bytes → Disk → Bytes → AbsPath → Bytes → Option FetchError × AbsPath × Disk
unfolding request_loop finish
download_telegram_file net token d file_id work_dir name = elim (net.get_file file_id) [
  | none ↦ (some get_file_failed, [], d)
  | some file_path ↦
      let path = local_path_of work_dir name file_path in
      let fetched = request_loop net (url_of token file_path) max_retries 0 none in
      let (e, d') = finish net max_download_bytes d path fetched.2 in (e, path, d')
]
