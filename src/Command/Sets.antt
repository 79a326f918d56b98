-- ===== src/Command/Sets.antt =====
-- downloadStickerSet of internal/command/download.go. Each sticker has a goroutine; one action on
-- shared state is one step, and a schedule picks who acts and says what the clock shows. What comes
-- behind wg.Wait() is `after_wait`.
pub mod Counts
pub mod Files
pub mod Waiting
use x_sticker_bot.Base.{
  ℕ, suc, ◌+◌, ◌-◌, Bool, true, false, ◌&&◌, ◌||◌, Option, none, some, List, [], ◌∷◌, ◌++◌,
  if◌then◌else◌, ltb, leb, ◌==◌, length, get_elem?, set, replicate, Bytes, codes,
}
use x_sticker_bot.Base.Decimal.{decimal}
use x_sticker_bot.Base.FilePath.{AbsPath, join}
use x_sticker_bot.Telegram.{Sticker}
use x_sticker_bot.Storage.Temp.{Fs}
use x_sticker_bot.Command.Services.{
  Services, Reply, fatal_error, no_files, set_not_found, upload_failed, document, progress,
  progress_deleted, progress_edited, partial_download,
}

-- Where the goroutine of a sticker stands; the flag says whether its files are in the lists.
pub data Worker : Type 0 where
  -- before `sem <- struct{}{}`
  waiting : Worker
  fetching : Worker
  -- before ToGif or ToPng of the file
  converting : AbsPath → Worker
  -- before the appends under the lock
  storing : AbsPath → AbsPath → Worker
  -- before `completed.Add(1)`
  counting : Bool → Worker
  -- before throttledProgress
  showing : Bool → Worker
  -- before `<-sem` and `wg.Done()`
  leaving : Bool → Worker
  finished : Bool → Worker

-- `sem` is the number of elements in the channel; `last` is lastProgressUpdate.
pub record Crew : Type 0 where
  pub fs : Fs
  pub sem : ℕ
  pub workers : List Worker
  pub original_files : List AbsPath
  pub converted_files : List AbsPath
  pub completed : ℕ
  pub last : ℕ
  pub edits : List Reply

abbrev pub parallelism : ℕ
parallelism = 4

abbrev pub put : Crew → ℕ → Worker → Crew
put c i w = record c { workers = set c.workers i w }

abbrev pub member_name : Bytes → ℕ → Bytes
member_name set_id i = set_id ++ (b'_' ∷ decimal (i + 1))

abbrev pub start_crew : Fs → ℕ → Crew
start_crew fs total = record {
  fs = fs;
  sem = 0;
  workers = replicate total waiting;
  original_files = [];
  converted_files = [];
  completed = 0;
  last = 0;
  edits = [];
}

module _ (s : Services) where
  -- throttledProgress.
  unfoldable pub throttled : ℕ → Crew → ℕ → Crew
  throttled total c now =
      if (c.completed == total) || leb (c.last + 2000) now
      then record c {
        last = now;
        edits = c.edits ++ (if s.progress_sent then progress_edited c.completed total ∷ [] else []);
      }
      else c

  abbrev pub convert : Sticker → Fs → AbsPath → Option AbsPath × Fs
  convert st fs fp = if st.is_video || st.is_animated then s.to_gif fs fp else s.to_png fs fp

  -- The original on failure.
  abbrev pub converted_or : AbsPath → Option AbsPath → AbsPath
  converted_or fp none = fp
  converted_or fp (some cf) = cf

  module _ (set_id : Bytes) (dir : AbsPath) (total : ℕ) where
    -- The next action of worker `i`.
    unfoldable pub act : Worker → Crew → ℕ → Sticker → ℕ → Crew
    unfolding throttled
    act waiting c i st now =
        if ltb c.sem parallelism then put (record c { sem = c.sem + 1 }) i fetching else c
    act fetching c i st now =
        let (got, fs) = s.fetch c.fs st.file_id dir (member_name set_id i) in
        elim got [
          | none ↦ put (record c { fs = fs }) i (counting false)
          | some fp ↦ put (record c { fs = fs }) i (converting fp)
        ]
    act (converting fp) c i st now =
        let (made, fs) = convert st c.fs fp in
        put (record c { fs = fs }) i (storing fp (converted_or fp made))
    act (storing fp cf) c i st now =
        put
          (record c {
            original_files = c.original_files ++ fp ∷ [];
            converted_files = c.converted_files ++ cf ∷ [];
          })
          i (counting true)
    act (counting kept) c i st now = put (record c { completed = c.completed + 1 }) i (showing kept)
    act (showing kept) c i st now = put (throttled total c now) i (leaving kept)
    act (leaving kept) c i st now = put (record c { sem = c.sem - 1 }) i (finished kept)
    act (finished kept) c i st now = c

    unfoldable pub step : List Sticker → Crew → ℕ × ℕ → Crew
    unfolding act
    step stickers c (i, now) = elim (get_elem? c.workers i) [
      | none ↦ c
      | some w ↦ elim (get_elem? stickers i) [ none ↦ c | some st ↦ act w c i st now ]
    ]

    unfoldable pub run : List Sticker → Crew → List (ℕ × ℕ) → Crew
    unfolding step
    run stickers c [] = c
    run stickers c (e ∷ es) = run stickers (step stickers c e) es

  -- The loop over zipPaths: the documents sent, and whether one failed.
  unfoldable pub send_all : Fs → List AbsPath → List Reply × Bool
  send_all fs [] = ([], false)
  send_all fs (z ∷ zs) =
      let (sent, any_failed) = send_all fs zs in
      if s.sends fs z then (document z ∷ sent, any_failed) else (sent, true)

  abbrev pub paths_of : Option (List AbsPath) → List AbsPath
  paths_of none = []
  paths_of (some zs) = zs

  unfoldable pub send_volumes : Fs → List AbsPath → List Reply
  unfolding send_all
  send_volumes fs [] = upload_failed ∷ []
  send_volumes fs (z ∷ zs) =
      let (sent, any_failed) = send_all fs (z ∷ zs) in
      sent ++ (if any_failed then upload_failed ∷ [] else [])

  -- What follows wg.Wait().
  unfoldable pub after_wait : Bytes → AbsPath → ℕ → Crew → List Reply × Fs
  unfolding send_volumes
  after_wait set_id dir total c =
      let n = length c.original_files in
      let (originals, fs) =
        s.f_compress_vol c.fs (join dir (set_id ++ codes "_original.zip")) c.original_files in
      let (conversions, fs') =
        s.f_compress_vol fs (join dir (set_id ++ codes "_converted.zip")) c.converted_files in
      if n == 0 then (fatal_error no_files ∷ [], c.fs) else (
        (if ltb n total then partial_download n total ∷ [] else [])
            ++ send_volumes fs' (paths_of originals ++ paths_of conversions),
        fs',
      )

  abbrev pub if_sent : Reply → List Reply
  if_sent r = if s.progress_sent then r ∷ [] else []

  unfoldable pub download_sticker_set : Fs → Bytes → AbsPath → List (ℕ × ℕ) → List Reply × Fs
  unfolding run after_wait
  download_sticker_set fs set_id dir schedule = elim (s.sticker_set set_id) [
    | none ↦ (set_not_found ∷ [], fs)
    | some stickers ↦
        let total = length stickers in
        let c = run set_id dir total stickers (start_crew fs total) schedule in
        let (replies, fs') = after_wait set_id dir total c in
        (if_sent progress ++ (c.edits ++ (if_sent progress_deleted ++ replies)), fs')
  ]
