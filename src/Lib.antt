-- ===== src/Lib.antt =====
-- Verification library of x_sticker_bot, a Telegram bot that downloads stickers and sticker sets,
-- converts them and sends them as files. Updates come in by long polling; a router limits their rate
-- and hands them to command and message handlers, which run at most one task per user and 20 in all,
-- work in temporary directories, and send ZIP volumes. A dashboard reports metrics and health.
--
-- Base holds the shared names: Boolean tests, lists over the native numbers, texts as lists of codes
-- (bytes, or code points where the program ranges over them), dictionaries as association lists,
-- decimal printing, HTML as Telegram reads it, and cleaned absolute paths (path/filepath on a Unix
-- system).
--
-- The files and the code they are about:
--
--   Command/Tasks       tryRunTask of internal/command/download.go, with GlobalSem and userTasks of
--                       internal/command/common.go and cmd/x_sticker_bot/main.go. One action on
--                       shared state is a step of a goroutine; a schedule is any list of goroutines.
--   Command/Messages    HandleMessage of internal/command/download.go and CmdGetFID of
--                       internal/command/common.go: an update leads to a list of actions.
--   Command/Sets        downloadStickerSet of internal/command/download.go. One action on shared state
--                       is a step of a sticker's goroutine; a schedule is any list of goroutines and
--                       times. 7 actions for each sticker are enough.
--   Command/Download    HandleDownload, downloadSingleSticker and handleAnimationDownload of
--                       internal/command/download.go, over the file system of Storage/Temp.
--                       Command/Download/Animated puts ToGif of .tgs files, which is Sticker/Tgs, in the
--                       place that the interface has for it.
--   Command/Info        HandleStickerInfo of internal/command/common.go.
--   Command/Replies     the commands and the helpers of internal/command/common.go and
--                       internal/command/download.go that talk to Telegram, as lists of requests.
--   Message             internal/message/message.go.
--   Command/Services    what these handlers call of the other parts, as an interface with laws. The
--                       results below do not rest on its laws.
--   Command/Links       findTGLink and getSIDFromMessage of internal/command/download.go. url.Parse
--                       is a parameter, with what its documentation says of RawPath as a hypothesis.
--   Command/Fetch       downloadTelegramFile of internal/command/download.go. The loop runs on its
--                       number of attempts, maxRetries.
--   Limiter             internal/ratelimit/limiter.go. golang.org/x/time/rate is the interface Rate;
--                       Limiter/Burst adds what that package documents of tokens;
--                       Limiter/Cleanup is StartCleanup between the calls of the handlers.
--   Bot/Router          the handlers of internal/bot/bot.go, threaded through limiter and metrics.
--   Bot/Polling         pollingHTTPClient and validUpdatesResponse of internal/bot/polling.go. The
--                       inner client's reply and the JSON decoder are parameters.
--   Bot/Run             Run and startMonitorServer of internal/bot/bot.go, main and newCommandHandler of
--                       cmd/x_sticker_bot/main.go: what is acquired, started and released, in order.
--   Config              internal/config/config.go. What package flag reads is a record;
--                       its exits, on a bad flag or for help, are not part of main.
--   Bot/Redact          logTelegramError of internal/bot/polling.go.
--   Storage/Temp        TempManager of internal/storage/tempfile.go over a dictionary of paths; which
--                       calls of the system fail is a record of tests.
--                       Storage/Temp/AutoClean is StartAutoClean between the work of the downloads.
--   Storage/Stats       internal/storage/stats.go: the SQL statements as functions on the rows.
--   Sticker/Programs, Sticker/Convert, Sticker/Guess
--                       internal/sticker/convert.go. The programs that are run and the files they leave
--                       are the record Tools. ToWebmVideo calls itself on fuel; two rounds
--                       are enough unless ffmpeg refuses an APNG as it refuses an animated WEBP.
--   Sticker/Tgs         internal/sticker/tgs.go, over the file system of Storage/Temp. gzip, the JSON
--                       decoder and floating point are parameters.
--   Sticker/Archive     FCompress of internal/sticker/util.go; the system and the encoding of ZIP
--                       files are a record.
--   Sticker/Volumes     FCompressVol of internal/sticker/util.go.
--   Sticker/Files, Sticker/Extract
--                       LsFiles, LsFilesR, matchFilter, SecHex and ArchiveExtract of
--                       internal/sticker/util.go, and the test of ToGif for .tgs files.
--   Sticker/Workers     internal/sticker/workers.go. The pool of github.com/panjf2000/ants is a parameter.
--   Monitor/Ring, Monitor/Metrics
--                       internal/monitor/metrics.go. Floating point is a record of operations.
--   Monitor/Health      internal/monitor/poll_health.go.
--   Monitor/Dashboard   the routes of internal/monitor/dashboard.go.
--   Telegram            the fields of the models of github.com/go-telegram/bot that are read.
--
-- The Tests modules hold the examples. In their proofs every parameter is a concrete function.
--
-- Counters of type int64 and sizes of files are bit patterns with their wrap-around written out;
-- times and durations are numbers, with 0 for the zero time. User ids are numbers, but for the
-- temporary directories, where the sign shows in the name, and the statistics. Text that the program
-- folds to lower case is taken to be ASCII. Locks make each operation one step, and
-- throttledProgress is one step; the limiter and the metrics are modelled one call at a time.
--
-- The count of a row of the statistics is a number: that it stays below 2 ^ 63 is not checked.
--
-- Not modelled: logging; the HTML of the dashboard's page; Close of the
-- database, which only closes it; the libraries' own code.
pub mod Base
pub mod Monitor
pub mod Command
pub mod Sticker
pub mod Storage
pub mod Bot
pub mod Limiter
pub mod Telegram
pub mod Config
pub mod Message
