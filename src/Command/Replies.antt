-- ===== src/Command/Replies.antt =====
-- The helpers of internal/command/common.go and internal/command/download.go that talk to Telegram,
-- and the commands of internal/command/common.go. A call of Telegram is a request; its errors are
-- only logged, but for those of a document.
pub mod Parsable
pub mod Buttons
mod Tests
use x_sticker_bot.Base.{
  ℕ, Bool, true, false, Option, none, some, List, [], ◌∷◌, ◌++◌, if◌then◌else◌, ◌==◌, Bytes, codes,
  eq_bytes,
}
use x_sticker_bot.Base.Int.{ℤ}
use x_sticker_bot.Base.FilePath.{AbsPath, base, to_bytes}
use x_sticker_bot.Telegram.{Sticker, Message, Update}
use x_sticker_bot.Storage.Stats.{Row, Call, record_event}
use x_sticker_bot.Message.{Keyboard}
use x_sticker_bot.Message as Text
use x_sticker_bot.Command.Services.{
  Fault, Reply, fatal_error, set_not_found, upload_failed, document, progress, progress_deleted,
  progress_edited, partial_download,
}
use x_sticker_bot.Command.Messages.{
  Step, answer_callback, send_hint, send_no_media, send_file_id, try_task, work,
}

-- SendMessageParams; the parse mode is HTML where `html` is set.
pub record Outgoing : Type 0 where
  pub chat_id : ℕ
  pub text : Bytes
  pub html : Bool
  pub reply_markup : Option Keyboard
  pub reply_to : Option ℕ

pub data Request : Type 0 where
  send_message : Outgoing → Request
  -- chat and message
  delete_message_text : ℕ → ℕ → Request
  edit_message_text : ℕ → ℕ → Bytes → Request
  answer_callback_query : Bytes → Request
  -- chat, path and name
  upload : ℕ → Bytes → Bytes → Request

abbrev pub html_message : ℕ → Bytes → Outgoing
html_message chat text = record {
  chat_id = chat;
  text = text;
  html = true;
  reply_markup = none;
  reply_to = none;
}

-- The requests, and the id of the message or 0; `telegram` answers the id, or an error.
unfoldable pub send_progress : (Outgoing → Option ℕ) → ℕ → Bytes → ℕ × List Request
send_progress telegram chat text =
    let m = html_message chat text in
    let id : ℕ = elim (telegram m) [ none ↦ 0 | some n ↦ n ] in (id, send_message m ∷ [])

unfoldable pub send_text : ℕ → Bytes → List Request
send_text chat text = send_message (html_message chat text) ∷ []

unfoldable pub delete_message : ℕ → ℕ → List Request
delete_message chat id = if id == 0 then [] else delete_message_text chat id ∷ []

unfoldable pub edit_text : ℕ → ℕ → Bytes → List Request
edit_text chat id text = if id == 0 then [] else edit_message_text chat id text ∷ []

unfoldable pub send_with_keyboard_reply : ℕ → ℕ → Bytes → Keyboard → List Request
send_with_keyboard_reply chat reply_to_id text kb =
    send_message (record {
      chat_id = chat;
      text = text;
      html = true;
      reply_markup = some kb;
      reply_to = if reply_to_id == 0 then none else some reply_to_id;
    })
    ∷ []

unfoldable pub answer_query : Bytes → List Request
answer_query id = answer_callback_query id ∷ []

-- The requests, and whether there is no error: os.Open may fail, or SendDocument.
unfoldable pub send_document : Bool → Bool → ℕ → Bytes → Bytes → List Request × Bool
send_document opens sends chat path name =
    if opens then (upload chat path name ∷ [], sends) else ([], false)

-- recordStat: the rows of the database, if there is one.
unfoldable pub record_stat : (ℤ → Bytes) → Call → Option (List Row) → Option (List Row)
record_stat hash c stats = elim stats [ none ↦ none | some rows ↦ some (record_event hash c rows) ]

abbrev pub reply_to_message : Update → (ℕ → List Request) → List Request
reply_to_message u k = elim u.message [ none ↦ [] | some msg ↦ k msg.chat ]

unfoldable pub cmd_start : Update → List Request
unfolding send_text
cmd_start u = reply_to_message u (λ chat. send_text chat Text.start_message)

unfoldable pub cmd_about : Bytes → Update → List Request
unfolding send_text
cmd_about version u = reply_to_message u (λ chat. send_text chat (Text.about_message version))

unfoldable pub cmd_info : Update → List Request
unfolding send_text
cmd_info u = reply_to_message u (λ chat.
    send_text chat (codes "Send a sticker to view its set info." ++ (10 ∷ codes "发送一个贴纸来查看贴纸包详情。")))

-- The texts of HandleMessage and CmdGetFID; tasks and works make requests of their own.
unfoldable pub step_requests : Step → List Request
unfolding send_text answer_query
step_requests (answer_callback id) = answer_query id
step_requests (send_hint chat) = send_text chat Text.send_sticker_hint
step_requests (send_no_media chat) = send_text chat (codes "No media found.")
step_requests (send_file_id chat file_id) =
    send_text chat (codes "<code>" ++ (file_id ++ codes "</code>"))
step_requests (try_task chat uid ws) = []
step_requests (work chat w) = []

-- What tryRunTask sends when it does not run the task.
unfoldable pub refusal : ℕ → Bool → List Request
unfolding send_text
refusal chat user_busy = send_text chat (if user_busy then Text.user_busy else Text.server_busy)

-- The replies of HandleDownload and handleAnimationDownload. `error_text` are the errors' texts, and
-- `started` and `id` are the text of the progress message, which differs between sets and
-- animations, and its id.
module _ (error_text : Fault → Bytes) (started : Bytes) (chat id : ℕ) where
  unfoldable pub reply_requests : Reply → List Request
  unfolding send_text edit_text delete_message
  reply_requests (fatal_error f) = send_text chat (Text.fatal_error (some (error_text f)))
  reply_requests set_not_found = send_text chat (codes "Cannot find this sticker set. /start")
  reply_requests upload_failed = send_text chat Text.document_upload_failed
  reply_requests (document p) = upload chat (to_bytes p) (base p) ∷ []
  reply_requests progress = send_text chat started
  reply_requests progress_deleted = delete_message chat id
  reply_requests (progress_edited n total) = edit_text chat id (Text.download_progress n total)
  reply_requests (partial_download n total) = send_text chat (Text.partial_download n total)

-- The function of the task for a sticker; `replies` are those of HandleDownload.
unfoldable pub sticker_requests :
    (Outgoing → Option ℕ) → ℕ → Message → Sticker → List Request → List Request
unfolding send_progress delete_message send_with_keyboard_reply
sticker_requests telegram chat msg s replies =
    let (progress_id, started) = send_progress telegram chat Text.process_started in
    let (text, kb) = Text.offer_whole_set_download in
    let offer = send_with_keyboard_reply chat msg.id text kb in
    started
    ++ (replies
        ++ (delete_message chat progress_id ++ (if eq_bytes s.set_name [] then [] else offer)))
