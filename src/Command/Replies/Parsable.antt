-- ===== src/Command/Replies/Parsable.antt =====
-- The markup of what the handlers send.
use x_sticker_bot.Base.{
  ℕ, ◌==◌, refl, Bool, true, false, List, [], ◌∷◌, ◌++◌, Option, none, some, Bytes, All, inl, inr,
  Option-cases, Bool-cases, All-append, eq_bytes, if◌then◌else◌,
}
use x_sticker_bot.Base.Html.{read, IsMarkup, IsPlain, plain-IsNeutral}
use x_sticker_bot.Telegram.{Sticker, Message, Update}
use x_sticker_bot.Message.{process_started, download_progress, offer_whole_set_download}
use x_sticker_bot.Message.Markup.{messages-IsMarkup, code-IsNeutral}
use x_sticker_bot.Command.Info.{StickerSet, handle_sticker_info}
use x_sticker_bot.Command.Info.Markup.{handle_sticker_info-IsMarkup}
use x_sticker_bot.Command.Services.{
  Fault, Reply, fatal_error, set_not_found, upload_failed, document, progress, progress_deleted,
  progress_edited, partial_download,
}
use x_sticker_bot.Command.Messages.{
  Step, answer_callback, send_hint, send_no_media, send_file_id, try_task, work,
}
use x_sticker_bot.Command.Replies.{
  Outgoing, Request, send_message, delete_message_text, edit_message_text, answer_callback_query,
  upload, send_text, send_progress, delete_message, edit_text, send_with_keyboard_reply, cmd_start,
  cmd_about, cmd_info, step_requests, refusal, reply_requests, sticker_requests, reply_to_message,
}

-- Telegram can parse the text of the request as HTML: its tags and entities are right. Its length
-- is not looked at.
abbrev pub IsParsable : Request → Type 0
IsParsable (send_message m) = IsMarkup m.text
IsParsable (edit_message_text chat id text) = IsMarkup text
IsParsable (delete_message_text chat id) = Unit
IsParsable (answer_callback_query id) = Unit
IsParsable (upload chat path name) = Unit

-- The file ids of Telegram hold no markup.
abbrev pub HasPlainId : Step → Type 0
HasPlainId (send_file_id chat file_id) = IsPlain file_id
HasPlainId _ = Unit

step_requests-IsParsable : (st : Step) → HasPlainId st → All IsParsable (step_requests st)
unfolding step_requests read
step_requests-IsParsable (answer_callback id) h = (tt, tt)
step_requests-IsParsable (send_hint chat) h = ((messages-IsMarkup [] none 0 0 tt).10, tt)
step_requests-IsParsable (send_no_media chat) h = (refl, tt)
step_requests-IsParsable (send_file_id chat file_id) h =
    (code-IsNeutral file_id (plain-IsNeutral file_id h) [], tt)
step_requests-IsParsable (try_task chat uid ws) h = tt
step_requests-IsParsable (work chat w) h = tt

edit_text-IsParsable :
    (chat id : ℕ) (text : Bytes) → IsMarkup text → All IsParsable (edit_text chat id text)
unfolding edit_text
edit_text-IsParsable chat id text h = elim (Bool-cases (id == 0)) [
  | inl none_sent ↦ rw none_sent tt
  | inr sent ↦ rw sent (h, tt)
]

delete_message-IsParsable : (chat id : ℕ) → All IsParsable (delete_message chat id)
unfolding delete_message
delete_message-IsParsable chat id = elim (Bool-cases (id == 0)) [
  | inl none_sent ↦ rw none_sent tt
  | inr sent ↦ rw sent (tt, tt)
]

reply_requests-IsParsable :
    (error_text : Fault → Bytes) (started : Bytes) (chat id : ℕ) (reply : Reply)
    → IsMarkup started
    → All IsParsable (reply_requests error_text started chat id reply)
unfolding reply_requests read
reply_requests-IsParsable error_text started chat id (fatal_error f) h =
    ((messages-IsMarkup [] (some (error_text f)) 0 0 tt).6, tt)
reply_requests-IsParsable error_text started chat id set_not_found h = (refl, tt)
reply_requests-IsParsable error_text started chat id upload_failed h =
    ((messages-IsMarkup [] none 0 0 tt).7, tt)
reply_requests-IsParsable error_text started chat id (document p) h = (tt, tt)
reply_requests-IsParsable error_text started chat id progress h = (h, tt)
reply_requests-IsParsable error_text started chat id progress_deleted h =
    delete_message-IsParsable chat id
reply_requests-IsParsable error_text started chat id (progress_edited n total) h =
    edit_text-IsParsable chat id _ (messages-IsMarkup [] none n total tt).4
reply_requests-IsParsable error_text started chat id (partial_download n total) h =
    ((messages-IsMarkup [] none n total tt).5, tt)

-- The requests of several replies.
abbrev pub all_requests : (Fault → Bytes) → Bytes → ℕ → ℕ → List Reply → List Request
all_requests error_text started chat id [] = []
all_requests error_text started chat id (reply ∷ replies) =
    reply_requests error_text started chat id reply
    ++ all_requests error_text started chat id replies

all_requests-IsParsable :
    (error_text : Fault → Bytes) (started : Bytes) (chat id : ℕ) (replies : List Reply)
    → IsMarkup started
    → All IsParsable (all_requests error_text started chat id replies)
all_requests-IsParsable error_text started chat id [] h = tt
all_requests-IsParsable error_text started chat id (reply ∷ replies) h =
    All-append IsParsable (reply_requests error_text started chat id reply)
      (all_requests error_text started chat id replies)
      (reply_requests-IsParsable error_text started chat id reply h)
      (all_requests-IsParsable error_text started chat id replies h)

sticker_requests-IsParsable :
    (telegram : Outgoing → Option ℕ) (chat : ℕ) (msg : Message) (s : Sticker)
    (replies : List Request)
    → All IsParsable replies
    → All IsParsable (sticker_requests telegram chat msg s replies)
unfolding sticker_requests send_progress send_with_keyboard_reply offer_whole_set_download read
sticker_requests-IsParsable telegram chat msg s replies h =
    let progress_id = (send_progress telegram chat process_started).0 in
    let offer : List Request =
      if eq_bytes s.set_name []
      then []
      else send_with_keyboard_reply chat msg.id offer_whole_set_download.0
          offer_whole_set_download.1 in
    let offered : All IsParsable offer = elim (Bool-cases (eq_bytes s.set_name [])) [
      | inl alone ↦ rw alone tt
      | inr in_set ↦ rw in_set (refl, tt)
    ] in
    (
      (messages-IsMarkup [] none 0 0 tt).3,
      All-append IsParsable replies (delete_message chat progress_id ++ offer) h (
          All-append IsParsable (delete_message chat progress_id) offer
            (delete_message-IsParsable chat progress_id) offered),
    )

command-IsParsable :
    (u : Update) (k : ℕ → List Request)
    → ((chat : ℕ) → All IsParsable (k chat))
    → All IsParsable (reply_to_message u k)
command-IsParsable u k h = elim (Option-cases u.message) [
  | inl e ↦ rw e tt
  | inr (msg, e) ↦ rw e (h msg.chat)
]

-- Telegram can parse as HTML every text that the commands, HandleMessage, HandleStickerInfo, a
-- refused task and the tasks of a sticker, a set and an animation send, the first progress message
-- of each task included, whatever the errors' texts and the titles of sets are, whatever replies a
-- download has led to, and whatever Telegram answers. Nothing is said of the length of a text. (The
-- version and the file ids have no markup in them.)
pub requests-IsParsable :
    (version : Bytes) (u : Update) (st : Step) (chat id total : ℕ) (busy : Bool)
    (telegram : Outgoing → Option ℕ) (msg : Message) (s : Sticker) (error_text : Fault → Bytes)
    (replies : List Reply) (sticker_set : Bytes → Option StickerSet)
    → IsPlain version
    → HasPlainId st
    → All IsParsable (cmd_start u)
      × All IsParsable (cmd_about version u)
      × All IsParsable (cmd_info u)
      × All IsParsable (step_requests st)
      × All IsParsable (refusal chat busy)
      × All IsParsable (
          sticker_requests telegram chat msg s
            (all_requests error_text process_started chat id replies))
      × All IsParsable (all_requests error_text (download_progress 0 total) chat id replies)
      × All IsParsable (all_requests error_text process_started chat id replies)
      × All IsParsable (send_text chat (handle_sticker_info sticker_set s))
unfolding send_text cmd_start cmd_about cmd_info refusal read
requests-IsParsable version u st chat id total busy telegram msg s error_text replies sticker_set h
      k =
    let texts = messages-IsMarkup version none 0 0 h in
    (
      command-IsParsable u _ (λ c. (texts.0, tt)),
      command-IsParsable u _ (λ c. (texts.1, tt)),
      command-IsParsable u _ (λ c. (refl, tt)),
      step_requests-IsParsable st k,
      elim busy as (λ b. All IsParsable (refusal chat b)) [
        | true ↦ (texts.9, tt)
        | false ↦ (texts.8, tt)
      ],
      sticker_requests-IsParsable telegram chat msg s
          (all_requests error_text process_started chat id replies)
          (all_requests-IsParsable error_text process_started chat id replies texts.3),
      all_requests-IsParsable error_text (download_progress 0 total) chat id replies
          (messages-IsMarkup [] none 0 total tt).4,
      all_requests-IsParsable error_text process_started chat id replies texts.3,
      (handle_sticker_info-IsMarkup sticker_set s, tt),
    )
