-- ===== src/Command/Messages.antt =====
-- HandleMessage of internal/command/download.go, and CmdGetFID, uidFromUpdate and chatIDFromUpdate
-- of internal/command/common.go. What a handler starts is a list of actions; a function given to
-- tryRunTask is the action `try_task` with the actions of the function. `none` is a panic.
pub mod Routing
use x_sticker_bot.Base.{
  ℕ, Bool, true, false, not, Option, none, some, List, [], ◌∷◌, ◌++◌, if◌then◌else◌, ◌==◌, Bytes,
  codes, eq_bytes, is_some,
}
use mathlib.Core.List.{reverse}
use x_sticker_bot.Telegram.{Sticker, Message, BotMessage, CallbackQuery, Update}
use x_sticker_bot.Message.{cb_dn_whole, cb_sticker_info}
use x_sticker_bot.Command.Links.{Url, find_tg_link, path_base, get_sid_from_message}

pub data Event : Type 0 where
  event_download_single event_download_set event_info : Event

-- What runs inside a task, or without one.
pub data Work : Type 0 where
  record_stat : ℕ → Event → Work
  send_progress : Work
  download_single : Sticker → Work
  download_set : Bytes → Work
  delete_progress : Work
  -- the keyboard under a reply to this message
  offer_whole_set : ℕ → Work
  animation_download : Bytes → Work
  sticker_info : Sticker → Work

pub data Step : Type 0 where
  answer_callback : Bytes → Step
  send_hint : ℕ → Step
  send_no_media : ℕ → Step
  send_file_id : ℕ → Bytes → Step
  -- chat and user
  try_task : ℕ → ℕ → List Work → Step
  work : ℕ → Work → Step

-- A user id of an update with neither query nor message is 0; a message with no sender panics.
unfoldable pub uid_from_update : Update → Option ℕ
uid_from_update u = elim u.callback_query [
  | some q ↦ some q.from
  | none ↦ elim u.message [ none ↦ some 0 | some msg ↦ msg.from ]
]

unfoldable pub chat_id_from_update : Update → ℕ
chat_id_from_update u =
    let of_message : ℕ = elim u.message [ none ↦ 0 | some msg ↦ msg.chat ] in
    elim u.callback_query [
      | none ↦ of_message
      | some q ↦ elim q.message [ none ↦ of_message | some m ↦ m.chat ]
    ]

-- The task for a sticker.
abbrev pub sticker_task : ℕ → Message → Sticker → List Work
sticker_task uid msg s =
    record_stat uid event_download_single
    ∷ send_progress
    ∷ download_single s
    ∷ delete_progress
    ∷ (if eq_bytes s.set_name [] then [] else offer_whole_set msg.id ∷ [])

module _ (parse_url : Bytes → Option Url) where
  -- The switch on the data of a pressed button; `origin` is the message that the bot replied to.
  unfoldable pub handle_callback : ℕ → ℕ → CallbackQuery → Message → List Step
  handle_callback chat uid q origin =
      let sid = get_sid_from_message parse_url origin in
      if eq_bytes q.payload cb_dn_whole
      then (if not (eq_bytes sid [])
          then try_task chat uid (record_stat uid event_download_set ∷ download_set sid ∷ []) ∷ []
          else send_hint chat ∷ [])
      else if eq_bytes q.payload cb_sticker_info
      then elim origin.sticker [
        | none ↦ []
        | some s ↦ work chat (record_stat uid event_info) ∷ work chat (sticker_info s) ∷ []
      ]
      else []

  unfoldable pub handle_query : ℕ → ℕ → CallbackQuery → List Step
  unfolding handle_callback
  handle_query chat uid q = answer_callback q.id ∷ elim q.message [
    | none ↦ send_hint chat ∷ []
    | some m ↦ elim m.reply_to_message [
      | none ↦ send_hint chat ∷ []
      | some origin ↦ handle_callback chat uid q origin
    ]
  ]

  pub handle_text : ℕ → ℕ → Message → List Step
  handle_text chat uid msg =
      if eq_bytes msg.text [] then send_hint chat ∷ [] else elim (find_tg_link parse_url msg.text) [
        | none ↦ send_hint chat ∷ []
        | some link ↦
            try_task chat uid
              (record_stat uid event_download_set ∷ download_set (path_base link) ∷ [])
            ∷ []
      ]

  pub handle_user_message : ℕ → ℕ → Message → List Step
  unfolding handle_text
  handle_user_message chat uid msg = elim msg.sticker [
    | some s ↦ try_task chat uid (sticker_task uid msg s) ∷ []
    | none ↦ elim msg.animation [
      | some file_id ↦ try_task chat uid (animation_download file_id ∷ []) ∷ []
      | none ↦
          let text = handle_text chat uid msg in
          if is_some msg.photo
          then send_hint chat ∷ []
          else if is_some msg.document
          then send_hint chat ∷ []
          else text
    ]
  ]

  unfoldable pub handle_message : Update → Option (List Step)
  unfolding handle_query handle_user_message
  handle_message u = elim (uid_from_update u) [
    | none ↦ none
    | some uid ↦ elim u.callback_query [
      | some q ↦ some (handle_query (chat_id_from_update u) uid q)
      | none ↦ elim u.message [
        | none ↦ some []
        | some msg ↦ some (handle_user_message (chat_id_from_update u) uid msg)
      ]
    ]
  ]

-- The last of a list; the library's photo sizes are in increasing order.
abbrev pub last_of : List Bytes → Option Bytes
last_of xs = elim (reverse xs) [ [] ↦ none | x ∷ _ ↦ some x ]

-- The switch of CmdGetFID.
unfoldable pub media_of : Message → Option Bytes
media_of msg =
    let largest : Option Bytes = elim msg.photo [ none ↦ none | some sizes ↦ last_of sizes ] in
    elim msg.sticker [
      | some s ↦ some s.file_id
      | none ↦ elim largest [
        | some photo ↦ some photo
        | none ↦ elim msg.animation [
          | some f ↦ some f
          | none ↦ elim msg.video [
            | some f ↦ some f
            | none ↦ elim msg.document [
              | some f ↦ some f
              | none ↦ elim msg.audio [
                | some f ↦ some f
                | none ↦ elim msg.voice [ some f ↦ some f | none ↦ msg.video_note ]
              ]
            ]
          ]
        ]
      ]
    ]

unfoldable pub cmd_get_fid : ℕ → Update → Option (List Step)
unfolding media_of
cmd_get_fid admin_uid u = elim u.message [
  | none ↦ some []
  | some msg ↦ elim msg.from [
    | none ↦ none
    | some uid ↦
        let reply : List Step = elim (media_of msg) [
          | none ↦ send_no_media msg.chat ∷ []
          | some file_id ↦ send_file_id msg.chat file_id ∷ []
        ] in
        if uid == admin_uid then some reply else some []
  ]
]
