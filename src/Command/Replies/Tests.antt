-- ===== src/Command/Replies/Tests.antt =====
-- Examples for the replies.
use x_sticker_bot.Base.{
  ℕ, ◌≡◌, ◌⊎◌, refl, true, false, none, some, Option, List, [], ◌∷◌, map, arith, Bytes, codes, All,
}
use x_sticker_bot.Telegram.{Sticker, Message, Update}
use x_sticker_bot.Message.{Keyboard, process_started, download_progress}
use x_sticker_bot.Command.Links.{Url}
use x_sticker_bot.Command.Services.{Fault, Reply, progress, fatal_error, download_failed, document}
use x_sticker_bot.Command.Info.{StickerSet, handle_sticker_info}
use x_sticker_bot.Command.Messages.{
  event_download_set, event_info, record_stat, download_set, sticker_info, answer_callback,
  send_file_id, try_task, work, handle_message,
}
use x_sticker_bot.Command.Replies.{
  Outgoing, upload, send_text, cmd_start, cmd_about, cmd_info, step_requests, refusal,
  sticker_requests,
}
use x_sticker_bot.Command.Replies.Parsable.{IsParsable, all_requests, requests-IsParsable}
use x_sticker_bot.Command.Replies.Buttons.{press, offers, offered_buttons}

abbrev cat : Sticker
cat = record {
  file_id = codes "f1";
  set_name = codes "Cats";
  is_video = false;
  is_animated = false;
}

abbrev sent : Message
sent = record {
  from = some 7;
  chat = 7;
  id = 1;
  text = [];
  sticker = some cat;
  animation = none;
  photo = none;
  video = none;
  document = none;
  audio = none;
  voice = none;
  video_note = none;
}

abbrev update : Update
update = record { message = some sent; callback_query = none }

-- Telegram takes every message.
abbrev telegram : Outgoing → Option ℕ
telegram m = some 9

abbrev cats : Bytes → Option StickerSet
cats name = some (record {
  title = codes "<Cats> & co";
  name = name;
  sticker_type = codes "regular";
  stickers = cat ∷ [];
})

abbrev error_text : Fault → Bytes
error_text f = codes "stat </code>: no such file"

abbrev replies : List Reply
replies = progress ∷ fatal_error download_failed ∷ document (codes "a.png" ∷ []) ∷ []

requests-IsParsable_example :
    All IsParsable (cmd_start update)
    × All IsParsable (cmd_about (codes "1.0") update)
    × All IsParsable (cmd_info update)
    × All IsParsable (step_requests (send_file_id 7 (codes "AgAD")))
    × All IsParsable (refusal 7 true)
    × All IsParsable
        (sticker_requests telegram 7 sent cat (all_requests error_text process_started 7 9 replies))
    × All IsParsable (all_requests error_text (download_progress 0 2) 7 9 replies)
    × All IsParsable (all_requests error_text process_started 7 9 replies)
    × All IsParsable (send_text 7 (handle_sticker_info cats cat))
requests-IsParsable_example =
    requests-IsParsable (codes "1.0") update (send_file_id 7 (codes "AgAD")) 7 9 2 true telegram
      sent cat error_text replies cats (omega arith) (omega arith)

abbrev no_url : Bytes → Option Url
no_url s = none

offered_buttons_example :
    ((cat.set_name ≡ [])
      × (offers (sticker_requests telegram 7 sent cat (upload 7 [] [] ∷ [])) ≡ []))
    ⊎ ((m : Outgoing) × (kb : Keyboard) × (offers
            (sticker_requests telegram 7 sent cat (upload 7 [] [] ∷ []))
          ≡ (m, kb) ∷ [])
        × (map (map (λ b. handle_message no_url (press (codes "q") 8 m sent b))) kb
            ≡ (some (
                  answer_callback (codes "q")
                  ∷ try_task 7 8
                      (record_stat 8 event_download_set ∷ download_set (codes "Cats") ∷ [])
                  ∷ [])
                ∷ [])
              ∷ (some (
                    answer_callback (codes "q")
                    ∷ work 7 (record_stat 8 event_info)
                    ∷ work 7 (sticker_info cat)
                    ∷ [])
                  ∷ [])
              ∷ []))
offered_buttons_example =
    offered_buttons no_url telegram 7 sent cat (upload 7 [] [] ∷ []) (codes "q") 8 refl
      (omega arith) refl
