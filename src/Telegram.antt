-- ===== src/Telegram.antt =====
-- The fields of github.com/go-telegram/bot/models that the program reads. Identifiers are numbers;
-- they are only compared and passed on.
use x_sticker_bot.Base.{ℕ, Bool, Option, List, Bytes}

pub record Sticker : Type 0 where
  pub file_id : Bytes
  pub set_name : Bytes
  pub is_video : Bool
  pub is_animated : Bool

-- `from` is a pointer, nil for messages with no sender. Of the media only the file ids are read.
pub record Message : Type 0 where
  pub from : Option ℕ
  pub chat : ℕ
  pub id : ℕ
  pub text : Bytes
  pub sticker : Option Sticker
  pub animation : Option Bytes
  pub photo : Option (List Bytes)
  pub video : Option Bytes
  pub document : Option Bytes
  pub audio : Option Bytes
  pub voice : Option Bytes
  pub video_note : Option Bytes

-- The message that the pressed button is on, and the message which that one replies to.
pub record BotMessage : Type 0 where
  pub chat : ℕ
  pub reply_to_message : Option Message

pub record CallbackQuery : Type 0 where
  pub id : Bytes
  pub from : ℕ
  pub payload : Bytes
  pub message : Option BotMessage

pub record Update : Type 0 where
  pub message : Option Message
  pub callback_query : Option CallbackQuery
